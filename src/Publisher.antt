-- ===== src/Publisher.antt =====
-- cpp/src/zmq_publisher.cpp: `ZmqPublisher`, its context and its socket. What ZeroMQ answers to a call
-- is an argument. `none` as a result is a call that hands ZeroMQ a handle that is not open.
pub mod Handles
pub mod Sessions
pub mod Deliver
mod Tests
use pantograph_arc_vision.Common.{
  ◌>>=◌, ℕ, suc, ◌+◌, ◌-◌, ◌≡◌, Bool, true, false, not, ◌||◌, ◌&&◌, Option, none, some, List, [],
  ◌∷◌, ◌==◌, if◌then◌else◌,
}
use pantograph_arc_vision.Common.Int.{ℤ, pos, negsuc, pos_part, ltb_ℤ, leb_ℤ}
use pantograph_arc_vision.Wire.{Bytes, Layout, encode, decode}

-- The members of a publisher, a null pointer as `none`, and what the process has open: contexts,
-- sockets, and messages that are initialised and not yet closed.
pub record Publisher : Type 0 where
  pub context : Option ℕ
  pub socket : Option ℕ
  pub is_bind : Bool
  pub open_contexts : List ℕ
  pub open_sockets : List ℕ
  pub open_messages : ℕ

-- What `zmq_ctx_new`, `zmq_socket` and `zmq_bind` or `zmq_connect` answer.
pub record Answers : Type 0 where
  pub new_context : Option ℕ
  pub new_socket : Option ℕ
  pub succeeds : Bool

-- A handle leaves those that are open.
pub remove : ℕ → List ℕ → Option (List ℕ)
remove h [] = none
remove h (x ∷ xs) = if h == x then some xs else (remove h xs >>= (λ ys. some (x ∷ ys)))

abbrev pub zmq_ctx_destroy : ℕ → Publisher → Option Publisher
zmq_ctx_destroy c p = remove c p.open_contexts >>= (λ cs. some (record p { open_contexts = cs }))

abbrev pub zmq_close : ℕ → Publisher → Option Publisher
zmq_close s p = remove s p.open_sockets >>= (λ ss. some (record p { open_sockets = ss }))

-- `bind`, and `connect` with `binds` false: they differ in the kind of the socket, its options, and the
-- last call.
pub attach : (binds : Bool) → Answers → Publisher → Option (Bool × Publisher)
attach binds a p = elim a.new_context [
  | none ↦ some (false, record p { context = none })
  | some c ↦
      let p1 = record p { context = some c; open_contexts = c ∷ p.open_contexts } in
      elim a.new_socket [
        | none ↦ do
          p2 ← zmq_ctx_destroy c (record p1 { socket = none })
          some (false, record p2 { context = none })
        | some s ↦
            let p2 = record p1 { socket = some s; open_sockets = s ∷ p.open_sockets } in
            if a.succeeds then some (true, record p2 { is_bind = binds }) else do
              p3 ← zmq_close s p2
              p4 ← zmq_ctx_destroy c p3
              some (false, record p4 { socket = none; context = none })
      ]
]

abbrev pub bind : Answers → Publisher → Option (Bool × Publisher)
bind = attach true

abbrev pub connect : Answers → Publisher → Option (Bool × Publisher)
connect = attach false

pub close_socket : Publisher → Option Publisher
close_socket p = elim p.socket [
  | none ↦ some p
  | some s ↦ do p1 ← zmq_close s p; some (record p1 { socket = none })
]

pub close_context : Publisher → Option Publisher
close_context p = elim p.context [
  | none ↦ some p
  | some c ↦ do p1 ← zmq_ctx_destroy c p; some (record p1 { context = none })
]

-- `close`, which is the destructor too.
abbrev pub close : Publisher → Option Publisher
close p = do p1 ← close_socket p; close_context p1

-- `socket_` is not null.
abbrev pub is_open : Publisher → Bool
is_open p = elim p.socket [ none ↦ false | some s ↦ true ]

-- `zmq_msg_init` or `zmq_msg_init_size`, and `zmq_msg_close`.
abbrev pub zmq_msg_init : Publisher → Publisher
zmq_msg_init p = record p { open_messages = suc p.open_messages }

abbrev pub zmq_msg_close : Publisher → Publisher
zmq_msg_close p = record p { open_messages = p.open_messages - 1 }

-- The code that is returned, and the message that is handed to `zmq_msg_send`, if any.
abbrev pub Sending : Type 0
Sending = ℤ × Option Bytes × Publisher

-- The code that is returned and the structs that are copied to `out_results`.
abbrev pub Receiving {ℓ} : Type ℓ → Type ℓ
Receiving M = ℤ × List M × Publisher

module _ {ℓ} {M : Type ℓ} ⦃l : Layout M⦄ where
  -- `send` is what `zmq_msg_send` returns for a message.
  pub publish : (send : Bytes → ℤ) → (results : Option (List M)) → ℤ → Publisher → Sending
  publish send none count p = (negsuc 0, none, p)
  publish send (some results) count p =
      if not (is_open p) || leb_ℤ count (pos 0)
      then (negsuc 0, none, p)
      else (let p1 = zmq_msg_init p in
          let msg = encode results (pos_part count) in
          ((if ltb_ℤ (pos 0) (send msg) then pos 0 else negsuc 0), some msg, zmq_msg_close p1))

  -- `again`: `zmq_errno()` is `EAGAIN`.
  pub publish_nonblock :
      (send : Bytes → ℤ) (again : Bool) → (results : Option (List M)) → ℤ → Publisher → Sending
  publish_nonblock send again none count p = (negsuc 0, none, p)
  publish_nonblock send again (some results) count p =
      if not (is_open p) || leb_ℤ count (pos 0)
      then (negsuc 0, none, p)
      else (let p1 = zmq_msg_init p in
          let msg = encode results (pos_part count) in
          let rc = send msg in
          (
            (if ltb_ℤ rc (pos 0) && again
                then pos 1
                else (if ltb_ℤ (pos 0) rc then pos 0 else negsuc 0)),
            some msg,
            zmq_msg_close p1,
          ))

module _ {ℓ} (M : Type ℓ) ⦃l : Layout M⦄ where
  -- `poll` is what `zmq_poll` returns, and `message` what `zmq_msg_recv` takes from the socket; `has_room`
  -- says that `out_results` is not null. `none` is a copy out of bounds.
  pub take_message : (message : Option Bytes) → (refused : ℤ) → ℤ → Publisher → Option (Receiving M)
  take_message none refused max_count p = some (refused, [], zmq_msg_close p)
  take_message (some msg) refused max_count p = do
    (count, ms) ← decode {M = M} msg max_count
    some (count, ms, zmq_msg_close p)

  pub receive :
      (poll : ℤ) (message : Option Bytes)
      → (has_room : Bool) → (max_count timeout_ms : ℤ) → Publisher
      → Option (Receiving M)
  receive poll message has_room max_count timeout_ms p =
      if not (is_open p) || not has_room
      then some (negsuc 0, [], p)
      else (let p1 = zmq_msg_init p in
          if ltb_ℤ (pos 0) timeout_ms && leb_ℤ poll (pos 0)
          then some ((if leb_ℤ (pos 0) poll then pos 0 else negsuc 0), [], zmq_msg_close p1)
          else take_message message (negsuc 0) max_count p1)

  pub receive_nonblock :
      (message : Option Bytes) (again has_room : Bool)
      → (max_count : ℤ) → Publisher
      → Option (Receiving M)
  receive_nonblock message again has_room max_count p =
      if not (is_open p) || not has_room
      then some (negsuc 0, [], p)
      else take_message message (if again then pos 0 else negsuc 0) max_count (zmq_msg_init p)
