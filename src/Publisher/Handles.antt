-- ===== src/Publisher/Handles.antt =====
-- cpp/src/zmq_publisher.cpp: the handles that a publisher opens and closes, over sequences of calls.
use pantograph_arc_vision.Common.{
  ◌>>=◌, ℕ, ◌≡◌, refl, sym, subst, Bool, true, false, Option, none, some, List, [], ◌∷◌, arith,
  ◌==◌, if◌then◌else◌,
}
use pantograph_arc_vision.Publisher.{
  Publisher, Answers, remove, attach, close_socket, close_context, close,
}

-- The calls that open and close.
pub data Call : Type 0 where
  attach_to : (binds : Bool) → Answers → Call
  close_all : Call

unfoldable pub call : Call → Publisher → Option Publisher
call (attach_to binds a) p = attach binds a p >>= (λ r. some (r.1))
call close_all p = close p

unfoldable pub run_calls : List Call → Publisher → Option Publisher
run_calls [] p = some p
run_calls (c ∷ cs) p = call c p >>= run_calls cs

-- The handle, if there is one, is among those that are open.
abbrev pub IsOpen : Option ℕ → List ℕ → Type 0
IsOpen none hs = Unit
IsOpen (some h) hs = (rest : List ℕ) × (remove h hs ≡ some rest)

pub record IsHeld (p : Publisher) : Type 0 where
  pub context_open : IsOpen p.context p.open_contexts
  pub socket_open : IsOpen p.socket p.open_sockets

pub remove_head : (h : ℕ) (hs : List ℕ) → remove h (h ∷ hs) ≡ some hs
unfolding remove
remove_head h hs = let same : (h == h) ≡ true = ground arith in rw same refl

-- What a call of `bind` or `connect` comes to.
abbrev pub attached : (binds : Bool) → Answers → Publisher → Bool × Publisher
attached binds a p = elim a.new_context [
  | none ↦ (false, record p { context = none })
  | some c ↦ elim a.new_socket [
    | none ↦ (false, record p { context = none; socket = none })
    | some s ↦
        if a.succeeds
        then (
          true,
          record p {
            context = some c;
            socket = some s;
            is_bind = binds;
            open_contexts = c ∷ p.open_contexts;
            open_sockets = s ∷ p.open_sockets;
          },
        )
        else (false, record p { context = none; socket = none })
  ]
]

attach-answers :
    (binds : Bool) (c s : Option ℕ) (r : Bool) (p : Publisher)
    → let a : Answers = record { new_context = c; new_socket = s; succeeds = r } in
      attach binds a p ≡ some (attached binds a p)
unfolding attach
attach-answers binds none s r p = refl
attach-answers binds (some c) none r p = rw (remove_head c p.open_contexts) refl
attach-answers binds (some c) (some s) true p = refl
attach-answers binds (some c) (some s) false p =
    rw (remove_head s p.open_sockets, remove_head c p.open_contexts) refl

pub attach-attached :
    (binds : Bool) (a : Answers) (p : Publisher) → attach binds a p ≡ some (attached binds a p)
attach-attached binds a p = attach-answers binds a.new_context a.new_socket a.succeeds p

-- A publisher that holds nothing.
abbrev pub IsClosed : Publisher → Type 0
IsClosed p = (p.context ≡ none) × (p.socket ≡ none)

-- A publisher that holds nothing, while these are open.
abbrev pub closed_with : Bool → (contexts sockets : List ℕ) → ℕ → Publisher
closed_with b cs ss m = record {
  context = none;
  socket = none;
  is_bind = b;
  open_contexts = cs;
  open_sockets = ss;
  open_messages = m;
}

close-handles :
    (c s : Option ℕ) (b : Bool) (cs ss : List ℕ) (m : ℕ)
    → IsOpen c cs
    → IsOpen s ss
    → (p : Publisher) × (close (record {
      context = c;
      socket = s;
      is_bind = b;
      open_contexts = cs;
      open_sockets = ss;
      open_messages = m;
    })
        ≡ some p)
      × IsClosed p
unfolding close_socket close_context
close-handles none none b cs ss m hc hs = (closed_with b cs ss m, refl, (refl, refl))
close-handles none (some s) b cs ss m hc (rest, e) =
    (closed_with b cs rest m, rw e refl, (refl, refl))
close-handles (some c) none b cs ss m (rest, e) hs =
    (closed_with b rest ss m, rw e refl, (refl, refl))
close-handles (some c) (some s) b cs ss m (rest, e) (rest', e') =
    (closed_with b rest rest' m, rw (e', e) refl, (refl, refl))

close-IsClosed : (p : Publisher) → IsHeld p → (p' : Publisher) × (close p ≡ some p') × IsClosed p'
close-IsClosed p h =
    close-handles p.context p.socket p.is_bind p.open_contexts p.open_sockets p.open_messages
      h.context_open h.socket_open

attached-IsHeld :
    (binds : Bool) (c s : Option ℕ) (r : Bool) (p : Publisher)
    → IsHeld p
    → IsHeld ((attached binds (record { new_context = c; new_socket = s; succeeds = r }) p).1)
attached-IsHeld binds none s r p h = record { context_open = tt; socket_open = h.socket_open }
attached-IsHeld binds (some c) none r p h = record { context_open = tt; socket_open = tt }
attached-IsHeld binds (some c) (some s) false p h = record { context_open = tt; socket_open = tt }
attached-IsHeld binds (some c) (some s) true p h = record {
  context_open = (p.open_contexts, remove_head c p.open_contexts);
  socket_open = (p.open_sockets, remove_head s p.open_sockets);
}

IsClosed-IsHeld : (p : Publisher) → IsClosed p → IsHeld p
IsClosed-IsHeld p (e, e') = record {
  context_open = subst (λ c. IsOpen c p.open_contexts) (sym e) tt;
  socket_open = subst (λ s. IsOpen s p.open_sockets) (sym e') tt;
}

call-IsHeld :
    (c : Call) (p : Publisher) → IsHeld p → (p' : Publisher) × (call c p ≡ some p') × IsHeld p'
unfolding call
call-IsHeld (attach_to binds a) p h = (
  (attached binds a p).1,
  rw (attach-attached binds a p) refl,
  attached-IsHeld binds a.new_context a.new_socket a.succeeds p h,
)
call-IsHeld close_all p h =
    let (p', e, closed) = close-IsClosed p h in (p', e, IsClosed-IsHeld p' closed)

-- Whatever is called, in whatever order and with whatever answers of ZeroMQ, from a publisher whose
-- handles are open: no handle is closed that is not open, what the publisher holds stays open, and the
-- `close` of the destructor then works and leaves it with no handle.
pub run_calls_safe :
    (cs : List Call) (p : Publisher)
    → IsHeld p
    → (p' p'' : Publisher) × (run_calls cs p ≡ some p')
      × IsHeld p'
      × (close p' ≡ some p'')
      × IsClosed p''
unfolding run_calls
run_calls_safe [] p h = let (p'', e, closed) = close-IsClosed p h in (p, p'', refl, h, e, closed)
run_calls_safe (c ∷ cs) p h =
    let (p1, step, h1) = call-IsHeld c p h in
    let (p', p'', rest, h', last, closed) = run_calls_safe cs p1 h1 in
    (p', p'', rw step rest, h', last, closed)
