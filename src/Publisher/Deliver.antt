-- ===== src/Publisher/Deliver.antt =====
-- cpp/src/zmq_publisher.cpp: `publish` and `receive` and their variants that do not wait, as calls on a
-- publisher and on a subscriber.
use pantograph_arc_vision.Common.{
  ℕ, suc, ◌-◌, ◌<◌, ◌^◌, ◌≡◌, ◌↔◌, refl, ap, ◌⊎◌, inl, inr, Bool, true, false, not, ◌||◌, ◌&&◌,
  Option, none, some, List, [], arith, length, take, min, if◌then◌else◌, Bool-cases,
}
use pantograph_arc_vision.Common.Int.{ℤ, pos, negsuc, ltb_ℤ, leb_ℤ, ◌≤ℤ◌, ◌<ℤ◌}
use pantograph_arc_vision.Wire.{Bytes, Layout, IsLayout, encode}
use pantograph_arc_vision.Wire.RoundTrip.{decode-encode}
use pantograph_arc_vision.Wire.Bounds.{IsBytes, IsReceived, decode_safe}
use pantograph_arc_vision.Publisher.{
  Publisher, Sending, Receiving, is_open, zmq_msg_init, zmq_msg_close, publish, publish_nonblock,
  take_message, receive, receive_nonblock,
}

-- A message that is initialised and closed leaves the publisher as it was.
zmq_msg_close-zmq_msg_init : (p : Publisher) → zmq_msg_close (zmq_msg_init p) ≡ p
zmq_msg_close-zmq_msg_init p =
    let same : suc p.open_messages - 1 ≡ p.open_messages = omega arith in
    λ i. record p { open_messages = same i }

-- A message of bytes, shorter than 2 ^ 63, or none.
abbrev pub IsArrival : Option Bytes → Type 0
IsArrival message = (msg : Bytes) → message ≡ some msg → IsBytes msg × (length msg < 2 ^ 63)

publish_iff :
    (o : Bool) (n : ℕ) (rc : ℤ) (m m' : Option Bytes) (p p' : Publisher)
    → let r : Sending =
        if not o || leb_ℤ (pos n) (pos 0)
        then (negsuc 0, m, p)
        else ((if ltb_ℤ (pos 0) rc then pos 0 else negsuc 0), m', p') in
      (r.0 ≡ pos 0) ↔ ((o ≡ true) × (0 < n) × (pos 0 <ℤ rc))
publish_iff o n rc m m' p p' = (ground arith, ground arith)

publish_nonblock_iff :
    (o again : Bool) (n : ℕ) (rc : ℤ) (m m' : Option Bytes) (p p' : Publisher)
    → let r : Sending = if not o || leb_ℤ (pos n) (pos 0) then (negsuc 0, m, p) else (
      (if ltb_ℤ rc (pos 0) && again then pos 1 else (if ltb_ℤ (pos 0) rc then pos 0 else negsuc 0)),
      m',
      p',
    ) in
      (r.0 ≡ pos 0) ↔ ((o ≡ true) × (0 < n) × (pos 0 <ℤ rc))
publish_nonblock_iff o again n rc m m' p p' = (ground arith, ground arith)

module _ {ℓ} {M : Type ℓ} ⦃l : Layout M⦄ where
  publish-kept :
      (send : Bytes → ℤ) (results : Option (List M)) (count : ℤ) (p : Publisher)
      → (publish send results count p).2 ≡ p
  unfolding publish
  publish-kept send none count p = refl
  publish-kept send (some results) count p =
      elim (Bool-cases (not (is_open p) || leb_ℤ count (pos 0))) [
        | inl e ↦ rw e refl
        | inr e ↦ rw e (zmq_msg_close-zmq_msg_init p)
      ]

  publish_nonblock-kept :
      (send : Bytes → ℤ) (again : Bool) (results : Option (List M)) (count : ℤ) (p : Publisher)
      → (publish_nonblock send again results count p).2 ≡ p
  unfolding publish_nonblock
  publish_nonblock-kept send again none count p = refl
  publish_nonblock-kept send again (some results) count p =
      elim (Bool-cases (not (is_open p) || leb_ℤ count (pos 0))) [
        | inl e ↦ rw e refl
        | inr e ↦ rw e (zmq_msg_close-zmq_msg_init p)
      ]

  -- On every path `publish` and `publish_nonblock` close each message that they initialise, and they
  -- return 0 just when the publisher has a socket, there are results, and ZeroMQ took their message.
  pub publish_codes :
      (send : Bytes → ℤ) (again : Bool) (results : List M) (n : ℕ) (p : Publisher)
      → ((publish send (some results) (pos n) p).2 ≡ p)
        × ((publish_nonblock send again (some results) (pos n) p).2 ≡ p)
        × (((publish send (some results) (pos n) p).0 ≡ pos 0)
            ↔ ((is_open p ≡ true) × (0 < n) × (pos 0 <ℤ send (encode results n))))
        × (((publish_nonblock send again (some results) (pos n) p).0 ≡ pos 0)
            ↔ ((is_open p ≡ true) × (0 < n) × (pos 0 <ℤ send (encode results n))))
  unfolding publish publish_nonblock
  publish_codes send again results n p = (
    publish-kept send (some results) (pos n) p,
    publish_nonblock-kept send again (some results) (pos n) p,
    publish_iff (is_open p) n (send (encode results n)) _ _ _ _,
    publish_nonblock_iff (is_open p) again n (send (encode results n)) _ _ _ _,
  )

  -- What a receiver returns, and that it closes its message.
  abbrev pub IsReceiving : (Publisher) → ℤ → Option Bytes → Receiving M → Type ℓ
  IsReceiving p max_count message (code, ms, p') =
      (p' ≡ p)
      × ((((code ≡ negsuc 0) ⊎ (code ≡ pos 0)) × (ms ≡ []))
          ⊎ ((msg : Bytes) × (message ≡ some msg) × IsReceived msg max_count (code, ms)))

  take_message_safe :
      (message : Option Bytes) (refused : ℤ) (max_count : ℤ) (p : Publisher)
      → IsLayout M
      → IsArrival message
      → pos 0 ≤ℤ max_count
      → (refused ≡ negsuc 0) ⊎ (refused ≡ pos 0)
      → (r : Receiving M) × (take_message M message refused max_count (zmq_msg_init p) ≡ some r)
        × IsReceiving p max_count message r
  unfolding take_message
  take_message_safe none refused max_count p v h m c = (
    (refused, [], zmq_msg_close (zmq_msg_init p)),
    refl,
    (zmq_msg_close-zmq_msg_init p, inl (c, refl)),
  )
  take_message_safe (some msg) refused max_count p v h m c =
      let (bytes, short) = h msg refl in
      let ((code, ms), e, got) = decode_safe msg max_count v bytes short m in
      (
        (code, ms, zmq_msg_close (zmq_msg_init p)),
        rw e refl,
        (zmq_msg_close-zmq_msg_init p, inr (msg, refl, got)),
      )

  -- For a caller whose `max_count` is not negative, with a sound layout of the struct: whatever bytes arrive
  -- in a message of less than 2 ^ 63 bytes and whatever ZeroMQ answers, `receive` and `receive_nonblock` copy
  -- nothing out of bounds and close their message on every path. What they return is -1 or 0 with nothing
  -- copied, or what a message that arrived gives.
  pub receive_safe :
      (poll : ℤ) (message : Option Bytes) (again has_room : Bool) (max_count timeout_ms : ℤ)
      (p : Publisher)
      → IsLayout M
      → IsArrival message
      → pos 0 ≤ℤ max_count
      → ((r : Receiving M) × (receive M poll message has_room max_count timeout_ms p ≡ some r)
          × IsReceiving p max_count message r)
        × ((r : Receiving M) × (receive_nonblock M message again has_room max_count p ≡ some r)
            × IsReceiving p max_count message r)
  unfolding receive receive_nonblock
  receive_safe poll message again has_room max_count timeout_ms p v h m =
      elim (Bool-cases (not (is_open p) || not has_room)) [
        | inl e ↦
            let none_got : IsReceiving p max_count message (negsuc 0, [], p) =
              (refl, inl (inl refl, refl)) in
            (((negsuc 0, [], p), rw e refl, none_got), ((negsuc 0, [], p), rw e refl, none_got))
        | inr e ↦ (
          elim (Bool-cases (ltb_ℤ (pos 0) timeout_ms && leb_ℤ poll (pos 0))) [
            | inl w ↦ (
              (
                (if leb_ℤ (pos 0) poll then pos 0 else negsuc 0),
                [],
                zmq_msg_close (zmq_msg_init p),
              ),
              rw (e, w) refl,
              (zmq_msg_close-zmq_msg_init p, inl (ground arith, refl)),
            )
            | inr w ↦ rw (e, w) (take_message_safe message (negsuc 0) max_count p v h m (inl refl))
          ],
          rw e (
              take_message_safe message (if again then pos 0 else negsuc 0) max_count p v h m
                (ground arith)),
        )
      ]

  pub publish_nonblock_sends :
      (send : Bytes → ℤ) (again : Bool) (results : List M) (n : ℕ) (p : Publisher)
      → is_open p ≡ true
      → 0 < n
      → (code : ℤ) × (publish_nonblock send again (some results) (pos n) p
          ≡ (code, some (encode results n), p))
  unfolding publish_nonblock
  publish_nonblock_sends send again results n p o filled =
      let sends : leb_ℤ (pos n) (pos 0) ≡ false = ground arith in
      let rc = send (encode results n) in
      let code : ℤ =
        if ltb_ℤ rc (pos 0) && again
        then pos 1
        else (if ltb_ℤ (pos 0) rc then pos 0 else negsuc 0) in
      (
        code,
        rw (o, sends) (ap (λ q. (code, some (encode results n), q)) (zmq_msg_close-zmq_msg_init p)),
      )

  pub receive-encode :
      (results : List M) (poll timeout_ms : ℤ) (max : ℕ) (q : Publisher)
      → IsLayout M
      → is_open q ≡ true
      → pos 0 <ℤ poll
      → length results < 2 ^ 31
      → let n = min (length results) max in
        receive M poll (some (encode results (length results))) true (pos max) timeout_ms q
        ≡ some (pos n, take n results, q)
  unfolding receive take_message
  receive-encode results poll timeout_ms max q v oq ready few =
      let waits : (ltb_ℤ (pos 0) timeout_ms && leb_ℤ poll (pos 0)) ≡ false = ground arith in
      rw (oq, waits, decode-encode v results max few)
        (ap (λ u. some (pos (min (length results) max), take (min (length results) max) results, u))
          (zmq_msg_close-zmq_msg_init q))

  -- A subscriber with a socket that takes the message which a publisher sent, when the layout of the
  -- struct is sound and fewer than 2 ^ 31 results are published: `receive` returns the number of results
  -- that its buffer has room for, at most `max`, and copies the first so many, in order; the socket is
  -- ready if it is polled.
  pub receive-publish :
      (send : Bytes → ℤ) (results : List M) (poll timeout_ms : ℤ) (max : ℕ) (p q : Publisher)
      → IsLayout M
      → is_open p ≡ true
      → is_open q ≡ true
      → pos 0 <ℤ poll
      → 0 < length results
      → length results < 2 ^ 31
      → (msg : Bytes) × ((publish send (some results) (pos (length results)) p).1 ≡ some msg)
        × (let n = min (length results) max in
            receive M poll (some msg) true (pos max) timeout_ms q ≡ some (pos n, take n results, q))
  unfolding publish
  receive-publish send results poll timeout_ms max p q v op oq ready filled few =
      let sends : leb_ℤ (pos (length results)) (pos 0) ≡ false = ground arith in
      (
        encode results (length results),
        rw (op, sends) refl,
        receive-encode results poll timeout_ms max q v oq ready few,
      )
