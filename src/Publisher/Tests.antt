-- ===== src/Publisher/Tests.antt =====
-- Runs of `ZmqPublisher` of cpp/src/zmq_publisher.cpp, with a struct of five bytes.
use pantograph_arc_vision.Common.{
  ◌≡◌, refl, true, false, none, some, List, [], ◌∷◌, arith, length, take, min,
}
use pantograph_arc_vision.Common.Int.{ℤ, pos}
use pantograph_arc_vision.Wire.{Bytes}
use pantograph_arc_vision.Wire.Five.{Five, five_layout, five-IsLayout, sent}
use pantograph_arc_vision.Publisher.{
  Publisher, Answers, Receiving, attach, close, publish, receive, receive_nonblock,
}
use pantograph_arc_vision.Publisher.Handles.{
  Call, attach_to, run_calls, IsHeld, IsClosed, run_calls_safe,
}
use pantograph_arc_vision.Publisher.Sessions.{
  IsTidy, Session, started, attaches, emptied, Session-closes,
}
use pantograph_arc_vision.Publisher.Deliver.{IsArrival, IsReceiving, receive_safe, receive-publish}
use pantograph_arc_vision.Wire.Bounds.{IsBytes}
use pantograph_arc_vision.Common.{subst, some_inj, ◌^◌, ◌<◌}

abbrev new_publisher : Publisher
new_publisher = record {
  context = none;
  socket = none;
  is_bind = false;
  open_contexts = [];
  open_sockets = [];
  open_messages = 0;
}

-- A publisher after `bind`.
abbrev bound_publisher : Publisher
bound_publisher = record {
  context = some 7;
  socket = some 8;
  is_bind = true;
  open_contexts = 7 ∷ [];
  open_sockets = 8 ∷ [];
  open_messages = 0;
}

abbrev answered : Answers
answered = record { new_context = some 7; new_socket = some 8; succeeds = true }

abbrev refused : Answers
refused = record { new_context = some 9; new_socket = some 10; succeeds = false }

abbrev bind_twice : List Call
bind_twice = attach_to true answered ∷ attach_to true refused ∷ []

new_publisher-IsHeld : IsHeld new_publisher
new_publisher-IsHeld = record { context_open = tt; socket_open = tt }

run_calls_safe_example :
    (p' p'' : Publisher) × (run_calls bind_twice new_publisher ≡ some p')
    × IsHeld p'
    × (close p' ≡ some p'')
    × IsClosed p''
run_calls_safe_example = run_calls_safe bind_twice new_publisher new_publisher-IsHeld

bound-Session : Session bound_publisher
unfolding attach
bound-Session =
    attaches true answered true (started {p = new_publisher} (refl, refl) refl refl) (refl, refl)
      refl

Session-closes_example :
    IsTidy bound_publisher
    × (close bound_publisher ≡ some (emptied bound_publisher))
    × ((emptied bound_publisher).open_contexts ≡ [])
    × ((emptied bound_publisher).open_sockets ≡ [])
Session-closes_example = Session-closes bound_publisher bound-Session

-- A `zmq_msg_send` that takes every message.
abbrev takes_all : Bytes → ℤ
takes_all msg = pos (length msg)

-- A message that announces 2 ^ 31 + 2 structs and holds one.
abbrev forged : Bytes
forged = 2 ∷ 0 ∷ 0 ∷ 128 ∷ 1 ∷ 2 ∷ 3 ∷ 4 ∷ 5 ∷ []

forged-IsArrival : IsArrival (some forged)
forged-IsArrival msg e =
    subst (λ m. IsBytes m × (length m < 2 ^ 63)) (some_inj e) (ground arith, omega arith)

receive_safe_example :
    ((r : Receiving Five) × (receive Five
          (pos 1)
          (some forged)
          true
          (pos 3)
          (pos 50)
          bound_publisher
        ≡ some r)
      × IsReceiving bound_publisher (pos 3) (some forged) r)
    × ((r : Receiving Five) × (receive_nonblock Five (some forged) true true (pos 3) bound_publisher
          ≡ some r)
        × IsReceiving bound_publisher (pos 3) (some forged) r)
receive_safe_example =
    receive_safe (pos 1) (some forged) true true (pos 3) (pos 50) bound_publisher five-IsLayout
      forged-IsArrival (omega arith)

receive-publish_example :
    (msg : Bytes) × ((publish takes_all (some sent) (pos (length sent)) bound_publisher).1
      ≡ some msg)
    × (let n = min (length sent) 1 in
        receive Five (pos 1) (some msg) true (pos 1) (pos 100) bound_publisher
        ≡ some (pos n, take n sent, bound_publisher))
receive-publish_example =
    receive-publish takes_all sent (pos 1) (pos 100) 1 bound_publisher bound_publisher five-IsLayout
      refl refl (omega arith) (omega arith) (omega arith)
