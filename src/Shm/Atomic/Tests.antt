-- ===== src/Shm/Atomic/Tests.antt =====
-- A run of a producer and a consumer of the queue of cpp/src/shm_frame_queue.cpp side by side.
use pantograph_arc_vision.Common.{ℕ, ◌≤◌, ◌≡◌, ◌≢◌, refl, Bool, true, false, some, List, [], ◌∷◌}
use pantograph_arc_vision.Shm.Atomic.{
  Shared, produce, produce_at, consume, consume_at, initial, by_producer, by_consumer, Run, here,
  next,
}
use pantograph_arc_vision.Shm.Atomic.Inv.{first}
use pantograph_arc_vision.Shm.Atomic.Order.{writes, reads, received_in_order, slots_apart}

-- The frames are their numbers, and the slots hold 999 at first.
abbrev number : ℕ → ℕ
number n = n

abbrev begin : Shared ℕ
begin = initial (λ i. 999)

-- `true` is a turn of the producer.
abbrev play : List Bool → Shared ℕ → Shared ℕ
play [] s = s
play (true ∷ turns) s = play turns (produce number s)
play (false ∷ turns) s = play turns (consume s)

play-Run : (turns : List Bool) (s0 s : Shared ℕ) → Run number s0 s → Run number s0 (play turns s)
play-Run [] s0 s r = r
play-Run (true ∷ turns) s0 s r = play-Run turns s0 (produce number s) (next r by_producer)
play-Run (false ∷ turns) s0 s r = play-Run turns s0 (consume s) (next r by_consumer)

-- One frame through, and both sides in the middle of their second one.
abbrev turns : List Bool
turns =
    true ∷ true ∷ true ∷ true ∷ true ∷ true ∷ false ∷ true ∷ false ∷ true ∷ false ∷ true ∷ false
    ∷ true ∷ []

abbrev middle : Shared ℕ
middle = play turns begin

run : Run number begin middle
run = play-Run turns begin begin here

middle_received : middle.received ≡ 0 ∷ []
unfolding produce produce_at consume consume_at initial
middle_received = refl

middle_writes : writes middle.producer ≡ some 1
unfolding produce produce_at consume consume_at initial
middle_writes = refl

middle_reads : reads middle.consumer ≡ some 0
unfolding produce produce_at consume consume_at initial
middle_reads = refl

received_in_order_example : (n : ℕ) × (n ≤ middle.write_seq) × (middle.received ≡ first number n)
received_in_order_example = received_in_order number (λ i. 999) run

slots_apart_example : ◌≢◌ {A = ℕ} 1 0
slots_apart_example = slots_apart number (λ i. 999) run middle_writes middle_reads
