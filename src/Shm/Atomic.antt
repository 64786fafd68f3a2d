-- ===== src/Shm/Atomic.antt =====
-- One producer in `shm_queue_push` and one consumer in `shm_queue_pop` (cpp/src/shm_frame_queue.cpp)
-- at the same time, each of them one atomic operation, or one access to the data of a slot, at a
-- time. `A` is a frame with its header; the `n`-th frame that is published is `published n`. The
-- operations are interleaved one after the other: releases and acquires order them so.
pub mod Inv
pub mod Produce
pub mod Consume
pub mod Order
mod Tests
use pantograph_arc_vision.Common.{
  ℕ, zero, suc, ◌+◌, ◌-◌, ◌%◌, ◌≡◌, Bool, true, false, List, [], ◌∷◌, ◌++◌, leb, if◌then◌else◌,
  update,
}
use pantograph_arc_vision.Shm.{SlotState, free, writing, ready, reading, is_state, queue_capacity}

-- Where `shm_queue_push` stands, with `w` and `r` once they are loaded: before the load of
-- `write_seq`, before that of `read_seq`, before the test and the exchange, with the slot its own,
-- with the frame copied, and with the slot READY.
pub data Producer : Type 0 where
  start : Producer
  loaded_write : (w : ℕ) → Producer
  loaded_read : (w r : ℕ) → Producer
  claimed : (w : ℕ) → Producer
  copied : (w : ℕ) → Producer
  marked : (w : ℕ) → Producer

-- Where `shm_queue_pop` stands, likewise.
pub data Consumer : Type 0 where
  start : Consumer
  loaded_read : (r : ℕ) → Consumer
  loaded_write : (r w : ℕ) → Consumer
  claimed : (r : ℕ) → Consumer
  copied : (r : ℕ) → Consumer
  released : (r : ℕ) → Consumer

-- The memory, both sides, the frames that the consumer has got, and how many calls ended with -3.
pub record Shared {ℓ} (A : Type ℓ) : Type ℓ where
  pub write_seq : ℕ
  pub read_seq : ℕ
  pub states : ℕ → SlotState
  pub frames : ℕ → A
  pub producer : Producer
  pub consumer : Consumer
  pub received : List A
  pub conflicts : ℕ

module _ {ℓ} {A : Type ℓ} (published : ℕ → A) where
  -- The next operation of the producer, from where it stands; after its last one it starts on the
  -- next frame. A refused call is made again with the same frame.
  pub produce_at : Producer → Shared A → Shared A
  produce_at start s = record s { producer = loaded_write s.write_seq }
  produce_at (loaded_write w) s = record s { producer = loaded_read w s.read_seq }
  produce_at (loaded_read w r) s =
      if leb queue_capacity (w - r)
      then record s { producer = start }
      else (if is_state (s.states (w % queue_capacity)) free
          then record s {
            producer = claimed w;
            states = update s.states (w % queue_capacity) writing;
          }
          else record s { producer = start; conflicts = s.conflicts + 1 })
  produce_at (claimed w) s = record s {
    producer = copied w;
    frames = update s.frames (w % queue_capacity) (published w);
  }
  produce_at (copied w) s = record s {
    producer = marked w;
    states = update s.states (w % queue_capacity) ready;
  }
  produce_at (marked w) s = record s { producer = start; write_seq = w + 1 }

  pub produce : Shared A → Shared A
  produce s = produce_at s.producer s

module _ {ℓ} {A : Type ℓ} where
  -- The next operation of the consumer.
  pub consume_at : Consumer → Shared A → Shared A
  consume_at start s = record s { consumer = loaded_read s.read_seq }
  consume_at (loaded_read r) s = record s { consumer = loaded_write r s.write_seq }
  consume_at (loaded_write r w) s =
      if leb w r
      then record s { consumer = start }
      else (if is_state (s.states (r % queue_capacity)) ready
          then record s {
            consumer = claimed r;
            states = update s.states (r % queue_capacity) reading;
          }
          else record s { consumer = start; conflicts = s.conflicts + 1 })
  consume_at (claimed r) s = record s {
    consumer = copied r;
    received = s.received ++ (s.frames (r % queue_capacity) ∷ []);
  }
  consume_at (copied r) s = record s {
    consumer = released r;
    states = update s.states (r % queue_capacity) free;
  }
  consume_at (released r) s = record s { consumer = start; read_seq = r + 1 }

  pub consume : Shared A → Shared A
  consume s = consume_at s.consumer s

  -- What `shm_queue_create` leaves, before any call.
  pub initial : (ℕ → A) → Shared A
  initial frames = record {
    write_seq = 0;
    read_seq = 0;
    states = λ i. free;
    frames = frames;
    producer = start;
    consumer = start;
    received = [];
    conflicts = 0;
  }

-- The two take turns in any way. While the producer copies into its slot, the slot may hold
-- anything.
pub data Turn {ℓ} {A : Type ℓ} (published : ℕ → A) : Shared A → Shared A → Type ℓ where
  by_producer : {s : Shared A} → Turn published s (produce published s)
  by_consumer : {s : Shared A} → Turn published s (consume s)
  torn :
      {s : Shared A} {w : ℕ} (x : A)
      → s.producer ≡ claimed w
      → Turn published s (record s { frames = update s.frames (w % queue_capacity) x })

pub data Run {ℓ} {A : Type ℓ} (published : ℕ → A) : Shared A → Shared A → Type ℓ where
  here : {s : Shared A} → Run published s s
  next : {s s' s'' : Shared A} → Run published s s' → Turn published s' s'' → Run published s s''
