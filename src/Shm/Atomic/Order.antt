-- ===== src/Shm/Atomic/Order.antt =====
-- A producer and a consumer of the queue of cpp/src/shm_frame_queue.cpp, however they interleave.
use pantograph_arc_vision.Common.{
  ℕ, ◌+◌, ◌%◌, ◌≤◌, ◌<◌, ◌≡◌, ◌≢◌, refl, sym, subst, ap, ◌∙◌, Option, none, some, arith, update,
}
use pantograph_arc_vision.Shm.Atomic.{
  Producer, Consumer, Shared, produce, consume, initial, Turn, by_producer, by_consumer, torn, Run,
  here, next,
}
use pantograph_arc_vision.Shm.Atomic.Inv.{
  ProducerOk, ConsumerOk, has_copied, taken, first, IsConsistent, IsSound,
}
use pantograph_arc_vision.Shm.Atomic.Produce.{produce_at-IsSound}
use pantograph_arc_vision.Shm.Atomic.Consume.{consume_at-IsSound}

-- The slot that the producer writes to, and the slot that the consumer reads from.
abbrev pub writes : Producer → Option ℕ
writes (Producer.claimed w) = some (w % 64)
writes (Producer.copied w) = some (w % 64)
writes p = none

abbrev pub reads : Consumer → Option ℕ
reads (Consumer.claimed r) = some (r % 64)
reads (Consumer.copied r) = some (r % 64)
reads c = none

writes_lem :
    (p : Producer) (write read : ℕ) {i : ℕ}
    → ProducerOk p write read
    → writes p ≡ some i
    → (i ≡ write % 64) × (write < read + 64)
writes_lem Producer.start write read h e = absurd (ground arith)
writes_lem (Producer.loaded_write w) write read h e = absurd (ground arith)
writes_lem (Producer.loaded_read w r) write read h e = absurd (ground arith)
writes_lem (Producer.claimed w) write read (at, room) e = (ground arith, room)
writes_lem (Producer.copied w) write read (at, room) e = (ground arith, room)
writes_lem (Producer.marked w) write read h e = absurd (ground arith)

reads_lem :
    (c : Consumer) (write read : ℕ) {i : ℕ}
    → ConsumerOk c write read
    → reads c ≡ some i
    → (i ≡ read % 64) × (read < write)
reads_lem Consumer.start write read h e = absurd (ground arith)
reads_lem (Consumer.loaded_read r) write read h e = absurd (ground arith)
reads_lem (Consumer.loaded_write r w) write read h e = absurd (ground arith)
reads_lem (Consumer.claimed r) write read (at, below) e = (ground arith, below)
reads_lem (Consumer.copied r) write read (at, below) e = (ground arith, below)
reads_lem (Consumer.released r) write read h e = absurd (ground arith)

taken-le :
    (c : Consumer) (write read : ℕ)
    → ConsumerOk c write read
    → read ≤ write
    → read + taken c ≤ write
taken-le Consumer.start write read h order = omega arith
taken-le (Consumer.loaded_read r) write read h order = omega arith
taken-le (Consumer.loaded_write r w) write read h order = omega arith
taken-le (Consumer.claimed r) write read h order = omega arith
taken-le (Consumer.copied r) write read (at, below) order = omega arith
taken-le (Consumer.released r) write read (at, below) order = omega arith

module _ {ℓ} {A : Type ℓ} (published : ℕ → A) where
  torn-IsConsistent :
      (s : Shared A) (p : Producer) (w : ℕ) (x : A)
      → p ≡ Producer.claimed w
      → IsConsistent published p s.consumer s
      → IsConsistent published p s.consumer (record s { frames = update s.frames (w % 64) x })
  torn-IsConsistent s p w x e v =
      let (at, room) = subst (λ q. ProducerOk q s.write_seq s.read_seq) e v.producing in
      record {
        ordered = v.ordered;
        bounded = v.bounded;
        producing = v.producing;
        consuming = v.consuming;
        head = v.head;
        tail = v.tail;
        readies = v.readies;
        frees = v.frees;
        kept = λ i lo hi. ground (arith, at, room, v.kept i lo hi);
        filled = λ h. absurd (ground (arith, sym (ap has_copied e) ∙ h));
        got = v.got;
        quiet = v.quiet;
      }

  Turn-IsSound :
      {s s' : Shared A} → Turn published s s' → IsSound published s → IsSound published s'
  unfolding produce consume
  Turn-IsSound (by_producer {s}) v = produce_at-IsSound published s.producer s v
  Turn-IsSound (by_consumer {s}) v = consume_at-IsSound published s.consumer s v
  Turn-IsSound (torn {s} {w} x e) v = torn-IsConsistent s s.producer w x e v

  initial-IsSound : (frames : ℕ → A) → IsSound published (initial frames)
  unfolding initial first
  initial-IsSound frames = record {
    ordered = omega arith;
    bounded = omega arith;
    producing = tt;
    consuming = tt;
    head = λ h. absurd (omega arith);
    tail = λ h. refl;
    readies = λ i lo hi. absurd (omega arith);
    frees = λ i lo hi. refl;
    kept = λ i lo hi. absurd (omega arith);
    filled = λ h. absurd (ground arith);
    got = refl;
    quiet = refl;
  }

  run_from-IsSound :
      {s s' : Shared A} → Run published s s' → IsSound published s → IsSound published s'
  run_from-IsSound here v = v
  run_from-IsSound (next r t) v = Turn-IsSound t (run_from-IsSound r v)

  -- From the creation of the queue on, the memory is consistent with where the two sides stand,
  -- however their operations interleave and whatever a slot holds while a frame is copied into it.
  run-IsSound :
      (frames : ℕ → A) {s : Shared A} → Run published (initial frames) s → IsSound published s
  run-IsSound frames r = run_from-IsSound r (initial-IsSound frames)

  -- However the operations of the two sides interleave, the frames that the consumer has got are at
  -- any moment the first ones that the producer has published, in order and whole: none is lost, got
  -- twice or mixed with another, and none is got before it is published.
  pub received_in_order :
      (frames : ℕ → A) {s : Shared A}
      → Run published (initial frames) s
      → (n : ℕ) × (n ≤ s.write_seq) × (s.received ≡ first published n)
  received_in_order frames {s} r =
      let v = run-IsSound frames r in
      (
        s.read_seq + taken s.consumer,
        taken-le s.consumer s.write_seq s.read_seq v.consuming v.ordered,
        v.got,
      )

  -- However the operations of the two sides interleave, no exchange of a slot's state fails: no call
  -- of `shm_queue_push` or `shm_queue_pop` returns -3.
  run_quiet : (frames : ℕ → A) {s : Shared A} → Run published (initial frames) s → s.conflicts ≡ 0
  run_quiet frames r = (run-IsSound frames r).quiet

  -- However the operations of the two sides interleave, the producer never has a slot for writing
  -- that the consumer has for reading.
  pub slots_apart :
      (frames : ℕ → A) {s : Shared A} {i j : ℕ}
      → Run published (initial frames) s
      → writes s.producer ≡ some i
      → reads s.consumer ≡ some j
      → i ≢ j
  slots_apart frames {s} r at_i at_j same =
      let v = run-IsSound frames r in
      let (write, room) = writes_lem s.producer s.write_seq s.read_seq v.producing at_i in
      let (read, below) = reads_lem s.consumer s.write_seq s.read_seq v.consuming at_j in
      omega (arith, write, read, room, below, same)
