-- ===== src/Shm/Atomic/Produce.antt =====
-- The operations of `shm_queue_push` (cpp/src/shm_frame_queue.cpp) and the invariant of Shm/Atomic/Inv.antt.
use native.Mathlib.Decide.{dec_lt}
use pantograph_arc_vision.Common.{
  ℕ, ◌+◌, ◌-◌, ◌%◌, ◌<◌, ◌≡◌, refl, sym, subst, inl, inr, Bool-cases, true, false, arith, leb,
  update,
}
use pantograph_arc_vision.Shm.{free, writing, ready}
use pantograph_arc_vision.Shm.Atomic.{Producer, Consumer, Shared, produce_at}
use pantograph_arc_vision.Shm.Atomic.Inv.{ConsumerOk, head_state, IsConsistent, IsSound}

-- A frame more in the queue is nothing that the consumer could mind.
ConsumerOk-write :
    (c : Consumer) (write read : ℕ) → ConsumerOk c write read → ConsumerOk c (write + 1) read
ConsumerOk-write Consumer.start write read h = tt
ConsumerOk-write (Consumer.loaded_read r) write read h = h
ConsumerOk-write (Consumer.loaded_write r w) write read (at, old) = (at, omega (arith, old))
ConsumerOk-write (Consumer.claimed r) write read (at, some_left) = (at, omega (arith, some_left))
ConsumerOk-write (Consumer.copied r) write read (at, some_left) = (at, omega (arith, some_left))
ConsumerOk-write (Consumer.released r) write read (at, some_left) = (at, omega (arith, some_left))

head_state_empty :
    (c : Consumer) (write read : ℕ)
    → ConsumerOk c write read
    → ¬ (read < write)
    → head_state c ≡ ready
head_state_empty Consumer.start write read h empty = refl
head_state_empty (Consumer.loaded_read r) write read h empty = refl
head_state_empty (Consumer.loaded_write r w) write read h empty = refl
head_state_empty (Consumer.claimed r) write read (at, h) empty = absurd (empty h)
head_state_empty (Consumer.copied r) write read (at, h) empty = absurd (empty h)
head_state_empty (Consumer.released r) write read (at, h) empty = absurd (empty h)

module _ {ℓ} {A : Type ℓ} (published : ℕ → A) where
  abbrev Produced : Producer → Shared A → Type ℓ
  Produced p s =
      IsConsistent published p s.consumer s → IsSound published (produce_at published p s)

  produce_start : (s : Shared A) → Produced Producer.start s
  unfolding produce_at
  produce_start s v = record {
    ordered = v.ordered;
    bounded = v.bounded;
    producing = refl;
    consuming = v.consuming;
    head = v.head;
    tail = v.tail;
    readies = v.readies;
    frees = v.frees;
    kept = v.kept;
    filled = λ h. absurd (ground arith);
    got = v.got;
    quiet = v.quiet;
  }

  produce_loaded_write : (s : Shared A) (w : ℕ) → Produced (Producer.loaded_write w) s
  unfolding produce_at
  produce_loaded_write s w v = record {
    ordered = v.ordered;
    bounded = v.bounded;
    producing = (v.producing, omega arith);
    consuming = v.consuming;
    head = v.head;
    tail = v.tail;
    readies = v.readies;
    frees = v.frees;
    kept = v.kept;
    filled = λ h. absurd (ground arith);
    got = v.got;
    quiet = v.quiet;
  }

  produce_claimed : (s : Shared A) (w : ℕ) → Produced (Producer.claimed w) s
  unfolding produce_at
  produce_claimed s w v =
      let (at, room) = v.producing in
      record {
        ordered = v.ordered;
        bounded = v.bounded;
        producing = (at, room);
        consuming = v.consuming;
        head = v.head;
        tail = v.tail;
        readies = v.readies;
        frees = v.frees;
        kept = λ i lo hi. ground (arith, at, room, v.kept i lo hi);
        filled = λ h. ground (arith, at);
        got = v.got;
        quiet = v.quiet;
      }

  produce_copied : (s : Shared A) (w : ℕ) → Produced (Producer.copied w) s
  unfolding produce_at
  produce_copied s w v =
      let (at, room) = v.producing in
      record {
        ordered = v.ordered;
        bounded = v.bounded;
        producing = (at, room);
        consuming = v.consuming;
        head = λ some_left. ground (arith, at, room, v.head some_left);
        tail = λ h. ground (arith, at);
        readies = λ i lo hi. ground (arith, at, room, v.readies i lo hi);
        frees = λ i lo hi. ground (arith, at, room, v.frees i lo hi);
        kept = v.kept;
        filled = λ h. v.filled refl;
        got = v.got;
        quiet = v.quiet;
      }

  produce_refused :
      (s : Shared A) (w r : ℕ)
      → leb 64 (w - r) ≡ true
      → produce_at published (Producer.loaded_read w r) s ≡ record s { producer = Producer.start }
  unfolding produce_at
  produce_refused s w r full = rw (full, produce_at) refl

  produce_claims :
      (s : Shared A) (w r : ℕ)
      → leb 64 (w - r) ≡ false
      → s.states (w % 64) ≡ free
      → produce_at published (Producer.loaded_read w r) s
        ≡ record s { producer = Producer.claimed w; states = update s.states (w % 64) writing }
  unfolding produce_at
  produce_claims s w r room empty = rw (room, empty, produce_at) refl

  produce_loaded_read : (s : Shared A) (w r : ℕ) → Produced (Producer.loaded_read w r) s
  produce_loaded_read s w r v =
      let (at, old) = v.producing in
      elim (Bool-cases (leb 64 (w - r))) [
        | inl full ↦ subst (IsSound published) (sym (produce_refused s w r full)) (record {
          ordered = v.ordered;
          bounded = v.bounded;
          producing = tt;
          consuming = v.consuming;
          head = v.head;
          tail = v.tail;
          readies = v.readies;
          frees = v.frees;
          kept = v.kept;
          filled = λ h. absurd (ground arith);
          got = v.got;
          quiet = v.quiet;
        })
        | inr room ↦
            let below : s.write_seq < s.read_seq + 64 = ground (arith, room, at, old) in
            let empty : s.states (w % 64) ≡ free = rw at (v.tail below) in
            subst (IsSound published) (sym (produce_claims s w r room empty)) (record {
              ordered = v.ordered;
              bounded = v.bounded;
              producing = (at, below);
              consuming = v.consuming;
              head = λ some_left. ground (arith, at, below, v.head some_left);
              tail = λ h. ground (arith, at);
              readies = λ i lo hi. ground (arith, at, below, v.readies i lo hi);
              frees = λ i lo hi. ground (arith, at, below, v.frees i lo hi);
              kept = v.kept;
              filled = λ h. absurd (ground arith);
              got = v.got;
              quiet = v.quiet;
            })
      ]

  produce_marked : (s : Shared A) (w : ℕ) → Produced (Producer.marked w) s
  unfolding produce_at
  produce_marked s w v =
      let (at, room) = v.producing in
      record {
        ordered = omega (arith, v.ordered, at);
        bounded = omega (arith, room, at);
        producing = tt;
        consuming =
            subst (λ n. ConsumerOk s.consumer (n + 1) s.read_seq) (sym at)
              (ConsumerOk-write s.consumer s.write_seq s.read_seq v.consuming);
        head = λ h. elim (dec_lt s.read_seq s.write_seq) [
          | yes some_left ↦ v.head some_left
          | no empty ↦
              let same : s.read_seq ≡ s.write_seq = omega (arith, v.ordered, empty) in
              rw (same, head_state_empty s.consumer s.write_seq s.read_seq v.consuming empty)
                (v.tail room)
        ];
        tail = λ h. rw at (v.frees (s.write_seq + 1) (omega arith) (omega (arith, h, at)));
        readies = λ i lo hi. elim (dec_lt i s.write_seq) [
          | yes below ↦ v.readies i lo below
          | no last ↦
              let same : i ≡ s.write_seq = omega (arith, hi, at, last) in rw same (v.tail room)
        ];
        frees = λ i lo hi. v.frees i (omega (arith, lo, at)) hi;
        kept = λ i lo hi. elim (dec_lt i s.write_seq) [
          | yes below ↦ v.kept i lo below
          | no last ↦
              let same : i ≡ s.write_seq = omega (arith, hi, at, last) in rw same (v.filled refl)
        ];
        filled = λ h. absurd (ground arith);
        got = v.got;
        quiet = v.quiet;
      }

  pub produce_at-IsSound : (p : Producer) (s : Shared A) → Produced p s
  produce_at-IsSound Producer.start s = produce_start s
  produce_at-IsSound (Producer.loaded_write w) s = produce_loaded_write s w
  produce_at-IsSound (Producer.loaded_read w r) s = produce_loaded_read s w r
  produce_at-IsSound (Producer.claimed w) s = produce_claimed s w
  produce_at-IsSound (Producer.copied w) s = produce_copied s w
  produce_at-IsSound (Producer.marked w) s = produce_marked s w
