-- ===== src/Shm/Atomic/Consume.antt =====
-- The operations of `shm_queue_pop` (cpp/src/shm_frame_queue.cpp) and the invariant of Shm/Atomic/Inv.antt.
use native.Mathlib.Decide.{dec_lt}
use pantograph_arc_vision.Common.{
  ℕ, suc, ◌+◌, ◌%◌, ◌<◌, ◌≡◌, refl, sym, subst, ap, ap₂, ◌∙◌, inl, inr, Bool-cases, true, false, [],
  ◌∷◌, ◌++◌, arith, leb, update,
}
use pantograph_arc_vision.Shm.{free, ready, reading}
use pantograph_arc_vision.Shm.Atomic.{Producer, Consumer, Shared, consume_at}
use pantograph_arc_vision.Shm.Atomic.Inv.{ProducerOk, tail_state, first, IsConsistent, IsSound}

-- A free slot more is nothing that the producer could mind.
ProducerOk-read :
    (p : Producer) (write read : ℕ) → ProducerOk p write read → ProducerOk p write (read + 1)
ProducerOk-read Producer.start write read h = tt
ProducerOk-read (Producer.loaded_write w) write read h = h
ProducerOk-read (Producer.loaded_read w r) write read (at, old) = (at, omega (arith, old))
ProducerOk-read (Producer.claimed w) write read (at, room) = (at, omega (arith, room))
ProducerOk-read (Producer.copied w) write read (at, room) = (at, omega (arith, room))
ProducerOk-read (Producer.marked w) write read (at, room) = (at, omega (arith, room))

tail_state_full :
    (p : Producer) (write read : ℕ)
    → ProducerOk p write read
    → ¬ (write < read + 64)
    → tail_state p ≡ free
tail_state_full Producer.start write read h full = refl
tail_state_full (Producer.loaded_write w) write read h full = refl
tail_state_full (Producer.loaded_read w r) write read h full = refl
tail_state_full (Producer.claimed w) write read (at, h) full = absurd (full h)
tail_state_full (Producer.copied w) write read (at, h) full = absurd (full h)
tail_state_full (Producer.marked w) write read (at, h) full = absurd (full h)

module _ {ℓ} {A : Type ℓ} (published : ℕ → A) where
  abbrev Consumed : Consumer → Shared A → Type ℓ
  Consumed c s = IsConsistent published s.producer c s → IsSound published (consume_at c s)

  consume_start : (s : Shared A) → Consumed Consumer.start s
  unfolding consume_at
  consume_start s v = record {
    ordered = v.ordered;
    bounded = v.bounded;
    producing = v.producing;
    consuming = refl;
    head = v.head;
    tail = v.tail;
    readies = v.readies;
    frees = v.frees;
    kept = v.kept;
    filled = v.filled;
    got = v.got;
    quiet = v.quiet;
  }

  consume_loaded_read : (s : Shared A) (r : ℕ) → Consumed (Consumer.loaded_read r) s
  unfolding consume_at
  consume_loaded_read s r v = record {
    ordered = v.ordered;
    bounded = v.bounded;
    producing = v.producing;
    consuming = (v.consuming, omega arith);
    head = v.head;
    tail = v.tail;
    readies = v.readies;
    frees = v.frees;
    kept = v.kept;
    filled = v.filled;
    got = v.got;
    quiet = v.quiet;
  }

  consume_refused :
      (s : Shared A) (r w : ℕ)
      → leb w r ≡ true
      → consume_at (Consumer.loaded_write r w) s ≡ record s { consumer = Consumer.start }
  unfolding consume_at
  consume_refused s r w empty = rw (empty, consume_at) refl

  consume_claims :
      (s : Shared A) (r w : ℕ)
      → leb w r ≡ false
      → s.states (r % 64) ≡ ready
      → consume_at (Consumer.loaded_write r w) s
        ≡ record s { consumer = Consumer.claimed r; states = update s.states (r % 64) reading }
  unfolding consume_at
  consume_claims s r w some_left full = rw (some_left, full, consume_at) refl

  consume_loaded_write : (s : Shared A) (r w : ℕ) → Consumed (Consumer.loaded_write r w) s
  consume_loaded_write s r w v =
      let (at, old) = v.consuming in
      elim (Bool-cases (leb w r)) [
        | inl empty ↦ subst (IsSound published) (sym (consume_refused s r w empty)) (record {
          ordered = v.ordered;
          bounded = v.bounded;
          producing = v.producing;
          consuming = tt;
          head = v.head;
          tail = v.tail;
          readies = v.readies;
          frees = v.frees;
          kept = v.kept;
          filled = v.filled;
          got = v.got;
          quiet = v.quiet;
        })
        | inr some_left ↦
            let below : s.read_seq < s.write_seq = ground (arith, some_left, at, old) in
            let full : s.states (r % 64) ≡ ready = rw at (v.head below) in
            subst (IsSound published) (sym (consume_claims s r w some_left full)) (record {
              ordered = v.ordered;
              bounded = v.bounded;
              producing = v.producing;
              consuming = (at, below);
              head = λ h. ground (arith, at);
              tail = λ h. ground (arith, at, below, h, v.tail h);
              readies = λ i lo hi. ground (arith, at, v.bounded, v.readies i lo hi);
              frees = λ i lo hi. ground (arith, at, below, v.frees i lo hi);
              kept = v.kept;
              filled = v.filled;
              got = v.got;
              quiet = v.quiet;
            })
      ]

  consume_claimed : (s : Shared A) (r : ℕ) → Consumed (Consumer.claimed r) s
  unfolding consume_at first
  consume_claimed s r v =
      let (at, below) = v.consuming in
      let start : s.read_seq + 0 ≡ s.read_seq = omega arith in
      let end : s.read_seq + 1 ≡ suc s.read_seq = omega arith in
      record {
        ordered = v.ordered;
        bounded = v.bounded;
        producing = v.producing;
        consuming = (at, below);
        head = v.head;
        tail = v.tail;
        readies = v.readies;
        frees = v.frees;
        kept = v.kept;
        filled = v.filled;
        got =
            ap₂ (λ xs x. xs ++ (x ∷ [])) (v.got ∙ ap (first published) start)
              (ap (λ i. s.frames (i % 64)) at ∙ v.kept s.read_seq (omega arith) below)
            ∙ ap (first published) (sym end);
        quiet = v.quiet;
      }

  consume_copied : (s : Shared A) (r : ℕ) → Consumed (Consumer.copied r) s
  unfolding consume_at
  consume_copied s r v =
      let (at, below) = v.consuming in
      record {
        ordered = v.ordered;
        bounded = v.bounded;
        producing = v.producing;
        consuming = (at, below);
        head = λ h. ground (arith, at);
        tail = λ h. ground (arith, at, below, h, v.tail h);
        readies = λ i lo hi. ground (arith, at, v.bounded, v.readies i lo hi);
        frees = λ i lo hi. ground (arith, at, below, v.frees i lo hi);
        kept = v.kept;
        filled = v.filled;
        got = v.got;
        quiet = v.quiet;
      }

  consume_released : (s : Shared A) (r : ℕ) → Consumed (Consumer.released r) s
  unfolding consume_at
  consume_released s r v =
      let (at, below) = v.consuming in
      let none_more : r + 1 + 0 ≡ s.read_seq + 1 = omega (arith, at) in
      record {
        ordered = omega (arith, below, at);
        bounded = omega (arith, v.bounded, at);
        producing =
            subst (λ n. ProducerOk s.producer s.write_seq (n + 1)) (sym at)
              (ProducerOk-read s.producer s.write_seq s.read_seq v.producing);
        consuming = tt;
        head = λ h. rw at (v.readies (s.read_seq + 1) (omega arith) (omega (arith, h, at)));
        tail = λ h. elim (dec_lt s.write_seq (s.read_seq + 64)) [
          | yes room ↦ v.tail room
          | no full ↦
              let same : s.write_seq % 64 ≡ s.read_seq % 64 = omega (arith, h, at, full) in
              ap s.states same
              ∙ v.head below
              ∙ sym (tail_state_full s.producer s.write_seq s.read_seq v.producing full)
        ];
        readies = λ i lo hi. v.readies i (omega (arith, lo, at)) hi;
        frees = λ i lo hi. elim (dec_lt i (s.read_seq + 64)) [
          | yes room ↦ v.frees i lo room
          | no last ↦
              let same : i % 64 ≡ s.read_seq % 64 = omega (arith, hi, at, last) in
              ap s.states same ∙ v.head below
        ];
        kept = λ i lo hi. v.kept i (omega (arith, lo, at)) hi;
        filled = v.filled;
        got = v.got ∙ ap (first published) (sym none_more);
        quiet = v.quiet;
      }

  pub consume_at-IsSound : (c : Consumer) (s : Shared A) → Consumed c s
  consume_at-IsSound Consumer.start s = consume_start s
  consume_at-IsSound (Consumer.loaded_read r) s = consume_loaded_read s r
  consume_at-IsSound (Consumer.loaded_write r w) s = consume_loaded_write s r w
  consume_at-IsSound (Consumer.claimed r) s = consume_claimed s r
  consume_at-IsSound (Consumer.copied r) s = consume_copied s r
  consume_at-IsSound (Consumer.released r) s = consume_released s r
