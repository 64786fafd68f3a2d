-- ===== src/Shm/Atomic/Inv.antt =====
-- The memory of the queue of cpp/src/shm_frame_queue.cpp with both sides in the middle of a call.
use pantograph_arc_vision.Common.{
  ℕ, zero, suc, ◌+◌, ◌%◌, ◌≤◌, ◌<◌, ◌≡◌, Bool, true, false, List, [], ◌∷◌, ◌++◌,
}
use pantograph_arc_vision.Shm.{SlotState, free, writing, ready, reading}
use pantograph_arc_vision.Shm.Atomic.{Producer, Consumer, Shared}

-- What each side knows, at each place of its call.
abbrev pub ProducerOk : Producer → ℕ → ℕ → Type 0
ProducerOk Producer.start write read = Unit
ProducerOk (Producer.loaded_write w) write read = w ≡ write
ProducerOk (Producer.loaded_read w r) write read = (w ≡ write) × (r ≤ read)
ProducerOk (Producer.claimed w) write read = (w ≡ write) × (write < read + 64)
ProducerOk (Producer.copied w) write read = (w ≡ write) × (write < read + 64)
ProducerOk (Producer.marked w) write read = (w ≡ write) × (write < read + 64)

abbrev pub ConsumerOk : Consumer → ℕ → ℕ → Type 0
ConsumerOk Consumer.start write read = Unit
ConsumerOk (Consumer.loaded_read r) write read = r ≡ read
ConsumerOk (Consumer.loaded_write r w) write read = (r ≡ read) × (w ≤ write)
ConsumerOk (Consumer.claimed r) write read = (r ≡ read) × (read < write)
ConsumerOk (Consumer.copied r) write read = (r ≡ read) × (read < write)
ConsumerOk (Consumer.released r) write read = (r ≡ read) × (read < write)

-- The state of the slot after the last frame in flight, and of the slot of the first one.
abbrev pub tail_state : Producer → SlotState
tail_state (Producer.claimed w) = writing
tail_state (Producer.copied w) = writing
tail_state (Producer.marked w) = ready
tail_state p = free

abbrev pub head_state : Consumer → SlotState
head_state (Consumer.claimed r) = reading
head_state (Consumer.copied r) = reading
head_state (Consumer.released r) = free
head_state c = ready

-- The producer has copied its frame into its slot, and the consumer has got that of its own.
abbrev pub has_copied : Producer → Bool
has_copied (Producer.copied w) = true
has_copied (Producer.marked w) = true
has_copied p = false

abbrev pub taken : Consumer → ℕ
taken (Consumer.copied r) = 1
taken (Consumer.released r) = 1
taken c = 0

-- The first `n` frames that are published.
unfoldable pub first {ℓ} : {A : Type ℓ} → (ℕ → A) → ℕ → List A
first published zero = []
first published (suc n) = first published n ++ (published n ∷ [])

module _ {ℓ} {A : Type ℓ} (published : ℕ → A) where
  pub record IsConsistent (p : Producer) (c : Consumer) (s : Shared A) : Type ℓ where
    pub ordered : s.read_seq ≤ s.write_seq
    pub bounded : s.write_seq ≤ s.read_seq + 64
    pub producing : ProducerOk p s.write_seq s.read_seq
    pub consuming : ConsumerOk c s.write_seq s.read_seq
    pub head : s.read_seq < s.write_seq → s.states (s.read_seq % 64) ≡ head_state c
    pub tail : s.write_seq < s.read_seq + 64 → s.states (s.write_seq % 64) ≡ tail_state p
    pub readies : (i : ℕ) → s.read_seq < i → i < s.write_seq → s.states (i % 64) ≡ ready
    pub frees : (i : ℕ) → s.write_seq < i → i < s.read_seq + 64 → s.states (i % 64) ≡ free
    pub kept : (i : ℕ) → s.read_seq ≤ i → i < s.write_seq → s.frames (i % 64) ≡ published i
    pub filled : has_copied p ≡ true → s.frames (s.write_seq % 64) ≡ published s.write_seq
    pub got : s.received ≡ first published (s.read_seq + taken c)
    pub quiet : s.conflicts ≡ 0

  -- The memory is consistent with where the two sides stand.
  abbrev pub IsSound : Shared A → Type ℓ
  IsSound s = IsConsistent s.producer s.consumer s
