-- ===== src/Shm/Window.antt =====
-- The frames in flight in the slots of `ShmFrameQueueLayout`, and the copies of frames.
use pantograph_arc_vision.Common.{
  ℕ, zero, suc, ◌+◌, ◌-◌, ◌%◌, ◌≤◌, ◌<◌, ◌≡◌, refl, ◌≢◌, ap, List, [], ◌∷◌, ◌++◌, arith, update,
  length, take, drop, length-append, length-take, length-drop, take_of_append,
}
use pantograph_arc_vision.Shm.{
  ShmFrameQueue, FrameSlot, FrameHeader, Bytes, Output, frame_size, memcpy, max_frame_size,
}

-- Each slot has room for the largest frame.
abbrev pub IsSized : ShmFrameQueue → Type 0
IsSized q = (i : ℕ) → max_frame_size ≤ length (q.slots i).bytes

-- The frame in a slot, and the frame in the out parameters of a pop: the header, and as many bytes
-- as the header says.
abbrev pub slot_frame : FrameSlot → Output
slot_frame s = record { header = s.header; bytes = take (frame_size s.header) s.bytes }

abbrev pub out_frame : Output → Output
out_frame o = record { header = o.header; bytes = take (frame_size o.header) o.bytes }

-- The `n` frames from sequence number `r` on.
abbrev pub window : (ℕ → FrameSlot) → ℕ → ℕ → List Output
window slots r zero = []
window slots r (suc n) = slot_frame (slots (r % 64)) ∷ window slots (r + 1) n

-- The frames in flight, oldest first.
abbrev pub contents : ShmFrameQueue → List Output
contents q = window q.slots q.read_seq (q.write_seq - q.read_seq)

pub length-window : (s : ℕ → FrameSlot) (r n : ℕ) → length (window s r n) ≡ n
length-window s r zero = refl
length-window s r (suc n) = ap suc (length-window s (r + 1) n)

pub window-update :
    (s : ℕ → FrameSlot) (i : ℕ) (x : FrameSlot) (r n : ℕ)
    → ((j : ℕ) → r ≤ j → j < r + n → i ≢ j % 64)
    → window (update s i x) r n ≡ window s r n
window-update s i x r zero h = refl
window-update s i x r (suc n) h = ground (
  arith,
  h r (omega arith) (omega arith),
  window-update s i x (r + 1) n (λ j lo hi. h j (omega arith) (omega arith)),
)

pub window_snoc :
    (s : ℕ → FrameSlot) (r n : ℕ)
    → window s r (suc n) ≡ window s r n ++ (slot_frame (s ((r + n) % 64)) ∷ [])
window_snoc s r zero = ground arith
window_snoc s r (suc n) = ground (arith, window_snoc s (r + 1) n)

pub frame_size-le : (h : FrameHeader) → frame_size h ≤ max_frame_size
unfolding frame_size
frame_size-le h = ground arith

pub take-memcpy :
    (dst src : Bytes) (n : ℕ) → n ≤ length src → take n (memcpy dst src n) ≡ take n src
unfolding memcpy
take-memcpy dst src n h = take_of_append n src (drop n dst) h

pub length-memcpy :
    (dst src : Bytes) (n : ℕ)
    → n ≤ length src
    → n ≤ length dst
    → length (memcpy dst src n) ≡ length dst
unfolding memcpy
length-memcpy dst src n h k =
    omega (arith, length-append (take n src) (drop n dst), length-take n src, length-drop n dst)
