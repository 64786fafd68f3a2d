-- ===== src/Shm/Inv.antt =====
-- The representation invariant of `ShmFrameQueueLayout` between calls, and what each function of
-- cpp/src/shm_frame_queue.cpp does to it.
use pantograph_arc_vision.Common.{
  ℕ, zero, suc, ◌+◌, ◌%◌, ◌≤◌, ◌<◌, ◌≡◌, inl, inr, Option, some, arith, Option-cases,
}
use pantograph_arc_vision.Common.Int.{ℤ}
use pantograph_arc_vision.Shm.{
  ShmFrameQueue, FrameSlot, FrameHeader, Bytes, Output, free, ready, ShmEnv, create, free_slots,
  push_frame, pop_frame, push_gpu_frame,
}

-- The slots of the frames in flight are READY, and all others are FREE.
pub record IsValid (q : ShmFrameQueue) : Type 0 where
  pub ordered : q.read_seq ≤ q.write_seq
  pub bounded : q.write_seq ≤ q.read_seq + 64
  pub readies : (i : ℕ) → q.read_seq ≤ i → i < q.write_seq → (q.slots (i % 64)).state ≡ ready
  pub frees : (i : ℕ) → q.write_seq ≤ i → i < q.read_seq + 64 → (q.slots (i % 64)).state ≡ free

free_slots_lem : (n i : ℕ) (slots : ℕ → FrameSlot) → i < n → (free_slots n slots i).state ≡ free
unfolding free_slots
free_slots_lem zero i slots h = absurd (omega arith)
free_slots_lem (suc n) i slots h = ground (arith, free_slots_lem n i slots)

fresh-IsValid :
    (m : ShmFrameQueue)
    → IsValid (record m { write_seq = 0; read_seq = 0; slots = free_slots 64 m.slots })
fresh-IsValid m = record {
  ordered = omega arith;
  bounded = omega arith;
  readies = λ i lo hi. absurd (omega arith);
  frees = λ i lo hi. free_slots_lem 64 (i % 64) m.slots (omega arith);
}

-- Whatever the memory held, `shm_queue_create` leaves an empty queue in a valid state.
pub create-IsValid :
    (env : ShmEnv) {q : ShmFrameQueue}
    → create env ≡ some q
    → IsValid q × (q.read_seq ≡ 0) × (q.write_seq ≡ 0)
unfolding create
create-IsValid env {q} e = elim (Option-cases env.mapped) [
  | inl gone ↦ absurd (ground arith)
  | inr (m, here) ↦ ground (arith, fresh-IsValid m)
]

pub push_frame-IsValid :
    {q : ShmFrameQueue} (h : FrameHeader) (bytes : Bytes) (now : ℤ)
    → IsValid q
    → IsValid (push_frame q h bytes now).1
unfolding push_frame
push_frame-IsValid {q} h bytes now v = record {
  ordered = ground (arith, v.ordered);
  bounded = ground (arith, v.bounded);
  readies = λ i lo hi. ground (arith, v.readies i);
  frees = λ i lo hi. ground (arith, v.frees i);
}

pub pop_frame-IsValid : {q : ShmFrameQueue} (out : Output) → IsValid q → IsValid (pop_frame q out).2
unfolding pop_frame
pop_frame-IsValid {q} out v = record {
  ordered = ground (arith, v.ordered);
  bounded = ground (arith, v.bounded);
  readies = λ i lo hi. ground (arith, v.readies i);
  frees = λ i lo hi. ground (arith, v.frees i);
}

-- On every branch, the failed device copy included.
pub push_gpu_frame-IsValid :
    {q : ShmFrameQueue} (h : FrameHeader) (copied : Option Bytes) (now : ℤ)
    → IsValid q
    → IsValid (push_gpu_frame q h copied now).1
unfolding push_gpu_frame
push_gpu_frame-IsValid {q} h copied now v = record {
  ordered = ground (arith, v.ordered);
  bounded = ground (arith, v.bounded);
  readies = λ i lo hi. ground (arith, v.readies i);
  frees = λ i lo hi. ground (arith, v.frees i);
}
