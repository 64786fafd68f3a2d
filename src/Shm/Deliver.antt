-- ===== src/Shm/Deliver.antt =====
-- `shm_queue_pop` and `shm_queue_pop_batch` of cpp/src/shm_frame_queue.cpp against Shm/Fifo.antt.
use native.Mathlib.Decide.{dec_lt}
use pantograph_arc_vision.Common.{
  ℕ, zero, suc, ◌+◌, ◌-◌, ◌%◌, ◌≤◌, ◌<◌, ◌≡◌, refl, ap, ap₂, sym, List, [], ◌∷◌, map, arith, update,
  length, take, drop,
}
use pantograph_arc_vision.Shm.{
  ShmFrameQueue, FrameSlot, Bytes, Output, Status, success, no_room_or_frame, free, pop_frame,
  batch_loop, frame_size, memcpy, max_frame_size,
}
use pantograph_arc_vision.Shm.Fifo
use pantograph_arc_vision.Shm.Window.{
  IsSized, slot_frame, out_frame, contents, window-update, frame_size-le, take-memcpy,
}
use pantograph_arc_vision.Shm.Inv.{IsValid}
use pantograph_arc_vision.Shm.Publish.{in_flight}

-- What a pop hands over: the frame in the out parameters, if it succeeds.
abbrev pub delivered : Status → Output → List Output
delivered success out = out_frame out ∷ []
delivered _ out = []

-- The queue after the oldest frame is taken, and that frame as it lands in a caller's buffer.
abbrev taken : ShmFrameQueue → ShmFrameQueue
taken q = record q {
  read_seq = q.read_seq + 1;
  slots = update q.slots (q.read_seq % 64) (record (q.slots (q.read_seq % 64)) { state = free });
}

abbrev landed : FrameSlot → Bytes → Output
landed x dst = record { header = x.header; bytes = memcpy dst x.bytes (frame_size x.header) }

out_frame-landed :
    (x : FrameSlot) (dst : Bytes)
    → max_frame_size ≤ length x.bytes
    → out_frame (landed x dst) ≡ slot_frame x
out_frame-landed x dst room =
    ap (λ b. record { header = x.header; bytes = b })
      (take-memcpy dst x.bytes (frame_size x.header) (omega (arith, frame_size-le x.header)))

pop_frame_some :
    (q : ShmFrameQueue) (out : Output)
    → IsValid q
    → q.read_seq < q.write_seq
    → pop_frame q out ≡ (success, landed (q.slots (q.read_seq % 64)) out.bytes, taken q)
unfolding pop_frame
pop_frame_some q out v some_left = ground (arith, v.readies q.read_seq)

pop_frame_none :
    (q : ShmFrameQueue) (out : Output)
    → ¬ (q.read_seq < q.write_seq)
    → pop_frame q out ≡ (no_room_or_frame, out, q)
unfolding pop_frame
pop_frame_none q out empty = ground arith

pub contents-taken :
    (q : ShmFrameQueue)
    → IsValid q
    → q.read_seq < q.write_seq
    → contents q ≡ slot_frame (q.slots (q.read_seq % 64)) ∷ contents (taken q)
contents-taken q v some_left =
    let n = q.write_seq - (q.read_seq + 1) in
    let count : in_flight q ≡ suc n = omega arith in
    rw count (
      ap (◌∷◌ (slot_frame (q.slots (q.read_seq % 64)))) (
        sym (
          window-update q.slots (q.read_seq % 64) _ (q.read_seq + 1) n
            (λ j lo hi. omega (arith, v.bounded)))))

contents_empty : (q : ShmFrameQueue) → ¬ (q.read_seq < q.write_seq) → contents q ≡ []
contents_empty q empty = let none_left : in_flight q ≡ 0 = omega arith in rw none_left

-- On a queue in a valid state whose slots have room for the largest frame, `shm_queue_pop` delivers
-- the oldest frame in flight and removes it, and reports that there is none when there is none.
pub pop_frame_refines :
    (q : ShmFrameQueue) (out : Output)
    → IsValid q
    → IsSized q
    → let (s, out', q') = pop_frame q out in
      (s, delivered s out', contents q') ≡ Fifo.pop (contents q)
unfolding Fifo.pop
pop_frame_refines q out v z = elim (dec_lt q.read_seq q.write_seq) [
  | yes left ↦
      rw (pop_frame_some q out v left, contents-taken q v left)
        (ap (λ f. (success, f ∷ [], contents (taken q)))
          (out_frame-landed (q.slots (q.read_seq % 64)) out.bytes (z (q.read_seq % 64))))
  | no empty ↦ rw (pop_frame_none q out empty, contents_empty q empty)
]

pub pop_frame-IsSized : (q : ShmFrameQueue) (out : Output) → IsSized q → IsSized (pop_frame q out).2
unfolding pop_frame
pop_frame-IsSized q out z i = ground (arith, z i, z (q.read_seq % 64))

-- What the batch loop has done after `n` frames.
pub record Drained (n : ℕ) (q q' : ShmFrameQueue) (outs : List Output) : Type 0 where
  pub valid : IsValid q'
  pub sized : IsSized q'
  pub count : length outs ≡ n
  pub frames : map out_frame outs ≡ take n (contents q)
  pub rest : contents q' ≡ drop n (contents q)

abbrev pub advanced : ShmFrameQueue → ℕ → (ℕ → FrameSlot) → ShmFrameQueue
advanced q j slots = record q { read_seq = j; slots = slots }

taken-IsValid : (q : ShmFrameQueue) → IsValid q → q.read_seq < q.write_seq → IsValid (taken q)
taken-IsValid q v left = record {
  ordered = omega arith;
  bounded = omega (arith, v.bounded);
  readies = λ i lo hi. ground (arith, v.readies i, v.bounded);
  frees = λ i lo hi. ground (arith, v.frees i);
}

taken-IsSized : (q : ShmFrameQueue) → IsSized q → IsSized (taken q)
taken-IsSized q z i = ground (arith, z i, z (q.read_seq % 64))

batch_loop_step :
    (n : ℕ) (dst : ℕ → Bytes) (r i : ℕ) (q : ShmFrameQueue)
    → IsValid q
    → q.read_seq ≡ r + i
    → q.read_seq < q.write_seq
    → let (outs, slots) = batch_loop n dst r (i + 1) (taken q).slots in
      batch_loop (suc n) dst r i q.slots
      ≡ (landed (q.slots (q.read_seq % 64)) (dst i) ∷ outs, slots)
unfolding batch_loop
batch_loop_step n dst r i q v at left = rw (sym at) (ground (arith, v.readies q.read_seq))

pub batch_loop-Drained :
    (n : ℕ) (dst : ℕ → Bytes) (r i j : ℕ) (q : ShmFrameQueue)
    → IsValid q
    → IsSized q
    → q.read_seq ≡ r + i
    → n ≤ in_flight q
    → j ≡ q.read_seq + n
    → let (outs, slots) = batch_loop n dst r i q.slots in Drained n q (advanced q j slots) outs
unfolding batch_loop
batch_loop-Drained zero dst r i j q v z at fits to =
    let same : j ≡ q.read_seq = omega arith in
    rw same (record { valid = v; sized = z; count = refl; frames = refl; rest = refl })
batch_loop-Drained (suc n) dst r i j q v z at fits to =
    let left : q.read_seq < q.write_seq = omega arith in
    let ih =
      batch_loop-Drained n dst r (i + 1) j (taken q) (taken-IsValid q v left) (taken-IsSized q z)
        (omega arith) (omega arith) (omega arith) in
    let head = out_frame-landed (q.slots (q.read_seq % 64)) (dst i) (z (q.read_seq % 64)) in
    rw (batch_loop_step n dst r i q v at left) (record {
      valid = ih.valid;
      sized = ih.sized;
      count = ap suc ih.count;
      frames = rw (contents-taken q v left) (ap₂ ◌∷◌ head ih.frames);
      rest = rw (contents-taken q v left) ih.rest;
    })
