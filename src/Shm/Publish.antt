-- ===== src/Shm/Publish.antt =====
-- `shm_queue_push` and `shm_queue_push_gpu` of cpp/src/shm_frame_queue.cpp against Shm/Fifo.antt.
use pantograph_arc_vision.Common.{
  ℕ, suc, ◌+◌, ◌-◌, ◌%◌, ◌≤◌, ◌<◌, ◌≡◌, refl, ap, ◌∙◌, Option, none, some, List, [], ◌∷◌, ◌++◌,
  arith, update, length,
}
use pantograph_arc_vision.Common.Int.{ℤ}
use pantograph_arc_vision.Shm.{
  ShmFrameQueue, FrameSlot, FrameHeader, Bytes, Output, success, no_room_or_frame, free, ready,
  stamp, push_frame, push_gpu_frame, copy_failed, frame_size, memcpy, set_slot,
}
use native.Mathlib.Decide.{dec_lt}
use pantograph_arc_vision.Shm.Fifo
use pantograph_arc_vision.Shm.Fifo.{sent_frame}
use pantograph_arc_vision.Shm.Window.{
  IsSized, slot_frame, window, contents, length-window, window-update, window_snoc, frame_size-le,
  take-memcpy, length-memcpy,
}
use pantograph_arc_vision.Shm.Inv.{IsValid}

-- What the device hands over has the bytes that the header announces.
abbrev pub Fits : FrameHeader → Option Bytes → Type 0
Fits h none = Unit
Fits h (some bytes) = frame_size h ≤ length bytes

-- The slot that a push fills.
abbrev filled : ShmFrameQueue → FrameHeader → Bytes → ℤ → FrameSlot
filled q h bytes now = record {
  header = stamp h now;
  bytes = memcpy (q.slots (q.write_seq % 64)).bytes bytes (frame_size h);
  state = ready;
}

pub push_frame-IsSized :
    (q : ShmFrameQueue) (h : FrameHeader) (bytes : Bytes) (now : ℤ)
    → IsSized q
    → frame_size h ≤ length bytes
    → IsSized (push_frame q h bytes now).1
unfolding push_frame
push_frame-IsSized q h bytes now z fits i = ground (
  arith,
  z i,
  length-memcpy (q.slots (q.write_seq % 64)).bytes bytes (frame_size h),
  frame_size-le h,
  z (q.write_seq % 64),
)

-- A frame goes into the slot after the last one in flight.
window-publish :
    (s : ℕ → FrameSlot) (x : FrameSlot) (r n : ℕ)
    → n < 64
    → window (update s ((r + n) % 64) x) r (suc n) ≡ window s r n ++ (slot_frame x ∷ [])
window-publish s x r n room = ground (
  arith,
  window_snoc (update s ((r + n) % 64) x) r n,
  window-update s ((r + n) % 64) x r n (λ j lo hi. omega arith),
)

-- What both ways to push leave behind when they succeed.
contents-publish :
    (q : ShmFrameQueue) (x : FrameSlot)
    → IsValid q
    → q.write_seq < q.read_seq + 64
    → window (update q.slots (q.write_seq % 64) x) q.read_seq (q.write_seq + 1 - q.read_seq)
      ≡ contents q ++ (slot_frame x ∷ [])
contents-publish q x v room =
    let n = q.write_seq - q.read_seq in
    let last : q.read_seq + n ≡ q.write_seq = omega arith in
    let more : suc n ≡ q.write_seq + 1 - q.read_seq = omega arith in
    ground (arith, window-publish q.slots x q.read_seq n, last, more)

abbrev published : ShmFrameQueue → FrameSlot → ShmFrameQueue
published q x = record q {
  write_seq = q.write_seq + 1;
  slots = update q.slots (q.write_seq % 64) x;
}

push_frame_room :
    {q : ShmFrameQueue} (h : FrameHeader) (bytes : Bytes) (now : ℤ)
    → IsValid q
    → q.write_seq - q.read_seq < 64
    → push_frame q h bytes now ≡ (success, published q (filled q h bytes now))
unfolding push_frame
push_frame_room {q} h bytes now v room = ground (arith, v.frees q.write_seq)

push_frame_full :
    {q : ShmFrameQueue} (h : FrameHeader) (bytes : Bytes) (now : ℤ)
    → ¬ (q.write_seq - q.read_seq < 64)
    → push_frame q h bytes now ≡ (no_room_or_frame, q)
unfolding push_frame
push_frame_full {q = q} h bytes now full = ground arith

slot_frame-filled :
    (q : ShmFrameQueue) (h : FrameHeader) (bytes : Bytes) (now : ℤ)
    → frame_size h ≤ length bytes
    → slot_frame (filled q h bytes now) ≡ sent_frame h bytes now
unfolding frame_size
slot_frame-filled q h bytes now fits =
    ap (λ b. record { header = stamp h now; bytes = b })
      (take-memcpy (q.slots (q.write_seq % 64)).bytes bytes (frame_size h) fits)

push_room :
    (q : List Output) (f : Output) → length q < 64 → Fifo.push q f ≡ (success, q ++ (f ∷ []))
unfolding Fifo.push
push_room q f h = ground arith

push_full :
    (q : List Output) (f : Output) → ¬ (length q < 64) → Fifo.push q f ≡ (no_room_or_frame, q)
unfolding Fifo.push
push_full q f h = ground arith

abbrev pub in_flight : ShmFrameQueue → ℕ
in_flight q = q.write_seq - q.read_seq

-- On a queue in a valid state, `shm_queue_push` of a frame with the bytes that its header announces
-- has the status and the effect of a push on the queue of at most 64 frames: it refuses a frame when
-- 64 are in flight, and otherwise appends it, stamped.
pub push_frame_refines :
    {q : ShmFrameQueue} (h : FrameHeader) (bytes : Bytes) (now : ℤ)
    → IsValid q
    → frame_size h ≤ length bytes
    → let (s, q') = push_frame q h bytes now in
      (s, contents q') ≡ Fifo.push (contents q) (sent_frame h bytes now)
push_frame_refines {q} h bytes now v fits =
    let size = length-window q.slots q.read_seq (in_flight q) in
    elim (dec_lt (in_flight q) 64) [
      | yes room ↦
          rw
            (
              push_frame_room h bytes now v room,
              push_room (contents q) (sent_frame h bytes now) (omega (arith, size)),
            )
            (ap (λ fs. (success, fs))
              (contents-publish q (filled q h bytes now) v (omega arith)
                ∙ ap (λ f. contents q ++ (f ∷ [])) (slot_frame-filled q h bytes now fits)))
      | no full ↦ rw (
        push_frame_full {q = q} h bytes now full,
        push_full (contents q) (sent_frame h bytes now) (omega (arith, size)),
      )
    ]

push_gpu_frame_copied :
    (q : ShmFrameQueue) (h : FrameHeader) (bytes : Bytes) (now : ℤ)
    → push_gpu_frame q h (some bytes) now ≡ push_frame q h bytes now
unfolding push_gpu_frame push_frame
push_gpu_frame_copied q h bytes now = refl

-- A failed copy from the device leaves the slot FREE, with a header that nobody reads.
abbrev spoiled : ShmFrameQueue → FrameHeader → ℤ → ShmFrameQueue
spoiled q h now =
    set_slot q (q.write_seq % 64)
      (record (q.slots (q.write_seq % 64)) { header = stamp h now; state = free })

push_gpu_frame_failed :
    (q : ShmFrameQueue) (h : FrameHeader) (now : ℤ)
    → IsValid q
    → in_flight q < 64
    → push_gpu_frame q h none now ≡ (copy_failed, spoiled q h now)
unfolding push_gpu_frame
push_gpu_frame_failed q h now v room = ground (arith, v.frees q.write_seq)

push_gpu_frame_full :
    (q : ShmFrameQueue) (h : FrameHeader) (now : ℤ)
    → ¬ (in_flight q < 64)
    → push_gpu_frame q h none now ≡ (no_room_or_frame, q)
unfolding push_gpu_frame
push_gpu_frame_full q h now full = ground arith

pub push_gpu-none_refines :
    (q : ShmFrameQueue) (h : FrameHeader) (now : ℤ)
    → IsValid q
    → let (s, q') = push_gpu_frame q h none now in
      (s, contents q') ≡ Fifo.push_gpu (contents q) h none now
unfolding Fifo.push_gpu
push_gpu-none_refines q h now v =
    let size = length-window q.slots q.read_seq (in_flight q) in
    elim (dec_lt (in_flight q) 64) [
      | yes room ↦ rw (push_gpu_frame_failed q h now v room) (
          ground (
            arith,
            size,
            window-update q.slots (q.write_seq % 64) ((spoiled q h now).slots (q.write_seq % 64))
                q.read_seq (in_flight q) (λ j lo hi. omega (arith, v.ordered)),
          ))
      | no full ↦ rw (push_gpu_frame_full q h now full) (ground (arith, size))
    ]

-- On a queue in a valid state, `shm_queue_push_gpu` is refused when 64 frames are in flight. A
-- device copy that fails then loses no frame and adds none, and one that succeeds appends the frame,
-- if it brings the bytes that the header announces.
pub push_gpu_frame_refines :
    (q : ShmFrameQueue) (h : FrameHeader) (copied : Option Bytes) (now : ℤ)
    → IsValid q
    → Fits h copied
    → let (s, q') = push_gpu_frame q h copied now in
      (s, contents q') ≡ Fifo.push_gpu (contents q) h copied now
unfolding Fifo.push_gpu
push_gpu_frame_refines q h none now v fits = push_gpu-none_refines q h now v
push_gpu_frame_refines q h (some bytes) now v fits =
    rw (push_gpu_frame_copied q h bytes now) (push_frame_refines {q = q} h bytes now v fits)

pub push_gpu_frame-IsSized :
    (q : ShmFrameQueue) (h : FrameHeader) (copied : Option Bytes) (now : ℤ)
    → IsSized q
    → Fits h copied
    → IsSized (push_gpu_frame q h copied now).1
unfolding push_gpu_frame
push_gpu_frame-IsSized q h none now z fits i = ground (arith, z i, z (q.write_seq % 64))
push_gpu_frame-IsSized q h (some bytes) now z fits i =
    rw (push_gpu_frame_copied q h bytes now) (push_frame-IsSized q h bytes now z fits i)
