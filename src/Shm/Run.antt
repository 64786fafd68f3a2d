-- ===== src/Shm/Run.antt =====
-- Every sequence of calls on a `ShmFrameQueue` against the queue of Shm/Fifo.antt.
use pantograph_arc_vision.Common.{
  ℕ, zero, suc, ◌+◌, ◌≤◌, ◌≡◌, refl, ap, ap₂, ◌∙◌, some, List, [], ◌∷◌, map, arith, length, take,
  drop, min, All,
}
use pantograph_arc_vision.Common.Int.{ℤ, pos, negsuc, pos_part}
use pantograph_arc_vision.Shm.{
  ShmEnv, create, ShmFrameQueue, Bytes, Output, Status, success, push_frame, pop_frame,
  push_gpu_frame, pop_batch_frames, batch_size, frame_size,
}
use pantograph_arc_vision.Shm.Fifo
use pantograph_arc_vision.Shm.Fifo.{Op, put, put_gpu, get, get_batch, Reply, sent_frame}
use pantograph_arc_vision.Shm.Window.{IsSized, out_frame, contents, window, length-window}
use pantograph_arc_vision.Shm.Inv.{
  IsValid, create-IsValid, push_frame-IsValid, pop_frame-IsValid, push_gpu_frame-IsValid,
}
use pantograph_arc_vision.Shm.Publish.{
  in_flight, Fits, push_frame_refines, push_gpu_frame_refines, push_frame-IsSized,
  push_gpu_frame-IsSized,
}
use pantograph_arc_vision.Shm.Deliver.{
  delivered, Drained, batch_loop-Drained, pop_frame_refines, pop_frame-IsSized,
}

batch_size-min : (q : ShmFrameQueue) (m : ℤ) → batch_size q m ≡ min (in_flight q) (pos_part m)
unfolding batch_size
batch_size-min q (pos m) = ground arith
batch_size-min q (negsuc m) = ground arith

pub pop_batch_frames-Drained :
    (q : ShmFrameQueue) (dst : ℕ → Bytes) (max_count : ℤ)
    → IsValid q
    → IsSized q
    → let (outs, q') = pop_batch_frames q dst max_count in
      Drained (batch_size q max_count) q q' outs
unfolding pop_batch_frames
pop_batch_frames-Drained q dst max_count v z =
    let n = batch_size q max_count in
    let d =
      batch_loop-Drained n dst q.read_seq 0 (q.read_seq + n) q v z (omega arith)
        (omega (arith, batch_size-min q max_count)) refl in
    rw d.count d

take-min {ℓ} : {A : Type ℓ} (n : ℕ) (xs : List A) → take (min (length xs) n) xs ≡ take n xs
take-min zero xs = let e : min (length xs) 0 ≡ 0 = omega arith in rw e
take-min (suc n) [] = let e : min 0 (suc n) ≡ 0 = omega arith in rw e
take-min (suc n) (x ∷ xs) =
    let e : min (suc (length xs)) (suc n) ≡ suc (min (length xs) n) = omega arith in
    rw e (ap (◌∷◌ x) (take-min n xs))

drop-min {ℓ} : {A : Type ℓ} (n : ℕ) (xs : List A) → drop (min (length xs) n) xs ≡ drop n xs
drop-min zero xs = let e : min (length xs) 0 ≡ 0 = omega arith in rw e
drop-min (suc n) [] = let e : min 0 (suc n) ≡ 0 = omega arith in rw e
drop-min (suc n) (x ∷ xs) =
    let e : min (suc (length xs)) (suc n) ≡ suc (min (length xs) n) = omega arith in
    rw e (drop-min n xs)

-- On a queue in a valid state whose slots have room for the largest frame, `shm_queue_pop_batch`
-- delivers and removes the oldest `max_count` frames in flight, in order: all of them if they are
-- fewer, none if `max_count` is negative.
pub pop_batch_frames_refines :
    (q : ShmFrameQueue) (dst : ℕ → Bytes) (max_count : ℤ)
    → IsValid q
    → IsSized q
    → let (outs, q') = pop_batch_frames q dst max_count in
      (map out_frame outs ≡ take (pos_part max_count) (contents q))
      × (contents q' ≡ drop (pos_part max_count) (contents q))
pop_batch_frames_refines q dst max_count v z =
    let d = pop_batch_frames-Drained q dst max_count v z in
    let size = length-window q.slots q.read_seq (in_flight q) in
    let n : batch_size q max_count ≡ min (length (contents q)) (pos_part max_count) =
      rw size (batch_size-min q max_count) in
    (
      d.frames ∙ ap (λ k. take k (contents q)) n ∙ take-min (pos_part max_count) (contents q),
      d.rest ∙ ap (λ k. drop k (contents q)) n ∙ drop-min (pos_part max_count) (contents q),
    )

-- One call: what its caller sees, and the queue after it.
pub step : ShmFrameQueue → Op → Reply × ShmFrameQueue
step q (put h bytes now) = let (s, q') = push_frame q h bytes now in ((s, []), q')
step q (put_gpu h copied now) = let (s, q') = push_gpu_frame q h copied now in ((s, []), q')
step q (get out) = let (s, out', q') = pop_frame q out in ((s, delivered s out'), q')
step q (get_batch dst max_count) =
    let (outs, q') = pop_batch_frames q dst max_count in ((success, map out_frame outs), q')

pub run : ShmFrameQueue → List Op → List Reply
run q [] = []
run q (op ∷ ops) = let (reply, q') = step q op in reply ∷ run q' ops

-- The caller's part: the frame handed over has the bytes that its header announces.
abbrev pub IsFit : Op → Type 0
IsFit (put h bytes now) = frame_size h ≤ length bytes
IsFit (put_gpu h copied now) = Fits h copied
IsFit (get out) = Unit
IsFit (get_batch dst max_count) = Unit

-- Every call, refused ones and failed device copies included, leaves a valid queue whose slots have
-- room for the largest frame in a valid state.
pub step-IsValid : (q : ShmFrameQueue) (op : Op) → IsValid q → IsSized q → IsValid (step q op).1
unfolding step
step-IsValid q (put h bytes now) v z = push_frame-IsValid h bytes now v
step-IsValid q (put_gpu h copied now) v z = push_gpu_frame-IsValid h copied now v
step-IsValid q (get out) v z = pop_frame-IsValid out v
step-IsValid q (get_batch dst max_count) v z = (pop_batch_frames-Drained q dst max_count v z).valid

pub step-IsSized :
    (q : ShmFrameQueue) (op : Op) → IsFit op → IsValid q → IsSized q → IsSized (step q op).1
unfolding step
step-IsSized q (put h bytes now) f v z = push_frame-IsSized q h bytes now z f
step-IsSized q (put_gpu h copied now) f v z = push_gpu_frame-IsSized q h copied now z f
step-IsSized q (get out) f v z = pop_frame-IsSized q out z
step-IsSized q (get_batch dst max_count) f v z =
    (pop_batch_frames-Drained q dst max_count v z).sized

pub step_refines :
    (q : ShmFrameQueue) (op : Op)
    → IsFit op
    → IsValid q
    → IsSized q
    → let (reply, q') = step q op in (reply, contents q') ≡ Fifo.step (contents q) op
unfolding step Fifo.step
step_refines q (put h bytes now) f v z =
    ap (λ (p : Status × List Output). ((p.0, []), p.1)) (push_frame_refines h bytes now v f)
step_refines q (put_gpu h copied now) f v z =
    ap (λ (p : Status × List Output). ((p.0, []), p.1)) (push_gpu_frame_refines q h copied now v f)
step_refines q (get out) f v z =
    ap (λ (p : Status × List Output × List Output). ((p.0, p.1), p.2)) (pop_frame_refines q out v z)
step_refines q (get_batch dst max_count) f v z =
    let (frames, rest) = pop_batch_frames_refines q dst max_count v z in
    ap₂ (λ (a b : List Output). ((success, a), b)) frames rest

pub run_from :
    (q : ShmFrameQueue) (ops : List Op)
    → All IsFit ops
    → IsValid q
    → IsSized q
    → run q ops ≡ Fifo.run (contents q) ops
unfolding run Fifo.run
run_from q [] f v z = refl
run_from q (op ∷ ops) (f, fs) v z =
    ap₂ ◌∷◌ (ap (λ (p : Reply × List Output). p.0) (step_refines q op f v z)) (
      run_from (step q op).1 ops fs (step-IsValid q op v z) (step-IsSized q op f v z)
      ∙ ap (λ (p : Reply × List Output). Fifo.run p.1 ops) (step_refines q op f v z))

-- From `shm_queue_create` on, whatever the mapped memory held, every sequence of calls gets the
-- statuses and the frames of a first-in, first-out queue of at most 64 frames that starts empty,
-- if the mapped slots have room for the largest frame and each frame handed over has the bytes
-- that its header announces.
pub run_refines :
    (env : ShmEnv) {q : ShmFrameQueue} (ops : List Op)
    → create env ≡ some q
    → IsSized q
    → All IsFit ops
    → run q ops ≡ Fifo.run [] ops
run_refines env {q} ops made z fits =
    let (v, at_start, at_end) = create-IsValid env made in
    let none_left : in_flight q ≡ 0 = omega (arith, at_start, at_end) in
    run_from q ops fits v z ∙ ap (λ n. Fifo.run (window q.slots q.read_seq n) ops) none_left
