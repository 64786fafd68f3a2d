-- ===== src/Engine/Loop/Pairs.antt =====
-- cpp/src/engine_main.cpp: which frames `stream_detect_loop` puts together, on the frames in flight of its
-- two queues.
use pantograph_arc_vision.Common.{
  ◌≡◌, refl, sym, ap, ◌∙◌, ◌⊎◌, inl, inr, Bool, true, false, Option, none, some, List, [], ◌∷◌,
  arith, if◌then◌else◌, Bool-cases,
}
use pantograph_arc_vision.Common.Int.{ℤ, ltb_ℤ}
use pantograph_arc_vision.Shm.{
  ShmFrameQueue, Output, Status, success, null_argument, no_room_or_frame, slot_busy, copy_failed,
  pop_frame,
}
use pantograph_arc_vision.Shm.Fifo
use pantograph_arc_vision.Shm.Inv.{IsValid}
use pantograph_arc_vision.Shm.Window.{IsSized, out_frame, contents}
use pantograph_arc_vision.Shm.Deliver.{delivered, pop_frame_refines}
use pantograph_arc_vision.Engine.Loop.{LoopState, is_failure, pts_distance, pop_pair}

-- The pairing on lists of frames.
pub pair_up : ℤ → List Output → List Output → Option (Output × Output) × List Output × List Output
pair_up tolerance [] us = (none, [], us)
pair_up tolerance (v ∷ vs) [] = (none, vs, [])
pair_up tolerance (v ∷ vs) (u ∷ us) = (
  (if ltb_ℤ tolerance (pts_distance v.header.pts_ns u.header.pts_ns) then none else some (v, u)),
  vs,
  us,
)

-- A pop of an empty queue, and one of a queue with a frame.
Popped : ShmFrameQueue → Output → Type 0
Popped q out =
    let (s, out', q') = pop_frame q out in
    ((contents q ≡ []) × (is_failure s ≡ true) × (contents q' ≡ []))
    ⊎ ((is_failure s ≡ false) × (contents q ≡ out_frame out' ∷ contents q'))

head_or : Output → List Output → Output
head_or x [] = x
head_or x (y ∷ ys) = y

popped_as :
    (s : Status) (out : Output) (xs ys : List Output)
    → (s, delivered s out, ys) ≡ Fifo.pop xs
    → ((xs ≡ []) × (is_failure s ≡ true) × (ys ≡ []))
      ⊎ ((is_failure s ≡ false) × (xs ≡ out_frame out ∷ ys))
unfolding Fifo.pop head_or
popped_as s out [] ys e = inl (refl, ap (λ r. is_failure r.0) e, ap (λ r. r.2) e)
popped_as success out (x ∷ xs) ys e =
    inr (refl, λ i. ap (λ r. head_or x r.1) (sym e) i ∷ ap (λ r. r.2) (sym e) i)
popped_as null_argument out (x ∷ xs) ys e =
    let clash : true ≡ false = ap (λ r. is_failure r.0) e in absurd (ground (arith, clash))
popped_as no_room_or_frame out (x ∷ xs) ys e =
    let clash : true ≡ false = ap (λ r. is_failure r.0) e in absurd (ground (arith, clash))
popped_as slot_busy out (x ∷ xs) ys e =
    let clash : true ≡ false = ap (λ r. is_failure r.0) e in absurd (ground (arith, clash))
popped_as copy_failed out (x ∷ xs) ys e =
    let clash : true ≡ false = ap (λ r. is_failure r.0) e in absurd (ground (arith, clash))

popped : (q : ShmFrameQueue) (out : Output) → IsValid q → IsSized q → Popped q out
unfolding Popped
popped q out v z =
    let (s, out', q') = pop_frame q out in
    popped_as s out' (contents q) (contents q') (pop_frame_refines q out v z)

-- The frames of a pair as far as their headers say.
abbrev pub pair_frames : Option (Output × Output) → Option (Output × Output)
pair_frames none = none
pair_frames (some (v, u)) = some (out_frame v, out_frame u)

-- What a pass has found, and the frames that are then in flight.
abbrev pub pass_view :
    Option (Output × Output) × LoopState → Option (Output × Output) × List Output × List Output
pass_view (r, s) = (pair_frames r, contents s.visible_queue, contents s.uv_queue)

-- Both queues are in a valid state, with slots that have room for the largest frame.
pub record IsReady (s : LoopState) : Type 0 where
  pub visible_valid : IsValid s.visible_queue
  pub visible_sized : IsSized s.visible_queue
  pub uv_valid : IsValid s.uv_queue
  pub uv_sized : IsSized s.uv_queue

pub pop_pair_idle :
    (tolerance : ℤ) (s : LoopState)
    → is_failure (pop_frame s.visible_queue s.vis).0 ≡ true
    → let (rc, vis, q) = pop_frame s.visible_queue s.vis in
      pop_pair tolerance s ≡ (none, record s { vis = vis; visible_queue = q })
unfolding pop_pair
pop_pair_idle tolerance s e = rw (pop_pair, e) refl

pub pop_pair_lost :
    (tolerance : ℤ) (s : LoopState)
    → is_failure (pop_frame s.visible_queue s.vis).0 ≡ false
    → is_failure (pop_frame s.uv_queue s.uv).0 ≡ true
    → let (rc, vis, q) = pop_frame s.visible_queue s.vis in
      let (rc', uv, q') = pop_frame s.uv_queue s.uv in
      pop_pair tolerance s ≡ (none, record { vis = vis; visible_queue = q; uv = uv; uv_queue = q' })
unfolding pop_pair
pop_pair_lost tolerance s e e' = rw (pop_pair, e, e') refl

pub pop_pair_both :
    (tolerance : ℤ) (s : LoopState)
    → is_failure (pop_frame s.visible_queue s.vis).0 ≡ false
    → is_failure (pop_frame s.uv_queue s.uv).0 ≡ false
    → let (rc, vis, q) = pop_frame s.visible_queue s.vis in
      let (rc', uv, q') = pop_frame s.uv_queue s.uv in
      pop_pair tolerance s ≡ (
        (if ltb_ℤ tolerance (pts_distance vis.header.pts_ns uv.header.pts_ns)
            then none
            else some (vis, uv)),
        record { vis = vis; visible_queue = q; uv = uv; uv_queue = q' },
      )
unfolding pop_pair
pop_pair_both tolerance s e e' =
    let vis = (pop_frame s.visible_queue s.vis).1 in
    let uv = (pop_frame s.uv_queue s.uv).1 in
    elim (Bool-cases (ltb_ℤ tolerance (pts_distance vis.header.pts_ns uv.header.pts_ns))) [
      | inl far ↦ rw (pop_pair, e, e', far) refl
      | inr near ↦ rw (pop_pair, e, e', near) refl
    ]

pair_frames_if :
    (b : Bool) (v u : Output)
    → pair_frames (if b then none else some (v, u))
      ≡ (if b then none else some (out_frame v, out_frame u))
pair_frames_if true v u = refl
pair_frames_if false v u = refl

-- On two queues in a valid state a pass of the loop takes the oldest frame of each, if both have one, and
-- puts the two together just when their time stamps differ by the tolerance at most. When there is no
-- visible frame it takes none, and when there is only a visible frame, that one is lost.
pub pop_pair_refines :
    (tolerance : ℤ) (s : LoopState)
    → IsReady s
    → (pass_view (pop_pair tolerance s)
        ≡ pair_up tolerance (contents s.visible_queue) (contents s.uv_queue))
unfolding pair_up Popped
pop_pair_refines tolerance s r =
    let us = contents s.uv_queue in
    let (_, vis, q) = pop_frame s.visible_queue s.vis in
    let (_, uv, q') = pop_frame s.uv_queue s.uv in
    elim (popped s.visible_queue s.vis r.visible_valid r.visible_sized) [
      | inl (empty, fails, after) ↦
          ap pass_view (pop_pair_idle tolerance s fails)
          ∙ (λ i. (none, after i, us))
          ∙ sym (ap (λ vs. pair_up tolerance vs us) empty)
      | inr (works, front) ↦ elim (popped s.uv_queue s.uv r.uv_valid r.uv_sized) [
        | inl (empty, fails, after) ↦
            ap pass_view (pop_pair_lost tolerance s works fails)
            ∙ (λ i. (none, contents q, after i))
            ∙ sym (λ i. pair_up tolerance (front i) (empty i))
        | inr (works', front') ↦
            let far = ltb_ℤ tolerance (pts_distance vis.header.pts_ns uv.header.pts_ns) in
            ap pass_view (pop_pair_both tolerance s works works')
            ∙ (λ i. (pair_frames_if far vis uv i, contents q, contents q'))
            ∙ sym (λ i. pair_up tolerance (front i) (front' i))
      ]
    ]
