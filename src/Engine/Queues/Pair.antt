-- ===== src/Engine/Queues/Pair.antt =====
-- cpp/src/engine_main.cpp: the first part of a pass through pointers does on two queues of the shared memory
-- what it does on the queues themselves.
use pantograph_arc_vision.Common.{
  ◌≡◌, refl, sym, subst, ◌∙◌, inl, inr, true, false, Option, none, some, if◌then◌else◌, Bool-cases,
}
use pantograph_arc_vision.Common.Int.{ℤ, ltb_ℤ}
use pantograph_arc_vision.Common.Dict.{
  find, insert, eq_ℤ, eq_ℤ_comm, find-insert, find-insert_other,
}
use pantograph_arc_vision.Shm.{ShmFrameQueue, Output, Status, pop_frame}
use pantograph_arc_vision.Shm.Window.{contents}
use pantograph_arc_vision.Engine.Loop.{LoopState, is_failure, pts_distance, pop_pair}
use pantograph_arc_vision.Engine.Loop.Pairs.{
  IsReady, pair_frames, pair_up, pop_pair_refines, pop_pair_idle, pop_pair_lost, pop_pair_both,
}
use pantograph_arc_vision.Engine.Queues.{Memory, Locals, pop_at, pop_pair_at}
use pantograph_arc_vision.Engine.Queues.Frame.{pop_at_found}

at_idle :
    (tolerance : ℤ) (t : Locals) (m m1 : Memory) (rc : Status) (vis : Output)
    → pop_at t.queues.visible_queue t.vis m ≡ some ((rc, vis), m1)
    → is_failure rc ≡ true
    → pop_pair_at tolerance t m ≡ some ((none, record t { vis = vis }), m1)
unfolding pop_pair_at
at_idle tolerance t m m1 rc vis e fails = rw (pop_pair_at, e) (rw fails refl)

at_lost :
    (tolerance : ℤ) (t : Locals) (m m1 m2 : Memory) (rc rc' : Status) (vis uv : Output)
    → pop_at t.queues.visible_queue t.vis m ≡ some ((rc, vis), m1)
    → is_failure rc ≡ false
    → pop_at t.queues.uv_queue t.uv m1 ≡ some ((rc', uv), m2)
    → is_failure rc' ≡ true
    → pop_pair_at tolerance t m ≡ some ((none, record t { vis = vis; uv = uv }), m2)
unfolding pop_pair_at
at_lost tolerance t m m1 m2 rc rc' vis uv e works e' fails =
    rw (pop_pair_at, e) (rw (works, e') (rw fails refl))

at_both :
    (tolerance : ℤ) (t : Locals) (m m1 m2 : Memory) (rc rc' : Status) (vis uv : Output)
    → pop_at t.queues.visible_queue t.vis m ≡ some ((rc, vis), m1)
    → is_failure rc ≡ false
    → pop_at t.queues.uv_queue t.uv m1 ≡ some ((rc', uv), m2)
    → is_failure rc' ≡ false
    → pop_pair_at tolerance t m
      ≡ some (
        (
          (if ltb_ℤ tolerance (pts_distance vis.header.pts_ns uv.header.pts_ns)
              then none
              else some (vis, uv)),
          record t { vis = vis; uv = uv },
        ),
        m2,
      )
unfolding pop_pair_at
at_both tolerance t m m1 m2 rc rc' vis uv e works e' works' =
    elim (Bool-cases (ltb_ℤ tolerance (pts_distance vis.header.pts_ns uv.header.pts_ns))) [
      | inl far ↦ rw (pop_pair_at, e) (rw (works, e') (rw (works', far) refl))
      | inr near ↦ rw (pop_pair_at, e) (rw (works, e') (rw (works', near) refl))
    ]

-- A thread with a pointer to each of its queues, and its queues and variables without the pointers.
abbrev pub thread_at : (a b : ℤ) (vis uv : Output) → Locals
thread_at a b vis uv = record {
  queues = record { visible_queue = some a; uv_queue = some b };
  vis = vis;
  uv = uv;
}

abbrev pub state_of : (q q' : ShmFrameQueue) (vis uv : Output) → LoopState
state_of q q' vis uv = record { visible_queue = q; uv_queue = q'; vis = vis; uv = uv }

module _ (tolerance a b : ℤ) (vis uv : Output) (m : Memory) (q q' : ShmFrameQueue)
    (apart : eq_ℤ b a ≡ false) (here : find a m ≡ some q) (there : find b m ≡ some q') where
  -- The pass through the pointers finds these frames, and leaves these queues and variables.
  abbrev Leaves : Option (Output × Output) × LoopState → Type 0
  Leaves (pair, s) =
      (m2 : Memory) × (pop_pair_at tolerance (thread_at a b vis uv) m
        ≡ some ((pair, thread_at a b s.vis s.uv), m2))
      × (find a m2 ≡ some s.visible_queue)
      × (find b m2 ≡ some s.uv_queue)

  pop_pair_at-pop_pair : Leaves (pop_pair tolerance (state_of q q' vis uv))
  pop_pair_at-pop_pair =
      let t = thread_at a b vis uv in
      let s = state_of q q' vis uv in
      let (rc, vis1, q1) = pop_frame q vis in
      let (rc', uv1, q1') = pop_frame q' uv in
      let m1 = insert a q1 m in
      let m2 = insert b q1' m1 in
      let first = pop_at_found a q vis m here in
      let kept : find b m1 ≡ some q' = find-insert_other a b q1 m apart ∙ there in
      let second = pop_at_found b q' uv m1 kept in
      let visible : find a m2 ≡ some q1 =
        find-insert_other b a q1' m1 (eq_ℤ_comm a b ∙ apart) ∙ find-insert a q1 m in
      elim (Bool-cases (is_failure rc)) [
        | inl fails ↦
            subst Leaves (sym (pop_pair_idle tolerance s fails))
              (m1, at_idle tolerance t m m1 rc vis1 first fails, find-insert a q1 m, kept)
        | inr works ↦ elim (Bool-cases (is_failure rc')) [
          | inl fails ↦ subst Leaves (sym (pop_pair_lost tolerance s works fails)) (
            m2,
            at_lost tolerance t m m1 m2 rc rc' vis1 uv1 first works second fails,
            visible,
            find-insert b q1' m1,
          )
          | inr works' ↦ subst Leaves (sym (pop_pair_both tolerance s works works')) (
            m2,
            at_both tolerance t m m1 m2 rc rc' vis1 uv1 first works second works',
            visible,
            find-insert b q1' m1,
          )
        ]
      ]

  -- A pass of a thread whose two pointers lead to two different queues in the shared memory, both in a valid
  -- state: it does not fault, and on the frames in flight it is the pairing of two lists. Without a visible
  -- frame nothing is taken. Otherwise the first visible frame is taken, and then the first ultraviolet one if
  -- there is one; the two are a pair if their time stamps are no further apart than the tolerance.
  pub pop_pair_at-pair_up :
      IsReady (state_of q q' vis uv)
      → (pair : Option (Output × Output)) × (t1 : Locals) × (m2 : Memory) × (q1 : ShmFrameQueue)
        × (q1' : ShmFrameQueue) × (pop_pair_at tolerance (thread_at a b vis uv) m
            ≡ some ((pair, t1), m2))
        × (find a m2 ≡ some q1)
        × (find b m2 ≡ some q1')
        × ((pair_frames pair, contents q1, contents q1')
            ≡ pair_up tolerance (contents q) (contents q'))
  pop_pair_at-pair_up r =
      let s = state_of q q' vis uv in
      let (pair, s1) = pop_pair tolerance s in
      let (m2, e, v, u) = pop_pair_at-pop_pair in
      (
        pair,
        thread_at a b s1.vis s1.uv,
        m2,
        s1.visible_queue,
        s1.uv_queue,
        e,
        v,
        u,
        pop_pair_refines tolerance s r,
      )
