-- ===== src/Engine/Threads/Share.antt =====
-- cpp/src/engine_main.cpp: one step of the threads, as stream `j` sees it. `mine` says which addresses are
-- those of the queues of stream `j`.
use pantograph_arc_vision.Common.{
  ◌≡◌, refl, sym, subst, ap, ◌∙◌, inl, inr, Bool, false, Option, none, some,
}
use pantograph_arc_vision.Common.Int.{ℤ}
use pantograph_arc_vision.Common.Floating.{Floating}
use pantograph_arc_vision.Common.Dict.{
  eq_ℤ, find, erase, find-insert, find-insert_other, find-erase, find-erase_other,
}
use pantograph_arc_vision.Shm.{Output}
use pantograph_arc_vision.Wire.{Layout}
use pantograph_arc_vision.Streams.{ArcDetector}
use pantograph_arc_vision.Engine.{Globals, ResultMsg}
use pantograph_arc_vision.Engine.Loop.{Setting}
use pantograph_arc_vision.Engine.Queues.Frame.{
  SameAt, Own-pop_pair_at, Foreign-pop_pair_at, pop_pair_at-queues,
}
use pantograph_arc_vision.Engine.Threads.Owner.{IsOwner, IsOwner-erase, IsOwner-insert}
use pantograph_arc_vision.Engine.Threads.{World, thread_pass}
use pantograph_arc_vision.Engine.Threads.Pass.{
  for_stream, Processed, passed, thread-absent, thread-stops, thread_pass-cases, thread_pass-run,
}
use pantograph_arc_vision.Engine.Threads.Detect.{SameDetector, detect_pair-own, detect_pair-other}

-- Two states that are the same for stream `j`: what its thread reads of the globals, its queues, and its thread.
pub record Shares {ℓ} {F D : Type ℓ} (j : ℤ) (mine : ℤ → Bool) (w w' : World F D) : Type ℓ where
  pub running_same : w.globals.running ≡ w'.globals.running
  pub detector_same : SameDetector j w.globals.detector w'.globals.detector
  pub memory_same : SameAt mine w.memory w'.memory
  pub thread_same : find j w.threads ≡ find j w'.threads

module _ {ℓ} {F D : Type ℓ} ⦃f : Floating F⦄ ⦃d : Floating D⦄ ⦃l : Layout (ResultMsg F D)⦄
    (c : Setting F D) where
  Processed-own :
      (j : ℤ) (pair : Option (Output × Output)) (g g1 g' : Globals F D)
      → Processed c j pair g g1
      → SameDetector j g.detector g'.detector
      → g.running ≡ g'.running
      → (g2 : Globals F D) × Processed c j pair g' g2
        × SameDetector j g1.detector g2.detector
        × (g1.running ≡ g2.running)
  Processed-own j none g g1 g' e same on = (
    g',
    refl,
    subst (λ x. SameDetector j x.detector g'.detector) (sym e) same,
    ap (λ x. x.running) e ∙ on,
  )
  Processed-own j (some (vis, uv)) g g1 g' e same on =
      let (g2, done, same', kept, kept') = detect_pair-own (for_stream c j) vis uv g g1 g' e same in
      (g2, done, same', kept ∙ on ∙ sym kept')

  Processed-other :
      (j i : ℤ) (pair : Option (Output × Output)) (g g1 : Globals F D)
      (o : Option (ArcDetector F D))
      → eq_ℤ j i ≡ false
      → Processed c i pair g g1
      → SameDetector j g.detector o
      → SameDetector j g1.detector o × (g1.running ≡ g.running)
  Processed-other j i none g g1 o other e same =
      (subst (λ x. SameDetector j x.detector o) (sym e) same, ap (λ x. x.running) e)
  Processed-other j i (some (vis, uv)) g g1 o other e same =
      detect_pair-other (for_stream c i) j vis uv g g1 o other e same

  pub thread_pass-IsOwner :
      (j i : ℤ) (mine : ℤ → Bool) (w w1 : World F D)
      → thread_pass c i w ≡ some w1
      → IsOwner j mine w.threads
      → IsOwner j mine w1.threads
  thread_pass-IsOwner j i mine w w1 e o = elim (thread_pass-cases c i w w1 e) [
    | inl (_, same) ↦ subst (λ x. IsOwner j mine x.threads) (sym same) o
    | inr (inl (t, _, _, same)) ↦
        subst (λ x. IsOwner j mine x.threads) (sym same) (IsOwner-erase j i mine w.threads o)
    | inr (inr (t, pair, t1, m, g, here, _, popped, same, _)) ↦
        subst (λ x. IsOwner j mine x.threads) (sym same)
          (IsOwner-insert j i mine t t1 w.threads here
            (pop_pair_at-queues c.sync_tolerance_ns t w.memory m (pair, t1) popped) o)
  ]

  -- A step of another thread.
  pub thread_pass-other :
      (j i : ℤ) (mine : ℤ → Bool) (w w1 w' : World F D)
      → eq_ℤ j i ≡ false
      → IsOwner j mine w.threads
      → thread_pass c i w ≡ some w1
      → Shares j mine w w'
      → Shares j mine w1 w'
  thread_pass-other j i mine w w1 w' other o e s = elim (thread_pass-cases c i w w1 e) [
    | inl (_, same) ↦ subst (λ x. Shares j mine x w') (sym same) s
    | inr (inl (t, _, _, same)) ↦
        subst (λ x. Shares j mine x w') (sym same)
          (record {
            running_same = s.running_same;
            detector_same = s.detector_same;
            memory_same = s.memory_same;
            thread_same = find-erase_other i j w.threads other ∙ s.thread_same;
          })
    | inr (inr (t, pair, t1, m, g, here, _, popped, same, done)) ↦
        let (v, u) = o.others i t other here in
        let (detector, running) =
          Processed-other j i pair w.globals g w'.globals.detector other done s.detector_same in
        subst (λ x. Shares j mine x w') (sym same)
          (record {
            running_same = running ∙ s.running_same;
            detector_same = detector;
            memory_same = λ k p.
                sym (
                  Foreign-pop_pair_at mine c.sync_tolerance_ns t v u w.memory m (pair, t1) popped k
                    p)
                ∙ s.memory_same k p;
            thread_same = find-insert_other i j t1 w.threads other ∙ s.thread_same;
          })
  ]

  -- A step of the thread itself.
  pub thread_pass-own :
      (j : ℤ) (mine : ℤ → Bool) (w w1 w' : World F D)
      → IsOwner j mine w.threads
      → thread_pass c j w ≡ some w1
      → Shares j mine w w'
      → (w2 : World F D) × (thread_pass c j w' ≡ some w2) × Shares j mine w1 w2
  thread_pass-own j mine w w1 w' o e s = elim (thread_pass-cases c j w w1 e) [
    | inl (absent, same) ↦ (
      w',
      thread-absent c j w' (sym s.thread_same ∙ absent),
      subst (λ x. Shares j mine x w') (sym same) s,
    )
    | inr (inl (t, here, off, same)) ↦
        let w2 : World F D = record w' { threads = erase j w'.threads } in
        (
          w2,
          thread-stops c j w' t (sym s.thread_same ∙ here) (sym s.running_same ∙ off),
          subst (λ x. Shares j mine x w2) (sym same)
              (record {
                running_same = s.running_same;
                detector_same = s.detector_same;
                memory_same = s.memory_same;
                thread_same = find-erase j w.threads ∙ sym (find-erase j w'.threads);
              }),
        )
    | inr (inr (t, pair, t1, m, g, here, on, popped, same, done)) ↦
        let (v, u) = o.own t here in
        let (m2, popped', memory) =
          Own-pop_pair_at mine c.sync_tolerance_ns t v u w.memory w'.memory m (pair, t1)
            s.memory_same popped in
        let (g2, done', detector, running) =
          Processed-own j pair w.globals g w'.globals done s.detector_same s.running_same in
        (
          passed c j t1 m2 g2 w',
          thread_pass-run c j w' t t1 pair m2 g2 (sym s.thread_same ∙ here)
              (sym s.running_same ∙ on) popped' done',
          subst (λ x. Shares j mine x (passed c j t1 m2 g2 w')) (sym same)
              (record {
                running_same = running;
                detector_same = detector;
                memory_same = memory;
                thread_same = find-insert j t1 w.threads ∙ sym (find-insert j t1 w'.threads);
              }),
        )
  ]
