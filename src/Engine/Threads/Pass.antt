-- ===== src/Engine/Threads/Pass.antt =====
-- cpp/src/engine_main.cpp: what one step of a thread of `arcvision_engine_run_loop` does.
use pantograph_arc_vision.Common.{
  List, ◌∷◌, ◌>>=◌, ◌≡◌, refl, sym, ap, ◌∙◌, ◌⊎◌, inl, inr, true, false, Option, none, some,
  Option-cases, Bool-cases,
}
use pantograph_arc_vision.Common.Int.{ℤ}
use pantograph_arc_vision.Common.Floating.{Floating}
use pantograph_arc_vision.Common.Dict.{find, insert, erase}
use pantograph_arc_vision.Shm.{Output}
use pantograph_arc_vision.Wire.{Layout}
use pantograph_arc_vision.Common.{some_inj}
use pantograph_arc_vision.Engine.{Globals, ResultMsg}
use pantograph_arc_vision.Engine.Loop.{Setting, detect_pair}
use pantograph_arc_vision.Engine.Queues.{Memory, Locals, pop_pair_at}
use pantograph_arc_vision.Engine.Threads.{World, Act, finish_pass, thread_pass, act, run_acts}
use pantograph_arc_vision.Engine.Threads.Detect.{>>=-cases}

module _ {ℓ} {F D : Type ℓ} ⦃f : Floating F⦄ ⦃d : Floating D⦄ ⦃l : Layout (ResultMsg F D)⦄
    (c : Setting F D) where
  abbrev pub for_stream : ℤ → Setting F D
  for_stream i = record c { stream_index = i }

  -- What a pair of frames, if any, makes of the globals.
  abbrev pub Processed : ℤ → Option (Output × Output) → Globals F D → Globals F D → Type ℓ
  Processed i none g g1 = g1 ≡ g
  Processed i (some (vis, uv)) g g1 = detect_pair (for_stream i) vis uv g ≡ some g1

  abbrev pub passed : ℤ → Locals → Memory → Globals F D → World F D → World F D
  passed i t m g w = record w { globals = g; memory = m; threads = insert i t w.threads }

  pub run_acts_step :
      (a : Act) (acts : List Act) (w w1 w2 : World F D)
      → act c a w ≡ some w1
      → run_acts c acts w1 ≡ some w2
      → run_acts c (a ∷ acts) w ≡ some w2
  unfolding run_acts
  run_acts_step a acts w w1 w2 e e' = rw (run_acts, e) e'

  finish-cases :
      (i : ℤ) (w w1 : World F D) (pair : Option (Output × Output)) (t : Locals) (m : Memory)
      → finish_pass c i w ((pair, t), m) ≡ some w1
      → (g : Globals F D) × (w1 ≡ passed i t m g w) × Processed i pair w.globals g
  unfolding finish_pass
  finish-cases i w w1 none t m e = (w.globals, sym (some_inj e), refl)
  finish-cases i w w1 (some (vis, uv)) t m e =
      let (g, done, same) = >>=-cases (detect_pair (for_stream i) vis uv w.globals) _ e in
      (g, sym (some_inj same), done)

  finish-run :
      (i : ℤ) (w : World F D) (pair : Option (Output × Output)) (t : Locals) (m : Memory)
      (g : Globals F D)
      → Processed i pair w.globals g
      → finish_pass c i w ((pair, t), m) ≡ some (passed i t m g w)
  unfolding finish_pass
  finish-run i w none t m g e = ap (λ x. some (passed i t m x w)) (sym e)
  finish-run i w (some (vis, uv)) t m g e = rw (finish_pass, e) refl

  pub thread-absent : (i : ℤ) (w : World F D) → find i w.threads ≡ none → thread_pass c i w ≡ some w
  unfolding thread_pass
  thread-absent i w e = simp (thread_pass, e)

  pub thread-stops :
      (i : ℤ) (w : World F D) (t : Locals)
      → find i w.threads ≡ some t
      → w.globals.running ≡ false
      → thread_pass c i w ≡ some (record w { threads = erase i w.threads })
  unfolding thread_pass
  thread-stops i w t e off = simp (thread_pass, e, off)

  thread-runs :
      (i : ℤ) (w : World F D) (t : Locals)
      → find i w.threads ≡ some t
      → w.globals.running ≡ true
      → thread_pass c i w ≡ (pop_pair_at c.sync_tolerance_ns t w.memory >>= finish_pass c i w)
  unfolding thread_pass
  thread-runs i w t e on = simp (thread_pass, e, on)

  -- The three ways of a step that works: no thread, the end of the thread, a pass.
  abbrev pub Passed : ℤ → World F D → World F D → Type ℓ
  Passed i w w1 =
      ((find i w.threads ≡ none) × (w1 ≡ w))
      ⊎ (((t : Locals) × (find i w.threads ≡ some t)
            × (w.globals.running ≡ false)
            × (w1 ≡ record w { threads = erase i w.threads }))
          ⊎ ((t : Locals) × (pair : Option (Output × Output)) × (t1 : Locals) × (m : Memory)
              × (g : Globals F D) × (find i w.threads ≡ some t)
              × (w.globals.running ≡ true)
              × (pop_pair_at c.sync_tolerance_ns t w.memory ≡ some ((pair, t1), m))
              × (w1 ≡ passed i t1 m g w)
              × Processed i pair w.globals g))

  pub thread_pass-cases : (i : ℤ) (w w1 : World F D) → thread_pass c i w ≡ some w1 → Passed i w w1
  thread_pass-cases i w w1 e = elim (Option-cases (find i w.threads)) [
    | inl absent ↦ inl (absent, some_inj (sym e ∙ thread-absent i w absent))
    | inr (t, here) ↦ elim (Bool-cases w.globals.running) [
      | inr off ↦ inr (inl (t, here, off, some_inj (sym e ∙ thread-stops i w t here off)))
      | inl on ↦
          let (((pair, t1), m), popped, finished) =
            >>=-cases (pop_pair_at c.sync_tolerance_ns t w.memory) _
              (sym (thread-runs i w t here on) ∙ e) in
          let (g, shape, done) = finish-cases i w w1 pair t1 m finished in
          inr (inr (t, pair, t1, m, g, here, on, popped, shape, done))
    ]
  ]

  pub thread_pass-run :
      (i : ℤ) (w : World F D) (t t1 : Locals) (pair : Option (Output × Output)) (m : Memory)
      (g : Globals F D)
      → find i w.threads ≡ some t
      → w.globals.running ≡ true
      → pop_pair_at c.sync_tolerance_ns t w.memory ≡ some ((pair, t1), m)
      → Processed i pair w.globals g
      → thread_pass c i w ≡ some (passed i t1 m g w)
  thread_pass-run i w t t1 pair m g here on popped done =
      thread-runs i w t here on
      ∙ ap (λ r. r >>= finish_pass c i w) popped
      ∙ finish-run i w pair t1 m g done
