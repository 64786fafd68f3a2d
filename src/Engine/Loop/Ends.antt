-- ===== src/Engine/Loop/Ends.antt =====
-- cpp/src/engine_main.cpp: when `stream_detect_loop` ends.
use pantograph_arc_vision.Common.{
  ℕ, zero, suc, ◌+◌, ◌≤◌, ◌<◌, ◌≡◌, refl, subst, ◌∙◌, ◌⊎◌, inl, inr, true, false, none, some, arith,
  ◌==◌, Option-cases, Bool-cases,
}
use pantograph_arc_vision.Common.Floating.{Floating}
use pantograph_arc_vision.Wire.{Layout}
use pantograph_arc_vision.Engine.{Globals, ResultMsg}
use pantograph_arc_vision.Engine.Loop.{
  LoopState, Setting, Turn, Ending, stopped, faulted, loop_pass, detect_loop,
}

module _ {ℓ} {F D : Type ℓ} ⦃f : Floating F⦄ ⦃d : Floating D⦄ ⦃l : Layout (ResultMsg F D)⦄
    (c : Setting F D) (turns : ℕ → Turn F D) where
  loop_stops :
      (fuel n : ℕ) (gs : Globals F D × LoopState)
      → (turns n).running ≡ false
      → detect_loop c (suc fuel) turns n gs ≡ stopped n gs.0 gs.1
  unfolding detect_loop
  loop_stops fuel n (g, s) off = rw (detect_loop, off) refl

  loop_faults :
      (fuel n : ℕ) (gs : Globals F D × LoopState)
      → (turns n).running ≡ true
      → loop_pass c ((turns n).others gs) ≡ none
      → detect_loop c (suc fuel) turns n gs ≡ faulted
  unfolding detect_loop
  loop_faults fuel n (g, s) on fault = rw (detect_loop, on, fault) refl

  loop_goes_on :
      (fuel n : ℕ) (gs after : Globals F D × LoopState)
      → (turns n).running ≡ true
      → loop_pass c ((turns n).others gs) ≡ some after
      → detect_loop c (suc fuel) turns n gs ≡ detect_loop c fuel turns (n + 1) after
  unfolding detect_loop
  loop_goes_on fuel n (g, s) after on done = rw (detect_loop, on, done) refl

  -- The loop has stopped at the first pass, from `n` to `m`, that reads that it is to stop, or has met a
  -- fault.
  abbrev pub Ends : (n m : ℕ) → Ending F D → Type ℓ
  Ends n m r =
      ((k : ℕ) × (g : Globals F D) × (s : LoopState) × (r ≡ stopped k g s)
        × (n ≤ k)
        × (k ≤ m)
        × ((turns k).running ≡ false)
        × ((j : ℕ) → n ≤ j → j < k → (turns j).running ≡ true))
      ⊎ (r ≡ faulted)

  later : (n m : ℕ) → n ≤ m → (turns m).running ≡ false → (turns n).running ≡ true → n + 1 ≤ m
  later n m h off on = elim (Bool-cases (n == m)) [
    | inl e ↦
        let same : n ≡ m = ground arith in
        let on' : (turns m).running ≡ true = subst (λ k. (turns k).running ≡ true) same on in
        absurd (ground (arith, on', off))
    | inr e ↦ ground arith
  ]

  -- From pass `n` on, when `arcvision_engine_shutdown` clears `g_running` before pass `m`: with fuel for the
  -- passes up to `m` the loop ends, whatever frames come and whatever the others do between two passes. It
  -- stops at the first pass that reads the cleared flag, if no pass before meets a fault.
  pub detect_loop-Ends :
      (fuel n m : ℕ) (gs : Globals F D × LoopState)
      → (turns m).running ≡ false
      → n ≤ m
      → m < n + fuel
      → Ends n m (detect_loop c fuel turns n gs)
  detect_loop-Ends zero n m gs off h fuelled = absurd (omega arith)
  detect_loop-Ends (suc fuel) n m gs off h fuelled = elim (Bool-cases (turns n).running) [
    | inr stop ↦ inl (
      n,
      gs.0,
      gs.1,
      loop_stops fuel n gs stop,
      omega arith,
      h,
      stop,
      (λ j lo hi. absurd (omega arith)),
    )
    | inl on ↦ elim (Option-cases (loop_pass c ((turns n).others gs))) [
      | inl fault ↦ inr (loop_faults fuel n gs on fault)
      | inr (after, done) ↦
          let next = loop_goes_on fuel n gs after on done in
          elim (detect_loop-Ends fuel (n + 1) m after off (later n m h off on) (omega arith)) [
            | inr fault ↦ inr (next ∙ fault)
            | inl (k, g, s, e, lo, hi, stop, before) ↦ inl (
              k,
              g,
              s,
              next ∙ e,
              omega (arith, lo),
              hi,
              stop,
              λ j lo' hi'. elim (Bool-cases (j == n)) [
                | inl e' ↦
                    let same : n ≡ j = ground arith in subst (λ x. (turns x).running ≡ true) same on
                | inr e' ↦ before j (ground arith) hi'
              ],
            )
          ]
    ]
  ]
