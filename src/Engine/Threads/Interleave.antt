-- ===== src/Engine/Threads/Interleave.antt =====
-- cpp/src/engine_main.cpp: the threads of several streams, from `arcvision_engine_run_loop` on, under every
-- order of their passes.
use pantograph_arc_vision.Common.{
  ◌≡◌, refl, sym, subst, ◌∙◌, inl, inr, Bool, true, false, some, List, [], ◌∷◌, if◌then◌else◌,
  Bool-cases, Option-cases,
}
use pantograph_arc_vision.Common.Int.{ℤ}
use pantograph_arc_vision.Common.Floating.{Floating}
use pantograph_arc_vision.Common.Dict.{eq_ℤ, eq_ℤ_sound, insert}
use pantograph_arc_vision.Wire.{Layout}
use pantograph_arc_vision.Common.{some_inj}
use pantograph_arc_vision.Engine.{ResultMsg}
use pantograph_arc_vision.Engine.Loop.{Setting}
use pantograph_arc_vision.Engine.Queues.Frame.{SameAt-insert, SameAt-other}
use pantograph_arc_vision.Engine.Threads.{
  World, Uninitialised, Act, pass, write, thread_pass, act, run_acts, run_loop,
}
use pantograph_arc_vision.Engine.Threads.Owner.{IsOwner}
use pantograph_arc_vision.Engine.Threads.Begin.{IsSeparate, run_loop-IsOwner}
use pantograph_arc_vision.Engine.Threads.Detect.{>>=-cases}
use pantograph_arc_vision.Engine.Threads.Pass.{run_acts_step}
use pantograph_arc_vision.Engine.Threads.Share.{
  Shares, thread_pass-IsOwner, thread_pass-other, thread_pass-own,
}

-- The steps that concern stream `j`: the passes of its thread, and what is done to its queues.
pub concerns : ℤ → (ℤ → Bool) → Act → Bool
concerns j mine (pass i) = eq_ℤ j i
concerns j mine (write a q) = mine a

pub only_acts : ℤ → (ℤ → Bool) → List Act → List Act
only_acts j mine [] = []
only_acts j mine (a ∷ acts) =
    if concerns j mine a then a ∷ only_acts j mine acts else only_acts j mine acts

module _ {ℓ} {F D : Type ℓ} ⦃f : Floating F⦄ ⦃d : Floating D⦄ ⦃l : Layout (ResultMsg F D)⦄
    (c : Setting F D) (j : ℤ) (mine : ℤ → Bool) where
  Shares-refl : (w : World F D) → Shares j mine w w
  Shares-refl w = record {
    running_same = refl;
    detector_same = elim (Option-cases w.globals.detector) [
      | inl gone ↦ inl (gone, gone)
      | inr (det, here) ↦ inr (
        det,
        det,
        here,
        here,
        record { config_same = refl; base_same = refl; context_same = refl },
      )
    ];
    memory_same = λ k p. refl;
    thread_same = refl;
  }

  act-IsOwner :
      (a : Act) (w w1 : World F D)
      → act c a w ≡ some w1
      → IsOwner j mine w.threads
      → IsOwner j mine w1.threads
  unfolding act
  act-IsOwner (pass i) w w1 e o = thread_pass-IsOwner c j i mine w w1 e o
  act-IsOwner (write a q) w w1 e o = subst (λ x. IsOwner j mine x.threads) (some_inj e) o

  act-other :
      (a : Act) (w w1 w' : World F D)
      → concerns j mine a ≡ false
      → act c a w ≡ some w1
      → IsOwner j mine w.threads
      → Shares j mine w w'
      → Shares j mine w1 w'
  unfolding act concerns
  act-other (pass i) w w1 w' other e o s = thread_pass-other c j i mine w w1 w' other o e s
  act-other (write a q) w w1 w' other e o s =
      subst (λ x. Shares j mine x w') (some_inj e)
        (record {
          running_same = s.running_same;
          detector_same = s.detector_same;
          memory_same = λ k p. sym (SameAt-other mine a q w.memory other k p) ∙ s.memory_same k p;
          thread_same = s.thread_same;
        })

  act-own :
      (a : Act) (w w1 w' : World F D)
      → concerns j mine a ≡ true
      → act c a w ≡ some w1
      → IsOwner j mine w.threads
      → Shares j mine w w'
      → (w2 : World F D) × (act c a w' ≡ some w2) × Shares j mine w1 w2
  unfolding act concerns
  act-own (pass i) w w1 w' own e o s =
      let same = eq_ℤ_sound j i own in
      subst (λ k. (w2 : World F D) × (thread_pass c k w' ≡ some w2) × Shares j mine w1 w2) same
        (thread_pass-own c j mine w w1 w' o (subst (λ k. thread_pass c k w ≡ some w1) (sym same) e)
          s)
  act-own (write a q) w w1 w' own e o s = (
    record w' { memory = insert a q w'.memory },
    refl,
    subst (λ x. Shares j mine x (record w' { memory = insert a q w'.memory })) (some_inj e)
        (record {
          running_same = s.running_same;
          detector_same = s.detector_same;
          memory_same = SameAt-insert mine a q w.memory w'.memory s.memory_same;
          thread_same = s.thread_same;
        }),
  )

  -- What stream `j` is left with after its own steps alone.
  abbrev pub Alone : List Act → World F D → World F D → Type ℓ
  Alone acts w' w1 =
      (w2 : World F D) × (run_acts c (only_acts j mine acts) w' ≡ some w2) × Shares j mine w1 w2

  Alone-own :
      (a : Act) (acts : List Act) (w' mid w1 : World F D)
      → concerns j mine a ≡ true
      → act c a w' ≡ some mid
      → Alone acts mid w1
      → Alone (a ∷ acts) w' w1
  unfolding only_acts
  Alone-own a acts w' mid w1 own e (w2, rest, s) =
      (w2, rw own (run_acts_step c a (only_acts j mine acts) w' mid w2 e rest), s)

  Alone-other :
      (a : Act) (acts : List Act) (w' w1 : World F D)
      → concerns j mine a ≡ false
      → Alone acts w' w1
      → Alone (a ∷ acts) w' w1
  unfolding only_acts
  Alone-other a acts w' w1 other (w2, rest, s) = (w2, rw other rest, s)

  run_acts-Alone :
      (acts : List Act) (w w1 w' : World F D)
      → IsOwner j mine w.threads
      → Shares j mine w w'
      → run_acts c acts w ≡ some w1
      → Alone acts w' w1
  unfolding run_acts only_acts
  run_acts-Alone [] w w1 w' o s e = (w', refl, subst (λ x. Shares j mine x w') (some_inj e) s)
  run_acts-Alone (a ∷ acts) w w1 w' o s e =
      let (mid, first, rest) = >>=-cases (act c a w) (run_acts c acts) e in
      let o' = act-IsOwner a w mid first o in
      elim (Bool-cases (concerns j mine a)) [
        | inl own ↦
            let (mid', first', s') = act-own a w mid w' own first o s in
            Alone-own a acts w' mid' w1 own first' (run_acts-Alone acts mid w1 mid' o' s' rest)
        | inr other ↦
            Alone-other a acts w' w1 other
              (run_acts-Alone acts mid w1 w' o' (act-other a w mid w' other first o s) rest)
      ]

  -- The threads do not disturb each other. No thread runs yet, and the queues that are registered for stream
  -- `j` are at addresses that no other stream has. Then, whatever passes the threads of
  -- `arcvision_engine_run_loop` make in whatever order, and whatever other processes do to the queues in
  -- between, as long as no pass meets a fault: stream `j` has the queues, the thread and the context of its
  -- detector that its own passes, and what is done to its own queues, give it alone.
  pub run_loop-Alone :
      (fresh : ℤ → Uninitialised) (acts : List Act) (w w1 : World F D)
      → w.threads ≡ []
      → IsSeparate j mine w.stream_queues
      → run_acts c acts (run_loop fresh w) ≡ some w1
      → (w2 : World F D) × (run_acts c (only_acts j mine acts) (run_loop fresh w) ≡ some w2)
        × Shares j mine w1 w2
  run_loop-Alone fresh acts w w1 idle separate e =
      run_acts-Alone acts (run_loop fresh w) w1 (run_loop fresh w)
        (run_loop-IsOwner fresh j mine w idle separate) (Shares-refl (run_loop fresh w)) e
