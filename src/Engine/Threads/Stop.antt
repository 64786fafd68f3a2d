-- ===== src/Engine/Threads/Stop.antt =====
-- cpp/src/engine_main.cpp: how the threads end after `arcvision_engine_shutdown`, for which
-- `arcvision_engine_run_loop` waits in `join`.
use pantograph_arc_vision.Common.{◌≡◌, Bool, true, false, none, some, List, [], ◌∷◌, if◌then◌else◌}
use pantograph_arc_vision.Common.Int.{ℤ}
use pantograph_arc_vision.Common.Floating.{Floating}
use pantograph_arc_vision.Common.Dict.{eq_ℤ, find}
use pantograph_arc_vision.Wire.{Layout}
use pantograph_arc_vision.Publisher.{Publisher}
use pantograph_arc_vision.Engine.{Globals, ResultMsg}
use pantograph_arc_vision.Engine.Loop.{Setting}
use pantograph_arc_vision.Engine.Threads.{World, Act, pass, write, act}

-- Whether the thread of stream `i` makes a pass.
pub passes : ℤ → List Act → Bool
passes i [] = false
passes i (pass k ∷ acts) = if eq_ℤ i k then true else passes i acts
passes i (write a q ∷ acts) = passes i acts

-- What the end of the engine leaves of the globals.
abbrev pub IsDown {ℓ} : {F D : Type ℓ} → Globals F D → Type ℓ
IsDown g = (g.running ≡ false) × (g.detector ≡ none) × (g.publisher ≡ none)

module _ {ℓ} {F D : Type ℓ} ⦃f : Floating F⦄ ⦃d : Floating D⦄ where
  -- The globals after the end of the engine with a publisher.
  abbrev down : Globals F D → Globals F D
  down g = record g { running = false; detector = none; publisher = none }

module _ {ℓ} {F D : Type ℓ} ⦃f : Floating F⦄ ⦃d : Floating D⦄ ⦃l : Layout (ResultMsg F D)⦄
    (c : Setting F D) where
  -- What a step leaves when `g_running` is cleared: the globals, and the threads but the one that reads it.
  abbrev Stopped : Act → World F D → Type ℓ
  Stopped a w =
      (w1 : World F D) × (act c a w ≡ some w1)
      × (w1.globals ≡ w.globals)
      × ((i : ℤ) → find i w1.threads ≡ (if passes i (a ∷ []) then none else find i w.threads))
