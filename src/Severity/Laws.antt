-- ===== src/Severity/Laws.antt =====
-- `classify_severity` of cpp/src/arc_severity.cpp against the levels that a track reaches.
use pantograph_arc_vision.Common.{
  ◌≤◌, ◌≡◌, refl, ◌⊎◌, inl, inr, Bool, true, ◌||◌, arith, if◌then◌else◌,
}
use pantograph_arc_vision.Common.Int.{ℤ, ◌-ℤ◌, ◌≤ℤ◌, leb_ℤ}
use pantograph_arc_vision.Common.Floating.{Floating, ◌≼◌, IsOrdered}
use pantograph_arc_vision.Severity.{
  Level, minor_spark, stable_arc, intense_arc, sustained_burn, fatal_ablation, level_value,
  Thresholds, Track, classify_severity,
}

-- The ladder of tests, over the test of each level.
abbrev pick : (Level → Bool) → Level
pick test =
    if test fatal_ablation
    then fatal_ablation
    else (if test sustained_burn
        then sustained_burn
        else (if test intense_arc
            then intense_arc
            else (if test stable_arc then stable_arc else minor_spark)))

pick_highest :
    (test : Level → Bool)
    → test minor_spark ≡ true
    → (test (pick test) ≡ true)
      × ((l : Level) → test l ≡ true → level_value l ≤ level_value (pick test))
pick_highest test base = (
  ground arith,
  elim [
    | minor_spark ↦ λ h. ground arith
    | stable_arc ↦ λ h. ground arith
    | intense_arc ↦ λ h. ground arith
    | sustained_burn ↦ λ h. ground arith
    | fatal_ablation ↦ λ h. ground arith
  ],
)

module _ {ℓ} {D : Type ℓ} ⦃d : Floating D⦄ where
  abbrev pub duration : Track D → ℤ
  duration t = t.last_pts_ns -ℤ t.start_pts_ns

  -- The measurements of a track that are over the thresholds of a level.
  abbrev pub Reaches : Thresholds D → Track D → Level → Type 0
  Reaches th t fatal_ablation =
      ((th.level5_cumulative_energy ≼ t.cumulative_energy) ≡ true)
      ⊎ ((th.level5_instant_energy ≼ t.smoothed_energy) ≡ true)
      ⊎ (th.level5_duration_ns ≤ℤ duration t)
  Reaches th t sustained_burn =
      ((th.level4_cumulative_energy ≼ t.cumulative_energy) ≡ true)
      ⊎ (th.level4_duration_ns ≤ℤ duration t)
  Reaches th t intense_arc =
      ((th.level3_cumulative_energy ≼ t.cumulative_energy) ≡ true)
      ⊎ ((th.level3_instant_energy ≼ t.smoothed_energy) ≡ true)
  Reaches th t stable_arc = (th.level2_cumulative_energy ≼ t.cumulative_energy) ≡ true
  Reaches th t minor_spark = Unit

  abbrev test : Thresholds D → Track D → Level → Bool
  test th t fatal_ablation =
      th.level5_cumulative_energy ≼ t.cumulative_energy
      || th.level5_instant_energy ≼ t.smoothed_energy
      || leb_ℤ th.level5_duration_ns (duration t)
  test th t sustained_burn =
      th.level4_cumulative_energy ≼ t.cumulative_energy || leb_ℤ th.level4_duration_ns (duration t)
  test th t intense_arc =
      th.level3_cumulative_energy ≼ t.cumulative_energy
      || th.level3_instant_energy ≼ t.smoothed_energy
  test th t stable_arc = th.level2_cumulative_energy ≼ t.cumulative_energy
  test th t minor_spark = true

  Reaches-of_test :
      (th : Thresholds D) (t : Track D) (l : Level) → test th t l ≡ true → Reaches th t l
  Reaches-of_test th t minor_spark h = tt
  Reaches-of_test th t stable_arc h = h
  Reaches-of_test th t intense_arc h = ground arith
  Reaches-of_test th t sustained_burn h = ground arith
  Reaches-of_test th t fatal_ablation h = ground arith

  test_of_Reaches :
      (th : Thresholds D) (t : Track D) (l : Level) → Reaches th t l → test th t l ≡ true
  test_of_Reaches th t minor_spark h = refl
  test_of_Reaches th t stable_arc h = h
  test_of_Reaches th t intense_arc h = ground arith
  test_of_Reaches th t sustained_burn h = ground arith
  test_of_Reaches th t fatal_ablation h = ground arith

  -- The level of a track is one that it reaches, and the highest such.
  pub classify_highest :
      (th : Thresholds D) (t : Track D)
      → Reaches th t (classify_severity th t)
        × ((l : Level) → Reaches th t l → level_value l ≤ level_value (classify_severity th t))
  unfolding classify_severity
  classify_highest th t =
      let (reached, highest) = pick_highest (test th t) refl in
      (Reaches-of_test th t (pick (test th t)) reached, λ l h. highest l (test_of_Reaches th t l h))

  Reaches-mono :
      (th : Thresholds D) (s t : Track D) (l : Level)
      → IsOrdered D
      → (s.cumulative_energy ≼ t.cumulative_energy) ≡ true
      → (s.smoothed_energy ≼ t.smoothed_energy) ≡ true
      → duration s ≤ℤ duration t
      → Reaches th s l
      → Reaches th t l
  Reaches-mono th s t minor_spark o c e h r = tt
  Reaches-mono th s t stable_arc o c e h r = o.le_trans _ _ _ r c
  Reaches-mono th s t intense_arc o c e h (inl r) = inl (o.le_trans _ _ _ r c)
  Reaches-mono th s t intense_arc o c e h (inr r) = inr (o.le_trans _ _ _ r e)
  Reaches-mono th s t sustained_burn o c e h (inl r) = inl (o.le_trans _ _ _ r c)
  Reaches-mono th s t sustained_burn o c e h (inr r) = inr (omega arith)
  Reaches-mono th s t fatal_ablation o c e h (inl r) = inl (o.le_trans _ _ _ r c)
  Reaches-mono th s t fatal_ablation o c e h (inr (inl r)) = inr (inl (o.le_trans _ _ _ r e))
  Reaches-mono th s t fatal_ablation o c e h (inr (inr r)) = inr (inr (omega arith))

  -- If comparison is transitive, a track with no less cumulative energy, smoothed energy and
  -- duration has no lower level, whatever the thresholds are and however they are ordered.
  pub classify_mono :
      (th : Thresholds D) (s t : Track D)
      → IsOrdered D
      → (s.cumulative_energy ≼ t.cumulative_energy) ≡ true
      → (s.smoothed_energy ≼ t.smoothed_energy) ≡ true
      → duration s ≤ℤ duration t
      → level_value (classify_severity th s) ≤ level_value (classify_severity th t)
  classify_mono th s t o c e h =
      (classify_highest th t).1 (classify_severity th s)
        (Reaches-mono th s t (classify_severity th s) o c e h (classify_highest th s).0)
