-- ===== src/Severity.antt =====
-- cpp/include/arc_severity.h and cpp/src/arc_severity.cpp: the severity levels, the Kalman filter
-- of the energy and the classification of a track. `D` is the type `double`.
pub mod Laws
mod Tests
use pantograph_arc_vision.Common.{
  ℕ, Bool, true, false, ◌||◌, Option, none, some, ltb, leb, if◌then◌else◌,
}
use pantograph_arc_vision.Common.Int.{ℤ, ◌-ℤ◌, leb_ℤ}
use pantograph_arc_vision.Common.Floating.{Floating, ◌⊕◌, ◌⊖◌, ◌⊗◌, ◌⊘◌, ◌≼◌, whole}

pub data Level : Type 0 where
  minor_spark stable_arc intense_arc sustained_burn fatal_ablation : Level

-- The value of the enumerator.
abbrev pub level_value : Level → ℕ
level_value minor_spark = 1
level_value stable_arc = 2
level_value intense_arc = 3
level_value sustained_burn = 4
level_value fatal_ablation = 5

pub record Thresholds {ℓ} (D : Type ℓ) : Type ℓ where
  pub level2_cumulative_energy : D
  pub level3_cumulative_energy : D
  pub level4_cumulative_energy : D
  pub level5_cumulative_energy : D
  pub level3_instant_energy : D
  pub level5_instant_energy : D
  pub level4_duration_ns : ℤ
  pub level5_duration_ns : ℤ

-- `KalmanState1D` with the flag `initialized_` of `KalmanFilter1D`.
pub record Kalman {ℓ} (D : Type ℓ) : Type ℓ where
  pub x : D
  pub p : D
  pub q : D
  pub r : D
  pub initialized : Bool

pub record Box {ℓ} (D : Type ℓ) : Type ℓ where
  pub x1 : D
  pub y1 : D
  pub x2 : D
  pub y2 : D

pub record Track {ℓ} (D : Type ℓ) : Type ℓ where
  pub track_id : ℕ
  pub stream_index : ℤ
  pub start_pts_ns : ℤ
  pub last_pts_ns : ℤ
  pub frame_count : ℕ
  pub last_box : Box D
  pub last_instant_energy : D
  pub smoothed_energy : D
  pub cumulative_energy : D
  pub energy_kf : Kalman D
  pub severity : Level
  pub active : Bool

module _ {ℓ} {D : Type ℓ} ⦃d : Floating D⦄ where
  unfoldable pub kalman : D → D → Kalman D
  kalman process_noise measurement_noise = record {
    x = whole 0;
    p = whole 1;
    q = process_noise;
    r = measurement_noise;
    initialized = false;
  }

  unfoldable pub kalman_init : Kalman D → D → Kalman D
  kalman_init k value = record k { x = value; p = whole 1; initialized = true }

  -- `KalmanFilter1D::update`: what it returns is the field `x` of the filter after it.
  unfoldable pub kalman_update : Kalman D → D → Kalman D
  kalman_update k measurement =
      let p = k.p ⊕ k.q in
      let gain = p ⊘ (p ⊕ k.r) in
      if k.initialized
      then record k { x = k.x ⊕ gain ⊗ (measurement ⊖ k.x); p = (whole 1 ⊖ gain) ⊗ p }
      else kalman_init k measurement

  unfoldable pub predict : Kalman D → D
  predict k = k.x

  unfoldable pub classify_severity : Thresholds D → Track D → Level
  classify_severity th t =
      let duration = t.last_pts_ns -ℤ t.start_pts_ns in
      if th.level5_cumulative_energy ≼ t.cumulative_energy
        || th.level5_instant_energy ≼ t.smoothed_energy
        || leb_ℤ th.level5_duration_ns duration
      then fatal_ablation
      else (if th.level4_cumulative_energy ≼ t.cumulative_energy
            || leb_ℤ th.level4_duration_ns duration
          then sustained_burn
          else (if th.level3_cumulative_energy ≼ t.cumulative_energy
                || th.level3_instant_energy ≼ t.smoothed_energy
              then intense_arc
              else (if th.level2_cumulative_energy ≼ t.cumulative_energy
                  then stable_arc
                  else minor_spark)))
