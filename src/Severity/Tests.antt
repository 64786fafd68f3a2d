-- ===== src/Severity/Tests.antt =====
-- Runs of `classify_severity` of cpp/src/arc_severity.cpp, in hundredths.
use pantograph_arc_vision.Common.{◌≤◌, ◌≡◌, refl, arith, true}
use pantograph_arc_vision.Common.Int.{pos, ◌-ℤ◌, ◌≤ℤ◌}
use pantograph_arc_vision.Common.Floating.{Hundredths, hundredths_floating, Hundredths-IsOrdered}
use pantograph_arc_vision.Severity.{
  Level, stable_arc, minor_spark, level_value, Thresholds, Track, classify_severity, kalman,
  sustained_burn,
}
use pantograph_arc_vision.Severity.Laws.{Reaches, classify_highest, classify_mono}

abbrev thresholds : Thresholds Hundredths
thresholds = record {
  level2_cumulative_energy = 1000;
  level3_cumulative_energy = 5000;
  level4_cumulative_energy = 20000;
  level5_cumulative_energy = 100000;
  level3_instant_energy = 3000;
  level5_instant_energy = 50000;
  level4_duration_ns = pos 500;
  level5_duration_ns = pos 2000;
}

abbrev spark : Track Hundredths
spark = record {
  track_id = 1;
  stream_index = pos 0;
  start_pts_ns = pos 10;
  last_pts_ns = pos 40;
  frame_count = 2;
  last_box = record { x1 = 0; y1 = 0; x2 = 100; y2 = 100 };
  last_instant_energy = 200;
  smoothed_energy = 200;
  cumulative_energy = 1500;
  energy_kf = kalman 1 10;
  severity = minor_spark;
  active = true;
}

-- The same arc half a microsecond later.
abbrev burning : Track Hundredths
burning = record spark { last_pts_ns = pos 510; cumulative_energy = 6000 }

spark_level : classify_severity thresholds spark ≡ stable_arc
unfolding classify_severity ◌-ℤ◌
spark_level = refl

burning_level : classify_severity thresholds burning ≡ sustained_burn
unfolding classify_severity ◌-ℤ◌
burning_level = refl

classify_highest_example :
    Reaches thresholds burning (classify_severity thresholds burning)
    × ((l : Level)
        → Reaches thresholds burning l
        → level_value l ≤ level_value (classify_severity thresholds burning))
classify_highest_example = classify_highest thresholds burning

longer : (spark.last_pts_ns -ℤ spark.start_pts_ns) ≤ℤ (burning.last_pts_ns -ℤ burning.start_pts_ns)
unfolding ◌-ℤ◌
longer = omega arith

classify_mono_example :
    level_value (classify_severity thresholds spark)
    ≤ level_value (classify_severity thresholds burning)
classify_mono_example = classify_mono thresholds spark burning Hundredths-IsOrdered refl refl longer
