-- ===== src/Detector/Tests.antt =====
-- Runs of `ArcDetector::detect` of cpp/src/arc_detector.cpp, in hundredths.
use pantograph_arc_vision.Common.{refl, arith, true, false, [], ◌∷◌}
use pantograph_arc_vision.Common.Int.{pos}
use pantograph_arc_vision.Common.Floating.{Hundredths, hundredths_floating}
use pantograph_arc_vision.Severity.{intense_arc, minor_spark}
use pantograph_arc_vision.Tracker.{TrackUpdate}
use pantograph_arc_vision.Detector.{Event, annotate}
use pantograph_arc_vision.Detector.Sample.{same}
use pantograph_arc_vision.Detector.Annotate.{Annotated, annotate-Annotated}

abbrev flash : Event Hundredths Hundredths
flash = record {
  rect = record { x1 = 0; y1 = 0; x2 = 1000; y2 = 100 };
  confidence = 90;
  pts_ns = pos 33;
  stream_index = pos 0;
  intensity = 10;
  instant_energy = 300;
  smoothed_energy = 0;
  cumulative_energy = 0;
  severity = minor_spark;
  track_id = 0;
  track_frame_count = 0;
  track_duration_ns = pos 0;
}

abbrev report : TrackUpdate Hundredths
report = record {
  track_id = 7;
  box = record { x1 = 0; y1 = 0; x2 = 1000; y2 = 100 };
  instant_energy = 300;
  smoothed_energy = 280;
  cumulative_energy = 6000;
  severity = intense_arc;
  frame_count = 12;
  duration_ns = pos 300;
  is_new = false;
  severity_escalated = true;
}

annotate-Annotated_example : Annotated same flash (report ∷ []) (annotate same (report ∷ []) flash)
annotate-Annotated_example = annotate-Annotated same (report ∷ []) flash (omega arith, tt) refl
