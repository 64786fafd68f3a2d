-- ===== src/Tracker/Tests.antt =====
-- Runs of `ArcLifecycleTracker` of cpp/src/arc_severity.cpp, in hundredths.
use mathlib.Core.List.{Perm}
use pantograph_arc_vision.Common.{◌<◌, ◌^◌, ◌≡◌, refl, true, false, arith, some, List, [], ◌∷◌, map}
use pantograph_arc_vision.Common.Int.{pos}
use pantograph_arc_vision.Common.Floating.{Hundredths, hundredths_floating, Hundredths-IsOrdered}
use pantograph_arc_vision.Severity.{Box, Thresholds, Track, minor_spark, kalman}
use pantograph_arc_vision.Tracker.Lookup.{FindsAll}
use pantograph_arc_vision.Tracker.{
  Tracker, TrackUpdate, Candidate, find_match, best_match, settle, compute_iou, update, tracker,
  expire_old_tracks,
}
use pantograph_arc_vision.Tracker.Match.{IsMatch, find_match-IsMatch}
use pantograph_arc_vision.Tracker.Report.{reported, pairs, update_reports}
use pantograph_arc_vision.Tracker.Expire.{IsExpired, expire_old_tracks-IsExpired}
use pantograph_arc_vision.Tracker.Ids.{IsTracked}
use pantograph_arc_vision.Tracker.History.{Call, frame, expiry, history, tracker-IsTracked}

abbrev thresholds : Thresholds Hundredths
thresholds = record {
  level2_cumulative_energy = 1000;
  level3_cumulative_energy = 5000;
  level4_cumulative_energy = 20000;
  level5_cumulative_energy = 100000;
  level3_instant_energy = 3000;
  level5_instant_energy = 50000;
  level4_duration_ns = pos 500;
  level5_duration_ns = pos 2000;
}

abbrev here : Box Hundredths
here = record { x1 = 0; y1 = 0; x2 = 1000; y2 = 1000 }

abbrev near : Box Hundredths
near = record { x1 = 100; y1 = 0; x2 = 1100; y2 = 1000 }

abbrev far : Box Hundredths
far = record { x1 = 4000; y1 = 0; x2 = 5000; y2 = 1000 }

abbrev seen : Track Hundredths
seen = record {
  track_id = 1;
  stream_index = pos 0;
  start_pts_ns = pos 10;
  last_pts_ns = pos 40;
  frame_count = 2;
  last_box = here;
  last_instant_energy = 200;
  smoothed_energy = 200;
  cumulative_energy = 1500;
  energy_kf = kalman 1 10;
  severity = minor_spark;
  active = true;
}

abbrev lost : Track Hundredths
lost = record seen { track_id = 2; last_pts_ns = pos 11; last_box = far }

abbrev busy : Tracker Hundredths
busy = record {
  thresholds = thresholds;
  iou_match_threshold = 30;
  max_gap_ns = pos 20;
  max_tracks = pos 64;
  next_track_id = 3;
  active_tracks = seen ∷ lost ∷ [];
  completed_tracks = [];
}

abbrev detections : List (Candidate Hundredths)
detections =
    record { box = far; energy = 100; matched = false }
    ∷ record { box = near; energy = 300; matched = false }
    ∷ record { box = here; energy = 100; matched = true }
    ∷ []

seen_match :
    find_match 30 seen detections ≡ some (1, record { box = near; energy = 300; matched = false })
unfolding find_match best_match settle compute_iou
seen_match = refl

find_match-IsMatch_example :
    IsMatch 30 seen detections 1 (record { box = near; energy = 300; matched = false })
find_match-IsMatch_example = find_match-IsMatch 30 seen detections Hundredths-IsOrdered seen_match

update_reports_example :
    (us : List (TrackUpdate Hundredths)) × (k' : Tracker Hundredths) × (update busy
        (pos 50)
        (near ∷ here ∷ [])
        (300 ∷ 100 ∷ [])
      ≡ some (us, k'))
    × Perm (map reported us) (pairs (near ∷ here ∷ []) (300 ∷ 100 ∷ []))
update_reports_example =
    update_reports busy (pos 50) (near ∷ here ∷ []) (300 ∷ 100 ∷ []) (omega arith)

expire_old_tracks-IsExpired_example : IsExpired busy (pos 50) (expire_old_tracks busy (pos 50))
expire_old_tracks-IsExpired_example = expire_old_tracks-IsExpired busy (pos 50) (refl, (refl, tt))

abbrev calls : List (Call Hundredths)
calls =
    frame (pos 10) (here ∷ far ∷ []) (200 ∷ 100 ∷ [])
    ∷ expiry (pos 10)
    ∷ frame (pos 40) (near ∷ []) (300 ∷ [])
    ∷ expiry (pos 40)
    ∷ []

tracker-IsTracked_example :
    (k' : Tracker Hundredths) × (history (tracker thresholds 30 (pos 20) (pos 64)) calls ≡ some k')
    × (k'.next_track_id < 2 ^ 31)
    × IsTracked k'
    × FindsAll k'
tracker-IsTracked_example =
    tracker-IsTracked thresholds 30 (pos 20) (pos 64) calls
      (omega arith, (tt, (omega arith, (tt, tt)))) (omega arith)
