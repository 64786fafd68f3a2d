-- ===== src/Engine/Threads/Tests.antt =====
-- Runs of the threads of cpp/src/engine_main.cpp, in hundredths.
use pantograph_arc_vision.Common.{
  zero, suc, subst, ◌≡◌, refl, Bool, true, false, some, none, Option, List, [], ◌∷◌, length, ltb,
  if◌then◌else◌, arith,
}
use pantograph_arc_vision.Common.Int.{ℤ, pos, negsuc, ◌-ℤ◌}
use pantograph_arc_vision.Common.Dict.{find, eq_ℤ, insert, erase}
use pantograph_arc_vision.Common.Floating.{Hundredths, hundredths_floating}
use pantograph_arc_vision.Trt.{
  prepare, infer, infer_acquired, infer_with_context, acquire_context, release_context, row_count,
  postprocess, read_rows,
}
use pantograph_arc_vision.Trt.Sort.{sort, insert_sorted}
use pantograph_arc_vision.Nms.{overlaps, suppress_by, suppress, select, no_flags, nms_sorted}
use pantograph_arc_vision.Tracker.{
  candidates, mark, tracker, compute_iou, best_match, matched_track, extend_track, update_of,
  settle, find_match, match_track, match_tracks, new_track, new_update, start_tracks,
  update_candidates, update, is_expired, retire_loop, remove_inactive, trim, expire_old_tracks,
}
use pantograph_arc_vision.Severity.{kalman, kalman_init, kalman_update, predict, classify_severity}
use pantograph_arc_vision.Energy.{
  read_row, read_region, luminance, energy_of, compute_instant_energy_gpu,
}
use pantograph_arc_vision.Detector.{
  pad_roi, extract_pantograph_rois, is_small, to_event, nms, event_iou, link, settle_event,
  annotate, measure, track_events, blend_frame, crop_roi, scan_rois, detect_arc_in_rois,
  detect_in_rois, detect,
}
use pantograph_arc_vision.Detector.Sample.{idle_devices, config, keep, same, stream, thresholds}
use pantograph_arc_vision.Shm.{ShmFrameQueue, ready, free, pop_frame, frame_size, memcpy}
use pantograph_arc_vision.Shm.Sample.{header, empty_output}
use pantograph_arc_vision.Streams.{ArcDetector, detect_frame, get_stream_context}
use pantograph_arc_vision.Kernel.{run_threads}
use pantograph_arc_vision.Kernel.Blend.{cuda_blend_uv_visible}
use pantograph_arc_vision.Kernel.Crop.{cuda_preprocess_roi_crop}
use pantograph_arc_vision.Kernel.Resize.{cuda_preprocess_resize_normalize}
use pantograph_arc_vision.Engine.{process_frame, publish_events}
use pantograph_arc_vision.Engine.Sample.{message_layout}
use pantograph_arc_vision.Engine.Loop.{Setting, upload, detect_pair}
use pantograph_arc_vision.Engine.Queues.{pop_at, pop_pair_at, StreamQueues}
use pantograph_arc_vision.Engine.Threads.{
  World, Uninitialised, Act, pass, write, start_thread, start_threads, run_loop, finish_pass,
  thread_pass, act, run_acts, set_stream_queues,
}
use pantograph_arc_vision.Engine.Threads.Begin.{
  IsSeparate, run_loop_threads, is_stream, thread_of, Unchanged,
}
use pantograph_arc_vision.Engine.Threads.Interleave.{only_acts, run_loop-Alone}
use pantograph_arc_vision.Engine.Threads.Share.{Shares}
use pantograph_arc_vision.Engine.Queues.Frame.{PointsInto, PointsOut}
use pantograph_arc_vision.Engine.Threads.Owner.{Both}
use pantograph_arc_vision.Common.{some_inj}

-- A detector with two streams.
abbrev detector : ArcDetector Hundredths Hundredths
detector = record {
  config = record {
    detector = config;
    visible_score_thresh = 50;
    uv_score_thresh = 40;
    severity_thresholds = thresholds;
  };
  base_initialized = true;
  stream_contexts = (pos 0, stream) ∷ (pos 1, stream) ∷ [];
}

-- A queue with a frame in flight, and an empty one.
abbrev busy : ShmFrameQueue
busy = record {
  write_seq = 1;
  read_seq = 0;
  slots = λ i. record { header = header (pos 33); bytes = 255 ∷ 255 ∷ []; state = ready };
}

abbrev fresh : ShmFrameQueue
fresh = record {
  write_seq = 0;
  read_seq = 0;
  slots = λ i. record { header = header (pos 0); bytes = 0 ∷ 0 ∷ []; state = free };
}

-- Stream 0 has a frame in each of its queues, and stream 1 only one in the visible queue.
abbrev registered : World Hundredths Hundredths
registered = set_stream_queues (pos 1) (some (pos 2)) (some (pos 3)) (
    set_stream_queues (pos 0) (some (pos 0)) (some (pos 1)) (record {
      globals = record {
        running = true;
        detector = some detector;
        publisher = none;
        num_streams = pos 2;
      };
      stream_queues = [];
      memory = (pos 0, busy) ∷ (pos 1, busy) ∷ (pos 2, busy) ∷ (pos 3, fresh) ∷ [];
      threads = [];
    }))

abbrev buffers : ℤ → Uninitialised
buffers i = record { vis = empty_output; uv = empty_output }

abbrev setting : Setting Hundredths Hundredths
setting = record {
  sort = sort;
  sort_events = keep;
  widen = same;
  devices = λ v u. idle_devices;
  sender = record { send = λ msg. pos (length msg); again = false };
  stream_index = pos 0;
  sync_tolerance_ns = pos 40;
}

abbrev acts : List Act
acts = pass (pos 1) ∷ pass (pos 0) ∷ write (pos 3) busy ∷ pass (pos 1) ∷ []

abbrev mine : ℤ → Bool
mine (pos n) = ltb n 2
mine (negsuc n) = false

abbrev outcome : Option (World Hundredths Hundredths)
outcome = run_acts setting acts (run_loop buffers registered)

abbrev final : World Hundredths Hundredths
final = elim outcome [ none ↦ registered | some w ↦ w ]

acts_work : outcome ≡ some final
unfolding run_acts act thread_pass finish_pass run_loop start_threads start_thread find erase insert
    eq_ℤ pop_at pop_pair_at pop_frame frame_size memcpy upload detect_pair process_frame
    publish_events detect_frame get_stream_context infer infer_acquired infer_with_context
    acquire_context release_context row_count postprocess read_rows sort insert_sorted overlaps
    suppress_by suppress select no_flags nms_sorted candidates mark tracker compute_iou best_match
    matched_track extend_track update_of settle find_match match_track match_tracks new_track
    new_update start_tracks update_candidates update is_expired retire_loop remove_inactive trim
    expire_old_tracks kalman kalman_init kalman_update predict classify_severity read_row
    read_region luminance energy_of compute_instant_energy_gpu pad_roi extract_pantograph_rois
    is_small to_event nms event_iou link settle_event annotate measure track_events prepare
    run_threads cuda_preprocess_resize_normalize cuda_blend_uv_visible cuda_preprocess_roi_crop
    blend_frame crop_roi scan_rois detect_arc_in_rois detect_in_rois detect ◌-ℤ◌
acts_work = refl

abbrev both : ℤ → ℤ → StreamQueues
both a b = record { visible_queue = some a; uv_queue = some b }

others_separate :
    (i : ℤ) (q : StreamQueues)
    → eq_ℤ (pos 0) i ≡ false
    → find i registered.stream_queues ≡ some q
    → Both (PointsOut mine) q
unfolding find erase insert eq_ℤ
others_separate (pos zero) q other e = absurd (ground (arith, other))
others_separate (pos (suc zero)) q other e =
    subst (Both (PointsOut mine)) (some_inj {x = both (pos 2) (pos 3)} e) (refl, refl)
others_separate (pos (suc (suc n))) q other e = absurd (ground (arith, e))
others_separate (negsuc n) q other e = absurd (ground (arith, e))

separate : IsSeparate (pos 0) mine registered.stream_queues
unfolding find erase insert eq_ℤ
separate = record {
  own = λ q e. subst (Both (PointsInto mine)) (some_inj {x = both (pos 0) (pos 1)} e) (refl, refl);
  others = others_separate;
}

run_loop-Alone_example :
    (w2 : World Hundredths Hundredths) × (run_acts setting
        (only_acts (pos 0) mine acts)
        (run_loop buffers registered)
      ≡ some w2)
    × Shares (pos 0) mine final w2
run_loop-Alone_example =
    run_loop-Alone setting (pos 0) mine buffers acts registered final refl separate acts_work

run_loop_threads_example :
    (find (pos 1) (run_loop buffers registered).threads
      ≡ (if is_stream 2 (pos 1) then thread_of buffers (pos 1) registered else none))
    × Unchanged buffers registered (run_loop buffers registered)
run_loop_threads_example = run_loop_threads buffers 2 (pos 1) registered refl refl

-- The engine ends, and then both threads make a pass.
abbrev last_passes : List Act
last_passes = pass (pos 1) ∷ pass (pos 0) ∷ []

abbrev shut_down : World Hundredths Hundredths
shut_down = record (run_loop buffers registered) {
  globals = record { running = false; detector = none; publisher = none; num_streams = pos 2 };
  stream_queues = [];
}
