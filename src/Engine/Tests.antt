-- ===== src/Engine/Tests.antt =====
-- Runs of the engine's functions of cpp/src/engine_main.cpp, in hundredths.
use pantograph_arc_vision.Common.{
  ℕ, ◌≡◌, refl, true, false, some, none, Option, List, [], ◌∷◌, ◌++◌, length,
}
use pantograph_arc_vision.Common.Int.{pos}
use pantograph_arc_vision.Common.Dict.{find, eq_ℤ}
use pantograph_arc_vision.Common.Floating.{Hundredths, hundredths_floating}
use pantograph_arc_vision.Trt.{
  prepare, infer, infer_acquired, infer_with_context, acquire_context, release_context, row_count,
  postprocess, read_rows,
}
use pantograph_arc_vision.Trt.Sort.{sort, insert_sorted}
use pantograph_arc_vision.Nms.{overlaps, suppress_by, suppress, select, no_flags, nms_sorted}
use pantograph_arc_vision.Tracker.{
  candidates, mark, tracker, compute_iou, best_match, matched_track, extend_track, update_of,
  settle, find_match, match_track, match_tracks, new_track, new_update, start_tracks,
  update_candidates, update, is_expired, retire_loop, remove_inactive, trim, expire_old_tracks,
}
use pantograph_arc_vision.Severity.{kalman, kalman_init, kalman_update, predict, classify_severity}
use pantograph_arc_vision.Energy.{
  read_row, read_region, luminance, energy_of, compute_instant_energy_gpu,
}
use pantograph_arc_vision.Detector.{
  Input, pad_roi, extract_pantograph_rois, is_small, to_event, nms, event_iou, link, settle_event,
  annotate, measure, track_events, blend_frame, crop_roi, scan_rois, detect_arc_in_rois,
  detect_in_rois, detect,
}
use pantograph_arc_vision.Detector.Sample.{idle_devices, config, input, keep, same, stream, ten}
use pantograph_arc_vision.Common.{◌⊎◌, arith}
use pantograph_arc_vision.Common.Int.{negsuc}
use pantograph_arc_vision.Detector.{Event}
use pantograph_arc_vision.Detector.Sample.{thresholds}
use pantograph_arc_vision.Trt.{LoadEnv, created}
use pantograph_arc_vision.Kernel.{run_threads}
use pantograph_arc_vision.Kernel.Blend.{cuda_blend_uv_visible}
use pantograph_arc_vision.Kernel.Crop.{cuda_preprocess_roi_crop}
use pantograph_arc_vision.Kernel.Resize.{cuda_preprocess_resize_normalize}
use pantograph_arc_vision.Wire.{Bytes}
use pantograph_arc_vision.Shm.Window.{contents}
use pantograph_arc_vision.Shm.Sample.{
  busy, fresh, empty_output, busy-IsValid, busy-IsSized, fresh-IsValid, fresh-IsSized,
}
use pantograph_arc_vision.Publisher.{Publisher}
use pantograph_arc_vision.Streams.{ArcDetector, detect_frame, get_stream_context}
use pantograph_arc_vision.Engine.{Globals, Sender, StartEnv, process_frame, engine_init}
use pantograph_arc_vision.Engine.Sample.{message_layout, message-IsLayout}
use pantograph_arc_vision.Engine.Start.{engine_init_fails}
use pantograph_arc_vision.Engine.Results.{IsDelivered, receive-process_frame}
use pantograph_arc_vision.Engine.Loop.{LoopState}
use pantograph_arc_vision.Engine.Loop.Pairs.{IsReady, pair_up, pair_frames}
use pantograph_arc_vision.Engine.Queues.{Memory, Locals, pop_pair_at}
use pantograph_arc_vision.Engine.Queues.Pair.{thread_at, pop_pair_at-pair_up}
use pantograph_arc_vision.Shm.{ShmFrameQueue, Output}

-- An image of 40 columns and 40 rows.
abbrev forty : List ℕ
forty = ten ++ (ten ++ (ten ++ ten))

abbrev four_rows : List ℕ
four_rows = forty ++ (forty ++ (forty ++ forty))

abbrev twenty_rows : List ℕ
twenty_rows = four_rows ++ (four_rows ++ (four_rows ++ (four_rows ++ four_rows)))

abbrev forty_rows : List ℕ
forty_rows = twenty_rows ++ twenty_rows

abbrev large : Input Hundredths
large = record input {
  devices = idle_devices;
  visible = forty_rows ++ (forty_rows ++ forty_rows);
  image = forty_rows;
  width = pos 40;
  height = pos 40;
}

-- A detector with one stream.
abbrev detector : ArcDetector Hundredths Hundredths
detector = record {
  config = record {
    detector = config;
    visible_score_thresh = 50;
    uv_score_thresh = 40;
    severity_thresholds = thresholds;
  };
  base_initialized = true;
  stream_contexts = (pos 0, stream) ∷ [];
}

abbrev outcome : Option (List (Event Hundredths Hundredths) × ArcDetector Hundredths Hundredths)
outcome = detect_frame sort keep same large detector

-- The events of the frame, and the detector after it.
abbrev events : List (Event Hundredths Hundredths)
events = elim outcome [ none ↦ [] | some r ↦ r.0 ]

abbrev detector_after : ArcDetector Hundredths Hundredths
detector_after = elim outcome [ none ↦ detector | some r ↦ r.1 ]

frame_works : outcome ≡ some (events, detector_after)
unfolding detect_frame get_stream_context find eq_ℤ infer infer_acquired infer_with_context
    acquire_context release_context row_count postprocess read_rows sort insert_sorted overlaps
    suppress_by suppress select no_flags nms_sorted candidates mark tracker compute_iou best_match
    matched_track extend_track update_of settle find_match match_track match_tracks new_track
    new_update start_tracks update_candidates update is_expired retire_loop remove_inactive trim
    expire_old_tracks kalman kalman_init kalman_update predict classify_severity read_row
    read_region luminance energy_of compute_instant_energy_gpu pad_roi extract_pantograph_rois
    is_small to_event nms event_iou link settle_event annotate measure track_events prepare
    run_threads cuda_preprocess_resize_normalize cuda_blend_uv_visible cuda_preprocess_roi_crop
    blend_frame crop_roi scan_rois detect_arc_in_rois detect_in_rois detect
frame_works = refl

one_event : length events ≡ 1
unfolding detect_frame get_stream_context find eq_ℤ infer infer_acquired infer_with_context
    acquire_context release_context row_count postprocess read_rows sort insert_sorted overlaps
    suppress_by suppress select no_flags nms_sorted candidates mark tracker compute_iou best_match
    matched_track extend_track update_of settle find_match match_track match_tracks new_track
    new_update start_tracks update_candidates update is_expired retire_loop remove_inactive trim
    expire_old_tracks kalman kalman_init kalman_update predict classify_severity read_row
    read_region luminance energy_of compute_instant_energy_gpu pad_roi extract_pantograph_rois
    is_small to_event nms event_iou link settle_event annotate measure track_events prepare
    run_threads cuda_preprocess_resize_normalize cuda_blend_uv_visible cuda_preprocess_roi_crop
    blend_frame crop_roi scan_rois detect_arc_in_rois detect_in_rois detect
one_event = refl

-- A publisher after `bind`.
abbrev bound_publisher : Publisher
bound_publisher = record {
  context = some 7;
  socket = some 8;
  is_bind = true;
  open_contexts = 7 ∷ [];
  open_sockets = 8 ∷ [];
  open_messages = 0;
}

abbrev globals : Globals Hundredths Hundredths
globals = record {
  running = true;
  detector = some detector;
  publisher = some bound_publisher;
  num_streams = pos 1;
}

abbrev sender : Sender
sender = record { send = λ msg. pos (length msg); again = false }

receive-process_frame_example :
    (sent : Option Bytes) × (process_frame sort keep same sender large globals
      ≡ some (
        pos (length events),
        sent,
        record globals { detector = some detector_after; publisher = some bound_publisher },
      ))
    × IsDelivered events sent (pos 1) (pos 100) 8 bound_publisher
receive-process_frame_example =
    receive-process_frame sort keep same sender large globals detector detector_after events
      bound_publisher bound_publisher (pos 1) (pos 100) 8 message-IsLayout refl refl refl
      frame_works (omega (arith, one_event)) refl (omega arith)

-- A system in which the engine file of the networks is missing.
abbrev no_file : LoadEnv
no_file = record {
  file_opened = false;
  runtime_made = true;
  deserialized = none;
  creation = λ i. created;
}

abbrev start : StartEnv
start = record {
  visible_load = λ i. no_file;
  uv_load = λ i. no_file;
  answers = record { new_context = some 7; new_socket = some 8; succeeds = true };
}

engine_init_fails_example :
    (engine_init start 50 40 45 (pos 2) globals ≡ none)
    ⊎ ((g' : Globals Hundredths Hundredths) × (engine_init start 50 40 45 (pos 2) globals
          ≡ some (negsuc 0, g'))
        × (g'.detector ≡ none))
engine_init_fails_example = engine_init_fails start 50 40 45 (pos 2) globals

-- A visible frame in flight, and no ultraviolet one.
abbrev queues : LoopState
queues = record { visible_queue = busy; uv_queue = fresh; vis = empty_output; uv = empty_output }

queues-IsReady : IsReady queues
queues-IsReady = record {
  visible_valid = busy-IsValid;
  visible_sized = busy-IsSized;
  uv_valid = fresh-IsValid;
  uv_sized = fresh-IsSized;
}

-- The two queues in the shared memory, with the thread that has their addresses.
abbrev shared : Memory
shared = (pos 0, busy) ∷ (pos 1, fresh) ∷ []

pop_pair_at-pair_up_example :
    (pair : Option (Output × Output)) × (t1 : Locals) × (m2 : Memory) × (q1 : ShmFrameQueue)
    × (q1' : ShmFrameQueue) × (pop_pair_at
          (pos 40)
          (thread_at (pos 0) (pos 1) empty_output empty_output)
          shared
        ≡ some ((pair, t1), m2))
    × (find (pos 0) m2 ≡ some q1)
    × (find (pos 1) m2 ≡ some q1')
    × ((pair_frames pair, contents q1, contents q1')
        ≡ pair_up (pos 40) (contents busy) (contents fresh))
unfolding find eq_ℤ
pop_pair_at-pair_up_example =
    pop_pair_at-pair_up (pos 40) (pos 0) (pos 1) empty_output empty_output shared busy fresh refl
      refl refl queues-IsReady
