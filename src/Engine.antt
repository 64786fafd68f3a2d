-- ===== src/Engine.antt =====
-- cpp/src/engine_main.cpp: the engine's globals and the functions of its C interface. What the networks,
-- ZeroMQ and the system answer is an argument. `none` as a result is a fault.
pub mod Start
pub mod Results
pub mod Loop
pub mod Queues
pub mod Threads
pub mod Sample
mod Tests
use pantograph_arc_vision.Common.{
  ◌>>=◌, ℕ, zero, suc, ◌+◌, ◌*◌, ◌%◌, ◌^◌, Bool, true, false, Option, none, some, List, [], ◌∷◌,
  map, length, if◌then◌else◌,
}
use pantograph_arc_vision.Common.Int.{ℤ, pos, negsuc, ltb_ℤ, pos_part, signed}
use pantograph_arc_vision.Common.Floating.{Floating, ◌⊘◌, whole}
use pantograph_arc_vision.Common.Dict.{insert}
use pantograph_arc_vision.Severity.{level_value, Thresholds}
use pantograph_arc_vision.Nms.{Rect}
use pantograph_arc_vision.Trt.{Detection, LoadEnv}
use pantograph_arc_vision.Wire.{Bytes, Layout}
use pantograph_arc_vision.Detector.{Event, Input}
use pantograph_arc_vision.Publisher.{Publisher, Answers, bind, close, publish_nonblock}
use pantograph_arc_vision.Streams.{
  StreamsConfig, ArcDetector, Setup, returned, null_log, init, init_stream, shutdown, detect_frame,
}

-- `ArcResultMsg`.
pub record ResultMsg {ℓ} (F D : Type ℓ) : Type ℓ where
  pub rect : Rect F
  pub confidence : F
  pub class_id : ℤ
  pub pts_ns : ℤ
  pub stream_index : ℤ
  pub intensity : D
  pub instant_energy : D
  pub smoothed_energy : D
  pub cumulative_energy : D
  pub severity_level : ℤ
  pub track_id : ℕ
  pub track_frame_count : ℕ
  pub track_duration_ns : ℤ

-- The globals; a stream's queues are known by the number of the stream.
pub record Globals {ℓ} (F D : Type ℓ) : Type ℓ where
  pub running : Bool
  pub detector : Option (ArcDetector F D)
  pub publisher : Option Publisher
  pub num_streams : ℤ

-- `static_cast<int>(events.size())`.
abbrev pub int_size {ℓ} : {A : Type ℓ} → List A → ℤ
int_size xs = signed (length xs % 2 ^ 32)

module _ {ℓ} {F D : Type ℓ} where
  -- The body of the loop over the events.
  abbrev pub to_msg : Event F D → ResultMsg F D
  to_msg evt = record {
    rect = evt.rect;
    confidence = evt.confidence;
    class_id = pos 1;
    pts_ns = evt.pts_ns;
    stream_index = evt.stream_index;
    intensity = evt.intensity;
    instant_energy = evt.instant_energy;
    smoothed_energy = evt.smoothed_energy;
    cumulative_energy = evt.cumulative_energy;
    severity_level = pos (level_value evt.severity);
    track_id = evt.track_id;
    track_frame_count = evt.track_frame_count;
    track_duration_ns = evt.track_duration_ns;
  }

-- What ZeroMQ does with a message: what `zmq_msg_send` returns, and whether `zmq_errno` is `EAGAIN`.
pub record Sender : Type 0 where
  pub send : Bytes → ℤ
  pub again : Bool

module _ {ℓ} {F D : Type ℓ} ⦃l : Layout (ResultMsg F D)⦄ where
  -- The events are published, if there are any and there is a publisher. The message that is handed to
  -- ZeroMQ, if any, and the publisher.
  pub publish_events :
      Sender → List (Event F D) → Option Publisher → Option Bytes × Option Publisher
  publish_events net [] p = (none, p)
  publish_events net (e ∷ es) none = (none, none)
  publish_events net (e ∷ es) (some p) =
      let msgs = map to_msg (e ∷ es) in
      let (rc, msg, p') = publish_nonblock net.send net.again (some msgs) (int_size msgs) p in
      (msg, some p')

  -- `arcvision_engine_process_frame`: the code, the message and the globals.
  pub process_frame :
      ⦃f : Floating F⦄ ⦃d : Floating D⦄
      → (List (Detection F) → List (Detection F))
      → (List (Event F D) → List (Event F D))
      → (F → D)
      → Sender
      → Input F
      → Globals F D
      → Option (ℤ × Option Bytes × Globals F D)
  process_frame sort sort_events widen net i g = elim g.detector [
    | none ↦ some (negsuc 0, none, g)
    | some det ↦ do
      (events, det') ← detect_frame sort sort_events widen i det
      let (msg, p) = publish_events net events g.publisher in
          some (int_size events, msg, record g { detector = some det'; publisher = p })
  ]

-- What the start of the engine gets from the system: the loads of the two engines of a stream, and the
-- answers of ZeroMQ.
pub record StartEnv : Type 0 where
  pub visible_load : ℕ → LoadEnv
  pub uv_load : ℕ → LoadEnv
  pub answers : Answers

-- The thresholds that the engine sets.
abbrev pub engine_thresholds {ℓ} : {D : Type ℓ} ⦃d : Floating D⦄ → Thresholds D
engine_thresholds = record {
  level2_cumulative_energy = whole 500;
  level3_cumulative_energy = whole 5000;
  level4_cumulative_energy = whole 50000;
  level5_cumulative_energy = whole 500000;
  level3_instant_energy = whole 1000;
  level5_instant_energy = whole 10000;
  level4_duration_ns = pos 3000000000;
  level5_duration_ns = pos 10000000000;
}

module _ {ℓ} {F D : Type ℓ} ⦃f : Floating F⦄ ⦃d : Floating D⦄ where
  -- `new ArcDetector(config)`; the members that are not set have their default values.
  abbrev pub new_detector : (visible_thresh uv_thresh nms_thresh : F) → ArcDetector F D
  new_detector visible_thresh uv_thresh nms_thresh = record {
    config = record {
      detector = record {
        nms_thresh = nms_thresh;
        roi_padding = pos 20;
        model_input_h = pos 640;
        model_input_w = pos 640;
        uv_blend_weight = whole 3 ⊘ whole 5;
      };
      visible_score_thresh = visible_thresh;
      uv_score_thresh = uv_thresh;
      severity_thresholds = engine_thresholds;
    };
    base_initialized = false;
    stream_contexts = [];
  }

  -- The loop over the streams from stream `i` on, with `n` to go: whether all of them start. `none` is the
  -- fault in `init_stream`.
  pub init_streams : StartEnv → (n i : ℕ) → ArcDetector F D → Option (Bool × ArcDetector F D)
  init_streams env zero i det = some (true, det)
  init_streams env (suc n) i det =
      elim (init_stream (env.visible_load i) (env.uv_load i) (pos i) det) [
        | null_log det' ↦ none
        | returned false det' ↦ some (false, det')
        | returned true det' ↦ init_streams env n (i + 1) det'
      ]

-- `new ZmqPublisher()`.
abbrev pub new_publisher : Publisher
new_publisher = record {
  context = none;
  socket = none;
  is_bind = false;
  open_contexts = [];
  open_sockets = [];
  open_messages = 0;
}

-- `num_streams > 0 ? num_streams : 4`.
abbrev pub stream_count : ℤ → ℤ
stream_count n = if ltb_ℤ (pos 0) n then n else pos 4

module _ {ℓ} {F D : Type ℓ} ⦃f : Floating F⦄ ⦃d : Floating D⦄ where
  -- The part of `arcvision_engine_init` behind the streams.
  pub start_publisher : StartEnv → ArcDetector F D → Globals F D → Option (ℤ × Globals F D)
  start_publisher env det g = do
    (bound, p) ← bind env.answers new_publisher
    if bound
        then some (pos 0, record g { detector = some det; publisher = some p })
        else (close p
            >>= (λ closed. some (negsuc 1, record g { detector = none; publisher = none })))

  pub engine_init :
      StartEnv
      → (visible_thresh uv_thresh nms_thresh : F) → (num_streams : ℤ) → Globals F D
      → Option (ℤ × Globals F D)
  engine_init env visible_thresh uv_thresh nms_thresh num_streams g =
      let (ok, det) = init (new_detector visible_thresh uv_thresh nms_thresh) in
      let g1 = record g { num_streams = stream_count num_streams } in
      do
        (started, det') ← init_streams env (pos_part (stream_count num_streams)) 0 det
        if started
            then start_publisher env det' g1
            else some (negsuc 0, record g1 { detector = none })

  -- `arcvision_engine_shutdown`, whose queues are forgotten too.
  pub engine_shutdown : Globals F D → Option (Globals F D)
  engine_shutdown g =
      let g1 = record g { running = false; detector = none } in
      elim g.publisher [
        | none ↦ some g1
        | some p ↦ do
          closed ← close p
          destroyed ← close closed
          some (record g1 { publisher = none })
      ]
