-- ===== src/Streams.antt =====
-- cpp/src/arc_detector.cpp: `ArcDetector` with the contexts of its streams. `F` is the type `float` and
-- `D` the type `double`. A stream's context stands in the map only when it is initialised. A load of an
-- engine gets what the system answers as an argument.
pub mod Contexts
pub mod Frames
pub mod Apart
pub mod Serve
pub mod Told
mod Tests
use pantograph_arc_vision.Common.{
  ◌>>=◌, ℕ, ◌+◌, Bool, true, false, Option, none, some, List, [], ◌∷◌, ◌++◌, if◌then◌else◌,
}
use pantograph_arc_vision.Common.Int.{ℤ, pos}
use pantograph_arc_vision.Common.Floating.{Floating, ◌⊘◌, whole}
use pantograph_arc_vision.Common.Dict.{find, insert, erase}
use pantograph_arc_vision.Severity.{Thresholds}
use pantograph_arc_vision.Tracker.{tracker}
use pantograph_arc_vision.Trt.{Detection, InferConfig, Engine, LoadEnv, load, unload}
use pantograph_arc_vision.Detector.{Event, DetectorConfig, StreamContext, Input, detect}

-- `ArcDetectorConfig`: what `detect` reads of it, and what setting up a stream reads besides.
pub record StreamsConfig {ℓ} (F D : Type ℓ) : Type ℓ where
  pub detector : DetectorConfig F
  pub visible_score_thresh : F
  pub uv_score_thresh : F
  pub severity_thresholds : Thresholds D

pub record ArcDetector {ℓ} (F D : Type ℓ) : Type ℓ where
  pub config : StreamsConfig F D
  pub base_initialized : Bool
  pub stream_contexts : List (ℤ × StreamContext F D)

-- How `init_stream` ends. `null_log` is the log message behind a new context: it reads the pool sizes
-- through `ctx`, which is null after `std::move(ctx)`.
pub data Setup {ℓ} (F D : Type ℓ) : Type ℓ where
  returned : Bool → ArcDetector F D → Setup F D
  null_log : ArcDetector F D → Setup F D

module _ {ℓ} {F D : Type ℓ} where
  -- The detector that is left.
  abbrev pub detector_of : Setup F D → ArcDetector F D
  detector_of (returned ok det) = det
  detector_of (null_log det) = det

  unfoldable pub get_stream_context : ℤ → ArcDetector F D → Option (StreamContext F D)
  get_stream_context i det = find i det.stream_contexts

  -- The device is chosen by `cudaSetDevice`.
  abbrev pub init : ArcDetector F D → Bool × ArcDetector F D
  init det =
      if det.base_initialized then (true, det) else (true, record det { base_initialized = true })

  -- The engines that are unloaded, and the detector.
  pub shutdown_stream : ℤ → ArcDetector F D → List (Engine F) × ArcDetector F D
  shutdown_stream i det = elim (get_stream_context i det) [
    | none ↦ ([], det)
    | some ctx ↦ (
      unload ctx.visible_engine ∷ unload ctx.uv_engine ∷ [],
      record det { stream_contexts = erase i det.stream_contexts },
    )
  ]

  pub unload_all : List (ℤ × StreamContext F D) → List (Engine F)
  unload_all [] = []
  unload_all ((i, ctx) ∷ rest) = unload ctx.visible_engine ∷ unload ctx.uv_engine ∷ unload_all rest

  abbrev pub shutdown : ArcDetector F D → List (Engine F) × ArcDetector F D
  shutdown det = (
    unload_all det.stream_contexts,
    record det { stream_contexts = []; base_initialized = false },
  )

module _ {ℓ} {F : Type ℓ} ⦃f : Floating F⦄ where
  -- `TRTEngine()`: the default values of `InferConfig`, 0.5f and 0.45f and 4, and nothing loaded.
  abbrev pub new_engine : Engine F
  new_engine = record {
    config = record {
      score_threshold = whole 1 ⊘ whole 2;
      nms_threshold = whole 45 ⊘ whole 100;
      input_h = pos 640;
      input_w = pos 640;
      context_pool_size = pos 4;
    };
    runtime = false;
    engine = false;
    contexts = [];
    free_contexts = [];
    input_index = none;
    input_size = 0;
    output_indices = [];
    output_sizes = [];
  }

  abbrev pub engine_config : (score_thresh : F) → DetectorConfig F → InferConfig F
  engine_config score_thresh config = record {
    score_threshold = score_thresh;
    nms_threshold = config.nms_thresh;
    input_h = config.model_input_h;
    input_w = config.model_input_w;
    context_pool_size = pos 1;
  }

  -- `make_unique<TRTEngine>()` and its `load`; `none` is a load that fails.
  pub load_new : LoadEnv → InferConfig F → Option (Engine F)
  load_new env config =
      let (ok, engine) = load env config new_engine in if ok then some engine else none

module _ {ℓ} {F D : Type ℓ} ⦃f : Floating F⦄ ⦃d : Floating D⦄ where
  -- The context that `init_stream` builds, if both engines load.
  pub create_context : (visible uv : LoadEnv) → StreamsConfig F D → Option (StreamContext F D)
  create_context visible uv config = do
    vis_engine ← load_new visible (engine_config config.visible_score_thresh config.detector)
    uv_engine ← load_new uv (engine_config config.uv_score_thresh config.detector)
    some (record {
      visible_engine = vis_engine;
      uv_engine = uv_engine;
      lifecycle_tracker =
          tracker config.severity_thresholds (whole 3 ⊘ whole 10) (pos 100000000) (pos 64);
    })

  pub init_stream : (visible uv : LoadEnv) → ℤ → ArcDetector F D → Setup F D
  init_stream visible uv i det = elim (get_stream_context i det) [
    | some ctx ↦ returned true det
    | none ↦ elim (create_context visible uv det.config) [
      | none ↦ returned false det
      | some ctx ↦ null_log (record det { stream_contexts = insert i ctx det.stream_contexts })
    ]
  ]

  -- The whole of `detect`: without a context the frame is skipped. The context is changed in place.
  unfoldable pub detect_frame :
      (List (Detection F) → List (Detection F))
      → (List (Event F D) → List (Event F D))
      → (F → D)
      → Input F
      → ArcDetector F D
      → Option (List (Event F D) × ArcDetector F D)
  detect_frame sort sort_events widen i det =
      if det.base_initialized
      then elim (get_stream_context i.stream_index det) [
        | none ↦ some ([], det)
        | some ctx ↦ do
          (events, ctx') ← detect sort sort_events widen det.config.detector i ctx
          some (
            events,
            record det { stream_contexts = insert i.stream_index ctx' det.stream_contexts },
          )
      ]
      else some ([], det)
