-- ===== src/Streams/Tests.antt =====
-- Runs of `ArcDetector` of cpp/src/arc_detector.cpp with its streams, in hundredths.
use pantograph_arc_vision.Common.{
  ◌≡◌, refl, subst, arith, true, false, none, some, List, [], ◌∷◌, inl, inr, All, Bool-cases,
}
use pantograph_arc_vision.Common.Int.{ℤ, pos}
use pantograph_arc_vision.Common.Floating.{Hundredths, hundredths_floating}
use pantograph_arc_vision.Common.Dict.{find, eq_ℤ}
use pantograph_arc_vision.Tracker.Ids.{IsTracked}
use pantograph_arc_vision.Trt.{Binding, created, LoadEnv}
use pantograph_arc_vision.Trt.Sort.{sort, sort-IsSort}
use pantograph_arc_vision.Detector.{StreamContext, Input}
use pantograph_arc_vision.Detector.Sample.{
  thresholds, one_row, stream, stream-IsTracked, config, input, keep, same,
}
use mathlib.Core.List.Perm
use pantograph_arc_vision.Streams.Told.{Told, detect_frames-Told}
use pantograph_arc_vision.Streams.{
  StreamsConfig, ArcDetector, returned, null_log, get_stream_context, init_stream,
}
use pantograph_arc_vision.Common.{some_inj}
use pantograph_arc_vision.Streams.Contexts.{Loads, IsFresh, OthersKept, init_stream-IsFresh}
use pantograph_arc_vision.Streams.Frames.{detect_frames}
use pantograph_arc_vision.Kernel.Resize.Place.{IsScaling}
use pantograph_arc_vision.Trt.Infer.{Holds}
use pantograph_arc_vision.Detector.Regions.{TakesRois}
use pantograph_arc_vision.Detector.{visible_request}
use pantograph_arc_vision.Streams.Serve.{IsServed, IsSound, Works, detect_frames_total}

Hundredths-IsScaling : IsScaling Hundredths
Hundredths-IsScaling a b c h small = omega arith

abbrev streams_config : StreamsConfig Hundredths Hundredths
streams_config = record {
  detector = config;
  visible_score_thresh = 50;
  uv_score_thresh = 40;
  severity_thresholds = thresholds;
}

-- One input and one output of a row of six numbers.
abbrev bindings : List Binding
bindings =
    record { dims = pos 1 ∷ pos 48 ∷ []; is_input = true }
    ∷ record { dims = pos 1 ∷ pos 6 ∷ []; is_input = false }
    ∷ []

abbrev system : LoadEnv
system = record {
  file_opened = true;
  runtime_made = true;
  deserialized = some bindings;
  creation = λ i. created;
}

system-Loads : Loads system bindings
system-Loads = record { opened = refl; started = refl; readable = refl; made = refl }

abbrev no_streams : ArcDetector Hundredths Hundredths
no_streams = record { config = streams_config; base_initialized = true; stream_contexts = [] }

-- Streams 0 and 1 of a detector.
abbrev two_streams : ArcDetector Hundredths Hundredths
two_streams = record {
  config = streams_config;
  base_initialized = true;
  stream_contexts = (pos 0, stream) ∷ (pos 1, stream) ∷ [];
}

nothing_there : get_stream_context (pos 0) no_streams ≡ none
unfolding get_stream_context find
nothing_there = refl

known_stream : init_stream system system (pos 1) two_streams ≡ returned true two_streams
unfolding init_stream get_stream_context find eq_ℤ
known_stream = refl

init_stream-IsFresh_example :
    (det' : ArcDetector Hundredths Hundredths) × (ctx : StreamContext Hundredths Hundredths)
    × (init_stream system system (pos 0) no_streams ≡ null_log det')
    × (get_stream_context (pos 0) det' ≡ some ctx)
    × IsFresh streams_config bindings bindings ctx
    × OthersKept (pos 0) no_streams det'
init_stream-IsFresh_example =
    init_stream-IsFresh system system bindings bindings (pos 0) no_streams system-Loads system-Loads
      nothing_there

-- What each stream has.
two_streams-IsStream :
    (j : ℤ) (ctx : StreamContext Hundredths Hundredths)
    → get_stream_context j two_streams ≡ some ctx
    → stream ≡ ctx
unfolding get_stream_context find
two_streams-IsStream j ctx e = elim (Bool-cases (eq_ℤ j (pos 0))) [
  | inl first ↦ some_inj (rw first at e)
  | inr not_first ↦ elim (Bool-cases (eq_ℤ j (pos 1))) [
    | inl second ↦ some_inj (rw (not_first, second) at e)
    | inr neither ↦
        let clash : none ≡ some ctx = rw (not_first, neither) at e in absurd (ground (arith, clash))
  ]
]

two_streams-IsSound : IsSound two_streams
two_streams-IsSound j ctx e =
    subst (λ c. IsTracked c.lifecycle_tracker) (two_streams-IsStream j ctx e) stream-IsTracked

-- The same frame of stream `j`.
abbrev frame_of : ℤ → Input Hundredths
frame_of j = record input { stream_index = j }

visible-Holds : Holds stream.visible_engine (visible_request input)
visible-Holds = record {
  n = 1;
  width = 50;
  height = 1;
  channels = 3;
  rows = one_row;
  wide = refl;
  high = refl;
  deep = refl;
  some_columns = omega arith;
  some_lines = omega arith;
  three = omega arith;
  columns_few = omega arith;
  lines_few = omega arith;
  size = omega arith;
  few = omega arith;
  input = refl;
  input_few = omega arith;
  output = λ b. omega arith;
}

rois-TakesRois : TakesRois config input stream.uv_engine
rois-TakesRois roi cropped sized = record {
  n = 1;
  width = 64;
  height = 64;
  channels = 3;
  rows = one_row;
  wide = refl;
  high = refl;
  deep = refl;
  some_columns = omega arith;
  some_lines = omega arith;
  three = omega arith;
  columns_few = omega arith;
  lines_few = omega arith;
  size = omega (arith, sized);
  few = omega (arith, sized);
  input = refl;
  input_few = omega arith;
  output = λ b. omega arith;
}

frame_of-IsServed : (j : ℤ) → IsServed (frame_of j) two_streams
frame_of-IsServed j = record {
  frame = record {
    width = 50;
    height = 1;
    wide = refl;
    high = refl;
    some_columns = omega arith;
    some_lines = omega arith;
    size = refl;
    visible_size = refl;
    few = omega arith;
    input_few = omega arith;
    bytes = λ b. refl;
  };
  visible_taken = λ ctx e.
      subst (λ c. Holds c.visible_engine (visible_request input)) (two_streams-IsStream j ctx e)
        visible-Holds;
  rois_taken = λ ctx e.
      subst (λ c. TakesRois config (frame_of j) c.uv_engine) (two_streams-IsStream j ctx e)
        rois-TakesRois;
}

abbrev frames : List (Input Hundredths)
frames = frame_of (pos 0) ∷ frame_of (pos 1) ∷ frame_of (pos 0) ∷ []

frames-IsServed : All (λ i. IsServed i two_streams) frames
frames-IsServed =
    (frame_of-IsServed (pos 0), (frame_of-IsServed (pos 1), (frame_of-IsServed (pos 0), tt)))

abbrev served : Works two_streams (detect_frames sort keep same frames two_streams)
served =
    detect_frames_total Hundredths-IsScaling sort sort-IsSort keep same frames two_streams
      two_streams-IsSound frames-IsServed

detect_frames-Told_example : Told frames (served.0)
detect_frames-Told_example =
    detect_frames-Told sort keep (λ es. Perm.refl es) same frames two_streams (served.1) (served.0)
      (served.2)
