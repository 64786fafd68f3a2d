-- ===== src/Trt/Tests.antt =====
-- Runs of `TRTEngine` of cpp/src/trt_engine.cpp, in hundredths.
use mathlib.Core.List.{Perm, Nodup}
use pantograph_arc_vision.Common.{
  ◌<◌, ◌≤◌, ◌*◌, length, length, ◌==◌, if◌then◌else◌, ℕ, ◌≡◌, ◌≢◌, refl, subst, arith, true, false,
  none, some, List, [], ◌∷◌,
}
use pantograph_arc_vision.Common.Int.{pos, negsuc}
use pantograph_arc_vision.Common.Floating.{Hundredths, hundredths_floating}
use pantograph_arc_vision.Trt.{
  InferConfig, Engine, Binding, created, LoadEnv, pool_size_of, load, acquire_context,
  release_context, read_rows, postprocess, row_count, binding_size, volume, load_engine,
  create_context_pool, create_contexts, scan_bindings,
}
use pantograph_arc_vision.Kernel.Resize.Place.{IsScaling}
use pantograph_arc_vision.Trt.Infer.{Holds}
use pantograph_arc_vision.Trt.Load.{IsLoaded, load-IsLoaded, slots}
use pantograph_arc_vision.Trt.Batch.{Network, request, infer_batch, Answers, infer_batch-Answers}
use pantograph_arc_vision.Trt.Context.{
  BufferAnswers, allocate, allocate_input, allocate_outputs, release, new_context,
}
use pantograph_arc_vision.Trt.Buffers.{IsAllocated, IsEmpty, release-allocate}
use pantograph_arc_vision.Trt.Sort.{Found, sort, sort-IsSort}
use pantograph_arc_vision.Trt.Pool.{
  acquired, released, Reach, start, next, pool_exclusive, pool_available,
}
use pantograph_arc_vision.Trt.Postprocess.{IsReport, IsRows, postprocess-IsReport}

abbrev config : InferConfig Hundredths
config = record {
  score_threshold = 50;
  nms_threshold = 45;
  input_h = pos 4;
  input_w = pos 4;
  context_pool_size = pos 2;
}

abbrev unloaded : Engine Hundredths
unloaded = record {
  config = config;
  runtime = false;
  engine = false;
  contexts = [];
  free_contexts = [];
  input_index = none;
  input_size = 0;
  output_indices = [];
  output_sizes = [];
}

-- An input of 1 x 3 x 4 x 4 floats, and two rows of output.
abbrev bindings : List Binding
bindings =
    record { dims = negsuc 0 ∷ pos 3 ∷ pos 4 ∷ pos 4 ∷ []; is_input = true }
    ∷ record { dims = pos 2 ∷ pos 6 ∷ []; is_input = false }
    ∷ []

abbrev system : LoadEnv
system = record {
  file_opened = true;
  runtime_made = true;
  deserialized = some bindings;
  creation = λ i. created;
}

load-IsLoaded_example :
    ((load system config unloaded).0 ≡ true)
    × IsLoaded config bindings unloaded (load system config unloaded).1
load-IsLoaded_example = load-IsLoaded system config bindings unloaded refl refl refl (λ i h. refl)

abbrev loaded : Engine Hundredths
loaded = record {
  config = config;
  runtime = true;
  engine = true;
  contexts = 0 ∷ 1 ∷ [];
  free_contexts = 0 ∷ 1 ∷ [];
  input_index = some 0;
  input_size = 192;
  output_indices = 1 ∷ [];
  output_sizes = 48 ∷ [];
}

loaded_from : (load system config unloaded).1 ≡ loaded
unfolding load load_engine create_context_pool create_contexts scan_bindings pool_size_of
    binding_size volume
loaded_from = refl

loaded-IsLoaded : IsLoaded config bindings unloaded loaded
loaded-IsLoaded =
    subst (IsLoaded config bindings unloaded) loaded_from
      (load-IsLoaded system config bindings unloaded refl refl refl (λ i h. refl)).1

-- One thread takes context 0, another context 1, and the first gives its own back.
abbrev one_held : Engine Hundredths
one_held = record loaded { free_contexts = 0 ∷ [] }

run : Reach ([], loaded) (1 ∷ [], one_held)
unfolding acquire_context release_context
run =
    next (next (next start (acquired {c = 0} refl)) (acquired {c = 1} refl))
      (released (1 ∷ []) 0 [])

pool_exclusive_example :
    Perm {A = ℕ} (1 ∷ 0 ∷ []) (slots 0 (pool_size_of config.context_pool_size))
    × Nodup {A = ℕ} (1 ∷ 0 ∷ [])
pool_exclusive_example = pool_exclusive refl loaded-IsLoaded run

pool_available_example : (acquire_context one_held).0 ≢ none
unfolding pool_size_of
pool_available_example = pool_available refl loaded-IsLoaded run (omega arith)

abbrev output : List Hundredths
output = 0 ∷ 0 ∷ 1000 ∷ 1000 ∷ 90 ∷ 100 ∷ 100 ∷ 0 ∷ 1100 ∷ 1000 ∷ 80 ∷ 100 ∷ []

postprocess-IsReport_example :
    (rows ds : List Found) × (read_rows config.score_threshold 2 output ≡ some rows)
    × (postprocess sort config 2 output ≡ some ds)
    × IsRows config.score_threshold output 0 2 rows
    × IsReport sort config 2 rows ds
postprocess-IsReport_example = postprocess-IsReport sort sort-IsSort config 2 output (omega arith)

rows_of_loaded : row_count loaded ≡ some 2
unfolding row_count
rows_of_loaded = refl

-- `malloc` refuses the host buffer of the second of three outputs.
abbrev second_refused : BufferAnswers
second_refused = record {
  input_device_ok = true;
  input_host_ok = true;
  output_device_ok = λ i. true;
  output_host_ok = λ i. if i == 1 then false else true;
  stream_ok = true;
}

refused_run :
    ((allocate second_refused true 3 new_context).0 ≡ false)
    × ((allocate second_refused true 3 new_context).1.live_device ≡ 3)
    × ((allocate second_refused true 3 new_context).1.live_host ≡ 2)
unfolding allocate allocate_input allocate_outputs
refused_run = (refl, refl, refl)

release-allocate_example :
    IsAllocated 3 (allocate second_refused true 3 new_context)
    × IsEmpty (release (allocate second_refused true 3 new_context).1)
release-allocate_example = release-allocate second_refused true 3

-- A network that finds more in a larger picture, behind a launch of one thread.
abbrev network : Network Hundredths
network i w h c = record {
  launch = record {
    threads = record { block_x = 0; block_y = 0; thread_x = 0; thread_y = 0 } ∷ [];
    failed = false;
    memory = λ k. 0;
  };
  network = λ b. if length i == 3 then output else 0 ∷ 0 ∷ 5 ∷ 5 ∷ 90 ∷ 100 ∷ output;
}

-- Pictures of one and of two pixels.
abbrev pictures : List (List ℕ)
pictures = (7 ∷ 8 ∷ 9 ∷ []) ∷ (7 ∷ 8 ∷ 9 ∷ 1 ∷ 2 ∷ 3 ∷ []) ∷ []

Hundredths-IsScaling : IsScaling Hundredths
Hundredths-IsScaling a b c h small = omega arith

picture-Holds :
    (i : List ℕ) (w : ℕ)
    → 0 < w
    → w ≤ 2
    → length i ≡ w * 3
    → 12 ≤ length ((network i (pos w) (pos 1) (pos 3)).network (record { size = 0; at = λ k. 0 }))
    → Holds loaded (request network i (pos w) (pos 1) (pos 3))
picture-Holds i w some_w few size rows = record {
  n = 2;
  width = w;
  height = 1;
  channels = 3;
  rows = rows_of_loaded;
  wide = refl;
  high = refl;
  deep = refl;
  some_columns = some_w;
  some_lines = omega arith;
  three = omega arith;
  columns_few = omega (arith, few);
  lines_few = omega arith;
  size = omega (arith, size);
  few = omega (arith, size, few);
  input = refl;
  input_few = omega arith;
  output = λ b. rows;
}

infer_batch-Answers_example :
    (results : List (List Found)) × (free : List ℕ) × (infer_batch sort network loaded pictures
        (pos 1 ∷ pos 2 ∷ [])
        (pos 1 ∷ pos 1 ∷ [])
        (pos 3 ∷ pos 3 ∷ [])
      ≡ some (results, record loaded { free_contexts = free }))
    × Perm free loaded.free_contexts
    × Answers sort network loaded pictures
        (pos 1 ∷ pos 2 ∷ [])
        (pos 1 ∷ pos 1 ∷ [])
        (pos 3 ∷ pos 3 ∷ [])
        results
infer_batch-Answers_example =
    infer_batch-Answers Hundredths-IsScaling sort sort-IsSort network loaded pictures
      (pos 1 ∷ pos 2 ∷ []) (pos 1 ∷ pos 1 ∷ []) (pos 3 ∷ pos 3 ∷ [])
      (
        picture-Holds (7 ∷ 8 ∷ 9 ∷ []) 1 (omega arith) (omega arith) refl (omega arith),
        (
          picture-Holds (7 ∷ 8 ∷ 9 ∷ 1 ∷ 2 ∷ 3 ∷ []) 2 (omega arith) (omega arith) refl
              (omega arith),
          tt,
        ),
      )
