-- ===== src/Detector/Sample.antt =====
-- One stream and one frame, to run cpp/src/arc_detector.cpp on, in hundredths.
use pantograph_arc_vision.Common.{ℕ, ◌≡◌, refl, true, false, ◌*◌, some, List, [], ◌∷◌, ◌++◌}
use pantograph_arc_vision.Common.Int.{pos}
use pantograph_arc_vision.Common.Floating.{Hundredths, hundredths_floating}
use pantograph_arc_vision.Severity.{Thresholds}
use pantograph_arc_vision.Tracker.{tracker}
use pantograph_arc_vision.Tracker.Ids.{IsTracked}
use pantograph_arc_vision.Tracker.History.{new-IsTracked}
use pantograph_arc_vision.Kernel.{Buffer}
use pantograph_arc_vision.Trt.{Engine, Launch, Device, row_count}
use pantograph_arc_vision.Detector.{Event, DetectorConfig, StreamContext, Devices, Input}

abbrev pub thresholds : Thresholds Hundredths
thresholds = record {
  level2_cumulative_energy = 1000;
  level3_cumulative_energy = 5000;
  level4_cumulative_energy = 20000;
  level5_cumulative_energy = 100000;
  level3_instant_energy = 3000;
  level5_instant_energy = 50000;
  level4_duration_ns = pos 500;
  level5_duration_ns = pos 2000;
}

abbrev pub network : Engine Hundredths
network = record {
  config = record {
    score_threshold = 50;
    nms_threshold = 45;
    input_h = pos 4;
    input_w = pos 4;
    context_pool_size = pos 1;
  };
  runtime = true;
  engine = true;
  contexts = 0 ∷ [];
  free_contexts = 0 ∷ [];
  input_index = some 0;
  input_size = 192;
  output_indices = 1 ∷ [];
  output_sizes = 24 ∷ [];
}

pub one_row : row_count network ≡ some 1
unfolding row_count
one_row = refl

abbrev pub stream : StreamContext Hundredths Hundredths
stream = record {
  visible_engine = network;
  uv_engine = network;
  lifecycle_tracker = tracker thresholds 30 (pos 20) (pos 64);
}

pub stream-IsTracked : IsTracked stream.lifecycle_tracker
stream-IsTracked = new-IsTracked thresholds 30 (pos 20) (pos 64)

abbrev pub config : DetectorConfig Hundredths
config = record {
  nms_thresh = 45;
  roi_padding = pos 20;
  model_input_h = pos 64;
  model_input_w = pos 64;
  uv_blend_weight = 60;
}

abbrev pub row : List Hundredths
row = 0 ∷ 0 ∷ 5000 ∷ 5000 ∷ 90 ∷ 100 ∷ []

-- An image of 50 columns and a row.
abbrev pub ten : List ℕ
ten = 255 ∷ 0 ∷ 255 ∷ 0 ∷ 255 ∷ 0 ∷ 255 ∷ 0 ∷ 255 ∷ 0 ∷ []

-- A device that runs one thread of each kernel, and a network that finds one row in everything.
abbrev pub launch : Launch Hundredths
launch = record {
  threads = record { block_x = 0; block_y = 0; thread_x = 0; thread_y = 0 } ∷ [];
  failed = false;
  memory = λ k. 0;
}

abbrev pub device : Device Hundredths
device = record { launch = launch; network = λ b. row }

-- A device whose launches fail, so that no thread runs.
abbrev pub idle_device : Device Hundredths
idle_device = record device { launch = record launch { threads = []; failed = true } }

abbrev pub four_bytes : Buffer Hundredths → Buffer ℕ
four_bytes b = record { size = b.size * 4; at = λ k. 0 }

abbrev pub devices : Devices Hundredths
devices = record {
  visible_device = device;
  uv_device = λ roi. device;
  blend_launch = launch;
  crop_launch = λ roi. launch;
  float_bytes = four_bytes;
}

abbrev pub idle_devices : Devices Hundredths
idle_devices = record {
  visible_device = idle_device;
  uv_device = λ roi. idle_device;
  blend_launch = idle_device.launch;
  crop_launch = λ roi. idle_device.launch;
  float_bytes = four_bytes;
}

abbrev pub fifty : List ℕ
fifty = ten ++ (ten ++ (ten ++ (ten ++ ten)))

abbrev pub input : Input Hundredths
input = record {
  devices = devices;
  visible = fifty ++ (fifty ++ fifty);
  image = fifty;
  width = pos 50;
  height = pos 1;
  pts_ns = pos 33;
  stream_index = pos 0;
}

abbrev pub keep : List (Event Hundredths Hundredths) → List (Event Hundredths Hundredths)
keep es = es

abbrev pub same : Hundredths → Hundredths
same x = x
