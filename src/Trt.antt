-- ===== src/Trt.antt =====
-- cpp/include/trt_engine.h and cpp/src/trt_engine.cpp: the state of `TRTEngine`, its pool of
-- execution contexts and the reading of the network's output. `F` is the type `float`. The network
-- itself, the device and the file are TensorRT, CUDA and the system: what they answer is an argument.
pub mod Bindings
pub mod Load
pub mod Context
pub mod Buffers
pub mod Batch
pub mod Pool
pub mod Postprocess
pub mod Infer
pub mod Sort
mod Tests
use pantograph_arc_vision.Common.{
  ℕ, zero, suc, ◌+◌, ◌*◌, ◌/◌, ◌%◌, ◌^◌, Bool, true, false, not, ◌||◌, Option, none, some, List, [],
  ◌∷◌, ◌++◌, if◌then◌else◌, length, take, drop, map,
}
use pantograph_arc_vision.Common.Int.{ℤ, pos, negsuc, pos_part, ltb_ℤ, leb_ℤ, signed}
use pantograph_arc_vision.Common.Floating.{Floating, ◌⊗◌, ◌≺◌}
use pantograph_arc_vision.Kernel.{Thread, Buffer}
use pantograph_arc_vision.Kernel.Resize.{cuda_preprocess_resize_normalize}
use pantograph_arc_vision.Nms.{Rect, overlaps, nms_sorted}

pub record Detection {ℓ} (F : Type ℓ) : Type ℓ where
  pub rect : Rect F
  pub confidence : F
  pub class_id : ℤ

-- The fields of `InferConfig` that the engine reads after the file is named.
pub record InferConfig {ℓ} (F : Type ℓ) : Type ℓ where
  pub score_threshold : F
  pub nms_threshold : F
  pub input_h : ℤ
  pub input_w : ℤ
  pub context_pool_size : ℤ

-- What a launch of a kernel meets: the order in which the device runs the threads, what `cudaGetLastError`
-- says, and what the memory behind its output holds before.
pub record Launch {ℓ} (F : Type ℓ) : Type ℓ where
  pub threads : List Thread
  pub failed : Bool
  pub memory : ℕ → F

-- What an inference meets: the launch of the preprocessing kernel, and what the network leaves in the
-- host's copy of its first output, by its input.
pub record Device {ℓ} (F : Type ℓ) : Type ℓ where
  pub launch : Launch F
  pub network : Buffer F → List F

-- `input_data`, `width`, `height` and `channels` of `infer`.
pub record Image : Type 0 where
  pub content : Buffer ℕ
  pub width : ℤ
  pub height : ℤ
  pub channels : ℤ

-- A call of `infer`, and what it meets.
pub record Request {ℓ} (F : Type ℓ) : Type ℓ where
  pub image : Image
  pub device : Device F

-- Bytes in the memory of the device.
abbrev pub byte_at : List ℕ → ℕ → ℕ
byte_at [] i = 0
byte_at (b ∷ bs) zero = b
byte_at (b ∷ bs) (suc i) = byte_at bs i

abbrev pub on_device : List ℕ → Buffer ℕ
on_device bytes = record { size = length bytes; at = byte_at bytes }

-- A context is known by its `slot_id`; `free_contexts_` points into `contexts_`. The runtime and the
-- engine are pointers, here whether they are set. No input binding is an index of -1.
pub record Engine {ℓ} (F : Type ℓ) : Type ℓ where
  pub config : InferConfig F
  pub runtime : Bool
  pub engine : Bool
  pub contexts : List ℕ
  pub free_contexts : List ℕ
  pub input_index : Option ℕ
  pub input_size : ℕ
  pub output_indices : List ℕ
  pub output_sizes : List ℕ

-- A binding of the network: its dimensions, and `bindingIsInput`.
pub record Binding : Type 0 where
  pub dims : List ℤ
  pub is_input : Bool

-- What creating context `i` comes to.
pub data Creation : Type 0 where
  created no_context no_buffers : Creation

-- What `load` gets from the system: whether the file opens and the runtime starts, the bindings of
-- the engine unless it cannot be read, and what each new context comes to.
pub record LoadEnv : Type 0 where
  pub file_opened : Bool
  pub runtime_made : Bool
  pub deserialized : Option (List Binding)
  pub creation : ℕ → Creation

-- `vol` in `size_t`; a dimension that is not positive counts as 1.
pub volume : ℕ → List ℤ → ℕ
volume vol [] = vol
volume vol (d ∷ dims) = volume (vol * (if ltb_ℤ (pos 0) d then pos_part d else 1) % 2 ^ 64) dims

-- `vol * sizeof(float)`.
pub binding_size : Binding → ℕ
binding_size b = volume 1 b.dims * 4 % 2 ^ 64

-- `pool_sz`.
unfoldable pub pool_size_of : ℤ → ℕ
pool_size_of n = if leb_ℤ n (pos 0) then 1 else pos_part n

-- `input_index_ < 0`.
abbrev pub no_input : Option ℕ → Bool
no_input none = true
no_input (some i) = false

module _ {ℓ} {F : Type ℓ} where
  -- The loop over the bindings from index `i` on.
  pub scan_bindings : ℕ → List Binding → Engine F → Engine F
  scan_bindings i [] e = e
  scan_bindings i (b ∷ bs) e = scan_bindings (i + 1) bs (
      if b.is_input
      then record e { input_index = some i; input_size = binding_size b }
      else record e {
        output_indices = e.output_indices ++ (i ∷ []);
        output_sizes = e.output_sizes ++ (binding_size b ∷ []);
      })

  -- The loop of `create_context_pool` from context `i` on, with `n` to go.
  pub create_contexts : (ℕ → Creation) → ℕ → ℕ → Engine F → Bool × Engine F
  create_contexts creation zero i e = (true, e)
  create_contexts creation (suc n) i e = elim (creation i) [
    | created ↦ create_contexts creation n (i + 1) (record e {
      free_contexts = e.free_contexts ++ (i ∷ []);
      contexts = e.contexts ++ (i ∷ []);
    })
    | no_context ↦ (false, e)
    | no_buffers ↦ (false, e)
  ]

  pub create_context_pool : (ℕ → Creation) → Engine F → Bool × Engine F
  create_context_pool creation e =
      create_contexts creation (pool_size_of e.config.context_pool_size) 0 e

  -- The part of `load` behind the runtime.
  pub load_engine : LoadEnv → Engine F → Bool × Engine F
  load_engine env e = elim env.deserialized [
    | none ↦ (false, record e { engine = false })
    | some bs ↦ create_context_pool env.creation (scan_bindings 0 bs (record e { engine = true }))
  ]

  pub load : LoadEnv → InferConfig F → Engine F → Bool × Engine F
  load env config e =
      let e1 = record e { config = config } in
      if env.file_opened
      then (if env.runtime_made
          then load_engine env (record e1 { runtime = true })
          else (false, record e1 { runtime = false }))
      else (false, e1)

  unfoldable pub unload : Engine F → Engine F
  unload e = record e { free_contexts = []; contexts = []; engine = false; runtime = false }

  -- `acquire_context`, when it holds the lock for the last time: with a free context it takes the
  -- first one, without one its time is up.
  unfoldable pub acquire_context : Engine F → Option ℕ × Engine F
  acquire_context e = elim e.free_contexts [
    | [] ↦ (none, e)
    | c ∷ rest ↦ (some c, record e { free_contexts = rest })
  ]

  unfoldable pub release_context : Option ℕ → Engine F → Engine F
  release_context none e = e
  release_context (some c) e = record e { free_contexts = e.free_contexts ++ (c ∷ []) }

module _ {ℓ} {F : Type ℓ} ⦃f : Floating F⦄ where
  -- The rows of six floats: four corners, and two whose product is the confidence. `count` rows are
  -- read from the host's copy of the output; `none` is a read past its end.
  unfoldable pub read_rows : F → ℕ → List F → Option (List (Detection F))
  read_rows threshold zero values = some []
  read_rows threshold (suc n) (x1 ∷ y1 ∷ x2 ∷ y2 ∷ p ∷ c ∷ values) =
      elim (read_rows threshold n values) [
        | none ↦ none
        | some rest ↦
            let conf = p ⊗ c in
            if conf ≺ threshold
            then some rest
            else some (
                record {
                  rect = record { x1 = x1; y1 = y1; x2 = x2; y2 = y2 };
                  confidence = conf;
                  class_id = f.to_int c;
                }
                ∷ rest)
      ]
  read_rows threshold (suc n) values = none

  abbrev pub suppresses : F → Detection F → Detection F → Bool
  suppresses threshold a b = overlaps threshold a.rect b.rect

  -- `sort` is `std::sort` by falling confidence.
  unfoldable pub postprocess :
      (List (Detection F) → List (Detection F))
      → InferConfig F
      → ℕ
      → List F
      → Option (List (Detection F))
  postprocess sort config zero values = some []
  postprocess sort config (suc count) values =
      elim (read_rows config.score_threshold (suc count) values) [
        | none ↦ none
        | some ds ↦ some (nms_sorted (suppresses config.nms_threshold) (sort ds))
      ]

  -- `static_cast<int>(output_sizes_[0] / sizeof(float)) / 6`, which is no row when it is not
  -- positive; `none` is `output_hosts[0]` of a network with no output.
  unfoldable pub row_count : Engine F → Option ℕ
  row_count e = elim e.output_sizes [
    | [] ↦ none
    | size ∷ rest ↦ some (pos_part (signed (size / 4 % 2 ^ 32)) / 6)
  ]

  -- The part of `infer_with_context` before the output is read: the image is brought to the size of the
  -- network's input, whose buffer has `input_size` bytes, and the network runs on it. `none` is a fault of the
  -- kernel; its return value is not looked at.
  unfoldable pub prepare : Engine F → Request F → Option (List F)
  prepare e r =
      let l = r.device.launch in
      elim (cuda_preprocess_resize_normalize l.threads l.failed r.image.content r.image.width
        r.image.height r.image.channels (record { size = e.input_size / 4; at = l.memory })
        (pos_part e.config.input_w) (pos_part e.config.input_h) none none true true) [
          | none ↦ none
          | some (input, rc) ↦ some (r.device.network input)
        ]

  -- `infer_with_context`.
  unfoldable pub infer_with_context :
      (List (Detection F) → List (Detection F)) → Engine F → Request F → Option (List (Detection F))
  infer_with_context sort e r = elim (prepare e r) [
    | none ↦ none
    | some values ↦ elim (row_count e) [ none ↦ none | some n ↦ postprocess sort e.config n values ]
  ]

  -- The part of `infer` behind `acquire_context`.
  unfoldable pub infer_acquired :
      (List (Detection F) → List (Detection F))
      → Request F
      → Option ℕ × Engine F
      → Option (List (Detection F) × Engine F)
  infer_acquired sort r (none, e) = some ([], e)
  infer_acquired sort r (some c, e) = elim (infer_with_context sort e r) [
    | none ↦ none
    | some ds ↦ some (ds, release_context (some c) e)
  ]

  -- `infer`: the detections and the engine after it; the outer `none` is a fault.
  unfoldable pub infer :
      (List (Detection F) → List (Detection F))
      → Engine F
      → Request F
      → Option (List (Detection F) × Engine F)
  infer sort e r =
      if not e.engine || no_input e.input_index
      then some ([], e)
      else infer_acquired sort r (acquire_context e)
