-- ===== src/Detector/Regions.antt =====
-- cpp/src/arc_detector.cpp: the blend of the two images of a frame and the crop of its regions.
use pantograph_arc_vision.Common.{
  ap, arith, ℕ, ◌*◌, ◌^◌, ◌<◌, ◌≤◌, ◌≡◌, refl, ◌∙◌, false, some, length,
}
use pantograph_arc_vision.Common.Int.{ℤ, pos, pos_part}
use pantograph_arc_vision.Common.Floating.{Floating}
use pantograph_arc_vision.Trt.{Engine, on_device}
use pantograph_arc_vision.Trt.Infer.{Holds}
use pantograph_arc_vision.Kernel.{Buffer}
use pantograph_arc_vision.Kernel.Blend.{cuda_blend_uv_visible, cuda_blend_uv_visible-runs}
use pantograph_arc_vision.Kernel.Crop.{cuda_preprocess_roi_crop, cuda_preprocess_roi_crop-runs}
use pantograph_arc_vision.Detector.{
  Roi, DetectorConfig, Input, crop_roi, blend_frame, crop_mean, crop_std, roi_request,
}

pub area_pos : (h w : ℕ) → 0 < h → 0 < w → 0 < h * w
area_pos h w p q = grind arith

module _ {ℓ} {F : Type ℓ} ⦃f : Floating F⦄ where
  -- A frame of which both images have all their bytes, and are not empty. The bytes of a buffer of floats are
  -- four for each, and no buffer has more than 2 ^ 31 of them.
  pub record IsFrame (config : DetectorConfig F) (i : Input F) : Type ℓ where
    pub width : ℕ
    pub height : ℕ
    pub wide : i.width ≡ pos width
    pub high : i.height ≡ pos height
    pub some_columns : 0 < width
    pub some_lines : 0 < height
    pub size : length i.image ≡ height * width
    pub visible_size : length i.visible ≡ height * width * 3
    pub few : 3 * height * width * 4 ≤ 2 ^ 31
    pub input_few : 3 * pos_part config.model_input_h * pos_part config.model_input_w * 4 ≤ 2 ^ 31
    pub bytes : (b : Buffer F) → (i.devices.float_bytes b).size ≡ b.size * 4

  -- What the crop of a region leaves is an image that the engine can take.
  abbrev pub TakesRois : DetectorConfig F → Input F → Engine F → Type ℓ
  TakesRois config i e =
      (roi : Roi F) (input : Buffer F)
      → input.size ≡ 3 * pos_part config.model_input_h * pos_part config.model_input_w
      → Holds e (roi_request config i roi input)

  blend_step :
      (config : DetectorConfig F) (i : Input F) (w h : ℕ) {out : Buffer F} {rc : ℤ}
      → i.width ≡ pos w
      → i.height ≡ pos h
      → cuda_blend_uv_visible i.devices.blend_launch.threads i.devices.blend_launch.failed
          (on_device i.visible)
          (on_device i.image)
          (record { size = 3 * h * w; at = i.devices.blend_launch.memory })
          w
          h
          config.uv_blend_weight
        ≡ some (out, rc)
      → blend_frame config i ≡ some out
  unfolding blend_frame
  blend_step config i w h ew eh ran = rw (blend_frame, ew, eh, ran) refl

  pub blend_total :
      (config : DetectorConfig F) (i : Input F) (fr : IsFrame config i)
      → (out : Buffer F) × (blend_frame config i ≡ some out) × (out.size ≡ 3 * fr.height * fr.width)
  blend_total config i fr =
      let (out, ran, sized) =
        cuda_blend_uv_visible-runs i.devices.blend_launch.threads i.devices.blend_launch.failed
          (on_device i.visible) (on_device i.image)
          (record { size = 3 * fr.height * fr.width; at = i.devices.blend_launch.memory }) fr.width
          fr.height config.uv_blend_weight fr.visible_size fr.size refl (omega (arith, fr.few)) in
      (out, blend_step config i fr.width fr.height fr.wide fr.high ran, sized)

  crop_step :
      (config : DetectorConfig F) (i : Input F) (blended : Buffer F) (roi : Roi F) (w h : ℕ)
      {out : Buffer F} {rc : ℤ}
      → i.width ≡ pos w
      → i.height ≡ pos h
      → cuda_preprocess_roi_crop
          (i.devices.crop_launch roi).threads
          (i.devices.crop_launch roi).failed
          (i.devices.float_bytes blended)
          (pos w)
          (pos h)
          (f.to_int roi.rect.x1)
          (f.to_int roi.rect.y1)
          (f.to_int roi.rect.x2)
          (f.to_int roi.rect.y2)
          (record {
            size = 3 * pos_part config.model_input_h * pos_part config.model_input_w;
            at = (i.devices.crop_launch roi).memory;
          })
          (pos_part config.model_input_w)
          (pos_part config.model_input_h)
          (some crop_mean)
          (some crop_std)
          false
        ≡ some (out, rc)
      → crop_roi config i blended roi ≡ some (roi_request config i roi out)
  unfolding crop_roi
  crop_step config i blended roi w h ew eh ran = rw (crop_roi, ew, eh, ran) refl

  pub crop_total :
      (config : DetectorConfig F) (i : Input F) (fr : IsFrame config i) (blended : Buffer F)
      (roi : Roi F)
      → blended.size ≡ 3 * fr.height * fr.width
      → (out : Buffer F) × (crop_roi config i blended roi ≡ some (roi_request config i roi out))
        × (out.size ≡ 3 * pos_part config.model_input_h * pos_part config.model_input_w)
  crop_total config i fr blended roi sized =
      let bytes : (i.devices.float_bytes blended).size ≡ 3 * fr.height * fr.width * 4 =
        fr.bytes blended ∙ ap (λ n. n * 4) sized in
      let (out, ran, kept) =
        cuda_preprocess_roi_crop-runs (i.devices.crop_launch roi).threads
          (i.devices.crop_launch roi).failed (i.devices.float_bytes blended) fr.width fr.height
          (f.to_int roi.rect.x1) (f.to_int roi.rect.y1) (f.to_int roi.rect.x2)
          (f.to_int roi.rect.y2)
          (record {
            size = 3 * pos_part config.model_input_h * pos_part config.model_input_w;
            at = (i.devices.crop_launch roi).memory;
          })
          (pos_part config.model_input_w) (pos_part config.model_input_h) (some crop_mean)
          (some crop_std) false fr.some_columns fr.some_lines (omega (arith, bytes))
          (omega (arith, bytes, fr.few)) refl (omega (arith, fr.input_few)) in
      (out, crop_step config i blended roi fr.width fr.height fr.wide fr.high ran, kept)
