-- ===== src/Detector.antt =====
-- cpp/src/arc_detector.cpp and cpp/include/arc_detector.h: from the detections of the two networks to
-- the events of a stream, for one frame. `F` is the type `float` and `D` the type `double`.
pub mod Annotate
pub mod Frame
pub mod Regions
pub mod Detect
pub mod Events
pub mod Sample
mod Tests
use pantograph_arc_vision.Common.{
  ℕ, zero, suc, ◌+◌, ◌*◌, Bool, true, false, ◌||◌, Option, none, some, List, [], ◌∷◌, ◌++◌, map,
  leb, if◌then◌else◌,
}
use pantograph_arc_vision.Common.Int.{ℤ, pos, pos_part, ltb_ℤ}
use pantograph_arc_vision.Common.Floating.{Floating, ◌⊕◌, ◌⊖◌, ◌⊗◌, ◌⊘◌, ◌≺◌, whole, fmax, fmin}
use pantograph_arc_vision.Severity.{Level, minor_spark, Box}
use pantograph_arc_vision.Tracker.{Tracker, TrackUpdate, update, expire_old_tracks}
use pantograph_arc_vision.Nms.{Rect, overlaps, nms_sorted}
use pantograph_arc_vision.Trt.{Detection, Engine, Launch, Device, Request, on_device, infer}
use pantograph_arc_vision.Kernel.{Buffer, Colour}
use pantograph_arc_vision.Kernel.Blend.{cuda_blend_uv_visible}
use pantograph_arc_vision.Kernel.Crop.{cuda_preprocess_roi_crop}
use pantograph_arc_vision.Energy.{compute_instant_energy_gpu}

-- `ArcFlashEvent`.
pub record Event {ℓ} (F D : Type ℓ) : Type ℓ where
  pub rect : Rect F
  pub confidence : F
  pub pts_ns : ℤ
  pub stream_index : ℤ
  pub intensity : D
  pub instant_energy : D
  pub smoothed_energy : D
  pub cumulative_energy : D
  pub severity : Level
  pub track_id : ℕ
  pub track_frame_count : ℕ
  pub track_duration_ns : ℤ

-- `PantographROI`.
pub record Roi {ℓ} (F : Type ℓ) : Type ℓ where
  pub rect : Rect F
  pub confidence : F

-- The fields of `ArcDetectorConfig` that `detect` reads.
pub record DetectorConfig {ℓ} (F : Type ℓ) : Type ℓ where
  pub nms_thresh : F
  pub roi_padding : ℤ
  pub model_input_h : ℤ
  pub model_input_w : ℤ
  pub uv_blend_weight : F

-- `StreamInferContext` of an initialised stream.
pub record StreamContext {ℓ} (F D : Type ℓ) : Type ℓ where
  pub visible_engine : Engine F
  pub uv_engine : Engine F
  pub lifecycle_tracker : Tracker D

-- What the device does for one frame: the inferences on the visible image and on each region, the launches of
-- the blend and of the crop of each region, and the bytes of a buffer of `float`. `cudaMalloc` is taken to
-- work, as the code takes it.
pub record Devices {ℓ} (F : Type ℓ) : Type ℓ where
  pub visible_device : Device F
  pub uv_device : Roi F → Device F
  pub blend_launch : Launch F
  pub crop_launch : Roi F → Launch F
  pub float_bytes : Buffer F → Buffer ℕ

-- What one frame brings: the visible and the ultraviolet image, their size, the time stamp and the stream, and
-- what the device does for it.
pub record Input {ℓ} (F : Type ℓ) : Type ℓ where
  pub devices : Devices F
  pub visible : List ℕ
  pub image : List ℕ
  pub width : ℤ
  pub height : ℤ
  pub pts_ns : ℤ
  pub stream_index : ℤ

module _ {ℓ} {F : Type ℓ} ⦃f : Floating F⦄ where
  -- The body of the loop of `extract_pantograph_rois`.
  unfoldable pub pad_roi : ℤ → ℤ → ℤ → Detection F → Roi F
  pad_roi pad width height det = record {
    rect = record {
      x1 = fmax (whole 0) (det.rect.x1 ⊖ f.from_int pad);
      y1 = fmax (whole 0) (det.rect.y1 ⊖ f.from_int pad);
      x2 = fmin (f.from_int width) (det.rect.x2 ⊕ f.from_int pad);
      y2 = fmin (f.from_int height) (det.rect.y2 ⊕ f.from_int pad);
    };
    confidence = det.confidence;
  }

  -- The arguments of `infer` for the visible image.
  abbrev pub visible_request : Input F → Request F
  visible_request i = record {
    image = record {
      content = on_device i.visible;
      width = i.width;
      height = i.height;
      channels = pos 3;
    };
    device = i.devices.visible_device;
  }

  unfoldable pub extract_pantograph_rois :
      (List (Detection F) → List (Detection F))
      → DetectorConfig F
      → Input F
      → Engine F
      → Option (List (Roi F) × Engine F)
  extract_pantograph_rois sort config i engine = elim (infer sort engine (visible_request i)) [
    | none ↦ none
    | some (detections, vis) ↦
        some (map (pad_roi config.roi_padding i.width i.height) detections, vis)
  ]

  -- `cuda_blend_uv_visible` of the two images into `blended_gpu`; `none` is a fault of the kernel.
  unfoldable pub blend_frame : DetectorConfig F → Input F → Option (Buffer F)
  blend_frame config i =
      let l = i.devices.blend_launch in
      let w = pos_part i.width in
      let h = pos_part i.height in
      elim (cuda_blend_uv_visible l.threads l.failed (on_device i.visible) (on_device i.image)
        (record { size = 3 * h * w; at = l.memory }) w h config.uv_blend_weight) [
          | none ↦ none
          | some (blended, rc) ↦ some blended
        ]

  -- The `mean` and `std_dev` of the crop.
  abbrev pub crop_mean : Colour F
  crop_mean = record { red = whole 0; green = whole 0; blue = whole 0 }

  abbrev pub crop_std : Colour F
  crop_std = record { red = whole 255; green = whole 255; blue = whole 255 }

  -- The arguments of `infer` for a region: the bytes of the floats in `roi_input_gpu`.
  abbrev pub roi_request : DetectorConfig F → Input F → Roi F → Buffer F → Request F
  roi_request config i roi input = record {
    image = record {
      content = i.devices.float_bytes input;
      width = config.model_input_w;
      height = config.model_input_h;
      channels = pos 3;
    };
    device = i.devices.uv_device roi;
  }

  -- `cuda_preprocess_roi_crop` of a region of the bytes in `blended_gpu`, into `roi_input_gpu`.
  unfoldable pub crop_roi : DetectorConfig F → Input F → Buffer F → Roi F → Option (Request F)
  crop_roi config i blended roi =
      let l = i.devices.crop_launch roi in
      let dst_w = pos_part config.model_input_w in
      let dst_h = pos_part config.model_input_h in
      elim (cuda_preprocess_roi_crop l.threads l.failed (i.devices.float_bytes blended) i.width
        i.height (f.to_int roi.rect.x1) (f.to_int roi.rect.y1) (f.to_int roi.rect.x2)
        (f.to_int roi.rect.y2) (record { size = 3 * dst_h * dst_w; at = l.memory }) dst_w dst_h
        (some crop_mean) (some crop_std) false) [
          | none ↦ none
          | some (input, rc) ↦ some (roi_request config i roi input)
        ]

  -- `roi_w < 32 || roi_h < 32`.
  unfoldable pub is_small : Roi F → Bool
  is_small roi =
      ltb_ℤ (f.to_int (roi.rect.x2 ⊖ roi.rect.x1)) (pos 32)
      || ltb_ℤ (f.to_int (roi.rect.y2 ⊖ roi.rect.y1)) (pos 32)

module _ {ℓ} {F D : Type ℓ} ⦃f : Floating F⦄ ⦃d : Floating D⦄ where
  -- The body of the inner loop of `detect_arc_in_rois`; `widen` is the conversion to a `double`.
  unfoldable pub to_event : (F → D) → DetectorConfig F → ℤ → ℤ → Roi F → Detection F → Event F D
  to_event widen config pts stream roi det =
      let roi_w = f.from_int (f.to_int (roi.rect.x2 ⊖ roi.rect.x1)) in
      let roi_h = f.from_int (f.to_int (roi.rect.y2 ⊖ roi.rect.y1)) in
      let dst_w = f.from_int config.model_input_w in
      let dst_h = f.from_int config.model_input_h in
      let x1 = det.rect.x1 ⊘ dst_w ⊗ roi_w ⊕ roi.rect.x1 in
      let y1 = det.rect.y1 ⊘ dst_h ⊗ roi_h ⊕ roi.rect.y1 in
      let x2 = det.rect.x2 ⊘ dst_w ⊗ roi_w ⊕ roi.rect.x1 in
      let y2 = det.rect.y2 ⊘ dst_h ⊗ roi_h ⊕ roi.rect.y1 in
      let box_area = (x2 ⊖ x1) ⊗ (y2 ⊖ y1) in
      record {
        rect = record { x1 = x1; y1 = y1; x2 = x2; y2 = y2 };
        confidence = det.confidence;
        pts_ns = pts;
        stream_index = stream;
        intensity = if whole 0 ≺ box_area then widen (det.confidence ⊘ box_area) else whole 0;
        instant_energy = whole 0;
        smoothed_energy = whole 0;
        cumulative_energy = whole 0;
        severity = minor_spark;
        track_id = 0;
        track_frame_count = 0;
        track_duration_ns = pos 0;
      }

  -- `ArcDetector::nms`; `sort` is `std::sort` by falling confidence.
  unfoldable pub nms :
      (List (Event F D) → List (Event F D)) → F → List (Event F D) → List (Event F D)
  nms sort thresh [] = []
  nms sort thresh (e ∷ es) = nms_sorted (λ a b. overlaps thresh a.rect b.rect) (sort (e ∷ es))

  abbrev pub wide_box : (F → D) → Rect F → Box D
  wide_box widen r = record { x1 = widen r.x1; y1 = widen r.y1; x2 = widen r.x2; y2 = widen r.y2 }

  -- `iou` of an event and the box of an update.
  unfoldable pub event_iou : (F → D) → Event F D → TrackUpdate D → D
  event_iou widen evt upd =
      let e = evt.rect in
      let u = upd.box in
      let iw = fmax (whole 0) (fmin (widen e.x2) u.x2 ⊖ fmax (widen e.x1) u.x1) in
      let ih = fmax (whole 0) (fmin (widen e.y2) u.y2 ⊖ fmax (widen e.y1) u.y1) in
      let inter = iw ⊗ ih in
      let area_e = widen ((e.x2 ⊖ e.x1) ⊗ (e.y2 ⊖ e.y1)) in
      let area_u = (u.x2 ⊖ u.x1) ⊗ (u.y2 ⊖ u.y1) in
      let union_a = area_e ⊕ area_u ⊖ inter in
      if whole 0 ≺ union_a then inter ⊘ union_a else whole 0

  -- The loop over the updates, with its `break`.
  unfoldable pub link : (F → D) → List (TrackUpdate D) → Event F D → Event F D
  link widen [] evt = evt
  link widen (upd ∷ us) evt =
      let rest = link widen us evt in
      if (whole 1 ⊘ whole 2) ≺ event_iou widen evt upd
      then record evt {
        track_id = upd.track_id;
        smoothed_energy = upd.smoothed_energy;
        cumulative_energy = upd.cumulative_energy;
        severity = upd.severity;
        track_frame_count = upd.frame_count;
        track_duration_ns = upd.duration_ns;
      }
      else rest

  -- What stands behind that loop: an event without a track.
  unfoldable pub settle_event : Event F D → Event F D
  settle_event evt =
      if leb evt.track_id 0
      then record evt {
        severity = minor_spark;
        track_id = 0;
        track_frame_count = 1;
        track_duration_ns = pos 0;
        smoothed_energy = evt.instant_energy;
        cumulative_energy = evt.instant_energy;
      }
      else evt

  unfoldable pub annotate : (F → D) → List (TrackUpdate D) → Event F D → Event F D
  annotate widen us evt = settle_event (link widen us evt)

  -- The loop that estimates the energies: the events with theirs. `none` is a read outside of the
  -- image.
  unfoldable pub measure : (F → D) → List ℕ → ℤ → ℤ → List (Event F D) → Option (List (Event F D))
  measure widen image width height [] = some []
  measure widen image width height (e ∷ es) =
      elim (compute_instant_energy_gpu (wide_box widen e.rect) image width height) [
        | none ↦ none
        | some energy ↦ elim (measure widen image width height es) [
          | none ↦ none
          | some rest ↦ some (record e { instant_energy = energy } ∷ rest)
        ]
      ]

  -- The part of `detect` behind the suppression: the events and the tracker after the frame.
  unfoldable pub track_events :
      (F → D) → Tracker D → ℤ → List (Event F D) → Option (List (Event F D) × Tracker D)
  track_events widen k pts es =
      elim (update k pts (map (λ e. wide_box widen e.rect) es) (map (λ e. e.instant_energy) es)) [
        | none ↦ none
        | some (us, k') ↦ some (map (annotate widen us) es, expire_old_tracks k' pts)
      ]

  -- The loop of `detect_arc_in_rois`: the events of all regions, and the engine after it. `crop` gives the input
  -- of the inference for a region; `none` is a fault.
  unfoldable pub scan_rois :
      (List (Detection F) → List (Detection F))
      → (F → D)
      → DetectorConfig F
      → ℤ
      → ℤ
      → (Roi F → Option (Request F))
      → Engine F
      → List (Roi F)
      → Option (List (Event F D) × Engine F)
  scan_rois sort widen config pts stream crop e [] = some ([], e)
  scan_rois sort widen config pts stream crop e (roi ∷ rois) =
      if is_small roi
      then scan_rois sort widen config pts stream crop e rois
      else (elim (crop roi) [
        | none ↦ none
        | some r ↦ elim (infer sort e r) [
          | none ↦ none
          | some (ds, e') ↦ elim (scan_rois sort widen config pts stream crop e' rois) [
            | none ↦ none
            | some (es, e'') ↦ some (map (to_event widen config pts stream roi) ds ++ es, e'')
          ]
        ]
      ])

  unfoldable pub detect_arc_in_rois :
      (List (Detection F) → List (Detection F))
      → (F → D)
      → DetectorConfig F
      → Input F
      → Engine F
      → List (Roi F)
      → Option (List (Event F D) × Engine F)
  detect_arc_in_rois sort widen config i e rois = elim (blend_frame config i) [
    | none ↦ none
    | some blended ↦
        scan_rois sort widen config i.pts_ns i.stream_index (crop_roi config i blended) e rois
  ]

  -- The part of `detect` behind the regions.
  unfoldable pub detect_in_rois :
      (List (Detection F) → List (Detection F))
      → (List (Event F D) → List (Event F D))
      → (F → D)
      → DetectorConfig F
      → Input F
      → StreamContext F D
      → List (Roi F)
      → Option (List (Event F D) × StreamContext F D)
  detect_in_rois sort sort_events widen config i ctx rois =
      elim (detect_arc_in_rois sort widen config i ctx.uv_engine rois) [
        | none ↦ none
        | some (raw, uv) ↦
            elim (measure widen i.image i.width i.height (nms sort_events config.nms_thresh raw)) [
              | none ↦ none
              | some es ↦ elim (track_events widen ctx.lifecycle_tracker i.pts_ns es) [
                | none ↦ none
                | some (events, k) ↦
                    some (events, record ctx { uv_engine = uv; lifecycle_tracker = k })
              ]
            ]
      ]

  -- `detect` on the context of an initialised stream. Without a region only the tracks expire.
  unfoldable pub detect :
      (List (Detection F) → List (Detection F))
      → (List (Event F D) → List (Event F D))
      → (F → D)
      → DetectorConfig F
      → Input F
      → StreamContext F D
      → Option (List (Event F D) × StreamContext F D)
  detect sort sort_events widen config i ctx =
      elim (extract_pantograph_rois sort config i ctx.visible_engine) [
        | none ↦ none
        | some ([], vis) ↦ some (
          [],
          record ctx {
            visible_engine = vis;
            lifecycle_tracker = expire_old_tracks ctx.lifecycle_tracker i.pts_ns;
          },
        )
        | some (roi ∷ rois, vis) ↦
            detect_in_rois sort sort_events widen config i (record ctx { visible_engine = vis })
              (roi ∷ rois)
      ]
