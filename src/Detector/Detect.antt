-- ===== src/Detector/Detect.antt =====
-- `ArcDetector::detect` of cpp/src/arc_detector.cpp on a whole frame.
use pantograph_arc_vision.Common.{
  Option, arith, ◌*◌, ◌^◌, ◌<◌, ◌≡◌, refl, inl, inr, ◌∙◌, true, false, Bool-cases, some, List, [],
  ◌∷◌, ◌++◌, map,
}
use pantograph_arc_vision.Common.Int.{ℤ}
use pantograph_arc_vision.Common.Floating.{Floating}
use pantograph_arc_vision.Tracker.{Tracker, expire_old_tracks}
use pantograph_arc_vision.Tracker.Ids.{IsTracked}
use pantograph_arc_vision.Tracker.History.{expire_old_tracks-IsTracked}
use pantograph_arc_vision.Trt.{Detection, Engine, Request, infer}
use pantograph_arc_vision.Trt.Infer.{
  Holds, IsBack, IsBack-refl, IsBack-trans, Holds-kept, infer_returns_context,
}
use pantograph_arc_vision.Kernel.{Buffer}
use pantograph_arc_vision.Kernel.Resize.Place.{IsScaling}
use pantograph_arc_vision.Trt.Postprocess.{IsSort}
use pantograph_arc_vision.Trt.Pool.{list-cases}
use pantograph_arc_vision.Detector.{
  Event, Roi, DetectorConfig, StreamContext, Input, is_small, to_event, pad_roi, nms, measure,
  track_events, detect_arc_in_rois, scan_rois, crop_roi, blend_frame, roi_request, visible_request,
  detect_in_rois, extract_pantograph_rois, detect,
}
use pantograph_arc_vision.Detector.Frame.{measure_total, track_events_total}
use pantograph_arc_vision.Detector.Regions.{IsFrame, TakesRois, area_pos, blend_total, crop_total}

module _ {ℓ} {F D : Type ℓ} ⦃f : Floating F⦄ ⦃d : Floating D⦄
    (sort : List (Detection F) → List (Detection F)) (v : IsSort sort)
    (sort_events : List (Event F D) → List (Event F D)) (widen : F → D) (config : DetectorConfig F)
    (law : IsScaling F) where
  skip_roi :
      (pts stream : ℤ) (crop : Roi F → Option (Request F)) (e : Engine F) (roi : Roi F)
      (rois : List (Roi F))
      → is_small roi ≡ true
      → scan_rois sort widen config pts stream crop e (roi ∷ rois)
        ≡ scan_rois sort widen config pts stream crop e rois
  unfolding scan_rois
  skip_roi pts stream crop e roi rois small = rw (small, scan_rois) refl

  take_roi :
      (pts stream : ℤ) (crop : Roi F → Option (Request F)) (e : Engine F) (roi : Roi F)
      (rois : List (Roi F)) {r : Request F} {ds : List (Detection F)} {e' e'' : Engine F}
      {es : List (Event F D)}
      → is_small roi ≡ false
      → crop roi ≡ some r
      → infer sort e r ≡ some (ds, e')
      → scan_rois sort widen config pts stream crop e' rois ≡ some (es, e'')
      → scan_rois sort widen config pts stream crop e (roi ∷ rois)
        ≡ some (map (to_event widen config pts stream roi) ds ++ es, e'')
  unfolding scan_rois
  take_roi pts stream crop e roi rois large cropped here there =
      rw (large, scan_rois, cropped, here, there) refl

  abbrev Found : ℤ → ℤ → (Roi F → Option (Request F)) → Engine F → List (Roi F) → Type ℓ
  Found pts stream crop e rois =
      (es : List (Event F D)) × (e' : Engine F) × (scan_rois sort widen config pts stream crop e
          rois
        ≡ some (es, e'))
      × IsBack {F = F} e e'

  scan_rois_total :
      (pts stream : ℤ) (crop : Roi F → Option (Request F)) (e : Engine F) (rois : List (Roi F))
      → ((roi : Roi F) → (r : Request F) × (crop roi ≡ some r) × Holds e r)
      → Found pts stream crop e rois
  scan_rois_total pts stream crop e [] holds =
      ([], e, unfold scan_rois in refl, IsBack-refl {F = F} e)
  scan_rois_total pts stream crop e (roi ∷ rois) holds = elim (Bool-cases (is_small roi)) [
    | inl small ↦
        let (es, e', ok, back) = scan_rois_total pts stream crop e rois holds in
        (es, e', skip_roi pts stream crop e roi rois small ∙ ok, back)
    | inr large ↦
        let (r, cropped, held) = holds roi in
        let (ds, e', here, first) = infer_returns_context law sort v e r held in
        let (es, e'', there, more) =
          scan_rois_total pts stream crop e' rois
            (λ x. let (r', c', h') = holds x in (r', c', Holds-kept e e' r' first h')) in
        (
          map (to_event widen config pts stream roi) ds ++ es,
          e'',
          take_roi pts stream crop e roi rois large cropped here there,
          IsBack-trans {F = F} e e' e'' first more,
        )
  ]

  arc_step :
      (i : Input F) (e : Engine F) (rois : List (Roi F)) {blended : Buffer F}
      {r : List (Event F D) × Engine F}
      → blend_frame config i ≡ some blended
      → scan_rois sort widen config i.pts_ns i.stream_index (crop_roi config i blended) e rois
        ≡ some r
      → detect_arc_in_rois sort widen config i e rois ≡ some r
  unfolding detect_arc_in_rois
  arc_step i e rois done scanned = rw (detect_arc_in_rois, done) scanned

  -- The blend, the crops and the inferences of the regions of a frame work.
  detect_arc_in_rois_total :
      (i : Input F) (fr : IsFrame config i) (e : Engine F) (rois : List (Roi F))
      → TakesRois config i e
      → (es : List (Event F D)) × (e' : Engine F) × (detect_arc_in_rois sort widen config i e rois
          ≡ some (es, e'))
        × IsBack {F = F} e e'
  detect_arc_in_rois_total i fr e rois takes =
      let (blended, done, sized) = blend_total config i fr in
      let (es, e', scanned, back) =
        scan_rois_total i.pts_ns i.stream_index (crop_roi config i blended) e rois (λ roi.
          let (input, cropped, kept) = crop_total config i fr blended roi sized in
          (roi_request config i roi input, cropped, takes roi input kept)) in
      (es, e', arc_step i e rois done scanned, back)

  -- What holds of a stream's context after a frame.
  pub record IsKept (ctx ctx' : StreamContext F D) : Type ℓ where
    pub visible : IsBack {F = F} ctx.visible_engine ctx'.visible_engine
    pub uv : IsBack {F = F} ctx.uv_engine ctx'.uv_engine
    pub tracked : IsTracked ctx'.lifecycle_tracker

  rois_step :
      (i : Input F) (ctx : StreamContext F D) (rois : List (Roi F))
      {raw es events : List (Event F D)} {uv : Engine F} {k : Tracker D}
      → detect_arc_in_rois sort widen config i ctx.uv_engine rois ≡ some (raw, uv)
      → measure widen i.image i.width i.height (nms sort_events config.nms_thresh raw) ≡ some es
      → track_events widen ctx.lifecycle_tracker i.pts_ns es ≡ some (events, k)
      → detect_in_rois sort sort_events widen config i ctx rois
        ≡ some (events, record ctx { uv_engine = uv; lifecycle_tracker = k })
  unfolding detect_in_rois
  rois_step i ctx rois found measured tracked = rw (detect_in_rois, found, measured, tracked) refl

  detect_empty :
      (i : Input F) (ctx : StreamContext F D) {vis : Engine F}
      → infer sort ctx.visible_engine (visible_request i) ≡ some ([], vis)
      → detect sort sort_events widen config i ctx
        ≡ some (
          [],
          record ctx {
            visible_engine = vis;
            lifecycle_tracker = expire_old_tracks ctx.lifecycle_tracker i.pts_ns;
          },
        )
  unfolding detect extract_pantograph_rois
  detect_empty i ctx e = rw (detect, extract_pantograph_rois, e) refl

  detect_rois :
      (i : Input F) (ctx : StreamContext F D) {vis : Engine F} {det : Detection F}
      {ds : List (Detection F)}
      → infer sort ctx.visible_engine (visible_request i) ≡ some (det ∷ ds, vis)
      → detect sort sort_events widen config i ctx
        ≡ detect_in_rois sort sort_events widen config i
            (record ctx { visible_engine = vis })
            (map (pad_roi config.roi_padding i.width i.height) (det ∷ ds))
  unfolding detect extract_pantograph_rois
  detect_rois i ctx e = rw (detect, extract_pantograph_rois, e) refl

  module _ (i : Input F) (fr : IsFrame config i) where
    detect_in_rois_total :
        (ctx : StreamContext F D) (rois : List (Roi F))
        → TakesRois config i ctx.uv_engine
        → IsTracked ctx.lifecycle_tracker
        → (events : List (Event F D)) × (uv : Engine F) × (k : Tracker D) × (detect_in_rois sort
              sort_events widen config i ctx rois
            ≡ some (events, record ctx { uv_engine = uv; lifecycle_tracker = k }))
          × IsBack {F = F} ctx.uv_engine uv
          × IsTracked k
    detect_in_rois_total ctx rois holds t =
        let (raw, uv, found, back) = detect_arc_in_rois_total i fr ctx.uv_engine rois holds in
        let wide = fr.wide in
        let high = fr.high in
        let area : fr.height * fr.width < 2 ^ 31 =
          omega (arith, fr.few, area_pos fr.height fr.width fr.some_lines fr.some_columns) in
        let (es, measured, same) =
          measure_total widen i.image fr.width fr.height (nms sort_events config.nms_thresh raw)
            fr.size area in
        let (us, k, tracked, all, t') =
          track_events_total widen ctx.lifecycle_tracker i.pts_ns es t in
        let measured' : measure widen i.image i.width i.height
              (nms sort_events config.nms_thresh raw)
            ≡ some es =
          rw (wide, high) measured in
        (_, uv, k, rois_step i ctx rois found measured' tracked, back, t')

    -- Whatever the networks answer, when the engines can take the visible image and what the crop leaves of a
    -- region, `detect` returns: both engines are the same, with all their contexts back, and the identifiers
    -- of the stream's tracks stay apart.
    pub detect_total :
        (ctx : StreamContext F D)
        → Holds ctx.visible_engine (visible_request i)
        → TakesRois config i ctx.uv_engine
        → IsTracked ctx.lifecycle_tracker
        → (events : List (Event F D)) × (ctx' : StreamContext F D) × (detect sort sort_events widen
              config i ctx
            ≡ some (events, ctx'))
          × IsKept ctx ctx'
    detect_total ctx seen_whole holds t =
        let (ds, vis, seen, kept) =
          infer_returns_context law sort v ctx.visible_engine (visible_request i) seen_whole in
        elim (list-cases ds) [
          | inl nothing ↦ (
            [],
            _,
            detect_empty i ctx (rw nothing at seen),
            record {
              visible = kept;
              uv = IsBack-refl {F = F} ctx.uv_engine;
              tracked = expire_old_tracks-IsTracked ctx.lifecycle_tracker i.pts_ns t;
            },
          )
          | inr (x, xs, some_) ↦
              let (events, uv, k, done, back', t') =
                detect_in_rois_total (record ctx { visible_engine = vis })
                  (map (pad_roi config.roi_padding i.width i.height) (x ∷ xs)) holds t in
              (
                events,
                _,
                detect_rois i ctx (rw some_ at seen) ∙ done,
                record { visible = kept; uv = back'; tracked = t' },
              )
        ]
