-- ===== src/Detector/Events.antt =====
-- `ArcDetector::detect` of cpp/src/arc_detector.cpp: which frame and which stream the events tell of.
use mathlib.Core.List.{Mem, Perm, not-mem-nil, mem-cons, mem-cons_self, mem-cons_of_mem}
use mathlib.Core.List.Perm
use mathlib.Core.List.Sublist
use mathlib.Core.Logic.Or
use native.Mathlib.Decide.{ℕ_discrete}
use pantograph_arc_vision.Common.{
  Option, ℕ, ◌≡◌, refl, sym, subst, ap, inl, inr, some, List, [], ◌∷◌, map, All, All-append,
  Option-cases, Bool-cases, leb,
}
use pantograph_arc_vision.Common.Int.{ℤ}
use pantograph_arc_vision.Common.Floating.{Floating, ◌≺◌, ◌⊘◌, whole}
use pantograph_arc_vision.Nms.{overlaps, nms_sorted}
use pantograph_arc_vision.Nms.Selection.{nms_sorted-IsSelection}
use pantograph_arc_vision.Tracker.{Tracker, TrackUpdate, update}
use pantograph_arc_vision.Trt.{Detection, Engine, Request, infer}
use pantograph_arc_vision.Energy.{compute_instant_energy_gpu}
use pantograph_arc_vision.Detector.{
  Event, Roi, DetectorConfig, StreamContext, Input, is_small, to_event, nms, wide_box, measure,
  annotate, track_events, link, settle_event, event_iou, detect_arc_in_rois, scan_rois, crop_roi,
  blend_frame, detect_in_rois, extract_pantograph_rois, detect,
}
use pantograph_arc_vision.Common.{some_inj}

ℤ-discrete : Discrete ℤ
ℤ-discrete = hlevel ℕ_discrete

-- The event tells of this time and this stream.
abbrev pub IsFrom {ℓ} : {F D : Type ℓ} → (pts stream : ℤ) → Event F D → Type 0
IsFrom pts stream e = (e.pts_ns ≡ pts) × (e.stream_index ≡ stream)

IsFrom-prop {ℓ} : {F D : Type ℓ} (pts stream : ℤ) (e : Event F D) → IsProp (IsFrom pts stream e)
IsFrom-prop pts stream e = hlevel ℤ-discrete

module _ {ℓ κ} {A : Type ℓ} (P : A → Type κ) where
  All_of_mem : (xs : List A) → ((x : A) → Mem x xs → P x) → All P xs
  All_of_mem [] h = tt
  All_of_mem (x ∷ xs) h = (h x mem-cons_self, All_of_mem xs (λ y m. h y (mem-cons_of_mem x m)))

  of_mem-All : ((x : A) → IsProp (P x)) → (xs : List A) → All P xs → (x : A) → Mem x xs → P x
  of_mem-All prop [] h x m = absurd (not-mem-nil m)
  of_mem-All prop (y ∷ xs) (p, ps) x m =
      Or.elim (prop x) (mem-cons.0 m) (λ e. subst P (sym e) p) (of_mem-All prop xs ps x)

module _ {ℓ} {F D : Type ℓ} ⦃f : Floating F⦄ ⦃d : Floating D⦄ (pts stream : ℤ) where
  abbrev AllFrom : List (Event F D) → Type 0
  AllFrom es = All (IsFrom pts stream) es

  map-AllFrom :
      (widen : F → D) (config : DetectorConfig F) (roi : Roi F) (ds : List (Detection F))
      → AllFrom (map (to_event widen config pts stream roi) ds)
  unfolding to_event
  map-AllFrom widen config roi [] = tt
  map-AllFrom widen config roi (x ∷ ds) = ((refl, refl), map-AllFrom widen config roi ds)

  -- The suppression only drops events; `sort` permutes them.
  nms-AllFrom :
      (sort : List (Event F D) → List (Event F D))
      → ((es : List (Event F D)) → Perm (sort es) es)
      → (thresh : F) (es : List (Event F D)) → AllFrom es
      → AllFrom (nms sort thresh es)
  unfolding nms
  nms-AllFrom sort permutes thresh [] h = tt
  nms-AllFrom sort permutes thresh (e ∷ es) h =
      let test = λ (a b : Event F D). overlaps thresh a.rect b.rect in
      let kept = (nms_sorted-IsSelection test (sort (e ∷ es))).from_items in
      All_of_mem (IsFrom pts stream) (nms_sorted test (sort (e ∷ es))) (λ x m.
        of_mem-All (IsFrom pts stream) (IsFrom-prop pts stream) (e ∷ es) h x
          (Perm.subset (permutes (e ∷ es)) x (Sublist.subset kept x m)))

  -- The energies of the events are all that the estimate changes.
  measure-AllFrom :
      (widen : F → D) (image : List ℕ) (width height : ℤ) (es rs : List (Event F D))
      → AllFrom es
      → measure widen image width height es ≡ some rs
      → AllFrom rs
  unfolding measure
  measure-AllFrom widen image width height [] rs h e = subst AllFrom (some_inj e) tt
  measure-AllFrom widen image width height (x ∷ es) rs (p, ps) e =
      elim (Option-cases (compute_instant_energy_gpu (wide_box widen x.rect) image width height)) [
        | inl fault ↦ let clash = rw (measure, fault) at e in cc
        | inr (energy, found) ↦ elim (Option-cases (measure widen image width height es)) [
          | inl fault ↦ let clash = rw (measure, found, fault) at e in cc
          | inr (rest, more) ↦
              let shape : some (record x { instant_energy = energy } ∷ rest) ≡ some rs =
                rw (measure, found, more) at e in
              subst AllFrom (some_inj shape)
                (p, measure-AllFrom widen image width height es rest ps more)
        ]
      ]

  link-IsFrom :
      (widen : F → D) (us : List (TrackUpdate D)) (e : Event F D)
      → IsFrom pts stream e
      → IsFrom pts stream (link widen us e)
  unfolding link
  link-IsFrom widen [] e h = h
  link-IsFrom widen (u ∷ us) e h = elim (Bool-cases ((whole 1 ⊘ whole 2) ≺ event_iou widen e u)) [
    | inl close ↦ rw (close, link) h
    | inr far ↦ rw (far, link) (link-IsFrom widen us e h)
  ]

  settle_event-IsFrom : (e : Event F D) → IsFrom pts stream e → IsFrom pts stream (settle_event e)
  unfolding settle_event
  settle_event-IsFrom e h = elim (Bool-cases (leb e.track_id 0)) [
    | inl alone ↦ rw (alone, settle_event) h
    | inr linked ↦ rw (linked, settle_event) h
  ]

  annotate-AllFrom :
      (widen : F → D) (us : List (TrackUpdate D)) (es : List (Event F D))
      → AllFrom es
      → AllFrom (map (annotate widen us) es)
  unfolding annotate
  annotate-AllFrom widen us [] h = tt
  annotate-AllFrom widen us (e ∷ es) (p, ps) = (
    settle_event-IsFrom (link widen us e) (link-IsFrom widen us e p),
    annotate-AllFrom widen us es ps,
  )

  track_events-AllFrom :
      (widen : F → D) (k k' : Tracker D) (es rs : List (Event F D))
      → AllFrom es
      → track_events widen k pts es ≡ some (rs, k')
      → AllFrom rs
  unfolding track_events
  track_events-AllFrom widen k k' es rs h e =
      elim (Option-cases
        (update k pts (map (λ e. wide_box widen e.rect) es) (map (λ e. e.instant_energy) es))) [
          | inl fault ↦ let clash = rw (track_events, fault) at e in cc
          | inr ((us, k1), updated) ↦
              let shape = rw (track_events, updated) at e in
              subst AllFrom (ap (λ r. r.0) (some_inj shape)) (annotate-AllFrom widen us es h)
        ]

  scan_rois-AllFrom :
      (sort : List (Detection F) → List (Detection F)) (widen : F → D) (config : DetectorConfig F)
      (crop : Roi F → Option (Request F)) (e e1 : Engine F) (rois : List (Roi F))
      (raw : List (Event F D))
      → scan_rois sort widen config pts stream crop e rois ≡ some (raw, e1)
      → AllFrom raw
  unfolding scan_rois
  scan_rois-AllFrom sort widen config crop e e1 [] raw h =
      subst AllFrom (ap (λ r. r.0) (some_inj h)) tt
  scan_rois-AllFrom sort widen config crop e e1 (roi ∷ rois) raw h =
      elim (Bool-cases (is_small roi)) [
        | inl small ↦
            scan_rois-AllFrom sort widen config crop e e1 rois raw (rw (scan_rois, small) at h)
        | inr large ↦ elim (Option-cases (crop roi)) [
          | inl fault ↦ let clash = rw (scan_rois, large, fault) at h in cc
          | inr (r, cropped) ↦ elim (Option-cases (infer sort e r)) [
            | inl fault ↦ let clash = rw (scan_rois, large, cropped, fault) at h in cc
            | inr ((ds, e'), found) ↦
                elim (Option-cases (scan_rois sort widen config pts stream crop e' rois)) [
                  | inl fault ↦ let clash = rw (scan_rois, large, cropped, found, fault) at h in cc
                  | inr ((es, e2), more) ↦
                      let shape = rw (scan_rois, large, cropped, found, more) at h in
                      subst AllFrom (ap (λ r. r.0) (some_inj shape)) (
                        All-append (IsFrom pts stream)
                          (map (to_event widen config pts stream roi) ds) es
                          (map-AllFrom widen config roi ds)
                          (scan_rois-AllFrom sort widen config crop e' e2 rois es more))
                ]
          ]
        ]
      ]

module _ {ℓ} {F D : Type ℓ} ⦃f : Floating F⦄ ⦃d : Floating D⦄
    (sort : List (Detection F) → List (Detection F))
    (sort_events : List (Event F D) → List (Event F D))
    (permutes : (es : List (Event F D)) → Perm (sort_events es) es) (widen : F → D)
    (config : DetectorConfig F) (i : Input F) where
  abbrev pub Told : List (Event F D) → Type 0
  Told es = All (IsFrom i.pts_ns i.stream_index) es

  detect_arc_in_rois-Told :
      (e e1 : Engine F) (rois : List (Roi F)) (raw : List (Event F D))
      → detect_arc_in_rois sort widen config i e rois ≡ some (raw, e1)
      → Told raw
  unfolding detect_arc_in_rois
  detect_arc_in_rois-Told e e1 rois raw h = elim (Option-cases (blend_frame config i)) [
    | inl fault ↦ let clash = rw (detect_arc_in_rois, fault) at h in cc
    | inr (blended, done) ↦
        scan_rois-AllFrom i.pts_ns i.stream_index sort widen config (crop_roi config i blended) e e1
          rois raw (rw (detect_arc_in_rois, done) at h)
  ]

  detect_in_rois-Told :
      (ctx ctx' : StreamContext F D) (rois : List (Roi F)) (events : List (Event F D))
      → detect_in_rois sort sort_events widen config i ctx rois ≡ some (events, ctx')
      → Told events
  unfolding detect_in_rois
  detect_in_rois-Told ctx ctx' rois events e =
      elim (Option-cases (detect_arc_in_rois sort widen config i ctx.uv_engine rois)) [
        | inl fault ↦ let clash = rw (detect_in_rois, fault) at e in cc
        | inr ((raw, uv), found) ↦
            let kept = nms sort_events config.nms_thresh raw in
            elim (Option-cases (measure widen i.image i.width i.height kept)) [
              | inl fault ↦ let clash = rw (detect_in_rois, found, fault) at e in cc
              | inr (es, measured) ↦
                  elim (Option-cases (track_events widen ctx.lifecycle_tracker i.pts_ns es)) [
                    | inl fault ↦ let clash = rw (detect_in_rois, found, measured, fault) at e in cc
                    | inr ((rs, k), tracked) ↦
                        let shape = rw (detect_in_rois, found, measured, tracked) at e in
                        let raw_told = detect_arc_in_rois-Told ctx.uv_engine uv rois raw found in
                        let kept_told =
                          nms-AllFrom i.pts_ns i.stream_index sort_events permutes config.nms_thresh
                            raw raw_told in
                        let es_told =
                          measure-AllFrom i.pts_ns i.stream_index widen i.image i.width i.height
                            kept es kept_told measured in
                        subst Told (ap (λ r. r.0) (some_inj shape)) (
                          track_events-AllFrom i.pts_ns i.stream_index widen ctx.lifecycle_tracker k
                            es rs es_told tracked)
                  ]
            ]
      ]

  pub detect-Told :
      (ctx ctx' : StreamContext F D) (events : List (Event F D))
      → detect sort sort_events widen config i ctx ≡ some (events, ctx')
      → Told events
  unfolding detect
  detect-Told ctx ctx' events e =
      elim (Option-cases (extract_pantograph_rois sort config i ctx.visible_engine)) [
        | inl fault ↦ let clash = rw (detect, fault) at e in cc
        | inr (([], vis), seen) ↦ subst Told (ap (λ r. r.0) (some_inj (rw (detect, seen) at e))) tt
        | inr ((x ∷ xs, vis), seen) ↦
            detect_in_rois-Told (record ctx { visible_engine = vis }) ctx' _ events
              (rw (detect, seen) at e)
      ]
