-- ===== src/Streams/Serve.antt =====
-- cpp/src/arc_detector.cpp: `ArcDetector::detect` on frames that bring what the networks promise.
use pantograph_arc_vision.Common.{
  ◌≡◌, refl, sym, subst, ◌∙◌, inl, inr, Option, some, List, [], ◌∷◌, All, All-mono, Option-cases,
  Bool-cases,
}
use pantograph_arc_vision.Common.Int.{ℤ}
use pantograph_arc_vision.Common.Floating.{Floating}
use pantograph_arc_vision.Common.Dict.{eq_ℤ-cases, find-insert, find-insert_other}
use pantograph_arc_vision.Tracker.Ids.{IsTracked}
use pantograph_arc_vision.Trt.{Detection}
use pantograph_arc_vision.Trt.Postprocess.{IsSort}
use pantograph_arc_vision.Kernel.Resize.Place.{IsScaling}
use pantograph_arc_vision.Trt.Infer.{Holds, IsBack, IsBack-refl, IsBack-trans, Holds-kept}
use pantograph_arc_vision.Detector.{Event, StreamContext, Input, visible_request, roi_request}
use pantograph_arc_vision.Detector.Detect.{detect_total}
use pantograph_arc_vision.Detector.Regions.{IsFrame, TakesRois}
use pantograph_arc_vision.Streams.{ArcDetector, get_stream_context}
use pantograph_arc_vision.Common.{some_inj}
use pantograph_arc_vision.Streams.Contexts.{with_context}
use pantograph_arc_vision.Streams.Frames.{
  detect_frames, frame, frame_off, frame_absent, frame_present, frames_step, frames_nil,
}

module _ {ℓ} {F D : Type ℓ} ⦃f : Floating F⦄ ⦃d : Floating D⦄ where
  -- A frame with both images whole, where the engines of its stream can take the visible image and what the
  -- crop leaves of any region.
  pub record IsServed (i : Input F) (det : ArcDetector F D) : Type ℓ where
    pub frame : IsFrame det.config.detector i
    pub visible_taken :
        (ctx : StreamContext F D)
        → get_stream_context i.stream_index det ≡ some ctx
        → Holds ctx.visible_engine (visible_request i)
    pub rois_taken :
        (ctx : StreamContext F D)
        → get_stream_context i.stream_index det ≡ some ctx
        → TakesRois det.config.detector i ctx.uv_engine

  -- The tracks of every stream have identifiers of their own.
  abbrev pub IsSound : ArcDetector F D → Type ℓ
  IsSound det =
      (j : ℤ) (ctx : StreamContext F D)
      → get_stream_context j det ≡ some ctx
      → IsTracked ctx.lifecycle_tracker

  -- The configuration is the same, and every stream that has a context had one, with the engines that it has.
  abbrev pub Continues : ArcDetector F D → ArcDetector F D → Type ℓ
  Continues det det' =
      (det'.config ≡ det.config)
      × ((j : ℤ) (ctx' : StreamContext F D)
          → get_stream_context j det' ≡ some ctx'
          → (ctx : StreamContext F D) × (get_stream_context j det ≡ some ctx)
            × IsBack {F = F} ctx.visible_engine ctx'.visible_engine
            × IsBack {F = F} ctx.uv_engine ctx'.uv_engine)

  same_contexts :
      (det : ArcDetector F D) (j : ℤ) (ctx' : StreamContext F D)
      → get_stream_context j det ≡ some ctx'
      → (ctx : StreamContext F D) × (get_stream_context j det ≡ some ctx)
        × IsBack {F = F} ctx.visible_engine ctx'.visible_engine
        × IsBack {F = F} ctx.uv_engine ctx'.uv_engine
  same_contexts det j ctx e =
      (ctx, e, IsBack-refl {F = F} ctx.visible_engine, IsBack-refl {F = F} ctx.uv_engine)

  Continues-refl : (det : ArcDetector F D) → Continues det det
  Continues-refl det = (refl, same_contexts det)

  Continues-trans :
      (det det1 det2 : ArcDetector F D)
      → Continues det det1
      → Continues det1 det2
      → Continues det det2
  Continues-trans det det1 det2 (g, c) (g', c') = (
    g' ∙ g,
    λ j ctx2 e.
        let (ctx1, e1, v1, u1) = c' j ctx2 e in
        let (ctx, e0, v0, u0) = c j ctx1 e1 in
        (
          ctx,
          e0,
          IsBack-trans {F = F} ctx.visible_engine ctx1.visible_engine ctx2.visible_engine v0 v1,
          IsBack-trans {F = F} ctx.uv_engine ctx1.uv_engine ctx2.uv_engine u0 u1,
        ),
  )

  -- A later detector serves what an earlier one serves.
  IsServed-Continues :
      (i : Input F) (det det' : ArcDetector F D)
      → Continues det det'
      → IsServed i det
      → IsServed i det'
  IsServed-Continues i det det' (g, c) s = record {
    frame = subst (λ x. IsFrame x.detector i) (sym g) s.frame;
    visible_taken = λ ctx' e.
        let (ctx, e0, back, _) = c i.stream_index ctx' e in
        Holds-kept ctx.visible_engine ctx'.visible_engine (visible_request i) back
          (s.visible_taken ctx e0);
    rois_taken = λ ctx' e.
        let (ctx, e0, _, back) = c i.stream_index ctx' e in
        subst (λ x. TakesRois x.detector i ctx'.uv_engine) (sym g)
          (λ roi input sized.
            Holds-kept ctx.uv_engine ctx'.uv_engine (roi_request det.config.detector i roi input)
              back (s.rois_taken ctx e0 roi input sized));
  }

  -- A property of the contexts, when one context is replaced.
  with_context-all {κ} :
      (P : ℤ → StreamContext F D → Type κ) (k : ℤ) (ctx : StreamContext F D) (det : ArcDetector F D)
      → P k ctx
      → ((j : ℤ) (c : StreamContext F D) → get_stream_context j det ≡ some c → P j c)
      → (j : ℤ) (c : StreamContext F D) → get_stream_context j (with_context k ctx det) ≡ some c
      → P j c
  unfolding get_stream_context
  with_context-all P k ctx det here there j c e = elim (eq_ℤ-cases j k) [
    | inl (_, same) ↦
        let at_k : get_stream_context k (with_context k ctx det) ≡ some c =
          subst (λ x. get_stream_context x (with_context k ctx det) ≡ some c) same e in
        let found : ctx ≡ c = some_inj (sym (find-insert k ctx det.stream_contexts) ∙ at_k) in
        subst (λ x. P x c) (sym same) (subst (λ x. P k x) found here)
    | inr other ↦ there j c (sym (find-insert_other k j ctx det.stream_contexts other) ∙ e)
  ]

  -- What is left of the detector after frames that work.
  abbrev pub Works : {A : Type ℓ} → ArcDetector F D → Option (A × ArcDetector F D) → Type ℓ
  Works {A = A} det r =
      (es : A) × (det' : ArcDetector F D) × (r ≡ some (es, det'))
      × IsSound det'
      × Continues det det'

  module _ (law : IsScaling F) (sort : List (Detection F) → List (Detection F)) (v : IsSort sort)
      (sort_events : List (Event F D) → List (Event F D)) (widen : F → D) where
    frame_idle :
        (i : Input F) (det : ArcDetector F D)
        → IsSound det
        → frame sort sort_events widen i det ≡ some ([], det)
        → Works det (frame sort sort_events widen i det)
    frame_idle i det t e = ([], det, e, t, Continues-refl det)

    frame_total :
        (i : Input F) (det : ArcDetector F D)
        → IsServed i det
        → IsSound det
        → Works det (frame sort sort_events widen i det)
    frame_total i det s t = elim (Bool-cases det.base_initialized) [
      | inr off ↦ frame_idle i det t (frame_off sort sort_events widen i det off)
      | inl on ↦ elim (Option-cases (get_stream_context i.stream_index det)) [
        | inl absent ↦ frame_idle i det t (frame_absent sort sort_events widen i det on absent)
        | inr (ctx, present) ↦
            let (es, ctx', done, kept) =
              detect_total sort v sort_events widen det.config.detector law i s.frame ctx
                (s.visible_taken ctx present) (s.rois_taken ctx present)
                (t i.stream_index ctx present) in
            (
              es,
              with_context i.stream_index ctx' det,
              frame_present sort sort_events widen i det ctx ctx' es on present done,
              with_context-all (λ j c. IsTracked c.lifecycle_tracker) i.stream_index ctx' det
                  kept.tracked t,
              (
                refl,
                with_context-all
                    (λ j c.
                      (c0 : StreamContext F D) × (get_stream_context j det ≡ some c0)
                      × IsBack {F = F} c0.visible_engine c.visible_engine
                      × IsBack {F = F} c0.uv_engine c.uv_engine)
                    i.stream_index ctx' det (ctx, present, kept.visible, kept.uv)
                    (same_contexts det),
              ),
            )
      ]
    ]

    pub detect_frames_total :
        (is : List (Input F)) (det : ArcDetector F D)
        → IsSound det
        → All (λ i. IsServed i det) is
        → Works det (detect_frames sort sort_events widen is det)
    detect_frames_total [] det t s =
        ([], det, frames_nil sort sort_events widen det, t, Continues-refl det)
    detect_frames_total (i ∷ is) det t (s, ss) =
        let (es, det1, first, t1, c1) = frame_total i det s t in
        let served =
          All-mono (λ x. IsServed x det) (λ x. IsServed x det1) is
            (λ x. IsServed-Continues x det det1 c1) ss in
        let (log, det2, rest, t2, c2) = detect_frames_total is det1 t1 served in
        (
          (i.stream_index, es) ∷ log,
          det2,
          frames_step sort sort_events widen i is det det1 det2 es log first rest,
          t2,
          Continues-trans det det1 det2 c1 c2,
        )
