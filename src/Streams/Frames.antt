-- ===== src/Streams/Frames.antt =====
-- cpp/src/arc_detector.cpp: `ArcDetector::detect` on the frames of several streams, in any order. The
-- threads of cpp/src/engine_main.cpp call it for one stream each; a call is one step.
use pantograph_arc_vision.Common.{
  ◌>>=◌, ◌≡◌, refl, sym, subst, ap, ◌∙◌, ◌⊎◌, inl, inr, true, false, Option, none, some, List, [],
  ◌∷◌, arith, Option-cases, Bool-cases,
}
use pantograph_arc_vision.Common.Int.{ℤ}
use pantograph_arc_vision.Common.Floating.{Floating}
use pantograph_arc_vision.Trt.{Detection}
use pantograph_arc_vision.Detector.{Event, StreamContext, Input, detect}
use pantograph_arc_vision.Streams.{ArcDetector, get_stream_context, detect_frame}
use pantograph_arc_vision.Common.{some_inj}
use pantograph_arc_vision.Streams.Contexts.{with_context}

module _ {ℓ} {F D : Type ℓ} ⦃f : Floating F⦄ ⦃d : Floating D⦄
    (sort : List (Detection F) → List (Detection F))
    (sort_events : List (Event F D) → List (Event F D)) (widen : F → D) where
  -- One frame after the other. The events stand with the stream of their frame.
  pub detect_frames :
      List (Input F) → ArcDetector F D → Option (List (ℤ × List (Event F D)) × ArcDetector F D)
  detect_frames [] det = some ([], det)
  detect_frames (i ∷ is) det = do
    (events, det1) ← detect_frame sort sort_events widen i det
    (log, det2) ← detect_frames is det1
    some ((i.stream_index, events) ∷ log, det2)

  abbrev pub frame : Input F → ArcDetector F D → Option (List (Event F D) × ArcDetector F D)
  frame = detect_frame sort sort_events widen

  pub frame_off :
      (i : Input F) (det : ArcDetector F D)
      → det.base_initialized ≡ false
      → frame i det ≡ some ([], det)
  unfolding detect_frame
  frame_off i det off = rw (detect_frame, off) refl

  pub frame_absent :
      (i : Input F) (det : ArcDetector F D)
      → det.base_initialized ≡ true
      → get_stream_context i.stream_index det ≡ none
      → frame i det ≡ some ([], det)
  unfolding detect_frame
  frame_absent i det on absent = simp (detect_frame, on, absent)

  pub frame_present :
      (i : Input F) (det : ArcDetector F D) (ctx ctx' : StreamContext F D) (es : List (Event F D))
      → det.base_initialized ≡ true
      → get_stream_context i.stream_index det ≡ some ctx
      → detect sort sort_events widen det.config.detector i ctx ≡ some (es, ctx')
      → frame i det ≡ some (es, with_context i.stream_index ctx' det)
  unfolding detect_frame
  frame_present i det ctx ctx' es on present done = simp (detect_frame, on, present, done)

  pub frame_fault :
      (i : Input F) (det : ArcDetector F D) (ctx : StreamContext F D)
      → det.base_initialized ≡ true
      → get_stream_context i.stream_index det ≡ some ctx
      → detect sort sort_events widen det.config.detector i ctx ≡ none
      → frame i det ≡ none
  unfolding detect_frame
  frame_fault i det ctx on present fault = simp (detect_frame, on, present, fault)

  -- How a frame that works comes about.
  abbrev pub Framed : Input F → ArcDetector F D → List (Event F D) → ArcDetector F D → Type ℓ
  Framed i det es det' =
      ((es ≡ [])
        × (det' ≡ det)
        × ((det.base_initialized ≡ false)
            ⊎ ((det.base_initialized ≡ true) × (get_stream_context i.stream_index det ≡ none))))
      ⊎ ((ctx ctx' : StreamContext F D) × (det.base_initialized ≡ true)
          × (get_stream_context i.stream_index det ≡ some ctx)
          × (detect sort sort_events widen det.config.detector i ctx ≡ some (es, ctx'))
          × (det' ≡ with_context i.stream_index ctx' det))

  pub framed :
      (i : Input F) (det det' : ArcDetector F D) (es : List (Event F D))
      → frame i det ≡ some (es, det')
      → Framed i det es det'
  framed i det det' es e = elim (Bool-cases det.base_initialized) [
    | inr off ↦
        let same = some_inj (sym (frame_off i det off) ∙ e) in
        inl (sym (ap (λ r. r.0) same), sym (ap (λ r. r.1) same), inl off)
    | inl on ↦ elim (Option-cases (get_stream_context i.stream_index det)) [
      | inl absent ↦
          let same = some_inj (sym (frame_absent i det on absent) ∙ e) in
          inl (sym (ap (λ r. r.0) same), sym (ap (λ r. r.1) same), inr (on, absent))
      | inr (ctx, present) ↦
          elim (Option-cases (detect sort sort_events widen det.config.detector i ctx)) [
            | inl fault ↦
                let clash : none ≡ some (es, det') =
                  sym (frame_fault i det ctx on present fault) ∙ e in
                absurd (ground (arith, clash))
            | inr ((es', ctx'), done) ↦
                let same = some_inj (sym (frame_present i det ctx ctx' es' on present done) ∙ e) in
                inr (
                  ctx,
                  ctx',
                  on,
                  present,
                  subst
                      (λ es.
                        detect sort sort_events widen det.config.detector i ctx ≡ some (es, ctx'))
                      (ap (λ r. r.0) same) done,
                  sym (ap (λ r. r.1) same),
                )
          ]
    ]
  ]

  pub frames_step :
      (i : Input F) (is : List (Input F)) (det det1 det2 : ArcDetector F D) (es : List (Event F D))
      (log : List (ℤ × List (Event F D)))
      → frame i det ≡ some (es, det1)
      → detect_frames is det1 ≡ some (log, det2)
      → detect_frames (i ∷ is) det ≡ some ((i.stream_index, es) ∷ log, det2)
  unfolding detect_frames
  frames_step i is det det1 det2 es log e rest = rw (detect_frames, e, rest) refl

  -- The first frame and the others, when all of them work.
  pub frames-cases :
      (i : Input F) (is : List (Input F)) (det det2 : ArcDetector F D)
      (log : List (ℤ × List (Event F D)))
      → detect_frames (i ∷ is) det ≡ some (log, det2)
      → (es : List (Event F D)) × (det1 : ArcDetector F D) × (rest : List (ℤ × List (Event F D)))
        × (frame i det ≡ some (es, det1))
        × (detect_frames is det1 ≡ some (rest, det2))
        × (log ≡ (i.stream_index, es) ∷ rest)
  unfolding detect_frames
  frames-cases i is det det2 log e = elim (Option-cases (frame i det)) [
    | inl fault ↦
        let clash : none ≡ some (log, det2) = rw fault at e in absurd (ground (arith, clash))
    | inr ((es, det1), done) ↦ elim (Option-cases (detect_frames is det1)) [
      | inl fault ↦
          let clash : none ≡ some (log, det2) = rw (done, fault) at e in
          absurd (ground (arith, clash))
      | inr ((rest, last), done') ↦
          let same = some_inj (sym (frames_step i is det det1 last es rest done done') ∙ e) in
          (
            es,
            det1,
            rest,
            done,
            subst (λ x. detect_frames is det1 ≡ some (rest, x)) (ap (λ r. r.1) same) done',
            sym (ap (λ r. r.0) same),
          )
    ]
  ]

  pub frames_nil : (det : ArcDetector F D) → detect_frames [] det ≡ some ([], det)
  unfolding detect_frames
  frames_nil det = refl
