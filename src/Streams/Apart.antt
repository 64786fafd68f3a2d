-- ===== src/Streams/Apart.antt =====
-- cpp/src/arc_detector.cpp: the frames of one stream among those of others.
use pantograph_arc_vision.Common.{
  ◌≡◌, sym, subst, ap, ◌∙◌, inl, inr, true, false, some, List, [], ◌∷◌, if◌then◌else◌,
}
use pantograph_arc_vision.Common.Int.{ℤ}
use pantograph_arc_vision.Common.Floating.{Floating}
use pantograph_arc_vision.Common.Dict.{eq_ℤ, eq_ℤ-cases, find-insert, find-insert_other}
use pantograph_arc_vision.Trt.{Detection}
use pantograph_arc_vision.Detector.{Event, Input, detect}
use pantograph_arc_vision.Streams.{ArcDetector, get_stream_context}
use pantograph_arc_vision.Common.{some_inj}
use pantograph_arc_vision.Streams.Contexts.{with_context}
use pantograph_arc_vision.Streams.Frames.{
  detect_frames, frame, frame_off, frame_absent, frame_present, framed, frames_step, frames-cases,
  frames_nil,
}

-- The frames of stream `j`, and the events of its frames.
pub only {ℓ} : {F : Type ℓ} → ℤ → List (Input F) → List (Input F)
only j [] = []
only j (i ∷ is) = if eq_ℤ j i.stream_index then i ∷ only j is else only j is

pub only_log {ℓ} : {A : Type ℓ} → ℤ → List (ℤ × A) → List (ℤ × A)
only_log j [] = []
only_log j ((k, es) ∷ log) = if eq_ℤ j k then (k, es) ∷ only_log j log else only_log j log

-- Two detectors that are the same for stream `j`.
pub record Agree {ℓ} {F D : Type ℓ} (j : ℤ) (det det' : ArcDetector F D) : Type ℓ where
  pub config_same : det.config ≡ det'.config
  pub base_same : det.base_initialized ≡ det'.base_initialized
  pub context_same : get_stream_context j det ≡ get_stream_context j det'

module _ {ℓ} {F D : Type ℓ} ⦃f : Floating F⦄ ⦃d : Floating D⦄
    (sort : List (Detection F) → List (Detection F))
    (sort_events : List (Event F D) → List (Event F D)) (widen : F → D) where
  -- A frame sort sort_events widen of another stream.
  pub frame-other :
      (j : ℤ) (i : Input F) (det det1 det' : ArcDetector F D) (es : List (Event F D))
      → eq_ℤ j i.stream_index ≡ false
      → frame sort sort_events widen i det ≡ some (es, det1)
      → Agree j det det'
      → Agree j det1 det'
  unfolding get_stream_context
  frame-other j i det det1 det' es other e a =
      elim (framed sort sort_events widen i det det1 es e) [
        | inl (_, same, _) ↦ subst (λ x. Agree j x det') (sym same) a
        | inr (ctx, ctx', _, _, _, same) ↦
            subst (λ x. Agree j x det') (sym same)
              (record {
                config_same = a.config_same;
                base_same = a.base_same;
                context_same =
                    find-insert_other i.stream_index j ctx' det.stream_contexts other
                    ∙ a.context_same;
              })
      ]

  -- A frame sort sort_events widen of the stream itself.
  pub frame-Agree :
      (i : Input F) (det det1 det' : ArcDetector F D) (es : List (Event F D))
      → frame sort sort_events widen i det ≡ some (es, det1)
      → Agree i.stream_index det det'
      → (det2 : ArcDetector F D) × (frame sort sort_events widen i det' ≡ some (es, det2))
        × Agree i.stream_index det1 det2
  unfolding get_stream_context
  frame-Agree i det det1 det' es e a = elim (framed sort sort_events widen i det det1 es e) [
    | inl (nothing, same, why) ↦ (
      det',
      elim why [
        | inl off ↦ frame_off sort sort_events widen i det' (sym a.base_same ∙ off)
        | inr (on, absent) ↦
            frame_absent sort sort_events widen i det' (sym a.base_same ∙ on)
              (sym a.context_same ∙ absent)
      ]
          ∙ ap (λ es. some (es, det')) (sym nothing),
      subst (λ x. Agree i.stream_index x det') (sym same) a,
    )
    | inr (ctx, ctx', on, present, done, same) ↦ (
      with_context i.stream_index ctx' det',
      frame_present sort sort_events widen i det' ctx ctx' es (sym a.base_same ∙ on)
          (sym a.context_same ∙ present)
          (subst (λ c. detect sort sort_events widen c.detector i ctx ≡ some (es, ctx'))
            a.config_same done),
      subst (λ x. Agree i.stream_index x (with_context i.stream_index ctx' det')) (sym same)
          (record {
            config_same = a.config_same;
            base_same = a.base_same;
            context_same =
                find-insert i.stream_index ctx' det.stream_contexts
                ∙ sym (find-insert i.stream_index ctx' det'.stream_contexts);
          }),
    )
  ]

  -- The frames of stream `j` alone, from the detector `det'`.
  abbrev pub Alone :
      ℤ → List (Input F) → ArcDetector F D → ArcDetector F D → List (ℤ × List (Event F D)) → Type ℓ
  Alone j is det' det1 log =
      (det2 : ArcDetector F D) × (detect_frames sort sort_events widen (only j is) det'
        ≡ some (only_log j log, det2))
      × Agree j det1 det2

  Alone-own :
      (j : ℤ) (i : Input F) (is : List (Input F)) (det1 det2 det' : ArcDetector F D)
      (es : List (Event F D)) (rest : List (ℤ × List (Event F D)))
      → eq_ℤ j i.stream_index ≡ true
      → frame sort sort_events widen i det' ≡ some (es, det2)
      → Alone j is det2 det1 rest
      → Alone j (i ∷ is) det' det1 ((i.stream_index, es) ∷ rest)
  unfolding only only_log
  Alone-own j i is det1 det2 det' es rest own first (det3, others, a) = (
    det3,
    rw own (
        frames_step sort sort_events widen i (only j is) det' det2 det3 es (only_log j rest) first
          others),
    a,
  )

  Alone-other :
      (j : ℤ) (i : Input F) (is : List (Input F)) (det1 det' : ArcDetector F D)
      (es : List (Event F D)) (rest : List (ℤ × List (Event F D)))
      → eq_ℤ j i.stream_index ≡ false
      → Alone j is det' det1 rest
      → Alone j (i ∷ is) det' det1 ((i.stream_index, es) ∷ rest)
  unfolding only only_log
  Alone-other j i is det1 det' es rest other (det2, others, a) = (det2, rw other others, a)

  -- The streams do not disturb each other: whatever frames of whatever streams come in whatever order, as
  -- long as they work, stream `j` gets the events, and is left with the context, that its own frames
  -- alone give it, in their order.
  detect_frames_apart :
      (j : ℤ) (is : List (Input F)) (det det1 det' : ArcDetector F D)
      (log : List (ℤ × List (Event F D)))
      → Agree j det det'
      → detect_frames sort sort_events widen is det ≡ some (log, det1)
      → (det2 : ArcDetector F D) × (detect_frames sort sort_events widen (only j is) det'
          ≡ some (only_log j log, det2))
        × Agree j det1 det2
  unfolding only only_log
  detect_frames_apart j [] det det1 det' log a e =
      let same = some_inj (sym (frames_nil sort sort_events widen det) ∙ e) in
      (
        det',
        frames_nil sort sort_events widen det' ∙ ap (λ r. some (only_log j r.0, det')) same,
        subst (λ x. Agree j x det') (ap (λ r. r.1) same) a,
      )
  detect_frames_apart j (i ∷ is) det det1 det' log a e =
      let (es, mid, rest, first, others, shape) =
        frames-cases sort sort_events widen i is det det1 log e in
      subst (Alone j (i ∷ is) det' det1) (sym shape) (elim (eq_ℤ-cases j i.stream_index) [
        | inl (own, at_i) ↦
            let (det2, first', a2) =
              frame-Agree i det mid det' es first (subst (λ k. Agree k det det') at_i a) in
            Alone-own j i is det1 det2 det' es rest own first' (
              detect_frames_apart j is mid det1 det2 rest
                (subst (λ k. Agree k mid det2) (sym at_i) a2) others)
        | inr other ↦ Alone-other j i is det1 det' es rest other (
            detect_frames_apart j is mid det1 det' rest
              (frame-other j i det mid det' es other first a) others)
      ])
