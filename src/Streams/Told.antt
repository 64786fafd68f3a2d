-- ===== src/Streams/Told.antt =====
-- cpp/src/arc_detector.cpp: which frame the events of `ArcDetector::detect` tell of.
use mathlib.Core.List.{Perm}
use pantograph_arc_vision.Common.{
  ◌≡◌, refl, sym, subst, ap, ◌∙◌, inl, inr, some, List, [], ◌∷◌, All,
}
use pantograph_arc_vision.Common.Int.{ℤ}
use pantograph_arc_vision.Common.Floating.{Floating}
use pantograph_arc_vision.Trt.{Detection}
use pantograph_arc_vision.Detector.{Event, Input}
use pantograph_arc_vision.Detector.Events.{IsFrom, detect-Told}
use pantograph_arc_vision.Streams.{ArcDetector}
use pantograph_arc_vision.Common.{some_inj}
use pantograph_arc_vision.Streams.Frames.{detect_frames, frame, framed, frames-cases, frames_nil}

-- One entry for each frame, in their order: its stream, and events that tell of its time and its stream.
abbrev pub Told {ℓ} : {F D : Type ℓ} → List (Input F) → List (ℤ × List (Event F D)) → Type 0
Told [] [] = Unit
Told (i ∷ is) ((k, es) ∷ log) =
    (k ≡ i.stream_index) × All (IsFrom i.pts_ns i.stream_index) es × Told is log
Told [] (entry ∷ log) = ⊥
Told (i ∷ is) [] = ⊥

module _ {ℓ} {F D : Type ℓ} ⦃f : Floating F⦄ ⦃d : Floating D⦄
    (sort : List (Detection F) → List (Detection F))
    (sort_events : List (Event F D) → List (Event F D))
    (permutes : (es : List (Event F D)) → Perm (sort_events es) es) (widen : F → D) where
  frame-Told :
      (i : Input F) (det det1 : ArcDetector F D) (es : List (Event F D))
      → frame sort sort_events widen i det ≡ some (es, det1)
      → All (IsFrom i.pts_ns i.stream_index) es
  frame-Told i det det1 es e = elim (framed sort sort_events widen i det det1 es e) [
    | inl (nothing, _, _) ↦ subst (λ x. All (IsFrom i.pts_ns i.stream_index) x) (sym nothing) tt
    | inr (ctx, ctx', _, _, done, _) ↦
        detect-Told sort sort_events permutes widen det.config.detector i ctx ctx' es done
  ]

  -- When `std::sort` permutes the events: whatever frames of whatever streams come in whatever order, as long
  -- as they work, there is one answer for each frame, and every event in it has the time stamp and the number
  -- of the stream of this frame, whatever track it was linked to.
  pub detect_frames-Told :
      (is : List (Input F)) (det det1 : ArcDetector F D) (log : List (ℤ × List (Event F D)))
      → detect_frames sort sort_events widen is det ≡ some (log, det1)
      → Told is log
  detect_frames-Told [] det det1 log e =
      subst (Told []) (ap (λ r. r.0) (some_inj (sym (frames_nil sort sort_events widen det) ∙ e)))
        tt
  detect_frames-Told (i ∷ is) det det1 log e =
      let (es, mid, rest, first, others, shape) =
        frames-cases sort sort_events widen i is det det1 log e in
      subst (Told (i ∷ is)) (sym shape)
        (refl, frame-Told i det mid es first, detect_frames-Told is mid det1 rest others)
