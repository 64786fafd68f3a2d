-- ===== src/Detector/Annotate.antt =====
-- What `ArcDetector::detect` writes into an event from the reports of the tracker.
use mathlib.Core.List.{Memᴰ}
use pantograph_arc_vision.Common.{
  ◌<◌, ◌≡◌, refl, ◌⊎◌, inl, inr, Bool, true, false, List, [], ◌∷◌, arith, leb, All, Bool-cases, sym,
  subst,
}
use pantograph_arc_vision.Common.Int.{pos}
use pantograph_arc_vision.Common.Floating.{Floating, ◌≺◌, ◌⊘◌, whole}
use pantograph_arc_vision.Severity.{minor_spark}
use pantograph_arc_vision.Tracker.{TrackUpdate}
use pantograph_arc_vision.Detector.{Event, event_iou, link, settle_event, annotate}

module _ {ℓ} {F D : Type ℓ} ⦃f : Floating F⦄ ⦃d : Floating D⦄ (widen : F → D) where
  -- The event overlaps the box of the report by more than a half.
  abbrev pub overlapped : Event F D → TrackUpdate D → Bool
  overlapped e u = (whole 1 ⊘ whole 2) ≺ event_iou widen e u

  -- The event has the state of the track in the report.
  pub record IsLinked (e : Event F D) (u : TrackUpdate D) (r : Event F D) : Type ℓ where
    pub close : overlapped e u ≡ true
    pub track : r.track_id ≡ u.track_id
    pub smoothed : r.smoothed_energy ≡ u.smoothed_energy
    pub cumulative : r.cumulative_energy ≡ u.cumulative_energy
    pub level : r.severity ≡ u.severity
    pub count : r.track_frame_count ≡ u.frame_count
    pub duration : r.track_duration_ns ≡ u.duration_ns

  -- The event stands alone, as a minor spark of one frame.
  pub record IsAlone (e : Event F D) (us : List (TrackUpdate D)) (r : Event F D) : Type ℓ where
    pub apart : All (λ u. overlapped e u ≡ false) us
    pub track : r.track_id ≡ 0
    pub smoothed : r.smoothed_energy ≡ e.instant_energy
    pub cumulative : r.cumulative_energy ≡ e.instant_energy
    pub level : r.severity ≡ minor_spark
    pub count : r.track_frame_count ≡ 1
    pub duration : r.track_duration_ns ≡ pos 0

  -- What the loop leaves alone.
  pub record IsSame (e r : Event F D) : Type ℓ where
    pub rect : r.rect ≡ e.rect
    pub confidence : r.confidence ≡ e.confidence
    pub pts_ns : r.pts_ns ≡ e.pts_ns
    pub stream_index : r.stream_index ≡ e.stream_index
    pub intensity : r.intensity ≡ e.intensity
    pub instant_energy : r.instant_energy ≡ e.instant_energy

  abbrev pub Annotated : Event F D → List (TrackUpdate D) → Event F D → Type ℓ
  Annotated e us r =
      IsSame e r × (((u : TrackUpdate D) × Memᴰ u us × IsLinked e u r) ⊎ IsAlone e us r)

  link_close :
      (u : TrackUpdate D) (us : List (TrackUpdate D)) (e : Event F D)
      → overlapped e u ≡ true
      → link widen (u ∷ us) e ≡ record e {
        track_id = u.track_id;
        smoothed_energy = u.smoothed_energy;
        cumulative_energy = u.cumulative_energy;
        severity = u.severity;
        track_frame_count = u.frame_count;
        track_duration_ns = u.duration_ns;
      }
  unfolding link
  link_close u us e h = rw (h, link) refl

  link_apart :
      (u : TrackUpdate D) (us : List (TrackUpdate D)) (e : Event F D)
      → overlapped e u ≡ false
      → link widen (u ∷ us) e ≡ link widen us e
  unfolding link
  link_apart u us e h = rw (h, link) refl

  settle_event_kept : (e : Event F D) → 0 < e.track_id → settle_event e ≡ e
  unfolding settle_event
  settle_event_kept e h = let later : leb e.track_id 0 ≡ false = ground arith in simp later refl

  abbrev alone : Event F D → Event F D
  alone e = record e {
    severity = minor_spark;
    track_id = 0;
    track_frame_count = 1;
    track_duration_ns = pos 0;
    smoothed_energy = e.instant_energy;
    cumulative_energy = e.instant_energy;
  }

  settle_event-alone : (e : Event F D) → e.track_id ≡ 0 → settle_event e ≡ alone e
  unfolding settle_event
  settle_event-alone e h =
      let none_yet : leb e.track_id 0 ≡ true = ground arith in simp none_yet refl

  alone-Annotated :
      (us : List (TrackUpdate D)) (e : Event F D)
      → All (λ u. overlapped e u ≡ false) us
      → Annotated e us (alone e)
  alone-Annotated us e apart = (
    record {
      rect = refl;
      confidence = refl;
      pts_ns = refl;
      stream_index = refl;
      intensity = refl;
      instant_energy = refl;
    },
    inr (record {
      apart = apart;
      track = refl;
      smoothed = refl;
      cumulative = refl;
      level = refl;
      count = refl;
      duration = refl;
    }),
  )

  linked-Annotated :
      (u : TrackUpdate D) (us : List (TrackUpdate D)) (e : Event F D)
      → overlapped e u ≡ true
      → Annotated e (u ∷ us) (record e {
        track_id = u.track_id;
        smoothed_energy = u.smoothed_energy;
        cumulative_energy = u.cumulative_energy;
        severity = u.severity;
        track_frame_count = u.frame_count;
        track_duration_ns = u.duration_ns;
      })
  linked-Annotated u us e close = (
    record {
      rect = refl;
      confidence = refl;
      pts_ns = refl;
      stream_index = refl;
      intensity = refl;
      instant_energy = refl;
    },
    inl (
      u,
      Memᴰ.head refl,
      record {
        close = close;
        track = refl;
        smoothed = refl;
        cumulative = refl;
        level = refl;
        count = refl;
        duration = refl;
      },
    ),
  )

  later-Annotated :
      (u : TrackUpdate D) (us : List (TrackUpdate D)) (e r : Event F D)
      → overlapped e u ≡ false
      → Annotated e us r
      → Annotated e (u ∷ us) r
  later-Annotated u us e r far (same, inl (w, m, l)) = (same, inl (w, Memᴰ.tail m, l))
  later-Annotated u us e r far (same, inr a) = (
    same,
    inr (record {
      apart = (far, a.apart);
      track = a.track;
      smoothed = a.smoothed;
      cumulative = a.cumulative;
      level = a.level;
      count = a.count;
      duration = a.duration;
    }),
  )

  -- When every reported track has a positive identifier, and the event has none yet, the event keeps
  -- its box and its measurements. It gets the state of the track of some report whose box it overlaps
  -- by more than a half; if there is no such report it is a minor spark of one frame, with its own
  -- energy.
  pub annotate-Annotated :
      (us : List (TrackUpdate D)) (e : Event F D)
      → All (λ u. 0 < u.track_id) us
      → e.track_id ≡ 0
      → Annotated e us (annotate widen us e)
  unfolding annotate link
  annotate-Annotated [] e h fresh =
      subst (Annotated e []) (sym (settle_event-alone e fresh)) (alone-Annotated [] e tt)
  annotate-Annotated (u ∷ us) e (h, hs) fresh = elim (Bool-cases (overlapped e u)) [
    | inl close ↦
        subst (λ r. Annotated e (u ∷ us) (settle_event r)) (sym (link_close u us e close))
          (subst (Annotated e (u ∷ us)) (sym (settle_event_kept _ h))
            (linked-Annotated u us e close))
    | inr far ↦
        subst (λ r. Annotated e (u ∷ us) (settle_event r)) (sym (link_apart u us e far))
          (later-Annotated u us e _ far (annotate-Annotated us e hs fresh))
  ]
