-- ===== src/Detector/Frame.antt =====
-- What the second half of `ArcDetector::detect` does with the events that are left of a frame.
use mathlib.Core.List.{Perm}
use pantograph_arc_vision.Common.{
  ℕ, suc, ◌*◌, ◌^◌, ◌<◌, ◌≡◌, refl, inl, inr, ap, some, List, [], ◌∷◌, map, arith, length,
}
use pantograph_arc_vision.Common.Int.{ℤ, pos}
use pantograph_arc_vision.Common.Floating.{Floating, whole}
use pantograph_arc_vision.Tracker.{Tracker, TrackUpdate, update, expire_old_tracks}
use pantograph_arc_vision.Tracker.Report.{reported, pairs, update_reports}
use pantograph_arc_vision.Tracker.Ids.{IsTracked, update-IsTracked}
use pantograph_arc_vision.Tracker.History.{expire_old_tracks-IsTracked}
use pantograph_arc_vision.Energy.{compute_instant_energy_gpu}
use pantograph_arc_vision.Energy.Bounds.{compute_instant_energy_gpu_total}
use pantograph_arc_vision.Detector.{Event, wide_box, measure, annotate, track_events}

length-map {ℓ κ} :
    {A : Type ℓ} {B : Type κ} (g : A → B) (xs : List A) → length (map g xs) ≡ length xs
length-map g [] = refl
length-map g (x ∷ xs) = ap suc (length-map g xs)

module _ {ℓ} {F D : Type ℓ} ⦃f : Floating F⦄ ⦃d : Floating D⦄ (widen : F → D) where
  estimate :
      (e : Event F D) (image : List ℕ) (width height : ℕ)
      → length image ≡ height * width
      → height * width < 2 ^ 31
      → (energy : D) × (compute_instant_energy_gpu
            (wide_box widen e.rect)
            image
            (pos width)
            (pos height)
          ≡ some energy)
  estimate e image width height size small =
      elim (compute_instant_energy_gpu_total (wide_box widen e.rect) image width height size
        small) [ inl (_, nothing) ↦ (whole 0, nothing) | inr (pixels, _, _, _, found) ↦ (_, found) ]

  measure_step :
      (image : List ℕ) (width height : ℤ) (e : Event F D) (es : List (Event F D)) {energy : D}
      {rest : List (Event F D)}
      → compute_instant_energy_gpu (wide_box widen e.rect) image width height ≡ some energy
      → measure widen image width height es ≡ some rest
      → measure widen image width height (e ∷ es)
        ≡ some (record e { instant_energy = energy } ∷ rest)
  unfolding measure
  measure_step image width height e es here there = rw (measure, here, there) refl

  -- In an image with a byte for each pixel, the energies of all events are estimated, and their boxes
  -- stay as they are, in order.
  pub measure_total :
      (image : List ℕ) (width height : ℕ) (es : List (Event F D))
      → length image ≡ height * width
      → height * width < 2 ^ 31
      → (ms : List (Event F D)) × (measure widen image (pos width) (pos height) es ≡ some ms)
        × (map (λ e. e.rect) ms ≡ map (λ e. e.rect) es)
  unfolding measure
  measure_total image width height [] size small = ([], refl, refl)
  measure_total image width height (e ∷ es) size small =
      let (energy, here) = estimate e image width height size small in
      let (ms, there, same) = measure_total image width height es size small in
      (
        record e { instant_energy = energy } ∷ ms,
        measure_step image (pos width) (pos height) e es here there,
        ap (◌∷◌ e.rect) same,
      )

  track_events_step :
      (k : Tracker D) (pts : ℤ) (es : List (Event F D)) {us : List (TrackUpdate D)} {k' : Tracker D}
      → update k pts (map (λ e. wide_box widen e.rect) es) (map (λ e. e.instant_energy) es)
        ≡ some (us, k')
      → track_events widen k pts es ≡ some (map (annotate widen us) es, expire_old_tracks k' pts)
  unfolding track_events
  track_events_step k pts es h = rw (track_events, h) refl

  -- The tracker takes the events of any frame: it reports each of them once with its box and energy,
  -- every event is annotated from these reports, and the identifiers of the tracks stay apart.
  pub track_events_total :
      (k : Tracker D) (pts : ℤ) (es : List (Event F D))
      → IsTracked k
      → (us : List (TrackUpdate D)) × (k' : Tracker D) × (track_events widen k pts es
          ≡ some (map (annotate widen us) es, k'))
        × Perm
            (map reported us)
            (pairs (map (λ e. wide_box widen e.rect) es) (map (λ e. e.instant_energy) es))
        × IsTracked k'
  track_events_total k pts es v =
      let boxes = map (λ e. wide_box widen e.rect) es in
      let energies = map (λ e. e.instant_energy) es in
      let (us, k', e, all) = update_reports k pts boxes energies (
        omega (
          arith,
          length-map (λ e. wide_box widen e.rect) es,
          length-map (λ e. e.instant_energy) es,
        )) in
      (
        us,
        expire_old_tracks k' pts,
        track_events_step k pts es e,
        all,
        expire_old_tracks-IsTracked k' pts (update-IsTracked k pts boxes energies v e),
      )
