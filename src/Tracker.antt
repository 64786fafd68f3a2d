-- ===== src/Tracker.antt =====
-- cpp/include/arc_severity.h and cpp/src/arc_severity.cpp: `ArcLifecycleTracker`, which follows the
-- arcs of one stream from frame to frame. `D` is the type `double`.
pub mod Match
pub mod Report
pub mod Ids
pub mod Expire
pub mod Lookup
pub mod History
mod Tests
use pantograph_arc_vision.Common.{
  ℕ, zero, suc, ◌+◌, ◌-◌, Bool, true, false, not, ◌&&◌, Option, none, some, List, [], ◌∷◌, ◌++◌,
  ltb, ◌==◌, if◌then◌else◌, length, drop, get_elem?, map,
}
use pantograph_arc_vision.Common.Int.{ℤ, pos, ◌-ℤ◌, ltb_ℤ, to_size}
use pantograph_arc_vision.Common.Floating.{
  Floating, ◌⊕◌, ◌⊖◌, ◌⊗◌, ◌⊘◌, ◌≺◌, ◌≼◌, whole, fmax, fmin,
}
use pantograph_arc_vision.Severity.{
  Level, minor_spark, level_value, Thresholds, Kalman, Box, Track, kalman, kalman_update,
  classify_severity,
}

-- The track identifier is counted up from 1 in an `int32_t`, here a natural; Tracker/History.antt bounds it
-- by the number of detections.
pub record Tracker {ℓ} (D : Type ℓ) : Type ℓ where
  pub thresholds : Thresholds D
  pub iou_match_threshold : D
  pub max_gap_ns : ℤ
  pub max_tracks : ℤ
  pub next_track_id : ℕ
  pub active_tracks : List (Track D)
  pub completed_tracks : List (Track D)

pub record TrackUpdate {ℓ} (D : Type ℓ) : Type ℓ where
  pub track_id : ℕ
  pub box : Box D
  pub instant_energy : D
  pub smoothed_energy : D
  pub cumulative_energy : D
  pub severity : Level
  pub frame_count : ℕ
  pub duration_ns : ℤ
  pub is_new : Bool
  pub severity_escalated : Bool

-- A detection with `energies[d]` and `detection_matched[d]`.
pub record Candidate {ℓ} (D : Type ℓ) : Type ℓ where
  pub box : Box D
  pub energy : D
  pub matched : Bool

module _ {ℓ} {D : Type ℓ} where
  -- Each detection needs its energy: `none` is the read past the end of a shorter `energies`,
  -- which every call comes to, since every detection is matched or starts a track.
  unfoldable pub candidates : List (Box D) → List D → Option (List (Candidate D))
  candidates [] es = some []
  candidates (b ∷ bs) [] = none
  candidates (b ∷ bs) (e ∷ es) = elim (candidates bs es) [
    | none ↦ none
    | some cs ↦ some (record { box = b; energy = e; matched = false } ∷ cs)
  ]

  -- `detection_matched[i] = true`.
  unfoldable pub mark : List (Candidate D) → ℕ → List (Candidate D)
  mark [] i = []
  mark (c ∷ cs) zero = record c { matched = true } ∷ cs
  mark (c ∷ cs) (suc i) = c ∷ mark cs i

module _ {ℓ} {D : Type ℓ} ⦃d : Floating D⦄ where
  unfoldable pub tracker : Thresholds D → D → ℤ → ℤ → Tracker D
  tracker thresholds iou_match_threshold max_gap_ns max_tracks = record {
    thresholds = thresholds;
    iou_match_threshold = iou_match_threshold;
    max_gap_ns = max_gap_ns;
    max_tracks = max_tracks;
    next_track_id = 1;
    active_tracks = [];
    completed_tracks = [];
  }

  unfoldable pub compute_iou : Track D → Box D → D
  compute_iou t b =
      let t1 = t.last_box in
      let iw = fmax (whole 0) (fmin t1.x2 b.x2 ⊖ fmax t1.x1 b.x1) in
      let ih = fmax (whole 0) (fmin t1.y2 b.y2 ⊖ fmax t1.y1 b.y1) in
      let inter = iw ⊗ ih in
      let area_t = (t1.x2 ⊖ t1.x1) ⊗ (t1.y2 ⊖ t1.y1) in
      let area_d = (b.x2 ⊖ b.x1) ⊗ (b.y2 ⊖ b.y1) in
      let union_area = area_t ⊕ area_d ⊖ inter in
      if whole 0 ≺ union_area then inter ⊘ union_area else whole 0

  -- The inner loop from detection `i` on: `best_iou`, and `best_det` with `none` for -1.
  unfoldable pub best_match : Track D → List (Candidate D) → ℕ → D → Option ℕ → D × Option ℕ
  best_match t [] i best_iou best_det = (best_iou, best_det)
  best_match t (c ∷ cs) i best_iou best_det =
      let iou = compute_iou t c.box in
      let better = not c.matched && best_iou ≺ iou in
      best_match t cs (i + 1) (if better then iou else best_iou)
        (if better then some i else best_det)

  -- `1.0 / 30.0`.
  abbrev pub frame_period : D
  frame_period = whole 1 ⊘ whole 30

  -- The track after a match, all but its severity.
  unfoldable pub matched_track : ℤ → Candidate D → Track D → Track D
  matched_track pts c t =
      let kf = kalman_update t.energy_kf c.energy in
      record t {
        last_box = c.box;
        last_pts_ns = pts;
        frame_count = t.frame_count + 1;
        last_instant_energy = c.energy;
        energy_kf = kf;
        smoothed_energy = kf.x;
        cumulative_energy = t.cumulative_energy ⊕ kf.x ⊗ frame_period;
      }

  unfoldable pub extend_track : Thresholds D → ℤ → Candidate D → Track D → Track D
  extend_track th pts c t =
      let t' = matched_track pts c t in record t' { severity = classify_severity th t' }

  unfoldable pub update_of : ℤ → Level → Track D → TrackUpdate D
  update_of pts prev t = record {
    track_id = t.track_id;
    box = t.last_box;
    instant_energy = t.last_instant_energy;
    smoothed_energy = t.smoothed_energy;
    cumulative_energy = t.cumulative_energy;
    severity = t.severity;
    frame_count = t.frame_count;
    duration_ns = pts -ℤ t.start_pts_ns;
    is_new = false;
    severity_escalated = ltb (level_value prev) (level_value t.severity);
  }

  -- `best_det >= 0 && best_iou >= iou_match_threshold_`: then `best_det` and its detection.
  unfoldable pub settle : D → List (Candidate D) → D × Option ℕ → Option (ℕ × Candidate D)
  settle threshold cs (iou, none) = none
  settle threshold cs (iou, some i) =
      if threshold ≼ iou
      then (elim (get_elem? cs i) [ none ↦ none | some c ↦ some (i, c) ])
      else none

  unfoldable pub find_match : D → Track D → List (Candidate D) → Option (ℕ × Candidate D)
  find_match threshold t cs = settle threshold cs (best_match t cs 0 (whole 0) none)

  -- The body of the loop over the tracks: the track, the detections and the updates after it.
  unfoldable pub match_track :
      Tracker D
      → ℤ
      → Track D
      → List (Candidate D)
      → Track D × List (Candidate D) × List (TrackUpdate D)
  match_track k pts t cs = elim (find_match k.iou_match_threshold t cs) [
    | none ↦ (t, cs, [])
    | some (i, c) ↦
        let t' = extend_track k.thresholds pts c t in
        (t', mark cs i, update_of pts t.severity t' ∷ [])
  ]

  unfoldable pub match_tracks :
      Tracker D
      → ℤ
      → List (Track D)
      → List (Candidate D)
      → List (Track D) × List (Candidate D) × List (TrackUpdate D)
  match_tracks k pts [] cs = ([], cs, [])
  match_tracks k pts (t ∷ ts) cs =
      let (t', cs', us) = match_track k pts t cs in
      let (ts', cs'', us') = match_tracks k pts ts cs' in (t' ∷ ts', cs'', us ++ us')

  unfoldable pub new_track : ℤ → ℕ → Candidate D → Track D
  new_track pts id c =
      let kf = kalman_update (kalman (whole 1 ⊘ whole 100) (whole 1 ⊘ whole 10)) c.energy in
      record {
        track_id = id;
        stream_index = pos 0;
        start_pts_ns = pts;
        last_pts_ns = pts;
        frame_count = 1;
        last_box = c.box;
        last_instant_energy = c.energy;
        smoothed_energy = kf.x;
        cumulative_energy = kf.x ⊗ frame_period;
        energy_kf = kf;
        severity = minor_spark;
        active = true;
      }

  unfoldable pub new_update : Track D → TrackUpdate D
  new_update t = record {
    track_id = t.track_id;
    box = t.last_box;
    instant_energy = t.last_instant_energy;
    smoothed_energy = t.smoothed_energy;
    cumulative_energy = t.cumulative_energy;
    severity = t.severity;
    frame_count = 1;
    duration_ns = pos 0;
    is_new = true;
    severity_escalated = false;
  }

  -- The loop over the detections left: the tracks that it starts, and `next_track_id_` after it.
  unfoldable pub start_tracks : ℤ → ℕ → List (Candidate D) → List (Track D) × ℕ
  start_tracks pts next [] = ([], next)
  start_tracks pts next (c ∷ cs) =
      let (ts, next') = start_tracks pts (if c.matched then next else next + 1) cs in
      (if c.matched then ts else new_track pts next c ∷ ts, next')

  unfoldable pub update_candidates :
      Tracker D → ℤ → List (Candidate D) → List (TrackUpdate D) × Tracker D
  update_candidates k pts cs =
      let (ts, cs', us) = match_tracks k pts k.active_tracks cs in
      let (fresh, next) = start_tracks pts k.next_track_id cs' in
      (us ++ map new_update fresh, record k { next_track_id = next; active_tracks = ts ++ fresh })

  -- `ArcLifecycleTracker::update`.
  unfoldable pub update :
      Tracker D → ℤ → List (Box D) → List D → Option (List (TrackUpdate D) × Tracker D)
  update k pts detections energies = elim (candidates detections energies) [
    | none ↦ none
    | some cs ↦ some (update_candidates k pts cs)
  ]

module _ {ℓ} {D : Type ℓ} where
  unfoldable pub is_expired : ℤ → ℤ → Track D → Bool
  is_expired gap now t = t.active && ltb_ℤ gap (now -ℤ t.last_pts_ns)

  abbrev pub retire : Track D → Track D
  retire t = record t { active = false }

  -- The first loop of `expire_old_tracks`: `active_tracks_` after it, and what it appends to
  -- `completed_tracks_`.
  unfoldable pub retire_loop : ℤ → ℤ → List (Track D) → List (Track D) × List (Track D)
  retire_loop gap now [] = ([], [])
  retire_loop gap now (t ∷ ts) =
      let (ts', done) = retire_loop gap now ts in
      if is_expired gap now t then (retire t ∷ ts', retire t ∷ done) else (t ∷ ts', done)

  -- `erase(remove_if(...))` of the tracks that are not active.
  unfoldable pub remove_inactive : List (Track D) → List (Track D)
  remove_inactive [] = []
  remove_inactive (t ∷ ts) = let rest = remove_inactive ts in if t.active then t ∷ rest else rest

  -- The limit is compared, and subtracted, as a `size_t`.
  unfoldable pub trim : ℤ → List (Track D) → List (Track D)
  trim max_tracks ts =
      let limit = to_size max_tracks in
      if ltb limit (length ts) then drop (length ts - limit) ts else ts

  unfoldable pub expire_old_tracks : Tracker D → ℤ → Tracker D
  expire_old_tracks k now =
      let (ts, done) = retire_loop k.max_gap_ns now k.active_tracks in
      record k {
        active_tracks = remove_inactive ts;
        completed_tracks = trim k.max_tracks (k.completed_tracks ++ done);
      }

  unfoldable pub find_track : ℕ → List (Track D) → Option (Track D)
  find_track id [] = none
  find_track id (t ∷ ts) = if t.track_id == id then some t else find_track id ts

  unfoldable pub get_track : Tracker D → ℕ → Option (Track D)
  get_track k id = elim (find_track id k.active_tracks) [
    | some t ↦ some t
    | none ↦ find_track id k.completed_tracks
  ]
