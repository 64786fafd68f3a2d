-- ===== src/Tracker/Report.antt =====
-- The reports that `ArcLifecycleTracker::update` (cpp/src/arc_severity.cpp) returns for a frame.
use mathlib.Core.List.{Perm, map-append}
use mathlib.Core.List.Perm
use pantograph_arc_vision.Common.{
  ℕ, zero, suc, ◌+◌, ◌≤◌, ◌≡◌, refl, subst, ap, inl, inr, false, some, List, [], ◌∷◌, ◌++◌, map,
  append_assoc, arith, if◌then◌else◌, length, get_elem?, Bool-cases, Option-cases,
}
use pantograph_arc_vision.Common.Int.{ℤ}
use pantograph_arc_vision.Common.Floating.{Floating}
use pantograph_arc_vision.Severity.{Box, Track}
use pantograph_arc_vision.Tracker.{
  Tracker, TrackUpdate, Candidate, candidates, mark, find_match, matched_track, extend_track,
  update_of, match_track, match_tracks, new_track, new_update, start_tracks, update_candidates,
  update,
}
use pantograph_arc_vision.Tracker.Match.{find_match-IsFree}

module _ {ℓ} {D : Type ℓ} where
  -- A box with its energy: as it is detected, and as it is reported.
  abbrev pub shown : Candidate D → Box D × D
  shown c = (c.box, c.energy)

  abbrev pub reported : TrackUpdate D → Box D × D
  reported u = (u.box, u.instant_energy)

  -- The detections with their energies.
  pub pairs : List (Box D) → List D → List (Box D × D)
  pairs [] es = []
  pairs (b ∷ bs) [] = []
  pairs (b ∷ bs) (e ∷ es) = (b, e) ∷ pairs bs es

  -- The detections that are still free.
  pub pending : List (Candidate D) → List (Candidate D)
  pending [] = []
  pending (c ∷ cs) = if c.matched then pending cs else c ∷ pending cs

  pub mark-perm :
      (cs : List (Candidate D)) (i : ℕ) (c : Candidate D)
      → get_elem? cs i ≡ some c
      → c.matched ≡ false
      → Perm (pending cs) (c ∷ pending (mark cs i))
  unfolding pending mark
  mark-perm [] i c e free = absurd (ground arith)
  mark-perm (x ∷ cs) zero c e free =
      let same : x ≡ c = ground arith in simp (same, free) (Perm.refl (c ∷ pending cs))
  mark-perm (x ∷ cs) (suc i) c e free = elim (Bool-cases x.matched) [
    | inl gone ↦ rw gone (mark-perm cs i c e free)
    | inr here ↦ simp here (Perm.trans (Perm.cons x (mark-perm cs i c e free)) (Perm.swap c x _))
  ]

  candidates-pairs :
      (bs : List (Box D)) (es : List D) {cs : List (Candidate D)}
      → candidates bs es ≡ some cs
      → map shown (pending cs) ≡ pairs bs es
  unfolding candidates pending pairs
  candidates-pairs [] es {cs} e = ground arith
  candidates-pairs (b ∷ bs) [] {cs} e = absurd (ground arith)
  candidates-pairs (b ∷ bs) (x ∷ es) {cs} e = elim (Option-cases (candidates bs es)) [
    | inl gone ↦ absurd (ground arith)
    | inr (r, here) ↦ ground (arith, candidates-pairs bs es here)
  ]

  pub candidates_total :
      (bs : List (Box D)) (es : List D)
      → length bs ≤ length es
      → (cs : List (Candidate D)) × (candidates bs es ≡ some cs)
  unfolding candidates
  candidates_total [] es h = ([], refl)
  candidates_total (b ∷ bs) [] h = absurd (omega arith)
  candidates_total (b ∷ bs) (x ∷ es) h =
      let (cs, e) = candidates_total bs es (omega arith) in
      (record { box = b; energy = x; matched = false } ∷ cs, rw e refl)

module _ {ℓ} {D : Type ℓ} ⦃d : Floating D⦄ (k : Tracker D) (pts : ℤ) where
  match_track-perm :
      (t : Track D) (cs : List (Candidate D))
      → let (t', cs', us) = match_track k pts t cs in
        Perm (map reported us ++ map shown (pending cs')) (map shown (pending cs))
  unfolding match_track
  match_track-perm t cs = elim (Option-cases (find_match k.iou_match_threshold t cs)) [
    | inl missed ↦ rw (missed, match_track) (Perm.refl _)
    | inr ((i, c), found) ↦
        let (f, enough) = find_match-IsFree k.iou_match_threshold t cs found in
        rw (found, match_track)
          (unfold update_of extend_track matched_track in
            Perm.symm (Perm.map shown (mark-perm cs i c f.there f.unmatched)))
  ]

  match_tracks-perm :
      (ts : List (Track D)) (cs : List (Candidate D))
      → let (ts', cs', us) = match_tracks k pts ts cs in
        Perm (map reported us ++ map shown (pending cs')) (map shown (pending cs))
  unfolding match_tracks
  match_tracks-perm [] cs = Perm.refl _
  match_tracks-perm (t ∷ ts) cs =
      let (t', cs', us) = match_track k pts t cs in
      let (ts', cs'', us') = match_tracks k pts ts cs' in
      rw (map-append reported us us', append_assoc)
        (Perm.trans (Perm.append_left (map reported us) (match_tracks-perm ts cs'))
          (match_track-perm t cs))

  start_tracks-pending :
      (next : ℕ) (cs : List (Candidate D))
      → map reported (map new_update (start_tracks pts next cs).0) ≡ map shown (pending cs)
  unfolding start_tracks pending new_update new_track
  start_tracks-pending next [] = refl
  start_tracks-pending next (c ∷ cs) = elim (Bool-cases c.matched) [
    | inl gone ↦ rw gone (start_tracks-pending next cs)
    | inr here ↦ rw here (ap (◌∷◌ (shown c)) (start_tracks-pending (next + 1) cs))
  ]

  update_candidates-perm :
      (cs : List (Candidate D))
      → Perm (map reported (update_candidates k pts cs).0) (map shown (pending cs))
  unfolding update_candidates
  update_candidates-perm cs =
      let (ts, cs', us) = match_tracks k pts k.active_tracks cs in
      rw (map-append reported us _, start_tracks-pending k.next_track_id cs')
        (match_tracks-perm k.active_tracks cs)

  pub update_total :
      (boxes : List (Box D)) (energies : List D)
      → length boxes ≤ length energies
      → (us : List (TrackUpdate D)) × (k' : Tracker D) × (update k pts boxes energies
          ≡ some (us, k'))
  unfolding update
  update_total boxes energies h =
      let (cs, e) = candidates_total boxes energies h in
      ((update_candidates k pts cs).0, (update_candidates k pts cs).1, rw (update, e) refl)

  update-perm :
      (boxes : List (Box D)) (energies : List D) {us : List (TrackUpdate D)} {k' : Tracker D}
      → update k pts boxes energies ≡ some (us, k')
      → Perm (map reported us) (pairs boxes energies)
  unfolding update
  update-perm boxes energies {us} {k'} e = elim (Option-cases (candidates boxes energies)) [
    | inl gone ↦ absurd (ground arith)
    | inr (cs, here) ↦
        let same : us ≡ (update_candidates k pts cs).0 = ground arith in
        rw same (subst (Perm _) (candidates-pairs boxes energies here) (update_candidates-perm cs))
  ]

  -- When there is an energy for each detection, `update` returns, and reports every detection exactly
  -- once, with its own box and energy, in some order.
  pub update_reports :
      (boxes : List (Box D)) (energies : List D)
      → length boxes ≤ length energies
      → (us : List (TrackUpdate D)) × (k' : Tracker D) × (update k pts boxes energies
          ≡ some (us, k'))
        × Perm (map reported us) (pairs boxes energies)
  update_reports boxes energies h =
      let (us, k', e) = update_total boxes energies h in (us, k', e, update-perm boxes energies e)
