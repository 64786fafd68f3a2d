-- ===== src/Tracker/Ids.antt =====
-- The identifiers that `ArcLifecycleTracker` gives to its tracks.
use mathlib.Core.List.{
  Perm, Mem, Nodup, Nodup-cons, Nodup-nil, Nodup-append, map-append, mem-append, mem-cons,
  not-mem-nil, perm_append_comm,
}
use mathlib.Core.List.Perm
use mathlib.Core.Logic.Or
use native.Mathlib.Bridge.{le_prop}
use pantograph_arc_vision.Common.{
  ℕ, ◌+◌, ◌≤◌, ◌<◌, ◌≡◌, refl, ap, ap₂, ◌∙◌, inl, inr, some, List, [], ◌∷◌, ◌++◌, map, append_assoc,
  arith, All-append, Bool-cases, Option-cases, zero, suc, sym, length, some_inj,
}
use pantograph_arc_vision.Common.Int.{ℤ}
use pantograph_arc_vision.Common.Floating.{Floating}
use pantograph_arc_vision.Severity.{Box, Track}
use pantograph_arc_vision.Tracker.{
  Tracker, TrackUpdate, Candidate, candidates, matched_track, extend_track, match_track,
  match_tracks, mark, find_match, new_track, start_tracks, update_candidates, update, retire,
}
use pantograph_arc_vision.Tracker.Expire.{IsLive, AllLive}

abbrev pub Below : ℕ → List ℕ → Type 0
Below n xs = (a : ℕ) → Mem a xs → a < n

abbrev AtLeast : ℕ → List ℕ → Type 0
AtLeast n xs = (a : ℕ) → Mem a xs → n ≤ a

module _ {ℓ} {D : Type ℓ} where
  abbrev pub ids : List (Track D) → List ℕ
  ids = map (λ t. t.track_id)

  abbrev pub all_ids : Tracker D → List ℕ
  all_ids k = ids k.active_tracks ++ ids k.completed_tracks

  -- Identifiers are below `next_track_id_`, no two tracks share one, and the active tracks are
  -- active.
  pub record IsTracked (k : Tracker D) : Type ℓ where
    pub below : Below k.next_track_id (all_ids k)
    pub distinct : Nodup (all_ids k)
    pub live : AllLive k.active_tracks

  -- The tracks that a frame starts have the identifiers from `next` on.
  record Started (next : ℕ) (ts : List (Track D)) (next' : ℕ) : Type ℓ where
    grows : next ≤ next'
    above : AtLeast next (ids ts)
    below : Below next' (ids ts)
    distinct : Nodup (ids ts)
    live : AllLive ts

  pub ids-retire : (ts : List (Track D)) → ids (map retire ts) ≡ ids ts
  ids-retire [] = refl
  ids-retire (t ∷ ts) = ap (◌∷◌ t.track_id) (ids-retire ts)

module _ {ℓ} {D : Type ℓ} ⦃d : Floating D⦄ (k : Tracker D) (pts : ℤ) where
  match_track_keeps :
      (t : Track D) (cs : List (Candidate D))
      → let t' = (match_track k pts t cs).0 in (t'.track_id ≡ t.track_id) × (t'.active ≡ t.active)
  unfolding match_track extend_track matched_track
  match_track_keeps t cs = ground arith

  match_tracks_keep :
      (ts : List (Track D)) (cs : List (Candidate D))
      → AllLive ts
      → let ts' = (match_tracks k pts ts cs).0 in (ids ts' ≡ ids ts) × AllLive ts'
  unfolding match_tracks
  match_tracks_keep [] cs h = (refl, tt)
  match_tracks_keep (t ∷ ts) cs (live, h) =
      let (same, alive) = match_track_keeps t cs in
      let (rest, all) = match_tracks_keep ts (match_track k pts t cs).1 h in
      (ap₂ ◌∷◌ same rest, (alive ∙ live, all))

module _ {ℓ} {D : Type ℓ} ⦃d : Floating D⦄ (pts : ℤ) where
  start_tracks-Started :
      (next : ℕ) (cs : List (Candidate D))
      → let (ts, next') = start_tracks pts next cs in Started next ts next'
  unfolding start_tracks new_track
  start_tracks-Started next [] = record {
    grows = omega arith;
    above = λ a m. absurd (not-mem-nil m);
    below = λ a m. absurd (not-mem-nil m);
    distinct = Nodup-nil;
    live = tt;
  }
  start_tracks-Started next (c ∷ cs) = elim (Bool-cases c.matched) [
    | inl gone ↦ rw gone (start_tracks-Started next cs)
    | inr here ↦
        let s = start_tracks-Started (next + 1) cs in
        rw here (record {
          grows = omega (arith, s.grows);
          above = λ a m.
              Or.elim le_prop (mem-cons.0 m) (λ e. omega arith) (λ l. omega (arith, s.above a l));
          below = λ a m.
              Or.elim le_prop (mem-cons.0 m) (λ e. omega (arith, s.grows)) (λ l. s.below a l);
          distinct = Nodup-cons.1 ((λ m. omega (arith, s.above next m)), s.distinct);
          live = (refl, s.live);
        })
  ]

module _ {ℓ} {D : Type ℓ} ⦃d : Floating D⦄ where
  -- A frame starts no more tracks than it has detections.
  start_tracks-next :
      (pts : ℤ) (next : ℕ) (cs : List (Candidate D))
      → (start_tracks pts next cs).1 ≤ next + length cs
  unfolding start_tracks
  start_tracks-next pts next [] = omega arith
  start_tracks-next pts next (c ∷ cs) = elim (Bool-cases c.matched) [
    | inl gone ↦ rw gone (omega (arith, start_tracks-next pts next cs))
    | inr here ↦ rw here (omega (arith, start_tracks-next pts (next + 1) cs))
  ]

  length-mark : (cs : List (Candidate D)) (i : ℕ) → length (mark cs i) ≡ length cs
  unfolding mark
  length-mark [] i = refl
  length-mark (c ∷ cs) zero = refl
  length-mark (c ∷ cs) (suc i) = ap suc (length-mark cs i)

  length-match_track :
      (k : Tracker D) (pts : ℤ) (t : Track D) (cs : List (Candidate D))
      → length (match_track k pts t cs).1 ≡ length cs
  unfolding match_track
  length-match_track k pts t cs = elim (Option-cases (find_match k.iou_match_threshold t cs)) [
    | inl nothing ↦ rw (length, match_track, nothing) refl
    | inr ((i, c), found) ↦ rw (length, match_track, found) (length-mark cs i)
  ]

  length-match_tracks :
      (k : Tracker D) (pts : ℤ) (ts : List (Track D)) (cs : List (Candidate D))
      → length (match_tracks k pts ts cs).1 ≡ length cs
  unfolding match_tracks
  length-match_tracks k pts [] cs = refl
  length-match_tracks k pts (t ∷ ts) cs =
      length-match_tracks k pts ts (match_track k pts t cs).1 ∙ length-match_track k pts t cs

  length-candidates :
      (boxes : List (Box D)) (energies : List D) (cs : List (Candidate D))
      → candidates boxes energies ≡ some cs
      → length cs ≡ length boxes
  unfolding candidates
  length-candidates [] energies cs e = ap length (sym (some_inj e))
  length-candidates (b ∷ bs) [] cs e = cc
  length-candidates (b ∷ bs) (x ∷ xs) cs e = elim (Option-cases (candidates bs xs)) [
    | inl gone ↦ let clash = rw (candidates, gone) at e in cc
    | inr (rest, here) ↦
        let shape = rw (candidates, here) at e in
        ap length (sym (some_inj shape)) ∙ ap suc (length-candidates bs xs rest here)
  ]

  pub update-next :
      (k : Tracker D) (pts : ℤ) (boxes : List (Box D)) (energies : List D)
      {us : List (TrackUpdate D)} {k' : Tracker D}
      → update k pts boxes energies ≡ some (us, k')
      → k'.next_track_id ≤ k.next_track_id + length boxes
  unfolding update update_candidates
  update-next k pts boxes energies {us} {k'} e = elim (Option-cases (candidates boxes energies)) [
    | inl gone ↦ absurd (ground arith)
    | inr (cs, here) ↦
        let same : k' ≡ (update_candidates k pts cs).1 = ground arith in
        rw same (
          omega (
            arith,
            start_tracks-next pts k.next_track_id (match_tracks k pts k.active_tracks cs).1,
            length-match_tracks k pts k.active_tracks cs,
            length-candidates boxes energies cs here,
          ))
  ]

  -- New identifiers beside old ones.
  joined :
      (k : Tracker D) (ts fresh : List (Track D)) (next : ℕ)
      → IsTracked k
      → ids ts ≡ ids k.active_tracks
      → AllLive ts
      → Started k.next_track_id fresh next
      → IsTracked (record k { next_track_id = next; active_tracks = ts ++ fresh })
  joined k ts fresh next v same alive s =
      let old = all_ids k in
      let order : Perm (ids fresh ++ old) (ids (ts ++ fresh) ++ ids k.completed_tracks) =
        rw (map-append (λ (t : Track D). t.track_id) ts fresh, same, ← append_assoc)
          (Perm.append_right (ids k.completed_tracks)
            (perm_append_comm (ids fresh) (ids k.active_tracks))) in
      record {
        below = λ a m.
            Or.elim le_prop (mem-append.0 (Perm.subset (Perm.symm order) a m)) (s.below a)
              (λ l. omega (arith, v.below a l, s.grows));
        distinct = Perm.nodup order (
            Nodup-append.1
              (s.distinct, v.distinct, λ a m n. omega (arith, s.above a m, v.below a n)));
        live = All-append IsLive ts fresh alive s.live;
      }

  -- A frame keeps the identifiers apart, and gives new tracks new ones.
  pub update-IsTracked :
      (k : Tracker D) (pts : ℤ) (boxes : List (Box D)) (energies : List D)
      {us : List (TrackUpdate D)} {k' : Tracker D}
      → IsTracked k
      → update k pts boxes energies ≡ some (us, k')
      → IsTracked k'
  unfolding update update_candidates
  update-IsTracked k pts boxes energies {us} {k'} v e =
      elim (Option-cases (candidates boxes energies)) [
        | inl gone ↦ absurd (ground arith)
        | inr (cs, here) ↦
            let same : k' ≡ (update_candidates k pts cs).1 = ground arith in
            let (kept, alive) = match_tracks_keep k pts k.active_tracks cs v.live in
            rw same (
              joined k _ _ _ v kept alive (
                start_tracks-Started pts k.next_track_id (match_tracks k pts k.active_tracks cs).1))
      ]
