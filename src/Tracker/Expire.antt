-- ===== src/Tracker/Expire.antt =====
-- `ArcLifecycleTracker::expire_old_tracks`: which tracks stay, and which are kept as completed.
use mathlib.Core.List.{Perm, perm_middle}
use mathlib.Core.List.Perm
use pantograph_arc_vision.Common.{
  ◌-◌, ◌≤◌, ◌≡◌, refl, ap, inl, inr, true, List, [], ◌∷◌, ◌++◌, map, arith, if◌then◌else◌, ltb,
  length, drop, length-drop, All, Bool-cases,
}
use pantograph_arc_vision.Common.Int.{ℤ, ◌-ℤ◌, ◌≤ℤ◌, ltb_ℤ, to_size}
use pantograph_arc_vision.Severity.{Track}
use pantograph_arc_vision.Tracker.{
  Tracker, is_expired, retire, retire_loop, remove_inactive, trim, expire_old_tracks,
}

module _ {ℓ} {D : Type ℓ} where
  abbrev pub IsLive : Track D → Type 0
  IsLive t = t.active ≡ true

  -- Between frames every track of `active_tracks_` is active.
  abbrev pub AllLive : List (Track D) → Type 0
  AllLive = All IsLive

  -- `t` was last seen within the gap.
  abbrev pub IsRecent : ℤ → ℤ → Track D → Type 0
  IsRecent gap now t = (now -ℤ t.last_pts_ns) ≤ℤ gap

  -- The tracks that stay, and those that go.
  pub recent : ℤ → ℤ → List (Track D) → List (Track D)
  recent gap now [] = []
  recent gap now (t ∷ ts) =
      let rest = recent gap now ts in if ltb_ℤ gap (now -ℤ t.last_pts_ns) then rest else t ∷ rest

  pub stale : ℤ → ℤ → List (Track D) → List (Track D)
  stale gap now [] = []
  stale gap now (t ∷ ts) =
      let rest = stale gap now ts in if ltb_ℤ gap (now -ℤ t.last_pts_ns) then t ∷ rest else rest

  pub retire_loop_lem :
      (gap now : ℤ) (ts : List (Track D))
      → AllLive ts
      → let (ts', done) = retire_loop gap now ts in
        (remove_inactive ts' ≡ recent gap now ts) × (done ≡ map retire (stale gap now ts))
  unfolding retire_loop remove_inactive recent stale is_expired
  retire_loop_lem gap now [] h = (refl, refl)
  retire_loop_lem gap now (t ∷ ts) (live, h) =
      let (kept, gone) = retire_loop_lem gap now ts h in
      elim (Bool-cases (ltb_ℤ gap (now -ℤ t.last_pts_ns))) [
        | inl old ↦ simp (old, live) (kept, ap (◌∷◌ (retire t)) gone)
        | inr new ↦ simp (new, live) (ap (◌∷◌ t) kept, gone)
      ]

  recent-IsRecent : (gap now : ℤ) (ts : List (Track D)) → All (IsRecent gap now) (recent gap now ts)
  unfolding recent
  recent-IsRecent gap now [] = tt
  recent-IsRecent gap now (t ∷ ts) = elim (Bool-cases (ltb_ℤ gap (now -ℤ t.last_pts_ns))) [
    | inl old ↦ simp old (recent-IsRecent gap now ts)
    | inr new ↦ simp new (ground arith, recent-IsRecent gap now ts)
  ]

  pub recent-live : (gap now : ℤ) (ts : List (Track D)) → AllLive ts → AllLive (recent gap now ts)
  unfolding recent
  recent-live gap now [] h = tt
  recent-live gap now (t ∷ ts) (live, h) = elim (Bool-cases (ltb_ℤ gap (now -ℤ t.last_pts_ns))) [
    | inl old ↦ simp old (recent-live gap now ts h)
    | inr new ↦ simp new (live, recent-live gap now ts h)
  ]

  pub recent-stale-perm :
      (gap now : ℤ) (ts : List (Track D)) → Perm (recent gap now ts ++ stale gap now ts) ts
  unfolding recent stale
  recent-stale-perm gap now [] = Perm.refl []
  recent-stale-perm gap now (t ∷ ts) = elim (Bool-cases (ltb_ℤ gap (now -ℤ t.last_pts_ns))) [
    | inl old ↦ simp old (
        Perm.trans (perm_middle (recent gap now ts) (stale gap now ts))
          (Perm.cons t (recent-stale-perm gap now ts)))
    | inr new ↦ simp new (Perm.cons t (recent-stale-perm gap now ts))
  ]

  pub trim-drop : (m : ℤ) (ts : List (Track D)) → trim m ts ≡ drop (length ts - to_size m) ts
  unfolding trim
  trim-drop m ts = elim (Bool-cases (ltb (to_size m) (length ts))) [
    | inl over ↦ rw over
    | inr fits ↦ let none_over : length ts - to_size m ≡ 0 = ground arith in simp (fits, none_over)
  ]

  -- What `expire_old_tracks` has done.
  pub record IsExpired (k : Tracker D) (now : ℤ) (k' : Tracker D) : Type ℓ where
    pub stay : k'.active_tracks ≡ recent k.max_gap_ns now k.active_tracks
    pub within : All (IsRecent k.max_gap_ns now) k'.active_tracks
    pub completed : k'.completed_tracks ≡ (
        let ended = k.completed_tracks ++ map retire (stale k.max_gap_ns now k.active_tracks) in
        drop (length ended - to_size k.max_tracks) ended)
    pub limited : length k'.completed_tracks ≤ to_size k.max_tracks

  -- When the tracks of `active_tracks_` are marked active, `expire_old_tracks` keeps there exactly
  -- those seen within the gap, in order, appends the others, no longer active, to the completed
  -- ones, and drops the oldest of these that are over the limit.
  pub expire_old_tracks-IsExpired :
      (k : Tracker D) (now : ℤ)
      → AllLive k.active_tracks
      → IsExpired k now (expire_old_tracks k now)
  unfolding expire_old_tracks
  expire_old_tracks-IsExpired k now live =
      let (kept, gone) = retire_loop_lem k.max_gap_ns now k.active_tracks live in
      let ended = k.completed_tracks ++ map retire (stale k.max_gap_ns now k.active_tracks) in
      let cut = trim-drop k.max_tracks ended in
      record {
        stay = kept;
        within = rw kept (recent-IsRecent k.max_gap_ns now k.active_tracks);
        completed = rw gone cut;
        limited =
            rw (gone, cut) (omega (arith, length-drop (length ended - to_size k.max_tracks) ended));
      }
