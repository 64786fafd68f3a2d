-- ===== src/Tracker/Lookup.antt =====
-- `ArcLifecycleTracker::get_track` of cpp/src/arc_severity.cpp: which track an identifier leads to.
use mathlib.Core.List.{Mem, Nodup, Nodup-append, map-append, mem-cons}
use mathlib.Core.Logic.Or
use pantograph_arc_vision.Common.{
  ℕ, ◌==◌, ◌≡◌, refl, sym, subst, ap, ap₂, ◌∙◌, inl, inr, true, none, some, List, [], ◌∷◌, ◌++◌,
  map, append_assoc, append-nil, arith, Bool-cases,
}
use pantograph_arc_vision.Severity.{Track}
use pantograph_arc_vision.Tracker.{Tracker, find_track, get_track}
use pantograph_arc_vision.Tracker.Ids.{ids, IsTracked}

module _ {ℓ} {D : Type ℓ} where
  abbrev pub all_tracks : Tracker D → List (Track D)
  all_tracks k = k.active_tracks ++ k.completed_tracks

  -- `get_track` leads from the identifier of each track to this track, and from the next identifier to none.
  abbrev pub FindsAll : Tracker D → Type ℓ
  FindsAll k =
      (map (λ t. get_track k t.track_id) (all_tracks k) ≡ map some (all_tracks k))
      × (get_track k k.next_track_id ≡ none)

  find_skip :
      (id : ℕ) (xs ts : List (Track D))
      → (Mem id (ids xs) → ⊥)
      → find_track id (xs ++ ts) ≡ find_track id ts
  unfolding find_track
  find_skip id [] ts absent = refl
  find_skip id (x ∷ xs) ts absent = elim (Bool-cases (x.track_id == id)) [
    | inl here ↦ absurd (absent (mem-cons.1 (Or.inl (ground (arith, here)))))
    | inr other ↦ rw other (find_skip id xs ts (λ m. absent (mem-cons.1 (Or.inr m))))
  ]

  find_here : (t : Track D) (ts : List (Track D)) → find_track t.track_id (t ∷ ts) ≡ some t
  unfolding find_track
  find_here t ts = let same : (t.track_id == t.track_id) ≡ true = ground arith in rw same refl

  -- The tracks `ts` after the tracks `xs`.
  find_all :
      (xs ts : List (Track D))
      → Nodup (ids (xs ++ ts))
      → map (λ t. find_track t.track_id (xs ++ ts)) ts ≡ map some ts
  find_all xs [] distinct = refl
  find_all xs (t ∷ ts) distinct =
      let shift : (xs ++ (t ∷ [])) ++ ts ≡ xs ++ (t ∷ ts) = append_assoc xs (t ∷ []) ts in
      let (_, _, apart) =
        Nodup-append.0
          (subst Nodup (map-append (λ (x : Track D). x.track_id) xs (t ∷ ts)) distinct) in
      ap₂ ◌∷◌
        (find_skip t.track_id xs (t ∷ ts) (λ m. apart t.track_id m (mem-cons.1 (Or.inl refl)))
          ∙ find_here t ts)
        (subst (λ zs. map (λ x. find_track x.track_id zs) ts ≡ map some ts) shift
          (find_all (xs ++ (t ∷ [])) ts (subst (λ zs. Nodup (ids zs)) (sym shift) distinct)))

  -- `get_track`, over any two lists.
  find_track-append :
      (id : ℕ) (xs ys : List (Track D))
      → (elim (find_track id xs) [ none ↦ find_track id ys | some t ↦ some t ])
        ≡ find_track id (xs ++ ys)
  unfolding find_track
  find_track-append id [] ys = refl
  find_track-append id (x ∷ xs) ys = elim (Bool-cases (x.track_id == id)) [
    | inl here ↦ rw here refl
    | inr other ↦ rw other (find_track-append id xs ys)
  ]

  get_track_lem : (k : Tracker D) (id : ℕ) → get_track k id ≡ find_track id (all_tracks k)
  unfolding get_track
  get_track_lem k id = find_track-append id k.active_tracks k.completed_tracks

  pub IsTracked-FindsAll : (k : Tracker D) → IsTracked k → FindsAll k
  unfolding find_track
  IsTracked-FindsAll k v =
      let same = map-append (λ (x : Track D). x.track_id) k.active_tracks k.completed_tracks in
      let fresh =
        find_skip k.next_track_id (all_tracks k) []
          (λ m. omega (arith, v.below k.next_track_id (subst (Mem k.next_track_id) same m))) in
      (
        ap (λ f. map f (all_tracks k)) (λ i t. get_track_lem k t.track_id i)
            ∙ find_all [] (all_tracks k) (subst Nodup (sym same) v.distinct),
        get_track_lem k k.next_track_id
            ∙ ap (find_track k.next_track_id) (sym (append-nil (all_tracks k)))
            ∙ fresh,
      )
