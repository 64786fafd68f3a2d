-- ===== src/Tracker/Match.antt =====
-- Which detection a track of `ArcLifecycleTracker::update` takes.
use pantograph_arc_vision.Common.{
  ℕ, suc, ◌+◌, ◌≡◌, refl, sym, subst, ◌∙◌, ap, ◌⊎◌, inl, inr, Bool, true, false, not, ◌&&◌, Option,
  none, some, List, [], ◌∷◌, arith, get_elem?, All, Bool-cases,
}
use pantograph_arc_vision.Common.Floating.{Floating, ◌≺◌, ◌≼◌, whole, IsOrdered}
use pantograph_arc_vision.Severity.{Track}
use pantograph_arc_vision.Tracker.{Candidate, compute_iou, best_match, settle, find_match}

module _ {ℓ} {D : Type ℓ} ⦃d : Floating D⦄ where
  -- Detection `j` of the list is free, and overlaps the track by `iou`.
  pub record IsFree (t : Track D) (cs : List (Candidate D)) (j : ℕ) (c : Candidate D) (iou : D)
      : Type ℓ where
    pub there : get_elem? cs j ≡ some c
    pub unmatched : c.matched ≡ false
    pub overlap : iou ≡ compute_iou t c.box

  -- What the inner loop ends with: its start values, or a free detection.
  abbrev Found : Track D → List (Candidate D) → ℕ → D → Option ℕ → D × Option ℕ → Type ℓ
  Found t cs i b o r =
      (r ≡ (b, o)) ⊎ ((j : ℕ) × (c : Candidate D) × (r.1 ≡ some (i + j)) × IsFree t cs j c r.0)

  Found_later :
      (t : Track D) (x : Candidate D) (cs : List (Candidate D)) (i : ℕ) (b : D) (o : Option ℕ)
      (r : D × Option ℕ)
      → Found t cs (i + 1) b o r
      → Found t (x ∷ cs) i b o r
  Found_later t x cs i b o r (inl e) = inl e
  Found_later t x cs i b o r (inr (j, c, e, f)) =
      let shift : i + 1 + j ≡ i + suc j = omega arith in
      inr (
        suc j,
        c,
        e ∙ ap some shift,
        record { there = f.there; unmatched = f.unmatched; overlap = f.overlap },
      )

  -- The test of the inner loop.
  abbrev is_better : Track D → Candidate D → D → Bool
  is_better t c b = not c.matched && b ≺ compute_iou t c.box

  Found_here :
      (t : Track D) (x : Candidate D) (cs : List (Candidate D)) (i : ℕ) (b : D) (o : Option ℕ)
      (r : D × Option ℕ)
      → is_better t x b ≡ true
      → Found t cs (i + 1) (compute_iou t x.box) (some i) r
      → Found t (x ∷ cs) i b o r
  Found_here t x cs i b o r better (inl e) =
      let start : i ≡ i + 0 = omega arith in
      inr (
        0,
        x,
        ap (λ (p : D × Option ℕ). p.1) e ∙ ap some start,
        record {
          there = refl;
          unmatched = ground arith;
          overlap = ap (λ (p : D × Option ℕ). p.0) e;
        },
      )
  Found_here t x cs i b o r better (inr later) = Found_later t x cs i b o r (inr later)

  best_match_better :
      (t : Track D) (c : Candidate D) (cs : List (Candidate D)) (i : ℕ) (b : D) (o : Option ℕ)
      → is_better t c b ≡ true
      → best_match t (c ∷ cs) i b o ≡ best_match t cs (i + 1) (compute_iou t c.box) (some i)
  unfolding best_match
  best_match_better t c cs i b o h = rw h

  best_match_worse :
      (t : Track D) (c : Candidate D) (cs : List (Candidate D)) (i : ℕ) (b : D) (o : Option ℕ)
      → is_better t c b ≡ false
      → best_match t (c ∷ cs) i b o ≡ best_match t cs (i + 1) b o
  unfolding best_match
  best_match_worse t c cs i b o h = rw h

  best_match_nil : (t : Track D) (i : ℕ) (b : D) (o : Option ℕ) → best_match t [] i b o ≡ (b, o)
  unfolding best_match
  best_match_nil t i b o = refl

  best_match-Found :
      (t : Track D) (cs : List (Candidate D)) (i : ℕ) (b : D) (o : Option ℕ)
      → Found t cs i b o (best_match t cs i b o)
  best_match-Found t [] i b o = inl (best_match_nil t i b o)
  best_match-Found t (c ∷ cs) i b o = elim (Bool-cases (is_better t c b)) [
    | inl better ↦ rw (best_match_better t c cs i b o better) (
        Found_here t c cs i b o _ better
          (best_match-Found t cs (i + 1) (compute_iou t c.box) (some i)))
    | inr worse ↦
        rw (best_match_worse t c cs i b o worse)
          (Found_later t c cs i b o _ (best_match-Found t cs (i + 1) b o))
  ]

  -- No free detection of the list overlaps the track by more than `best`.
  abbrev pub IsBest : Track D → List (Candidate D) → D → Type 0
  IsBest t cs best = All (λ c. c.matched ≡ false → (best ≺ compute_iou t c.box) ≡ false) cs

  -- What the loop ends with is not below what it starts with.
  abbrev NotBelow : D → D → Type ℓ
  NotBelow b best = (x : D) → (best ≺ x) ≡ true → (b ≺ x) ≡ true

  best_match-IsBest :
      IsOrdered D
      → (t : Track D) (cs : List (Candidate D)) (i : ℕ) (b : D) (o : Option ℕ)
      → let best = (best_match t cs i b o).0 in NotBelow b best × IsBest t cs best
  best_match-IsBest ord t [] i b o = rw (best_match_nil t i b o) ((λ x h. h), tt)
  best_match-IsBest ord t (c ∷ cs) i b o = elim (Bool-cases (is_better t c b)) [
    | inl better ↦
        let iou = compute_iou t c.box in
        let (above, rest) = best_match-IsBest ord t cs (i + 1) iou (some i) in
        let over : (b ≺ iou) ≡ true = ground arith in
        subst Best (sym (best_match_better t c cs i b o better)) (
          (λ x h. ord.lt_trans _ _ _ over (above x h)),
          ((λ free. ground (arith, above iou, ord.lt_irrefl iou)), rest),
        )
    | inr worse ↦
        let (above, rest) = best_match-IsBest ord t cs (i + 1) b o in
        subst Best (sym (best_match_worse t c cs i b o worse))
          (above, ((λ free. ground (arith, above (compute_iou t c.box))), rest))
  ]
    where
      Best : D × Option ℕ → Type ℓ
      Best r = NotBelow b r.0 × IsBest t (c ∷ cs) r.0

  settle-eq-some :
      (threshold : D) (cs : List (Candidate D)) (r : D × Option ℕ) {i : ℕ} {c : Candidate D}
      → settle threshold cs r ≡ some (i, c)
      → (r.1 ≡ some i) × (get_elem? cs i ≡ some c) × ((threshold ≼ r.0) ≡ true)
  unfolding settle
  settle-eq-some threshold cs (iou, none) e = cc
  settle-eq-some threshold cs (iou, some k) e = ground arith

  pub find_match-IsFree :
      (threshold : D) (t : Track D) (cs : List (Candidate D)) {i : ℕ} {c : Candidate D}
      → find_match threshold t cs ≡ some (i, c)
      → let best = (best_match t cs 0 (whole 0) none).0 in
        IsFree t cs i c best × ((threshold ≼ best) ≡ true)
  unfolding find_match
  find_match-IsFree threshold t cs {i} {c} e =
      let (at, there, enough) = settle-eq-some threshold cs found e in
      elim (best_match-Found t cs 0 (whole 0) none) [
        | inl missed ↦ absurd (ground (arith, at, missed))
        | inr (j, x, at_j, f) ↦
            let same_index : j ≡ i = ground (arith, at, at_j) in
            let same : x ≡ c = ground (arith, there, f.there, same_index) in
            (rw (← same, ← same_index) f, enough)
      ]
    where
      found : D × Option ℕ
      found = best_match t cs 0 (whole 0) none

  -- Detection `i` is free, overlaps the track by the threshold at least, and no free detection
  -- overlaps it by more.
  pub record IsMatch (threshold : D) (t : Track D) (cs : List (Candidate D)) (i : ℕ)
      (c : Candidate D) : Type ℓ where
    pub there : get_elem? cs i ≡ some c
    pub unmatched : c.matched ≡ false
    pub enough : (threshold ≼ compute_iou t c.box) ≡ true
    pub best : IsBest t cs (compute_iou t c.box)

  -- When comparison is an order, a detection that a track takes is a free one, overlaps the track by
  -- the threshold at least, and no free detection overlaps it by more.
  pub find_match-IsMatch :
      (threshold : D) (t : Track D) (cs : List (Candidate D)) {i : ℕ} {c : Candidate D}
      → IsOrdered D
      → find_match threshold t cs ≡ some (i, c)
      → IsMatch threshold t cs i c
  find_match-IsMatch threshold t cs ord e =
      let (f, enough) = find_match-IsFree threshold t cs e in
      record {
        there = f.there;
        unmatched = f.unmatched;
        enough = rw (← f.overlap) enough;
        best = subst (IsBest t cs) f.overlap ((best_match-IsBest ord t cs 0 (whole 0) none).1);
      }
