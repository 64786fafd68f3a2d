-- ===== src/Nms/Selection.antt =====
-- What non-maximum suppression selects from a list in its order.
use mathlib.Core.List.{Memᴰ, Sublist}
use mathlib.Core.List.Sublist
use pantograph_arc_vision.Common.{
  ◌≡◌, refl, sym, subst, ◌⊎◌, inl, inr, Bool, true, false, List, [], ◌∷◌, ◌++◌, append_assoc, arith,
  All, Bool-cases,
}
use pantograph_arc_vision.Nms.{nms_sorted}
use pantograph_arc_vision.Nms.Greedy.{
  hit_by, greedy, greedy_skip, greedy_keep, hit_by_left, hit_by-append, nms_sorted-greedy,
}

module _ {ℓ} {E : Type ℓ} (test : E → E → Bool) where
  -- No item suppresses a later one.
  abbrev pub Apart : List E → Type 0
  Apart [] = Unit
  Apart (a ∷ as') = All (λ b. test a b ≡ false) as' × Apart as'

  abbrev FreeOf : List E → List E → Type 0
  FreeOf kept = All (λ b. hit_by test kept b ≡ false)

  free_split :
      (kept : List E) (a : E) (bs : List E)
      → FreeOf (kept ++ (a ∷ [])) bs
      → FreeOf kept bs × All (λ b. test a b ≡ false) bs
  free_split kept a [] h = (tt, tt)
  free_split kept a (b ∷ bs) (h, hs) =
      let (l, r) = free_split kept a bs hs in
      (
        (ground (arith, hit_by-append test kept a b), l),
        (ground (arith, hit_by-append test kept a b), r),
      )

  greedy_apart :
      (kept bs : List E) → FreeOf kept (greedy test kept bs) × Apart (greedy test kept bs)
  unfolding greedy
  greedy_apart kept [] = (tt, tt)
  greedy_apart kept (b ∷ bs) = elim (Bool-cases (hit_by test kept b)) [
    | inl hit ↦
        subst (λ r. FreeOf kept r × Apart r) (sym (greedy_skip test kept b bs hit))
          (greedy_apart kept bs)
    | inr free ↦
        let (apart_from, apart) = greedy_apart (kept ++ (b ∷ [])) bs in
        let (l, r) = free_split kept b _ apart_from in
        subst (λ r. FreeOf kept r × Apart r) (sym (greedy_keep test kept b bs free))
          ((free, l), (r, apart))
  ]

  -- Each item of the list is selected, or some selected one suppresses it.
  abbrev pub Covered : List E → List E → Type ℓ
  Covered selected = All (λ b. Memᴰ b selected ⊎ (hit_by test selected b ≡ true))

  abbrev CoveredBeside : List E → List E → List E → Type ℓ
  CoveredBeside kept selected =
      All (λ b. Memᴰ b selected ⊎ (hit_by test (kept ++ selected) b ≡ true))

  beside_shift :
      (kept : List E) (a : E) (selected bs : List E)
      → CoveredBeside (kept ++ (a ∷ [])) selected bs
      → CoveredBeside kept (a ∷ selected) bs
  beside_shift kept a selected [] h = tt
  beside_shift kept a selected (b ∷ bs) (inl m, hs) =
      (inl (Memᴰ.tail m), beside_shift kept a selected bs hs)
  beside_shift kept a selected (b ∷ bs) (inr h, hs) =
      (inr (rw (append_assoc kept (a ∷ []) selected) at h), beside_shift kept a selected bs hs)

  greedy_covered : (kept bs : List E) → CoveredBeside kept (greedy test kept bs) bs
  unfolding greedy
  greedy_covered kept [] = tt
  greedy_covered kept (b ∷ bs) = elim (Bool-cases (hit_by test kept b)) [
    | inl hit ↦
        subst (λ r. CoveredBeside kept r (b ∷ bs)) (sym (greedy_skip test kept b bs hit))
          (inr (hit_by_left test kept _ b hit), greedy_covered kept bs)
    | inr free ↦
        subst (λ r. CoveredBeside kept r (b ∷ bs)) (sym (greedy_keep test kept b bs free))
          (inl (Memᴰ.head refl), beside_shift kept b _ bs (greedy_covered (kept ++ (b ∷ [])) bs))
  ]

  greedy-sublist : (kept bs : List E) → Sublist (greedy test kept bs) bs
  unfolding greedy
  greedy-sublist kept [] = Sublist.refl []
  greedy-sublist kept (b ∷ bs) = elim (Bool-cases (hit_by test kept b)) [
    | inl hit ↦
        subst (λ r. Sublist r (b ∷ bs)) (sym (greedy_skip test kept b bs hit))
          (Sublist.cons b (greedy-sublist kept bs))
    | inr free ↦
        subst (λ r. Sublist r (b ∷ bs)) (sym (greedy_keep test kept b bs free))
          (Sublist.cons-cons b (greedy-sublist (kept ++ (b ∷ [])) bs))
  ]

  -- What the loops select.
  pub record IsSelection (items selected : List E) : Type ℓ where
    pub from_items : Sublist selected items
    pub apart : Apart selected
    pub covered : Covered selected items

  -- Whatever the test is, the loops select items in their order, none of which suppresses a later
  -- one, and every item of the list is selected or suppressed by a selected one.
  pub nms_sorted-IsSelection : (items : List E) → IsSelection items (nms_sorted test items)
  nms_sorted-IsSelection items = rw (nms_sorted-greedy test items) (record {
    from_items = greedy-sublist [] items;
    apart = (greedy_apart [] items).1;
    covered = greedy_covered [] items;
  })
