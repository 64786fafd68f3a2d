-- ===== src/Trt/Sort.antt =====
-- Sorting by insertion, which stands for `std::sort` of cpp/src/trt_engine.cpp in the runs.
use mathlib.Core.List.{Perm, Mem, Pairwise, mem-cons, not-mem-nil}
use mathlib.Core.List.Perm
use mathlib.Core.Logic.Or
use pantograph_arc_vision.Common.{
  ◌≡◌, refl, sym, subst, inl, inr, arith, true, false, List, [], ◌∷◌, Bool-cases,
}
use pantograph_arc_vision.Common.Floating.{Hundredths, hundredths_floating, ◌≺◌}
use pantograph_arc_vision.Trt.{Detection}
use pantograph_arc_vision.Trt.Postprocess.{IsSort}

-- `std::sort` of a short range: insertion.
abbrev pub Found : Type 0
Found = Detection Hundredths

unfoldable pub insert_sorted : Found → List Found → List Found
insert_sorted d [] = d ∷ []
insert_sorted d (x ∷ xs) =
    let rest = insert_sorted d xs in
    elim (d.confidence ≺ x.confidence) [ true ↦ x ∷ rest | false ↦ d ∷ x ∷ xs ]

unfoldable pub sort : List Found → List Found
sort [] = []
sort (x ∷ xs) = insert_sorted x (sort xs)

insert_sorted_before :
    (d x : Found) (xs : List Found)
    → (d.confidence ≺ x.confidence) ≡ false
    → insert_sorted d (x ∷ xs) ≡ d ∷ x ∷ xs
unfolding insert_sorted
insert_sorted_before d x xs h = rw (insert_sorted, h) refl

insert_sorted_after :
    (d x : Found) (xs : List Found)
    → (d.confidence ≺ x.confidence) ≡ true
    → insert_sorted d (x ∷ xs) ≡ x ∷ insert_sorted d xs
unfolding insert_sorted
insert_sorted_after d x xs h = rw (insert_sorted, h) refl

insert_sorted-perm : (d : Found) (xs : List Found) → Perm (insert_sorted d xs) (d ∷ xs)
unfolding insert_sorted
insert_sorted-perm d [] = Perm.refl _
insert_sorted-perm d (x ∷ xs) = elim (Bool-cases (d.confidence ≺ x.confidence)) [
  | inl less ↦
      subst (λ l. Perm l (d ∷ x ∷ xs)) (sym (insert_sorted_after d x xs less))
        (Perm.trans (Perm.cons x (insert_sorted-perm d xs)) (Perm.swap d x xs))
  | inr more ↦
      subst (λ l. Perm l (d ∷ x ∷ xs)) (sym (insert_sorted_before d x xs more)) (Perm.refl _)
]

sort-perm : (xs : List Found) → Perm (sort xs) xs
unfolding sort
sort-perm [] = Perm.refl []
sort-perm (x ∷ xs) = Perm.trans (insert_sorted-perm x (sort xs)) (Perm.cons x (sort-perm xs))

abbrev Ranked : List Found → Type 0
Ranked = Pairwise (λ a b. (a.confidence ≺ b.confidence) ≡ false)

abbrev Above : Found → List Found → Type 0
Above x xs = (b : Found) → Mem b xs → (x.confidence ≺ b.confidence) ≡ false

Above-cons :
    (x d : Found) (xs : List Found)
    → (x.confidence ≺ d.confidence) ≡ false
    → Above x xs
    → Above x (d ∷ xs)
Above-cons x d xs here rest b m =
    Or.elim (hlevel) (mem-cons.0 m)
      (λ same. subst (λ (z : Found). (x.confidence ≺ z.confidence) ≡ false) (sym same) here)
      (rest b)

Above-lower :
    (d x : Found) (xs : List Found)
    → (d.confidence ≺ x.confidence) ≡ false
    → Above x xs
    → Above d xs
Above-lower d x xs more top b m = ground (arith, more, top b m)

insert-Ranked : (d : Found) (xs : List Found) → Ranked xs → Ranked (insert_sorted d xs)
unfolding insert_sorted
insert-Ranked d [] r = Pairwise.cons (λ b m. absurd (not-mem-nil m)) Pairwise.nil
insert-Ranked d (x ∷ xs) (Pairwise.cons top r) = elim (Bool-cases (d.confidence ≺ x.confidence)) [
  | inl less ↦ subst Ranked (sym (insert_sorted_after d x xs less)) (
      Pairwise.cons
        (λ b m.
          Above-cons x d xs (ground (arith, less)) top b
            (Perm.subset (insert_sorted-perm d xs) b m))
        (insert-Ranked d xs r))
  | inr more ↦
      subst Ranked (sym (insert_sorted_before d x xs more))
        (Pairwise.cons (Above-cons d x xs more (Above-lower d x xs more top)) (Pairwise.cons top r))
]

sort-Ranked : (xs : List Found) → Ranked (sort xs)
unfolding sort
sort-Ranked [] = Pairwise.nil
sort-Ranked (x ∷ xs) = insert-Ranked x (sort xs) (sort-Ranked xs)

pub sort-IsSort : IsSort sort
sort-IsSort = record { permutes = sort-perm; ranks = sort-Ranked }
