-- ===== src/Common/Dict.antt =====
-- A map from the integers, as a list of its entries, under the names of the C++ containers.
use pantograph_arc_vision.Common.Tests.{◌==◌, if◌then◌else◌, Bool-cases}
use pantograph_arc_vision.Common.Int.{ℤ, pos, negsuc}
use mathlib.Core.Path.{◌≡◌, refl, subst, ap}
use mathlib.Core.Logic.{◌⊎◌, inl, inr}
use mathlib.Core.Bool.{Bool, true, false}
use mathlib.Core.Option.{Option, none, some}
use mathlib.Core.List.{List, [], ◌∷◌}
use native.Mathlib.Omega.{arith}

unfoldable pub eq_ℤ : ℤ → ℤ → Bool
eq_ℤ (pos a) (pos b) = a == b
eq_ℤ (negsuc a) (negsuc b) = a == b
eq_ℤ (pos a) (negsuc b) = false
eq_ℤ (negsuc a) (pos b) = false

eq_ℤ-refl : (a : ℤ) → eq_ℤ a a ≡ true
unfolding eq_ℤ
eq_ℤ-refl (pos a) = ground arith
eq_ℤ-refl (negsuc a) = ground arith

pub eq_ℤ_sound : (a b : ℤ) → eq_ℤ a b ≡ true → a ≡ b
unfolding eq_ℤ
eq_ℤ_sound (pos a) (pos b) e = ap pos (ground arith)
eq_ℤ_sound (negsuc a) (negsuc b) e = ap negsuc (ground arith)
eq_ℤ_sound (pos a) (negsuc b) e = absurd (ground arith)
eq_ℤ_sound (negsuc a) (pos b) e = absurd (ground arith)

pub eq_ℤ_comm : (a b : ℤ) → eq_ℤ a b ≡ eq_ℤ b a
unfolding eq_ℤ
eq_ℤ_comm (pos a) (pos b) = ground arith
eq_ℤ_comm (negsuc a) (negsuc b) = ground arith
eq_ℤ_comm (pos a) (negsuc b) = refl
eq_ℤ_comm (negsuc a) (pos b) = refl

pub eq_ℤ-cases : (a b : ℤ) → ((eq_ℤ a b ≡ true) × (a ≡ b)) ⊎ (eq_ℤ a b ≡ false)
eq_ℤ-cases a b = elim (Bool-cases (eq_ℤ a b)) [ inl e ↦ inl (e, eq_ℤ_sound a b e) | inr e ↦ inr e ]

module _ {ℓ} {A : Type ℓ} where
  unfoldable pub find : ℤ → List (ℤ × A) → Option A
  find k [] = none
  find k ((j, v) ∷ xs) = if eq_ℤ k j then some v else find k xs

  unfoldable pub erase : ℤ → List (ℤ × A) → List (ℤ × A)
  erase k [] = []
  erase k ((j, v) ∷ xs) = if eq_ℤ k j then erase k xs else ((j, v) ∷ erase k xs)

  -- `map[k] = v`.
  unfoldable pub insert : ℤ → A → List (ℤ × A) → List (ℤ × A)
  insert k v xs = (k, v) ∷ erase k xs

  pub find-erase : (k : ℤ) (xs : List (ℤ × A)) → find k (erase k xs) ≡ none
  unfolding find erase
  find-erase k [] = refl
  find-erase k ((j, v) ∷ xs) = elim (Bool-cases (eq_ℤ k j)) [
    | inl e ↦ rw e (find-erase k xs)
    | inr e ↦ rw (e, e) (find-erase k xs)
  ]

  pub find-erase_other :
      (k i : ℤ) (xs : List (ℤ × A)) → eq_ℤ i k ≡ false → find i (erase k xs) ≡ find i xs
  unfolding find erase
  find-erase_other k i [] h = refl
  find-erase_other k i ((j, v) ∷ xs) h = elim (eq_ℤ-cases k j) [
    | inl (e, same) ↦
        let apart : eq_ℤ i j ≡ false = subst (λ z. eq_ℤ i z ≡ false) same h in
        rw (e, apart) (find-erase_other k i xs h)
    | inr e ↦ rw e (ap (λ r. if eq_ℤ i j then some v else r) (find-erase_other k i xs h))
  ]

  pub find-insert : (k : ℤ) (v : A) (xs : List (ℤ × A)) → find k (insert k v xs) ≡ some v
  unfolding find insert
  find-insert k v xs = rw (eq_ℤ-refl k) refl

  pub find-insert_other :
      (k i : ℤ) (v : A) (xs : List (ℤ × A)) → eq_ℤ i k ≡ false → find i (insert k v xs) ≡ find i xs
  unfolding find insert
  find-insert_other k i v xs h = rw h (find-erase_other k i xs h)
