-- ===== src/Common/Floating.antt =====
-- The operations that the C++ code makes on a `float` or a `double`. The type is a parameter: its
-- arithmetic is that of the processor, and a theorem names the laws that it needs.
use pantograph_arc_vision.Common.Tests.{ltb, leb, if◌then◌else◌}
use pantograph_arc_vision.Common.Int.{ℤ, pos, pos_part}
use Prim.Native.Nat.{ℕ, ◌+◌, ◌-◌, ◌*◌, ◌/◌, ◌≤◌}
use mathlib.Core.Path.{◌≡◌}
use mathlib.Core.Bool.{Bool, true, false}
use native.Mathlib.Omega.{arith}

-- `from_int` and `to_int` are the conversions from and to the integer types.
pub record Floating {ℓ} (F : Type ℓ) : Type ℓ where
  pub add : F → F → F
  pub sub : F → F → F
  pub mul : F → F → F
  pub div : F → F → F
  pub lt : F → F → Bool
  pub le : F → F → Bool
  pub from_int : ℤ → F
  pub to_int : F → ℤ

module _ {ℓ} {F : Type ℓ} ⦃f : Floating F⦄ where
  infixl 65 ◌⊕◌ ◌⊖◌
  infixl 70 ◌⊗◌ ◌⊘◌
  infix 50 ◌≺◌ ◌≼◌
  abbrev pub ◌⊕◌ : F → F → F
  ◌⊕◌ = f.add

  abbrev pub ◌⊖◌ : F → F → F
  ◌⊖◌ = f.sub

  abbrev pub ◌⊗◌ : F → F → F
  ◌⊗◌ = f.mul

  abbrev pub ◌⊘◌ : F → F → F
  ◌⊘◌ = f.div

  -- The tests `x < y` and `x <= y`; `x > y` is `y ≺ x`, and `x >= y` is `y ≼ x`.
  abbrev pub ◌≺◌ : F → F → Bool
  ◌≺◌ = f.lt

  abbrev pub ◌≼◌ : F → F → Bool
  ◌≼◌ = f.le

  -- A literal with a whole value.
  abbrev pub whole : ℕ → F
  whole n = f.from_int (pos n)

  -- `std::max` and `std::min`.
  abbrev pub fmax : F → F → F
  fmax x y = if x ≺ y then y else x

  abbrev pub fmin : F → F → F
  fmin x y = if y ≺ x then y else x

-- The laws of the comparisons of IEEE 754, a NaN included.
pub record IsOrdered {ℓ} (F : Type ℓ) ⦃f : Floating F⦄ : Type ℓ where
  pub lt_trans : (x y z : F) → f.lt x y ≡ true → f.lt y z ≡ true → f.lt x z ≡ true
  pub lt_irrefl : (x : F) → f.lt x x ≡ false
  pub le_trans : (x y z : F) → f.le x y ≡ true → f.le y z ≡ true → f.le x z ≡ true
  pub le_of_lt : (x y : F) → f.lt x y ≡ true → f.le x y ≡ true
  pub lt_of_lt_of_le : (x y z : F) → f.lt x y ≡ true → f.le y z ≡ true → f.lt x z ≡ true

-- Two more, of the numbers: `x ≼ x` says that `x` is not a NaN.
pub record IsTotal {ℓ} (F : Type ℓ) ⦃f : Floating F⦄ : Type ℓ where
  pub le_of_not_lt :
      (x y : F) → f.le x x ≡ true → f.le y y ≡ true → f.lt x y ≡ false → f.le y x ≡ true
  pub whole_le : (m n : ℕ) → m ≤ n → f.le (whole m) (whole n) ≡ true

-- The laws can be met, and the code can be run: hundredths, never negative.
abbrev pub Hundredths : Type 0
Hundredths = ℕ

instance abbrev pub hundredths_floating : Floating Hundredths
hundredths_floating = record {
  add = ◌+◌;
  sub = ◌-◌;
  mul = λ a b. a * b / 100;
  div = λ a b. a * 100 / b;
  lt = ltb;
  le = leb;
  from_int = λ z. pos_part z * 100;
  to_int = λ a. pos (a / 100);
}

pub Hundredths-IsOrdered : IsOrdered Hundredths
Hundredths-IsOrdered = record {
  lt_trans = λ x y z p q. ground arith;
  lt_irrefl = λ x. ground arith;
  le_trans = λ x y z p q. ground arith;
  le_of_lt = λ x y p. ground arith;
  lt_of_lt_of_le = λ x y z p q. ground arith;
}

pub Hundredths-IsTotal : IsTotal Hundredths
Hundredths-IsTotal = record {
  le_of_not_lt = λ x y p q r. ground arith;
  whole_le = λ m n h. ground arith;
}
