-- ===== src/Nms.antt =====
-- Non-maximum suppression: `ArcDetector::nms` of cpp/src/arc_detector.cpp and the second half of
-- `TRTEngine::postprocess` of cpp/src/trt_engine.cpp, which are the same code over two structs.
-- `F` is the type `float`; a box of either struct is `Rect F`.
pub mod Greedy
pub mod Selection
mod Tests
use pantograph_arc_vision.Common.{Bool, true, false, ◌&&◌, ◌||◌, List, [], ◌∷◌, if◌then◌else◌, map}
use pantograph_arc_vision.Common.Floating.{Floating, ◌⊕◌, ◌⊖◌, ◌⊗◌, ◌⊘◌, ◌≺◌, whole, fmax, fmin}

pub record Rect {ℓ} (F : Type ℓ) : Type ℓ where
  pub x1 : F
  pub y1 : F
  pub x2 : F
  pub y2 : F

module _ {ℓ} {F : Type ℓ} ⦃f : Floating F⦄ where
  -- `union_area > 0 && inter / union_area > thresh`.
  unfoldable pub overlaps : F → Rect F → Rect F → Bool
  overlaps thresh a b =
      let iw = fmax (whole 0) (fmin a.x2 b.x2 ⊖ fmax a.x1 b.x1) in
      let ih = fmax (whole 0) (fmin a.y2 b.y2 ⊖ fmax a.y1 b.y1) in
      let inter = iw ⊗ ih in
      let area_a = (a.x2 ⊖ a.x1) ⊗ (a.y2 ⊖ a.y1) in
      let area_b = (b.x2 ⊖ b.x1) ⊗ (b.y2 ⊖ b.y1) in
      let union_area = area_a ⊕ area_b ⊖ inter in
      whole 0 ≺ union_area && thresh ≺ inter ⊘ union_area

-- The loops, over items of either struct. `test a b` is whether `a` suppresses `b`. The list of
-- flags stands for `suppressed`; it is as long as the list of items.
module _ {ℓ} {E : Type ℓ} where
  -- The inner loop, over the items behind `a`.
  unfoldable pub suppress_by : (E → E → Bool) → E → List E → List Bool → List Bool
  suppress_by test a [] flags = []
  suppress_by test a (b ∷ bs) [] = []
  suppress_by test a (b ∷ bs) (s ∷ flags) =
      (if s then s else (if test a b then true else s)) ∷ suppress_by test a bs flags

  -- The outer loop: the flags of the item and of those behind it when it ends.
  unfoldable pub suppress : (E → E → Bool) → List E → List Bool → List Bool
  suppress test [] flags = []
  suppress test (a ∷ as') [] = []
  suppress test (a ∷ as') (s ∷ flags) =
      s ∷ suppress test as' (if s then flags else suppress_by test a as' flags)

  -- The items that are not suppressed.
  unfoldable pub select : List E → List Bool → List E
  select [] flags = []
  select (a ∷ as') [] = []
  select (a ∷ as') (s ∷ flags) = if s then select as' flags else a ∷ select as' flags

  -- `std::vector<bool> suppressed(items.size(), false)`.
  unfoldable pub no_flags : List E → List Bool
  no_flags [] = []
  no_flags (a ∷ as') = false ∷ no_flags as'

  unfoldable pub nms_sorted : (E → E → Bool) → List E → List E
  nms_sorted test items = select items (suppress test items (no_flags items))
