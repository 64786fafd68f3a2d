-- ===== src/Energy/Bounds.antt =====
-- Which pixels `compute_instant_energy_gpu` of cpp/src/arc_severity.cpp reads.
use native.Mathlib.Nat.{mul-le-mul}
use pantograph_arc_vision.Common.{
  ℕ, zero, suc, ◌+◌, ◌-◌, ◌*◌, ◌^◌, ◌∷◌, ◌≤◌, ◌<◌, ◌≡◌, refl, subst, ap, ◌∙◌, true, min, get_elem?,
  ◌⊎◌, inl, inr, ◌||◌, some, List, [], ◌++◌, arith, length, take, drop, Bool-cases, length-append,
  length-take, length-drop,
}
use pantograph_arc_vision.Common.Int.{pos, pos_part, leb_ℤ}
use pantograph_arc_vision.Common.Floating.{Floating, ◌⊗◌, ◌⊘◌, whole}
use pantograph_arc_vision.Energy.Channel.{get_elem?-drop}
use pantograph_arc_vision.Severity.{Box}
use pantograph_arc_vision.Energy.{
  fits_int, read_row, read_region, min_int, luminance, energy_of, compute_instant_energy_gpu,
}

pub row_within :
    (width height x n y : ℕ) → x + n ≤ width → y < height → y * width + x + n ≤ height * width
row_within width height x n y cols rows =
    let below : (y + 1) * width ≤ height * width =
      mul-le-mul {n₂ = height} {m₂ = width} (omega (arith, rows)) (omega arith) in
    let split : (y + 1) * width ≡ y * width + width = grind arith in
    omega (arith, below, split, cols)

pub read_row_within :
    (image : List ℕ) (start n : ℕ)
    → start + n ≤ length image
    → start < 2 ^ 31
    → read_row image start n ≡ some (take n (drop start image))
unfolding read_row
read_row_within image start n h small = ground arith

pub read_region_step :
    (image : List ℕ) (width x n y rows : ℕ) {row rest : List ℕ}
    → read_row image (y * width + x) n ≡ some row
    → read_region image width x n (y + 1) rows ≡ some rest
    → read_region image width x n y (suc rows) ≡ some (row ++ rest)
unfolding read_region
read_region_step image width x n y rows e e' = rw (read_region, e, e') refl

length-pixels :
    (image rest : List ℕ) (start n rows : ℕ)
    → start + n ≤ length image
    → length rest ≡ rows * n
    → length (take n (drop start image) ++ rest) ≡ suc rows * n
length-pixels image rest start n rows fits k =
    let more : suc rows * n ≡ n + rows * n = grind arith in
    omega (
      arith,
      fits,
      k,
      more,
      length-append (take n (drop start image)) rest,
      length-take n (drop start image),
      length-drop start image,
    )

-- The samples of a region of `n` columns and `rows` rows, row by row: pixel (`c`, `r`) of the region is the
-- image's at `x + c` and `y + r`.
pub record IsRegion (image : List ℕ) (width x n y rows : ℕ) (pixels : List ℕ) : Type 0 where
  pub count : length pixels ≡ rows * n
  pub sample :
      (r c : ℕ)
      → r < rows
      → c < n
      → get_elem? pixels (r * n + c) ≡ get_elem? image ((y + r) * width + (x + c))

get_elem?-left : (xs ys : List ℕ) (i : ℕ) → i < length xs → get_elem? (xs ++ ys) i ≡ get_elem? xs i
get_elem?-left [] ys i h = absurd (omega arith)
get_elem?-left (x ∷ xs) ys zero h = refl
get_elem?-left (x ∷ xs) ys (suc i) h = get_elem?-left xs ys i (omega arith)

get_elem?-right :
    (xs ys : List ℕ) (i j : ℕ) → i ≡ length xs + j → get_elem? (xs ++ ys) i ≡ get_elem? ys j
get_elem?-right [] ys i j e = ap (get_elem? ys) (omega arith)
get_elem?-right (x ∷ xs) ys zero j e = absurd (omega arith)
get_elem?-right (x ∷ xs) ys (suc i) j e = get_elem?-right xs ys i j (omega arith)

get_elem?-take : (n : ℕ) (xs : List ℕ) (i : ℕ) → i < n → get_elem? (take n xs) i ≡ get_elem? xs i
get_elem?-take zero xs i h = absurd (omega arith)
get_elem?-take (suc n) [] i h = refl
get_elem?-take (suc n) (x ∷ xs) zero h = refl
get_elem?-take (suc n) (x ∷ xs) (suc i) h = get_elem?-take n xs i (omega arith)

row-cases : (r : ℕ) → (r ≡ 0) ⊎ ((r' : ℕ) × (r ≡ r' + 1))
row-cases zero = inl refl
row-cases (suc r) = inr (r, omega arith)

-- One row more above a region.
IsRegion-cons :
    (image rest : List ℕ) (width x n y rows : ℕ)
    → y * width + x + n ≤ length image
    → IsRegion image width x n (y + 1) rows rest
    → IsRegion image width x n y (suc rows) (take n (drop (y * width + x) image) ++ rest)
IsRegion-cons image rest width x n y rows fits below = record {
  count = length-pixels image rest (y * width + x) n rows fits below.count;
  sample = λ r c lo hi.
      let start = y * width + x in
      let row = take n (drop start image) in
      let size : length row ≡ n =
        omega (arith, fits, length-take n (drop start image), length-drop start image) in
      elim (row-cases r) [
        | inl first ↦
            let here : r * n + c ≡ c = grind arith in
            let there : start + c ≡ (y + r) * width + (x + c) = grind arith in
            ap (get_elem? (row ++ rest)) here
            ∙ get_elem?-left row rest c (omega (arith, size, hi))
            ∙ get_elem?-take n (drop start image) c hi
            ∙ get_elem?-drop start c image
            ∙ ap (get_elem? image) there
        | inr (r', next) ↦
            let split : (r' + 1) * n ≡ r' * n + n = grind arith in
            let same : r * n ≡ (r' + 1) * n = ap (λ z. z * n) next in
            let here : r * n + c ≡ length row + (r' * n + c) = omega (arith, size, split, same) in
            let there : y + 1 + r' ≡ y + r = omega (arith, next) in
            get_elem?-right row rest (r * n + c) (r' * n + c) here
            ∙ below.sample r' c (omega (arith, next, lo)) hi
            ∙ ap (λ z. get_elem? image (z * width + (x + c))) there
      ];
}

-- A region within the image is read without leaving it, pixel by pixel.
read_region_total :
    (image : List ℕ) (width height x n y rows : ℕ)
    → length image ≡ height * width
    → height * width < 2 ^ 31
    → x + n ≤ width
    → y + rows ≤ height
    → (pixels : List ℕ) × (read_region image width x n y rows ≡ some pixels)
      × IsRegion image width x n y rows pixels
unfolding read_region
read_region_total image width height x n y zero size small cols h =
    ([], refl, record { count = omega arith; sample = λ r c lo hi. absurd (omega (arith, lo)) })
read_region_total image width height x n y (suc rows) size small cols h =
    let fits : y * width + x + n ≤ length image =
      omega (arith, size, row_within width height x n y cols (omega (arith, h))) in
    let (rest, e, k) =
      read_region_total image width height x n (y + 1) rows size small cols (omega (arith, h)) in
    (
      take n (drop (y * width + x) image) ++ rest,
      read_region_step image width x n y rows
          (read_row_within image (y * width + x) n fits (omega (arith, fits, size, small))) e,
      IsRegion-cons image rest width x n y rows fits k,
    )

pub area-le : (n width rows height : ℕ) → n ≤ width → rows ≤ height → n * rows ≤ height * width
area-le n width rows height cols h =
    let swapped : n * rows ≡ rows * n = grind arith in
    let below : rows * n ≤ height * width = mul-le-mul {n₂ = height} {m₂ = width} h cols in
    omega (arith, swapped, below)

module _ {ℓ} {D : Type ℓ} ⦃d : Floating D⦄ where
  -- The area, times the square of the mean luminance as a share of 255.
  abbrev pub energy_formula : (area : ℕ) → List ℕ → D
  energy_formula area pixels =
      let share = luminance (whole 0) pixels ⊘ whole area ⊘ whole 255 in whole area ⊗ share ⊗ share

  energy_of_lem :
      (n rows : ℕ) (pixels : List ℕ)
      → energy_of {D = D} n rows pixels ≡ energy_formula (n * rows) pixels
  unfolding energy_of
  energy_of_lem n rows pixels = refl

  -- The part of an axis that a box has in the image, from `lo` on and below `hi`.
  abbrev pub axis_lo : D → ℕ
  axis_lo a = pos_part (d.to_int a)

  abbrev pub axis_hi : ℕ → D → ℕ
  axis_hi size b = min size (pos_part (d.to_int b))

  min_int-axis : (size : ℕ) (b : D) → pos_part (min_int (pos size) (d.to_int b)) ≡ axis_hi size b
  min_int-axis size b = ground arith

  -- What the estimate of a box is that has in the image the columns below `x2` and the lines below `y2`.
  abbrev pub IsEstimate : Box D → List ℕ → (width height x2 y2 : ℕ) → Type ℓ
  IsEstimate box image width height x2 y2 =
      let n = x2 - axis_lo box.x1 in
      let rows = y2 - axis_lo box.y1 in
      (((n ≡ 0) ⊎ (rows ≡ 0))
        × (compute_instant_energy_gpu box image (pos width) (pos height) ≡ some (whole 0)))
      ⊎ ((pixels : List ℕ) × (0 < n)
          × (0 < rows)
          × IsRegion image width (axis_lo box.x1) n (axis_lo box.y1) rows pixels
          × (compute_instant_energy_gpu box image (pos width) (pos height)
              ≡ some (energy_formula (n * rows) pixels)))

  compute_instant_energy_gpu-IsEstimate :
      (box : Box D) (image : List ℕ) (width height : ℕ)
      → length image ≡ height * width
      → height * width < 2 ^ 31
      → IsEstimate box image width height
          (pos_part (min_int (pos width) (d.to_int box.x2)))
          (pos_part (min_int (pos height) (d.to_int box.y2)))
  unfolding compute_instant_energy_gpu
  compute_instant_energy_gpu-IsEstimate box image width height size small =
      let x1 = axis_lo box.x1 in
      let y1 = axis_lo box.y1 in
      let x2 = min_int (pos width) (d.to_int box.x2) in
      let y2 = min_int (pos height) (d.to_int box.y2) in
      elim (Bool-cases (leb_ℤ x2 (pos x1) || leb_ℤ y2 (pos y1))) [
        | inl outside ↦ inl (ground (arith, outside), rw outside refl)
        | inr inside ↦
            let n = pos_part x2 - x1 in
            let rows = pos_part y2 - y1 in
            let (pixels, e, region) =
              read_region_total image width height x1 n y1 rows size small (ground (arith, inside))
                (ground (arith, inside)) in
            let cols : n ≤ width = ground (arith, inside) in
            let lines : rows ≤ height = ground (arith, inside) in
            let below : n * rows < 2 ^ 31 =
              omega (arith, small, area-le n width rows height cols lines) in
            let area : fits_int (n * rows) ≡ true = ground (arith, below) in
            inr (
              pixels,
              ground (arith, inside),
              ground (arith, inside),
              region,
              rw (inside, area, e) (ap some (energy_of_lem n rows pixels)),
            )
      ]

  -- Whatever the box is, in an image that has one byte for each of its `width` by `height` pixels, fewer than
  -- 2 ^ 31: the estimate reads no byte outside of it. It is zero when the box has no pixel in the image;
  -- otherwise it is computed from the samples of the box's pixels in the image, one for each, as the area times
  -- the square of their mean as a share of 255.
  pub compute_instant_energy_gpu_total :
      (box : Box D) (image : List ℕ) (width height : ℕ)
      → length image ≡ height * width
      → height * width < 2 ^ 31
      → IsEstimate box image width height (axis_hi width box.x2) (axis_hi height box.y2)
  compute_instant_energy_gpu_total box image width height size small =
      subst (λ x2. IsEstimate box image width height x2 (axis_hi height box.y2))
        (min_int-axis width box.x2)
        (subst
          (IsEstimate box image width height (pos_part (min_int (pos width) (d.to_int box.x2))))
          (min_int-axis height box.y2)
          (compute_instant_energy_gpu-IsEstimate box image width height size small))
