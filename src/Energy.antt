-- ===== src/Energy.antt =====
-- `EnergyEstimator::compute_instant_energy_gpu` of cpp/src/arc_severity.cpp: the energy of a box from the
-- ultraviolet image under it. `D` is the type `double`; the image is one byte for each pixel. An offset or
-- an area that does not fit an `int` is a fault.
pub mod Bounds
pub mod Channel
pub mod Host
mod Tests
use pantograph_arc_vision.Common.{
  ℕ, zero, suc, ◌+◌, ◌-◌, ◌*◌, ◌^◌, Bool, true, false, ◌||◌, ◌&&◌, ltb, Option, none, some, List,
  [], ◌∷◌, ◌++◌, leb, if◌then◌else◌, length, take, drop,
}
use pantograph_arc_vision.Common.Int.{ℤ, pos, pos_part, ltb_ℤ, leb_ℤ}
use pantograph_arc_vision.Common.Floating.{Floating, ◌⊕◌, ◌⊗◌, ◌⊘◌, whole}
use pantograph_arc_vision.Severity.{Box}

-- A value that an `int` holds.
abbrev pub fits_int : ℕ → Bool
fits_int n = ltb n (2 ^ 31)

-- `cudaMemcpyAsync` of `n` bytes from `start` on; `none` is an overflow of `start`, or a read past the end of
-- the image.
unfoldable pub read_row : List ℕ → (start n : ℕ) → Option (List ℕ)
read_row image start n =
    if fits_int start && leb (start + n) (length image)
    then some (take n (drop start image))
    else none

-- The loop over the rows from `y` on, with `rows` to go: `host_buf`.
unfoldable pub read_region : List ℕ → (width x n y rows : ℕ) → Option (List ℕ)
read_region image width x n y zero = some []
read_region image width x n y (suc rows) = elim (read_row image (y * width + x) n) [
  | none ↦ none
  | some row ↦ elim (read_region image width x n (y + 1) rows) [
    | none ↦ none
    | some rest ↦ some (row ++ rest)
  ]
]

-- `std::min(limit, v)`.
abbrev pub min_int : ℤ → ℤ → ℤ
min_int limit v = if ltb_ℤ v limit then v else limit

module _ {ℓ} {D : Type ℓ} ⦃d : Floating D⦄ where
  -- The loop over the pixels.
  unfoldable pub luminance : D → List ℕ → D
  luminance sum [] = sum
  luminance sum (p ∷ ps) = luminance (sum ⊕ whole p) ps

  -- What is computed of the pixels of a region of `n` columns and `rows` rows.
  unfoldable pub energy_of : ℕ → ℕ → List ℕ → D
  energy_of n rows pixels =
      let mean = luminance (whole 0) pixels ⊘ whole (n * rows) in
      let normalized = mean ⊘ whole 255 in whole (n * rows) ⊗ normalized ⊗ normalized

  -- The estimate of a box in an image of `width` by `height` pixels; `none` is a read past its end, or an
  -- overflow of `roi_w * roi_h`.
  unfoldable pub compute_instant_energy_gpu : Box D → List ℕ → (width height : ℤ) → Option D
  compute_instant_energy_gpu box image width height =
      let x1 = pos_part (d.to_int box.x1) in
      let y1 = pos_part (d.to_int box.y1) in
      let x2 = min_int width (d.to_int box.x2) in
      let y2 = min_int height (d.to_int box.y2) in
      if leb_ℤ x2 (pos x1) || leb_ℤ y2 (pos y1)
      then some (whole 0)
      else (let n = pos_part x2 - x1 in
          let rows = pos_part y2 - y1 in
          if fits_int (n * rows)
          then (elim (read_region image (pos_part width) x1 n y1 rows) [
            | none ↦ none
            | some pixels ↦ some (energy_of n rows pixels)
          ])
          else none)
