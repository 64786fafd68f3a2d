-- ===== src/Energy/Host.antt =====
-- `EnergyEstimator::compute_instant_energy` of cpp/src/arc_severity.cpp: the estimate on an image in the
-- host's memory, whose pixels may have several channels.
use native.Mathlib.Nat.{mul-le-mul, mul-le-mul_right}
use pantograph_arc_vision.Common.{
  ℕ, zero, suc, ◌+◌, ◌-◌, ◌*◌, ◌^◌, ◌≤◌, true, ◌&&◌, ◌<◌, ◌≡◌, refl, sym, ap, ap₂, ◌∙◌, inl, inr,
  ◌||◌, false, Option, none, some, List, [], ◌∷◌, ◌++◌, arith, ◌==◌, if◌then◌else◌, length,
  get_elem?, take, drop, Bool-cases,
}
use pantograph_arc_vision.Common.Int.{ℤ, pos, pos_part, leb_ℤ}
use pantograph_arc_vision.Common.Floating.{Floating, ◌⊕◌, ◌⊗◌, ◌⊘◌, whole}
use pantograph_arc_vision.Severity.{Box}
use pantograph_arc_vision.Energy.{
  fits_int, read_region, min_int, luminance, energy_of, compute_instant_energy_gpu,
}
use pantograph_arc_vision.Energy.Channel.{
  first_channel, drop_cons, get_elem?_total, length-first_channel, get_elem?-first_channel,
}
use pantograph_arc_vision.Energy.Bounds.{row_within, read_row_within, read_region_step, area-le}

-- `row_ptr[col * uv_channels]`, where `row_ptr` is `row_start` bytes into the image; `none` is a read past
-- the end of the image, or an overflow of one of the two products.
unfoldable pub pixel_at : List ℕ → (row_start offset : ℕ) → Option ℕ
pixel_at image row_start offset =
    if fits_int row_start && fits_int offset then get_elem? image (row_start + offset) else none

module _ {ℓ} {D : Type ℓ} ⦃d : Floating D⦄ where
  -- The inner loop, from column `col` on with `n` to go, over `luminance_sum` and `sample_count`; `none` is
  -- a fault of a read.
  unfoldable pub sample_row : List ℕ → (row_start channels col n : ℕ) → D × ℕ → Option (D × ℕ)
  sample_row image row_start channels col zero s = some s
  sample_row image row_start channels col (suc n) (sum, samples) =
      elim (pixel_at image row_start (col * channels)) [
        | none ↦ none
        | some p ↦ sample_row image row_start channels (col + 1) n (sum ⊕ whole p, samples + 1)
      ]

  -- The outer loop, from row `row` on with `rows` to go.
  unfoldable pub sample_rows : List ℕ → (width channels x n row rows : ℕ) → D × ℕ → Option (D × ℕ)
  sample_rows image width channels x n row zero s = some s
  sample_rows image width channels x n row (suc rows) s =
      elim (sample_row image (row * width * channels) channels x n s) [
        | none ↦ none
        | some s' ↦ sample_rows image width channels x n (row + 1) rows s'
      ]

  -- What is computed of the sum and the number of samples.
  unfoldable pub sampled_energy : (area : ℕ) → D × ℕ → D
  sampled_energy area (sum, samples) =
      if samples == 0
      then whole 0
      else (let mean = sum ⊘ whole samples in
          let normalized = mean ⊘ whole 255 in whole area ⊗ normalized ⊗ normalized)

  unfoldable pub compute_instant_energy :
      Box D → List ℕ → (width height : ℤ) → (channels : ℕ) → Option D
  compute_instant_energy box image width height channels =
      let x1 = pos_part (d.to_int box.x1) in
      let y1 = pos_part (d.to_int box.y1) in
      let x2 = min_int width (d.to_int box.x2) in
      let y2 = min_int height (d.to_int box.y2) in
      if leb_ℤ x2 (pos x1) || leb_ℤ y2 (pos y1)
      then some (whole 0)
      else (let n = pos_part x2 - x1 in
          let rows = pos_part y2 - y1 in
          if fits_int (n * rows)
          then (elim (sample_rows image (pos_part width) channels x1 n y1 rows (whole 0, 0)) [
            | none ↦ none
            | some s ↦ some (sampled_energy (n * rows) s)
          ])
          else none)

pixel_at-in :
    (image : List ℕ) (row_start offset : ℕ)
    → row_start + offset < 2 ^ 31
    → pixel_at image row_start offset ≡ get_elem? image (row_start + offset)
unfolding pixel_at
pixel_at-in image row_start offset h = ground arith

le-scaled : (a c : ℕ) → 0 < c → a ≤ a * c
le-scaled a c h =
    let more : a * 1 ≤ a * c = mul-le-mul {n₂ = a} {m₂ = c} (omega arith) (omega (arith, h)) in
    omega (arith, more)

scaled-lt : (a b c : ℕ) → 0 < c → a < b → a * c < b * c
scaled-lt a b c some_c h =
    let next : suc a * c ≤ b * c = mul-le-mul_right c h in
    let split : suc a * c ≡ a * c + c = grind arith in omega (arith, next, split, some_c)

module _ {ℓ} {D : Type ℓ} ⦃d : Floating D⦄ where
  luminance-append :
      (sum : D) (xs ys : List ℕ) → luminance sum (xs ++ ys) ≡ luminance (luminance sum xs) ys
  unfolding luminance
  luminance-append sum [] ys = refl
  luminance-append sum (x ∷ xs) ys = luminance-append (sum ⊕ whole x) xs ys

  sample_row_step :
      (image : List ℕ) (row_start channels col n : ℕ) (sum : D) (samples p : ℕ)
      → pixel_at image row_start (col * channels) ≡ some p
      → sample_row image row_start channels col (suc n) (sum, samples)
        ≡ sample_row image row_start channels (col + 1) n (sum ⊕ whole p, samples + 1)
  unfolding sample_row
  sample_row_step image row_start channels col n sum samples p e = rw (sample_row, e) refl

  sample_row-luminance :
      (image plane : List ℕ) (row_start channels col start n : ℕ) (sum : D) (samples : ℕ)
      → start + n ≤ length plane
      → ((j : ℕ)
          → j < n
          → get_elem? plane (start + j) ≡ pixel_at image row_start ((col + j) * channels))
      → sample_row image row_start channels col n (sum, samples)
        ≡ some (luminance sum (take n (drop start plane)), samples + n)
  unfolding sample_row luminance
  sample_row-luminance image plane row_start channels col start zero sum samples fits same =
      ap (λ k. some (sum, k)) (omega arith)
  sample_row-luminance image plane row_start channels col start (suc n) sum samples fits same =
      let (p, here) = get_elem?_total plane start (omega (arith, fits)) in
      let at = λ (k : ℕ). pixel_at image row_start (k * channels) in
      let start0 : start + 0 ≡ start = omega arith in
      let col0 : col ≡ col + 0 = omega arith in
      let next : suc start ≡ start + 1 = omega arith in
      let counted : samples + 1 + n ≡ samples + suc n = omega arith in
      let first : pixel_at image row_start (col * channels) ≡ some p =
        ap at col0 ∙ sym (same 0 (omega arith)) ∙ ap (get_elem? plane) start0 ∙ here in
      let shown : take (suc n) (drop start plane) ≡ p ∷ take n (drop (start + 1) plane) =
        ap (take (suc n)) (drop_cons plane start p here)
        ∙ ap (λ k. p ∷ take n (drop k plane)) next in
      let rest =
        sample_row-luminance image plane row_start channels (col + 1) (start + 1) n (sum ⊕ whole p)
          (samples + 1) (omega (arith, fits))
          (λ j h.
            let j_plane : start + 1 + j ≡ start + suc j = omega arith in
            let j_col : col + suc j ≡ col + 1 + j = omega arith in
            ap (get_elem? plane) j_plane ∙ same (suc j) (omega (arith, h)) ∙ ap at j_col) in
      sample_row_step image row_start channels col n sum samples p first
      ∙ rest
      ∙ rw shown
          (ap (λ k. some (luminance (sum ⊕ whole p) (take n (drop (start + 1) plane)), k)) counted)

  sample_rows_step :
      (image : List ℕ) (width channels x n row rows : ℕ) (s s' : D × ℕ)
      → sample_row image (row * width * channels) channels x n s ≡ some s'
      → sample_rows image width channels x n row (suc rows) s
        ≡ sample_rows image width channels x n (row + 1) rows s'
  unfolding sample_rows
  sample_rows_step image width channels x n row rows s s' e = rw (sample_rows, e) refl

  -- A region within the image: what the loop over the pixels adds up is what the copy of the first channel
  -- holds.
  sample_rows-luminance :
      (image : List ℕ) (width height channels x n row rows : ℕ) (sum : D) (samples : ℕ)
      → 0 < channels
      → length image ≡ height * width * channels
      → height * width * channels < 2 ^ 31
      → x + n ≤ width
      → row + rows ≤ height
      → (pixels : List ℕ) × (read_region
            (first_channel (height * width) channels image)
            width
            x
            n
            row
            rows
          ≡ some pixels)
        × (sample_rows image width channels x n row rows (sum, samples)
            ≡ some (luminance sum pixels, samples + rows * n))
  unfolding sample_rows read_region luminance
  sample_rows-luminance image width height channels x n row zero sum samples c size small cols h =
      ([], refl, ap (λ k. some (sum, k)) (omega arith))
  sample_rows-luminance image width height channels x n row (suc rows) sum samples c size small cols
        h =
      let plane = first_channel (height * width) channels image in
      let start = row * width + x in
      let taken = take n (drop start plane) in
      let whole_plane = length-first_channel (height * width) channels image c size in
      let inside = row_within width height x n row cols (omega (arith, h)) in
      let fits : start + n ≤ length plane = omega (arith, inside, whole_plane) in
      let pixels_few = le-scaled (height * width) channels c in
      let one =
        sample_row-luminance image plane (row * width * channels) channels x start n sum samples
          fits
          (λ j below.
            let k : (start + j) * channels ≡ row * width * channels + (x + j) * channels =
              grind arith in
            get_elem?-first_channel (height * width) channels (start + j) image c size
              (omega (arith, inside, below))
            ∙ ap (get_elem? image) k
            ∙ sym (
                pixel_at-in image (row * width * channels) ((x + j) * channels) (
                  omega (
                    arith,
                    sym k,
                    small,
                    scaled-lt (start + j) (height * width) channels c
                        (omega (arith, inside, below)),
                  )))) in
      let (pixels, region, sampled) =
        sample_rows-luminance image width height channels x n (row + 1) rows (luminance sum taken)
          (samples + n) c size small cols (omega (arith, h)) in
      let counted : samples + n + rows * n ≡ samples + suc rows * n = grind arith in
      (
        taken ++ pixels,
        read_region_step plane width x n row rows
            (read_row_within plane start n fits
              (omega (arith, fits, whole_plane, pixels_few, small)))
            region,
        sample_rows_step image width channels x n row rows (sum, samples)
              (luminance sum taken, samples + n) one
            ∙ sampled
            ∙ ap₂ (λ a k. some (a, k)) (sym (luminance-append sum taken pixels)) counted,
      )

  sampled_energy_lem :
      (n rows : ℕ) (pixels : List ℕ)
      → 0 < n
      → 0 < rows
      → sampled_energy {D = D} (n * rows) (luminance (whole 0) pixels, 0 + rows * n)
        ≡ energy_of n rows pixels
  unfolding sampled_energy energy_of
  sampled_energy_lem n rows pixels some_columns some_rows =
      let same : 0 + rows * n ≡ n * rows = grind arith in
      let more : 0 < n * rows = grind arith in
      let not_none : ((n * rows) == 0) ≡ false = ground (arith, more) in rw (same, not_none) refl

  -- Whatever the box is, on an image with `channels` bytes for each of its `width` by `height` pixels, fewer
  -- than 2 ^ 31 bytes in all: the estimate in the host's memory reads no byte outside of the image, no offset
  -- leaves its `int`, and the estimate is the one that the device's version makes of the first channel alone.
  pub compute_instant_energy-gpu :
      (box : Box D) (image : List ℕ) (width height channels : ℕ)
      → 0 < channels
      → length image ≡ height * width * channels
      → height * width * channels < 2 ^ 31
      → (e : D) × (compute_instant_energy box image (pos width) (pos height) channels ≡ some e)
        × (compute_instant_energy_gpu box
              (first_channel (height * width) channels image)
              (pos width)
              (pos height)
            ≡ some e)
  unfolding compute_instant_energy compute_instant_energy_gpu
  compute_instant_energy-gpu box image width height channels c size small =
      let x1 = pos_part (d.to_int box.x1) in
      let y1 = pos_part (d.to_int box.y1) in
      let x2 = min_int (pos width) (d.to_int box.x2) in
      let y2 = min_int (pos height) (d.to_int box.y2) in
      elim (Bool-cases (leb_ℤ x2 (pos x1) || leb_ℤ y2 (pos y1))) [
        | inl outside ↦ (whole 0, rw outside refl, rw outside refl)
        | inr inside ↦
            let n = pos_part x2 - x1 in
            let rows = pos_part y2 - y1 in
            let (pixels, region, sampled) =
              sample_rows-luminance image width height channels x1 n y1 rows (whole 0) 0 c size
                small (ground (arith, inside)) (ground (arith, inside)) in
            let cols : n ≤ width = ground (arith, inside) in
            let lines : rows ≤ height = ground (arith, inside) in
            let pixels_few = le-scaled (height * width) channels c in
            let below : n * rows < 2 ^ 31 =
              omega (arith, small, pixels_few, area-le n width rows height cols lines) in
            let area : fits_int (n * rows) ≡ true = ground (arith, below) in
            (
              energy_of n rows pixels,
              rw (inside, area, sampled)
                  (ap some (
                    sampled_energy_lem n rows pixels (ground (arith, inside))
                      (ground (arith, inside)))),
              rw (inside, area, region) refl,
            )
      ]
