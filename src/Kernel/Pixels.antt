-- ===== src/Kernel/Pixels.antt =====
-- cpp/src/cuda_preprocess.cu: what the kernels that read a picture pixel by pixel share.
use pantograph_arc_vision.Common.{
  ◌>>=◌, ℕ, ◌+◌, ◌-◌, ◌*◌, ◌^◌, ◌≤◌, ◌<◌, ◌≡◌, refl, Bool, Option, none, some, arith, if◌then◌else◌,
  min,
}
use pantograph_arc_vision.Common.Int.{ℤ, pos, ◌+ℤ◌, ◌-ℤ◌, ◌*ℤ◌, min_ℤ}
use pantograph_arc_vision.Common.Floating.{Floating, ◌⊖◌, ◌⊘◌, whole}
use pantograph_arc_vision.Kernel.{Buffer, Colour, load_at}
use pantograph_arc_vision.Kernel.Paint.{row-lt}

-- `(sy * src_w + sx) * src_c`.
pub source_index : (src_w src_c sx sy : ℤ) → ℤ
source_index src_w src_c sx sy = (sy *ℤ src_w +ℤ sx) *ℤ src_c

source_index-pos :
    (w c x y : ℕ) → source_index (pos w) (pos c) (pos x) (pos y) ≡ pos ((y * w + x) * c)
unfolding source_index ◌*ℤ◌ ◌+ℤ◌
source_index-pos w c x y = ground arith

load_at-pos :
    (src : Buffer ℕ) (i k : ℕ)
    → i + k < src.size
    → src.size ≤ 2 ^ 31
    → load_at src (pos i +ℤ pos k) ≡ some (src.at (i + k))
unfolding load_at ◌+ℤ◌
load_at-pos src i k h small = ground arith

-- `min(sx, src_w - 1)` of a coordinate that is not negative, in a picture that is not empty.
pub min_ℤ-last : (k w : ℕ) → 0 < w → min_ℤ (pos k) (pos w -ℤ pos 1) ≡ pos (min k (w - 1))
unfolding ◌-ℤ◌
min_ℤ-last k w h = ground arith

module _ {ℓ} {F : Type ℓ} ⦃f : Floating F⦄ where
  -- The `mean` and `std_dev` of the callers; `none` is a null pointer.
  abbrev pub mean_or : Option (Colour F) → Colour F
  mean_or none = record { red = whole 0; green = whole 0; blue = whole 0 }
  mean_or (some m) = m

  abbrev pub std_or : Option (Colour F) → Colour F
  std_or none = record { red = whole 1; green = whole 1; blue = whole 1 }
  std_or (some d) = d

  abbrev pub normalize : (mean std : Colour F) → (r g b : ℕ) → Colour F
  normalize mean std r g b = record {
    red = (whole r ⊖ mean.red) ⊘ std.red;
    green = (whole g ⊖ mean.green) ⊘ std.green;
    blue = (whole b ⊖ mean.blue) ⊘ std.blue;
  }

  pub read_pixel : Buffer ℕ → ℤ → (mean std : Colour F) → Bool → Option (Colour F)
  read_pixel src src_idx mean std swap_rb = do
    r ← load_at src (src_idx +ℤ pos (if swap_rb then 2 else 0))
    g ← load_at src (src_idx +ℤ pos 1)
    b ← load_at src (src_idx +ℤ pos (if swap_rb then 0 else 2))
    some (normalize mean std r g b)

  -- The pixel at `x` and `y` of a picture with rows of `w` pixels of `c` bytes.
  abbrev pub source_pixel :
      Buffer ℕ → (w c : ℕ) → (mean std : Colour F) → Bool → (x y : ℕ) → Colour F
  source_pixel src w c mean std swap_rb x y =
      let i = (y * w + x) * c in
      normalize mean std (src.at (i + (if swap_rb then 2 else 0))) (src.at (i + 1))
        (src.at (i + (if swap_rb then 0 else 2)))

  -- A read at a pixel of the picture.
  pub read_pixel-source :
      (src : Buffer ℕ) (w h c : ℕ) (mean std : Colour F) (swap_rb : Bool) (x y : ℕ)
      → x < w
      → y < h
      → 3 ≤ c
      → h * w * c ≤ src.size
      → src.size ≤ 2 ^ 31
      → read_pixel src (source_index (pos w) (pos c) (pos x) (pos y)) mean std swap_rb
        ≡ some (source_pixel src w c mean std swap_rb x y)
  unfolding read_pixel
  read_pixel-source src w h c mean std swap_rb x y p q three e small =
      let i = (y * w + x) * c in
      let below : (k : ℕ) → k < c → i + k < src.size =
        λ k l. omega (arith, row-lt (h * w) (y * w + x) k c l (row-lt h y x w p q), e) in
      let first : ℕ = if swap_rb then 2 else 0 in
      let last : ℕ = if swap_rb then 0 else 2 in
      rw
        (
          source_index-pos w c x y,
          load_at-pos src i first (below first (ground arith)) small,
          load_at-pos src i 1 (below 1 (omega arith)) small,
          load_at-pos src i last (below last (ground arith)) small,
        )
        refl
