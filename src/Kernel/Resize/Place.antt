-- ===== src/Kernel/Resize/Place.antt =====
-- cpp/src/cuda_preprocess.cu: which pixels `kernel_resize_normalize_letterbox` reads and what it paints.
use pantograph_arc_vision.Common.{
  ◌>>=◌, ℕ, ◌+◌, ◌-◌, ◌*◌, ◌≤◌, ◌<◌, ◌^◌, ◌≡◌, refl, sym, subst, ap, ◌∙◌, inl, inr, Bool, true,
  false, ◌||◌, ◌&&◌, Option, some, List, arith, leb, if◌then◌else◌, min, Bool-cases,
}
use pantograph_arc_vision.Common.Int.{ℤ, pos, negsuc, pos_part, ◌+ℤ◌, ◌-ℤ◌, ◌≤ℤ◌, min_ℤ}
use pantograph_arc_vision.Common.Floating.{Floating}
use pantograph_arc_vision.Kernel.{Thread, column, line, Buffer, Colour, status}
use pantograph_arc_vision.Kernel.Launch.{IsLaunch, Paints, run_threads-paint, run_threads-runs}
use pantograph_arc_vision.Kernel.Paint.{pixel}
use pantograph_arc_vision.Kernel.Pixels.{
  mean_or, std_or, source_pixel, read_pixel-source, min_ℤ-last,
}
use pantograph_arc_vision.Kernel.Resize.{
  Letterbox, beyond, in_border, scale_index, scaled, letterbox_box, black,
  kernel_resize_normalize_letterbox, cuda_preprocess_resize_normalize,
}

-- A share of a size is not negative. `a` is below `c`, so there is no division by zero; up to 2^24 a
-- size is a `float`, and its share within an `int`.
abbrev pub IsScaling {ℓ} : (F : Type ℓ) → ⦃f : Floating F⦄ → Type 0
IsScaling F ⦃f⦄ = (a b c : ℕ) → a < c → b ≤ 2 ^ 24 → pos 0 ≤ℤ scale_index F (pos a) (pos b) (pos c)

-- A point that is not beyond the box on an axis.
beyond-cases :
    (pad resize : ℤ) (d : ℕ)
    → beyond pad resize d ≡ false
    → (a r : ℕ) × (pos d -ℤ pad ≡ pos a) × (resize ≡ pos r) × (a < r)
unfolding beyond ◌-ℤ◌ ◌+ℤ◌
beyond-cases (pos p) (pos r) d e = (d - p, r, ground arith, refl, ground arith)
beyond-cases (pos p) (negsuc r) d e = absurd (ground arith)
beyond-cases (negsuc p) (pos r) d e = (d + p + 1, r, ground arith, refl, ground arith)
beyond-cases (negsuc p) (negsuc r) d e = absurd (ground arith)

-- The coordinate that is read, as a natural number.
abbrev pub place {ℓ} :
    (F : Type ℓ) → ⦃f : Floating F⦄ → Bool → (pad resize : ℤ) → (src dst d : ℕ) → ℕ
place F letterbox pad resize src dst d =
    min (pos_part (scaled F letterbox pad resize (pos src) dst d)) (src - 1)

nonneg-pos : (z : ℤ) → pos 0 ≤ℤ z → z ≡ pos (pos_part z)
nonneg-pos (pos n) h = refl
nonneg-pos (negsuc n) h = absurd (omega arith)

scaled-nonneg {ℓ} :
    (F : Type ℓ) ⦃f : Floating F⦄ (letterbox : Bool) (pad resize : ℤ) (src dst d : ℕ)
    → IsScaling F
    → src ≤ 2 ^ 24
    → d < dst
    → (letterbox && beyond pad resize d) ≡ false
    → pos 0 ≤ℤ scaled F letterbox pad resize (pos src) dst d
scaled-nonneg F false pad resize src dst d law small h e = law d src dst h small
scaled-nonneg F true pad resize src dst d law small h e =
    let (a, r, ea, er, lt) = beyond-cases pad resize d e in
    subst (λ z. pos 0 ≤ℤ scale_index F z (pos src) resize) (sym ea)
      (subst (λ z. pos 0 ≤ℤ scale_index F (pos a) (pos src) z) (sym er) (law a src r lt small))

coordinate-place {ℓ} :
    (F : Type ℓ) ⦃f : Floating F⦄ (letterbox : Bool) (pad resize : ℤ) (src dst d : ℕ)
    → IsScaling F
    → 0 < src
    → src ≤ 2 ^ 24
    → d < dst
    → (letterbox && beyond pad resize d) ≡ false
    → min_ℤ (scaled F letterbox pad resize (pos src) dst d) (pos src -ℤ pos 1)
      ≡ pos (place F letterbox pad resize src dst d)
coordinate-place F letterbox pad resize src dst d law some_src small h e =
    ap (λ z. min_ℤ z (pos src -ℤ pos 1))
      (nonneg-pos _ (scaled-nonneg F letterbox pad resize src dst d law small h e))
    ∙ min_ℤ-last _ src some_src

module _ {ℓ} {F : Type ℓ} ⦃f : Floating F⦄ where
  -- What the kernel paints.
  abbrev pub resized :
      Buffer ℕ
      → (w h c dst_w dst_h : ℕ) → (mean std : Colour F) → (swap_rb letterbox : Bool) → Letterbox
      → ℕ
      → ℕ
      → Colour F
  resized src w h c dst_w dst_h mean std swap_rb letterbox box x y =
      if letterbox && in_border box x y
      then black
      else source_pixel src w c mean std swap_rb
          (place F letterbox box.pad_x box.resize_w w dst_w x)
          (place F letterbox box.pad_y box.resize_h h dst_h y)

  kernel_resize-Paints :
      (src : Buffer ℕ) (w h c dst_w dst_h : ℕ) (mean std : Colour F) (swap_rb letterbox : Bool)
      (box : Letterbox)
      → IsScaling F
      → 0 < w
      → 0 < h
      → 3 ≤ c
      → w ≤ 2 ^ 24
      → h ≤ 2 ^ 24
      → h * w * c ≤ src.size
      → src.size ≤ 2 ^ 31
      → Paints dst_w dst_h (resized src w h c dst_w dst_h mean std swap_rb letterbox box) (
          kernel_resize_normalize_letterbox src
            (pos w)
            (pos h)
            (pos c)
            dst_w
            dst_h
            mean
            std
            swap_rb
            letterbox
            box)
  unfolding kernel_resize_normalize_letterbox
  kernel_resize-Paints src w h c dst_w dst_h mean std swap_rb letterbox box law some_w some_h three
        small small' e few =
      record {
        inside = λ t b p q.
            let clipped : leb dst_w (column t) || leb dst_h (line t) ≡ false = ground arith in
            elim (Bool-cases (letterbox && in_border box (column t) (line t))) [
              | inl border ↦ rw (clipped, border) refl
              | inr inner ↦
                  let at_x =
                    coordinate-place F letterbox box.pad_x box.resize_w w dst_w (column t) law
                      some_w small p (ground arith) in
                  let at_y =
                    coordinate-place F letterbox box.pad_y box.resize_h h dst_h (line t) law some_h
                      small' q (ground arith) in
                  let read =
                    read_pixel-source src w h c mean std swap_rb
                      (place F letterbox box.pad_x box.resize_w w dst_w (column t))
                      (place F letterbox box.pad_y box.resize_h h dst_h (line t)) (omega arith)
                      (omega arith) three e few in
                  rw (clipped, inner, at_x, at_y, read) refl
            ];
        outside = λ t b out. ground arith;
      }

  -- Whatever threads run, no access is outside of the buffers.
  pub cuda_preprocess_resize_normalize-runs :
      (order : List Thread) (failed : Bool) (src : Buffer ℕ) (w h c : ℕ) (dst : Buffer F)
      (dst_w dst_h : ℕ) (mean std_dev : Option (Colour F)) (swap_rb letterbox : Bool)
      → IsScaling F
      → 0 < w
      → 0 < h
      → 3 ≤ c
      → w ≤ 2 ^ 24
      → h ≤ 2 ^ 24
      → h * w * c ≤ src.size
      → src.size ≤ 2 ^ 31
      → dst.size ≡ 3 * dst_h * dst_w
      → dst.size ≤ 2 ^ 31
      → (out : Buffer F) × (cuda_preprocess_resize_normalize order failed src
            (pos w)
            (pos h)
            (pos c)
            dst
            dst_w
            dst_h
            mean
            std_dev
            swap_rb
            letterbox
          ≡ some (out, status failed))
        × (out.size ≡ dst.size)
  unfolding cuda_preprocess_resize_normalize
  cuda_preprocess_resize_normalize-runs order failed src w h c dst dst_w dst_h mean std_dev swap_rb
        letterbox law some_w some_h three small small' e few e' few' =
      let paints =
        kernel_resize-Paints src w h c dst_w dst_h (mean_or mean) (std_or std_dev) swap_rb letterbox
          (letterbox_box F letterbox (pos w) (pos h) dst_w dst_h) law some_w some_h three small
          small' e few in
      let (out, ran, sized) = run_threads-runs paints order dst e' few' in
      (out, ap (λ o. o >>= (λ b. some (b, status failed))) ran, sized)

  -- When the launch succeeds, with buffers of up to 2 ^ 31 bytes or floats and a picture that is not empty, has
  -- three channels or more, and sides up to 2 ^ 24: under every order of the threads
  -- `cuda_preprocess_resize_normalize` returns 0 and reads and writes within its buffers only, with every
  -- index within its `int`, whatever box the letterbox computes. Each pixel of the border is black, and each
  -- other one is the normalized pixel of the picture that its scaled place, limited to the picture, says.
  -- A share of a size, computed in `float`, is not negative.
  pub cuda_preprocess_resize_normalize-resized :
      (order : List Thread) (src : Buffer ℕ) (w h c : ℕ) (dst : Buffer F) (dst_w dst_h : ℕ)
      (mean std_dev : Option (Colour F)) (swap_rb letterbox : Bool)
      → IsLaunch dst_w dst_h order
      → dst_w < 2 ^ 31
      → dst_h < 2 ^ 31
      → IsScaling F
      → 0 < w
      → 0 < h
      → 3 ≤ c
      → w ≤ 2 ^ 24
      → h ≤ 2 ^ 24
      → h * w * c ≤ src.size
      → src.size ≤ 2 ^ 31
      → dst.size ≡ 3 * dst_h * dst_w
      → dst.size ≤ 2 ^ 31
      → (out : Buffer F) × (cuda_preprocess_resize_normalize order false src
            (pos w)
            (pos h)
            (pos c)
            dst
            dst_w
            dst_h
            mean
            std_dev
            swap_rb
            letterbox
          ≡ some (out, pos 0))
        × (out.size ≡ dst.size)
        × ((x y : ℕ)
            → x < dst_w
            → y < dst_h
            → pixel dst_w dst_h out x y
              ≡ resized src w h c dst_w dst_h
                  (mean_or mean)
                  (std_or std_dev)
                  swap_rb
                  letterbox
                  (letterbox_box F letterbox (pos w) (pos h) dst_w dst_h)
                  x
                  y)
  unfolding cuda_preprocess_resize_normalize
  cuda_preprocess_resize_normalize-resized order src w h c dst dst_w dst_h mean std_dev swap_rb
        letterbox launch big big' law some_w some_h three small small' e few e' few' =
      let paints =
        kernel_resize-Paints src w h c dst_w dst_h (mean_or mean) (std_or std_dev) swap_rb letterbox
          (letterbox_box F letterbox (pos w) (pos h) dst_w dst_h) law some_w some_h three small
          small' e few in
      let (out, ran, sized, pixels) = run_threads-paint paints order dst launch big big' e' few' in
      (out, ap (λ o. o >>= (λ b. some (b, pos 0))) ran, sized, pixels)
