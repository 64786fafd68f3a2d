-- ===== src/Kernel/Blend.antt =====
-- cpp/src/cuda_preprocess.cu: `kernel_uv_enhance` and `kernel_blend_uv_visible`, and the functions of
-- the host that start them. `order` is the order in which the device runs the threads, and `failed`
-- what `cudaGetLastError` says; a launch that failed has run no thread.
use pantograph_arc_vision.Common.{
  ◌>>=◌, ℕ, ◌+◌, ◌*◌, ◌≤◌, ◌<◌, ◌^◌, ◌≡◌, ap, Bool, true, false, ◌||◌, Option, some, List, arith,
  leb, if◌then◌else◌,
}
use pantograph_arc_vision.Common.Int.{ℤ, pos}
use pantograph_arc_vision.Common.Floating.{Floating, IsTotal, ◌⊕◌, ◌⊖◌, ◌⊗◌, ◌⊘◌, ◌≺◌, ◌≼◌, whole}
use pantograph_arc_vision.Kernel.{
  Thread, column, line, Buffer, Colour, load_at, status, store_colour, run_threads,
}
use pantograph_arc_vision.Kernel.Launch.{IsLaunch, Paints, run_threads-paint, run_threads-runs}
use pantograph_arc_vision.Kernel.Paint.{pixel, row-lt}

module _ {ℓ} {F : Type ℓ} ⦃f : Floating F⦄ where
  -- `fmaxf` and `fminf`: of a NaN and a number they return the number.
  unfoldable pub fmaxf : F → F → F
  fmaxf x y = if x ≼ x then (if x ≺ y then y else x) else y

  unfoldable pub fminf : F → F → F
  fminf x y = if x ≼ x then (if y ≺ x then y else x) else y

  abbrev pub gray : F → Colour F
  gray v = record { red = v; green = v; blue = v }

  -- The value that `kernel_uv_enhance` writes for the byte `uv`.
  unfoldable pub enhance : ℕ → F → F
  enhance uv gain = fminf (fmaxf (whole uv ⊗ gain) (whole 0)) (whole 255) ⊘ whole 255

  pub kernel_uv_enhance : Buffer ℕ → (width height : ℕ) → F → Thread → Buffer F → Option (Buffer F)
  kernel_uv_enhance uv_src width height gain t dst =
      if leb width (column t) || leb height (line t) then some dst else do
        uv ← load_at uv_src (pos (line t * width + column t))
        store_colour width height (column t) (line t) (gray (enhance uv gain)) dst

  -- 1.5f, 0.2f and 0.3f.
  abbrev pub uv_red : F
  uv_red = whole 3 ⊘ whole 2

  abbrev pub uv_green : F
  uv_green = whole 1 ⊘ whole 5

  abbrev pub uv_blue : F
  uv_blue = whole 3 ⊘ whole 10

  -- One channel of the blend: `tint` is the share of the ultraviolet in it.
  pub blend : (visible uv : ℕ) → (tint uv_weight : F) → F
  blend visible uv tint uv_weight =
      let mixed = whole visible ⊗ (whole 1 ⊖ uv_weight) ⊕ whole uv ⊗ tint ⊗ uv_weight in
      fminf (fmaxf (mixed ⊘ whole 255) (whole 0)) (whole 1)

  abbrev pub blend_colour : (r g b uv : ℕ) → F → Colour F
  blend_colour r g b uv uv_weight = record {
    red = blend r uv uv_red uv_weight;
    green = blend g uv uv_green uv_weight;
    blue = blend b uv uv_blue uv_weight;
  }

  -- The visible image is stored pixel by pixel, blue first.
  pub kernel_blend_uv_visible :
      Buffer ℕ → Buffer ℕ → (width height : ℕ) → F → Thread → Buffer F → Option (Buffer F)
  kernel_blend_uv_visible visible uv width height uv_weight t dst =
      if leb width (column t) || leb height (line t) then some dst else do
        r ← load_at visible (pos ((line t * width + column t) * 3 + 2))
        g ← load_at visible (pos ((line t * width + column t) * 3 + 1))
        b ← load_at visible (pos ((line t * width + column t) * 3 + 0))
        u ← load_at uv (pos (line t * width + column t))
        store_colour width height (column t) (line t) (blend_colour r g b u uv_weight) dst

  pub cuda_uv_enhance :
      (order : List Thread) (failed : Bool)
      → Buffer ℕ
      → (width height : ℕ) → Buffer F
      → F
      → Option (Buffer F × ℤ)
  cuda_uv_enhance order failed uv_src width height dst gain = do
    out ← run_threads (kernel_uv_enhance uv_src width height gain) order dst
    some (out, status failed)

  unfoldable pub cuda_blend_uv_visible :
      (order : List Thread) (failed : Bool)
      → (visible uv : Buffer ℕ) → Buffer F
      → (width height : ℕ) → F
      → Option (Buffer F × ℤ)
  cuda_blend_uv_visible order failed visible uv dst width height uv_weight = do
    out ← run_threads (kernel_blend_uv_visible visible uv width height uv_weight) order dst
    some (out, status failed)

  -- What the two kernels paint.
  abbrev pub enhanced : Buffer ℕ → (width : ℕ) → F → ℕ → ℕ → Colour F
  enhanced uv_src width gain x y = gray (enhance (uv_src.at (y * width + x)) gain)

  abbrev pub blended : Buffer ℕ → Buffer ℕ → (width : ℕ) → F → ℕ → ℕ → Colour F
  blended visible uv width uv_weight x y =
      let i = (y * width + x) * 3 in
      blend_colour (visible.at (i + 2)) (visible.at (i + 1)) (visible.at (i + 0))
        (uv.at (y * width + x)) uv_weight

  kernel_uv_enhance-Paints :
      (uv : Buffer ℕ) (w h : ℕ) (gain : F)
      → uv.size ≡ h * w
      → uv.size ≤ 2 ^ 31
      → Paints w h (enhanced uv w gain) (kernel_uv_enhance uv w h gain)
  unfolding kernel_uv_enhance load_at
  kernel_uv_enhance-Paints uv w h gain e few = record {
    inside = λ t b p q. ground (arith, row-lt h (line t) (column t) w p q);
    outside = λ t b out. ground arith;
  }

  kernel_blend-Paints :
      (visible uv : Buffer ℕ) (w h : ℕ) (weight : F)
      → visible.size ≡ h * w * 3
      → uv.size ≡ h * w
      → visible.size ≤ 2 ^ 31
      → Paints w h (blended visible uv w weight) (kernel_blend_uv_visible visible uv w h weight)
  unfolding kernel_blend_uv_visible load_at
  kernel_blend-Paints visible uv w h weight e e' few = record {
    inside = λ t b p q. ground (arith, row-lt h (line t) (column t) w p q);
    outside = λ t b out. ground arith;
  }

  -- When the launch succeeds: under every order of the threads `cuda_uv_enhance` returns 0, reads and writes within its buffers
  -- only, and leaves in all three channels of each pixel the ultraviolet byte of that pixel, times the
  -- gain, limited to 0 to 255 and divided by 255.
  pub cuda_uv_enhance-enhanced :
      (order : List Thread) (uv : Buffer ℕ) (w h : ℕ) (dst : Buffer F) (gain : F)
      → IsLaunch w h order
      → w < 2 ^ 31
      → h < 2 ^ 31
      → uv.size ≡ h * w
      → dst.size ≡ 3 * h * w
      → 3 * h * w ≤ 2 ^ 31
      → (out : Buffer F) × (cuda_uv_enhance order false uv w h dst gain ≡ some (out, pos 0))
        × (out.size ≡ dst.size)
        × ((x y : ℕ) → x < w → y < h → pixel w h out x y ≡ enhanced uv w gain x y)
  unfolding cuda_uv_enhance
  cuda_uv_enhance-enhanced order uv w h dst gain launch small small' e e' few =
      let (out, ran, sized, pixels) =
        run_threads-paint (kernel_uv_enhance-Paints uv w h gain e (omega (arith, e, few))) order dst
          launch small small' e' (omega (arith, e', few)) in
      (out, ap (λ o. o >>= (λ b. some (b, pos 0))) ran, sized, pixels)

  -- Whatever threads run, the blend has no access outside of its buffers.
  pub cuda_blend_uv_visible-runs :
      (order : List Thread) (failed : Bool) (visible uv : Buffer ℕ) (dst : Buffer F) (w h : ℕ)
      (weight : F)
      → visible.size ≡ h * w * 3
      → uv.size ≡ h * w
      → dst.size ≡ 3 * h * w
      → 3 * h * w ≤ 2 ^ 31
      → (out : Buffer F) × (cuda_blend_uv_visible order failed visible uv dst w h weight
          ≡ some (out, status failed))
        × (out.size ≡ dst.size)
  unfolding cuda_blend_uv_visible
  cuda_blend_uv_visible-runs order failed visible uv dst w h weight e e' e'' few =
      let (out, ran, sized) =
        run_threads-runs (kernel_blend-Paints visible uv w h weight e e' (omega (arith, e, few)))
          order dst e'' (omega (arith, e'', few)) in
      (out, ap (λ o. o >>= (λ b. some (b, status failed))) ran, sized)

  -- When the launch succeeds and no image has more than 2 ^ 31 bytes or floats: under every order of the threads
  -- `cuda_blend_uv_visible` returns 0, reads and writes within its buffers only, with every index within its
  -- `int`, and leaves at each pixel the blend of the visible and of the ultraviolet image there.
  pub cuda_blend_uv_visible-blended :
      (order : List Thread) (visible uv : Buffer ℕ) (dst : Buffer F) (w h : ℕ) (weight : F)
      → IsLaunch w h order
      → w < 2 ^ 31
      → h < 2 ^ 31
      → visible.size ≡ h * w * 3
      → uv.size ≡ h * w
      → dst.size ≡ 3 * h * w
      → 3 * h * w ≤ 2 ^ 31
      → (out : Buffer F) × (cuda_blend_uv_visible order false visible uv dst w h weight
          ≡ some (out, pos 0))
        × (out.size ≡ dst.size)
        × ((x y : ℕ) → x < w → y < h → pixel w h out x y ≡ blended visible uv w weight x y)
  unfolding cuda_blend_uv_visible
  cuda_blend_uv_visible-blended order visible uv dst w h weight launch small small' e e' e'' few =
      let (out, ran, sized, pixels) =
        run_threads-paint (kernel_blend-Paints visible uv w h weight e e' (omega (arith, e, few)))
          order dst launch small small' e'' (omega (arith, e'', few)) in
      (out, ap (λ o. o >>= (λ b. some (b, pos 0))) ran, sized, pixels)

  -- A channel from 0 to 1.
  abbrev pub InUnit : F → Type 0
  InUnit x = ((whole 0 ≼ x) ≡ true) × ((x ≼ whole 1) ≡ true)

  fmaxf-zero :
      (v : F)
      → IsTotal F
      → ((whole 0 ≼ fmaxf v (whole 0)) ≡ true) × ((fmaxf v (whole 0) ≼ fmaxf v (whole 0)) ≡ true)
  unfolding fmaxf
  fmaxf-zero v t = ground (arith, t.whole_le 0 0 (omega arith), t.le_of_not_lt v (whole 0))

  fminf-one :
      (v : F) → IsTotal F → (whole 0 ≼ v) ≡ true → (v ≼ v) ≡ true → InUnit (fminf v (whole 1))
  unfolding fminf
  fminf-one v t p q = ground (
    arith,
    t.whole_le 0 1 (omega arith),
    t.whole_le 1 1 (omega arith),
    t.le_of_not_lt (whole 1) v,
  )

  clamp-InUnit : (v : F) → IsTotal F → InUnit (fminf (fmaxf v (whole 0)) (whole 1))
  clamp-InUnit v t = let (p, q) = fmaxf-zero v t in fminf-one (fmaxf v (whole 0)) t p q

  -- Whatever the weight of the ultraviolet image, infinite or a NaN included, every channel of the blend
  -- of two pixels is between 0 and 1.
  pub blend_colour-InUnit :
      (r g b uv : ℕ) (weight : F)
      → IsTotal F
      → InUnit (blend_colour r g b uv weight).red
        × InUnit (blend_colour r g b uv weight).green
        × InUnit (blend_colour r g b uv weight).blue
  unfolding blend
  blend_colour-InUnit r g b uv weight t = (clamp-InUnit _ t, clamp-InUnit _ t, clamp-InUnit _ t)
