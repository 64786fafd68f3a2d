-- ===== src/Kernel/Crop.antt =====
-- cpp/src/cuda_preprocess.cu: `kernel_roi_crop_normalize` and `cuda_preprocess_roi_crop`, which takes
-- the corner `roi_x2`, `roi_y2` of the region and does not read it.
use pantograph_arc_vision.Common.{
  ◌>>=◌, ℕ, ◌+◌, ◌-◌, min, ◌*◌, ◌≤◌, ◌<◌, ◌^◌, ◌≡◌, ap, Bool, false, ◌||◌, Option, some, List,
  arith, leb, if◌then◌else◌,
}
use pantograph_arc_vision.Common.Int.{ℤ, pos, pos_part, ◌+ℤ◌, ◌-ℤ◌, min_ℤ, max_ℤ}
use pantograph_arc_vision.Common.Floating.{Floating, ◌⊗◌, whole}
use pantograph_arc_vision.Kernel.{
  Thread, column, line, Buffer, Colour, status, store_colour, run_threads,
}
use pantograph_arc_vision.Kernel.Launch.{IsLaunch, Paints, run_threads-paint, run_threads-runs}
use pantograph_arc_vision.Kernel.Paint.{pixel}
use pantograph_arc_vision.Kernel.Pixels.{
  source_index, mean_or, std_or, read_pixel, source_pixel, read_pixel-source,
}

-- `roi_x1 + offset`, kept within the picture.
pub crop_coordinate : (roi src_w offset : ℤ) → ℤ
crop_coordinate roi src_w offset = min_ℤ (max_ℤ (roi +ℤ offset) (pos 0)) (src_w -ℤ pos 1)

crop_coordinate-pos :
    (x1 w d : ℕ) → x1 + d < w → crop_coordinate (pos x1) (pos w) (pos d) ≡ pos (x1 + d)
unfolding crop_coordinate ◌+ℤ◌ ◌-ℤ◌
crop_coordinate-pos x1 w d h = ground arith

-- Whatever the region is, a place within the picture.
crop_coordinate-within :
    (roi offset : ℤ) (w : ℕ)
    → 0 < w
    → crop_coordinate roi (pos w) offset ≡ pos (min (pos_part (roi +ℤ offset)) (w - 1))
unfolding crop_coordinate ◌-ℤ◌
crop_coordinate-within roi offset w h = ground arith

-- The product of a column up to `n` and 1.0f is that column again.
abbrev pub IsExact {ℓ} : (F : Type ℓ) → ⦃f : Floating F⦄ → ℕ → Type 0
IsExact F ⦃f⦄ n =
    (d : ℕ) → d < n → f.to_int (f.mul (f.from_int (pos d)) (f.from_int (pos 1))) ≡ pos d

module _ {ℓ} {F : Type ℓ} ⦃f : Floating F⦄ where
  pub kernel_roi_crop_normalize :
      Buffer ℕ
      → (src_w src_h roi_x1 roi_y1 : ℤ) → (dst_w dst_h : ℕ) → (mean std : Colour F) → Bool
      → Thread
      → Buffer F
      → Option (Buffer F)
  kernel_roi_crop_normalize src src_w src_h roi_x1 roi_y1 dst_w dst_h mean std swap_rb t dst =
      let sx = crop_coordinate roi_x1 src_w (f.to_int (whole (column t) ⊗ whole 1)) in
      let sy = crop_coordinate roi_y1 src_h (f.to_int (whole (line t) ⊗ whole 1)) in
      if leb dst_w (column t) || leb dst_h (line t) then some dst else do
        v ← read_pixel src (source_index src_w (pos 3) sx sy) mean std swap_rb
        store_colour dst_w dst_h (column t) (line t) v dst

  unfoldable pub cuda_preprocess_roi_crop :
      (order : List Thread) (failed : Bool)
      → Buffer ℕ
      → (src_width src_height roi_x1 roi_y1 roi_x2 roi_y2 : ℤ) → Buffer F
      → (dst_width dst_height : ℕ) → (mean std_dev : Option (Colour F)) → Bool
      → Option (Buffer F × ℤ)
  cuda_preprocess_roi_crop order failed src w h x1 y1 x2 y2 dst dst_w dst_h mean std_dev swap_rb =
      do
        out ←
            run_threads
              (kernel_roi_crop_normalize src w h x1 y1 dst_w dst_h (mean_or mean) (std_or std_dev)
                swap_rb)
              order dst
        some (out, status failed)

  abbrev pub cropped : Buffer ℕ → (w x1 y1 : ℕ) → (mean std : Colour F) → Bool → ℕ → ℕ → Colour F
  cropped src w x1 y1 mean std swap_rb x y = source_pixel src w 3 mean std swap_rb (x1 + x) (y1 + y)

  kernel_roi_crop-Paints :
      (src : Buffer ℕ) (w h x1 y1 dst_w dst_h : ℕ) (mean std : Colour F) (swap_rb : Bool)
      → IsExact F dst_w
      → IsExact F dst_h
      → src.size ≡ h * w * 3
      → h * w * 3 ≤ 2 ^ 31
      → x1 + dst_w ≤ w
      → y1 + dst_h ≤ h
      → Paints dst_w dst_h (cropped src w x1 y1 mean std swap_rb) (
          kernel_roi_crop_normalize src
            (pos w)
            (pos h)
            (pos x1)
            (pos y1)
            dst_w
            dst_h
            mean
            std
            swap_rb)
  unfolding kernel_roi_crop_normalize
  kernel_roi_crop-Paints src w h x1 y1 dst_w dst_h mean std swap_rb ex ey e few in_w in_h = record {
    inside = λ t b p q.
        let read =
          read_pixel-source src w h 3 mean std swap_rb (x1 + column t) (y1 + line t) (omega arith)
            (omega arith) (omega arith) (omega (arith, e)) (omega (arith, e, few)) in
        rw
          (
            ex (column t) p,
            ey (line t) q,
            crop_coordinate-pos x1 w (column t) (omega arith),
            crop_coordinate-pos y1 h (line t) (omega arith),
            read,
          )
          (ground arith);
    outside = λ t b out. ground arith;
  }

  kernel_roi_crop-Paints_any :
      (src : Buffer ℕ) (w h : ℕ) (x1 y1 : ℤ) (dst_w dst_h : ℕ) (mean std : Colour F)
      (swap_rb : Bool)
      → 0 < w
      → 0 < h
      → h * w * 3 ≤ src.size
      → src.size ≤ 2 ^ 31
      → Paints dst_w dst_h
          (λ x y.
            source_pixel src w 3 mean std swap_rb
              (min (pos_part (x1 +ℤ f.to_int (whole x ⊗ whole 1))) (w - 1))
              (min (pos_part (y1 +ℤ f.to_int (whole y ⊗ whole 1))) (h - 1)))
          (kernel_roi_crop_normalize src (pos w) (pos h) x1 y1 dst_w dst_h mean std swap_rb)
  unfolding kernel_roi_crop_normalize
  kernel_roi_crop-Paints_any src w h x1 y1 dst_w dst_h mean std swap_rb some_w some_h e few =
      record {
        inside = λ t b p q.
            let x = pos_part (x1 +ℤ f.to_int (whole (column t) ⊗ whole 1)) in
            let y = pos_part (y1 +ℤ f.to_int (whole (line t) ⊗ whole 1)) in
            let read =
              read_pixel-source src w h 3 mean std swap_rb (min x (w - 1)) (min y (h - 1))
                (omega arith) (omega arith) (omega arith) e few in
            rw
              (
                crop_coordinate-within x1 (f.to_int (whole (column t) ⊗ whole 1)) w some_w,
                crop_coordinate-within y1 (f.to_int (whole (line t) ⊗ whole 1)) h some_h,
                read,
              )
              (ground arith);
        outside = λ t b out. ground arith;
      }

  -- Whatever threads run, the crop has no access outside of its buffers, wherever the region is.
  pub cuda_preprocess_roi_crop-runs :
      (order : List Thread) (failed : Bool) (src : Buffer ℕ) (w h : ℕ) (x1 y1 x2 y2 : ℤ)
      (dst : Buffer F) (dst_w dst_h : ℕ) (mean std_dev : Option (Colour F)) (swap_rb : Bool)
      → 0 < w
      → 0 < h
      → h * w * 3 ≤ src.size
      → src.size ≤ 2 ^ 31
      → dst.size ≡ 3 * dst_h * dst_w
      → dst.size ≤ 2 ^ 31
      → (out : Buffer F) × (cuda_preprocess_roi_crop order failed src
            (pos w)
            (pos h)
            x1
            y1
            x2
            y2
            dst
            dst_w
            dst_h
            mean
            std_dev
            swap_rb
          ≡ some (out, status failed))
        × (out.size ≡ dst.size)
  unfolding cuda_preprocess_roi_crop
  cuda_preprocess_roi_crop-runs order failed src w h x1 y1 x2 y2 dst dst_w dst_h mean std_dev
        swap_rb some_w some_h e few e' few' =
      let paints =
        kernel_roi_crop-Paints_any src w h x1 y1 dst_w dst_h (mean_or mean) (std_or std_dev) swap_rb
          some_w some_h e few in
      let (out, ran, sized) = run_threads-runs paints order dst e' few' in
      (out, ap (λ o. o >>= (λ b. some (b, status failed))) ran, sized)

  -- The crop of a region of `dst_w` by `dst_h` pixels that lies within the picture, when the launch succeeds,
  -- neither image has more than 2 ^ 31 bytes or floats, and `float` holds every column and line of the region
  -- exactly: under every order of the threads `cuda_preprocess_roi_crop` returns 0, reads and writes within
  -- its buffers only, with every index within its `int`, and leaves at each pixel the normalized pixel of
  -- the picture at the same place of the region.
  pub cuda_preprocess_roi_crop-cropped :
      (order : List Thread) (src : Buffer ℕ) (w h x1 y1 : ℕ) (x2 y2 : ℤ) (dst : Buffer F)
      (dst_w dst_h : ℕ) (mean std_dev : Option (Colour F)) (swap_rb : Bool)
      → IsLaunch dst_w dst_h order
      → dst_w < 2 ^ 31
      → dst_h < 2 ^ 31
      → IsExact F dst_w
      → IsExact F dst_h
      → src.size ≡ h * w * 3
      → h * w * 3 ≤ 2 ^ 31
      → x1 + dst_w ≤ w
      → y1 + dst_h ≤ h
      → dst.size ≡ 3 * dst_h * dst_w
      → 3 * dst_h * dst_w ≤ 2 ^ 31
      → (out : Buffer F) × (cuda_preprocess_roi_crop order false src
            (pos w)
            (pos h)
            (pos x1)
            (pos y1)
            x2
            y2
            dst
            dst_w
            dst_h
            mean
            std_dev
            swap_rb
          ≡ some (out, pos 0))
        × (out.size ≡ dst.size)
        × ((x y : ℕ)
            → x < dst_w
            → y < dst_h
            → pixel dst_w dst_h out x y
              ≡ cropped src w x1 y1 (mean_or mean) (std_or std_dev) swap_rb x y)
  unfolding cuda_preprocess_roi_crop
  cuda_preprocess_roi_crop-cropped order src w h x1 y1 x2 y2 dst dst_w dst_h mean std_dev swap_rb
        launch small small' ex ey e few in_w in_h e' few' =
      let paints =
        kernel_roi_crop-Paints src w h x1 y1 dst_w dst_h (mean_or mean) (std_or std_dev) swap_rb ex
          ey e few in_w in_h in
      let (out, ran, sized, pixels) =
        run_threads-paint paints order dst launch small small' e' (omega (arith, e', few')) in
      (out, ap (λ o. o >>= (λ b. some (b, pos 0))) ran, sized, pixels)
