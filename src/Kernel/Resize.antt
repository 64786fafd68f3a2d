-- ===== src/Kernel/Resize.antt =====
-- cpp/src/cuda_preprocess.cu: `kernel_resize_normalize_letterbox` and `cuda_preprocess_resize_normalize`.
pub mod Place
use pantograph_arc_vision.Common.{
  ◌>>=◌, ℕ, ◌+◌, ◌-◌, ◌*◌, ◌≤◌, ◌<◌, ◌^◌, ◌≡◌, refl, sym, subst, ap, ◌∙◌, inl, inr, Bool, true,
  false, ◌||◌, ◌&&◌, Option, some, List, arith, leb, if◌then◌else◌, min, Bool-cases,
}
use pantograph_arc_vision.Common.Int.{
  ℤ, pos, negsuc, pos_part, ◌+ℤ◌, ◌-ℤ◌, ◌≤ℤ◌, ltb_ℤ, leb_ℤ, half_ℤ, min_ℤ,
}
use pantograph_arc_vision.Common.Floating.{Floating, ◌⊗◌, ◌⊘◌, whole}
use pantograph_arc_vision.Kernel.{
  Thread, column, line, Buffer, Colour, status, store_colour, run_threads,
}
use pantograph_arc_vision.Kernel.Launch.{IsLaunch, Paints, run_threads-paint}
use pantograph_arc_vision.Kernel.Paint.{pixel}
use pantograph_arc_vision.Kernel.Blend.{fminf}
use pantograph_arc_vision.Kernel.Pixels.{
  source_index, mean_or, std_or, read_pixel, source_pixel, read_pixel-source, min_ℤ-last,
}

-- The part of the output that the picture fills: `pad_x`, `pad_y`, `resize_w` and `resize_h`.
pub record Letterbox : Type 0 where
  pub pad_x : ℤ
  pub pad_y : ℤ
  pub resize_w : ℤ
  pub resize_h : ℤ

-- `dx < pad_x || dx >= pad_x + resize_w`.
pub beyond : (pad resize : ℤ) → ℕ → Bool
beyond pad resize d = ltb_ℤ (pos d) pad || leb_ℤ (pad +ℤ resize) (pos d)

abbrev pub in_border : Letterbox → (dx dy : ℕ) → Bool
in_border box dx dy = beyond box.pad_x box.resize_w dx || beyond box.pad_y box.resize_h dy

-- `static_cast<int>(d * static_cast<float>(src) / size)`.
abbrev pub scale_index {ℓ} : (F : Type ℓ) → ⦃f : Floating F⦄ → (d src size : ℤ) → ℤ
scale_index F ⦃f⦄ d src size =
    f.to_int (f.div (f.mul (f.from_int d) (f.from_int src)) (f.from_int size))

-- The coordinate of the source, before it is limited.
abbrev pub scaled {ℓ} :
    (F : Type ℓ) → ⦃f : Floating F⦄ → Bool → (pad resize src : ℤ) → (dst d : ℕ) → ℤ
scaled F letterbox pad resize src dst d =
    if letterbox
    then scale_index F (pos d -ℤ pad) src resize
    else scale_index F (pos d) src (pos dst)

pub letterbox_box {ℓ} :
    (F : Type ℓ)
    → ⦃f : Floating F⦄ → (letterbox : Bool) → (src_width src_height : ℤ)
    → (dst_width dst_height : ℕ) → Letterbox
letterbox_box F false src_width src_height dst_width dst_height = record {
  pad_x = pos 0;
  pad_y = pos 0;
  resize_w = pos dst_width;
  resize_h = pos dst_height;
}
letterbox_box F ⦃f⦄ true src_width src_height dst_width dst_height =
    let scale : F =
      fminf (whole dst_width ⊘ f.from_int src_width) (whole dst_height ⊘ f.from_int src_height) in
    let resize_w = f.to_int (f.from_int src_width ⊗ scale) in
    let resize_h = f.to_int (f.from_int src_height ⊗ scale) in
    record {
      pad_x = half_ℤ (pos dst_width -ℤ resize_w);
      pad_y = half_ℤ (pos dst_height -ℤ resize_h);
      resize_w = resize_w;
      resize_h = resize_h;
    }

module _ {ℓ} {F : Type ℓ} ⦃f : Floating F⦄ where
  abbrev pub black : Colour F
  black = record { red = whole 0; green = whole 0; blue = whole 0 }

  pub kernel_resize_normalize_letterbox :
      Buffer ℕ
      → (src_w src_h src_c : ℤ) → (dst_w dst_h : ℕ) → (mean std : Colour F)
      → (swap_rb letterbox : Bool) → Letterbox
      → Thread
      → Buffer F
      → Option (Buffer F)
  kernel_resize_normalize_letterbox src src_w src_h src_c dst_w dst_h mean std swap_rb letterbox box
        t dst =
      let dx = column t in
      let dy = line t in
      let sx = min_ℤ (scaled F letterbox box.pad_x box.resize_w src_w dst_w dx) (src_w -ℤ pos 1) in
      let sy = min_ℤ (scaled F letterbox box.pad_y box.resize_h src_h dst_h dy) (src_h -ℤ pos 1) in
      if leb dst_w dx || leb dst_h dy
      then some dst
      else if letterbox && in_border box dx dy
      then store_colour dst_w dst_h dx dy black dst
      else do
        v ← read_pixel src (source_index src_w src_c sx sy) mean std swap_rb
        store_colour dst_w dst_h dx dy v dst

  unfoldable pub cuda_preprocess_resize_normalize :
      (order : List Thread) (failed : Bool)
      → Buffer ℕ
      → (src_width src_height src_channels : ℤ) → Buffer F
      → (dst_width dst_height : ℕ) → (mean std_dev : Option (Colour F)) → (swap_rb letterbox : Bool)
      → Option (Buffer F × ℤ)
  cuda_preprocess_resize_normalize order failed src w h c dst dst_w dst_h mean std_dev swap_rb
        letterbox =
      do
        out ←
            run_threads
              (kernel_resize_normalize_letterbox src w h c dst_w dst_h (mean_or mean)
                (std_or std_dev) swap_rb letterbox (letterbox_box F letterbox w h dst_w dst_h))
              order dst
        some (out, status failed)
