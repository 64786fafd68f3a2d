-- ===== src/Kernel/Tests.antt =====
-- Runs of the kernels of cpp/src/cuda_preprocess.cu on small images, with hundredths for `float`.
use pantograph_arc_vision.Common.{
  ℕ, zero, suc, ◌+◌, ◌*◌, ◌<◌, ◌≡◌, refl, subst, ap, inl, inr, true, false, none, some, List, [],
  ◌∷◌, ◌++◌, arith, ◌==◌, All, All-append, Bool-cases,
}
use pantograph_arc_vision.Common.Int.{pos}
use pantograph_arc_vision.Common.Floating.{Hundredths, hundredths_floating, Hundredths-IsTotal}
use pantograph_arc_vision.Kernel.{block_side, grid_side, Thread, Buffer}
use pantograph_arc_vision.Kernel.Launch.{IsLaunch, Runs}
use pantograph_arc_vision.Kernel.Paint.{pixel}
use pantograph_arc_vision.Kernel.Blend.{
  cuda_blend_uv_visible, blend_colour, enhance, fmaxf, fminf, enhanced, blended, InUnit,
  cuda_blend_uv_visible-blended, blend_colour-InUnit,
}
use pantograph_arc_vision.Kernel.Crop.{
  cuda_preprocess_roi_crop, IsExact, cropped, cuda_preprocess_roi_crop-cropped,
}
use pantograph_arc_vision.Kernel.Resize.{cuda_preprocess_resize_normalize, letterbox_box}
use pantograph_arc_vision.Kernel.Resize.Place.{
  IsScaling, resized, cuda_preprocess_resize_normalize-resized,
}
use pantograph_arc_vision.Kernel.Pixels.{mean_or, std_or}

-- The concatenation of `f 0` to `f (n - 1)`.
each : ℕ → (ℕ → List Thread) → List Thread
each zero f = []
each (suc n) f = each n f ++ f n

Runs-left : (t : Thread) (xs ys : List Thread) → Runs t xs → Runs t (xs ++ ys)
unfolding Runs
Runs-left t [] ys m = elim m [ ]
Runs-left t (x ∷ xs) ys (inl e) = inl e
Runs-left t (x ∷ xs) ys (inr m) = inr (Runs-left t xs ys m)

Runs-right : (t : Thread) (xs ys : List Thread) → Runs t ys → Runs t (xs ++ ys)
unfolding Runs
Runs-right t [] ys m = m
Runs-right t (x ∷ xs) ys m = inr (Runs-right t xs ys m)

Runs-each : (t : Thread) (n i : ℕ) (f : ℕ → List Thread) → i < n → Runs t (f i) → Runs t (each n f)
unfolding each
Runs-each t zero i f h m = absurd (omega arith)
Runs-each t (suc n) i f h m = elim (Bool-cases (i == n)) [
  | inl e ↦
      let same : i ≡ n = ground arith in
      Runs-right t (each n f) (f n) (subst (λ k. Runs t (f k)) same m)
  | inr e ↦ Runs-left t (each n f) (f n) (Runs-each t n i f (ground arith) m)
]

All-each :
    (P : Thread → Type 0) (n : ℕ) (f : ℕ → List Thread)
    → ((i : ℕ) → i < n → All P (f i))
    → All P (each n f)
unfolding each
All-each P zero f h = tt
All-each P (suc n) f h =
    All-append P (each n f) (f n) (All-each P n f (λ i l. h i (omega (arith, l))))
      (h n (omega arith))

-- The threads of the grid, block by block.
grid : (width height : ℕ) → List Thread
grid width height = each (grid_side width) (λ bx. each (grid_side height) (λ by.
    each block_side (λ tx.
      each block_side
        (λ ty. record { block_x = bx; block_y = by; thread_x = tx; thread_y = ty } ∷ []))))

grid-IsLaunch : (w h : ℕ) → IsLaunch w h (grid w h)
unfolding grid Runs
grid-IsLaunch w h = record {
  every = λ t g. Runs-each t (grid_side w) t.block_x _ g.block_column (
      Runs-each t (grid_side h) t.block_y _ g.block_line (
        Runs-each t block_side t.thread_x _ g.thread_column
          (Runs-each t block_side t.thread_y _ g.thread_line (inl refl))));
  only = All-each _ (grid_side w) _ (λ bx p. All-each _ (grid_side h) _ (λ by q.
      All-each _ block_side _ (λ tx r. All-each _ block_side _ (λ ty s.
        (record { block_column = p; block_line = q; thread_column = r; thread_line = s }, tt)))));
}

-- A picture of two pixels, one line, and an ultraviolet image of the same size.
abbrev picture : Buffer ℕ
picture = record { size = 6; at = λ i. 100 + i }

abbrev uv_picture : Buffer ℕ
uv_picture = record { size = 2; at = λ i. 200 * i }

abbrev output : Buffer Hundredths
output = record { size = 6; at = λ i. 0 }

Hundredths-IsExact : (n : ℕ) → IsExact Hundredths n
Hundredths-IsExact n d h = ap pos (omega arith)

Hundredths-IsScaling : IsScaling Hundredths
Hundredths-IsScaling a b c h small = omega arith

cuda_blend_uv_visible-blended_example :
    (out : Buffer Hundredths) × (cuda_blend_uv_visible
        (grid 2 1)
        false
        picture
        uv_picture
        output
        2
        1
        50
      ≡ some (out, pos 0))
    × (out.size ≡ 6)
    × ((x y : ℕ) → x < 2 → y < 1 → pixel 2 1 out x y ≡ blended picture uv_picture 2 50 x y)
cuda_blend_uv_visible-blended_example =
    cuda_blend_uv_visible-blended (grid 2 1) picture uv_picture output 2 1 50 (grid-IsLaunch 2 1)
      (omega arith) (omega arith) refl refl refl (omega arith)

blend_colour-InUnit_example :
    InUnit (blend_colour {F = Hundredths} 250 20 0 255 50).red
    × InUnit (blend_colour {F = Hundredths} 250 20 0 255 50).green
    × InUnit (blend_colour {F = Hundredths} 250 20 0 255 50).blue
blend_colour-InUnit_example = blend_colour-InUnit 250 20 0 255 50 Hundredths-IsTotal

-- The pixel at column 1 of the picture.
cuda_preprocess_roi_crop-cropped_example :
    (out : Buffer Hundredths) × (cuda_preprocess_roi_crop
        (grid 1 1)
        false
        picture
        (pos 2)
        (pos 1)
        (pos 1)
        (pos 0)
        (pos 2)
        (pos 1)
        (record { size = 3; at = λ i. 0 })
        1
        1
        none
        none
        true
      ≡ some (out, pos 0))
    × (out.size ≡ 3)
    × ((x y : ℕ)
        → x < 1
        → y < 1
        → pixel 1 1 out x y ≡ cropped picture 2 1 0 (mean_or none) (std_or none) true x y)
cuda_preprocess_roi_crop-cropped_example =
    cuda_preprocess_roi_crop-cropped (grid 1 1) picture 2 1 1 0 (pos 2) (pos 1)
      (record { size = 3; at = λ i. 0 }) 1 1 none none true (grid-IsLaunch 1 1) (omega arith)
      (omega arith) (Hundredths-IsExact 1) (Hundredths-IsExact 1) refl (omega arith) (omega arith)
      (omega arith) refl (omega arith)

cuda_preprocess_resize_normalize-resized_example :
    (out : Buffer Hundredths) × (cuda_preprocess_resize_normalize
        (grid 2 2)
        false
        picture
        (pos 2)
        (pos 1)
        (pos 3)
        (record { size = 12; at = λ i. 0 })
        2
        2
        none
        none
        true
        true
      ≡ some (out, pos 0))
    × (out.size ≡ 12)
    × ((x y : ℕ)
        → x < 2
        → y < 2
        → pixel 2 2 out x y
          ≡ resized picture 2 1 3 2 2
              (mean_or none)
              (std_or none)
              true
              true
              (letterbox_box Hundredths true (pos 2) (pos 1) 2 2)
              x
              y)
cuda_preprocess_resize_normalize-resized_example =
    cuda_preprocess_resize_normalize-resized (grid 2 2) picture 2 1 3
      (record { size = 12; at = λ i. 0 }) 2 2 none none true true (grid-IsLaunch 2 2) (omega arith)
      (omega arith) Hundredths-IsScaling (omega arith) (omega arith) (omega arith) (omega arith)
      (omega arith) (omega arith) (omega arith) refl (omega arith)

-- The product of the ultraviolet byte and the gain is limited to 255.
enhanced_limit : (enhanced {F = Hundredths} uv_picture 2 150 1 0).red ≡ 100
unfolding enhance fmaxf fminf
enhanced_limit = refl
