-- ===== src/Kernel/Paint.antt =====
-- cpp/src/cuda_preprocess.cu: where the pixels of an image stand, and an image with one pixel painted.
use native.Mathlib.Nat.{mul-le-mul_right}
use pantograph_arc_vision.Common.{
  ℕ, suc, ◌+◌, ◌*◌, ◌^◌, ◌≤◌, ◌<◌, ◌≡◌, ◌≢◌, refl, sym, subst, ap, ◌∙◌, ◌⊎◌, inl, inr, some, arith,
  leb, update, Bool-cases,
}
use pantograph_arc_vision.Kernel.{Buffer, Colour, plane, store_at, store_colour}

-- A cell of a table with rows of `w` cells stands in one row only.
row_le : (a a' x x' w : ℕ) → x' < w → a * w + x ≡ a' * w + x' → a ≤ a'
row_le a a' x x' w h e = elim (Bool-cases (leb a a')) [
  | inl l ↦ ground arith
  | inr l ↦
      let above : a' < a = ground arith in
      let next : suc a' * w ≤ a * w = mul-le-mul_right w above in absurd (omega (arith, next))
]

row_unique : (a a' x x' w : ℕ) → x < w → x' < w → a * w + x ≡ a' * w + x' → (a ≡ a') × (x ≡ x')
row_unique a a' x x' w h h' e =
    let same : a ≡ a' = omega (arith, row_le a a' x x' w h' e, row_le a' a x' x w h (sym e)) in
    (same, omega (arith, ap (λ r. r * w) same))

pub row-lt : (n a x w : ℕ) → x < w → a < n → a * w + x < n * w
row-lt n a x w h k = let next : suc a * w ≤ n * w = mul-le-mul_right w k in omega (arith, next)

same_pixel : (a b x y : ℕ) → ((a ≡ x) × (b ≡ y)) ⊎ (x ≡ a → y ≡ b → ⊥)
same_pixel a b x y = ground arith

-- Two pixels of an image share no index of any plane.
pub plane_unique :
    (w h c c' x x' y y' : ℕ)
    → x < w
    → x' < w
    → y < h
    → y' < h
    → plane w h c x y ≡ plane w h c' x' y'
    → (c ≡ c') × (x ≡ x') × (y ≡ y')
plane_unique w h c c' x x' y y' p p' q q' e =
    let (rows, xs) = row_unique (c * h + y) (c' * h + y') x x' w p p' e in
    let (cs, ys) = row_unique c c' y y' h q q' rows in (cs, xs, ys)

pub plane-lt : (w h c x y : ℕ) → c < 3 → x < w → y < h → plane w h c x y < 3 * h * w
plane-lt w h c x y i p q = row-lt (3 * h) (c * h + y) x w p (row-lt 3 c y h q i)

module _ {ℓ} {A : Type ℓ} where
  -- The three channels that an image holds for a pixel.
  abbrev pub pixel : (w h : ℕ) → Buffer A → (x y : ℕ) → Colour A
  pixel w h b x y = record {
    red = b.at (plane w h 0 x y);
    green = b.at (plane w h 1 x y);
    blue = b.at (plane w h 2 x y);
  }

  update-same : (f : ℕ → A) (i : ℕ) (v : A) (j : ℕ) → j ≡ i → update f i v j ≡ v
  update-same f i v j e = ground arith

  update-other : (f : ℕ → A) (i : ℕ) (v : A) (j : ℕ) → j ≢ i → update f i v j ≡ f j
  update-other f i v j n = ground arith

  -- The image `b` with the pixel at `x` and `y` painted.
  abbrev pub paint_at : (w h x y : ℕ) → Colour A → Buffer A → Buffer A
  paint_at w h x y v b = record b {
    at =
        update (update (update b.at (plane w h 0 x y) v.red) (plane w h 1 x y) v.green)
          (plane w h 2 x y) v.blue;
  }

  store_at-in :
      (i : ℕ) (v : A) (b : Buffer A)
      → i < b.size
      → b.size ≤ 2 ^ 31
      → store_at i v b ≡ some (record b { at = update b.at i v })
  unfolding store_at
  store_at-in i v b h small = ground arith

  pub store_colour-paint_at :
      (w h x y : ℕ) (v : Colour A) (b : Buffer A)
      → x < w
      → y < h
      → b.size ≡ 3 * h * w
      → b.size ≤ 2 ^ 31
      → store_colour w h x y v b ≡ some (paint_at w h x y v b)
  unfolding store_colour
  store_colour-paint_at w h x y v b p q e small =
      let below : (c : ℕ) → c < 3 → plane w h c x y < b.size =
        λ c i. omega (arith, plane-lt w h c x y i p q, e) in
      let b0 = record b { at = update b.at (plane w h 0 x y) v.red } in
      let b1 = record b0 { at = update b0.at (plane w h 1 x y) v.green } in
      rw
        (
          store_at-in (plane w h 0 x y) v.red b (below 0 (omega arith)) small,
          store_at-in (plane w h 1 x y) v.green b0 (below 1 (omega arith)) small,
          store_at-in (plane w h 2 x y) v.blue b1 (below 2 (omega arith)) small,
        )
        refl

  at_other-paint_at :
      (w h x y x' y' c : ℕ) (v : Colour A) (b : Buffer A)
      → x < w
      → y < h
      → x' < w
      → y' < h
      → (x' ≡ x → y' ≡ y → ⊥)
      → (paint_at w h x y v b).at (plane w h c x' y') ≡ b.at (plane w h c x' y')
  at_other-paint_at w h x y x' y' c v b p q p' q' other =
      let apart : (i : ℕ) → plane w h c x' y' ≢ plane w h i x y =
        λ i e. let (_, xs, ys) = plane_unique w h c i x' x y' y p' p q' q e in other xs ys in
      ground (arith, apart 0, apart 1, apart 2)

  pub pixel-paint_at :
      (w h x y : ℕ) (v : Colour A) (b : Buffer A)
      → x < w
      → y < h
      → pixel w h (paint_at w h x y v b) x y ≡ v
  pixel-paint_at w h x y v b p q =
      let apart : (c i : ℕ) → c ≢ i → plane w h c x y ≢ plane w h i x y =
        λ c i n e. let (cs, _, _) = plane_unique w h c i x x y y p p q q e in n cs in
      let red : (paint_at w h x y v b).at (plane w h 0 x y) ≡ v.red =
        ground (arith, apart 0 1 (omega arith), apart 0 2 (omega arith)) in
      let green : (paint_at w h x y v b).at (plane w h 1 x y) ≡ v.green =
        ground (arith, apart 1 2 (omega arith)) in
      let blue : (paint_at w h x y v b).at (plane w h 2 x y) ≡ v.blue = ground arith in
      λ i. record { red = red i; green = green i; blue = blue i }

  -- What is painted as `paint` says stays so.
  pub paint_at-kept :
      (w h : ℕ) (paint : ℕ → ℕ → Colour A) (a c x y : ℕ) (b : Buffer A)
      → a < w
      → c < h
      → x < w
      → y < h
      → pixel w h b x y ≡ paint x y
      → pixel w h (paint_at w h a c (paint a c) b) x y ≡ paint x y
  paint_at-kept w h paint a c x y b p q p' q' r = elim (same_pixel a c x y) [
    | inl (e, e') ↦
        let here : pixel w h (paint_at w h a c (paint a c) b) a c ≡ paint a c =
          pixel-paint_at w h a c (paint a c) b p q in
        subst (λ z. pixel w h (paint_at w h a c (paint a c) b) x z ≡ paint x z) e'
          (subst (λ z. pixel w h (paint_at w h a c (paint a c) b) z c ≡ paint z c) e here)
    | inr apart ↦
        let other : (n : ℕ)
            → (paint_at w h a c (paint a c) b).at (plane w h n x y) ≡ b.at (plane w h n x y) =
          λ n. at_other-paint_at w h a c x y n (paint a c) b p q p' q' apart in
        (λ i. record { red = other 0 i; green = other 1 i; blue = other 2 i }) ∙ r
  ]
