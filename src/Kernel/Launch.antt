-- ===== src/Kernel/Launch.antt =====
-- cpp/src/cuda_preprocess.cu: a kernel whose threads each paint one pixel, under any order of its
-- threads, and the grid that the host code starts.
use pantograph_arc_vision.Common.{
  ℕ, ◌*◌, ◌/◌, ◌%◌, ◌^◌, ◌≤◌, ◌<◌, ◌≡◌, refl, subst, ◌∙◌, ◌⊎◌, inl, inr, Option, some, List, [],
  ◌∷◌, arith, All,
}
use pantograph_arc_vision.Kernel.{
  block_side, grid_side, Thread, column, line, InGrid, Buffer, Colour, store_colour, run_threads,
}
use pantograph_arc_vision.Kernel.Paint.{
  pixel, paint_at, store_colour-paint_at, pixel-paint_at, paint_at-kept,
}

-- A thread among those that run.
unfoldable pub Runs : Thread → List Thread → Type 0
Runs t [] = ⊥
Runs t (s ∷ ss) = (s ≡ t) ⊎ Runs t ss

-- The thread that has the pixel at `x` and `y`.
abbrev pub thread_of : (x y : ℕ) → Thread
thread_of x y = record {
  block_x = x / block_side;
  block_y = y / block_side;
  thread_x = x % block_side;
  thread_y = y % block_side;
}

pub thread_of-InGrid :
    (w h x y : ℕ) → w < 2 ^ 31 → h < 2 ^ 31 → x < w → y < h → InGrid w h (thread_of x y)
unfolding grid_side
thread_of-InGrid w h x y small small' p q = record {
  block_column = omega arith;
  block_line = omega arith;
  thread_column = omega arith;
  thread_line = omega arith;
}

-- For an image with sides below 2^31 the grid has exactly one thread for each pixel.
thread_of_unique :
    (w h x y : ℕ)
    → w < 2 ^ 31
    → h < 2 ^ 31
    → x < w
    → y < h
    → InGrid w h (thread_of x y)
      × (column (thread_of x y) ≡ x)
      × (line (thread_of x y) ≡ y)
      × ((t : Thread) → InGrid w h t → column t ≡ x → line t ≡ y → t ≡ thread_of x y)
thread_of_unique w h x y small small' p q = (
  thread_of-InGrid w h x y small small' p q,
  omega arith,
  omega arith,
  λ t g ex ey.
      let bx : t.block_x ≡ x / 16 = omega (arith, g.thread_column, ex) in
      let by : t.block_y ≡ y / 16 = omega (arith, g.thread_line, ey) in
      let tx : t.thread_x ≡ x % 16 = omega (arith, g.thread_column, ex) in
      let ty : t.thread_y ≡ y % 16 = omega (arith, g.thread_line, ey) in
      λ i. record { block_x = bx i; block_y = by i; thread_x = tx i; thread_y = ty i },
)

-- An order in which all threads of the grid run, and no other.
pub record IsLaunch (width height : ℕ) (order : List Thread) : Type 0 where
  pub every : (t : Thread) → InGrid width height t → Runs t order
  pub only : All (InGrid width height) order

-- What a kernel does in one thread: it paints the pixel of the thread, where there is one.
pub record Paints {ℓ} {A : Type ℓ} (w h : ℕ) (paint : ℕ → ℕ → Colour A)
    (kernel : Thread → Buffer A → Option (Buffer A)) : Type ℓ where
  pub inside :
      (t : Thread) (b : Buffer A)
      → column t < w
      → line t < h
      → kernel t b ≡ store_colour w h (column t) (line t) (paint (column t) (line t)) b
  pub outside : (t : Thread) (b : Buffer A) → (w ≤ column t) ⊎ (h ≤ line t) → kernel t b ≡ some b

module _ {ℓ} {A : Type ℓ} {w h : ℕ} {paint : ℕ → ℕ → Colour A}
    {kernel : Thread → Buffer A → Option (Buffer A)} (k : Paints w h paint kernel) where
  -- After a run of `order` from the image `b`.
  record Ran (order : List Thread) (b b' : Buffer A) : Type ℓ where
    size_same : b'.size ≡ b.size
    kept : (x y : ℕ) → x < w → y < h → pixel w h b x y ≡ paint x y → pixel w h b' x y ≡ paint x y
    painted :
        (t : Thread)
        → Runs t order
        → column t < w
        → line t < h
        → pixel w h b' (column t) (line t) ≡ paint (column t) (line t)

  inside-cases : (t : Thread) → ((column t < w) × (line t < h)) ⊎ ((w ≤ column t) ⊎ (h ≤ line t))
  inside-cases t = ground arith

  outside-absurd : (t : Thread) → (w ≤ column t) ⊎ (h ≤ line t) → column t < w → line t < h → ⊥
  outside-absurd t out p q = ground arith

  thread-Ran :
      (t : Thread) (b : Buffer A)
      → b.size ≡ 3 * h * w
      → b.size ≤ 2 ^ 31
      → (b' : Buffer A) × (kernel t b ≡ some b') × Ran (t ∷ []) b b'
  unfolding Runs
  thread-Ran t b e few = elim (inside-cases t) [
    | inl (p, q) ↦
        let v = paint (column t) (line t) in
        let b1 = paint_at w h (column t) (line t) v b in
        let here : pixel w h b1 (column t) (line t) ≡ v =
          pixel-paint_at w h (column t) (line t) v b p q in
        (
          b1,
          k.inside t b p q ∙ store_colour-paint_at w h (column t) (line t) v b p q e few,
          record {
            size_same = refl;
            kept = λ x y p' q' r. paint_at-kept w h paint (column t) (line t) x y b p q p' q' r;
            painted = λ s m p' q'. elim m [
              | inl same ↦
                  subst (λ s. pixel w h b1 (column s) (line s) ≡ paint (column s) (line s)) same
                    here
              | inr none_left ↦ absurd none_left
            ];
          },
        )
    | inr out ↦ (
      b,
      k.outside t b out,
      record {
        size_same = refl;
        kept = λ x y _ _ r. r;
        painted = λ s m p q. elim m [
          | inl same ↦
              absurd (outside-absurd s (subst (λ s. (w ≤ column s) ⊎ (h ≤ line s)) same out) p q)
          | inr none_left ↦ absurd none_left
        ];
      },
    )
  ]

  run_threads-Ran :
      (order : List Thread) (b : Buffer A)
      → b.size ≡ 3 * h * w
      → b.size ≤ 2 ^ 31
      → (b' : Buffer A) × (run_threads kernel order b ≡ some b') × Ran order b b'
  unfolding run_threads Runs
  run_threads-Ran [] b e few =
      (b, refl, record { size_same = refl; kept = λ x y _ _ r. r; painted = λ t m. absurd m })
  run_threads-Ran (t ∷ ts) b e few =
      let (b1, step, r1) = thread-Ran t b e few in
      let (b2, rest, r2) =
        run_threads-Ran ts b1 (r1.size_same ∙ e) (omega (arith, r1.size_same, few)) in
      (
        b2,
        ground (arith, step, rest),
        record {
          size_same = r2.size_same ∙ r1.size_same;
          kept = λ x y p q r. r2.kept x y p q (r1.kept x y p q r);
          painted = λ s m p q. elim m [
            | inl same ↦ r2.kept (column s) (line s) p q (r1.painted s (inl same) p q)
            | inr later ↦ r2.painted s later p q
          ];
        },
      )

  -- Whatever threads run in whatever order, no access is outside of the image.
  pub run_threads-runs :
      (order : List Thread) (b : Buffer A)
      → b.size ≡ 3 * h * w
      → b.size ≤ 2 ^ 31
      → (b' : Buffer A) × (run_threads kernel order b ≡ some b') × (b'.size ≡ b.size)
  run_threads-runs order b e few =
      let (b', ran, r) = run_threads-Ran order b e few in (b', ran, r.size_same)

  -- Under every order of the threads no access of a kernel is outside of the image, and in the end each
  -- pixel has the colour that the kernel paints there.
  pub run_threads-paint :
      (order : List Thread) (b : Buffer A)
      → IsLaunch w h order
      → w < 2 ^ 31
      → h < 2 ^ 31
      → b.size ≡ 3 * h * w
      → b.size ≤ 2 ^ 31
      → (b' : Buffer A) × (run_threads kernel order b ≡ some b')
        × (b'.size ≡ b.size)
        × ((x y : ℕ) → x < w → y < h → pixel w h b' x y ≡ paint x y)
  run_threads-paint order b launch small small' e few =
      let (b', ran, r) = run_threads-Ran order b e few in
      (
        b',
        ran,
        r.size_same,
        λ x y p q.
            let t = thread_of x y in
            let runs : Runs t order = launch.every t (thread_of-InGrid w h x y small small' p q) in
            let at_x : column t ≡ x = omega arith in
            let at_y : line t ≡ y = omega arith in
            subst (λ x. pixel w h b' x y ≡ paint x y) at_x
              (subst (λ y. pixel w h b' (column t) y ≡ paint (column t) y) at_y
                (r.painted t runs (omega (arith, at_x)) (omega (arith, at_y)))),
      )
