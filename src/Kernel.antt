-- ===== src/Kernel.antt =====
-- cpp/src/cuda_preprocess.cu: what its kernels share. A kernel runs once for each thread of a grid of
-- blocks of 16 by 16 threads, in any order. `F` is the type `float`. Widths and heights are not
-- negative. The index of an access is computed in an `int`: one that does not fit is a fault, and where the
-- last sum of the computation fits, the products and sums before it do.
pub mod Paint
pub mod Launch
pub mod Pixels
pub mod Blend
pub mod Crop
pub mod Resize
mod Tests
use pantograph_arc_vision.Common.{
  ◌>>=◌, ℕ, zero, suc, ◌+◌, ◌-◌, ◌*◌, ◌/◌, ◌%◌, ◌^◌, ◌<◌, Bool, true, false, ◌||◌, ◌&&◌, Option,
  none, some, List, [], ◌∷◌, ltb, leb, if◌then◌else◌, update,
}
use pantograph_arc_vision.Common.Int.{ℤ, pos, negsuc}

-- `dim3 block(16, 16)`.
abbrev pub block_side : ℕ
block_side = 16

-- `(width + block.x - 1) / block.x`, in `unsigned`.
pub grid_side : ℕ → ℕ
grid_side n = (n + block_side - 1) % 2 ^ 32 / block_side

-- `blockIdx` and `threadIdx`.
pub record Thread : Type 0 where
  pub block_x : ℕ
  pub block_y : ℕ
  pub thread_x : ℕ
  pub thread_y : ℕ

-- `blockIdx.x * blockDim.x + threadIdx.x`, and the same of `y`.
abbrev pub column : Thread → ℕ
column t = t.block_x * block_side + t.thread_x

abbrev pub line : Thread → ℕ
line t = t.block_y * block_side + t.thread_y

-- A thread of the grid for an image of `width` by `height`.
pub record InGrid (width height : ℕ) (t : Thread) : Type 0 where
  pub block_column : t.block_x < grid_side width
  pub block_line : t.block_y < grid_side height
  pub thread_column : t.thread_x < block_side
  pub thread_line : t.thread_y < block_side

-- Device memory of a known size.
pub record Buffer {ℓ} (A : Type ℓ) : Type ℓ where
  pub size : ℕ
  pub at : ℕ → A

-- Three channels of a pixel.
pub record Colour {ℓ} (F : Type ℓ) : Type ℓ where
  pub red : F
  pub green : F
  pub blue : F

-- What a function of the host returns.
abbrev pub status : Bool → ℤ
status failed = if failed then negsuc 0 else pos 0

-- `(c * height + y) * width + x`: plane `c` of an image that is stored plane by plane.
abbrev pub plane : (width height c x y : ℕ) → ℕ
plane width height c x y = (c * height + y) * width + x

-- An index that an `int` holds.
abbrev pub fits_int : ℕ → Bool
fits_int i = ltb i (2 ^ 31)

module _ {ℓ} {A : Type ℓ} where
  -- An access; `none` is one outside of the buffer, or one whose index overflows.
  pub load_at : Buffer A → ℤ → Option A
  load_at b (pos i) = if fits_int i && ltb i b.size then some (b.at i) else none
  load_at b (negsuc i) = none

  pub store_at : ℕ → A → Buffer A → Option (Buffer A)
  store_at i v b =
      if fits_int i && ltb i b.size then some (record b { at = update b.at i v }) else none

  -- The last lines of a kernel.
  pub store_colour : (width height x y : ℕ) → Colour A → Buffer A → Option (Buffer A)
  unfolding store_at
  store_colour width height x y v b = do
    b0 ← store_at (plane width height 0 x y) v.red b
    b1 ← store_at (plane width height 1 x y) v.green b0
    store_at (plane width height 2 x y) v.blue b1

  -- The threads run, one after the other.
  unfoldable pub run_threads :
      (Thread → Buffer A → Option (Buffer A)) → List Thread → Buffer A → Option (Buffer A)
  run_threads kernel [] b = some b
  run_threads kernel (t ∷ ts) b = elim (kernel t b) [
    | none ↦ none
    | some b' ↦ run_threads kernel ts b'
  ]
