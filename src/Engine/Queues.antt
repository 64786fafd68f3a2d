-- ===== src/Engine/Queues.antt =====
-- cpp/src/engine_main.cpp: the queues that `stream_detect_loop` pops from, as pointers into the memory that
-- the engine shares with the processes that fill it. Threads may hold the same pointer.
pub mod Frame
pub mod Pair
use pantograph_arc_vision.Common.{
  ◌≡◌, refl, Bool, true, false, Option, none, some, List, if◌then◌else◌,
}
use pantograph_arc_vision.Common.Int.{ℤ, ltb_ℤ}
use pantograph_arc_vision.Common.Dict.{find, insert}
use pantograph_arc_vision.Shm.{ShmFrameQueue, Output, Status, null_argument, pop_frame}
use pantograph_arc_vision.Engine.Loop.{is_failure, pts_distance}

-- The queues that are mapped, by their addresses.
abbrev pub Memory : Type 0
Memory = List (ℤ × ShmFrameQueue)

-- A piece of code that works on the memory; `none` is a fault.
abbrev pub M {ℓ} : Type ℓ → Type ℓ
M A = Memory → Option (A × Memory)

-- What follows a piece that has run.
abbrev pub after {ℓ κ} :
    {A : Type ℓ} {B : Type κ} → (A → M B) → Option (A × Memory) → Option (B × Memory)
after f none = none
after f (some (a, m)) = f a m

infixl 5 ◌>>=◌
abbrev pub ◌>>=◌ {ℓ κ} : {A : Type ℓ} {B : Type κ} → M A → (A → M B) → M B
◌>>=◌ x f m = after f (x m)

abbrev pub pure {ℓ} : {A : Type ℓ} → A → M A
pure a h = some (a, h)

-- `StreamQueues`; a null pointer is `none`.
pub record StreamQueues : Type 0 where
  pub visible_queue : Option ℤ
  pub uv_queue : Option ℤ

-- The variables of a thread: its copy of the queues, and `vis_header` and `vis_data`, `uv_header` and
-- `uv_data`.
pub record Locals : Type 0 where
  pub queues : StreamQueues
  pub vis : Output
  pub uv : Output

-- `shm_queue_pop` through a pointer; a pointer to nothing is a fault.
unfoldable pub pop_at : Option ℤ → Output → M (Status × Output)
pop_at none out m = some ((null_argument, out), m)
pop_at (some a) out m = elim (find a m) [
  | none ↦ none
  | some q ↦ let (rc, out', q') = pop_frame q out in some ((rc, out'), insert a q' m)
]

-- The first part of a pass of `stream_detect_loop`.
unfoldable pub pop_pair_at :
    (sync_tolerance_ns : ℤ) → Locals → M (Option (Output × Output) × Locals)
pop_pair_at tolerance t = do
  (rc_vis, vis) ← pop_at t.queues.visible_queue t.vis
  if is_failure rc_vis then pure (none, record t { vis = vis }) else do
    (rc_uv, uv) ← pop_at t.queues.uv_queue t.uv
    if is_failure rc_uv
        then pure (none, record t { vis = vis; uv = uv })
        else (if ltb_ℤ tolerance (pts_distance vis.header.pts_ns uv.header.pts_ns)
            then pure (none, record t { vis = vis; uv = uv })
            else pure (some (vis, uv), record t { vis = vis; uv = uv }))
