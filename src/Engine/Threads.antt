-- ===== src/Engine/Threads.antt =====
-- cpp/src/engine_main.cpp: the registered queues, `arcvision_engine_run_loop` with its threads, and the end
-- of the engine. A pass of `stream_detect_loop` is one step, and the threads make their passes in any order.
pub mod Begin
pub mod Detect
pub mod Owner
pub mod Pass
pub mod Share
pub mod Interleave
pub mod Stop
mod Tests
use pantograph_arc_vision.Common.{
  ◌>>=◌, ℕ, zero, suc, ◌+◌, Bool, true, false, Option, none, some, List, [], ◌∷◌, if◌then◌else◌,
}
use pantograph_arc_vision.Common.Int.{ℤ, pos, pos_part}
use pantograph_arc_vision.Common.Floating.{Floating}
use pantograph_arc_vision.Common.Dict.{find, insert, erase}
use pantograph_arc_vision.Shm.{ShmFrameQueue, Output}
use pantograph_arc_vision.Wire.{Layout}
use pantograph_arc_vision.Engine.{Globals, ResultMsg, engine_shutdown}
use pantograph_arc_vision.Engine.Loop.{Setting, detect_pair}
use pantograph_arc_vision.Engine.Queues.{Memory, StreamQueues, Locals, pop_pair_at}

-- The engine with its queues and its running threads, by their streams.
pub record World {ℓ} (F D : Type ℓ) : Type ℓ where
  pub globals : Globals F D
  pub stream_queues : List (ℤ × StreamQueues)
  pub memory : Memory
  pub threads : List (ℤ × Locals)

-- What a thread finds in the buffers that it allocates, and in its two headers.
pub record Uninitialised : Type 0 where
  pub vis : Output
  pub uv : Output

abbrev pub new_thread : (ℤ → Uninitialised) → ℤ → StreamQueues → Locals
new_thread fresh i queues = record { queues = queues; vis = (fresh i).vis; uv = (fresh i).uv }

module _ {ℓ} {F D : Type ℓ} where
  -- `arcvision_engine_set_stream_queues`.
  abbrev pub set_stream_queues : ℤ → (visible uv : Option ℤ) → World F D → World F D
  set_stream_queues i visible uv w = record w {
    stream_queues = insert i (record { visible_queue = visible; uv_queue = uv }) w.stream_queues;
  }

  -- The part of `stream_detect_loop` before its loop: without queues the thread ends.
  pub start_thread : (ℤ → Uninitialised) → ℤ → World F D → World F D
  start_thread fresh i w = elim (find i w.stream_queues) [
    | none ↦ w
    | some queues ↦ record w { threads = insert i (new_thread fresh i queues) w.threads }
  ]

  -- The loop of `arcvision_engine_run_loop` that starts the threads, from stream `i` on with `n` to go.
  pub start_threads : (ℤ → Uninitialised) → (n i : ℕ) → World F D → World F D
  start_threads fresh zero i w = w
  start_threads fresh (suc n) i w = start_threads fresh n (i + 1) (start_thread fresh (pos i) w)

  -- The engine at the point of `arcvision_engine_run_loop` at which all threads are started, and it begins to
  -- wait for them in `join`; it returns when the last of them has ended.
  pub run_loop : (ℤ → Uninitialised) → World F D → World F D
  run_loop fresh w = start_threads fresh (pos_part w.globals.num_streams) 0 w

  -- The whole of `arcvision_engine_shutdown`, at a moment at which no thread is inside of a pass: one that is
  -- goes on with a detector and a publisher that are deleted, which this step does not show.
  pub shutdown_world : ⦃f : Floating F⦄ ⦃d : Floating D⦄ → World F D → Option (World F D)
  shutdown_world w = do
    g ← engine_shutdown w.globals
    some (record w { globals = g; stream_queues = [] })

-- A step: a thread's next pass, or another process that works on a queue.
pub data Act : Type 0 where
  pass : ℤ → Act
  write : ℤ → ShmFrameQueue → Act

module _ {ℓ} {F D : Type ℓ} ⦃f : Floating F⦄ ⦃d : Floating D⦄ ⦃l : Layout (ResultMsg F D)⦄
    (c : Setting F D) where
  -- What is left after a pass that works: the frames that belong together are processed.
  pub finish_pass :
      ℤ → World F D → (Option (Output × Output) × Locals) × Memory → Option (World F D)
  finish_pass i w ((none, t), m) = some (record w { memory = m; threads = insert i t w.threads })
  finish_pass i w ((some (vis, uv), t), m) = do
    g ← detect_pair (record c { stream_index = i }) vis uv w.globals
    some (record w { globals = g; memory = m; threads = insert i t w.threads })

  -- A pass of the thread of stream `i`, if it has one; a thread that reads that it is to stop ends.
  pub thread_pass : ℤ → World F D → Option (World F D)
  thread_pass i w = elim (find i w.threads) [
    | none ↦ some w
    | some t ↦
        if w.globals.running
        then (pop_pair_at c.sync_tolerance_ns t w.memory >>= finish_pass i w)
        else some (record w { threads = erase i w.threads })
  ]

  pub act : Act → World F D → Option (World F D)
  act (pass i) w = thread_pass i w
  act (write a q) w = some (record w { memory = insert a q w.memory })

  pub run_acts : List Act → World F D → Option (World F D)
  run_acts [] w = some w
  run_acts (a ∷ acts) w = do w1 ← act a w; run_acts acts w1
