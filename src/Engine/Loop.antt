-- ===== src/Engine/Loop.antt =====
-- cpp/src/engine_main.cpp: `stream_detect_loop`, the loop of one stream's thread. Its queues are the ones
-- that were registered. The other threads and processes work between two passes of the loop.
pub mod Pairs
pub mod Ends
use pantograph_arc_vision.Common.{
  ◌>>=◌, ℕ, zero, suc, ◌+◌, ◌*◌, ◌%◌, ◌^◌, Bool, true, false, Option, none, some, List, [], ◌∷◌,
  length, take, leb, if◌then◌else◌,
}
use pantograph_arc_vision.Common.Int.{ℤ, pos, ◌-ℤ◌, ltb_ℤ, to_size}
use pantograph_arc_vision.Common.Floating.{Floating}
use pantograph_arc_vision.Shm.{
  ShmFrameQueue, FrameHeader, Output, Status, success, null_argument, no_room_or_frame, slot_busy,
  copy_failed, pop_frame,
}
use pantograph_arc_vision.Trt.{Detection}
use pantograph_arc_vision.Wire.{Bytes, Layout}
use pantograph_arc_vision.Detector.{Event, Devices, Input}
use pantograph_arc_vision.Engine.{Globals, ResultMsg, Sender, process_frame}

-- The queues of the stream, and `vis_header` and `vis_data`, `uv_header` and `uv_data`.
pub record LoopState : Type 0 where
  pub visible_queue : ShmFrameQueue
  pub uv_queue : ShmFrameQueue
  pub vis : Output
  pub uv : Output

-- `rc_vis != 0`.
abbrev pub is_failure : Status → Bool
is_failure success = false
is_failure null_argument = true
is_failure no_room_or_frame = true
is_failure slot_busy = true
is_failure copy_failed = true

-- `pts_diff`, the distance of two time stamps.
abbrev pub pts_distance : ℤ → ℤ → ℤ
pts_distance a b =
    let pts_diff = a -ℤ b in if ltb_ℤ pts_diff (pos 0) then pos 0 -ℤ pts_diff else pts_diff

-- The first part of a pass: the two frames that belong together, if it finds them.
pub pop_pair : (sync_tolerance_ns : ℤ) → LoopState → Option (Output × Output) × LoopState
pop_pair tolerance s =
    let (rc_vis, vis, visible_queue) = pop_frame s.visible_queue s.vis in
    let s1 = record s { vis = vis; visible_queue = visible_queue } in
    if is_failure rc_vis
    then (none, s1)
    else (let (rc_uv, uv, uv_queue) = pop_frame s.uv_queue s.uv in
        let s2 = record s1 { uv = uv; uv_queue = uv_queue } in
        if is_failure rc_uv
        then (none, s2)
        else (if ltb_ℤ tolerance (pts_distance vis.header.pts_ns uv.header.pts_ns)
            then (none, s2)
            else (some (vis, uv), s2)))

-- `cudaMemcpy` of `width * height * channels` bytes from the frame's buffer; `none` is a read past its end.
unfoldable pub upload : Output → Option Bytes
upload frame =
    let h = frame.header in
    let size = to_size h.width * to_size h.height % 2 ^ 64 * to_size h.channels % 2 ^ 64 in
    if leb size (length frame.bytes) then some (take size frame.bytes) else none

-- What holds for all passes of the loop of a stream; `devices` is what the device does for a pair of images.
pub record Setting {ℓ} (F D : Type ℓ) : Type ℓ where
  pub sort : List (Detection F) → List (Detection F)
  pub sort_events : List (Event F D) → List (Event F D)
  pub widen : F → D
  pub devices : (visible uv : Bytes) → Devices F
  pub sender : Sender
  pub stream_index : ℤ
  pub sync_tolerance_ns : ℤ

-- What a pass meets: the value of `g_running` that it reads, and the globals and the queues as the others
-- have left them.
pub record Turn {ℓ} (F D : Type ℓ) : Type ℓ where
  pub running : Bool
  pub others : Globals F D × LoopState → Globals F D × LoopState

-- How the loop ends: when it reads that it is to stop, in a fault, or not within its fuel.
pub data Ending {ℓ} (F D : Type ℓ) : Type ℓ where
  stopped : (passes : ℕ) → Globals F D → LoopState → Ending F D
  faulted : Ending F D
  out_of_fuel : Ending F D

module _ {ℓ} {F D : Type ℓ} ⦃f : Floating F⦄ ⦃d : Floating D⦄ ⦃l : Layout (ResultMsg F D)⦄
    (c : Setting F D) where
  -- The part of a pass behind the copies to the device.
  abbrev pub pair_input : (vis uv : Output) (visible_gpu uv_gpu : Bytes) → Input F
  pair_input vis uv visible_gpu uv_gpu = record {
    devices = c.devices visible_gpu uv_gpu;
    visible = visible_gpu;
    image = uv_gpu;
    width = vis.header.width;
    height = vis.header.height;
    pts_ns = vis.header.pts_ns;
    stream_index = c.stream_index;
  }

  unfoldable pub detect_pair : (vis uv : Output) → Globals F D → Option (Globals F D)
  detect_pair vis uv g = do
    visible_gpu ← upload vis
    uv_gpu ← upload uv
    (code, msg, g') ←
        process_frame c.sort c.sort_events c.widen c.sender (pair_input vis uv visible_gpu uv_gpu) g
    some g'

  pub loop_pass : Globals F D × LoopState → Option (Globals F D × LoopState)
  loop_pass (g, s) =
      let (pair, s') = pop_pair c.sync_tolerance_ns s in
      elim pair [
        | none ↦ some (g, s')
        | some (vis, uv) ↦ (detect_pair vis uv g >>= (λ g'. some (g', s')))
      ]

  -- The loop from pass `n` on.
  pub detect_loop : (fuel : ℕ) → (ℕ → Turn F D) → ℕ → Globals F D × LoopState → Ending F D
  detect_loop zero turns n (g, s) = out_of_fuel
  detect_loop (suc fuel) turns n (g, s) = elim (turns n).running [
    | false ↦ stopped n g s
    | true ↦ elim (loop_pass ((turns n).others (g, s))) [
      | none ↦ faulted
      | some after ↦ detect_loop fuel turns (n + 1) after
    ]
  ]
