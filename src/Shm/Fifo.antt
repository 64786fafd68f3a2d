-- ===== src/Shm/Fifo.antt =====
-- The queue of at most 64 frames that the functions of cpp/src/shm_frame_queue.cpp are compared with.
use pantograph_arc_vision.Common.{
  ℕ, Option, none, some, List, [], ◌∷◌, ◌++◌, leb, if◌then◌else◌, length, take, drop,
}
use pantograph_arc_vision.Common.Int.{ℤ, pos_part}
use pantograph_arc_vision.Shm.{
  FrameHeader, Bytes, Output, Status, success, no_room_or_frame, copy_failed, stamp, frame_size,
}

-- A client's calls: `shm_queue_push`, `shm_queue_push_gpu`, `shm_queue_pop` and
-- `shm_queue_pop_batch`, with what each is handed.
pub data Op : Type 0 where
  put : FrameHeader → Bytes → ℤ → Op
  put_gpu : FrameHeader → Option Bytes → ℤ → Op
  get : Output → Op
  get_batch : (ℕ → Bytes) → ℤ → Op

-- The status of a call and the frames that it delivers.
abbrev pub Reply : Type 0
Reply = Status × List Output

-- A frame as it is delivered: stamped, and with as many bytes as its header says.
abbrev pub sent_frame : FrameHeader → Bytes → ℤ → Output
sent_frame h bytes now = record { header = stamp h now; bytes = take (frame_size h) bytes }

unfoldable pub push : List Output → Output → Status × List Output
push q f = if leb 64 (length q) then (no_room_or_frame, q) else (success, q ++ (f ∷ []))

unfoldable pub push_gpu : List Output → FrameHeader → Option Bytes → ℤ → Status × List Output
unfolding push
push_gpu q h (some bytes) now = push q (sent_frame h bytes now)
push_gpu q h none now = if leb 64 (length q) then (no_room_or_frame, q) else (copy_failed, q)

unfoldable pub pop : List Output → Status × List Output × List Output
pop [] = (no_room_or_frame, [], [])
pop (f ∷ q) = (success, f ∷ [], q)

unfoldable pub step : List Output → Op → Reply × List Output
unfolding push push_gpu pop
step q (put h bytes now) = let (s, q') = push q (sent_frame h bytes now) in ((s, []), q')
step q (put_gpu h copied now) = let (s, q') = push_gpu q h copied now in ((s, []), q')
step q (get out) = let (s, fs, q') = pop q in ((s, fs), q')
step q (get_batch dst max_count) =
    ((success, take (pos_part max_count) q), drop (pos_part max_count) q)

unfoldable pub run : List Output → List Op → List Reply
unfolding step
run q [] = []
run q (op ∷ ops) = let (reply, q') = step q op in reply ∷ run q' ops
