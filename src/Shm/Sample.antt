-- ===== src/Shm/Sample.antt =====
-- Queues of cpp/src/shm_frame_queue.cpp to run functions on: a new one, and one with a frame.
use pantograph_arc_vision.Common.{ℕ, zero, suc, ◌≡◌, refl, ap, true, some, [], ◌∷◌, arith, length}
use pantograph_arc_vision.Common.Int.{ℤ, pos, negsuc}
use pantograph_arc_vision.Shm.{
  ShmEnv, create, free_slots, ShmFrameQueue, FrameSlot, FrameHeader, ultraviolet, writing, Bytes,
  Output, max_frame_size, frame_size,
}
use pantograph_arc_vision.Shm.Fifo.{put}
use pantograph_arc_vision.Shm.Inv.{IsValid, create-IsValid}
use pantograph_arc_vision.Shm.Window.{IsSized}
use pantograph_arc_vision.Shm.Run.{step, step-IsValid, step-IsSized}

pub zeros : ℕ → Bytes
zeros zero = []
zeros (suc n) = 0 ∷ zeros n

pub length-zeros : (n : ℕ) → length (zeros n) ≡ n
unfolding zeros
length-zeros zero = refl
length-zeros (suc n) = ap suc (length-zeros n)

abbrev pub header : ℤ → FrameHeader
header pts = record {
  pts_ns = pts;
  width = pos 2;
  height = pos 1;
  channels = pos 1;
  frame_type = ultraviolet;
  stream_index = pos 3;
  timestamp_wall = pos 0;
}

abbrev pub old_slot : FrameSlot
old_slot = record { header = header (pos 0); bytes = zeros max_frame_size; state = writing }

-- The memory of a queue that another process left behind.
abbrev pub left_behind : ShmFrameQueue
left_behind = record { write_seq = 900; read_seq = 70; slots = λ i. old_slot }

abbrev pub system : ShmEnv
system = record { opened = true; truncated = true; mapped = some left_behind }

abbrev pub fresh : ShmFrameQueue
fresh = record { write_seq = 0; read_seq = 0; slots = free_slots 64 left_behind.slots }

pub free_slots-bytes :
    (n i : ℕ) (slots : ℕ → FrameSlot) → (free_slots n slots i).bytes ≡ (slots i).bytes
unfolding free_slots
free_slots-bytes zero i slots = refl
free_slots-bytes (suc n) i slots =
    ground (arith, free_slots-bytes n i slots, free_slots-bytes n n slots)

pub create-fresh : create system ≡ some fresh
unfolding create
create-fresh = refl

pub fresh-IsSized : IsSized fresh
fresh-IsSized i =
    omega (arith, ap length (free_slots-bytes 64 i left_behind.slots), length-zeros max_frame_size)

abbrev pub frame_bytes : Bytes
frame_bytes = 17 ∷ 4 ∷ []

abbrev pub empty_output : Output
empty_output = record { header = header (negsuc 0); bytes = 0 ∷ 0 ∷ [] }

pub header_size : frame_size (header (pos 33)) ≡ 2
unfolding frame_size
header_size = refl

pub fresh-IsValid : IsValid fresh
fresh-IsValid = (create-IsValid system create-fresh).0

-- The queue with one frame in flight.
abbrev pub busy : ShmFrameQueue
busy = (step fresh (put (header (pos 33)) frame_bytes (pos 5))).1

pub busy-IsValid : IsValid busy
busy-IsValid =
    step-IsValid fresh (put (header (pos 33)) frame_bytes (pos 5)) fresh-IsValid fresh-IsSized

pub busy-IsSized : IsSized busy
busy-IsSized =
    step-IsSized fresh (put (header (pos 33)) frame_bytes (pos 5)) (omega (arith, header_size))
      fresh-IsValid fresh-IsSized
