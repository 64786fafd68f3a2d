-- ===== src/Shm.antt =====
-- cpp/include/shm_frame_queue.h and cpp/src/shm_frame_queue.cpp: the single-producer,
-- single-consumer ring of video frames in shared memory. An operation returns its status and the
-- queue after it.
pub mod Inv
pub mod Fifo
pub mod Window
pub mod Publish
pub mod Deliver
pub mod Run
pub mod Names
pub mod Atomic
pub mod Sample
mod Tests
use pantograph_arc_vision.Common.{
  ℕ, zero, suc, ◌+◌, ◌-◌, ◌*◌, ◌%◌, ◌^◌, Bool, true, false, Option, none, some, List, [], ◌∷◌, ◌++◌,
  ltb, leb, if◌then◌else◌, length, take, drop, update,
}
use pantograph_arc_vision.Common.Int.{ℤ, pos, negsuc, to_size, ltb_ℤ, pos_part}

abbrev pub queue_capacity : ℕ
queue_capacity = 64

-- 1920 * 1080 * 3
abbrev pub max_frame_size : ℕ
max_frame_size = 6_220_800

pub data FrameType : Type 0 where
  visible_light ultraviolet : FrameType

pub record FrameHeader : Type 0 where
  pub pts_ns : ℤ
  pub width : ℤ
  pub height : ℤ
  pub channels : ℤ
  pub frame_type : FrameType
  pub stream_index : ℤ
  pub timestamp_wall : ℤ

pub data SlotState : Type 0 where
  free writing ready reading : SlotState

abbrev pub Bytes : Type 0
Bytes = List ℕ

pub record FrameSlot : Type 0 where
  pub header : FrameHeader
  pub bytes : Bytes
  pub state : SlotState

-- The slots are the array of 64 as a function of the index; the code reads it at `% 64` only.
-- The sequence numbers start at 0 and grow by one for each frame, so they are naturals.
pub record ShmFrameQueue : Type 0 where
  pub write_seq : ℕ
  pub read_seq : ℕ
  pub slots : ℕ → FrameSlot

-- The results 0, -1, -2, -3 and -4.
pub data Status : Type 0 where
  success null_argument no_room_or_frame slot_busy copy_failed : Status

abbrev pub code : Status → ℤ
code success = pos 0
code null_argument = negsuc 0
code no_room_or_frame = negsuc 1
code slot_busy = negsuc 2
code copy_failed = negsuc 3

abbrev pub set_slot : ShmFrameQueue → ℕ → FrameSlot → ShmFrameQueue
set_slot q i s = record q { slots = update q.slots i s }

-- What the operating system returns to `shm_queue_create`: whether `shm_open` and `ftruncate`
-- succeed, and the mapped memory, with whatever it holds, unless `mmap` fails.
pub record ShmEnv : Type 0 where
  pub opened : Bool
  pub truncated : Bool
  pub mapped : Option ShmFrameQueue

-- The loop of `shm_queue_create` that stores FREE in the states of the slots 0 to n - 1, in turn.
pub free_slots : ℕ → (ℕ → FrameSlot) → ℕ → FrameSlot
free_slots zero slots = slots
free_slots (suc n) slots =
    let rest = free_slots n slots in update rest n (record (rest n) { state = free })

pub create : ShmEnv → Option ShmFrameQueue
create env =
    if env.opened
    then (if env.truncated
        then (elim env.mapped [
          | none ↦ none
          | some q ↦
              some (record q {
                write_seq = 0;
                read_seq = 0;
                slots = free_slots queue_capacity q.slots;
              })
        ])
        else none)
    else none

-- `static_cast<size_t>(width) * height * channels`, cut at the size of a slot.
unfoldable pub frame_size : FrameHeader → ℕ
frame_size h =
    let n = to_size h.width * to_size h.height % 2 ^ 64 * to_size h.channels % 2 ^ 64 in
    if ltb max_frame_size n then max_frame_size else n

-- `memcpy(dst, src, n)`.
unfoldable pub memcpy : Bytes → Bytes → ℕ → Bytes
memcpy dst src n = take n src ++ drop n dst

-- `state.compare_exchange_strong(expected, desired)` succeeds.
abbrev pub is_state : SlotState → SlotState → Bool
is_state free free = true
is_state writing writing = true
is_state ready ready = true
is_state reading reading = true
is_state _ _ = false

abbrev pub write_slot : ShmFrameQueue → ℕ
write_slot q = q.write_seq % queue_capacity

abbrev pub read_slot : ShmFrameQueue → ℕ
read_slot q = q.read_seq % queue_capacity

-- The header as it stands in the slot: `now` is `steady_clock::now()`.
abbrev pub stamp : FrameHeader → ℤ → FrameHeader
stamp h now = record h { timestamp_wall = now }

pub push_frame : ShmFrameQueue → FrameHeader → Bytes → ℤ → Status × ShmFrameQueue
push_frame q h bytes now =
    let slot = q.slots (write_slot q) in
    if leb queue_capacity (q.write_seq - q.read_seq)
    then (no_room_or_frame, q)
    else (if is_state slot.state free
        then (
          success,
          record q {
            write_seq = q.write_seq + 1;
            slots = update q.slots (write_slot q) (record {
              header = stamp h now;
              bytes = memcpy slot.bytes bytes (frame_size h);
              state = ready;
            });
          },
        )
        else (slot_busy, q))

-- `shm_queue_push`, where `none` is a null pointer.
pub push :
    Option ShmFrameQueue → Option FrameHeader → Option Bytes → ℤ → Status × Option ShmFrameQueue
push (some q) (some h) (some bytes) now = let (s, q') = push_frame q h bytes now in (s, some q')
push q h bytes now = (null_argument, q)

-- What a pop writes through its out parameters.
pub record Output : Type 0 where
  pub header : FrameHeader
  pub bytes : Bytes

abbrev read_out : FrameSlot → Bytes → Output
read_out slot dst = record {
  header = slot.header;
  bytes = memcpy dst slot.bytes (frame_size slot.header);
}

unfoldable pub pop_frame : ShmFrameQueue → Output → Status × Output × ShmFrameQueue
pop_frame q out =
    let slot = q.slots (read_slot q) in
    if leb q.write_seq q.read_seq
    then (no_room_or_frame, out, q)
    else (if is_state slot.state ready
        then (
          success,
          read_out slot out.bytes,
          record q {
            read_seq = q.read_seq + 1;
            slots = update q.slots (read_slot q) (record slot { state = free });
          },
        )
        else (slot_busy, out, q))

-- `shm_queue_pop`; the out parameters are one `Output`, since a null one of either stops the call.
pub pop : Option ShmFrameQueue → Option Output → Status × Option Output × Option ShmFrameQueue
pop (some q) (some out) = let (s, out', q') = pop_frame q out in (s, some out', some q')
pop q out = (null_argument, out, q)

-- `shm_queue_push_gpu`: `copied` is what `cudaMemcpyAsync` brings from the device, or its failure.
pub push_gpu_frame : ShmFrameQueue → FrameHeader → Option Bytes → ℤ → Status × ShmFrameQueue
push_gpu_frame q h copied now =
    let slot = q.slots (write_slot q) in
    if leb queue_capacity (q.write_seq - q.read_seq)
    then (no_room_or_frame, q)
    else (if is_state slot.state free
        then (elim copied [
          | none ↦ (
            copy_failed,
            set_slot q (write_slot q) (record slot { header = stamp h now; state = free }),
          )
          | some bytes ↦ (
            success,
            record q {
              write_seq = q.write_seq + 1;
              slots = update q.slots (write_slot q) (record {
                header = stamp h now;
                bytes = memcpy slot.bytes bytes (frame_size h);
                state = ready;
              });
            },
          )
        ])
        else (slot_busy, q))

-- The loop of `shm_queue_pop_batch` from index `i` on, with `n` rounds to go: the frames that it
-- delivers (their number is `*out_count`) and the slots after it. The destinations are the
-- caller's buffers from index `i` on.
pub batch_loop : ℕ → (ℕ → Bytes) → (r i : ℕ) → (ℕ → FrameSlot) → List Output × (ℕ → FrameSlot)
batch_loop zero dst r i slots = ([], slots)
batch_loop (suc n) dst r i slots =
    let idx = (r + i) % queue_capacity in
    let slot = slots idx in
    let (outs, slots') =
      batch_loop n dst r (i + 1) (update slots idx (record slot { state = free })) in
    if is_state slot.state ready then (read_out slot (dst i) ∷ outs, slots') else ([], slots)

-- `int count`: what is available, or `max_count` if that is less.
pub batch_size : ShmFrameQueue → ℤ → ℕ
batch_size q max_count =
    let available = q.write_seq - q.read_seq in
    if ltb_ℤ (pos available) max_count then available else pos_part max_count

pub pop_batch_frames : ShmFrameQueue → (ℕ → Bytes) → ℤ → List Output × ShmFrameQueue
pop_batch_frames q dst max_count =
    let (outs, slots') = batch_loop (batch_size q max_count) dst q.read_seq 0 q.slots in
    (outs, record q { read_seq = q.read_seq + length outs; slots = slots' })

-- `shm_queue_pop_batch`: the list is what it writes to `out_headers` and `out_datas`, and its length
-- what it leaves in `*out_count`. `none` is a null pointer among the arguments.
pub pop_batch :
    Option ShmFrameQueue → Option (ℕ → Bytes) → ℤ → Status × List Output × Option ShmFrameQueue
pop_batch (some q) (some dst) max_count =
    let (outs, q') = pop_batch_frames q dst max_count in (success, outs, some q')
pop_batch q dst max_count = (null_argument, [], q)
