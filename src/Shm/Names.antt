-- ===== src/Shm/Names.antt =====
-- cpp/src/shm_frame_queue.cpp: `shm_queue_create` and `shm_queue_destroy` by the names of the shared memory.
-- The system keeps an object for each name; every mapping of an object sees the same memory.
pub mod Cases
pub mod Opened
use pantograph_arc_vision.Common.{
  ℕ, ◌+◌, ◌-◌, ◌≤◌, ◌<◌, ◌≡◌, refl, sym, subst, ap, ◌∙◌, inl, inr, Bool, true, false, Option, none,
  some, List, [], if◌then◌else◌, arith, Option-cases, Bool-cases, some_inj,
}
use pantograph_arc_vision.Common.Int.{ℤ, pos}
use pantograph_arc_vision.Common.Dict.{
  eq_ℤ, eq_ℤ-cases, find, insert, erase, find-insert, find-insert_other, find-erase,
  find-erase_other,
}
use pantograph_arc_vision.Shm.{ShmFrameQueue, ShmEnv, create}

-- The names by their keys, with their objects, and what the objects hold; the next object has number `next`.
pub record Host : Type 0 where
  pub names : List (ℤ × ℤ)
  pub objects : List (ℤ × ShmFrameQueue)
  pub next : ℕ

-- Whether `shm_open`, `ftruncate` and `mmap` succeed.
pub record HostAnswers : Type 0 where
  pub opened : Bool
  pub truncated : Bool
  pub mapped : Bool

-- `shm_open` with `O_CREAT`: the object of the name, a new one if there is none. `blank` is what a new object
-- holds.
unfoldable pub open_name : (blank : ShmFrameQueue) → ℤ → Host → ℤ × Host
open_name blank key h = elim (find key h.names) [
  | some o ↦ (o, h)
  | none ↦ (
    pos h.next,
    record {
      names = insert key (pos h.next) h.names;
      objects = insert (pos h.next) blank h.objects;
      next = h.next + 1;
    },
  )
]

-- The part of `shm_queue_create` behind `shm_open`.
unfoldable pub create_opened : HostAnswers → ℤ × Host → Option ℤ × Host
create_opened a (o, h) =
    let memory = if a.mapped then find o h.objects else none in
    elim (create (record { opened = true; truncated = a.truncated; mapped = memory })) [
      | none ↦ (none, h)
      | some q ↦ (some o, record h { objects = insert o q h.objects })
    ]

-- `shm_queue_create`; the queue is known by its object.
unfoldable pub create_at : (blank : ShmFrameQueue) → HostAnswers → ℤ → Host → Option ℤ × Host
create_at blank a key h = if a.opened then create_opened a (open_name blank key h) else (none, h)

-- `shm_queue_destroy`: the name is gone; other mappings of the object keep it.
pub destroy_at : Option ℤ → ℤ → Host → Host
destroy_at none key h = h
destroy_at (some p) key h = record h { names = erase key h.names }
