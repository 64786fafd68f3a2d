-- ===== src/Shm/Tests.antt =====
-- Runs of the frame queue of cpp/src/shm_frame_queue.cpp.
use pantograph_arc_vision.Common.{◌≡◌, none, some, List, [], ◌∷◌, arith, All}
use pantograph_arc_vision.Common.Int.{pos}
use pantograph_arc_vision.Common.Dict.{find, insert, erase, eq_ℤ}
use pantograph_arc_vision.Common.{true, some, arith, refl}
use pantograph_arc_vision.Shm.{create, free_slots}
use pantograph_arc_vision.Shm.Names.{Host, HostAnswers, open_name, create_opened, create_at}
use pantograph_arc_vision.Shm.Names.Opened.{IsSound, IsOpened, create_at-IsOpened}
use pantograph_arc_vision.Shm.Sample.{busy}
use pantograph_arc_vision.Shm.{frame_size}
use pantograph_arc_vision.Shm.Fifo
use pantograph_arc_vision.Shm.Fifo.{Op, put, put_gpu, get, get_batch, sent_frame}
use pantograph_arc_vision.Shm.Run.{run, IsFit, run_refines}
use pantograph_arc_vision.Shm.Sample.{
  header, system, fresh, create-fresh, fresh-IsSized, frame_bytes, empty_output,
}

abbrev calls : List Op
calls =
    get empty_output
    ∷ put (header (pos 33)) frame_bytes (pos 5)
    ∷ put_gpu (header (pos 66)) none (pos 6)
    ∷ put_gpu (header (pos 66)) (some frame_bytes) (pos 7)
    ∷ get empty_output
    ∷ get_batch (λ i. 0 ∷ 0 ∷ []) (pos 8)
    ∷ []

calls-IsFit : All IsFit calls
unfolding frame_size
calls-IsFit = (tt, (omega arith, (tt, (omega arith, (tt, (tt, tt))))))

run_refines_example : run fresh calls ≡ Fifo.run [] calls
run_refines_example = run_refines system calls create-fresh fresh-IsSized calls-IsFit

-- A name with a queue that another process fills.
abbrev host : Host
host = record { names = (pos 5, pos 0) ∷ []; objects = (pos 0, busy) ∷ []; next = 1 }

host-IsSound : IsSound host
unfolding find eq_ℤ
host-IsSound n above = ground (arith, above)

abbrev answers : HostAnswers
answers = record { opened = true; truncated = true; mapped = true }

-- The same name once more: the same object, reset.
abbrev reset : Host
reset = record host {
  objects = (pos 0, record { write_seq = 0; read_seq = 0; slots = free_slots 64 busy.slots }) ∷ [];
}

resets : create_at busy answers (pos 5) host ≡ (some (pos 0), reset)
unfolding create_at create_opened open_name create find insert erase eq_ℤ
resets = refl

create_at-IsOpened_example : IsOpened (pos 5) (pos 0) host reset × IsSound reset
create_at-IsOpened_example =
    create_at-IsOpened busy answers (pos 5) (pos 0) host reset host-IsSound resets
