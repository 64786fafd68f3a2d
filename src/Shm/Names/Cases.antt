-- ===== src/Shm/Names/Cases.antt =====
-- cpp/src/shm_frame_queue.cpp: the two cases of the name that `shm_queue_create` is called with, and the
-- queue that it returns.
use pantograph_arc_vision.Common.{
  ◌+◌, ◌-◌, ◌≡◌, sym, ap, inl, inr, Bool, true, false, Option, none, some, [], if◌then◌else◌, arith,
  Option-cases, Bool-cases, some_inj,
}
use pantograph_arc_vision.Common.Int.{ℤ, pos}
use pantograph_arc_vision.Common.Dict.{find, insert}
use pantograph_arc_vision.Shm.{ShmFrameQueue, ShmEnv, create}
use pantograph_arc_vision.Shm.Inv.{IsValid, create-IsValid}
use pantograph_arc_vision.Shm.Window.{contents, window}
use pantograph_arc_vision.Shm.Names.{Host, HostAnswers, open_name, create_opened, create_at}

pub open_known :
    (blank : ShmFrameQueue) (key o : ℤ) (h : Host)
    → find key h.names ≡ some o
    → open_name blank key h ≡ (o, h)
unfolding open_name
open_known blank key o h e = simp (open_name, e)

abbrev pub with_object : ShmFrameQueue → ℤ → Host → Host
with_object blank key h = record {
  names = insert key (pos h.next) h.names;
  objects = insert (pos h.next) blank h.objects;
  next = h.next + 1;
}

pub open_new :
    (blank : ShmFrameQueue) (key : ℤ) (h : Host)
    → find key h.names ≡ none
    → open_name blank key h ≡ (pos h.next, with_object blank key h)
unfolding open_name
open_new blank key h e = simp (open_name, e)

contents-created : (q : ShmFrameQueue) → q.read_seq ≡ 0 → q.write_seq ≡ 0 → contents q ≡ []
contents-created q r w =
    let none_left : q.write_seq - q.read_seq ≡ 0 = omega (arith, r, w) in
    ap (window q.slots q.read_seq) none_left

-- The environment of the call.
abbrev env_of : HostAnswers → ℤ → Host → ShmEnv
env_of a o h = record {
  opened = true;
  truncated = a.truncated;
  mapped = if a.mapped then find o h.objects else none;
}

created_mapped :
    (env : ShmEnv) {q : ShmFrameQueue}
    → create env ≡ some q
    → (m : ShmFrameQueue) × (env.mapped ≡ some m)
unfolding create
created_mapped env e = elim (Option-cases env.mapped) [
  | inl gone ↦ absurd (ground (arith, e))
  | inr found ↦ found
]

if_some :
    (b : Bool) (o : Option ShmFrameQueue) {m : ShmFrameQueue}
    → (if b then o else none) ≡ some m
    → o ≡ some m
if_some true o e = e
if_some false o e = cc

pub opened_cases :
    (a : HostAnswers) (o o' : ℤ) (h h1 : Host)
    → create_opened a (o, h) ≡ (some o', h1)
    → (q : ShmFrameQueue) × (o' ≡ o)
      × (h1 ≡ record h { objects = insert o q h.objects })
      × IsValid q
      × (contents q ≡ [])
      × ((m : ShmFrameQueue) × (find o h.objects ≡ some m))
unfolding create_opened
opened_cases a o o' h h1 e = elim (Option-cases (create (env_of a o h))) [
  | inl fails ↦
      let shape = rw (create_opened, fails) at e in
      let clash : none ≡ some o' = ap (λ r. r.0) shape in cc
  | inr (q, made) ↦
      let shape = rw (create_opened, made) at e in
      let (v, at_start, at_end) = create-IsValid (env_of a o h) made in
      let (m, mapped) = created_mapped (env_of a o h) made in
      (
        q,
        some_inj (sym (ap (λ r. r.0) shape)),
        sym (ap (λ r. r.1) shape),
        v,
        contents-created q at_start at_end,
        (m, if_some a.mapped (find o h.objects) mapped),
      )
]

pub create_opened_at :
    (blank : ShmFrameQueue) (a : HostAnswers) (key o : ℤ) (h h1 : Host)
    → create_at blank a key h ≡ (some o, h1)
    → create_opened a (open_name blank key h) ≡ (some o, h1)
unfolding create_at create_opened
create_opened_at blank a key o h h1 e = elim (Bool-cases a.opened) [
  | inl yes_ ↦ rw (create_at, yes_) at e
  | inr no_ ↦
      let shape = rw (create_at, no_) at e in let clash : none ≡ some o = ap (λ r. r.0) shape in cc
]
