-- ===== src/Shm/Names/Opened.antt =====
-- cpp/src/shm_frame_queue.cpp: which memory `shm_queue_create` gives for a name, and what it leaves of the
-- others.
use pantograph_arc_vision.Common.{
  ℕ, ◌≤◌, ◌≡◌, refl, sym, subst, ap, ◌∙◌, inl, inr, false, none, some, [], arith, Option-cases,
  some_inj,
}
use pantograph_arc_vision.Common.Int.{ℤ, pos}
use pantograph_arc_vision.Common.Dict.{
  eq_ℤ, eq_ℤ-cases, find, insert, find-insert, find-insert_other, find-erase,
}
use pantograph_arc_vision.Shm.{ShmFrameQueue}
use pantograph_arc_vision.Shm.Inv.{IsValid}
use pantograph_arc_vision.Shm.Window.{contents}
use pantograph_arc_vision.Shm.Names.{Host, HostAnswers, create_opened, create_at, destroy_at}
use pantograph_arc_vision.Shm.Names.Cases.{
  with_object, open_known, open_new, opened_cases, create_opened_at,
}

-- Numbers from `next` on are those of no object.
abbrev pub IsSound : Host → Type 0
IsSound h = (n : ℕ) → h.next ≤ n → find (pos n) h.objects ≡ none

-- What a call that succeeds leaves: the object of the name, with an empty queue in a valid state. It is the
-- object that the name had, or a new one if it had none; all other names and objects are as before.
pub record IsOpened (key o : ℤ) (h h1 : Host) : Type 0 where
  pub queue : ShmFrameQueue
  pub there : find o h1.objects ≡ some queue
  pub valid : IsValid queue
  pub empty : contents queue ≡ []
  pub named : find key h1.names ≡ some o
  pub kept : (o0 : ℤ) → find key h.names ≡ some o0 → o0 ≡ o
  pub new : find key h.names ≡ none → find o h.objects ≡ none
  pub other_names : (k : ℤ) → eq_ℤ k key ≡ false → find k h1.names ≡ find k h.names
  pub other_objects : (p : ℤ) → eq_ℤ p o ≡ false → find p h1.objects ≡ find p h.objects

created_as :
    (blank : ShmFrameQueue) (a : HostAnswers) (key o : ℤ) (h h1 : Host)
    → IsSound h
    → create_at blank a key h ≡ (some o, h1)
    → IsOpened key o h h1
created_as blank a key o h h1 s e =
    let e1 = create_opened_at blank a key o h h1 e in
    elim (Option-cases (find key h.names)) [
      | inr (o0, known) ↦
          let (q, same, shape, v, none_left, _) =
            opened_cases a o0 o h h1
              (ap (create_opened a) (sym (open_known blank key o0 h known)) ∙ e1) in
          subst (IsOpened key o h) (sym shape) (
            subst (λ x. IsOpened key x h (record h { objects = insert o0 q h.objects })) (sym same)
              (record {
                queue = q;
                there = find-insert o0 q h.objects;
                valid = v;
                empty = none_left;
                named = known;
                kept = λ o1 e'. some_inj (sym e' ∙ known);
                new = λ absent. let clash = sym absent ∙ known in cc;
                other_names = λ k other. refl;
                other_objects = λ p other. find-insert_other o0 p q h.objects other;
              }))
      | inl absent ↦
          let mid = with_object blank key h in
          let (q, same, shape, v, none_left, _) =
            opened_cases a (pos h.next) o mid h1
              (ap (create_opened a) (sym (open_new blank key h absent)) ∙ e1) in
          subst (IsOpened key o h) (sym shape) (
            subst
              (λ x. IsOpened key x h (record mid { objects = insert (pos h.next) q mid.objects }))
              (sym same)
              (record {
                queue = q;
                there = find-insert (pos h.next) q mid.objects;
                valid = v;
                empty = none_left;
                named = find-insert key (pos h.next) h.names;
                kept = λ o1 e'. let clash = sym absent ∙ e' in cc;
                new = λ _. s h.next (omega arith);
                other_names = λ k other. find-insert_other key k (pos h.next) h.names other;
                other_objects = λ p other.
                    find-insert_other (pos h.next) p q mid.objects other
                    ∙ find-insert_other (pos h.next) p blank h.objects other;
              }))
    ]

-- An object that is there stands below `next`, so that writing to it leaves the rest sound.
IsSound-written :
    (o : ℤ) (q m : ShmFrameQueue) (h : Host)
    → IsSound h
    → find o h.objects ≡ some m
    → IsSound (record h { objects = insert o q h.objects })
IsSound-written o q m h s there n above = elim (eq_ℤ-cases (pos n) o) [
  | inl (_, same) ↦
      let clash = sym (subst (λ z. find z h.objects ≡ none) same (s n above)) ∙ there in cc
  | inr other ↦ find-insert_other o (pos n) q h.objects other ∙ s n above
]

IsSound-new :
    (blank : ShmFrameQueue) (key : ℤ) (h : Host) → IsSound h → IsSound (with_object blank key h)
unfolding eq_ℤ
IsSound-new blank key h s n above =
    find-insert_other (pos h.next) (pos n) blank h.objects (ground (arith, above))
    ∙ s n (omega (arith, above))

create_at-IsSound :
    (blank : ShmFrameQueue) (a : HostAnswers) (key o : ℤ) (h h1 : Host)
    → IsSound h
    → create_at blank a key h ≡ (some o, h1)
    → IsSound h1
create_at-IsSound blank a key o h h1 s e =
    let e1 = create_opened_at blank a key o h h1 e in
    elim (Option-cases (find key h.names)) [
      | inr (o0, known) ↦
          let (q, _, shape, _, _, (m, there)) =
            opened_cases a o0 o h h1
              (ap (create_opened a) (sym (open_known blank key o0 h known)) ∙ e1) in
          subst IsSound (sym shape) (IsSound-written o0 q m h s there)
      | inl absent ↦
          let mid = with_object blank key h in
          let (q, _, shape, _, _, (m, there)) =
            opened_cases a (pos h.next) o mid h1
              (ap (create_opened a) (sym (open_new blank key h absent)) ∙ e1) in
          subst IsSound (sym shape)
            (IsSound-written (pos h.next) q m mid (IsSound-new blank key h s) there)
    ]

-- Whatever name it is called with, a `shm_queue_create` that succeeds gives an empty queue in a valid state:
-- the memory that the name already stands for, whose frames in flight are lost to every process that has
-- it, or a memory that nobody has had. It touches no other name and no other memory, and the numbers of
-- the objects stay apart.
pub create_at-IsOpened :
    (blank : ShmFrameQueue) (a : HostAnswers) (key o : ℤ) (h h1 : Host)
    → IsSound h
    → create_at blank a key h ≡ (some o, h1)
    → IsOpened key o h h1 × IsSound h1
create_at-IsOpened blank a key o h h1 s e =
    (created_as blank a key o h h1 s e, create_at-IsSound blank a key o h h1 s e)

-- A queue that is destroyed and created again under its name is another one: what the other processes still
-- have under the old mapping `p` stays as it was, with its frames, and the new queue is not it.
create_at-destroy_at :
    (blank : ShmFrameQueue) (a : HostAnswers) (key o p : ℤ) (old : ShmFrameQueue) (h h1 : Host)
    → IsSound h
    → find p h.objects ≡ some old
    → create_at blank a key (destroy_at (some p) key h) ≡ (some o, h1)
    → (find p h1.objects ≡ some old)
      × (eq_ℤ p o ≡ false)
      × IsOpened key o (destroy_at (some p) key h) h1
      × IsSound h1
unfolding destroy_at
create_at-destroy_at blank a key o p old h h1 s here e =
    let gone = destroy_at (some p) key h in
    let opened = created_as blank a key o gone h1 s e in
    let apart : eq_ℤ p o ≡ false = elim (eq_ℤ-cases p o) [
      | inl (_, same) ↦
          let absent = opened.new (find-erase key h.names) in
          let clash = sym (subst (λ z. find z h.objects ≡ none) (sym same) absent) ∙ here in cc
      | inr other ↦ other
    ] in
    (
      opened.other_objects p apart ∙ here,
      apart,
      opened,
      create_at-IsSound blank a key o gone h1 s e,
    )
