-- ===== src/Engine/Threads/Owner.antt =====
-- cpp/src/engine_main.cpp: whose queues the threads pop from. `mine` says which addresses are those of
-- stream `j`.
use pantograph_arc_vision.Common.{
  ◌≡◌, refl, sym, subst, ap, ◌∙◌, inl, inr, Bool, false, Option, none, some, List,
}
use pantograph_arc_vision.Common.Int.{ℤ}
use pantograph_arc_vision.Common.Dict.{
  eq_ℤ, eq_ℤ-cases, find, insert, erase, find-insert, find-insert_other, find-erase,
  find-erase_other,
}
use pantograph_arc_vision.Common.{some_inj}
use pantograph_arc_vision.Engine.Queues.{StreamQueues, Locals}
use pantograph_arc_vision.Engine.Queues.Frame.{PointsInto, PointsOut}

-- Both queues of a thread.
abbrev pub Both : (Option ℤ → Type 0) → StreamQueues → Type 0
Both P q = P q.visible_queue × P q.uv_queue

-- The thread of stream `j` works on the addresses `mine`, and every other thread on other addresses.
pub record IsOwner (j : ℤ) (mine : ℤ → Bool) (threads : List (ℤ × Locals)) : Type 0 where
  pub own : (t : Locals) → find j threads ≡ some t → Both (PointsInto mine) t.queues
  pub others :
      (i : ℤ) (t : Locals)
      → eq_ℤ j i ≡ false
      → find i threads ≡ some t
      → Both (PointsOut mine) t.queues

-- One thread changes, with the same queues, or ends.
erase-found :
    (k i : ℤ) (t : Locals) (ts : List (ℤ × Locals))
    → find k (erase i ts) ≡ some t
    → find k ts ≡ some t
erase-found k i t ts e = elim (eq_ℤ-cases k i) [
  | inl (_, same) ↦
      let gone : find k (erase i ts) ≡ none =
        subst (λ z. find z (erase i ts) ≡ none) (sym same) (find-erase i ts) in
      let clash = sym gone ∙ e in cc
  | inr other ↦ sym (find-erase_other i k ts other) ∙ e
]

pub IsOwner-erase :
    (j i : ℤ) (mine : ℤ → Bool) (ts : List (ℤ × Locals))
    → IsOwner j mine ts
    → IsOwner j mine (erase i ts)
IsOwner-erase j i mine ts o = record {
  own = λ t e. o.own t (erase-found j i t ts e);
  others = λ k t other e. o.others k t other (erase-found k i t ts e);
}

insert-found :
    (k i : ℤ) (t t1 t2 : Locals) (ts : List (ℤ × Locals))
    → find i ts ≡ some t
    → t1.queues ≡ t.queues
    → find k (insert i t1 ts) ≡ some t2
    → (t3 : Locals) × (find k ts ≡ some t3) × (t2.queues ≡ t3.queues)
insert-found k i t t1 t2 ts here kept e = elim (eq_ℤ-cases k i) [
  | inl (_, same) ↦
      let at_i : find i (insert i t1 ts) ≡ some t2 =
        subst (λ z. find z (insert i t1 ts) ≡ some t2) same e in
      let is : t1 ≡ t2 = some_inj (sym (find-insert i t1 ts) ∙ at_i) in
      (t, subst (λ z. find z ts ≡ some t) (sym same) here, ap (λ x. x.queues) (sym is) ∙ kept)
  | inr other ↦ (t2, sym (find-insert_other i k t1 ts other) ∙ e, refl)
]

pub IsOwner-insert :
    (j i : ℤ) (mine : ℤ → Bool) (t t1 : Locals) (ts : List (ℤ × Locals))
    → find i ts ≡ some t
    → t1.queues ≡ t.queues
    → IsOwner j mine ts
    → IsOwner j mine (insert i t1 ts)
IsOwner-insert j i mine t t1 ts here kept o = record {
  own = λ t2 e.
      let (t3, e3, same) = insert-found j i t t1 t2 ts here kept e in
      subst (Both (PointsInto mine)) (sym same) (o.own t3 e3);
  others = λ k t2 other e.
      let (t3, e3, same) = insert-found k i t t1 t2 ts here kept e in
      subst (Both (PointsOut mine)) (sym same) (o.others k t3 other e3);
}

-- A new thread, with queues of its own.
pub IsOwner-start :
    (j i : ℤ) (mine : ℤ → Bool) (t1 : Locals) (ts : List (ℤ × Locals))
    → (j ≡ i → Both (PointsInto mine) t1.queues)
    → (eq_ℤ j i ≡ false → Both (PointsOut mine) t1.queues)
    → IsOwner j mine ts
    → IsOwner j mine (insert i t1 ts)
IsOwner-start j i mine t1 ts in_own in_other o = record {
  own = λ t e. elim (eq_ℤ-cases j i) [
    | inl (_, same) ↦
        let is : t1 ≡ t =
          some_inj
            (sym (find-insert i t1 ts) ∙ subst (λ z. find z (insert i t1 ts) ≡ some t) same e) in
        subst (λ x. Both (PointsInto mine) x.queues) is (in_own same)
    | inr other ↦ o.own t (sym (find-insert_other i j t1 ts other) ∙ e)
  ];
  others = λ k t apart e. elim (eq_ℤ-cases k i) [
    | inl (_, same) ↦
        let is : t1 ≡ t =
          some_inj
            (sym (find-insert i t1 ts) ∙ subst (λ z. find z (insert i t1 ts) ≡ some t) same e) in
        subst (λ x. Both (PointsOut mine) x.queues) is
          (in_other (subst (λ z. eq_ℤ j z ≡ false) same apart))
    | inr other ↦ o.others k t apart (sym (find-insert_other i k t1 ts other) ∙ e)
  ];
}
