-- ===== src/Engine/Queues/Frame.antt =====
-- Which queues a piece of code depends on and changes, for the pops of cpp/src/engine_main.cpp.
use pantograph_arc_vision.Common.{
  ◌≡◌, refl, sym, subst, ap, ◌∙◌, inl, inr, Bool, true, false, Option, none, some, if◌then◌else◌,
  Option-cases, arith,
}
use pantograph_arc_vision.Common.Int.{ℤ, ltb_ℤ}
use pantograph_arc_vision.Common.Dict.{find, insert, eq_ℤ-cases, find-insert, find-insert_other}
use pantograph_arc_vision.Shm.{ShmFrameQueue, Output, Status, null_argument, pop_frame}
use pantograph_arc_vision.Common.{some_inj}
use pantograph_arc_vision.Engine.Loop.{is_failure, pts_distance}
use pantograph_arc_vision.Engine.Queues.{Memory, M, after, ◌>>=◌, pure, Locals, pop_at, pop_pair_at}

-- Two memories with the same queues at the addresses of one owner.
abbrev pub SameAt : (ℤ → Bool) → Memory → Memory → Type 0
SameAt mine m m' = (a : ℤ) → mine a ≡ true → find a m ≡ find a m'

-- A pointer to a queue of the owner, and one to a queue of others; a null pointer is both.
abbrev pub PointsInto : (ℤ → Bool) → Option ℤ → Type 0
PointsInto mine none = Unit
PointsInto mine (some a) = mine a ≡ true

abbrev pub PointsOut : (ℤ → Bool) → Option ℤ → Type 0
PointsOut mine none = Unit
PointsOut mine (some a) = mine a ≡ false

module _ {ℓ} {A : Type ℓ} where
  -- Code that depends on the queues of the owner only.
  abbrev pub Own : (ℤ → Bool) → M A → Type ℓ
  Own mine x =
      (m m' m1 : Memory) (a : A)
      → SameAt mine m m'
      → x m ≡ some (a, m1)
      → (m2 : Memory) × (x m' ≡ some (a, m2)) × SameAt mine m1 m2

  -- Every result of a successful run has the property.
  abbrev pub Post : (A → Type ℓ) → M A → Type ℓ
  Post P x = (m m1 : Memory) (a : A) → x m ≡ some (a, m1) → P a

  -- Code that changes no queue of the owner.
  abbrev pub Foreign : (ℤ → Bool) → M A → Type ℓ
  Foreign mine x = (m m1 : Memory) (a : A) → x m ≡ some (a, m1) → SameAt mine m m1

module _ {ℓ κ} {A : Type ℓ} {B : Type κ} where
  after-cases :
      (f : A → M B) (r : Option (A × Memory)) {b : B × Memory}
      → after f r ≡ some b
      → (a : A) × (m : Memory) × (r ≡ some (a, m)) × (f a m ≡ some b)
  after-cases f none e = cc
  after-cases f (some (a, m)) e = (a, m, refl, e)

  Own-bind :
      (mine : ℤ → Bool) (x : M A) (f : A → M B)
      → Own mine x
      → ((a : A) → Own mine (f a))
      → Own mine (x >>= f)
  Own-bind mine x f own owns m m' m2 b same e =
      let (a, m1, first, second) = after-cases f (x m) e in
      let (m1', first', same') = own m m' m1 a same first in
      let (m2', second', same'') = owns a m1 m1' m2 b same' second in
      (m2', ap (after f) first' ∙ second', same'')

  Foreign-bind :
      (mine : ℤ → Bool) (x : M A) (f : A → M B)
      → Foreign mine x
      → ((a : A) → Foreign mine (f a))
      → Foreign mine (x >>= f)
  Foreign-bind mine x f own owns m m2 b e =
      let (a, m1, first, second) = after-cases f (x m) e in
      λ k p. own m m1 a first k p ∙ owns a m1 m2 b second k p

  Post-bind : (P : B → Type κ) (x : M A) (f : A → M B) → ((a : A) → Post P (f a)) → Post P (x >>= f)
  Post-bind P x f posts m m2 b e =
      let (a, m1, first, second) = after-cases f (x m) e in posts a m1 m2 b second

module _ {ℓ} {A : Type ℓ} where
  Post-pure : (P : A → Type ℓ) (a : A) → P a → Post P (pure a)
  Post-pure P a p m m1 b e = let got = some_inj e in subst P (ap (λ r. r.0) got) p

  Own-pure : (mine : ℤ → Bool) (a : A) → Own mine (pure a)
  Own-pure mine a m m' m1 b same e =
      let got = some_inj e in
      (m', ap (λ r. some (r.0, m')) got, λ k p. ap (λ r. find k r.1) (sym got) ∙ same k p)

  Foreign-pure : (mine : ℤ → Bool) (a : A) → Foreign mine (pure a)
  Foreign-pure mine a m m1 b e = let got = some_inj e in λ k p. ap (λ r. find k r.1) got

  -- Code that branches.
  if_both {κ} : (P : M A → Type κ) (test : Bool) (x y : M A) → P x → P y → P (if test then x else y)
  if_both P true x y p q = p
  if_both P false x y p q = q

-- A memory with another queue at one address.
pub SameAt-insert :
    (mine : ℤ → Bool) (a : ℤ) (q : ShmFrameQueue) (m m' : Memory)
    → SameAt mine m m'
    → SameAt mine (insert a q m) (insert a q m')
SameAt-insert mine a q m m' same k p = elim (eq_ℤ-cases k a) [
  | inl (_, e) ↦
      subst (λ z. find z (insert a q m) ≡ find z (insert a q m')) (sym e)
        (find-insert a q m ∙ sym (find-insert a q m'))
  | inr other ↦ find-insert_other a k q m other ∙ same k p ∙ sym (find-insert_other a k q m' other)
]

pub SameAt-other :
    (mine : ℤ → Bool) (a : ℤ) (q : ShmFrameQueue) (m : Memory)
    → mine a ≡ false
    → SameAt mine m (insert a q m)
SameAt-other mine a q m foreign k p = elim (eq_ℤ-cases k a) [
  | inl (_, e) ↦
      let clash : true ≡ false = sym p ∙ ap mine e ∙ foreign in absurd (ground (arith, clash))
  | inr other ↦ sym (find-insert_other a k q m other)
]

pub pop_at_found :
    (a : ℤ) (q : ShmFrameQueue) (out : Output) (m : Memory)
    → find a m ≡ some q
    → let (rc, out', q') = pop_frame q out in
      pop_at (some a) out m ≡ some ((rc, out'), insert a q' m)
unfolding pop_at
pop_at_found a q out m e = rw (pop_at, e) refl

pop_at_dangling :
    (a : ℤ) (out : Output) (m : Memory) → find a m ≡ none → pop_at (some a) out m ≡ none
unfolding pop_at
pop_at_dangling a out m e = rw (pop_at, e) refl

Own-pop_at :
    (mine : ℤ → Bool) (p : Option ℤ) (out : Output) → PointsInto mine p → Own mine (pop_at p out)
unfolding pop_at
Own-pop_at mine none out here m m' m1 r same e = Own-pure mine (null_argument, out) m m' m1 r same e
Own-pop_at mine (some a) out here m m' m1 r same e = elim (Option-cases (find a m)) [
  | inl gone ↦
      let clash : ◌≡◌ {A = Option ((Status × Output) × Memory)} none (some (r, m1)) =
        sym (pop_at_dangling a out m gone) ∙ e in
      absurd (ground (arith, clash))
  | inr (q, found) ↦
      let got = some_inj (sym (pop_at_found a q out m found) ∙ e) in
      let q' = (pop_frame q out).2 in
      (
        insert a q' m',
        pop_at_found a q out m' (sym (same a here) ∙ found)
            ∙ ap (λ x. some (x.0, insert a q' m')) got,
        λ k p. ap (λ x. find k x.1) (sym got) ∙ SameAt-insert mine a q' m m' same k p,
      )
]

Foreign-pop_at :
    (mine : ℤ → Bool) (p : Option ℤ) (out : Output) → PointsOut mine p → Foreign mine (pop_at p out)
unfolding pop_at
Foreign-pop_at mine none out there m m1 r e = Foreign-pure mine (null_argument, out) m m1 r e
Foreign-pop_at mine (some a) out there m m1 r e = elim (Option-cases (find a m)) [
  | inl gone ↦
      let clash : ◌≡◌ {A = Option ((Status × Output) × Memory)} none (some (r, m1)) =
        sym (pop_at_dangling a out m gone) ∙ e in
      absurd (ground (arith, clash))
  | inr (q, found) ↦
      let got = some_inj (sym (pop_at_found a q out m found) ∙ e) in
      λ k p. SameAt-other mine a (pop_frame q out).2 m there k p ∙ ap (λ x. find k x.1) got
]

-- A pass depends on the two queues of its thread only, and changes no other.
pub Own-pop_pair_at :
    (mine : ℤ → Bool) (tolerance : ℤ) (t : Locals)
    → PointsInto mine t.queues.visible_queue
    → PointsInto mine t.queues.uv_queue
    → Own mine (pop_pair_at tolerance t)
unfolding pop_pair_at
Own-pop_pair_at mine tolerance t v u =
    Own-bind mine (pop_at t.queues.visible_queue t.vis) _
      (Own-pop_at mine t.queues.visible_queue t.vis v)
      (λ r. if_both (Own mine) (is_failure r.0) _ _ (Own-pure mine _) (
        Own-bind mine (pop_at t.queues.uv_queue t.uv) _ (Own-pop_at mine t.queues.uv_queue t.uv u)
          (λ r'. if_both (Own mine) (is_failure r'.0) _ _ (Own-pure mine _) (
            if_both (Own mine) (ltb_ℤ tolerance (pts_distance r.1.header.pts_ns r'.1.header.pts_ns))
              _ _ (Own-pure mine _) (Own-pure mine _)))))

pub Foreign-pop_pair_at :
    (mine : ℤ → Bool) (tolerance : ℤ) (t : Locals)
    → PointsOut mine t.queues.visible_queue
    → PointsOut mine t.queues.uv_queue
    → Foreign mine (pop_pair_at tolerance t)
unfolding pop_pair_at
Foreign-pop_pair_at mine tolerance t v u =
    Foreign-bind mine (pop_at t.queues.visible_queue t.vis) _
      (Foreign-pop_at mine t.queues.visible_queue t.vis v)
      (λ r. if_both (Foreign mine) (is_failure r.0) _ _ (Foreign-pure mine _) (
        Foreign-bind mine (pop_at t.queues.uv_queue t.uv) _
          (Foreign-pop_at mine t.queues.uv_queue t.uv u)
          (λ r'. if_both (Foreign mine) (is_failure r'.0) _ _ (Foreign-pure mine _) (
            if_both (Foreign mine)
              (ltb_ℤ tolerance (pts_distance r.1.header.pts_ns r'.1.header.pts_ns)) _ _
              (Foreign-pure mine _) (Foreign-pure mine _)))))

-- A thread keeps its copy of the queues.
pub pop_pair_at-queues :
    (tolerance : ℤ) (t : Locals) → Post (λ r. r.1.queues ≡ t.queues) (pop_pair_at tolerance t)
unfolding pop_pair_at
pop_pair_at-queues tolerance t =
    let Kept = λ (r : Option (Output × Output) × Locals). r.1.queues ≡ t.queues in
    Post-bind Kept (pop_at t.queues.visible_queue t.vis) _ (λ r.
      if_both (Post Kept) (is_failure r.0) _ _ (Post-pure Kept _ refl) (
        Post-bind Kept (pop_at t.queues.uv_queue t.uv) _ (λ r'.
          if_both (Post Kept) (is_failure r'.0) _ _ (Post-pure Kept _ refl) (
            if_both (Post Kept)
              (ltb_ℤ tolerance (pts_distance r.1.header.pts_ns r'.1.header.pts_ns)) _ _
              (Post-pure Kept _ refl) (Post-pure Kept _ refl)))))
