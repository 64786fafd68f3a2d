-- ===== src/Engine/Threads/Begin.antt =====
-- cpp/src/engine_main.cpp: the threads that `arcvision_engine_run_loop` starts.
use pantograph_arc_vision.Common.{
  ℕ, zero, suc, ◌==◌, ltb, if◌then◌else◌, Bool-cases, ◌+◌, ◌≤◌, ◌<◌, ◌≡◌, refl, sym, subst, ap, ◌∙◌,
  inl, inr, Bool, false, Option, none, some, List, [], arith, Option-cases,
}
use pantograph_arc_vision.Common.Int.{ℤ, pos, negsuc, pos_part}
use pantograph_arc_vision.Common.Dict.{eq_ℤ, find, insert, find-insert, find-insert_other}
use pantograph_arc_vision.Engine.Queues.{StreamQueues, Locals}
use pantograph_arc_vision.Engine.Queues.Frame.{PointsInto, PointsOut}
use pantograph_arc_vision.Engine.Threads.{
  World, new_thread, Uninitialised, start_thread, start_threads, run_loop,
}
use pantograph_arc_vision.Engine.Threads.Owner.{Both, IsOwner, IsOwner-start}

-- The queues that are registered for stream `j` are at the addresses `mine`, and those of others are not.
pub record IsSeparate (j : ℤ) (mine : ℤ → Bool) (registered : List (ℤ × StreamQueues))
    : Type 0 where
  pub own : (q : StreamQueues) → find j registered ≡ some q → Both (PointsInto mine) q
  pub others :
      (i : ℤ) (q : StreamQueues)
      → eq_ℤ j i ≡ false
      → find i registered ≡ some q
      → Both (PointsOut mine) q

abbrev pub with_queues : (ℤ → Uninitialised) → ℤ → Option StreamQueues → Option Locals
with_queues fresh j none = none
with_queues fresh j (some q) = some (new_thread fresh j q)

-- The streams from 0 to `n`, without `n`.
abbrev pub is_stream : ℕ → ℤ → Bool
is_stream n (pos k) = ltb k n
is_stream n (negsuc k) = false

module _ {ℓ} {F D : Type ℓ} (fresh : ℤ → Uninitialised) where
  start-unregistered :
      (i : ℤ) (w : World F D) → find i w.stream_queues ≡ none → start_thread fresh i w ≡ w
  unfolding start_thread
  start-unregistered i w e = simp (start_thread, e)

  start-registered :
      (i : ℤ) (w : World F D) (q : StreamQueues)
      → find i w.stream_queues ≡ some q
      → start_thread fresh i w ≡ record w { threads = insert i (new_thread fresh i q) w.threads }
  unfolding start_thread
  start-registered i w q e = simp (start_thread, e)

  -- What starting threads leaves alone.
  abbrev pub Unchanged : World F D → World F D → Type ℓ
  Unchanged w w1 =
      (w1.globals ≡ w.globals) × (w1.stream_queues ≡ w.stream_queues) × (w1.memory ≡ w.memory)

  start_thread-Unchanged : (i : ℤ) (w : World F D) → Unchanged w (start_thread fresh i w)
  start_thread-Unchanged i w = elim (Option-cases (find i w.stream_queues)) [
    | inl none_there ↦
        subst (Unchanged w) (sym (start-unregistered i w none_there)) (refl, refl, refl)
    | inr (q, there) ↦ subst (Unchanged w) (sym (start-registered i w q there)) (refl, refl, refl)
  ]

  start_thread-IsOwner :
      (j i : ℤ) (mine : ℤ → Bool) (w : World F D)
      → IsSeparate j mine w.stream_queues
      → IsOwner j mine w.threads
      → IsOwner j mine (start_thread fresh i w).threads
  start_thread-IsOwner j i mine w s o = elim (Option-cases (find i w.stream_queues)) [
    | inl none_there ↦
        subst (λ x. IsOwner j mine x.threads) (sym (start-unregistered i w none_there)) o
    | inr (q, there) ↦
        subst (λ x. IsOwner j mine x.threads) (sym (start-registered i w q there))
          (IsOwner-start j i mine (new_thread fresh i q) w.threads
            (λ same. s.own q (subst (λ z. find z w.stream_queues ≡ some q) (sym same) there))
            (λ other. s.others i q other there) o)
  ]

  start_threads-IsOwner :
      (j : ℤ) (mine : ℤ → Bool) (n i : ℕ) (w : World F D)
      → IsSeparate j mine w.stream_queues
      → IsOwner j mine w.threads
      → IsOwner j mine (start_threads fresh n i w).threads
  unfolding start_threads
  start_threads-IsOwner j mine zero i w s o = o
  start_threads-IsOwner j mine (suc n) i w s o =
      let (_, queues, _) = start_thread-Unchanged (pos i) w in
      start_threads-IsOwner j mine n (i + 1) (start_thread fresh (pos i) w)
        (subst (IsSeparate j mine) (sym queues) s) (start_thread-IsOwner j (pos i) mine w s o)

  start_threads-Unchanged : (n i : ℕ) (w : World F D) → Unchanged w (start_threads fresh n i w)
  unfolding start_threads
  start_threads-Unchanged zero i w = (refl, refl, refl)
  start_threads-Unchanged (suc n) i w =
      let (g, q, m) = start_thread-Unchanged (pos i) w in
      let (g', q', m') = start_threads-Unchanged n (i + 1) (start_thread fresh (pos i) w) in
      (g' ∙ g, q' ∙ q, m' ∙ m)

  start_thread-other :
      (i j : ℤ) (w : World F D)
      → eq_ℤ j i ≡ false
      → find j (start_thread fresh i w).threads ≡ find j w.threads
  start_thread-other i j w other = elim (Option-cases (find i w.stream_queues)) [
    | inl none_there ↦ ap (λ x. find j x.threads) (start-unregistered i w none_there)
    | inr (q, there) ↦
        ap (λ x. find j x.threads) (start-registered i w q there)
        ∙ find-insert_other i j (new_thread fresh i q) w.threads other
  ]

  -- Streams that are not among those started.
  start_threads-other :
      (n i : ℕ) (j : ℤ) (w : World F D)
      → ((m : ℕ) → i ≤ m → m < i + n → eq_ℤ j (pos m) ≡ false)
      → find j (start_threads fresh n i w).threads ≡ find j w.threads
  unfolding start_threads
  start_threads-other zero i j w other = refl
  start_threads-other (suc n) i j w other =
      start_threads-other n (i + 1) j (start_thread fresh (pos i) w)
        (λ m lo hi. other m (omega (arith, lo)) (omega (arith, hi)))
      ∙ start_thread-other (pos i) j w (other i (omega arith) (omega arith))

  -- The thread of stream `j` if the stream has queues.
  abbrev pub thread_of : ℤ → World F D → Option Locals
  thread_of j w = with_queues fresh j (find j w.stream_queues)

  thread_of-kept :
      (i : ℤ) (j : ℤ) (w : World F D) → thread_of j (start_thread fresh i w) ≡ thread_of j w
  thread_of-kept i j w =
      let (_, queues, _) = start_thread-Unchanged i w in
      ap (λ qs. thread_of j (record w { stream_queues = qs })) queues

  start_thread-own :
      (i : ℤ) (w : World F D)
      → find i w.threads ≡ none
      → find i (start_thread fresh i w).threads ≡ thread_of i w
  start_thread-own i w absent = elim (Option-cases (find i w.stream_queues)) [
    | inl none_there ↦
        ap (λ x. find i x.threads) (start-unregistered i w none_there)
        ∙ absent
        ∙ sym (ap (with_queues fresh i) none_there)
    | inr (q, there) ↦
        ap (λ x. find i x.threads) (start-registered i w q there)
        ∙ find-insert i (new_thread fresh i q) w.threads
        ∙ sym (ap (with_queues fresh i) there)
  ]

  start_threads-own :
      (n i k : ℕ) (w : World F D)
      → i ≤ k
      → k < i + n
      → find (pos k) w.threads ≡ none
      → find (pos k) (start_threads fresh n i w).threads ≡ thread_of (pos k) w
  unfolding start_threads eq_ℤ
  start_threads-own zero i k w lo hi absent = absurd (omega (arith, lo, hi))
  start_threads-own (suc n) i k w lo hi absent = elim (Bool-cases (k == i)) [
    | inl here ↦
        let same : i ≡ k = ground (arith, here) in
        start_threads-other n (i + 1) (pos k) (start_thread fresh (pos i) w)
          (λ m lo' hi'. ground (arith, lo', same))
        ∙ ap (λ x. find (pos k) (start_thread fresh (pos x) w).threads) same
        ∙ start_thread-own (pos k) w absent
    | inr other ↦
        start_threads-own n (i + 1) k (start_thread fresh (pos i) w) (ground (arith, lo, other))
          (omega (arith, hi)) (start_thread-other (pos i) (pos k) w other ∙ absent)
        ∙ thread_of-kept (pos i) (pos k) w
  ]

  -- When no thread runs before: at the point at which `arcvision_engine_run_loop` has started its threads and
  -- begins to wait for them in `join`, before the first pass of any of them, there is a thread for each stream
  -- from 0 to the number of streams that has registered queues, with these queues; no other stream has one;
  -- the rest of the engine is as before.
  pub run_loop_threads :
      (n : ℕ) (j : ℤ) (w : World F D)
      → w.globals.num_streams ≡ pos n
      → w.threads ≡ []
      → (find j (run_loop fresh w).threads ≡ (if is_stream n j then thread_of j w else none))
        × Unchanged w (run_loop fresh w)
  unfolding run_loop find eq_ℤ
  run_loop_threads n (negsuc k) w streams idle = (
    start_threads-other _ 0 (negsuc k) w (λ m lo hi. refl) ∙ ap (find (negsuc k)) idle,
    start_threads-Unchanged _ 0 w,
  )
  run_loop_threads n (pos k) w streams idle =
      let count : pos_part w.globals.num_streams ≡ n = ap pos_part streams in
      let absent : find (pos k) w.threads ≡ none = ap (find (pos k)) idle in
      (
        (elim (Bool-cases (ltb k n)) [
          | inl within ↦
              start_threads-own _ 0 k w (omega arith) (ground (arith, within, count)) absent
              ∙ sym (rw within refl)
          | inr outside ↦
              start_threads-other _ 0 (pos k) w (λ m lo hi. ground (arith, outside, count, hi))
              ∙ absent
              ∙ sym (rw outside refl)
        ]),
        start_threads-Unchanged _ 0 w,
      )

  pub run_loop-IsOwner :
      (j : ℤ) (mine : ℤ → Bool) (w : World F D)
      → w.threads ≡ []
      → IsSeparate j mine w.stream_queues
      → IsOwner j mine (run_loop fresh w).threads
  unfolding run_loop find
  run_loop-IsOwner j mine w idle s =
      start_threads-IsOwner j mine _ 0 w s
        (subst (IsOwner j mine) (sym idle) (record { own = λ t e. cc; others = λ i t other e. cc }))
