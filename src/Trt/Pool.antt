-- ===== src/Trt/Pool.antt =====
-- The pool of execution contexts under any sequence of `TRTEngine::acquire_context` and
-- `TRTEngine::release_context` (cpp/src/trt_engine.cpp). Both hold `pool_mutex_` while they touch the
-- pool, so a run of several threads is a sequence of these steps.
use mathlib.Core.List.{
  Perm, Nodup, perm_append_comm, perm_middle, Mem, Nodup-nil, Nodup-cons, mem-cons, not-mem-nil,
}
use mathlib.Core.Logic.Or
use native.Mathlib.Bridge.{le_prop}
use mathlib.Core.List.Perm
use pantograph_arc_vision.Common.{
  ℕ, zero, suc, ◌+◌, ◌≤◌, ◌<◌, ◌≡◌, refl, subst, ap, ◌∙◌, ◌≢◌, ◌⊎◌, inl, inr, none, some, List, [],
  ◌∷◌, ◌++◌, append_assoc, arith, length, length-append,
}
use pantograph_arc_vision.Trt.{
  InferConfig, Engine, Binding, pool_size_of, acquire_context, release_context,
}
use pantograph_arc_vision.Trt.Load.{IsLoaded, slots, length-slots}

pub list-cases {ℓ} :
    {A : Type ℓ} (xs : List A) → (xs ≡ []) ⊎ ((x : A) × (rest : List A) × (xs ≡ x ∷ rest))
list-cases [] = inl refl
list-cases (x ∷ xs) = inr (x, xs, refl)

module _ {ℓ} {F : Type ℓ} where
  -- One call: the contexts that are held, and the engine. A caller releases a context that it holds; the code
  -- does not check it, and a second release would put the context into the list of free ones twice.
  pub data Step : List ℕ × Engine F → List ℕ × Engine F → Type ℓ where
    acquired :
        {held : List ℕ} {e e' : Engine F} {c : ℕ}
        → acquire_context e ≡ (some c, e')
        → Step (held, e) (c ∷ held, e')
    timed_out :
        {held : List ℕ} {e e' : Engine F}
        → acquire_context e ≡ (none, e')
        → Step (held, e) (held, e')
    released :
        (before : List ℕ) (c : ℕ) (after : List ℕ) {e : Engine F}
        → Step (before ++ c ∷ after, e) (before ++ after, release_context (some c) e)

  pub data Reach : List ℕ × Engine F → List ℕ × Engine F → Type ℓ where
    start : {s : List ℕ × Engine F} → Reach s s
    next : {s s' s'' : List ℕ × Engine F} → Reach s s' → Step s' s'' → Reach s s''

  -- Every context, held or free.
  abbrev pub both : List ℕ × Engine F → List ℕ
  both (held, e) = held ++ e.free_contexts

  acquire_context_lem :
      (e : Engine F) {c : ℕ} {e' : Engine F}
      → acquire_context e ≡ (some c, e')
      → e.free_contexts ≡ c ∷ e'.free_contexts
  unfolding acquire_context
  acquire_context_lem e {c} {e'} h = elim (list-cases e.free_contexts) [
    | inl empty ↦ absurd (ground arith)
    | inr (x, rest, some_) ↦ ground arith
  ]

  acquire_context-none :
      (e : Engine F) {e' : Engine F}
      → acquire_context e ≡ (none, e')
      → (e'.free_contexts ≡ e.free_contexts) × (e.free_contexts ≡ [])
  unfolding acquire_context
  acquire_context-none e {e'} h = elim (list-cases e.free_contexts) [
    | inl empty ↦ ground arith
    | inr (x, rest, some_) ↦ absurd (ground arith)
  ]

  Step-perm : {s s' : List ℕ × Engine F} → Step s s' → Perm (both s') (both s)
  unfolding release_context
  Step-perm (acquired {held} {e} {e'} {c} h) =
      rw (acquire_context_lem e h) (Perm.symm (perm_middle held e'.free_contexts))
  Step-perm (timed_out {held} {e} {e'} h) = rw (acquire_context-none e h).0 (Perm.refl _)
  Step-perm (released before c after {e}) =
      subst (λ x. Perm x (both (before ++ c ∷ after, e)))
        (append_assoc (before ++ after) e.free_contexts (c ∷ []))
        (Perm.trans (perm_append_comm ((before ++ after) ++ e.free_contexts) (c ∷ []))
          (Perm.symm (Perm.append_right e.free_contexts (perm_middle before after))))

  Step-length : {s s' : List ℕ × Engine F} → Step s s' → length (both s') ≡ length (both s)
  unfolding release_context
  Step-length (acquired {held} {e} {e'} {c} h) = omega (
    arith,
    ap length (acquire_context_lem e h),
    length-append held e.free_contexts,
    length-append held e'.free_contexts,
  )
  Step-length (timed_out {held} {e} {e'} h) =
      ap (λ x. length (held ++ x)) (acquire_context-none e h).0
  Step-length (released before c after {e}) = omega (
    arith,
    length-append (before ++ after) (e.free_contexts ++ (c ∷ [])),
    length-append e.free_contexts (c ∷ []),
    length-append before after,
    length-append (before ++ c ∷ after) e.free_contexts,
    length-append before (c ∷ after),
  )

  Reach-perm : {s s' : List ℕ × Engine F} → Reach s s' → Perm (both s') (both s)
  Reach-perm start = Perm.refl _
  Reach-perm (next r s) = Perm.trans (Step-perm s) (Reach-perm r)

  Reach-length : {s s' : List ℕ × Engine F} → Reach s s' → length (both s') ≡ length (both s)
  Reach-length start = refl
  Reach-length (next r s) = Step-length s ∙ Reach-length r

slots-above : (i n : ℕ) (a : ℕ) → Mem a (slots i n) → i ≤ a
unfolding slots
slots-above i zero a m = absurd (not-mem-nil m)
slots-above i (suc n) a m =
    Or.elim le_prop (mem-cons.0 m) (λ e. omega arith)
      (λ l. omega (arith, slots-above (i + 1) n a l))

slots-Nodup : (i n : ℕ) → Nodup (slots i n)
unfolding slots
slots-Nodup i zero = Nodup-nil
slots-Nodup i (suc n) =
    Nodup-cons.1 ((λ m. omega (arith, slots-above (i + 1) n i m)), slots-Nodup (i + 1) n)

module _ {ℓ} {F : Type ℓ} {config : InferConfig F} {bs : List Binding} {e0 e e' : Engine F}
    {held : List ℕ} (fresh : e0.free_contexts ≡ []) (l : IsLoaded config bs e0 e)
    (run : Reach ([], e) (held, e')) where
  -- From the first load on, whatever calls of `acquire_context` and `release_context` are made and in whatever
  -- order, with no other load or unload, when every release is of a context that is held: the contexts that
  -- are held and those that are free are together exactly the contexts of the pool, no context among
  -- them twice. No context has two holders, none is free while it is held, and none is lost.
  pub pool_exclusive :
      Perm (held ++ e'.free_contexts) (slots 0 (pool_size_of config.context_pool_size))
      × Nodup (held ++ e'.free_contexts)
  pool_exclusive =
      let free : e.free_contexts ≡ slots 0 (pool_size_of config.context_pool_size) =
        l.free ∙ ap (λ x. x ++ slots 0 (pool_size_of config.context_pool_size)) fresh in
      let order = subst (Perm (held ++ e'.free_contexts)) free (Reach-perm run) in
      (order, Perm.nodup (Perm.symm order) (slots-Nodup 0 _))

  -- From the first load on, while fewer contexts are held than the pool has, the next
  -- `acquire_context` returns one.
  pub pool_available :
      length held < pool_size_of config.context_pool_size → (acquire_context e').0 ≢ none
  unfolding acquire_context
  pool_available fewer = elim (list-cases e'.free_contexts) [
    | inl empty ↦
        let n = pool_size_of config.context_pool_size in
        absurd (
          omega (
            arith,
            fewer,
            Reach-length run,
            ap length l.free,
            ap length fresh,
            ap length empty,
            length-append held e'.free_contexts,
            length-slots 0 n,
            length-append e0.free_contexts (slots 0 n),
          ))
    | inr (c, rest, here) ↦ λ h. absurd (ground arith)
  ]
