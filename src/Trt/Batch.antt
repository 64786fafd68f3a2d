-- ===== src/Trt/Batch.antt =====
-- `TRTEngine::infer_batch` of cpp/src/trt_engine.cpp: the images of a batch, one after the other.
use mathlib.Core.List.{Perm, perm_append_comm}
use mathlib.Core.List.Perm
use pantograph_arc_vision.Common.{
  ◌>>=◌, ℕ, ◌≡◌, refl, sym, subst, ◌∙◌, inl, inr, Option, none, some, List, [], ◌∷◌, ◌++◌,
  Bool-cases, not, ◌||◌, true, false,
}
use pantograph_arc_vision.Common.Int.{ℤ}
use pantograph_arc_vision.Common.Floating.{Floating}
use pantograph_arc_vision.Trt.Pool.{list-cases}
use pantograph_arc_vision.Trt.Postprocess.{IsSort}
use pantograph_arc_vision.Kernel.Resize.Place.{IsScaling}
use pantograph_arc_vision.Trt.Infer.{Holds, infer_with_context_total}
use pantograph_arc_vision.Trt.{
  Detection, Engine, Device, Request, on_device, row_count, prepare, infer_with_context,
  infer_acquired, infer, acquire_context, release_context, no_input,
}

-- What the device does for an image with its width, its height and its channels.
abbrev pub Network {ℓ} : Type ℓ → Type ℓ
Network F = List ℕ → (width height channels : ℤ) → Device F

abbrev pub request {ℓ} : {F : Type ℓ} → Network F → List ℕ → (width height channels : ℤ) → Request F
request network i w h c = record {
  image = record { content = on_device i; width = w; height = h; channels = c };
  device = network i w h c;
}

-- A width, a height or a count is missing, which nothing can make good.
pub data Missing {ℓ} : Type ℓ where

module _ {ℓ} {F : Type ℓ} ⦃f : Floating F⦄ where
  -- The loop over the batch; `none` is a fault in `infer`, or a read past the end of `widths`, `heights` or
  -- `channels_list`.
  pub infer_batch :
      (List (Detection F) → List (Detection F))
      → Network F
      → Engine F
      → (inputs : List (List ℕ)) (widths heights channels_list : List ℤ)
      → Option (List (List (Detection F)) × Engine F)
  infer_batch sort network e [] widths heights channels_list = some ([], e)
  infer_batch sort network e (i ∷ inputs) (w ∷ widths) (h ∷ heights) (c ∷ channels_list) = do
    (ds, e1) ← infer sort e (request network i w h c)
    (results, e2) ← infer_batch sort network e1 inputs widths heights channels_list
    some (ds ∷ results, e2)
  infer_batch sort network e (i ∷ inputs) widths heights channels_list = none

  -- There is a width, a height and a count of channels for each image, with which the engine can take it.
  abbrev pub Fed :
      Network F
      → Engine F
      → (inputs : List (List ℕ)) (widths heights channels_list : List ℤ) → Type ℓ
  Fed network e [] widths heights channels_list = Unit
  Fed network e (i ∷ inputs) (w ∷ widths) (h ∷ heights) (c ∷ channels_list) =
      Holds e (request network i w h c) × Fed network e inputs widths heights channels_list
  Fed network e (i ∷ inputs) widths heights channels_list = Missing

  -- One result for each image: what `infer` returns for the image alone.
  pub data Answers (sort : List (Detection F) → List (Detection F)) (network : Network F)
      (e : Engine F)
      : List (List ℕ) → List ℤ → List ℤ → List ℤ → List (List (Detection F)) → Type ℓ where
    all_done : {ws hs cs : List ℤ} → Answers sort network e [] ws hs cs []
    answer :
        {i : List ℕ} {is : List (List ℕ)} {w h c : ℤ} {ws hs cs : List ℤ} {ds : List (Detection F)}
        {results : List (List (Detection F))} {e' : Engine F}
        → infer sort e (request network i w h c) ≡ some (ds, e')
        → Answers sort network e is ws hs cs results
        → Answers sort network e (i ∷ is) (w ∷ ws) (h ∷ hs) (c ∷ cs) (ds ∷ results)

  abbrev with_free : Engine F → List ℕ → Engine F
  with_free e free = record e { free_contexts = free }

  -- Which contexts are free plays no part in the work of one.
  infer_with_context-free :
      (sort : List (Detection F) → List (Detection F)) (e : Engine F) (free : List ℕ)
      (r : Request F)
      → infer_with_context sort (with_free e free) r ≡ infer_with_context sort e r
  unfolding infer_with_context prepare row_count
  infer_with_context-free sort e free r = refl

  infer_idle :
      (sort : List (Detection F) → List (Detection F)) (e : Engine F) (r : Request F)
      → (not e.engine || no_input e.input_index) ≡ true
      → infer sort e r ≡ some ([], e)
  unfolding infer
  infer_idle sort e r idle = rw (infer, idle) refl

  infer_empty :
      (sort : List (Detection F) → List (Detection F)) (e : Engine F) (r : Request F)
      → (not e.engine || no_input e.input_index) ≡ false
      → infer sort (with_free e []) r ≡ some ([], with_free e [])
  unfolding infer infer_acquired acquire_context
  infer_empty sort e r ready = rw (infer, ready) refl

  infer_ready :
      (sort : List (Detection F) → List (Detection F)) (e : Engine F) (c : ℕ) (rest : List ℕ)
      (r : Request F) (ds : List (Detection F))
      → (not e.engine || no_input e.input_index) ≡ false
      → infer_with_context sort e r ≡ some ds
      → infer sort (with_free e (c ∷ rest)) r ≡ some (ds, with_free e (rest ++ c ∷ []))
  unfolding infer infer_acquired acquire_context release_context
  infer_ready sort e c rest r ds ready e' =
      let done = infer_with_context-free sort e rest r ∙ e' in
      rw (infer, ready) (rw (infer_acquired, done) refl)

  module _ (law : IsScaling F) (sort : List (Detection F) → List (Detection F))
      (v : IsSort sort) where
    -- What `infer` does on the engine, whichever way its free contexts are ordered.
    abbrev Alike : Engine F → Request F → List (Detection F) → Type ℓ
    Alike e r ds =
        (gs : List ℕ)
        → Perm gs e.free_contexts
        → (hs : List ℕ) × (infer sort (with_free e gs) r ≡ some (ds, with_free e hs))
          × Perm hs e.free_contexts

    infer-Alike :
        (e : Engine F) (r : Request F) → Holds e r → (ds : List (Detection F)) × Alike e r ds
    infer-Alike e r h = elim (Bool-cases (not e.engine || no_input e.input_index)) [
      | inl idle ↦ ([], λ gs p. (gs, infer_idle sort (with_free e gs) r idle, p))
      | inr ready ↦ elim (list-cases e.free_contexts) [
        | inl empty ↦ (
          [],
          λ gs p.
              let gone : gs ≡ [] = Perm.eq-nil (subst (Perm gs) empty p) in
              (
                [],
                subst (λ l. infer sort (with_free e l) r ≡ some ([], with_free e [])) (sym gone)
                    (infer_empty sort e r ready),
                subst (λ l. Perm [] l) (sym empty) (Perm.refl []),
              ),
        )
        | inr (c0, rest0, here) ↦
            let (ds, done) = infer_with_context_total law sort v e r h in
            (
              ds,
              λ gs p. elim (list-cases gs) [
                | inl none_left ↦
                    let back = subst (λ l. Perm l e.free_contexts) none_left p in
                    let gone : c0 ∷ rest0 ≡ [] = sym here ∙ Perm.eq-nil (Perm.symm back) in cc
                | inr (c, rest, shape) ↦ (
                  rest ++ c ∷ [],
                  subst
                      (λ l. infer sort (with_free e l) r ≡ some (ds, with_free e (rest ++ c ∷ [])))
                      (sym shape) (infer_ready sort e c rest r ds ready done),
                  Perm.trans (perm_append_comm rest (c ∷ []))
                      (subst (λ l. Perm l e.free_contexts) shape p),
                )
              ],
            )
      ]
    ]

    infer_batch_step :
        (network : Network F) (e e1 e2 : Engine F) (i : List ℕ) (is : List (List ℕ)) (w h c : ℤ)
        (ws hs cs : List ℤ) (ds : List (Detection F)) (results : List (List (Detection F)))
        → infer sort e (request network i w h c) ≡ some (ds, e1)
        → infer_batch sort network e1 is ws hs cs ≡ some (results, e2)
        → infer_batch sort network e (i ∷ is) (w ∷ ws) (h ∷ hs) (c ∷ cs) ≡ some (ds ∷ results, e2)
    unfolding infer_batch
    infer_batch_step network e e1 e2 i is w h c ws hs cs ds results first others =
        rw (infer_batch, first) (rw others refl)

    -- The batch from an engine whose free contexts stand in another order.
    abbrev Batched :
        Network F → Engine F → List ℕ → List (List ℕ) → List ℤ → List ℤ → List ℤ → Type ℓ
    Batched network e gs inputs widths heights channels_list =
        (results : List (List (Detection F))) × (free : List ℕ) × (infer_batch sort network
            (with_free e gs) inputs widths heights channels_list
          ≡ some (results, with_free e free))
        × Perm free e.free_contexts
        × Answers sort network e inputs widths heights channels_list results

    infer_batch_total :
        (network : Network F) (e : Engine F) (gs : List ℕ) (inputs : List (List ℕ))
        (widths heights channels_list : List ℤ)
        → Fed network e inputs widths heights channels_list
        → Perm gs e.free_contexts
        → Batched network e gs inputs widths heights channels_list
    unfolding infer_batch
    infer_batch_total network e gs [] ws hs cs fed p = ([], gs, refl, p, all_done)
    infer_batch_total network e gs (i ∷ is) (w ∷ ws) (h ∷ hs) (c ∷ cs) (fits, fed) p =
        let (ds, alike) = infer-Alike e (request network i w h c) fits in
        let (free1, first, p1) = alike gs p in
        let (free0, alone, _) = alike e.free_contexts (Perm.refl e.free_contexts) in
        let (results, free2, others, p2, answers) =
          infer_batch_total network e free1 is ws hs cs fed p1 in
        (
          ds ∷ results,
          free2,
          infer_batch_step network (with_free e gs) (with_free e free1) (with_free e free2) i is w h
              c ws hs cs ds results first others,
          p2,
          answer alone answers,
        )
    infer_batch_total network e gs (i ∷ is) [] hs cs fed p = elim fed [ ]
    infer_batch_total network e gs (i ∷ is) (w ∷ ws) [] cs fed p = elim fed [ ]
    infer_batch_total network e gs (i ∷ is) (w ∷ ws) (h ∷ hs) [] fed p = elim fed [ ]

    -- When there is a width, a height and a count of channels for each image, with which the engine can take
    -- it: the image has all its bytes, the input buffer the floats of the configured input, no index leaves
    -- its `int`, and the network leaves the rows that the engine counts. Then a batch does not fault, also not
    -- in the preprocessing of its images, and returns one result for each image, the one that `infer` returns
    -- for this image alone; the engine is as before, with the same contexts free.
    pub infer_batch-Answers :
        (network : Network F) (e : Engine F) (inputs : List (List ℕ))
        (widths heights channels_list : List ℤ)
        → Fed network e inputs widths heights channels_list
        → (results : List (List (Detection F))) × (free : List ℕ) × (infer_batch sort network e
              inputs widths heights channels_list
            ≡ some (results, record e { free_contexts = free }))
          × Perm free e.free_contexts
          × Answers sort network e inputs widths heights channels_list results
    infer_batch-Answers network e inputs widths heights channels_list fed =
        infer_batch_total network e e.free_contexts inputs widths heights channels_list fed
          (Perm.refl e.free_contexts)
