-- ===== src/Trt/Infer.antt =====
-- `TRTEngine::infer_with_context` and `infer` of cpp/src/trt_engine.cpp: one image, from its preprocessing to the
-- return of the context.
use mathlib.Core.List.{Perm, perm_append_comm}
use mathlib.Core.List.Perm
use pantograph_arc_vision.Common.{
  ℕ, ◌*◌, ◌/◌, ◌^◌, ◌≤◌, ◌<◌, ◌≡◌, refl, sym, subst, ap, ◌∙◌, inl, inr, Option, none, some, List,
  [], ◌∷◌, ◌++◌, length, Bool-cases, not, ◌||◌, true,
}
use pantograph_arc_vision.Common.Int.{ℤ, pos, pos_part}
use pantograph_arc_vision.Common.Floating.{Floating}
use pantograph_arc_vision.Kernel.{Buffer}
use pantograph_arc_vision.Kernel.Resize.{cuda_preprocess_resize_normalize}
use pantograph_arc_vision.Kernel.Resize.Place.{IsScaling, cuda_preprocess_resize_normalize-runs}
use pantograph_arc_vision.Trt.Pool.{list-cases}
use pantograph_arc_vision.Trt.Postprocess.{IsSort, postprocess-IsReport}
use pantograph_arc_vision.Trt.{
  Detection, Engine, Request, row_count, prepare, infer_with_context, infer_acquired, infer,
  acquire_context, release_context, no_input,
}

module _ {ℓ} {F : Type ℓ} ⦃f : Floating F⦄ where
  -- An image that an engine can take: it is not empty, has three channels or more, and all its bytes; its
  -- sides are up to 2 ^ 24. The input buffer has the floats of the configured input, and the network leaves
  -- `n` rows of six floats, as many as the engine counts. No buffer has more than 2 ^ 31 entries.
  pub record Holds (e : Engine F) (r : Request F) : Type ℓ where
    pub n : ℕ
    pub width : ℕ
    pub height : ℕ
    pub channels : ℕ
    pub rows : row_count e ≡ some n
    pub wide : r.image.width ≡ pos width
    pub high : r.image.height ≡ pos height
    pub deep : r.image.channels ≡ pos channels
    pub some_columns : 0 < width
    pub some_lines : 0 < height
    pub three : 3 ≤ channels
    pub columns_few : width ≤ 2 ^ 24
    pub lines_few : height ≤ 2 ^ 24
    pub size : height * width * channels ≤ r.image.content.size
    pub few : r.image.content.size ≤ 2 ^ 31
    pub input : e.input_size / 4 ≡ 3 * pos_part e.config.input_h * pos_part e.config.input_w
    pub input_few : e.input_size / 4 ≤ 2 ^ 31
    pub output : (b : Buffer F) → n * 6 ≤ length (r.device.network b)

  -- The engine after a call: only its free contexts may stand in another order.
  abbrev pub IsBack : Engine F → Engine F → Type ℓ
  IsBack e e' =
      Perm e'.free_contexts e.free_contexts × (e' ≡ record e { free_contexts = e'.free_contexts })

  abbrev freed : Engine F → List ℕ → Engine F
  freed e free = record e { free_contexts = free }

  pub IsBack-refl : (e : Engine F) → IsBack e e
  IsBack-refl e = (Perm.refl _, refl)

  pub IsBack-trans : (e e' e'' : Engine F) → IsBack e e' → IsBack e' e'' → IsBack e e''
  IsBack-trans e e' e'' (p, s) (p', s') =
      (Perm.trans p' p, s' ∙ ap (λ (x : Engine F). freed x e''.free_contexts) s)

  pub Holds-free :
      (e : Engine F) (free : List ℕ) (r : Request F)
      → Holds e r
      → Holds (record e { free_contexts = free }) r
  unfolding row_count
  Holds-free e free r h = record {
    n = h.n;
    width = h.width;
    height = h.height;
    channels = h.channels;
    rows = h.rows;
    wide = h.wide;
    high = h.high;
    deep = h.deep;
    some_columns = h.some_columns;
    some_lines = h.some_lines;
    three = h.three;
    columns_few = h.columns_few;
    lines_few = h.lines_few;
    size = h.size;
    few = h.few;
    input = h.input;
    input_few = h.input_few;
    output = h.output;
  }

  pub Holds-kept : (e e' : Engine F) (r : Request F) → IsBack e e' → Holds e r → Holds e' r
  Holds-kept e e' r (p, same) h =
      subst (λ x. Holds x r) (sym same) (Holds-free e e'.free_contexts r h)

  prepare_step :
      (e : Engine F) (r : Request F) (w h c : ℕ) {out : Buffer F} {rc : ℤ}
      → r.image.width ≡ pos w
      → r.image.height ≡ pos h
      → r.image.channels ≡ pos c
      → cuda_preprocess_resize_normalize r.device.launch.threads r.device.launch.failed
          r.image.content
          (pos w)
          (pos h)
          (pos c)
          (record { size = e.input_size / 4; at = r.device.launch.memory })
          (pos_part e.config.input_w)
          (pos_part e.config.input_h)
          none
          none
          true
          true
        ≡ some (out, rc)
      → prepare e r ≡ some (r.device.network out)
  unfolding prepare
  prepare_step e r w h c ew eh ec ran = rw (prepare, ew, eh, ec, ran) refl

  module _ (law : IsScaling F) where
    -- The preprocessing has no access outside of its buffers, and the network's output has its rows.
    pub prepare_total :
        (e : Engine F) (r : Request F) (h : Holds e r)
        → (values : List F) × (prepare e r ≡ some values) × (h.n * 6 ≤ length values)
    prepare_total e r h =
        let (out, ran, _) =
          cuda_preprocess_resize_normalize-runs r.device.launch.threads r.device.launch.failed
            r.image.content h.width h.height h.channels
            (record { size = e.input_size / 4; at = r.device.launch.memory })
            (pos_part e.config.input_w) (pos_part e.config.input_h) none none true true law
            h.some_columns h.some_lines h.three h.columns_few h.lines_few h.size h.few h.input
            h.input_few in
        (
          r.device.network out,
          prepare_step e r h.width h.height h.channels h.wide h.high h.deep ran,
          h.output out,
        )

    module _ (sort : List (Detection F) → List (Detection F)) (v : IsSort sort) where
      pub infer_with_context_total :
          (e : Engine F) (r : Request F)
          → Holds e r
          → (ds : List (Detection F)) × (infer_with_context sort e r ≡ some ds)
      unfolding infer_with_context
      infer_with_context_total e r h =
          let (values, ready, enough) = prepare_total e r h in
          let (l, ds, e1, e2, _, report) = postprocess-IsReport sort v e.config h.n values enough in
          let rows = h.rows in (ds, rw (infer_with_context, ready, rows, e2) refl)

      abbrev Inferred : Engine F → Request F → Option ℕ × Engine F → Type ℓ
      Inferred e r taken =
          (ds : List (Detection F)) × (e' : Engine F) × (infer_acquired sort r taken
            ≡ some (ds, e'))
          × IsBack e e'

      acquire_empty : (e : Engine F) → e.free_contexts ≡ [] → acquire_context e ≡ (none, e)
      unfolding acquire_context
      acquire_empty e h = simp (acquire_context, h) refl

      acquire_first :
          (e : Engine F) (c : ℕ) (rest : List ℕ)
          → e.free_contexts ≡ c ∷ rest
          → acquire_context e ≡ (some c, record e { free_contexts = rest })
      unfolding acquire_context
      acquire_first e c rest h = rw (acquire_context, h) refl

      infer_acquired_total :
          (e : Engine F) (r : Request F) → Holds e r → Inferred e r (acquire_context e)
      unfolding infer_acquired release_context
      infer_acquired_total e r h = elim (list-cases e.free_contexts) [
        | inl empty ↦
            subst (Inferred e r) (sym (acquire_empty e empty)) ([], e, refl, IsBack-refl e)
        | inr (c, rest, here) ↦
            let e1 = record e { free_contexts = rest } in
            let (ds, found) = infer_with_context_total e1 r (Holds-free e rest r h) in
            subst (Inferred e r) (sym (acquire_first e c rest here)) (
              ds,
              release_context (some c) e1,
              rw (infer_acquired, found) refl,
              (subst (Perm (rest ++ c ∷ [])) (sym here) (perm_append_comm rest (c ∷ [])), refl),
            )
      ]

      -- For an image that the engine can take, `infer` does not fault, and the engine is the same before and
      -- after it, all contexts that were free free again.
      pub infer_returns_context :
          (e : Engine F) (r : Request F)
          → Holds e r
          → (ds : List (Detection F)) × (e' : Engine F) × (infer sort e r ≡ some (ds, e'))
            × IsBack e e'
      unfolding infer
      infer_returns_context e r h = elim (Bool-cases (not e.engine || no_input e.input_index)) [
        | inl idle ↦ ([], e, rw (infer, idle) refl, IsBack-refl e)
        | inr ready ↦
            let (ds, e', ok, back) = infer_acquired_total e r h in
            (ds, e', rw (infer, ready) ok, back)
      ]
