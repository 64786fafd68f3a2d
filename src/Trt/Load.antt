-- ===== src/Trt/Load.antt =====
-- `TRTEngine::load` and `create_context_pool` of cpp/src/trt_engine.cpp.
use pantograph_arc_vision.Common.{
  ℕ, zero, suc, ◌+◌, ◌<◌, ◌≡◌, refl, sym, subst, ap, ap₂, ◌∙◌, ◌≢◌, ◌⊎◌, inl, inr, Bool, true,
  false, some, List, [], ◌∷◌, ◌++◌, append-nil, append_assoc, arith, length,
}
use pantograph_arc_vision.Trt.{
  InferConfig, Engine, Binding, Creation, created, LoadEnv, scan_bindings, create_contexts,
  pool_size_of, create_context_pool, load_engine, load,
}
use pantograph_arc_vision.Trt.Bindings.{outputs, sizes, IsScanned, scan_bindings-IsScanned}

-- The slots from `i` on, `n` of them.
unfoldable pub slots : ℕ → ℕ → List ℕ
slots i zero = []
slots i (suc n) = i ∷ slots (i + 1) n

pub length-slots : (i n : ℕ) → length (slots i n) ≡ n
unfolding slots
length-slots i zero = refl
length-slots i (suc n) = ap suc (length-slots (i + 1) n)

Creation-discrete : Discrete Creation
Creation-discrete = hlevel

module _ {ℓ} {F : Type ℓ} where
  -- How far the loop gets: to the end with every context, or to the first that cannot be created.
  pub record IsPooled (creation : ℕ → Creation) (n i : ℕ) (e : Engine F) (r : Bool × Engine F)
      : Type ℓ where
    pub made : ℕ
    pub complete :
        (r.0 ≡ true) × (made ≡ n) ⊎ ((r.0 ≡ false) × (made < n) × (creation (i + made) ≢ created))
    pub all : r.1.contexts ≡ e.contexts ++ slots i made
    pub free : r.1.free_contexts ≡ e.free_contexts ++ slots i made
    pub kept : r.1 ≡ record e { contexts = r.1.contexts; free_contexts = r.1.free_contexts }

  abbrev with_context : Engine F → ℕ → Engine F
  with_context e i = record e {
    free_contexts = e.free_contexts ++ (i ∷ []);
    contexts = e.contexts ++ (i ∷ []);
  }

  create_contexts_stop :
      (creation : ℕ → Creation) (n i : ℕ) (e : Engine F)
      → creation i ≢ created
      → create_contexts creation (suc n) i e ≡ (false, e)
  unfolding create_contexts
  create_contexts_stop creation n i e stop = ground (arith, stop)

  create_contexts_step :
      (creation : ℕ → Creation) (n i : ℕ) (e : Engine F)
      → creation i ≡ created
      → create_contexts creation (suc n) i e ≡ create_contexts creation n (i + 1) (with_context e i)
  unfolding create_contexts
  create_contexts_step creation n i e h = rw (h, create_contexts)

  pub create_contexts-IsPooled :
      (creation : ℕ → Creation) (n i : ℕ) (e : Engine F)
      → IsPooled creation n i e (create_contexts creation n i e)
  unfolding create_contexts slots
  create_contexts-IsPooled creation zero i e = record {
    made = 0;
    complete = inl (refl, refl);
    all = sym (append-nil _);
    free = sym (append-nil _);
    kept = refl;
  }
  create_contexts-IsPooled creation (suc n) i e = elim (Creation-discrete (creation i) created) [
    | yes here ↦
        let s = create_contexts-IsPooled creation n (i + 1) (with_context e i) in
        let shift : i + 1 + s.made ≡ i + suc s.made = omega arith in
        rw (create_contexts_step creation n i e here) (record {
          made = suc s.made;
          complete = ground (arith, s.complete, shift);
          all = s.all ∙ append_assoc e.contexts (i ∷ []) (slots (i + 1) s.made);
          free = s.free ∙ append_assoc e.free_contexts (i ∷ []) (slots (i + 1) s.made);
          kept = s.kept;
        })
    | no stop ↦
        let start : i + 0 ≡ i = omega arith in
        rw (create_contexts_stop creation n i e stop) (record {
          made = 0;
          complete = inr (refl, omega arith, rw start stop);
          all = sym (append-nil _);
          free = sym (append-nil _);
          kept = refl;
        })
  ]

  -- What a `load` that returns true leaves: the pool has every context that the configuration asks
  -- for, all of them free, behind those of an earlier load.
  pub record IsLoaded (config : InferConfig F) (bs : List Binding) (e e' : Engine F) : Type ℓ where
    pub running : (e'.engine ≡ true) × (e'.runtime ≡ true)
    pub configured : e'.config ≡ config
    pub indices : e'.output_indices ≡ e.output_indices ++ outputs 0 bs
    pub buffers : e'.output_sizes ≡ e.output_sizes ++ sizes bs
    pub all : e'.contexts ≡ e.contexts ++ slots 0 (pool_size_of config.context_pool_size)
    pub free : e'.free_contexts ≡ e.free_contexts ++ slots 0 (pool_size_of config.context_pool_size)

  pooled-IsLoaded :
      (creation : ℕ → Creation) (bs : List Binding) (e e1 : Engine F) (r : Bool × Engine F) (n : ℕ)
      → n ≡ pool_size_of e.config.context_pool_size
      → IsScanned 0 bs (record e { engine = true }) e1
      → IsPooled creation n 0 e1 r
      → ((i : ℕ) → i < pool_size_of e.config.context_pool_size → creation i ≡ created)
      → e.runtime ≡ true
      → (r.0 ≡ true) × IsLoaded e.config bs e r.1
  pooled-IsLoaded creation bs e e1 r n size s p enough on = elim p.complete [
    | inl (ok, whole) ↦
        let made : p.made ≡ pool_size_of e.config.context_pool_size = whole ∙ size in
        (
          ok,
          record {
            running = (
              ap (λ x. x.engine) p.kept ∙ s.engine_kept,
              ap (λ x. x.runtime) p.kept ∙ s.runtime_kept ∙ on,
            );
            configured = ap (λ x. x.config) p.kept ∙ s.config_kept;
            indices = ap (λ x. x.output_indices) p.kept ∙ s.indices;
            buffers = ap (λ x. x.output_sizes) p.kept ∙ s.buffers;
            all = p.all ∙ ap₂ ◌++◌ s.contexts_kept (ap (slots 0) made);
            free = p.free ∙ ap₂ ◌++◌ s.free_kept (ap (slots 0) made);
          },
        )
    | inr (fail, early, stop) ↦ absurd (stop (enough (0 + p.made) (omega (arith, early, size))))
  ]

  load_engine-some :
      (env : LoadEnv) (bs : List Binding) (e : Engine F)
      → env.deserialized ≡ some bs
      → load_engine env e
        ≡ create_context_pool env.creation (scan_bindings 0 bs (record e { engine = true }))
  unfolding load_engine
  load_engine-some env bs e readable = rw readable refl

  load_engine-IsLoaded :
      (env : LoadEnv) (bs : List Binding) (e : Engine F)
      → env.deserialized ≡ some bs
      → ((i : ℕ) → i < pool_size_of e.config.context_pool_size → env.creation i ≡ created)
      → e.runtime ≡ true
      → ((load_engine env e).0 ≡ true) × IsLoaded e.config bs e (load_engine env e).1
  unfolding create_context_pool
  load_engine-IsLoaded env bs e readable enough on =
      let e1 = scan_bindings 0 bs (record e { engine = true }) in
      let s = scan_bindings-IsScanned 0 bs (record e { engine = true }) in
      let n = pool_size_of e1.config.context_pool_size in
      let size = ap (λ c. pool_size_of c.context_pool_size) s.config_kept in
      subst (λ r. (r.0 ≡ true) × IsLoaded e.config bs e r.1)
        (sym (load_engine-some env bs e readable))
        (pooled-IsLoaded env.creation bs e e1 _ n size s
          (create_contexts-IsPooled env.creation n 0 e1) enough on)

  load_open :
      (env : LoadEnv) (config : InferConfig F) (e : Engine F)
      → env.file_opened ≡ true
      → env.runtime_made ≡ true
      → load env config e ≡ load_engine env (record e { config = config; runtime = true })
  unfolding load
  load_open env config e opened started = rw (opened, started) refl

  -- `load` succeeds when the file opens, the runtime starts, the engine can be read and every
  -- context of the configured pool can be created. It then leaves the engine running with the
  -- output bindings of the network, in order, and a pool of the configured size in which every
  -- context is free, each appended to what an earlier load left.
  pub load-IsLoaded :
      (env : LoadEnv) (config : InferConfig F) (bs : List Binding) (e : Engine F)
      → env.file_opened ≡ true
      → env.runtime_made ≡ true
      → env.deserialized ≡ some bs
      → ((i : ℕ) → i < pool_size_of config.context_pool_size → env.creation i ≡ created)
      → ((load env config e).0 ≡ true) × IsLoaded config bs e (load env config e).1
  load-IsLoaded env config bs e opened started readable enough =
      let e1 = record e { config = config; runtime = true } in
      let (ok, l) = load_engine-IsLoaded env bs e1 readable enough refl in
      subst (λ r. (r.0 ≡ true) × IsLoaded config bs e r.1)
        (sym (load_open env config e opened started))
        (
          ok,
          record {
            running = l.running;
            configured = l.configured;
            indices = l.indices;
            buffers = l.buffers;
            all = l.all;
            free = l.free;
          },
        )
