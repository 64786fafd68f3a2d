-- ===== src/Streams/Contexts.antt =====
-- cpp/src/arc_detector.cpp: how the contexts of the streams come and go, in `init_stream`,
-- `shutdown_stream` and `shutdown`.
use pantograph_arc_vision.Common.{some_inj}
use pantograph_arc_vision.Common.{
  ℕ, ◌<◌, ◌≡◌, refl, sym, subst, ap, ◌∙◌, ◌↔◌, All, inl, inr, Bool, true, false, Option, none, some,
  List, [], ◌∷◌, arith, Option-cases,
}
use pantograph_arc_vision.Common.Int.{ℤ, pos}
use pantograph_arc_vision.Common.Floating.{Floating, ◌⊘◌, whole}
use pantograph_arc_vision.Common.Dict.{
  insert, erase, eq_ℤ, find-insert, find-insert_other, find-erase, find-erase_other,
}
use pantograph_arc_vision.Tracker.{tracker}
use pantograph_arc_vision.Tracker.Ids.{IsTracked}
use pantograph_arc_vision.Tracker.History.{new-IsTracked}
use pantograph_arc_vision.Trt.{Engine, unload, Binding, created, LoadEnv, load, pool_size_of}
use pantograph_arc_vision.Trt.Load.{IsLoaded, load-IsLoaded}
use pantograph_arc_vision.Detector.{DetectorConfig, StreamContext}
use pantograph_arc_vision.Streams.{
  StreamsConfig, ArcDetector, Setup, returned, null_log, detector_of, get_stream_context,
  shutdown_stream, new_engine, engine_config, load_new, create_context, init_stream,
}

-- The file opens, the runtime starts, the engine can be read, and one context can be created.
pub record Loads (env : LoadEnv) (bs : List Binding) : Type 0 where
  pub opened : env.file_opened ≡ true
  pub started : env.runtime_made ≡ true
  pub readable : env.deserialized ≡ some bs
  pub made : env.creation 0 ≡ created

one_context :
    (env : LoadEnv)
    → env.creation 0 ≡ created
    → (i : ℕ) → i < pool_size_of (pos 1)
    → env.creation i ≡ created
unfolding pool_size_of
one_context env made i h =
    let first : 0 ≡ i = omega arith in subst (λ k. env.creation k ≡ created) first made

module _ {ℓ} {F : Type ℓ} ⦃f : Floating F⦄ where
  load_new-IsLoaded :
      (env : LoadEnv) (bs : List Binding) (score : F) (detector : DetectorConfig F)
      → Loads env bs
      → (e : Engine F) × (load_new env (engine_config score detector) ≡ some e)
        × IsLoaded (engine_config score detector) bs new_engine e
  unfolding load_new
  load_new-IsLoaded env bs score detector l =
      let config = engine_config score detector in
      let one : (i : ℕ) → i < pool_size_of (pos 1) → env.creation i ≡ created =
        one_context env l.made in
      let (ok, loaded) = load-IsLoaded env config bs new_engine l.opened l.started l.readable one in
      ((load env config new_engine).1, rw ok refl, loaded)

module _ {ℓ} {F D : Type ℓ} ⦃f : Floating F⦄ ⦃d : Floating D⦄ where
  -- A new context: both engines are loaded, and no arc is tracked yet.
  pub record IsFresh (config : StreamsConfig F D) (vs us : List Binding) (ctx : StreamContext F D)
      : Type ℓ where
    pub visible :
        IsLoaded
          (engine_config config.visible_score_thresh config.detector)
          vs
          new_engine
          ctx.visible_engine
    pub uv :
        IsLoaded (engine_config config.uv_score_thresh config.detector) us new_engine ctx.uv_engine
    pub tracked : IsTracked ctx.lifecycle_tracker
    pub idle : ctx.lifecycle_tracker.active_tracks ≡ []

  create_context-IsFresh :
      (visible uv : LoadEnv) (vs us : List Binding) (config : StreamsConfig F D)
      → Loads visible vs
      → Loads uv us
      → (ctx : StreamContext F D) × (create_context visible uv config ≡ some ctx)
        × IsFresh config vs us ctx
  unfolding create_context tracker
  create_context-IsFresh visible uv vs us config lv lu =
      let c = config.detector in
      let (v, ev, loaded_v) = load_new-IsLoaded visible vs config.visible_score_thresh c lv in
      let (u, eu, loaded_u) = load_new-IsLoaded uv us config.uv_score_thresh c lu in
      (
        _,
        rw (ev, eu) refl,
        record {
          visible = loaded_v;
          uv = loaded_u;
          tracked =
              new-IsTracked config.severity_thresholds (whole 3 ⊘ whole 10) (pos 100000000)
                (pos 64);
          idle = refl;
        },
      )

  -- The contexts of the streams other than `i` are the same.
  abbrev pub OthersKept : ℤ → ArcDetector F D → ArcDetector F D → Type ℓ
  OthersKept i det det' =
      (j : ℤ) → eq_ℤ j i ≡ false → get_stream_context j det' ≡ get_stream_context j det

  returned_code : Setup F D → Option Bool
  returned_code (returned ok det) = some ok
  returned_code (null_log det) = none

  init_stream_present :
      (visible uv : LoadEnv) (i : ℤ) (det : ArcDetector F D) (ctx : StreamContext F D)
      → get_stream_context i det ≡ some ctx
      → init_stream visible uv i det ≡ returned true det
  unfolding init_stream
  init_stream_present visible uv i det ctx e = rw (init_stream, e) refl

  init_stream_failed :
      (visible uv : LoadEnv) (i : ℤ) (det : ArcDetector F D)
      → get_stream_context i det ≡ none
      → create_context visible uv det.config ≡ none
      → init_stream visible uv i det ≡ returned false det
  unfolding init_stream
  init_stream_failed visible uv i det e c = rw (init_stream, e, c) refl

  -- The detector with a new context.
  abbrev pub with_context : ℤ → StreamContext F D → ArcDetector F D → ArcDetector F D
  with_context i ctx det = record det { stream_contexts = insert i ctx det.stream_contexts }

  init_stream_created :
      (visible uv : LoadEnv) (i : ℤ) (det : ArcDetector F D) (ctx : StreamContext F D)
      → get_stream_context i det ≡ none
      → create_context visible uv det.config ≡ some ctx
      → init_stream visible uv i det ≡ null_log (with_context i ctx det)
  unfolding init_stream
  init_stream_created visible uv i det ctx e c = rw (init_stream, e, c) refl

  -- A stream without a context, for which both engines load: `init_stream` gives it a new context, whose
  -- engines have one free execution context each and whose tracker is empty, and leaves the other streams
  -- alone. It does not return, since its log message then reads through a null pointer.
  pub init_stream-IsFresh :
      (visible uv : LoadEnv) (vs us : List Binding) (i : ℤ) (det : ArcDetector F D)
      → Loads visible vs
      → Loads uv us
      → get_stream_context i det ≡ none
      → (det' : ArcDetector F D) × (ctx : StreamContext F D) × (init_stream visible uv i det
          ≡ null_log det')
        × (get_stream_context i det' ≡ some ctx)
        × IsFresh det.config vs us ctx
        × OthersKept i det det'
  unfolding get_stream_context
  init_stream-IsFresh visible uv vs us i det lv lu absent =
      let (ctx, e, fresh) = create_context-IsFresh visible uv vs us det.config lv lu in
      (
        with_context i ctx det,
        ctx,
        init_stream_created visible uv i det ctx absent e,
        find-insert i ctx det.stream_contexts,
        fresh,
        λ j other. find-insert_other i j ctx det.stream_contexts other,
      )

  -- Whatever the system answers, `init_stream` returns true only for a stream that has a context
  -- already. Whenever it returns, true or false, it has changed nothing.
  pub init_stream_returns :
      (visible uv : LoadEnv) (i : ℤ) (ok : Bool) (det det' : ArcDetector F D)
      → init_stream visible uv i det ≡ returned ok det'
      → (det' ≡ det)
        × ((ok ≡ true) ↔ ((ctx : StreamContext F D) × (get_stream_context i det ≡ some ctx)))
  unfolding returned_code
  init_stream_returns visible uv i ok det det' e = elim (Option-cases (get_stream_context i det)) [
    | inr (ctx, present) ↦
        let same = sym (init_stream_present visible uv i det ctx present) ∙ e in
        let code : true ≡ ok = some_inj (ap returned_code same) in
        (sym (ap detector_of same), ((λ _. (ctx, present)), (λ _. sym code)))
    | inl absent ↦
        let nothing : ((ctx : StreamContext F D) × (get_stream_context i det ≡ some ctx))
            → ok ≡ true =
          λ (ctx, present). absurd (ground (arith, absent, present)) in
        elim (Option-cases (create_context visible uv det.config)) [
          | inl failed ↦
              let same = sym (init_stream_failed visible uv i det absent failed) ∙ e in
              let code : false ≡ ok = some_inj (ap returned_code same) in
              (sym (ap detector_of same), ((λ t. absurd (ground (arith, code, t))), nothing))
          | inr (ctx, made) ↦
              let same = sym (init_stream_created visible uv i det ctx absent made) ∙ e in
              let code : none ≡ some ok = ap returned_code same in absurd (ground (arith, code))
        ]
  ]

  shutdown_stream_absent :
      (i : ℤ) (det : ArcDetector F D)
      → get_stream_context i det ≡ none
      → shutdown_stream i det ≡ ([], det)
  unfolding shutdown_stream
  shutdown_stream_absent i det e = rw (shutdown_stream, e) refl

  shutdown_stream_present :
      (i : ℤ) (det : ArcDetector F D) (ctx : StreamContext F D)
      → get_stream_context i det ≡ some ctx
      → shutdown_stream i det ≡ (
        unload ctx.visible_engine ∷ unload ctx.uv_engine ∷ [],
        record det { stream_contexts = erase i det.stream_contexts },
      )
  unfolding shutdown_stream
  shutdown_stream_present i det ctx e = rw (shutdown_stream, e) refl

  -- The engines that are unloaded, and the detector without the context of stream `i`.
  abbrev Forgets : ℤ → ArcDetector F D → List (Engine F) × ArcDetector F D → Type ℓ
  Forgets i det r =
      (get_stream_context i r.1 ≡ none) × OthersKept i det r.1 × All (λ e. e.contexts ≡ []) r.0

  -- After `shutdown_stream` the stream has no context, and the other streams have theirs; the engines
  -- that are unloaded are left without contexts, at most the two of the stream.
  shutdown_stream-Forgets : (i : ℤ) (det : ArcDetector F D) → Forgets i det (shutdown_stream i det)
  unfolding get_stream_context unload
  shutdown_stream-Forgets i det = elim (Option-cases (get_stream_context i det)) [
    | inl absent ↦
        subst (Forgets i det) (sym (shutdown_stream_absent i det absent))
          (absent, (λ j other. refl), tt)
    | inr (ctx, present) ↦ subst (Forgets i det) (sym (shutdown_stream_present i det ctx present)) (
      find-erase i det.stream_contexts,
      (λ j other. find-erase_other i j det.stream_contexts other),
      (refl, (refl, tt)),
    )
  ]
