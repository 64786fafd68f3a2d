-- ===== src/Engine/Start.antt =====
-- cpp/src/engine_main.cpp: `arcvision_engine_init`.
use pantograph_arc_vision.Common.{
  ℕ, zero, suc, ◌≡◌, refl, ap, ◌⊎◌, inl, inr, true, false, none, some, arith,
}
use pantograph_arc_vision.Common.Int.{ℤ, pos, negsuc, pos_part}
use pantograph_arc_vision.Common.Floating.{Floating}
use pantograph_arc_vision.Common.Dict.{find}
use pantograph_arc_vision.Streams.{
  ArcDetector, Setup, returned, null_log, get_stream_context, init_stream,
}
use pantograph_arc_vision.Streams.Contexts.{init_stream_returns}
use pantograph_arc_vision.Engine.{
  Globals, StartEnv, new_detector, init_streams, stream_count, engine_init,
}

some_stream : (n : ℤ) → (k : ℕ) × (pos_part (stream_count n) ≡ suc k)
some_stream (pos zero) = (3, refl)
some_stream (pos (suc n)) = (n, ground arith)
some_stream (negsuc n) = (3, ground arith)

module _ {ℓ} {F D : Type ℓ} ⦃f : Floating F⦄ ⦃d : Floating D⦄ where
  Setup-cases :
      (s : Setup F D)
      → ((det : ArcDetector F D) × (s ≡ null_log det))
        ⊎ ((det : ArcDetector F D) × (s ≡ returned false det))
        ⊎ ((det : ArcDetector F D) × (s ≡ returned true det))
  Setup-cases (null_log det) = inl (det, refl)
  Setup-cases (returned false det) = inr (inl (det, refl))
  Setup-cases (returned true det) = inr (inr (det, refl))

  -- The first stream of a detector without streams does not start.
  init_streams_first :
      (env : StartEnv) (n : ℕ) (det : ArcDetector F D)
      → get_stream_context (pos 0) det ≡ none
      → (init_streams env (suc n) 0 det ≡ none)
        ⊎ (init_streams env (suc n) 0 det ≡ some (false, det))
  unfolding init_streams
  init_streams_first env n det absent =
      let call = init_stream (env.visible_load 0) (env.uv_load 0) (pos 0) det in
      elim (Setup-cases call) [
        | inl (det', e) ↦ inl (rw (init_streams, e) refl)
        | inr (inl (det', e)) ↦
            let (same, _) =
              init_stream_returns (env.visible_load 0) (env.uv_load 0) (pos 0) false det det' e in
            inr (rw (init_streams, e) (ap (λ x. some (false, x)) same))
        | inr (inr (det', e)) ↦
            let (_, has) =
              init_stream_returns (env.visible_load 0) (env.uv_load 0) (pos 0) true det det' e in
            let (ctx, present) = has.0 refl in absurd (ground (arith, absent, present))
      ]

  -- A start of the engine never succeeds: whatever the system answers and whatever number of streams is
  -- asked for, `arcvision_engine_init` returns -1 with no detector, or it does not return.
  pub engine_init_fails :
      (env : StartEnv) (visible_thresh uv_thresh nms_thresh : F) (num_streams : ℤ) (g : Globals F D)
      → (engine_init env visible_thresh uv_thresh nms_thresh num_streams g ≡ none)
        ⊎ ((g' : Globals F D) × (engine_init env visible_thresh uv_thresh nms_thresh num_streams g
              ≡ some (negsuc 0, g'))
            × (g'.detector ≡ none))
  unfolding engine_init get_stream_context find
  engine_init_fails env v u n num_streams g =
      let (k, count) = some_stream num_streams in
      let det = record (new_detector {F = F} {D = D} v u n) { base_initialized = true } in
      elim (init_streams_first env k det refl) [
        | inl fault ↦ inl (rw (engine_init, count, fault) refl)
        | inr failed ↦ inr (
          record g { num_streams = stream_count num_streams; detector = none },
          rw (engine_init, count, failed) refl,
          refl,
        )
      ]
