-- ===== src/Trt/Bindings.antt =====
-- `TRTEngine::load` of cpp/src/trt_engine.cpp: what the loop over the bindings of the network collects.
use pantograph_arc_vision.Common.{
  ℕ, ◌+◌, ◌≡◌, refl, sym, subst, ap, ◌∙◌, inl, inr, true, false, some, List, [], ◌∷◌, ◌++◌,
  append-nil, append_assoc, if◌then◌else◌, Bool-cases,
}
use pantograph_arc_vision.Trt.{Engine, Binding, binding_size, scan_bindings}

-- The indices of the output bindings, from index `i` on, and their sizes.
pub outputs : ℕ → List Binding → List ℕ
outputs i [] = []
outputs i (b ∷ bs) = let rest = outputs (i + 1) bs in if b.is_input then rest else i ∷ rest

pub sizes : List Binding → List ℕ
sizes [] = []
sizes (b ∷ bs) = let rest = sizes bs in if b.is_input then rest else binding_size b ∷ rest

outputs_input :
    (i : ℕ) (b : Binding) (bs : List Binding)
    → b.is_input ≡ true
    → (outputs i (b ∷ bs) ≡ outputs (i + 1) bs) × (sizes (b ∷ bs) ≡ sizes bs)
unfolding outputs sizes
outputs_input i b bs h = (rw h refl, rw h refl)

outputs_output :
    (i : ℕ) (b : Binding) (bs : List Binding)
    → b.is_input ≡ false
    → (outputs i (b ∷ bs) ≡ i ∷ outputs (i + 1) bs) × (sizes (b ∷ bs) ≡ binding_size b ∷ sizes bs)
unfolding outputs sizes
outputs_output i b bs h = (rw h refl, rw h refl)

module _ {ℓ} {F : Type ℓ} where
  -- What scanning the bindings leaves alone, and what it appends.
  pub record IsScanned (i : ℕ) (bs : List Binding) (e e' : Engine F) : Type ℓ where
    pub indices : e'.output_indices ≡ e.output_indices ++ outputs i bs
    pub buffers : e'.output_sizes ≡ e.output_sizes ++ sizes bs
    pub config_kept : e'.config ≡ e.config
    pub contexts_kept : e'.contexts ≡ e.contexts
    pub free_kept : e'.free_contexts ≡ e.free_contexts
    pub engine_kept : e'.engine ≡ e.engine
    pub runtime_kept : e'.runtime ≡ e.runtime

  abbrev with_input : ℕ → Binding → Engine F → Engine F
  with_input i b e = record e { input_index = some i; input_size = binding_size b }

  abbrev with_output : ℕ → Binding → Engine F → Engine F
  with_output i b e = record e {
    output_indices = e.output_indices ++ (i ∷ []);
    output_sizes = e.output_sizes ++ (binding_size b ∷ []);
  }

  scan_bindings_input :
      (i : ℕ) (b : Binding) (bs : List Binding) (e : Engine F)
      → b.is_input ≡ true
      → scan_bindings i (b ∷ bs) e ≡ scan_bindings (i + 1) bs (with_input i b e)
  unfolding scan_bindings
  scan_bindings_input i b bs e h = rw h refl

  scan_bindings_output :
      (i : ℕ) (b : Binding) (bs : List Binding) (e : Engine F)
      → b.is_input ≡ false
      → scan_bindings i (b ∷ bs) e ≡ scan_bindings (i + 1) bs (with_output i b e)
  unfolding scan_bindings
  scan_bindings_output i b bs e h = rw h refl

  pub scan_bindings-IsScanned :
      (i : ℕ) (bs : List Binding) (e : Engine F) → IsScanned i bs e (scan_bindings i bs e)
  unfolding scan_bindings outputs sizes
  scan_bindings-IsScanned i [] e = record {
    indices = sym (append-nil _);
    buffers = sym (append-nil _);
    config_kept = refl;
    contexts_kept = refl;
    free_kept = refl;
    engine_kept = refl;
    runtime_kept = refl;
  }
  scan_bindings-IsScanned i (b ∷ bs) e = elim (Bool-cases b.is_input) [
    | inl input ↦
        let s = scan_bindings-IsScanned (i + 1) bs (with_input i b e) in
        subst (IsScanned i (b ∷ bs) e) (sym (scan_bindings_input i b bs e input)) (record {
          indices = s.indices ∙ ap (◌++◌ e.output_indices) (sym (outputs_input i b bs input).0);
          buffers = s.buffers ∙ ap (◌++◌ e.output_sizes) (sym (outputs_input i b bs input).1);
          config_kept = s.config_kept;
          contexts_kept = s.contexts_kept;
          free_kept = s.free_kept;
          engine_kept = s.engine_kept;
          runtime_kept = s.runtime_kept;
        })
    | inr output ↦
        let s = scan_bindings-IsScanned (i + 1) bs (with_output i b e) in
        subst (IsScanned i (b ∷ bs) e) (sym (scan_bindings_output i b bs e output)) (record {
          indices =
              s.indices
              ∙ append_assoc e.output_indices (i ∷ []) (outputs (i + 1) bs)
              ∙ ap (◌++◌ e.output_indices) (sym (outputs_output i b bs output).0);
          buffers =
              s.buffers
              ∙ append_assoc e.output_sizes (binding_size b ∷ []) (sizes bs)
              ∙ ap (◌++◌ e.output_sizes) (sym (outputs_output i b bs output).1);
          config_kept = s.config_kept;
          contexts_kept = s.contexts_kept;
          free_kept = s.free_kept;
          engine_kept = s.engine_kept;
          runtime_kept = s.runtime_kept;
        })
  ]
