-- ===== src/Trt/Buffers.antt =====
-- What `ExecutionContext::allocate` of cpp/src/trt_engine.cpp leaves allocated, also where it gives up,
-- and what `free` leaves.
use pantograph_arc_vision.Common.{
  ℕ, zero, suc, ◌+◌, ◌≡◌, refl, sym, subst, ap, ◌∙◌, inl, inr, Bool, true, false, arith, Bool-cases,
}
use pantograph_arc_vision.Trt.Context.{
  ExecutionContext, BufferAnswers, count, allocate_input, allocate_outputs, allocate_stream,
  allocate_last, allocate_rest, allocate, release, new_context,
}

-- Everything that is allocated is owned, once.
pub record IsOwned (x : ExecutionContext) : Type 0 where
  pub device : x.live_device ≡ count x.input_device + x.output_device_ptrs
  pub host : x.live_host ≡ count x.input_host + x.output_hosts
  pub streams : x.live_streams ≡ count x.own_stream
  pub contexts : x.live_contexts ≡ count x.trt_ctx

-- Nothing is allocated.
abbrev pub IsEmpty : ExecutionContext → Type 0
IsEmpty x = (x.live_device ≡ 0) × (x.live_host ≡ 0) × (x.live_streams ≡ 0) × (x.live_contexts ≡ 0)

release-IsEmpty : (x : ExecutionContext) → IsOwned x → IsEmpty (release x)
unfolding release
release-IsEmpty x o = (
  omega (arith, o.device),
  omega (arith, o.host),
  omega (arith, o.streams),
  omega (arith, o.contexts),
)

-- The context with one buffer on the device more, and one on the host too.
abbrev with_device : ExecutionContext → ExecutionContext
with_device x = record x {
  output_device_ptrs = x.output_device_ptrs + 1;
  live_device = x.live_device + 1;
}

abbrev with_both : ExecutionContext → ExecutionContext
with_both x = record (with_device x) {
  output_hosts = x.output_hosts + 1;
  live_host = x.live_host + 1;
}

outputs_stop :
    (a : BufferAnswers) (n i : ℕ) (x : ExecutionContext)
    → a.output_device_ok i ≡ false
    → allocate_outputs a (suc n) i x ≡ (false, x)
unfolding allocate_outputs
outputs_stop a n i x e = rw e refl

outputs_half :
    (a : BufferAnswers) (n i : ℕ) (x : ExecutionContext)
    → a.output_device_ok i ≡ true
    → a.output_host_ok i ≡ false
    → allocate_outputs a (suc n) i x ≡ (false, with_device x)
unfolding allocate_outputs
outputs_half a n i x e e' = rw (e, e') refl

outputs_next :
    (a : BufferAnswers) (n i : ℕ) (x : ExecutionContext)
    → a.output_device_ok i ≡ true
    → a.output_host_ok i ≡ true
    → allocate_outputs a (suc n) i x ≡ allocate_outputs a n (i + 1) (with_both x)
unfolding allocate_outputs
outputs_next a n i x e e' = rw (e, e') refl

-- After the loop over `n` outputs: what is allocated is owned, and on success each has its two buffers.
abbrev OutputsMade : ℕ → ExecutionContext → Bool × ExecutionContext → Type 0
OutputsMade n x r =
    IsOwned r.1
    × (r.1.own_stream ≡ x.own_stream)
    × (r.0 ≡ true
        → (r.1.output_hosts ≡ x.output_hosts + n)
          × (r.1.output_device_ptrs ≡ x.output_device_ptrs + n))

OutputsMade-allocate_outputs :
    (a : BufferAnswers) (n i : ℕ) (x : ExecutionContext)
    → IsOwned x
    → OutputsMade n x (allocate_outputs a n i x)
unfolding allocate_outputs
OutputsMade-allocate_outputs a zero i x o = (o, refl, λ _. (omega arith, omega arith))
OutputsMade-allocate_outputs a (suc n) i x o = elim (Bool-cases (a.output_device_ok i)) [
  | inr e ↦
      subst (OutputsMade (suc n) x) (sym (outputs_stop a n i x e))
        (o, refl, λ t. absurd (ground (arith, t)))
  | inl e ↦ elim (Bool-cases (a.output_host_ok i)) [
    | inr e' ↦ subst (OutputsMade (suc n) x) (sym (outputs_half a n i x e e')) (
      record {
        device = omega (arith, o.device);
        host = o.host;
        streams = o.streams;
        contexts = o.contexts;
      },
      refl,
      λ t. absurd (ground (arith, t)),
    )
    | inl e' ↦
        let owned : IsOwned (with_both x) = record {
          device = omega (arith, o.device);
          host = omega (arith, o.host);
          streams = o.streams;
          contexts = o.contexts;
        } in
        let (o', s, made) = OutputsMade-allocate_outputs a n (i + 1) (with_both x) owned in
        subst (OutputsMade (suc n) x) (sym (outputs_next a n i x e e')) (
          o',
          s,
          λ t. let (hosts, devices) = made t in (omega (arith, hosts), omega (arith, devices)),
        )
  ]
]

-- A context that owns no buffer of an output and no stream yet.
abbrev Started : ExecutionContext → Type 0
Started x = IsOwned x × (x.own_stream ≡ false) × (x.output_hosts ≡ 0) × (x.output_device_ptrs ≡ 0)

owned :
    (x : ExecutionContext)
    → x.live_device ≡ count x.input_device + x.output_device_ptrs
    → x.live_host ≡ count x.input_host + x.output_hosts
    → x.live_streams ≡ count x.own_stream
    → x.live_contexts ≡ count x.trt_ctx
    → IsOwned x
owned x d h s c = record { device = d; host = h; streams = s; contexts = c }

Started-input :
    (dev host : Bool) (d h : ℕ → Bool) (st : Bool)
    → Started
        (allocate_input
          (record {
            input_device_ok = dev;
            input_host_ok = host;
            output_device_ok = d;
            output_host_ok = h;
            stream_ok = st;
          })
          new_context).1
unfolding allocate_input
Started-input false host d h st = (owned _ refl refl refl refl, refl, refl, refl)
Started-input true false d h st = (owned _ refl refl refl refl, refl, refl, refl)
Started-input true true d h st = (owned _ refl refl refl refl, refl, refl, refl)

-- What a whole `allocate` leaves.
abbrev pub IsAllocated : ℕ → Bool × ExecutionContext → Type 0
IsAllocated outputs r =
    IsOwned r.1
    × (r.0 ≡ true
        → (r.1.own_stream ≡ true)
          × (r.1.output_hosts ≡ outputs)
          × (r.1.output_device_ptrs ≡ outputs))

IsAllocated-stream :
    (dev host : Bool) (d h : ℕ → Bool) (st : Bool) (outputs : ℕ) (x : ExecutionContext)
    → IsOwned x
    → x.own_stream ≡ false
    → x.output_hosts ≡ outputs
    → x.output_device_ptrs ≡ outputs
    → IsAllocated outputs (
        allocate_stream
          (record {
            input_device_ok = dev;
            input_host_ok = host;
            output_device_ok = d;
            output_host_ok = h;
            stream_ok = st;
          })
          x)
unfolding allocate_stream
IsAllocated-stream dev host d h false outputs x o s hosts devices =
    (o, λ t. absurd (ground (arith, t)))
IsAllocated-stream dev host d h true outputs x o s hosts devices =
    let none_yet : count x.own_stream ≡ 0 = ap count s in
    (
      owned _ o.device o.host (omega (arith, o.streams, none_yet)) o.contexts,
      λ _. (refl, hosts, devices),
    )

IsAllocated-last :
    (a : BufferAnswers) (outputs : ℕ) (x : ExecutionContext) (r : Bool × ExecutionContext)
    → Started x
    → OutputsMade outputs x r
    → IsAllocated outputs (allocate_last a r)
IsAllocated-last a outputs x (false, x2) s (o, _, _) = (o, λ t. absurd (ground (arith, t)))
IsAllocated-last a outputs x (true, x2) (_, s, h0, d0) (o, same, made) =
    let (hosts, devices) = made refl in
    IsAllocated-stream a.input_device_ok a.input_host_ok a.output_device_ok a.output_host_ok
      a.stream_ok outputs x2 o (same ∙ s) (omega (arith, hosts, h0)) (omega (arith, devices, d0))

IsAllocated-rest :
    (a : BufferAnswers) (outputs : ℕ) (r : Bool × ExecutionContext)
    → Started r.1
    → IsAllocated outputs (allocate_rest a outputs r)
IsAllocated-rest a outputs (false, x) (o, _, _, _) = (o, λ t. absurd (ground (arith, t)))
IsAllocated-rest a outputs (true, x) s =
    IsAllocated-last a outputs x (allocate_outputs a outputs 0 x) s
      (OutputsMade-allocate_outputs a outputs 0 x (s.0))

allocate-IsAllocated :
    (a : BufferAnswers) (has_input : Bool) (outputs : ℕ)
    → IsAllocated outputs (allocate a has_input outputs new_context)
unfolding allocate
allocate-IsAllocated a true outputs = IsAllocated-rest a outputs (allocate_input a new_context) (
    Started-input a.input_device_ok a.input_host_ok a.output_device_ok a.output_host_ok a.stream_ok)
allocate-IsAllocated a false outputs =
    IsAllocated-rest a outputs (true, new_context) (owned _ refl refl refl refl, refl, refl, refl)

-- Whatever CUDA and `malloc` answer, wherever `allocate` gives up: a new context owns all that is
-- allocated, so that a `free` after it leaves nothing allocated. When `allocate` succeeds, each output has
-- its buffer on the device and on the host, and the context has a stream.
pub release-allocate :
    (a : BufferAnswers) (has_input : Bool) (outputs : ℕ)
    → IsAllocated outputs (allocate a has_input outputs new_context)
      × IsEmpty (release (allocate a has_input outputs new_context).1)
release-allocate a has_input outputs =
    let made = allocate-IsAllocated a has_input outputs in
    (made, release-IsEmpty (allocate a has_input outputs new_context).1 (made.0))
