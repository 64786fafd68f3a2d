-- ===== src/Trt/Context.antt =====
-- cpp/src/trt_engine.cpp: `ExecutionContext::allocate` and `free`, as what a context owns and what is
-- allocated at all. What CUDA and `malloc` answer is an argument; the sizes of the buffers make no
-- difference here.
use pantograph_arc_vision.Common.{ℕ, zero, suc, ◌+◌, ◌-◌, Bool, true, false, if◌then◌else◌}

-- The members of a context that own something: a pointer is present or null, and a vector has as many
-- pointers as the number says. Then what is allocated at all: buffers on the device and on the host,
-- streams, and contexts of TensorRT.
pub record ExecutionContext : Type 0 where
  pub input_device : Bool
  pub input_host : Bool
  pub output_device_ptrs : ℕ
  pub output_hosts : ℕ
  pub own_stream : Bool
  pub trt_ctx : Bool
  pub live_device : ℕ
  pub live_host : ℕ
  pub live_streams : ℕ
  pub live_contexts : ℕ

-- Which calls succeed; output `i` has its own two.
pub record BufferAnswers : Type 0 where
  pub input_device_ok : Bool
  pub input_host_ok : Bool
  pub output_device_ok : ℕ → Bool
  pub output_host_ok : ℕ → Bool
  pub stream_ok : Bool

-- One if present.
abbrev pub count : Bool → ℕ
count true = 1
count false = 0

-- The first part of `allocate`, for a network with an input.
unfoldable pub allocate_input : BufferAnswers → ExecutionContext → Bool × ExecutionContext
allocate_input a x =
    let x1 = record x { input_device = true; live_device = x.live_device + 1 } in
    if a.input_device_ok
    then (if a.input_host_ok
        then (true, record x1 { input_host = true; live_host = x.live_host + 1 })
        else (false, record x1 { input_host = false }))
    else (false, x)

-- The loop over the outputs from output `i` on, with `n` to go.
unfoldable pub allocate_outputs :
    BufferAnswers → (n i : ℕ) → ExecutionContext → Bool × ExecutionContext
allocate_outputs a zero i x = (true, x)
allocate_outputs a (suc n) i x =
    let x1 = record x {
      output_device_ptrs = x.output_device_ptrs + 1;
      live_device = x.live_device + 1;
    } in
    let x2 = record x1 { output_hosts = x.output_hosts + 1; live_host = x.live_host + 1 } in
    let rest = allocate_outputs a n (i + 1) x2 in
    if a.output_device_ok i then (if a.output_host_ok i then rest else (false, x1)) else (false, x)

unfoldable pub allocate_stream : BufferAnswers → ExecutionContext → Bool × ExecutionContext
allocate_stream a x =
    if a.stream_ok
    then (true, record x { own_stream = true; live_streams = x.live_streams + 1 })
    else (false, x)

-- What follows the input, and what follows the outputs.
abbrev pub allocate_last : BufferAnswers → Bool × ExecutionContext → Bool × ExecutionContext
allocate_last a (false, x) = (false, x)
allocate_last a (true, x) = allocate_stream a x

abbrev pub allocate_rest :
    BufferAnswers → (outputs : ℕ) → Bool × ExecutionContext → Bool × ExecutionContext
allocate_rest a outputs (false, x) = (false, x)
allocate_rest a outputs (true, x) = allocate_last a (allocate_outputs a outputs 0 x)

-- `allocate` for a network with `outputs` outputs; `has_input` is `input_index >= 0`.
unfoldable pub allocate :
    BufferAnswers → (has_input : Bool) → (outputs : ℕ) → ExecutionContext → Bool × ExecutionContext
allocate a true outputs x = allocate_rest a outputs (allocate_input a x)
allocate a false outputs x = allocate_rest a outputs (true, x)

-- `free`.
unfoldable pub release : ExecutionContext → ExecutionContext
release x = record {
  input_device = false;
  input_host = false;
  output_device_ptrs = 0;
  output_hosts = 0;
  own_stream = false;
  trt_ctx = false;
  live_device = x.live_device - count x.input_device - x.output_device_ptrs;
  live_host = x.live_host - count x.input_host - x.output_hosts;
  live_streams = x.live_streams - count x.own_stream;
  live_contexts = x.live_contexts - count x.trt_ctx;
}

-- A context with a context of TensorRT and nothing else, as `create_context_pool` has it before `allocate`.
abbrev pub new_context : ExecutionContext
new_context = record {
  input_device = false;
  input_host = false;
  output_device_ptrs = 0;
  output_hosts = 0;
  own_stream = false;
  trt_ctx = true;
  live_device = 0;
  live_host = 0;
  live_streams = 0;
  live_contexts = 1;
}
