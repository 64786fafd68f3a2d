-- ===== src/Engine/Results.antt =====
-- cpp/src/engine_main.cpp: what `arcvision_engine_process_frame` publishes, and what a subscriber of
-- cpp/src/zmq_publisher.cpp makes of it.
use pantograph_arc_vision.Common.{
  ℕ, zero, suc, ◌^◌, ◌<◌, ◌≡◌, refl, subst, ap, ◌∙◌, ◌⊎◌, inl, inr, true, Option, none, some, List,
  [], ◌∷◌, map, length, take, min, arith,
}
use pantograph_arc_vision.Common.Int.{ℤ, pos, ◌<ℤ◌}
use pantograph_arc_vision.Common.Floating.{Floating}
use pantograph_arc_vision.Severity.{level_value}
use pantograph_arc_vision.Trt.{Detection}
use pantograph_arc_vision.Wire.{Bytes, Layout, IsLayout, encode}
use pantograph_arc_vision.Detector.{Event, Input}
use pantograph_arc_vision.Publisher.{Publisher, is_open, receive}
use pantograph_arc_vision.Publisher.Deliver.{publish_nonblock_sends, receive-encode}
use pantograph_arc_vision.Streams.{ArcDetector, detect_frame}
use pantograph_arc_vision.Engine.{
  Globals, ResultMsg, to_msg, int_size, Sender, publish_events, process_frame,
}

length-map {ℓ} : {A B : Type ℓ} (g : A → B) (xs : List A) → length (map g xs) ≡ length xs
length-map g [] = refl
length-map g (x ∷ xs) = ap suc (length-map g xs)

int_size-pos {ℓ} : {A : Type ℓ} (xs : List A) → length xs < 2 ^ 31 → int_size xs ≡ pos (length xs)
int_size-pos xs h = ground arith

module _ {ℓ} {F D : Type ℓ} ⦃l : Layout (ResultMsg F D)⦄ where
  -- Events that are published by a publisher with a socket.
  publish_events-encode :
      (net : Sender) (e : Event F D) (es : List (Event F D)) (p : Publisher)
      → is_open p ≡ true
      → length (e ∷ es) < 2 ^ 31
      → let msgs = map to_msg (e ∷ es) in
        publish_events net (e ∷ es) (some p) ≡ (some (encode msgs (length msgs)), some p)
  unfolding publish_events
  publish_events-encode net e es p o few =
      let msgs = map to_msg (e ∷ es) in
      let short : length msgs < 2 ^ 31 = omega (arith, length-map to_msg (e ∷ es), few) in
      let (code, sent) =
        publish_nonblock_sends net.send net.again msgs (length msgs) p o (omega arith) in
      rw (publish_events, int_size-pos msgs short, sent) refl

  process_step :
      ⦃f : Floating F⦄ ⦃d : Floating D⦄ (sort : List (Detection F) → List (Detection F))
      (sort_events : List (Event F D) → List (Event F D)) (widen : F → D) (net : Sender)
      (i : Input F) (g : Globals F D) (det det' : ArcDetector F D) (events : List (Event F D))
      (msg : Option Bytes) (p : Option Publisher)
      → g.detector ≡ some det
      → detect_frame sort sort_events widen i det ≡ some (events, det')
      → publish_events net events g.publisher ≡ (msg, p)
      → process_frame sort sort_events widen net i g
        ≡ some (int_size events, msg, record g { detector = some det'; publisher = p })
  unfolding process_frame
  process_step sort sort_events widen net i g det det' events msg p has found sent =
      simp (process_frame, has, found, sent)

  -- A message that says of an event all that `arcvision_engine_process_frame` is to pass on.
  pub record IsMessageOf (evt : Event F D) (m : ResultMsg F D) : Type ℓ where
    pub rect : m.rect ≡ evt.rect
    pub confidence : m.confidence ≡ evt.confidence
    pub class_id : m.class_id ≡ pos 1
    pub pts_ns : m.pts_ns ≡ evt.pts_ns
    pub stream_index : m.stream_index ≡ evt.stream_index
    pub intensity : m.intensity ≡ evt.intensity
    pub instant_energy : m.instant_energy ≡ evt.instant_energy
    pub smoothed_energy : m.smoothed_energy ≡ evt.smoothed_energy
    pub cumulative_energy : m.cumulative_energy ≡ evt.cumulative_energy
    pub severity_level : m.severity_level ≡ pos (level_value evt.severity)
    pub track_id : m.track_id ≡ evt.track_id
    pub track_frame_count : m.track_frame_count ≡ evt.track_frame_count
    pub track_duration_ns : m.track_duration_ns ≡ evt.track_duration_ns

  -- One message for each event, in order.
  pub data Carries : List (Event F D) → List (ResultMsg F D) → Type ℓ where
    no_more : Carries [] []
    one_more :
        {evt : Event F D} {m : ResultMsg F D} {events : List (Event F D)}
        {ms : List (ResultMsg F D)}
        → IsMessageOf evt m
        → Carries events ms
        → Carries (evt ∷ events) (m ∷ ms)

  to_msg-IsMessageOf : (evt : Event F D) → IsMessageOf evt (to_msg evt)
  to_msg-IsMessageOf evt = record {
    rect = refl;
    confidence = refl;
    class_id = refl;
    pts_ns = refl;
    stream_index = refl;
    intensity = refl;
    instant_energy = refl;
    smoothed_energy = refl;
    cumulative_energy = refl;
    severity_level = refl;
    track_id = refl;
    track_frame_count = refl;
    track_duration_ns = refl;
  }

  take-Carries :
      (n : ℕ) (events : List (Event F D)) → Carries (take n events) (take n (map to_msg events))
  take-Carries zero events = no_more
  take-Carries (suc n) [] = no_more
  take-Carries (suc n) (e ∷ es) = one_more (to_msg-IsMessageOf e) (take-Carries n es)

  -- What becomes of the events: without one there is no message; otherwise there is one, and a subscriber
  -- that receives it gets the results.
  abbrev pub IsDelivered :
      List (Event F D) → Option Bytes → (poll timeout_ms : ℤ) → (max : ℕ) → Publisher → Type ℓ
  IsDelivered events sent poll timeout_ms max q =
      ((events ≡ []) × (sent ≡ none))
      ⊎ ((msg : Bytes) × (sent ≡ some msg)
          × (let n = min (length events) max in
              (got : List (ResultMsg F D)) × (receive (ResultMsg F D) poll (some msg) true (pos max)
                  timeout_ms q
                ≡ some (pos n, got, q))
              × Carries (take n events) got))

  publish_events-IsDelivered :
      (net : Sender) (events : List (Event F D)) (p q : Publisher) (poll timeout_ms : ℤ) (max : ℕ)
      → IsLayout (ResultMsg F D)
      → is_open p ≡ true
      → length events < 2 ^ 31
      → is_open q ≡ true
      → pos 0 <ℤ poll
      → (sent : Option Bytes) × (publish_events net events (some p) ≡ (sent, some p))
        × IsDelivered events sent poll timeout_ms max q
  unfolding publish_events
  publish_events-IsDelivered net [] p q poll timeout_ms max v o few oq ready =
      (none, refl, inl (refl, refl))
  publish_events-IsDelivered net (e ∷ es) p q poll timeout_ms max v o few oq ready =
      let msgs = map to_msg (e ∷ es) in
      let size : length msgs ≡ length (e ∷ es) = length-map to_msg (e ∷ es) in
      let msg = encode msgs (length msgs) in
      (
        some msg,
        publish_events-encode net e es p o few,
        inr (
          msg,
          refl,
          (
            take (min (length (e ∷ es)) max) msgs,
            subst
                (λ k.
                  receive (ResultMsg F D) poll (some msg) true (pos max) timeout_ms q
                  ≡ some (pos (min k max), take (min k max) msgs, q))
                size
                (receive-encode msgs poll timeout_ms max q v oq ready (omega (arith, size, few))),
            take-Carries (min (length (e ∷ es)) max) (e ∷ es),
          ),
        ),
      )

  -- A frame that works, with a publisher that has a socket: the engine returns the number of its events.
  -- Without an event it hands ZeroMQ nothing, and otherwise one message; a subscriber that receives it,
  -- with room for `max` results, gets the results of the first so many events, in order and with all their
  -- fields. The layout of the struct is sound, and the events are fewer than 2 ^ 31.
  pub receive-process_frame :
      ⦃f : Floating F⦄ ⦃d : Floating D⦄ (sort : List (Detection F) → List (Detection F))
      (sort_events : List (Event F D) → List (Event F D)) (widen : F → D) (net : Sender)
      (i : Input F) (g : Globals F D) (det det' : ArcDetector F D) (events : List (Event F D))
      (p q : Publisher) (poll timeout_ms : ℤ) (max : ℕ)
      → IsLayout (ResultMsg F D)
      → g.detector ≡ some det
      → g.publisher ≡ some p
      → is_open p ≡ true
      → detect_frame sort sort_events widen i det ≡ some (events, det')
      → length events < 2 ^ 31
      → is_open q ≡ true
      → pos 0 <ℤ poll
      → (sent : Option Bytes) × (process_frame sort sort_events widen net i g
          ≡ some (pos (length events), sent, record g { detector = some det'; publisher = some p }))
        × IsDelivered events sent poll timeout_ms max q
  receive-process_frame sort sort_events widen net i g det det' events p q poll timeout_ms max v has
        pub_ o found few oq ready =
      let (sent, published, got) =
        publish_events-IsDelivered net events p q poll timeout_ms max v o few oq ready in
      (
        sent,
        process_step sort sort_events widen net i g det det' events sent (some p) has found
              (ap (publish_events net events) pub_ ∙ published)
            ∙ ap (λ n. some (n, sent, record g { detector = some det'; publisher = some p }))
                (int_size-pos events few),
        got,
      )
