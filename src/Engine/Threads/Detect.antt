-- ===== src/Engine/Threads/Detect.antt =====
-- cpp/src/engine_main.cpp: what the frames of one thread leave of the globals, for its own stream and for
-- the others.
use pantograph_arc_vision.Common.{
  ◌>>=◌, ◌≡◌, refl, sym, subst, ap, ◌∙◌, ◌⊎◌, inl, inr, false, Option, none, some, List,
  Option-cases,
}
use pantograph_arc_vision.Common.Int.{ℤ, negsuc}
use pantograph_arc_vision.Common.Floating.{Floating}
use pantograph_arc_vision.Common.Dict.{eq_ℤ}
use pantograph_arc_vision.Shm.{Output}
use pantograph_arc_vision.Wire.{Bytes, Layout}
use pantograph_arc_vision.Detector.{Event, Input}
use pantograph_arc_vision.Streams.{ArcDetector, detect_frame}
use pantograph_arc_vision.Common.{some_inj}
use pantograph_arc_vision.Streams.Apart.{Agree, frame-other, frame-Agree}
use pantograph_arc_vision.Engine.{Globals, ResultMsg, publish_events, process_frame, int_size}
use pantograph_arc_vision.Engine.Loop.{Setting, upload, pair_input, detect_pair}

pub >>=-cases {ℓ κ} :
    {A : Type ℓ} {B : Type κ} (x : Option A) (g : A → Option B) {b : B}
    → (x >>= g) ≡ some b
    → (a : A) × (x ≡ some a) × (g a ≡ some b)
>>=-cases none g e = cc
>>=-cases (some a) g e = (a, refl, e)

-- Two detectors that are the same for stream `j`, or none at all.
abbrev pub SameDetector {ℓ} :
    {F D : Type ℓ} → ℤ → Option (ArcDetector F D) → Option (ArcDetector F D) → Type ℓ
SameDetector {F = F} {D = D} j o o' =
    ((o ≡ none) × (o' ≡ none))
    ⊎ ((det : ArcDetector F D) × (det' : ArcDetector F D) × (o ≡ some det)
        × (o' ≡ some det')
        × Agree j det det')

module _ {ℓ} {F D : Type ℓ} ⦃f : Floating F⦄ ⦃d : Floating D⦄ ⦃l : Layout (ResultMsg F D)⦄
    (c : Setting F D) where
  -- The globals after a frame with its events.
  abbrev after_frame : List (Event F D) → ArcDetector F D → Globals F D → Globals F D
  after_frame es det g = record g {
    detector = some det;
    publisher = (publish_events c.sender es g.publisher).1;
  }

  process-without :
      (i : Input F) (g : Globals F D)
      → g.detector ≡ none
      → process_frame c.sort c.sort_events c.widen c.sender i g ≡ some (negsuc 0, none, g)
  unfolding process_frame
  process-without i g e = simp (process_frame, e)

  process-with :
      (i : Input F) (g : Globals F D) (det det1 : ArcDetector F D) (es : List (Event F D))
      → g.detector ≡ some det
      → detect_frame c.sort c.sort_events c.widen i det ≡ some (es, det1)
      → process_frame c.sort c.sort_events c.widen c.sender i g
        ≡ some (int_size es, (publish_events c.sender es g.publisher).0, after_frame es det1 g)
  unfolding process_frame
  process-with i g det det1 es e done = simp (process_frame, e, done)

  process-fault :
      (i : Input F) (g : Globals F D) (det : ArcDetector F D)
      → g.detector ≡ some det
      → detect_frame c.sort c.sort_events c.widen i det ≡ none
      → process_frame c.sort c.sort_events c.widen c.sender i g ≡ none
  unfolding process_frame
  process-fault i g det e fault = simp (process_frame, e, fault)

  -- The image of a pass.
  abbrev image_of : (vis uv : Output) (v u : Bytes) → Input F
  image_of vis uv v u = pair_input c vis uv v u

  -- What a frame that works does: without a detector nothing, and otherwise one call of `detect`.
  abbrev Detected : Input F → Globals F D → Globals F D → Type ℓ
  Detected i g g1 =
      ((g.detector ≡ none) × (g1 ≡ g))
      ⊎ ((det : ArcDetector F D) × (det1 : ArcDetector F D) × (es : List (Event F D)) × (g.detector
            ≡ some det)
          × (detect_frame c.sort c.sort_events c.widen i det ≡ some (es, det1))
          × (g1 ≡ after_frame es det1 g))

  processed :
      (i : Input F) (g : Globals F D) {code : ℤ} {msg : Option Bytes} {g1 : Globals F D}
      → process_frame c.sort c.sort_events c.widen c.sender i g ≡ some (code, msg, g1)
      → Detected i g g1
  processed i g e = elim (Option-cases g.detector) [
    | inl gone ↦ inl (gone, ap (λ r. r.2) (some_inj (sym e ∙ process-without i g gone)))
    | inr (det, here) ↦ elim (Option-cases (detect_frame c.sort c.sort_events c.widen i det)) [
      | inl fault ↦ let clash = sym (process-fault i g det here fault) ∙ e in cc
      | inr ((es, det1), done) ↦ inr (
        det,
        det1,
        es,
        here,
        done,
        ap (λ r. r.2) (some_inj (sym e ∙ process-with i g det det1 es here done)),
      )
    ]
  ]

  detect_pair-cases :
      (vis uv : Output) (g g1 : Globals F D)
      → detect_pair c vis uv g ≡ some g1
      → (v : Bytes) × (u : Bytes) × (upload vis ≡ some v)
        × (upload uv ≡ some u)
        × Detected (image_of vis uv v u) g g1
  unfolding detect_pair
  detect_pair-cases vis uv g g1 e =
      let (v, ev, e1) = >>=-cases (upload vis) _ e in
      let (u, eu, e2) = >>=-cases (upload uv) _ e1 in
      let ((code, msg, g2), ep, e3) =
        >>=-cases (process_frame c.sort c.sort_events c.widen c.sender (image_of vis uv v u) g) _
          e2 in
      (
        v,
        u,
        ev,
        eu,
        subst (Detected (image_of vis uv v u) g) (some_inj e3)
            (processed (image_of vis uv v u) g ep),
      )

  detect_pair_run :
      (vis uv : Output) (g g1 : Globals F D) (v u : Bytes) {code : ℤ} {msg : Option Bytes}
      → upload vis ≡ some v
      → upload uv ≡ some u
      → process_frame c.sort c.sort_events c.widen c.sender (image_of vis uv v u) g
        ≡ some (code, msg, g1)
      → detect_pair c vis uv g ≡ some g1
  unfolding detect_pair
  detect_pair_run vis uv g g1 v u ev eu ep = simp (detect_pair, ev, eu, ep)

  -- A frame of another stream.
  pub detect_pair-other :
      (j : ℤ) (vis uv : Output) (g g1 : Globals F D) (o : Option (ArcDetector F D))
      → eq_ℤ j c.stream_index ≡ false
      → detect_pair c vis uv g ≡ some g1
      → SameDetector j g.detector o
      → SameDetector j g1.detector o × (g1.running ≡ g.running)
  detect_pair-other j vis uv g g1 o other e same =
      let (v, u, ev, eu, result) = detect_pair-cases vis uv g g1 e in
      elim result [
        | inl (gone, unchanged) ↦ (
          subst (λ x. SameDetector j x.detector o) (sym unchanged) same,
          ap (λ x. x.running) unchanged,
        )
        | inr (det, det1, es, here, done, after) ↦ (
          elim same [
            | inl (gone, _) ↦ let clash = sym gone ∙ here in cc
            | inr (x, y, at_x, at_y, agree) ↦
                let x_is : x ≡ det = some_inj (sym at_x ∙ here) in
                inr (
                  det1,
                  y,
                  ap (λ z. z.detector) after,
                  at_y,
                  frame-other c.sort c.sort_events c.widen j (image_of vis uv v u) det det1 y es
                      other done (subst (λ z. Agree j z y) x_is agree),
                )
          ],
          ap (λ x. x.running) after,
        )
      ]

  -- A frame of the stream itself.
  pub detect_pair-own :
      (vis uv : Output) (g g1 g' : Globals F D)
      → detect_pair c vis uv g ≡ some g1
      → SameDetector c.stream_index g.detector g'.detector
      → (g2 : Globals F D) × (detect_pair c vis uv g' ≡ some g2)
        × SameDetector c.stream_index g1.detector g2.detector
        × (g1.running ≡ g.running)
        × (g2.running ≡ g'.running)
  detect_pair-own vis uv g g1 g' e same =
      let (v, u, ev, eu, result) = detect_pair-cases vis uv g g1 e in
      let i = image_of vis uv v u in
      elim result [
        | inl (gone, unchanged) ↦ elim same [
          | inr (x, y, at_x, at_y, agree) ↦ let clash = sym gone ∙ at_x in cc
          | inl (_, gone') ↦ (
            g',
            detect_pair_run vis uv g' g' v u ev eu (process-without i g' gone'),
            inl (ap (λ x. x.detector) unchanged ∙ gone, gone'),
            ap (λ x. x.running) unchanged,
            refl,
          )
        ]
        | inr (det, det1, es, here, done, after) ↦ elim same [
          | inl (gone, _) ↦ let clash = sym gone ∙ here in cc
          | inr (x, y, at_x, at_y, agree) ↦
              let x_is : x ≡ det = some_inj (sym at_x ∙ here) in
              let (det2, done', agree') =
                frame-Agree c.sort c.sort_events c.widen i det det1 y es done
                  (subst (λ z. Agree c.stream_index z y) x_is agree) in
              (
                after_frame es det2 g',
                detect_pair_run vis uv g' (after_frame es det2 g') v u ev eu
                    (process-with i g' y det2 es at_y done'),
                inr (det1, det2, ap (λ z. z.detector) after, refl, agree'),
                ap (λ x. x.running) after,
                refl,
              )
        ]
      ]
