-- ===== src/Engine/Sample.antt =====
-- A layout of `ArcResultMsg`, to run the engine of cpp/src/engine_main.cpp with.
use pantograph_arc_vision.Common.{ℕ, ◌≡◌, refl, [], ◌∷◌, arith}
use pantograph_arc_vision.Common.Int.{ℤ, pos, negsuc, pos_part, neg_part, sub_ℕ}
use pantograph_arc_vision.Common.Floating.{Hundredths, hundredths_floating}
use pantograph_arc_vision.Wire.{Bytes, Layout, IsLayout}
use pantograph_arc_vision.Engine.{ResultMsg}

abbrev pub integer : ℕ → ℕ → ℤ
integer = sub_ℕ

pub integer-parts : (z : ℤ) → integer (pos_part z) (neg_part z) ≡ z
integer-parts (pos n) = ground arith
integer-parts (negsuc n) = ground arith

abbrev pub empty_message : ResultMsg Hundredths Hundredths
empty_message = record {
  rect = record { x1 = 0; y1 = 0; x2 = 0; y2 = 0 };
  confidence = 0;
  class_id = pos 0;
  pts_ns = pos 0;
  stream_index = pos 0;
  intensity = 0;
  instant_energy = 0;
  smoothed_energy = 0;
  cumulative_energy = 0;
  severity_level = pos 0;
  track_id = 0;
  track_frame_count = 0;
  track_duration_ns = pos 0;
}

pub read_message : Bytes → ResultMsg Hundredths Hundredths
read_message
      (a ∷ b ∷ c ∷ d ∷ e ∷ f ∷ f' ∷ g ∷ g' ∷ h ∷ h' ∷ i ∷ j ∷ k ∷ m ∷ n ∷ n' ∷ o ∷ p ∷ q ∷ q'
        ∷ rest) =
    record {
      rect = record { x1 = a; y1 = b; x2 = c; y2 = d };
      confidence = e;
      class_id = integer f f';
      pts_ns = integer g g';
      stream_index = integer h h';
      intensity = i;
      instant_energy = j;
      smoothed_energy = k;
      cumulative_energy = m;
      severity_level = integer n n';
      track_id = o;
      track_frame_count = p;
      track_duration_ns = integer q q';
    }
read_message bytes = empty_message

-- A layout of the struct: a number in place of each field, and two for an integer.
instance abbrev pub message_layout : Layout (ResultMsg Hundredths Hundredths)
message_layout = record {
  size = 21;
  image = λ m.
      m.rect.x1
      ∷ m.rect.y1
      ∷ m.rect.x2
      ∷ m.rect.y2
      ∷ m.confidence
      ∷ pos_part m.class_id
      ∷ neg_part m.class_id
      ∷ pos_part m.pts_ns
      ∷ neg_part m.pts_ns
      ∷ pos_part m.stream_index
      ∷ neg_part m.stream_index
      ∷ m.intensity
      ∷ m.instant_energy
      ∷ m.smoothed_energy
      ∷ m.cumulative_energy
      ∷ pos_part m.severity_level
      ∷ neg_part m.severity_level
      ∷ m.track_id
      ∷ m.track_frame_count
      ∷ pos_part m.track_duration_ns
      ∷ neg_part m.track_duration_ns
      ∷ [];
  read = read_message;
}

pub message-IsLayout : IsLayout (ResultMsg Hundredths Hundredths)
unfolding read_message
message-IsLayout = record {
  size_gt = omega arith;
  size_lt = omega arith;
  length-image = λ m. refl;
  read-image = λ m i. record m {
    class_id = integer-parts m.class_id i;
    pts_ns = integer-parts m.pts_ns i;
    stream_index = integer-parts m.stream_index i;
    severity_level = integer-parts m.severity_level i;
    track_duration_ns = integer-parts m.track_duration_ns i;
  };
}
