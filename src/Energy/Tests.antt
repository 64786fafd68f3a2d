-- ===== src/Energy/Tests.antt =====
-- An estimate in a small image, in hundredths.
use pantograph_arc_vision.Common.{arith, ℕ, ◌≡◌, refl, some, List, [], ◌∷◌}
use pantograph_arc_vision.Common.Int.{pos}
use pantograph_arc_vision.Common.Floating.{Hundredths, hundredths_floating}
use pantograph_arc_vision.Severity.{Box}
use pantograph_arc_vision.Energy.{
  read_row, read_region, luminance, energy_of, compute_instant_energy_gpu,
}
use pantograph_arc_vision.Energy.Channel.{first_channel}
use pantograph_arc_vision.Energy.Host.{
  compute_instant_energy, pixel_at, sample_rows, sample_row, sampled_energy,
  compute_instant_energy-gpu,
}
use pantograph_arc_vision.Energy.Bounds.{IsEstimate, axis_hi, compute_instant_energy_gpu_total}

-- Four columns and two rows.
abbrev image : List ℕ
image = 0 ∷ 255 ∷ 255 ∷ 0 ∷ 0 ∷ 255 ∷ 255 ∷ 9 ∷ []

abbrev box : Box Hundredths
box = record { x1 = 100; y1 = 0; x2 = 300; y2 = 900 }

-- Four pixels of full luminance.
bright : compute_instant_energy_gpu box image (pos 4) (pos 2) ≡ some 400
unfolding compute_instant_energy_gpu read_region read_row luminance energy_of
bright = refl

compute_instant_energy_gpu_total_example :
    IsEstimate box image 4 2 (axis_hi 4 box.x2) (axis_hi 2 box.y2)
compute_instant_energy_gpu_total_example =
    compute_instant_energy_gpu_total box image 4 2 refl (omega arith)

-- Two columns and two rows of two channels.
abbrev two_channels : List ℕ
two_channels = 255 ∷ 7 ∷ 255 ∷ 8 ∷ 0 ∷ 9 ∷ 0 ∷ 255 ∷ []

abbrev square : Box Hundredths
square = record { x1 = 0; y1 = 0; x2 = 200; y2 = 200 }

-- Half of the luminance, over four pixels.
half_bright : compute_instant_energy square two_channels (pos 2) (pos 2) 2 ≡ some 100
unfolding compute_instant_energy pixel_at sample_rows sample_row sampled_energy
half_bright = refl

compute_instant_energy-gpu_example :
    (e : Hundredths) × (compute_instant_energy box two_channels (pos 2) (pos 2) 2 ≡ some e)
    × (compute_instant_energy_gpu box (first_channel 4 2 two_channels) (pos 2) (pos 2) ≡ some e)
compute_instant_energy-gpu_example =
    compute_instant_energy-gpu box two_channels 2 2 2 (omega arith) refl (omega arith)
