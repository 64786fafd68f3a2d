-- ===== src/Wire/Five.antt =====
-- A struct of five bytes, to run the encoding of cpp/src/zmq_publisher.cpp on.
use pantograph_arc_vision.Common.{ℕ, refl, arith, List, [], ◌∷◌}
use pantograph_arc_vision.Wire.{Bytes, Layout, IsLayout}

pub record Five : Type 0 where
  pub a : ℕ
  pub b : ℕ
  pub c : ℕ
  pub d : ℕ
  pub e : ℕ

pub read_five : Bytes → Five
read_five (a ∷ b ∷ c ∷ d ∷ e ∷ rest) = record { a = a; b = b; c = c; d = d; e = e }
read_five bytes = record { a = 0; b = 0; c = 0; d = 0; e = 0 }

instance abbrev pub five_layout : Layout Five
five_layout = record { size = 5; image = λ m. m.a ∷ m.b ∷ m.c ∷ m.d ∷ m.e ∷ []; read = read_five }

pub five-IsLayout : IsLayout Five
unfolding read_five
five-IsLayout = record {
  size_gt = omega arith;
  size_lt = omega arith;
  length-image = λ m. refl;
  read-image = λ m. refl;
}

abbrev pub sent : List Five
sent =
    record { a = 1; b = 2; c = 3; d = 4; e = 5 }
    ∷ record { a = 6; b = 7; c = 8; d = 9; e = 10 }
    ∷ []
