-- ===== src/Wire/Tests.antt =====
-- Runs of the encoding of cpp/src/zmq_publisher.cpp, with a struct of five bytes.
use pantograph_arc_vision.Common.{◌≡◌, arith, some, List, [], ◌∷◌, length, take, min}
use pantograph_arc_vision.Common.Int.{ℤ, pos}
use pantograph_arc_vision.Wire.{Bytes, encode, decode}
use pantograph_arc_vision.Wire.Five.{Five, five_layout, five-IsLayout, sent}
use pantograph_arc_vision.Wire.Bounds.{IsBytes, IsReceived, decode_safe}
use pantograph_arc_vision.Wire.RoundTrip.{decode-encode}

decode-encode_example :
    decode (encode sent (length sent)) (pos 1)
    ≡ some (pos (min (length sent) 1), take (min (length sent) 1) sent)
decode-encode_example = decode-encode five-IsLayout sent 1 (omega arith)

-- A count of 2 ^ 31 + 2, which is negative, and one struct.
abbrev forged : Bytes
forged = 2 ∷ 0 ∷ 0 ∷ 128 ∷ 1 ∷ 2 ∷ 3 ∷ 4 ∷ 5 ∷ []

forged-IsBytes : IsBytes forged
forged-IsBytes = ground arith

decode_safe_example :
    (r : ℤ × List Five) × (decode forged (pos 3) ≡ some r) × IsReceived forged (pos 3) r
decode_safe_example =
    decode_safe forged (pos 3) five-IsLayout forged-IsBytes (omega arith) (omega arith)
