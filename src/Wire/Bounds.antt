-- ===== src/Wire/Bounds.antt =====
-- The receivers of cpp/src/zmq_publisher.cpp against messages that anybody may have sent.
use native.Mathlib.Nat.{mul-le-mul}
use pantograph_arc_vision.Common.{
  ℕ, zero, suc, ◌+◌, ◌-◌, ◌*◌, ◌%◌, ◌^◌, ◌≤◌, ◌<◌, ◌≡◌, refl, ap, ◌⊎◌, inl, inr, some, List, [],
  ◌∷◌, arith, ltb, leb, if◌then◌else◌, length, take, drop, length-drop, Bool-cases, All,
}
use pantograph_arc_vision.Common.Int.{ℤ, pos, negsuc, signed, to_size, ◌≤ℤ◌}
use pantograph_arc_vision.Wire.{
  Bytes, Layout, IsLayout, read_word, read_structs, copy_out, smaller, expected_size, decode,
}

-- Every element of a message is a byte.
abbrev pub IsBytes : Bytes → Type 0
IsBytes = All (λ b. b < 256)

pub read_word-lt : (msg : Bytes) → IsBytes msg → read_word msg < 2 ^ 32
unfolding read_word
read_word-lt [] h = omega arith
read_word-lt (a ∷ []) h = omega arith
read_word-lt (a ∷ b ∷ []) h = omega arith
read_word-lt (a ∷ b ∷ c ∷ []) h = omega arith
read_word-lt (a ∷ b ∷ c ∷ d ∷ rest) h = omega arith

wrap : (a b size : ℕ) → a + b ≡ size * 2 ^ 64 → b ≤ 2 ^ 63 → 4 < b → 2 ^ 63 ≤ (4 + a) % 2 ^ 64
wrap a b size e top bottom = omega arith

module _ {ℓ} {M : Type ℓ} ⦃l : Layout M⦄ where
  pub read_structs_total :
      (n : ℕ) (bytes : Bytes)
      → l.size * n ≤ length bytes
      → (ms : List M) × (read_structs n bytes ≡ some ms) × (length ms ≡ n)
  unfolding read_structs
  read_structs_total zero bytes h = ([], refl, refl)
  read_structs_total (suc n) bytes h =
      let (ms, e, size) =
        read_structs_total n (drop l.size bytes) (omega (arith, length-drop l.size bytes)) in
      (l.read (take l.size bytes) ∷ ms, ground (arith, e), ap suc size)

  size-mul-le : (k : ℕ) → IsLayout M → k ≤ 2 ^ 31 → l.size * k ≤ 2 ^ 63
  size-mul-le k v small =
      let below : l.size ≤ 2 ^ 32 = omega (arith, v.size_lt) in
      mul-le-mul {n₂ = 2 ^ 32} {m₂ = 2 ^ 31} below small

  -- A count that is not negative is not cut by the wrap of `size_t`.
  pub expected_size-pos :
      (n : ℕ) → IsLayout M → n < 2 ^ 31 → expected_size l.size (pos n) ≡ 4 + l.size * n
  unfolding expected_size
  expected_size-pos n v small =
      let same : to_size (pos n) ≡ n = omega arith in
      let top : l.size * n ≤ 2 ^ 63 = size-mul-le n v (omega arith) in rw same (omega arith)

  -- A negative count asks for more than any message holds.
  pub expected_size-negsuc :
      (n : ℕ) → IsLayout M → n < 2 ^ 31 → 2 ^ 63 ≤ expected_size l.size (negsuc n)
  unfolding expected_size
  expected_size-negsuc n v small =
      let rest : to_size (negsuc n) + suc n ≡ 2 ^ 64 = omega arith in
      let top : l.size * suc n ≤ 2 ^ 63 = size-mul-le (suc n) v (omega arith) in
      let bottom : l.size ≤ l.size * suc n = grind arith in
      let whole : l.size * (to_size (negsuc n) + suc n) ≡ l.size * 2 ^ 64 =
        ap (λ (u : ℕ). l.size * u) rest in
      wrap (l.size * to_size (negsuc n)) (l.size * suc n) l.size (omega arith) top
        (omega (arith, bottom, v.size_gt))

  -- What the receivers may return for a message, and what it takes from it.
  abbrev pub IsReceived : Bytes → ℤ → ℤ × List M → Type ℓ
  IsReceived msg max_count (n, ms) =
      ((n ≡ negsuc 0) × (ms ≡ []) × (length msg < 4))
      ⊎ ((n ≡ pos (length ms)) × (n ≤ℤ max_count) × (4 + l.size * length ms ≤ length msg))

  copy_out_lem :
      (msg : Bytes) (n : ℕ)
      → 4 + l.size * n ≤ length msg
      → (ms : List M) × (copy_out msg (pos n) ≡ some (pos n, ms)) × (length ms ≡ n)
  unfolding copy_out
  copy_out_lem msg n h =
      let (ms, e, size) = read_structs_total n (drop 4 msg) (omega (arith, length-drop 4 msg)) in
      (ms, rw (e, copy_out) refl, size)

  copy_smaller :
      (msg : Bytes) (n : ℕ) (max_count : ℤ)
      → pos 0 ≤ℤ max_count
      → 4 + l.size * n ≤ length msg
      → (r : ℤ × List M) × (copy_out msg (smaller (pos n) max_count) ≡ some r)
        × IsReceived msg max_count r
  copy_smaller msg n (negsuc m) h fits = absurd (omega arith)
  copy_smaller msg n (pos m) h fits =
      let k : ℕ = if ltb n m then n else m in
      let count : smaller (pos n) (pos m) ≡ pos k = ground arith in
      let under : k ≤ n = ground arith in
      let room : 4 + l.size * k ≤ length msg = grind arith in
      let (ms, e, size) = copy_out_lem msg k room in
      ((pos k, ms), rw count e, inr (rw size refl, ground arith, rw size room))

  copy_checked :
      (msg : Bytes) (net_count max_count : ℤ)
      → IsLayout M
      → pos 0 ≤ℤ max_count
      → length msg < 2 ^ 63
      → negsuc (2 ^ 31 - 1) ≤ℤ net_count
      → net_count ≤ℤ pos (2 ^ 31 - 1)
      → expected_size l.size net_count ≤ length msg
      → (r : ℤ × List M) × (copy_out msg (smaller net_count max_count) ≡ some r)
        × IsReceived msg max_count r
  copy_checked msg (pos n) max_count v h short lo hi fits =
      copy_smaller msg n max_count h (omega (arith, expected_size-pos n v (omega arith)))
  copy_checked msg (negsuc n) max_count v h short lo hi fits =
      absurd (omega (arith, expected_size-negsuc n v (omega arith)))

  -- Whatever the bytes of a message of less than 2 ^ 63 bytes are, if the struct has more than four
  -- bytes and less than 4 GB, a receiver with room for `max_count` structs copies
  -- nothing from beyond its end: it refuses a message of less than four bytes, and otherwise
  -- returns the number of structs that it copies, which is at most `max_count` and stand in the
  -- message.
  pub decode_safe :
      (msg : Bytes) (max_count : ℤ)
      → IsLayout M
      → IsBytes msg
      → length msg < 2 ^ 63
      → pos 0 ≤ℤ max_count
      → (r : ℤ × List M) × (decode msg max_count ≡ some r) × IsReceived msg max_count r
  unfolding decode
  decode_safe msg max_count v bytes short h = elim (Bool-cases (ltb (length msg) 4)) [
    | inl tiny ↦ ((negsuc 0, []), rw tiny refl, inl (refl, refl, ground arith))
    | inr enough ↦
        let net = signed (read_word msg) in
        elim (Bool-cases (leb (expected_size l.size net) (length msg))) [
          | inl whole ↦
              let (r, e, got) =
                copy_checked msg net max_count v h short (ground (arith, read_word-lt msg bytes))
                  (ground (arith, read_word-lt msg bytes)) (ground arith) in
              (r, rw (enough, whole) e, got)
          | inr cut ↦ ((pos 0, []), rw (enough, cut) refl, inr (refl, h, grind arith))
        ]
  ]
