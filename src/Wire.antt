-- ===== src/Wire.antt =====
-- cpp/src/zmq_publisher.cpp: the messages of `ZmqPublisher`, a count in the four bytes of an
-- `int32_t` and the memory images of that many `ArcResultMsg`. `M` is the type `ArcResultMsg`.
pub mod RoundTrip
pub mod Bounds
pub mod Five
mod Tests
use pantograph_arc_vision.Common.{
  ℕ, zero, suc, ◌+◌, ◌-◌, ◌*◌, ◌/◌, ◌%◌, ◌^◌, ◌≤◌, ◌<◌, ◌≡◌, Bool, true, false, ◌||◌, Option, none,
  some, List, [], ◌∷◌, ◌++◌, ltb, leb, if◌then◌else◌, length, take, drop,
}
use pantograph_arc_vision.Common.Int.{ℤ, pos, negsuc, signed, pos_part, ltb_ℤ, leb_ℤ, to_size}

abbrev pub Bytes : Type 0
Bytes = List ℕ

-- How the compiler lays the struct out: `sizeof(M)`, and the bytes of a value.
pub record Layout {ℓ} (M : Type ℓ) : Type ℓ where
  pub size : ℕ
  pub image : M → Bytes
  pub read : Bytes → M

-- The image has the size of the struct, and copying it back gives the value. The struct has
-- more than four bytes, and less than 4 GB.
pub record IsLayout {ℓ} (M : Type ℓ) ⦃l : Layout M⦄ : Type ℓ where
  pub size_gt : 4 < l.size
  pub size_lt : l.size < 2 ^ 32
  pub length-image : (m : M) → length (l.image m) ≡ l.size
  pub read-image : (m : M) → l.read (l.image m) ≡ m

-- The memory of an `int32_t` whose bit pattern is `w`, least significant byte first.
pub word_bytes : ℕ → Bytes
word_bytes w = w % 256 ∷ w / 2 ^ 8 % 256 ∷ w / 2 ^ 16 % 256 ∷ w / 2 ^ 24 % 256 ∷ []

-- `memcpy(&net_count, data, sizeof(int32_t))`, of a message with four bytes at least.
pub read_word : Bytes → ℕ
read_word (a ∷ b ∷ c ∷ d ∷ rest) = a + b * 2 ^ 8 + c * 2 ^ 16 + d * 2 ^ 24
read_word bytes = 0

-- `int count`.
abbrev pub smaller : ℤ → ℤ → ℤ
smaller net_count max_count = if ltb_ℤ net_count max_count then net_count else max_count

-- `size_t expected_size`, where `size` is `sizeof(ArcResultMsg)`.
pub expected_size : ℕ → ℤ → ℕ
expected_size size net_count = (4 + size * to_size net_count) % 2 ^ 64

module _ {ℓ} {M : Type ℓ} ⦃l : Layout M⦄ where
  -- `memcpy(buffer, results, sizeof(M) * n)`. The caller has `n` results at least, as `publish_events` and every
  -- theorem about a message has; the copy of a larger count would run past the array.
  pub images : ℕ → List M → Bytes
  images zero ms = []
  images (suc n) [] = []
  images (suc n) (m ∷ ms) = l.image m ++ images n ms

  pub encode : List M → ℕ → Bytes
  encode ms n = word_bytes n ++ images n ms

  -- `n` structs from a buffer; `none` is a read past its end.
  pub read_structs : ℕ → Bytes → Option (List M)
  read_structs zero bytes = some []
  read_structs (suc n) bytes = elim (read_structs n (drop l.size bytes)) [
    | none ↦ none
    | some ms ↦ if leb l.size (length bytes) then some (l.read (take l.size bytes) ∷ ms) else none
  ]

  -- `memcpy(out_results, data + 4, sizeof(M) * count)`; `none` is a copy out of bounds, by a
  -- negative count or past the end of the message.
  pub copy_out : Bytes → ℤ → Option (ℤ × List M)
  copy_out msg (negsuc n) = none
  copy_out msg (pos n) = elim (read_structs n (drop 4 msg)) [
    | none ↦ none
    | some ms ↦ some (pos n, ms)
  ]

  -- What the receivers do with a message: the result and the structs copied out.
  pub decode : Bytes → ℤ → Option (ℤ × List M)
  decode msg max_count =
      if ltb (length msg) 4
      then some (negsuc 0, [])
      else (let net_count = signed (read_word msg) in
          if leb (expected_size l.size net_count) (length msg)
          then copy_out msg (smaller net_count max_count)
          else some (pos 0, []))
