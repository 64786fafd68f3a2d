-- ===== src/Wire/RoundTrip.antt =====
-- A receiver of cpp/src/zmq_publisher.cpp facing what a publisher sends.
use pantograph_arc_vision.Common.{
  ℕ, zero, suc, ◌+◌, ◌*◌, ◌^◌, ◌≤◌, ◌<◌, ◌≡◌, refl, ap, ◌∙◌, true, false, some, List, [], ◌∷◌, ◌++◌,
  arith, ltb, leb, length, take, drop, length-append, min,
}
use pantograph_arc_vision.Common.Int.{ℤ, pos, signed}
use pantograph_arc_vision.Wire.{
  Bytes, Layout, IsLayout, word_bytes, read_word, images, encode, read_structs, copy_out, smaller,
  expected_size, decode,
}
use pantograph_arc_vision.Wire.Bounds.{expected_size-pos}

pub read_word-word_bytes :
    (w : ℕ) (rest : Bytes) → w < 2 ^ 32 → read_word (word_bytes w ++ rest) ≡ w
unfolding read_word word_bytes
read_word-word_bytes w rest h = omega arith

take_front {ℓ} : {A : Type ℓ} (n : ℕ) (xs ys : List A) → length xs ≡ n → take n (xs ++ ys) ≡ xs
take_front zero [] ys e = refl
take_front zero (x ∷ xs) ys e = absurd (omega arith)
take_front (suc n) [] ys e = absurd (omega arith)
take_front (suc n) (x ∷ xs) ys e = ap (◌∷◌ x) (take_front n xs ys (omega arith))

drop_front {ℓ} : {A : Type ℓ} (n : ℕ) (xs ys : List A) → length xs ≡ n → drop n (xs ++ ys) ≡ ys
drop_front zero [] ys e = refl
drop_front zero (x ∷ xs) ys e = absurd (omega arith)
drop_front (suc n) [] ys e = absurd (omega arith)
drop_front (suc n) (x ∷ xs) ys e = drop_front n xs ys (omega arith)

module _ {ℓ} {M : Type ℓ} ⦃l : Layout M⦄ (v : IsLayout M) where
  length-images : (ms : List M) → length (images (length ms) ms) ≡ l.size * length ms
  unfolding images
  length-images [] = omega arith
  length-images (m ∷ ms) =
      omega (
        arith,
        length-append (l.image m) (images (length ms) ms),
        length-images ms,
        v.length-image m,
      )

  read_structs-images :
      (k : ℕ) (ms : List M)
      → k ≤ length ms
      → read_structs k (images (length ms) ms) ≡ some (take k ms)
  unfolding read_structs images
  read_structs-images zero ms h = refl
  read_structs-images (suc k) [] h = absurd (omega arith)
  read_structs-images (suc k) (m ∷ ms) h =
      let rest = images (length ms) ms in
      let front : take l.size (l.image m ++ rest) ≡ l.image m =
        take_front l.size (l.image m) rest (v.length-image m) in
      let back : drop l.size (l.image m ++ rest) ≡ rest =
        drop_front l.size (l.image m) rest (v.length-image m) in
      let enough : leb l.size (length (l.image m ++ rest)) ≡ true =
        ground (arith, length-append (l.image m) rest, v.length-image m) in
      rw (back, read_structs-images k ms (omega arith), enough, front, v.read-image m)

  decode_whole :
      (msg : Bytes) (net max_count : ℤ)
      → 4 ≤ length msg
      → signed (read_word msg) ≡ net
      → expected_size l.size net ≤ length msg
      → decode {M = M} msg max_count ≡ copy_out msg (smaller net max_count)
  unfolding decode
  decode_whole msg net max_count enough e fits =
      let long : ltb (length msg) 4 ≡ false = ground arith in
      let complete : leb (expected_size l.size net) (length msg) ≡ true = ground arith in
      rw (long, e, complete)

  copy_out-encode :
      (ms : List M) (n k : ℕ)
      → k ≤ length ms
      → n ≡ length ms
      → copy_out (encode ms n) (pos k) ≡ some (pos k, take k ms)
  unfolding copy_out encode word_bytes
  copy_out-encode ms n k h e = rw (e, copy_out, read_structs-images k ms h)

  length-encode : (ms : List M) → length (encode ms (length ms)) ≡ 4 + l.size * length ms
  unfolding encode word_bytes
  length-encode ms = omega (arith, length-images ms)

  -- When the layout of the struct is sound and fewer than 2 ^ 31 structs are published, a receiver
  -- with room for `m` structs gets the first `m` of them, in order, or all if they are fewer.
  pub decode-encode :
      (ms : List M) (m : ℕ)
      → length ms < 2 ^ 31
      → let n = min (length ms) m in
        decode (encode ms (length ms)) (pos m) ≡ some (pos n, take n ms)
  decode-encode ms m few =
      let msg = encode ms (length ms) in
      let word : read_word msg ≡ length ms =
        unfold encode in read_word-word_bytes (length ms) (images (length ms) ms) (omega arith) in
      let net : signed (read_word msg) ≡ pos (length ms) = rw word (ground arith) in
      let count : smaller (pos (length ms)) (pos m) ≡ pos (min (length ms) m) = ground arith in
      decode_whole msg (pos (length ms)) (pos m) (omega (arith, length-encode ms)) net
        (omega (arith, expected_size-pos (length ms) v few, length-encode ms))
      ∙ ap (copy_out {M = M} msg) count
      ∙ copy_out-encode ms (length ms) (min (length ms) m) (omega arith) refl
