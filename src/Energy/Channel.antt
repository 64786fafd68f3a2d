-- ===== src/Energy/Channel.antt =====
-- The first channel of an image, as one byte for each pixel: what `compute_instant_energy` of
-- cpp/src/arc_severity.cpp reads of an image with several channels.
use native.Mathlib.Nat.{zero-mul}
use pantograph_arc_vision.Common.{
  ℕ, zero, suc, ◌+◌, ◌*◌, ◌<◌, ◌≡◌, refl, ap, ◌∙◌, some, List, [], ◌∷◌, ◌++◌, arith, length,
  get_elem?, take, drop, length-drop,
}

-- The first channel of an image of `count` pixels.
pub first_channel : (count channels : ℕ) → List ℕ → List ℕ
first_channel zero channels image = []
first_channel (suc count) channels image =
    take 1 image ++ first_channel count channels (drop channels image)

module _ {ℓ} {A : Type ℓ} where
  pub drop_cons :
      (xs : List A) (i : ℕ) (p : A) → get_elem? xs i ≡ some p → drop i xs ≡ p ∷ drop (suc i) xs
  drop_cons [] i p e = cc
  drop_cons (x ∷ xs) zero p e = ground (arith, e)
  drop_cons (x ∷ xs) (suc i) p e = drop_cons xs i p e

  pub get_elem?_total : (xs : List A) (i : ℕ) → i < length xs → (p : A) × (get_elem? xs i ≡ some p)
  get_elem?_total [] i h = absurd (omega (arith, h))
  get_elem?_total (x ∷ xs) zero h = (x, refl)
  get_elem?_total (x ∷ xs) (suc i) h = get_elem?_total xs i (omega (arith, h))

  pub get_elem?-drop : (n i : ℕ) (xs : List A) → get_elem? (drop n xs) i ≡ get_elem? xs (n + i)
  get_elem?-drop zero i xs = ap (get_elem? xs) (omega arith)
  get_elem?-drop (suc n) i [] = refl
  get_elem?-drop (suc n) i (x ∷ xs) =
      let shift : suc n + i ≡ suc (n + i) = omega arith in rw shift (get_elem?-drop n i xs)

rest_size :
    (count channels p : ℕ) (image : List ℕ)
    → length (p ∷ image) ≡ suc count * channels
    → length (drop channels (p ∷ image)) ≡ count * channels
rest_size count channels p image size =
    let split : suc count * channels ≡ channels + count * channels = grind arith in
    length-drop channels (p ∷ image) ∙ omega (arith, size, split)

pub length-first_channel :
    (count channels : ℕ) (image : List ℕ)
    → 0 < channels
    → length image ≡ count * channels
    → length (first_channel count channels image) ≡ count
unfolding first_channel
length-first_channel zero channels image c size = refl
length-first_channel (suc count) channels [] c size = absurd (grind (arith, size, c))
length-first_channel (suc count) channels (p ∷ image) c size = ap suc (
    length-first_channel count channels (drop channels (p ∷ image)) c
      (rest_size count channels p image size))

pub get_elem?-first_channel :
    (count channels i : ℕ) (image : List ℕ)
    → 0 < channels
    → length image ≡ count * channels
    → i < count
    → get_elem? (first_channel count channels image) i ≡ get_elem? image (i * channels)
unfolding first_channel
get_elem?-first_channel zero channels i image c size h = absurd (omega (arith, h))
get_elem?-first_channel (suc count) channels i [] c size h = absurd (grind (arith, size, c))
get_elem?-first_channel (suc count) channels zero (p ∷ image) c size h = rw zero-mul refl
get_elem?-first_channel (suc count) channels (suc i) (p ∷ image) c size h =
    let next : channels + i * channels ≡ suc i * channels = grind arith in
    get_elem?-first_channel count channels i (drop channels (p ∷ image)) c
      (rest_size count channels p image size) (omega (arith, h))
    ∙ get_elem?-drop channels (i * channels) (p ∷ image)
    ∙ ap (get_elem? (p ∷ image)) next
