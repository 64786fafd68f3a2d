-- ===== src/Nms/Greedy.antt =====
-- The suppression loops against greedy selection: an item is kept unless a kept one before it
-- suppresses it.
use pantograph_arc_vision.Common.{
  ◌≡◌, refl, ap, inl, inr, Bool, true, false, ◌||◌, List, [], ◌∷◌, ◌++◌, arith, Bool-cases,
}
use pantograph_arc_vision.Nms.{suppress_by, suppress, select, no_flags, nms_sorted}

module _ {ℓ} {E : Type ℓ} (test : E → E → Bool) where
  -- Some item of the list suppresses `b`.
  abbrev pub hit_by : List E → E → Bool
  hit_by [] b = false
  hit_by (a ∷ as') b = test a b || hit_by as' b

  -- `kept` are the items kept so far.
  unfoldable pub greedy : List E → List E → List E
  greedy kept [] = []
  greedy kept (b ∷ bs) = elim (hit_by kept b) [
    | true ↦ greedy kept bs
    | false ↦ b ∷ greedy (kept ++ (b ∷ [])) bs
  ]

  -- The flags of the items behind `kept`.
  flags_of : List E → List E → List Bool
  flags_of kept [] = []
  flags_of kept (b ∷ bs) = hit_by kept b ∷ flags_of kept bs

  pub hit_by-append :
      (kept : List E) (a b : E) → hit_by (kept ++ (a ∷ [])) b ≡ (hit_by kept b || test a b)
  hit_by-append [] a b = ground arith
  hit_by-append (x ∷ xs) a b = ground (arith, hit_by-append xs a b)

  suppress_by-flags :
      (kept : List E) (a : E) (bs : List E)
      → suppress_by test a bs (flags_of kept bs) ≡ flags_of (kept ++ (a ∷ [])) bs
  unfolding suppress_by flags_of
  suppress_by-flags kept a [] = refl
  suppress_by-flags kept a (b ∷ bs) =
      ground (arith, suppress_by-flags kept a bs, hit_by-append kept a b)

  select-greedy :
      (kept bs : List E) → select bs (suppress test bs (flags_of kept bs)) ≡ greedy kept bs
  unfolding select suppress flags_of greedy
  select-greedy kept [] = refl
  select-greedy kept (b ∷ bs) = elim (Bool-cases (hit_by kept b)) [
    | inl hit ↦ rw (hit, greedy) (select-greedy kept bs)
    | inr free ↦
        rw (free, greedy, suppress_by-flags kept b bs)
          (ap (◌∷◌ b) (select-greedy (kept ++ (b ∷ [])) bs))
  ]

  no_flags_lem : (bs : List E) → no_flags bs ≡ flags_of [] bs
  unfolding no_flags flags_of
  no_flags_lem [] = refl
  no_flags_lem (b ∷ bs) = ap (◌∷◌ false) (no_flags_lem bs)

  -- The loops with their flags select what greedy selection does, which keeps an item when none of
  -- those kept before it suppresses it.
  pub nms_sorted-greedy : (items : List E) → nms_sorted test items ≡ greedy [] items
  unfolding nms_sorted
  nms_sorted-greedy items = rw (no_flags_lem items) (select-greedy [] items)

  pub greedy_skip :
      (kept : List E) (b : E) (bs : List E)
      → hit_by kept b ≡ true
      → greedy kept (b ∷ bs) ≡ greedy kept bs
  unfolding greedy
  greedy_skip kept b bs hit = rw (hit, greedy)

  pub greedy_keep :
      (kept : List E) (b : E) (bs : List E)
      → hit_by kept b ≡ false
      → greedy kept (b ∷ bs) ≡ b ∷ greedy (kept ++ (b ∷ [])) bs
  unfolding greedy
  greedy_keep kept b bs free = rw (free, greedy)

  pub hit_by_left : (xs ys : List E) (b : E) → hit_by xs b ≡ true → hit_by (xs ++ ys) b ≡ true
  hit_by_left [] ys b h = cc
  hit_by_left (x ∷ xs) ys b h = ground (arith, hit_by_left xs ys b)
