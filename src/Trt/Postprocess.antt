-- ===== src/Trt/Postprocess.antt =====
-- `TRTEngine::postprocess` of cpp/src/trt_engine.cpp: the rows of the network's output.
use mathlib.Core.List.{Perm, Mem, Pairwise, not-mem-nil, mem-cons}
use mathlib.Core.List.Perm
use mathlib.Core.List.Pairwise
use mathlib.Core.List.Sublist
use mathlib.Core.Logic.Or
use pantograph_arc_vision.Common.{
  ℕ, zero, suc, ◌*◌, ◌≤◌, ◌≡◌, refl, sym, subst, ap, ◌∙◌, inl, inr, false, Option, some, List, [],
  ◌∷◌, ◌+◌, arith, length, get_elem?, true, Bool-cases,
}
use pantograph_arc_vision.Common.Floating.{Floating, ◌⊗◌, ◌≺◌}
use pantograph_arc_vision.Nms.{nms_sorted}
use pantograph_arc_vision.Nms.Selection.{IsSelection, nms_sorted-IsSelection}
use pantograph_arc_vision.Trt.{Detection, InferConfig, read_rows, suppresses, postprocess}

module _ {ℓ} {F : Type ℓ} ⦃f : Floating F⦄ where
  -- `std::sort` by `a.confidence > b.confidence`: a permutation, in which no detection has a later one
  -- of higher confidence.
  pub record IsSort (sort : List (Detection F) → List (Detection F)) : Type ℓ where
    pub permutes : (ds : List (Detection F)) → Perm (sort ds) ds
    pub ranks :
        (ds : List (Detection F))
        → Pairwise (λ a b. (a.confidence ≺ b.confidence) ≡ false) (sort ds)

  -- The rows of six floats in `values`, `n` of them from row `k` on, as detections: the corners, the product
  -- of the last two as the confidence, and the last as the class. Rows under the threshold are left out.
  pub data IsRows (threshold : F) (values : List F) : ℕ → ℕ → List (Detection F) → Type ℓ where
    no_row : {k : ℕ} → IsRows threshold values k zero []
    row_kept :
        {k n : ℕ} {ds : List (Detection F)} (x1 y1 x2 y2 p c : F)
        → get_elem? values (k * 6) ≡ some x1
        → get_elem? values (k * 6 + 1) ≡ some y1
        → get_elem? values (k * 6 + 2) ≡ some x2
        → get_elem? values (k * 6 + 3) ≡ some y2
        → get_elem? values (k * 6 + 4) ≡ some p
        → get_elem? values (k * 6 + 5) ≡ some c
        → ((p ⊗ c) ≺ threshold) ≡ false
        → IsRows threshold values (k + 1) n ds
        → IsRows threshold values k (suc n) (
            record {
              rect = record { x1 = x1; y1 = y1; x2 = x2; y2 = y2 };
              confidence = p ⊗ c;
              class_id = f.to_int c;
            }
            ∷ ds)
    row_left :
        {k n : ℕ} {ds : List (Detection F)} (p c : F)
        → get_elem? values (k * 6 + 4) ≡ some p
        → get_elem? values (k * 6 + 5) ≡ some c
        → ((p ⊗ c) ≺ threshold) ≡ true
        → IsRows threshold values (k + 1) n ds
        → IsRows threshold values k (suc n) ds

  -- The rows that are left in `rest` are those of `values` from row `k` on.
  abbrev Continued : List F → ℕ → List F → Type ℓ
  Continued values k rest = (j : ℕ) → get_elem? values (k * 6 + j) ≡ get_elem? rest j

  Continued-next :
      (values rest : List F) (k : ℕ) (a b c d p q : F)
      → Continued values k (a ∷ b ∷ c ∷ d ∷ p ∷ q ∷ rest)
      → Continued values (k + 1) rest
  Continued-next values rest k a b c d p q at j =
      let shift : (k + 1) * 6 + j ≡ k * 6 + suc (suc (suc (suc (suc (suc j))))) = omega arith in
      ap (get_elem? values) shift ∙ at (suc (suc (suc (suc (suc (suc j))))))

  Rows : F → List F → ℕ → ℕ → Option (List (Detection F)) → Type ℓ
  Rows threshold values k n r =
      (ds : List (Detection F)) × (r ≡ some ds)
      × IsRows threshold values k n ds
      × (length ds ≤ n)
      × ((d : Detection F) → Mem d ds → (d.confidence ≺ threshold) ≡ false)

  read_rows_total :
      (threshold : F) (values : List F) (k n : ℕ) (rest : List F)
      → n * 6 ≤ length rest
      → Continued values k rest
      → Rows threshold values k n (read_rows threshold n rest)
  unfolding read_rows Rows
  read_rows_total threshold values k zero rest h at =
      ([], refl, no_row, omega arith, λ d m. absurd (not-mem-nil m))
  read_rows_total threshold values k (suc n) (x1 ∷ y1 ∷ x2 ∷ y2 ∷ p ∷ c ∷ rest) h at =
      let (ds, e, shown, few, all) =
        read_rows_total threshold values (k + 1) n rest (omega arith)
          (Continued-next values rest k x1 y1 x2 y2 p c at) in
      elim (Bool-cases ((p ⊗ c) ≺ threshold)) [
        | inl low ↦
            (ds, rw (e, low) refl, row_left p c (at 4) (at 5) low shown, omega (arith, few), all)
        | inr high ↦
            let d0 : Detection F = record {
              rect = record { x1 = x1; y1 = y1; x2 = x2; y2 = y2 };
              confidence = p ⊗ c;
              class_id = f.to_int c;
            } in
            (
              d0 ∷ ds,
              rw (e, high) refl,
              row_kept x1 y1 x2 y2 p c (ap (get_elem? values) (omega arith) ∙ at 0) (at 1) (at 2)
                  (at 3) (at 4) (at 5) high shown,
              omega (arith, few),
              λ d m.
                  Or.elim (hlevel) (mem-cons.0 m)
                    (λ same. ap (λ x. x.confidence ≺ threshold) same ∙ high) (all d),
            )
      ]
  read_rows_total threshold values k (suc n) _ h at = absurd (omega (arith, h))

  -- What is reported of `count` rows that are read.
  pub record IsReport (sort : List (Detection F) → List (Detection F)) (config : InferConfig F)
      (count : ℕ) (rows ds : List (Detection F)) : Type ℓ where
    pub selection : IsSelection (suppresses config.nms_threshold) (sort rows) ds
    pub confident : (d : Detection F) → Mem d ds → (d.confidence ≺ config.score_threshold) ≡ false
    pub ranked : Pairwise (λ a b. (a.confidence ≺ b.confidence) ≡ false) ds
    pub few : length rows ≤ count

  module _ (sort : List (Detection F) → List (Detection F)) (v : IsSort sort) where
    nms-IsReport :
        (config : InferConfig F) (count : ℕ) (rows : List (Detection F))
        → length rows ≤ count
        → ((d : Detection F) → Mem d rows → (d.confidence ≺ config.score_threshold) ≡ false)
        → IsReport sort config count rows (nms_sorted (suppresses config.nms_threshold) (sort rows))
    nms-IsReport config count rows few all =
        let s = nms_sorted-IsSelection (suppresses config.nms_threshold) (sort rows) in
        record {
          selection = s;
          confident =
              λ d m. all d (Perm.subset (v.permutes rows) d (Sublist.subset s.from_items d m));
          ranked = Pairwise.sublist (λ a b. hlevel) s.from_items (v.ranks rows);
          few = few;
        }

    postprocess_read :
        (config : InferConfig F) (n : ℕ) (values : List F) (rows : List (Detection F))
        → read_rows config.score_threshold (suc n) values ≡ some rows
        → postprocess sort config (suc n) values
          ≡ some (nms_sorted (suppresses config.nms_threshold) (sort rows))
    unfolding postprocess
    postprocess_read config n values rows e = rw (e, postprocess) refl

    -- When the host's copy of the output holds `count` rows of six floats, `postprocess` reads them
    -- without leaving it. A row gives its four corners, the product of the other two as its confidence and
    -- the last one as its class; the rows whose confidence is under the threshold are left out, and of the
    -- others, sorted, it returns what non-maximum suppression selects: none under the threshold, none
    -- behind one of lower confidence.
    pub postprocess-IsReport :
        (config : InferConfig F) (count : ℕ) (values : List F)
        → count * 6 ≤ length values
        → (rows : List (Detection F)) × (ds : List (Detection F)) × (read_rows
              config.score_threshold count values
            ≡ some rows)
          × (postprocess sort config count values ≡ some ds)
          × IsRows config.score_threshold values 0 count rows
          × IsReport sort config count rows ds
    unfolding postprocess Rows
    postprocess-IsReport config zero values h = (
      [],
      [],
      unfold read_rows in refl,
      refl,
      no_row,
      record {
        selection =
            subst (λ l. IsSelection (suppresses config.nms_threshold) l [])
              (sym (Perm.eq-nil (v.permutes [])))
              (record { from_items = Sublist.refl []; apart = tt; covered = tt });
        confident = λ d m. absurd (not-mem-nil m);
        ranked = Pairwise.nil;
        few = omega arith;
      },
    )
    postprocess-IsReport config (suc n) values h =
        let (rows, e, shown, few, all) =
          read_rows_total config.score_threshold values 0 (suc n) values h
            (λ j. ap (get_elem? values) (omega arith)) in
        (
          rows,
          _,
          e,
          postprocess_read config n values rows e,
          shown,
          nms-IsReport config (suc n) rows few all,
        )
