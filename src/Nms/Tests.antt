-- ===== src/Nms/Tests.antt =====
-- A run of non-maximum suppression, in hundredths.
use pantograph_arc_vision.Common.{Bool, List, [], ◌∷◌, ◌≡◌, refl}
use pantograph_arc_vision.Common.Floating.{Hundredths, hundredths_floating}
use pantograph_arc_vision.Nms.{Rect, overlaps, nms_sorted, suppress, suppress_by, select, no_flags}
use pantograph_arc_vision.Nms.Selection.{IsSelection, nms_sorted-IsSelection}

abbrev left : Rect Hundredths
left = record { x1 = 0; y1 = 0; x2 = 1000; y2 = 1000 }

abbrev shifted : Rect Hundredths
shifted = record { x1 = 100; y1 = 0; x2 = 1100; y2 = 1000 }

abbrev apart : Rect Hundredths
apart = record { x1 = 2000; y1 = 0; x2 = 3000; y2 = 1000 }

abbrev test : Rect Hundredths → Rect Hundredths → Bool
test = overlaps 45

abbrev boxes : List (Rect Hundredths)
boxes = left ∷ shifted ∷ apart ∷ []

selected : nms_sorted test boxes ≡ left ∷ apart ∷ []
unfolding nms_sorted suppress suppress_by select no_flags overlaps
selected = refl

nms_sorted-IsSelection_example : IsSelection test boxes (nms_sorted test boxes)
nms_sorted-IsSelection_example = nms_sorted-IsSelection test boxes
