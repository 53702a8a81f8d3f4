-- ===== src/Tests/Ranges.antt =====
-- Runs of src/util/range.cpp.
use egalito.Base.{ℕ, ◌≡◌, ◌↔◌, true, arith}
use egalito.Range.{Range, overlaps, contains_point}
use egalito.Range.Laws.{overlaps_iff}

abbrev left : Range
left = record { start = 2; size = 4 }

abbrev right : Range
right = record { start = 5; size = 3 }

overlaps_iff_example :
    (overlaps left right ≡ true)
    ↔ ((p : ℕ) × (contains_point left p ≡ true) × (contains_point right p ≡ true))
overlaps_iff_example =
    overlaps_iff left right (omega arith) (omega arith) (omega arith) (omega arith)
