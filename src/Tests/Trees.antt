-- ===== src/Tests/Trees.antt =====
-- Runs of src/util/intervaltree.cpp.
use egalito.Base.{
  ℕ, ◌+◌, ◌≡◌, refl, true, ◌&&◌, not, [], ◌∷◌, ltb, leb, ◌==◌, to_ℕ, if◌then◌else◌, arith,
}
use egalito.Base.Result.{fail, Failure, Returns}
use egalito.Range.{Range, end, contains_point, overlaps, before_point, after_point}
use egalito.IntervalTree.{
  Node, null, node, add, remove, find_overlapping_point, find_overlapping, find_lower_bound,
  find_upper_bound, in_start_order,
}
use egalito.IntervalTree.Weight.{weigh, weight, covers, only}
use egalito.IntervalTree.Invariant.{Within, IsTree}
use egalito.IntervalTree.Add.{Adds, add-Adds}
use egalito.IntervalTree.Add.Empty.{add-empty}
use egalito.IntervalTree.Remove.{Removes, remove-Removes}
use egalito.IntervalTree.Overlapping.{
  weigh-find_overlapping_point, weigh-find_overlapping, at_point,
}
use egalito.IntervalTree.Bounds.Nearest.{
  AreDisjoint, FindsNearest, starts_earlier, ends_behind, find_upper_bound-nearest,
  find_lower_bound-farthest,
}
use egalito.IntervalTree.Tree.{subtract, subtract_with_addendum, split_at, complement, union_with}
use egalito.IntervalTree.Tree.Cut.{IsRoot, subtract-covers, subtract_with_addendum-covers}
use egalito.IntervalTree.Tree.Split.{Splits, split_at-Splits}
use egalito.IntervalTree.Tree.Complement.{complement-covers}
use egalito.IntervalTree.Tree.Union.{union_with-IsRoot}

abbrev low : Range
low = record { start = 2; size = 4 }

abbrev high : Range
high = record { start = 7; size = 3 }

abbrev lower_half : Node
lower_half = node (record { start = 0; size = 8 }) 4 null null (low ∷ []) (low ∷ [])

-- The ranges [2, 6) and [7, 10) in a tree over [0, 16).
abbrev tree : Node
tree = node (record { start = 0; size = 16 }) 8 lower_half null (high ∷ []) (high ∷ [])

low-Within : Within 0 8 low
low-Within = omega arith

tree-IsTree : IsTree 0 0 16 tree
tree-IsTree = (
  record {
    least_from = omega arith;
    least_to = omega arith;
    begins = refl;
    finishes = refl;
    middle = refl;
    held = (omega arith, tt);
    held_ends = (omega arith, tt);
    sorted = (tt, tt);
    sorted_ends = (tt, tt);
    same = λ w. refl;
  },
  (
    record {
      least_from = omega arith;
      least_to = omega arith;
      begins = refl;
      finishes = refl;
      middle = refl;
      held = (omega arith, tt);
      held_ends = (omega arith, tt);
      sorted = (tt, tt);
      sorted_ends = (tt, tt);
      same = λ w. refl;
    },
    tt,
    tt,
  ),
  tt,
)

tree-IsRoot : IsRoot 0 16 tree
tree-IsRoot = record { tree = tree-IsTree; there = tt }

tree-AreDisjoint : AreDisjoint tree
unfolding contains_point end
tree-AreDisjoint p = ground arith

abbrev cut : Range
cut = record { start = 4; size = 5 }

subtract-covers_example : Returns (subtract tree cut) (λ t'.
    IsRoot 0 16 t'
    × ((p : ℕ)
        → weight (covers p) t' ≡ (if contains_point cut p then 0 else weight (covers p) tree)))
subtract-covers_example = subtract-covers 0 16 tree cut (omega arith) tree-IsRoot (omega arith)

abbrev addendum : Range
addendum = record { start = 9; size = 1 }

subtract_with_addendum-covers_example : Returns (subtract_with_addendum tree cut addendum) (λ t'.
    IsRoot 0 16 t'
    × ((p : ℕ)
        → weight (covers p) t'
          ≡ weight
              (only
                (λ r. not (overlaps r cut && (leb cut.start p && ltb p (end addendum))))
                (covers p))
              tree))
unfolding end
subtract_with_addendum-covers_example =
    subtract_with_addendum-covers 0 16 tree cut addendum (omega arith) tree-IsRoot (omega arith)
      (omega arith)

complement-covers_example : Returns (complement tree) (λ t'.
    IsRoot 0 16 t'
    × ((p : ℕ) → weight (covers p) t' + weight (covers p) tree ≡ to_ℕ (leb 0 p && ltb p 16)))
complement-covers_example = complement-covers 0 16 tree (omega arith) tree-IsRoot tree-AreDisjoint

split_at-Splits_example :
    Returns
      (split_at tree 4)
      (λ res. (res.0 ≡ (weight (covers 4) tree == 1)) × Splits 0 16 4 tree res.0 res.1)
split_at-Splits_example = split_at-Splits 0 16 4 tree (omega arith) tree-IsRoot

union_with-IsRoot_example : Returns (union_with lower_half tree) (λ t'.
    IsRoot 0 8 t'
    × ((w : Range → ℕ)
        → weight w t'
          ≡ weight w lower_half
            + weight (only (λ r. leb 0 r.start && leb (r.start + r.size) 8) w) tree))
union_with-IsRoot_example =
    union_with-IsRoot 0 8 0 16 lower_half tree (omega arith)
      (record { tree = tree-IsTree.1; there = tt }) tree-IsRoot

add-Adds_example : Returns (add 5 tree cut) (λ res. (res.0 ≡ true) × Adds 0 0 16 cut tree res.1)
add-Adds_example =
    add-Adds 4 0 0 16 tree cut (omega arith) (omega arith) tt tree-IsTree (omega arith)

add-empty_example : add 100 tree (record { start = 3; size = 0 }) ≡ fail Failure.out_of_fuel
add-empty_example =
    add-empty (record { start = 3; size = 0 }) (omega arith) refl 100 0 0 16 tree (omega arith) tt
      tree-IsTree (omega arith) (omega arith)

remove-Removes_example : Returns (remove tree low) (λ res. Removes 0 0 16 low tree res.0 res.1)
remove-Removes_example =
    remove-Removes 0 0 16 tree low (omega arith) tree-IsTree (omega arith) (omega arith)

weigh-find_overlapping_point_example :
    weigh (λ r. r.size) (find_overlapping_point tree 5)
    ≡ weight (only (at_point 5) (λ r. r.size)) tree
weigh-find_overlapping_point_example =
    weigh-find_overlapping_point (λ r. r.size) 0 0 16 tree 5 (omega arith) tree-IsTree

weigh-find_overlapping_example :
    weigh (λ r. r.size) (find_overlapping tree cut)
    ≡ weight (only (λ q. overlaps q cut) (λ r. r.size)) tree
weigh-find_overlapping_example =
    weigh-find_overlapping (λ r. r.size) 0 0 16 tree cut (omega arith) tree-IsTree (omega arith)

find_upper_bound-nearest_example :
    FindsNearest
      (λ w. weight w tree)
      (λ r. after_point 3 r)
      starts_earlier
      (find_upper_bound tree 3)
find_upper_bound-nearest_example =
    find_upper_bound-nearest 0 0 16 tree 3 (omega arith) tree-IsTree tree-AreDisjoint

-- A single node whose two ranges, [7, 10) and [4, 9), share the midpoint.
shared-IsTree :
    IsTree 0 0 16
      (node (record { start = 0; size = 16 }) 8 null null (cut ∷ high ∷ []) (high ∷ cut ∷ []))
shared-IsTree = (
  record {
    least_from = omega arith;
    least_to = omega arith;
    begins = refl;
    finishes = refl;
    middle = refl;
    held = (omega arith, (omega arith, tt));
    held_ends = (omega arith, (omega arith, tt));
    sorted = ((omega arith, tt), (tt, tt));
    sorted_ends = ((omega arith, tt), (tt, tt));
    same = λ w. omega arith;
  },
  tt,
  tt,
)

find_lower_bound-farthest_example :
    FindsNearest
      (λ w.
        weight w
          (node (record { start = 0; size = 16 }) 8 null null (cut ∷ high ∷ []) (high ∷ cut ∷ [])))
      (λ r. before_point r 12)
      (λ q r. ends_behind r q)
      (find_lower_bound
        (node (record { start = 0; size = 16 }) 8 null null (cut ∷ high ∷ []) (high ∷ cut ∷ []))
        12)
find_lower_bound-farthest_example =
    find_lower_bound-farthest 0 0 16 (record { start = 0; size = 16 }) 8 12 (cut ∷ high ∷ [])
      (high ∷ cut ∷ []) shared-IsTree

-- Ranges that overlap: [5, 20) holds the midpoint 10, and [6, 8) lies in the lower half.
abbrev overlapped : Node
overlapped =
    node (record { start = 0; size = 20 }) 10
      (node (record { start = 0; size = 10 }) 5 null
        (node (record { start = 5; size = 5 }) 7 null null (record { start = 6; size = 2 } ∷ [])
          (record { start = 6; size = 2 } ∷ []))
        [] [])
      null (record { start = 5; size = 15 } ∷ []) (record { start = 5; size = 15 } ∷ [])

-- The traversal is not in the order of the starts then.
overlapped-order :
    in_start_order overlapped
    ≡ record { start = 6; size = 2 } ∷ record { start = 5; size = 15 } ∷ []
unfolding in_start_order
overlapped-order = refl
