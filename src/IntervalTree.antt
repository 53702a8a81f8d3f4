-- ===== src/IntervalTree.antt =====
-- src/util/intervaltree.h and intervaltree.cpp: class IntervalTreeNode. A node is created with the
-- halves of its parent's range as far as a range is added there; the ranges that hold a node's
-- midpoint stand in the node twice, sorted by start and sorted from the last end on.
-- `null` is the null pointer; a method returns the changed node. `add` descends with fuel, since
-- the recursion of the source makes new nodes on its way down.
-- Tree has class IntervalTree.
pub mod Weight
pub mod Invariant
pub mod Add
pub mod Remove
pub mod Overlapping
pub mod Bounds
pub mod Tree
use egalito.Base.{
  ℕ, zero, suc, ◌+◌, ◌/◌, ◌%◌, Bool, true, false, ◌&&◌, ◌||◌, not, Option, none, some, List, [],
  ◌∷◌, ◌++◌, ltb, leb, ◌==◌, if◌then◌else◌,
}
use egalito.Base.Result.{Result, ok, fail, Failure, ◌>>=◌}
use egalito.Range.{
  Range, address_limit, end, contains_point, contains, overlaps, before_point, after_point, less,
  equal, from_endpoints,
}

pub data Node : Type 0 where
  null : Node
  node :
      (total : Range) (midpoint : ℕ) (lower higher : Node) (overlap_start overlap_end : List Range)
      → Node

-- The constructor of IntervalTreeNode.
unfoldable pub new_node : Range → Node
new_node total = node total ((total.start + total.size / 2) % address_limit) null null [] []

-- getTotalRange
unfoldable pub total_range : Node → Range
total_range null = record { start = 0; size = 0 }
total_range (node total midpoint lower higher starts ends) = total

-- The order of overlapEnd: the comparison function of the sort in `add`.
unfoldable pub ends_later : Range → Range → Bool
ends_later a b = if ltb (end b) (end a) then true else (end b == end a) && ltb b.start a.start

-- push_back followed by std::sort with the given order: what the order leaves open is settled by
-- keeping the new entry behind its equals.
unfoldable pub sort_in : (Range → Range → Bool) → Range → List Range → List Range
sort_in before r [] = r ∷ []
sort_in before r (x ∷ xs) = if before r x then r ∷ x ∷ xs else x ∷ sort_in before r xs

-- The child for a new range: the one there is, or a new node over the given end points.
unfoldable pub child_or_new : Node → ℕ → ℕ → Result Node
unfolding new_node
child_or_new null start end = from_endpoints start end >>= λ r. ok (new_node r)
child_or_new (node total midpoint lower higher starts ends) start end =
    ok (node total midpoint lower higher starts ends)

-- add
unfoldable pub add : ℕ → Node → Range → Result (Bool × Node)
add zero tree range = fail Failure.out_of_fuel
add (suc fuel) null range = fail Failure.null_pointer
add (suc fuel) (node total midpoint lower higher starts ends) range =
    let to_lower : Result (Bool × Node) = child_or_new lower total.start midpoint >>= (λ child.
      add fuel child range
      >>= (λ (added, child'). ok (added, node total midpoint child' higher starts ends))) in
    let to_higher : Result (Bool × Node) = child_or_new higher midpoint (end total) >>= (λ child.
      add fuel child range
      >>= (λ (added, child'). ok (added, node total midpoint lower child' starts ends))) in
    if contains total range
    then if before_point range midpoint
      then to_lower
      else if contains_point range midpoint
      then ok (
        true,
        node total midpoint lower higher (sort_in less range starts)
            (sort_in ends_later range ends),
      )
      else to_higher
    else ok (false, node total midpoint lower higher starts ends)

-- std::find and erase: whether the range was found, and the list without its first occurrence.
unfoldable pub erase_first : Range → List Range → Bool × List Range
erase_first r [] = (false, [])
erase_first r (x ∷ xs) =
    let rest = erase_first r xs in if equal x r then (true, xs) else (rest.0, x ∷ rest.1)

-- The last branch of `remove`, with its assertion that both lists agree.
unfoldable pub remove_here :
    Range → ℕ → Node → Node → Bool × List Range → Bool × List Range → Result (Bool × Node)
remove_here total midpoint lower higher (removed₁, starts') (removed₂, ends') =
    if (removed₁ && removed₂) || (not removed₁ && not removed₂)
    then ok (removed₁ && removed₂, node total midpoint lower higher starts' ends')
    else fail Failure.assertion

-- remove
unfoldable pub remove : Node → Range → Result (Bool × Node)
remove null range = ok (false, null)
remove (node total midpoint lower higher starts ends) range =
    let from_lower : Result (Bool × Node) =
      remove lower range
      >>= (λ (removed, child). ok (removed, node total midpoint child higher starts ends)) in
    let from_higher : Result (Bool × Node) =
      remove higher range
      >>= (λ (removed, child). ok (removed, node total midpoint lower child starts ends)) in
    if before_point range midpoint
    then from_lower
    else if after_point midpoint range
    then from_higher
    else remove_here total midpoint lower higher (erase_first range starts) (erase_first range ends)

-- The two loops of findOverlapping(address_t), each with its early exit.
unfoldable pub scan_starts : ℕ → List Range → List Range
scan_starts point [] = []
scan_starts point (r ∷ rs) =
    let found = if contains_point r point then r ∷ [] else [] in
    let rest = scan_starts point rs in if after_point point r then found else found ++ rest

unfoldable pub scan_ends : ℕ → List Range → List Range
scan_ends point [] = []
scan_ends point (r ∷ rs) =
    let found = if contains_point r point then r ∷ [] else [] in
    let rest = scan_ends point rs in if before_point r point then found else found ++ rest

-- findOverlapping(address_t), with the ranges that it adds to `found`
unfoldable pub find_overlapping_point : Node → ℕ → List Range
find_overlapping_point null point = []
find_overlapping_point (node total midpoint lower higher starts ends) point =
    let below = find_overlapping_point lower point in
    let above = find_overlapping_point higher point in
    if ltb point midpoint then below ++ scan_starts point starts else scan_ends point ends ++ above

-- The loop of findOverlapping(Range).
unfoldable pub overlapping : Range → List Range → List Range
overlapping range [] = []
overlapping range (r ∷ rs) =
    if overlaps r range then r ∷ overlapping range rs else overlapping range rs

-- findOverlapping(Range)
unfoldable pub find_overlapping : Node → Range → List Range
find_overlapping null range = []
find_overlapping (node total midpoint lower higher starts ends) range =
    let below = find_overlapping lower range in
    let above = find_overlapping higher range in
    let search_higher = not (before_point range midpoint) in
    let search_lower = not (after_point midpoint range || (midpoint == range.start)) in
    (if search_lower then below else [])
    ++ (overlapping range starts ++ (if search_higher then above else []))

-- The first entry that passes a test: the loops of the four bound searches.
unfoldable pub first : (Range → Bool) → List Range → Option Range
first test [] = none
first test (r ∷ rs) = if test r then some r else first test rs

-- A loop with reverse iterators.
unfoldable pub last : (Range → Bool) → List Range → Option Range
last test [] = none
last test (r ∷ rs) = elim (last test rs) [
  | none ↦ if test r then some r else none
  | some found ↦ some found
]

abbrev pub or_try : Option Range → Option Range → Option Range
or_try none next = next
or_try (some r) next = some r

-- findLowerBound and findLowerBoundOrOverlapping: the found bound, or none for `false`
unfoldable pub find_lower : (Range → Bool) → Node → ℕ → Option Range
find_lower test null point = none
find_lower test (node total midpoint lower higher starts ends) point =
    let above = find_lower test higher point in
    let below = find_lower test lower point in
    or_try (if leb midpoint point then above else none) (or_try (last test ends) below)

unfoldable pub find_lower_bound : Node → ℕ → Option Range
unfolding find_lower
find_lower_bound tree point = find_lower (λ r. before_point r point) tree point

unfoldable pub find_lower_bound_or_overlapping : Node → ℕ → Option Range
unfolding find_lower
find_lower_bound_or_overlapping tree point =
    find_lower (λ r. before_point r point || contains_point r point) tree point

-- findUpperBound and findUpperBoundOrOverlapping
unfoldable pub find_upper : (Range → Bool) → Node → ℕ → Option Range
find_upper test null point = none
find_upper test (node total midpoint lower higher starts ends) point =
    let below = find_upper test lower point in
    let above = find_upper test higher point in
    or_try (if ltb point midpoint then below else none) (or_try (first test starts) above)

unfoldable pub find_upper_bound : Node → ℕ → Option Range
unfolding find_upper
find_upper_bound tree point = find_upper (λ r. after_point point r) tree point

unfoldable pub find_upper_bound_or_overlapping : Node → ℕ → Option Range
unfolding find_upper
find_upper_bound_or_overlapping tree point =
    find_upper (λ r. after_point point r || contains_point r point) tree point

-- inStartOrderTraversal: the ranges in the order in which the callback gets them
unfoldable pub in_start_order : Node → List Range
in_start_order null = []
in_start_order (node total midpoint lower higher starts ends) =
    in_start_order lower ++ (starts ++ in_start_order higher)
