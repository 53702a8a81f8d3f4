-- ===== src/IntervalTree/Tree.antt =====
-- Class IntervalTree of src/util/intervaltree.h and intervaltree.cpp, on the pointer to its root.
-- `levels` is the fuel for `add`: 65 levels are enough for nodes over 64-bit addresses. The
-- searches of the class are those of its root, and stand in IntervalTree; `dump` only logs.
pub mod Cut
pub mod Split
pub mod Complement
pub mod Union
use egalito.Base.{
  ℕ, ◌+◌, Bool, true, false, ◌&&◌, not, List, [], ◌∷◌, length, ltb, ◌==◌, if◌then◌else◌, max,
}
use egalito.Base.Result.{Result, ok, ◌>>=◌}
use egalito.Range.{Range, end, contains_point, from_endpoints}
use egalito.IntervalTree.{
  Node, new_node, total_range, add, remove, find_overlapping_point, find_overlapping,
  in_start_order,
}

abbrev pub levels : ℕ
levels = 65

-- add(Range::fromEndpoints(start, end)), whose result is not used
unfoldable pub add_piece : Node → ℕ → ℕ → Result Node
add_piece tree start end =
    from_endpoints start end >>= λ piece. add levels tree piece >>= λ (added, tree'). ok tree'

-- The body of the loops of subtract and subtractWithAddendum, after `remove(r)`.
unfoldable pub keep_before : ℕ → Range → Node → Result Node
unfolding add_piece
keep_before cut_start r tree =
    if ltb r.start cut_start then add_piece tree r.start cut_start else ok tree

unfoldable pub keep_behind : ℕ → Range → Node → Result Node
unfolding add_piece
keep_behind cut_end r tree = if ltb cut_end (end r) then add_piece tree cut_end (end r) else ok tree

unfoldable pub cut_all : ℕ → ℕ → List Range → Node → Result Node
unfolding keep_before keep_behind
cut_all cut_start cut_end [] tree = ok tree
cut_all cut_start cut_end (r ∷ rs) tree = remove tree r >>= λ (removed, tree₁).
    keep_before cut_start r tree₁ >>= λ tree₂.
    keep_behind cut_end r tree₂ >>= λ tree₃. cut_all cut_start cut_end rs tree₃

-- subtract
unfoldable pub subtract : Node → Range → Result Node
unfolding cut_all
subtract tree range = cut_all range.start (end range) (find_overlapping tree range) tree

-- subtractWithAddendum
unfoldable pub subtract_with_addendum : Node → Range → Range → Result Node
unfolding cut_all
subtract_with_addendum tree range addendum =
    cut_all range.start (end addendum) (find_overlapping tree range) tree

-- The branch of splitAt for a single range.
unfoldable pub split_range : Node → Range → ℕ → Result (Bool × Node)
unfolding add_piece
split_range tree r point =
    let split : Result (Bool × Node) = remove tree r >>= λ (removed, tree₁).
    add_piece tree₁ r.start point >>= λ tree₂.
    add_piece tree₂ point (end r) >>= λ tree₃. ok (true, tree₃) in
    if not (point == r.start) && not (point == end r) then split else ok (true, tree)

unfoldable pub split_found : Node → List Range → ℕ → Result (Bool × Node)
unfolding split_range
split_found tree [] point = ok (false, tree)
split_found tree (r ∷ []) point = split_range tree r point
split_found tree (r ∷ _ ∷ _) point = ok (false, tree)

-- splitAt
unfoldable pub split_at : Node → ℕ → Result (Bool × Node)
unfolding split_found
split_at tree point =
    if contains_point (total_range tree) point
    then split_found tree (find_overlapping_point tree point) point
    else ok (false, tree)

-- The callback of `complement`: lastPoint and newTree after one range.
unfoldable pub complement_step : ℕ → Node → Range → Result (ℕ × Node)
unfolding add_piece
complement_step last_point new_tree r =
    (if ltb last_point r.start then add_piece new_tree last_point r.start else ok new_tree)
    >>= λ new_tree'. ok (max last_point (end r), new_tree')

unfoldable pub complement_all : List Range → ℕ → Node → Result (ℕ × Node)
unfolding complement_step
complement_all [] last_point new_tree = ok (last_point, new_tree)
complement_all (r ∷ rs) last_point new_tree =
    complement_step last_point new_tree r >>= λ (last_point', new_tree').
    complement_all rs last_point' new_tree'

-- The end of `complement`: the gap behind the last range.
unfoldable pub complement_end : Range → ℕ × Node → Result Node
unfolding add_piece
complement_end bounds (last_point, new_tree) =
    if ltb last_point (end bounds) then add_piece new_tree last_point (end bounds) else ok new_tree

-- complement
unfoldable pub complement : Node → Result Node
unfolding complement_all complement_end new_node
complement tree =
    let bounds = total_range tree in
    complement_all (in_start_order tree) bounds.start (new_node bounds) >>= complement_end bounds

-- unionWith: the ranges of the other tree, one by one
unfoldable pub add_all : List Range → Node → Result Node
add_all [] tree = ok tree
add_all (r ∷ rs) tree = add levels tree r >>= λ (added, tree'). add_all rs tree'

unfoldable pub union_with : Node → Node → Result Node
unfolding add_all
union_with tree other_tree = add_all (in_start_order other_tree) tree

-- getAllData
unfoldable pub get_all_data : Node → List Range
get_all_data tree = in_start_order tree
