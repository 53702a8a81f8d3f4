-- ===== src/IntervalTree/Bounds/Nearest.antt =====
-- Which range findUpperBound and findLowerBound of src/util/intervaltree.cpp find, for trees in which
-- no two ranges share a point and, of findLowerBound, for a single node.
use egalito.Base.{
  ℕ, suc, ◌+◌, ◌≤◌, ◌<◌, ◌≡◌, refl, ap, subst, inl, inr, Bool, true, false, List, [], ◌∷◌, ◌&&◌,
  arith, Bool-cases, if◌then◌else◌, leb, ltb, to_ℕ, sym, Option, none, some,
}
use egalito.Range.{Range, address_limit, contains_point, before_point, after_point, equal}
use egalito.Range.Laws.{end-IsValid, equal_iff}
use egalito.IntervalTree.Weight.{
  weigh, weight, All, count_of, covers, weigh-add, weigh-in_start_order,
}
use egalito.IntervalTree.Invariant.{
  AreSortedByEnd, Within, Holds, IsTree, weight-vanish, in_start_order-Within,
}
use egalito.IntervalTree.Bounds.{Searches, first-Searches, last-Searches}
use egalito.IntervalTree.{
  Node, null, node, last, or_try, find_lower, find_upper, find_lower_bound, find_upper_bound,
  in_start_order,
}

-- No address lies in two ranges of the tree.
abbrev pub AreDisjoint : Node → Type 0
AreDisjoint t = (p : ℕ) → weight (covers p) t ≤ 1

-- The range that is found passes the test, is one of the ranges, and none that passes is closer.
abbrev pub FindsNearest :
    ((Range → ℕ) → ℕ) → (Range → Bool) → (Range → Range → Bool) → Option Range → Type 0
FindsNearest total test closer none = total (λ q. to_ℕ (test q)) ≡ 0
FindsNearest total test closer (some r) =
    (test r ≡ true)
    × (0 < total (λ q. count_of q r))
    × (total (λ q. to_ℕ (test q && closer q r)) ≡ 0)

pub weigh_mono :
    {P : Range → Type 0} (v w : Range → ℕ) (rs : List Range)
    → All P rs
    → ((r : Range) → P r → v r ≤ w r)
    → weigh v rs ≤ weigh w rs
weigh_mono v w [] a h = omega arith
weigh_mono v w (r ∷ rs) a h = omega (arith, h r a.0, weigh_mono v w rs a.1 h)

pub weight_mono : (v w : Range → ℕ) (t : Node) → ((r : Range) → v r ≤ w r) → weight v t ≤ weight w t
weight_mono v w null h = omega arith
weight_mono v w (node total midpoint lower higher starts ends) h = omega (
  arith,
  weight_mono v w lower h,
  weight_mono v w higher h,
  weigh_mono {P = λ _. Unit {0}} v w starts (trivial starts) (λ r _. h r),
)
  where
    trivial : (rs : List Range) → All (λ _. Unit {0}) rs
    trivial [] = tt
    trivial (r ∷ rs) = (tt, trivial rs)

pub All-member :
    (P : Range → Type 0) (r : Range) (rs : List Range)
    → All P rs
    → 0 < weigh (λ q. count_of q r) rs
    → P r
All-member P r [] a h = absurd (omega arith)
All-member P r (x ∷ xs) a h = elim (Bool-cases (equal x r)) [
  | inl e ↦ subst P ((equal_iff x r).0 e) a.0
  | inr e ↦ All-member P r xs a.1 (ground arith)
]

pub member-Within :
    (a least b : ℕ) (t : Node) (r : Range)
    → IsTree a least b t
    → 0 < weight (λ q. count_of q r) t
    → Within least b r
member-Within a least b t r i h =
    All-member _ r (in_start_order t) (in_start_order-Within a least b t i)
      (omega (arith, weigh-in_start_order (λ q. count_of q r) t))

-- A range of the tree covers each of its points.
pub member-covers :
    (t : Node) (r : Range) (p : ℕ)
    → contains_point r p ≡ true
    → 0 < weight (λ q. count_of q r) t
    → 0 < weight (covers p) t
member-covers t r p c h = omega (arith, weight_mono (λ q. count_of q r) (covers p) t pointwise)
  where
    pointwise : (q : Range) → count_of q r ≤ covers p q
    pointwise q = ground (arith, (equal_iff q r).0, ap (λ x. contains_point x p) {x = q} {y = r})

-- A part without candidates has none that is closer.
none_closer :
    (t : Node) (test : Range → Bool) (closer : Range → Bool)
    → weight (λ q. to_ℕ (test q)) t ≡ 0
    → weight (λ q. to_ℕ (test q && closer q)) t ≡ 0
none_closer t test closer h =
    omega (
      arith,
      weight_mono (λ q. to_ℕ (test q && closer q)) (λ q. to_ℕ (test q)) t (λ r. ground arith),
    )

abbrev pub starts_earlier : Range → Range → Bool
starts_earlier q r = ltb q.start r.start

abbrev pub ends_behind : Range → Range → Bool
ends_behind q r = ltb (r.start + r.size) (q.start + q.size)

-- A node's own ranges all hold its midpoint, so among disjoint ranges there is one at most, and
-- none that is closer than it.
alone :
    (midpoint : ℕ) (P : Range → Type 0) (starts : List Range) (r : Range) (test : Range → Bool)
    (closer : Range → Range → Bool)
    → All P starts
    → ((q : Range) → P q → contains_point q midpoint ≡ true)
    → ((q : Range) → closer q q ≡ false)
    → weigh (covers midpoint) starts ≤ 1
    → 0 < weigh (λ q. count_of q r) starts
    → weigh (λ q. to_ℕ (test q && closer q r)) starts ≡ 0
alone midpoint P starts r test closer held hold irrefl one there = omega (
  arith,
  weigh-add (λ q. to_ℕ (test q && closer q r)) (λ q. count_of q r) starts,
  weigh_mono (λ q. to_ℕ (test q && closer q r) + count_of q r) (covers midpoint) starts held
      pointwise,
)
  where
    pointwise : (q : Range) → P q → to_ℕ (test q && closer q r) + count_of q r ≤ covers midpoint q
    pointwise q p =
        ground (arith, hold q p, irrefl r, (equal_iff q r).0, ap (λ x. closer x r) {x = q} {y = r})

contains_point-midpoint :
    (least b midpoint : ℕ) (q : Range) → Holds least b midpoint q → contains_point q midpoint ≡ true
unfolding contains_point
contains_point-midpoint least b midpoint q h = ground (arith, end-IsValid q h.within.valid)

module _ (a least b : ℕ) (total : Range) (midpoint : ℕ) (lower higher : Node)
    (starts ends : List Range)
    (tree : IsTree a least b (node total midpoint lower higher starts ends))
    (apart : AreDisjoint (node total midpoint lower higher starts ends)) (test : Range → Bool)
    (r : Range) where
  -- The range found is one of the node's own.
  own_alone :
      (closer : Range → Range → Bool)
      → ((q : Range) → closer q q ≡ false)
      → 0 < weigh (λ q. count_of q r) starts
      → weigh (λ q. to_ℕ (test q && closer q r)) starts ≡ 0
  own_alone closer irrefl h =
      alone midpoint (Holds least b midpoint) starts r test closer tree.0.held
        (contains_point-midpoint least b midpoint) irrefl (omega (arith, apart midpoint)) h

  -- It comes from one child: an own range on its other side that is closer would cover its start.
  lower_none :
      0 < weight (λ q. count_of q r) lower
      → weigh (λ q. to_ℕ (test q && starts_earlier q r)) starts ≡ 0
  lower_none h =
      let w = member-Within a least midpoint lower r tree.1 h in
      let c : contains_point r r.start ≡ true =
        unfold contains_point in ground (arith, end-IsValid r w.valid) in
      omega (
        arith,
        apart r.start,
        member-covers lower r r.start c h,
        weigh_mono (λ q. to_ℕ (test q && starts_earlier q r)) (covers r.start) starts tree.0.held
            (λ q k. unfold contains_point in ground (arith, end-IsValid q k.within.valid)),
      )

  higher_none :
      0 < weight (λ q. count_of q r) higher
      → weigh (λ q. to_ℕ (test q && ends_behind q r)) starts ≡ 0
  higher_none h =
      let w = member-Within midpoint (suc midpoint) b higher r tree.2 h in
      let c : contains_point r r.start ≡ true =
        unfold contains_point in ground (arith, end-IsValid r w.valid) in
      omega (
        arith,
        apart r.start,
        member-covers higher r r.start c h,
        weigh_mono (λ q. to_ℕ (test q && ends_behind q r)) (covers r.start) starts tree.0.held
            (λ q k. unfold contains_point in ground (arith, end-IsValid q k.within.valid)),
      )

  -- The other child lies beyond the midpoint, so beyond a range that ends behind it or starts
  -- before it.
  beyond_higher : r.start ≤ midpoint → weight (λ q. to_ℕ (test q && starts_earlier q r)) higher ≡ 0
  beyond_higher h = weight-vanish midpoint (suc midpoint) b _ higher tree.2 (λ q k. ground arith)

  beyond_lower :
      midpoint ≤ r.start + r.size → weight (λ q. to_ℕ (test q && ends_behind q r)) lower ≡ 0
  beyond_lower h = weight-vanish a least midpoint _ lower tree.1 (λ q k. ground arith)

-- Three searches in turn.
combine :
    (t u v s : (Range → ℕ) → ℕ) (test : Range → Bool) (closer : Range → Range → Bool)
    (o p q : Option Range)
    → ((w : Range → ℕ) → s w ≡ t w + (u w + v w))
    → ((r : Range) → t (λ x. to_ℕ (test x)) ≡ 0 → t (λ x. to_ℕ (test x && closer x r)) ≡ 0)
    → ((r : Range) → u (λ x. to_ℕ (test x)) ≡ 0 → u (λ x. to_ℕ (test x && closer x r)) ≡ 0)
    → ((r : Range)
        → 0 < t (λ x. count_of x r)
        → (u (λ x. to_ℕ (test x && closer x r)) ≡ 0) × (v (λ x. to_ℕ (test x && closer x r)) ≡ 0))
    → ((r : Range) → 0 < u (λ x. count_of x r) → v (λ x. to_ℕ (test x && closer x r)) ≡ 0)
    → FindsNearest t test closer o
    → FindsNearest u test closer p
    → FindsNearest v test closer q
    → FindsNearest s test closer (or_try o (or_try p q))
combine t u v s test closer none none none sum nt nu mt mu ft fu fv =
    omega (arith, sum (λ x. to_ℕ (test x)))
combine t u v s test closer none none (some r) sum nt nu mt mu ft fu fv = (
  fv.0,
  omega (arith, fv.1, sum (λ x. count_of x r)),
  omega (arith, fv.2, sum (λ x. to_ℕ (test x && closer x r)), nt r ft, nu r fu),
)
combine t u v s test closer none (some r) q sum nt nu mt mu ft fu fv = (
  fu.0,
  omega (arith, fu.1, sum (λ x. count_of x r)),
  omega (arith, fu.2, sum (λ x. to_ℕ (test x && closer x r)), nt r ft, mu r fu.1),
)
combine t u v s test closer (some r) p q sum nt nu mt mu ft fu fv = (
  ft.0,
  omega (arith, ft.1, sum (λ x. count_of x r)),
  omega (arith, ft.2, sum (λ x. to_ℕ (test x && closer x r)), mt r ft.1),
)

none_closer_list :
    (rs : List Range) (test closer : Range → Bool)
    → weigh (λ q. to_ℕ (test q)) rs ≡ 0
    → weigh (λ q. to_ℕ (test q && closer q)) rs ≡ 0
none_closer_list [] test closer h = refl
none_closer_list (r ∷ rs) test closer h = ground (arith, none_closer_list rs test closer)

-- A single list, or a child that need not be searched.
with_alone :
    (t : (Range → ℕ) → ℕ) (test : Range → Bool) (closer : Range → Range → Bool) (o : Option Range)
    → ((r : Range) → 0 < t (λ x. count_of x r) → t (λ x. to_ℕ (test x && closer x r)) ≡ 0)
    → Searches t test o
    → FindsNearest t test closer o
with_alone t test closer none h s = s
with_alone t test closer (some r) h s = (s.0, s.1, h r s.1)

skip :
    (t : (Range → ℕ) → ℕ) (test : Range → Bool) (closer : Range → Range → Bool) (go : Bool)
    (o : Option Range)
    → FindsNearest t test closer o
    → (go ≡ false → t (λ q. to_ℕ (test q)) ≡ 0)
    → FindsNearest t test closer (if go then o else none)
skip t test closer true o f e = f
skip t test closer false o f e = e refl

with_same :
    (t u : (Range → ℕ) → ℕ) (test : Range → Bool) (o : Option Range)
    → ((w : Range → ℕ) → t w ≡ u w)
    → Searches t test o
    → Searches u test o
with_same t u test none e s = omega (arith, e (λ q. to_ℕ (test q)))
with_same t u test (some r) e s = (s.0, omega (arith, s.1, e (λ q. count_of q r)))

-- findUpperBound on a tree without overlaps: the result is none exactly if no range starts behind
-- the point, and otherwise is the range of the tree with the smallest start behind the point.
pub find_upper_bound-nearest :
    (a least b : ℕ) (t : Node) (p : ℕ)
    → b < address_limit
    → IsTree a least b t
    → AreDisjoint t
    → FindsNearest (λ w. weight w t) (λ r. after_point p r) starts_earlier (find_upper_bound t p)
unfolding find_upper_bound find_upper
find_upper_bound-nearest a least b null p lim i d = refl
find_upper_bound-nearest a least b (node total midpoint lower higher starts ends) p lim i d =
    let test = λ (r : Range). after_point p r in
    combine (λ w. weight w lower) (λ w. weigh w starts) (λ w. weight w higher)
      (λ w. weight w lower + (weigh w starts + weight w higher)) test starts_earlier _ _ _
      (λ w. refl) (λ r. none_closer lower test (λ q. starts_earlier q r))
      (λ r. none_closer_list starts test (λ q. starts_earlier q r))
      (λ r h. (
        lower_none a least b total midpoint lower higher starts ends i d test r h,
        beyond_higher a least b total midpoint lower higher starts ends i d test r
            (omega (arith, member-Within a least midpoint lower r i.1 h)),
      ))
      (λ r h.
        beyond_higher a least b total midpoint lower higher starts ends i d test r
          (All-member (Holds least b midpoint) r starts i.0.held h).before)
      (skip (λ w. weight w lower) test starts_earlier (ltb p midpoint) _
        (find_upper_bound-nearest a least midpoint lower p (omega (arith, i.0)) i.1
          (λ x. omega (arith, d x)))
        (λ e.
          weight-vanish a least midpoint _ lower i.1
            (λ r k. unfold after_point in ground (arith, end-IsValid r k.valid))))
      (with_alone (λ w. weigh w starts) test starts_earlier _
        (λ r.
          own_alone a least b total midpoint lower higher starts ends i d test r starts_earlier
            (λ q. ground arith))
        (first-Searches test starts))
      (find_upper_bound-nearest midpoint (suc midpoint) b higher p lim i.2
        (λ x. omega (arith, d x)))

-- findLowerBound on a tree without overlaps: the result is none exactly if no range ends at or
-- before the point, and otherwise is the range of the tree with the largest such end.
pub find_lower_bound-nearest :
    (a least b : ℕ) (t : Node) (p : ℕ)
    → b < address_limit
    → IsTree a least b t
    → AreDisjoint t
    → FindsNearest (λ w. weight w t) (λ r. before_point r p) ends_behind (find_lower_bound t p)
unfolding find_lower_bound find_lower
find_lower_bound-nearest a least b null p lim i d = refl
find_lower_bound-nearest a least b (node total midpoint lower higher starts ends) p lim i d =
    let test = λ (r : Range). before_point r p in
    combine (λ w. weight w higher) (λ w. weigh w starts) (λ w. weight w lower)
      (λ w. weight w lower + (weigh w starts + weight w higher)) test ends_behind _ _ _
      (λ w. omega arith) (λ r. none_closer higher test (λ q. ends_behind q r))
      (λ r. none_closer_list starts test (λ q. ends_behind q r))
      (λ r h. (
        higher_none a least b total midpoint lower higher starts ends i d test r h,
        beyond_lower a least b total midpoint lower higher starts ends i d test r
            (omega (arith, member-Within midpoint (suc midpoint) b higher r i.2 h)),
      ))
      (λ r h.
        beyond_lower a least b total midpoint lower higher starts ends i d test r
          (omega (arith, All-member (Holds least b midpoint) r starts i.0.held h)))
      (skip (λ w. weight w higher) test ends_behind (leb midpoint p) _
        (find_lower_bound-nearest midpoint (suc midpoint) b higher p lim i.2
          (λ x. omega (arith, d x)))
        (λ e.
          weight-vanish midpoint (suc midpoint) b _ higher i.2
            (λ r k. unfold before_point in ground (arith, end-IsValid r k.valid))))
      (with_alone (λ w. weigh w starts) test ends_behind _
        (λ r.
          own_alone a least b total midpoint lower higher starts ends i d test r ends_behind
            (λ q. ground arith))
        (with_same (λ w. weigh w ends) (λ w. weigh w starts) test _ (λ w. sym (i.0.same w))
          (last-Searches test ends)))
      (find_lower_bound-nearest a least midpoint lower p (omega (arith, i.0)) i.1
        (λ x. omega (arith, d x)))

-- The last of a list in the order of the ends ends first.
last-first :
    (test : Range → Bool) (rs : List Range)
    → AreSortedByEnd rs
    → FindsNearest (λ w. weigh w rs) test (λ q r. ends_behind r q) (last test rs)
unfolding last
last-first test [] sorted = refl
last-first test (x ∷ xs) (above, sorted) = step (last test xs) (last-first test xs sorted)
  where
    step :
        (o : Option Range)
        → FindsNearest (λ w. weigh w xs) test (λ q r. ends_behind r q) o
        → FindsNearest
            (λ w. weigh w (x ∷ xs))
            test
            (λ q r. ends_behind r q)
            (elim o [ none ↦ if test x then some x else none | some found ↦ some found ])
    step none f = elim (Bool-cases (test x)) [
      | inl e ↦ rw e (
        e,
        ground (arith, (equal_iff x x).1 refl),
        ground (arith, none_closer_list xs test (λ q. ends_behind x q) f),
      )
      | inr e ↦ rw e (ground (arith, f))
    ]
    step (some r) (passes, there, nearest) =
        let lower = All-member (λ q. q.start + q.size ≤ x.start + x.size) r xs above there in
        (passes, omega (arith, there), ground (arith, lower, nearest))

-- Among overlapping ranges findLowerBound takes the wrong one: in a well-formed tree of a single node
-- it returns none exactly if no range ends at or before the point, and otherwise such a range of the
-- tree that none of them ends before, which is the one farthest from the point.
pub find_lower_bound-farthest :
    (a least b : ℕ) (total : Range) (midpoint p : ℕ) (starts ends : List Range)
    → IsTree a least b (node total midpoint null null starts ends)
    → FindsNearest
        (λ w. weight w (node total midpoint null null starts ends))
        (λ r. before_point r p)
        (λ q r. ends_behind r q)
        (find_lower_bound (node total midpoint null null starts ends) p)
unfolding find_lower_bound find_lower
find_lower_bound-farthest a least b total midpoint p starts ends i =
    single (leb midpoint p) (last (λ r. before_point r p) ends)
      (last-first (λ r. before_point r p) ends i.0.sorted_ends)
  where
    single :
        (go : Bool) (o : Option Range)
        → FindsNearest (λ w. weigh w ends) (λ r. before_point r p) (λ q r. ends_behind r q) o
        → FindsNearest
            (λ w. weight w (node total midpoint null null starts ends))
            (λ r. before_point r p)
            (λ q r. ends_behind r q)
            (or_try (if go then none else none) (or_try o none))
    single true none h = omega (arith, h, i.0.same (λ q. to_ℕ (before_point q p)))
    single false none h = omega (arith, h, i.0.same (λ q. to_ℕ (before_point q p)))
    single true (some r) (passes, there, nearest) = (
      passes,
      omega (arith, there, i.0.same (λ q. count_of q r)),
      omega (arith, nearest, i.0.same (λ q. to_ℕ (before_point q p && ends_behind r q))),
    )
    single false (some r) (passes, there, nearest) = (
      passes,
      omega (arith, there, i.0.same (λ q. count_of q r)),
      omega (arith, nearest, i.0.same (λ q. to_ℕ (before_point q p && ends_behind r q))),
    )
