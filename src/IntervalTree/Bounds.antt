-- ===== src/IntervalTree/Bounds.antt =====
-- The bound searches of src/util/intervaltree.cpp (findUpperBound, findLowerBound and their variants
-- for overlapping ranges) as searches for a range that passes a test.
pub mod Nearest
use egalito.Base.{
  ℕ, suc, ◌+◌, ◌≤◌, ◌<◌, ◌≡◌, refl, ap, ◌⊎◌, inl, inr, Bool, true, false, List, [], ◌∷◌, ◌++◌, ◌&&◌,
  ◌||◌, not, arith, Bool-cases, if◌then◌else◌, leb, ltb, to_ℕ, Option, none, some, Option-cases,
}
use egalito.Range.{
  Range, address_limit, end, contains_point, overlaps, before_point, after_point, equal,
}
use egalito.Range.Laws.{IsValid, end-IsValid, equal_iff}
use egalito.IntervalTree.Weight.{
  weigh, weight, only, All, count_of, covers, weigh_congr, weigh-zero,
}
use egalito.IntervalTree.Invariant.{
  Within, Holds, AreSortedByStart, AreSortedByEnd, IsNode, IsTree, All-map, weight-vanish,
}
use egalito.IntervalTree.{
  Node, null, node, first, last, or_try, find_lower, find_upper, find_lower_bound,
  find_lower_bound_or_overlapping, find_upper_bound, find_upper_bound_or_overlapping,
}

-- A search among ranges, given as sums over them: nothing passes the test, or the result is one of
-- the ranges and passes it.
abbrev pub Searches : ((Range → ℕ) → ℕ) → (Range → Bool) → Option Range → Type 0
Searches total test none = total (λ q. to_ℕ (test q)) ≡ 0
Searches total test (some r) = (test r ≡ true) × (0 < total (λ q. count_of q r))

equal_refl : (r : Range) → equal r r ≡ true
equal_refl r = (equal_iff r r).1 refl

pub first-Searches :
    (test : Range → Bool) (rs : List Range) → Searches (λ w. weigh w rs) test (first test rs)
unfolding first
first-Searches test [] = refl
first-Searches test (r ∷ rs) = elim (Bool-cases (test r)) [
  | inl e ↦ rw e (e, ground (arith, equal_refl r))
  | inr e ↦ rw (e, first) (step (first test rs) e (first-Searches test rs))
]
  where
    step :
        (o : Option Range)
        → test r ≡ false
        → Searches (λ w. weigh w rs) test o
        → Searches (λ w. weigh w (r ∷ rs)) test o
    step none e s = ground arith
    step (some x) e s = (s.0, omega (arith, s.1))

pub last-Searches :
    (test : Range → Bool) (rs : List Range) → Searches (λ w. weigh w rs) test (last test rs)
unfolding last
last-Searches test [] = refl
last-Searches test (r ∷ rs) = step (last test rs) (last-Searches test rs)
  where
    step :
        (o : Option Range)
        → Searches (λ w. weigh w rs) test o
        → Searches
            (λ w. weigh w (r ∷ rs))
            test
            (elim o [ none ↦ if test r then some r else none | some found ↦ some found ])
    step none s = elim (Bool-cases (test r)) [
      | inl e ↦ rw e (e, ground (arith, equal_refl r))
      | inr e ↦ rw e (ground arith)
    ]
    step (some x) s = (s.0, omega (arith, s.1))

-- Two searches in turn, through parts whose sums add up to the whole.
or_try-Searches :
    (t u s : (Range → ℕ) → ℕ) (test : Range → Bool) (o p : Option Range)
    → ((w : Range → ℕ) → s w ≡ t w + u w)
    → Searches t test o
    → Searches u test p
    → Searches s test (or_try o p)
or_try-Searches t u s test none none sum a b = omega (arith, sum (λ q. to_ℕ (test q)))
or_try-Searches t u s test none (some r) sum a b = (b.0, omega (arith, sum (λ q. count_of q r)))
or_try-Searches t u s test (some r) p sum a b = (a.0, omega (arith, sum (λ q. count_of q r)))

-- A part that is searched on a condition only, and has nothing to find otherwise.
skip-Searches :
    (t : (Range → ℕ) → ℕ) (test : Range → Bool) (go : Bool) (o : Option Range)
    → Searches t test o
    → (go ≡ false → t (λ q. to_ℕ (test q)) ≡ 0)
    → Searches t test (if go then o else none)
skip-Searches t test true o s e = s
skip-Searches t test false o s e = e refl

module _ (test : Range → Bool) (p : ℕ) where
  pub find_upper-Searches :
      (a least b : ℕ) (t : Node)
      → ((r : Range) → IsValid r → r.start + r.size ≤ p → test r ≡ false)
      → b < address_limit
      → IsTree a least b t
      → Searches (λ w. weight w t) test (find_upper test t p)
  unfolding find_upper
  find_upper-Searches a least b null far lim i = refl
  find_upper-Searches a least b (node total midpoint lower higher starts ends) far lim i =
      or_try-Searches (λ w. weight w lower) (λ w. weigh w starts + weight w higher) _ test _ _
        (λ w. refl)
        (skip-Searches (λ w. weight w lower) test (ltb p midpoint) _
          (find_upper-Searches a least midpoint lower far (omega (arith, i.0)) i.1)
          (λ e.
            weight-vanish a least midpoint _ lower i.1
              (λ r k. ap to_ℕ (far r k.valid (ground arith)))))
        (or_try-Searches (λ w. weigh w starts) (λ w. weight w higher) _ test _ _ (λ w. refl)
          (first-Searches test starts)
          (find_upper-Searches midpoint (suc midpoint) b higher far lim i.2))

  pub find_lower-Searches :
      (a least b : ℕ) (t : Node)
      → ((r : Range) → IsValid r → 0 < r.size → p < r.start → test r ≡ false)
      → b < address_limit
      → IsTree a least b t
      → Searches (λ w. weight w t) test (find_lower test t p)
  unfolding find_lower
  find_lower-Searches a least b null far lim i = refl
  find_lower-Searches a least b (node total midpoint lower higher starts ends) far lim i =
      or_try-Searches (λ w. weight w higher) (λ w. weigh w ends + weight w lower)
        (λ w. weight w lower + (weigh w starts + weight w higher)) test _ _
        (λ w. omega (arith, i.0.same w))
        (skip-Searches (λ w. weight w higher) test (leb midpoint p) _
          (find_lower-Searches midpoint (suc midpoint) b higher far lim i.2)
          (λ e.
            weight-vanish midpoint (suc midpoint) b _ higher i.2
              (λ r k. ap to_ℕ (far r k.valid k.nonempty (ground arith)))))
        (or_try-Searches (λ w. weigh w ends) (λ w. weight w lower) _ test _ _ (λ w. refl)
          (last-Searches test ends)
          (find_lower-Searches a least midpoint lower far (omega (arith, i.0)) i.1))

-- findUpperBoundOrOverlapping finds a range of the tree that contains the point or starts behind
-- it, exactly if the tree has one.
pub find_upper_bound_or_overlapping-Searches :
    (a least b : ℕ) (t : Node) (p : ℕ)
    → b < address_limit
    → IsTree a least b t
    → Searches
        (λ w. weight w t)
        (λ r. after_point p r || contains_point r p)
        (find_upper_bound_or_overlapping t p)
unfolding find_upper_bound_or_overlapping
find_upper_bound_or_overlapping-Searches a least b t p lim i =
    find_upper-Searches _ p a least b t
      (λ r v h. unfold after_point contains_point in ground (arith, end-IsValid r v)) lim i

-- findLowerBoundOrOverlapping finds a range of the tree that contains the point or ends at or before
-- it, exactly if the tree has one.
pub find_lower_bound_or_overlapping-Searches :
    (a least b : ℕ) (t : Node) (p : ℕ)
    → b < address_limit
    → IsTree a least b t
    → Searches
        (λ w. weight w t)
        (λ r. before_point r p || contains_point r p)
        (find_lower_bound_or_overlapping t p)
unfolding find_lower_bound_or_overlapping
find_lower_bound_or_overlapping-Searches a least b t p lim i =
    find_lower-Searches _ p a least b t
      (λ r v n h. unfold before_point contains_point in ground (arith, end-IsValid r v)) lim i
