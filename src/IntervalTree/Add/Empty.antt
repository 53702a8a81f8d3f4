-- ===== src/IntervalTree/Add/Empty.antt =====
-- `add` of src/util/intervaltree.cpp at an empty range, and the nodes that it makes on its way down.
use egalito.Base.{
  ℕ, zero, suc, ◌+◌, ◌≤◌, ◌<◌, ◌≡◌, refl, ap, ◌∙◌, inl, inr, true, false, arith, Bool-cases, leb,
}
use egalito.Base.Result.{ok, fail, Failure}
use egalito.Range.{Range, address_limit, end, contains_point, contains, before_point}
use egalito.Range.Laws.{IsValid, end-IsValid}
use egalito.IntervalTree.Invariant.{IsTree, IsThere}
use egalito.IntervalTree.Add.{child_or_new-IsChild}
use egalito.IntervalTree.{Node, null, node, add, child_or_new}

module _ (r : Range) (valid : IsValid r) (empty : r.size ≡ 0) where
  before_point-empty : (p : ℕ) → before_point r p ≡ leb r.start p
  unfolding before_point
  before_point-empty p = ground (arith, end-IsValid r)

  contains_point-empty : (p : ℕ) → contains_point r p ≡ false
  unfolding contains_point
  contains_point-empty p = ground (arith, end-IsValid r)

  contains-empty :
      (a b : ℕ) (total : Range)
      → total.start ≡ a
      → total.start + total.size ≡ b
      → b < address_limit
      → a ≤ r.start
      → r.start ≤ b
      → contains total r ≡ true
  unfolding contains
  contains-empty a b total h k lim from to = ground (arith, end-IsValid total, end-IsValid r)

  -- However much fuel `add` is given, it uses it up on an empty range inside the node's range:
  -- the recursion of the source does not end.
  pub add-empty :
      (fuel a least b : ℕ) (t : Node)
      → b < address_limit
      → IsThere t
      → IsTree a least b t
      → a ≤ r.start
      → r.start ≤ b
      → add fuel t r ≡ fail Failure.out_of_fuel
  unfolding add
  add-empty zero a least b t lim there i from to = refl
  add-empty (suc k) a least b null lim there i from to = elim there [ ]
  add-empty (suc k) a least b (node total midpoint lower higher starts ends) lim there i from to =
      let inside = contains-empty a b total i.0.begins i.0.finishes lim from to in
      elim (Bool-cases (leb r.start midpoint)) [
        | inl e ↦
            let (c, made, child) =
              child_or_new-IsChild a least midpoint lower (omega (arith, i.0)) (omega (arith, i.0))
                i.0.least_from i.0.least_to i.1 in
            let made' : child_or_new lower total.start midpoint ≡ ok c =
              ap (λ s. child_or_new lower s midpoint) i.0.begins ∙ made in
            let run =
              add-empty k a least midpoint c (omega (arith, i.0)) child.there child.tree from
                (ground arith) in
            simp (inside, before_point-empty midpoint, e, made', run)
        | inr e ↦
            let (c, made, child) =
              child_or_new-IsChild midpoint (suc midpoint) b higher (omega (arith, i.0)) lim
                (omega arith) (omega arith) i.2 in
            let made' : child_or_new higher midpoint (end total) ≡ ok c =
              rw (end-IsValid total (omega (arith, i.0)), i.0.finishes) made in
            let run =
              add-empty k midpoint (suc midpoint) b c lim child.there child.tree (ground arith)
                to in
            simp (inside, before_point-empty midpoint, e, contains_point-empty midpoint, made', run)
      ]
