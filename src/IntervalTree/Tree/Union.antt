-- ===== src/IntervalTree/Tree/Union.antt =====
-- `unionWith` of src/util/intervaltree.cpp: the ranges of the other tree, within the total range of this
-- one or not.
use egalito.Base.{
  ℕ, suc, ◌+◌, ◌<◌, ◌≡◌, refl, ◌∙◌, ◌&&◌, inl, inr, Bool, false, List, [], ◌∷◌, arith, Bool-cases,
  leb,
}
use egalito.Base.Result.{ok, Returns}
use egalito.Range.{Range, address_limit, contains}
use egalito.Range.Laws.{IsValid, end-IsValid}
use egalito.IntervalTree.Weight.{weigh, weight, only, All, weigh-in_start_order}
use egalito.IntervalTree.Invariant.{Within, IsThere, All-map, in_start_order-Within}
use egalito.IntervalTree.Add.{add-Adds}
use egalito.IntervalTree.Tree.{add_all, union_with}
use egalito.IntervalTree.Tree.Cut.{IsRoot}
use egalito.IntervalTree.{Node, null, node, add, total_range, in_start_order}

-- A range that does not lie within the total range is refused.
add-outside :
    (k : ℕ) (t : Node) (r : Range)
    → IsThere t
    → contains (total_range t) r ≡ false
    → add (suc k) t r ≡ ok (false, t)
unfolding add total_range
add-outside k null r there e = elim there [ ]
add-outside k (node total midpoint lower higher starts ends) r there e = simp e

-- The root of a tree over [a, b) has this range as its total range.
pub total_range-IsRoot :
    (a b : ℕ) (t : Node)
    → IsRoot a b t
    → ((total_range t).start ≡ a) × ((total_range t).start + (total_range t).size ≡ b)
unfolding total_range
total_range-IsRoot a b null root = elim (root.there) [ ]
total_range-IsRoot a b (node total midpoint lower higher starts ends) root =
    (root.tree.0.begins, root.tree.0.finishes)

fits : ℕ → ℕ → Range → Bool
fits a b r = leb a r.start && leb (r.start + r.size) b

contains-fits :
    (a b : ℕ) (t : Node) (r : Range)
    → b < address_limit
    → IsRoot a b t
    → IsValid r
    → contains (total_range t) r ≡ fits a b r
unfolding contains fits
contains-fits a b t r lim root v = ground (
  arith,
  end-IsValid (total_range t),
  end-IsValid r,
  (total_range-IsRoot a b t root).0,
  (total_range-IsRoot a b t root).1,
)

add_all-IsRoot :
    (a b : ℕ) (rs : List Range) (t : Node)
    → b < address_limit
    → IsRoot a b t
    → All (λ r. IsValid r × (0 < r.size)) rs
    → Returns (add_all rs t) (λ t'.
      IsRoot a b t' × ((w : Range → ℕ) → weight w t' ≡ weight w t + weigh (only (fits a b) w) rs))
unfolding add_all
add_all-IsRoot a b [] t lim root good = (t, refl, (root, λ w. omega arith))
add_all-IsRoot a b (r ∷ rs) t lim root good = elim (Bool-cases (fits a b r)) [
  | inl e ↦
      let within : Within a b r =
        unfold fits in
        record { valid = good.0.0; nonempty = good.0.1; from = ground arith; to = ground arith } in
      let (res, run, (_, adds)) =
        add-Adds 64 a a b t r lim (omega arith) root.there root.tree within in
      let (t', run', (root', sum)) =
        add_all-IsRoot a b rs res.1 lim (record { tree = adds.tree; there = adds.there }) good.1 in
      (t', simp (run, run'), (root', λ w. rw e (omega (arith, sum w, adds.sum w))))
  | inr e ↦
      let run = add-outside 64 t r root.there (contains-fits a b t r lim root good.0.0 ∙ e) in
      let (t', run', (root', sum)) = add_all-IsRoot a b rs t lim root good.1 in
      (t', simp (run, run'), (root', λ w. rw e (omega (arith, sum w))))
]

-- `unionWith` succeeds and keeps the invariant; afterwards the tree has its own ranges and those of
-- the other tree that lie within its total range, each as often as both trees together.
pub union_with-IsRoot :
    (a b c d : ℕ) (t other : Node)
    → b < address_limit
    → IsRoot a b t
    → IsRoot c d other
    → Returns (union_with t other) (λ t'.
      IsRoot a b t'
      × ((w : Range → ℕ)
          → weight w t'
            ≡ weight w t + weight (only (λ r. leb a r.start && leb (r.start + r.size) b) w) other))
unfolding union_with fits
union_with-IsRoot a b c d t other lim root oroot =
    let (t', run, (root', sum)) = add_all-IsRoot a b (in_start_order other) t lim root (
      All-map (in_start_order other) (λ r w. (w.valid, w.nonempty))
        (in_start_order-Within c c d other oroot.tree)) in
    (
      t',
      run,
      (
        root',
        λ w. omega (
          arith,
          sum w,
          weigh-in_start_order (only (λ r. leb a r.start && leb (r.start + r.size) b) w) other,
        ),
      ),
    )
