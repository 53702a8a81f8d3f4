-- ===== src/IntervalTree/Tree/Split.antt =====
-- `splitAt` of src/util/intervaltree.cpp.
use egalito.Base.{
  ℕ, ◌+◌, ◌≤◌, ◌<◌, ◌≡◌, refl, ap, inl, inr, Bool, true, false, List, [], ◌∷◌, ◌&&◌, arith,
  Bool-cases, ltb, ◌==◌, to_ℕ,
}
use egalito.Base.Result.{Returns}
use egalito.Range.{Range, address_limit, contains_point}
use egalito.Range.Laws.{end-IsValid, equal_iff}
use egalito.IntervalTree.Weight.{weigh, weight, only, count_of, covers, weight-add}
use egalito.IntervalTree.Invariant.{Within, weight-vanish, weight-le}
use egalito.IntervalTree.Remove.{remove-Removes}
use egalito.IntervalTree.Overlapping.{weigh-find_overlapping_point}
use egalito.IntervalTree.Bounds.Nearest.{member-Within, weight_mono}
use egalito.IntervalTree.Tree.Cut.{IsRoot, piece, add_piece-Adds, only-member}
use egalito.IntervalTree.Tree.Union.{total_range-IsRoot}
use egalito.IntervalTree.Tree.{split_range, split_found, split_at}
use egalito.IntervalTree.{Node, total_range, find_overlapping_point}

-- A point strictly inside a range.
abbrev pub is_inside : ℕ → Range → Bool
is_inside p r = ltb r.start p && ltb p (r.start + r.size)

-- What splitting at `p` does: every address stays covered as often, and if it succeeds then `p` lies
-- strictly inside no range any more; if not, the tree is unchanged.
pub record Splits (a b p : ℕ) (t : Node) (split : Bool) (t' : Node) : Type 0 where
  pub root : IsRoot a b t'
  pub kept : (q : ℕ) → weight (covers q) t' ≡ weight (covers q) t
  pub divided : split ≡ true → weight (λ r. to_ℕ (is_inside p r)) t' ≡ 0
  pub unchanged : split ≡ false → t' ≡ t

module _ (a b p : ℕ) (t : Node) (lim : b < address_limit) (root : IsRoot a b t)
    (one : weight (covers p) t ≡ 1) (r : Range) (holds : contains_point r p ≡ true)
    (member : 0 < weight (λ q. count_of q r) t) where
  within : Within a b r
  within = member-Within a a b t r root.tree member

  bounds : (r.start ≤ p) × (p < r.start + r.size)
  unfolding contains_point
  bounds = ground (arith, end-IsValid r within.valid)

  -- At its start the range holds the point, and no other range does.
  at_start : r.start ≡ p → weight (λ q. to_ℕ (is_inside p q)) t ≡ 0
  at_start e = omega (
    arith,
    one,
    member,
    weight-add (λ q. to_ℕ (is_inside p q)) (λ q. count_of q r) t,
    weight_mono-Within (λ q. to_ℕ (is_inside p q) + count_of q r) (covers p) pointwise,
  )
    where
      weight_mono-Within :
          (v w : Range → ℕ) → ((q : Range) → Within a b q → v q ≤ w q) → weight v t ≤ weight w t
      weight_mono-Within v w h = weight-le a a b v w t root.tree h

      pointwise : (q : Range) → Within a b q → to_ℕ (is_inside p q) + count_of q r ≤ covers p q
      pointwise q k =
          unfold contains_point in
          ground (
            arith,
            end-IsValid q k.valid,
            (equal_iff q r).0,
            ap (λ (x : Range). x.start) {x = q} {y = r},
            ap (λ (x : Range). x.size) {x = q} {y = r},
          )

  inside_le : weight (λ q. to_ℕ (is_inside p q)) t ≤ 1
  inside_le = omega (
    arith,
    one,
    weight-le a a b (λ q. to_ℕ (is_inside p q)) (covers p) t root.tree
        (λ q k. unfold contains_point in ground (arith, end-IsValid q k.valid)),
  )

  -- The two halves cover what the range covers.
  halves : (q : ℕ) → covers q (piece r.start p) + covers q (piece p (r.start + r.size)) ≡ covers q r
  unfolding contains_point
  halves q = ground (
    arith,
    bounds,
    within.valid,
    end-IsValid r within.valid,
    end-IsValid (piece r.start p),
    end-IsValid (piece p (r.start + r.size)),
  )

  split_range-Splits :
      Returns (split_range t r p) (λ res. (res.0 ≡ true) × Splits a b p t res.0 res.1)
  unfolding split_range
  split_range-Splits = elim (Bool-cases (p == r.start)) [
    | inl e ↦ (
      (true, t),
      rw e,
      (
        refl,
        record {
          root = root;
          kept = λ q. refl;
          divided = λ _. at_start (ground arith);
          unchanged = λ _. refl;
        },
      ),
    )
    | inr e ↦
        let behind : r.start < p = ground (arith, bounds) in
        let apart : (p == r.start + r.size) ≡ false = ground (arith, bounds) in
        let (res, run, gone) =
          remove-Removes a a b t r lim root.tree within.valid within.nonempty in
        let found : res.0 ≡ true = ground (arith, gone.found, member) in
        let (t₂, run₂, (root₂, sum₂)) =
          add_piece-Adds a b res.1 r.start p lim
            (record { tree = gone.tree; there = gone.there root.there }) within.from behind
            (omega (arith, bounds, within)) in
        let (t₃, run₃, (root₃, sum₃)) =
          add_piece-Adds a b t₂ p (r.start + r.size) lim root₂ (omega (arith, within)) bounds.1
            within.to in
        let gone' : (w : Range → ℕ) → weight w res.1 + w r ≡ weight w t =
          λ w. ground (arith, gone.sum w, found) in
        (
          (true, t₃),
          simp (end-IsValid r within.valid, e, apart, run, run₂, run₃),
          (
            refl,
            record {
              root = root₃;
              kept =
                  λ q. omega (arith, gone' (covers q), sum₂ (covers q), sum₃ (covers q), halves q);
              divided = λ _. ground (
                arith,
                gone' (λ x. to_ℕ (is_inside p x)),
                sum₂ (λ x. to_ℕ (is_inside p x)),
                sum₃ (λ x. to_ℕ (is_inside p x)),
                inside_le,
                bounds,
              );
              unchanged = λ h. cc;
            },
          ),
        )
  ]

covered :
    (p : ℕ) (t : Node) → weight (only (λ q. contains_point q p) (λ _. 1)) t ≡ weight (covers p) t
covered p t =
    let le : weight (only (λ q. contains_point q p) (λ _. 1)) t ≤ weight (covers p) t =
      weight_mono _ (covers p) t (λ r. ground arith) in
    let ge : weight (covers p) t ≤ weight (only (λ q. contains_point q p) (λ _. 1)) t =
      weight_mono (covers p) _ t (λ r. ground arith) in
    omega arith

self : (r : Range) → count_of r r ≡ 1
self r = ap to_ℕ ((equal_iff r r).1 refl)

split_found-Splits :
    (a b p : ℕ) (t : Node) (rs : List Range)
    → b < address_limit
    → IsRoot a b t
    → ((w : Range → ℕ) → weigh w rs ≡ weight (only (λ q. contains_point q p) w) t)
    → Returns
        (split_found t rs p)
        (λ res. (res.0 ≡ (weight (covers p) t == 1)) × Splits a b p t res.0 res.1)
unfolding split_found
split_found-Splits a b p t [] lim root sum = (
  (false, t),
  refl,
  (
    ground (arith, sum (λ _. 1), covered p t),
    record { root = root; kept = λ q. refl; divided = λ h. cc; unchanged = λ _. refl },
  ),
)
split_found-Splits a b p t (r ∷ []) lim root sum =
    let one : weight (covers p) t ≡ 1 = omega (arith, sum (λ _. 1), covered p t) in
    let (holds, member) =
      only-member (λ q. contains_point q p) t r (omega (arith, sum (λ q. count_of q r), self r)) in
    let (res, run, (split, done)) = split_range-Splits a b p t lim root one r holds member in
    (res, run, (ground (arith, one, split), done))
split_found-Splits a b p t (r ∷ q ∷ rs) lim root sum = (
  (false, t),
  refl,
  (
    ground (arith, sum (λ _. 1), covered p t),
    record { root = root; kept = λ q. refl; divided = λ h. cc; unchanged = λ _. refl },
  ),
)

-- `splitAt` succeeds exactly if the point lies in exactly one range of the tree. In any case no
-- assertion fails and every address stays covered as often; after success no range has the point
-- strictly inside, and after failure the tree is unchanged.
pub split_at-Splits :
    (a b p : ℕ) (t : Node)
    → b < address_limit
    → IsRoot a b t
    → Returns
        (split_at t p)
        (λ res. (res.0 ≡ (weight (covers p) t == 1)) × Splits a b p t res.0 res.1)
unfolding split_at
split_at-Splits a b p t lim root = elim (Bool-cases (contains_point (total_range t) p)) [
  | inl e ↦ rw e (
      split_found-Splits a b p t (find_overlapping_point t p) lim root
        (λ w. weigh-find_overlapping_point w a a b t p lim root.tree))
  | inr e ↦
      let none : weight (covers p) t ≡ 0 = weight-vanish a a b (covers p) t root.tree (λ q k.
        unfold contains_point in
        ground (
          arith,
          e,
          end-IsValid q k.valid,
          end-IsValid (total_range t),
          (total_range-IsRoot a b t root).0,
          (total_range-IsRoot a b t root).1,
        )) in
      (
        (false, t),
        rw e,
        (
          ground (arith, none),
          record { root = root; kept = λ q. refl; divided = λ h. cc; unchanged = λ _. refl },
        ),
      )
]
