-- ===== src/IntervalTree/Remove.antt =====
-- `remove` of src/util/intervaltree.cpp: its assertion, the invariant, and the copy that it takes out.
use egalito.Base.{
  ℕ, suc, ◌+◌, ◌≤◌, ◌<◌, ◌≡◌, refl, ◌⊎◌, inl, inr, Bool, true, false, List, [], ◌∷◌, arith,
  Bool-cases, if◌then◌else◌, leb, ltb, ap,
}
use egalito.Base.Result.{Returns}
use egalito.Range.{Range, address_limit, before_point, after_point, equal}
use egalito.Range.Laws.{IsValid, end-IsValid, equal_iff}
use egalito.IntervalTree.Weight.{weigh, weight, All, count_of, weigh_congr, weigh-zero}
use egalito.IntervalTree.Invariant.{
  AreSortedByStart, AreSortedByEnd, IsTree, IsThere, weight-vanish,
}
use egalito.IntervalTree.{Node, null, node, remove, remove_here, erase_first}

All-erase_first :
    (P : Range → Type 0) (r : Range) (xs : List Range) → All P xs → All P (erase_first r xs).1
unfolding erase_first
All-erase_first P r [] a = tt
All-erase_first P r (x ∷ xs) a = elim (Bool-cases (equal x r)) [
  | inl e ↦ rw (e, erase_first) (a.1)
  | inr e ↦ rw (e, erase_first) ((a.0, All-erase_first P r xs a.1))
]

erase_first-AreSortedByStart :
    (r : Range) (xs : List Range) → AreSortedByStart xs → AreSortedByStart (erase_first r xs).1
unfolding erase_first
erase_first-AreSortedByStart r [] a = tt
erase_first-AreSortedByStart r (x ∷ xs) a = elim (Bool-cases (equal x r)) [
  | inl e ↦ rw (e, erase_first) (a.1)
  | inr e ↦
      rw (e, erase_first)
        ((All-erase_first (λ q. x.start ≤ q.start) r xs a.0, erase_first-AreSortedByStart r xs a.1))
]

erase_first-AreSortedByEnd :
    (r : Range) (xs : List Range) → AreSortedByEnd xs → AreSortedByEnd (erase_first r xs).1
unfolding erase_first
erase_first-AreSortedByEnd r [] a = tt
erase_first-AreSortedByEnd r (x ∷ xs) a = elim (Bool-cases (equal x r)) [
  | inl e ↦ rw (e, erase_first) (a.1)
  | inr e ↦
      rw (e, erase_first)
        ((
          All-erase_first (λ q. q.start + q.size ≤ x.start + x.size) r xs a.0,
          erase_first-AreSortedByEnd r xs a.1,
        ))
]

equal-weight : (x r : Range) (w : Range → ℕ) → equal x r ≡ true → w x ≡ w r
equal-weight x r w e = ap w ((equal_iff x r).0 e)

-- The range is found exactly if it occurs, and one copy of it goes.
weigh-erase_first :
    (w : Range → ℕ) (r : Range) (xs : List Range)
    → weigh w (erase_first r xs).1 + (if (erase_first r xs).0 then w r else 0) ≡ weigh w xs
unfolding erase_first
weigh-erase_first w r [] = refl
weigh-erase_first w r (x ∷ xs) = ground (arith, equal-weight x r w, weigh-erase_first w r xs)

found-erase_first :
    (r : Range) (xs : List Range) → (erase_first r xs).0 ≡ ltb 0 (weigh (λ q. count_of q r) xs)
unfolding erase_first
found-erase_first r [] = refl
found-erase_first r (x ∷ xs) = ground (arith, found-erase_first r xs)

-- What `remove` does to a tree over [a, b): `removed` says whether the range was there.
pub record Removes (a least b : ℕ) (r : Range) (t : Node) (removed : Bool) (t' : Node)
    : Type 0 where
  pub tree : IsTree a least b t'
  pub there : IsThere t → IsThere t'
  pub found : removed ≡ ltb 0 (weight (λ q. count_of q r) t)
  pub sum : (w : Range → ℕ) → weight w t' + (if removed then w r else 0) ≡ weight w t

module _ (a least b : ℕ) (total : Range) (midpoint : ℕ) (lower higher : Node)
    (starts ends : List Range) (r : Range) (lim : b < address_limit)
    (tree : IsTree a least b (node total midpoint lower higher starts ends)) (valid : IsValid r)
    (nonempty : 0 < r.size) where
  -- Where the tests of `remove` send it, the range cannot stand elsewhere.
  not_below : midpoint < r.start + r.size → weight (λ q. count_of q r) lower ≡ 0
  unfolding equal
  not_below h = weight-vanish a least midpoint _ lower tree.1 (λ q k. ground arith)

  not_above : r.start ≤ midpoint → weight (λ q. count_of q r) higher ≡ 0
  unfolding equal
  not_above h = weight-vanish midpoint (suc midpoint) b _ higher tree.2 (λ q k. ground arith)

  not_here :
      (midpoint < r.start) ⊎ (r.start + r.size ≤ midpoint) → weigh (λ q. count_of q r) starts ≡ 0
  unfolding equal
  not_here h = omega (
    arith,
    weigh_congr (λ q. count_of q r) (λ _. 0) starts tree.0.held (λ q k. ground arith),
    weigh-zero starts,
  )

  before_point-eq : before_point r midpoint ≡ leb (r.start + r.size) midpoint
  unfolding before_point
  before_point-eq = rw (end-IsValid r valid)

  found_alike : (erase_first r starts).0 ≡ (erase_first r ends).0
  found_alike =
      ground (
        arith,
        found-erase_first r starts,
        found-erase_first r ends,
        tree.0.same (λ q. count_of q r),
      )

  Removes-here :
      midpoint < r.start + r.size
      → r.start ≤ midpoint
      → Removes a least b r
          (node total midpoint lower higher starts ends)
          (erase_first r starts).0
          (node total midpoint lower higher (erase_first r starts).1 (erase_first r ends).1)
  Removes-here h k = record {
    tree = (
      record {
        least_from = tree.0.least_from;
        least_to = tree.0.least_to;
        begins = tree.0.begins;
        finishes = tree.0.finishes;
        middle = tree.0.middle;
        held = All-erase_first _ r starts tree.0.held;
        held_ends = All-erase_first _ r ends tree.0.held_ends;
        sorted = erase_first-AreSortedByStart r starts tree.0.sorted;
        sorted_ends = erase_first-AreSortedByEnd r ends tree.0.sorted_ends;
        same = λ w. ground (
          arith,
          weigh-erase_first w r starts,
          weigh-erase_first w r ends,
          tree.0.same w,
          found_alike,
        );
      },
      tree.1,
      tree.2,
    );
    there = λ _. tt;
    found = ground (arith, found-erase_first r starts, not_below h, not_above k);
    sum = λ w. omega (arith, weigh-erase_first w r starts);
  }

-- For a range that is not empty and does not wrap, `remove` never fails its assertion on a well-formed
-- tree: it returns true exactly if the range is there, keeps the invariant, and takes out one copy of the range and nothing else.
pub remove-Removes :
    (a least b : ℕ) (t : Node) (r : Range)
    → b < address_limit
    → IsTree a least b t
    → IsValid r
    → 0 < r.size
    → Returns (remove t r) (λ res. Removes a least b r t res.0 res.1)
unfolding remove remove_here after_point
remove-Removes a least b null r lim i v n =
    ((false, null), refl, record { tree = tt; there = λ h. h; found = refl; sum = λ w. refl })
remove-Removes a least b (node total midpoint lower higher starts ends) r lim i v n =
    let before = before_point-eq a least b total midpoint lower higher starts ends r lim i v n in
    elim (Bool-cases (leb (r.start + r.size) midpoint)) [
      | inl e ↦
          let (res, run, done) =
            remove-Removes a least midpoint lower r (omega (arith, i.0)) i.1 v n in
          let above =
            not_above a least b total midpoint lower higher starts ends r lim i v n
              (ground arith) in
          let here =
            not_here a least b total midpoint lower higher starts ends r lim i v n
              (inr (ground arith)) in
          (
            (res.0, node total midpoint res.1 higher starts ends),
            simp (before, e, run),
            record {
              tree = (i.0, done.tree, i.2);
              there = λ _. tt;
              found = ground (arith, done.found, above, here);
              sum = λ w. omega (arith, done.sum w);
            },
          )
      | inr e ↦ elim (Bool-cases (ltb midpoint r.start)) [
        | inl e' ↦
            let (res, run, done) = remove-Removes midpoint (suc midpoint) b higher r lim i.2 v n in
            let below =
              not_below a least b total midpoint lower higher starts ends r lim i v n
                (ground arith) in
            let here =
              not_here a least b total midpoint lower higher starts ends r lim i v n
                (inl (ground arith)) in
            (
              (res.0, node total midpoint lower res.1 starts ends),
              simp (before, e, e', run),
              record {
                tree = (i.0, i.1, done.tree);
                there = λ _. tt;
                found = ground (arith, done.found, below, here);
                sum = λ w. omega (arith, done.sum w);
              },
            )
        | inr e' ↦
            let alike = found_alike a least b total midpoint lower higher starts ends r lim i v n in
            let here =
              Removes-here a least b total midpoint lower higher starts ends r lim i v n
                (ground arith) (ground arith) in
            (
              (
                (erase_first r starts).0,
                node total midpoint lower higher (erase_first r starts).1 (erase_first r ends).1,
              ),
              simp (before, e, e', ← alike) (ground arith),
              here,
            )
      ]
    ]
