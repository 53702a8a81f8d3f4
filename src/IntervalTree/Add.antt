-- ===== src/IntervalTree/Add.antt =====
-- `add` of src/util/intervaltree.cpp: the levels that it needs, the invariant, and the range that it
-- adds. Empty is about empty ranges.
pub mod Empty
use egalito.Base.{
  ℕ, zero, suc, ◌+◌, ◌-◌, ◌*◌, ◌/◌, ◌^◌, ◌≤◌, ◌<◌, ◌≡◌, refl, ap, ◌∙◌, ◌⊎◌, inl, inr, ◌≢◌, Bool,
  true, false, List, [], ◌∷◌, arith, Bool-cases, if◌then◌else◌, leb, ltb, ◌&&◌,
}
use native.Mathlib.Nat.{pow-suc}
use egalito.Base.Result.{Result, ok, fail, Failure, Returns, ◌>>=◌}
use egalito.Range.{
  Range, address_limit, end, contains_point, contains, before_point, less, from_endpoints,
}
use egalito.Range.Laws.{IsValid, end-IsValid}
use egalito.IntervalTree.Weight.{weigh, weight, All}
use egalito.IntervalTree.Invariant.{
  Within, Holds, AreSortedByStart, AreSortedByEnd, IsNode, IsTree, IsThere, All-map,
}
use egalito.IntervalTree.{
  Node, null, node, new_node, add, sort_in, ends_later, child_or_new, total_range,
}

pub weigh-sort_in :
    (w : Range → ℕ) (before : Range → Range → Bool) (r : Range) (xs : List Range)
    → weigh w (sort_in before r xs) ≡ w r + weigh w xs
unfolding sort_in
weigh-sort_in w before r [] = omega arith
weigh-sort_in w before r (x ∷ xs) = ground (arith, weigh-sort_in w before r xs)

All-sort_in :
    (P : Range → Type 0) (before : Range → Range → Bool) (r : Range) (xs : List Range)
    → P r
    → All P xs
    → All P (sort_in before r xs)
unfolding sort_in
All-sort_in P before r [] p a = (p, tt)
All-sort_in P before r (x ∷ xs) p a = elim (Bool-cases (before r x)) [
  | inl e ↦ rw e (p, a)
  | inr e ↦ rw e (a.0, All-sort_in P before r xs p a.1)
]

sort_in-AreSortedByStart :
    (r : Range) (xs : List Range) → AreSortedByStart xs → AreSortedByStart (sort_in less r xs)
unfolding sort_in less
sort_in-AreSortedByStart r [] s = (tt, tt)
sort_in-AreSortedByStart r (x ∷ xs) s = elim (Bool-cases (less r x)) [
  | inl e ↦
      let first : r.start ≤ x.start = ground arith in
      rw (e, sort_in) ((first, All-map xs (λ q h. omega arith) s.0), s)
  | inr e ↦
      let last : x.start ≤ r.start = ground arith in
      rw (e, sort_in)
        (All-sort_in (λ q. x.start ≤ q.start) less r xs last s.0, sort_in-AreSortedByStart r xs s.1)
]

sort_in-AreSortedByEnd :
    (r : Range) (xs : List Range)
    → IsValid r
    → All IsValid xs
    → AreSortedByEnd xs
    → AreSortedByEnd (sort_in ends_later r xs)
unfolding sort_in ends_later
sort_in-AreSortedByEnd r [] v a s = (tt, tt)
sort_in-AreSortedByEnd r (x ∷ xs) v a s = elim (Bool-cases (ends_later r x)) [
  | inl e ↦
      let first : x.start + x.size ≤ r.start + r.size =
        ground (arith, end-IsValid r v, end-IsValid x a.0) in
      rw (e, sort_in) ((first, All-map xs (λ q h. omega arith) s.0), s)
  | inr e ↦
      let last : r.start + r.size ≤ x.start + x.size =
        ground (arith, end-IsValid r v, end-IsValid x a.0) in
      rw (e, sort_in)
        (
          All-sort_in (λ q. q.start + q.size ≤ x.start + x.size) ends_later r xs last s.0,
          sort_in-AreSortedByEnd r xs v a.1 s.1,
        )
]

-- What `add` does to a tree over [a, b).
pub record Adds (a least b : ℕ) (r : Range) (t t' : Node) : Type 0 where
  pub tree : IsTree a least b t'
  pub there : IsThere t'
  pub sum : (w : Range → ℕ) → weight w t' ≡ weight w t + w r

-- What `child_or_new` gives: a node over [a, b) with the ranges of the child that was there.
pub record IsChild (a least b : ℕ) (t t' : Node) : Type 0 where
  pub tree : IsTree a least b t'
  pub there : IsThere t'
  pub sum : (w : Range → ℕ) → weight w t' ≡ weight w t

pub child_or_new-IsChild :
    (a least b : ℕ) (t : Node)
    → a ≤ b
    → b < address_limit
    → a ≤ least
    → least ≤ suc a
    → IsTree a least b t
    → Returns (child_or_new t a b) (IsChild a least b t)
unfolding child_or_new from_endpoints
child_or_new-IsChild a least b null h lim f g i = (
  new_node (record { start = a; size = b - a }),
  ground arith,
  record {
    tree = (
      record {
        least_from = f;
        least_to = g;
        begins = refl;
        finishes = omega arith;
        middle = omega arith;
        held = tt;
        held_ends = tt;
        sorted = tt;
        sorted_ends = tt;
        same = λ w. refl;
      },
      tt,
      tt,
    );
    there = tt;
    sum = λ w. refl;
  },
)
child_or_new-IsChild a least b (node total midpoint lower higher starts ends) h lim f g i = (
  node total midpoint lower higher starts ends,
  refl,
  record { tree = i; there = tt; sum = λ w. refl },
)

module _ (a least b : ℕ) (total : Range) (midpoint : ℕ) (lower higher : Node)
    (starts ends : List Range) (r : Range) (lim : b < address_limit)
    (tree : IsTree a least b (node total midpoint lower higher starts ends))
    (w : Within least b r) where
  abbrev whole : Node
  whole = node total midpoint lower higher starts ends

  abbrev with_lower : Node → Node
  with_lower child = node total midpoint child higher starts ends

  abbrev with_higher : Node → Node
  with_higher child = node total midpoint lower child starts ends

  Adds-lower :
      (c c' : Node)
      → IsChild a least midpoint lower c
      → Adds a least midpoint r c c'
      → Adds a least b r whole (with_lower c')
  Adds-lower c c' k d = record {
    tree = (tree.0, d.tree, tree.2);
    there = tt;
    sum = λ v. omega (arith, k.sum v, d.sum v);
  }

  Adds-higher :
      (c c' : Node)
      → IsChild midpoint (suc midpoint) b higher c
      → Adds midpoint (suc midpoint) b r c c'
      → Adds a least b r whole (with_higher c')
  Adds-higher c c' k d = record {
    tree = (tree.0, tree.1, d.tree);
    there = tt;
    sum = λ v. omega (arith, k.sum v, d.sum v);
  }

  Adds-here :
      Holds least b midpoint r
      → Adds a least b r whole
          (node total midpoint lower higher (sort_in less r starts) (sort_in ends_later r ends))
  Adds-here h = record {
    tree = (
      record {
        least_from = tree.0.least_from;
        least_to = tree.0.least_to;
        begins = tree.0.begins;
        finishes = tree.0.finishes;
        middle = tree.0.middle;
        held = All-sort_in (Holds least b midpoint) less r starts h tree.0.held;
        held_ends = All-sort_in (Holds least b midpoint) ends_later r ends h tree.0.held_ends;
        sorted = sort_in-AreSortedByStart r starts tree.0.sorted;
        sorted_ends =
            sort_in-AreSortedByEnd r ends w.valid
              (All-map ends (λ q k. k.within.valid) tree.0.held_ends) tree.0.sorted_ends;
        same = λ v. omega (
          arith,
          weigh-sort_in v less r starts,
          weigh-sort_in v ends_later r ends,
          tree.0.same v,
        );
      },
      tree.1,
      tree.2,
    );
    there = tt;
    sum = λ v. omega (arith, weigh-sort_in v less r starts);
  }

  -- Where `add` goes on: the tests of its branches, read as orders.
  contains-total : contains total r ≡ true
  unfolding contains
  contains-total = ground (arith, end-IsValid total (omega arith), end-IsValid r w.valid)

  before_point-eq : before_point r midpoint ≡ leb (r.start + r.size) midpoint
  unfolding before_point
  before_point-eq = rw (end-IsValid r w.valid)

  contains_point-eq :
      contains_point r midpoint ≡ leb r.start midpoint && ltb midpoint (r.start + r.size)
  unfolding contains_point
  contains_point-eq = rw (end-IsValid r w.valid)

-- `add` succeeds on a range of the node that is not empty: with one level more than the exponent
-- of a power of two that bounds the node's size it ends, without a failed assertion or a null
-- pointer; it returns true, keeps the invariant, and adds the one range and nothing else.
pub add-Adds :
    (k a least b : ℕ) (t : Node) (r : Range)
    → b < address_limit
    → b ≤ a + 2 ^ k
    → IsThere t
    → IsTree a least b t
    → Within least b r
    → Returns (add (suc k) t r) (λ res. (res.0 ≡ true) × Adds a least b r t res.1)
unfolding add
add-Adds k a least b null r lim size there i w = elim there [ ]
add-Adds zero a least b (node total midpoint lower higher starts ends) r lim size there i w =
    let inside = contains-total a least b total midpoint lower higher starts ends r lim i w in
    let holds : Holds least b midpoint r = record {
      within = w;
      before = omega (arith, i.0);
      behind = omega (arith, i.0);
    } in
    (
      (true, node total midpoint lower higher (sort_in less r starts) (sort_in ends_later r ends)),
      ground (
        arith,
        inside,
        before_point-eq a least b total midpoint lower higher starts ends r lim i w,
        contains_point-eq a least b total midpoint lower higher starts ends r lim i w,
      ),
      (refl, Adds-here a least b total midpoint lower higher starts ends r lim i w holds),
    )
add-Adds (suc k) a least b (node total midpoint lower higher starts ends) r lim size there i w =
    let inside = contains-total a least b total midpoint lower higher starts ends r lim i w in
    let before = before_point-eq a least b total midpoint lower higher starts ends r lim i w in
    let point = contains_point-eq a least b total midpoint lower higher starts ends r lim i w in
    let split : 2 ^ suc k ≡ 2 ^ k * 2 = pow-suc 2 k in
    elim (Bool-cases (leb (r.start + r.size) midpoint)) [
      | inl e ↦
          let (c, made, child) =
            child_or_new-IsChild a least midpoint lower (omega (arith, i.0)) (omega (arith, i.0))
              i.0.least_from i.0.least_to i.1 in
          let made' : child_or_new lower total.start midpoint ≡ ok c =
            ap (λ s. child_or_new lower s midpoint) i.0.begins ∙ made in
          let (res, run, (yes', adds)) =
            add-Adds k a least midpoint c r (omega (arith, i.0)) (omega (arith, i.0)) child.there
              child.tree
              (record {
                valid = w.valid;
                nonempty = w.nonempty;
                from = w.from;
                to = ground arith;
              }) in
          (
            (res.0, node total midpoint res.1 higher starts ends),
            simp (inside, before, e, made', run),
            (
              yes',
              Adds-lower a least b total midpoint lower higher starts ends r lim i w c res.1 child
                  adds,
            ),
          )
      | inr e ↦ elim (Bool-cases (leb r.start midpoint)) [
        | inl e' ↦
            let holds : Holds least b midpoint r = record {
              within = w;
              before = ground arith;
              behind = ground arith;
            } in
            (
              (
                true,
                node total midpoint lower higher (sort_in less r starts)
                    (sort_in ends_later r ends),
              ),
              ground (arith, inside, before, point),
              (refl, Adds-here a least b total midpoint lower higher starts ends r lim i w holds),
            )
        | inr e' ↦
            let beyond : midpoint < r.start = ground arith in
            let (c, made, child) =
              child_or_new-IsChild midpoint (suc midpoint) b higher (omega (arith, i.0)) lim
                (omega arith) (omega arith) i.2 in
            let made' : child_or_new higher midpoint (end total) ≡ ok c =
              rw (end-IsValid total (omega (arith, i.0)), i.0.finishes) made in
            let (res, run, (yes', adds)) =
              add-Adds k midpoint (suc midpoint) b c r lim (omega (arith, i.0)) child.there
                child.tree
                (record {
                  valid = w.valid;
                  nonempty = w.nonempty;
                  from = omega arith;
                  to = w.to;
                }) in
            (
              (res.0, node total midpoint lower res.1 starts ends),
              simp (inside, before, e, point, e', made', run),
              (
                yes',
                Adds-higher a least b total midpoint lower higher starts ends r lim i w c res.1
                    child adds,
              ),
            )
      ]
    ]
