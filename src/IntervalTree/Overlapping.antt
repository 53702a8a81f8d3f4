-- ===== src/IntervalTree/Overlapping.antt =====
-- The two findOverlapping methods of src/util/intervaltree.cpp, with the early exits of their loops and
-- the children that are not searched.
use egalito.Base.{
  ℕ, suc, ◌+◌, ◌≤◌, ◌<◌, ◌≡◌, refl, inl, inr, Bool, true, List, [], ◌∷◌, ◌++◌, arith, Bool-cases,
  leb, ltb,
}
use egalito.Range.{Range, address_limit, end, contains_point, overlaps, before_point, after_point}
use egalito.Range.Laws.{IsValid, end-IsValid}
use egalito.IntervalTree.Weight.{weigh, weight, only, All, weigh-append, weigh_congr, weigh-zero}
use egalito.IntervalTree.Invariant.{
  AreSortedByStart, AreSortedByEnd, IsTree, All-map, weight-vanish,
}
use egalito.IntervalTree.{
  Node, null, node, scan_starts, scan_ends, find_overlapping_point, overlapping, find_overlapping,
}

abbrev pub at_point : ℕ → Range → Bool
at_point p r = contains_point r p

weigh-none :
    (P : Range → Type 0) (w : Range → ℕ) (rs : List Range)
    → All P rs
    → ((r : Range) → P r → w r ≡ 0)
    → weigh w rs ≡ 0
weigh-none P w rs a h = omega (arith, weigh_congr w (λ _. 0) rs a h, weigh-zero rs)

weigh-scan_starts :
    (p : ℕ) (w : Range → ℕ) (rs : List Range)
    → AreSortedByStart rs
    → weigh w (scan_starts p rs) ≡ weigh (only (at_point p) w) rs
unfolding scan_starts after_point contains_point
weigh-scan_starts p w [] s = refl
weigh-scan_starts p w (r ∷ rs) s = elim (Bool-cases (ltb p r.start)) [
  | inl e ↦
      let later =
        weigh-none (λ q. r.start ≤ q.start) (only (at_point p) w) rs s.0 (λ q h. ground arith) in
      ground (arith, later)
  | inr e ↦ ground (arith, weigh-scan_starts p w rs s.1)
]

-- Behind a range that ends at the point or before, no range of the sorted list holds the point.
ends_passed :
    (p : ℕ) (w : Range → ℕ) (r : Range) (qs : List Range)
    → IsValid r
    → leb (end r) p ≡ true
    → All IsValid qs
    → All (λ q. q.start + q.size ≤ r.start + r.size) qs
    → weigh (only (at_point p) w) qs ≡ 0
unfolding contains_point
ends_passed p w r [] v e a b = refl
ends_passed p w r (q ∷ qs) v e a b =
    ground (arith, end-IsValid r v, end-IsValid q a.0, ends_passed p w r qs v e a.1 b.1)

weigh-scan_ends :
    (p : ℕ) (w : Range → ℕ) (rs : List Range)
    → All IsValid rs
    → AreSortedByEnd rs
    → weigh w (scan_ends p rs) ≡ weigh (only (at_point p) w) rs
unfolding scan_ends before_point contains_point
weigh-scan_ends p w [] v s = refl
weigh-scan_ends p w (r ∷ rs) v s = elim (Bool-cases (leb (end r) p)) [
  | inl e ↦ ground (arith, ends_passed p w r rs v.0 e v.1 s.0)
  | inr e ↦ ground (arith, weigh-scan_ends p w rs v.1 s.1)
]

weigh-overlapping :
    (range : Range) (w : Range → ℕ) (rs : List Range)
    → weigh w (overlapping range rs) ≡ weigh (only (λ q. overlaps q range) w) rs
unfolding overlapping
weigh-overlapping range w [] = refl
weigh-overlapping range w (r ∷ rs) = ground (arith, weigh-overlapping range w rs)

-- findOverlapping(point) returns exactly the ranges of the tree that contain the point, each as
-- often as the tree holds it: its result and these ranges have the same sum under every weight.
pub weigh-find_overlapping_point :
    (w : Range → ℕ) (a least b : ℕ) (t : Node) (p : ℕ)
    → b < address_limit
    → IsTree a least b t
    → weigh w (find_overlapping_point t p) ≡ weight (only (at_point p) w) t
unfolding find_overlapping_point
weigh-find_overlapping_point w a least b null p lim i = refl
weigh-find_overlapping_point w a least b (node total midpoint lower higher starts ends) p lim i =
    elim (Bool-cases (ltb p midpoint)) [
      | inl e ↦
          let above : weight (only (at_point p) w) higher ≡ 0 =
            weight-vanish midpoint (suc midpoint) b _ higher i.2
              (λ r k. unfold contains_point in ground arith) in
          ground (
            arith,
            above,
            weigh-append w (find_overlapping_point lower p) (scan_starts p starts),
            weigh-find_overlapping_point w a least midpoint lower p (omega (arith, i.0)) i.1,
            weigh-scan_starts p w starts i.0.sorted,
          )
      | inr e ↦
          let below : weight (only (at_point p) w) lower ≡ 0 =
            weight-vanish a least midpoint _ lower i.1
              (λ r k. unfold contains_point in ground (arith, end-IsValid r)) in
          ground (
            arith,
            below,
            weigh-append w (scan_ends p ends) (find_overlapping_point higher p),
            weigh-find_overlapping_point w midpoint (suc midpoint) b higher p lim i.2,
            weigh-scan_ends p w ends (All-map ends (λ r k. k.within.valid) i.0.held_ends)
                i.0.sorted_ends,
            i.0.same (only (at_point p) w),
          )
    ]

-- For a range that does not wrap, findOverlapping(range) returns exactly the ranges of a well-formed
-- tree that overlap it, each as often as the tree holds it.
pub weigh-find_overlapping :
    (w : Range → ℕ) (a least b : ℕ) (t : Node) (range : Range)
    → b < address_limit
    → IsTree a least b t
    → IsValid range
    → weigh w (find_overlapping t range) ≡ weight (only (λ q. overlaps q range) w) t
unfolding find_overlapping after_point before_point
weigh-find_overlapping w a least b null range lim i v = refl
weigh-find_overlapping w a least b (node total midpoint lower higher starts ends) range lim i v =
    let above : leb (end range) midpoint ≡ true
        → weight (only (λ q. overlaps q range) w) higher ≡ 0 =
      λ e.
        weight-vanish midpoint (suc midpoint) b _ higher i.2
          (λ r k. unfold overlaps in ground (arith, end-IsValid r, end-IsValid range)) in
    let below : leb midpoint range.start ≡ true
        → weight (only (λ q. overlaps q range) w) lower ≡ 0 =
      λ e.
        weight-vanish a least midpoint _ lower i.1
          (λ r k. unfold overlaps in ground (arith, end-IsValid r, end-IsValid range)) in
    let found_above = weigh-find_overlapping w midpoint (suc midpoint) b higher range lim i.2 v in
    let found_below =
      weigh-find_overlapping w a least midpoint lower range (omega (arith, i.0)) i.1 v in
    ground (
      arith,
      above,
      below,
      found_above,
      found_below,
      weigh-overlapping range w starts,
      weigh-append w (find_overlapping lower range)
          (overlapping range starts ++ find_overlapping higher range),
      weigh-append w (find_overlapping lower range) (overlapping range starts ++ []),
      weigh-append w (overlapping range starts) (find_overlapping higher range),
      weigh-append w (overlapping range starts) [],
    )
