-- ===== src/IntervalTree/Invariant.antt =====
-- The invariant of the nodes of src/util/intervaltree.cpp: a node over the addresses [a, b) splits
-- them at its midpoint; its own ranges hold the midpoint, and stand in both sorted lists equally
-- often; its children split the two halves. No range of a tree starts before `least`, which is the
-- first address, or the one behind it: a range that starts at a midpoint is never in the child above.
use egalito.Base.{ℕ, suc, ◌+◌, ◌-◌, ◌/◌, ◌≤◌, ◌<◌, ◌≡◌, refl, List, [], ◌∷◌, ◌++◌, arith}
use egalito.Range.{Range}
use egalito.Range.Laws.{IsValid}
use egalito.IntervalTree.Weight.{weigh, weight, All, weigh_congr, weigh-zero, weight-add}
use egalito.IntervalTree.{Node, null, node, in_start_order}

-- A range that is not empty and lies in [a, b).
pub record Within (a b : ℕ) (r : Range) : Type 0 where
  pub valid : IsValid r
  pub nonempty : 0 < r.size
  pub from : a ≤ r.start
  pub to : r.start + r.size ≤ b

-- A range that holds the midpoint too.
pub record Holds (a b midpoint : ℕ) (r : Range) : Type 0 where
  pub within : Within a b r
  pub before : r.start ≤ midpoint
  pub behind : midpoint < r.start + r.size

abbrev pub AreSortedByStart : List Range → Type 0
AreSortedByStart [] = Unit {0}
AreSortedByStart (r ∷ rs) = All (λ q. r.start ≤ q.start) rs × AreSortedByStart rs

abbrev pub AreSortedByEnd : List Range → Type 0
AreSortedByEnd [] = Unit {0}
AreSortedByEnd (r ∷ rs) = All (λ q. q.start + q.size ≤ r.start + r.size) rs × AreSortedByEnd rs

pub record IsNode (a least b : ℕ) (total : Range) (midpoint : ℕ) (starts ends : List Range)
    : Type 0 where
  pub least_from : a ≤ least
  pub least_to : least ≤ suc a
  pub begins : total.start ≡ a
  pub finishes : total.start + total.size ≡ b
  pub middle : midpoint ≡ total.start + total.size / 2
  pub held : All (Holds least b midpoint) starts
  pub held_ends : All (Holds least b midpoint) ends
  pub sorted : AreSortedByStart starts
  pub sorted_ends : AreSortedByEnd ends
  pub same : (w : Range → ℕ) → weigh w starts ≡ weigh w ends

abbrev pub IsTree : ℕ → ℕ → ℕ → Node → Type 0
IsTree a least b null = Unit {0}
IsTree a least b (node total midpoint lower higher starts ends) =
    IsNode a least b total midpoint starts ends
    × IsTree a least midpoint lower
    × IsTree midpoint (suc midpoint) b higher

abbrev pub IsThere : Node → Type 0
IsThere null = ⊥
IsThere (node total midpoint lower higher starts ends) = Unit {0}

pub All-map :
    {P Q : Range → Type 0} (rs : List Range) → ((r : Range) → P r → Q r) → All P rs → All Q rs
All-map [] f a = tt
All-map (r ∷ rs) f a = (f r a.0, All-map rs f a.1)

pub All-append : (P : Range → Type 0) (xs ys : List Range) → All P xs → All P ys → All P (xs ++ ys)
All-append P [] ys a b = b
All-append P (x ∷ xs) ys a b = (a.0, All-append P xs ys a.1 b)

-- A midpoint lies in its node's range.
pub IsNode-midpoint :
    {a least b : ℕ} {total : Range} {midpoint : ℕ} {starts ends : List Range}
    → IsNode a least b total midpoint starts ends
    → (least ≤ suc midpoint) × (midpoint ≤ b)
IsNode-midpoint n = omega arith

pub Within-mono : {a b c d : ℕ} (r : Range) → c ≤ a → b ≤ d → Within a b r → Within c d r
Within-mono r h k w = omega arith

-- Every range of a tree lies between its least start and its end.
pub in_start_order-Within :
    (a least b : ℕ) (t : Node) → IsTree a least b t → All (Within least b) (in_start_order t)
unfolding in_start_order
in_start_order-Within a least b null i = tt
in_start_order-Within a least b (node total midpoint lower higher starts ends) (n, il, ih) =
    let (ml, mb) = IsNode-midpoint n in
    All-append _ (in_start_order lower) (starts ++ in_start_order higher)
      (All-map (in_start_order lower) (λ r w. Within-mono r (omega arith) mb w)
        (in_start_order-Within a least midpoint lower il))
      (All-append _ starts (in_start_order higher) (All-map starts (λ r h. h.within) n.held) (
        All-map (in_start_order higher) (λ r w. Within-mono r ml (omega arith) w)
          (in_start_order-Within midpoint (suc midpoint) b higher ih)))

-- Weights that agree on the ranges between `least` and `b` give a tree equal sums.
pub weight_congr :
    (a least b : ℕ) (v w : Range → ℕ) (t : Node)
    → IsTree a least b t
    → ((r : Range) → Within least b r → v r ≡ w r)
    → weight v t ≡ weight w t
weight_congr a least b v w null i h = refl
weight_congr a least b v w (node total midpoint lower higher starts ends) (n, il, ih) h =
    let (ml, mb) = IsNode-midpoint n in
    let below =
      weight_congr a least midpoint v w lower il (λ r k. h r (Within-mono r (omega arith) mb k)) in
    let above =
      weight_congr midpoint (suc midpoint) b v w higher ih
        (λ r k. h r (Within-mono r ml (omega arith) k)) in
    let here = weigh_congr v w starts n.held (λ r k. h r k.within) in omega arith

pub weight-zero : (t : Node) → weight (λ _. 0) t ≡ 0
weight-zero null = refl
weight-zero (node total midpoint lower higher starts ends) =
    omega (arith, weight-zero lower, weight-zero higher, weigh-zero starts)

-- A weight that is zero on the ranges between `least` and `b` is zero on a tree.
pub weight-vanish :
    (a least b : ℕ) (w : Range → ℕ) (t : Node)
    → IsTree a least b t
    → ((r : Range) → Within least b r → w r ≡ 0)
    → weight w t ≡ 0
weight-vanish a least b w t i h =
    omega (arith, weight_congr a least b w (λ _. 0) t i h, weight-zero t)

pub weight-le :
    (a least b : ℕ) (v w : Range → ℕ) (t : Node)
    → IsTree a least b t
    → ((r : Range) → Within least b r → v r ≤ w r)
    → weight v t ≤ weight w t
weight-le a least b v w t i h = omega (
  arith,
  weight_congr a least b w (λ r. v r + (w r - v r)) t i (λ r k. omega (arith, h r k)),
  weight-add v (λ r. w r - v r) t,
)
