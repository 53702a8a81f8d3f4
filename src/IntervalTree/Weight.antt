-- ===== src/IntervalTree/Weight.antt =====
-- Sums over the ranges of a list or a node of src/util/intervaltree.cpp. A weight may count the
-- copies of a range, or the ranges that cover a point, so equal sums under every weight say that
-- two collections hold the same ranges equally often.
use egalito.Base.{ℕ, ◌+◌, ◌≡◌, refl, Bool, List, [], ◌∷◌, ◌++◌, arith, to_ℕ, if◌then◌else◌}
use egalito.Range.{Range, contains_point, equal}
use egalito.IntervalTree.{Node, null, node, in_start_order}

abbrev pub weigh : (Range → ℕ) → List Range → ℕ
weigh w [] = 0
weigh w (r ∷ rs) = w r + weigh w rs

-- The ranges of a node: those below, those that hold the midpoint, those above.
abbrev pub weight : (Range → ℕ) → Node → ℕ
weight w null = 0
weight w (node total midpoint lower higher starts ends) =
    weight w lower + (weigh w starts + weight w higher)

-- How often a range occurs.
abbrev pub count_of : Range → Range → ℕ
count_of q r = to_ℕ (equal q r)

-- Whether a range covers a point, as a number.
abbrev pub covers : ℕ → Range → ℕ
covers p r = to_ℕ (contains_point r p)

-- A weight on the ranges that pass a test.
abbrev pub only : (Range → Bool) → (Range → ℕ) → Range → ℕ
only test w r = if test r then w r else 0

abbrev pub All : (Range → Type 0) → List Range → Type 0
All P [] = Unit {0}
All P (r ∷ rs) = P r × All P rs

pub weigh-append :
    (w : Range → ℕ) (xs ys : List Range) → weigh w (xs ++ ys) ≡ weigh w xs + weigh w ys
weigh-append w [] ys = omega arith
weigh-append w (x ∷ xs) ys = omega (arith, weigh-append w xs ys)

pub weigh-in_start_order : (w : Range → ℕ) (t : Node) → weigh w (in_start_order t) ≡ weight w t
unfolding in_start_order
weigh-in_start_order w null = refl
weigh-in_start_order w (node total midpoint lower higher starts ends) = omega (
  arith,
  weigh-append w (in_start_order lower) (starts ++ in_start_order higher),
  weigh-append w starts (in_start_order higher),
  weigh-in_start_order w lower,
  weigh-in_start_order w higher,
)

-- Weights that agree where `P` holds give equal sums over such ranges.
pub weigh_congr :
    {P : Range → Type 0} (v w : Range → ℕ) (rs : List Range)
    → All P rs
    → ((r : Range) → P r → v r ≡ w r)
    → weigh v rs ≡ weigh w rs
weigh_congr v w [] a h = refl
weigh_congr v w (r ∷ rs) a h = omega (arith, h r a.0, weigh_congr v w rs a.1 h)

pub weigh-zero : (rs : List Range) → weigh (λ _. 0) rs ≡ 0
weigh-zero [] = refl
weigh-zero (r ∷ rs) = omega (arith, weigh-zero rs)

pub weigh-add :
    (v w : Range → ℕ) (rs : List Range) → weigh (λ r. v r + w r) rs ≡ weigh v rs + weigh w rs
weigh-add v w [] = refl
weigh-add v w (r ∷ rs) = omega (arith, weigh-add v w rs)

pub weight-add : (v w : Range → ℕ) (t : Node) → weight (λ r. v r + w r) t ≡ weight v t + weight w t
weight-add v w null = refl
weight-add v w (node total midpoint lower higher starts ends) =
    omega (arith, weight-add v w lower, weight-add v w higher, weigh-add v w starts)
