-- ===== src/Analysis/Dominance/Numbers.antt =====
-- The places that the nodes of an order get, and how many nodes an order can have.
use egalito.Base.{
  ℕ, zero, suc, ◌+◌, ◌<◌, ◌≤◌, ◌≡◌, refl, ◌∙◌, sym, subst, List, [], ◌∷◌, Option, some, arith,
  get_elem?, set, length, length-set, ltb, lt→ltb, ◌==◌, ==_iff, Bool-cases, inl, inr, ◌⊎◌,
  if◌then◌else◌, get_elem?-set, get_elem?-lt,
}
use egalito.Base.Result.{Returns}
use egalito.Analysis.Walker.Orders.{count}
use egalito.Analysis.Dominance.{number_ids, write}
use egalito.Analysis.Dominance.Pass.{Placed, AllInside}

abbrev pub IsDistinct : List ℕ → Type 0
IsDistinct xs = (x : ℕ) → count x xs ≤ 1

IsDistinct-tail : (x : ℕ) (xs : List ℕ) → IsDistinct (x ∷ xs) → IsDistinct xs
IsDistinct-tail x xs h y = let two = h y in omega (arith, two)

-- The places given so far are below i, each of one node.
abbrev pub Indexes : ℕ → List (Option ℕ) → Type 0
Indexes i m =
    ((x a : ℕ) → get_elem? m x ≡ some (some a) → a < i)
    × ((x y a : ℕ) → get_elem? m x ≡ some (some a) → get_elem? m y ≡ some (some a) → x ≡ y)

set-Indexes :
    (i x : ℕ) (m : List (Option ℕ))
    → x < length m
    → Indexes i m
    → Indexes (suc i) (set m x (some i))
set-Indexes i x m h (below, distinct) = (
  λ y a e. elim (cases y a e) [
    | inl (_, q) ↦ omega (arith, q)
    | inr o ↦ let b = below y a o in omega (arith, b)
  ],
  λ y z a e f. elim (cases y a e) [
    | inl (p, q) ↦ elim (cases z a f) [
      | inl (r, _) ↦ sym p ∙ r
      | inr o ↦ let b = below z a o in absurd (omega (arith, b, q))
    ]
    | inr o ↦ elim (cases z a f) [
      | inl (_, q) ↦ let b = below y a o in absurd (omega (arith, b, q))
      | inr o' ↦ distinct y z a o o'
    ]
  ],
)
  where
    cases :
        (y a : ℕ)
        → get_elem? (set m x (some i)) y ≡ some (some a)
        → ((x ≡ y) × (i ≡ a)) ⊎ (get_elem? m y ≡ some (some a))
    cases y a e =
        let at = get_elem?-set m x y (some i) h in
        elim (Bool-cases (x == y)) [
          | inl q ↦ inl ((==_iff x y).0 q, ground (arith, at, e, q))
          | inr q ↦ inr (ground (arith, at, e, q))
        ]

-- What the numbering of an order yields.
pub record IsNumbered (i : ℕ) (xs : List ℕ) (m m' : List (Option ℕ)) : Type 0 where
  pub size : length m' ≡ length m
  pub placed : Placed m' i xs
  pub indexes : Indexes (i + length xs) m'
  pub kept : (y : ℕ) → count y xs ≡ 0 → get_elem? m' y ≡ get_elem? m y

pub number_ids-IsNumbered :
    (i : ℕ) (xs : List ℕ) (m : List (Option ℕ))
    → Indexes i m
    → IsDistinct xs
    → AllInside (length m) xs
    → Returns (number_ids i xs m) (IsNumbered i xs m)
unfolding number_ids write
number_ids-IsNumbered i [] m indexes distinct inside = (
  m,
  refl,
  record {
    size = refl;
    placed = tt;
    indexes = subst (λ j. Indexes j m) (omega arith) indexes;
    kept = λ y e. refl;
  },
)
number_ids-IsNumbered i (x ∷ xs) m indexes distinct (x-in, inside) =
    let (old, at) = get_elem?-lt m x x-in in
    let m₁ = set m x (some i) in
    let size₁ : length m₁ ≡ length m = length-set m x (some i) in
    let (m₂, run, n) =
      number_ids-IsNumbered (suc i) xs m₁ (set-Indexes i x m x-in indexes)
        (IsDistinct-tail x xs distinct) (subst (λ k. AllInside k xs) (sym size₁) inside) in
    let once : count x xs ≡ 0 = let two = distinct x in ground (arith, two, (==_iff x x).1 refl) in
    let here = get_elem?-set m x x (some i) x-in in
    (
      m₂,
      ground (arith, at, run),
      record {
        size = n.size ∙ size₁;
        placed = (n.kept x once ∙ ground (arith, here, (==_iff x x).1 refl), n.placed);
        indexes = subst (λ j. Indexes j m₂) (omega arith) n.indexes;
        kept = λ y e.
            let there = get_elem?-set m x y (some i) x-in in
            n.kept y (omega (arith, e)) ∙ ground (arith, there, e);
      },
    )

-- How often the numbers below k are in a list
total : ℕ → List ℕ → ℕ
total zero xs = 0
total (suc k) xs = total k xs + count k xs

total-cons : (k x : ℕ) (xs : List ℕ) → total k (x ∷ xs) ≡ (if ltb x k then 1 else 0) + total k xs
unfolding total
total-cons zero x xs = ground arith
total-cons (suc k) x xs = ground (arith, total-cons k x xs)

total-nil : (k : ℕ) → total k [] ≡ 0
unfolding total
total-nil zero = refl
total-nil (suc k) = omega (arith, total-nil k)

length-total : (k : ℕ) (xs : List ℕ) → AllInside k xs → length xs ≡ total k xs
length-total k [] inside = sym (total-nil k)
length-total k (x ∷ xs) (x-in, inside) =
    let in-k = lt→ltb x k x-in in ground (arith, length-total k xs inside, total-cons k x xs, in-k)

total-distinct : (k : ℕ) (xs : List ℕ) → IsDistinct xs → total k xs ≤ k
unfolding total
total-distinct zero xs distinct = omega arith
total-distinct (suc k) xs distinct =
    let once = distinct k in omega (arith, once, total-distinct k xs distinct)

-- An order of different nodes is not longer than the graph.
pub length-IsDistinct : (k : ℕ) (xs : List ℕ) → AllInside k xs → IsDistinct xs → length xs ≤ k
length-IsDistinct k xs inside distinct =
    omega (arith, length-total k xs inside, total-distinct k xs distinct)
