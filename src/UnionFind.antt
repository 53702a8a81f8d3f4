-- ===== src/UnionFind.antt =====
-- src/elf/unionfind.h and unionfind.cpp: class UnionFind, its vector `parent` as a list. An index
-- past the vector is undefined behaviour in the source, and a failure here. The loop of `find` takes
-- fuel; the length of the vector is enough (UnionFind.Forest).
pub mod Forest
use mathlib.Core.Bool.{true, false}
use egalito.Base.{
  ℕ, zero, suc, ◌+◌, List, [], ◌∷◌, ◌++◌, Option, none, some, length, get_elem?, set, ltb, ◌==◌,
  if◌then◌else◌,
}
use egalito.Base.Result.{Result, ok, fail, Failure, ◌>>=◌}

-- The loop of the constructor, which pushes `i` for each i < count.
unfoldable pub push_indices : ℕ → ℕ → List ℕ → List ℕ
push_indices zero i parent = parent
push_indices (suc left) i parent = push_indices left (i + 1) (parent ++ i ∷ [])

unfoldable pub new : ℕ → List ℕ
unfolding push_indices
new count = push_indices count 0 []

-- parent[x]
unfoldable pub parent_of : List ℕ → ℕ → Result ℕ
parent_of parent x = elim (get_elem? parent x) [ none ↦ fail Failure.out_of_bounds | some p ↦ ok p ]

-- The while loop of `find`.
unfoldable pub climb : ℕ → List ℕ → ℕ → Result ℕ
unfolding parent_of
climb zero parent x = fail Failure.out_of_fuel
climb (suc fuel) parent x =
    parent_of parent x >>= λ p. elim (p == x) [ true ↦ ok x | false ↦ climb fuel parent p ]

-- find, with the assignment that it calls path compression
unfoldable pub find : List ℕ → ℕ → Result (ℕ × List ℕ)
unfolding climb
find parent x = climb (length parent) parent x >>= λ root. ok (root, set parent root root)

-- setEdge
unfoldable pub set_edge : List ℕ → ℕ → ℕ → List ℕ
set_edge parent x₁ x₂ =
    let first = if ltb x₁ x₂ then set parent x₂ x₁ else parent in
    if ltb x₂ x₁ then set first x₁ x₂ else first

-- join
unfoldable pub join : List ℕ → ℕ → ℕ → Result (List ℕ)
unfolding find set_edge
join parent x₁ x₂ = find parent x₁ >>= λ (p₁, parent₁).
    find parent₁ x₂ >>= λ (p₂, parent₂). ok (set_edge parent₂ p₁ p₂)
