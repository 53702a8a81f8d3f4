-- ===== src/Tests/Sets.antt =====
-- Runs of src/elf/unionfind.cpp.
use egalito.Base.{ℕ, zero, suc, ◌≡◌, ◌≤◌, refl, List, [], ◌∷◌, some, get_elem?, arith}
use egalito.Base.Result.{Returns}
use egalito.UnionFind.{find, join, climb, parent_of}
use egalito.UnionFind.Forest.{IsForest, HasRoot, Merges, find-HasRoot, join-Merges}

-- 2 stands below 1.
abbrev parents : List ℕ
parents = 0 ∷ 1 ∷ 1 ∷ []

parents-IsForest : IsForest parents
parents-IsForest zero h = (0, refl, omega arith)
parents-IsForest (suc zero) h = (1, refl, omega arith)
parents-IsForest (suc (suc zero)) h = (1, refl, omega arith)
parents-IsForest (suc (suc (suc x))) h = absurd (omega (arith, h))

find-HasRoot_example : Returns (find parents 2) (λ res.
    (res.0 ≤ 2)
    × (get_elem? parents res.0 ≡ some res.0)
    × HasRoot parents 2 res.0
    × (res.1 ≡ parents))
find-HasRoot_example = find-HasRoot parents 2 parents-IsForest (omega arith)

root_of_zero : HasRoot parents 0 0
unfolding climb parent_of
root_of_zero zero h = absurd (omega (arith, h))
root_of_zero (suc fuel) h = refl

root_of_two : HasRoot parents 2 1
unfolding climb parent_of
root_of_two zero h = absurd (omega (arith, h))
root_of_two (suc zero) h = absurd (omega (arith, h))
root_of_two (suc (suc fuel)) h = refl

join-Merges_example : Returns (join parents 2 0) (Merges parents 1 0)
join-Merges_example =
    join-Merges parents 2 0 1 0 parents-IsForest (omega arith) (omega arith) root_of_two
      root_of_zero
