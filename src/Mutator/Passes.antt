-- ===== src/Mutator/Passes.antt =====
-- The pass over positions of src/operation/mutator.cpp.
use egalito.Base.{ℕ, zero, suc, List, [], ◌∷◌, Option, none, some}
use egalito.Base.Result.{Result, ok, fail, out_of_fuel, ◌>>=◌}
use egalito.Chunk.{Store, Position, absolute, recalculate}
use egalito.Mutator.{levels}

-- The loop over the children in updatePositionHelper.
unfoldable pub for_each : (Store → ℕ → Result Store) → Store → List ℕ → Result Store
for_each f s [] = ok s
for_each f s (c ∷ cs) = f s c >>= λ s'. for_each f s' cs

-- The end of updatePositionHelper: the children, if there are any.
unfoldable pub descend : (Store → ℕ → Result Store) → Store → Option (List ℕ) → Result Store
descend f s none = ok s
descend f s (some cs) = for_each f s cs

-- recalculate() of a chunk, if it has a position, and then what follows
unfoldable pub recalculated : (Store → Result Store) → Store → ℕ → Option Position → Result Store
recalculated after s root none = ok s
recalculated after s root (some p) = recalculate levels s root p >>= after

unfoldable pub update_position_helper : ℕ → Store → ℕ → Result Store
update_position_helper zero s root = fail out_of_fuel
update_position_helper (suc fuel) s root =
    recalculated (λ s'. descend (update_position_helper fuel) s' (s' root).children) s root
      ((s root).position)

-- updatePositions, which the destructor calls
unfoldable pub update_below : Option Position → ℕ → Store → Result Store
update_below (some (absolute a)) c s = update_position_helper levels s c
update_below _ c s = ok s

unfoldable pub update_positions : ℕ → Option ℕ → Store → Result Store
update_positions fuel none s = ok s
update_positions zero (some c) s = fail out_of_fuel
update_positions (suc fuel) (some c) s =
    update_below (s c).position c s >>= λ s'. update_positions fuel ((s' c).parent) s'
