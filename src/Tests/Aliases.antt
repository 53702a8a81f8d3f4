-- ===== src/Tests/Aliases.antt =====
-- Runs of src/elf/symbol.cpp.
use egalito.Base.{ℕ, zero, suc, ◌*◌, ◌≡◌, refl, List, [], ◌∷◌, none, some, get_elem?, arith}
use egalito.Base.Result.{Returns}
use egalito.Symbols.{
  Symbol, func, notype, local, global, find_mapping_below_or_at, lower_bound, search_before,
  is_mapping_at,
}
use egalito.Symbols.Aliases.{construct_by_address}
use egalito.Symbols.Aliases.Construction.{IsSorted, Represents, construct_by_address-Represents}

-- Two names for one function, and the symbol of a variable of another section.
abbrev symbol : List ℕ → ℕ → Symbol
symbol name shndx = record {
  address = 8;
  size = 4;
  name = name;
  alias_for = none;
  symbol_type = func;
  binding_type = global;
  shndx = shndx;
}

abbrev sorted : List Symbol
sorted = symbol (97 ∷ []) 1 ∷ symbol (98 ∷ []) 2 ∷ symbol (97 ∷ 98 ∷ []) 1 ∷ []

at-address : (x : ℕ) (s : Symbol) → get_elem? sorted x ≡ some s → s.address ≡ 8
at-address zero s e = ground (arith, e)
at-address (suc zero) s e = ground (arith, e)
at-address (suc (suc zero)) s e = ground (arith, e)
at-address (suc (suc (suc x))) s e = absurd (ground (arith, e))

sorted-IsSorted : IsSorted sorted
sorted-IsSorted x y s t low e f = omega (arith, at-address x s e, at-address y t f)

construct_by_address-Represents_example : Returns (construct_by_address sorted) (Represents sorted)
construct_by_address-Represents_example = construct_by_address-Represents sorted sorted-IsSorted

-- The first mapping symbol is not found for a symbol behind it.
abbrev mappings : ℕ → Symbol
mappings k = record {
  address = 16 * k;
  size = 0;
  name = 36 ∷ 120 ∷ [];
  alias_for = none;
  symbol_type = notype;
  binding_type = local;
  shndx = 1;
}

find_mapping_below_or_at-first : find_mapping_below_or_at mappings (symbol [] 1) (0 ∷ 1 ∷ []) ≡ none
unfolding find_mapping_below_or_at lower_bound search_before is_mapping_at
find_mapping_below_or_at-first = refl
