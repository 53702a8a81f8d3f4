-- ===== src/Symbols/Lookup.antt =====
-- What a list of symbols finds after one is added.
use egalito.Base.{ℕ, ◌≡◌, refl, ap, List, [], ◌∷◌, some, arith, ◌==◌, true, if◌then◌else◌}
use egalito.Symbols.{
  Symbols, SymbolList, set_address_of, find_address, is_in_space, add, find_at, canonical,
}

-- A symbol's address finds the last symbol that was put there; other addresses find what they did.
pub find_address-set_address_of :
    (a s b : ℕ) (m : List (ℕ × ℕ))
    → find_address b (set_address_of a s m) ≡ (if a == b then some s else find_address b m)
unfolding find_address set_address_of
find_address-set_address_of a s b [] = refl
find_address-set_address_of a s b ((c, t) ∷ entries) =
    ground (arith, find_address-set_address_of a s b entries)

-- A symbol that has a place among the addresses is found there once it is added, or else the symbol
-- that it is an alias for.
pub find_at-add :
    (symbols : Symbols) (s index : ℕ) (l : SymbolList)
    → is_in_space (symbols s) ≡ true
    → find_at symbols (symbols s).address (add symbols s index l) ≡ canonical symbols (some s)
unfolding add
find_at-add symbols s index l e = ap (canonical symbols) (
    ground
      (arith, e, find_address-set_address_of (symbols s).address s (symbols s).address l.space_map))
