-- ===== src/Symbols.antt =====
-- src/elf/symbol.h and symbol.cpp: Symbol and the lists of symbols by index, by name and by address,
-- with the mapping symbols of SymbolListWithMapping. A pointer to a symbol is a number, and the
-- symbols stand in a store. Names are bytes. The numbers of the ELF format, the building of the lists
-- from a file and the versions are not modelled.
pub mod Lookup
pub mod Aliases
use egalito.Base.{
  ℕ, zero, suc, ◌+◌, ◌-◌, ◌%◌, ◌^◌, Bool, true, false, not, ◌&&◌, ◌||◌, List, [], ◌∷◌, ◌++◌, Option,
  none, some, ◌==◌, ltb, length, get_elem?, set, replicate, if◌then◌else◌,
}
use egalito.Archive.Reader.{same_bytes}

pub data SymbolType : Type 0 where
  func : SymbolType
  ifunc : SymbolType
  object : SymbolType
  section : SymbolType
  file : SymbolType
  tls : SymbolType
  notype : SymbolType
  unknown : SymbolType

pub data BindingType : Type 0 where
  local : BindingType
  global : BindingType
  weak : BindingType

pub record Symbol : Type 0 where
  pub address : ℕ
  pub size : ℕ
  pub name : List ℕ
  pub alias_for : Option ℕ
  pub symbol_type : SymbolType
  pub binding_type : BindingType
  pub shndx : ℕ

abbrev pub Symbols : Type 0
Symbols = ℕ → Symbol

unfoldable pub is_function : Symbol → Bool
is_function s = of_type s.symbol_type
  where
    defined : Option ℕ → Bool
    defined none = ltb 0 s.size && ltb 0 s.shndx
    defined (some a) = false

    of_type : SymbolType → Bool
    of_type func = defined s.alias_for
    of_type ifunc = defined s.alias_for
    of_type _ = false

unfoldable pub is_marker : Symbol → Bool
is_marker s = of_kind s.symbol_type s.binding_type
  where
    of_kind : SymbolType → BindingType → Bool
    of_kind notype global = ltb 0 s.shndx
    of_kind _ _ = false

-- getName()[0] == '$'
unfoldable pub is_mapping_name : List ℕ → Bool
is_mapping_name [] = false
is_mapping_name (c ∷ cs) = c == 36

-- class SymbolList: the map by address is kept in the order of its keys.
pub record SymbolList : Type 0 where
  pub symbol_list : List ℕ
  pub index_map : List (Option ℕ)
  pub symbol_map : List (List ℕ × ℕ)
  pub space_map : List (ℕ × ℕ)

-- Assigning to indexMap, which grows if the index is beyond its end
unfoldable pub set_index : ℕ → ℕ → List (Option ℕ) → List (Option ℕ)
set_index i s m = set (m ++ replicate (suc i - length m) none) i (some s)

unfoldable pub find_name : List ℕ → List (List ℕ × ℕ) → Option ℕ
find_name n [] = none
find_name n ((m, s) ∷ entries) =
    let rest = find_name n entries in if same_bytes n m then some s else rest

unfoldable pub find_address : ℕ → List (ℕ × ℕ) → Option ℕ
find_address a [] = none
find_address a ((b, s) ∷ entries) =
    let rest = find_address a entries in if b == a then some s else rest

-- spaceMap[address] = symbol
unfoldable pub set_address_of : ℕ → ℕ → List (ℕ × ℕ) → List (ℕ × ℕ)
set_address_of a s [] = (a, s) ∷ []
set_address_of a s ((b, t) ∷ entries) =
    let rest = set_address_of a s entries in
    if ltb a b
    then (a, s) ∷ (b, t) ∷ entries
    else if a == b
    then (a, s) ∷ entries
    else (b, t) ∷ rest

unfoldable pub is_in_space : Symbol → Bool
is_in_space s = of_type s.symbol_type
  where
    of_type : SymbolType → Bool
    of_type section = false
    of_type _ = not (is_mapping_name s.name)

module _ (symbols : Symbols) where
  unfoldable pub add : ℕ → ℕ → SymbolList → SymbolList
  add s index l =
      let named = find_name (symbols s).name l.symbol_map in
      record {
        symbol_list = l.symbol_list ++ s ∷ [];
        index_map = set_index index s l.index_map;
        symbol_map = elim named [
          | none ↦ ((symbols s).name, s) ∷ l.symbol_map
          | some t ↦ l.symbol_map
        ];
        space_map =
            if is_in_space (symbols s)
            then set_address_of (symbols s).address s l.space_map
            else l.space_map;
      }

  -- What find returns for a symbol that was found.
  unfoldable pub canonical : Option ℕ → Option ℕ
  canonical none = none
  canonical (some s) = elim ((symbols s).alias_for) [ none ↦ some s | some a ↦ some a ]

  abbrev pub find : List ℕ → SymbolList → Option ℕ
  find n l = canonical (find_name n l.symbol_map)

  abbrev pub find_at : ℕ → SymbolList → Option ℕ
  find_at a l = canonical (find_address a l.space_map)

  -- The loop of estimateSizeOf, from upper_bound on
  unfoldable pub size_up_to : Symbol → List (ℕ × ℕ) → ℕ
  size_up_to s [] = 0
  size_up_to s ((b, t) ∷ entries) =
      let rest = size_up_to s entries in
      if not (ltb s.address b) || same_bytes (symbols t).name (36 ∷ 100 ∷ [])
      then rest
      else if (symbols t).shndx == s.shndx
      then (2 ^ 64 + (symbols t).address - s.address) % 2 ^ 64
      else 0

  abbrev pub estimate_size_of : ℕ → SymbolList → ℕ
  estimate_size_of s l = size_up_to (symbols s) l.space_map

  -- findMappingAbove in the sorted mapping list
  unfoldable pub find_mapping_above : Symbol → List ℕ → Option ℕ
  find_mapping_above s [] = none
  find_mapping_above s (t ∷ ts) =
      let rest = find_mapping_above s ts in
      if ltb s.address (symbols t).address && (symbols t).shndx == s.shndx then some t else rest

  -- std::lower_bound by address: the symbols before it, the nearest first, and those from it on
  unfoldable pub lower_bound : Symbol → List ℕ → List ℕ → List ℕ × List ℕ
  lower_bound s before [] = (before, [])
  lower_bound s before (t ∷ ts) =
      let rest = lower_bound s (t ∷ before) ts in
      if ltb (symbols t).address s.address then rest else (before, t ∷ ts)

  -- The loop of findMappingBelowOrAt, which ends at the first symbol of the list
  unfoldable pub search_before : Symbol → List ℕ → Option ℕ
  search_before s [] = none
  search_before s (t ∷ []) = none
  search_before s (t ∷ u ∷ ts) =
      let rest = search_before s (u ∷ ts) in if (symbols t).shndx == s.shndx then some t else rest

  -- The test of the symbol at the lower bound
  unfoldable pub is_mapping_at : Symbol → ℕ → Bool
  is_mapping_at s t = (symbols t).address == s.address && (symbols t).shndx == s.shndx

  -- findMappingBelowOrAt in the sorted mapping list
  unfoldable pub find_mapping_below_or_at : Symbol → List ℕ → Option ℕ
  find_mapping_below_or_at s mapping =
      let (before, from) = lower_bound s [] mapping in
      elim from [
        | [] ↦ search_before s before
        | t ∷ ts ↦ if is_mapping_at s t then some t else search_before s before
      ]

abbrev pub add_alias : ℕ → ℕ → SymbolList → SymbolList
add_alias s other l = record l { index_map = set_index other s l.index_map }

-- get, none being a null pointer
unfoldable pub get : ℕ → SymbolList → Option ℕ
get i l = elim (get_elem? l.index_map i) [ none ↦ none | some entry ↦ entry ]
