-- ===== src/Symbols/Aliases.antt =====
-- SymbolAliasFinder of src/elf/symbol.cpp: a UnionFind over the symbols in the order of their
-- addresses, with an order of its own on the roots.
pub mod Roots
pub mod Decided
pub mod Classes
pub mod Following
pub mod Construction
use egalito.Base.{
  ℕ, suc, ◌+◌, Bool, true, false, ◌&&◌, ◌||◌, List, [], ◌∷◌, Option, none, some, ◌==◌, length,
  get_elem?, set, if◌then◌else◌,
}
use egalito.Base.Result.{Result, ok, fail, undefined, ◌>>=◌}
use egalito.Symbols.{
  Symbol, SymbolType, BindingType, section, file, local, global, weak, is_mapping_name,
}
use egalito.UnionFind.{new, find}

-- The values -1, +1 and 0 of edgeComparator
pub data Comparison : Type 0 where
  below : Comparison
  above : Comparison
  neither : Comparison

unfoldable pub starts_with : List ℕ → List ℕ → Bool
starts_with [] cs = true
starts_with (p ∷ ps) [] = false
starts_with (p ∷ ps) (c ∷ cs) = p == c && starts_with ps cs

-- strstr(cs, ps), as a test
unfoldable pub has_substring : List ℕ → List ℕ → Bool
has_substring [] ps = starts_with ps []
has_substring (c ∷ cs) ps = starts_with ps (c ∷ cs) || has_substring cs ps

unfoldable pub is_file : SymbolType → Bool
is_file file = true
is_file _ = false

unfoldable pub is_local : BindingType → Bool
is_local local = true
is_local _ = false

-- The first tests, of the types, as long as they decide.
unfoldable pub compare_types : SymbolType → SymbolType → Option Comparison
compare_types section section = none
compare_types section _ = some below
compare_types _ section = some above
compare_types file file = none
compare_types file _ = some below
compare_types _ file = some above
compare_types _ _ = none

-- The tests of the bindings
unfoldable pub compare_bindings : BindingType → BindingType → Option Comparison
compare_bindings local local = none
compare_bindings global global = none
compare_bindings weak weak = none
compare_bindings local _ = some below
compare_bindings _ local = some above
compare_bindings global _ = some above
compare_bindings _ global = some below

-- The tests of the sizes, and the arbitrary choice
unfoldable pub compare_sizes : ℕ → ℕ → Comparison
compare_sizes a b =
    if a == b then below else if a == 0 then below else if b == 0 then above else below

-- A test that decides for one symbol and then for the other
unfoldable pub either : Bool → Bool → Comparison → Comparison → Comparison
either first second c rest = if first then c else if second then opposite c else rest
  where
    opposite : Comparison → Comparison
    opposite below = above
    opposite above = below
    opposite neither = neither

unfoldable pub or_else : Option Comparison → Comparison → Comparison
or_else none c = c
or_else (some d) c = d

-- edgeComparator
unfoldable pub edge_comparator : Symbol → Symbol → Comparison
edge_comparator s t =
    let mapping =
      either (is_local s.binding_type && is_mapping_name s.name)
        (is_local t.binding_type && is_mapping_name t.name) below in
    let names = either (has_substring s.name t.name) (has_substring t.name s.name) below in
    let doubles =
      either (has_substring s.name (64 ∷ 64 ∷ [])) (has_substring t.name (64 ∷ 64 ∷ [])) above in
    let singles = either (has_substring s.name (64 ∷ [])) (has_substring t.name (64 ∷ [])) below in
    or_else (compare_types s.symbol_type t.symbol_type) (
      mapping (
        names (
          doubles (
            singles (
              or_else (compare_bindings s.binding_type t.binding_type)
                (compare_sizes s.size t.size))))))

-- sortedList[i]
unfoldable pub symbol_at : List Symbol → ℕ → Result Symbol
symbol_at sorted i = elim (get_elem? sorted i) [ none ↦ fail undefined | some s ↦ ok s ]

unfoldable pub link_roots : Comparison → ℕ → ℕ → List ℕ → List ℕ
link_roots below x₁ x₂ parent = set parent x₁ x₂
link_roots above x₁ x₂ parent = set parent x₂ x₁
link_roots neither x₁ x₂ parent = parent

unfoldable pub set_edge : List Symbol → List ℕ → ℕ → ℕ → Result (List ℕ)
set_edge sorted parent x₁ x₂ = symbol_at sorted x₁ >>= λ s.
    symbol_at sorted x₂ >>= λ t. ok (link_roots (edge_comparator s t) x₁ x₂ parent)

-- UnionFind::join with the setEdge above
unfoldable pub join : List Symbol → List ℕ → ℕ → ℕ → Result (List ℕ)
join sorted parent x₁ x₂ = find parent x₁ >>= λ (p₁, parent₁).
    find parent₁ x₂ >>= λ (p₂, parent₂). set_edge sorted parent₂ p₁ p₂

-- The inner loop of constructByAddress, over the symbols from the j-th on
unfoldable pub join_following :
    List Symbol → ℕ → Symbol → ℕ → List Symbol → List ℕ → Result (List ℕ)
join_following sorted i s j [] parent = ok parent
join_following sorted i s j (t ∷ ts) parent =
    let joins = if is_file t.symbol_type then false else s.shndx == t.shndx in
    elim (s.address == t.address) [
      | false ↦ ok parent
      | true ↦ (elim joins [ true ↦ join sorted parent i j | false ↦ ok parent ]) >>= λ parent'.
          join_following sorted i s (suc j) ts parent'
    ]

-- The outer loop, over the symbols from the i-th on
unfoldable pub join_aliases : List Symbol → ℕ → List Symbol → List ℕ → Result (List ℕ)
join_aliases sorted i [] parent = ok parent
join_aliases sorted i (s ∷ ss) parent =
    (elim (is_file s.symbol_type) [
      | true ↦ ok parent
      | false ↦ join_following sorted i s (suc i) ss parent
    ])
    >>= λ parent'. join_aliases sorted (suc i) ss parent'

-- constructByAddress of a new finder over the sorted list
unfoldable pub construct_by_address : List Symbol → Result (List ℕ)
construct_by_address sorted = join_aliases sorted 0 sorted (new (length sorted))

-- getRepresentativeIndex
unfoldable pub get_representative_index : List ℕ → ℕ → Result ℕ
get_representative_index parent i = find parent i >>= λ (root, parent'). ok root
