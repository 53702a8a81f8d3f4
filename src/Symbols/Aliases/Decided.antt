-- ===== src/Symbols/Aliases/Decided.antt =====
-- edgeComparator of src/elf/symbol.cpp, and a join that it decides.
use egalito.Base.{
  ℕ, ◌<◌, ◌≡◌, refl, Bool, true, false, List, Option, none, some, arith, inl, inr, ◌⊎◌, length,
  get_elem?, set, get_elem?-lt, get_elem?-below,
}
use egalito.Base.Result.{Returns}
use egalito.Symbols.{Symbol, SymbolType, BindingType, local, global, weak}
use egalito.Symbols.Aliases.{
  Comparison, below, above, neither, compare_types, compare_bindings, compare_sizes, either,
  or_else, edge_comparator, symbol_at, link_roots, set_edge, join,
}
use egalito.Symbols.Aliases.Roots.{
  IsForest, IsJoined, set-IsJoined, IsJoined-swap, Climbs, Climbs-top, find-Climbs,
}

abbrev IsDecided : Comparison → Type 0
IsDecided c = (c ≡ below) ⊎ (c ≡ above)

either-IsDecided :
    (first second : Bool) (c rest : Comparison)
    → IsDecided c
    → IsDecided rest
    → IsDecided (either first second c rest)
unfolding either
either-IsDecided true second c rest h k = h
either-IsDecided false false c rest h k = k
either-IsDecided false true below rest h k = inr refl
either-IsDecided false true above rest h k = inl refl
either-IsDecided false true neither rest h k = h

or_else-IsDecided :
    (o : Option Comparison) (c : Comparison)
    → ((d : Comparison) → o ≡ some d → IsDecided d)
    → IsDecided c
    → IsDecided (or_else o c)
unfolding or_else
or_else-IsDecided none c h k = k
or_else-IsDecided (some d) c h k = h d refl

compare_sizes-IsDecided : (a b : ℕ) → IsDecided (compare_sizes a b)
unfolding compare_sizes
compare_sizes-IsDecided a b = ground arith

compare_bindings-IsDecided :
    (a b : BindingType) (d : Comparison) → compare_bindings a b ≡ some d → IsDecided d
unfolding compare_bindings
compare_bindings-IsDecided local local d e = absurd (ground (arith, e))
compare_bindings-IsDecided local global d e = ground (arith, e)
compare_bindings-IsDecided local weak d e = ground (arith, e)
compare_bindings-IsDecided global local d e = ground (arith, e)
compare_bindings-IsDecided global global d e = absurd (ground (arith, e))
compare_bindings-IsDecided global weak d e = ground (arith, e)
compare_bindings-IsDecided weak local d e = ground (arith, e)
compare_bindings-IsDecided weak global d e = ground (arith, e)
compare_bindings-IsDecided weak weak d e = absurd (ground (arith, e))

compare_types-IsDecided :
    (a b : SymbolType) (d : Comparison) → compare_types a b ≡ some d → IsDecided d
unfolding compare_types
compare_types-IsDecided a b d e = ground (arith, e)

edge_comparator-IsDecided : (s t : Symbol) → IsDecided (edge_comparator s t)
unfolding edge_comparator
edge_comparator-IsDecided s t =
    or_else-IsDecided _ _ (compare_types-IsDecided s.symbol_type t.symbol_type) (
      either-IsDecided _ _ _ _ (inl refl) (
        either-IsDecided _ _ _ _ (inl refl) (
          either-IsDecided _ _ _ _ (inr refl) (
            either-IsDecided _ _ _ _ (inl refl) (
              or_else-IsDecided _ _ (compare_bindings-IsDecided s.binding_type t.binding_type)
                (compare_sizes-IsDecided s.size t.size))))))

link_roots-IsJoined :
    (c : Comparison) (parent : List ℕ) (a b : ℕ)
    → IsDecided c
    → IsForest parent
    → get_elem? parent a ≡ some a
    → get_elem? parent b ≡ some b
    → a < length parent
    → b < length parent
    → IsJoined parent a b (link_roots c a b parent)
unfolding link_roots
link_roots-IsJoined below parent a b d forest a-root b-root ha hb =
    set-IsJoined parent a b forest a-root b-root ha
link_roots-IsJoined above parent a b d forest a-root b-root ha hb =
    IsJoined-swap parent (set parent b a) b a (set-IsJoined parent b a forest b-root a-root hb)
link_roots-IsJoined neither parent a b (inl e) forest a-root b-root ha hb =
    absurd (ground (arith, e))
link_roots-IsJoined neither parent a b (inr e) forest a-root b-root ha hb =
    absurd (ground (arith, e))

-- A join of two indices merges the trees of their roots, in one direction or the other.
pub join-IsJoined :
    (sorted : List Symbol) (parent : List ℕ) (x₁ x₂ : ℕ)
    → IsForest parent
    → length parent ≡ length sorted
    → x₁ < length parent
    → x₂ < length parent
    → (r₁ : ℕ) × (r₂ : ℕ) × ((n : ℕ) × Climbs parent r₁ n x₁)
      × ((n : ℕ) × Climbs parent r₂ n x₂)
      × Returns (join sorted parent x₁ x₂) (IsJoined parent r₁ r₂)
unfolding join set_edge symbol_at
join-IsJoined sorted parent x₁ x₂ forest size h₁ h₂ =
    let ((r₁, p₁), run₁, (same₁, (n₁, c₁))) = find-Climbs parent x₁ forest h₁ in
    let ((r₂, p₂), run₂, (same₂, (n₂, c₂))) = find-Climbs parent x₂ forest h₂ in
    let root₁ = Climbs-top parent r₁ n₁ x₁ c₁ in
    let root₂ = Climbs-top parent r₂ n₂ x₂ c₂ in
    let in₁ = get_elem?-below parent r₁ r₁ root₁ in
    let in₂ = get_elem?-below parent r₂ r₂ root₂ in
    let (s, at₁) = get_elem?-lt sorted r₁ (omega (arith, in₁, size)) in
    let (t, at₂) = get_elem?-lt sorted r₂ (omega (arith, in₂, size)) in
    (
      r₁,
      r₂,
      (n₁, c₁),
      (n₂, c₂),
      (
        link_roots (edge_comparator s t) r₁ r₂ parent,
        ground (arith, run₁, same₁, run₂, same₂, at₁, at₂),
        link_roots-IsJoined (edge_comparator s t) parent r₁ r₂ (edge_comparator-IsDecided s t)
            forest root₁ root₂ in₁ in₂,
      ),
    )
