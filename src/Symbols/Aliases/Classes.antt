-- ===== src/Symbols/Aliases/Classes.antt =====
-- The classes of aliases that constructByAddress makes.
use egalito.Base.{
  ℕ, ◌<◌, ◌≡◌, refl, ◌∙◌, sym, ap, subst, List, some, arith, inl, inr, length, get_elem?,
  get_elem?-lt, get_elem?-below,
}
use egalito.Base.Result.{Returns}
use egalito.Symbols.{Symbol}
use egalito.Symbols.Aliases.{join}
use egalito.Symbols.Aliases.Roots.{IsForest, IsJoined, Climbs, Climbs-parent, Climbs-unique}
use egalito.Symbols.Aliases.Decided.{join-IsJoined}

-- Two indices stand for symbols with one address and one section.
pub record IsAlike (sorted : List Symbol) (x y : ℕ) : Type 0 where
  pub first : Symbol
  pub second : Symbol
  pub at_first : get_elem? sorted x ≡ some first
  pub at_second : get_elem? sorted y ≡ some second
  pub address : first.address ≡ second.address
  pub section : first.shndx ≡ second.shndx

pub IsAlike-refl : (sorted : List Symbol) (x : ℕ) → x < length sorted → IsAlike sorted x x
IsAlike-refl sorted x h =
    let (s, at) = get_elem?-lt sorted x h in
    record { first = s; second = s; at_first = at; at_second = at; address = refl; section = refl }

IsAlike-sym : (sorted : List Symbol) (x y : ℕ) → IsAlike sorted x y → IsAlike sorted y x
IsAlike-sym sorted x y a = record {
  first = a.second;
  second = a.first;
  at_first = a.at_second;
  at_second = a.at_first;
  address = sym a.address;
  section = sym a.section;
}

IsAlike-trans :
    (sorted : List Symbol) (x y z : ℕ)
    → IsAlike sorted x y
    → IsAlike sorted y z
    → IsAlike sorted x z
IsAlike-trans sorted x y z a b =
    let same : a.second ≡ b.first = ground (arith, a.at_second, b.at_first) in
    record {
      first = a.first;
      second = b.second;
      at_first = a.at_first;
      at_second = b.at_second;
      address = a.address ∙ ap (λ (s : Symbol). s.address) same ∙ b.address;
      section = a.section ∙ ap (λ (s : Symbol). s.shndx) same ∙ b.section;
    }

-- The state of the finder: each index is like its root.
pub record IsSound (sorted : List Symbol) (parent : List ℕ) : Type 0 where
  pub forest : IsForest parent
  pub size : length parent ≡ length sorted
  pub alike : (r n x : ℕ) → Climbs parent r n x → IsAlike sorted x r

-- Two indices have one root.
abbrev pub Together : List ℕ → ℕ → ℕ → Type 0
Together parent x y = (r : ℕ) × ((n : ℕ) × Climbs parent r n x) × ((m : ℕ) × Climbs parent r m y)

abbrev pub Grows : List ℕ → List ℕ → Type 0
Grows parent parent' = (x y : ℕ) → Together parent x y → Together parent' x y

joined-IsAlike :
    (sorted : List Symbol) (parent parent' : List ℕ) (i j r₁ r₂ : ℕ)
    → IsSound sorted parent
    → IsAlike sorted i j
    → (n₁ n₂ : ℕ) → Climbs parent r₁ n₁ i
    → Climbs parent r₂ n₂ j
    → IsJoined parent r₁ r₂ parent'
    → (r n x : ℕ) → Climbs parent' r n x
    → IsAlike sorted x r
joined-IsAlike sorted parent parent' i j r₁ r₂ sound a n₁ n₂ c₁ c₂ joined r n x c =
    let (y, e) = Climbs-parent parent' r n x c in
    let inside = get_elem?-below parent' x y e in
    let (s, k, d, low) = sound.forest.climbs x (omega (arith, inside, joined.size)) in
    let (m, d') = joined.follows s k x d in
    let r-is : joined.root s ≡ r = Climbs-unique parent' (joined.root s) r m n x d' c in
    let x-s = sound.alike s k x d in
    let roots : IsAlike sorted r₁ r₂ =
      IsAlike-trans sorted r₁ i r₂ (IsAlike-sym sorted i r₁ (sound.alike r₁ n₁ i c₁))
        (IsAlike-trans sorted i j r₂ a (sound.alike r₂ n₂ j c₂)) in
    subst (IsAlike sorted x) r-is (elim (joined.either s) [
      | inl same ↦ subst (IsAlike sorted x) (sym same) x-s
      | inr (inl (at, to)) ↦
          subst (IsAlike sorted x) (sym to)
            (IsAlike-trans sorted x r₁ r₂ (subst (IsAlike sorted x) at x-s) roots)
      | inr (inr (at, to)) ↦ subst (IsAlike sorted x) (sym to) (
          IsAlike-trans sorted x r₂ r₁ (subst (IsAlike sorted x) at x-s)
            (IsAlike-sym sorted r₁ r₂ roots))
    ])

pub join-IsSound :
    (sorted : List Symbol) (parent : List ℕ) (i j : ℕ)
    → IsSound sorted parent
    → IsAlike sorted i j
    → Returns
        (join sorted parent i j)
        (λ parent'. IsSound sorted parent' × Grows parent parent' × Together parent' i j)
join-IsSound sorted parent i j sound a =
    let hi = get_elem?-below sorted i a.first a.at_first in
    let hj = get_elem?-below sorted j a.second a.at_second in
    let (r₁, r₂, (n₁, c₁), (n₂, c₂), (parent', run, joined)) =
      join-IsJoined sorted parent i j sound.forest sound.size (omega (arith, hi, sound.size))
        (omega (arith, hj, sound.size)) in
    (
      parent',
      run,
      (
        record {
          forest = joined.forest;
          size = joined.size ∙ sound.size;
          alike = joined-IsAlike sorted parent parent' i j r₁ r₂ sound a n₁ n₂ c₁ c₂ joined;
        },
        λ x y (r, (n, c), (m, d)). (joined.root r, joined.follows r n x c, joined.follows r m y d),
        (
          joined.root r₁,
          joined.follows r₁ n₁ i c₁,
          subst (λ r. (m : ℕ) × Climbs parent' r m j) (sym joined.meets)
              (joined.follows r₂ n₂ j c₂),
        ),
      ),
    )
