-- ===== src/Symbols/Aliases/Following.antt =====
-- The inner loop of constructByAddress.
use egalito.Base.{
  ℕ, zero, suc, ◌+◌, ◌≤◌, ◌≡◌, refl, sym, subst, Bool, true, false, List, [], ◌∷◌, some, arith, inl,
  inr, get_elem?, ◌==◌, ==_iff, Bool-cases, if◌then◌else◌,
}
use egalito.Base.Result.{ok, Returns}
use egalito.Symbols.{Symbol}
use egalito.Symbols.Aliases.{is_file, join, join_following}
use egalito.Symbols.Aliases.Classes.{IsAlike, IsSound, Together, Grows, join-IsSound}

-- The symbols of a list stand in the sorted list from some index on.
abbrev pub StandAt : List Symbol → ℕ → List Symbol → Type 0
StandAt sorted j ts =
    (k : ℕ) (t : Symbol) → get_elem? ts k ≡ some t → get_elem? sorted (j + k) ≡ some t

pub StandAt-tail :
    (sorted : List Symbol) (j : ℕ) (t : Symbol) (ts : List Symbol)
    → StandAt sorted j (t ∷ ts)
    → StandAt sorted (suc j) ts
StandAt-tail sorted j t ts stand k u e =
    let same : j + suc k ≡ suc j + k = omega arith in
    subst (λ m. get_elem? sorted m ≡ some u) same (stand (suc k) u e)

-- The address is that of s up to the k-th symbol of a list.
abbrev pub Shares : Symbol → ℕ → List Symbol → Type 0
Shares s k ts =
    (h : ℕ) (u : Symbol) → h ≤ k → get_elem? ts h ≡ some u → (s.address == u.address) ≡ true

abbrev pub IsAlias : Symbol → Symbol → Type 0
IsAlias s t = (is_file t.symbol_type ≡ false) × ((s.shndx == t.shndx) ≡ true)

-- What the inner loop does from the j-th symbol on.
abbrev pub Follows : List Symbol → ℕ → Symbol → ℕ → List Symbol → List ℕ → List ℕ → Type 0
Follows sorted i s j ts parent parent' =
    IsSound sorted parent'
    × Grows parent parent'
    × ((k : ℕ) (t : Symbol)
        → get_elem? ts k ≡ some t
        → Shares s k ts
        → IsAlias s t
        → Together parent' i (j + k))

abbrev joins : Symbol → Symbol → Bool
joins s t = if is_file t.symbol_type then false else s.shndx == t.shndx

step-IsSound :
    (sorted : List Symbol) (parent : List ℕ) (i j : ℕ) (s t : Symbol)
    → IsSound sorted parent
    → get_elem? sorted i ≡ some s
    → get_elem? sorted j ≡ some t
    → (s.address == t.address) ≡ true
    → Returns
        (elim (joins s t) [ true ↦ join sorted parent i j | false ↦ ok parent ])
        (λ parent'.
          IsSound sorted parent' × Grows parent parent' × (IsAlias s t → Together parent' i j))
step-IsSound sorted parent i j s t sound at-i at-j address = elim (Bool-cases (joins s t)) [
  | inl e ↦
      let a : IsAlike sorted i j = record {
        first = s;
        second = t;
        at_first = at-i;
        at_second = at-j;
        address = (==_iff s.address t.address).0 address;
        section = (==_iff s.shndx t.shndx).0 (ground (arith, e));
      } in
      let (parent', run, (sound', grows, together)) = join-IsSound sorted parent i j sound a in
      (parent', ground (arith, e, run), (sound', grows, λ _. together))
  | inr e ↦ (
    parent,
    ground (arith, e),
    (sound, (λ x y t. t), λ (not-file, same). absurd (ground (arith, e, not-file, same))),
  )
]

follow-on :
    (sorted : List Symbol) (i : ℕ) (s : Symbol) (j : ℕ) (t : Symbol) (ts : List Symbol)
    (parent p₁ p₂ : List ℕ)
    → (s.address == t.address) ≡ true
    → (elim (joins s t) [ true ↦ join sorted parent i j | false ↦ ok parent ]) ≡ ok p₁
    → join_following sorted i s (suc j) ts p₁ ≡ ok p₂
    → join_following sorted i s j (t ∷ ts) parent ≡ ok p₂
unfolding join_following
follow-on sorted i s j t ts parent p₁ p₂ e run₁ run₂ = ground (arith, e, run₁, run₂)

pub join_following-Follows :
    (sorted : List Symbol) (i : ℕ) (s : Symbol) (j : ℕ) (ts : List Symbol) (parent : List ℕ)
    → IsSound sorted parent
    → get_elem? sorted i ≡ some s
    → StandAt sorted j ts
    → Returns (join_following sorted i s j ts parent) (Follows sorted i s j ts parent)
unfolding join_following
join_following-Follows sorted i s j [] parent sound at stand =
    (parent, refl, (sound, (λ x y t. t), λ k t e. absurd (ground (arith, e))))
join_following-Follows sorted i s j (t ∷ ts) parent sound at stand =
    elim (Bool-cases (s.address == t.address)) [
      | inl e ↦
          let at-j : get_elem? sorted j ≡ some t =
            subst (λ m. get_elem? sorted m ≡ some t) (omega arith) (stand zero t refl) in
          let (p₁, run₁, (sound₁, grows₁, here)) =
            step-IsSound sorted parent i j s t sound at at-j e in
          let (p₂, run₂, (sound₂, grows₂, later)) =
            join_following-Follows sorted i s (suc j) ts p₁ sound₁ at
              (StandAt-tail sorted j t ts stand) in
          (
            p₂,
            follow-on sorted i s j t ts parent p₁ p₂ e run₁ run₂,
            (
              sound₂,
              λ x y h. grows₂ x y (grows₁ x y h),
              together i s j t ts p₁ p₂ grows₂ here later,
            ),
          )
      | inr e ↦ (
        parent,
        ground (arith, e),
        (
          sound,
          λ x y h. h,
          λ k u at-k shares alias. absurd (ground (arith, e, shares zero t (omega arith) refl)),
        ),
      )
    ]
  where
    together :
        (i : ℕ) (s : Symbol) (j : ℕ) (t : Symbol) (ts : List Symbol) (p₁ p₂ : List ℕ)
        → Grows p₁ p₂
        → (IsAlias s t → Together p₁ i j)
        → ((k : ℕ) (u : Symbol)
            → get_elem? ts k ≡ some u
            → Shares s k ts
            → IsAlias s u
            → Together p₂ i (suc j + k))
        → (k : ℕ) (u : Symbol) → get_elem? (t ∷ ts) k ≡ some u
        → Shares s k (t ∷ ts)
        → IsAlias s u
        → Together p₂ i (j + k)
    together i s j t ts p₁ p₂ grows here later zero u e shares alias =
        let same : t ≡ u = ground (arith, e) in
        subst (Together p₂ i) (omega arith) (grows i j (here (subst (IsAlias s) (sym same) alias)))
    together i s j t ts p₁ p₂ grows here later (suc k) u e shares alias =
        subst (Together p₂ i) (omega arith)
          (later k u e (λ h v low at. shares (suc h) v (omega (arith, low)) at) alias)
