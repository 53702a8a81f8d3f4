-- ===== src/Symbols/Aliases/Construction.antt =====
-- constructByAddress of SymbolAliasFinder in src/elf/symbol.cpp: its outer loop and what its result
-- tells about the symbols.
use egalito.Base.{
  ℕ, zero, suc, ◌+◌, ◌<◌, ◌≤◌, ◌≡◌, refl, ◌∙◌, sym, ap, subst, true, false, List, [], ◌∷◌, some,
  arith, inl, inr, length, get_elem?, ==_iff, Bool-cases, get_elem?-below,
}
use egalito.Base.Result.{ok, Returns, bind-ok}
use egalito.Symbols.{Symbol}
use egalito.Symbols.Aliases.{
  is_file, join_following, join_aliases, construct_by_address, get_representative_index,
}
use egalito.Symbols.Aliases.Roots.{
  count_roots-length, Climbs, Climbs-parent, Climbs-unique, top, find-Climbs,
}
use egalito.UnionFind.{find, new}
use egalito.UnionFind.Forest.{new-roots}
use egalito.Symbols.Aliases.Classes.{IsAlike, IsAlike-refl, IsSound, Together, Grows}
use egalito.Symbols.Aliases.Following.{
  StandAt, StandAt-tail, Shares, IsAlias, join_following-Follows,
}

-- The order that std::sort gives.
abbrev pub IsSorted : List Symbol → Type 0
IsSorted sorted =
    (x y : ℕ) (s t : Symbol)
    → x ≤ y
    → get_elem? sorted x ≡ some s
    → get_elem? sorted y ≡ some t
    → s.address ≤ t.address

-- What the outer loop does from the i-th symbol on.
abbrev Classifies : List Symbol → ℕ → List Symbol → List ℕ → List ℕ → Type 0
Classifies sorted i ss parent parent' =
    IsSound sorted parent'
    × Grows parent parent'
    × ((a b : ℕ) (s t : Symbol)
        → a < b
        → get_elem? ss a ≡ some s
        → get_elem? ss b ≡ some t
        → s.address ≡ t.address
        → is_file s.symbol_type ≡ false
        → IsAlias s t
        → Together parent' (i + a) (i + b))

sorted-Shares :
    (sorted : List Symbol) (i : ℕ) (s : Symbol) (ts : List Symbol) (k : ℕ) (t : Symbol)
    → IsSorted sorted
    → get_elem? sorted i ≡ some s
    → StandAt sorted (suc i) ts
    → get_elem? ts k ≡ some t
    → s.address ≡ t.address
    → Shares s k ts
sorted-Shares sorted i s ts k t order at stand at-t same h u low at-u =
    let before = order i (suc i + h) s u (omega arith) at (stand h u at-u) in
    let after =
      order (suc i + h) (suc i + k) u t (omega (arith, low)) (stand h u at-u) (stand k t at-t) in
    (==_iff s.address u.address).1 (omega (arith, before, after, same))

-- What one round of the outer loop does.
round-Follows :
    (sorted : List Symbol) (i : ℕ) (s : Symbol) (ts : List Symbol) (parent : List ℕ)
    → IsSound sorted parent
    → get_elem? sorted i ≡ some s
    → StandAt sorted (suc i) ts
    → Returns
        (elim (is_file s.symbol_type) [
          | true ↦ ok parent
          | false ↦ join_following sorted i s (suc i) ts parent
        ])
        (λ parent'.
          IsSound sorted parent'
          × Grows parent parent'
          × (is_file s.symbol_type ≡ false
              → (k : ℕ) (t : Symbol) → get_elem? ts k ≡ some t
              → Shares s k ts
              → IsAlias s t
              → Together parent' i (suc i + k)))
round-Follows sorted i s ts parent sound at stand = elim (Bool-cases (is_file s.symbol_type)) [
  | inl e ↦ (
    parent,
    ground (arith, e),
    (sound, (λ x y h. h), λ not-file. absurd (ground (arith, e, not-file))),
  )
  | inr e ↦
      let (parent', run, (sound', grows, together)) =
        join_following-Follows sorted i s (suc i) ts parent sound at stand in
      (parent', ground (arith, e, run), (sound', grows, λ _. together))
]

join_aliases-Classifies :
    (sorted : List Symbol) (i : ℕ) (ss : List Symbol) (parent : List ℕ)
    → IsSorted sorted
    → IsSound sorted parent
    → StandAt sorted i ss
    → Returns (join_aliases sorted i ss parent) (Classifies sorted i ss parent)
unfolding join_aliases
join_aliases-Classifies sorted i [] parent order sound stand =
    (parent, refl, (sound, (λ x y h. h), λ a b s t low e. absurd (ground (arith, e))))
join_aliases-Classifies sorted i (s ∷ ss) parent order sound stand =
    let at : get_elem? sorted i ≡ some s =
      subst (λ m. get_elem? sorted m ≡ some s) (omega arith) (stand zero s refl) in
    let stand' = StandAt-tail sorted i s ss stand in
    let (p₁, run₁, (sound₁, grows₁, here)) = round-Follows sorted i s ss parent sound at stand' in
    let (p₂, run₂, (sound₂, grows₂, later)) =
      join_aliases-Classifies sorted (suc i) ss p₁ order sound₁ stand' in
    (
      p₂,
      bind-ok _ (λ p. join_aliases sorted (suc i) ss p) p₁ (ok p₂) run₁ run₂,
      (
        sound₂,
        λ x y h. grows₂ x y (grows₁ x y h),
        classify sorted i s ss p₁ p₂ at stand' order grows₂ here later,
      ),
    )
  where
    classify :
        (sorted : List Symbol) (i : ℕ) (s : Symbol) (ss : List Symbol) (p₁ p₂ : List ℕ)
        → get_elem? sorted i ≡ some s
        → StandAt sorted (suc i) ss
        → IsSorted sorted
        → Grows p₁ p₂
        → (is_file s.symbol_type ≡ false
            → (k : ℕ) (t : Symbol) → get_elem? ss k ≡ some t
            → Shares s k ss
            → IsAlias s t
            → Together p₁ i (suc i + k))
        → ((a b : ℕ) (u t : Symbol)
            → a < b
            → get_elem? ss a ≡ some u
            → get_elem? ss b ≡ some t
            → u.address ≡ t.address
            → is_file u.symbol_type ≡ false
            → IsAlias u t
            → Together p₂ (suc i + a) (suc i + b))
        → (a b : ℕ) (u t : Symbol) → a < b
        → get_elem? (s ∷ ss) a ≡ some u
        → get_elem? (s ∷ ss) b ≡ some t
        → u.address ≡ t.address
        → is_file u.symbol_type ≡ false
        → IsAlias u t
        → Together p₂ (i + a) (i + b)
    classify sorted i s ss p₁ p₂ at stand order grows here later a zero u t low e f same not-file
          alias =
        absurd (omega (arith, low))
    classify sorted i s ss p₁ p₂ at stand order grows here later zero (suc k) u t low e f same
          not-file alias =
        let s-is : s ≡ u = ground (arith, e) in
        let same' : s.address ≡ t.address = ap (λ (v : Symbol). v.address) s-is ∙ same in
        let shares = sorted-Shares sorted i s ss k t order at stand f same' in
        let not-file' = subst (λ v. is_file v.symbol_type ≡ false) (sym s-is) not-file in
        let found = here not-file' k t f shares (subst (λ v. IsAlias v t) (sym s-is) alias) in
        subst (λ x. Together p₂ x (i + suc k)) (omega arith)
          (subst (Together p₂ i) (omega arith) (grows i (suc i + k) found))
    classify sorted i s ss p₁ p₂ at stand order grows here later (suc a) (suc b) u t low e f same
          not-file alias =
        let found = later a b u t (omega (arith, low)) e f same not-file alias in
        subst (λ x. Together p₂ x (i + suc b)) (omega arith)
          (subst (Together p₂ (suc i + a)) (omega arith) found)

-- At first each index is its own root.
new-IsSound : (sorted : List Symbol) → IsSound sorted (new (length sorted))
new-IsSound sorted =
    let (len, roots) = new-roots (length sorted) in
    let own : (x : ℕ) → x < length sorted → Climbs (new (length sorted)) x 0 x =
      λ x h. top (roots x h) in
    record {
      forest = record {
        climbs = λ x h. (
          x,
          0,
          own x (omega (arith, h, len)),
          omega (arith, count_roots-length 0 (new (length sorted))),
        );
      };
      size = len;
      alike = λ r n x c.
          let (y, e) = Climbs-parent (new (length sorted)) r n x c in
          let h : x < length sorted =
            omega (arith, get_elem?-below (new (length sorted)) x y e, len) in
          let same : r ≡ x = Climbs-unique (new (length sorted)) r x n 0 x c (own x h) in
          subst (IsAlike sorted x) (sym same) (IsAlike-refl sorted x h);
    }

represent :
    (sorted : List Symbol) (parent : List ℕ) (x r n : ℕ)
    → IsSound sorted parent
    → Climbs parent r n x
    → get_representative_index parent x ≡ ok r
unfolding get_representative_index
represent sorted parent x r n sound c =
    let (y, e) = Climbs-parent parent r n x c in
    let ((r', p), run, (_, (m, d))) =
      find-Climbs parent x sound.forest (get_elem?-below parent x y e) in
    let same : r' ≡ r = Climbs-unique parent r' r m n x d c in
    bind-ok (find parent x) (λ (root, parent'). ok root) (r', p) (ok r) run (ap ok same)

-- What the representatives of the finder tell about the symbols.
abbrev pub Represents : List Symbol → List ℕ → Type 0
Represents sorted parent =
    ((x : ℕ) → x < length sorted → Returns (get_representative_index parent x) (IsAlike sorted x))
    × ((x y : ℕ) (s t : Symbol)
        → x < y
        → get_elem? sorted x ≡ some s
        → get_elem? sorted y ≡ some t
        → s.address ≡ t.address
        → is_file s.symbol_type ≡ false
        → IsAlias s t
        → get_representative_index parent x ≡ get_representative_index parent y)

-- For a list of symbols in the order of their addresses constructByAddress returns. Then
-- getRepresentativeIndex returns for each index of the list the index of a symbol with the same
-- address and section, and it is one index for any two symbols that are not files and have one address
-- and one section.
pub construct_by_address-Represents :
    (sorted : List Symbol)
    → IsSorted sorted
    → Returns (construct_by_address sorted) (Represents sorted)
unfolding construct_by_address
construct_by_address-Represents sorted order =
    let (parent, run, (sound, grows, together)) =
      join_aliases-Classifies sorted 0 sorted (new (length sorted)) order (new-IsSound sorted)
        (λ k t e. subst (λ m. get_elem? sorted m ≡ some t) (omega arith) e) in
    (
      parent,
      run,
      (
        λ x h.
            let (r, n, c, low) = sound.forest.climbs x (omega (arith, h, sound.size)) in
            (r, represent sorted parent x r n sound c, sound.alike r n x c),
        λ x y s t low at-x at-y address not-file alias.
            let (r, (n, c), (m, d)) = together x y s t low at-x at-y address not-file alias in
            represent sorted parent x r n sound (subst (Climbs parent r n) (omega arith) c)
            ∙ sym (represent sorted parent y r m sound (subst (Climbs parent r m) (omega arith) d)),
      ),
    )
