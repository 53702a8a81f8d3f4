-- ===== src/Symbols/Aliases/Roots.antt =====
-- Trees of parents whose roots are joined in any direction, and the lengths of their paths.
use egalito.Base.{
  ℕ, zero, suc, ◌+◌, ◌<◌, ◌≤◌, ◌≡◌, refl, ◌∙◌, sym, ap, subst, true, false, List, [], ◌∷◌, some,
  arith, ◌==◌, ==_iff, Bool-cases, inl, inr, ◌⊎◌, length, length-set, get_elem?, set, if◌then◌else◌,
  get_elem?-set,
}
use egalito.Base.Result.{ok, Returns, bind-ok}
use egalito.UnionFind.{climb, find, parent_of}
use egalito.UnionFind.Forest.{set-same}

-- From x the parents lead to the root r in some steps.
pub data Climbs (parent : List ℕ) (r : ℕ) : ℕ → ℕ → Type 0 where
  top : get_elem? parent r ≡ some r → Climbs parent r 0 r
  up :
      (n x y : ℕ)
      → get_elem? parent x ≡ some y
      → (y == x) ≡ false
      → Climbs parent r n y
      → Climbs parent r (suc n) x

-- How many of the indices from i on are their own parents.
pub count_roots : ℕ → List ℕ → ℕ
count_roots i [] = 0
count_roots i (p ∷ ps) = (if p == i then 1 else 0) + count_roots (suc i) ps

pub record IsForest (parent : List ℕ) : Type 0 where
  pub climbs :
      (x : ℕ)
      → x < length parent
      → (r : ℕ) × (n : ℕ) × Climbs parent r n x × (n + count_roots 0 parent ≤ length parent)

pub count_roots-length : (i : ℕ) (ps : List ℕ) → count_roots i ps ≤ length ps
unfolding count_roots
count_roots-length i [] = omega arith
count_roots-length i (p ∷ ps) = ground (arith, count_roots-length (suc i) ps)

count_roots-set :
    (i k v w : ℕ) (ps : List ℕ)
    → get_elem? ps k ≡ some v
    → count_roots i (set ps k w) + (if v == i + k then 1 else 0)
      ≡ count_roots i ps + (if w == i + k then 1 else 0)
unfolding count_roots
count_roots-set i k v w [] e = absurd (ground (arith, e))
count_roots-set i zero v w (p ∷ ps) e = ground (arith, e)
count_roots-set i (suc k) v w (p ∷ ps) e =
    let rest = count_roots-set (suc i) k v w ps e in
    let same : i + suc k ≡ suc i + k = omega arith in rw same (ground (arith, rest))

count_roots-positive :
    (i k : ℕ) (ps : List ℕ) → get_elem? ps k ≡ some (i + k) → 0 < count_roots i ps
unfolding count_roots
count_roots-positive i k [] e = absurd (ground (arith, e))
count_roots-positive i zero (p ∷ ps) e = ground (arith, e)
count_roots-positive i (suc k) (p ∷ ps) e =
    let rest = count_roots-positive (suc i) k ps (e ∙ ap some (omega arith)) in omega (arith, rest)

pub Climbs-top : (parent : List ℕ) (r n x : ℕ) → Climbs parent r n x → get_elem? parent r ≡ some r
Climbs-top parent r n x (top e) = e
Climbs-top parent r n x (up m x' y e ne c) = Climbs-top parent r m y c

pub Climbs-parent :
    (parent : List ℕ) (r n x : ℕ) → Climbs parent r n x → (y : ℕ) × (get_elem? parent x ≡ some y)
Climbs-parent parent r n x (top e) = (r, e)
Climbs-parent parent r n x (up m x' y e ne c) = (y, e)

Climbs-climb :
    (parent : List ℕ) (r fuel n x : ℕ) → Climbs parent r n x → n < fuel → climb fuel parent x ≡ ok r
unfolding climb parent_of
Climbs-climb parent r zero n x c h = absurd (omega (arith, h))
Climbs-climb parent r (suc fuel) n x (top e) h = ground (arith, e)
Climbs-climb parent r (suc fuel) n x (up m x' y e ne c) h =
    let rest = Climbs-climb parent r fuel m y c (omega (arith, h)) in ground (arith, e, ne, rest)

-- A node has one root.
pub Climbs-unique :
    (parent : List ℕ) (r s n m x : ℕ) → Climbs parent r n x → Climbs parent s m x → r ≡ s
Climbs-unique parent r s n m x c d =
    let k = suc (n + m) in
    let one = Climbs-climb parent r k n x c (omega arith) in
    let two = Climbs-climb parent s k m x d (omega arith) in ground (arith, one, two)

-- In such trees find returns the root and changes nothing.
pub find-Climbs :
    (parent : List ℕ) (x : ℕ)
    → IsForest parent
    → x < length parent
    → Returns
        (find parent x)
        (λ (root, parent'). (parent' ≡ parent) × ((n : ℕ) × Climbs parent root n x))
unfolding find
find-Climbs parent x forest h =
    let (r, n, c, low) = forest.climbs x h in
    let e = Climbs-top parent r n x c in
    let some-root = count_roots-positive 0 r parent (e ∙ ap some (omega arith)) in
    (
      (r, set parent r r),
      bind-ok (climb (length parent) parent x) (λ root. ok (root, set parent root root)) r
          (ok (r, set parent r r))
          (Climbs-climb parent r (length parent) n x c (omega (arith, low, some-root))) refl,
      (set-same parent r r e, (n, c)),
    )

-- The root that a root has once the root a has the parent b.
abbrev pub redirect : ℕ → ℕ → ℕ → ℕ
redirect a b r = if a == r then b else r

module _ (parent : List ℕ) (a b : ℕ) (a-root : get_elem? parent a ≡ some a)
    (b-root : get_elem? parent b ≡ some b) (apart : (b == a) ≡ false)
    (inside : a < length parent) where
  at-root : get_elem? (set parent a b) b ≡ some b
  at-root = ground (arith, get_elem?-set parent a b b inside, apart, b-root)

  Climbs-set :
      (r n x : ℕ)
      → Climbs parent r n x
      → (m : ℕ) × Climbs (set parent a b) (redirect a b r) m x × (m ≤ suc n)
  Climbs-set r n x (top e) = elim (Bool-cases (a == r)) [
    | inl q ↦
        let at : get_elem? (set parent a b) r ≡ some b =
          ground (arith, get_elem?-set parent a r b inside, q) in
        let other : (b == r) ≡ false = subst (λ c. (b == c) ≡ false) ((==_iff a r).0 q) apart in
        let to : redirect a b r ≡ b = ground (arith, q) in
        (
          1,
          subst (λ s. Climbs (set parent a b) s 1 r) (sym to) (up 0 r b at other (top at-root)),
          omega arith,
        )
    | inr q ↦
        let at : get_elem? (set parent a b) r ≡ some r =
          ground (arith, get_elem?-set parent a r b inside, q, e) in
        let to : redirect a b r ≡ r = ground (arith, q) in
        (0, subst (λ s. Climbs (set parent a b) s 0 r) (sym to) (top at), omega arith)
  ]
  Climbs-set r n x (up m x' y e ne c) =
      let other : (a == x) ≡ false = elim (Bool-cases (a == x)) [
        | inl q ↦
            let same : a ≡ x = (==_iff a x).0 q in
            let at : get_elem? parent x ≡ some a =
              subst (λ k. get_elem? parent k ≡ some a) same a-root in
            let y-is : y ≡ x = ground (arith, at, e, same) in
            absurd (ground (arith, ne, (==_iff y x).1 y-is))
        | inr q ↦ q
      ] in
      let at : get_elem? (set parent a b) x ≡ some y =
        ground (arith, get_elem?-set parent a x b inside, other, e) in
      let (k, rest, low) = Climbs-set r m y c in (suc k, up k x y at ne rest, omega (arith, low))

  set-IsForest : IsForest parent → IsForest (set parent a b)
  set-IsForest forest =
      let fewer = count_roots-set 0 a a b parent a-root in
      let same : (a == 0 + a) ≡ true = (==_iff a (0 + a)).1 (omega arith) in
      let differ : (b == 0 + a) ≡ false = elim (Bool-cases (b == 0 + a)) [
        | inl q ↦ absurd (ground (arith, apart, (==_iff b (0 + a)).0 q, (==_iff b a).1))
        | inr q ↦ q
      ] in
      let lost : count_roots 0 (set parent a b) + 1 ≡ count_roots 0 parent =
        ground (arith, fewer, same, differ) in
      record {
        climbs = λ x h.
            let (r, n, c, low) = forest.climbs x (omega (arith, h, length-set parent a b)) in
            let (m, c', few) = Climbs-set r n x c in
            (redirect a b r, m, c', omega (arith, low, few, lost, length-set parent a b));
      }

-- What a join does: the roots change by a function that gives the roots of both one value.
pub record IsJoined (parent : List ℕ) (r₁ r₂ : ℕ) (parent' : List ℕ) : Type 0 where
  pub forest : IsForest parent'
  pub size : length parent' ≡ length parent
  pub root : ℕ → ℕ
  pub follows : (r n x : ℕ) → Climbs parent r n x → (m : ℕ) × Climbs parent' (root r) m x
  pub meets : root r₁ ≡ root r₂
  pub either : (r : ℕ) → (root r ≡ r) ⊎ (((r ≡ r₁) × (root r ≡ r₂)) ⊎ ((r ≡ r₂) × (root r ≡ r₁)))

pub set-IsJoined :
    (parent : List ℕ) (a b : ℕ)
    → IsForest parent
    → get_elem? parent a ≡ some a
    → get_elem? parent b ≡ some b
    → a < length parent
    → IsJoined parent a b (set parent a b)
set-IsJoined parent a b forest a-root b-root inside = elim (Bool-cases (b == a)) [
  | inl q ↦
      let b-is : b ≡ a = (==_iff b a).0 q in
      let unchanged : set parent a b ≡ parent = set-same parent a b (a-root ∙ ap some (sym b-is)) in
      record {
        forest = subst IsForest (sym unchanged) forest;
        size = ap length unchanged;
        root = λ r. r;
        follows = λ r n x c. (n, subst (λ p. Climbs p r n x) (sym unchanged) c);
        meets = sym b-is;
        either = λ r. inl refl;
      }
  | inr q ↦ record {
    forest = set-IsForest parent a b a-root b-root q inside forest;
    size = length-set parent a b;
    root = redirect a b;
    follows = λ r n x c.
        let (m, c', few) = Climbs-set parent a b a-root b-root q inside r n x c in (m, c');
    meets = ground (arith, (==_iff a a).1 refl);
    either = λ r. elim (Bool-cases (a == r)) [
      | inl e ↦ inr (inl (sym ((==_iff a r).0 e), ground (arith, e)))
      | inr e ↦ inl (ground (arith, e))
    ];
  }
]

pub IsJoined-swap :
    (parent parent' : List ℕ) (a b : ℕ) → IsJoined parent a b parent' → IsJoined parent b a parent'
IsJoined-swap parent parent' a b j = record {
  forest = j.forest;
  size = j.size;
  root = j.root;
  follows = j.follows;
  meets = sym j.meets;
  either = λ r. elim (j.either r) [
    | inl e ↦ inl e
    | inr e ↦ elim e [ inl l ↦ inr (inr l) | inr l ↦ inr (inl l) ]
  ];
}
