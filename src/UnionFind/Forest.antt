-- ===== src/UnionFind/Forest.antt =====
-- The parent vector of src/elf/unionfind.cpp as a forest, in which no parent has a larger index: the
-- representatives that `find` gives, and what `join` does to them.
use egalito.Base.{
  ℕ, zero, suc, ◌+◌, ◌≤◌, ◌<◌, ◌≡◌, refl, ap, ap₂, sym, subst, ◌∙◌, inl, inr, false, ◌||◌, List, [],
  ◌∷◌, ◌++◌, some, arith, length, get_elem?, set, length-set, length-append, Bool-cases, ==_iff,
  ltb, ◌==◌, if◌then◌else◌, min, get_elem?-set,
}
use egalito.Base.Result.{ok, Returns}
use egalito.UnionFind.{push_indices, new, climb, find, set_edge, join}

-- Each index has a parent that is not larger.
abbrev pub IsForest : List ℕ → Type 0
IsForest parent = (x : ℕ) → x < length parent → (p : ℕ) × (get_elem? parent x ≡ some p) × (p ≤ x)

-- `r` is the representative of x: the loop of `find` ends there, whatever fuel above x it has.
abbrev pub HasRoot : List ℕ → ℕ → ℕ → Type 0
HasRoot parent x r = (fuel : ℕ) → x < fuel → climb fuel parent x ≡ ok r

climb-here : (parent : List ℕ) (x : ℕ) → get_elem? parent x ≡ some x → HasRoot parent x x
unfolding climb
climb-here parent x e zero h = elim h [ ]
climb-here parent x e (suc fuel) h = ground (arith, e)

climb-step :
    (parent : List ℕ) (x p r : ℕ)
    → get_elem? parent x ≡ some p
    → p < x
    → HasRoot parent p r
    → HasRoot parent x r
unfolding climb
climb-step parent x p r e low root zero h = elim h [ ]
climb-step parent x p r e low root (suc fuel) h = ground (arith, e, root fuel (omega arith))

-- The loop of `find` ends, at an index that is its own parent.
pub climb-HasRoot :
    (parent : List ℕ) (k x : ℕ)
    → IsForest parent
    → x < k
    → x < length parent
    → (r : ℕ) × (r ≤ x) × (get_elem? parent r ≡ some r) × HasRoot parent x r
climb-HasRoot parent zero x forest low bound = elim low [ ]
climb-HasRoot parent (suc k) x forest low bound =
    let (p, e, le) = forest x bound in
    elim (Bool-cases (p == x)) [
      | inl same ↦
          let e' : get_elem? parent x ≡ some x = e ∙ ap some ((==_iff p x).0 same) in
          (x, omega arith, e', climb-here parent x e')
      | inr other ↦
          let less : p < x = ground arith in
          let (r, low', self, root) = climb-HasRoot parent k p forest (omega arith) (omega arith) in
          (r, omega arith, self, climb-step parent x p r e less root)
    ]

pub set-same : (xs : List ℕ) (i v : ℕ) → get_elem? xs i ≡ some v → set xs i v ≡ xs
set-same [] i v e = refl
set-same (x ∷ xs) zero v e = ground arith
set-same (x ∷ xs) (suc i) v e = ap (◌∷◌ x) (set-same xs i v e)

-- `find` returns, for each index of the vector, its representative: an index that is its own parent
-- and not larger than the argument. Its assignment changes nothing: no path is compressed.
pub find-HasRoot :
    (parent : List ℕ) (x : ℕ)
    → IsForest parent
    → x < length parent
    → Returns (find parent x) (λ res.
      (res.0 ≤ x)
      × (get_elem? parent res.0 ≡ some res.0)
      × HasRoot parent x res.0
      × (res.1 ≡ parent))
unfolding find
find-HasRoot parent x forest bound =
    let (r, low, self, root) = climb-HasRoot parent (suc x) x forest (omega arith) bound in
    (
      (r, set parent r r),
      rw (root (length parent) bound),
      (low, self, root, set-same parent r r self),
    )

HasRoot-unique : (parent : List ℕ) (x r s : ℕ) → HasRoot parent x r → HasRoot parent x s → r ≡ s
HasRoot-unique parent x r s a b = cc (a (suc x) (omega arith), b (suc x) (omega arith))

-- The edge that `set_edge` adds: from the larger of two different roots to the smaller.
abbrev linked : List ℕ → ℕ → ℕ → List ℕ
linked parent small big = set parent big small

module _ (parent : List ℕ) (small big : ℕ) (forest : IsForest parent) (less : small < big)
    (bound : big < length parent) (small_root : get_elem? parent small ≡ some small)
    (big_root : get_elem? parent big ≡ some big) where
  linked-IsForest : IsForest (linked parent small big)
  linked-IsForest x h =
      let (p, e, le) = forest x (omega (arith, length-set parent big small)) in
      (
        if big == x then small else p,
        ground (arith, get_elem?-set parent big x small),
        ground arith,
      )

  -- Each index keeps its representative, but the merged root has the other one.
  linked-HasRoot :
      (k x r : ℕ)
      → x < k
      → x < length parent
      → HasRoot parent x r
      → HasRoot (linked parent small big) x (if r == big then small else r)
  linked-HasRoot zero x r low h root = elim low [ ]
  linked-HasRoot (suc k) x r low h root = elim (Bool-cases (x == big)) [
    | inl top ↦
        let e : x ≡ big = (==_iff x big).0 top in
        let r_big : r ≡ big =
          HasRoot-unique parent big r big (subst (λ y. HasRoot parent y r) e root)
            (climb-here parent big big_root) in
        subst (λ y. HasRoot (linked parent small big) y (if r == big then small else r)) (sym e)
          (subst (λ y. HasRoot (linked parent small big) big (if y == big then small else y))
            (sym r_big)
            (rw ((==_iff big big).1 refl) (
              climb-step (linked parent small big) big small small
                (ground (arith, get_elem?-set parent big big small)) less
                (climb-here (linked parent small big) small
                  (ground (arith, get_elem?-set parent big small small))))))
    | inr elsewhere ↦
        let (p, e, le) = forest x h in
        let e' : get_elem? (linked parent small big) x ≡ some p =
          ground (arith, get_elem?-set parent big x small) in
        elim (Bool-cases (p == x)) [
          | inl same ↦
              let p_x : p ≡ x = (==_iff p x).0 same in
              let r_x : r ≡ x =
                HasRoot-unique parent x r x root (climb-here parent x (e ∙ ap some p_x)) in
              subst (λ y. HasRoot (linked parent small big) x (if y == big then small else y))
                (sym r_x) (rw elsewhere (climb-here (linked parent small big) x (e' ∙ ap some p_x)))
          | inr other ↦
              let lower : p < x = ground arith in
              let (r', _, _, root') =
                climb-HasRoot parent (suc p) p forest (omega arith) (omega arith) in
              let r_r' : r' ≡ r =
                HasRoot-unique parent x r' r (climb-step parent x p r' e lower root') root in
              climb-step (linked parent small big) x p (if r == big then small else r) e' lower (
                linked-HasRoot k p r (omega arith) (omega arith)
                  (subst (HasRoot parent p) r_r' root'))
        ]
  ]

-- What a vector is after two sets of another are merged.
pub record Merges (parent : List ℕ) (r₁ r₂ : ℕ) (parent' : List ℕ) : Type 0 where
  pub forest : IsForest parent'
  pub same_length : length parent' ≡ length parent
  pub roots :
      (x r : ℕ)
      → x < length parent
      → HasRoot parent x r
      → HasRoot parent' x (if r == r₁ || r == r₂ then min r₁ r₂ else r)

set_edge-Merges :
    (parent : List ℕ) (r₁ r₂ : ℕ)
    → IsForest parent
    → r₁ < length parent
    → r₂ < length parent
    → get_elem? parent r₁ ≡ some r₁
    → get_elem? parent r₂ ≡ some r₂
    → Merges parent r₁ r₂ (set_edge parent r₁ r₂)
unfolding set_edge
set_edge-Merges parent r₁ r₂ forest h₁ h₂ e₁ e₂ = elim (Bool-cases (ltb r₁ r₂)) [
  | inl up ↦
      let less : r₁ < r₂ = ground arith in
      let back : ltb r₂ r₁ ≡ false = ground arith in
      rw (up, back)
        (record {
          forest = linked-IsForest parent r₁ r₂ forest less h₂ e₁ e₂;
          same_length = length-set parent r₂ r₁;
          roots = λ x r h root.
              subst (HasRoot (linked parent r₁ r₂) x) (ground arith)
                (linked-HasRoot parent r₁ r₂ forest less h₂ e₁ e₂ (suc x) x r (omega arith) h root);
        })
  | inr up ↦ elim (Bool-cases (ltb r₂ r₁)) [
    | inl down ↦
        let less : r₂ < r₁ = ground arith in
        rw (up, down)
          (record {
            forest = linked-IsForest parent r₂ r₁ forest less h₁ e₂ e₁;
            same_length = length-set parent r₁ r₂;
            roots = λ x r h root.
                subst (HasRoot (linked parent r₂ r₁) x) (ground arith) (
                  linked-HasRoot parent r₂ r₁ forest less h₁ e₂ e₁ (suc x) x r (omega arith) h
                    root);
          })
    | inr level ↦
        rw (up, level)
          (record {
            forest = forest;
            same_length = refl;
            roots = λ x r h root. subst (HasRoot parent x) (ground arith) root;
          })
  ]
]

find-eq :
    (parent : List ℕ) (x r : ℕ)
    → IsForest parent
    → x < length parent
    → HasRoot parent x r
    → (find parent x ≡ ok (r, parent)) × (r ≤ x) × (get_elem? parent r ≡ some r)
find-eq parent x r forest h root =
    let (res, run, (low, self, root', kept)) = find-HasRoot parent x forest h in
    let e : res.0 ≡ r = HasRoot-unique parent x res.0 r root' root in
    (
      run ∙ ap₂ (λ y z. ok (y, z)) e kept,
      omega arith,
      subst (λ y. get_elem? parent y ≡ some y) e self,
    )

-- `join` merges the sets of its arguments and no others: the vector stays a forest of its length,
-- and an index whose representative was that of either argument now has the smaller of the two,
-- while every other index keeps its representative.
pub join-Merges :
    (parent : List ℕ) (x₁ x₂ r₁ r₂ : ℕ)
    → IsForest parent
    → x₁ < length parent
    → x₂ < length parent
    → HasRoot parent x₁ r₁
    → HasRoot parent x₂ r₂
    → Returns (join parent x₁ x₂) (Merges parent r₁ r₂)
unfolding join
join-Merges parent x₁ x₂ r₁ r₂ forest h₁ h₂ root₁ root₂ =
    let (run₁, low₁, self₁) = find-eq parent x₁ r₁ forest h₁ root₁ in
    let (run₂, low₂, self₂) = find-eq parent x₂ r₂ forest h₂ root₂ in
    (
      set_edge parent r₁ r₂,
      simp (run₁, run₂),
      set_edge-Merges parent r₁ r₂ forest (omega arith) (omega arith) self₁ self₂,
    )

get_elem?-append-last : (xs : List ℕ) (v : ℕ) → get_elem? (xs ++ v ∷ []) (length xs) ≡ some v
get_elem?-append-last [] v = refl
get_elem?-append-last (x ∷ xs) v = get_elem?-append-last xs v

get_elem?-append-left :
    (xs : List ℕ) (v i : ℕ) → i < length xs → get_elem? (xs ++ v ∷ []) i ≡ get_elem? xs i
get_elem?-append-left [] v i h = elim h [ ]
get_elem?-append-left (x ∷ xs) v zero h = refl
get_elem?-append-left (x ∷ xs) v (suc i) h = get_elem?-append-left xs v i (omega arith)

push_indices-roots :
    (left : ℕ) (xs : List ℕ)
    → ((x : ℕ) → x < length xs → get_elem? xs x ≡ some x)
    → (length (push_indices left (length xs) xs) ≡ length xs + left)
      × ((x : ℕ) → x < length xs + left → get_elem? (push_indices left (length xs) xs) x ≡ some x)
unfolding push_indices
push_indices-roots zero xs h = (omega arith, λ x k. h x (omega arith))
push_indices-roots (suc left) xs h =
    let longer : length (xs ++ length xs ∷ []) ≡ length xs + 1 =
      length-append xs (length xs ∷ []) in
    let (len, roots) = push_indices-roots left (xs ++ length xs ∷ []) (λ x k.
      elim (Bool-cases (x == length xs)) [
        | inl last ↦
            let e : x ≡ length xs = ground arith in rw e (get_elem?-append-last xs (length xs))
        | inr old ↦
            let below : x < length xs = ground (arith, longer) in
            get_elem?-append-left xs (length xs) x below ∙ h x below
      ]) in
    let run : push_indices left (length (xs ++ length xs ∷ [])) (xs ++ length xs ∷ [])
        ≡ push_indices left (length xs + 1) (xs ++ length xs ∷ []) =
      ap (λ n. push_indices left n (xs ++ length xs ∷ [])) longer in
    (
      omega (arith, ap length run, len, longer),
      λ x k. ap (λ ys. get_elem? ys x) (sym run) ∙ roots x (omega (arith, longer)),
    )

pub new-roots :
    (count : ℕ)
    → (length (new count) ≡ count) × ((x : ℕ) → x < count → get_elem? (new count) x ≡ some x)
unfolding new
new-roots count =
    let (len, roots) = push_indices-roots count [] (λ x h. elim h [ ]) in
    (omega arith, λ x h. roots x (omega arith))

-- A new UnionFind has `count` indices, each the only member of its set.
pub new-HasRoot :
    (count : ℕ)
    → IsForest (new count)
      × (length (new count) ≡ count)
      × ((x : ℕ) → x < count → HasRoot (new count) x x)
new-HasRoot count =
    let (len, roots) = new-roots count in
    (
      λ x h. (x, roots x (omega arith), omega arith),
      len,
      λ x h. climb-here (new count) x (roots x h),
    )
