-- ===== src/Mutator/Hierarchy.antt =====
-- Steps between stores that link a chunk into a list of children or take one out of it, whatever
-- operation makes them.
use egalito.Base.{
  ℕ, ◌≡◌, refl, ◌∙◌, sym, subst, ◌≢◌, List, [], ◌∷◌, ◌++◌, Option, none, some, arith, ◌==◌,
  Bool-cases, ==_iff, inl, inr, ap,
}
use egalito.Chunk.{Store}
use egalito.Mutator.Siblings.{
  Avoids, Distinct, head_or, last_or, AvoidsOption, last_or-AvoidsOption, Avoids-left, Avoids-right,
  Distinct-left, Distinct-right, Distinct-insert, Distinct-remove,
}
use egalito.Mutator.Links.{
  Linked, IsHierarchy, SameAt, Linked-split, Linked-join, Linked-frame, Linked-before, Linked-after,
}

-- No list of children has the chunk.
abbrev pub IsLoose : Store → ℕ → Type 0
IsLoose s c = (p : ℕ) (cs : List ℕ) → (s p).children ≡ some cs → Avoids c cs

-- A chunk with another parent is not among the children.
pub Linked-Avoids :
    (s : Store) (p q x : ℕ) (before : Option ℕ) (cs : List ℕ) (end : Option ℕ)
    → Linked s p before cs end
    → (s x).parent ≡ some q
    → p ≢ q
    → Avoids x cs
Linked-Avoids s p q x before [] end h e ne = tt
Linked-Avoids s p q x before (c ∷ cs) end (a, b, d, h) e ne = (
  λ same. ne (ground (arith, a, e, ap (λ k. (s k).parent) same)),
  Linked-Avoids s p q x (some c) cs end h e ne,
)

last-Avoids :
    (s : Store) (p q : ℕ) (o before : Option ℕ) (xs cs : List ℕ) (end : Option ℕ)
    → Linked s q before xs end
    → Linked s p none cs none
    → p ≢ q
    → AvoidsOption o cs
    → AvoidsOption (last_or xs o) cs
last-Avoids s p q o before [] cs end h other ne a = a
last-Avoids s p q o before (x ∷ xs) cs end (e, b, d, h) other ne a =
    last-Avoids s p q (some x) (some x) xs cs end h other ne
      (Linked-Avoids s p q x none cs none other e ne)

head-Avoids :
    (s : Store) (p q : ℕ) (before : Option ℕ) (ys cs : List ℕ) (end : Option ℕ)
    → Linked s q before ys end
    → Linked s p none cs none
    → p ≢ q
    → AvoidsOption (head_or ys none) cs
head-Avoids s p q before [] cs end h other ne = tt
head-Avoids s p q before (y ∷ ys) cs end (e, b, d, h) other ne =
    Linked-Avoids s p q y none cs none other e ne

head-left : (xs ys : List ℕ) → Distinct (xs ++ ys) → AvoidsOption (head_or ys none) xs
head-left xs [] d = tt
head-left xs (y ∷ ys) d = Avoids-left y xs ys (Distinct-remove y xs ys d).0

-- A step at a place between xs and ys, the children of p, which changes `touched` as it likes and no
-- list but that of p.
module _ (s s' : Store) (p : ℕ) (xs ys : List ℕ) (next prev : Option ℕ) (touched : ℕ)
    (same : (x : ℕ) → x ≢ touched → SameAt s s' (last_or xs none) (head_or ys none) next prev x)
    (others : (q : ℕ) → q ≢ p → (s' q).children ≡ (s q).children)
    (distinct : Distinct (xs ++ ys)) where
  -- The children of another parent stay linked.
  other-Linked :
      (q : ℕ) (cs : List ℕ) (end before : Option ℕ)
      → Linked s p none xs end
      → Linked s p before ys none
      → q ≢ p
      → Avoids touched cs
      → Linked s q none cs none
      → Linked s' q none cs none
  other-Linked q cs end before l r ne t h =
      Linked-frame s s' (last_or xs none) (head_or ys none) next prev touched same q none cs none t
        (last-Avoids s q p none none xs cs end l h ne tt)
        (head-Avoids s q p before ys cs none r h ne) h

  -- The children before and after the place.
  before-Linked :
      (end : Option ℕ) → Avoids touched xs → Linked s p none xs end → Linked s' p none xs next
  before-Linked end t h =
      Linked-before s s' (last_or xs none) (head_or ys none) next prev touched same p none xs end
        refl t (head-left xs ys distinct) (Distinct-left xs ys distinct) h

  after-Linked :
      (before : Option ℕ) → Avoids touched ys → Linked s p before ys none → Linked s' p prev ys none
  after-Linked before t h =
      Linked-after s s' (last_or xs none) (head_or ys none) next prev touched same p before ys none
        refl t (last_or-AvoidsOption xs ys none distinct tt) (Distinct-right xs ys distinct) h

-- Linking a chunk that no list has between xs and ys.
pub insertion-IsHierarchy :
    (s s' : Store) (p : ℕ) (xs : List ℕ) (new : ℕ) (ys : List ℕ)
    → IsHierarchy s
    → IsLoose s new
    → (s p).children ≡ some (xs ++ ys)
    → (s' p).children ≡ some (xs ++ new ∷ ys)
    → ((q : ℕ) → q ≢ p → (s' q).children ≡ (s q).children)
    → ((x : ℕ) → x ≢ new → SameAt s s' (last_or xs none) (head_or ys none) (some new) (some new) x)
    → (s' new).parent ≡ some p
    → (s' new).prev ≡ last_or xs none
    → (s' new).next ≡ head_or ys none
    → IsHierarchy s'
insertion-IsHierarchy s s' p xs new ys inv loose list list' others same parent prev next q cs e =
    let (d, whole) = inv p (xs ++ ys) list in
    let (l, r) = Linked-split s p none xs ys none whole in
    let t = loose p (xs ++ ys) list in
    elim (Bool-cases (q == p)) [
      | inl here ↦
          let q-p : q ≡ p = (==_iff q p).0 here in
          let cs-list : xs ++ new ∷ ys ≡ cs = cc (list', e, q-p) in
          subst (λ ds. Distinct ds × Linked s' q none ds none) cs-list
            (
              Distinct-insert new xs ys t d,
              subst (λ k. Linked s' k none (xs ++ new ∷ ys) none) (sym q-p)
                  (Linked-join s' p none xs (new ∷ ys) none
                    (before-Linked s s' p xs ys (some new) (some new) new same others d _
                      (Avoids-left new xs ys t) l)
                    (
                      parent,
                      prev,
                      next,
                      after-Linked s s' p xs ys (some new) (some new) new same others d _
                          (Avoids-right new xs ys t) r,
                    )),
            )
      | inr away ↦
          let ne : q ≢ p = ground arith in
          let old = sym (others q ne) ∙ e in
          let (d', h) = inv q cs old in
          (
            d',
            other-Linked s s' p xs ys (some new) (some new) new same others d q cs _ _ l r ne
                (loose q cs old) h,
          )
    ]

-- Unlinking a chunk from between xs and ys: then no list has it.
pub removal-IsHierarchy :
    (s s' : Store) (p : ℕ) (xs : List ℕ) (c : ℕ) (ys : List ℕ)
    → IsHierarchy s
    → (s p).children ≡ some (xs ++ c ∷ ys)
    → (s' p).children ≡ some (xs ++ ys)
    → ((q : ℕ) → q ≢ p → (s' q).children ≡ (s q).children)
    → ((x : ℕ)
        → SameAt s s' (last_or xs none) (head_or ys none) (head_or ys none) (last_or xs none) x)
    → IsHierarchy s' × IsLoose s' c
removal-IsHierarchy s s' p xs c ys inv list list' others same =
    (λ q cs e. (each q cs e).0, λ q cs e. (each q cs e).1)
  where
    each :
        (q : ℕ) (cs : List ℕ)
        → (s' q).children ≡ some cs
        → (Distinct cs × Linked s' q none cs none) × Avoids c cs
    each q cs e =
        let (d, whole) = inv p (xs ++ c ∷ ys) list in
        let (away, d') = Distinct-remove c xs ys d in
        let (l, (e₁, e₂, e₃, r)) = Linked-split s p none xs (c ∷ ys) none whole in
        let same' = λ (x : ℕ) (ne : x ≢ c). same x in
        elim (Bool-cases (q == p)) [
          | inl here ↦
              let q-p : q ≡ p = (==_iff q p).0 here in
              let cs-list : xs ++ ys ≡ cs = cc (list', e, q-p) in
              subst (λ ds. (Distinct ds × Linked s' q none ds none) × Avoids c ds) cs-list
                (
                  (
                    d',
                    subst (λ k. Linked s' k none (xs ++ ys) none) (sym q-p)
                        (Linked-join s' p none xs ys none
                          (before-Linked s s' p xs ys _ _ c same' others d' _
                            (Avoids-left c xs ys away) l)
                          (after-Linked s s' p xs ys _ _ c same' others d' _
                            (Avoids-right c xs ys away) r)),
                  ),
                  away,
                )
          | inr other ↦
              let ne : q ≢ p = ground arith in
              let old = sym (others q ne) ∙ e in
              let (d'', h) = inv q cs old in
              let c-away = Linked-Avoids s q p c none cs none h e₁ ne in
              (
                (d'', other-Linked s s' p xs ys _ _ c same' others d' q cs _ _ l r ne c-away h),
                c-away,
              )
        ]
