-- ===== src/Mutator/Links.antt =====
-- The sibling pointers of a parent's children: a doubly linked list.
use egalito.Base.{
  ℕ, ◌≡◌, refl, ap, subst, ◌∙◌, sym, ◌≢◌, false, List, [], ◌∷◌, ◌++◌, Option, none, some, arith,
  if◌then◌else◌,
}
use egalito.Chunk.{Store}
use egalito.Mutator.Siblings.{
  Avoids, Distinct, head_or, last_or, is_at, AvoidsOption, last_or-is_at, AvoidsOption-head,
  AvoidsOption-tail,
}

-- The chunks have p as their parent and point to each other: the first one's previous sibling is
-- `prev`, the last one's next one is `end`.
abbrev pub Linked : Store → ℕ → Option ℕ → List ℕ → Option ℕ → Type 0
Linked s p prev [] end = Unit
Linked s p prev (c ∷ cs) end =
    ((s c).parent ≡ some p)
    × ((s c).prev ≡ prev)
    × ((s c).next ≡ head_or cs end)
    × Linked s p (some c) cs end

-- The lists of children are distinct chunks, linked with each other and with their parent.
abbrev pub IsHierarchy : Store → Type 0
IsHierarchy s =
    (p : ℕ) (cs : List ℕ) → (s p).children ≡ some cs → Distinct cs × Linked s p none cs none

pub Linked-split :
    (s : Store) (p : ℕ) (prev : Option ℕ) (xs ys : List ℕ) (end : Option ℕ)
    → Linked s p prev (xs ++ ys) end
    → Linked s p prev xs (head_or ys end) × Linked s p (last_or xs prev) ys end
Linked-split s p prev [] ys end h = (tt, h)
Linked-split s p prev (x ∷ []) ys end (a, b, c, h) = ((a, b, c, tt), h)
Linked-split s p prev (x ∷ y ∷ xs) ys end (a, b, c, h) =
    let (l, r) = Linked-split s p (some x) (y ∷ xs) ys end h in ((a, b, c, l), r)

pub Linked-join :
    (s : Store) (p : ℕ) (prev : Option ℕ) (xs ys : List ℕ) (end : Option ℕ)
    → Linked s p prev xs (head_or ys end)
    → Linked s p (last_or xs prev) ys end
    → Linked s p prev (xs ++ ys) end
Linked-join s p prev [] ys end l r = r
Linked-join s p prev (x ∷ []) ys end (a, b, c, l) r = (a, b, c, r)
Linked-join s p prev (x ∷ y ∷ xs) ys end (a, b, c, l) r =
    (a, b, c, Linked-join s p (some x) (y ∷ xs) ys end l r)

-- A child's parent.
pub Linked-parent :
    (s : Store) (p : ℕ) (prev : Option ℕ) (xs : List ℕ) (c : ℕ) (ys : List ℕ) (end : Option ℕ)
    → Linked s p prev (xs ++ c ∷ ys) end
    → (s c).parent ≡ some p
Linked-parent s p prev xs c ys end h = (Linked-split s p prev xs (c ∷ ys) end h).1.0

-- The stores agree on the pointers of a chunk, but for the next sibling of `left` and the previous
-- one of `right`.
abbrev pub SameAt : Store → Store → Option ℕ → Option ℕ → Option ℕ → Option ℕ → ℕ → Type 0
SameAt s s' left right next prev x =
    ((s' x).parent ≡ (s x).parent)
    × ((s' x).next ≡ (if is_at left x then next else (s x).next))
    × ((s' x).prev ≡ (if is_at right x then prev else (s x).prev))

-- A step gives `left` and `right` new siblings and may change `touched`.
module _ (s s' : Store) (left right next prev : Option ℕ) (touched : ℕ)
    (same : (x : ℕ) → x ≢ touched → SameAt s s' left right next prev x) where
  -- Chunks away from the place stay linked.
  pub Linked-frame :
      (p : ℕ) (before : Option ℕ) (cs : List ℕ) (end : Option ℕ)
      → Avoids touched cs
      → AvoidsOption left cs
      → AvoidsOption right cs
      → Linked s p before cs end
      → Linked s' p before cs end
  Linked-frame p before [] end t l r h = tt
  Linked-frame p before (c ∷ cs) end (ne, t) l r (a, b, d, h) =
      let (e₁, e₂, e₃) = same c ne in
      let l' : is_at left c ≡ false = AvoidsOption-head left c cs l in
      let r' : is_at right c ≡ false = AvoidsOption-head right c cs r in
      (
        e₁ ∙ a,
        ground (arith, e₃, r', b),
        ground (arith, e₂, l', d),
        Linked-frame p (some c) cs end t (AvoidsOption-tail left c cs l)
            (AvoidsOption-tail right c cs r) h,
      )

  -- The chunks before the place, the last of which has the new next sibling.
  pub Linked-before :
      (p : ℕ) (before : Option ℕ) (xs : List ℕ) (end : Option ℕ)
      → left ≡ last_or xs none
      → Avoids touched xs
      → AvoidsOption right xs
      → Distinct xs
      → Linked s p before xs end
      → Linked s' p before xs next
  Linked-before p before [] end e t r d h = tt
  Linked-before p before (x ∷ []) end e (ne, t) r d (a, b, c, h) =
      let (e₁, e₂, e₃) = same x ne in
      let r' : is_at right x ≡ false = AvoidsOption-head right x [] r in
      (e₁ ∙ a, ground (arith, e₃, r', b), ground (arith, e₂, e), tt)
  Linked-before p before (x ∷ y ∷ xs) end e (ne, t) r (d, d') (a, b, c, h) =
      let (e₁, e₂, e₃) = same x ne in
      let r' : is_at right x ≡ false = AvoidsOption-head right x (y ∷ xs) r in
      let l' : is_at left x ≡ false =
        ap (λ o. is_at o x) e ∙ last_or-is_at x (y ∷ xs) none d refl in
      (
        e₁ ∙ a,
        ground (arith, e₃, r', b),
        ground (arith, e₂, l', c),
        Linked-before p (some x) (y ∷ xs) end e t (AvoidsOption-tail right x (y ∷ xs) r) d' h,
      )

  -- The chunks after the place, the first of which has the new previous sibling.
  pub Linked-after :
      (p : ℕ) (before : Option ℕ) (ys : List ℕ) (end : Option ℕ)
      → right ≡ head_or ys none
      → Avoids touched ys
      → AvoidsOption left ys
      → Distinct ys
      → Linked s p before ys end
      → Linked s' p prev ys end
  Linked-after p before [] end e t l d h = tt
  Linked-after p before (y ∷ ys) end e (ne, t) l (d, d') (a, b, c, h) =
      let (e₁, e₂, e₃) = same y ne in
      let l' : is_at left y ≡ false = AvoidsOption-head left y ys l in
      (
        e₁ ∙ a,
        ground (arith, e₃, e),
        ground (arith, e₂, l', c),
        Linked-frame p (some y) ys end t (AvoidsOption-tail left y ys l)
            (subst (λ o. AvoidsOption o ys) (sym e) d) h,
      )
