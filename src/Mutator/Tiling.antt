-- ===== src/Mutator/Tiling.antt =====
-- The addresses of the children of a chunk whose positions are up to date.
use egalito.Base.{
  ℕ, suc, ◌+◌, ◌%◌, ◌^◌, ◌≡◌, refl, ◌∙◌, ap, subst, List, [], ◌∷◌, ◌++◌, Option, none, some, arith,
  true, ◌==◌, Bool-cases, ==_iff, inl, inr,
}
use egalito.Base.Result.{ok, Returns}
use egalito.Chunk.{Store, offset_by, get_address}
use egalito.Chunk.Placed.{
  SameShape, SameKind-offset, Based, get_address-Based, get_address-offset, Based-same,
}
use egalito.Chunk.Recalculated.{Placed}
use egalito.Mutator.{levels}
use egalito.Mutator.Passes.{update_position_helper}
use egalito.Mutator.Links.{Linked, Linked-parent}
use egalito.Mutator.Sizes.{has}
use egalito.Mutator.Positions.{AllPlaced, AllReady, Ordered}
use egalito.Mutator.Visits.{Visit, update_position_helper-AllPlaced}

abbrev pub total_size : Store → List ℕ → ℕ
total_size s [] = 0
total_size s (c ∷ cs) = (s c).size + total_size s cs

-- The chunks have p as their parent, and each the one before it as its previous sibling.
abbrev pub Follows : Store → ℕ → Option ℕ → List ℕ → Type 0
Follows s p prev [] = Unit
Follows s p prev (c ∷ cs) = ((s c).parent ≡ some p) × ((s c).prev ≡ prev) × Follows s p (some c) cs

Linked-Follows :
    (s t : Store) (p : ℕ) (prev : Option ℕ) (cs : List ℕ) (end : Option ℕ)
    → SameShape s t
    → Linked s p prev cs end
    → Follows t p prev cs
Linked-Follows s t p prev [] end shape h = tt
Linked-Follows s t p prev (c ∷ cs) end shape (a, b, d, h) =
    ((shape c).0 ∙ a, (shape c).1 ∙ b, Linked-Follows s t p (some c) cs end shape h)

total_size-same : (s t : Store) (cs : List ℕ) → SameShape s t → total_size t cs ≡ total_size s cs
total_size-same s t [] shape = refl
total_size-same s t (c ∷ cs) shape = omega (arith, (shape c).3, total_size-same s t cs shape)

-- The positions are offsets.
abbrev pub AllOffsets : Store → List ℕ → Type 0
AllOffsets s [] = Unit
AllOffsets s (c ∷ cs) = ((o : ℕ) × ((s c).position ≡ some (offset_by o))) × AllOffsets s cs

sum_mod : (o b size total : ℕ) → o ≡ b % 2 ^ 64 → (o + size) % 2 ^ 64 ≡ (b + size) % 2 ^ 64
sum_mod o b size total e = omega (arith, e)

offset-total :
    (s : Store) (p b : ℕ) (prev : Option ℕ) (xs : List ℕ) (c : ℕ) (ys : List ℕ)
    → Follows s p prev (xs ++ c ∷ ys)
    → AllPlaced s (xs ++ c ∷ ys)
    → AllOffsets s (xs ++ c ∷ ys)
    → ((x o : ℕ)
        → (s x).prev ≡ prev
        → Placed s x
        → (s x).position ≡ some (offset_by o)
        → o ≡ b % 2 ^ 64)
    → (o : ℕ) × ((s c).position ≡ some (offset_by o)) × (o ≡ (b + total_size s xs) % 2 ^ 64)
offset-total s p b prev [] c ys (parent, at, h) (placed, ps) ((o, e), os) base =
    (o, e, base c o at placed e ∙ ap (λ k. k % 2 ^ 64) (omega arith))
offset-total s p b prev (x ∷ xs) c ys (parent, at, h) (placed, ps) ((o, e), os) base =
    let o-b = base x o at placed e in
    let (o', e', sum) =
      offset-total s p (b + (s x).size) (some x) xs c ys h ps os
        (λ y k before placed' f. (placed' k f).1 x o before e ∙ sum_mod o b (s x).size 0 o-b) in
    (o', e', sum ∙ ap (λ k. k % 2 ^ 64) (omega arith))

AllOffsets-same : (s t : Store) (cs : List ℕ) → SameShape s t → AllOffsets s cs → AllOffsets t cs
AllOffsets-same s t [] shape h = tt
AllOffsets-same s t (c ∷ cs) shape ((o, e), h) =
    (SameKind-offset _ _ o (shape c).4 e, AllOffsets-same s t cs shape h)

-- The chunks are some of others.
abbrev pub AllAmong : List ℕ → List ℕ → Type 0
AllAmong [] vs = Unit
AllAmong (c ∷ cs) vs = (has c vs ≡ true) × AllAmong cs vs

Placed-has : (t : Store) (c : ℕ) (vs : List ℕ) → AllPlaced t vs → has c vs ≡ true → Placed t c
Placed-has t c [] h e = absurd (ground (arith, e))
Placed-has t c (v ∷ vs) (p, h) e = elim (Bool-cases (v == c)) [
  | inl here ↦ subst (Placed t) ((==_iff v c).0 here) p
  | inr away ↦ Placed-has t c vs h (ground (arith, e, away))
]

AllPlaced-among : (t : Store) (cs vs : List ℕ) → AllPlaced t vs → AllAmong cs vs → AllPlaced t cs
AllPlaced-among t [] vs h a = tt
AllPlaced-among t (c ∷ cs) vs h (e, a) = (Placed-has t c vs h e, AllPlaced-among t cs vs h a)

-- updatePositionHelper lays out the children of a chunk one behind the other: it returns, for a visit
-- that lists each chunk once and after its previous sibling, with positions that are absolute or an
-- offset in a parent that has an address, and then a child among the visited ones, all offsets, has
-- the address of its parent plus the sizes of the siblings before it, modulo 2^64.
pub update_position_helper-total :
    (s : Store) (root : ℕ) (vs : List ℕ) (n p : ℕ) (xs : List ℕ) (c : ℕ) (ys : List ℕ)
    → Visit s levels root vs
    → Ordered s vs
    → AllReady s 7 vs
    → Based s n p
    → Linked s p none (xs ++ c ∷ ys) none
    → AllOffsets s (xs ++ c ∷ ys)
    → AllAmong (xs ++ c ∷ ys) vs
    → Returns (update_position_helper levels s root) (λ t.
      (a : ℕ) × (get_address n t p ≡ ok a)
      × (get_address (suc n) t c ≡ ok ((a + total_size s xs) % 2 ^ 64)))
update_position_helper-total s root vs n p xs c ys visit ordered ready based linked offsets among =
    let (t, r, (shape, kept, placed)) =
      update_position_helper-AllPlaced s root vs visit ordered ready in
    let (a, r₁, r₂, low) = get_address-Based t n p (Based-same s t n p shape based) in
    let (o, e, sum) =
      offset-total t p 0 none xs c ys (Linked-Follows s t p none (xs ++ c ∷ ys) none shape linked)
        (AllPlaced-among t (xs ++ c ∷ ys) vs placed among)
        (AllOffsets-same s t (xs ++ c ∷ ys) shape offsets)
        (λ x o before placed' f. (placed' o f).0 before) in
    let same = total_size-same s t xs shape in
    let parent = (shape c).0 ∙ Linked-parent s p none xs c ys none linked in
    (t, r, (a, r₁, get_address-offset t n c o p a e parent r₁ ∙ ap ok (omega (arith, sum, same))))
