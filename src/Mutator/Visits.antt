-- ===== src/Mutator/Visits.antt =====
-- The chunks that updatePositionHelper visits, and its pass as recalculate() on them in this order.
use egalito.Base.{
  ℕ, suc, ◌≡◌, refl, ◌∙◌, sym, subst, List, [], ◌∷◌, ◌++◌, Option, none, some, arith,
}
use egalito.Base.Result.{Result, ok, Returns, bind-ok, bind-inv, ok-inj}
use egalito.Chunk.{
  Store, Position, absolute, slot_at, offset_by, recalculate, recalculated_offset, set_position,
}
use egalito.Chunk.Placed.{SameKind, SameShape, SameShape-refl, SameShape-trans}
use egalito.Chunk.Recalculated.{set_position-moves}
use egalito.Mutator.{levels}
use egalito.Mutator.Passes.{for_each, descend, recalculated, update_position_helper}
use egalito.Mutator.Siblings.{Avoids}
use egalito.Mutator.Positions.{
  Ordered, AllReady, AllPlaced, recalculate_all-Placed, recalculate_at, recalculate_all,
}

recalculate_at-SameShape :
    (fuel : ℕ) (s t : Store) (c : ℕ) (o : Option Position)
    → (s c).position ≡ o
    → recalculate_at fuel s c o ≡ ok t
    → SameShape s t
unfolding recalculate_at recalculate
recalculate_at-SameShape fuel s t c none e r = subst (SameShape s) (ok-inj s t r) (SameShape-refl s)
recalculate_at-SameShape fuel s t c (some (absolute a)) e r =
    subst (SameShape s) (ok-inj s t r) (SameShape-refl s)
recalculate_at-SameShape fuel s t c (some (slot_at a)) e r =
    subst (SameShape s) (ok-inj s t r) (SameShape-refl s)
recalculate_at-SameShape fuel s t c (some (offset_by o)) e r =
    let (o', r₁, r₂) =
      bind-inv (recalculated_offset fuel s c) (λ o'. ok (set_position c (some (offset_by o')) s)) t
        r in
    subst (SameShape s) (ok-inj _ t r₂) (set_position-moves s c o o' e).0

recalculate_all-split :
    (fuel : ℕ) (s u : Store) (cs ds : List ℕ)
    → recalculate_all fuel s (cs ++ ds) ≡ ok u
    → Returns (recalculate_all fuel s cs) (λ t. SameShape s t × (recalculate_all fuel t ds ≡ ok u))
unfolding recalculate_all
recalculate_all-split fuel s u [] ds r = (s, refl, (SameShape-refl s, r))
recalculate_all-split fuel s u (c ∷ cs) ds r =
    let one : Result Store = recalculate_at fuel s c (s c).position in
    let (t, r₁, r₂) = bind-inv one (λ t. recalculate_all fuel t (cs ++ ds)) u r in
    let (v, r₃, (shape, r₄)) = recalculate_all-split fuel t u cs ds r₂ in
    let shape₁ = recalculate_at-SameShape fuel s t c (s c).position refl r₁ in
    (
      v,
      bind-ok one (λ t. recalculate_all fuel t cs) t _ r₁ r₃,
      (SameShape-trans s t v shape₁ shape, r₄),
    )

-- The chunks that the helper visits from one, in order: those with a position, before their children.
mutual
  pub data Visit (s : Store) : ℕ → ℕ → List ℕ → Type 0 where
    unplaced : (n c : ℕ) → (s c).position ≡ none → Visit s (suc n) c []
    leaf :
        (n c : ℕ) (p : Position)
        → (s c).position ≡ some p
        → (s c).children ≡ none
        → Visit s (suc n) c (c ∷ [])
    inner :
        (n c : ℕ) (p : Position) (cs vs : List ℕ)
        → (s c).position ≡ some p
        → (s c).children ≡ some cs
        → VisitAll s n cs vs
        → Visit s (suc n) c (c ∷ vs)

  pub data VisitAll (s : Store) : ℕ → List ℕ → List ℕ → Type 0 where
    finished : (n : ℕ) → VisitAll s n [] []
    next :
        (n c : ℕ) (cs vs ws xs : List ℕ)
        → Visit s n c vs
        → VisitAll s n cs ws
        → xs ≡ vs ++ ws
        → VisitAll s n (c ∷ cs) xs

kind-none : (a b : Option Position) → SameKind a b → a ≡ none → b ≡ none
kind-none a b (SameKind.same o) e = e
kind-none a b (SameKind.moved o o') e = absurd (ground (arith, e))

kind-some :
    (a b : Option Position) (p : Position)
    → SameKind a b
    → a ≡ some p
    → (p' : Position) × (b ≡ some p')
kind-some a b p (SameKind.same o) e = (p, e)
kind-some a b p (SameKind.moved o o') e = (offset_by o', refl)

-- The first chunk's part of a run.
recalculated-first :
    (s t : Store) (c : ℕ) (p : Position) (vs : List ℕ) (f : Store → Result Store)
    → (s c).position ≡ some p
    → recalculate_all levels s (c ∷ vs) ≡ ok t
    → ((u : Store) → SameShape s u → recalculate_all levels u vs ≡ ok t → f u ≡ ok t)
    → recalculated f s c (s c).position ≡ ok t
unfolding recalculate_all recalculate_at recalculated
recalculated-first s t c p vs f e r after =
    let one : Result Store = recalculate_at levels s c (s c).position in
    let (u, r₁, r₂) = bind-inv one (λ u. recalculate_all levels u vs) t r in
    let shape = recalculate_at-SameShape levels s u c (s c).position refl r₁ in
    let r₃ : recalculate levels s c p ≡ ok u =
      subst (λ o. recalculate_at levels s c o ≡ ok u) e r₁ in
    subst (λ o. recalculated f s c o ≡ ok t) (sym e)
      (bind-ok (recalculate levels s c p) f u (ok t) r₃ (after u shape r₂))

mutual
  unfolding update_position_helper recalculated descend for_each recalculate_all

  run-Visit :
      (s₀ s t : Store) (n c : ℕ) (vs : List ℕ)
      → Visit s₀ n c vs
      → SameShape s₀ s
      → recalculate_all levels s vs ≡ ok t
      → update_position_helper n s c ≡ ok t
  run-Visit s₀ s t n c vs (unplaced m k e) shape r =
      subst
        (λ o. recalculated (λ u. descend (update_position_helper m) u (u k).children) s k o ≡ ok t)
        (sym (kind-none _ _ (shape k).4 e)) r
  run-Visit s₀ s t n c vs (leaf m k p e none_below) shape r =
      let (p', e') = kind-some _ _ p (shape k).4 e in
      recalculated-first s t k p' [] (λ u. descend (update_position_helper m) u (u k).children) e' r
        (λ u moved r'.
          subst (λ o. descend (update_position_helper m) u o ≡ ok t)
            (sym ((moved k).2 ∙ (shape k).2 ∙ none_below)) r')
  run-Visit s₀ s t n c vs (inner m k p cs ws e below all) shape r =
      let (p', e') = kind-some _ _ p (shape k).4 e in
      recalculated-first s t k p' ws (λ u. descend (update_position_helper m) u (u k).children) e' r
        (λ u moved r'.
          subst (λ o. descend (update_position_helper m) u o ≡ ok t)
            (sym ((moved k).2 ∙ (shape k).2 ∙ below))
            (run-VisitAll s₀ u t m cs ws all (SameShape-trans s₀ s u shape moved) r'))

  run-VisitAll :
      (s₀ s t : Store) (n : ℕ) (cs vs : List ℕ)
      → VisitAll s₀ n cs vs
      → SameShape s₀ s
      → recalculate_all levels s vs ≡ ok t
      → for_each (update_position_helper n) s cs ≡ ok t
  run-VisitAll s₀ s t n cs vs (finished m) shape r = r
  run-VisitAll s₀ s t n cs vs (next m c ds ws xs ys v all e) shape r =
      let (u, r₁, (moved, r₂)) =
        recalculate_all-split levels s t ws xs
          (subst (λ zs. recalculate_all levels s zs ≡ ok t) e r) in
      bind-ok (update_position_helper m s c) (λ u. for_each (update_position_helper m) u ds) u
        (ok t) (run-Visit s₀ s u m c ws v shape r₁)
        (run-VisitAll s₀ u t m ds xs all (SameShape-trans s₀ s u shape moved) r₂)

-- updatePositionHelper returns on a chunk whose visit lists each chunk once, after its previous
-- sibling, with a position that is absolute or an offset in a parent that has an address: only
-- offsets of the visited chunks change, and then each is the offset of the previous sibling plus its
-- size, modulo 2^64, or 0 for a first child.
pub update_position_helper-AllPlaced :
    (s : Store) (root : ℕ) (vs : List ℕ)
    → Visit s levels root vs
    → Ordered s vs
    → AllReady s 7 vs
    → Returns (update_position_helper levels s root) (λ t.
      SameShape s t × ((x : ℕ) → Avoids x vs → (t x).position ≡ (s x).position) × AllPlaced t vs)
update_position_helper-AllPlaced s root vs visit ordered ready =
    let (t, r, done) = recalculate_all-Placed 7 s vs ordered ready in
    (t, run-Visit s s t levels root vs visit (SameShape-refl s) r, done)
