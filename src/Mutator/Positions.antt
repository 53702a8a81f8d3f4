-- ===== src/Mutator/Positions.antt =====
-- The pass of updatePositionHelper as recalculate() on the chunks in the order of their visit.
use egalito.Base.{
  ℕ, suc, ◌+◌, ◌%◌, ◌^◌, ◌≡◌, refl, ◌∙◌, sym, ap, subst, List, [], ◌∷◌, Option, none, some, arith,
}
use egalito.Base.Result.{Result, ok, Returns, ◌>>=◌, bind-ok}
use egalito.Chunk.{Store, Position, recalculate}
use egalito.Chunk.Placed.{SameShape, SameShape-refl, SameShape-trans}
use egalito.Chunk.Recalculated.{Ready, Placed, Ready-same, Ready-position, recalculate-returns}
use egalito.Mutator.Siblings.{Avoids, AvoidsOption}

-- recalculate() of a chunk that has a position, and of several chunks
unfoldable pub recalculate_at : ℕ → Store → ℕ → Option Position → Result Store
recalculate_at fuel s c none = ok s
recalculate_at fuel s c (some p) = recalculate fuel s c p

unfoldable pub recalculate_all : ℕ → Store → List ℕ → Result Store
recalculate_all fuel s [] = ok s
recalculate_all fuel s (c ∷ cs) =
    recalculate_at fuel s c (s c).position >>= λ t. recalculate_all fuel t cs

-- Each chunk is listed once, and after its previous sibling.
abbrev pub Ordered : Store → List ℕ → Type 0
Ordered s [] = Unit
Ordered s (c ∷ cs) = Avoids c cs × AvoidsOption (s c).prev (c ∷ cs) × Ordered s cs

abbrev pub AllReady : Store → ℕ → List ℕ → Type 0
AllReady s n [] = Unit
AllReady s n (c ∷ cs) = Ready s n c × AllReady s n cs

abbrev pub AllPlaced : Store → List ℕ → Type 0
AllPlaced s [] = Unit
AllPlaced s (c ∷ cs) = Placed s c × AllPlaced s cs

Ordered-same : (s t : Store) (cs : List ℕ) → SameShape s t → Ordered s cs → Ordered t cs
Ordered-same s t [] shape h = tt
Ordered-same s t (c ∷ cs) shape (a, b, h) =
    (a, subst (λ o. AvoidsOption o (c ∷ cs)) (sym (shape c).1) b, Ordered-same s t cs shape h)

AllReady-same :
    (s t : Store) (n : ℕ) (cs : List ℕ) → SameShape s t → AllReady s n cs → AllReady t n cs
AllReady-same s t n [] shape h = tt
AllReady-same s t n (c ∷ cs) shape (r, h) =
    (Ready-same s t n c shape r, AllReady-same s t n cs shape h)

-- What is placed stays so while others are recalculated.
Placed-kept :
    (t u : Store) (c : ℕ) (cs : List ℕ) (prev : Option ℕ)
    → SameShape t u
    → ((x : ℕ) → Avoids x cs → (u x).position ≡ (t x).position)
    → Avoids c cs
    → (t c).prev ≡ prev
    → AvoidsOption prev (c ∷ cs)
    → Placed t c
    → Placed u c
Placed-kept t u c cs none shape kept a e b placed o g = (
  λ z. (placed o (sym (kept c a) ∙ g)).0 (sym (shape c).1 ∙ z),
  λ q o' g₁ g₂. absurd (ground (arith, e, (shape c).1, g₁)),
)
Placed-kept t u c cs (some q) shape kept a e b placed o g = (
  λ z. absurd (ground (arith, e, (shape c).1, z)),
  λ q' o' g₁ g₂.
      let same-q : q ≡ q' = ground (arith, e, (shape c).1, g₁) in
      let avoids : Avoids q' cs = subst (λ x. Avoids x cs) same-q b.1 in
      let e' : (t c).prev ≡ some q' = e ∙ ap some same-q in
      subst (λ k. o ≡ (o' + k) % 2 ^ 64) (sym (shape q').3)
        ((placed o (sym (kept c a) ∙ g)).1 q' o' e' (sym (kept q' avoids) ∙ g₂)),
)

pub recalculate_all-Placed :
    (n : ℕ) (s : Store) (cs : List ℕ)
    → Ordered s cs
    → AllReady s n cs
    → Returns (recalculate_all (suc n) s cs) (λ t.
      SameShape s t × ((x : ℕ) → Avoids x cs → (t x).position ≡ (s x).position) × AllPlaced t cs)
unfolding recalculate_all recalculate_at
recalculate_all-Placed n s [] h r = (s, refl, (SameShape-refl s, λ x a. refl, tt))
recalculate_all-Placed n s (c ∷ cs) (a, b, h) (r, rs) =
    let (p, at) = Ready-position s n c r in
    let (t, r₁, (shape₁, kept₁, placed₁)) = recalculate-returns s n c p r at in
    let (u, r₂, (shape₂, kept₂, placed₂)) =
      recalculate_all-Placed n t cs (Ordered-same s t cs shape₁ h)
        (AllReady-same s t n cs shape₁ rs) in
    (
      u,
      bind-ok (recalculate_at (suc n) s c (s c).position) _ t _ (ground (arith, at, r₁)) r₂,
      (
        SameShape-trans s t u shape₁ shape₂,
        λ x (ne, avoids). kept₂ x avoids ∙ kept₁ x (λ e. ne (sym e)),
        (Placed-kept t u c cs (s c).prev shape₂ kept₂ a (shape₁ c).1 b placed₁, placed₂),
      ),
    )
