-- ===== src/Chunk/Recalculated.antt =====
-- recalculate() on a list of chunks, each after its previous sibling.
use egalito.Base.{
  ℕ, suc, ◌+◌, ◌-◌, ◌%◌, ◌^◌, ◌<◌, ◌≡◌, refl, ◌∙◌, sym, subst, ◌≢◌, Option, none, some, arith, ◌==◌,
  Bool-cases, inl, inr,
}
use egalito.Base.Result.{Returns}
use egalito.Chunk.{
  Store, Position, absolute, offset_by, write, set_position, recalculated_offset, recalculate,
}
use egalito.Chunk.Placed.{
  SameShape, SameShape-refl, SameKind-offset, SameKind-absolute, Based, get_address-Based,
  get_address-offset, Based-same, kind-moved, kind-kept,
}

-- How the position of a chunk is found: it is absolute, or the chunk is the first one of its parent
-- or comes after a sibling with an offset.
pub data Ready (s : Store) (n c : ℕ) : Type 0 where
  stays : (a : ℕ) → (s c).position ≡ some (absolute a) → Ready s n c
  first :
      (o p : ℕ)
      → (s c).position ≡ some (offset_by o)
      → (s c).parent ≡ some p
      → (s c).prev ≡ none
      → Ready s n c
  after :
      (o p q o' : ℕ)
      → (s c).position ≡ some (offset_by o)
      → (s c).parent ≡ some p
      → (s c).prev ≡ some q
      → (s q).position ≡ some (offset_by o')
      → (s q).parent ≡ some p
      → Based s n p
      → q ≢ c
      → Ready s n c

-- The offset of a chunk is that of its previous sibling plus the sibling's size, and 0 with none.
abbrev pub Placed : Store → ℕ → Type 0
Placed s c =
    (o : ℕ)
    → (s c).position ≡ some (offset_by o)
    → ((s c).prev ≡ none → o ≡ 0)
      × ((q o' : ℕ)
          → (s c).prev ≡ some q
          → (s q).position ≡ some (offset_by o')
          → o ≡ (o' + (s q).size) % 2 ^ 64)

pub Ready-same : (s s' : Store) (n c : ℕ) → SameShape s s' → Ready s n c → Ready s' n c
Ready-same s s' n c shape (Ready.stays a e) = Ready.stays a (SameKind-absolute _ _ a (shape c).4 e)
Ready-same s s' n c shape (Ready.first o p e q r) =
    let (o₁, e₁) = SameKind-offset _ _ o (shape c).4 e in
    Ready.first o₁ p e₁ ((shape c).0 ∙ q) ((shape c).1 ∙ r)
Ready-same s s' n c shape (Ready.after o p q o' e e' r e'' e''' based ne) =
    let (o₁, e₁) = SameKind-offset _ _ o (shape c).4 e in
    let (o₂, e₂) = SameKind-offset _ _ o' (shape q).4 e'' in
    Ready.after o₁ p q o₂ e₁ ((shape c).0 ∙ e') ((shape c).1 ∙ r) e₂ ((shape q).0 ∙ e''')
      (Based-same s s' n p shape based) ne

offset-differs : (a b : ℕ) → offset_by a ≡ offset_by b → a ≡ b
offset-differs a b e = ground (arith, e)

some-differs : (a b : ℕ) → ◌≡◌ {A = Option ℕ} (some a) (some b) → a ≡ b
some-differs a b e = ground (arith, e)

-- Addresses cancel out.
cancel :
    (a o size : ℕ)
    → a < 2 ^ 64
    → ((2 ^ 64 + (a + o) % 2 ^ 64 - a) % 2 ^ 64 + size) % 2 ^ 64 ≡ (o + size) % 2 ^ 64
cancel a o size h = omega arith

pub set_position-moves :
    (s : Store) (c o o' : ℕ)
    → (s c).position ≡ some (offset_by o)
    → SameShape s (set_position c (some (offset_by o')) s)
      × ((x : ℕ) → x ≢ c → (set_position c (some (offset_by o')) s x).position ≡ (s x).position)
      × ((set_position c (some (offset_by o')) s c).position ≡ some (offset_by o'))
unfolding write
set_position-moves s c o o' e = (
  λ x. elim (Bool-cases (x == c)) [
    | inl h ↦
        let at : (s x).position ≡ some (offset_by o) = ground (arith, h, e) in
        (
          ground arith,
          ground arith,
          ground arith,
          ground arith,
          kind-moved _ _ o o' at (ground (arith, h)),
        )
    | inr h ↦
        (ground arith, ground arith, ground arith, ground arith, kind-kept _ _ (ground (arith, h)))
  ],
  λ x ne. ground arith,
  ground arith,
)

offset-after :
    (t : Store) (r r' o o' size o₁ o₂ : ℕ)
    → r' ≡ r
    → some (offset_by o) ≡ some (offset_by o₁)
    → o ≡ (o' + size) % 2 ^ 64
    → (t r).position ≡ some (offset_by o')
    → (t r).size ≡ size
    → (t r').position ≡ some (offset_by o₂)
    → o₁ ≡ (o₂ + (t r').size) % 2 ^ 64
offset-after t r r' o o' size o₁ o₂ same e f g h k =
    let k' : (t r).position ≡ some (offset_by o₂) =
      subst (λ x. (t x).position ≡ some (offset_by o₂)) same k in
    let o-eq : o₂ ≡ o' = ground (arith, k', g) in
    let e' : o ≡ o₁ = ground (arith, e) in
    subst (λ x. o₁ ≡ (o₂ + (t x).size) % 2 ^ 64) (sym same) (cc (sym e', f, o-eq, h))

-- recalculate() of such a chunk returns, changes its position only, and then the chunk is placed.
pub recalculate-returns :
    (s : Store) (n c : ℕ) (p : Position)
    → Ready s n c
    → (s c).position ≡ some p
    → Returns
        (recalculate (suc n) s c p)
        (λ t. SameShape s t × ((x : ℕ) → x ≢ c → (t x).position ≡ (s x).position) × Placed t c)
unfolding recalculate recalculated_offset
recalculate-returns s n c p (Ready.stays a e) f = (
  s,
  ground (arith, e, f),
  (SameShape-refl s, λ x ne. refl, λ o g. absurd (ground (arith, e, g))),
)
recalculate-returns s n c p (Ready.first o q e e' e'') f =
    let (shape, others, at) = set_position-moves s c o 0 e in
    (
      set_position c (some (offset_by 0)) s,
      ground (arith, e, f, e', e''),
      (
        shape,
        others,
        λ o₁ g. (
          λ z. ground (arith, at, g),
          λ r o₂ g₁ g₂. absurd (ground (arith, (shape c).1, e'', g₁)),
        ),
      ),
    )
recalculate-returns s n c p (Ready.after o q r o' e e' e'' e₁ e₂ based ne) f =
    let (a, r₁, r₂, low) = get_address-Based s n q based in
    let r₃ = get_address-offset s n r o' q a e₁ e₂ r₁ in
    let new : ℕ = (o' + (s r).size) % 2 ^ 64 in
    let (shape, others, at) = set_position-moves s c o new e in
    (
      set_position c (some (offset_by new)) s,
      ground (arith, e, f, e', e'', r₂, r₃, cancel a o' (s r).size low),
      (
        shape,
        others,
        λ o₁ g. (
          λ z. absurd (ground (arith, (shape c).1, e'', z)),
          λ r' o₂ g₁ g₂.
              offset-after (set_position c (some (offset_by new)) s) r r' new o' (s r).size o₁ o₂
                (some-differs r' r (sym g₁ ∙ (shape c).1 ∙ e'')) (sym at ∙ g) refl
                (others r ne ∙ e₁) (shape r).3 g₂,
        ),
      ),
    )

pub Ready-position :
    (s : Store) (n c : ℕ) → Ready s n c → (p : Position) × ((s c).position ≡ some p)
Ready-position s n c (Ready.stays a e) = (absolute a, e)
Ready-position s n c (Ready.first o p e q r) = (offset_by o, e)
Ready-position s n c (Ready.after o p q o' e e' r e₁ e₂ based ne) = (offset_by o, e)
