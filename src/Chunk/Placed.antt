-- ===== src/Chunk/Placed.antt =====
-- Positions that are up to date: recalculate() on a list of chunks, each after its previous sibling.
use egalito.Base.{ℕ, suc, ◌+◌, ◌%◌, ◌^◌, ◌<◌, ◌≡◌, refl, ◌∙◌, sym, subst, Option, none, some, arith}
use egalito.Base.Result.{ok}
use egalito.Chunk.{Store, Position, absolute, offset_by, position_get, get_address}

-- A position moves only from an offset to an offset.
pub data SameKind : Option Position → Option Position → Type 0 where
  same : (o : Option Position) → SameKind o o
  moved : (o o' : ℕ) → SameKind (some (offset_by o)) (some (offset_by o'))

-- The stores agree but for offsets.
abbrev pub SameShape : Store → Store → Type 0
SameShape s s' =
    (x : ℕ)
    → ((s' x).parent ≡ (s x).parent)
      × ((s' x).prev ≡ (s x).prev)
      × ((s' x).children ≡ (s x).children)
      × ((s' x).size ≡ (s x).size)
      × SameKind (s x).position (s' x).position

SameKind-trans : (a b c : Option Position) → SameKind a b → SameKind b c → SameKind a c
SameKind-trans a b c (SameKind.same o) k = k
SameKind-trans a b c (SameKind.moved o o') (SameKind.same p) = SameKind.moved o o'
SameKind-trans a b c (SameKind.moved o o') (SameKind.moved p p') = SameKind.moved o p'

pub SameShape-refl : (s : Store) → SameShape s s
SameShape-refl s x = (refl, refl, refl, refl, SameKind.same _)

pub SameShape-trans : (s t u : Store) → SameShape s t → SameShape t u → SameShape s u
SameShape-trans s t u f g x =
    let (a, b, c, d, k) = f x in
    let (a', b', c', d', k') = g x in (a' ∙ a, b' ∙ b, c' ∙ c, d' ∙ d, SameKind-trans _ _ _ k k')

pub SameKind-offset :
    (a b : Option Position) (o : ℕ)
    → SameKind a b
    → a ≡ some (offset_by o)
    → (o' : ℕ) × (b ≡ some (offset_by o'))
SameKind-offset a b o (SameKind.same p) e = (o, e)
SameKind-offset a b o (SameKind.moved p p') e = (p', refl)

pub SameKind-absolute :
    (a b : Option Position) (o : ℕ) → SameKind a b → a ≡ some (absolute o) → b ≡ some (absolute o)
SameKind-absolute a b o (SameKind.same p) e = e
SameKind-absolute a b o (SameKind.moved p p') e = absurd (ground (arith, e))

pub kind-moved :
    (a b : Option Position) (o o' : ℕ)
    → a ≡ some (offset_by o)
    → b ≡ some (offset_by o')
    → SameKind a b
kind-moved a b o o' e f =
    subst (λ k. SameKind k b) (sym e)
      (subst (λ k. SameKind (some (offset_by o)) k) (sym f) (SameKind.moved o o'))

pub kind-kept : (a b : Option Position) → b ≡ a → SameKind a b
kind-kept a b e = subst (λ k. SameKind a k) (sym e) (SameKind.same a)

-- The chunk's address depends on fewer than n chunks above it.
pub data Based (s : Store) : ℕ → ℕ → Type 0 where
  at_address : (n c a : ℕ) → (s c).position ≡ some (absolute a) → a < 2 ^ 64 → Based s (suc n) c
  at_origin :
      (n c o : ℕ) → (s c).position ≡ some (offset_by o) → (s c).parent ≡ none → Based s (suc n) c
  below :
      (n c o p : ℕ)
      → (s c).position ≡ some (offset_by o)
      → (s c).parent ≡ some p
      → Based s n p
      → Based s (suc n) c

-- Such a chunk has an address, however much fuel there is beyond.
pub get_address-Based :
    (s : Store) (n c : ℕ)
    → Based s n c
    → (a : ℕ) × (get_address n s c ≡ ok a) × (get_address (suc n) s c ≡ ok a) × (a < 2 ^ 64)
unfolding get_address position_get
get_address-Based s n k (Based.at_address m c a e low) =
    (a, ground (arith, e), ground (arith, e), low)
get_address-Based s n k (Based.at_origin m c o e p) =
    (0, ground (arith, e, p), ground (arith, e, p), omega arith)
get_address-Based s n k (Based.below m c o p e q based) =
    let (a, e₁, e₂, low) = get_address-Based s m p based in
    ((a + o) % 2 ^ 64, ground (arith, e, q, e₁), ground (arith, e, q, e₂), omega arith)

-- An offset from a chunk that has an address.
pub get_address-offset :
    (s : Store) (n c o p a : ℕ)
    → (s c).position ≡ some (offset_by o)
    → (s c).parent ≡ some p
    → get_address n s p ≡ ok a
    → get_address (suc n) s c ≡ ok ((a + o) % 2 ^ 64)
unfolding get_address position_get
get_address-offset s n c o p a e q r = ground (arith, e, q, r)

pub Based-same : (s s' : Store) (n c : ℕ) → SameShape s s' → Based s n c → Based s' n c
Based-same s s' n k shape (Based.at_address m c a e low) =
    Based.at_address m c a (SameKind-absolute _ _ a (shape c).4 e) low
Based-same s s' n k shape (Based.at_origin m c o e p) =
    let (o', e') = SameKind-offset _ _ o (shape c).4 e in
    Based.at_origin m c o' e' ((shape c).0 ∙ p)
Based-same s s' n k shape (Based.below m c o p e q based) =
    let (o', e') = SameKind-offset _ _ o (shape c).4 e in
    Based.below m c o' p e' ((shape c).0 ∙ q) (Based-same s s' m p shape based)
