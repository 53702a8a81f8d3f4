-- ===== src/Base/Result.antt =====
-- Runs of the C++ code as values: a result, or the way in which the run does not return.
use mathlib.Core.Path.{◌≡◌, refl, ap}
use native.Mathlib.Omega.{arith}

pub data Failure : Type 0 where
  assertion : Failure
  null_pointer : Failure
  out_of_bounds : Failure
  out_of_fuel : Failure
  undefined : Failure
  uninitialized : Failure
  bad_alloc : Failure
  unsupported : Failure

pub data Result {ℓ} (A : Type ℓ) : Type ℓ where
  ok : A → Result A
  fail : Failure → Result A

infixl 5 ◌>>=◌
abbrev pub ◌>>=◌ {ℓ κ} : {A : Type ℓ} {B : Type κ} → Result A → (A → Result B) → Result B
ok a >>= f = f a
fail e >>= f = fail e

-- The run returns a value that satisfies `P`.
abbrev pub Returns {ℓ κ} : {A : Type ℓ} → Result A → (A → Type κ) → Type (ℓ ⊔ κ)
Returns {A} r P = (a : A) × (r ≡ ok a) × P a

-- A run that goes on after a part that has returned.
pub bind-ok {ℓ κ} :
    {A : Type ℓ} {B : Type κ} (m : Result A) (f : A → Result B) (a : A) (r : Result B)
    → m ≡ ok a
    → f a ≡ r
    → (m >>= f) ≡ r
bind-ok m f a r e h = rw e h

pub bind-then {ℓ κ μ} :
    {A : Type ℓ} {B : Type κ} {C : Type μ} (m : Result A) (f : A → Result B) (g : B → Result C)
    (b : B) (r : Result C)
    → (m >>= f) ≡ ok b
    → g b ≡ r
    → (m >>= λ a. f a >>= g) ≡ r
bind-then (ok a) f g b r e h = bind-ok (f a) g b r e h
bind-then (fail failure) f g b r e h = ground (arith, e)

-- The parts of a run that returned.
pub bind-inv {ℓ κ} :
    {A : Type ℓ} {B : Type κ} (m : Result A) (f : A → Result B) (b : B)
    → (m >>= f) ≡ ok b
    → Returns m (λ a. f a ≡ ok b)
bind-inv (ok a) f b e = (a, refl, e)
bind-inv (fail failure) f b e = absurd (ground (arith, e))

pub ok-inj {ℓ} : {A : Type ℓ} (a b : A) → ok a ≡ ok b → a ≡ b
ok-inj {A} a b e = ap (value a) e
  where
    value : A → Result A → A
    value d (ok x) = x
    value d (fail f) = d

pub bind-Returns {ℓ κ μ ν} :
    {A : Type ℓ} {B : Type κ} {P : A → Type μ} {Q : B → Type ν} (m : Result A) (f : A → Result B)
    → Returns m P
    → ((a : A) → P a → Returns (f a) Q)
    → Returns (m >>= f) Q
bind-Returns m f (a, e, p) next = let (b, e', q) = next a p in (b, bind-ok m f a (ok b) e e', q)

pub bind_cong {ℓ κ} :
    {A : Type ℓ} {B : Type κ} (m : Result A) (f g : A → Result B)
    → ((a : A) → f a ≡ g a)
    → (m >>= f) ≡ (m >>= g)
bind_cong (ok a) f g h = h a
bind_cong (fail failure) f g h = refl

pub bind_assoc {ℓ κ μ} :
    {A : Type ℓ} {B : Type κ} {C : Type μ} (m : Result A) (f : A → Result B) (g : B → Result C)
    → ((m >>= f) >>= g) ≡ (m >>= λ a. f a >>= g)
bind_assoc (ok a) f g = refl
bind_assoc (fail failure) f g = refl

pub bind_unit {ℓ} : {A : Type ℓ} (m : Result A) → (m >>= ok) ≡ m
bind_unit (ok a) = refl
bind_unit (fail failure) = refl
