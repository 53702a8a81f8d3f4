-- ===== src/Mutator/Sizes.antt =====
-- The loops that adjust the sizes of a chunk and of those above it.
use egalito.Base.{
  ℕ, zero, suc, ◌+◌, ◌%◌, ◌^◌, ◌<◌, ◌≡◌, refl, ◌∙◌, sym, ap₂, ap, subst, ◌≢◌, Bool, true, false,
  ◌&&◌, ◌||◌, List, [], ◌∷◌, Option, none, some, arith, ◌==◌, if◌then◌else◌, length, Bool-cases,
  inl, inr,
}
use egalito.Base.Result.{ok, Returns}
use egalito.Chunk.{Chunk, Store, Sizing, computed, fixed, write, add_to_size, adjust_by}
use egalito.Mutator.{adjust_size, adjust_sizes}
use egalito.Mutator.Siblings.{Avoids}

abbrev pub has : ℕ → List ℕ → Bool
has x [] = false
has x (y ∷ ys) = y == x || has x ys

pub Avoids-has : (c x : ℕ) (xs : List ℕ) → Avoids c xs → (c == x) ≡ true → has x xs ≡ false
Avoids-has c x [] a e = refl
Avoids-has c x (y ∷ ys) (ne, a) e = ground (arith, Avoids-has c x ys a e)

-- The chunks from one up to the module, which is left out.
pub data Above (s : Store) : Option ℕ → List ℕ → Type 0 where
  top : Above s none []
  at_module : (m : ℕ) → (s m).is_module ≡ true → Above s (some m) []
  below :
      (c : ℕ) (cs : List ℕ)
      → (s c).is_module ≡ false
      → Avoids c cs
      → Above s (s c).parent cs
      → Above s (some c) (c ∷ cs)

-- The size of a chunk whose size is adjusted.
unfoldable pub grown_size : Bool → ℕ → Sizing → ℕ → ℕ
grown_size only_tracked add computed size =
    if only_tracked && size == 0 then size else (size + add) % 2 ^ 64
grown_size only_tracked add _ size = size

abbrev pub grown : Bool → ℕ → Chunk → Chunk
grown only_tracked add c = record c { size = grown_size only_tracked add c.sizing c.size }

-- The chunk's class lets its size be adjusted, and the new size is not taken for a negative one.
abbrev pub Accepts : Bool → ℕ → Chunk → Type 0
Accepts only_tracked add c =
    (only_tracked && c.size == 0) ≡ false → (c.sizing ≢ fixed) × ((c.size + add) % 2 ^ 64 < 2 ^ 63)

abbrev pub AllAccept : Bool → ℕ → Store → List ℕ → Type 0
AllAccept only_tracked add s [] = Unit
AllAccept only_tracked add s (c ∷ cs) =
    Accepts only_tracked add (s c) × AllAccept only_tracked add s cs

AllAccept-write :
    (t : Bool) (add : ℕ) (s s' : Store) (c : ℕ) (cs : List ℕ)
    → Avoids c cs
    → ((x : ℕ) → x ≢ c → s' x ≡ s x)
    → AllAccept t add s cs
    → AllAccept t add s' cs
AllAccept-write t add s s' c [] a same h = tt
AllAccept-write t add s s' c (x ∷ xs) (ne, a) same (h, hs) =
    (subst (Accepts t add) (sym (same x ne)) h, AllAccept-write t add s s' c xs a same hs)

pub AllAccept-same :
    (t : Bool) (add add' : ℕ) (s s' : Store) (cs : List ℕ)
    → add' ≡ add
    → ((x : ℕ) → (s' x).size ≡ (s x).size)
    → ((x : ℕ) → (s' x).sizing ≡ (s x).sizing)
    → AllAccept t add s cs
    → AllAccept t add' s' cs
AllAccept-same t add add' s s' [] e size sizing h = tt
AllAccept-same t add add' s s' (c ∷ cs) e size sizing (h, hs) = (
  λ z.
      let (ne, low) = h (subst (λ k. (t && k == 0) ≡ false) (size c) z) in
      (
        λ f. ne (sym (sizing c) ∙ f),
        subst (λ k. k % 2 ^ 64 < 2 ^ 63) (sym (ap₂ (λ (k l : ℕ). k + l) (size c) e)) low,
      ),
  AllAccept-same t add add' s s' cs e size sizing hs,
)

pub Above-frame :
    (s s' : Store) (o : Option ℕ) (cs : List ℕ)
    → ((x : ℕ) → (s' x).parent ≡ (s x).parent)
    → ((x : ℕ) → (s' x).is_module ≡ (s x).is_module)
    → Above s o cs
    → Above s' o cs
Above-frame s s' o cs parent kind top = top
Above-frame s s' o cs parent kind (at_module m e) = at_module m (kind m ∙ e)
Above-frame s s' o cs parent kind (below c cs' e a above) =
    below c cs' (kind c ∙ e) a
      (subst (λ o. Above s' o cs') (sym (parent c)) (Above-frame s s' _ cs' parent kind above))

add_to_size-grown :
    (t : Bool) (add : ℕ) (c : Chunk)
    → (t && c.size == 0) ≡ false
    → c.sizing ≢ fixed
    → (c.size + add) % 2 ^ 64 < 2 ^ 63
    → add_to_size add c ≡ ok (grown t add c)
unfolding add_to_size adjust_by grown_size
add_to_size-grown t add c e ne h = ground arith

grown-untracked : (t : Bool) (add : ℕ) (c : Chunk) → (t && c.size == 0) ≡ true → grown t add c ≡ c
unfolding grown_size
grown-untracked t add c e = ground arith

adjust_size-returns :
    (t : Bool) (add c : ℕ) (s : Store)
    → Accepts t add (s c)
    → Returns
        (adjust_size t add c s)
        (λ s'. (x : ℕ) → s' x ≡ (if c == x then grown t add (s x) else s x))
unfolding adjust_size write
adjust_size-returns t add c s h = elim (Bool-cases (t && (s c).size == 0)) [
  | inl e ↦ (s, ground (arith, e), λ x. ground (arith, grown-untracked t add (s x), e))
  | inr e ↦
      let (ne, low) = h e in
      let r = add_to_size-grown t add (s c) e ne low in
      (write s c (grown t add (s c)), ground (arith, e, r), λ x. ground arith)
]

-- The loop adjusts the sizes of the chunks from one up to the module and changes nothing else.
pub adjust_sizes-returns :
    (fuel : ℕ) (t : Bool) (add : ℕ) (o : Option ℕ) (cs : List ℕ) (s : Store)
    → Above s o cs
    → AllAccept t add s cs
    → length cs < fuel
    → Returns
        (adjust_sizes fuel t add o s)
        (λ s'. (x : ℕ) → s' x ≡ (if has x cs then grown t add (s x) else s x))
unfolding adjust_sizes
adjust_sizes-returns fuel t add o cs s top h n = (s, refl, λ x. refl)
adjust_sizes-returns zero t add o cs s (at_module m e) h n = elim n [ ]
adjust_sizes-returns (suc fuel) t add o cs s (at_module m e) h n = (s, ground (arith, e), λ x. refl)
adjust_sizes-returns zero t add o cs s (below c cs' e a above) h n = elim n [ ]
adjust_sizes-returns (suc fuel) t add o cs s (below c cs' e a above) (h, hs) n =
    let (s₁, r₁, same₁) = adjust_size-returns t add c s h in
    let above₁ =
      Above-frame s s₁ _ cs' (λ x. ground (arith, same₁ x)) (λ x. ground (arith, same₁ x)) above in
    let hs₁ = AllAccept-write t add s s₁ c cs' a (λ x ne. ground (arith, same₁ x)) hs in
    let (s₂, r₂, same₂) = adjust_sizes-returns fuel t add _ cs' s₁ above₁ hs₁ (omega arith) in
    let parent : (s₁ c).parent ≡ (s c).parent = ground (arith, same₁ c) in
    (
      s₂,
      ground (arith, e, r₁, parent, r₂),
      λ x. elim (Bool-cases (c == x)) [
        | inl here ↦ ground (arith, Avoids-has c x cs' a here, same₂ x, same₁ x, here)
        | inr away ↦ ground (arith, same₂ x, same₁ x, away)
      ],
    )

-- Adjusting a size changes nothing else.
pub grown-keeps :
    (b t : Bool) (add : ℕ) (c c' : Chunk)
    → c' ≡ (if b then grown t add c else c)
    → (c'.parent ≡ c.parent)
      × (c'.prev ≡ c.prev)
      × (c'.next ≡ c.next)
      × (c'.children ≡ c.children)
      × (c'.position ≡ c.position)
      × (c'.size ≡ (if b then grown_size t add c.sizing c.size else c.size))
grown-keeps true t add c c' e = (
  ap (λ k. k.parent) e,
  ap (λ k. k.prev) e,
  ap (λ k. k.next) e,
  ap (λ k. k.children) e,
  ap (λ k. k.position) e,
  ap (λ k. k.size) e,
)
grown-keeps false t add c c' e = (
  ap (λ k. k.parent) e,
  ap (λ k. k.prev) e,
  ap (λ k. k.next) e,
  ap (λ k. k.children) e,
  ap (λ k. k.position) e,
  ap (λ k. k.size) e,
)
