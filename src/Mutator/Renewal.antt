-- ===== src/Mutator/Renewal.antt =====
-- The end of insertAfter, which gives the first child of the next sibling a new position.
use egalito.Base.{ℕ, ◌≡◌, refl, ◌∙◌, sym, List, [], ◌∷◌, Option, none, some, arith}
use egalito.Base.Result.{ok, Returns}
use egalito.Chunk.{Store, write, set_position, make_position}
use egalito.Mutator.{make_position_for, index_among, index_of, offset_at, renew_first, renew_next}
use egalito.Mutator.Links.{Linked, IsHierarchy}
use egalito.Mutator.Insertion.{Inserted}

-- The stores agree but for positions.
abbrev pub SamePointers : Store → Store → Type 0
SamePointers s s' =
    (x : ℕ)
    → ((s' x).parent ≡ (s x).parent)
      × ((s' x).prev ≡ (s x).prev)
      × ((s' x).next ≡ (s x).next)
      × ((s' x).children ≡ (s x).children)
      × ((s' x).size ≡ (s x).size)

first-index : (c : ℕ) (cs : List ℕ) → index_of c (c ∷ cs) ≡ some 0
unfolding index_of
first-index c cs = ground arith

pub make_position_for-first :
    (s : Store) (n c : ℕ) (cs : List ℕ)
    → (s n).children ≡ some (c ∷ cs)
    → make_position_for n c s ≡ ok (set_position c (some (make_position 0)) s)
unfolding make_position_for index_among offset_at
make_position_for-first s n c cs e = ground (arith, e, first-index c cs)

positions-SamePointers :
    (s : Store) (c : ℕ)
    → SamePointers s (set_position c (some (make_position 0)) (set_position c none s))
unfolding write
positions-SamePointers s c x =
    (ground arith, ground arith, ground arith, ground arith, ground arith)

set_position-children : (s : Store) (c n : ℕ) → (set_position c none s n).children ≡ (s n).children
unfolding write
set_position-children s c n = ground arith

renew_first-returns :
    (s : Store) (n : ℕ) (o : Option (List ℕ))
    → (s n).children ≡ o
    → Returns (renew_first n o s) (λ t. SamePointers s t)
unfolding renew_first
renew_first-returns s n none e = (s, refl, λ x. (refl, refl, refl, refl, refl))
renew_first-returns s n (some []) e = (s, refl, λ x. (refl, refl, refl, refl, refl))
renew_first-returns s n (some (c ∷ cs)) e = (
  set_position c (some (make_position 0)) (set_position c none s),
  make_position_for-first (set_position c none s) n c cs (kept ∙ e),
  positions-SamePointers s c,
)
  where
    kept : (set_position c none s n).children ≡ (s n).children
    kept = set_position-children s c n

pub renew_next-returns :
    (s : Store) (next : Option ℕ) → Returns (renew_next next s) (λ t. SamePointers s t)
unfolding renew_next
renew_next-returns s none = (s, refl, λ x. (refl, refl, refl, refl, refl))
renew_next-returns s (some n) = renew_first-returns s n (s n).children refl

Linked-same :
    (s t : Store) (p : ℕ) (prev : Option ℕ) (cs : List ℕ) (end : Option ℕ)
    → SamePointers s t
    → Linked s p prev cs end
    → Linked t p prev cs end
Linked-same s t p prev [] end same h = tt
Linked-same s t p prev (c ∷ cs) end same (a, b, d, h) =
    let (e₁, e₂, e₃, e₄, e₅) = same c in
    (e₁ ∙ a, e₂ ∙ b, e₃ ∙ d, Linked-same s t p (some c) cs end same h)

pub IsHierarchy-same : (s t : Store) → SamePointers s t → IsHierarchy s → IsHierarchy t
IsHierarchy-same s t same inv p cs e =
    let (d, h) = inv p cs (sym ((same p).3) ∙ e) in (d, Linked-same s t p none cs none same h)

pub Inserted-same :
    (s t u : Store) (p : ℕ) (xs : List ℕ) (new : ℕ) (ys above : List ℕ)
    → SamePointers t u
    → Inserted s t p xs new ys above
    → Inserted s u p xs new ys above
Inserted-same s t u p xs new ys above same done = record {
  at_children = (same p).3 ∙ done.at_children;
  others = λ q ne. (same q).3 ∙ done.others q ne;
  hierarchy = IsHierarchy-same t u same done.hierarchy;
  sizes = λ x. (same x).4 ∙ done.sizes x;
}
