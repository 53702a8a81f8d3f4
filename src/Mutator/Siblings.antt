-- ===== src/Mutator/Siblings.antt =====
-- The lists of children as sequences of distinct chunks.
use egalito.Base.{
  ℕ, suc, ◌≡◌, refl, ap, sym, ◌≢◌, Bool, false, List, [], ◌∷◌, ◌++◌, Option, none, some, arith,
  ◌==◌, length,
}
use egalito.Mutator.{get_last, index_of, insert_at, remove_from}

abbrev pub Avoids : ℕ → List ℕ → Type 0
Avoids c [] = Unit
Avoids c (x ∷ xs) = (x ≢ c) × Avoids c xs

abbrev pub Distinct : List ℕ → Type 0
Distinct [] = Unit
Distinct (x ∷ xs) = Avoids x xs × Distinct xs

abbrev pub head_or : List ℕ → Option ℕ → Option ℕ
head_or [] d = d
head_or (x ∷ xs) d = some x

abbrev pub last_or : List ℕ → Option ℕ → Option ℕ
last_or [] d = d
last_or (x ∷ xs) d = last_or xs (some x)

-- Whether a pointer is to the chunk.
abbrev pub is_at : Option ℕ → ℕ → Bool
is_at none x = false
is_at (some a) x = a == x

abbrev pub AvoidsOption : Option ℕ → List ℕ → Type 0
AvoidsOption none xs = Unit
AvoidsOption (some c) xs = Avoids c xs

pub AvoidsOption-head :
    (o : Option ℕ) (c : ℕ) (cs : List ℕ) → AvoidsOption o (c ∷ cs) → is_at o c ≡ false
AvoidsOption-head none c cs a = refl
AvoidsOption-head (some o) c cs (ne, a) = ground arith

pub AvoidsOption-tail :
    (o : Option ℕ) (c : ℕ) (cs : List ℕ) → AvoidsOption o (c ∷ cs) → AvoidsOption o cs
AvoidsOption-tail none c cs a = tt
AvoidsOption-tail (some o) c cs (ne, a) = a

pub get_last-last_or : (xs : List ℕ) → get_last xs ≡ last_or xs none
unfolding get_last
get_last-last_or [] = refl
get_last-last_or (x ∷ []) = refl
get_last-last_or (x ∷ y ∷ ys) = get_last-last_or (y ∷ ys)

pub last_or-snoc : (xs : List ℕ) (x : ℕ) (d : Option ℕ) → last_or (xs ++ x ∷ []) d ≡ some x
last_or-snoc [] x d = refl
last_or-snoc (y ∷ ys) x d = last_or-snoc ys x (some y)

pub Avoids-append : (c : ℕ) (xs ys : List ℕ) → Avoids c xs → Avoids c ys → Avoids c (xs ++ ys)
Avoids-append c [] ys a b = b
Avoids-append c (x ∷ xs) ys (ne, a) b = (ne, Avoids-append c xs ys a b)

pub Avoids-left : (c : ℕ) (xs ys : List ℕ) → Avoids c (xs ++ ys) → Avoids c xs
Avoids-left c [] ys a = tt
Avoids-left c (x ∷ xs) ys (ne, a) = (ne, Avoids-left c xs ys a)

pub Avoids-right : (c : ℕ) (xs ys : List ℕ) → Avoids c (xs ++ ys) → Avoids c ys
Avoids-right c [] ys a = a
Avoids-right c (x ∷ xs) ys (ne, a) = Avoids-right c xs ys a

pub Distinct-left : (xs ys : List ℕ) → Distinct (xs ++ ys) → Distinct xs
Distinct-left [] ys d = tt
Distinct-left (x ∷ xs) ys (a, d) = (Avoids-left x xs ys a, Distinct-left xs ys d)

pub Distinct-right : (xs ys : List ℕ) → Distinct (xs ++ ys) → Distinct ys
Distinct-right [] ys d = d
Distinct-right (x ∷ xs) ys (a, d) = Distinct-right xs ys d

pub Distinct-insert :
    (c : ℕ) (xs ys : List ℕ) → Avoids c (xs ++ ys) → Distinct (xs ++ ys) → Distinct (xs ++ c ∷ ys)
Distinct-insert c [] ys a d = (a, d)
Distinct-insert c (x ∷ xs) ys (ne, a) (b, d) = (
  Avoids-append x xs (c ∷ ys) (Avoids-left x xs ys b) (λ e. ne (sym e), Avoids-right x xs ys b),
  Distinct-insert c xs ys a d,
)

-- Taking one out of distinct ones leaves distinct ones, which it is not among.
pub Distinct-remove :
    (c : ℕ) (xs ys : List ℕ) → Distinct (xs ++ c ∷ ys) → Avoids c (xs ++ ys) × Distinct (xs ++ ys)
Distinct-remove c [] ys (a, d) = (a, d)
Distinct-remove c (x ∷ xs) ys (b, d) =
    let (a', d') = Distinct-remove c xs ys d in
    let right : Avoids x (c ∷ ys) = Avoids-right x xs (c ∷ ys) b in
    ((λ e. right.0 (sym e), a'), (Avoids-append x xs ys (Avoids-left x xs (c ∷ ys) b) right.1, d'))

-- The last of some distinct chunks is not among others.
pub last_or-is_at :
    (c : ℕ) (xs : List ℕ) (d : Option ℕ)
    → Avoids c xs
    → is_at d c ≡ false
    → is_at (last_or xs d) c ≡ false
last_or-is_at c [] d a e = e
last_or-is_at c (x ∷ xs) d (ne, a) e = last_or-is_at c xs (some x) a (ground arith)

pub last_or-AvoidsOption :
    (xs ys : List ℕ) (d : Option ℕ)
    → Distinct (xs ++ ys)
    → AvoidsOption d ys
    → AvoidsOption (last_or xs d) ys
last_or-AvoidsOption [] ys d h a = a
last_or-AvoidsOption (x ∷ xs) ys d (b, h) a =
    last_or-AvoidsOption xs ys (some x) h (Avoids-right x xs ys b)

-- A chunk stands in a list at the index that indexOf finds; what the list's functions do there.
pub index_of-append :
    (xs : List ℕ) (c : ℕ) (ys : List ℕ) → Avoids c xs → index_of c (xs ++ c ∷ ys) ≡ some (length xs)
unfolding index_of
index_of-append [] c ys a = ground arith
index_of-append (x ∷ xs) c ys (ne, a) = ground (arith, index_of-append xs c ys a)

pub insert_at-length :
    (xs : List ℕ) (c : ℕ) (ys : List ℕ) → insert_at (length xs) c (xs ++ ys) ≡ xs ++ c ∷ ys
unfolding insert_at
insert_at-length [] c ys = refl
insert_at-length (x ∷ xs) c ys = ap (◌∷◌ x) (insert_at-length xs c ys)

pub insert_at-after :
    (xs : List ℕ) (p c : ℕ) (ys : List ℕ)
    → insert_at (suc (length xs)) c (xs ++ p ∷ ys) ≡ xs ++ p ∷ c ∷ ys
unfolding insert_at
insert_at-after [] p c ys = refl
insert_at-after (x ∷ xs) p c ys = ap (◌∷◌ x) (insert_at-after xs p c ys)

pub remove_from-append :
    (xs : List ℕ) (c : ℕ) (ys : List ℕ) → Avoids c xs → remove_from c (xs ++ c ∷ ys) ≡ xs ++ ys
unfolding remove_from
remove_from-append [] c ys a = ground arith
remove_from-append (x ∷ xs) c ys (ne, a) = ground (arith, remove_from-append xs c ys a)
