-- ===== src/SectionList/Indices.antt =====
-- The indices of sections.
use egalito.Base.{
  ℕ, zero, suc, ◌+◌, ◌≡◌, ◌≢◌, refl, ◌∙◌, sym, ap, true, List, [], ◌∷◌, ◌++◌, some, arith,
  if◌then◌else◌, Bool-cases, inl, inr, append-nil, append_assoc, ◌<◌, length, take, drop,
}
use egalito.SectionList.{
  SectionList, empty, is_assigned_an_index, find_index, add_section, renumber, insert, index_of,
}
use egalito.Mutator.Siblings.{Avoids}

module _ (name : ℕ → List ℕ) where
  -- addSection of several sections
  abbrev pub add_sections : List ℕ → SectionList → SectionList
  add_sections [] l = l
  add_sections (s ∷ ss) l = add_sections ss (add_section name s l)

  -- How many of some sections have an index.
  abbrev pub assigned : List ℕ → ℕ
  assigned [] = 0
  assigned (s ∷ ss) = if is_assigned_an_index (name s) then suc (assigned ss) else assigned ss

  count-add_sections :
      (xs : List ℕ) (l : SectionList)
      → (add_sections xs l).section_count ≡ l.section_count + assigned xs
  unfolding add_section
  count-add_sections [] l = omega arith
  count-add_sections (x ∷ xs) l = ground (arith, count-add_sections xs (add_section name x l))

  find_index-add_sections :
      (s : ℕ) (ys : List ℕ) (l : SectionList)
      → Avoids s ys
      → find_index s (add_sections ys l).index_map ≡ find_index s l.index_map
  unfolding add_section find_index
  find_index-add_sections s [] l a = refl
  find_index-add_sections s (y ∷ ys) l (ne, a) =
      ground (arith, find_index-add_sections s ys (add_section name y l) a)

  sections-add_sections :
      (xs : List ℕ) (l : SectionList) → (add_sections xs l).sections ≡ l.sections ++ xs
  unfolding add_section
  sections-add_sections [] l = sym (append-nil l.sections)
  sections-add_sections (x ∷ xs) l =
      sections-add_sections xs (add_section name x l) ∙ append_assoc l.sections (x ∷ []) xs

  find_index-added :
      (xs : List ℕ) (s : ℕ) (ys : List ℕ) (l : SectionList)
      → Avoids s ys
      → is_assigned_an_index (name s) ≡ true
      → find_index s (add_sections (xs ++ s ∷ ys) l).index_map
        ≡ some (l.section_count + assigned xs)
  unfolding add_section find_index
  find_index-added [] s ys l a e =
      ground (arith, find_index-add_sections s ys (add_section name s l) a, e)
  find_index-added (x ∷ xs) s ys l a e =
      ground (arith, find_index-added xs s ys (add_section name x l) a e)

  find_index-renumber :
      (i : ℕ) (ys : List ℕ) (s : ℕ) (m : List (ℕ × ℕ))
      → Avoids s ys
      → find_index s (renumber name i ys m) ≡ find_index s m
  unfolding renumber find_index
  find_index-renumber i [] s m a = refl
  find_index-renumber i (y ∷ ys) s m (ne, a) = elim (Bool-cases (is_assigned_an_index (name y))) [
    | inl e ↦ ground (arith, e, find_index-renumber (suc i) ys s ((y, i) ∷ m) a)
    | inr e ↦ ground (arith, e, find_index-renumber i ys s m a)
  ]

  renumbered :
      (i : ℕ) (xs : List ℕ) (s : ℕ) (ys : List ℕ) (m : List (ℕ × ℕ))
      → Avoids s ys
      → is_assigned_an_index (name s) ≡ true
      → find_index s (renumber name i (xs ++ s ∷ ys) m) ≡ some (i + assigned xs)
  unfolding renumber find_index
  renumbered i [] s ys m a e = ground (arith, e, find_index-renumber (suc i) ys s ((s, i) ∷ m) a)
  renumbered i (x ∷ xs) s ys m a e = elim (Bool-cases (is_assigned_an_index (name x))) [
    | inl f ↦ ground (arith, f, renumbered (suc i) xs s ys ((x, i) ∷ m) a e)
    | inr f ↦ ground (arith, f, renumbered i xs s ys m a e)
  ]

Avoids-place :
    (s new k : ℕ) (ys : List ℕ) → new ≢ s → Avoids s ys → Avoids s (take k ys ++ new ∷ drop k ys)
Avoids-place s new zero ys ne a = (ne, a)
Avoids-place s new (suc k) [] ne a = (ne, tt)
Avoids-place s new (suc k) (y ∷ ys) ne (ne', a) = (ne', Avoids-place s new k ys ne a)

placed-behind :
    (xs : List ℕ) (s new at : ℕ) (ys : List ℕ)
    → length xs < at
    → new ≢ s
    → Avoids s ys
    → (zs : List ℕ) × (take at (xs ++ s ∷ ys) ++ new ∷ drop at (xs ++ s ∷ ys) ≡ xs ++ s ∷ zs)
      × Avoids s zs
placed-behind xs s new zero ys h ne a = elim h [ ]
placed-behind [] s new (suc k) ys h ne a =
    (take k ys ++ new ∷ drop k ys, refl, Avoids-place s new k ys ne a)
placed-behind (x ∷ xs) s new (suc k) ys h ne a =
    let (zs, e, a') = placed-behind xs s new k ys (omega arith) ne a in (zs, ap (◌∷◌ x) e, a')

-- A section that has an index and was added once has as its index one plus the number of such
-- sections before it, the index 0 being that of the null entry. Once another section is inserted
-- behind it, its index is one less: insert counts from 0.
pub index_of-insert :
    (name : ℕ → List ℕ) (xs : List ℕ) (s : ℕ) (ys : List ℕ) (at new : ℕ)
    → Avoids s ys
    → is_assigned_an_index (name s) ≡ true
    → length xs < at
    → new ≢ s
    → ((index_of s (add_sections name (xs ++ s ∷ ys) empty)).0 ≡ 1 + assigned name xs)
      × ((index_of s (insert name at new (add_sections name (xs ++ s ∷ ys) empty))).0
          ≡ assigned name xs)
unfolding index_of insert
index_of-insert name xs s ys at new a e h ne =
    let l : SectionList = add_sections name (xs ++ s ∷ ys) empty in
    let (zs, placed, a') = placed-behind xs s new at ys h ne a in
    let sections : l.sections ≡ xs ++ s ∷ ys = sections-add_sections name (xs ++ s ∷ ys) empty in
    let moved : take at l.sections ++ new ∷ drop at l.sections ≡ xs ++ s ∷ zs =
      ap (λ ss. take at ss ++ new ∷ drop at ss) sections ∙ placed in
    let found : find_index s (renumber name 0 (take at l.sections ++ new ∷ drop at l.sections) [])
        ≡ some (0 + assigned name xs) =
      ap (λ ss. find_index s (renumber name 0 ss [])) moved ∙ renumbered name 0 xs s zs [] a' e in
    (ground (arith, find_index-added name xs s ys empty a e), ground (arith, found))
