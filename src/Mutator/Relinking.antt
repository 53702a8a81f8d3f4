-- ===== src/Mutator/Relinking.antt =====
-- The first parts of append, insertBefore and insertAfter, which set pointers and the list.
use egalito.Base.{ℕ, ◌≡◌, ◌≢◌, false, List, Option, none, some, arith}
use egalito.Chunk.{Store, write, set_parent, set_previous, set_next, set_children}
use egalito.Mutator.{link_last, set_previous_of, set_next_of}
use egalito.Mutator.Siblings.{is_at}
use egalito.Mutator.Insertion.{Relinked}

-- The first parts of the operations.
pub link_last-Relinked :
    (s : Store) (p new : ℕ) (prev : Option ℕ) (cs : List ℕ)
    → is_at prev new ≡ false
    → (s new).next ≡ none
    → Relinked s
        (set_children p cs (set_parent new (some p) (link_last new prev s)))
        p
        prev
        new
        none
        cs
unfolding link_last write
link_last-Relinked s p new none cs a e = record {
  at_children = ground arith;
  others = λ q ne. ground arith;
  same = λ x ne. (ground arith, ground arith, ground arith);
  parent = ground arith;
  prev = ground arith;
  next = ground arith;
  rest = λ x. (ground arith, ground arith, ground arith, ground arith);
}
link_last-Relinked s p new (some l) cs a e = record {
  at_children = ground arith;
  others = λ q ne. ground arith;
  same = λ x ne. (ground arith, ground arith, ground arith);
  parent = ground arith;
  prev = ground arith;
  next = ground arith;
  rest = λ x. (ground arith, ground arith, ground arith, ground arith);
}

abbrev pub before_at : Store → ℕ → ℕ → ℕ → Option ℕ → Store
before_at s p new point prev =
    set_previous point (some new)
      (set_previous new prev (set_next new (some point) (set_next_of prev (some new) s)))

pub before_at-Relinked :
    (s : Store) (p new point : ℕ) (prev : Option ℕ) (cs : List ℕ)
    → point ≢ new
    → is_at prev new ≡ false
    → Relinked s
        (set_parent new (some p) (set_children p cs (before_at s p new point prev)))
        p
        prev
        new
        (some point)
        cs
unfolding set_next_of write
before_at-Relinked s p new point none cs ne a = record {
  at_children = ground arith;
  others = λ q ne. ground arith;
  same = λ x ne. (ground arith, ground arith, ground arith);
  parent = ground arith;
  prev = ground arith;
  next = ground arith;
  rest = λ x. (ground arith, ground arith, ground arith, ground arith);
}
before_at-Relinked s p new point (some l) cs ne a = record {
  at_children = ground arith;
  others = λ q ne. ground arith;
  same = λ x ne. (ground arith, ground arith, ground arith);
  parent = ground arith;
  prev = ground arith;
  next = ground arith;
  rest = λ x. (ground arith, ground arith, ground arith, ground arith);
}

abbrev pub after_at : Store → ℕ → ℕ → Option ℕ → Store
after_at s new point next =
    set_next point (some new)
      (set_next new next (set_previous_of next (some new) (set_previous new (some point) s)))

pub after_at-Relinked :
    (s : Store) (p new point : ℕ) (next : Option ℕ) (cs : List ℕ)
    → point ≢ new
    → is_at next new ≡ false
    → Relinked s
        (set_parent new (some p) (set_children p cs (after_at s new point next)))
        p
        (some point)
        new
        next
        cs
unfolding set_previous_of write
after_at-Relinked s p new point none cs ne a = record {
  at_children = ground arith;
  others = λ q ne. ground arith;
  same = λ x ne. (ground arith, ground arith, ground arith);
  parent = ground arith;
  prev = ground arith;
  next = ground arith;
  rest = λ x. (ground arith, ground arith, ground arith, ground arith);
}
after_at-Relinked s p new point (some l) cs ne a = record {
  at_children = ground arith;
  others = λ q ne. ground arith;
  same = λ x ne. (ground arith, ground arith, ground arith);
  parent = ground arith;
  prev = ground arith;
  next = ground arith;
  rest = λ x. (ground arith, ground arith, ground arith, ground arith);
}
