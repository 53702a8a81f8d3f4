-- ===== src/Mutator/Removal.antt =====
-- What remove does to the list of children.
use egalito.Base.{
  ℕ, ◌-◌, ◌%◌, ◌^◌, ◌<◌, ◌≡◌, refl, ◌∙◌, ap, subst, ◌≢◌, true, List, ◌∷◌, ◌++◌, Option, none, some,
  arith, if◌then◌else◌, length,
}
use egalito.Base.Result.{Returns, bind-ok}
use egalito.Chunk.{Store, write, set_children}
use egalito.Chunk.Frame.{get_children-ok}
use egalito.Mutator.{levels, set_previous_of, set_next_of, remove_from, unlink, remove}
use egalito.Mutator.Siblings.{head_or, last_or, Avoids-left, Distinct-remove, remove_from-append}
use egalito.Mutator.Links.{IsHierarchy, SameAt, Linked-split}
use egalito.Mutator.Hierarchy.{IsLoose, removal-IsHierarchy}
use egalito.Mutator.Sizes.{
  AllAccept-same, has, Above, AllAccept, grown_size, adjust_sizes-returns, grown-keeps, Above-frame,
}

-- The difference that remove adds to sizes.
abbrev pub negated : ℕ → ℕ
negated size = (2 ^ 64 - size) % 2 ^ 64

-- What remove asks for: a hierarchy, the chunk in the list, and tracked sizes above that can lose
-- its size.
pub record CanRemove (s : Store) (p : ℕ) (xs : List ℕ) (c : ℕ) (ys above : List ℕ) : Type 0 where
  pub hierarchy : IsHierarchy s
  pub at_children : (s p).children ≡ some (xs ++ c ∷ ys)
  pub path : Above s (some p) above
  pub room : AllAccept true (negated (s c).size) s above
  pub depth : length above < levels

pub record Removed (s s' : Store) (p : ℕ) (xs : List ℕ) (c : ℕ) (ys above : List ℕ) : Type 0 where
  pub at_children : (s' p).children ≡ some (xs ++ ys)
  pub others : (q : ℕ) → q ≢ p → (s' q).children ≡ (s q).children
  pub hierarchy : IsHierarchy s'
  pub loose : IsLoose s' c
  pub sizes :
      (x : ℕ)
      → (s' x).size ≡ (
          if has x above
          then grown_size true (negated (s c).size) (s x).sizing (s x).size
          else (s x).size)

-- What the first part of remove has done.
record Unlinked (s s' : Store) (p : ℕ) (left right : Option ℕ) (cs : List ℕ) : Type 0 where
  pub at_children : (s' p).children ≡ some cs
  pub others : (q : ℕ) → q ≢ p → (s' q).children ≡ (s q).children
  pub same : (x : ℕ) → SameAt s s' left right right left x
  pub rest :
      (x : ℕ)
      → ((s' x).size ≡ (s x).size)
        × ((s' x).sizing ≡ (s x).sizing)
        × ((s' x).is_module ≡ (s x).is_module)

abbrev unlinked_at : Store → Option ℕ → Option ℕ → Store
unlinked_at s prev next = set_previous_of next prev (set_next_of prev next s)

unlinked :
    (s : Store) (p : ℕ) (prev next : Option ℕ) (cs : List ℕ)
    → Unlinked s (set_children p cs (unlinked_at s prev next)) p prev next cs
unfolding set_previous_of set_next_of write
unlinked s p none none cs = record {
  at_children = ground arith;
  others = λ q ne. ground arith;
  same = λ x. (ground arith, ground arith, ground arith);
  rest = λ x. (ground arith, ground arith, ground arith);
}
unlinked s p none (some n) cs = record {
  at_children = ground arith;
  others = λ q ne. ground arith;
  same = λ x. (ground arith, ground arith, ground arith);
  rest = λ x. (ground arith, ground arith, ground arith);
}
unlinked s p (some l) none cs = record {
  at_children = ground arith;
  others = λ q ne. ground arith;
  same = λ x. (ground arith, ground arith, ground arith);
  rest = λ x. (ground arith, ground arith, ground arith);
}
unlinked s p (some l) (some n) cs = record {
  at_children = ground arith;
  others = λ q ne. ground arith;
  same = λ x. (ground arith, ground arith, ground arith);
  rest = λ x. (ground arith, ground arith, ground arith);
}

unlink-children :
    (s : Store) (p : ℕ) (prev next : Option ℕ)
    → (unlinked_at s prev next p).children ≡ (s p).children
unfolding set_previous_of set_next_of write
unlink-children s p none none = refl
unlink-children s p none (some n) = ground arith
unlink-children s p (some l) none = ground arith
unlink-children s p (some l) (some n) = ground arith

-- remove takes a child out of the list of children, in a hierarchy whose lists and pointers agree,
-- with fewer than eight chunks up to the module, whose tracked sizes can lose the size of the
-- chunk: it returns, the lists of other chunks stay, no list has the chunk any more, lists and
-- pointers agree again, and the computed sizes up to the module that are not 0 lose the size of the
-- chunk.
pub remove-Removed :
    (s : Store) (p : ℕ) (xs : List ℕ) (c : ℕ) (ys above : List ℕ)
    → CanRemove s p xs c ys above
    → Returns (remove p c s) (λ t. Removed s t p xs c ys above)
unfolding remove unlink
remove-Removed s p xs c ys above can =
    let cs : List ℕ = xs ++ c ∷ ys in
    let (d, h) = can.hierarchy p cs can.at_children in
    let (l, (e₁, e₂, e₃, r₁)) = Linked-split s p none xs (c ∷ ys) none h in
    let (away, d') = Distinct-remove c xs ys d in
    let prev : Option ℕ = (s c).prev in
    let next : Option ℕ = (s c).next in
    let list : List ℕ = remove_from c cs in
    let s₂ : Store = set_children p list (unlinked_at s prev next) in
    let un : Unlinked s s₂ p (last_or xs none) (head_or ys none) (xs ++ ys) =
      subst (λ ds. Unlinked s s₂ p (last_or xs none) (head_or ys none) ds)
        (remove_from-append xs c ys (Avoids-left c xs ys away))
        (subst (λ o. Unlinked s s₂ p o (head_or ys none) list) e₂
          (subst (λ o. Unlinked s s₂ p prev o list) e₃ (unlinked s p prev next list))) in
    let path = Above-frame s s₂ (some p) above (λ x. (un.same x).0) (λ x. (un.rest x).2) can.path in
    let size = (un.rest c).0 in
    let room =
      AllAccept-same true (negated (s c).size) (negated (s₂ c).size) s s₂ above (ap negated size)
        (λ x. (un.rest x).0) (λ x. (un.rest x).1) can.room in
    let (t, r, same) =
      adjust_sizes-returns levels true (negated (s₂ c).size) (some p) above s₂ path room
        can.depth in
    let keeps =
      λ (x : ℕ). grown-keeps (has x above) true (negated (s₂ c).size) (s₂ x) (t x) (same x) in
    let at_children = (keeps p).3 ∙ un.at_children in
    let others = λ (q : ℕ) (ne : q ≢ p). (keeps q).3 ∙ un.others q ne in
    let (hierarchy, loose) =
      removal-IsHierarchy s t p xs c ys can.hierarchy can.at_children at_children others (λ x.
        let (a₁, a₂, a₃) = un.same x in ((keeps x).0 ∙ a₁, (keeps x).2 ∙ a₂, (keeps x).1 ∙ a₃)) in
    let first =
      get_children-ok (unlinked_at s prev next) p cs
        (unlink-children s p prev next ∙ can.at_children) in
    (
      t,
      bind-ok _ _ cs _ first r,
      record {
        at_children = at_children;
        others = others;
        hierarchy = hierarchy;
        loose = loose;
        sizes = λ x. ground (arith, (keeps x).5, size, (un.rest x).0, (un.rest x).1);
      },
    )
