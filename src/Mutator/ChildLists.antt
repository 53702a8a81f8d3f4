-- ===== src/Mutator/ChildLists.antt =====
-- What append, prepend, insertBefore and insertAfter do to the lists of children.
use egalito.Base.{
  ℕ, suc, ◌≡◌, refl, ◌∙◌, sym, ap, subst, ◌≢◌, false, List, [], ◌∷◌, ◌++◌, Option, none, some,
  arith, length, append-nil,
}
use egalito.Base.Result.{ok, Returns, bind-ok, bind-then}
use egalito.Chunk.{Store, write, set_parent, set_previous, set_children}
use egalito.Mutator.{
  get_last, link_last, link_before, link_after, append, prepend, insert_before, insert_after,
  ensure_position, update_sizes, set_previous_of, set_next_of, index_before, index_after, insert_at,
}
use egalito.Mutator.Siblings.{
  Avoids, head_or, last_or, is_at, get_last-last_or, last_or-is_at, Avoids-left, Avoids-right,
  Distinct-remove, index_of-append, insert_at-length, insert_at-after, last_or-snoc,
}
use egalito.Mutator.Links.{Linked-split}
use egalito.Mutator.Insertion.{Relinked, Inserted, CanInsert, inserted}
use egalito.Chunk.Frame.{get_children-ok}
use egalito.Mutator.Renewal.{renew_next-returns, Inserted-same}
use egalito.Mutator.Relinking.{
  link_last-Relinked, before_at-Relinked, after_at-Relinked, before_at, after_at,
}

is_at-head : (c : ℕ) (xs : List ℕ) → Avoids c xs → is_at (head_or xs none) c ≡ false
is_at-head c [] a = refl
is_at-head c (x ∷ xs) (ne, a) = ground arith

link_last-children :
    (s : Store) (p new : ℕ) (prev : Option ℕ)
    → (set_parent new (some p) (link_last new prev s) p).children ≡ (s p).children
unfolding link_last write
link_last-children s p new none = ground arith
link_last-children s p new (some l) = ground arith

-- append puts a chunk at the end of the children, in a hierarchy whose lists and pointers agree,
-- for a chunk that has a position, stands in no list and is not above the place, with fewer than
-- eight chunks up to the module, which can grow by its size, and if the chunk has no next sibling:
-- it returns, the lists of other chunks stay, lists and pointers agree again, and the computed
-- sizes up to the module grow by the size of the chunk.
pub append-Inserted :
    (s : Store) (p : ℕ) (cs : List ℕ) (new : ℕ) (above : List ℕ)
    → CanInsert s p cs new above
    → (s new).next ≡ none
    → Returns (append p new s) (λ t. Inserted s t p cs new [] above)
unfolding append
append-Inserted s p cs new above can e =
    let loose = can.loose p cs can.at_children in
    let last = get_last-last_or cs in
    let linked =
      link_last-Relinked s p new (get_last cs) (cs ++ new ∷ [])
        (ap (λ o. is_at o new) last ∙ last_or-is_at new cs none loose refl) e in
    let s₂ : Store =
      set_children p (cs ++ new ∷ []) (set_parent new (some p) (link_last new (get_last cs) s)) in
    let (t, r, (done, keeps)) =
      inserted s s₂ p cs new [] above
        (subst (λ ds. CanInsert s p ds new above) (sym (append-nil cs)) can)
        (subst (λ o. Relinked s s₂ p o new none (cs ++ new ∷ [])) last linked) in
    let first = get_children-ok s p cs can.at_children in
    let second =
      get_children-ok (set_parent new (some p) (link_last new (get_last cs) s)) p cs
        (link_last-children s p new (get_last cs) ∙ can.at_children) in
    (t, rw first (rw second r), done)

link_before-children :
    (s : Store) (p new point : ℕ) (prev : Option ℕ)
    → (before_at s p new point prev p).children ≡ (s p).children
unfolding set_next_of write
link_before-children s p new point none = ground arith
link_before-children s p new point (some l) = ground arith

index_before-found :
    (xs : List ℕ) (point : ℕ) (ys : List ℕ)
    → Avoids point xs
    → index_before point (xs ++ point ∷ ys) ≡ ok (length xs)
unfolding index_before
index_before-found xs point ys a = ground (arith, index_of-append xs point ys a)

-- insertBefore puts a chunk directly before one of the children, in a hierarchy whose lists and
-- pointers agree, for a chunk that has a position, stands in no list and is not above the place,
-- with fewer than eight chunks up to the module, which can grow by its size: it returns, the lists
-- of other chunks stay, lists and pointers agree again, and the computed sizes up to the module
-- grow by the size of the chunk.
pub insert_before-Inserted :
    (s : Store) (p : ℕ) (xs : List ℕ) (point : ℕ) (ys : List ℕ) (new : ℕ) (above : List ℕ)
    → CanInsert s p (xs ++ point ∷ ys) new above
    → Returns (insert_before p (some point) new s) (λ t. Inserted s t p xs new (point ∷ ys) above)
unfolding insert_before link_before
insert_before-Inserted s p xs point ys new above can =
    let cs : List ℕ = xs ++ point ∷ ys in
    let loose = can.loose p cs can.at_children in
    let (d, h) = can.hierarchy p cs can.at_children in
    let (l, (e₁, e₂, e₃, r₁)) = Linked-split s p none xs (point ∷ ys) none h in
    let point-new : point ≢ new = (Avoids-right new xs (point ∷ ys) loose).0 in
    let (away, d') = Distinct-remove point xs ys d in
    let prev : Option ℕ = (s point).prev in
    let at-new : is_at prev new ≡ false =
      ap (λ o. is_at o new) e₂
      ∙ last_or-is_at new xs none (Avoids-left new xs (point ∷ ys) loose) refl in
    let list : List ℕ = insert_at (length xs) new cs in
    let s₂ : Store = set_parent new (some p) (set_children p list (before_at s p new point prev)) in
    let linked = before_at-Relinked s p new point prev list point-new at-new in
    let (t, r, (done, keeps)) = inserted s s₂ p xs new (point ∷ ys) above can (
      subst (λ ds. Relinked s s₂ p (last_or xs none) new (some point) ds)
        (insert_at-length xs new (point ∷ ys))
        (subst (λ o. Relinked s s₂ p o new (some point) list) e₂ linked)) in
    let first =
      get_children-ok (before_at s p new point prev) p cs
        (link_before-children s p new point prev ∙ can.at_children) in
    let found = index_before-found xs point ys (Avoids-left point xs ys away) in
    (t, bind-ok _ _ cs _ first (bind-ok _ _ (length xs) _ found r), done)

-- prepend puts a chunk that append could add before the children instead.
pub prepend-Inserted :
    (s : Store) (p : ℕ) (cs : List ℕ) (new : ℕ) (above : List ℕ)
    → CanInsert s p cs new above
    → (s new).next ≡ none
    → Returns (prepend p new s) (λ t. Inserted s t p [] new cs above)
unfolding prepend
prepend-Inserted s p [] new above can e =
    let (t, r, done) = append-Inserted s p [] new above can e in
    (t, rw (get_children-ok s p [] can.at_children) r, done)
prepend-Inserted s p (c ∷ cs) new above can e =
    let (t, r, done) = insert_before-Inserted s p [] c cs new above can in
    (t, rw (get_children-ok s p (c ∷ cs) can.at_children) r, done)

index_after-found :
    (xs : List ℕ) (point : ℕ) (ys : List ℕ)
    → Avoids point xs
    → index_after (some point) (xs ++ point ∷ ys) ≡ suc (length xs)
unfolding index_after
index_after-found xs point ys a = ground (arith, index_of-append xs point ys a)

link_after-children :
    (s : Store) (p new point : ℕ) (next : Option ℕ)
    → (after_at s new point next p).children ≡ (s p).children
unfolding set_previous_of write
link_after-children s p new point none = ground arith
link_after-children s p new point (some l) = ground arith

snoc-append : (xs : List ℕ) (x : ℕ) (ys : List ℕ) → (xs ++ x ∷ []) ++ ys ≡ xs ++ x ∷ ys
snoc-append [] x ys = refl
snoc-append (y ∷ xs) x ys = ap (◌∷◌ y) (snoc-append xs x ys)

set_previous-next :
    (s : Store) (new x : ℕ) (o : Option ℕ) → (set_previous new o s x).next ≡ (s x).next
unfolding write
set_previous-next s new x o = ground arith

-- insertAfter puts a chunk directly after one of the children, in a hierarchy whose lists and
-- pointers agree, for a chunk that has a position, stands in no list and is not above the place,
-- with fewer than eight chunks up to the module, which can grow by its size: it returns, the lists
-- of other chunks stay, lists and pointers agree again, and the computed sizes up to the module
-- grow by the size of the chunk.
pub insert_after-Inserted :
    (s : Store) (p : ℕ) (xs : List ℕ) (point : ℕ) (ys : List ℕ) (new : ℕ) (above : List ℕ)
    → CanInsert s p (xs ++ point ∷ ys) new above
    → Returns
        (insert_after p (some point) new s)
        (λ t. Inserted s t p (xs ++ point ∷ []) new ys above)
unfolding insert_after link_after
insert_after-Inserted s p xs point ys new above can =
    let cs : List ℕ = xs ++ point ∷ ys in
    let loose = can.loose p cs can.at_children in
    let (d, h) = can.hierarchy p cs can.at_children in
    let (l, (e₁, e₂, e₃, r₁)) = Linked-split s p none xs (point ∷ ys) none h in
    let (point-new, loose') = Avoids-right new xs (point ∷ ys) loose in
    let (away, d') = Distinct-remove point xs ys d in
    let next : Option ℕ = (set_previous new (some point) s point).next in
    let next-head : next ≡ head_or ys none = set_previous-next s new point (some point) ∙ e₃ in
    let at-new : is_at next new ≡ false =
      ap (λ o. is_at o new) next-head ∙ is_at-head new ys loose' in
    let list : List ℕ = insert_at (index_after (some point) cs) new cs in
    let list-split : list ≡ (xs ++ point ∷ []) ++ new ∷ ys =
      ap (λ i. insert_at i new cs) (index_after-found xs point ys (Avoids-left point xs ys away))
      ∙ insert_at-after xs point new ys
      ∙ sym (snoc-append xs point (new ∷ ys)) in
    let s₂ : Store = set_parent new (some p) (set_children p list (after_at s new point next)) in
    let linked = after_at-Relinked s p new point next list point-new at-new in
    let (t, r, (done, keeps)) =
      inserted s s₂ p (xs ++ point ∷ []) new ys above
        (subst (λ ds. CanInsert s p ds new above) (sym (snoc-append xs point ys)) can)
        (subst (λ ds. Relinked s s₂ p (last_or (xs ++ point ∷ []) none) new (head_or ys none) ds)
          list-split
          (subst (λ o. Relinked s s₂ p o new (head_or ys none) list)
            (sym (last_or-snoc xs point none))
            (subst (λ o. Relinked s s₂ p (some point) new o list) next-head linked))) in
    let (u, r', same) = renew_next-returns t (t new).next in
    let first =
      get_children-ok (after_at s new point next) p cs
        (link_after-children s p new point next ∙ can.at_children) in
    (
      u,
      bind-ok _ _ cs _ first (bind-then (ensure_position p new s₂) (update_sizes p new) _ t _ r r'),
      Inserted-same s t u p (xs ++ point ∷ []) new ys above same done,
    )
