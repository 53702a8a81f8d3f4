-- ===== src/Mutator/Insertion.antt =====
-- append, prepend, insertAfter and insertBefore as insertions into the list of children.
use egalito.Base.{
  ℕ, ◌<◌, ◌≡◌, ◌∙◌, sym, subst, ◌≢◌, false, List, ◌∷◌, ◌++◌, Option, none, some, arith,
  if◌then◌else◌, length,
}
use egalito.Base.Result.{Returns, ◌>>=◌}
use egalito.Chunk.{Store, Position}
use egalito.Mutator.{levels, ensure_position, update_sizes}
use egalito.Mutator.Siblings.{Avoids, head_or, last_or}
use egalito.Mutator.Links.{IsHierarchy, SameAt}
use egalito.Mutator.Hierarchy.{IsLoose, insertion-IsHierarchy}
use egalito.Mutator.Sizes.{
  AllAccept-same, has, Above, AllAccept, grown_size, adjust_sizes-returns, grown-keeps,
}

-- What the first part of an insertion has done: the pointers and the list are changed, nothing else.
pub record Relinked (s s' : Store) (p : ℕ) (left : Option ℕ) (new : ℕ) (right : Option ℕ)
    (cs : List ℕ) : Type 0 where
  pub at_children : (s' p).children ≡ some cs
  pub others : (q : ℕ) → q ≢ p → (s' q).children ≡ (s q).children
  pub same : (x : ℕ) → x ≢ new → SameAt s s' left right (some new) (some new) x
  pub parent : (s' new).parent ≡ some p
  pub prev : (s' new).prev ≡ left
  pub next : (s' new).next ≡ right
  pub rest :
      (x : ℕ)
      → ((s' x).position ≡ (s x).position)
        × ((s' x).size ≡ (s x).size)
        × ((s' x).sizing ≡ (s x).sizing)
        × ((s' x).is_module ≡ (s x).is_module)

-- What an insertion has done: the children of p, those of other chunks, the pointers and the sizes.
pub record Inserted (s s' : Store) (p : ℕ) (xs : List ℕ) (new : ℕ) (ys above : List ℕ)
    : Type 0 where
  pub at_children : (s' p).children ≡ some (xs ++ new ∷ ys)
  pub others : (q : ℕ) → q ≢ p → (s' q).children ≡ (s q).children
  pub hierarchy : IsHierarchy s'
  pub sizes :
      (x : ℕ)
      → (s' x).size ≡ (
          if has x above then grown_size false (s new).size (s x).sizing (s x).size else (s x).size)

-- What an insertion asks for: a hierarchy, a chunk with a position that is in no list and not above
-- the place, and chunks above that can grow by its size.
pub record CanInsert (s : Store) (p : ℕ) (cs : List ℕ) (new : ℕ) (above : List ℕ) : Type 0 where
  pub hierarchy : IsHierarchy s
  pub loose : IsLoose s new
  pub at_children : (s p).children ≡ some cs
  pub position : (a : Position) × ((s new).position ≡ some a)
  pub path : Above s (some p) above
  pub off_path : Avoids new above
  pub room : AllAccept false (s new).size s above
  pub depth : length above < levels

Above-relinked :
    (s s' : Store) (new : ℕ) (o : Option ℕ) (cs : List ℕ)
    → ((x : ℕ) → x ≢ new → (s' x).parent ≡ (s x).parent)
    → ((x : ℕ) → (s' x).is_module ≡ (s x).is_module)
    → Above s o cs
    → Avoids new cs
    → Above s' o cs
Above-relinked s s' new o cs parent kind Above.top a = Above.top
Above-relinked s s' new o cs parent kind (Above.at_module m e) a = Above.at_module m (kind m ∙ e)
Above-relinked s s' new o cs parent kind (Above.below c cs' e b path) (ne, a) =
    Above.below c cs' (kind c ∙ e) b (
      subst (λ o. Above s' o cs') (sym (parent c ne))
        (Above-relinked s s' new _ cs' parent kind path a))

-- The end of an insertion returns, and what the first part did is an insertion.
pub inserted :
    (s s' : Store) (p : ℕ) (xs : List ℕ) (new : ℕ) (ys above : List ℕ)
    → CanInsert s p (xs ++ ys) new above
    → Relinked s s' p (last_or xs none) new (head_or ys none) (xs ++ new ∷ ys)
    → Returns (ensure_position p new s' >>= λ t. update_sizes p new t) (λ t.
      Inserted s t p xs new ys above
      × ((x : ℕ) → ((t x).next ≡ (s' x).next) × ((t x).children ≡ (s' x).children)))
unfolding ensure_position update_sizes
inserted s s' p xs new ys above can linked =
    let (a, at_position) = can.position in
    let (pos, size, sizing, kind) = linked.rest new in
    let path =
      Above-relinked s s' new (some p) above (λ x ne. (linked.same x ne).0) (λ x. (linked.rest x).3)
        can.path can.off_path in
    let room =
      AllAccept-same false (s new).size (s' new).size s s' above size (λ x. (linked.rest x).1)
        (λ x. (linked.rest x).2) can.room in
    let (t, r, same) =
      adjust_sizes-returns levels false (s' new).size (some p) above s' path room can.depth in
    let keeps = λ (x : ℕ). grown-keeps (has x above) false (s' new).size (s' x) (t x) (same x) in
    let at_children = (keeps p).3 ∙ linked.at_children in
    let others = λ (q : ℕ) (ne : q ≢ p). (keeps q).3 ∙ linked.others q ne in
    let hierarchy =
      insertion-IsHierarchy s t p xs new ys can.hierarchy can.loose can.at_children at_children
        others
        (λ x ne.
          let (e₁, e₂, e₃) = linked.same x ne in
          ((keeps x).0 ∙ e₁, (keeps x).2 ∙ e₂, (keeps x).1 ∙ e₃))
        ((keeps new).0 ∙ linked.parent) ((keeps new).1 ∙ linked.prev)
        ((keeps new).2 ∙ linked.next) in
    (
      t,
      ground (arith, r, pos, at_position),
      (
        record {
          at_children = at_children;
          others = others;
          hierarchy = hierarchy;
          sizes = λ x. ground (arith, (keeps x).5, size, (linked.rest x).1, (linked.rest x).2);
        },
        λ x. ((keeps x).2, (keeps x).3),
      ),
    )
