-- ===== src/Analysis/Walker/Reachable.antt =====
-- The orders that NodeCollection gives, and the nodes that can be reached.
use egalito.Base.{
  ℕ, zero, suc, ◌<◌, ◌≡◌, refl, ◌∙◌, sym, ap, subst, Bool, true, false, List, [], ◌∷◌, ◌++◌, arith,
  length, replicate, length-replicate, ◌⊎◌, ◌↔◌, Bool-cases, inl, inr, append_assoc, append-nil,
  to_ℕ,
}
use egalito.Base.Result.{Result, ok, Returns, ◌>>=◌}
use egalito.Analysis.Graph.{Graph, Direction, forward}
use egalito.Analysis.Walker.{
  State, NodeCollection, node_collector, preorder, postorder, empty, reverse, FinishType,
  change_lap, pre_visit, post_visit, walk, gen, is_reachable, first_order, contains, reversed,
  finish_orders, finish_order,
}
use egalito.Analysis.Walker.Trace.{
  Event, entered, left, seen_again, marked, Walk, handle, handle_all, unvisited, IsGraph,
}
use egalito.Analysis.Walker.Ends.{walk_helper-Walk}
use egalito.Analysis.Walker.Orders.{
  entered_ids, left_ids, Edge, Reach, here, step, count, count-append, Walk-Marks, Walk-Reach,
  Walk-starts,
}
use egalito.Analysis.Walker.Closure.{Backed, Walk-closed, Walk-Backed}

abbrev pub one_list : List ℕ → NodeCollection
one_list order = record { order = order ∷ []; lap = 0 }

preorder-handle_all :
    (f : FinishType) (es : List Event) (order : List ℕ)
    → handle_all (node_collector preorder f) es (one_list order)
      ≡ ok (one_list (order ++ entered_ids es))
unfolding handle_all handle node_collector change_lap pre_visit post_visit
preorder-handle_all f [] order = ap (λ o. ok (one_list o)) (sym (append-nil order))
preorder-handle_all f (entered n ∷ es) order =
    preorder-handle_all f es (order ++ n.id ∷ [])
    ∙ ap (λ o. ok (one_list o)) (append_assoc order (n.id ∷ []) (entered_ids es))
preorder-handle_all f (left n ∷ es) order = preorder-handle_all f es order
preorder-handle_all f (seen_again n l ∷ es) order = preorder-handle_all f es order

postorder-handle_all :
    (f : FinishType) (es : List Event) (order : List ℕ)
    → handle_all (node_collector postorder f) es (one_list order)
      ≡ ok (one_list (order ++ left_ids es))
unfolding handle_all handle node_collector change_lap pre_visit post_visit
postorder-handle_all f [] order = ap (λ o. ok (one_list o)) (sym (append-nil order))
postorder-handle_all f (entered n ∷ es) order = postorder-handle_all f es order
postorder-handle_all f (left n ∷ es) order =
    postorder-handle_all f es (order ++ n.id ∷ [])
    ∙ ap (λ o. ok (one_list o)) (append_assoc order (n.id ∷ []) (left_ids es))
postorder-handle_all f (seen_again n l ∷ es) order = postorder-handle_all f es order

pub replicate-unvisited : (n : ℕ) → unvisited (replicate n false) ≡ n
replicate-unvisited zero = refl
replicate-unvisited (suc n) = omega (arith, replicate-unvisited n)

pub replicate-marked : (n x : ℕ) → marked (replicate n false) x ≡ false
replicate-marked zero x = refl
replicate-marked (suc n) zero = refl
replicate-marked (suc n) (suc x) = replicate-marked n x

module _ (g : Graph) (dir : Direction) (graph : IsGraph g dir) (id : ℕ) (h : id < length g) where
  abbrev pub fresh : List Bool
  fresh = replicate (length g) false

  -- A walk of a graph that nothing was visited of.
  pub reached-Marks :
      (v' : List Bool) (es : List Event) (x : ℕ)
      → Walk g dir fresh id es v'
      → (count x (entered_ids es) ≡ to_ℕ (marked v' x))
        × (count x (left_ids es) ≡ to_ℕ (marked v' x))
  reached-Marks v' es x walk =
      let (a, b) = Walk-Marks g dir graph fresh v' id es x walk in
      let none = ap to_ℕ (replicate-marked (length g) x) in
      (omega (arith, a, none), omega (arith, b, none))

  pub marked-Reach :
      (v' : List Bool) (es : List Event) (x : ℕ)
      → Walk g dir fresh id es v'
      → marked v' x ≡ true
      → Reach g dir id x
  marked-Reach v' es x walk m = elim (Walk-Reach g dir graph fresh v' id es x walk m) [
    | inl old ↦ absurd (ground (arith, old, replicate-marked (length g) x))
    | inr r ↦ r
  ]

  pub Reach-marked :
      (v' : List Bool) (es : List Event) (x : ℕ)
      → Walk g dir fresh id es v'
      → Reach g dir id x
      → marked v' x ≡ true
  Reach-marked v' es x walk here = Walk-starts g dir graph fresh v' id es walk
  Reach-marked v' es x walk (step y z r e) =
      elim (Walk-closed g dir graph fresh v' id es y z walk (Reach-marked v' es y walk r) e) [
        | inl old ↦ absurd (ground (arith, old, replicate-marked (length g) y))
        | inr m ↦ m
      ]

pub contains_iff : (x : ℕ) (ys : List ℕ) → (contains x ys ≡ true) ↔ (0 < count x ys)
unfolding contains
contains_iff x [] = (λ e. absurd (ground (arith, e)), λ h. elim h [ ])
contains_iff x (y ∷ ys) = ground (arith, contains_iff x ys)

-- From a node of a graph whose links lead to its nodes, `isReachable` returns, and it returns true
-- exactly if some path of links leads to the other node.
pub is_reachable-Reach :
    (g : Graph) (src dest : ℕ)
    → IsGraph g forward
    → src < length g
    → Returns (is_reachable g src dest) (λ b. (b ≡ true) ↔ Reach g forward src dest)
unfolding is_reachable gen walk node_collector first_order finish_orders finish_order
is_reachable-Reach g src dest graph h =
    let c = node_collector preorder empty in
    let (es, v', w, run, len, low) =
      walk_helper-Walk c g forward graph (suc (length g)) (replicate (length g) false) src
        (length-replicate (length g) false) h (replicate-marked (length g) src)
        (omega (arith, replicate-unvisited (length g))) in
    let ended =
      run (one_list [])
      ∙ ap (λ r. r >>= λ u. ok (record { visited = v'; collected = u }))
          (preorder-handle_all empty es []) in
    let (entered-once, left-once) = reached-Marks g forward graph src h v' es dest w in
    (
      contains dest (entered_ids es),
      ap
          (λ (r : Result (State NodeCollection)).
            ((r >>= λ s. ok (c.finish s.collected)) >>= λ t. ok t.order) >>= λ o.
            first_order o >>= λ order. ok (contains dest order))
          ended,
      (
        λ e.
            let pos = (contains_iff dest (entered_ids es)).0 e in
            marked-Reach g forward graph src h v' es dest w (ground (arith, pos, entered-once)),
        λ r.
            let m = Reach-marked g forward graph src h v' es dest w r in
            (contains_iff dest (entered_ids es)).1 (ground (arith, m, entered-once)),
      ),
    )

-- Each node stands behind one that it has an edge from.
abbrev pub Led : Graph → Direction → List ℕ → List ℕ → Type 0
Led g dir before [] = Unit
Led g dir before (x ∷ xs) =
    ((y : ℕ) × Edge g dir y x × (0 < count y before)) × Led g dir (before ++ x ∷ []) xs

Led-snoc :
    (g : Graph) (dir : Direction) (before xs : List ℕ) (x y : ℕ)
    → Led g dir before xs
    → Edge g dir y x
    → 0 < count y (before ++ xs)
    → Led g dir before (xs ++ x ∷ [])
Led-snoc g dir before [] x y l e h = ((y, e, subst (λ b. 0 < count y b) (append-nil before) h), tt)
Led-snoc g dir before (z ∷ zs) x y (a, l) e h = (
  a,
  Led-snoc g dir (before ++ z ∷ []) zs x y l e
      (subst (λ b. 0 < count y b) (sym (append_assoc before (z ∷ []) zs)) h),
)

count-reversed : (y : ℕ) (xs : List ℕ) → count y (reversed xs) ≡ count y xs
unfolding reversed
count-reversed y [] = refl
count-reversed y (x ∷ xs) =
    omega (arith, count-append y (reversed xs) (x ∷ []), count-reversed y xs)

Backed-reversed :
    (g : Graph) (dir : Direction) (xs : List ℕ) (last : ℕ)
    → Backed g dir xs last
    → Led g dir (last ∷ []) (reversed xs)
unfolding reversed
Backed-reversed g dir [] last b = tt
Backed-reversed g dir (x ∷ xs) last ((y, e, h), b) =
    Led-snoc g dir (last ∷ []) (reversed xs) x y (Backed-reversed g dir xs last b) e (
      omega (
        arith,
        h,
        count-append y xs (last ∷ []),
        count-append y (last ∷ []) (reversed xs),
        count-reversed y xs,
      ))

reversed-snoc : (xs : List ℕ) (x : ℕ) → reversed (xs ++ x ∷ []) ≡ x ∷ reversed xs
unfolding reversed
reversed-snoc [] x = refl
reversed-snoc (y ∷ ys) x = ap (λ zs. zs ++ y ∷ []) (reversed-snoc ys x)

-- A list has exactly the nodes that can be reached from `id`, each once.
abbrev pub Reaches : Graph → Direction → ℕ → List ℕ → Type 0
Reaches g dir id xs =
    (x : ℕ) → ((count x xs ≡ 1) × Reach g dir id x) ⊎ ((count x xs ≡ 0) × (Reach g dir id x → ⊥))

-- From a node of a graph whose links lead to its nodes, the reverse postorder, in either direction,
-- starts with the node, has exactly the nodes that can be reached from it, each once, and has each of
-- the others behind one that it has an edge from.
pub reverse_postorder-Reaches :
    (g : Graph) (dir : Direction) (id : ℕ)
    → IsGraph g dir
    → id < length g
    → Returns (gen postorder reverse dir g id) (λ os.
      (xs : List ℕ) × (os ≡ (id ∷ xs) ∷ []) × Reaches g dir id (id ∷ xs) × Led g dir (id ∷ []) xs)
unfolding gen walk node_collector finish_orders finish_order
reverse_postorder-Reaches g dir id graph h =
    let c = node_collector postorder reverse in
    let (es, v', w, run, len, low) =
      walk_helper-Walk c g dir graph (suc (length g)) (replicate (length g) false) id
        (length-replicate (length g) false) h (replicate-marked (length g) id)
        (omega (arith, replicate-unvisited (length g))) in
    let ended =
      run (one_list [])
      ∙ ap (λ r. r >>= λ u. ok (record { visited = v'; collected = u }))
          (postorder-handle_all reverse es []) in
    let (xs, split, backed) = Walk-Backed g dir graph (replicate (length g) false) v' id es w in
    let order : reversed (left_ids es) ≡ id ∷ reversed xs =
      ap reversed split ∙ reversed-snoc xs id in
    (
      reversed (left_ids es) ∷ [],
      ap
          (λ (r : Result (State NodeCollection)).
            (r >>= λ s. ok (c.finish s.collected)) >>= λ t. ok t.order)
          ended,
      (
        reversed xs,
        ap (λ o. o ∷ []) order,
        λ x.
            let (entered-once, left-once) = reached-Marks g dir graph id h v' es x w in
            let listed : count x (id ∷ reversed xs) ≡ to_ℕ (marked v' x) =
              ap (count x) (sym order) ∙ count-reversed x (left_ids es) ∙ left-once in
            elim (Bool-cases (marked v' x)) [
              | inl m ↦ inl (ground (arith, listed, m), marked-Reach g dir graph id h v' es x w m)
              | inr n ↦ inr (
                ground (arith, listed, n),
                λ r. ground (arith, Reach-marked g dir graph id h v' es x w r, n),
              )
            ],
        Backed-reversed g dir xs id backed,
      ),
    )
