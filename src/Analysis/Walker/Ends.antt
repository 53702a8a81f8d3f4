-- ===== src/Analysis/Walker/Ends.antt =====
-- The fuel for the recursion of a walk, against the nodes that it has not visited.
use egalito.Base.{
  ℕ, zero, suc, ◌≤◌, ◌<◌, ◌≡◌, refl, ◌∙◌, sym, ap, Bool, true, false, List, [], ◌∷◌, ◌++◌, some,
  arith, get_elem?, set, length, length-set, Bool-cases, inl, inr, get_elem?-lt,
}
use egalito.Base.Result.{Result, ok, ◌>>=◌, bind-ok, bind_cong, bind_assoc, bind_unit}
use egalito.Analysis.Graph.{Graph, Node, Link, Direction, get_links, node_at}
use egalito.Analysis.Walker.{Collector, State, is_visited, mark, walk_links, walk_helper}
use egalito.Analysis.Walker.Trace.{
  Event, entered, left, seen_again, marked, Walk, Links, handle, handle_all, handle_all-append,
  unvisited, unvisited-set, IsGraph, AllBelow, is_visited-marked,
}

module _ {S : Type 0} (c : Collector S) (g : Graph) (dir : Direction) (graph : IsGraph g dir) where
  -- The state after a walk whose events the collector has handled.
  abbrev after : List Bool → Result S → Result (State S)
  after v r = r >>= λ u. ok (record { visited = v; collected = u })

  after-bind :
      (v : List Bool) (m : Result S) (f : S → Result S)
      → after v (m >>= f) ≡ (m >>= λ u. after v (f u))
  after-bind v m f = bind_assoc m f (λ u. ok (record { visited = v; collected = u }))

  -- A run of the code is a walk.
  abbrev Runs :
      (List Bool → List Event → List Bool → Type 0) → List Bool → (S → Result (State S)) → Type 0
  Runs W v run =
      (es : List Event) × (v' : List Bool) × W v es v'
      × ((t : S) → run t ≡ after v' (handle_all c es t))
      × (length v' ≡ length v)
      × (unvisited v' ≤ unvisited v)

  abbrev WalksFrom : ℕ → Type 0
  WalksFrom fuel =
      (v : List Bool) (id : ℕ)
      → length v ≡ length g
      → id < length g
      → marked v id ≡ false
      → unvisited v ≤ fuel
      → Runs (λ v es v'. Walk g dir v id es v') v
          (λ t. walk_helper c g dir fuel id (record { visited = v; collected = t }))

  abbrev links_from : ℕ → Node → List Link → List Bool → S → Result (State S)
  links_from fuel n ls v t =
      walk_links c (walk_helper c g dir fuel) n ls (record { visited = v; collected = t })

  links-again :
      (fuel : ℕ) (n : Node) (l : Link) (ls : List Link) (v v' : List Bool) (es : List Event) (t : S)
      → l.target < length v
      → marked v l.target ≡ true
      → ((u : S) → links_from fuel n ls v u ≡ after v' (handle_all c es u))
      → links_from fuel n (l ∷ ls) v t ≡ after v' (handle_all c (seen_again n l ∷ es) t)
  unfolding walk_links handle_all handle
  links-again fuel n l ls v v' es t h e run =
      bind-ok (is_visited v l.target) _ true _ (is_visited-marked v l.target h ∙ ap ok e) (
        bind_assoc (c.late_visit n l t) (λ u. ok (record { visited = v; collected = u })) _
        ∙ bind_cong (c.late_visit n l t) _ _ run
        ∙ sym (after-bind v' (c.late_visit n l t) (handle_all c es)))

  links-deeper :
      (fuel : ℕ) (n : Node) (l : Link) (ls : List Link) (v v' v'' : List Bool) (es fs : List Event)
      (t : S)
      → l.target < length v
      → marked v l.target ≡ false
      → ((u : S)
          → walk_helper c g dir fuel l.target (record { visited = v; collected = u })
            ≡ after v' (handle_all c es u))
      → ((u : S) → links_from fuel n ls v' u ≡ after v'' (handle_all c fs u))
      → links_from fuel n (l ∷ ls) v t ≡ after v'' (handle_all c (es ++ fs) t)
  unfolding walk_links
  links-deeper fuel n l ls v v' v'' es fs t h e run₁ run₂ =
      bind-ok (is_visited v l.target) _ false _ (is_visited-marked v l.target h ∙ ap ok e) (
        ap (λ r. r >>= λ s. walk_links c (walk_helper c g dir fuel) n ls s) (run₁ t)
        ∙ bind_assoc (handle_all c es t) (λ u. ok (record { visited = v'; collected = u })) _
        ∙ bind_cong (handle_all c es t) _ _ run₂
        ∙ sym (after-bind v'' (handle_all c es t) (handle_all c fs))
        ∙ ap (after v'') (sym (handle_all-append c es fs t)))

  Links-Runs :
      (fuel : ℕ)
      → WalksFrom fuel
      → (n : Node) (ls : List Link) (v : List Bool) → AllBelow (length g) ls
      → length v ≡ length g
      → unvisited v ≤ fuel
      → Runs (λ v es v'. Links g dir v n ls es v') v (links_from fuel n ls v)
  unfolding walk_links handle_all
  Links-Runs fuel walks n [] v below len low =
      ([], v, Links.finished v n, λ t. refl, refl, omega arith)
  Links-Runs fuel walks n (l ∷ ls) v (b, below) len low = elim (Bool-cases (marked v l.target)) [
    | inl e ↦
        let (es, v', links, run, len', low') = Links-Runs fuel walks n ls v below len low in
        (
          seen_again n l ∷ es,
          v',
          Links.again v n l ls es v' e links,
          λ t. links-again fuel n l ls v v' es t (omega arith) e run,
          len',
          low',
        )
    | inr e ↦
        let (es, v', walk, run, len', low') = walks v l.target len b e low in
        let (fs, v'', links, run', len'', low'') =
          Links-Runs fuel walks n ls v' below (len' ∙ len) (omega arith) in
        (
          es ++ fs,
          v'',
          Links.deeper v n l ls es fs (es ++ fs) v' v'' walk links refl,
          λ t. links-deeper fuel n l ls v v' v'' es fs t (omega arith) e run run',
          len'' ∙ len',
          omega arith,
        )
  ]

  walk-visit :
      (fuel id : ℕ) (n : Node) (v v' : List Bool) (es : List Event) (t : S)
      → id < length v
      → get_elem? g id ≡ some n
      → ((u : S)
          → links_from fuel n (get_links dir n) (set v id true) u ≡ after v' (handle_all c es u))
      → walk_helper c g dir (suc fuel) id (record { visited = v; collected = t })
        ≡ after v' (handle_all c (entered n ∷ (es ++ left n ∷ [])) t)
  unfolding walk_helper mark node_at handle_all handle
  walk-visit fuel id n v v' es t h at run =
      let inside : mark id v ≡ ok (set v id true) = ground arith in
      let found : node_at g id ≡ ok n = ground (arith, at) in
      bind-ok (mark id v) _ (set v id true) _ inside (
        bind-ok (node_at g id) _ n _ found (
          bind_cong (c.pre_visit n t) _ _ (λ u.
            ap (λ r. r >>= λ s. c.post_visit n s.collected >>= λ w. ok (record s { collected = w }))
              (run u)
            ∙ bind_assoc (handle_all c es u) (λ w. ok (record { visited = v'; collected = w })) _
            ∙ bind_cong (handle_all c es u) _ _
                (λ w. ap (after v') (sym (bind_unit (c.post_visit n w))))
            ∙ sym (after-bind v' (handle_all c es u) (handle_all c (left n ∷ [])))
            ∙ ap (after v') (sym (handle_all-append c es (left n ∷ []) u)))
          ∙ sym (after-bind v' (c.pre_visit n t) (handle_all c (es ++ left n ∷ [])))))

  -- From a node that is not visited, with as much fuel as there are such nodes.
  pub walk_helper-Walk : (fuel : ℕ) → WalksFrom fuel
  walk_helper-Walk zero v id len h e low =
      absurd (omega (arith, unvisited-set v id (omega arith) e))
  walk_helper-Walk (suc fuel) v id len h e low =
      let (n, at) = get_elem?-lt g id h in
      let (same, below) = graph id n at in
      let less = unvisited-set v id (omega arith) e in
      let (es, v', links, run, len', low') =
        Links-Runs fuel (walk_helper-Walk fuel) n (get_links dir n) (set v id true) below
          (length-set v id true ∙ len) (omega arith) in
      (
        entered n ∷ (es ++ left n ∷ []),
        v',
        Walk.visit v id n es _ v' (omega arith) e at links refl,
        λ t. walk-visit fuel id n v v' es t (omega arith) at run,
        len' ∙ length-set v id true,
        omega arith,
      )
