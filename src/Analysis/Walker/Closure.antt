-- ===== src/Analysis/Walker/Closure.antt =====
-- Which links a walk has followed, and the order in which it leaves the nodes.
use egalito.Base.{
  ℕ, ◌<◌, ◌≡◌, refl, ◌∙◌, sym, ap, subst, Bool, true, List, [], ◌∷◌, ◌++◌, some, arith, get_elem?,
  set, ◌⊎◌, Bool-cases, inl, inr, ◌==◌, ==_iff,
}
use egalito.Analysis.Graph.{Graph, Node, Link, Direction, get_links}
use egalito.Analysis.Walker.Trace.{
  Event, marked, marked-set, Walk, Links, visit, finished, again, deeper, IsGraph,
}
use egalito.Analysis.Walker.Orders.{
  left_ids, left_ids-append, left_ids-visit, LinksTo, Edge, Links-keeps, Walk-starts, count,
  count-append,
}

-- Each of some nodes has an edge from one behind it: from a later one of them, or from the last.
abbrev pub Backed : Graph → Direction → List ℕ → ℕ → Type 0
Backed g dir [] last = Unit
Backed g dir (x ∷ xs) last =
    ((y : ℕ) × Edge g dir y x × (0 < count y (xs ++ last ∷ []))) × Backed g dir xs last

pub Backed-append :
    (g : Graph) (dir : Direction) (xs : List ℕ) (z : ℕ) (ys : List ℕ) (last : ℕ)
    → Backed g dir xs z
    → Edge g dir last z
    → Backed g dir ys last
    → Backed g dir ((xs ++ z ∷ []) ++ ys) last
Backed-append g dir [] z ys last b e c =
    ((last, e, ground (arith, count-append last ys (last ∷ []))), c)
Backed-append g dir (x ∷ xs) z ys last ((y, e', pos), b) e c = (
  (
    y,
    e',
    omega (
      arith,
      pos,
      count-append y xs (z ∷ []),
      count-append y ((xs ++ z ∷ []) ++ ys) (last ∷ []),
      count-append y (xs ++ z ∷ []) ys,
    ),
  ),
  Backed-append g dir xs z ys last b e c,
)

module _ (g : Graph) (dir : Direction) (graph : IsGraph g dir) where
  -- Where the links of newly marked nodes lead is marked.
  mutual
    pub Walk-closed :
        (v v' : List Bool) (id : ℕ) (es : List Event) (x y : ℕ)
        → Walk g dir v id es v'
        → marked v' x ≡ true
        → Edge g dir x y
        → (marked v x ≡ true) ⊎ (marked v' y ≡ true)
    Walk-closed v v' id es x y (visit _ _ n fs _ _ h e at links same) m edge =
        elim (Bool-cases (id == x)) [
          | inl top ↦
              let at' : get_elem? g id ≡ some edge.node =
                subst (λ k. get_elem? g k ≡ some edge.node) (sym ((==_iff id x).0 top)) edge.at in
              let same-node : edge.node ≡ n = ground (arith, at, at') in
              inr (
                Links-followed (set v id true) v' n (get_links dir n) fs y links
                  (subst (λ k. LinksTo (get_links dir k) y) same-node edge.to))
          | inr other ↦
              elim (Links-closed (set v id true) v' n (get_links dir n) fs x y links m edge) [
                | inl old ↦ inl (ground (arith, marked-set v id x h, old, other))
                | inr done ↦ inr done
              ]
        ]

    pub Links-closed :
        (v v' : List Bool) (n : Node) (ls : List Link) (es : List Event) (x y : ℕ)
        → Links g dir v n ls es v'
        → marked v' x ≡ true
        → Edge g dir x y
        → (marked v x ≡ true) ⊎ (marked v' y ≡ true)
    Links-closed v v' n ls es x y (finished _ _) m edge = inl m
    Links-closed v v' n ls es x y (again _ _ l ls' fs _ e links) m edge =
        Links-closed v v' n ls' fs x y links m edge
    Links-closed v v' n ls es x y (deeper _ _ l ls' fs gs _ u _ walk links same) m edge =
        elim (Links-closed u v' n ls' gs x y links m edge) [
          | inl m' ↦ elim (Walk-closed v u l.target fs x y walk m' edge) [
            | inl old ↦ inl old
            | inr done ↦ inr (Links-keeps g dir graph u v' n ls' gs y links done)
          ]
          | inr done ↦ inr done
        ]

    pub Links-followed :
        (v v' : List Bool) (n : Node) (ls : List Link) (es : List Event) (y : ℕ)
        → Links g dir v n ls es v'
        → LinksTo ls y
        → marked v' y ≡ true
    Links-followed v v' n ls es y (finished _ _) to = elim to [ ]
    Links-followed v v' n ls es y (again _ _ l ls' fs _ e links) (inl t) =
        Links-keeps g dir graph v v' n ls' fs y links (subst (λ k. marked v k ≡ true) t e)
    Links-followed v v' n ls es y (again _ _ l ls' fs _ e links) (inr to) =
        Links-followed v v' n ls' fs y links to
    Links-followed v v' n ls es y (deeper _ _ l ls' fs gs _ u _ walk links same) (inl t) =
        Links-keeps g dir graph u v' n ls' gs y links
          (subst (λ k. marked u k ≡ true) t (Walk-starts g dir graph v u l.target fs walk))
    Links-followed v v' n ls es y (deeper _ _ l ls' fs gs _ u _ walk links same) (inr to) =
        Links-followed u v' n ls' gs y links to

  -- A walk leaves its start last, and the nodes before it are backed.
  mutual
    pub Walk-Backed :
        (v v' : List Bool) (id : ℕ) (es : List Event)
        → Walk g dir v id es v'
        → (xs : List ℕ) × (left_ids es ≡ xs ++ id ∷ []) × Backed g dir xs id
    Walk-Backed v v' id es (visit _ _ n fs _ _ h e at links same) = (
      left_ids fs,
      ap left_ids same ∙ left_ids-visit n fs ∙ ap (λ k. left_ids fs ++ k ∷ []) (graph id n at).0,
      Links-Backed (set v id true) v' n (get_links dir n) fs id links at (λ y to. to),
    )

    pub Links-Backed :
        (v v' : List Bool) (n : Node) (ls : List Link) (es : List Event) (id : ℕ)
        → Links g dir v n ls es v'
        → get_elem? g id ≡ some n
        → ((y : ℕ) → LinksTo ls y → LinksTo (get_links dir n) y)
        → Backed g dir (left_ids es) id
    Links-Backed v v' n ls es id (finished _ _) at sub = tt
    Links-Backed v v' n ls es id (again _ _ l ls' fs _ e links) at sub =
        Links-Backed v v' n ls' fs id links at (λ y to. sub y (inr to))
    Links-Backed v v' n ls es id (deeper _ _ l ls' fs gs _ u _ walk links same) at sub =
        let (xs, split, b) = Walk-Backed v u l.target fs walk in
        let c = Links-Backed u v' n ls' gs id links at (λ y to. sub y (inr to)) in
        let edge : Edge g dir id l.target = record {
          node = n;
          at = at;
          to = sub l.target (inl refl);
        } in
        subst (λ zs. Backed g dir zs id)
          (sym (ap left_ids same ∙ left_ids-append fs gs ∙ ap (λ k. k ++ left_ids gs) split))
          (Backed-append g dir xs l.target (left_ids gs) id b edge c)
