-- ===== src/Analysis/Components/Shadow.antt =====
-- What the pruned isReachable of src/analysis/walker.h passes over, along the events of a walk.
use egalito.Base.{
  to_ℕ, refl, ◌≤◌, ==_iff, ◌⊎◌, some, get_elem?, set, ltb, ltb→lt, ℕ, ◌+◌, ◌<◌, ◌≡◌, ◌∙◌, ap, Bool,
  true, false, List, [], ◌∷◌, ◌++◌, none, some, arith, append_assoc, Bool-cases, inl, inr, ◌==◌,
}
use egalito.Analysis.Graph.{Graph, Node, Link, forward}
use egalito.Analysis.Walker.Trace.{
  marked, Walk, Links, visit, finished, again, deeper, Event, entered, left, IsGraph,
}
use egalito.Analysis.Walker.Orders.{
  entered_ids, left_ids, Reach, here, Edge, LinksTo, Reach-first, count, count-append,
  entered_ids-append, entered_ids-visit, left_ids-visit, Walk-Marks, Walk-Reach,
}
use egalito.Analysis.Components.{find_unpruned}
use egalito.Analysis.Components.Visited.{visited_ids, visited_ids-append, count-visited_ids}

-- The pruning ends where its root is met again.
find_unpruned-skip :
    (prune : ℕ → ℕ → ℕ → Bool) (src dest root : ℕ) (ns rest : List ℕ)
    → count root ns ≡ 0
    → find_unpruned prune src dest (some root) (ns ++ root ∷ rest)
      ≡ find_unpruned prune src dest none rest
unfolding find_unpruned
find_unpruned-skip prune src dest root [] rest e = ground (arith, (==_iff root root).1 refl)
find_unpruned-skip prune src dest root (n ∷ ns) rest e =
    let other : (n == root) ≡ false = ground (arith, e) in
    let left-over = find_unpruned-skip prune src dest root ns rest (omega (arith, e)) in
    ground (arith, other, left-over)

to_ℕ-le : (b : Bool) → to_ℕ b ≤ 1
to_ℕ-le true = omega arith
to_ℕ-le false = omega arith

-- A pruned node is on the way from a node to the one that is looked for.
abbrev pub IsShadowed : (ℕ → ℕ → ℕ → Bool) → Graph → ℕ → ℕ → ℕ → Type 0
IsShadowed prune g src dest id =
    (n : ℕ) × (prune n src dest ≡ true) × Reach g forward id n × Reach g forward n dest

module _ (prune : ℕ → ℕ → ℕ → Bool) (g : Graph) (graph : IsGraph g forward) (src dest : ℕ) where
  -- The search through what a part of the walk visits, with what is visited then.
  abbrev pub Searched : ℕ → List Event → List ℕ → Type 0
  Searched id es rest =
      (find_unpruned prune src dest none (visited_ids es ++ rest) ≡ true)
      ⊎ ((find_unpruned prune src dest none (visited_ids es ++ rest)
            ≡ find_unpruned prune src dest none rest)
          × (0 < count dest (entered_ids es) → IsShadowed prune g src dest id))

  visit-shape :
      (id : ℕ) (n : Node) (es fs : List Event) (rest : List ℕ)
      → n.id ≡ id
      → es ≡ entered n ∷ (fs ++ left n ∷ [])
      → visited_ids es ++ rest ≡ id ∷ (visited_ids fs ++ id ∷ rest)
  visit-shape id n es fs rest at-id same =
      ap (λ es. visited_ids es ++ rest) same
      ∙ ap (λ k. n.id ∷ (k ++ rest)) (visited_ids-append fs (left n ∷ []))
      ∙ ap (◌∷◌ n.id) (append_assoc (visited_ids fs) (n.id ∷ []) rest)
      ∙ ap (λ k. k ∷ (visited_ids fs ++ k ∷ rest)) at-id

  -- The node itself is looked for.
  here-Searched :
      (id : ℕ) (es fs : List Event) (rest : List ℕ)
      → visited_ids es ++ rest ≡ id ∷ (visited_ids fs ++ id ∷ rest)
      → (id == dest) ≡ true
      → Searched id es rest
  unfolding find_unpruned
  here-Searched id es fs rest shape e =
      inl (ap (find_unpruned prune src dest none) shape ∙ ground (arith, e))

  -- The node is pruned, and with it what is reached from it.
  pruned-Searched :
      (id : ℕ) (es fs : List Event) (rest : List ℕ)
      → visited_ids es ++ rest ≡ id ∷ (visited_ids fs ++ id ∷ rest)
      → (id == dest) ≡ false
      → prune id src dest ≡ true
      → count id (visited_ids fs) ≡ 0
      → (0 < count dest (entered_ids es) → Reach g forward id dest)
      → Searched id es rest
  unfolding find_unpruned
  pruned-Searched id es fs rest shape e p once reach =
      let skip = find_unpruned-skip prune src dest id (visited_ids fs) rest once in
      inr (
        ap (find_unpruned prune src dest none) shape ∙ ground (arith, e, p, skip),
        λ c. (id, p, here, reach c),
      )

  -- The node is passed.
  passed-Searched :
      (id : ℕ) (es fs : List Event) (rest : List ℕ)
      → visited_ids es ++ rest ≡ id ∷ (visited_ids fs ++ id ∷ rest)
      → (id == dest) ≡ false
      → prune id src dest ≡ false
      → entered_ids es ≡ id ∷ entered_ids fs
      → Searched id fs (id ∷ rest)
      → Searched id es rest
  unfolding find_unpruned
  passed-Searched id es fs rest shape e p ids (inl found) =
      inl (ap (find_unpruned prune src dest none) shape ∙ ground (arith, e, p, found))
  passed-Searched id es fs rest shape e p ids (inr (same, shadow)) = inr (
    ap (find_unpruned prune src dest none) shape ∙ ground (arith, e, p, same),
    λ c.
        let inside : count dest (entered_ids es) ≡ count dest (entered_ids fs) =
          ap (count dest) ids ∙ ground (arith, e) in
        shadow (omega (arith, c, inside)),
  )

  -- Two parts of a walk, the first from a node that the second's has an edge to.
  both-Searched :
      (id y : ℕ) (es fs gs : List Event) (rest : List ℕ)
      → gs ≡ es ++ fs
      → Edge g forward id y
      → Searched y es (visited_ids fs ++ rest)
      → Searched id fs rest
      → Searched id gs rest
  both-Searched id y es fs gs rest same edge first second =
      join
        (ap (λ gs. find_unpruned prune src dest none (visited_ids gs ++ rest)) same
          ∙ ap (λ k. find_unpruned prune src dest none (k ++ rest)) (visited_ids-append es fs)
          ∙ ap (find_unpruned prune src dest none)
              (append_assoc (visited_ids es) (visited_ids fs) rest))
        (ap (λ gs. count dest (entered_ids gs)) same
          ∙ ap (count dest) (entered_ids-append es fs)
          ∙ count-append dest (entered_ids es) (entered_ids fs))
        first second
    where
      lift : IsShadowed prune g src dest y → IsShadowed prune g src dest id
      lift (n, p, r, q) = (n, p, Reach-first g forward id y n edge r, q)

      join :
          find_unpruned prune src dest none (visited_ids gs ++ rest)
            ≡ find_unpruned prune src dest none (visited_ids es ++ (visited_ids fs ++ rest))
          → count dest (entered_ids gs) ≡ count dest (entered_ids es) + count dest (entered_ids fs)
          → Searched y es (visited_ids fs ++ rest)
          → Searched id fs rest
          → Searched id gs rest
      join split counts (inl found) second = inl (split ∙ found)
      join split counts (inr (through, shadow)) (inl found) = inl (split ∙ through ∙ found)
      join split counts (inr (through, shadow)) (inr (through', shadow')) = inr (
        split ∙ through ∙ through',
        λ c. elim (Bool-cases (ltb 0 (count dest (entered_ids es)))) [
          | inl e ↦ lift (shadow (ltb→lt 0 (count dest (entered_ids es)) e))
          | inr e ↦ shadow' (ground (arith, c, counts, e))
        ],
      )

  -- The root of a walk is entered and left once.
  visited-once :
      (v v' : List Bool) (id : ℕ) (n : Node) (es fs : List Event)
      → n.id ≡ id
      → es ≡ entered n ∷ (fs ++ left n ∷ [])
      → Walk g forward v id es v'
      → count id (visited_ids fs) ≡ 0
  visited-once v v' id n es fs at-id same w =
      let (a, b) = Walk-Marks g forward graph v v' id es id w in
      let ids = ap entered_ids same ∙ entered_ids-visit n fs ∙ ap (λ k. k ∷ entered_ids fs) at-id in
      let lefts = ap left_ids same ∙ left_ids-visit n fs ∙ ap (λ k. left_ids fs ++ k ∷ []) at-id in
      let most = to_ℕ-le (marked v' id) in
      let self : (id == id) ≡ true = (==_iff id id).1 refl in
      let entering : 1 + count id (entered_ids fs) ≡ count id (entered_ids es) =
        ground (arith, ap (count id) ids, self) in
      let leaving : count id (left_ids fs) + 1 ≡ count id (left_ids es) =
        ground (arith, ap (count id) lefts, count-append id (left_ids fs) (id ∷ []), self) in
      omega (arith, a, b, entering, leaving, most, count-visited_ids id fs)

  visited-Reach :
      (v v' : List Bool) (id : ℕ) (es : List Event)
      → Walk g forward v id es v'
      → 0 < count dest (entered_ids es)
      → Reach g forward id dest
  visited-Reach v v' id es w c =
      let (a, b) = Walk-Marks g forward graph v v' id es dest w in
      let most = to_ℕ-le (marked v' dest) in
      let new : marked v' dest ≡ true = ground (arith, a, c, most) in
      elim (Walk-Reach g forward graph v v' id es dest w new) [
        | inl old ↦ absurd (ground (arith, a, c, most, old))
        | inr r ↦ r
      ]

  mutual
    pub Walk-Searched :
        (v v' : List Bool) (id : ℕ) (es : List Event) (rest : List ℕ)
        → Walk g forward v id es v'
        → Searched id es rest
    Walk-Searched v v' id es rest (visit _ _ n fs _ _ h e at links same) =
        let at-id = (graph id n at).0 in
        let shape = visit-shape id n es fs rest at-id same in
        let ids =
          ap entered_ids same ∙ entered_ids-visit n fs ∙ ap (λ k. k ∷ entered_ids fs) at-id in
        elim (Bool-cases (id == dest)) [
          | inl q ↦ here-Searched id es fs rest shape q
          | inr q ↦ elim (Bool-cases (prune id src dest)) [
            | inl p ↦
                pruned-Searched id es fs rest shape q p
                  (visited-once v v' id n es fs at-id same
                    (visit v id n fs es v' h e at links same))
                  (λ c. visited-Reach v v' id es (visit v id n fs es v' h e at links same) c)
            | inr p ↦ passed-Searched id es fs rest shape q p ids (
                Links-Searched (set v id true) v' n n.links fs (id ∷ rest) id links at (λ y to. to))
          ]
        ]

    Links-Searched :
        (v v' : List Bool) (n : Node) (ls : List Link) (es : List Event) (rest : List ℕ) (id : ℕ)
        → Links g forward v n ls es v'
        → get_elem? g id ≡ some n
        → ((y : ℕ) → LinksTo ls y → LinksTo n.links y)
        → Searched id es rest
    Links-Searched v v' n ls es rest id (finished _ _) at sub =
        inr (refl, λ c. absurd (omega (arith, c)))
    Links-Searched v v' n ls es rest id (again _ _ l ls' fs _ e links) at sub =
        Links-Searched v v' n ls' fs rest id links at (λ y to. sub y (inr to))
    Links-Searched v v' n ls es rest id (deeper _ _ l ls' fs gs _ u _ w links same) at sub =
        let edge : Edge g forward id l.target = record {
          node = n;
          at = at;
          to = sub l.target (inl refl);
        } in
        both-Searched id l.target fs gs es rest same edge
          (Walk-Searched v u l.target fs (visited_ids gs ++ rest) w)
          (Links-Searched u v' n ls' gs rest id links at (λ y to. sub y (inr to)))
