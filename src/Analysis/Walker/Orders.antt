-- ===== src/Analysis/Walker/Orders.antt =====
-- What the events of a walk say: which nodes it visits, and in which order it leaves them.
use egalito.Base.{
  ℕ, ◌+◌, ◌<◌, ◌≡◌, refl, ◌∙◌, sym, ap, subst, Bool, true, false, List, [], ◌∷◌, ◌++◌, some, arith,
  get_elem?, set, length, ◌⊎◌, if◌then◌else◌, Bool-cases, inl, inr, to_ℕ, ◌==◌, ==_iff, append-nil,
}
use egalito.Analysis.Graph.{Graph, Node, Link, Direction, get_links}
use egalito.Analysis.Walker.Trace.{
  Event, entered, left, seen_again, marked, marked-set, Walk, Links, visit, finished, again, deeper,
  IsGraph,
}

abbrev pub entered_ids : List Event → List ℕ
entered_ids [] = []
entered_ids (entered n ∷ es) = n.id ∷ entered_ids es
entered_ids (left n ∷ es) = entered_ids es
entered_ids (seen_again n l ∷ es) = entered_ids es

abbrev pub left_ids : List Event → List ℕ
left_ids [] = []
left_ids (entered n ∷ es) = left_ids es
left_ids (left n ∷ es) = n.id ∷ left_ids es
left_ids (seen_again n l ∷ es) = left_ids es

-- How often a number is listed.
abbrev pub count : ℕ → List ℕ → ℕ
count x [] = 0
count x (y ∷ ys) = (if y == x then 1 else 0) + count x ys

pub count-append : (x : ℕ) (ys zs : List ℕ) → count x (ys ++ zs) ≡ count x ys + count x zs
count-append x [] zs = omega arith
count-append x (y ∷ ys) zs = omega (arith, count-append x ys zs)

pub entered_ids-append :
    (es fs : List Event) → entered_ids (es ++ fs) ≡ entered_ids es ++ entered_ids fs
entered_ids-append [] fs = refl
entered_ids-append (entered n ∷ es) fs = ap (◌∷◌ n.id) (entered_ids-append es fs)
entered_ids-append (left n ∷ es) fs = entered_ids-append es fs
entered_ids-append (seen_again n l ∷ es) fs = entered_ids-append es fs

pub left_ids-append : (es fs : List Event) → left_ids (es ++ fs) ≡ left_ids es ++ left_ids fs
left_ids-append [] fs = refl
left_ids-append (entered n ∷ es) fs = left_ids-append es fs
left_ids-append (left n ∷ es) fs = ap (◌∷◌ n.id) (left_ids-append es fs)
left_ids-append (seen_again n l ∷ es) fs = left_ids-append es fs

-- A link of a node leads to another.
abbrev pub LinksTo : List Link → ℕ → Type 0
LinksTo [] y = ⊥
LinksTo (l ∷ ls) y = (l.target ≡ y) ⊎ LinksTo ls y

pub record Edge (g : Graph) (dir : Direction) (x y : ℕ) : Type 0 where
  pub node : Node
  pub at : get_elem? g x ≡ some node
  pub to : LinksTo (get_links dir node) y

pub data Reach (g : Graph) (dir : Direction) (x : ℕ) : ℕ → Type 0 where
  here : Reach g dir x x
  step : (y z : ℕ) → Reach g dir x y → Edge g dir y z → Reach g dir x z

pub Reach-first :
    (g : Graph) (dir : Direction) (x y z : ℕ) → Edge g dir x y → Reach g dir y z → Reach g dir x z
Reach-first g dir x y z e Reach.here = Reach.step x y Reach.here e
Reach-first g dir x y z e (Reach.step w z' r f) = Reach.step w z (Reach-first g dir x y w e r) f

mark-one :
    (v : List Bool) (id x : ℕ)
    → id < length v
    → marked v id ≡ false
    → to_ℕ (marked (set v id true) x) ≡ to_ℕ (marked v x) + (if id == x then 1 else 0)
mark-one v id x h e = elim (Bool-cases (id == x)) [
  | inl same ↦
      let e' : marked v x ≡ false = ap (marked v) (sym ((==_iff id x).0 same)) ∙ e in
      ground (arith, marked-set v id x h, same, e')
  | inr other ↦ ground (arith, marked-set v id x h, other)
]

pub entered_ids-visit :
    (n : Node) (es : List Event)
    → entered_ids (entered n ∷ (es ++ left n ∷ [])) ≡ n.id ∷ entered_ids es
entered_ids-visit n es =
    ap (◌∷◌ n.id) (entered_ids-append es (left n ∷ []) ∙ append-nil (entered_ids es))

pub left_ids-visit :
    (n : Node) (es : List Event)
    → left_ids (entered n ∷ (es ++ left n ∷ [])) ≡ left_ids es ++ n.id ∷ []
left_ids-visit n es = left_ids-append es (left n ∷ [])

-- The nodes that are marked are those that were before, and those that are listed, once.
abbrev Marks : (ℕ → List Event → ℕ) → List Bool → List Bool → List Event → ℕ → Type 0
Marks f v v' es x = to_ℕ (marked v' x) ≡ to_ℕ (marked v x) + f x es

abbrev MarksBoth : List Bool → List Bool → List Event → ℕ → Type 0
MarksBoth v v' es x =
    Marks (λ x es. count x (entered_ids es)) v v' es x
    × Marks (λ x es. count x (left_ids es)) v v' es x

module _ (g : Graph) (dir : Direction) (graph : IsGraph g dir) where
  mutual
    pub Walk-Marks :
        (v v' : List Bool) (id : ℕ) (es : List Event) (x : ℕ)
        → Walk g dir v id es v'
        → MarksBoth v v' es x
    Walk-Marks v v' id es x (visit _ _ n fs _ _ h e at links same) =
        let (a, b) = Links-Marks (set v id true) v' n (get_links dir n) fs x links in
        let one = mark-one v id x h e in
        let at-id = (graph id n at).0 in
        let ids =
          ap entered_ids same ∙ entered_ids-visit n fs ∙ ap (λ k. k ∷ entered_ids fs) at-id in
        let lefts =
          ap left_ids same ∙ left_ids-visit n fs ∙ ap (λ k. left_ids fs ++ k ∷ []) at-id in
        (
          omega (arith, a, one, ap (count x) ids),
          omega (arith, b, one, ap (count x) lefts, count-append x (left_ids fs) (id ∷ [])),
        )

    pub Links-Marks :
        (v v' : List Bool) (n : Node) (ls : List Link) (es : List Event) (x : ℕ)
        → Links g dir v n ls es v'
        → MarksBoth v v' es x
    Links-Marks v v' n ls es x (finished _ _) = (omega arith, omega arith)
    Links-Marks v v' n ls es x (again _ _ l ls' fs _ e links) = Links-Marks v v' n ls' fs x links
    Links-Marks v v' n ls es x (deeper _ _ l ls' fs gs _ u _ walk links same) =
        let (a, b) = Walk-Marks v u l.target fs x walk in
        let (c, d) = Links-Marks u v' n ls' gs x links in
        (
          omega (
            arith,
            a,
            c,
            ap (λ k. count x (entered_ids k)) same,
            ap (count x) (entered_ids-append fs gs),
            count-append x (entered_ids fs) (entered_ids gs),
          ),
          omega (
            arith,
            b,
            d,
            ap (λ k. count x (left_ids k)) same,
            ap (count x) (left_ids-append fs gs),
            count-append x (left_ids fs) (left_ids gs),
          ),
        )

  -- What is marked stays so.
  pub Links-keeps :
      (v v' : List Bool) (n : Node) (ls : List Link) (es : List Event) (x : ℕ)
      → Links g dir v n ls es v'
      → marked v x ≡ true
      → marked v' x ≡ true
  Links-keeps v v' n ls es x links e = ground (arith, (Links-Marks v v' n ls es x links).0, e)

  pub Walk-keeps :
      (v v' : List Bool) (id : ℕ) (es : List Event) (x : ℕ)
      → Walk g dir v id es v'
      → marked v x ≡ true
      → marked v' x ≡ true
  Walk-keeps v v' id es x walk e = ground (arith, (Walk-Marks v v' id es x walk).0, e)

  pub Walk-starts :
      (v v' : List Bool) (id : ℕ) (es : List Event) → Walk g dir v id es v' → marked v' id ≡ true
  Walk-starts v v' id es (visit _ _ n fs _ _ h e at links same) =
      Links-keeps (set v id true) v' n (get_links dir n) fs id links
        (ground (arith, marked-set v id id h))

  -- The marked nodes are reachable.
  mutual
    pub Walk-Reach :
        (v v' : List Bool) (id : ℕ) (es : List Event) (x : ℕ)
        → Walk g dir v id es v'
        → marked v' x ≡ true
        → (marked v x ≡ true) ⊎ Reach g dir id x
    Walk-Reach v v' id es x (visit _ _ n fs _ _ h e at links same) m =
        elim (Links-Reach (set v id true) v' n (get_links dir n) fs x id links at (λ y to. to) m) [
          | inl old ↦ elim (Bool-cases (id == x)) [
            | inl start ↦ inr (subst (Reach g dir id) ((==_iff id x).0 start) Reach.here)
            | inr other ↦ inl (ground (arith, marked-set v id x h, old, other))
          ]
          | inr r ↦ inr r
        ]

    pub Links-Reach :
        (v v' : List Bool) (n : Node) (ls : List Link) (es : List Event) (x id : ℕ)
        → Links g dir v n ls es v'
        → get_elem? g id ≡ some n
        → ((y : ℕ) → LinksTo ls y → LinksTo (get_links dir n) y)
        → marked v' x ≡ true
        → (marked v x ≡ true) ⊎ Reach g dir id x
    Links-Reach v v' n ls es x id (finished _ _) at sub m = inl m
    Links-Reach v v' n ls es x id (again _ _ l ls' fs _ e links) at sub m =
        Links-Reach v v' n ls' fs x id links at (λ y to. sub y (inr to)) m
    Links-Reach v v' n ls es x id (deeper _ _ l ls' fs gs _ u _ walk links same) at sub m =
        elim (Links-Reach u v' n ls' gs x id links at (λ y to. sub y (inr to)) m) [
          | inl m' ↦ elim (Walk-Reach v u l.target fs x walk m') [
            | inl old ↦ inl old
            | inr r ↦
                let edge : Edge g dir id l.target = record {
                  node = n;
                  at = at;
                  to = sub l.target (inl refl);
                } in
                inr (Reach-first g dir id l.target x edge r)
          ]
          | inr r ↦ inr r
        ]
