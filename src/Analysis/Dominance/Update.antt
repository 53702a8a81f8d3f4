-- ===== src/Analysis/Dominance/Update.antt =====
-- The body of the loop over the order: the immediate dominator from the known predecessors.
use egalito.Base.{
  ℕ, ◌<◌, ◌≡◌, refl, ◌∙◌, sym, ap, subst, Bool, true, false, Option, none, some, arith, get_elem?,
  set, length, length-set, ◌==◌, ==_iff, Bool-cases, inl, inr, ◌⊎◌, get_elem?-set, get_elem?-lt,
}
use egalito.Base.Result.{Returns}
use egalito.Analysis.Graph.{Graph, node_at, backward, get_links}
use egalito.Analysis.Walker.Trace.{IsGraph, AllBelow}
use egalito.Analysis.Walker.Orders.{Edge, LinksTo}
use egalito.Analysis.Dominance.{Dominance, read, write, same_id, update}
use egalito.Analysis.Dominance.Meet.{Parent, IsKnown, rank, IsRanked, IsOrdered, Above, Above-rank}
use egalito.Analysis.Dominance.Merge.{merge-IsMerged}

-- A state that a change has led to.
pub record IsUpdated (d d' : Dominance) : Type 0 where
  pub ordered : IsOrdered d'
  pub size : length d'.idoms ≡ length d.idoms
  pub map : d'.id_map ≡ d.id_map
  pub keeps : (x : ℕ) → IsKnown d x → IsKnown d' x

-- The immediate dominator of a node is above all its known predecessors.
abbrev pub IsSettled : Graph → Dominance → ℕ → Type 0
IsSettled g d x = (p : ℕ) → Edge g backward x p → IsKnown d p → (z : ℕ) × Parent d x z × Above d z p

abbrev with_idom : Dominance → ℕ → ℕ → Dominance
with_idom d id z = record d { idoms = set d.idoms id (some z) }

module _ (d : Dominance) (ordered : IsOrdered d) (id z : ℕ) (inside : id < length d.idoms)
    (ranked : IsRanked d id) (low : rank d id < length d.idoms)
    (fits : (IsKnown d z × (rank d z < rank d id)) ⊎ ((rank d id ≡ 0) × (z ≡ id))) where
  IsKnown-new : IsKnown (with_idom d id z) id
  IsKnown-new =
      (z, get_elem?-set d.idoms id id (some z) inside ∙ ground (arith, (==_iff id id).1 refl))

  Parent-cases : (x y : ℕ) → Parent (with_idom d id z) x y → ((id ≡ x) × (z ≡ y)) ⊎ Parent d x y
  Parent-cases x y p =
      let at = get_elem?-set d.idoms id x (some z) inside in
      elim (Bool-cases (id == x)) [
        | inl e ↦ inl ((==_iff id x).0 e, ground (arith, at, p, e))
        | inr e ↦ inr (ground (arith, at, p, e))
      ]

  IsKnown-kept : (x : ℕ) → IsKnown d x → IsKnown (with_idom d id z) x
  IsKnown-kept x (y, p) =
      let at = get_elem?-set d.idoms id x (some z) inside in
      elim (Bool-cases (id == x)) [
        | inl e ↦ (z, ground (arith, at, e))
        | inr e ↦ (y, ground (arith, at, p, e))
      ]

  new-rising :
      IsKnown (with_idom d id z) z × ((rank d z < rank d id) ⊎ ((rank d id ≡ 0) × (z ≡ id)))
  new-rising = elim fits [
    | inl (k, l) ↦ (IsKnown-kept z k, inl l)
    | inr (e, f) ↦ (subst (IsKnown (with_idom d id z)) (sym f) IsKnown-new, inr (e, f))
  ]

  pub with_idom-IsUpdated : IsUpdated d (with_idom d id z)
  with_idom-IsUpdated = record {
    ordered = record {
      ranked = λ x (y, p). elim (Parent-cases x y p) [
        | inl (e, _) ↦
            subst (λ x. IsRanked d x × (rank d x < length (set d.idoms id (some z)))) e
              (ranked, omega (arith, low, length-set d.idoms id (some z)))
        | inr q ↦
            let (r, b) = ordered.ranked x (y, q) in
            (r, omega (arith, b, length-set d.idoms id (some z)))
      ];
      rising = λ x y p. elim (Parent-cases x y p) [
        | inl (e, f) ↦
            subst
              (λ x.
                IsKnown (with_idom d id z) y × ((rank d y < rank d x) ⊎ ((rank d x ≡ 0) × (y ≡ x))))
              e
              (subst
                (λ y.
                  IsKnown (with_idom d id z) y
                  × ((rank d y < rank d id) ⊎ ((rank d id ≡ 0) × (y ≡ id))))
                f new-rising)
        | inr q ↦ let (ky, r) = ordered.rising x y q in (IsKnown-kept y ky, r)
      ];
      distinct = ordered.distinct;
    };
    size = length-set d.idoms id (some z);
    map = refl;
    keeps = IsKnown-kept;
  }

same_id-eq : (a b : Option ℕ) → same_id a b ≡ true → a ≡ b
unfolding same_id
same_id-eq none none e = refl
same_id-eq none (some b) e = absurd (ground (arith, e))
same_id-eq (some a) none e = absurd (ground (arith, e))
same_id-eq (some a) (some b) e = ap some ((==_iff a b).0 e)

same_id_refl : (a : Option ℕ) → same_id a a ≡ true
unfolding same_id
same_id_refl none = refl
same_id_refl (some a) = (==_iff a a).1 refl

-- Only the entry of one node differs.
abbrev pub KeepsOthers : ℕ → Dominance → Dominance → Type 0
KeepsOthers id d d' = (y : ℕ) → (id == y) ≡ false → get_elem? d'.idoms y ≡ get_elem? d.idoms y

-- The first node is its own immediate dominator.
pub update-root :
    (g : Graph) (d : Dominance)
    → IsOrdered d
    → 0 < length d.idoms
    → IsRanked d 0
    → rank d 0 ≡ 0
    → Returns
        (update g 0 d)
        (λ (d', c). IsUpdated d d' × Parent d' 0 0 × (c ≡ false) × KeepsOthers 0 d d')
unfolding update write
update-root g d ordered inside ranked zero-rank =
    let (v, at) = get_elem?-lt d.idoms 0 inside in
    (
      (with_idom d 0 0, false),
      ground (arith, at),
      (
        with_idom-IsUpdated d ordered 0 0 inside ranked (omega (arith, zero-rank, inside))
            (inr (zero-rank, refl)),
        get_elem?-set d.idoms 0 0 (some 0) inside,
        refl,
        λ y e. get_elem?-set d.idoms 0 y (some 0) inside ∙ ground (arith, e),
      ),
    )

-- What the body of the loop does for another node.
abbrev pub Improves : Graph → Dominance → ℕ → Dominance × Bool → Type 0
Improves g d id (d', c) =
    IsUpdated d d'
    × IsKnown d' id
    × (c ≡ false → (d' ≡ d) × IsSettled g d id)
    × (c ≡ true → ¬ (get_elem? d'.idoms id ≡ get_elem? d.idoms id))
    × KeepsOthers id d d'

pub update-Improves :
    (g : Graph) (d : Dominance) (id y : ℕ)
    → IsOrdered d
    → IsGraph g backward
    → length d.idoms ≡ length g
    → id < length g
    → IsRanked d id
    → rank d id < length g
    → (id == 0) ≡ false
    → Edge g backward id y
    → IsKnown d y
    → rank d y < rank d id
    → Returns (update g id d) (Improves g d id)
unfolding update write read node_at
update-Improves g d id y ordered graph size inside ranked low other edge ky earlier =
    let (n, at) = get_elem?-lt g id inside in
    let (old, at-old) = get_elem?-lt d.idoms id (omega (arith, inside, size)) in
    let below = subst (λ k. AllBelow k n.reverse_links) (sym size) (graph id n at).1 in
    let links : (p : ℕ) → Edge g backward id p → LinksTo n.reverse_links p = λ p e.
      let same : e.node ≡ n = ground (arith, at, e.at) in
      subst (λ m. LinksTo (get_links backward m) p) same e.to in
    let (r, run, m) =
      merge-IsMerged d ordered none n.reverse_links (λ j e. absurd (ground (arith, e))) below in
    let (z, r-is, above) = m.covers y (links y edge) ky in
    let settled : (o : Option ℕ) → o ≡ r → get_elem? d.idoms id ≡ some o → IsSettled g d id =
      λ o e at p f kp.
        let (z', r-is', above') = m.covers p (links p f) kp in
        (z', ground (arith, at, e, r-is'), above') in
    elim (Bool-cases (same_id old r)) [
      | inl e ↦ (
        (d, false),
        ground (arith, other, at, run, at-old, e),
        (
          record { ordered = ordered; size = refl; map = refl; keeps = λ x k. k },
          (z, ground (arith, at-old, same_id-eq old r e, r-is)),
          λ c. (refl, settled old (same_id-eq old r e) at-old),
          λ c. absurd (ground (arith, c)),
          λ y _. refl,
        ),
      )
      | inr e ↦
          let inside' : id < length d.idoms = omega (arith, inside, size) in
          let fits : IsKnown d z × (rank d z < rank d id) =
            (m.known z r-is, omega (arith, earlier, Above-rank d ordered z y above)) in
          (
            (with_idom d id z, true),
            ground (arith, other, at, run, at-old, e, r-is),
            (
              with_idom-IsUpdated d ordered id z inside' ranked (omega (arith, low, size))
                  (inl fits),
              IsKnown-new d ordered id z inside' ranked (omega (arith, low, size)) (inl fits),
              λ c. absurd (ground (arith, c)),
              λ c same.
                  let new = get_elem?-set d.idoms id id (some z) inside' in
                  let self = (==_iff id id).1 refl in
                  let kept : old ≡ r = ground (arith, new, self, same, at-old, r-is) in
                  absurd (ground (arith, e, ap (same_id old) kept, same_id_refl old)),
              λ y other-id. get_elem?-set d.idoms id y (some z) inside' ∙ ground (arith, other-id),
            ),
          )
    ]
