-- ===== src/Analysis/Dominance/Merge.antt =====
-- The loop over the predecessors of a node.
use egalito.Base.{
  ℕ, ◌≡◌, refl, sym, subst, List, [], ◌∷◌, Option, none, some, arith, length, Option-cases, inl,
  inr, ◌⊎◌, get_elem?-lt,
}
use egalito.Base.Result.{ok, Returns, bind-ok}
use egalito.Analysis.Graph.{Link}
use egalito.Analysis.Walker.Trace.{AllBelow}
use egalito.Analysis.Walker.Orders.{LinksTo}
use egalito.Analysis.Dominance.{Dominance, read, merge, intersect}
use egalito.Analysis.Dominance.Meet.{
  IsKnown, IsOrdered, Above, stay, Above-IsKnown, Above-trans, intersect-IsMeet,
}

-- What the predecessors merge into: a known node above each known predecessor.
pub record IsMerged (d : Dominance) (idom : Option ℕ) (ls : List Link) (r : Option ℕ) : Type 0 where
  pub known : (z : ℕ) → r ≡ some z → IsKnown d z
  pub kept : (j : ℕ) → idom ≡ some j → (z : ℕ) × (r ≡ some z) × Above d z j
  pub covers : (p : ℕ) → LinksTo ls p → IsKnown d p → (z : ℕ) × (r ≡ some z) × Above d z p

module _ (d : Dominance) (ordered : IsOrdered d) where
  -- One known predecessor.
  join-IsKnown :
      (t : ℕ) (idom : Option ℕ)
      → IsKnown d t
      → ((j : ℕ) → idom ≡ some j → IsKnown d j)
      → Returns
          (elim idom [ none ↦ ok t | some j ↦ intersect d t j ])
          (λ z. IsKnown d z × Above d z t × ((j : ℕ) → idom ≡ some j → Above d z j))
  join-IsKnown t none kt k = (t, refl, (kt, stay, λ j e. absurd (ground (arith, e))))
  join-IsKnown t (some j) kt k =
      let (z, run, m) = intersect-IsMeet d ordered t j kt (k j refl) in
      (
        z,
        run,
        (
          Above-IsKnown d ordered z t m.above_left kt,
          m.above_left,
          λ j' e. subst (λ x. Above d z x) (ground (arith, e)) m.above_right,
        ),
      )

  skip-IsMerged :
      (idom r : Option ℕ) (l : Link) (ls : List Link)
      → (IsKnown d l.target → ⊥)
      → IsMerged d idom ls r
      → IsMerged d idom (l ∷ ls) r
  skip-IsMerged idom r l ls unknown m = record {
    known = m.known;
    kept = m.kept;
    covers = λ p (to : (l.target ≡ p) ⊎ LinksTo ls p) kp. elim to [
      | inl same ↦ absurd (unknown (subst (IsKnown d) (sym same) kp))
      | inr to' ↦ m.covers p to' kp
    ];
  }

  join-IsMerged :
      (idom r : Option ℕ) (z : ℕ) (l : Link) (ls : List Link)
      → Above d z l.target
      → ((j : ℕ) → idom ≡ some j → Above d z j)
      → IsMerged d (some z) ls r
      → IsMerged d idom (l ∷ ls) r
  join-IsMerged idom r z l ls a aj m =
      let (y, r-is, up) = m.kept z refl in
      record {
        known = m.known;
        kept = λ j e. (y, r-is, Above-trans d ordered z y j (aj j e) up);
        covers = λ p (to : (l.target ≡ p) ⊎ LinksTo ls p) kp. elim to [
          | inl same ↦
              (y, r-is, subst (λ x. Above d y x) same (Above-trans d ordered z y l.target a up))
          | inr to' ↦ m.covers p to' kp
        ];
      }

  pub merge-IsMerged :
      (idom : Option ℕ) (ls : List Link)
      → ((j : ℕ) → idom ≡ some j → IsKnown d j)
      → AllBelow (length d.idoms) ls
      → Returns (merge d idom ls) (IsMerged d idom ls)
  unfolding merge read
  merge-IsMerged idom [] k below =
      (idom, refl, record { known = k; kept = λ j e. (j, e, stay); covers = λ p l kp. elim l [ ] })
  merge-IsMerged idom (l ∷ ls) k (here, below) =
      let (v, at) = get_elem?-lt d.idoms l.target here in
      elim (Option-cases v) [
        | inl e ↦
            let (r, run, m) = merge-IsMerged idom ls k below in
            let unknown : IsKnown d l.target → ⊥ = λ (y, p). ground (arith, at, e, p) in
            (r, ground (arith, at, e, run), skip-IsMerged idom r l ls unknown m)
        | inr (y, e) ↦
            let kt : IsKnown d l.target = (y, ground (arith, at, e)) in
            let seen : read d.idoms l.target ≡ ok (some y) = ground (arith, at, e) in
            let (z, joined, (kz, a, aj)) = join-IsKnown l.target idom kt k in
            let (r, run, m) =
              merge-IsMerged (some z) ls (λ j e'. subst (IsKnown d) (ground (arith, e')) kz)
                below in
            (
              r,
              bind-ok (read d.idoms l.target) _ (some y) _ seen
                  (bind-ok _ (λ j. merge d (some j) ls) z _ joined run),
              join-IsMerged idom r z l ls a aj m,
            )
      ]
