-- ===== src/Analysis/Dominance/Settle.antt =====
-- One of the passes that are made until nothing changes.
use egalito.Base.{
  ◌==◌, ℕ, ◌+◌, ◌<◌, ◌≤◌, ◌≡◌, ◌∙◌, sym, ap, subst, Bool, true, false, List, [], ◌∷◌, arith,
  get_elem?, length, ==_iff, Bool-cases, inl, inr,
}
use egalito.Base.Result.{ok, Returns, bind-ok}
use egalito.Analysis.Graph.{Graph, forward}
use egalito.Analysis.Walker.Orders.{count}
use egalito.Analysis.Walker.Reachable.{Led}
use egalito.Analysis.ControlFlow.Mirror.{IsMirrored}
use egalito.Analysis.Dominance.{Dominance, update, pass}
use egalito.Analysis.Dominance.Meet.{Parent, IsKnown, rank, IsOrdered}
use egalito.Analysis.Dominance.Update.{KeepsOthers, IsSettled, update-root}
use egalito.Analysis.Dominance.Pass.{
  Alters, IsAltered, Placed-earlier, Placed, AllInside, rank-map, pass-Completes,
}
use egalito.Analysis.Dominance.Dominators.{IsRooted}

-- A state in which the passes can begin.
pub record IsReady (g : Graph) (xs : List ℕ) (d : Dominance) : Type 0 where
  pub ordered : IsOrdered d
  pub size : length d.idoms ≡ length g
  pub placed : Placed d.id_map 0 (0 ∷ xs)

ready-IsRooted :
    (g : Graph) (xs : List ℕ) (d : Dominance) → IsReady g xs d → IsKnown d 0 → IsRooted d
ready-IsRooted g xs d ready (y, p) =
    let first : rank d 0 ≡ 0 = ground (arith, ready.placed.0) in
    record {
      ordered = ready.ordered;
      ranked = ground (arith, ready.placed.0);
      first = first;
      root = elim (ready.ordered.rising 0 y p).1 [
        | inl l ↦ absurd (omega (arith, l, first))
        | inr (_, e) ↦ subst (λ y. Parent d 0 y) e p
      ];
    }

-- Where the first node's entry is written without a report, a change that is reported is another
-- node's.
Alters-root :
    (xs : List ℕ) (d d₁ d₂ : Dominance) (c₁ c₂ : Bool)
    → count 0 xs ≡ 0
    → KeepsOthers 0 d d₁
    → c₁ ≡ false
    → Alters xs d₁ c₁ d₂ c₂
    → c₂ ≡ true
    → IsAltered xs d d₂
Alters-root xs d d₁ d₂ c₁ c₂ once others quiet alters e = elim (alters.reported e) [
  | inl early ↦ absurd (ground (arith, early, quiet))
  | inr (y, h, differs) ↦
      let other : (0 == y) ≡ false = elim (Bool-cases (0 == y)) [
        | inl z ↦ absurd (ground (arith, h, once, ap (λ y. count y xs) ((==_iff 0 y).0 z)))
        | inr z ↦ z
      ] in
      (y, h, λ same. differs (same ∙ sym (others y other)))
]

-- What a pass leaves.
abbrev pub Passed : Graph → List ℕ → Dominance → Dominance × Bool → Type 0
Passed g xs d (d', c) =
    IsReady g xs d'
    × IsRooted d'
    × (c ≡ false → (x : ℕ) → 0 < count x xs → IsSettled g d' x)
    × (c ≡ true → IsAltered xs d d')

module _ (k : ℕ) (g : Graph) (xs : List ℕ) (m : IsMirrored k g) (some-node : 0 < length g)
    (fit : 1 + length xs ≤ length g) (inside : AllInside (length g) xs)
    (led : Led g forward (0 ∷ []) xs) where
  pub pass-Passed :
      (d : Dominance) → IsReady g xs d → Returns (pass g (0 ∷ xs) d false) (Passed g xs d)
  unfolding pass
  pass-Passed d ready =
      let first : rank d 0 ≡ 0 = ground (arith, ready.placed.0) in
      let ((d₁, c₁), run₁, (u₁, root, quiet, others)) =
        update-root g d ready.ordered (omega (arith, some-node, ready.size))
          (ground (arith, ready.placed.0)) first in
      let known : (y : ℕ) → 0 < count y (0 ∷ []) → IsKnown d₁ y × (rank d₁ y < 1) = λ y h.
        let at : 0 ≡ y = (==_iff 0 y).0 (ground (arith, h)) in
        subst (λ y. IsKnown d₁ y × (rank d₁ y < 1)) at
          ((0, root), omega (arith, rank-map d d₁ 0 u₁.map, first)) in
      let ((d₂, c₂), run₂, (u₂, all₂, settled, alters)) =
        pass-Completes k g 1 (0 ∷ []) xs d₁ c₁ m u₁.ordered (u₁.size ∙ ready.size)
          (ap (λ m. get_elem? m 0) u₁.map ∙ ready.placed.0) (omega arith)
          (subst (λ m. Placed m 1 xs) (sym u₁.map) ready.placed.1) fit inside led known in
      let first-once =
        Placed-earlier d.id_map 1 0 0 xs ready.placed.0 (omega arith) ready.placed.1 in
      let ready₂ : IsReady g xs d₂ = record {
        ordered = u₂.ordered;
        size = u₂.size ∙ u₁.size ∙ ready.size;
        placed = subst (λ m. Placed m 0 (0 ∷ xs)) (sym (u₂.map ∙ u₁.map)) ready.placed;
      } in
      (
        (d₂, c₂),
        bind-ok (update g 0 d) (λ (d', c). pass g xs d' c) (d₁, c₁) (ok (d₂, c₂)) run₁ run₂,
        (
          ready₂,
          ready-IsRooted g xs d₂ ready₂ (u₂.keeps 0 (0, root)),
          λ e x h. let (_, same, s) = settled e in subst (λ d. IsSettled g d x) (sym same) (s x h),
          λ e. Alters-root xs d d₁ d₂ c₁ c₂ first-once others quiet alters e,
        ),
      )
