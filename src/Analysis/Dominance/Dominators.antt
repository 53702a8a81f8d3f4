-- ===== src/Analysis/Dominance/Dominators.antt =====
-- The lists of dominators, and the ways from the entry.
use egalito.Base.{
  ℕ, zero, suc, ◌<◌, ◌≡◌, refl, ◌∙◌, sym, subst, List, [], ◌∷◌, arith, length, ◌==◌, ==_iff,
  Bool-cases, inl, inr, ◌⊎◌, ◌↔◌,
}
use egalito.Base.Result.{Returns}
use egalito.Analysis.Graph.{Graph, forward}
use egalito.Analysis.Walker.Orders.{Edge, Reach, count}
use egalito.Analysis.ControlFlow.Mirror.{IsMirrored}
use egalito.Analysis.Dominance.{Dominance, collect_dominators, get_dominators, read}
use egalito.Analysis.Dominance.Meet.{
  Parent, IsKnown, rank, IsRanked, IsOrdered, Above, stay, rise, Above-trans,
}
use egalito.Analysis.Dominance.Update.{IsSettled}
use egalito.Analysis.Dominance.Pass.{Edge-mirrored}

-- The first node of the order is the entry.
pub record IsRooted (d : Dominance) : Type 0 where
  pub ordered : IsOrdered d
  pub ranked : IsRanked d 0
  pub first : rank d 0 ≡ 0
  pub root : Parent d 0 0

module _ (d : Dominance) (rooted : IsRooted d) where
  Above-root : (w x : ℕ) → Above d w x → x ≡ 0 → w ≡ 0
  Above-root w x stay e = e
  Above-root w x (rise x' y p a) e =
      let at : Parent d 0 y = subst (λ x. Parent d x y) e p in
      Above-root w y a (ground (arith, at, rooted.root))

  Above-cases : (w x y : ℕ) → Parent d x y → Above d w x → (x ≡ w) ⊎ Above d w y
  Above-cases w x y p stay = inl refl
  Above-cases w x y p (rise x' z q a) =
      let same : z ≡ y = ground (arith, p, q) in inr (subst (Above d w) same a)

  collect_dominators-Above :
      (fuel id : ℕ)
      → rank d id < fuel
      → IsKnown d id
      → Returns (collect_dominators fuel d id) (λ ds. (w : ℕ) → (0 < count w ds) ↔ Above d w id)
  unfolding collect_dominators read
  collect_dominators-Above zero id h k = absurd (omega (arith, h))
  collect_dominators-Above (suc fuel) id h (y, p) = elim (Bool-cases (id == 0)) [
    | inl e ↦
        let at : id ≡ 0 = (==_iff id 0).0 e in
        (
          0 ∷ [],
          ground (arith, e),
          λ w. (
            λ c.
                let same : 0 ≡ w = (==_iff 0 w).0 (ground (arith, c)) in
                subst (λ x. Above d w x) (sym at) (subst (λ x. Above d x 0) same stay),
            λ a. ground (arith, Above-root w id a at),
          ),
        )
    | inr e ↦
        let (ky, rises) = rooted.ordered.rising id y p in
        let lower : rank d y < rank d id = elim rises [
          | inl l ↦ l
          | inr (zero-id, _) ↦
              let ranked = (rooted.ordered.ranked id (y, p)).0 in
              let same : id ≡ 0 =
                rooted.ordered.distinct id 0 ranked rooted.ranked (zero-id ∙ sym rooted.first) in
              absurd (ground (arith, e, (==_iff id 0).1 same))
        ] in
        let (ds, run, holds) = collect_dominators-Above fuel y (omega (arith, h, lower)) ky in
        (
          id ∷ ds,
          ground (arith, e, p, run),
          λ w. (
            λ c. elim (Bool-cases (id == w)) [
              | inl q ↦ subst (λ x. Above d x id) ((==_iff id w).0 q) stay
              | inr q ↦ rise id y p ((holds w).0 (ground (arith, c, q)))
            ],
            λ a. elim (Above-cases w id y p a) [
              | inl q ↦ ground (arith, (==_iff id w).1 q)
              | inr a' ↦ let rest = (holds w).1 a' in omega (arith, rest)
            ],
          ),
        )
  ]

  -- In a state that is ordered and rooted, getDominators of a node with an immediate dominator
  -- returns, and lists exactly the node and those above it.
  pub get_dominators-Above :
      (id : ℕ)
      → IsKnown d id
      → Returns (get_dominators d id) (λ ds. (w : ℕ) → (0 < count w ds) ↔ Above d w id)
  unfolding get_dominators
  get_dominators-Above id k =
      let below = (rooted.ordered.ranked id k).1 in
      collect_dominators-Above (suc (length d.idoms)) id (omega (arith, below)) k

-- A way from the entry to a node, with the nodes on it.
pub data Route (g : Graph) : ℕ → List ℕ → Type 0 where
  entry : Route g 0 (0 ∷ [])
  go : (y z : ℕ) (ps : List ℕ) → Route g y ps → Edge g forward y z → Route g z (z ∷ ps)

pub Route-Reach : (g : Graph) (x : ℕ) (ps : List ℕ) → Route g x ps → Reach g forward 0 x
Route-Reach g x ps entry = Reach.here
Route-Reach g x ps (go y z qs r e) = Reach.step y z (Route-Reach g y qs r) e

-- All reachable nodes but the entry are settled.
abbrev pub AllSettled : Graph → Dominance → Type 0
AllSettled g d = (x : ℕ) → Reach g forward 0 x → (x ≡ 0) ⊎ IsSettled g d x

-- What is above a node is on all its ways from the entry.
pub Above-Route :
    (k : ℕ) (g : Graph) (d : Dominance)
    → IsRooted d
    → IsMirrored k g
    → AllSettled g d
    → (x : ℕ) (ps : List ℕ) → Route g x ps
    → IsKnown d x × ((w : ℕ) → Above d w x → 0 < count w ps)
Above-Route k g d rooted m settled x ps entry =
    ((0, rooted.root), λ w a. ground (arith, Above-root d rooted w 0 a refl))
Above-Route k g d rooted m settled x ps (go y z qs r e) =
    let (ky, on) = Above-Route k g d rooted m settled y qs r in
    elim (settled z (Reach.step y z (Route-Reach g y qs r) e)) [
      | inl at ↦ (
        subst (IsKnown d) (sym at) (0, rooted.root),
        λ w a. ground (arith, Above-root d rooted w z a at, at),
      )
      | inr s ↦
          let (v, p, a) = s y (Edge-mirrored k g z y m e) ky in
          (
            (v, p),
            λ w b. elim (Above-cases d rooted w z v p b) [
              | inl q ↦ ground (arith, (==_iff z w).1 q)
              | inr c ↦
                  let there = on w (Above-trans d rooted.ordered v w y a c) in omega (arith, there)
            ],
          )
    ]
