-- ===== src/Analysis/Dominance/Entry.antt =====
-- The constructor of Dominance on a constructed graph: the first state and the passes.
use egalito.Base.{
  false, ℕ, zero, suc, ◌+◌, ◌<◌, ◌≤◌, ◌≡◌, refl, ◌∙◌, sym, ap, subst, true, List, [], ◌∷◌, Option,
  none, some, arith, get_elem?, length, replicate, length-replicate, ==_iff, inl, inr, ◌⊎◌,
}
use egalito.Base.Result.{ok, Returns}
use egalito.Analysis.Graph.{Graph, Link, forward}
use egalito.Analysis.Walker.{first_order}
use egalito.Analysis.Walker.Trace.{IsGraph, AllBelow}
use egalito.Analysis.Walker.Orders.{LinksTo, Reach, count}
use egalito.Analysis.Walker.Reachable.{Led, Reaches, reverse_postorder-Reaches}
use egalito.Analysis.ControlFlow.Mirror.{IsMirrored}
use egalito.Analysis.Dominance.{Dominance, pass, settle, start, get_dominators}
use egalito.Analysis.Dominance.Meet.{IsOrdered}
use egalito.Analysis.Dominance.Pass.{IsAltered, count-cases, AllInside}
use egalito.Analysis.Dominance.Dominators.{
  IsRooted, AllSettled, Above-Route, get_dominators-Above, Route,
}
use egalito.Analysis.Dominance.Numbers.{
  IsDistinct, Indexes, number_ids-IsNumbered, length-IsDistinct,
}
use egalito.Analysis.Dominance.Settle.{IsReady, pass-Passed}
use egalito.Analysis.Walker.{contains}
use egalito.Analysis.ControlFlow.{Block, construct}
use egalito.Analysis.ControlFlow
use egalito.Analysis.ControlFlow.Blocks
use egalito.Analysis.ControlFlow.Construction.{construct-IsMirrored}

LinksTo-below : (k : ℕ) (ls : List Link) (x : ℕ) → AllBelow k ls → LinksTo ls x → x < k
LinksTo-below k [] x b to = elim to [ ]
LinksTo-below k (l ∷ ls) x (h, b) (inl e) = subst (λ x. x < k) e h
LinksTo-below k (l ∷ ls) x (h, b) (inr to) = LinksTo-below k ls x b to

-- Reached nodes are nodes of the graph.
Reach-inside :
    (g : Graph) (x y : ℕ) → IsGraph g forward → x < length g → Reach g forward x y → y < length g
Reach-inside g x y graph h Reach.here = h
Reach-inside g x z graph h (Reach.step y z' r e) =
    LinksTo-below (length g) e.node.links z' (graph y e.node e.at).1 e.to

count-AllInside : (k : ℕ) (xs : List ℕ) → ((x : ℕ) → 0 < count x xs → x < k) → AllInside k xs
count-AllInside k [] h = tt
count-AllInside k (x ∷ xs) h = (
  h x (ground (arith, (==_iff x x).1 refl)),
  count-AllInside k xs (λ y c. h y (omega (arith, c))),
)

get_elem?-replicate : (n x : ℕ) (v : Option ℕ) → get_elem? (replicate n none) x ≡ some v → v ≡ none
get_elem?-replicate zero x v e = absurd (ground (arith, e))
get_elem?-replicate (suc n) zero v e = ground (arith, e)
get_elem?-replicate (suc n) (suc x) v e = get_elem?-replicate n x v e

-- Where nothing is known, nothing is out of order.
unknown-IsOrdered :
    (n i : ℕ) (m : List (Option ℕ))
    → Indexes i m
    → IsOrdered (record { idoms = replicate n none; id_map = m })
unknown-IsOrdered n i m (below, distinct) = record {
  ranked = λ x (y, p). absurd (unknown x y p);
  rising = λ x y p. absurd (unknown x y p);
  distinct = λ x y r q e. distinct x y _ r (q ∙ ap (λ a. some (some a)) (sym e));
}
  where
    unknown : (x y : ℕ) → get_elem? (replicate n none) x ≡ some (some y) → ⊥
    unknown x y p = let e = get_elem?-replicate n x (some y) p in ground (arith, e)

-- Each dominator that is listed for a node is on each way to it from the entry.
abbrev pub Dominates : Graph → Dominance → Type 0
Dominates g d =
    (x : ℕ) (ps : List ℕ)
    → Route g x ps
    → Returns (get_dominators d x) (λ ds. (w : ℕ) → 0 < count w ds → 0 < count w ps)

settled-Dominates :
    (k : ℕ) (g : Graph) (d : Dominance)
    → IsMirrored k g
    → IsRooted d
    → AllSettled g d
    → Dominates g d
settled-Dominates k g d m rooted settled x ps route =
    let (known, on) = Above-Route k g d rooted m settled x ps route in
    let (ds, run, holds) = get_dominators-Above d rooted x known in
    (ds, run, λ w h. on w ((holds w).0 h))

listed-cases :
    (g : Graph) (xs : List ℕ) (x : ℕ)
    → Reaches g forward 0 (0 ∷ xs)
    → Reach g forward 0 x
    → (x ≡ 0) ⊎ (0 < count x xs)
listed-cases g xs x reaches r = elim (reaches x) [
  | inl (once, _) ↦ elim (count-cases x 0 xs (omega (arith, once))) [
    | inl e ↦ inl (sym e)
    | inr h ↦ inr h
  ]
  | inr (_, never) ↦ absurd (never r)
]

-- The order and the first state are ready for the passes.
abbrev Starts : Graph → List ℕ × Dominance → Type 0
Starts g (order, d) =
    (xs : List ℕ) × (order ≡ 0 ∷ xs)
    × IsReady g xs d
    × Reaches g forward 0 (0 ∷ xs)
    × Led g forward (0 ∷ []) xs
    × AllInside (length g) xs
    × (1 + length xs ≤ length g)

start-Starts : (k : ℕ) (g : Graph) → IsMirrored k g → 0 < length g → Returns (start g) (Starts g)
unfolding start first_order
start-Starts k g m some-node =
    let (os, run, (xs, os-is, reaches, led)) =
      reverse_postorder-Reaches g forward 0 m.out some-node in
    let distinct : IsDistinct (0 ∷ xs) =
      λ x. elim (reaches x) [ inl (e, _) ↦ omega (arith, e) | inr (e, _) ↦ omega (arith, e) ] in
    let inside : AllInside (length g) (0 ∷ xs) = count-AllInside (length g) (0 ∷ xs) (λ x h.
      elim (reaches x) [
        | inl (_, r) ↦ Reach-inside g 0 x m.out some-node r
        | inr (e, _) ↦ absurd (omega (arith, e, h))
      ]) in
    let fit = length-IsDistinct (length g) (0 ∷ xs) inside distinct in
    let blank : List (Option ℕ) = replicate (length g) none in
    let none-yet : (x a : ℕ) → get_elem? blank x ≡ some (some a) → ⊥ =
      λ x a e. let e' = get_elem?-replicate (length g) x (some a) e in ground (arith, e') in
    let (id_map, numbered, n) =
      number_ids-IsNumbered 0 (0 ∷ xs) blank
        ((λ x a e. absurd (none-yet x a e)), λ x y a e f. absurd (none-yet x a e)) distinct
        (subst (λ k. AllInside k (0 ∷ xs)) (sym (length-replicate (length g) none)) inside) in
    (
      (0 ∷ xs, record { idoms = blank; id_map = id_map }),
      ground (arith, run, os-is, numbered),
      (
        xs,
        refl,
        record {
          ordered = unknown-IsOrdered (length g) (0 + length (0 ∷ xs)) id_map n.indexes;
          size = length-replicate (length g) none;
          placed = n.placed;
        },
        reaches,
        led,
        inside.1,
        omega (arith, fit),
      ),
    )

-- The passes that are made from a state, each of them from what the one before it leaves: each returns,
-- the loop ends behind one that reports no change and goes on behind one that reports a change.
abbrev pub Passes : ℕ → Graph → List ℕ → Dominance → Type 0
Passes zero g order d = Unit
Passes (suc n) g order d = Returns (pass g order d false) (λ (d', c).
    (c ≡ false → ((fuel : ℕ) → settle (suc fuel) g order d ≡ ok d') × Dominates g d')
    × (c ≡ true
        → ((fuel : ℕ) → settle (suc fuel) g order d ≡ settle fuel g order d')
          × IsAltered order d d')
    × Passes n g order d')

module _ (k : ℕ) (g : Graph) (xs : List ℕ) (m : IsMirrored k g) (some-node : 0 < length g)
    (fit : 1 + length xs ≤ length g) (inside : AllInside (length g) xs)
    (led : Led g forward (0 ∷ []) xs) (reaches : Reaches g forward 0 (0 ∷ xs)) where
  ready-Passes : (n : ℕ) (d : Dominance) → IsReady g xs d → Passes n g (0 ∷ xs) d
  unfolding settle
  ready-Passes zero d ready = tt
  ready-Passes (suc n) d ready =
      let ((d', c), run, (ready', rooted, settled, altered)) =
        pass-Passed k g xs m some-node fit inside led d ready in
      (
        (d', c),
        run,
        (
          λ e. (
            λ fuel. ground (arith, run, e),
            settled-Dominates k g d' m rooted (λ x r. elim (listed-cases g xs x reaches r) [
              | inl z ↦ inl z
              | inr h ↦ inr (settled e x h)
            ]),
          ),
          λ e. (
            λ fuel. ground (arith, run, e),
            let (y, h, differs) = altered e in (y, omega (arith, h), differs),
          ),
          ready-Passes n d' ready',
        ),
      )

pub start-Passes :
    (k n : ℕ) (g : Graph)
    → IsMirrored k g
    → 0 < length g
    → Returns (start g) (λ (order, d). Passes n g order d)
start-Passes k n g m some-node =
    let ((order, d), run, (xs, order-is, ready, reaches, led, inside, fit)) =
      start-Starts k g m some-node in
    (
      (order, d),
      run,
      subst (λ o. Passes n g o d) (sym order-is)
          (ready-Passes k g xs m some-node fit inside led reaches n d ready),
    )

-- For a function with at least one block, whose blocks all have a last instruction, and where a block
-- that is the target of a jump is one of the function, the graph is constructed, and the constructor
-- of Dominance returns for it an order and a state for its passes. Every one of the first n passes
-- returns, for any n. If a pass reports no change, the loop ends with the state that it leaves, in
-- which getDominators returns for each node to which there is a way from the entry, and each node that
-- it lists is on every such way. If a pass reports a change, the loop goes on with the state that it
-- leaves, in which the immediate dominator of a node of the order is another one than before.
pub construct-Passes :
    (block : ℕ → Block) (function : List ℕ) (n : ℕ)
    → 0 < length function
    → ((b : ℕ) → contains b function ≡ true → ControlFlow.Blocks.IsReady block function b)
    → Returns (construct block function) (λ g. Returns (start g) (λ (order, d). Passes n g order d))
construct-Passes block function n h ready =
    let (g, run, m) = construct-IsMirrored block function ready in
    (g, run, start-Passes (length function) n g m (omega (arith, h, m.size)))
