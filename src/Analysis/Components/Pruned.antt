-- ===== src/Analysis/Components/Pruned.antt =====
-- The isReachable of src/analysis/walker.h that prunes.
use egalito.Base.{
  some, ℕ, suc, ◌<◌, ◌≡◌, ◌∙◌, ap, Bool, true, false, List, [], ◌∷◌, Option, none, some, arith,
  length, replicate, length-replicate, append-nil, Bool-cases, inl, inr, ◌==◌, if◌then◌else◌,
}
use egalito.Base.Result.{Result, ok, Returns, ◌>>=◌}
use egalito.Analysis.Graph.{Graph, forward}
use egalito.Analysis.Walker.{
  State, NodeCollection, node_collector, pre_postorder, empty, walk, gen, first_order, contains,
  finish_orders, finish_order,
}
use egalito.Analysis.Walker.Trace.{IsGraph}
use egalito.Analysis.Walker.Ends.{walk_helper-Walk}
use egalito.Analysis.Walker.Orders.{Reach}
use egalito.Analysis.Walker.Reachable.{
  one_list, replicate-unvisited, replicate-marked, reached-Marks, marked-Reach, Reach-marked,
  contains_iff,
}
use egalito.Analysis.Components.{find_unpruned, is_reachable_pruned}
use egalito.Analysis.Components.Shadow.{IsShadowed, Walk-Searched}
use egalito.Analysis.Components.Visited.{visited_ids, visited_ids-handle_all, count-visited_ids}

find_unpruned-contains :
    (prune : ℕ → ℕ → ℕ → Bool) (src dest : ℕ) (pruning : Option ℕ) (ns : List ℕ)
    → find_unpruned prune src dest pruning ns ≡ true
    → contains dest ns ≡ true
unfolding find_unpruned contains
find_unpruned-contains prune src dest none [] e = absurd (ground (arith, e))
find_unpruned-contains prune src dest (some root) [] e = absurd (ground (arith, e))
find_unpruned-contains prune src dest (some root) (n ∷ ns) e =
    let rest = find_unpruned-contains prune src dest (if n == root then none else some root) ns e in
    ground (arith, rest)
find_unpruned-contains prune src dest none (n ∷ ns) e = elim (Bool-cases (n == dest)) [
  | inl q ↦ ground (arith, q)
  | inr q ↦
      let rest =
        find_unpruned-contains prune src dest (if prune n src dest then some n else none) ns
          (ground (arith, e, q)) in
      ground (arith, rest)
]

-- From a node of a graph whose links lead to its nodes, the isReachable that prunes returns. If it
-- returns true, some path of links leads to the other node. If it returns false though there is such a
-- path, then some such path goes through a node that is pruned.
pub is_reachable_pruned-Reach :
    (prune : ℕ → ℕ → ℕ → Bool) (g : Graph) (src dest : ℕ)
    → IsGraph g forward
    → src < length g
    → Returns (is_reachable_pruned prune g src dest) (λ b.
      (b ≡ true → Reach g forward src dest)
      × (b ≡ false → Reach g forward src dest → IsShadowed prune g src dest src))
unfolding is_reachable_pruned gen walk node_collector first_order finish_orders finish_order
is_reachable_pruned-Reach prune g src dest graph h =
    let c = node_collector pre_postorder empty in
    let (es, v', w, run, len, low) =
      walk_helper-Walk c g forward graph (suc (length g)) (replicate (length g) false) src
        (length-replicate (length g) false) h (replicate-marked (length g) src)
        (omega (arith, replicate-unvisited (length g))) in
    let ended =
      run (one_list [])
      ∙ ap (λ r. r >>= λ u. ok (record { visited = v'; collected = u }))
          (visited_ids-handle_all empty es []) in
    let (entered-once, left-once) = reached-Marks g forward graph src h v' es dest w in
    let both = count-visited_ids dest es in
    (
      find_unpruned prune src dest none (visited_ids es),
      ap
          (λ (r : Result (State NodeCollection)).
            ((r >>= λ s. ok (c.finish s.collected)) >>= λ t. ok t.order) >>= λ o.
            first_order o >>= λ order. ok (find_unpruned prune src dest none order))
          ended,
      (
        λ e.
            let found = find_unpruned-contains prune src dest none (visited_ids es) e in
            let pos = (contains_iff dest (visited_ids es)).0 found in
            marked-Reach g forward graph src h v' es dest w
              (ground (arith, pos, both, entered-once, left-once)),
        λ missed r.
            let m = Reach-marked g forward graph src h v' es dest w r in
            let shape = append-nil (visited_ids es) in
            elim (Walk-Searched prune g graph src dest (replicate (length g) false) v' src es []
              w) [
                | inl found ↦ absurd (ground (arith, found, missed, shape))
                | inr (_, shadow) ↦ shadow (ground (arith, m, entered-once))
              ],
      ),
    )
