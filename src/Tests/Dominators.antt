-- ===== src/Tests/Dominators.antt =====
-- Runs of src/analysis/dominance.cpp.
use egalito.Base.{
  ℕ, zero, suc, ◌<◌, ◌≡◌, ◌↔◌, refl, true, List, [], ◌∷◌, some, arith, get_elem?, inl, inr, ◌⊎◌,
  ◌∙◌, sym, subst,
}
use egalito.Base.Result.{ok, Returns}
use egalito.Analysis.Graph.{Graph, Node, Link, node_at}
use egalito.Analysis.Walker.Orders.{count}
use egalito.Analysis.ControlFlow.{construct}
use egalito.Analysis.Dominance.{
  Dominance, new_dominance, start, intersect, get_dominators, get_post_dominators, number_ids,
  approach, climb, is_later, merge, pass, read, same_id, settle, update, write, collect_dominators,
  set_intersection, insert_sorted, sort, exit_nodes, cap, intersect_all,
}
use egalito.Analysis.Walker.{
  gen, walk, walk_helper, mark, node_collector, change_lap, walk_links, is_visited, first_order,
  finish_orders, finish_order, reversed, post_visit, pre_visit,
}
use egalito.Analysis.Dominance.Meet.{
  Parent, rank, IsRanked, IsKnown, IsOrdered, IsMeet, intersect-IsMeet, Above,
}
use egalito.Analysis.Dominance.Dominators.{IsRooted, get_dominators-Above}
use egalito.Analysis.Dominance.Entry.{Passes, construct-Passes}
use egalito.Tests.Walks.{blocks, function, blocks-IsReady, branch}

-- The dominators of a branch.
abbrev fork : Dominance
fork = record { idoms = some 0 ∷ some 0 ∷ some 0 ∷ []; id_map = some 0 ∷ some 1 ∷ some 2 ∷ [] }

fork-IsOrdered : IsOrdered fork
fork-IsOrdered = record { ranked = ranked; rising = rising; distinct = distinct }
  where
    ranked :
        (x : ℕ)
        → IsKnown fork x
        → (get_elem? fork.id_map x ≡ some (some (rank fork x))) × (rank fork x < 3)
    ranked zero k = (refl, omega arith)
    ranked (suc zero) k = (refl, omega arith)
    ranked (suc (suc zero)) k = (refl, omega arith)
    ranked (suc (suc (suc x))) (y, p) = absurd (ground (arith, p))

    later : (y k : ℕ) → y ≡ 0 → 0 < k → IsKnown fork y × ((rank fork y < k) ⊎ ((k ≡ 0) × (y ≡ k)))
    later y k e h =
        (subst (IsKnown fork) (sym e) (0, refl), inl (subst (λ y. rank fork y < k) (sym e) h))

    rising :
        (x y : ℕ)
        → Parent fork x y
        → IsKnown fork y × ((rank fork y < rank fork x) ⊎ ((rank fork x ≡ 0) × (y ≡ x)))
    rising zero y p =
        let e : y ≡ 0 = ground (arith, p) in (subst (IsKnown fork) (sym e) (0, refl), inr (refl, e))
    rising (suc zero) y p = later y 1 (ground (arith, p)) (omega arith)
    rising (suc (suc zero)) y p = later y 2 (ground (arith, p)) (omega arith)
    rising (suc (suc (suc x))) y p = absurd (ground (arith, p))

    own : (x : ℕ) → IsRanked fork x → rank fork x ≡ x
    own zero r = refl
    own (suc zero) r = refl
    own (suc (suc zero)) r = refl
    own (suc (suc (suc x))) r = absurd (ground (arith, r))

    distinct : (x y : ℕ) → IsRanked fork x → IsRanked fork y → rank fork x ≡ rank fork y → x ≡ y
    distinct x y r q e = sym (own x r) ∙ e ∙ own y q

intersect-IsMeet_example : Returns (intersect fork 1 2) (IsMeet fork fork-IsOrdered 1 2)
intersect-IsMeet_example = intersect-IsMeet fork fork-IsOrdered 1 2 (0, refl) (0, refl)

fork-IsRooted : IsRooted fork
fork-IsRooted = record { ordered = fork-IsOrdered; ranked = refl; first = refl; root = refl }

get_dominators-Above_example :
    Returns (get_dominators fork 2) (λ ds. (w : ℕ) → (0 < count w ds) ↔ Above fork w 2)
get_dominators-Above_example = get_dominators-Above fork fork-IsRooted 2 (0, refl)

construct-Passes_example :
    Returns (construct blocks function) (λ g. Returns (start g) (λ (order, d). Passes 2 g order d))
construct-Passes_example = construct-Passes blocks function 2 (omega arith) blocks-IsReady

new_dominance-branch : new_dominance 2 branch ≡ ok fork
unfolding new_dominance start gen walk walk_helper mark node_at node_collector change_lap walk_links
    is_visited first_order finish_orders number_ids finish_order reversed post_visit pre_visit
    approach climb intersect is_later merge pass read same_id settle update write
new_dominance-branch = refl

-- Two ways that end after a shared node 1, whose common dominators 0 and 1 are not found, since the
-- first list of dominators is not sorted.
abbrev node : ℕ → List Link → Node
node id links = record { id = id; block = id; links = links; reverse_links = [] }

abbrev to : ℕ → Link
to id = record { target = id; offset = 0; follow_jump = true }

abbrev forked : Graph
forked = node 0 (to 1 ∷ []) ∷ node 1 (to 2 ∷ to 3 ∷ []) ∷ node 2 [] ∷ node 3 [] ∷ []

abbrev ends : Dominance
ends = record {
  idoms = some 0 ∷ some 0 ∷ some 1 ∷ some 1 ∷ [];
  id_map = some 0 ∷ some 1 ∷ some 2 ∷ some 3 ∷ [];
}

get_post_dominators-forked : get_post_dominators forked ends 0 ≡ ok ([], ends)
unfolding gen walk walk_helper mark node_at node_collector change_lap walk_links is_visited
    first_order finish_orders number_ids finish_order reversed post_visit pre_visit read write
    get_post_dominators get_dominators collect_dominators set_intersection insert_sorted sort
    exit_nodes cap intersect_all
get_post_dominators-forked = refl
