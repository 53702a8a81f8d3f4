-- ===== src/Tests/Components.antt =====
-- Runs of the rest of src/analysis/walker.h.
use egalito.Analysis.Walker.Orders.{Reach}
use egalito.Analysis.Components.Pruned.{is_reachable_pruned-Reach}
use egalito.Analysis.Components.Shadow.{IsShadowed}
use egalito.Tests.Walks.{branch, branch-IsMirrored}
use egalito.Base.{arith, ℕ, ◌≡◌, refl, Bool, true, false, List, [], ◌∷◌, ◌==◌}
use egalito.Base.Result.{ok, Returns}
use egalito.Analysis.Graph.{Graph, Node, Link, forward, node_at}
use egalito.Analysis.Walker.{
  reverse, gen, walk, walk_helper, mark, node_collector, change_lap, walk_links, is_visited,
  first_order, finish_orders, finish_order, reversed, post_visit, pre_visit,
}
use egalito.Analysis.Components.{
  gen_components, is_reachable_pruned, new_components, element, assign, reset_components, discover,
  lower, lower_links, unstack, close, retreat, revisit, drop_last, reversed_components,
  finish_components, component_collector, find_unpruned,
}

abbrev node : ℕ → List Link → Node
node id links = record { id = id; block = id; links = links; reverse_links = [] }

abbrev to : ℕ → Link
to id = record { target = id; offset = 0; follow_jump = true }

-- A loop of two nodes that is left to a third one.
abbrev loop : Graph
loop = node 0 (to 1 ∷ []) ∷ node 1 (to 0 ∷ to 2 ∷ []) ∷ node 2 [] ∷ []

gen_components-loop : gen_components forward reverse loop 0 ≡ ok ((0 ∷ 1 ∷ []) ∷ (2 ∷ []) ∷ [])
unfolding walk walk_helper mark node_at walk_links is_visited finish_order reversed gen_components
    new_components element assign reset_components discover lower lower_links unstack close retreat
    revisit drop_last reversed_components finish_components component_collector
gen_components-loop = refl

abbrev prunes : ℕ → ℕ → ℕ → Bool
prunes n src dest = n == 1

is_reachable_pruned-loop : is_reachable_pruned prunes loop 0 2 ≡ ok false
unfolding gen walk walk_helper mark node_at node_collector change_lap walk_links is_visited
    first_order finish_orders finish_order post_visit pre_visit is_reachable_pruned find_unpruned
is_reachable_pruned-loop = refl

is_reachable_pruned-Reach_example : Returns (is_reachable_pruned prunes branch 0 2) (λ b.
    (b ≡ true → Reach branch forward 0 2)
    × (b ≡ false → Reach branch forward 0 2 → IsShadowed prunes branch 0 2 0))
is_reachable_pruned-Reach_example =
    is_reachable_pruned-Reach prunes branch 0 2 branch-IsMirrored.out (omega arith)

-- A node that is first met behind a pruned one is missed, though another link leads to it.
abbrev shadow : Graph
shadow = node 0 (to 1 ∷ to 2 ∷ []) ∷ node 1 (to 2 ∷ []) ∷ node 2 [] ∷ []

is_reachable_pruned-shadow : is_reachable_pruned prunes shadow 0 2 ≡ ok false
unfolding gen walk walk_helper mark node_at node_collector change_lap walk_links is_visited
    first_order finish_orders finish_order post_visit pre_visit is_reachable_pruned find_unpruned
is_reachable_pruned-shadow = refl
