-- ===== src/Tests/Walks.antt =====
-- Runs of src/analysis/controlflow.cpp and walker.h.
use egalito.Base.{
  ℕ, zero, suc, ◌≡◌, ◌↔◌, ◌∙◌, sym, subst, refl, Bool, true, false, List, [], ◌∷◌, some, arith,
}
use egalito.Base.Result.{ok, ok-inj, Returns}
use egalito.Analysis.Graph.{Graph, Link, forward, backward}
use egalito.Analysis.Walker.{contains, is_reachable, gen, postorder, reverse}
use egalito.Analysis.Walker.Orders.{Reach}
use egalito.Analysis.Walker.Reachable.{is_reachable-Reach, reverse_postorder-Reaches, Reaches, Led}
use egalito.Analysis.ControlFlow.{
  Block, Semantic, to_block, control_flow, another, plain, returning, get_last, construct,
  construct_blocks, construct_block, asserted, find_id, add_nodes, add_jumps, add_target, add_edge,
  change_node, falls_through, add_next, next_block, index_of,
}
use egalito.Analysis.ControlFlow.Mirror.{IsMirrored}
use egalito.Analysis.ControlFlow.Blocks.{IsReady}
use egalito.Analysis.ControlFlow.Construction.{construct-IsMirrored}

abbrev only : ℕ → Semantic → Block
only a s = record { address = a; children = record { address = a; semantic = s } ∷ [] }

-- A branch over the second block.
abbrev pub blocks : ℕ → Block
blocks zero = only 0 (control_flow another true (some (to_block 2 32)))
blocks (suc zero) = only 16 plain
blocks (suc (suc b)) = only 32 returning

abbrev pub function : List ℕ
function = 0 ∷ 1 ∷ 2 ∷ []

pub blocks-IsReady : (b : ℕ) → contains b function ≡ true → IsReady blocks function b
unfolding get_last contains
blocks-IsReady zero h = (
  record { address = 0; semantic = control_flow another true (some (to_block 2 32)) },
  refl,
  refl,
)
blocks-IsReady (suc zero) h = (record { address = 16; semantic = plain }, refl, tt)
blocks-IsReady (suc (suc b)) h = (record { address = 32; semantic = returning }, refl, tt)

construct-IsMirrored_example : Returns (construct blocks function) (IsMirrored 3)
construct-IsMirrored_example = construct-IsMirrored blocks function blocks-IsReady

abbrev link : ℕ → Bool → Link
link to follow = record { target = to; offset = 0; follow_jump = follow }

abbrev pub branch : Graph
branch =
    record { id = 0; block = 0; links = link 2 true ∷ link 1 false ∷ []; reverse_links = [] }
    ∷ record { id = 1; block = 1; links = link 2 false ∷ []; reverse_links = link 0 false ∷ [] }
    ∷ record { id = 2; block = 2; links = []; reverse_links = link 0 true ∷ link 1 false ∷ [] }
    ∷ []

construct-branch : construct blocks function ≡ ok branch
unfolding construct construct_blocks construct_block asserted find_id add_nodes get_last add_jumps
    add_target add_edge change_node falls_through add_next next_block index_of
construct-branch = refl

pub branch-IsMirrored : IsMirrored 3 branch
branch-IsMirrored =
    let (g, run, m) = construct-IsMirrored_example in
    subst (IsMirrored 3) (ok-inj g branch (sym run ∙ construct-branch)) m

is_reachable-Reach_example :
    Returns (is_reachable branch 1 2) (λ b. (b ≡ true) ↔ Reach branch forward 1 2)
is_reachable-Reach_example = is_reachable-Reach branch 1 2 branch-IsMirrored.out (omega arith)

reverse_postorder-Reaches_example : Returns (gen postorder reverse backward branch 2) (λ os.
    (xs : List ℕ) × (os ≡ (2 ∷ xs) ∷ [])
    × Reaches branch backward 2 (2 ∷ xs)
    × Led branch backward (2 ∷ []) xs)
reverse_postorder-Reaches_example =
    reverse_postorder-Reaches branch backward 2 branch-IsMirrored.back (omega arith)
