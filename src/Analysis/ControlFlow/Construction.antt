-- ===== src/Analysis/ControlFlow/Construction.antt =====
-- The construction of the control flow graph of a function, from its blocks to the mirrored graph.
use egalito.Base.{ℕ, ◌≡◌, refl, true, List, [], some, arith, get_elem?, length, inr}
use egalito.Base.Result.{Returns}
use egalito.Analysis.Graph.{Node}
use egalito.Analysis.Walker.{contains}
use egalito.Analysis.ControlFlow.{Block, find_id, add_nodes, construct}
use egalito.Analysis.ControlFlow.Mirror.{IsMirrored}
use egalito.Analysis.ControlFlow.Blocks.{IsReady, construct_blocks-IsMirrored}
use egalito.Analysis.ControlFlow.Numbering.{Numbers-map, add_nodes-Numbers, IsFresh-IsMirrored}

-- The constructor of the control flow graph returns for a function whose blocks all have a last
-- instruction, where a block that is the target of a jump is one of the function. It gives a graph
-- with a node for each block, in which ids are indices, links lead to nodes, and each node has as many
-- links to another as that has reverse links to it.
pub construct-IsMirrored :
    (block : ℕ → Block) (function : List ℕ)
    → ((b : ℕ) → contains b function ≡ true → IsReady block function b)
    → Returns (construct block function) (IsMirrored (length function))
unfolding construct find_id
construct-IsMirrored block function ready =
    let (fresh, len, (below, known)) =
      Numbers-map {k' = length function} {Known' = λ b. contains b function ≡ true}
        (add_nodes 0 function [] []) (omega arith) (λ b h. inr h)
        (add_nodes-Numbers function (λ b. ⊥) 0 [] [] (λ i n e. absurd (nothing i n e)) refl
          ((λ b i e. absurd (unmapped b i e)), λ b (h : ⊥). elim h [ ])) in
    let (g, mapping) = add_nodes 0 function [] [] in
    construct_blocks-IsMirrored (length function) block function mapping below known function g
      (λ b h. h) ready (IsFresh-IsMirrored (length function) g fresh len)
  where
    nothing : (i : ℕ) (n : Node) → get_elem? [] i ≡ some n → ⊥
    nothing i n e = ground (arith, e)

    unmapped : (b i : ℕ) → find_id b [] ≡ some i → ⊥
    unmapped b i e = ground (arith, e)
