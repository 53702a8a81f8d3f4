-- ===== src/Analysis/Graph.antt =====
-- src/analysis/graph.h, with the nodes and links of controlflow.h: a graph is the vector of its nodes.
-- A node's block is the number of the chunk.
use egalito.Base.{ℕ, Bool, List, [], ◌∷◌, ◌++◌, none, some, get_elem?}
use egalito.Base.Result.{Result, ok, fail, undefined}

-- class ControlFlowLink
pub record Link : Type 0 where
  pub target : ℕ
  pub offset : ℕ
  pub follow_jump : Bool

-- class ControlFlowNode
pub record Node : Type 0 where
  pub id : ℕ
  pub block : ℕ
  pub links : List Link
  pub reverse_links : List Link

abbrev pub Graph : Type 0
Graph = List Node

-- The argument of getLinks: 1 or -1.
pub data Direction : Type 0 where
  forward : Direction
  backward : Direction

-- getLinks
abbrev pub get_links : Direction → Node → List Link
get_links forward n = n.links
get_links backward n = n.reverse_links

-- graph[id], which is undefined past the end
unfoldable pub node_at : Graph → ℕ → Result Node
node_at g i = elim (get_elem? g i) [ none ↦ fail undefined | some n ↦ ok n ]

abbrev pub add_link : Link → Node → Node
add_link l n = record n { links = n.links ++ l ∷ [] }

abbrev pub add_reverse_link : Link → Node → Node
add_reverse_link l n = record n { reverse_links = n.reverse_links ++ l ∷ [] }
