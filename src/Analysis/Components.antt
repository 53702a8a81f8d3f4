-- ===== src/Analysis/Components.antt =====
-- SccCollection and the pruned isReachable of src/analysis/walker.h: the strongly connected components
-- of a graph in the order of a walk. Of its stacks the top comes first.
pub mod Visited
pub mod Shadow
pub mod Pruned
use egalito.Base.{
  ℕ, suc, Bool, true, false, List, [], ◌∷◌, ◌++◌, Option, none, some, get_elem?, set, length, ltb,
  ◌==◌, min, replicate, if◌then◌else◌,
}
use egalito.Base.Result.{Result, ok, fail, undefined, ◌>>=◌}
use egalito.Analysis.Graph.{Graph, Node, Link, Direction, forward, get_links}
use egalito.Analysis.Walker.{
  Collector, FinishType, empty, reverse, finish_order, walk, gen, pre_postorder, first_order,
}

pub record SccCollection : Type 0 where
  pub scc : ℕ
  pub disc : ℕ
  pub discovery : List ℕ
  pub low_link : List ℕ
  pub on_stack : List Bool
  pub stack : List ℕ
  pub po_stack : List ℕ
  pub scc_order : List (List ℕ)

-- The constructor
unfoldable pub new_components : Graph → SccCollection
new_components g = record {
  scc = 0;
  disc = 0;
  discovery = replicate (length g) 0;
  low_link = replicate (length g) 0;
  on_stack = replicate (length g) false;
  stack = [];
  po_stack = [];
  scc_order = [];
}

-- An element of a vector, which is read or written
unfoldable pub element {ℓ} : {A : Type ℓ} → List A → ℕ → Result A
element xs i = elim (get_elem? xs i) [ none ↦ fail undefined | some v ↦ ok v ]

unfoldable pub assign {ℓ} : {A : Type ℓ} → List A → ℕ → A → Result (List A)
assign xs i v = elim (get_elem? xs i) [ none ↦ fail undefined | some old ↦ ok (set xs i v) ]

unfoldable pub reset_components : SccCollection → SccCollection
reset_components t = record t { scc = 0; disc = 0; scc_order = [] ∷ [] }

-- preVisit
unfoldable pub discover : Node → SccCollection → Result SccCollection
discover n t = assign t.discovery n.id t.disc >>= λ discovery.
    assign t.low_link n.id t.disc >>= λ low_link. assign t.on_stack n.id true >>= λ on_stack.
    ok (record t {
      discovery = discovery;
      low_link = low_link;
      stack = n.id ∷ t.stack;
      on_stack = on_stack;
      disc = suc t.disc;
    })

-- lowLink[id] = min(lowLink[id], low)
unfoldable pub lower : ℕ → ℕ → SccCollection → Result SccCollection
lower id low t = element t.low_link id >>= λ old.
    assign t.low_link id (min old low) >>= λ low_link. ok (record t { low_link = low_link })

-- The loop of postVisit over the links
unfoldable pub lower_links : ℕ → List Link → SccCollection → Result SccCollection
lower_links id [] t = ok t
lower_links id (l ∷ ls) t = element t.discovery id >>= λ own.
    element t.discovery l.target >>= λ other. elim (ltb own other) [
      | true ↦ element t.low_link l.target >>= λ low. lower id low t >>= λ t'. lower_links id ls t'
      | false ↦ lower_links id ls t
    ]

-- The do loop of postVisit: the nodes that leave the stacks, those of poStack in its order.
unfoldable pub unstack :
    ℕ → List ℕ → List ℕ → List ℕ → List Bool → Result (List ℕ × List ℕ × List ℕ × List Bool)
unstack id [] po_stack left on_stack = fail undefined
unstack id (x ∷ stack) [] left on_stack = fail undefined
unstack id (x ∷ stack) (y ∷ po_stack) left on_stack = assign on_stack x false >>= λ on_stack'.
    elim (x == id) [
      | true ↦ ok (stack, po_stack, y ∷ left, on_stack')
      | false ↦ unstack id stack po_stack (y ∷ left) on_stack'
    ]

-- The end of postVisit at the root of a component
unfoldable pub close : FinishType → ℕ → SccCollection → Result SccCollection
close f id t = unstack id t.stack t.po_stack [] t.on_stack >>= λ (stack, po_stack, left, on_stack).
    element t.scc_order t.scc >>= λ order.
    assign t.scc_order t.scc (finish_order f (order ++ left)) >>= λ scc_order. ok (record t {
      stack = stack;
      po_stack = po_stack;
      on_stack = on_stack;
      scc_order = scc_order ++ [] ∷ [];
      scc = suc t.scc;
    })

-- postVisit
unfoldable pub retreat : Direction → FinishType → Node → SccCollection → Result SccCollection
retreat dir f n t = lower_links n.id (get_links dir n) t >>= λ t'.
    let stacked = record t' { po_stack = n.id ∷ t'.po_stack } in
    element t'.discovery n.id >>= λ own. element t'.low_link n.id >>= λ low. elim (own == low) [
      | true ↦ close f n.id stacked
      | false ↦ ok stacked
    ]

-- lateVisit
unfoldable pub revisit : Node → Link → SccCollection → Result SccCollection
revisit n l t = element t.on_stack l.target >>= λ stacked. elim stacked [
  | true ↦ element t.discovery l.target >>= λ other. lower n.id other t
  | false ↦ ok t
]

unfoldable pub drop_last : List (List ℕ) → List (List ℕ)
drop_last [] = []
drop_last (o ∷ []) = []
drop_last (o ∷ p ∷ os) = o ∷ drop_last (p ∷ os)

unfoldable pub reversed_components : List (List ℕ) → List (List ℕ)
reversed_components [] = []
reversed_components (o ∷ os) = reversed_components os ++ o ∷ []

unfoldable pub finish_components : FinishType → SccCollection → SccCollection
finish_components empty t = record t { scc_order = drop_last t.scc_order }
finish_components reverse t = record t { scc_order = reversed_components (drop_last t.scc_order) }

unfoldable pub component_collector : Direction → FinishType → Collector SccCollection
component_collector dir f = record {
  reset = reset_components;
  tick = λ t. t;
  pre_visit = discover;
  post_visit = retreat dir f;
  late_visit = revisit;
  finish = finish_components f;
}

-- OrderOnCFG with a SccCollection: gen and get
unfoldable pub gen_components : Direction → FinishType → Graph → ℕ → Result (List (List ℕ))
gen_components dir f g id =
    walk (component_collector dir f) g dir id (new_components g) >>= λ t. ok t.scc_order

-- The loop of the pruned isReachable: the root of what is being pruned, if any.
unfoldable pub find_unpruned : (ℕ → ℕ → ℕ → Bool) → ℕ → ℕ → Option ℕ → List ℕ → Bool
find_unpruned prune src dest pruning [] = false
find_unpruned prune src dest (some root) (n ∷ ns) =
    find_unpruned prune src dest (if n == root then none else some root) ns
find_unpruned prune src dest none (n ∷ ns) =
    let rest = find_unpruned prune src dest (if prune n src dest then some n else none) ns in
    if n == dest then true else rest

-- isReachable with a PruneType
unfoldable pub is_reachable_pruned : (ℕ → ℕ → ℕ → Bool) → Graph → ℕ → ℕ → Result Bool
is_reachable_pruned prune g src dest = gen pre_postorder empty forward g src >>= λ orders.
    first_order orders >>= λ order. ok (find_unpruned prune src dest none order)
