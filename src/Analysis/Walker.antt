-- ===== src/Analysis/Walker.antt =====
-- src/analysis/walker.h: DFSWalkerBase, which visits a graph depth first and tells a collector, and
-- the collector NodeCollection, which lists nodes in the order of a visit. Reading or writing past the
-- end of a vector is undefined. The recursion takes fuel.
pub mod Trace
pub mod Ends
pub mod Orders
pub mod Closure
pub mod Reachable
use egalito.Base.{
  ℕ, zero, suc, ◌+◌, ◌-◌, Bool, true, false, not, ◌||◌, List, [], ◌∷◌, ◌++◌, Option, none, some,
  get_elem?, set, length, replicate, ltb, ◌==◌, if◌then◌else◌,
}
use egalito.Base.Result.{Result, ok, fail, undefined, out_of_fuel, ◌>>=◌}
use egalito.Analysis.Graph.{Graph, Node, Link, Direction, forward, backward, get_links, node_at}

-- The class that the walker is derived by.
pub record Collector (S : Type 0) : Type 0 where
  pub reset : S → S
  pub tick : S → S
  pub pre_visit : Node → S → Result S
  pub post_visit : Node → S → Result S
  pub late_visit : Node → Link → S → Result S
  pub finish : S → S

pub record State (S : Type 0) : Type 0 where
  pub visited : List Bool
  pub collected : S

-- visited[id]
unfoldable pub is_visited : List Bool → ℕ → Result Bool
is_visited v i = elim (get_elem? v i) [ none ↦ fail undefined | some b ↦ ok b ]

-- visited[id] = true
unfoldable pub mark : ℕ → List Bool → Result (List Bool)
mark i v = if ltb i (length v) then ok (set v i true) else fail undefined

module _ {S : Type 0} (c : Collector S) where
  -- The loop of walkHelper over the links of a node, given the recursive call.
  unfoldable pub walk_links :
      (ℕ → State S → Result (State S)) → Node → List Link → State S → Result (State S)
  walk_links walk n [] s = ok s
  walk_links walk n (l ∷ ls) s = is_visited s.visited l.target >>= λ seen.
      let late = c.late_visit n l s.collected >>= λ t. ok (record s { collected = t }) in
      let deeper = walk l.target s in
      (if seen then late else deeper) >>= λ s'. walk_links walk n ls s'

  unfoldable pub walk_helper : Graph → Direction → ℕ → ℕ → State S → Result (State S)
  walk_helper g dir zero id s = fail out_of_fuel
  walk_helper g dir (suc fuel) id s = mark id s.visited >>= λ v. node_at g id >>= λ n.
      c.pre_visit n s.collected >>= λ t.
      walk_links (walk_helper g dir fuel) n (get_links dir n)
        (record { visited = v; collected = t })
      >>= λ s'. c.post_visit n s'.collected >>= λ u. ok (record s' { collected = u })

  unfoldable pub walk : Graph → Direction → ℕ → S → Result S
  walk g dir id t =
      walk_helper g dir (suc (length g)) id
        (record { visited = replicate (length g) false; collected = c.reset t })
      >>= λ s. ok (c.finish s.collected)

  -- The loop of walkAll, from i on.
  unfoldable pub walk_rest : Graph → Direction → ℕ → ℕ → State S → Result (State S)
  walk_rest g dir zero i s = ok s
  walk_rest g dir (suc left) i s = is_visited s.visited i >>= λ seen.
      let ticked = record s { collected = c.tick s.collected } in
      (if seen then ok s else walk_helper g dir (suc (length g)) i ticked) >>= λ s'.
      walk_rest g dir left (suc i) s'

  unfoldable pub walk_all : Graph → Direction → ℕ → S → Result S
  walk_all g dir id t =
      walk_helper g dir (suc (length g)) id
        (record { visited = replicate (length g) false; collected = c.reset t })
      >>= λ s. walk_rest g dir (length g - 1) 1 s >>= λ s'. ok (c.finish s'.collected)

-- PreorderVisitor, PostorderVisitor and PrePostorderVisitor
pub data VisitType : Type 0 where
  preorder : VisitType
  postorder : VisitType
  pre_postorder : VisitType

-- EmptyFinisher and ReverseFinisher
pub data FinishType : Type 0 where
  empty : FinishType
  reverse : FinishType

unfoldable pub pre_visit : VisitType → ℕ → List ℕ → List ℕ
pre_visit preorder id order = order ++ id ∷ []
pre_visit postorder id order = order
pre_visit pre_postorder id order = order ++ id ∷ []

unfoldable pub post_visit : VisitType → ℕ → List ℕ → List ℕ
post_visit preorder id order = order
post_visit postorder id order = order ++ id ∷ []
post_visit pre_postorder id order = order ++ id ∷ []

unfoldable pub reversed : List ℕ → List ℕ
reversed [] = []
reversed (x ∷ xs) = reversed xs ++ x ∷ []

unfoldable pub finish_order : FinishType → List ℕ → List ℕ
finish_order empty order = order
finish_order reverse order = reversed order

unfoldable pub finish_orders : FinishType → List (List ℕ) → List (List ℕ)
finish_orders f [] = []
finish_orders f (o ∷ os) = finish_order f o ∷ finish_orders f os

-- NodeCollection
pub record NodeCollection : Type 0 where
  pub order : List (List ℕ)
  pub lap : ℕ

-- The constructor
abbrev pub new_collection : Graph → NodeCollection
new_collection g = record { order = replicate (length g) []; lap = 0 }

-- A visit changes order[lap].
unfoldable pub change_lap : (List ℕ → List ℕ) → NodeCollection → Result NodeCollection
change_lap f t = elim (get_elem? t.order t.lap) [
  | none ↦ fail undefined
  | some o ↦ ok (record t { order = set t.order t.lap (f o) })
]

unfoldable pub node_collector : VisitType → FinishType → Collector NodeCollection
node_collector v f = record {
  reset = λ t. record { order = [] ∷ []; lap = 0 };
  tick = λ t. record { order = t.order ++ [] ∷ []; lap = suc t.lap };
  pre_visit = λ n t. change_lap (pre_visit v n.id) t;
  post_visit = λ n t. change_lap (post_visit v n.id) t;
  late_visit = λ n l t. ok t;
  finish = λ t. record t { order = finish_orders f t.order };
}

-- OrderOnCFG with a NodeCollection: gen, genFull and get
unfoldable pub gen : VisitType → FinishType → Direction → Graph → ℕ → Result (List (List ℕ))
gen v f dir g id = walk (node_collector v f) g dir id (new_collection g) >>= λ t. ok t.order

unfoldable pub gen_full : VisitType → FinishType → Direction → Graph → ℕ → Result (List (List ℕ))
gen_full v f dir g id =
    walk_all (node_collector v f) g dir id (new_collection g) >>= λ t. ok t.order

-- get()[0]
unfoldable pub first_order : List (List ℕ) → Result (List ℕ)
first_order [] = fail undefined
first_order (o ∷ os) = ok o

unfoldable pub contains : ℕ → List ℕ → Bool
contains x [] = false
contains x (y ∷ ys) = let rest = contains x ys in if y == x then true else rest

-- isReachable with the order Preorder
unfoldable pub is_reachable : Graph → ℕ → ℕ → Result Bool
is_reachable g src dest =
    gen preorder empty forward g src >>= λ o. first_order o >>= λ order. ok (contains dest order)
