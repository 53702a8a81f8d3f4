-- ===== src/Analysis/Dominance.antt =====
-- src/analysis/dominance.cpp: the immediate dominators of a control flow graph, as Cooper, Harvey and
-- Kennedy compute them. The id -1 is `none`.
pub mod Meet
pub mod Merge
pub mod Update
pub mod Pass
pub mod Dominators
pub mod Numbers
pub mod Settle
pub mod Entry
use egalito.Base.{
  ℕ, zero, suc, ◌+◌, Bool, true, false, ◌||◌, List, [], ◌∷◌, Option, none, some, get_elem?, set,
  length, ltb, ◌==◌, replicate, if◌then◌else◌,
}
use egalito.Base.Result.{Result, ok, fail, undefined, out_of_fuel, ◌>>=◌}
use egalito.Analysis.Graph.{Graph, Node, Link, node_at, forward, backward}
use egalito.Analysis.Walker.{preorder, postorder, empty, reverse, gen, first_order}

pub record Dominance : Type 0 where
  pub idoms : List (Option ℕ)
  pub id_map : List (Option ℕ)

-- An element of a vector, which is read or written
unfoldable pub read : List (Option ℕ) → ℕ → Result (Option ℕ)
read xs i = elim (get_elem? xs i) [ none ↦ fail undefined | some v ↦ ok v ]

unfoldable pub write : List (Option ℕ) → ℕ → Option ℕ → Result (List (Option ℕ))
write xs i v = elim (get_elem? xs i) [ none ↦ fail undefined | some old ↦ ok (set xs i v) ]

-- The test a > b
unfoldable pub is_later : Option ℕ → Option ℕ → Bool
is_later none b = false
is_later (some a) none = true
is_later (some a) (some b) = ltb b a

unfoldable pub same_id : Option ℕ → Option ℕ → Bool
same_id none none = true
same_id none (some b) = false
same_id (some a) none = false
same_id (some a) (some b) = a == b

-- An inner loop of intersect: a finger goes up while it is later than the other.
unfoldable pub climb : ℕ → Dominance → ℕ → ℕ → Result ℕ
climb zero d finger other = fail out_of_fuel
climb (suc fuel) d finger other = read d.idoms finger >>= λ up. elim up [
  | none ↦ ok finger
  | some idom ↦ read d.id_map finger >>= λ a. read d.id_map other >>= λ b. elim (is_later a b) [
    | true ↦ climb fuel d idom other
    | false ↦ ok finger
  ]
]

-- The outer loop of intersect, each of whose rounds ends with both fingers' climbs
unfoldable pub approach : ℕ → Dominance → ℕ → ℕ → Result ℕ
approach zero d finger1 finger2 = fail out_of_fuel
approach (suc rounds) d finger1 finger2 = elim (finger1 == finger2) [
  | true ↦ ok finger1
  | false ↦ read d.idoms finger1 >>= λ idom1. elim idom1 [
    | none ↦ ok finger2
    | some i ↦ read d.idoms finger2 >>= λ idom2. elim idom2 [
      | none ↦ ok finger1
      | some j ↦ climb (suc (length d.idoms)) d finger1 finger2 >>= λ f1.
          climb (suc (length d.idoms)) d finger2 f1 >>= λ f2. approach rounds d f1 f2
    ]
  ]
]

unfoldable pub intersect : Dominance → ℕ → ℕ → Result ℕ
intersect d i1 i2 = approach (suc (length d.idoms + length d.idoms)) d i1 i2

-- The loop over the predecessors of a node; the flag `first` is that idom is -1.
unfoldable pub merge : Dominance → Option ℕ → List Link → Result (Option ℕ)
merge d idom [] = ok idom
merge d idom (l ∷ ls) = read d.idoms l.target >>= λ known. elim known [
  | none ↦ merge d idom ls
  | some i ↦ (elim idom [ none ↦ ok l.target | some j ↦ intersect d l.target j ]) >>= λ j.
      merge d (some j) ls
]

-- The body of the loop over the order, with whether an immediate dominator has changed.
unfoldable pub update : Graph → ℕ → Dominance → Result (Dominance × Bool)
update g id d = elim (id == 0) [
  | true ↦ write d.idoms 0 (some 0) >>= λ idoms. ok (record d { idoms = idoms }, false)
  | false ↦ node_at g id >>= λ n. merge d none n.reverse_links >>= λ idom.
      read d.idoms id >>= λ old. elim (same_id old idom) [
        | true ↦ ok (d, false)
        | false ↦ write d.idoms id idom >>= λ idoms. ok (record d { idoms = idoms }, true)
      ]
]

-- The loop over the order
unfoldable pub pass : Graph → List ℕ → Dominance → Bool → Result (Dominance × Bool)
pass g [] d changed = ok (d, changed)
pass g (id ∷ ids) d changed = update g id d >>= λ (d', c). pass g ids d' (changed || c)

-- idMap[order[i]] = i, from some i on
unfoldable pub number_ids : ℕ → List ℕ → List (Option ℕ) → Result (List (Option ℕ))
number_ids i [] id_map = ok id_map
number_ids i (id ∷ order) id_map =
    write id_map id (some i) >>= λ id_map'. number_ids (suc i) order id_map'

-- while(changed), with fuel for the passes
unfoldable pub settle : ℕ → Graph → List ℕ → Dominance → Result Dominance
settle zero g order d = fail out_of_fuel
settle (suc passes) g order d = pass g order d false >>= λ (d', changed). elim changed [
  | true ↦ settle passes g order d'
  | false ↦ ok d'
]

-- Dominance::Dominance up to the passes, without the order of the components, which it only logs: the
-- order of the nodes and the first state.
unfoldable pub start : Graph → Result (List ℕ × Dominance)
start g = gen postorder reverse forward g 0 >>= λ orders. first_order orders >>= λ order.
    number_ids 0 order (replicate (length g) none) >>= λ id_map.
    ok (order, record { idoms = replicate (length g) none; id_map = id_map })

-- Dominance::Dominance
unfoldable pub new_dominance : ℕ → Graph → Result Dominance
new_dominance passes g = start g >>= λ (order, d). settle passes g order d

unfoldable pub collect_dominators : ℕ → Dominance → ℕ → Result (List ℕ)
collect_dominators zero d id = fail out_of_fuel
collect_dominators (suc fuel) d id = elim (id == 0) [
  | true ↦ ok (0 ∷ [])
  | false ↦ read d.idoms id >>= λ idom. elim idom [
    | none ↦ fail undefined
    | some i ↦ collect_dominators fuel d i >>= λ doms. ok (id ∷ doms)
  ]
]

-- A node without an immediate dominator makes the loop read idoms[-1].
unfoldable pub get_dominators : Dominance → ℕ → Result (List ℕ)
get_dominators d id = collect_dominators (suc (length d.idoms)) d id

-- std::set_intersection
unfoldable pub set_intersection : ℕ → List ℕ → List ℕ → Result (List ℕ)
set_intersection zero xs ys = fail out_of_fuel
set_intersection (suc fuel) [] ys = ok []
set_intersection (suc fuel) (x ∷ xs) [] = ok []
set_intersection (suc fuel) (x ∷ xs) (y ∷ ys) = elim (ltb x y) [
  | true ↦ set_intersection fuel xs (y ∷ ys)
  | false ↦ elim (ltb y x) [
    | true ↦ set_intersection fuel (x ∷ xs) ys
    | false ↦ set_intersection fuel xs ys >>= λ v. ok (x ∷ v)
  ]
]

-- std::sort
unfoldable pub insert_sorted : ℕ → List ℕ → List ℕ
insert_sorted x [] = x ∷ []
insert_sorted x (y ∷ ys) = let rest = insert_sorted x ys in if ltb y x then y ∷ rest else x ∷ y ∷ ys

unfoldable pub sort : List ℕ → List ℕ
sort [] = []
sort (x ∷ xs) = insert_sorted x (sort xs)

-- The nodes of the order without links
unfoldable pub exit_nodes : Graph → List ℕ → Result (List ℕ)
exit_nodes g [] = ok []
exit_nodes g (id ∷ ids) = node_at g id >>= λ n.
    exit_nodes g ids >>= λ exits. ok (elim n.links [ [] ↦ n.id ∷ exits | l ∷ ls ↦ exits ])

unfoldable pub cap : List ℕ → List ℕ → Result (List ℕ)
cap v1 v2 = set_intersection (suc (length v1 + length v2)) v1 v2

unfoldable pub intersect_all : Dominance → List ℕ → List ℕ → Result (List ℕ)
intersect_all d pdom [] = ok pdom
intersect_all d pdom (exit ∷ exits) = get_dominators d exit >>= λ pdom2.
    cap pdom (sort pdom2) >>= λ v. elim v [ [] ↦ ok [] | x ∷ xs ↦ intersect_all d (x ∷ xs) exits ]

-- getPostDominators, whose argument is not used, with the changed object.
unfoldable pub get_post_dominators : Graph → Dominance → ℕ → Result (List ℕ × Dominance)
get_post_dominators g d id = gen preorder empty forward g 0 >>= λ orders.
    first_order orders >>= λ order. number_ids 0 order d.id_map >>= λ id_map.
    exit_nodes g order >>= λ exits. elim exits [
      | [] ↦ ok ([], record d { id_map = id_map })
      | exit ∷ others ↦ get_dominators d exit >>= λ pdom.
          intersect_all d pdom others >>= λ v. ok (v, record d { id_map = id_map })
    ]
