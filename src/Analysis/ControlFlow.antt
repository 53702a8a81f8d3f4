-- ===== src/Analysis/ControlFlow.antt =====
-- src/analysis/controlflow.cpp for x86_64: the control flow graph of a function, whose nodes are its
-- blocks. Of the last instruction of a block its semantic counts. Offsets are ints, given by their
-- 32-bit pattern.
pub mod Mirror
pub mod Blocks
pub mod Numbering
pub mod Construction
use egalito.Base.{
  ℕ, zero, suc, ◌+◌, ◌-◌, ◌%◌, ◌^◌, Bool, true, false, List, [], ◌∷◌, ◌++◌, Option, none, some,
  get_elem?, set, length, ltb, ◌==◌, if◌then◌else◌,
}
use egalito.Base.Result.{Result, ok, fail, undefined, null_pointer, assertion, ◌>>=◌}
use egalito.Analysis.Graph.{Graph, Node, Link, add_link, add_reverse_link}

-- What a link leads to: a block, an instruction in a block, or something else; with its address.
pub data Target : Type 0 where
  to_block : ℕ → ℕ → Target
  to_instruction : ℕ → ℕ → Target
  elsewhere : ℕ → Target

-- The mnemonics that the code tests.
pub data Mnemonic : Type 0 where
  jmp : Mnemonic
  callq : Mnemonic
  another : Mnemonic

-- The classes of semantics that the code tells apart, with what it reads of them: the mnemonic,
-- whether a call returns and where the link leads, if anywhere; and whether an indirect jump is for
-- jump tables, and the links of their entries.
pub data Semantic : Type 0 where
  control_flow : Mnemonic → Bool → Option Target → Semantic
  indirect_jump : Mnemonic → Bool → List (List (Option Target)) → Semantic
  returning : Semantic
  breaking : Semantic
  plain : Semantic

pub record Instruction : Type 0 where
  pub address : ℕ
  pub semantic : Semantic

pub record Block : Type 0 where
  pub address : ℕ
  pub children : List Instruction

-- An address_t that is converted to an int
abbrev pub to_int : ℕ → ℕ
to_int a = a % 2 ^ 32

abbrev pub difference : ℕ → ℕ → ℕ
difference a b = (2 ^ 64 + a - b) % 2 ^ 64

unfoldable pub get_last : List Instruction → Result Instruction
get_last [] = fail null_pointer
get_last (i ∷ []) = ok i
get_last (i ∷ j ∷ is) = get_last (j ∷ is)

-- blockMapping
unfoldable pub find_id : ℕ → List (ℕ × ℕ) → Option ℕ
find_id b [] = none
find_id b ((c, i) ∷ entries) = let rest = find_id b entries in if c == b then some i else rest

-- The first loop of construct: the nodes and the mapping.
unfoldable pub add_nodes : ℕ → List ℕ → Graph → List (ℕ × ℕ) → Graph × List (ℕ × ℕ)
add_nodes count [] g mapping = (g, mapping)
add_nodes count (b ∷ bs) g mapping =
    add_nodes (suc count) bs
      (g ++ record { id = count; block = b; links = []; reverse_links = [] } ∷ [])
      ((b, count) ∷ mapping)

-- graph[id], which is changed
unfoldable pub change_node : ℕ → (Node → Node) → Graph → Result Graph
change_node id f g = elim (get_elem? g id) [ none ↦ fail undefined | some n ↦ ok (set g id (f n)) ]

-- addLink and addReverseLink for one edge
unfoldable pub add_edge : ℕ → ℕ → ℕ → ℕ → Bool → Graph → Result Graph
add_edge id other offset reverse_offset follow g =
    change_node id (add_link (record { target = other; offset = offset; follow_jump = follow })) g
    >>= λ g'.
        change_node other
          (add_reverse_link (record { target = id; offset = reverse_offset; follow_jump = follow }))
          g'

-- The index of a block of the function, which an assert demands
unfoldable pub asserted : Option ℕ → Result ℕ
asserted none = fail assertion
asserted (some i) = ok i

-- indexOf in the function's list of blocks
unfoldable pub index_of : ℕ → List ℕ → Option ℕ
index_of b [] = none
index_of b (c ∷ cs) =
    let rest = index_of b cs in
    if c == b then some 0 else elim rest [ none ↦ none | some i ↦ some (suc i) ]

unfoldable pub has_address : ℕ → List ℕ → Bool
has_address a [] = false
has_address a (b ∷ bs) = let rest = has_address a bs in if b == a then true else rest

abbrev pub target_address : Target → ℕ
target_address (to_block b a) = a
target_address (to_instruction p a) = a
target_address (elsewhere a) = a

unfoldable pub falls_through : Semantic → Bool
falls_through (control_flow jmp returns target) = false
falls_through (control_flow callq returns target) = returns
falls_through (control_flow another returns target) = true
falls_through (indirect_jump callq tabled tables) = true
falls_through (indirect_jump _ tabled tables) = false
falls_through returning = false
falls_through breaking = false
falls_through plain = true

module _ (block : ℕ → Block) (function : List ℕ) (mapping : List (ℕ × ℕ)) where
  -- An edge to the block of an instruction, if that is in the function.
  unfoldable pub add_inside : ℕ → ℕ → ℕ → ℕ → Option ℕ → Graph → Result Graph
  add_inside id back parent address none g = ok g
  add_inside id back parent address (some other) g =
      add_edge id other (to_int (difference address (block parent).address)) back true g

  -- The target of a jump.
  unfoldable pub add_target : ℕ → ℕ → Option Target → Graph → Result Graph
  add_target id back none g = ok g
  add_target id back (some (to_block b a)) g =
      asserted (find_id b mapping) >>= λ other. add_edge id other 0 back true g
  add_target id back (some (to_instruction parent a)) g =
      add_inside id back parent a (find_id parent mapping) g
  add_target id back (some (elsewhere a)) g = ok g

  -- The target of an entry of a jump table.
  unfoldable pub add_entry : ℕ → ℕ → Target → Graph → Result Graph
  add_entry id back (to_instruction parent a) g =
      add_inside id back parent a (find_id parent mapping) g
  add_entry id back (to_block b a) g = ok g
  add_entry id back (elsewhere a) g = ok g

  -- The loop over the entries of a jump table, with the addresses that were added.
  unfoldable pub add_entries : ℕ → ℕ → List ℕ → List (Option Target) → Graph → Result Graph
  add_entries id back added [] g = ok g
  add_entries id back added (none ∷ entries) g = add_entries id back added entries g
  add_entries id back added (some t ∷ entries) g =
      let seen = has_address (target_address t) added in
      (if seen then ok g else add_entry id back t g) >>= λ g'.
      add_entries id back (if seen then added else target_address t ∷ added) entries g'

  unfoldable pub add_tables : ℕ → ℕ → List (List (Option Target)) → Graph → Result Graph
  add_tables id back [] g = ok g
  add_tables id back (table ∷ tables) g =
      add_entries id back [] table g >>= λ g'. add_tables id back tables g'

  unfoldable pub add_jumps : ℕ → ℕ → Semantic → Graph → Result Graph
  add_jumps id back (control_flow callq returns target) g = ok g
  add_jumps id back (control_flow jmp returns target) g = add_target id back target g
  add_jumps id back (control_flow another returns target) g = add_target id back target g
  add_jumps id back (indirect_jump callq tabled tables) g = ok g
  add_jumps id back (indirect_jump jmp tabled tables) g =
      if tabled then add_tables id back tables g else ok g
  add_jumps id back (indirect_jump another tabled tables) g =
      if tabled then add_tables id back tables g else ok g
  add_jumps id back returning g = ok g
  add_jumps id back breaking g = ok g
  add_jumps id back plain g = ok g

  -- The edge to the next block, if there is one.
  unfoldable pub add_next : ℕ → ℕ → Option ℕ → Graph → Result Graph
  add_next id back none g = ok g
  add_next id back (some b) g =
      asserted (find_id b mapping) >>= λ other. add_edge id other 0 back false g

  unfoldable pub next_block : ℕ → Option ℕ
  next_block b = elim (index_of b function) [
    | none ↦ get_elem? function 0
    | some i ↦ get_elem? function (suc i)
  ]

  unfoldable pub construct_block : ℕ → Graph → Result Graph
  construct_block b g = asserted (find_id b mapping) >>= λ id. get_last (block b).children >>= λ i.
      let back = to_int (difference i.address (block b).address) in
      add_jumps id back i.semantic g >>= λ g'.
      (if falls_through i.semantic then add_next id back (next_block b) g' else ok g')

  unfoldable pub construct_blocks : List ℕ → Graph → Result Graph
  construct_blocks [] g = ok g
  construct_blocks (b ∷ bs) g = construct_block b g >>= λ g'. construct_blocks bs g'

-- ControlFlowGraph::ControlFlowGraph
unfoldable pub construct : (ℕ → Block) → List ℕ → Result Graph
construct block function =
    let (g, mapping) = add_nodes 0 function [] [] in
    construct_blocks block function mapping function g
