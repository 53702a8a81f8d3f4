-- ===== src/Analysis/ControlFlow/Blocks.antt =====
-- The edges of the blocks in a mirrored graph.
use egalito.Base.{
  ℕ, zero, suc, ◌<◌, ◌≡◌, refl, ap, subst, Bool, true, false, List, [], ◌∷◌, Option, none, some,
  arith, get_elem?, if◌then◌else◌,
}
use egalito.Base.Result.{Result, ok, Returns, bind-Returns}
use egalito.Analysis.Graph.{Graph}
use egalito.Analysis.Walker.{contains}
use egalito.Analysis.ControlFlow.{
  Target, to_block, to_instruction, elsewhere, Semantic, control_flow, indirect_jump, returning,
  breaking, plain, jmp, callq, another, Block, get_last, find_id, asserted, index_of, add_inside,
  add_target, add_entry, add_entries, add_tables, falls_through, add_jumps, add_next, next_block,
  construct_block, construct_blocks, has_address, target_address,
}
use egalito.Analysis.ControlFlow.Mirror.{IsMirrored, add_edge-IsMirrored}

-- A target that is a block is a block of the function.
abbrev pub TargetInside : List ℕ → Option Target → Type 0
TargetInside function none = Unit
TargetInside function (some (to_block b a)) = contains b function ≡ true
TargetInside function (some (to_instruction p a)) = Unit
TargetInside function (some (elsewhere a)) = Unit

abbrev pub JumpsInside : List ℕ → Semantic → Type 0
JumpsInside function (control_flow jmp r t) = TargetInside function t
JumpsInside function (control_flow callq r t) = Unit
JumpsInside function (control_flow another r t) = TargetInside function t
JumpsInside function (indirect_jump m t ts) = Unit
JumpsInside function returning = Unit
JumpsInside function breaking = Unit
JumpsInside function plain = Unit

-- What the construction demands of a block: an instruction, whose jump to a block stays inside.
abbrev pub IsReady : (ℕ → Block) → List ℕ → ℕ → Type 0
IsReady block function b =
    Returns (get_last (block b).children) (λ i. JumpsInside function i.semantic)

contains-head : (b : ℕ) (bs : List ℕ) → contains b (b ∷ bs) ≡ true
unfolding contains
contains-head b bs = ground arith

contains-tail : (c b : ℕ) (bs : List ℕ) → contains c bs ≡ true → contains c (b ∷ bs) ≡ true
unfolding contains
contains-tail c b bs h = ground (arith, h)

get_elem?-contains : (bs : List ℕ) (i c : ℕ) → get_elem? bs i ≡ some c → contains c bs ≡ true
get_elem?-contains [] i c e = absurd (ground (arith, e))
get_elem?-contains (b ∷ bs) zero c e =
    subst (λ x. contains x (b ∷ bs) ≡ true) (ground (arith, e)) (contains-head b bs)
get_elem?-contains (b ∷ bs) (suc i) c e = contains-tail c b bs (get_elem?-contains bs i c e)

module _ (k : ℕ) (block : ℕ → Block) (function : List ℕ) (mapping : List (ℕ × ℕ))
    (below : (b i : ℕ) → find_id b mapping ≡ some i → i < k)
    (known : (b : ℕ) → contains b function ≡ true → (i : ℕ) × (find_id b mapping ≡ some i)) where
  asserted-known :
      (b : ℕ) → contains b function ≡ true → Returns (asserted (find_id b mapping)) (λ i. i < k)
  unfolding asserted
  asserted-known b h = let (i, e) = known b h in (i, ap asserted e, below b i e)

  add_inside-IsMirrored :
      (id back parent address : ℕ) (other : Option ℕ) (g : Graph)
      → id < k
      → ((i : ℕ) → other ≡ some i → i < k)
      → IsMirrored k g
      → Returns (add_inside block function mapping id back parent address other g) (IsMirrored k)
  unfolding add_inside
  add_inside-IsMirrored id back parent address none g h b m = (g, refl, m)
  add_inside-IsMirrored id back parent address (some other) g h b m =
      add_edge-IsMirrored k id other _ back true g m h (b other refl)

  add_target-IsMirrored :
      (id back : ℕ) (target : Option Target) (g : Graph)
      → id < k
      → TargetInside function target
      → IsMirrored k g
      → Returns (add_target block function mapping id back target g) (IsMirrored k)
  unfolding add_target
  add_target-IsMirrored id back none g h inside m = (g, refl, m)
  add_target-IsMirrored id back (some (to_block b a)) g h inside m =
      bind-Returns _ _ (asserted-known b inside)
        (λ other below-other. add_edge-IsMirrored k id other 0 back true g m h below-other)
  add_target-IsMirrored id back (some (to_instruction p a)) g h inside m =
      add_inside-IsMirrored id back p a (find_id p mapping) g h (below p) m
  add_target-IsMirrored id back (some (elsewhere a)) g h inside m = (g, refl, m)

  add_entry-IsMirrored :
      (id back : ℕ) (target : Target) (g : Graph)
      → id < k
      → IsMirrored k g
      → Returns (add_entry block function mapping id back target g) (IsMirrored k)
  unfolding add_entry
  add_entry-IsMirrored id back (to_block b a) g h m = (g, refl, m)
  add_entry-IsMirrored id back (to_instruction p a) g h m =
      add_inside-IsMirrored id back p a (find_id p mapping) g h (below p) m
  add_entry-IsMirrored id back (elsewhere a) g h m = (g, refl, m)

  choice-Returns :
      (seen : Bool) (r : Result Graph) (g : Graph)
      → IsMirrored k g
      → Returns r (IsMirrored k)
      → Returns (if seen then ok g else r) (IsMirrored k)
  choice-Returns true r g m p = (g, refl, m)
  choice-Returns false r g m p = p

  add_entries-IsMirrored :
      (id back : ℕ) (added : List ℕ) (entries : List (Option Target)) (g : Graph)
      → id < k
      → IsMirrored k g
      → Returns (add_entries block function mapping id back added entries g) (IsMirrored k)
  unfolding add_entries
  add_entries-IsMirrored id back added [] g h m = (g, refl, m)
  add_entries-IsMirrored id back added (none ∷ entries) g h m =
      add_entries-IsMirrored id back added entries g h m
  add_entries-IsMirrored id back added (some t ∷ entries) g h m =
      let seen = has_address (target_address t) added in
      bind-Returns _
        (λ g'.
          add_entries block function mapping id back
            (if seen then added else target_address t ∷ added) entries g')
        (choice-Returns seen _ g m (add_entry-IsMirrored id back t g h m))
        (λ g' m'.
          add_entries-IsMirrored id back (if seen then added else target_address t ∷ added) entries
            g' h m')

  add_tables-IsMirrored :
      (id back : ℕ) (tables : List (List (Option Target))) (g : Graph)
      → id < k
      → IsMirrored k g
      → Returns (add_tables block function mapping id back tables g) (IsMirrored k)
  unfolding add_tables
  add_tables-IsMirrored id back [] g h m = (g, refl, m)
  add_tables-IsMirrored id back (table ∷ tables) g h m =
      bind-Returns _ _ (add_entries-IsMirrored id back [] table g h m)
        (λ g' m'. add_tables-IsMirrored id back tables g' h m')

  tables-Returns :
      (tabled : Bool) (r : Result Graph) (g : Graph)
      → IsMirrored k g
      → Returns r (IsMirrored k)
      → Returns (if tabled then r else ok g) (IsMirrored k)
  tables-Returns true r g m p = p
  tables-Returns false r g m p = (g, refl, m)

  add_jumps-IsMirrored :
      (id back : ℕ) (s : Semantic) (g : Graph)
      → id < k
      → JumpsInside function s
      → IsMirrored k g
      → Returns (add_jumps block function mapping id back s g) (IsMirrored k)
  unfolding add_jumps
  add_jumps-IsMirrored id back (control_flow callq r t) g h inside m = (g, refl, m)
  add_jumps-IsMirrored id back (control_flow jmp r t) g h inside m =
      add_target-IsMirrored id back t g h inside m
  add_jumps-IsMirrored id back (control_flow another r t) g h inside m =
      add_target-IsMirrored id back t g h inside m
  add_jumps-IsMirrored id back (indirect_jump callq tabled ts) g h inside m = (g, refl, m)
  add_jumps-IsMirrored id back (indirect_jump jmp tabled ts) g h inside m =
      tables-Returns tabled _ g m (add_tables-IsMirrored id back ts g h m)
  add_jumps-IsMirrored id back (indirect_jump another tabled ts) g h inside m =
      tables-Returns tabled _ g m (add_tables-IsMirrored id back ts g h m)
  add_jumps-IsMirrored id back returning g h inside m = (g, refl, m)
  add_jumps-IsMirrored id back breaking g h inside m = (g, refl, m)
  add_jumps-IsMirrored id back plain g h inside m = (g, refl, m)

  add_next-IsMirrored :
      (id back : ℕ) (next : Option ℕ) (g : Graph)
      → id < k
      → ((b : ℕ) → next ≡ some b → contains b function ≡ true)
      → IsMirrored k g
      → Returns (add_next block function mapping id back next g) (IsMirrored k)
  unfolding add_next
  add_next-IsMirrored id back none g h inside m = (g, refl, m)
  add_next-IsMirrored id back (some b) g h inside m =
      bind-Returns _ _ (asserted-known b (inside b refl))
        (λ other below-other. add_edge-IsMirrored k id other 0 back false g m h below-other)

  next_block-inside :
      (b c : ℕ) → next_block block function mapping b ≡ some c → contains c function ≡ true
  unfolding next_block
  next_block-inside b c e = at (index_of b function) e
    where
      at :
          (o : Option ℕ)
          → (elim o [ none ↦ get_elem? function 0 | some i ↦ get_elem? function (suc i) ]) ≡ some c
          → contains c function ≡ true
      at none e = get_elem?-contains function 0 c e
      at (some i) e = get_elem?-contains function (suc i) c e

  construct_block-IsMirrored :
      (b : ℕ) (g : Graph)
      → contains b function ≡ true
      → IsReady block function b
      → IsMirrored k g
      → Returns (construct_block block function mapping b g) (IsMirrored k)
  unfolding construct_block
  construct_block-IsMirrored b g inside ready m =
      bind-Returns _ _ (asserted-known b inside) (λ id h. bind-Returns _ _ ready (λ i jumps.
        bind-Returns _ _ (add_jumps-IsMirrored id _ i.semantic g h jumps m) (λ g' m'.
          tables-Returns (falls_through i.semantic) _ g' m' (
            add_next-IsMirrored id _ (next_block block function mapping b) g' h
              (next_block-inside b) m'))))

  pub construct_blocks-IsMirrored :
      (bs : List ℕ) (g : Graph)
      → ((b : ℕ) → contains b bs ≡ true → contains b function ≡ true)
      → ((b : ℕ) → contains b function ≡ true → IsReady block function b)
      → IsMirrored k g
      → Returns (construct_blocks block function mapping bs g) (IsMirrored k)
  unfolding construct_blocks
  construct_blocks-IsMirrored [] g inside ready m = (g, refl, m)
  construct_blocks-IsMirrored (b ∷ bs) g inside ready m =
      let b-inside = inside b (contains-head b bs) in
      bind-Returns _ _ (construct_block-IsMirrored b g b-inside (ready b b-inside) m) (λ g' m'.
        construct_blocks-IsMirrored bs g' (λ c h. inside c (contains-tail c b bs h)) ready m')
