-- ===== src/Mutator/Splits.antt =====
-- src/operation/mutator.cpp: splitBlockBefore, and the insertion of several instructions without a
-- jump to them. A new Block is an entry of the store that the caller names.
use egalito.Base.{
  ℕ, suc, ◌+◌, ◌-◌, ◌%◌, ◌^◌, false, List, [], ◌∷◌, Option, none, some, length, drop,
}
use egalito.Base.Result.{Result, ok, fail, null_pointer, ◌>>=◌}
use egalito.Chunk.{
  Chunk, Store, computed, write, set_parent, set_previous, set_next, set_position, get_children,
  get_address, make_position,
}
use egalito.Mutator.{
  levels, index_of, append, make_position_for, insert_after, insert_before, remove_last,
}

-- insertAfter(Instruction *, const std::vector<Instruction *> &)
unfoldable pub insert_all_after : ℕ → Option ℕ → List ℕ → Store → Result Store
insert_all_after chunk point [] s = ok s
insert_all_after chunk point (c ∷ cs) s =
    insert_after chunk point c s >>= λ s'. insert_all_after chunk (some c) cs s'

-- insertBefore(Instruction *, const std::vector<Instruction *> &, bool) for a flag that is false
unfoldable pub insert_all_before : ℕ → Option ℕ → List ℕ → Store → Result Store
insert_all_before chunk point [] s = ok s
insert_all_before chunk point (c ∷ cs) s =
    insert_before chunk point c s >>= λ s'. insert_all_before chunk point cs s'

-- Block(), once it has a position
abbrev pub new_block : ℕ → Chunk
new_block offset = record {
  parent = none;
  prev = none;
  next = none;
  children = some [];
  position = some (make_position offset);
  size = 0;
  sizing = computed;
  is_module = false;
}

-- The loop that clears the pointers of the instructions that are moved.
unfoldable pub clear_all : List ℕ → Store → Store
clear_all [] s = s
clear_all (c ∷ cs) s =
    clear_all cs (set_position c none (set_parent c none (set_next c none (set_previous c none s))))

-- The loop that appends them to the new block.
unfoldable pub append_all : ℕ → List ℕ → Store → Result Store
append_all block [] s = ok s
append_all block (c ∷ cs) s =
    append block c s >>= λ s₁. make_position_for block c s₁ >>= λ s₂. append_all block cs s₂

-- The instructions to move, and how many removeLast removes; genericIndexOf of one that is not in the
-- block is -1.
abbrev pub moved_from : Option ℕ → List ℕ → List ℕ
moved_from none cs = []
moved_from (some i) cs = drop i cs

abbrev pub removed_from : Option ℕ → List ℕ → ℕ
removed_from none cs = suc (length cs)
removed_from (some i) cs = length cs - i

-- splitBlockBefore of a point in a block with the given instructions
unfoldable pub split_block : ℕ → ℕ → ℕ → ℕ → List ℕ → Store → Result Store
split_block chunk fresh block point [] s = ok s
split_block chunk fresh block point (c ∷ cs) s =
    let found = index_of point (c ∷ cs) in
    let moved = moved_from found (c ∷ cs) in
    get_address levels s point >>= λ a. get_address levels s chunk >>= λ b.
    remove_last (removed_from found (c ∷ cs)) block
      (write s fresh (new_block ((2 ^ 64 + a - b) % 2 ^ 64)))
    >>= λ s₁. append_all fresh moved (clear_all moved s₁) >>= λ s₂.
        insert_after chunk (some block) fresh s₂

unfoldable pub split_block_before : ℕ → ℕ → ℕ → Store → Result Store
split_block_before chunk fresh point s = in_block (s point).parent
  where
    in_block : Option ℕ → Result Store
    in_block none = fail null_pointer
    in_block (some block) = get_children s block >>= λ cs. split_block chunk fresh block point cs s
