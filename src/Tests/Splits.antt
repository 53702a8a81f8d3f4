-- ===== src/Tests/Splits.antt =====
-- A block that is split.
use egalito.Base.{◌≡◌, refl, [], ◌∷◌, none, some, ◌==◌, false, if◌then◌else◌}
use egalito.Base.Result.{Result, ok, ◌>>=◌}
use egalito.Chunk.{
  Store, absolute, offset_by, computed, fixed, get_address, get_children, position_get, add_to_size,
  adjust_by, recalculate, recalculated_offset, write,
}
use egalito.Mutator.{
  insert_after, insert_at, link_after, index_after, renew_next, renew_first, remove_last,
  remove_lasts, last_child, drop_child, drop_last, index_of, get_last, append, link_last,
  set_next_of, set_previous_of, ensure_position, make_position_for, index_among, offset_at,
  cursor_chunk, update_sizes, adjust_size, adjust_sizes,
}
use egalito.Mutator.Passes.{
  update_positions, update_below, update_position_helper, recalculated, descend, for_each,
}
use egalito.Mutator.Splits.{split_block_before, split_block, clear_all, append_all}

-- A function, 5, with a block, 1, that has the instructions 2, 3 and 4 of two bytes each.
abbrev function : Store
function x =
    if x == 5
    then record {
      parent = none;
      prev = none;
      next = none;
      children = some (1 ∷ []);
      position = some (absolute 4096);
      size = 6;
      sizing = computed;
      is_module = false;
    }
    else if x == 1
    then record {
      parent = some 5;
      prev = none;
      next = none;
      children = some (2 ∷ 3 ∷ 4 ∷ []);
      position = some (offset_by 0);
      size = 6;
      sizing = computed;
      is_module = false;
    }
    else record {
      parent = some 1;
      prev = if x == 2 then none else if x == 3 then some 2 else some 3;
      next = if x == 2 then some 3 else if x == 3 then some 4 else none;
      children = none;
      position = some (offset_by (if x == 2 then 0 else if x == 3 then 2 else 4));
      size = 2;
      sizing = fixed;
      is_module = false;
    }

abbrev split : Result Store
split = split_block_before 5 6 3 function

abbrev updated : Result Store
updated = split >>= λ s. update_positions 8 (some 5) s

-- The function has two blocks, and the new one the last two instructions; the sizes follow.
split-children :
    ((split >>= λ s. get_children s 5) ≡ ok (1 ∷ 6 ∷ []))
    × ((split >>= λ s. get_children s 1) ≡ ok (2 ∷ []))
    × ((split >>= λ s. get_children s 6) ≡ ok (3 ∷ 4 ∷ []))
    × ((split >>= λ s. ok (s 6).size) ≡ ok 4)
unfolding split_block_before split_block get_children get_address position_get add_to_size adjust_by
    recalculate recalculated_offset write clear_all append_all insert_after insert_at link_after
    index_after renew_next renew_first remove_last remove_lasts last_child drop_child drop_last
    index_of get_last append link_last set_next_of set_previous_of ensure_position make_position_for
    index_among offset_at cursor_chunk update_sizes adjust_size adjust_sizes update_positions
    update_below update_position_helper recalculated descend for_each
split-children = (refl, refl, refl, refl)

-- Until positions are updated, the second moved instruction has the address of the first one; then
-- it has its former address.
split-address :
    ((split >>= λ s. get_address 8 s 4) ≡ ok 4098)
    × ((updated >>= λ s. get_address 8 s 4) ≡ ok 4100)
unfolding split_block_before split_block get_children get_address position_get add_to_size adjust_by
    recalculate recalculated_offset write clear_all append_all insert_after insert_at link_after
    index_after renew_next renew_first remove_last remove_lasts last_child drop_child drop_last
    index_of get_last append link_last set_next_of set_previous_of ensure_position make_position_for
    index_among offset_at cursor_chunk update_sizes adjust_size adjust_sizes update_positions
    update_below update_position_helper recalculated descend for_each
split-address = (refl, refl)
