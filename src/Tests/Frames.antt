-- ===== src/Tests/Frames.antt =====
-- Runs of src/dwarf.
use egalito.Base.{ℕ, ◌-◌, ◌^◌, ◌≡◌, refl, List, [], ◌∷◌, get_or, arith}
use egalito.Base.Result.{ok, fail, uninitialized, null_pointer}
use egalito.Dwarf.Cursor.{Memory, cursor_at, skip, load, next_groups, shift_left_int, next_uleb128}
use egalito.Dwarf.Cursor.Leb128.{uleb_bytes, next_uleb128-uleb_bytes, next_uleb128-ends, EndsWithin}
use egalito.Dwarf.State.{DwarfState, new_state}
use egalito.Dwarf.Instructions.{
  DwarfCie, DwarfInstructionDecoder, step, execute, opcode_of, get_augmentation,
}
use egalito.Dwarf.Instructions.Remember.{Balanced, done, plain, restore-remember}
use egalito.Dwarf.Expressions.{evaluate_all}
use egalito.Dwarf.Expressions.Compiled.{
  Formula, literal, combine, sum, product, compile, move, evaluate_all-compile,
}
use egalito.Dwarf.Parser.{
  new_cie, new_unwind_info, add_cie, parse_fde, get_cie, parse_entries, parse_entry, parse_cie,
  read_length, parse,
}

abbrev memory : List ℕ → Memory
memory bytes a = get_or bytes a 0

next_uleb128-uleb_bytes_example :
    next_uleb128 (memory (0xe5 ∷ 0x8e ∷ 0x26 ∷ [])) (cursor_at 0)
    ≡ ok (624485, skip 3 (cursor_at 0))
unfolding uleb_bytes
next_uleb128-uleb_bytes_example =
    next_uleb128-uleb_bytes (memory (0xe5 ∷ 0x8e ∷ 0x26 ∷ [])) 624485 (cursor_at 0) (omega arith)
      (omega arith) (refl, (refl, (refl, tt)))

next_uleb128-ends_example :
    EndsWithin 5
      (λ _. 0xff)
      (cursor_at 0)
      (λ (value, c'). c')
      (next_uleb128 (λ _. 0xff) (cursor_at 0))
next_uleb128-ends_example = next_uleb128-ends (λ _. 0xff) (cursor_at 0)

-- The fifth group is shifted as an int, so that 2 ^ 31 is read with ones in the upper half.
sign_extended :
    next_uleb128 (memory (0x80 ∷ 0x80 ∷ 0x80 ∷ 0x80 ∷ 0x08 ∷ [])) (cursor_at 0)
    ≡ ok (2 ^ 64 - 2 ^ 31, skip 5 (cursor_at 0))
unfolding next_uleb128 next_groups shift_left_int load
sign_extended = refl

-- DW_CFA_remember_state, DW_CFA_def_cfa_offset 16, DW_CFA_restore_state
abbrev program : Memory
program = memory (0x0a ∷ 0x0e ∷ 0x10 ∷ 0x0b ∷ [])

abbrev cie : DwarfCie
cie = new_cie 0 0 0

abbrev decoder : ℕ → DwarfState → List DwarfState → DwarfInstructionDecoder
decoder at state remembered = record {
  start = record { start = 0; cursor = at };
  cfa_ip = 0;
  state = state;
  remembered_state = remembered;
}

abbrev moved : DwarfState
moved = record new_state { cfa_offset = 16 }

abbrev between : DwarfInstructionDecoder
between = decoder 3 moved (new_state ∷ [])

offset_step : step program 9 cie (cursor_at 4) (decoder 1 new_state (new_state ∷ [])) ≡ ok between
unfolding step execute opcode_of next_uleb128 next_groups shift_left_int load
offset_step = refl

inner : Balanced program 9 cie (cursor_at 4) (decoder 1 new_state (new_state ∷ [])) between
unfolding opcode_of load
inner = plain (ground arith, ground arith) offset_step done

restore-remember_example :
    ((decoder 4 new_state []).state ≡ (decoder 0 new_state []).state)
    × ((decoder 4 new_state []).remembered_state ≡ (decoder 0 new_state []).remembered_state)
unfolding step execute opcode_of load
restore-remember_example =
    restore-remember program 9 cie (cursor_at 4) (decoder 0 new_state [])
      (decoder 1 new_state (new_state ∷ [])) between (decoder 4 new_state []) refl refl inner refl
      refl

-- An FDE whose CIE has an empty augmentation string: its pointer is read uninitialised.
no_augmentation :
    parse_fde program 0 0 (add_cie cie new_unwind_info) (cursor_at 0) 0 0 0 ≡ fail uninitialized
unfolding parse_fde get_cie add_cie get_augmentation
no_augmentation = refl

-- A CIE of an unknown version is followed as a null pointer.
unknown_version :
    parse (memory (5 ∷ 0 ∷ 0 ∷ 0 ∷ 0 ∷ 0 ∷ 0 ∷ 0 ∷ 2 ∷ [])) 0 0 4 9 ≡ fail null_pointer
unfolding parse parse_entries parse_entry parse_cie read_length load
unknown_version = refl

-- (3 + 4) * 5
abbrev formula : Formula
formula = combine product (combine sum (literal 3) (literal 4)) (literal 5)

evaluate_all-compile_example :
    evaluate_all (memory (compile formula)) new_state 6 (cursor_at 5) (cursor_at 0, [])
    ≡ evaluate_all
        (memory (compile formula))
        new_state
        1
        (cursor_at 5)
        (move 5 (cursor_at 0), 35 ∷ [])
evaluate_all-compile_example =
    evaluate_all-compile (memory (compile formula)) new_state (cursor_at 5) (omega arith) formula 1
      (cursor_at 0) [] ((omega arith, omega arith), omega arith)
      (refl, (refl, (refl, (refl, (refl, tt))))) (omega arith)
