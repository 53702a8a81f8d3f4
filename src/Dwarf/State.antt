-- ===== src/Dwarf/State.antt =====
-- src/dwarf/state.h and state.cpp: DwarfRegisterData and DwarfState, with the 17 registers of x86_64.
-- The pointer `next` links remembered states only, and is the rest of the decoder's list of them.
use egalito.Base.{ℕ, List, none, some, get_elem?, set, replicate, length, ltb, if◌then◌else◌}
use egalito.Base.Result.{Result, ok, fail, out_of_bounds}

pub record DwarfRegisterData : Type 0 where
  pub kind : ℕ
  pub offset : ℕ

abbrev pub num_registers : ℕ
num_registers = 17

pub record DwarfState : Type 0 where
  pub registers : List DwarfRegisterData
  pub cfa_register : ℕ
  pub cfa_offset : ℕ
  pub cfa_expression : ℕ
  pub cfa_expression_length : ℕ

abbrev pub new_state : DwarfState
new_state = record {
  registers = replicate num_registers (record { kind = 0; offset = 0 });
  cfa_register = 0;
  cfa_offset = 0;
  cfa_expression = 0;
  cfa_expression_length = 0;
}

-- get, whose index the C++ does not test
unfoldable pub get_register : ℕ → DwarfState → Result DwarfRegisterData
get_register reg s = elim (get_elem? s.registers reg) [ none ↦ fail out_of_bounds | some d ↦ ok d ]

unfoldable pub set_register : ℕ → DwarfRegisterData → DwarfState → Result DwarfState
set_register reg d s =
    if ltb reg (length s.registers)
    then ok (record s { registers = set s.registers reg d })
    else fail out_of_bounds
