-- ===== src/Dwarf/Instructions.antt =====
-- src/dwarf/parser.cpp, class DwarfInstructionDecoder, and the call frame opcodes of defines.h. The
-- results of the expressions that it evaluates are dropped, but an evaluation may fail. `fuel` bounds
-- the loops of these evaluations and, in `run`, the instructions. Log messages are left out.
pub mod Remember
use egalito.Base.{
  Bool, ℕ, zero, suc, ◌+◌, ◌-◌, ◌*◌, ◌/◌, ◌%◌, ◌^◌, List, [], ◌∷◌, Option, none, some, ltb, leb,
  ◌==◌, get_or, if◌then◌else◌,
}
use egalito.Base.Result.{Result, ok, fail, out_of_fuel, null_pointer, uninitialized, ◌>>=◌}
use egalito.Dwarf.Cursor.{
  Memory, DwarfCursor, is_before, next, skip, next_uleb128, next_sleb128, next_encoded_pointer,
}
use egalito.Dwarf.Expressions.{decode}
use egalito.Dwarf.State.{DwarfRegisterData, DwarfState, new_state, get_register, set_register}

pub data CfaOpcode : Type 0 where
  advance_loc : CfaOpcode
  dw_offset : CfaOpcode
  restore : CfaOpcode
  nop : CfaOpcode
  set_loc : CfaOpcode
  advance_loc1 : CfaOpcode
  advance_loc2 : CfaOpcode
  advance_loc4 : CfaOpcode
  offset_extended : CfaOpcode
  restore_extended : CfaOpcode
  undefined : CfaOpcode
  same_value : CfaOpcode
  register : CfaOpcode
  remember_state : CfaOpcode
  restore_state : CfaOpcode
  def_cfa : CfaOpcode
  def_cfa_register : CfaOpcode
  def_cfa_offset : CfaOpcode
  def_cfa_expression : CfaOpcode
  expression : CfaOpcode
  offset_extended_sf : CfaOpcode
  def_cfa_sf : CfaOpcode
  def_cfa_offset_sf : CfaOpcode
  val_offset : CfaOpcode
  val_offset_sf : CfaOpcode
  val_expression : CfaOpcode
  mips_advance_loc8 : CfaOpcode
  gnu_window_save : CfaOpcode
  gnu_args_size : CfaOpcode
  gnu_negative_offset_extended : CfaOpcode
  user_defined : CfaOpcode

-- The opcodes below 0x40, in order.
abbrev pub low_opcodes : List CfaOpcode
low_opcodes =
    nop ∷ set_loc ∷ advance_loc1 ∷ advance_loc2 ∷ advance_loc4 ∷ offset_extended ∷ restore_extended
    ∷ undefined ∷ same_value ∷ register ∷ remember_state ∷ restore_state ∷ def_cfa
    ∷ def_cfa_register ∷ def_cfa_offset ∷ def_cfa_expression ∷ expression ∷ offset_extended_sf
    ∷ def_cfa_sf ∷ def_cfa_offset_sf ∷ val_offset ∷ val_offset_sf ∷ val_expression ∷ user_defined
    ∷ user_defined ∷ user_defined ∷ user_defined ∷ user_defined ∷ user_defined ∷ mips_advance_loc8
    ∷ user_defined ∷ user_defined ∷ user_defined ∷ user_defined ∷ user_defined ∷ user_defined
    ∷ user_defined ∷ user_defined ∷ user_defined ∷ user_defined ∷ user_defined ∷ user_defined
    ∷ user_defined ∷ user_defined ∷ user_defined ∷ gnu_window_save ∷ gnu_args_size
    ∷ gnu_negative_offset_extended ∷ []

-- The case of the switch for an opcode byte, whose two high bits, if set, decide alone.
unfoldable pub opcode_of : ℕ → CfaOpcode
opcode_of byte =
    if byte / 64 == 0
    then get_or low_opcodes byte user_defined
    else if byte / 64 == 1
    then advance_loc
    else if byte / 64 == 2
    then dw_offset
    else restore

-- The codes that DwarfRegisterData keeps.
abbrev pub code_offset : ℕ
code_offset = 0x80

abbrev pub code_val_offset : ℕ
code_val_offset = 0x14

abbrev pub code_undefined : ℕ
code_undefined = 0x07

abbrev pub code_same_value : ℕ
code_same_value = 0x08

abbrev pub code_register : ℕ
code_register = 0x09

abbrev pub code_expression : ℕ
code_expression = 0x10

abbrev pub code_val_expression : ℕ
code_val_expression = 0x16

-- DwarfCIE::Augmentation
pub record CieAugmentation : Type 0 where
  pub personality_encoding : ℕ
  pub personality_encoding_routine : ℕ
  pub code_enc : ℕ
  pub lsda_enc : ℕ
  pub is_signal : Bool

-- DwarfCIE. Its constructor leaves the pointer `augmentation` uninitialised: `none` until it is set.
pub record DwarfCie : Type 0 where
  pub start_address : ℕ
  pub length : ℕ
  pub state : Option DwarfState
  pub index : ℕ
  pub cie_id : ℕ
  pub code_align_factor : ℕ
  pub data_align_factor : ℕ
  pub ret_address_reg : ℕ
  pub augmentation : Option CieAugmentation

unfoldable pub get_augmentation : DwarfCie → Result CieAugmentation
get_augmentation cie = elim cie.augmentation [ none ↦ fail uninitialized | some a ↦ ok a ]

unfoldable pub get_state : DwarfCie → Result DwarfState
get_state cie = elim cie.state [ none ↦ fail null_pointer | some s ↦ ok s ]

pub record DwarfInstructionDecoder : Type 0 where
  pub start : DwarfCursor
  pub cfa_ip : ℕ
  pub state : DwarfState
  pub remembered_state : List DwarfState

-- Products and sums of 64-bit patterns.
abbrev pub times : ℕ → ℕ → ℕ
times a b = (a * b) % 2 ^ 64

-- state->set, at a cursor that the operands were read up to
abbrev pub set_at :
    ℕ → ℕ → ℕ → DwarfCursor → DwarfInstructionDecoder → Result DwarfInstructionDecoder
set_at reg kind ofs c d = set_register reg (record { kind = kind; offset = ofs }) d.state >>= λ s.
    ok (record d { start = c; state = s })

abbrev pub copy_from_cie :
    DwarfCie → ℕ → DwarfCursor → DwarfInstructionDecoder → Result DwarfInstructionDecoder
copy_from_cie cie reg c d = get_state cie >>= λ initial. get_register reg initial >>= λ value.
    set_register reg value d.state >>= λ s. ok (record d { start = c; state = s })

abbrev pub advance : DwarfCie → ℕ → DwarfCursor → DwarfInstructionDecoder → DwarfInstructionDecoder
advance cie ofs c d = record d {
  start = c;
  cfa_ip = (d.cfa_ip + ofs * cie.code_align_factor) % 2 ^ 64;
}

-- parseAdvanceLocN, for a type of `width` bytes
abbrev pub parse_advance_loc_n :
    Memory → DwarfCie → ℕ → DwarfInstructionDecoder → Result DwarfInstructionDecoder
parse_advance_loc_n m cie width d = let (ofs, c) = next m width d.start in ok (advance cie ofs c d)

-- A case whose register is the first operand and whose value the second.
abbrev pub set_from_uleb128 :
    Memory → ℕ → ℕ → DwarfInstructionDecoder → Result DwarfInstructionDecoder
set_from_uleb128 m kind factor d = next_uleb128 m d.start >>= λ (reg, c).
    next_uleb128 m c >>= λ (value, c'). set_at reg kind (times value factor) c' d

abbrev pub set_from_sleb128 :
    Memory → ℕ → ℕ → DwarfInstructionDecoder → Result DwarfInstructionDecoder
set_from_sleb128 m kind factor d = next_uleb128 m d.start >>= λ (reg, c).
    next_sleb128 m c >>= λ (value, c'). set_at reg kind (times value factor) c' d

abbrev pub set_mark : Memory → ℕ → DwarfInstructionDecoder → Result DwarfInstructionDecoder
set_mark m kind d = next_uleb128 m d.start >>= λ (reg, c). set_at reg kind 0 c d

-- The cases that look for the canonical frame address.
abbrev pub parse_def_cfa : Memory → DwarfInstructionDecoder → Result DwarfInstructionDecoder
parse_def_cfa m d = next_uleb128 m d.start >>= λ (reg, c). next_uleb128 m c >>= λ (ofs, c').
    ok (record d {
      start = c';
      state = record d.state { cfa_register = reg; cfa_offset = ofs; cfa_expression = 0 };
    })

abbrev pub parse_def_cfa_sf :
    Memory → DwarfCie → DwarfInstructionDecoder → Result DwarfInstructionDecoder
parse_def_cfa_sf m cie d = next_uleb128 m d.start >>= λ (reg, c). next_sleb128 m c >>= λ (ofs, c').
    ok (record d {
      start = c';
      state = record d.state {
        cfa_register = reg;
        cfa_offset = times ofs cie.data_align_factor;
        cfa_expression = 0;
      };
    })

abbrev pub parse_def_cfa_expression :
    Memory → ℕ → DwarfInstructionDecoder → Result DwarfInstructionDecoder
parse_def_cfa_expression m fuel d = decode m d.state fuel d.start >>= λ ignored.
    next_uleb128 m d.start >>= λ (ul, c).
    ok (record d { start = skip ul c; state = record d.state { cfa_expression = d.start.cursor } })

abbrev pub parse_expression : Memory → ℕ → DwarfInstructionDecoder → Result DwarfInstructionDecoder
parse_expression m fuel d = next_uleb128 m d.start >>= λ (reg, c).
    set_at reg code_expression c.cursor c d >>= λ d'. decode m d'.state fuel c >>= λ ignored.
    next_uleb128 m c >>= λ (ul, c'). ok (record d' { start = skip ul c' })

abbrev pub parse_val_expression :
    Memory → ℕ → DwarfInstructionDecoder → Result DwarfInstructionDecoder
parse_val_expression m fuel d = next_uleb128 m d.start >>= λ (reg, c).
    decode m d.state fuel c >>= λ ignored. next_uleb128 m c >>= λ (ul, c').
    get_register reg d.state >>= λ value. set_at reg code_val_expression value.offset (skip ul c') d

-- The body of the switch of parseInstructions, `op` being the low six bits of the opcode and `stop`
-- the end of the instructions.
unfoldable pub execute :
    Memory
    → ℕ
    → DwarfCie
    → DwarfCursor
    → ℕ
    → CfaOpcode
    → DwarfInstructionDecoder
    → Result DwarfInstructionDecoder
execute m fuel cie stop op advance_loc d = ok (advance cie op d.start d)
execute m fuel cie stop op dw_offset d = next_uleb128 m d.start >>= λ (value, c).
    set_at op code_offset (times value cie.data_align_factor) c d
execute m fuel cie stop op restore d = copy_from_cie cie op d.start d
execute m fuel cie stop op set_loc d = get_augmentation cie >>= λ a.
    next_encoded_pointer m a.code_enc d.start >>= λ (ip, c).
    ok (record d { start = c; cfa_ip = ip })
execute m fuel cie stop op advance_loc1 d = parse_advance_loc_n m cie 1 d
execute m fuel cie stop op advance_loc2 d = parse_advance_loc_n m cie 2 d
execute m fuel cie stop op advance_loc4 d = parse_advance_loc_n m cie 4 d
execute m fuel cie stop op offset_extended d =
    set_from_uleb128 m code_offset cie.data_align_factor d
execute m fuel cie stop op val_offset d = set_from_uleb128 m code_val_offset cie.data_align_factor d
execute m fuel cie stop op restore_extended d =
    next_uleb128 m d.start >>= λ (reg, c). copy_from_cie cie reg c d
execute m fuel cie stop op undefined d = set_mark m code_undefined d
execute m fuel cie stop op same_value d = set_mark m code_same_value d
execute m fuel cie stop op register d = set_from_uleb128 m code_register 1 d
execute m fuel cie stop op remember_state d =
    ok (record d { remembered_state = d.state ∷ d.remembered_state })
execute m fuel cie stop op restore_state d = elim d.remembered_state [
  | [] ↦ ok d
  | saved ∷ rest ↦ ok (record d { state = saved; remembered_state = rest })
]
execute m fuel cie stop op def_cfa d = parse_def_cfa m d
execute m fuel cie stop op def_cfa_register d = next_uleb128 m d.start >>= λ (reg, c).
    ok (record d { start = c; state = record d.state { cfa_register = reg; cfa_expression = 0 } })
execute m fuel cie stop op def_cfa_offset d = next_uleb128 m d.start >>= λ (ofs, c).
    ok (record d { start = c; state = record d.state { cfa_offset = ofs } })
execute m fuel cie stop op nop d = ok d
execute m fuel cie stop op def_cfa_expression d = parse_def_cfa_expression m fuel d
execute m fuel cie stop op expression d = parse_expression m fuel d
execute m fuel cie stop op val_expression d = parse_val_expression m fuel d
execute m fuel cie stop op offset_extended_sf d =
    set_from_sleb128 m code_offset cie.data_align_factor d
execute m fuel cie stop op val_offset_sf d =
    set_from_sleb128 m code_val_offset cie.data_align_factor d
execute m fuel cie stop op def_cfa_sf d = parse_def_cfa_sf m cie d
execute m fuel cie stop op def_cfa_offset_sf d = next_sleb128 m d.start >>= λ (ofs, c).
    ok (record d {
      start = c;
      state = record d.state { cfa_offset = times ofs cie.data_align_factor };
    })
execute m fuel cie stop op mips_advance_loc8 d = parse_advance_loc_n m cie 8 d
execute m fuel cie stop op gnu_window_save d = ok d
execute m fuel cie stop op gnu_args_size d =
    next_uleb128 m d.start >>= λ (ul, c). ok (record d { start = c })
execute m fuel cie stop op gnu_negative_offset_extended d = next_uleb128 m d.start >>= λ (reg, c).
    next_uleb128 m c >>= λ (ul, c').
    set_at reg code_offset (times ((2 ^ 64 - ul) % 2 ^ 64) cie.data_align_factor) c' d
execute m fuel cie stop op user_defined d = ok (record d { start = stop })

-- One round of the loop of parseInstructions.
unfoldable pub step :
    Memory → ℕ → DwarfCie → DwarfCursor → DwarfInstructionDecoder → Result DwarfInstructionDecoder
step m fuel cie stop d =
    let (byte, c) = next m 1 d.start in
    execute m fuel cie stop (byte % 64) (opcode_of byte) (record d { start = c })

unfoldable pub run :
    ℕ → Memory → DwarfCie → DwarfCursor → DwarfInstructionDecoder → Result DwarfInstructionDecoder
run zero m cie stop d = fail out_of_fuel
run (suc fuel) m cie stop d =
    if is_before d.start stop
    then (step m fuel cie stop d >>= λ d'. run fuel m cie stop d')
    else ok d

unfoldable pub parse_instructions :
    ℕ → Memory → DwarfCie → DwarfCursor → DwarfCursor → ℕ → Result DwarfState
parse_instructions fuel m cie start stop cfa_ip =
    run fuel m cie stop (record {
      start = start;
      cfa_ip = cfa_ip;
      state = elim cie.state [ none ↦ new_state | some s ↦ s ];
      remembered_state = [];
    })
    >>= λ d. ok d.state
