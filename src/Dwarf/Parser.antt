-- ===== src/Dwarf/Parser.antt =====
-- src/dwarf/parser.cpp, class DwarfParser, with the entries of entry.h and entry.cpp (DwarfCIE,
-- DwarfFDE, DwarfUnwindInfo). The list of the entries is what `parse` returns; a CIE that parseCIE
-- gives up is the null pointer, which addCIE follows. Loops have the fuel `fuel`.
use egalito.Base.{
  ℕ, zero, suc, ◌+◌, ◌-◌, ◌%◌, ◌^◌, Bool, true, false, ◌||◌, List, [], ◌∷◌, ◌++◌, Option, none,
  some, ltb, leb, ◌==◌, get_elem?, if◌then◌else◌,
}
use egalito.Base as Base
use egalito.Base.Result.{Result, ok, fail, out_of_fuel, null_pointer, assertion, ◌>>=◌}
use egalito.Dwarf.Cursor.{
  Memory, DwarfCursor, cursor_at, is_before, next, next_uleb128, next_sleb128, next_string,
  next_encoded_pointer,
}
use egalito.Dwarf.Instructions.{CieAugmentation, DwarfCie, get_augmentation, parse_instructions}

-- DwarfCIE::Augmentation::Augmentation
abbrev pub new_augmentation : CieAugmentation
new_augmentation = record {
  personality_encoding = 0;
  personality_encoding_routine = 0;
  code_enc = 0;
  lsda_enc = 0xff;
  is_signal = false;
}

-- DwarfCIE::DwarfCIE
abbrev pub new_cie : ℕ → ℕ → ℕ → DwarfCie
new_cie start_address length index = record {
  start_address = start_address;
  length = length;
  state = none;
  index = index;
  cie_id = 0;
  code_align_factor = 0;
  data_align_factor = 0;
  ret_address_reg = 0;
  augmentation = none;
}

pub record DwarfFde : Type 0 where
  pub start_address : ℕ
  pub length : ℕ
  pub cie_index : ℕ
  pub cie_pointer : ℕ
  pub pc_begin : ℕ
  pub pc_range : ℕ
  pub lsda_pointer : ℕ

-- cieMap has the index of the latest CIE at an address.
pub record DwarfUnwindInfo : Type 0 where
  pub cie_list : List DwarfCie
  pub fde_list : List DwarfFde
  pub cie_map : List (ℕ × ℕ)

abbrev pub new_unwind_info : DwarfUnwindInfo
new_unwind_info = record { cie_list = []; fde_list = []; cie_map = [] }

unfoldable pub add_cie : DwarfCie → DwarfUnwindInfo → DwarfUnwindInfo
add_cie cie info = record info {
  cie_list = info.cie_list ++ (cie ∷ []);
  cie_map = (cie.start_address, cie.index) ∷ info.cie_map;
}

unfoldable pub add_fde : DwarfFde → DwarfUnwindInfo → DwarfUnwindInfo
add_fde fde info = record info { fde_list = info.fde_list ++ (fde ∷ []) }

unfoldable pub find_in : List (ℕ × ℕ) → ℕ → Option ℕ
find_in [] address = none
find_in ((key, index) ∷ rest) address =
    let found = find_in rest address in if key == address then some index else found

unfoldable pub find_cie : ℕ → DwarfUnwindInfo → Option ℕ
find_cie address info = find_in info.cie_map address

unfoldable pub get_cie : ℕ → DwarfUnwindInfo → Result DwarfCie
get_cie cie_index info = elim (get_elem? info.cie_list cie_index) [
  | none ↦ fail assertion
  | some cie ↦ ok cie
]

-- The switch over a character of the augmentation string.
unfoldable pub parse_letter :
    Memory → ℕ → CieAugmentation → DwarfCursor → Result (CieAugmentation × DwarfCursor)
parse_letter m letter a c =
    let (byte, c') = next m 1 c in
    if letter == b'P'
    then (next_encoded_pointer m byte c' >>= λ (routine, c2).
        ok (record a { personality_encoding = byte; personality_encoding_routine = routine }, c2))
    else if letter == b'R'
    then ok (record a { code_enc = byte }, c')
    else if letter == b'L'
    then ok (record a { lsda_enc = byte }, c')
    else if letter == b'S'
    then ok (record a { is_signal = true }, c)
    else ok (a, c)

-- The loop over the augmentation string, from the address `ptr` on.
unfoldable pub parse_augmentation :
    ℕ → Memory → ℕ → CieAugmentation → DwarfCursor → Result (CieAugmentation × DwarfCursor)
parse_augmentation zero m ptr a c = fail out_of_fuel
parse_augmentation (suc fuel) m ptr a c =
    let letter = m ptr % 256 in
    if letter == 0
    then ok (a, c)
    else (parse_letter m letter a c >>= λ (a', c'). parse_augmentation fuel m (ptr + 1) a' c')

-- What follows the alignment factors in parseCIE: the CIE with its augmentation, or none where
-- parseCIE gives up.
unfoldable pub read_augmentation :
    ℕ → Memory → ℕ → DwarfCie → DwarfCursor → Result (Option DwarfCie × DwarfCursor)
read_augmentation fuel m string cie c =
    if m string % 256 == 0
    then ok (some cie, c)
    else if m string % 256 == b'z'
    then (next_uleb128 m c >>= λ (skipped, c').
        parse_augmentation fuel m (string + 1) new_augmentation c' >>= λ (a, c2).
        ok (some (record cie { augmentation = some a }), c2))
    else ok (none, c)

-- The instructions of a CIE, parsed and kept as its state.
unfoldable pub parse_cie_state :
    ℕ → Memory → DwarfCursor → Option DwarfCie × DwarfCursor → Result (Option DwarfCie)
parse_cie_state fuel m stop (none, c) = ok none
parse_cie_state fuel m stop (some cie, c) = parse_instructions fuel m cie c stop 0 >>= λ state.
    ok (some (record cie { state = some state }))

-- parseCIE, the null pointer being none
unfoldable pub parse_cie : ℕ → Memory → DwarfCursor → DwarfCursor → ℕ → ℕ → Result (Option DwarfCie)
parse_cie fuel m start stop length index =
    let (version, c1) = next m 1 start in
    if version == 1 || version == 3
    then (next_string fuel m c1 >>= λ c2. next_uleb128 m c2 >>= λ (code_align, c3).
        next_sleb128 m c3 >>= λ (data_align, c4). next_uleb128 m c4 >>= λ (ret_address_reg, c5).
        read_augmentation fuel m c1.cursor
          (record (new_cie start.start length index) {
            code_align_factor = code_align;
            data_align_factor = data_align;
            ret_address_reg = ret_address_reg;
          })
          c5
        >>= λ found. parse_cie_state fuel m stop found)
    else ok none

-- parseFDE, of which the instructions are not parsed
unfoldable pub parse_fde :
    Memory → ℕ → ℕ → DwarfUnwindInfo → DwarfCursor → ℕ → ℕ → ℕ → Result DwarfFde
parse_fde m read_address virtual_address info start length cie_index entry_id =
    get_cie cie_index info >>= λ cie. get_augmentation cie >>= λ a.
    next_encoded_pointer m a.code_enc start >>= λ (begin, c1).
    next_encoded_pointer m (a.code_enc % 16) c1 >>= λ (range, c2).
    next_uleb128 m c2 >>= λ (skipped, c3). next_encoded_pointer m a.lsda_enc c3 >>= λ (lsda, c4).
    ok (record {
      start_address = start.start;
      length = length;
      cie_index = cie_index;
      cie_pointer = entry_id;
      pc_begin = (2 ^ 64 + (begin + virtual_address) % 2 ^ 64 - read_address) % 2 ^ 64;
      pc_range = range;
      lsda_pointer = lsda;
    })

-- The length of an entry, the distance from its start to the next one, and the cursor at its
-- identifier.
unfoldable pub read_length : Memory → DwarfCursor → ℕ × ℕ × DwarfCursor
read_length m start =
    let (length, c) = next m 4 start in
    let (long, c') = next m 8 c in
    if length == 0xffffffff then (long, (long + 8) % 2 ^ 64, c') else (length, length + 4, c)

module _ (m : Memory) (read_address virtual_address : ℕ) where
  -- An entry whose identifier the cursor is at.
  unfoldable pub parse_entry :
      ℕ → DwarfUnwindInfo → DwarfCursor → DwarfCursor → ℕ → Result DwarfUnwindInfo
  parse_entry fuel info start stop length =
      let (entry_id, c) = next m 4 start in
      if entry_id == 0
      then (parse_cie fuel m c stop length (Base.length info.cie_list) >>= λ cie. elim cie [
        | none ↦ fail null_pointer
        | some cie ↦ ok (add_cie cie info)
      ])
      else elim (find_cie ((2 ^ 64 + start.cursor - entry_id) % 2 ^ 64) info) [
        | none ↦ ok info
        | some cie_index ↦
            parse_fde m read_address virtual_address info c length cie_index entry_id >>= λ fde.
            ok (add_fde fde info)
      ]

  -- The loop of parse.
  unfoldable pub parse_entries :
      ℕ → DwarfCursor → DwarfUnwindInfo → DwarfCursor → Result DwarfUnwindInfo
  parse_entries zero stop info start = fail out_of_fuel
  parse_entries (suc fuel) stop info start =
      let (length, entry_length, c) = read_length m start in
      if is_before start stop
      then (if length == 0
          then ok info
          else (let behind = cursor_at ((start.start + entry_length) % 2 ^ 64) in
              parse_entry fuel info c behind length >>= λ info'.
              parse_entries fuel stop info' behind))
      else ok info

  unfoldable pub parse : ℕ → ℕ → Result DwarfUnwindInfo
  parse fuel virtual_size =
      parse_entries fuel (cursor_at ((read_address + virtual_size) % 2 ^ 64)) new_unwind_info
        (cursor_at read_address)
