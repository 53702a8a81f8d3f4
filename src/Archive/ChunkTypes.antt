-- ===== src/Archive/ChunkTypes.antt =====
-- src/archive/chunktypes.h and chunktypes.cpp: the enumeration EgalitoChunkType with its numbers, the
-- table of `encodeChunkType` and the switch of `decodeChunkType`. The names for messages are not
-- modelled. An index past the table is undefined behaviour in the source, and a failure here.
pub mod Table
use egalito.Base.{ℕ, ◌==◌, if◌then◌else◌, List, [], ◌∷◌, none, some, get_elem?}
use egalito.Base.Result.{Result, ok, fail, Failure}

pub data ChunkType : Type 0 where
  unknown : ChunkType
  program : ChunkType
  module_chunk : ChunkType
  function_list : ChunkType
  plt_list : ChunkType
  jump_table_list : ChunkType
  data_region_list : ChunkType
  init_function_list : ChunkType
  external_symbol_list : ChunkType
  library_list : ChunkType
  vtable_list : ChunkType
  function : ChunkType
  block : ChunkType
  instruction : ChunkType
  plt_trampoline : ChunkType
  jump_table : ChunkType
  jump_table_entry : ChunkType
  data_region : ChunkType
  tls_data_region : ChunkType
  data_section : ChunkType
  data_variable : ChunkType
  global_variable : ChunkType
  marker_list : ChunkType
  marker : ChunkType
  vtable : ChunkType
  vtable_entry : ChunkType
  init_function : ChunkType
  external_symbol : ChunkType
  library : ChunkType

-- The value of an enumerator.
unfoldable pub number : ChunkType → ℕ
number unknown = 0
number program = 1
number module_chunk = 2
number function_list = 3
number plt_list = 4
number jump_table_list = 5
number data_region_list = 6
number init_function_list = 7
number external_symbol_list = 8
number library_list = 9
number vtable_list = 10
number function = 11
number block = 12
number instruction = 13
number plt_trampoline = 14
number jump_table = 15
number jump_table_entry = 16
number data_region = 17
number tls_data_region = 18
number data_section = 19
number data_variable = 20
number global_variable = 21
number marker_list = 22
number marker = 23
number vtable = 24
number vtable_entry = 25
number init_function = 26
number external_symbol = 27
number library = 28

-- The table of encodeChunkType, in the order of the source.
abbrev pub encoded : List ℕ
encoded =
    b'?' ∷ b'P' ∷ b'M' ∷ b'F' ∷ b'Z' ∷ b'T' ∷ b'R' ∷ b'S' ∷ b'L' ∷ b'Q' ∷ b'f' ∷ b'b' ∷ b'i' ∷ b'z'
    ∷ b'J' ∷ b'j' ∷ b'D' ∷ b':' ∷ b'd' ∷ b'v' ∷ b'A' ∷ b'a' ∷ b'V' ∷ b'p' ∷ b's' ∷ b'l' ∷ []

-- encodeChunkType
unfoldable pub encode_chunk_type : ChunkType → Result ℕ
encode_chunk_type type = elim (get_elem? encoded (number type)) [
  | none ↦ fail Failure.out_of_bounds
  | some byte ↦ ok byte
]

-- decodeChunkType
unfoldable pub decode_chunk_type : ℕ → ChunkType
decode_chunk_type byte =
    if byte == b'?'
    then unknown
    else if byte == b'P'
    then program
    else if byte == b'M'
    then module_chunk
    else if byte == b'F'
    then function_list
    else if byte == b'Z'
    then plt_list
    else if byte == b'T'
    then jump_table_list
    else if byte == b'R'
    then data_region_list
    else if byte == b'S'
    then external_symbol_list
    else if byte == b'L'
    then library_list
    else if byte == b'Q'
    then vtable_list
    else if byte == b'f'
    then function
    else if byte == b'b'
    then block
    else if byte == b'i'
    then instruction
    else if byte == b'z'
    then plt_trampoline
    else if byte == b'J'
    then jump_table
    else if byte == b'j'
    then jump_table_entry
    else if byte == b'D'
    then data_region
    else if byte == b':'
    then tls_data_region
    else if byte == b'd'
    then data_section
    else if byte == b'v'
    then data_variable
    else if byte == b'A'
    then marker_list
    else if byte == b'a'
    then marker
    else if byte == b'V'
    then vtable
    else if byte == b'p'
    then vtable_entry
    else if byte == b's'
    then external_symbol
    else if byte == b'l'
    then library
    else unknown
