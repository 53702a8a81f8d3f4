-- ===== src/Archive/ChunkTypes/Table.antt =====
-- Which types of chunks the table of src/archive/chunktypes.cpp carries through an archive: it has no
-- entries for InitFunctionList, GlobalVariable and InitFunction.
use egalito.Base.{◌≤◌, ◌<◌, ◌≡◌, ◌↔◌, arith}
use egalito.Base.Result.{Result, ok, fail, Failure, ◌>>=◌}
use egalito.Archive.ChunkTypes.{ChunkType, number, encode_chunk_type, decode_chunk_type}

-- The type that is read where a type was written.
unfoldable pub reread : ChunkType → Result ChunkType
unfolding encode_chunk_type decode_chunk_type number
reread type = encode_chunk_type type >>= λ byte. ok (decode_chunk_type byte)

-- A type comes back as itself exactly if it stands before InitFunctionList in the enumeration.
pub reread_iff : (t : ChunkType) → (reread t ≡ ok t) ↔ (number t < 7)
unfolding reread
reread_iff t = ground arith

-- Writing a type reads past the end of the table exactly for the last three types of the enumeration.
pub reread-out_of_bounds :
    (t : ChunkType) → (reread t ≡ fail Failure.out_of_bounds) ↔ (26 ≤ number t)
unfolding reread
reread-out_of_bounds t = ground arith
