-- ===== src/Archive/Writer.antt =====
-- src/archive/writer.h and writer.cpp, and the constants of archive.h and archive.cpp: class
-- EgalitoArchiveWriter, as the bytes of the file that it writes. A null entry of the list of chunks
-- crashes the source, and is a failure here.
use egalito.Base.{ℕ, ◌+◌, ◌*◌, ◌%◌, List, [], ◌∷◌, ◌++◌, Option, none, some, length}
use egalito.Base.Result.{Result, ok, fail, Failure, ◌>>=◌}
use egalito.Archive.Stream.{write_value, write_fixed}
use egalito.Archive.ChunkTypes.{encode_chunk_type}
use egalito.Archive.FlatChunk.{FlatChunk, word_limit, size}

-- "egalito\xc4"
abbrev pub signature : List ℕ
signature = b'e' ∷ b'g' ∷ b'a' ∷ b'l' ∷ b'i' ∷ b't' ∷ b'o' ∷ 0xc4 ∷ []

abbrev pub version : ℕ
version = 24

-- The loop of assignOffsets, from the size of all that stands before.
unfoldable pub assign_offsets : ℕ → List (Option FlatChunk) → Result (List (Option FlatChunk))
assign_offsets total_size [] = ok []
assign_offsets total_size (none ∷ flats) = fail Failure.null_pointer
assign_offsets total_size (some flat ∷ flats) =
    assign_offsets ((total_size + (2 + 4 * 3 + size flat)) % word_limit) flats >>= λ rest.
    ok (some (record flat { offset = total_size }) ∷ rest)

-- The sizes of the signature, the version and the chunk count.
abbrev pub header_size : ℕ
header_size = 8 + 4 + 4

-- The body of the loop of writeData.
unfoldable pub write_flat : FlatChunk → Result (List ℕ)
write_flat flat = encode_chunk_type flat.type >>= λ byte. ok (
    write_value 1 byte
    ++ (write_value 4 flat.id
        ++ (write_value 4 flat.offset
            ++ (write_value 4 (size flat) ++ write_fixed flat.contents (size flat)))))

unfoldable pub write_flats : List (Option FlatChunk) → Result (List ℕ)
write_flats [] = ok []
write_flats (none ∷ flats) = fail Failure.null_pointer
write_flats (some flat ∷ flats) =
    write_flat flat >>= λ bytes. write_flats flats >>= λ rest. ok (bytes ++ rest)

unfoldable pub write_header : ℕ → List ℕ
write_header count = signature ++ (write_value 4 version ++ write_value 4 count)

-- writeData
unfoldable pub write_data : List (Option FlatChunk) → Result (List ℕ)
write_data flats =
    write_flats flats >>= λ bytes. ok (write_header (length flats % word_limit) ++ bytes)

-- write: the bytes of the file
unfoldable pub write : List (Option FlatChunk) → Result (List ℕ)
write flats = assign_offsets header_size flats >>= write_data
