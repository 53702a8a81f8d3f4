-- ===== src/Tests/Archives.antt =====
-- Runs of src/archive.
use egalito.Base.{ℕ, ◌<◌, ◌≡◌, ◌↔◌, refl, true, List, [], ◌∷◌, ◌++◌, Option, some, length, arith}
use egalito.Base.Result.{ok, Returns}
use egalito.Archive.Stream.{opened, read_into, write_value}
use egalito.Archive.Stream.Laws.{read_into-write_value}
use egalito.Archive.ChunkTypes.{encode_chunk_type, function_list, vtable, number}
use egalito.Archive.ChunkTypes.Table.{reread, reread_iff}
use egalito.Archive.FlatChunk.{FlatChunk, word_limit}
use egalito.Archive.Writer.{write, version, assign_offsets}
use egalito.Archive.Reader.{EgalitoArchive, read_archive}
use egalito.Archive.RoundTrip.{Fits, SameChunks, read_archive-write}
use egalito.Archive.Offsets.{AreBehind, assign_offsets-AreBehind}

abbrev chunk : ℕ → List ℕ → FlatChunk
chunk id contents = record { type = function_list; id = id; offset = 0; contents = contents }

abbrev flats : List (Option FlatChunk)
flats = some (chunk 0 (7 ∷ 8 ∷ [])) ∷ some (chunk 1 []) ∷ []

fits : (id : ℕ) (contents : List ℕ) → length contents < word_limit → Fits id (chunk id contents)
unfolding number
fits id contents h = record { place = refl; typed = omega arith; short = h }

read_archive-write_example : Returns (assign_offsets 16 flats) (λ placed.
    SameChunks placed flats
    × Returns (write flats) (λ bytes. Returns (read_archive 0 0 (opened bytes)) (λ archive.
      (read : EgalitoArchive) × (archive ≡ some read)
      × (read.version ≡ version)
      × (read.flat_list.flat_list ≡ placed))))
read_archive-write_example =
    read_archive-write flats 0 0 (fits 0 (7 ∷ 8 ∷ []) (omega arith), (fits 1 [] (omega arith), tt))
      (omega arith) (omega arith) (omega arith)

assign_offsets-AreBehind_example : Returns (assign_offsets 16 flats) AreBehind
unfolding encode_chunk_type number
assign_offsets-AreBehind_example =
    assign_offsets-AreBehind flats ((70, refl, tt), omega arith, ((70, refl, tt), omega arith, tt))
      (omega arith)

reread_iff_example : (reread vtable ≡ ok vtable) ↔ (number vtable < 7)
reread_iff_example = reread_iff vtable

read_into-write_value_example :
    read_into 2 9 (opened (write_value 2 513 ++ 5 ∷ [])) ≡ (true, 513, opened (5 ∷ []))
read_into-write_value_example = read_into-write_value 2 513 9 (5 ∷ []) (omega arith) (omega arith)
