-- ===== src/Archive/Reader.antt =====
-- src/archive/reader.h and reader.cpp: class EgalitoArchiveReader on the bytes of a file; a file that
-- cannot be opened is a stream that has failed. `none` is the null pointer that stands for an error.
-- The variables of `read` are not initialised in the source: what they hold is an argument.
-- The search along a LibraryList is not modelled.
use mathlib.Core.Bool.{true, false}
use egalito.Base.{
  ℕ, zero, suc, Bool, ◌&&◌, ◌||◌, not, List, [], ◌∷◌, Option, none, some, ltb, ◌==◌, if◌then◌else◌,
}
use egalito.Base.Result.{Result, ok, ◌>>=◌}
use egalito.Archive.Stream.{InStream, read_into, read, read_fixed, still_good}
use egalito.Archive.ChunkTypes.{decode_chunk_type}
use egalito.Archive.FlatChunk.{FlatChunkList, new, empty, add_flat_chunk}
use egalito.Archive.Writer.{signature, version}

pub record EgalitoArchive : Type 0 where
  pub flat_list : FlatChunkList
  pub version : ℕ

-- Equality of strings.
unfoldable pub same_bytes : List ℕ → List ℕ → Bool
same_bytes [] [] = true
same_bytes [] (y ∷ ys) = false
same_bytes (x ∷ xs) [] = false
same_bytes (x ∷ xs) (y ∷ ys) = (x == y) && same_bytes xs ys

-- What readHeader finds: the number of chunks, the version, and the stream behind them.
pub record Header : Type 0 where
  pub flat_count : ℕ
  pub version : ℕ
  pub file : InStream

-- The end of readHeader: a file without a chunk count, or with none, is only warned about.
unfoldable pub read_count : ℕ → ℕ → InStream → Header
read_count garbage version file =
    let (success, count, file') = read_into 4 garbage file in
    record { flat_count = count; version = version; file = file' }

-- readHeader
unfoldable pub read_header : ℕ → ℕ → InStream → Option Header
read_header count_garbage version_garbage file =
    let (line, file₁) = read_fixed 8 file in
    let (success, found, file₂) = read_into 4 version_garbage file₁ in
    if not (still_good file₁) || not (same_bytes line signature)
    then none
    else if not success
    then none
    else if ltb version found
    then none
    else some (read_count count_garbage found file₂)

-- The loop of `read`: `none` at an unexpected end of the file.
unfoldable pub read_flats : ℕ → InStream → FlatChunkList → Result (Option FlatChunkList)
read_flats zero file list = ok (some list)
read_flats (suc left) file list =
    let (byte, file₁) = read 1 file in
    let (id, file₂) = read 4 file₁ in
    let (offset, file₃) = read 4 file₂ in
    let (size, file₄) = read 4 file₃ in
    let (contents, file₅) = read_fixed size file₄ in
    let flat = record (new (decode_chunk_type byte) id contents) { offset = offset } in
    let more = add_flat_chunk list flat >>= read_flats left file₅ in
    if file₅.failed then ok none else more

-- read(filename)
unfoldable pub read_archive : ℕ → ℕ → InStream → Result (Option EgalitoArchive)
read_archive count_garbage version_garbage file =
    elim (read_header count_garbage version_garbage file) [
      | none ↦ ok none
      | some header ↦ read_flats header.flat_count header.file empty >>= (elim [
        | none ↦ ok none
        | some list ↦ ok (some (record { flat_list = list; version = header.version }))
      ])
    ]
