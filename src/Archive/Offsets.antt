-- ===== src/Archive/Offsets.antt =====
-- The offsets that src/archive/writer.cpp stores in the chunks, against the places of their bytes in
-- the file: `assignOffsets` counts two bytes for the type, and `writeData` writes one.
use egalito.Base.{
  ℕ, suc, ◌+◌, ◌*◌, ◌%◌, ◌<◌, ◌≡◌, refl, List, [], ◌∷◌, arith, Option, none, some, length,
  length-append, ◌++◌, subst,
}
use egalito.Base.Result.{ok, Returns}
use egalito.Archive.Stream.{write_value}
use egalito.Archive.Stream.Laws.{length-le_bytes}
use egalito.Archive.ChunkTypes.{encode_chunk_type}
use egalito.Archive.FlatChunk.{FlatChunk, word_limit, size}
use egalito.Archive.RoundTrip.{flat_bytes, write_flat-bytes}
use egalito.Archive.Writer.{
  assign_offsets, write_flat, write_flats, write_header, header_size, signature, version,
}

length-write_value : (width v : ℕ) → length (write_value width v) ≡ width
unfolding write_value
length-write_value width v = length-le_bytes width v

-- The bytes of a flat chunk in the file are 13 and its data.
pub length-write_flat :
    (flat : FlatChunk) (byte : ℕ)
    → encode_chunk_type flat.type ≡ ok byte
    → length flat.contents < word_limit
    → Returns (write_flat flat) (λ bytes. length bytes ≡ 13 + length flat.contents)
length-write_flat flat byte enc short = (
  flat_bytes byte flat,
  write_flat-bytes flat byte enc short,
  simp (length-append {0}, length-write_value) (omega arith),
)

-- No entry is null, the types are in the table, and the sizes fit 32 bits.
abbrev pub AreWritable : List (Option FlatChunk) → Type 0
AreWritable [] = Unit {0}
AreWritable (none ∷ flats) = ⊥
AreWritable (some flat ∷ flats) =
    Returns (encode_chunk_type flat.type) (λ byte. Unit {0})
    × (length flat.contents < word_limit)
    × AreWritable flats

-- The size of the flat chunks in the file.
abbrev pub file_size : List (Option FlatChunk) → ℕ
file_size [] = 0
file_size (none ∷ flats) = file_size flats
file_size (some flat ∷ flats) = 13 + length flat.contents + file_size flats

-- From the i-th flat chunk on, whose bytes begin at `place`, each stored offset is the sum of the
-- place and the number of chunks before it.
abbrev AreShifted : ℕ → ℕ → List (Option FlatChunk) → Type 0
AreShifted place i [] = Unit {0}
AreShifted place i (none ∷ flats) = ⊥
AreShifted place i (some flat ∷ flats) =
    (flat.offset ≡ place + i) × AreShifted (place + (13 + length flat.contents)) (suc i) flats

assign_offsets-AreShifted :
    (place i : ℕ) (flats : List (Option FlatChunk))
    → AreWritable flats
    → place + i + file_size flats + length flats < word_limit
    → Returns
        (assign_offsets (place + i) flats)
        (λ placed. AreShifted place i placed × AreWritable placed)
unfolding assign_offsets size
assign_offsets-AreShifted place i [] n h = ([], refl, (tt, tt))
assign_offsets-AreShifted place i (none ∷ flats) n h = absurd n
assign_offsets-AreShifted place i (some flat ∷ flats) (encodes, short, n) h =
    let next = place + (13 + length flat.contents) in
    let (placed, run, (shifted, writable)) =
      assign_offsets-AreShifted next (suc i) flats n (omega arith) in
    let sum : (place + i + (2 + 4 * 3 + length flat.contents % word_limit)) % word_limit
        ≡ next + suc i =
      omega arith in
    (
      some (record flat { offset = place + i }) ∷ placed,
      simp (sum, run),
      ((refl, shifted), (encodes, short, writable)),
    )

-- The offset of a chunk, against the bytes that are written for those before it.
AreShifted-write_flats :
    (place i : ℕ) (before : List (Option FlatChunk)) (flat : FlatChunk)
    (after : List (Option FlatChunk))
    → AreShifted place i (before ++ some flat ∷ after)
    → AreWritable (before ++ some flat ∷ after)
    → Returns
        (write_flats before)
        (λ bytes. flat.offset ≡ place + length bytes + (i + length before))
unfolding write_flats
AreShifted-write_flats place i [] flat after (at, shifted) w = ([], refl, omega (arith, at))
AreShifted-write_flats place i (none ∷ before) flat after shifted w = absurd w
AreShifted-write_flats place i (some f ∷ before) flat after (at, shifted)
      ((byte, enc, _), short, w) =
    let (own, written, size) = length-write_flat f byte enc short in
    let (bytes, run, offset) =
      AreShifted-write_flats (place + (13 + length f.contents)) (suc i) before flat after shifted
        w in
    (own ++ bytes, simp (written, run), omega (arith, offset, size, length-append own bytes))

-- Each flat chunk's offset is behind the bytes of the header and of the chunks before it by as many
-- bytes as there are chunks before it.
abbrev pub AreBehind : List (Option FlatChunk) → Type 0
AreBehind placed =
    (before : List (Option FlatChunk)) (flat : FlatChunk) (after : List (Option FlatChunk))
    → placed ≡ before ++ some flat ∷ after
    → Returns (write_flats before) (λ bytes.
      flat.offset ≡ length (write_header (length placed % word_limit) ++ bytes) + length before)

-- For a list without null entries, whose types are in the table of chunk types and whose chunks fit
-- 32 bits together with their header, `assignOffsets` gives each flat chunk an offset that is too
-- large for the file that is written: it is the number of bytes that writeData writes for the header
-- and for the chunks before it, and one more for each of these chunks.
pub assign_offsets-AreBehind :
    (flats : List (Option FlatChunk))
    → AreWritable flats
    → header_size + file_size flats + length flats < word_limit
    → Returns (assign_offsets header_size flats) AreBehind
unfolding write_header
assign_offsets-AreBehind flats writable h =
    let (placed, run, (shifted, writable')) =
      assign_offsets-AreShifted header_size 0 flats writable (omega (arith, h)) in
    (
      placed,
      run,
      λ before flat after split.
          let (bytes, written, offset) =
            AreShifted-write_flats header_size 0 before flat after
              (subst (AreShifted header_size 0) split shifted)
              (subst AreWritable split writable') in
          let version_bytes = write_value 4 version in
          let count_bytes = write_value 4 (length placed % word_limit) in
          (
            bytes,
            written,
            omega (
              arith,
              offset,
              length-append (signature ++ (version_bytes ++ count_bytes)) bytes,
              length-append signature (version_bytes ++ count_bytes),
              length-append version_bytes count_bytes,
              length-write_value 4 version,
              length-write_value 4 (length placed % word_limit),
            ),
          ),
    )
