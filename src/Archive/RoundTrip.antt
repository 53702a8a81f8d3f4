-- ===== src/Archive/RoundTrip.antt =====
-- The file that src/archive/writer.cpp writes, read by src/archive/reader.cpp.
use mathlib.Core.Bool.{true}
use egalito.Base.{
  ℕ, suc, ◌+◌, ◌-◌, ◌*◌, ◌%◌, ◌<◌, ◌≡◌, refl, ap, sym, subst, ◌∙◌, List, [], ◌∷◌, ◌++◌, arith,
  Option, none, some, length, get_or, set, ltb, length-append, append_assoc, append-nil,
  take-length,
}
use egalito.Base.Result.{ok, Returns}
use egalito.Archive.Stream.{opened, write_value, write_fixed, still_good}
use egalito.Archive.Stream.Laws.{read-write_value, read_into-write_value, read_fixed-append}
use egalito.Archive.ChunkTypes.{ChunkType, number, encoded, encode_chunk_type, decode_chunk_type}
use egalito.Archive.FlatChunk.{
  FlatChunk, FlatChunkList, word_limit, size, new, empty, grow, add_flat_chunk,
}
use egalito.Archive.Writer.{
  signature, version, assign_offsets, header_size, write_flat, write_flats, write_header,
  write_data, write,
}
use egalito.Archive.Reader.{
  EgalitoArchive, same_bytes, read_count, read_header, read_flats, read_archive,
}

-- A flat chunk that fits the format, at its place `i` in the list: its type is one of those with a
-- byte of their own, its size fits 32 bits.
pub record Fits (i : ℕ) (flat : FlatChunk) : Type 0 where
  pub place : flat.id ≡ i
  pub typed : number flat.type < 7
  pub short : length flat.contents < word_limit

-- A list without null entries whose flat chunks fit the format and have their places as ids.
abbrev pub AreStored : ℕ → List (Option FlatChunk) → Type 0
AreStored i [] = Unit {0}
AreStored i (none ∷ flats) = ⊥
AreStored i (some flat ∷ flats) = Fits i flat × AreStored (suc i) flats

-- The offsets fit 32 bits.
abbrev HaveOffsets : List (Option FlatChunk) → Type 0
HaveOffsets [] = Unit {0}
HaveOffsets (none ∷ flats) = ⊥
HaveOffsets (some flat ∷ flats) = (flat.offset < word_limit) × HaveOffsets flats

-- Equal up to the offsets.
abbrev pub SameChunks : List (Option FlatChunk) → List (Option FlatChunk) → Type 0
SameChunks [] [] = Unit {0}
SameChunks (some x ∷ xs) (some y ∷ ys) =
    (x.type ≡ y.type) × (x.id ≡ y.id) × (x.contents ≡ y.contents) × SameChunks xs ys
SameChunks _ _ = ⊥

pub encode-decode :
    (t : ChunkType)
    → number t < 7
    → Returns (encode_chunk_type t) (λ byte. (byte < 256) × (decode_chunk_type byte ≡ t))
unfolding number encode_chunk_type decode_chunk_type
encode-decode t h = (get_or encoded (number t) 0, ground arith, (ground arith, ground arith))

grow-one : (xs : List (Option FlatChunk)) (n : ℕ) → n ≡ length xs + 1 → grow xs n ≡ xs ++ none ∷ []
unfolding grow
grow-one xs n e = let one : n - length xs ≡ 1 = omega arith in rw one

set-append-last {ℓ} :
    {A : Type ℓ} (xs : List A) (u v : A) → set (xs ++ u ∷ []) (length xs) v ≡ xs ++ v ∷ []
set-append-last [] u v = refl
set-append-last (x ∷ xs) u v = ap (◌∷◌ x) (set-append-last xs u v)

add_flat_chunk-append :
    (list : FlatChunkList) (flat : FlatChunk)
    → flat.id ≡ length list.flat_list
    → flat.id + 1 < word_limit
    → add_flat_chunk list flat ≡ ok (record list { flat_list = list.flat_list ++ some flat ∷ [] })
unfolding add_flat_chunk
add_flat_chunk-append list flat e h =
    let xs = list.flat_list in
    let more : ltb (length xs) ((flat.id + 1) % word_limit) ≡ true = ground arith in
    let grown : grow xs ((flat.id + 1) % word_limit) ≡ xs ++ none ∷ [] =
      grow-one xs ((flat.id + 1) % word_limit) (omega arith) in
    let inside : ltb flat.id (length (xs ++ none ∷ [])) ≡ true =
      ground (arith, length-append xs (none ∷ [])) in
    let placed : set (xs ++ none ∷ []) flat.id (some flat) ≡ xs ++ some flat ∷ [] =
      ap (λ i. set (xs ++ none ∷ []) i (some flat)) e ∙ set-append-last xs none (some flat) in
    simp (more, grown, inside, placed)

assign_offsets-SameChunks :
    (i total : ℕ) (flats : List (Option FlatChunk))
    → total < word_limit
    → AreStored i flats
    → Returns (assign_offsets total flats) (λ placed.
      AreStored i placed
      × HaveOffsets placed
      × SameChunks placed flats
      × (length placed ≡ length flats))
unfolding assign_offsets
assign_offsets-SameChunks i total [] h s = ([], refl, (tt, tt, tt, refl))
assign_offsets-SameChunks i total (none ∷ flats) h s = absurd s
assign_offsets-SameChunks i total (some flat ∷ flats) h s =
    let (placed, run, (stored, offsets, same, long)) =
      assign_offsets-SameChunks (suc i) ((total + (2 + 4 * 3 + size flat)) % word_limit) flats
        (omega arith) s.1 in
    (
      some (record flat { offset = total }) ∷ placed,
      simp run,
      (
        (record { place = s.0.place; typed = s.0.typed; short = s.0.short }, stored),
        (h, offsets),
        (refl, refl, refl, same),
        ap suc long,
      ),
    )

-- The bytes of one flat chunk.
abbrev pub flat_bytes : ℕ → FlatChunk → List ℕ
flat_bytes byte flat =
    write_value 1 byte
    ++ (write_value 4 flat.id
        ++ (write_value 4 flat.offset ++ (write_value 4 (length flat.contents) ++ flat.contents)))

pub write_flat-bytes :
    (flat : FlatChunk) (byte : ℕ)
    → encode_chunk_type flat.type ≡ ok byte
    → length flat.contents < word_limit
    → write_flat flat ≡ ok (flat_bytes byte flat)
unfolding write_flat write_fixed size
write_flat-bytes flat byte enc short =
    let len : length flat.contents % word_limit ≡ length flat.contents = omega arith in
    simp (enc, len, take-length flat.contents)

-- The reader takes exactly the bytes of one flat chunk, and appends it to the list.
read_flats-step :
    (left byte : ℕ) (flat : FlatChunk) (rest : List ℕ) (list : FlatChunkList)
    → Fits (length list.flat_list) flat
    → byte < 256
    → decode_chunk_type byte ≡ flat.type
    → flat.offset < word_limit
    → length list.flat_list + 1 < word_limit
    → read_flats (suc left) (opened (flat_bytes byte flat ++ rest)) list
      ≡ read_flats left (opened rest) (record list { flat_list = list.flat_list ++ some flat ∷ [] })
unfolding read_flats new
read_flats-step left byte flat rest list f low dec o h =
    let after_size = flat.contents ++ rest in
    let after_offset = write_value 4 (length flat.contents) ++ after_size in
    let after_id = write_value 4 flat.offset ++ after_offset in
    let after_type = write_value 4 flat.id ++ after_id in
    let shape : flat_bytes byte flat ++ rest ≡ write_value 1 byte ++ after_type =
      simp append_assoc in
    rw (
      shape,
      read-write_value 1 byte after_type low,
      read-write_value 4 flat.id after_id (omega (arith, f.place)),
      read-write_value 4 flat.offset after_offset o,
      read-write_value 4 (length flat.contents) after_size f.short,
      read_fixed-append flat.contents rest,
      dec,
      add_flat_chunk-append list flat f.place (omega (arith, f.place)),
    )

-- All flat chunks, behind those that the list has.
read_flats-write_flats :
    (flats : List (Option FlatChunk)) (list : FlatChunkList) (rest : List ℕ)
    → AreStored (length list.flat_list) flats
    → HaveOffsets flats
    → length list.flat_list + length flats < word_limit
    → Returns (write_flats flats) (λ bytes.
      read_flats (length flats) (opened (bytes ++ rest)) list
      ≡ ok (some (record list { flat_list = list.flat_list ++ flats })))
unfolding write_flats read_flats
read_flats-write_flats [] list rest s o h = ([], refl, rw (append-nil list.flat_list))
read_flats-write_flats (none ∷ flats) list rest s o h = absurd s
read_flats-write_flats (some flat ∷ flats) list rest s o h =
    let (byte, enc, (low, dec)) = encode-decode flat.type s.0.typed in
    let list' : FlatChunkList = record {
      flat_list = list.flat_list ++ some flat ∷ [];
      next_id = list.next_id;
    } in
    let longer : length list'.flat_list ≡ suc (length list.flat_list) =
      omega (arith, length-append list.flat_list (some flat ∷ [])) in
    let (bytes, run, reads) =
      read_flats-write_flats flats list' rest (subst (λ n. AreStored n flats) (sym longer) s.1) o.1
        (omega (arith, longer)) in
    (
      flat_bytes byte flat ++ bytes,
      simp (write_flat-bytes flat byte enc s.0.short, run),
      ap (λ (xs : List ℕ). read_flats (suc (length flats)) (opened xs) list)
            (append_assoc (flat_bytes byte flat) bytes rest)
          ∙ read_flats-step (length flats) byte flat (bytes ++ rest) list s.0 low dec o.0
              (omega arith)
          ∙ reads
          ∙ ap
              (λ (xs : List (Option FlatChunk)).
                ok (some (record { flat_list = xs; next_id = list.next_id })))
              (append_assoc list.flat_list (some flat ∷ []) flats),
    )

read_header-write_header :
    (count count_garbage version_garbage : ℕ) (rest : List ℕ)
    → count < word_limit
    → count_garbage < word_limit
    → version_garbage < word_limit
    → read_header count_garbage version_garbage (opened (write_header count ++ rest))
      ≡ some (record { flat_count = count; version = version; file = opened rest })
unfolding read_header read_count write_header same_bytes still_good
read_header-write_header count g₁ g₂ rest h k₁ k₂ =
    let after_version = write_value 4 count ++ rest in
    let after_signature = write_value 4 version ++ after_version in
    let shape : (signature ++ (write_value 4 version ++ write_value 4 count)) ++ rest
        ≡ signature ++ after_signature =
      simp append_assoc in
    rw (
      shape,
      read_fixed-append signature after_signature,
      read_into-write_value 4 version g₂ after_version (omega arith) k₂,
      read_into-write_value 4 count g₁ rest h k₁,
    )

-- Writing and reading an archive gives back its flat chunks. If the list has no null entry, each id
-- is the place in the list, the types stand before InitFunctionList, and all sizes and the count fit
-- 32 bits, then `write` succeeds, and `read` of its bytes succeeds, whatever its variables held
-- before: the version is the current one, the chunks are those of the list, in its order, with their
-- types, ids and data, and their offsets are those that `assignOffsets` assigns.
pub read_archive-write :
    (flats : List (Option FlatChunk)) (count_garbage version_garbage : ℕ)
    → AreStored 0 flats
    → length flats < word_limit
    → count_garbage < word_limit
    → version_garbage < word_limit
    → Returns (assign_offsets header_size flats) (λ placed.
      SameChunks placed flats
      × Returns (write flats) (λ bytes.
        Returns (read_archive count_garbage version_garbage (opened bytes)) (λ archive.
          (read : EgalitoArchive) × (archive ≡ some read)
          × (read.version ≡ version)
          × (read.flat_list.flat_list ≡ placed))))
unfolding write write_data read_archive empty
read_archive-write flats g₁ g₂ s h k₁ k₂ =
    let (placed, assigned, (stored, offsets, same, long)) =
      assign_offsets-SameChunks 0 header_size flats (omega arith) s in
    let (bytes, run, reads) =
      read_flats-write_flats placed (record { flat_list = []; next_id = 0 }) [] stored offsets
        (omega arith) in
    let count : length placed % word_limit ≡ length placed = omega arith in
    let header = read_header-write_header (length placed) g₁ g₂ (bytes ++ []) (omega arith) k₁ k₂ in
    let archive : EgalitoArchive = record {
      flat_list = record { flat_list = placed; next_id = 0 };
      version = version;
    } in
    (
      placed,
      assigned,
      (
        same,
        (
          write_header (length placed) ++ bytes,
          simp (assigned, run, count),
          (
            some archive,
            ap (λ (xs : List ℕ). read_archive g₁ g₂ (opened (write_header (length placed) ++ xs)))
                  (sym (append-nil bytes))
                ∙ rw (header, read_archive) (rw (reads)),
            (archive, refl, refl, refl),
          ),
        ),
      ),
    )
