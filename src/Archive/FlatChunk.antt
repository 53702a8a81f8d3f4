-- ===== src/Archive/FlatChunk.antt =====
-- src/archive/flatchunk.h and flatchunk.cpp: FlatChunk without the pointer to its chunk, and
-- FlatChunkList, a vector of pointers that may be null. Each flat chunk stands in one list once, so
-- the list holds the objects themselves. A type is an enumerator, of which the source keeps the number.
use egalito.Base.{
  ℕ, ◌+◌, ◌-◌, ◌%◌, ◌^◌, List, [], ◌++◌, Option, none, some, length, get_elem?, set, replicate, ltb,
  if◌then◌else◌,
}
use egalito.Base.Result.{Result, ok, fail, Failure}
use egalito.Archive.ChunkTypes.{ChunkType}

pub record FlatChunk : Type 0 where
  pub type : ChunkType
  pub id : ℕ
  pub offset : ℕ
  pub contents : List ℕ

-- uint32_t wraps at this number.
abbrev pub word_limit : ℕ
word_limit = 2 ^ 32

-- getSize, which cuts the length to 32 bits
unfoldable pub size : FlatChunk → ℕ
size flat = length flat.contents % word_limit

-- FlatChunk(type, id, data)
unfoldable pub new : ChunkType → ℕ → List ℕ → FlatChunk
new type id contents = record { type = type; id = id; offset = 0; contents = contents }

-- appendData
unfoldable pub append_data : FlatChunk → List ℕ → FlatChunk
append_data flat more = record flat { contents = flat.contents ++ more }

pub record FlatChunkList : Type 0 where
  pub flat_list : List (Option FlatChunk)
  pub next_id : ℕ

unfoldable pub empty : FlatChunkList
empty = record { flat_list = []; next_id = 0 }

-- flatList.resize(n), where it does not shrink
unfoldable pub grow : List (Option FlatChunk) → ℕ → List (Option FlatChunk)
grow flats n = flats ++ replicate (n - length flats) none

-- addFlatChunk: the sum with the id wraps
unfoldable pub add_flat_chunk : FlatChunkList → FlatChunk → Result FlatChunkList
add_flat_chunk list flat =
    let needed = (flat.id + 1) % word_limit in
    let flats =
      if ltb (length list.flat_list) needed then grow list.flat_list needed else list.flat_list in
    if ltb flat.id (length flats)
    then ok (record list { flat_list = set flats flat.id (some flat) })
    else fail Failure.out_of_bounds

-- getNextID
unfoldable pub get_next_id : FlatChunkList → ℕ × FlatChunkList
get_next_id list = (list.next_id, record list { next_id = (list.next_id + 1) % word_limit })

-- newFlatChunk(type)
unfoldable pub new_flat_chunk : FlatChunkList → ChunkType → Result FlatChunkList
new_flat_chunk list type =
    let (id, list') = get_next_id list in add_flat_chunk list' (new type id [])

-- get, with its assertion
unfoldable pub get : FlatChunkList → ℕ → Result (Option FlatChunk)
get list i = elim (get_elem? list.flat_list i) [
  | none ↦ fail Failure.assertion
  | some flat ↦ ok flat
]
