-- ===== src/Chunk.antt =====
-- src/chunk: the chunks of the hierarchy (chunk.h, chunk.cpp, size.h, size.cpp) and their positions
-- (position.h, position.cpp) in the factory's default mode, MODE_OFFSET, which the program never
-- changes. A chunk is an entry of a store, and a pointer to one an optional number. Addresses are
-- 64-bit and wrap around. Chunk names, visitors, the addresses of the JIT table (POSITION_JIT_GS) and
-- the second position of AssignableChunkImpl are not modelled.
pub mod Frame
pub mod Placed
pub mod Recalculated
use egalito.Base.{
  ℕ, zero, suc, ◌+◌, ◌-◌, ◌%◌, ◌^◌, Bool, List, [], ◌∷◌, Option, none, some, ltb, ◌==◌,
  if◌then◌else◌,
}
use egalito.Base.Result.{Result, ok, fail, assertion, null_pointer, out_of_fuel, unsupported, ◌>>=◌}
use egalito.Range.{Range}
use egalito.Sandbox.{Slot}

-- The classes AbsolutePosition, OffsetPosition and SlotPosition; the chunk that an OffsetPosition
-- refers to is its owner.
pub data Position : Type 0 where
  absolute : ℕ → Position
  offset_by : ℕ → Position
  slot_at : Slot → Position

-- What addToSize does: ComputedSizeDecorator adds, the lists of chunks and the module ignore it, and
-- ChunkImpl throws.
pub data Sizing : Type 0 where
  computed : Sizing
  ignored : Sizing
  fixed : Sizing

pub record Chunk : Type 0 where
  pub parent : Option ℕ
  pub prev : Option ℕ
  pub next : Option ℕ
  pub children : Option (List ℕ)
  pub position : Option Position
  pub size : ℕ
  pub sizing : Sizing
  pub is_module : Bool

abbrev pub Store : Type 0
Store = ℕ → Chunk

unfoldable pub write : Store → ℕ → Chunk → Store
write s p c x = if x == p then c else s x

abbrev pub set_parent : ℕ → Option ℕ → Store → Store
set_parent c p s = write s c (record (s c) { parent = p })

abbrev pub set_previous : ℕ → Option ℕ → Store → Store
set_previous c p s = write s c (record (s c) { prev = p })

abbrev pub set_next : ℕ → Option ℕ → Store → Store
set_next c n s = write s c (record (s c) { next = n })

abbrev pub set_children : ℕ → List ℕ → Store → Store
set_children c cs s = write s c (record (s c) { children = some cs })

abbrev pub set_position : ℕ → Option Position → Store → Store
set_position c p s = write s c (record (s c) { position = p })

-- chunk->getChildren(), which is followed
unfoldable pub get_children : Store → ℕ → Result (List ℕ)
get_children s c = elim ((s c).children) [ none ↦ fail null_pointer | some cs ↦ ok cs ]

-- ComputedSize::adjustBy, of a difference as its 64-bit pattern
unfoldable pub adjust_by : ℕ → ℕ → Result ℕ
adjust_by add size =
    let sum = (size + add) % 2 ^ 64 in if ltb sum (2 ^ 63) then ok sum else fail assertion

-- addToSize
unfoldable pub add_to_size : ℕ → Chunk → Result Chunk
add_to_size add c = by_sizing c.sizing
  where
    by_sizing : Sizing → Result Chunk
    by_sizing computed = adjust_by add c.size >>= λ size. ok (record c { size = size })
    by_sizing ignored = ok c
    by_sizing fixed = fail unsupported

-- Position::get, given the address of the parent if there is one
unfoldable pub position_get : Option (Result ℕ) → Option Position → Result ℕ
position_get above none = fail null_pointer
position_get above (some (absolute a)) = ok a
position_get above (some (slot_at slot)) = ok slot.address
position_get none (some (offset_by o)) = ok 0
position_get (some above) (some (offset_by o)) = above >>= λ a. ok ((a + o) % 2 ^ 64)

-- getAddress, with fuel for the chunks above
unfoldable pub get_address : ℕ → Store → ℕ → Result ℕ
get_address zero s c = fail out_of_fuel
get_address (suc fuel) s c =
    position_get (elim ((s c).parent) [ none ↦ none | some p ↦ some (get_address fuel s p) ])
      ((s c).position)

-- getRange
unfoldable pub get_range : ℕ → Store → ℕ → Result Range
get_range fuel s c = get_address fuel s c >>= λ a. ok (record { start = a; size = (s c).size })

-- OffsetPosition::recalculate: the offset
unfoldable pub recalculated_offset : ℕ → Store → ℕ → Result ℕ
recalculated_offset fuel s c = from ((s c).parent) ((s c).prev)
  where
    from : Option ℕ → Option ℕ → Result ℕ
    from none prev = ok 0
    from (some parent) none = ok 0
    from (some parent) (some prev) = get_address fuel s prev >>= λ a.
        get_address fuel s parent >>= λ b. ok (((2 ^ 64 + a - b) % 2 ^ 64 + (s prev).size) % 2 ^ 64)

-- Position::recalculate
unfoldable pub recalculate : ℕ → Store → ℕ → Position → Result Store
recalculate fuel s c (absolute a) = ok s
recalculate fuel s c (slot_at slot) = ok s
recalculate fuel s c (offset_by o) =
    recalculated_offset fuel s c >>= λ o'. ok (set_position c (some (offset_by o')) s)

-- PositionManager::setAddress: Position::set
unfoldable pub set_address : ℕ → ℕ → ℕ → Store → Result Store
set_address fuel value c s = by_position ((s c).position) ((s c).parent)
  where
    by_position : Option Position → Option ℕ → Result Store
    by_position none parent = fail null_pointer
    by_position (some (absolute a)) parent = ok (set_position c (some (absolute value)) s)
    by_position (some (slot_at slot)) parent =
        ok (set_position c (some (slot_at (record slot { address = value }))) s)
    by_position (some (offset_by o)) none = fail assertion
    by_position (some (offset_by o)) (some p) = get_address fuel s p >>= λ a.
        ok (set_position c (some (offset_by ((2 ^ 64 + value - a) % 2 ^ 64))) s)

-- PositionFactory::makePosition in MODE_OFFSET, which makes an OffsetPosition with or without a
-- previous chunk
abbrev pub make_position : ℕ → Position
make_position offset = offset_by offset
