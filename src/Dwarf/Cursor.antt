-- ===== src/Dwarf/Cursor.antt =====
-- src/dwarf/cursor.h and cursor.cpp: DwarfCursor, which reads integers, LEB128 numbers, strings and
-- encoded pointers. Memory is a function from addresses to bytes; a 64-bit integer, signed or not, is
-- its pattern, a number below 2 ^ 64. The C++ shifts an int: a shift of 32 or more is undefined, and
-- the bits that a smaller one moves out are lost, as the compilers do it. The loops over the groups of
-- a LEB128 number have no bound in the source; here a run ends as a failure at the first such shift.
pub mod Leb128
use Prim.Native.Nat.{bit_or, bit_and}
use egalito.Base.{
  ℕ, zero, suc, ◌+◌, ◌-◌, ◌*◌, ◌/◌, ◌%◌, ◌^◌, Bool, true, false, ltb, leb, ◌==◌, if◌then◌else◌,
}
use egalito.Base.Result.{Result, ok, fail, undefined, out_of_fuel, ◌>>=◌}

abbrev pub Memory : Type 0
Memory = ℕ → ℕ

pub record DwarfCursor : Type 0 where
  pub start : ℕ
  pub cursor : ℕ

abbrev pub cursor_at : ℕ → DwarfCursor
cursor_at a = record { start = a; cursor = a }

abbrev pub get_offset : DwarfCursor → ℕ
get_offset c = (2 ^ 64 + c.cursor - c.start) % 2 ^ 64

abbrev pub skip : ℕ → DwarfCursor → DwarfCursor
skip bytes c = record c { cursor = (c.cursor + bytes) % 2 ^ 64 }

-- operator <
abbrev pub is_before : DwarfCursor → DwarfCursor → Bool
is_before c other = ltb c.cursor other.cursor

-- The unsigned integer of `width` bytes at an address, lowest byte first.
unfoldable pub load : Memory → ℕ → ℕ → ℕ
load m a zero = 0
load m a (suc width) = m a % 256 + 256 * load m (a + 1) width

-- next<ElementType> for an unsigned type of `width` bytes
abbrev pub next : Memory → ℕ → DwarfCursor → ℕ × DwarfCursor
next m width c = (load m c.cursor width, skip width c)

-- An integer of `bits` bits as a signed one of 64.
abbrev pub sign_extend : ℕ → ℕ → ℕ
sign_extend bits v = if ltb v (2 ^ (bits - 1)) then v else 2 ^ 64 - 2 ^ bits + v

-- next<ElementType> for a signed type
abbrev pub next_signed : Memory → ℕ → DwarfCursor → ℕ × DwarfCursor
next_signed m width c = (sign_extend (8 * width) (load m c.cursor width), skip width c)

-- (byte & 0x7f) << shift, an int, as 64 bits
unfoldable pub shift_left_int : ℕ → ℕ → Result ℕ
shift_left_int v shift =
    if ltb shift 32 then ok (sign_extend 32 ((v * 2 ^ shift) % 2 ^ 32)) else fail undefined

-- The loop of nextSleb128 and nextUleb128: the result, the shift and the last byte.
unfoldable pub next_groups : ℕ → Memory → ℕ → ℕ → DwarfCursor → Result (ℕ × ℕ × ℕ × DwarfCursor)
next_groups zero m result shift c = fail out_of_fuel
next_groups (suc fuel) m result shift c =
    let (byte, c') = next m 1 c in
    shift_left_int (byte % 128) shift >>= λ group.
    let result' = bit_or result group in
    let rest = next_groups fuel m result' (shift + 7) c' in
    if leb 0x80 byte then rest else ok (result', shift + 7, byte, c')

-- A seventh group would be shifted by 42.
abbrev pub groups : ℕ
groups = 6

unfoldable pub next_sleb128 : Memory → DwarfCursor → Result (ℕ × DwarfCursor)
next_sleb128 m c = next_groups groups m 0 0 c >>= λ (result, shift, byte, c').
    if leb 0x40 (byte % 128)
    then ok (bit_or result (((2 ^ 63 - 1) * 2 ^ shift) % 2 ^ 64), c')
    else ok (result, c')

unfoldable pub next_uleb128 : Memory → DwarfCursor → Result (ℕ × DwarfCursor)
next_uleb128 m c = next_groups groups m 0 0 c >>= λ (result, shift, byte, c'). ok (result, c')

-- nextString: the cursor behind the terminator
unfoldable pub next_string : ℕ → Memory → DwarfCursor → Result DwarfCursor
next_string zero m c = fail out_of_fuel
next_string (suc fuel) m c =
    let (byte, c') = next m 1 c in
    let rest = next_string fuel m c' in if byte == 0 then ok c' else rest

-- The value that parseNextEncodedPointer adds.
unfoldable pub encoded_value : Memory → ℕ → DwarfCursor → Result (ℕ × DwarfCursor)
encoded_value m form c =
    if form == 0x00
    then ok (next m 8 c)
    else if form == 0x04
    then ok (next m 8 c)
    else if form == 0x01
    then next_uleb128 m c
    else if form == 0x02
    then ok (next m 2 c)
    else if form == 0x03
    then ok (next m 4 c)
    else if form == 0x09
    then next_sleb128 m c
    else if form == 0x0a
    then ok (next_signed m 2 c)
    else if form == 0x0b
    then ok (next_signed m 4 c)
    else if form == 0x0c
    then ok (next_signed m 8 c)
    else ok (0, c)

-- nextEncodedPointer for a 64-bit type
unfoldable pub next_encoded_pointer : Memory → ℕ → DwarfCursor → Result (ℕ × DwarfCursor)
next_encoded_pointer m encoding c =
    if encoding == 0xff
    then ok (0, c)
    else (let result = if bit_and encoding 0x70 == 0x10 then c.cursor else 0 in
        encoded_value m (encoding % 16) c >>= λ (value, c'). ok ((result + value) % 2 ^ 64, c'))
