-- ===== src/Archive/Stream.antt =====
-- src/archive/stream.h and stream.cpp: ArchiveStreamReader and ArchiveStreamWriter. A stream is its
-- remaining bytes with the eofbit and the failbit, as std::istream::read and std::getline set them;
-- a writer returns the bytes that it appends. Integers stand in memory as on a little-endian machine,
-- on which the sources run. BufferedStreamWriter and InMemoryStreamReader are not modelled.
pub mod Laws
use mathlib.Core.Bool.{true, false}
use egalito.Base.{
  ℕ, zero, suc, ◌+◌, ◌-◌, ◌*◌, ◌/◌, ◌%◌, ◌^◌, Bool, ◌&&◌, ◌||◌, not, List, [], ◌∷◌, ◌++◌, length,
  take, drop, replicate, ltb, ◌==◌, if◌then◌else◌,
}

pub record InStream : Type 0 where
  pub bytes : List ℕ
  pub eof : Bool
  pub failed : Bool

-- A stream in a good state.
abbrev pub opened : List ℕ → InStream
opened bytes = record { bytes = bytes; eof = false; failed = false }

-- stream.read(buffer, n): the bytes that were stored, and the stream behind them
unfoldable pub read_raw : ℕ → InStream → List ℕ × InStream
read_raw n s = if s.eof || s.failed then ([], record s { failed = true }) else (
  take n s.bytes,
  record { bytes = drop n s.bytes; eof = ltb (length s.bytes) n; failed = ltb (length s.bytes) n },
)

-- The integer of the given bytes, lowest first.
unfoldable pub le_value : List ℕ → ℕ
le_value [] = 0
le_value (b ∷ bs) = b + 256 * le_value bs

-- The lowest `width` bytes of an integer.
unfoldable pub le_bytes : ℕ → ℕ → List ℕ
le_bytes zero v = []
le_bytes (suc width) v = (v % 256) ∷ le_bytes width (v / 256)

-- readInto for uint8_t, uint16_t, uint32_t, uint64_t (widths 1, 2, 4, 8): whether it succeeded, and
-- the variable, of which a short read overwrites the low bytes only
unfoldable pub read_into : ℕ → ℕ → InStream → Bool × ℕ × InStream
read_into width value s =
    let (got, s') = read_raw width s in
    let above = 256 ^ length got in (not s'.failed, le_value got + value / above * above, s')

-- readInto(bool &): `garbage` is what stands in the uninitialised byte
unfoldable pub read_flag : ℕ → InStream → Bool × Bool × InStream
read_flag garbage s =
    let (success, value, s') = read_into 1 garbage s in (success, value == b'1', s')

-- read<ValueType>; readID is the width 4
unfoldable pub read : ℕ → InStream → ℕ × InStream
read width s = let (success, value, s') = read_into width 0 s in (value, s')

-- std::getline(stream, value, '\0') over the bytes that remain: the string, whether its end was
-- found, and what stands behind it
unfoldable pub split_line : List ℕ → List ℕ × Bool × List ℕ
split_line [] = ([], false, [])
split_line (b ∷ bs) =
    let (line, found, rest) = split_line bs in
    if b == 0 then ([], true, bs) else (b ∷ line, found, rest)

-- readString: at the end of the stream without a '\0', getline sets the eofbit, and the failbit too
-- if there was no byte
unfoldable pub read_string : InStream → List ℕ × InStream
read_string s =
    let (line, found, rest) = split_line s.bytes in
    if s.eof || s.failed
    then ([], record s { failed = true })
    else (line, record { bytes = rest; eof = not found; failed = not found && (length line == 0) })

-- readFixedLengthBytes: a short read leaves zeros at the end
unfoldable pub read_fixed : ℕ → InStream → List ℕ × InStream
read_fixed len s = let (got, s') = read_raw len s in (got ++ replicate (len - length got) 0, s')

-- readBytes<SizeType>
unfoldable pub read_bytes : ℕ → InStream → List ℕ × InStream
read_bytes width s = let (size, s') = read width s in read_fixed size s'

-- stillGood
unfoldable pub still_good : InStream → Bool
still_good s = not s.eof && not s.failed

-- writeValue for the unsigned types
unfoldable pub write_value : ℕ → ℕ → List ℕ
write_value width value = le_bytes width value

-- writeValue(bool)
unfoldable pub write_flag : Bool → List ℕ
write_flag flag = write_value 1 (if flag then b'1' else b'0')

-- writeString(const std::string &)
unfoldable pub write_string : List ℕ → List ℕ
write_string value = value ++ 0 ∷ []

-- writeFixedLengthBytes
unfoldable pub write_fixed : List ℕ → ℕ → List ℕ
write_fixed value len = take len value

-- writeBytes<SizeType>
unfoldable pub write_bytes : ℕ → List ℕ → List ℕ
write_bytes width value = write_value width (length value) ++ write_fixed value (length value)
