-- ===== src/Archive/Stream/Laws.antt =====
-- Round trips through the streams of src/archive/stream.cpp.
use mathlib.Core.Bool.{true, false}
use native.Mathlib.Nat.{pow-suc, one-le-pow, sub_self, div-eq_of_lt}
use egalito.Base.{
  ℕ, zero, suc, ◌+◌, ◌*◌, ◌/◌, ◌^◌, ◌<◌, ◌≡◌, refl, ap, Bool, List, [], ◌∷◌, ◌++◌, arith, length,
  take, ltb, ◌==◌, length-append, append_assoc, append-nil, take-append, drop-append, take-length,
  subst,
}
use egalito.Archive.Stream.{
  opened, read_raw, le_value, le_bytes, read_into, read, read_flag, split_line, read_string,
  read_fixed, read_bytes, write_value, write_flag, write_string, write_fixed, write_bytes,
}

pub length-le_bytes : (width v : ℕ) → length (le_bytes width v) ≡ width
unfolding le_bytes
length-le_bytes zero v = refl
length-le_bytes (suc width) v = ap suc (length-le_bytes width (v / 256))

pub le_value-le_bytes : (width v : ℕ) → v < 256 ^ width → le_value (le_bytes width v) ≡ v
unfolding le_bytes le_value
le_value-le_bytes zero v h = omega arith
le_value-le_bytes (suc width) v h =
    omega (arith, le_value-le_bytes width (v / 256) (omega (arith, pow-suc 256 width)))

-- Enough bytes are there: `read` takes exactly these.
pub read_raw-append :
    (xs rest : List ℕ) → read_raw (length xs) (opened (xs ++ rest)) ≡ (xs, opened rest)
unfolding read_raw
read_raw-append xs rest =
    let long : ltb (length (xs ++ rest)) (length xs) ≡ false =
      ground (arith, length-append xs rest) in
    rw (long, take-append xs rest, drop-append xs rest)

pub read_raw-le_bytes :
    (width v : ℕ) (rest : List ℕ)
    → read_raw width (opened (le_bytes width v ++ rest)) ≡ (le_bytes width v, opened rest)
read_raw-le_bytes width v rest =
    subst (λ n. read_raw n (opened (le_bytes width v ++ rest)) ≡ (le_bytes width v, opened rest))
      (length-le_bytes width v) (read_raw-append (le_bytes width v) rest)

-- An unsigned integer of the given width is read back as it was written, whatever the variable held.
pub read_into-write_value :
    (width v garbage : ℕ) (rest : List ℕ)
    → v < 256 ^ width
    → garbage < 256 ^ width
    → read_into width garbage (opened (write_value width v ++ rest)) ≡ (true, v, opened rest)
unfolding read_into write_value
read_into-write_value width v garbage rest h g =
    rw (read_raw-le_bytes width v rest, length-le_bytes width v, le_value-le_bytes width v h)
      (rw (nothing_above width v garbage g))
  where
    nothing_above :
        (width v garbage : ℕ) → garbage < 256 ^ width → v + garbage / 256 ^ width * 256 ^ width ≡ v
    nothing_above width v garbage g =
        let none : garbage / 256 ^ width ≡ 0 = div-eq_of_lt g in rw none (omega arith)

pub read-write_value :
    (width v : ℕ) (rest : List ℕ)
    → v < 256 ^ width
    → read width (opened (write_value width v ++ rest)) ≡ (v, opened rest)
unfolding read
read-write_value width v rest h =
    rw (read_into-write_value width v 0 rest h (one-le-pow width 256 (omega arith)))

-- A flag is read back as it was written.
pub read_flag-write_flag :
    (flag : Bool) (garbage : ℕ) (rest : List ℕ)
    → garbage < 256
    → read_flag garbage (opened (write_flag flag ++ rest)) ≡ (true, flag, opened rest)
unfolding read_flag write_flag
read_flag-write_flag true garbage rest h =
    rw (read_into-write_value 1 b'1' garbage rest (omega arith) h)
read_flag-write_flag false garbage rest h =
    rw (read_into-write_value 1 b'0' garbage rest (omega arith) h)

-- No byte of the string is the terminator.
abbrev pub HasNoNul : List ℕ → Type 0
HasNoNul [] = Unit {0}
HasNoNul (b ∷ bs) = (0 < b) × HasNoNul bs

split_line-append :
    (xs rest : List ℕ) → HasNoNul xs → split_line (xs ++ 0 ∷ rest) ≡ (xs, true, rest)
unfolding split_line
split_line-append [] rest h = refl
split_line-append (x ∷ xs) rest h =
    let other : (x == 0) ≡ false = ground arith in rw (split_line-append xs rest h.1, other)

-- A string without a terminator in it is read back as it was written.
pub read_string-write_string :
    (value rest : List ℕ)
    → HasNoNul value
    → read_string (opened (write_string value ++ rest)) ≡ (value, opened rest)
unfolding read_string write_string
read_string-write_string value rest h =
    rw (append_assoc value (0 ∷ []) rest, split_line-append value rest h)

pub read_fixed-append :
    (value rest : List ℕ)
    → read_fixed (length value) (opened (value ++ rest)) ≡ (value, opened rest)
unfolding read_fixed
read_fixed-append value rest =
    rw (read_raw-append value rest) (rw (sub_self (length value), append-nil value))

-- A string of bytes is read back as it was written, if its length fits the type of its length field.
pub read_bytes-write_bytes :
    (width : ℕ) (value rest : List ℕ)
    → length value < 256 ^ width
    → read_bytes width (opened (write_bytes width value ++ rest)) ≡ (value, opened rest)
unfolding read_bytes write_bytes write_fixed
read_bytes-write_bytes width value rest h = rw (
  append_assoc (write_value width (length value)) (take (length value) value) rest,
  read-write_value width (length value) (take (length value) value ++ rest) h,
  take-length value,
  read_fixed-append value rest,
)
