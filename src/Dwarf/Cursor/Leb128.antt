-- ===== src/Dwarf/Cursor/Leb128.antt =====
-- nextUleb128 of src/dwarf/cursor.cpp: where its loop ends, and the encoding that it reads.
use Prim.Native.Nat.{digits, max, bit_or, bit_or-bitwise}
use native.Mathlib.Nat.{pow-suc, mul-le-mul_right}
use egalito.Base.{
  ℕ, zero, suc, ◌+◌, ◌*◌, ◌/◌, ◌%◌, ◌^◌, ◌≤◌, ◌<◌, ◌≡◌, refl, ap, ap₂, ◌∙◌, true, false, ltb, leb,
  List, [], ◌∷◌, length, ltb→lt, lt→ltb, leb→le, if◌then◌else◌, subst, Bool-cases, arith, inl, inr,
  ◌⊎◌,
}
use egalito.Base.Result.{Result, Returns, ok, fail, ◌>>=◌, undefined}
use egalito.Dwarf.Cursor.{
  Memory, DwarfCursor, load, skip, sign_extend, shift_left_int, next_groups, next_uleb128,
}

-- The cursor some bytes on, and the byte there.
abbrev pub ahead : ℕ → DwarfCursor → DwarfCursor
ahead zero c = c
ahead (suc n) c = ahead n (skip 1 c)

abbrev pub byte_at : Memory → ℕ → DwarfCursor → ℕ
byte_at m n c = load m (ahead n c).cursor 1

-- The byte k on is the first one below 128.
abbrev pub IsLast : Memory → ℕ → DwarfCursor → Type 0
IsLast m k c = (byte_at m k c < 128) × ((j : ℕ) → j < k → 128 ≤ byte_at m j c)

-- A run over at most n bytes: it returns with the cursor behind the first byte below 128, or there is
-- none among them and its next shift is undefined.
abbrev pub EndsWithin {ℓ} :
    {A : Type ℓ} → ℕ → Memory → DwarfCursor → (A → DwarfCursor) → Result A → Type ℓ
EndsWithin n m c cursor_of r =
    ((k : ℕ) × (k < n) × IsLast m k c × Returns r (λ a. cursor_of a ≡ ahead (suc k) c))
    ⊎ (((j : ℕ) → j < n → 128 ≤ byte_at m j c) × (r ≡ fail undefined))

shift_left_int-returns : (v s : ℕ) → s < 32 → Returns (shift_left_int v s) (λ g. Unit {0})
unfolding shift_left_int
shift_left_int-returns v s h = (sign_extend 32 ((v * 2 ^ s) % 2 ^ 32), rw (lt→ltb s 32 h) refl, tt)

shift_left_int-far : (v s : ℕ) → s ≡ 35 → shift_left_int v s ≡ fail undefined
unfolding shift_left_int
shift_left_int-far v s e = rw e refl

abbrev end_of : ℕ × ℕ × ℕ × DwarfCursor → DwarfCursor
end_of (r, s, b, c) = c

-- What holds of the byte at the cursor and of those behind it.
all-more :
    (m : Memory) (k : ℕ) (c : DwarfCursor)
    → 128 ≤ byte_at m 0 c
    → ((j : ℕ) → j < k → 128 ≤ byte_at m j (skip 1 c))
    → (j : ℕ) → j < suc k
    → 128 ≤ byte_at m j c
all-more m k c here behind zero h = here
all-more m k c here behind (suc j) h = behind j (omega (arith, h))

next_groups-EndsWithin :
    (n : ℕ) (m : Memory) (result shift : ℕ) (c : DwarfCursor)
    → shift + 7 * n ≡ 35
    → EndsWithin n m c end_of (next_groups (suc n) m result shift c)
unfolding next_groups
next_groups-EndsWithin zero m result shift c h = inr (
  (λ j l. absurd (omega (arith, l))),
  rw (shift_left_int-far (load m c.cursor 1 % 128) shift (omega (arith, h))) refl,
)
next_groups-EndsWithin (suc n) m result shift c h =
    let (group, shifted, _) =
      shift_left_int-returns (load m c.cursor 1 % 128) shift (omega (arith, h)) in
    elim (Bool-cases (leb 128 (load m c.cursor 1))) [
      | inr last ↦
          let low : load m c.cursor 1 < 128 = ground (arith, last) in
          inl (
            0,
            omega arith,
            (low, λ j l. absurd (omega (arith, l))),
            (
              (bit_or result group, shift + 7, load m c.cursor 1, skip 1 c),
              rw (shifted, last) refl,
              refl,
            ),
          )
      | inl more ↦
          let here : 128 ≤ load m c.cursor 1 = leb→le 128 (load m c.cursor 1) more in
          elim (next_groups-EndsWithin n m (bit_or result group) (shift + 7) (skip 1 c)
            (omega (arith, h))) [
              | inl (k, low, (below, before), (a, run, e)) ↦ inl (
                suc k,
                omega (arith, low),
                (below, all-more m k c here before),
                (a, rw (shifted, more) run, e),
              )
              | inr (all, e) ↦ inr (all-more m n c here all, rw (shifted, more) e)
            ]
    ]

-- nextUleb128 reads up to the first of the five bytes from the cursor on that is below 128, returns,
-- and leaves the cursor behind that byte; if none of the five is below 128, its shift of the sixth is
-- undefined.
pub next_uleb128-ends :
    (m : Memory) (c : DwarfCursor) → EndsWithin 5 m c (λ (value, c'). c') (next_uleb128 m c)
unfolding next_uleb128
next_uleb128-ends m c = elim (next_groups-EndsWithin 5 m 0 0 c (omega arith)) [
  | inl (k, low, last, ((r, s, b, c'), run, e)) ↦ inl (k, low, last, ((r, c'), rw run refl, e))
  | inr (all, e) ↦ inr (all, rw e refl)
]

-- Disjoint digits are added.
or_digits : (n a s c : ℕ) → a ≤ n → a < 2 ^ s → digits (λ b. b) max n a (c * 2 ^ s) ≡ a + c * 2 ^ s
or_digits zero a s c h k = omega arith
or_digits (suc n) zero s c h k = omega arith
or_digits (suc n) (suc a) zero c h k = omega arith
or_digits (suc n) (suc a) (suc s) c h k =
    let double : c * 2 ^ suc s ≡ 2 * (c * 2 ^ s) = rw (pow-suc 2 s) (grind arith) in
    let power : 2 ^ suc s ≡ 2 ^ s * 2 = pow-suc 2 s in
    let half : (c * 2 ^ suc s) / 2 ≡ c * 2 ^ s = rw double (omega arith) in
    let even : (c * 2 ^ suc s) % 2 ≡ 0 = rw double (omega arith) in
    let above = or_digits n (suc a / 2) s c (omega arith) (omega arith) in
    rw (half, even, above, double) (omega arith)

bit_or-shifted : (a s c : ℕ) → a < 2 ^ s → bit_or a (c * 2 ^ s) ≡ a + c * 2 ^ s
bit_or-shifted a s c h = (λ i. bit_or-bitwise a (c * 2 ^ s) i) ∙ or_digits a a s c (omega arith) h

-- The bytes of an unsigned LEB128 number of at most `n` groups.
unfoldable pub uleb_bytes : ℕ → ℕ → List ℕ
uleb_bytes zero v = []
uleb_bytes (suc n) v =
    let rest = uleb_bytes n (v / 128) in if ltb v 128 then v ∷ [] else (v % 128 + 128) ∷ rest

-- Memory has the bytes at an address.
abbrev pub AreAt : Memory → ℕ → List ℕ → Type 0
AreAt m a [] = Unit {0}
AreAt m a (b ∷ bs) = (m a ≡ b) × AreAt m (a + 1) bs

shift_left_int-small : (v s : ℕ) → s < 32 → v * 2 ^ s < 2 ^ 31 → shift_left_int v s ≡ ok (v * 2 ^ s)
unfolding shift_left_int
shift_left_int-small v s h k =
    let same : (v * 2 ^ s) % 2 ^ 32 ≡ v * 2 ^ s = omega arith in
    rw (lt→ltb s 32 h, same, lt→ltb (v * 2 ^ s) (2 ^ 31) k) refl

regroup : (v p q r : ℕ) → v ≡ r + 128 * q → v * p ≡ r * p + q * (p * 128)
regroup v p q r h = rw h (grind arith)

digit-below : (r p : ℕ) → r < 128 → r * p ≤ 127 * p
digit-below r p h = mul-le-mul_right p (omega arith)

power_seven : (s : ℕ) → 2 ^ (s + 7) ≡ 2 ^ s * 128
power_seven zero = refl
power_seven (suc s) =
    let next : suc s + 7 ≡ suc (s + 7) = omega arith in
    rw next (omega (arith, pow-suc 2 (s + 7), pow-suc 2 s, power_seven s))

is_positive : (n : ℕ) → 1 < 128 ^ n → 0 < n
is_positive zero h = absurd (omega (arith, h))
is_positive (suc n) h = omega arith

abbrev value_and_cursor : ℕ × ℕ × ℕ × DwarfCursor → Result (ℕ × DwarfCursor)
value_and_cursor (r, s, b, c) = ok (r, c)

read_groups :
    (n : ℕ) (m : Memory) (result s v : ℕ) (c : DwarfCursor)
    → s + 7 * n ≤ 35
    → 0 < n
    → v < 128 ^ n
    → result < 2 ^ s
    → result + v * 2 ^ s < 2 ^ 31
    → c.cursor + n < 2 ^ 64
    → AreAt m c.cursor (uleb_bytes n v)
    → (next_groups (suc n) m result s c >>= value_and_cursor)
      ≡ ok (result + v * 2 ^ s, skip (length (uleb_bytes n v)) c)
unfolding next_groups uleb_bytes load
read_groups zero m result s v c fits p small below bound room at = absurd (omega (arith, p))
read_groups (suc n) m result s v c fits p small below bound room at =
    elim (Bool-cases (ltb v 128)) [
      | inl last ↦
          let held =
            subst
              (λ x.
                AreAt m c.cursor (if x then v ∷ [] else (v % 128 + 128) ∷ uleb_bytes n (v / 128)))
              last at in
          let v<128 : v < 128 = ltb→lt v 128 last in
          let byte : m c.cursor % 256 + 256 * 0 ≡ v = rw (held.0) (omega arith) in
          let digit : v % 128 ≡ v = omega arith in
          let stop : leb 128 v ≡ false = ground arith in
          let joined = bit_or-shifted result s v below in
          rw (last, byte, digit, shift_left_int-small v s (omega arith) (omega arith), stop, joined)
            refl
      | inr more ↦
          let held =
            subst
              (λ x.
                AreAt m c.cursor (if x then v ∷ [] else (v % 128 + 128) ∷ uleb_bytes n (v / 128)))
              more at in
          let large : 128 ≤ v = ground arith in
          let byte : m c.cursor % 256 + 256 * 0 ≡ v % 128 + 128 = rw (held.0) (omega arith) in
          let digit : (v % 128 + 128) % 128 ≡ v % 128 = omega arith in
          let further : leb 128 (v % 128 + 128) ≡ true = ground arith in
          let parts = regroup v (2 ^ s) (v / 128) (v % 128) (omega arith) in
          let power : 2 ^ (s + 7) ≡ 2 ^ s * 128 = power_seven s in
          let whole : v * 2 ^ s ≡ v % 128 * 2 ^ s + v / 128 * 2 ^ (s + 7) = rw power parts in
          let low = digit-below (v % 128) (2 ^ s) (omega arith) in
          let joined = bit_or-shifted result s (v % 128) below in
          let wrapped : (c.cursor + 1) % 2 ^ 64 ≡ c.cursor + 1 = omega arith in
          let fewer : v / 128 < 128 ^ n = omega (arith, pow-suc 128 n) in
          let rest =
            read_groups n m (result + v % 128 * 2 ^ s) (s + 7) (v / 128) (skip 1 c) (omega arith)
              (is_positive n (omega arith)) fewer (omega arith) (omega (arith, whole, bound))
              (omega arith) (rw wrapped (held.1)) in
          rw
            (
              more,
              byte,
              digit,
              shift_left_int-small (v % 128) s (omega arith) (omega arith),
              further,
              joined,
              rest,
            )
            (ap₂ (λ x y. ok (x, record { start = c.start; cursor = y })) (omega (arith, whole))
              (omega arith))
    ]

-- nextUleb128 reads the encoding of a number below 2 ^ 31 back, and leaves the cursor behind it.
pub next_uleb128-uleb_bytes :
    (m : Memory) (v : ℕ) (c : DwarfCursor)
    → v < 2 ^ 31
    → c.cursor + 5 < 2 ^ 64
    → AreAt m c.cursor (uleb_bytes 5 v)
    → next_uleb128 m c ≡ ok (v, skip (length (uleb_bytes 5 v)) c)
unfolding next_uleb128
next_uleb128-uleb_bytes m v c small room at =
    read_groups 5 m 0 0 v c (omega arith) (omega arith) (omega arith) (omega arith) (omega arith)
      room at
    ∙ ap (λ x. ok (x, skip (length (uleb_bytes 5 v)) c)) (omega arith)
