-- ===== src/Sandbox/Packing.antt =====
-- A sequence of requests to a WatermarkAllocator of src/transform/sandbox.h, and where its slots lie.
use egalito.Base.{
  ℕ, ◌+◌, ◌%◌, ◌^◌, ◌≤◌, ◌<◌, ◌≡◌, refl, false, List, [], ◌∷◌, ltb, arith, Bool-cases, inl, inr,
}
use egalito.Base.Result.{Result, ok, fail, bad_alloc, ◌>>=◌, Returns}
use egalito.Sandbox.{Slot, SandboxBacking, WatermarkAllocator, allocate}

abbrev pub total : List ℕ → ℕ
total [] = 0
total (r ∷ rs) = r + total rs

-- Requests that are served one after another.
unfoldable pub allocate_all :
    SandboxBacking → List ℕ → WatermarkAllocator → Result (List Slot × WatermarkAllocator)
allocate_all backing [] a = ok ([], a)
allocate_all backing (r ∷ rs) a = allocate backing r a >>= λ (slot, a').
    allocate_all backing rs a' >>= λ (slots, a''). ok (slot ∷ slots, a'')

-- The slots have the requested sizes and lie without a gap from an address on.
abbrev pub ArePacked : ℕ → List ℕ → List Slot → Type 0
ArePacked from [] [] = Unit {0}
ArePacked from (r ∷ rs) (slot ∷ slots) =
    (slot.address ≡ from) × (slot.size ≡ r) × ArePacked (from + r) rs slots
ArePacked from [] (slot ∷ slots) = ⊥
ArePacked from (r ∷ rs) [] = ⊥

-- Requests that fit between the watermark and the end of the backing are served, in disjoint slots
-- that follow each other, and the watermark is behind the last.
pub allocate_all-ArePacked :
    (b : SandboxBacking) (rs : List ℕ) (a : WatermarkAllocator)
    → b.base + b.size < 2 ^ 64
    → a.watermark + total rs ≤ b.base + b.size
    → Returns
        (allocate_all b rs a)
        (λ (slots, a'). ArePacked a.watermark rs slots × (a'.watermark ≡ a.watermark + total rs))
unfolding allocate_all allocate
allocate_all-ArePacked b [] a valid room = (([], a), refl, (tt, omega arith))
allocate_all-ArePacked b (r ∷ rs) a valid room =
    let limit : (b.base + b.size) % 2 ^ 64 ≡ b.base + b.size = omega arith in
    let mark : (a.watermark + r) % 2 ^ 64 ≡ a.watermark + r = omega arith in
    let served : ltb (b.base + b.size) (a.watermark + r) ≡ false = ground arith in
    let next = record a { watermark = a.watermark + r } in
    let ((slots, a'), e, (packed, w)) = allocate_all-ArePacked b rs next valid (omega arith) in
    rw (limit, mark, served, e)
      (
        (record { address = a.watermark; size = r } ∷ slots, a'),
        refl,
        ((refl, refl, packed), omega (arith, w)),
      )

-- No request is so large that its sum with an address up to the limit wraps around.
abbrev pub AreSmall : ℕ → List ℕ → Type 0
AreSmall limit [] = Unit {0}
AreSmall limit (r ∷ rs) = (limit + r < 2 ^ 64) × AreSmall limit rs

-- If the end of the backing is a 64-bit address, the watermark is at or before it, and no single
-- request added to it passes 64 bits, then requests that together do not fit between the watermark and
-- the end of the backing are refused: one of them fails with bad_alloc.
pub allocate_all-refused :
    (b : SandboxBacking) (rs : List ℕ) (a : WatermarkAllocator)
    → b.base + b.size < 2 ^ 64
    → AreSmall (b.base + b.size) rs
    → a.watermark ≤ b.base + b.size
    → b.base + b.size < a.watermark + total rs
    → allocate_all b rs a ≡ fail bad_alloc
unfolding allocate_all allocate
allocate_all-refused b [] a valid small within large = absurd (omega (arith, within, large))
allocate_all-refused b (r ∷ rs) a valid small within large =
    let limit : (b.base + b.size) % 2 ^ 64 ≡ b.base + b.size = omega arith in
    let mark : (a.watermark + r) % 2 ^ 64 ≡ a.watermark + r = omega (arith, small.0, within) in
    elim (Bool-cases (ltb (b.base + b.size) (a.watermark + r))) [
      | inl refused ↦ rw (limit, mark, refused) refl
      | inr served ↦
          let next = record a { watermark = a.watermark + r } in
          let rest = allocate_all-refused b rs next valid small.1 (ground arith) (omega arith) in
          rw (limit, mark, served, rest) refl
    ]
