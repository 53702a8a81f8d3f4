-- ===== src/Range/Laws.antt =====
-- Ranges that do not wrap (IsValid), and what the tests of src/util/range.cpp decide about them.
use egalito.Base.{
  ℕ, ◌+◌, ◌-◌, ◌≤◌, ◌<◌, ◌≡◌, refl, ◌↔◌, ◌⊎◌, true, false, arith, leb, if◌then◌else◌,
}
use egalito.Base.Result.{ok}
use egalito.Range.{Range, address_limit, end, contains_point, overlaps, less, equal, from_endpoints}

-- The end is a 64-bit address, so it does not wrap.
abbrev pub IsValid : Range → Type 0
IsValid r = r.start + r.size < address_limit

pub end-IsValid : (r : Range) → IsValid r → end r ≡ r.start + r.size
unfolding end
end-IsValid r v = omega arith

-- A point lies in a valid range exactly when it is at or after the start and before the end.
pub contains_point_iff :
    (r : Range) (p : ℕ)
    → IsValid r
    → (contains_point r p ≡ true) ↔ ((r.start ≤ p) × (p < r.start + r.size))
unfolding contains_point
contains_point_iff r p v = ground (arith, end-IsValid r)

-- Two valid ranges that both hold a point overlap, and two non-empty valid ranges that overlap
-- hold a common point.
pub overlaps_iff :
    (a b : Range)
    → IsValid a
    → IsValid b
    → 0 < a.size
    → 0 < b.size
    → (overlaps a b ≡ true) ↔ ((p : ℕ) × (contains_point a p ≡ true) × (contains_point b p ≡ true))
unfolding overlaps contains_point
overlaps_iff a b va vb na nb = (
  λ h. (
    if leb a.start b.start then b.start else a.start,
    ground (arith, end-IsValid a, end-IsValid b),
    ground (arith, end-IsValid a, end-IsValid b),
  ),
  λ (p, ha, hb). ground (arith, end-IsValid a, end-IsValid b),
)

-- `fromEndpoints` fails its assertion exactly when the end lies before the start, and otherwise
-- gives the range with these two endpoints.
pub from_endpoints-end :
    (a b : ℕ)
    → a ≤ b
    → b < address_limit
    → (r : Range) × (from_endpoints a b ≡ ok r) × (r.start ≡ a) × (end r ≡ b) × IsValid r
unfolding from_endpoints end
from_endpoints-end a b h lim =
    (record { start = a; size = b - a }, ground arith, refl, omega arith, omega arith)

pub equal_iff : (a b : Range) → (equal a b ≡ true) ↔ (a ≡ b)
unfolding equal
equal_iff a b = ground arith

-- Valid ranges compare as pairs of a start and an end: exactly one of less, equal, greater holds.
pub less_trichotomy :
    (a b : Range)
    → IsValid a
    → IsValid b
    → ((less a b ≡ true) × (equal a b ≡ false) × (less b a ≡ false))
      ⊎ ((less a b ≡ false) × (equal a b ≡ true) × (less b a ≡ false))
      ⊎ ((less a b ≡ false) × (equal a b ≡ false) × (less b a ≡ true))
unfolding less equal
less_trichotomy a b va vb = ground (arith, end-IsValid a, end-IsValid b)
