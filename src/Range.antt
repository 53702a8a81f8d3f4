-- ===== src/Range.antt =====
-- src/util/range.h and range.cpp: half-open ranges of 64-bit addresses, the getters, tests and
-- factories of class Range. A sum of addresses wraps at 2 ^ 64; the assertion of
-- `fromEndpoints` is a failure of the run. The stream output is not modelled.
pub mod Laws
use egalito.Base.{ℕ, ◌+◌, ◌-◌, ◌%◌, ◌^◌, Bool, true, ◌&&◌, ◌||◌, not, ltb, leb, ◌==◌, if◌then◌else◌}
use egalito.Base.Result.{Result, ok, fail, Failure}

-- address_t and size_t wrap at this number.
abbrev pub address_limit : ℕ
address_limit = 2 ^ 64

pub record Range : Type 0 where
  pub start : ℕ
  pub size : ℕ

-- getEnd
unfoldable pub end : Range → ℕ
end r = (r.start + r.size) % address_limit

-- contains(address_t); overlaps(address_t) is the same test
unfoldable pub contains_point : Range → ℕ → Bool
contains_point r point = leb r.start point && ltb point (end r)

unfoldable pub overlaps_point : Range → ℕ → Bool
unfolding contains_point
overlaps_point r point = contains_point r point

-- contains(const Range &)
unfoldable pub contains : Range → Range → Bool
contains r other = leb r.start other.start && leb (end other) (end r)

-- overlaps(const Range &)
unfoldable pub overlaps : Range → Range → Bool
overlaps r other = not (leb (end r) other.start || leb (end other) r.start)

unfoldable pub ends_with : Range → ℕ → Bool
ends_with r point = end r == point

-- operator < (address_t): the range ends at the point or before it
unfoldable pub before_point : Range → ℕ → Bool
unfolding end
before_point r point = leb (end r) point

-- operator < (address_t, const Range &): the point lies before the range
unfoldable pub after_point : ℕ → Range → Bool
after_point point r = ltb point r.start

-- operator < (const Range &): by the start, then by the end
unfoldable pub less : Range → Range → Bool
less a b = if ltb a.start b.start then true else (a.start == b.start) && ltb (end a) (end b)

-- operator ==
unfoldable pub equal : Range → Range → Bool
equal a b = (a.start == b.start) && (a.size == b.size)

-- operator !=
unfoldable pub differs : Range → Range → Bool
differs a b = not (a.start == b.start) || not (a.size == b.size)

unfoldable pub from_point : ℕ → Range
from_point point = record { start = point; size = 1 }

unfoldable pub from_endpoints : ℕ → ℕ → Result Range
from_endpoints start end =
    if leb start end
    then ok (record { start = start; size = end - start })
    else fail Failure.assertion
