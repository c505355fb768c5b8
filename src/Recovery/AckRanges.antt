-- ===== src/Recovery/AckRanges.antt =====
-- `AckRanges` of src/recovery.rs: the offsets that are acknowledged, as a prefix and ranges behind it.
pub mod Inv
pub mod Covers
pub mod Room
pub mod Capacity
mod Tests
use quicp.Prelude.{
  ℕ, ◌+◌, ◌<◌, ◌≤◌, ◌≡◌, min, max, Bool, true, false, List, [], ◌∷◌, length, Result, ok, err,
  and_then, ltb, leb, ◌||◌, ◌&&◌, not, if◌then◌else◌, ◌>>◌, fail_if,
}
use quicp.Recovery.{RecoveryError, Range, invalid_range, range_capacity, range_refused}

pub record AckRanges : Type 0 where
  pub contiguous : ℕ
  pub ranges : List Range
  pub max_ranges : ℕ

abbrev pub range : ℕ → ℕ → Range
range start end = record { start = start; end = end }

-- `AckRanges::new`
abbrev pub new : ℕ → AckRanges
new max_ranges = record { contiguous = 0; ranges = []; max_ranges = max_ranges }

-- Whether a range overlaps or touches one of these.
unfoldable pub any_touches : ℕ → ℕ → List Range → Bool
any_touches start end [] = false
any_touches start end (current ∷ ranges) =
    leb start current.end && leb current.start end || any_touches start end ranges

unfoldable pub validate_insert : AckRanges → Range → Result (Unit {0}) RecoveryError
validate_insert a r =
    if range_refused r
    then err invalid_range
    else (if leb r.end a.contiguous || ltb (length a.ranges) a.max_ranges
        then ok tt
        else fail_if (not (any_touches (max r.start a.contiguous) r.end a.ranges)) range_capacity)

-- The inner loop: `merged` takes in the ranges that start before its end.
unfoldable pub merge : Range → List Range → List Range
merge merged [] = merged ∷ []
merge merged (current ∷ ranges) =
    let rest = merge (range (min merged.start current.start) (max merged.end current.end)) ranges in
    if leb current.start merged.end then rest else merged ∷ current ∷ ranges

-- From the partition point on, where the ranges no longer end before `merged`.
unfoldable pub place : Range → List Range → List Range
unfolding merge
place merged [] = merged ∷ []
place merged (current ∷ ranges) =
    let rest = place merged ranges in
    if ltb current.end merged.start then current ∷ rest else merge merged (current ∷ ranges)

-- The last loop: ranges that the prefix has reached go into it.
unfoldable pub settle : ℕ → List Range → ℕ × List Range
settle contiguous [] = (contiguous, [])
settle contiguous (first ∷ ranges) =
    let rest = settle (max contiguous first.end) ranges in
    if leb first.start contiguous then rest else (contiguous, first ∷ ranges)

abbrev pub inserted : AckRanges → Range → AckRanges
inserted a r =
    let settled = settle a.contiguous (place (range (max r.start a.contiguous) r.end) a.ranges) in
    record { contiguous = settled.0; ranges = settled.1; max_ranges = a.max_ranges }

unfoldable pub insert : AckRanges → Range → Result AckRanges RecoveryError
insert a r = validate_insert a r >> (if leb r.end a.contiguous then ok a else ok (inserted a r))

-- The loop of `from_wire`.
unfoldable pub insert_all : AckRanges → List Range → ℕ → Result AckRanges RecoveryError
insert_all a [] sent_offset = ok a
insert_all a (r ∷ ranges) sent_offset =
    fail_if (ltb sent_offset r.end) invalid_range
    >> and_then (insert a r) λ ack. insert_all ack ranges sent_offset

unfoldable pub from_wire :
    ℕ → List Range → (max_ranges sent_offset : ℕ) → Result AckRanges RecoveryError
from_wire contiguous ranges max_ranges sent_offset =
    fail_if (ltb sent_offset contiguous || ltb max_ranges (length ranges)) invalid_range
    >> insert_all (record { contiguous = contiguous; ranges = []; max_ranges = max_ranges }) ranges
        sent_offset
