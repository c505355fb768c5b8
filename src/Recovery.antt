-- ===== src/Recovery.antt =====
-- src/recovery.rs: what a connection keeps to recover lost bytes. The errors and the checks that the
-- parts share stand here, the parts in the modules below.
pub mod AckRanges
pub mod Budget
pub mod RepairBudget
pub mod Chunks
pub mod Replay
pub mod Reassembler
use quicp.Prelude.{
  ℕ, ◌+◌, ◌*◌, ◌/◌, ◌-◌, min, max, Bool, true, false, Result, ok, err, ltb, leb, ◌==◌, ◌||◌,
  if◌then◌else◌,
}
use quicp.Wire.{max_wire_offset}

pub data RecoveryError : Type 0 where
  offset_overflow invalid_range range_capacity flow_control capacity contradictory_overlap
        final_offset :
      RecoveryError

-- `Range<u64>`, open at its end.
pub record Range : Type 0 where
  pub start : ℕ
  pub end : ℕ

-- A sum past 2^64 is past the maximal offset too.
unfoldable pub checked_end : ℕ → ℕ → Result ℕ RecoveryError
checked_end offset length =
    if leb (offset + length) max_wire_offset then ok (offset + length) else err offset_overflow

abbrev pub range_refused : Range → Bool
range_refused r = leb r.end r.start || ltb max_wire_offset r.end
