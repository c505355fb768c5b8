-- ===== src/Recovery/Reassembler.antt =====
-- `Reassembler` of src/recovery.rs: the received bytes of a flow, until they are read and acknowledged.
-- The memory budget that a connection shares is a parameter: what `try_reserve` answers at a call.
-- What the chunks have charged is the budget's side of the account and is not kept here.
pub mod Insert
pub mod Read
pub mod Content
pub mod Delivery
pub mod Gaps
pub mod Fill
pub mod Overlap
pub mod Insertion
pub mod Record
mod Tests
use quicp.Prelude.{
  ℕ, zero, suc, ◌+◌, ◌-◌, ◌*◌, ◌/◌, ◌<◌, min, max, Bool, true, false, List, [], ◌∷◌, ◌++◌, length,
  take, drop, Option, none, some, Result, ok, err, and_then, ltb, leb, ◌==◌, ◌||◌, ◌&&◌, not,
  if◌then◌else◌, ◌>>=◌, ◌>>◌, fail_if,
}
use quicp.Wire.{max_wire_offset}
use quicp.Recovery.{RecoveryError, Range, final_offset, checked_end}
use quicp.Recovery.Replay.{replay_chunk_limit}
use quicp.Recovery.Chunks.{Chunk, chunk_end}

pub record Reassembler : Type 0 where
  pub chunks : List Chunk
  pub next_offset : ℕ
  pub acknowledged_offset : ℕ
  pub final : Option ℕ
  pub bytes : ℕ
  pub max_bytes : ℕ
  pub max_chunks : ℕ

-- `Reassembler::with_budget`
abbrev pub new : ℕ → Reassembler
new max_bytes = record {
  chunks = [];
  next_offset = 0;
  acknowledged_offset = 0;
  final = none;
  bytes = 0;
  max_bytes = max_bytes;
  max_chunks = replay_chunk_limit max_bytes;
}

-- `self.final_offset.is_some_and(|current| test)`
abbrev pub is_some_and : Option ℕ → (ℕ → Bool) → Bool
is_some_and none test = false
is_some_and (some current) test = test current

-- Whether a chunk ends beyond `end`.
unfoldable pub any_beyond : ℕ → List Chunk → Bool
any_beyond end [] = false
any_beyond end (c ∷ cs) = ltb end (chunk_end c) || any_beyond end cs

abbrev pub with_final : Reassembler → ℕ → Reassembler
with_final s end = record {
  chunks = s.chunks;
  next_offset = s.next_offset;
  acknowledged_offset = s.acknowledged_offset;
  final = some end;
  bytes = s.bytes;
  max_bytes = s.max_bytes;
  max_chunks = s.max_chunks;
}

unfoldable pub set_final_offset : Reassembler → ℕ → Result Reassembler RecoveryError
set_final_offset s end =
    if ltb max_wire_offset end
      || (is_some_and s.final (λ current. not (current == end))
          || (ltb end s.next_offset || any_beyond end s.chunks))
    then err final_offset
    else ok (with_final s end)

-- `chunks.retain(..)` of `acknowledge_consumed`
unfoldable pub release : ℕ → List Chunk → List Chunk
unfolding checked_end
release before [] = []
release before (c ∷ cs) =
    let kept = release before cs in
    if elim (checked_end c.offset (length c.bytes)) [ ok end ↦ leb end before | err e ↦ false ]
    then kept
    else c ∷ kept

unfoldable pub acknowledge_consumed : Reassembler → ℕ → Reassembler
acknowledge_consumed s contiguous = record {
  chunks = release (min (max s.acknowledged_offset contiguous) s.next_offset) s.chunks;
  next_offset = s.next_offset;
  acknowledged_offset = max s.acknowledged_offset contiguous;
  final = s.final;
  bytes = s.bytes;
  max_bytes = s.max_bytes;
  max_chunks = s.max_chunks;
}

unfoldable pub is_finished : Reassembler → Bool
is_finished s = is_some_and s.final (λ end. end == s.next_offset)
