-- ===== src/Recovery/Replay.antt =====
-- `ReplayBuffer` of src/recovery.rs: the bytes that were sent and are not yet acknowledged.
pub mod Inv
pub mod Acknowledged
mod Tests
use quicp.Prelude.{
  ℕ, zero, suc, ◌+◌, ◌-◌, ◌*◌, ◌/◌, max, Bool, true, false, List, [], ◌∷◌, length, Option, none,
  some, Result, ok, err, and_then, ltb, leb, ◌==◌, ◌||◌, ◌&&◌, not, if◌then◌else◌, ◌>>=◌, ◌>>◌,
  fail_if,
}
use quicp.Recovery.{RecoveryError, Range, capacity, contradictory_overlap, checked_end}
use quicp.Recovery.AckRanges.{AckRanges}
use quicp.Recovery.Chunks.{Chunk, chunk_end, overlaps, insert_chunk}

pub record ReplayBuffer : Type 0 where
  pub chunks : List Chunk
  pub bytes : ℕ
  pub max_bytes : ℕ
  pub max_chunks : ℕ

abbrev pub replay_chunk_limit : ℕ → ℕ
replay_chunk_limit max_bytes = max ((max_bytes + 63) / 64) 8

-- `ReplayBuffer::new`
abbrev pub new : ℕ → ReplayBuffer
new max_bytes = record {
  chunks = [];
  bytes = 0;
  max_bytes = max_bytes;
  max_chunks = replay_chunk_limit max_bytes;
}

abbrev pub retained : ReplayBuffer → Chunk → ReplayBuffer
retained b new = record {
  chunks = insert_chunk new b.chunks;
  bytes = b.bytes + length new.bytes;
  max_bytes = b.max_bytes;
  max_chunks = b.max_chunks;
}

-- A sum of byte counts that saturates is past any limit too.
unfoldable pub retain : ReplayBuffer → Chunk → Result ReplayBuffer RecoveryError
retain b new = do
  end ← checked_end new.offset (length new.bytes)
  fail_if
      (length new.bytes == 0
        || (ltb b.max_bytes (b.bytes + length new.bytes) || leb b.max_chunks (length b.chunks)))
      capacity
  fail_if (overlaps new.offset end b.chunks) contradictory_overlap
  ok (retained b new)

-- Whether a range holds `[offset, end)`.
unfoldable pub any_holds : ℕ → ℕ → List Range → Bool
any_holds offset end [] = false
any_holds offset end (range ∷ ranges) =
    leb range.start offset && leb end range.end || any_holds offset end ranges

unfoldable pub is_covered : AckRanges → Chunk → Bool
is_covered ack c = leb (chunk_end c) ack.contiguous || any_holds c.offset (chunk_end c) ack.ranges

-- `chunks.retain(..)`, with the byte count that its closure lowers.
unfoldable pub drop_covered : AckRanges → List Chunk → ℕ → List Chunk × ℕ
drop_covered ack [] bytes = ([], bytes)
drop_covered ack (c ∷ cs) bytes =
    let gone = drop_covered ack cs (bytes - length c.bytes) in
    let kept = drop_covered ack cs bytes in if is_covered ack c then gone else (c ∷ kept.0, kept.1)

-- The buffer, and the bytes and the chunks that were released.
unfoldable pub acknowledge : ReplayBuffer → AckRanges → ReplayBuffer × (ℕ × ℕ)
acknowledge b ack =
    let kept = drop_covered ack b.chunks b.bytes in
    (
      record {
        chunks = kept.0;
        bytes = kept.1;
        max_bytes = b.max_bytes;
        max_chunks = b.max_chunks;
      },
      (b.bytes - kept.1, length b.chunks - length kept.0),
    )

unfoldable pub first_after : ℕ → List Chunk → Option Chunk
first_after last [] = none
first_after last (c ∷ cs) = if ltb last c.offset then some c else first_after last cs

abbrev pub first : List Chunk → Option Chunk
first [] = none
first (c ∷ cs) = some c

unfoldable pub next_chunk_after : ReplayBuffer → Option ℕ → Option Chunk
next_chunk_after b none = first b.chunks
next_chunk_after b (some last) = first_after last b.chunks
