-- ===== src/Recovery/Replay/Tests.antt =====
-- The replay buffer (src/recovery.rs) at work, and instances of the theorems.
use quicp.Prelude.{
  ℕ, ◌≡◌, ◌≤◌, ◌<◌, ◌+◌, ◌↔◌, refl, [], ◌∷◌, ok, err, arith, true, false, none, some,
}
use mathlib.Core.List.{Memᴰ}
use quicp.Wire.{max_wire_offset}
use quicp.Recovery.{capacity, contradictory_overlap, checked_end}
use quicp.Recovery.AckRanges.{AckRanges, range}
use quicp.Recovery.AckRanges.Inv as Acks
use quicp.Recovery.AckRanges.Covers.{covers}
use quicp.Recovery.Chunks.{Chunk, chunk_end, last_before, overlaps, insert_chunk, meets}
use quicp.Recovery.Replay.{
  ReplayBuffer, new, retain, retained, any_holds, is_covered, drop_covered, acknowledge,
  next_chunk_after, first_after,
}
use quicp.Recovery.Replay.Inv.{Inv, Reachable, fresh, retaining, Reachable-Inv, retain_accepts}
use quicp.Recovery.Replay.Acknowledged.{acknowledge_keeps}

abbrev first : Chunk
first = record { offset = 0; bytes = 1 ∷ 2 ∷ [] }

abbrev second : Chunk
second = record { offset = 2; bytes = 3 ∷ [] }

abbrev one : ReplayBuffer
one = retained (new 4) second

abbrev both : ReplayBuffer
both = record { chunks = first ∷ second ∷ []; bytes = 3; max_bytes = 4; max_chunks = 8 }

retains_second : retain (new 4) second ≡ ok one
unfolding retain checked_end overlaps last_before insert_chunk
retains_second = refl

retains_first : retain one first ≡ ok both
unfolding retain checked_end overlaps last_before insert_chunk chunk_end
retains_first = refl

refusals :
    (retain both second ≡ err contradictory_overlap)
    × (retain both (record { offset = 8; bytes = 1 ∷ 2 ∷ [] }) ≡ err capacity)
    × (retain both (record { offset = 8; bytes = [] }) ≡ err capacity)
unfolding retain checked_end overlaps last_before chunk_end
refusals = (refl, refl, refl)

abbrev ack : AckRanges
ack = record { contiguous = 1; ranges = range 2 3 ∷ []; max_ranges = 4 }

releases : (acknowledge both ack).1 ≡ (1, 1)
unfolding acknowledge drop_covered is_covered any_holds chunk_end checked_end
releases = refl

next :
    (next_chunk_after both none ≡ some first)
    × (next_chunk_after both (some 0) ≡ some second)
    × (next_chunk_after both (some 2) ≡ none)
unfolding next_chunk_after first_after
next = (refl, refl, refl)

both-Reachable : Reachable 4 both
both-Reachable = retaining first (retaining second fresh retains_second) retains_first

Reachable-Inv_example : Inv both
Reachable-Inv_example = Reachable-Inv both-Reachable

ack-Inv : Acks.Inv ack
ack-Inv = record { fits = omega arith; apart = ground arith; bounded = omega arith }

retain_accepts_example : (retain both second ≡ ok (retained both second)) ↔ (
    (2 + 1 ≤ max_wire_offset)
    × (0 < 1)
    × (3 + 1 ≤ 4)
    × (2 < 8)
    × (meets 2 (2 + 1) both.chunks ≡ false))
retain_accepts_example = retain_accepts both second (Reachable-Inv both-Reachable)

acknowledge_keeps_example :
    Memᴰ first (acknowledge both ack).0.chunks
    ↔ (Memᴰ first both.chunks × ¬ ((x : ℕ) → 0 ≤ x → x < 0 + 2 → covers ack x ≡ true))
acknowledge_keeps_example = acknowledge_keeps both ack first (Reachable-Inv both-Reachable) ack-Inv
