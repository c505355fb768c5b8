-- ===== src/Recovery/Replay/Inv.antt =====
-- The replay buffer of src/recovery.rs counts its bytes and stays within its limits.
use quicp.Prelude.{
  ℕ, ◌+◌, ◌-◌, ◌<◌, ◌≤◌, ◌≡◌, refl, ap, sym, ◌∙◌, false, List, [], ◌∷◌, length, ok, if_of_both,
  arith, ◌↔◌,
}
use mathlib.Core.Path.{subst}
use quicp.Wire.{max_wire_offset}
use quicp.Recovery.{checked_end}
use quicp.Recovery.AckRanges.{AckRanges}
use quicp.Recovery.Chunks.{
  Chunk, overlaps, meets, overlaps-meets, insert_chunk-Disjoint, total_bytes, Disjoint,
  Disjoint-weaken,
}
use quicp.Recovery.Replay.{
  ReplayBuffer, new, retained, retain, is_covered, drop_covered, acknowledge,
}

pub record Inv (b : ReplayBuffer) : Type 0 where
  pub disjoint : Disjoint 0 b.chunks
  pub counted : b.bytes ≡ total_bytes b.chunks
  pub bytes_bounded : b.bytes ≤ b.max_bytes
  pub chunks_bounded : length b.chunks ≤ b.max_chunks

-- What the code asks of a chunk that it retains.
abbrev Fits : ReplayBuffer → Chunk → Type 0
Fits b c =
    (c.offset + length c.bytes ≤ max_wire_offset)
    × (0 < length c.bytes)
    × (b.bytes + length c.bytes ≤ b.max_bytes)
    × (length b.chunks < b.max_chunks)

retain-overlaps :
    (b : ReplayBuffer) (c : Chunk)
    → (retain b c ≡ ok (retained b c))
      ↔ (Fits b c × (overlaps c.offset (c.offset + length c.bytes) b.chunks ≡ false))
unfolding retain checked_end
retain-overlaps b c = ground arith

retain-eq_ok : (b b' : ReplayBuffer) (c : Chunk) → retain b c ≡ ok b' → b' ≡ retained b c
unfolding retain checked_end
retain-eq_ok b b' c h = ground arith

asked :
    (b : ReplayBuffer) (c : Chunk)
    → Inv b
    → 0 < length c.bytes
    → overlaps c.offset (c.offset + length c.bytes) b.chunks
      ≡ meets c.offset (c.offset + length c.bytes) b.chunks
asked b c v h =
    overlaps-meets 0 c.offset (c.offset + length c.bytes) b.chunks (omega (arith, h)) v.disjoint

-- In a buffer that satisfies the invariant, a chunk is retained exactly when it ends within the offsets, is not empty, leaves the buffer
-- within its limits, and shares no offset with a retained chunk.
pub retain_accepts :
    (b : ReplayBuffer) (c : Chunk)
    → Inv b
    → (retain b c ≡ ok (retained b c)) ↔ (
        (c.offset + length c.bytes ≤ max_wire_offset)
        × (0 < length c.bytes)
        × (b.bytes + length c.bytes ≤ b.max_bytes)
        × (length b.chunks < b.max_chunks)
        × (meets c.offset (c.offset + length c.bytes) b.chunks ≡ false))
retain_accepts b c v = (
  λ h. let (f, o) = (retain-overlaps b c).0 h in (f.0, f.1, f.2, f.3, sym (asked b c v f.1) ∙ o),
  λ f. (retain-overlaps b c).1 ((f.0, f.1, f.2, f.3), asked b c v f.1 ∙ f.4),
)

retain-Inv : (b b' : ReplayBuffer) (c : Chunk) → Inv b → retain b c ≡ ok b' → Inv b'
retain-Inv b b' c v h =
    let same = retain-eq_ok b b' c h in
    let (fits, nonempty, room, places, apart) = (retain_accepts b c v).0 (h ∙ ap ok same) in
    let (disjoint, total, count) =
      insert_chunk-Disjoint 0 c b.chunks (omega arith) nonempty fits v.disjoint apart in
    subst Inv (sym same) (record {
      disjoint = disjoint;
      counted = omega (arith, total, v.counted);
      bytes_bounded = room;
      chunks_bounded = omega (arith, count, places);
    })

-- The chunks that are kept, and the counter.
abbrev Kept : ℕ → List Chunk → ℕ → List Chunk × ℕ → Type 0
Kept low cs bytes kept =
    Disjoint low kept.0
    × (kept.1 + total_bytes cs ≡ bytes + total_bytes kept.0)
    × (total_bytes kept.0 ≤ total_bytes cs)
    × (length kept.0 ≤ length cs)

drop_covered-Kept :
    (ack : AckRanges) (low : ℕ) (cs : List Chunk) (bytes : ℕ)
    → Disjoint low cs
    → total_bytes cs ≤ bytes
    → Kept low cs bytes (drop_covered ack cs bytes)
unfolding drop_covered
drop_covered-Kept ack low [] bytes v h = (tt, refl, omega arith, omega arith)
drop_covered-Kept ack low (c ∷ cs) bytes v h =
    if_of_both (Kept low (c ∷ cs) bytes) (is_covered ack c)
      (λ e.
        let (disjoint, total, less, fewer) =
          drop_covered-Kept ack (c.offset + length c.bytes) cs (bytes - length c.bytes) v.3
            (omega (arith, h)) in
        (
          Disjoint-weaken (c.offset + length c.bytes) low
              (drop_covered ack cs (bytes - length c.bytes)).0 (omega (arith, v.0)) disjoint,
          omega (arith, total, h),
          omega (arith, less),
          omega (arith, fewer),
        ))
      (λ e.
        let (disjoint, total, less, fewer) =
          drop_covered-Kept ack (c.offset + length c.bytes) cs bytes v.3 (omega (arith, h)) in
        (
          (v.0, v.1, v.2, disjoint),
          omega (arith, total),
          omega (arith, less),
          omega (arith, fewer),
        ))

pub acknowledge-Inv :
    (b : ReplayBuffer) (ack : AckRanges)
    → Inv b
    → Inv (acknowledge b ack).0
      × (total_bytes (acknowledge b ack).0.chunks + (acknowledge b ack).1.0 ≡ total_bytes b.chunks)
      × (length (acknowledge b ack).0.chunks + (acknowledge b ack).1.1 ≡ length b.chunks)
unfolding acknowledge
acknowledge-Inv b ack v =
    let (disjoint, total, less, fewer) =
      drop_covered-Kept ack 0 b.chunks b.bytes v.disjoint (omega (arith, v.counted)) in
    (
      record {
        disjoint = disjoint;
        counted = omega (arith, total, v.counted);
        bytes_bounded = omega (arith, total, less, v.bytes_bounded);
        chunks_bounded = omega (arith, fewer, v.chunks_bounded);
      },
      omega (arith, total, less, v.counted),
      omega (arith, fewer),
    )

-- The buffers that calls reach from a new one.
pub data Reachable (max_bytes : ℕ) : ReplayBuffer → Type 0 where
  fresh : Reachable max_bytes (new max_bytes)
  retaining :
      {b b' : ReplayBuffer} (c : Chunk)
      → Reachable max_bytes b
      → retain b c ≡ ok b'
      → Reachable max_bytes b'
  acknowledging :
      {b : ReplayBuffer} (ack : AckRanges)
      → Reachable max_bytes b
      → Reachable max_bytes (acknowledge b ack).0

-- Whatever is retained and acknowledged from an empty buffer on, the chunks share no offset, none is
-- empty or passes the last offset, the counter is the sum of their lengths and within the limit, and
-- there are no more chunks than allowed.
pub Reachable-Inv : {max_bytes : ℕ} {b : ReplayBuffer} → Reachable max_bytes b → Inv b
Reachable-Inv fresh = record {
  disjoint = tt;
  counted = refl;
  bytes_bounded = omega arith;
  chunks_bounded = omega arith;
}
Reachable-Inv (retaining {b} {b'} c s h) = retain-Inv b b' c (Reachable-Inv s) h
Reachable-Inv (acknowledging {b} ack s) = (acknowledge-Inv b ack (Reachable-Inv s)).0

-- In a buffer that satisfies the invariant, the counts that an acknowledgement returns are the bytes
-- and the chunks that it took out.
pub acknowledge_counts :
    (b : ReplayBuffer) (ack : AckRanges)
    → Inv b
    → (total_bytes (acknowledge b ack).0.chunks + (acknowledge b ack).1.0 ≡ total_bytes b.chunks)
      × (length (acknowledge b ack).0.chunks + (acknowledge b ack).1.1 ≡ length b.chunks)
acknowledge_counts b ack v = let (w, bytes, count) = acknowledge-Inv b ack v in (bytes, count)
