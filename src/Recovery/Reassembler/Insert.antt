-- ===== src/Recovery/Reassembler/Insert.antt =====
-- `insert_record_with_reservation` of src/recovery.rs and the functions that it calls. A byte count
-- fits `usize`, and sums of byte counts stay below 2^64. A vector that is allocated for a number of
-- elements has that capacity.
use quicp.Prelude.{
  ℕ, ◌+◌, ◌-◌, ◌*◌, min, max, Bool, true, false, List, [], ◌∷◌, length, take, drop, Result, ok, ltb,
  leb, ◌==◌, ◌||◌, ◌&&◌, not, if◌then◌else◌, ◌>>=◌, ◌>>◌, fail_if,
}
use quicp.Recovery.{
  RecoveryError, Range, capacity, invalid_range, contradictory_overlap, final_offset, checked_end,
}
use quicp.Recovery.Chunks.{Chunk, chunk_end, overlaps, insert_chunk}
use quicp.Recovery.Reassembler.{Reassembler, is_some_and, any_beyond, with_final, set_final_offset}

-- `RecoveryCharge`, as the reassembler sees it.
pub record Charge : Type 0 where
  pub belongs : Bool
  pub bytes : ℕ

-- `slice[start..end]`
abbrev pub slice : List ℕ → ℕ → ℕ → List ℕ
slice bytes start end = take (end - start) (drop start bytes)

unfoldable pub same_bytes : List ℕ → List ℕ → Bool
same_bytes [] [] = true
same_bytes (a ∷ rest) (b ∷ bs) = a == b && same_bytes rest bs
same_bytes [] (b ∷ bs) = false
same_bytes (a ∷ rest) [] = false

-- `chunks.range(..end)`
unfoldable pub before : ℕ → List Chunk → List Chunk
before end [] = []
before end (c ∷ cs) = let rest = before end cs in if ltb c.offset end then c ∷ rest else []

-- Whether the incoming bytes and those of a chunk differ between these offsets.
unfoldable pub differs : ℕ → List ℕ → Chunk → (overlap_start overlap_end : ℕ) → Bool
differs offset bytes c overlap_start overlap_end = not (
    same_bytes (slice bytes (overlap_start - offset) (overlap_end - offset)) (
      slice c.bytes (overlap_start - c.offset)
        (overlap_start - c.offset + (overlap_end - overlap_start))))

-- The loop of `validate_consumed_overlap`.
unfoldable pub validate_consumed : ℕ → ℕ → List ℕ → List Chunk → Result (Unit {0}) RecoveryError
validate_consumed offset end bytes [] = ok tt
validate_consumed offset end bytes (c ∷ cs) = do
  existing_end ← checked_end c.offset (length c.bytes)
  fail_if
      (ltb (max offset c.offset) (min end existing_end)
        && differs offset bytes c (max offset c.offset) (min end existing_end))
      contradictory_overlap
  validate_consumed offset end bytes cs

unfoldable pub validate_consumed_overlap :
    Reassembler → ℕ → ℕ → List ℕ → Result (Unit {0}) RecoveryError
validate_consumed_overlap s offset end bytes =
    validate_consumed offset end bytes (before end s.chunks)

-- The gaps between the chunks, from `cursor` on, in order.
unfoldable pub gaps_from : ℕ → ℕ → List Chunk → ℕ → List Range
gaps_from offset end [] cursor =
    if ltb cursor end then record { start = cursor; end = end } ∷ [] else []
gaps_from offset end (c ∷ cs) cursor =
    let skipped = gaps_from offset end cs cursor in
    let rest = gaps_from offset end cs (max cursor (min end (chunk_end c))) in
    if leb (chunk_end c) offset
    then skipped
    else (if ltb cursor (max offset c.offset)
        then record { start = cursor; end = max offset c.offset } ∷ rest
        else rest)

-- The first loop: every chunk is valid, and none that it overlaps contradicts the incoming bytes.
unfoldable pub scan : ℕ → ℕ → List ℕ → List Chunk → Result (Unit {0}) RecoveryError
scan offset end bytes [] = ok tt
scan offset end bytes (c ∷ cs) = do
  existing_end ← checked_end c.offset (length c.bytes)
  fail_if
      (not (leb existing_end offset)
        && differs offset bytes c (max offset c.offset) (min end existing_end))
      contradictory_overlap
  scan offset end bytes cs

abbrev pub gap_bytes : List Range → ℕ
gap_bytes [] = 0
gap_bytes (g ∷ gs) = (g.end - g.start) + gap_bytes gs

-- The last loop: each gap gets a chunk of its own.
unfoldable pub fill : ℕ → List ℕ → List Range → List Chunk → List Chunk
fill offset bytes [] chunks = chunks
fill offset bytes (g ∷ gs) chunks = fill offset bytes gs (
    insert_chunk
      (record { offset = g.start; bytes = slice bytes (g.start - offset) (g.end - offset) }) chunks)

-- `size_of::<Range<u64>>()`
abbrev pub range_bytes : ℕ
range_bytes = 16

abbrev pub stored : Reassembler → List Chunk → ℕ → Reassembler
stored s chunks added = record {
  chunks = chunks;
  next_offset = s.next_offset;
  acknowledged_offset = s.acknowledged_offset;
  final = s.final;
  bytes = s.bytes + added;
  max_bytes = s.max_bytes;
  max_chunks = s.max_chunks;
}

-- `if fin { self.final_offset = Some(end) }`
abbrev pub finished_at : Reassembler → Bool → ℕ → Reassembler
finished_at s fin end = if fin then with_final s end else s

abbrev pub finish : Reassembler → Bool → ℕ → Result Reassembler RecoveryError
finish s fin end = if fin then set_final_offset s end else ok s

module _ (try_reserve : ℕ → Bool) where
  unfoldable pub insert_overlapping_record :
      Reassembler → ℕ → ℕ → List ℕ → Bool → Result Reassembler RecoveryError
  insert_overlapping_record s offset end bytes fin = do
    scan offset end bytes (before end s.chunks)
    let gaps = gaps_from offset end (before end s.chunks) offset
    if length gaps == 0
        then finish s fin end
        else (fail_if
              (ltb s.max_bytes (s.bytes + gap_bytes gaps)
                || ltb s.max_chunks (length s.chunks + length gaps))
              capacity
            >> (fail_if (not (try_reserve (gap_bytes gaps + length gaps * range_bytes))) capacity
                >> ok (
                    finished_at (stored s (fill offset bytes gaps s.chunks) (gap_bytes gaps)) fin
                      end)))

  -- `RecoveryCharge::grow`
  abbrev pub grow : Charge → ℕ → Bool
  grow charge n = leb n charge.bytes || try_reserve (n - charge.bytes)

  -- What is stored of a record, when its consumed front is off.
  unfoldable pub store :
      Reassembler → ℕ → ℕ → List ℕ → Bool → Charge → Bool → ℕ → Result Reassembler RecoveryError
  store s offset end bytes fin charge precharged retained_bytes =
      if overlaps offset end s.chunks
      then insert_overlapping_record s offset end bytes fin
      else (fail_if (ltb s.max_bytes (s.bytes + length bytes)) capacity
          >> (fail_if (leb s.max_chunks (length s.chunks)) capacity
              >> (fail_if (not precharged && not (grow charge retained_bytes)) capacity
                  >> ok (
                      finished_at
                        (stored s
                          (insert_chunk (record { offset = offset; bytes = bytes }) s.chunks)
                          (length bytes))
                        fin end))))

  unfoldable pub insert_record_with_reservation :
      Reassembler → ℕ → List ℕ → Bool → Charge → Bool → Result Reassembler RecoveryError
  insert_record_with_reservation s offset bytes fin charge precharged = do
    fail_if (not charge.belongs || (precharged && ltb charge.bytes (length bytes))) capacity
    end ← checked_end offset (length bytes)
    fail_if (length bytes == 0) invalid_range
    fail_if (is_some_and s.final (λ final. ltb final end)) final_offset
    fail_if
        (fin
          && (is_some_and s.final (λ final. not (final == end))
              || (ltb end s.next_offset || any_beyond end s.chunks)))
        final_offset
    if leb end s.next_offset
        then (validate_consumed_overlap s offset end bytes >> finish s fin end)
        else (if ltb offset s.next_offset
            then (validate_consumed_overlap s offset s.next_offset bytes
                >> store s s.next_offset end (drop (s.next_offset - offset) bytes) fin charge
                    precharged (length bytes))
            else store s offset end bytes fin charge precharged (length bytes))

  -- The callers: without a charge, one of no bytes is reserved first.
  unfoldable pub insert_record : Reassembler → ℕ → List ℕ → Bool → Result Reassembler RecoveryError
  insert_record s offset bytes fin =
      fail_if (not (try_reserve 0)) capacity
      >> insert_record_with_reservation s offset bytes fin (record { belongs = true; bytes = 0 })
          false

  unfoldable pub insert_record_precharged :
      Reassembler → ℕ → List ℕ → Bool → Charge → Result Reassembler RecoveryError
  insert_record_precharged s offset bytes fin charge =
      insert_record_with_reservation s offset bytes fin charge true
