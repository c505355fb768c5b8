-- ===== src/Recovery/Reassembler/Read.antt =====
-- `Reassembler::read` of src/recovery.rs.
use quicp.Prelude.{
  ℕ, zero, suc, ◌+◌, ◌-◌, min, List, [], ◌∷◌, ◌++◌, length, take, drop, Option, none, some, ltb,
  leb, ◌==◌, ◌&&◌, if◌then◌else◌,
}
use quicp.Recovery.Chunks.{Chunk, chunk_end, last_before}
use quicp.Recovery.Reassembler.{Reassembler}

-- `chunks.remove(&offset)`
unfoldable pub remove_chunk : ℕ → List Chunk → List Chunk
remove_chunk offset [] = []
remove_chunk offset (c ∷ cs) =
    let rest = remove_chunk offset cs in if c.offset == offset then cs else c ∷ rest

-- The chunk that holds the next offset, if one does.
unfoldable pub candidate : Reassembler → Option Chunk
candidate s = elim (last_before (suc s.next_offset) s.chunks) [
  | none ↦ none
  | some c ↦ if ltb s.next_offset (chunk_end c) then some c else none
]

-- What one turn of the loop copies, where there is room for `room` bytes.
abbrev pub copied : Reassembler → Chunk → ℕ → List ℕ
copied s c room =
    take (min (length c.bytes - (s.next_offset - c.offset)) room)
      (drop (s.next_offset - c.offset) c.bytes)

abbrev pub advanced : Reassembler → Chunk → ℕ → Reassembler
advanced s c count = record {
  chunks =
      if leb (chunk_end c) (s.next_offset + count) && leb (chunk_end c) s.acknowledged_offset
      then remove_chunk c.offset s.chunks
      else s.chunks;
  next_offset = s.next_offset + count;
  acknowledged_offset = s.acknowledged_offset;
  final = s.final;
  bytes = s.bytes - count;
  max_bytes = s.max_bytes;
  max_chunks = s.max_chunks;
}

-- The loop, with a bound on its turns.
unfoldable pub read_loop : ℕ → Reassembler → ℕ → List ℕ × Reassembler
read_loop zero s room = ([], s)
read_loop (suc fuel) s zero = ([], s)
read_loop (suc fuel) s (suc room) = elim (candidate s) [
  | none ↦ ([], s)
  | some c ↦
      let bytes = copied s c (suc room) in
      let rest = read_loop fuel (advanced s c (length bytes)) (suc room - length bytes) in
      (bytes ++ rest.0, rest.1)
]

-- A turn copies a byte at least, so there are no more turns than there is room.
unfoldable pub read : Reassembler → ℕ → List ℕ × Reassembler
read s room = read_loop room s room
