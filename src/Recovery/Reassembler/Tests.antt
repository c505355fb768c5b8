-- ===== src/Recovery/Reassembler/Tests.antt =====
-- The reassembler (src/recovery.rs) at work, and instances of the theorems.
use quicp.Prelude.{ℕ, Bool, ◌≡◌, refl, [], ◌∷◌, ok, err, some, arith, true, false, leb, and_then}
use quicp.Recovery.{capacity, contradictory_overlap, final_offset, checked_end}
use quicp.Recovery.Chunks.{chunk_end, last_before, overlaps, insert_chunk}
use quicp.Recovery.Reassembler.{
  Reassembler, new, any_beyond, set_final_offset, release, acknowledge_consumed,
}
use quicp.Recovery.Reassembler.Insert.{
  Charge, same_bytes, before, differs, gaps_from, scan, fill, insert_overlapping_record, store,
  insert_record_with_reservation, insert_record,
}
use quicp.Recovery.Reassembler.Read.{remove_chunk, candidate, read_loop, read}
use quicp.Recovery.Reassembler.Record.{Inserts, insert_record_with_reservation-Inserts}
use quicp.Recovery.Reassembler.Delivery.{Delivers, read-Delivers}

abbrev plenty : ℕ → Bool
plenty bytes = leb bytes 1000

abbrev held : Reassembler
held = record {
  chunks =
      record { offset = 0; bytes = 1 ∷ 2 ∷ [] }
      ∷ record { offset = 2; bytes = 3 ∷ [] }
      ∷ record { offset = 4; bytes = 5 ∷ [] }
      ∷ [];
  next_offset = 0;
  acknowledged_offset = 0;
  final = some 5;
  bytes = 4;
  max_bytes = 8;
  max_chunks = 8;
}

-- Out of order, the second record overlapping what is there.
filled :
    and_then (insert_record plenty (new 8) 2 (3 ∷ []) false) (λ s.
      and_then
        (insert_record plenty s 4 (5 ∷ []) true)
        (λ s. insert_record plenty s 0 (1 ∷ 2 ∷ 3 ∷ []) false))
    ≡ ok held
unfolding insert_record insert_record_with_reservation checked_end any_beyond store overlaps
    last_before insert_chunk insert_overlapping_record scan before differs same_bytes gaps_from
    chunk_end fill
filled = refl

refusals :
    (insert_record plenty held 2 (9 ∷ []) false ≡ err contradictory_overlap)
    × (insert_record plenty held 5 (6 ∷ []) false ≡ err final_offset)
    × (insert_record plenty held 0 (1 ∷ []) true ≡ err final_offset)
    × (set_final_offset held 6 ≡ err final_offset)
    × (insert_record (λ bytes. false) (new 8) 0 (1 ∷ []) false ≡ err capacity)
unfolding insert_record insert_record_with_reservation checked_end any_beyond store overlaps
    last_before insert_overlapping_record scan before differs same_bytes chunk_end set_final_offset
refusals = (refl, refl, refl, refl, refl)

abbrev after : Reassembler
after = record {
  chunks = held.chunks;
  next_offset = 3;
  acknowledged_offset = 0;
  final = some 5;
  bytes = 1;
  max_bytes = 8;
  max_chunks = 8;
}

reads : read held 9 ≡ (1 ∷ 2 ∷ 3 ∷ [], after)
unfolding read read_loop candidate last_before chunk_end checked_end remove_chunk
reads = refl

releases :
    (acknowledge_consumed after 2).chunks
    ≡ record { offset = 2; bytes = 3 ∷ [] } ∷ record { offset = 4; bytes = 5 ∷ [] } ∷ []
unfolding acknowledge_consumed release checked_end
releases = refl

abbrev gap_first : Reassembler
gap_first = record {
  chunks = record { offset = 2; bytes = 3 ∷ [] } ∷ record { offset = 4; bytes = 5 ∷ [] } ∷ [];
  next_offset = 0;
  acknowledged_offset = 0;
  final = some 5;
  bytes = 2;
  max_bytes = 8;
  max_chunks = 8;
}

abbrev uncharged : Charge
uncharged = record { belongs = true; bytes = 0 }

overlapped :
    insert_record_with_reservation plenty gap_first 0 (1 ∷ 2 ∷ 3 ∷ []) false uncharged false
    ≡ ok held
unfolding insert_record_with_reservation checked_end any_beyond store overlaps last_before
    insert_chunk insert_overlapping_record scan before differs same_bytes gaps_from chunk_end fill
overlapped = refl

insert_record_with_reservation-Inserts_example : Inserts gap_first 0 (1 ∷ 2 ∷ 3 ∷ []) held
insert_record_with_reservation-Inserts_example =
    insert_record_with_reservation-Inserts plenty gap_first 0 (1 ∷ 2 ∷ 3 ∷ []) false uncharged false
      held (ground arith) overlapped

read-Delivers_example : Delivers held 9 (read held 9).0 (read held 9).1
read-Delivers_example = read-Delivers held 9 (ground arith)
