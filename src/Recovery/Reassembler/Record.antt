-- ===== src/Recovery/Reassembler/Record.antt =====
-- `insert_record_with_reservation` of src/recovery.rs as a whole.
use quicp.Prelude.{
  ℕ, ◌+◌, ◌-◌, ◌<◌, ◌≤◌, ◌≡◌, refl, ap, ◌∙◌, Bool, List, [], length, Result, ok, and_then-eq_ok,
  fail_if, ◌>>◌, drop, get_elem?, get_elem?-drop, length-drop, ltb, leb, ◌==◌, ◌||◌, ◌&&◌, not,
  if◌then◌else◌, if_of_both, arith,
}
use quicp.Wire.{max_wire_offset}
use quicp.Recovery.{RecoveryError, capacity, invalid_range, final_offset, checked_end}
use quicp.Recovery.Chunks.{Disjoint, total_bytes}
use quicp.Recovery.Reassembler.{Reassembler, is_some_and, any_beyond}
use quicp.Recovery.Reassembler.Insert.{
  Charge, finish, store, validate_consumed_overlap, insert_record_with_reservation,
}
use quicp.Recovery.Reassembler.Content.{byte_at}
use quicp.Recovery.Reassembler.Insertion.{Stores, store-Stores, finish-Stores}

-- From the next offset on, the record's bytes are held at their offsets, and what was held elsewhere is
-- held still. The chunks share no offset, nothing is read by an insertion, and the byte counter grows
-- with the chunks, within its limit and that on chunks.
pub record Inserts (s : Reassembler) (offset : ℕ) (bytes : List ℕ) (s' : Reassembler) : Type 0 where
  pub disjoint : Disjoint 0 s'.chunks
  pub content :
      (x : ℕ)
      → s.next_offset ≤ x
      → byte_at s'.chunks x ≡ (
          if leb offset x && ltb x (offset + length bytes)
          then get_elem? bytes (x - offset)
          else byte_at s.chunks x)
  pub same_next : s'.next_offset ≡ s.next_offset
  pub counted : s'.bytes + total_bytes s.chunks ≡ s.bytes + total_bytes s'.chunks
  pub within_bytes : s.bytes ≤ s.max_bytes → s'.bytes ≤ s.max_bytes
  pub within_chunks : length s.chunks ≤ s.max_chunks → length s'.chunks ≤ s.max_chunks

-- A record that is stored whole.
whole :
    (s : Reassembler) (offset : ℕ) (bytes : List ℕ) (s' : Reassembler)
    → Stores s offset bytes s'
    → Inserts s offset bytes s'
whole s offset bytes s' v = record {
  disjoint = v.disjoint;
  content = λ x from. v.content x;
  same_next = v.same_next;
  counted = v.counted;
  within_bytes = v.within_bytes;
  within_chunks = v.within_chunks;
}

-- A record that ends before the next offset stores nothing.
consumed :
    (s : Reassembler) (offset : ℕ) (bytes : List ℕ) (s' : Reassembler)
    → offset + length bytes ≤ s.next_offset
    → Stores s 0 [] s'
    → Inserts s offset bytes s'
consumed s offset bytes s' h v = record {
  disjoint = v.disjoint;
  content = λ x from. let same = v.content x in ground (arith, h, from, same);
  same_next = v.same_next;
  counted = v.counted;
  within_bytes = v.within_bytes;
  within_chunks = v.within_chunks;
}

-- A record whose front is consumed.
trimmed :
    (s : Reassembler) (offset : ℕ) (bytes : List ℕ) (s' : Reassembler)
    → offset < s.next_offset
    → s.next_offset < offset + length bytes
    → Stores s s.next_offset (drop (s.next_offset - offset) bytes) s'
    → Inserts s offset bytes s'
trimmed s offset bytes s' h k v = record {
  disjoint = v.disjoint;
  content = λ x from.
      let same = v.content x in
      let l = length-drop {A = ℕ} (s.next_offset - offset) bytes in
      let place : s.next_offset - offset + (x - s.next_offset) ≡ x - offset =
        omega (arith, h, from) in
      let byte =
        get_elem?-drop (s.next_offset - offset) bytes (x - s.next_offset)
        ∙ ap (get_elem? bytes) place in
      ground (arith, h, k, from, same, l, byte);
  same_next = v.same_next;
  counted = v.counted;
  within_bytes = v.within_bytes;
  within_chunks = v.within_chunks;
}

untouched : (s : Reassembler) → Disjoint 0 s.chunks → Stores s 0 [] s
untouched s v = record {
  disjoint = v;
  content = λ x. ground arith;
  same_next = refl;
  counted = refl;
  within_bytes = λ w. w;
  within_chunks = λ w. w;
}

checked_end-eq_ok :
    (offset n end : ℕ)
    → checked_end offset n ≡ ok end
    → (end ≡ offset + n) × (end ≤ max_wire_offset)
unfolding checked_end
checked_end-eq_ok offset n end h = ground (arith, h)

nonempty : (n : ℕ) (e : RecoveryError) → fail_if (n == 0) e ≡ ok tt → 0 < n
nonempty n e h = ground (arith, h)

-- The three places of a record.
placed :
    (try_reserve : ℕ → Bool) (s : Reassembler) (offset end : ℕ) (bytes : List ℕ) (fin : Bool)
    (charge : Charge) (precharged : Bool) (s' : Reassembler)
    → end ≡ offset + length bytes
    → end ≤ max_wire_offset
    → 0 < length bytes
    → Disjoint 0 s.chunks
    → (if leb end s.next_offset
        then (validate_consumed_overlap s offset end bytes >> finish s fin end)
        else (if ltb offset s.next_offset
            then (validate_consumed_overlap s offset s.next_offset bytes
                >> store try_reserve s s.next_offset end
                    (drop (s.next_offset - offset) bytes)
                    fin
                    charge
                    precharged
                    (length bytes))
            else store try_reserve s offset end bytes fin charge precharged (length bytes)))
      ≡ ok s'
    → Inserts s offset bytes s'
placed try_reserve s offset end bytes fin charge precharged s' e k n v =
    let accepted =
      λ (r : Result Reassembler RecoveryError). r ≡ ok s' → Inserts s offset bytes s' in
    if_of_both accepted (leb end s.next_offset)
      (λ t h.
        let (u, valid, done) = and_then-eq_ok (validate_consumed_overlap s offset end bytes) _ h in
        consumed s offset bytes s' (ground (arith, t, e))
          (finish-Stores s s fin end 0 [] s' done (untouched s v)))
      (λ t.
        if_of_both accepted (ltb offset s.next_offset)
          (λ t2 h.
            let (u, valid, done) =
              and_then-eq_ok (validate_consumed_overlap s offset s.next_offset bytes) _ h in
            let l = length-drop {A = ℕ} (s.next_offset - offset) bytes in
            let before : offset < s.next_offset = ground (arith, t2) in
            let beyond : s.next_offset < end = ground (arith, t) in
            trimmed s offset bytes s' before (omega (arith, e, beyond)) (
              store-Stores try_reserve s s.next_offset end (drop (s.next_offset - offset) bytes) fin
                charge precharged (length bytes) s' (omega (arith, e, l, before, beyond)) k
                (omega (arith, e, l, before, beyond)) v done))
          (λ t2 h. whole s offset bytes s' (
            store-Stores try_reserve s offset end bytes fin charge precharged (length bytes) s' e k
              n v h)))

-- A record that is inserted among chunks that share no offset, are not empty and end within the
-- offsets, whatever memory is granted: from the next offset on, its bytes are held at
-- their offsets, overlapping or not, and what was held elsewhere is held still. The chunks still share
-- no offset, the next offset stays, the byte counter grows by what the chunks grow by, and the limits
-- on bytes and chunks are kept.
pub insert_record_with_reservation-Inserts :
    (try_reserve : ℕ → Bool) (s : Reassembler) (offset : ℕ) (bytes : List ℕ) (fin : Bool)
    (charge : Charge) (precharged : Bool) (s' : Reassembler)
    → Disjoint 0 s.chunks
    → insert_record_with_reservation try_reserve s offset bytes fin charge precharged ≡ ok s'
    → Inserts s offset bytes s'
unfolding insert_record_with_reservation
insert_record_with_reservation-Inserts try_reserve s offset bytes fin charge precharged s' v h =
    let (u1, e1, k1) =
      and_then-eq_ok
        (fail_if (not charge.belongs || (precharged && ltb charge.bytes (length bytes))) capacity) _
        h in
    let (end, e2, k2) = and_then-eq_ok (checked_end offset (length bytes)) _ k1 in
    let (u3, e3, k3) = and_then-eq_ok (fail_if (length bytes == 0) invalid_range) _ k2 in
    let (u4, e4, k4) =
      and_then-eq_ok (fail_if (is_some_and s.final (λ final. ltb final end)) final_offset) _ k3 in
    let (u5, e5, k5) =
      and_then-eq_ok
        (fail_if
          (fin
            && (is_some_and s.final (λ final. not (final == end))
                || (ltb end s.next_offset || any_beyond end s.chunks)))
          final_offset)
        _ k4 in
    let (sum, fits) = checked_end-eq_ok offset (length bytes) end e2 in
    placed try_reserve s offset end bytes fin charge precharged s' sum fits
      (nonempty (length bytes) invalid_range e3) v k5
