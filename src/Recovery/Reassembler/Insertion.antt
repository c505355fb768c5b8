-- ===== src/Recovery/Reassembler/Insertion.antt =====
-- What inserting a record into the reassembler of src/recovery.rs stores.
use quicp.Prelude.{
  ℕ, ◌+◌, ◌-◌, ◌<◌, ◌≤◌, ◌≡◌, refl, ap, sym, ◌∙◌, Bool, true, false, List, [], ◌∷◌, length, Result,
  ok, err, and_then-eq_ok, ok-injective, fail_if, ◌>>◌, get_elem?, ltb, leb, ◌==◌, ◌||◌, ◌&&◌, not,
  if◌then◌else◌, if_of_both, arith, ◌⊎◌, inl, inr,
}
use mathlib.Core.Path.{subst}
use quicp.Wire.{max_wire_offset}
use quicp.Recovery.{RecoveryError, Range, capacity}
use quicp.Recovery.AckRanges.Covers.{in_ranges}
use quicp.Recovery.Chunks.{
  Chunk, Disjoint, total_bytes, overlaps, overlaps-meets, meets, insert_chunk,
  insert_chunk-Disjoint,
}
use quicp.Recovery.Reassembler.{Reassembler, with_final, set_final_offset}
use quicp.Recovery.Reassembler.Insert.{
  Charge, before, scan, gaps_from, fill, gap_bytes, stored, finish, finished_at,
  insert_overlapping_record, store, grow,
}
use quicp.Recovery.Reassembler.Content.{byte_at}
use quicp.Recovery.Reassembler.Gaps.{gaps_from-Gaps}
use quicp.Recovery.Reassembler.Fill.{fill-Filled, Stored, insert_chunk-Stored}
use quicp.Recovery.Reassembler.Overlap.{before-Before, Gaps-before, outside_gaps, in_ranges-within}

-- The record's bytes are held at their offsets, and what was held elsewhere is held still. The chunks
-- share no offset, and the byte counter grows with them, within its limit and that on chunks.
pub record Stores (s : Reassembler) (offset : ℕ) (bytes : List ℕ) (s' : Reassembler) : Type 0 where
  pub disjoint : Disjoint 0 s'.chunks
  pub content :
      (x : ℕ)
      → byte_at s'.chunks x ≡ (
          if leb offset x && ltb x (offset + length bytes)
          then get_elem? bytes (x - offset)
          else byte_at s.chunks x)
  pub same_next : s'.next_offset ≡ s.next_offset
  pub counted : s'.bytes + total_bytes s.chunks ≡ s.bytes + total_bytes s'.chunks
  pub within_bytes : s.bytes ≤ s.max_bytes → s'.bytes ≤ s.max_bytes
  pub within_chunks : length s.chunks ≤ s.max_chunks → length s'.chunks ≤ s.max_chunks

-- The final offset makes no difference.
finished-Stores :
    (s t : Reassembler) (fin : Bool) (end offset : ℕ) (bytes : List ℕ)
    → Stores s offset bytes t
    → Stores s offset bytes (finished_at t fin end)
finished-Stores s t true end offset bytes v = record {
  disjoint = v.disjoint;
  content = v.content;
  same_next = v.same_next;
  counted = v.counted;
  within_bytes = v.within_bytes;
  within_chunks = v.within_chunks;
}
finished-Stores s t false end offset bytes v = v

passed {ℓ} :
    {A : Type ℓ} (t : Bool) (e : RecoveryError) (x y : A)
    → ◌≡◌ {A = Result A RecoveryError} (if t then err e else ok x) (ok y)
    → x ≡ y
passed true e x y h = absurd (cc)
passed false e x y h = ok-injective h

set_final_offset-eq_ok :
    (t s' : Reassembler) (end : ℕ) → set_final_offset t end ≡ ok s' → with_final t end ≡ s'
unfolding set_final_offset
set_final_offset-eq_ok t s' end h = passed _ _ (with_final t end) s' h

pub finish-Stores :
    (s t : Reassembler) (fin : Bool) (end offset : ℕ) (bytes : List ℕ) (s' : Reassembler)
    → finish t fin end ≡ ok s'
    → Stores s offset bytes t
    → Stores s offset bytes s'
finish-Stores s t true end offset bytes s' h v =
    subst (Stores s offset bytes) (set_final_offset-eq_ok t s' end h)
      (finished-Stores s t true end offset bytes v)
finish-Stores s t false end offset bytes s' h v = subst (Stores s offset bytes) (ok-injective h) v

decided :
    (n : ℕ) (a : Result Reassembler RecoveryError) (over_bytes over_chunks denied : Bool)
    (r s' : Reassembler)
    → (if n == 0
        then a
        else (fail_if (over_bytes || over_chunks) capacity >> (fail_if denied capacity >> ok r)))
      ≡ ok s'
    → ((n ≡ 0) × (a ≡ ok s')) ⊎ ((over_bytes ≡ false) × (over_chunks ≡ false) × (r ≡ s'))
decided n a over_bytes over_chunks denied r s' h = ground (arith, h)

limits :
    (s s' : Reassembler) (gs : List Range) (fin : Bool) (end : ℕ) (chunks : List Chunk)
    → ((length gs ≡ 0) × (finish s fin end ≡ ok s'))
      ⊎ ((ltb s.max_bytes (s.bytes + gap_bytes gs) ≡ false)
          × (ltb s.max_chunks (length s.chunks + length gs) ≡ false)
          × (finished_at (stored s chunks (gap_bytes gs)) fin end ≡ s'))
    → ((length gs ≡ 0) × (finish s fin end ≡ ok s'))
      ⊎ ((s.bytes + gap_bytes gs ≤ s.max_bytes)
          × (length s.chunks + length gs ≤ s.max_chunks)
          × (finished_at (stored s chunks (gap_bytes gs)) fin end ≡ s'))
limits s s' gs fin end chunks (inl h) = inl h
limits s s' gs fin end chunks (inr (h, k, l)) = inr (ground (arith, h), ground (arith, k), l)

overlapping-eq_ok :
    (try_reserve : ℕ → Bool) (s : Reassembler) (offset end : ℕ) (bytes : List ℕ) (fin : Bool)
    (s' : Reassembler)
    → insert_overlapping_record try_reserve s offset end bytes fin ≡ ok s'
    → (scan offset end bytes (before end s.chunks) ≡ ok tt)
      × (((length (gaps_from offset end (before end s.chunks) offset) ≡ 0)
            × (finish s fin end ≡ ok s'))
          ⊎ ((s.bytes + gap_bytes (gaps_from offset end (before end s.chunks) offset) ≤ s.max_bytes)
              × (length s.chunks + length (gaps_from offset end (before end s.chunks) offset)
                  ≤ s.max_chunks)
              × (finished_at
                    (stored s
                      (fill offset bytes
                        (gaps_from offset end (before end s.chunks) offset)
                        s.chunks)
                      (gap_bytes (gaps_from offset end (before end s.chunks) offset)))
                    fin
                    end
                  ≡ s')))
unfolding insert_overlapping_record
overlapping-eq_ok try_reserve s offset end bytes fin s' h =
    let (u, scanned, k) = and_then-eq_ok (scan offset end bytes (before end s.chunks)) _ h in
    (
      scanned,
      limits s s' (gaps_from offset end (before end s.chunks) offset) fin end
          (fill offset bytes (gaps_from offset end (before end s.chunks) offset) s.chunks)
          (decided (length (gaps_from offset end (before end s.chunks) offset)) (finish s fin end) _
            _ _ _ s' k),
    )

no_gaps : (gs : List Range) → length gs ≡ 0 → gs ≡ []
no_gaps [] h = refl
no_gaps (g ∷ gs) h = absurd ((omega (arith, h)))

fill_none :
    (offset : ℕ) (bytes : List ℕ) (gs : List Range) (cs : List Chunk)
    → length gs ≡ 0
    → fill offset bytes gs cs ≡ cs
unfolding fill
fill_none offset bytes gs cs h = ap (λ gs. fill offset bytes gs cs) (no_gaps gs h)

-- Inside the record the gaps and the chunks give its bytes, outside nothing changes.
whole_content :
    (offset end : ℕ) (bytes : List ℕ) (gs : List Range) (cs filled : List Chunk) (x : ℕ)
    → end ≡ offset + length bytes
    → (offset ≤ x → x < end → in_ranges gs x ≡ false → byte_at cs x ≡ get_elem? bytes (x - offset))
    → (in_ranges gs x ≡ true → (offset ≤ x) × (x < end))
    → byte_at filled x ≡ (if in_ranges gs x then get_elem? bytes (x - offset) else byte_at cs x)
    → byte_at filled x ≡ (
        if leb offset x && ltb x (offset + length bytes)
        then get_elem? bytes (x - offset)
        else byte_at cs x)
whole_content offset end bytes gs cs filled x e out within f = ground (arith, e, out, within, f)

pub insert_overlapping_record-Stores :
    (try_reserve : ℕ → Bool) (s : Reassembler) (offset end : ℕ) (bytes : List ℕ) (fin : Bool)
    (s' : Reassembler)
    → end ≡ offset + length bytes
    → end ≤ max_wire_offset
    → Disjoint 0 s.chunks
    → insert_overlapping_record try_reserve s offset end bytes fin ≡ ok s'
    → Stores s offset bytes s'
insert_overlapping_record-Stores try_reserve s offset end bytes fin s' e k v h =
    let (front_disjoint, started, same, met) = before-Before 0 end s.chunks v in
    let gs = gaps_from offset end (before end s.chunks) offset in
    let (scanned, cases) = overlapping-eq_ok try_reserve s offset end bytes fin s' h in
    let gaps = Gaps-before offset end s.chunks (before end s.chunks) gs met (
      gaps_from-Gaps 0 offset end offset (before end s.chunks) (omega arith) front_disjoint
        started) in
    let filled =
      fill-Filled offset offset end bytes gs s.chunks (omega arith) (omega (arith, e)) k v gaps in
    let content = λ (x : ℕ).
      whole_content offset end bytes gs s.chunks (fill offset bytes gs s.chunks) x e
        (λ from to out.
          sym (same x to)
          ∙ outside_gaps 0 offset end offset bytes (before end s.chunks) x (omega arith) from to
              front_disjoint scanned out)
        (in_ranges-within offset end s.chunks gs x gaps) (filled.content x) in
    elim cases [
      | inl (none_left, done) ↦ finish-Stores s s fin end offset bytes s' done (record {
        disjoint = v;
        content = λ x.
            ap (λ cs. byte_at cs x) (sym (fill_none offset bytes gs s.chunks none_left))
            ∙ content x;
        same_next = refl;
        counted = refl;
        within_bytes = λ w. w;
        within_chunks = λ w. w;
      })
      | inr (room, places, done) ↦ subst (Stores s offset bytes) done (
          finished-Stores s (stored s (fill offset bytes gs s.chunks) (gap_bytes gs)) fin end offset
            bytes
            (record {
              disjoint = filled.disjoint;
              content = content;
              same_next = refl;
              counted = omega (arith, filled.total);
              within_bytes = λ w. room;
              within_chunks = λ w. omega (arith, filled.count, places);
            }))
    ]

Disjoint-stored :
    (s : Reassembler) (offset end : ℕ) (bytes : List ℕ)
    → end ≡ offset + length bytes
    → end ≤ max_wire_offset
    → 0 < length bytes
    → Disjoint 0 s.chunks
    → overlaps offset end s.chunks ≡ false
    → s.bytes + length bytes ≤ s.max_bytes
    → length s.chunks < s.max_chunks
    → Stores s offset bytes (
        stored s (insert_chunk (record { offset = offset; bytes = bytes }) s.chunks) (length bytes))
Disjoint-stored s offset end bytes e k n v apart room places =
    let met = sym (overlaps-meets 0 offset end s.chunks (omega (arith, e, n)) v) ∙ apart in
    let new : Chunk = record { offset = offset; bytes = bytes } in
    let met_new : meets offset (offset + length bytes) s.chunks ≡ false =
      ap (λ end. meets offset end s.chunks) (sym e) ∙ met in
    let (disjoint, total, count) =
      insert_chunk-Disjoint 0 new s.chunks (omega arith) n (omega (arith, e, k)) v met_new in
    let added = insert_chunk-Stored 0 new s.chunks n v met_new in
    record {
      disjoint = disjoint;
      content = unfold Stored in added.0;
      same_next = refl;
      counted = omega (arith, total);
      within_bytes = λ w. room;
      within_chunks = λ w. omega (arith, count, places);
    }

guards :
    (over_bytes over_chunks denied : Bool) (r s' : Reassembler)
    → (fail_if over_bytes capacity
        >> (fail_if over_chunks capacity >> (fail_if denied capacity >> ok r)))
      ≡ ok s'
    → (over_bytes ≡ false) × (over_chunks ≡ false) × (r ≡ s')
guards over_bytes over_chunks denied r s' h = ground (arith, h)

pub store-Stores :
    (try_reserve : ℕ → Bool) (s : Reassembler) (offset end : ℕ) (bytes : List ℕ) (fin : Bool)
    (charge : Charge) (precharged : Bool) (retained_bytes : ℕ) (s' : Reassembler)
    → end ≡ offset + length bytes
    → end ≤ max_wire_offset
    → 0 < length bytes
    → Disjoint 0 s.chunks
    → store try_reserve s offset end bytes fin charge precharged retained_bytes ≡ ok s'
    → Stores s offset bytes s'
unfolding store
store-Stores try_reserve s offset end bytes fin charge precharged retained_bytes s' e k n v =
    if_of_both (λ (r : Result Reassembler RecoveryError). r ≡ ok s' → Stores s offset bytes s')
      (overlaps offset end s.chunks)
      (λ t h. insert_overlapping_record-Stores try_reserve s offset end bytes fin s' e k v h)
      (λ t h.
        let (room, places, done) =
          guards (ltb s.max_bytes (s.bytes + length bytes)) (leb s.max_chunks (length s.chunks))
            (not precharged && not (grow try_reserve charge retained_bytes)) _ s' h in
        subst (Stores s offset bytes) done (
          finished-Stores s _ fin end offset bytes (
            Disjoint-stored s offset end bytes e k n v t (ground (arith, room))
              (ground (arith, places)))))
