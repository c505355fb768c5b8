-- ===== src/Recovery/Reassembler/Fill.antt =====
-- What storing chunks does to the bytes that the reassembler of src/recovery.rs holds.
use quicp.Prelude.{
  ℕ, ◌+◌, ◌-◌, ◌<◌, ◌≤◌, ◌≡◌, refl, ap, ◌∙◌, Bool, false, List, [], ◌∷◌, length, length-take,
  length-drop, drop, get_elem?, get_elem?-take, get_elem?-drop, ltb, leb, ◌||◌, ◌&&◌, if◌then◌else◌,
  arith, inl, inr,
}
use quicp.Wire.{max_wire_offset}
use quicp.Recovery.{Range}
use quicp.Recovery.AckRanges.Covers.{in_ranges}
use quicp.Recovery.Chunks.{
  Chunk, meets, Disjoint, insert_chunk, insert_chunk_after, insert_chunk_before,
  insert_chunk-Disjoint, beside, total_bytes,
}
use quicp.Recovery.Reassembler.Insert.{slice, fill, gap_bytes}
use quicp.Recovery.Reassembler.Content.{byte_at}
use quicp.Recovery.Reassembler.Gaps.{Gaps}

-- Whether an offset lies in a chunk.
abbrev pub in_chunk : Chunk → ℕ → Bool
in_chunk c x = leb c.offset x && ltb x (c.offset + length c.bytes)

-- What a stored chunk adds.
unfoldable pub Stored : Chunk → List Chunk → List Chunk → Type 0
Stored new cs stored =
    ((x : ℕ)
      → byte_at stored x
        ≡ (if in_chunk new x then get_elem? new.bytes (x - new.offset) else byte_at cs x))
    × ((offset end : ℕ)
        → meets offset end stored ≡ (
            ltb new.offset end && ltb offset (new.offset + length new.bytes)
            || meets offset end cs))

Stored-in_front : (new : Chunk) (cs : List Chunk) → Stored new cs (new ∷ cs)
unfolding Stored byte_at meets
Stored-in_front new cs = (λ x. refl, λ offset end. refl)

Stored-behind :
    (new c : Chunk) (cs stored : List Chunk)
    → c.offset + length c.bytes ≤ new.offset
    → Stored new cs stored
    → Stored new (c ∷ cs) (c ∷ stored)
unfolding Stored byte_at meets
Stored-behind new c cs stored h s =
    (λ x. ground (arith, h, s.0 x), λ offset end. ground (arith, s.1 offset end))

pub insert_chunk-Stored :
    (low : ℕ) (new : Chunk) (cs : List Chunk)
    → 0 < length new.bytes
    → Disjoint low cs
    → meets new.offset (new.offset + length new.bytes) cs ≡ false
    → Stored new cs (insert_chunk new cs)
insert_chunk-Stored low new [] k v m = unfold insert_chunk in Stored-in_front new []
insert_chunk-Stored low new (c ∷ cs) k v m =
    let (side, none_later) =
      beside new.offset (new.offset + length new.bytes) c cs (omega (arith, k)) v.1 m in
    elim side [
      | inl (before, end) ↦ rw (insert_chunk_after new c cs before) (
          Stored-behind new c cs (insert_chunk new cs) end
            (insert_chunk-Stored (c.offset + length c.bytes) new cs k v.3 none_later))
      | inr (before, end) ↦ rw (insert_chunk_before new c cs before) (Stored-in_front new (c ∷ cs))
    ]

Gaps-Stored :
    (low end : ℕ) (new : Chunk) (cs stored : List Chunk) (gs : List Range)
    → new.offset + length new.bytes ≤ low
    → Stored new cs stored
    → Gaps low end cs gs
    → Gaps low end stored gs
unfolding Stored
Gaps-Stored low end new cs stored [] h s v = tt
Gaps-Stored low end new cs stored (g ∷ gs) h s v = (
  v.0,
  v.1,
  v.2,
  ground (arith, h, v.0, v.3, s.1 g.start g.end),
  Gaps-Stored g.end end new cs stored gs (omega (arith, h, v.0, v.1)) s v.4,
)

-- The chunk for a gap.
abbrev gap_chunk : ℕ → List ℕ → Range → Chunk
gap_chunk offset bytes g = record {
  offset = g.start;
  bytes = slice bytes (g.start - offset) (g.end - offset);
}

length-gap_chunk :
    (offset : ℕ) (bytes : List ℕ) (g : Range)
    → offset ≤ g.start
    → g.start < g.end
    → g.end ≤ offset + length bytes
    → length (gap_chunk offset bytes g).bytes ≡ g.end - g.start
length-gap_chunk offset bytes g h k l = omega (
  arith,
  h,
  k,
  l,
  length-take {A = ℕ} (g.end - offset - (g.start - offset)) (drop (g.start - offset) bytes),
  length-drop {A = ℕ} (g.start - offset) bytes,
)

byte_of_gap :
    (offset : ℕ) (bytes : List ℕ) (g : Range) (x : ℕ)
    → offset ≤ g.start
    → g.start ≤ x
    → x < g.end
    → get_elem? (gap_chunk offset bytes g).bytes (x - g.start) ≡ get_elem? bytes (x - offset)
byte_of_gap offset bytes g x h k l =
    let place : g.start - offset + (x - g.start) ≡ x - offset = omega (arith, h, k) in
    get_elem?-take (g.end - offset - (g.start - offset)) (drop (g.start - offset) bytes)
      (x - g.start) (omega (arith, h, k, l))
    ∙ get_elem?-drop (g.start - offset) bytes (x - g.start)
    ∙ ap (get_elem? bytes) place

-- What filling the gaps gives.
pub record Filled (offset : ℕ) (bytes : List ℕ) (gs : List Range) (cs filled : List Chunk)
    : Type 0 where
  pub disjoint : Disjoint 0 filled
  pub total : total_bytes filled ≡ gap_bytes gs + total_bytes cs
  pub count : length filled ≡ length gs + length cs
  pub content :
      (x : ℕ)
      → byte_at filled x ≡ (if in_ranges gs x then get_elem? bytes (x - offset) else byte_at cs x)

joined_content :
    (offset : ℕ) (bytes : List ℕ) (g : Range) (gs : List Range) (cs stored filled : List Chunk)
    (x : ℕ)
    → offset ≤ g.start
    → g.start < g.end
    → length (gap_chunk offset bytes g).bytes ≡ g.end - g.start
    → Stored (gap_chunk offset bytes g) cs stored
    → byte_at filled x ≡ (if in_ranges gs x then get_elem? bytes (x - offset) else byte_at stored x)
    → byte_at filled x
      ≡ (if in_ranges (g ∷ gs) x then get_elem? bytes (x - offset) else byte_at cs x)
unfolding Stored in_ranges
joined_content offset bytes g gs cs stored filled x h k l s e =
    let here = s.0 x in
    let own = byte_of_gap offset bytes g x h in ground (arith, h, k, l, here, own, e)

same_end : (g : Range) (n : ℕ) → n ≡ g.end - g.start → g.start < g.end → g.start + n ≡ g.end
same_end g n h k = omega (arith, h, k)

pub fill-Filled :
    (low offset end : ℕ) (bytes : List ℕ) (gs : List Range) (cs : List Chunk)
    → offset ≤ low
    → end ≤ offset + length bytes
    → end ≤ max_wire_offset
    → Disjoint 0 cs
    → Gaps low end cs gs
    → Filled offset bytes gs cs (fill offset bytes gs cs)
unfolding fill
fill-Filled low offset end bytes [] cs h k l v w = record {
  disjoint = v;
  total = omega arith;
  count = omega arith;
  content = λ x. unfold in_ranges in refl;
}
fill-Filled low offset end bytes (g ∷ gs) cs h k l v w =
    let new = gap_chunk offset bytes g in
    let len = length-gap_chunk offset bytes g (omega (arith, h, w.0)) w.1 (omega (arith, k, w.2)) in
    let apart : meets new.offset (new.offset + length new.bytes) cs ≡ false =
      ap (λ e. meets g.start e cs) (same_end g (length new.bytes) len w.1) ∙ w.3 in
    let nonempty : 0 < length new.bytes = omega (arith, len, w.1) in
    let (disjoint, total, count) =
      insert_chunk-Disjoint 0 new cs (omega arith) nonempty (omega (arith, len, l, w.1, w.2)) v
        apart in
    let stored = insert_chunk-Stored 0 new cs nonempty v apart in
    let rest =
      fill-Filled g.end offset end bytes gs (insert_chunk new cs) (omega (arith, h, w.0, w.1)) k l
        disjoint
        (Gaps-Stored g.end end new cs (insert_chunk new cs) gs (omega (arith, len, w.1)) stored
          w.4) in
    record {
      disjoint = rest.disjoint;
      total = omega (arith, rest.total, total, len);
      count = omega (arith, rest.count, count);
      content = λ x.
          joined_content offset bytes g gs cs (insert_chunk new cs)
            (fill offset bytes gs (insert_chunk new cs)) x (omega (arith, h, w.0)) w.1 len stored
            (rest.content x);
    }
