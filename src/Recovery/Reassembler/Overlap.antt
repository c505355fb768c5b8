-- ===== src/Recovery/Reassembler/Overlap.antt =====
-- `insert_overlapping_record` of src/recovery.rs: outside the gaps, the held bytes are the incoming ones.
use quicp.Prelude.{
  ℕ, ◌+◌, ◌-◌, ◌<◌, ◌≤◌, ◌≡◌, refl, ap, sym, ◌∙◌, min, max, Bool, true, false, List, [], ◌∷◌,
  length, ok, drop, get_elem?, get_elem?-take, get_elem?-drop, ltb, not, if◌then◌else◌, if_of_both,
  arith, inr, dec_lt,
}
use mathlib.Core.Path.{ap₂}
use quicp.Wire.{max_wire_offset}
use quicp.Recovery.{Range, checked_end}
use quicp.Recovery.AckRanges.Covers.{in_range, in_ranges}
use quicp.Recovery.Chunks.{Chunk, chunk_end, chunk_end_lem, meets, Disjoint}
use quicp.Recovery.Reassembler.Insert.{slice, same_bytes, before, differs, scan, gaps_from}
use quicp.Recovery.Reassembler.Content.{byte_at, byte_at-below, byte_at-outside, byte_at-inside}
use quicp.Recovery.Reassembler.Gaps.{Gaps, in_front, Started, gaps_skip, gaps_found, gaps_none}

same_bytes_eq : (xs ys : List ℕ) → same_bytes xs ys ≡ true → xs ≡ ys
unfolding same_bytes
same_bytes_eq [] [] h = refl
same_bytes_eq [] (y ∷ ys) h = absurd (cc)
same_bytes_eq (x ∷ xs) [] h = absurd (cc)
same_bytes_eq (x ∷ xs) (y ∷ ys) h =
    let heads : x ≡ y = ground (arith, h) in
    let tails : same_bytes xs ys ≡ true = ground (arith, h) in
    ap₂ ◌∷◌ heads (same_bytes_eq xs ys tails)

byte_of_slice :
    (bytes : List ℕ) (start end i : ℕ)
    → i < end - start
    → get_elem? (slice bytes start end) i ≡ get_elem? bytes (start + i)
byte_of_slice bytes start end i h =
    get_elem?-take (end - start) (drop start bytes) i h ∙ get_elem?-drop start bytes i

of_not-false : (b : Bool) → not b ≡ false → b ≡ true
of_not-false true h = refl
of_not-false false h = absurd (cc)

-- Where a chunk and the incoming bytes do not differ, they have the same bytes.
agreed :
    (offset end : ℕ) (bytes : List ℕ) (c : Chunk) (x : ℕ)
    → differs offset bytes c (max offset c.offset) (min end (c.offset + length c.bytes)) ≡ false
    → offset ≤ x
    → x < end
    → c.offset ≤ x
    → x < c.offset + length c.bytes
    → get_elem? c.bytes (x - c.offset) ≡ get_elem? bytes (x - offset)
unfolding differs
agreed offset end bytes c x d h k l m =
    let from = max offset c.offset in
    let to = min end (c.offset + length c.bytes) in
    let same =
      same_bytes_eq (slice bytes (from - offset) (to - offset))
        (slice c.bytes (from - c.offset) (from - c.offset + (to - from))) (of_not-false _ d) in
    let incoming : from - offset + (x - from) ≡ x - offset = omega (arith, h, l) in
    let held : from - c.offset + (x - from) ≡ x - c.offset = omega (arith, h, l) in
    ap (get_elem? c.bytes) (sym held)
    ∙ sym (
        byte_of_slice c.bytes (from - c.offset) (from - c.offset + (to - from)) (x - from)
          (omega (arith, h, k, l, m)))
    ∙ ap (λ bs. get_elem? bs (x - from)) (sym same)
    ∙ byte_of_slice bytes (from - offset) (to - offset) (x - from) (omega (arith, h, k, l, m))
    ∙ ap (get_elem? bytes) incoming

-- A scan that passes.
scan-eq_ok :
    (offset end : ℕ) (bytes : List ℕ) (c : Chunk) (cs : List Chunk)
    → c.offset + length c.bytes ≤ max_wire_offset
    → scan offset end bytes (c ∷ cs) ≡ ok tt
    → ((offset < c.offset + length c.bytes)
        → differs offset bytes c (max offset c.offset) (min end (c.offset + length c.bytes))
          ≡ false)
      × (scan offset end bytes cs ≡ ok tt)
unfolding scan checked_end
scan-eq_ok offset end bytes c cs h k = ground (arith, h, k)

outside :
    (g : Range) (gs : List Range) (x : ℕ)
    → in_ranges (g ∷ gs) x ≡ false
    → (in_range g x ≡ false) × (in_ranges gs x ≡ false)
unfolding in_ranges
outside g gs x h = ground (arith, h)

last_gap :
    (cursor end x : ℕ)
    → cursor ≤ x
    → x < end
    → in_ranges (if ltb cursor end then record { start = cursor; end = end } ∷ [] else []) x ≡ true
unfolding in_ranges
last_gap cursor end x h k = ground (arith, h, k)

-- What lies outside the gaps lies outside those behind the chunk.
later_gaps :
    (offset end cursor : ℕ) (c : Chunk) (cs : List Chunk) (x : ℕ)
    → offset < chunk_end c
    → offset ≤ cursor
    → in_ranges (gaps_from offset end (c ∷ cs) cursor) x ≡ false
    → in_ranges (gaps_from offset end cs (max cursor (min end (chunk_end c)))) x ≡ false
later_gaps offset end cursor c cs x h k g = elim (dec_lt cursor c.offset) [
  | no n ↦
      ap (λ gs. in_ranges gs x) (sym (gaps_none offset end cursor c cs h k (omega (arith, n)))) ∙ g
  | yes e ↦
      (outside (record { start = cursor; end = max offset c.offset })
        (gaps_from offset end cs (max cursor (min end (chunk_end c)))) x
        (ap (λ gs. in_ranges gs x) (sym (gaps_found offset end cursor c cs h k e)) ∙ g)).1
]

gap_before :
    (offset end cursor : ℕ) (c : Chunk) (cs : List Chunk) (x : ℕ)
    → offset < chunk_end c
    → offset ≤ cursor
    → cursor ≤ x
    → x < c.offset
    → in_ranges (gaps_from offset end (c ∷ cs) cursor) x ≡ false
    → ⊥
gap_before offset end cursor c cs x h k l m g =
    let out =
      (outside (record { start = cursor; end = max offset c.offset })
        (gaps_from offset end cs (max cursor (min end (chunk_end c)))) x
        (ap (λ gs. in_ranges gs x)
            (sym (gaps_found offset end cursor c cs h k (omega (arith, l, m))))
          ∙ g)).0 in
    ground (arith, k, l, m, out)

not_last :
    (offset end cursor x : ℕ)
    → cursor ≤ x
    → x < end
    → in_ranges (gaps_from offset end [] cursor) x ≡ false
    → ⊥
unfolding gaps_from
not_last offset end cursor x h k g = let inside = last_gap cursor end x h k in cc

-- Between the gaps, the chunks hold the incoming bytes.
pub outside_gaps :
    (low offset end cursor : ℕ) (bytes : List ℕ) (cs : List Chunk) (x : ℕ)
    → offset ≤ cursor
    → cursor ≤ x
    → x < end
    → Disjoint low cs
    → scan offset end bytes cs ≡ ok tt
    → in_ranges (gaps_from offset end cs cursor) x ≡ false
    → byte_at cs x ≡ get_elem? bytes (x - offset)
outside_gaps low offset end cursor bytes [] x h k l v s g =
    absurd (not_last offset end cursor x k l g)
outside_gaps low offset end cursor bytes (c ∷ cs) x h k l v s g =
    let is_end = chunk_end_lem c v.2 in
    let (agrees, rest) = scan-eq_ok offset end bytes c cs v.2 s in
    let after = max cursor (min end (chunk_end c)) in
    elim (dec_lt offset (chunk_end c)) [
      | no n ↦
          byte_at-outside c cs x (inr (omega (arith, n, is_end, h, k)))
          ∙ outside_gaps (c.offset + length c.bytes) offset end cursor bytes cs x h k l v.3 rest (
              ap (λ gs. in_ranges gs x) (sym (gaps_skip offset end cursor c cs (omega (arith, n))))
              ∙ g)
      | yes e ↦ elim (dec_lt x (c.offset + length c.bytes)) [
        | no n ↦
            byte_at-outside c cs x (inr (omega (arith, n)))
            ∙ outside_gaps (c.offset + length c.bytes) offset end after bytes cs x
                (omega (arith, h)) (omega (arith, n, is_end, k, l)) l v.3 rest
                (later_gaps offset end cursor c cs x e h g)
        | yes m ↦ elim (dec_lt x c.offset) [
          | no n ↦
              byte_at-inside c cs x (omega (arith, n)) m
              ∙ agreed offset end bytes c x (agrees (omega (arith, e, is_end)))
                  (omega (arith, h, k)) l (omega (arith, n)) m
          | yes n ↦ absurd (gap_before offset end cursor c cs x e h k n g)
        ]
      ]
    ]

-- Ranges in order within `[low, end)` hold no other offset.
pub in_ranges-within :
    (low end : ℕ) (cs : List Chunk) (gs : List Range) (x : ℕ)
    → Gaps low end cs gs
    → in_ranges gs x ≡ true
    → (low ≤ x) × (x < end)
unfolding in_ranges
in_ranges-within low end cs [] x v h = absurd (cc)
in_ranges-within low end cs (g ∷ gs) x v h =
    let later = in_ranges-within g.end end cs gs x v.4 in ground (arith, v.0, v.1, v.2, later, h)

-- The chunks before `end` are those that matter below it.
abbrev pub Before : ℕ → ℕ → List Chunk → List Chunk → Type 0
Before low end cs front =
    Disjoint low front
    × Started end front
    × ((x : ℕ) → x < end → byte_at front x ≡ byte_at cs x)
    × ((from to : ℕ) → to ≤ end → meets from to front ≡ meets from to cs)

none-Before : (low end : ℕ) (cs : List Chunk) → end ≤ low → Disjoint low cs → Before low end cs []
unfolding byte_at meets
none-Before low end cs h v = (
  tt,
  tt,
  λ x k. sym (byte_at-below low cs x (omega (arith, h, k)) v),
  λ from to k. sym (in_front from to low cs (omega (arith, h, k)) v),
)

Before-weaken :
    (low low' end : ℕ) (cs : List Chunk) → low ≤ low' → Before low' end cs [] → Before low end cs []
Before-weaken low low' end cs h v = (tt, tt, v.2, v.3)

one_more :
    (low end : ℕ) (c : Chunk) (cs front : List Chunk)
    → c.offset < end
    → Disjoint low (c ∷ cs)
    → Before (c.offset + length c.bytes) end cs front
    → Before low end (c ∷ cs) (c ∷ front)
unfolding byte_at meets
one_more low end c cs front h v (disjoint, started, same, met) = (
  (v.0, v.1, v.2, disjoint),
  (h, started),
  λ x k. ground (arith, same x k),
  λ from to k. ground (arith, met from to k),
)

pub before-Before :
    (low end : ℕ) (cs : List Chunk) → Disjoint low cs → Before low end cs (before end cs)
unfolding before
before-Before low end [] v = (tt, tt, λ x k. refl, λ from to k. refl)
before-Before low end (c ∷ cs) v =
    if_of_both (Before low end (c ∷ cs)) (ltb c.offset end)
      (λ t.
        one_more low end c cs (before end cs) (ground (arith, t)) v
          (before-Before (c.offset + length c.bytes) end cs v.3))
      (λ t.
        Before-weaken low c.offset end (c ∷ cs) v.0
          (none-Before c.offset end (c ∷ cs) (ground (arith, t)) (omega arith, v.1, v.2, v.3)))

pub Gaps-before :
    (low end : ℕ) (cs front : List Chunk) (gs : List Range)
    → ((from to : ℕ) → to ≤ end → meets from to front ≡ meets from to cs)
    → Gaps low end front gs
    → Gaps low end cs gs
Gaps-before low end cs front [] m v = tt
Gaps-before low end cs front (g ∷ gs) m v =
    (v.0, v.1, v.2, sym (m g.start g.end v.2) ∙ v.3, Gaps-before g.end end cs front gs m v.4)
