-- ===== src/Recovery/Reassembler/Gaps.antt =====
-- The gaps that an overlapping record fills in the reassembler of src/recovery.rs.
use quicp.Prelude.{
  ℕ, ◌+◌, ◌<◌, ◌≤◌, ◌≡◌, refl, min, max, false, List, [], ◌∷◌, length, ltb, if◌then◌else◌,
  if_of_both, arith, dec_lt,
}
use quicp.Recovery.{Range}
use quicp.Recovery.Chunks.{Chunk, chunk_end, chunk_end_lem, meets, Disjoint}
use quicp.Recovery.Reassembler.Insert.{gaps_from}

-- Ranges in order within `[low, end)`, none empty, none sharing an offset with a chunk.
abbrev pub Gaps : ℕ → ℕ → List Chunk → List Range → Type 0
Gaps low end cs [] = Unit
Gaps low end cs (g ∷ gs) =
    (low ≤ g.start)
    × (g.start < g.end)
    × (g.end ≤ end)
    × (meets g.start g.end cs ≡ false)
    × Gaps g.end end cs gs

-- The chunk in front ends before the ranges start, or before `end`, where there are none.
Gaps-behind :
    (low end : ℕ) (c : Chunk) (cs : List Chunk) (gs : List Range)
    → min end (c.offset + length c.bytes) ≤ low
    → Gaps low end cs gs
    → Gaps low end (c ∷ cs) gs
unfolding meets
Gaps-behind low end c cs [] h v = tt
Gaps-behind low end c cs (g ∷ gs) h v = (
  v.0,
  v.1,
  v.2,
  ground (arith, h, v.0, v.1, v.2, v.3),
  Gaps-behind g.end end c cs gs (omega (arith, h, v.0, v.1)) v.4,
)

Gaps-weaken :
    (low low' end : ℕ) (cs : List Chunk) (gs : List Range)
    → low' ≤ low
    → Gaps low end cs gs
    → Gaps low' end cs gs
Gaps-weaken low low' end cs [] h v = tt
Gaps-weaken low low' end cs (g ∷ gs) h v = (omega (arith, h, v.0), v.1, v.2, v.3, v.4)

-- What is in front of the first chunk meets none.
pub in_front :
    (offset end low : ℕ) (cs : List Chunk)
    → end ≤ low
    → Disjoint low cs
    → meets offset end cs ≡ false
unfolding meets
in_front offset end low [] h v = refl
in_front offset end low (c ∷ cs) h v =
    ground (
      arith,
      h,
      v.0,
      in_front offset end (c.offset + length c.bytes) cs (omega (arith, h, v.0)) v.3,
    )

no_chunks :
    (cursor end : ℕ)
    → Gaps cursor end [] (if ltb cursor end then record { start = cursor; end = end } ∷ [] else [])
unfolding meets
no_chunks cursor end =
    if_of_both (Gaps cursor end []) (ltb cursor end)
      (λ t. (omega arith, ground (arith, t), omega arith, refl, tt)) (λ t. tt)

pub gaps_skip :
    (offset end cursor : ℕ) (c : Chunk) (cs : List Chunk)
    → chunk_end c ≤ offset
    → gaps_from offset end (c ∷ cs) cursor ≡ gaps_from offset end cs cursor
unfolding gaps_from
gaps_skip offset end cursor c cs h = ground (arith, h)

pub gaps_found :
    (offset end cursor : ℕ) (c : Chunk) (cs : List Chunk)
    → offset < chunk_end c
    → offset ≤ cursor
    → cursor < c.offset
    → gaps_from offset end (c ∷ cs) cursor
      ≡ record { start = cursor; end = max offset c.offset }
        ∷ gaps_from offset end cs (max cursor (min end (chunk_end c)))
unfolding gaps_from
gaps_found offset end cursor c cs h k l = ground (arith, h, k, l)

pub gaps_none :
    (offset end cursor : ℕ) (c : Chunk) (cs : List Chunk)
    → offset < chunk_end c
    → offset ≤ cursor
    → c.offset ≤ cursor
    → gaps_from offset end (c ∷ cs) cursor
      ≡ gaps_from offset end cs (max cursor (min end (chunk_end c)))
unfolding gaps_from
gaps_none offset end cursor c cs h k l = ground (arith, h, k, l)

-- All start before `end`.
abbrev pub Started : ℕ → List Chunk → Type 0
Started end [] = Unit
Started end (c ∷ cs) = (c.offset < end) × Started end cs

pub gaps_from-Gaps :
    (low offset end cursor : ℕ) (cs : List Chunk)
    → offset ≤ cursor
    → Disjoint low cs
    → Started end cs
    → Gaps cursor end cs (gaps_from offset end cs cursor)
gaps_from-Gaps low offset end cursor [] h v s = unfold gaps_from in no_chunks cursor end
gaps_from-Gaps low offset end cursor (c ∷ cs) h v s =
    let is_end = chunk_end_lem c v.2 in
    let after = max cursor (min end (chunk_end c)) in
    let rest =
      gaps_from-Gaps (c.offset + length c.bytes) offset end after cs (omega (arith, h)) v.3 s.1 in
    let rest_behind =
      Gaps-behind after end c cs (gaps_from offset end cs after) (omega (arith, is_end)) rest in
    elim (dec_lt offset (chunk_end c)) [
      | no n ↦ rw (gaps_skip offset end cursor c cs (omega (arith, n))) (
          Gaps-behind cursor end c cs (gaps_from offset end cs cursor) (omega (arith, n, is_end, h))
            (gaps_from-Gaps (c.offset + length c.bytes) offset end cursor cs h v.3 s.1))
      | yes e ↦ elim (dec_lt cursor c.offset) [
        | no n ↦ rw (gaps_none offset end cursor c cs e h (omega (arith, n))) (
            Gaps-weaken after cursor end (c ∷ cs) (gaps_from offset end cs after) (omega arith)
              rest_behind)
        | yes k ↦ rw (gaps_found offset end cursor c cs e h k) (
          omega arith,
          omega (arith, k),
          omega (arith, h, k, s.0),
          in_front cursor (max offset c.offset) c.offset (c ∷ cs) (omega (arith, h, k))
              (omega arith, v.1, v.2, v.3),
          Gaps-weaken after (max offset c.offset) end (c ∷ cs) (gaps_from offset end cs after)
              (omega (arith, h, k, is_end, s.0, v.1)) rest_behind,
        )
      ]
    ]
