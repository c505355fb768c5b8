-- ===== src/Recovery/Chunks.antt =====
-- The maps from an offset to bytes in src/recovery.rs, which `ReplayBuffer` and `Reassembler` keep: a
-- `BTreeMap` as the list of its entries, in the order of their keys.
use quicp.Prelude.{
  ℕ, suc, ◌+◌, ◌<◌, ◌≤◌, ◌≡◌, refl, ap, sym, Bool, false, List, [], ◌∷◌, length, Option, none, some,
  ltb, ◌==◌, ◌||◌, ◌&&◌, if◌then◌else◌, arith, ok, err, dec_lt, ◌⊎◌, inl, inr,
}
use mathlib.Core.Path.{subst}
use quicp.Wire.{max_wire_offset}
use quicp.Recovery.{checked_end}

pub record Chunk : Type 0 where
  pub offset : ℕ
  pub bytes : List ℕ

-- `checked_end(..).unwrap_or(MAX_WIRE_OFFSET)`
unfoldable pub chunk_end : Chunk → ℕ
unfolding checked_end
chunk_end c = elim (checked_end c.offset (length c.bytes)) [
  | ok end ↦ end
  | err e ↦ max_wire_offset
]

-- `chunks.range(..end).next_back()`
unfoldable pub last_before : ℕ → List Chunk → Option Chunk
last_before end [] = none
last_before end (c ∷ cs) =
    let later = last_before end cs in
    if ltb c.offset end then elim later [ none ↦ some c | some d ↦ some d ] else none

-- Whether the last chunk that starts before `end` reaches beyond `offset`.
unfoldable pub overlaps : ℕ → ℕ → List Chunk → Bool
overlaps offset end chunks = elim (last_before end chunks) [
  | none ↦ false
  | some c ↦ ltb offset (chunk_end c)
]

-- `chunks.insert(offset, bytes)`
unfoldable pub insert_chunk : Chunk → List Chunk → List Chunk
insert_chunk new [] = new ∷ []
insert_chunk new (c ∷ cs) =
    let later = insert_chunk new cs in
    if ltb c.offset new.offset
    then c ∷ later
    else (if c.offset == new.offset then new ∷ cs else new ∷ c ∷ cs)

abbrev pub total_bytes : List Chunk → ℕ
total_bytes [] = 0
total_bytes (c ∷ cs) = length c.bytes + total_bytes cs

-- None is empty or passes the maximal offset, and none starts before the one in front of it ends.
abbrev pub Disjoint : ℕ → List Chunk → Type 0
Disjoint low [] = Unit
Disjoint low (c ∷ cs) =
    (low ≤ c.offset)
    × (0 < length c.bytes)
    × (c.offset + length c.bytes ≤ max_wire_offset)
    × Disjoint (c.offset + length c.bytes) cs

pub Disjoint-weaken :
    (low low' : ℕ) (cs : List Chunk) → low' ≤ low → Disjoint low cs → Disjoint low' cs
Disjoint-weaken low low' [] h v = tt
Disjoint-weaken low low' (c ∷ cs) h v = (omega (arith, h, v), v.1, v.2, v.3)

pub chunk_end_lem :
    (c : Chunk)
    → c.offset + length c.bytes ≤ max_wire_offset
    → chunk_end c ≡ c.offset + length c.bytes
unfolding chunk_end
chunk_end_lem c h = ground arith

-- Whether one of these chunks shares an offset with `[offset, end)`.
unfoldable pub meets : ℕ → ℕ → List Chunk → Bool
meets offset end [] = false
meets offset end (c ∷ cs) =
    ltb c.offset end && ltb offset (c.offset + length c.bytes) || meets offset end cs

meets-beyond :
    (low offset end : ℕ) (cs : List Chunk)
    → end ≤ low
    → Disjoint low cs
    → meets offset end cs ≡ false
unfolding meets
meets-beyond low offset end [] h v = refl
meets-beyond low offset end (c ∷ cs) h v =
    let ih = meets-beyond (c.offset + length c.bytes) offset end cs (omega (arith, h, v)) v.3 in
    ground (arith, ih, h, v.0)

pub last_before_yes :
    (end : ℕ) (c : Chunk) (cs : List Chunk)
    → c.offset < end
    → last_before end (c ∷ cs) ≡ elim (last_before end cs) [ none ↦ some c | some d ↦ some d ]
unfolding last_before
last_before_yes end c cs h = ground arith

pub last_before_no :
    (end : ℕ) (c : Chunk) (cs : List Chunk) → end ≤ c.offset → last_before end (c ∷ cs) ≡ none
unfolding last_before
last_before_no end c cs h = ground arith

-- What the last chunk before `end` says of all chunks.
Last : ℕ → ℕ → ℕ → List Chunk → Option Chunk → Type 0
Last low offset end cs none = meets offset end cs ≡ false
Last low offset end cs (some d) =
    (low < chunk_end d) × (low ≤ d.offset) × (meets offset end cs ≡ ltb offset (chunk_end d))

joined :
    (low offset end : ℕ) (c : Chunk) (cs : List Chunk) (o : Option Chunk)
    → offset < end
    → c.offset < end
    → Disjoint low (c ∷ cs)
    → Last (c.offset + length c.bytes) offset end cs o
    → Last low offset end (c ∷ cs) (elim o [ none ↦ some c | some d ↦ some d ])
unfolding Last meets
joined low offset end c cs none h k v l =
    let e = chunk_end_lem c v.2 in rw e (omega (arith, v), v.0, ground (arith, k, l))
joined low offset end c cs (some d) h k v l =
    (omega (arith, l, v), omega (arith, l, v), ground (arith, h, k, l, v.1))

last_before-Last :
    (low offset end : ℕ) (cs : List Chunk)
    → offset < end
    → Disjoint low cs
    → Last low offset end cs (last_before end cs)
last_before-Last low offset end [] h v = unfold last_before in unfold Last in unfold meets in refl
last_before-Last low offset end (c ∷ cs) h v = elim (dec_lt c.offset end) [
  | yes e ↦ subst (Last low offset end (c ∷ cs)) (sym (last_before_yes end c cs e)) (
      joined low offset end c cs (last_before end cs) h e v
        (last_before-Last (c.offset + length c.bytes) offset end cs h v.3))
  | no n ↦ subst (Last low offset end (c ∷ cs)) (sym (last_before_no end c cs (omega (arith, n)))) (
      unfold Last in
      meets-beyond end offset end (c ∷ cs) (omega arith) (omega (arith, n), v.1, v.2, v.3))
]

by_last :
    (low offset end : ℕ) (cs : List Chunk) (o : Option Chunk)
    → Last low offset end cs o
    → elim o [ none ↦ false | some c ↦ ltb offset (chunk_end c) ] ≡ meets offset end cs
unfolding Last
by_last low offset end cs none l = sym l
by_last low offset end cs (some d) l = sym l.2

-- The last chunk before `end` is the only one to ask.
pub overlaps-meets :
    (low offset end : ℕ) (cs : List Chunk)
    → offset < end
    → Disjoint low cs
    → overlaps offset end cs ≡ meets offset end cs
unfolding overlaps
overlaps-meets low offset end cs h v =
    by_last low offset end cs (last_before end cs) (last_before-Last low offset end cs h v)

pub insert_chunk_after :
    (new c : Chunk) (cs : List Chunk)
    → c.offset < new.offset
    → insert_chunk new (c ∷ cs) ≡ c ∷ insert_chunk new cs
unfolding insert_chunk
insert_chunk_after new c cs h = ground arith

pub insert_chunk_before :
    (new c : Chunk) (cs : List Chunk)
    → new.offset < c.offset
    → insert_chunk new (c ∷ cs) ≡ new ∷ c ∷ cs
unfolding insert_chunk
insert_chunk_before new c cs h = ground arith

-- A range that meets none of the chunks lies on one side of the first.
pub beside :
    (offset end : ℕ) (c : Chunk) (cs : List Chunk)
    → offset < end
    → 0 < length c.bytes
    → meets offset end (c ∷ cs) ≡ false
    → (((c.offset < offset) × (c.offset + length c.bytes ≤ offset))
        ⊎ ((offset < c.offset) × (end ≤ c.offset)))
      × (meets offset end cs ≡ false)
unfolding meets
beside offset end c cs h k m = ground arith

pub insert_chunk-Disjoint :
    (low : ℕ) (new : Chunk) (cs : List Chunk)
    → low ≤ new.offset
    → 0 < length new.bytes
    → new.offset + length new.bytes ≤ max_wire_offset
    → Disjoint low cs
    → meets new.offset (new.offset + length new.bytes) cs ≡ false
    → Disjoint low (insert_chunk new cs)
      × (total_bytes (insert_chunk new cs) ≡ length new.bytes + total_bytes cs)
      × (length (insert_chunk new cs) ≡ suc (length cs))
insert_chunk-Disjoint low new [] h k l v m =
    unfold insert_chunk in ((h, k, l, tt), omega arith, refl)
insert_chunk-Disjoint low new (c ∷ cs) h k l v m =
    let (side, none_later) =
      beside new.offset (new.offset + length new.bytes) c cs (omega (arith, k)) v.1 m in
    elim side [
      | inl (before, end) ↦
          let (disjoint, total, count) =
            insert_chunk-Disjoint (c.offset + length c.bytes) new cs end k l v.3 none_later in
          rw (insert_chunk_after new c cs before)
            ((v.0, v.1, v.2, disjoint), omega (arith, total), ap suc count)
      | inr (before, end) ↦
          rw (insert_chunk_before new c cs before) ((h, k, l, (end, v.1, v.2, v.3)), refl, refl)
    ]
