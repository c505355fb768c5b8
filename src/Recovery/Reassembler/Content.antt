-- ===== src/Recovery/Reassembler/Content.antt =====
-- The bytes that the reassembler of src/recovery.rs holds, by their offsets, and the chunk that a read
-- takes from.
use quicp.Prelude.{
  ℕ, suc, ◌+◌, ◌-◌, ◌<◌, ◌≤◌, ◌≡◌, refl, ap, sym, ◌∙◌, List, [], ◌∷◌, length, Option, none, some,
  get_elem?, ltb, leb, ◌==◌, ◌&&◌, if◌then◌else◌, if_of_both, arith, ◌⊎◌, inl, inr, dec_lt,
}
use mathlib.Core.Path.{subst}
use quicp.Wire.{max_wire_offset}
use quicp.Recovery.Chunks.{
  Chunk, chunk_end, chunk_end_lem, last_before, last_before_yes, last_before_no, Disjoint,
  Disjoint-weaken,
}
use quicp.Recovery.Reassembler.{Reassembler}
use quicp.Recovery.Reassembler.Read.{remove_chunk, candidate}

-- The byte at an offset.
unfoldable pub byte_at : List Chunk → ℕ → Option ℕ
byte_at [] x = none
byte_at (c ∷ cs) x =
    if leb c.offset x && ltb x (c.offset + length c.bytes)
    then get_elem? c.bytes (x - c.offset)
    else byte_at cs x

pub byte_at-outside :
    (c : Chunk) (cs : List Chunk) (x : ℕ)
    → (x < c.offset) ⊎ (c.offset + length c.bytes ≤ x)
    → byte_at (c ∷ cs) x ≡ byte_at cs x
unfolding byte_at
byte_at-outside c cs x (inl h) = ground (arith, h)
byte_at-outside c cs x (inr h) = ground (arith, h)

pub byte_at-inside :
    (c : Chunk) (cs : List Chunk) (x : ℕ)
    → c.offset ≤ x
    → x < c.offset + length c.bytes
    → byte_at (c ∷ cs) x ≡ get_elem? c.bytes (x - c.offset)
unfolding byte_at
byte_at-inside c cs x h k = ground (arith, h, k)

pub byte_at-below :
    (low : ℕ) (cs : List Chunk) (x : ℕ) → x < low → Disjoint low cs → byte_at cs x ≡ none
byte_at-below low [] x h v = unfold byte_at in refl
byte_at-below low (c ∷ cs) x h v =
    byte_at-outside c cs x (inl (omega (arith, h, v)))
    ∙ byte_at-below (c.offset + length c.bytes) cs x (omega (arith, h, v)) v.3

-- What a chunk is to the chunks, if it holds the offset `n`.
pub record Holds (low n : ℕ) (cs : List Chunk) (d : Chunk) : Type 0 where
  pub above : low ≤ d.offset
  pub started : d.offset ≤ n
  pub fits : d.offset + length d.bytes ≤ max_wire_offset
  pub bytes_of :
      (x : ℕ)
      → d.offset ≤ x
      → x < d.offset + length d.bytes
      → byte_at cs x ≡ get_elem? d.bytes (x - d.offset)
  pub nothing : d.offset + length d.bytes ≤ n → byte_at cs n ≡ none
  pub others :
      (x : ℕ) → d.offset + length d.bytes ≤ x → byte_at (remove_chunk d.offset cs) x ≡ byte_at cs x

LastHolds : ℕ → ℕ → List Chunk → Option Chunk → Type 0
LastHolds low n cs none = byte_at cs n ≡ none
LastHolds low n cs (some d) = Holds low n cs d

remove_first : (c : Chunk) (cs : List Chunk) → remove_chunk c.offset (c ∷ cs) ≡ cs
unfolding remove_chunk
remove_first c cs = ground arith

remove_later :
    (o : ℕ) (c : Chunk) (cs : List Chunk)
    → c.offset < o
    → remove_chunk o (c ∷ cs) ≡ c ∷ remove_chunk o cs
unfolding remove_chunk
remove_later o c cs h = ground (arith, h)

first_Holds :
    (low n : ℕ) (c : Chunk) (cs : List Chunk)
    → c.offset ≤ n
    → Disjoint low (c ∷ cs)
    → byte_at cs n ≡ none
    → Holds low n (c ∷ cs) c
first_Holds low n c cs h v e = record {
  above = v.0;
  started = h;
  fits = v.2;
  bytes_of = λ x from to. byte_at-inside c cs x from to;
  nothing = λ over. byte_at-outside c cs n (inr over) ∙ e;
  others = λ x over.
      ap (λ cs. byte_at cs x) (remove_first c cs) ∙ sym (byte_at-outside c cs x (inr over));
}

later_Holds :
    (low n : ℕ) (c d : Chunk) (cs : List Chunk)
    → Disjoint low (c ∷ cs)
    → Holds (c.offset + length c.bytes) n cs d
    → Holds low n (c ∷ cs) d
later_Holds low n c d cs v p = record {
  above = omega (arith, v, p.above);
  started = p.started;
  fits = p.fits;
  bytes_of = λ x from to.
      byte_at-outside c cs x (inr (omega (arith, from, p.above))) ∙ p.bytes_of x from to;
  nothing = λ over. byte_at-outside c cs n (inr (omega (arith, over, p.above))) ∙ p.nothing over;
  others = λ x over.
      ap (λ cs. byte_at cs x) (remove_later d.offset c cs (omega (arith, p.above, v)))
      ∙ byte_at-outside c (remove_chunk d.offset cs) x (inr (omega (arith, over, p.above)))
      ∙ p.others x over
      ∙ sym (byte_at-outside c cs x (inr (omega (arith, over, p.above))));
}

joined :
    (low n : ℕ) (c : Chunk) (cs : List Chunk) (o : Option Chunk)
    → c.offset ≤ n
    → Disjoint low (c ∷ cs)
    → LastHolds (c.offset + length c.bytes) n cs o
    → LastHolds low n (c ∷ cs) (elim o [ none ↦ some c | some d ↦ some d ])
unfolding LastHolds
joined low n c cs none h v l = first_Holds low n c cs h v l
joined low n c cs (some d) h v l = later_Holds low n c d cs v l

last_before-LastHolds :
    (low n : ℕ) (cs : List Chunk) → Disjoint low cs → LastHolds low n cs (last_before (suc n) cs)
last_before-LastHolds low n [] v = unfold last_before in unfold LastHolds in unfold byte_at in refl
last_before-LastHolds low n (c ∷ cs) v = elim (dec_lt n c.offset) [
  | yes e ↦
      subst (LastHolds low n (c ∷ cs)) (sym (last_before_no (suc n) c cs e))
        (unfold LastHolds in byte_at-below c.offset (c ∷ cs) n e (omega arith, v.1, v.2, v.3))
  | no k ↦
      subst (LastHolds low n (c ∷ cs)) (sym (last_before_yes (suc n) c cs (omega (arith, k)))) (
        joined low n c cs (last_before (suc n) cs) (omega (arith, k)) v
          (last_before-LastHolds (c.offset + length c.bytes) n cs v.3))
]

-- What the candidate of a read is.
unfoldable pub Candidate : Reassembler → Option Chunk → Type 0
Candidate s none = byte_at s.chunks s.next_offset ≡ none
Candidate s (some d) =
    Holds 0 s.next_offset s.chunks d × (s.next_offset < d.offset + length d.bytes)

chosen :
    (s : Reassembler) (o : Option Chunk)
    → LastHolds 0 s.next_offset s.chunks o
    → Candidate s
        (elim o [ none ↦ none | some c ↦ if ltb s.next_offset (chunk_end c) then some c else none ])
unfolding LastHolds Candidate
chosen s none l = l
chosen s (some d) l =
    let end = chunk_end_lem d l.fits in
    if_of_both (Candidate s) (ltb s.next_offset (chunk_end d)) (λ t. (l, ground (arith, t, end)))
      (λ t. l.nothing (ground (arith, t, end)))

pub candidate_lem : (s : Reassembler) → Disjoint 0 s.chunks → Candidate s (candidate s)
unfolding candidate
candidate_lem s v =
    chosen s (last_before (suc s.next_offset) s.chunks)
      (last_before-LastHolds 0 s.next_offset s.chunks v)

pub remove_chunk-Disjoint :
    (low o : ℕ) (cs : List Chunk) → Disjoint low cs → Disjoint low (remove_chunk o cs)
unfolding remove_chunk
remove_chunk-Disjoint low o [] v = tt
remove_chunk-Disjoint low o (c ∷ cs) v =
    if_of_both (Disjoint low) (c.offset == o)
      (λ t. Disjoint-weaken (c.offset + length c.bytes) low cs (omega (arith, v.0)) v.3)
      (λ t. (v.0, v.1, v.2, remove_chunk-Disjoint (c.offset + length c.bytes) o cs v.3))
