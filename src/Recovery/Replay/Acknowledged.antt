-- ===== src/Recovery/Replay/Acknowledged.antt =====
-- Which bytes an acknowledgement takes out of the replay buffer of src/recovery.rs.
use quicp.Prelude.{
  ℕ, suc, ◌+◌, ◌-◌, ◌<◌, ◌≤◌, ◌≡◌, refl, ap, sym, ◌∙◌, Bool, true, false, List, [], ◌∷◌, length,
  leb, ◌||◌, if_of_both, arith, ◌↔◌, ◌⊎◌, inl, inr, dec_lt,
}
use mathlib.Core.Path.{subst}
use mathlib.Core.List.{Memᴰ}
use mathlib.Core.List.Memᴰ
use quicp.Wire.{max_wire_offset}
use quicp.Recovery.{Range}
use quicp.Recovery.AckRanges.{AckRanges}
use quicp.Recovery.AckRanges.Inv as Acks
use quicp.Recovery.AckRanges.Inv.{Apart}
use quicp.Recovery.AckRanges.Covers.{covers, in_ranges}
use quicp.Recovery.Chunks.{Chunk, chunk_end_lem, Disjoint}
use quicp.Recovery.Replay.{ReplayBuffer, any_holds, is_covered, drop_covered, acknowledge}
use quicp.Recovery.Replay.Inv.{Inv}

below-in_ranges :
    (low : ℕ) (rs : List Range) (x : ℕ) → x < low → Apart low rs → in_ranges rs x ≡ false
unfolding in_ranges
below-in_ranges low [] x h v = refl
below-in_ranges low (r ∷ rs) x h v =
    ground (arith, h, v.0, v.1, below-in_ranges (suc r.end) rs x (omega (arith, h, v)) v.3)

-- A range of offsets is held by one range, or one of its offsets is in none.
held :
    (low : ℕ) (rs : List Range) (offset end : ℕ)
    → offset < end
    → Apart low rs
    → (any_holds offset end rs ≡ true)
      ⊎ ((x : ℕ) × (offset ≤ x) × (x < end) × (in_ranges rs x ≡ false))
unfolding any_holds in_ranges
held low [] offset end h v = inr (offset, omega arith, h, refl)
held low (r ∷ rs) offset end h v = elim (dec_lt offset r.start) [
  | yes e ↦ inr (
    offset,
    omega arith,
    h,
    ground (arith, e, below-in_ranges (suc r.end) rs offset (omega (arith, e, v)) v.3),
  )
  | no n ↦ elim (dec_lt r.end end) [
    | no m ↦ inl (ground (arith, n, m))
    | yes m ↦ elim (dec_lt r.end offset) [
      | no k ↦ inr (
        r.end,
        omega (arith, k),
        m,
        ground (arith, below-in_ranges (suc r.end) rs r.end (omega arith) v.3),
      )
      | yes k ↦ elim (held (suc r.end) rs offset end h v.3) [
        | inl t ↦ inl (ground (arith, t))
        | inr (x, from, to, out) ↦ inr (x, from, to, ground (arith, k, from, out))
      ]
    ]
  ]
]

holds_all :
    (rs : List Range) (offset end x : ℕ)
    → any_holds offset end rs ≡ true
    → offset ≤ x
    → x < end
    → in_ranges rs x ≡ true
unfolding any_holds in_ranges
holds_all [] offset end x h k l = absurd (cc)
holds_all (r ∷ rs) offset end x h k l =
    let ih = holds_all rs offset end x in ground (arith, h, k, l, ih)

uncovered_end :
    (ack : AckRanges) (offset end : ℕ)
    → Acks.Inv ack
    → offset < end
    → ((x : ℕ) → offset ≤ x → x < end → covers ack x ≡ true)
    → (leb end ack.contiguous || any_holds offset end ack.ranges) ≡ true
unfolding covers
uncovered_end ack offset end w h all = elim (dec_lt ack.contiguous end) [
  | no n ↦ ground (arith, n)
  | yes e ↦ elim (dec_lt offset ack.contiguous) [
    | yes k ↦
        let gap =
          below-in_ranges (suc ack.contiguous) ack.ranges ack.contiguous (omega arith) w.apart in
        let said = all ack.contiguous (omega (arith, k)) e in absurd ((ground (arith, gap, said)))
    | no k ↦ elim (held (suc ack.contiguous) ack.ranges offset end h w.apart) [
      | inl t ↦ ground (arith, t)
      | inr (x, from, to, out) ↦
          let said = all x from to in absurd ((ground (arith, k, from, out, said)))
    ]
  ]
]

-- A chunk is taken as acknowledged exactly when each of its offsets is.
pub is_covered_iff :
    (ack : AckRanges) (c : Chunk)
    → Acks.Inv ack
    → 0 < length c.bytes
    → c.offset + length c.bytes ≤ max_wire_offset
    → (is_covered ack c ≡ true)
      ↔ ((x : ℕ) → c.offset ≤ x → x < c.offset + length c.bytes → covers ack x ≡ true)
is_covered_iff ack c w h k =
    let end = chunk_end_lem c k in
    unfold is_covered in
    rw end (
      λ t x from to.
          let all = holds_all ack.ranges c.offset (c.offset + length c.bytes) x in
          unfold covers in ground (arith, t, from, to, all),
      λ all. uncovered_end ack c.offset (c.offset + length c.bytes) w (omega (arith, h)) all,
    )

kept-Memᴰ :
    (ack : AckRanges) (c : Chunk) (cs : List Chunk) (bytes : ℕ)
    → Memᴰ c (drop_covered ack cs bytes).0 ↔ (Memᴰ c cs × (is_covered ack c ≡ false))
unfolding drop_covered
kept-Memᴰ ack c [] bytes = (λ m. absurd (Memᴰ.not-nil m), λ m. m.0)
kept-Memᴰ ack c (d ∷ cs) bytes =
    if_of_both
      (λ (kept : List Chunk × ℕ). Memᴰ c kept.0 ↔ (Memᴰ c (d ∷ cs) × (is_covered ack c ≡ false)))
      (is_covered ack d)
      (λ e.
        let ih = kept-Memᴰ ack c cs (bytes - length d.bytes) in
        (
          λ m. (Memᴰ.tail (ih.0 m).0, (ih.0 m).1),
          λ m. elim (Memᴰ.cases_cons m.0) [
            | inl same ↦ absurd ((let said = sym (ap (is_covered ack) same) ∙ m.1 in cc))
            | inr later ↦ ih.1 (later, m.1)
          ],
        ))
      (λ e.
        let ih = kept-Memᴰ ack c cs bytes in
        (
          λ m. elim (Memᴰ.cases_cons m) [
            | inl same ↦ (Memᴰ.head same, ap (is_covered ack) same ∙ e)
            | inr later ↦ (Memᴰ.tail (ih.0 later).0, (ih.0 later).1)
          ],
          λ m. elim (Memᴰ.cases_cons m.0) [
            | inl same ↦ Memᴰ.head same
            | inr later ↦ Memᴰ.tail (ih.1 (later, m.1))
          ],
        ))

sound_chunk :
    (low : ℕ) (c : Chunk) (cs : List Chunk)
    → Disjoint low cs
    → Memᴰ c cs
    → (0 < length c.bytes) × (c.offset + length c.bytes ≤ max_wire_offset)
sound_chunk low c [] v m = absurd (Memᴰ.not-nil m)
sound_chunk low c (d ∷ cs) v m = elim (Memᴰ.cases_cons m) [
  | inl same ↦
      subst (λ (c : Chunk). (0 < length c.bytes) × (c.offset + length c.bytes ≤ max_wire_offset))
        (sym same) (v.1, v.2)
  | inr later ↦ sound_chunk (d.offset + length d.bytes) c cs v.3 later
]

not_true : (b : Bool) → (b ≡ false) ↔ ¬ (b ≡ true)
not_true b = ground arith

-- Of a replay buffer and acknowledged ranges that satisfy their invariants: the acknowledgement keeps
-- exactly the chunks that have an offset which the ranges do not cover.
pub acknowledge_keeps :
    (b : ReplayBuffer) (ack : AckRanges) (c : Chunk)
    → Inv b
    → Acks.Inv ack
    → Memᴰ c (acknowledge b ack).0.chunks ↔ (
        Memᴰ c b.chunks
        × ¬ ((x : ℕ) → c.offset ≤ x → x < c.offset + length c.bytes → covers ack x ≡ true))
unfolding acknowledge
acknowledge_keeps b ack c v w =
    let kept = kept-Memᴰ ack c b.chunks b.bytes in
    let sound = sound_chunk 0 c b.chunks v.disjoint in
    (
      λ m.
          let (held, open_offset) = kept.0 m in
          let s = sound held in
          (
            held,
            λ all.
                (not_true (is_covered ack c)).0 open_offset
                  ((is_covered_iff ack c w s.0 s.1).1 all),
          ),
      λ m.
          let s = sound m.0 in
          kept.1 (
            m.0,
            (not_true (is_covered ack c)).1 (λ t. m.1 ((is_covered_iff ack c w s.0 s.1).0 t)),
          ),
    )
