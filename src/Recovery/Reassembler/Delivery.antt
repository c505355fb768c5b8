-- ===== src/Recovery/Reassembler/Delivery.antt =====
-- What `Reassembler::read` of src/recovery.rs delivers.
use quicp.Prelude.{
  ℕ, zero, suc, ◌+◌, ◌-◌, ◌<◌, ◌≤◌, ◌≡◌, refl, ap, sym, ◌∙◌, min, List, [], ◌++◌, length,
  length-append, length-take, length-drop, drop, get_elem?, get_elem?-append_left,
  get_elem?-append_right, get_elem?-take, get_elem?-drop, Option, none, some, leb, ◌&&◌, if_of_both,
  arith, dec_lt,
}
use mathlib.Core.Path.{subst}
use quicp.Recovery.Chunks.{Chunk, chunk_end, chunk_end_lem, Disjoint}
use quicp.Recovery.Reassembler.{Reassembler}
use quicp.Recovery.Reassembler.Read.{candidate, copied, advanced, read_loop, read}
use quicp.Recovery.Reassembler.Content.{
  byte_at, Holds, Candidate, candidate_lem, remove_chunk-Disjoint,
}

-- The bytes that are delivered are those that were held from the next offset on; the bytes behind
-- them stay, and if there is room left, the next byte is not held.
pub record Delivers (s : Reassembler) (room : ℕ) (output : List ℕ) (after : Reassembler)
    : Type 0 where
  pub moved : after.next_offset ≡ s.next_offset + length output
  pub fits : length output ≤ room
  pub delivered :
      (i : ℕ) → i < length output → get_elem? output i ≡ byte_at s.chunks (s.next_offset + i)
  pub kept : (x : ℕ) → after.next_offset ≤ x → byte_at after.chunks x ≡ byte_at s.chunks x
  pub drained : length output < room → byte_at after.chunks after.next_offset ≡ none
  pub disjoint : Disjoint 0 after.chunks

length-copied :
    (s : Reassembler) (c : Chunk) (room : ℕ)
    → Holds 0 s.next_offset s.chunks c
    → length (copied s c room) ≡ min (c.offset + length c.bytes - s.next_offset) room
length-copied s c room h = omega (
  arith,
  h.started,
  length-take {A = ℕ} (min (length c.bytes - (s.next_offset - c.offset)) room)
      (drop (s.next_offset - c.offset) c.bytes),
  length-drop {A = ℕ} (s.next_offset - c.offset) c.bytes,
)

copied_lem :
    (s : Reassembler) (c : Chunk) (room i : ℕ)
    → Holds 0 s.next_offset s.chunks c
    → i < length (copied s c room)
    → get_elem? (copied s c room) i ≡ byte_at s.chunks (s.next_offset + i)
copied_lem s c room i h k =
    let l = length-copied s c room h in
    let skip = s.next_offset - c.offset in
    let from : skip + i ≡ s.next_offset + i - c.offset = omega (arith, h.started) in
    get_elem?-take (min (length c.bytes - skip) room) (drop skip c.bytes) i
      (omega (arith, k, l, h.started))
    ∙ get_elem?-drop skip c.bytes i
    ∙ ap (get_elem? c.bytes) from
    ∙ sym
        (h.bytes_of (s.next_offset + i) (omega (arith, h.started)) (omega (arith, k, l, h.started)))

-- A turn keeps what lies behind the bytes that it copies.
advanced-keeps :
    (s : Reassembler) (c : Chunk) (count : ℕ)
    → Holds 0 s.next_offset s.chunks c
    → Disjoint 0 s.chunks
    → ((x : ℕ)
        → s.next_offset + count ≤ x
        → byte_at (advanced s c count).chunks x ≡ byte_at s.chunks x)
      × Disjoint 0 (advanced s c count).chunks
advanced-keeps s c count h v =
    let end = chunk_end_lem c h.fits in
    if_of_both
      (λ (cs : List Chunk).
        ((x : ℕ) → s.next_offset + count ≤ x → byte_at cs x ≡ byte_at s.chunks x) × Disjoint 0 cs)
      (leb (chunk_end c) (s.next_offset + count) && leb (chunk_end c) s.acknowledged_offset)
      (λ t. (
        λ x from. h.others x (ground (arith, t, end, from)),
        remove_chunk-Disjoint 0 c.offset s.chunks v,
      ))
      (λ t. (λ x from. refl, v))

join :
    (s : Reassembler) (bytes output : List ℕ) (i : ℕ)
    → (i < length bytes → get_elem? bytes i ≡ byte_at s.chunks (s.next_offset + i))
    → ((j : ℕ)
        → j < length output
        → get_elem? output j ≡ byte_at s.chunks (s.next_offset + length bytes + j))
    → i < length (bytes ++ output)
    → get_elem? (bytes ++ output) i ≡ byte_at s.chunks (s.next_offset + i)
join s bytes output i front back h = elim (dec_lt i (length bytes)) [
  | yes e ↦ get_elem?-append_left bytes output i e ∙ front e
  | no n ↦
      let j = i - length bytes in
      let split : i ≡ length bytes + j = omega (arith, n) in
      let place : s.next_offset + length bytes + j ≡ s.next_offset + i = omega (arith, n) in
      ap (get_elem? (bytes ++ output)) split
      ∙ get_elem?-append_right bytes output j
      ∙ back j (omega (arith, n, h, length-append bytes output))
      ∙ ap (byte_at s.chunks) place
]

-- One turn and what the loop does after it.
after_turn :
    (s : Reassembler) (c : Chunk) (room : ℕ) (output : List ℕ) (after : Reassembler)
    → Holds 0 s.next_offset s.chunks c
    → Disjoint 0 s.chunks
    → Delivers
        (advanced s c (length (copied s c room)))
        (room - length (copied s c room))
        output
        after
    → Delivers s room (copied s c room ++ output) after
after_turn s c room output after h v d =
    let bytes = copied s c room in
    let l = length-copied s c room h in
    let total = length-append bytes output in
    let (keeps, apart) = advanced-keeps s c (length bytes) h v in
    record {
      moved = omega (arith, d.moved, total);
      fits = omega (arith, d.fits, total, l);
      delivered = λ i k.
          join s bytes output i (λ e. copied_lem s c room i h e)
            (λ j e. d.delivered j e ∙ keeps (s.next_offset + length bytes + j) (omega arith)) k;
      kept = λ x from. d.kept x from ∙ keeps x (omega (arith, from, d.moved));
      drained = λ less. d.drained (omega (arith, less, total, l));
      disjoint = d.disjoint;
    }

nothing :
    (s : Reassembler) (room : ℕ)
    → Disjoint 0 s.chunks
    → byte_at s.chunks s.next_offset ≡ none
    → Delivers s room [] s
nothing s room v e = record {
  moved = omega arith;
  fits = omega arith;
  delivered = λ i k. absurd ((omega (arith, k)));
  kept = λ x from. refl;
  drained = λ less. e;
  disjoint = v;
}

full : (s : Reassembler) → Disjoint 0 s.chunks → Delivers s 0 [] s
full s v = record {
  moved = omega arith;
  fits = omega arith;
  delivered = λ i k. absurd ((omega (arith, k)));
  kept = λ x from. refl;
  drained = λ less. absurd ((omega (arith, less)));
  disjoint = v;
}

turn :
    (fuel : ℕ) (s : Reassembler) (room : ℕ) (o : Option Chunk)
    → Disjoint 0 s.chunks
    → Candidate s o
    → ((t : Reassembler) (left : ℕ)
        → left ≤ fuel
        → Disjoint 0 t.chunks
        → Delivers t left (read_loop fuel t left).0 (read_loop fuel t left).1)
    → room ≤ fuel
    → (r : List ℕ × Reassembler) × (r ≡ elim o [
      | none ↦ ([], s)
      | some c ↦
          let bytes = copied s c (suc room) in
          let rest = read_loop fuel (advanced s c (length bytes)) (suc room - length bytes) in
          (bytes ++ rest.0, rest.1)
    ])
      × Delivers s (suc room) r.0 r.1
unfolding Candidate
turn fuel s room none v e ih h = (([], s), refl, nothing s (suc room) v e)
turn fuel s room (some c) v (holds, ahead) ih h =
    let bytes = copied s c (suc room) in
    let l = length-copied s c (suc room) holds in
    let next = advanced s c (length bytes) in
    let left = suc room - length bytes in
    (
      (bytes ++ (read_loop fuel next left).0, (read_loop fuel next left).1),
      refl,
      after_turn s c (suc room) (read_loop fuel next left).0 (read_loop fuel next left).1 holds v
          (ih next left (omega (arith, l, ahead, h)) (advanced-keeps s c (length bytes) holds v).1),
    )

read_loop-Delivers :
    (fuel : ℕ) (s : Reassembler) (room : ℕ)
    → room ≤ fuel
    → Disjoint 0 s.chunks
    → Delivers s room (read_loop fuel s room).0 (read_loop fuel s room).1
unfolding read_loop
read_loop-Delivers zero s zero h v = full s v
read_loop-Delivers zero s (suc room) h v = absurd ((omega (arith, h)))
read_loop-Delivers (suc fuel) s zero h v = full s v
read_loop-Delivers (suc fuel) s (suc room) h v =
    let (r, same, d) =
      turn fuel s room (candidate s) v (candidate_lem s v)
        (λ t left k w. read_loop-Delivers fuel t left k w) (omega (arith, h)) in
    subst (λ (r : List ℕ × Reassembler). Delivers s (suc room) r.0 r.1) same d

-- Where the chunks share no offset, are not empty and end within the offsets, a read delivers, in order
-- and within the room that it is given, the bytes that were held from the
-- next offset on, and moves the next offset behind them. It leaves the bytes behind untouched and
-- stops short of the room only if the next byte is not held.
pub read-Delivers :
    (s : Reassembler) (room : ℕ)
    → Disjoint 0 s.chunks
    → Delivers s room (read s room).0 (read s room).1
unfolding read
read-Delivers s room v = read_loop-Delivers room s room (omega arith) v
