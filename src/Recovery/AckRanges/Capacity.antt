-- ===== src/Recovery/AckRanges/Capacity.antt =====
-- What an insertion into acknowledged ranges (src/recovery.rs) refuses, and what comes off the wire.
use quicp.Prelude.{
  ℕ, ◌<◌, ◌≤◌, ◌≡◌, refl, ap, sym, ◌∙◌, max, Bool, true, false, List, [], ◌∷◌, length, ok, err,
  and_then-eq_ok, ok-injective, ltb, ◌||◌, arith, ◌↔◌, fail_if,
}
use mathlib.Core.Path.{subst}
use quicp.Wire.{max_wire_offset}
use quicp.Recovery.{Range, invalid_range, range_capacity}
use quicp.Recovery.AckRanges.{
  AckRanges, range, any_touches, validate_insert, place, settle, inserted, insert, insert_all,
  from_wire,
}
use quicp.Recovery.AckRanges.Inv.{Inv, place_here, not_before, insert-Inv, insert_all-Inv}
use quicp.Recovery.AckRanges.Room.{merge_before}
use quicp.Recovery.AckRanges.Covers.{in_range, in_ranges, covers, covers-insert}

refusal :
    (a : AckRanges) (r : Range)
    → (insert a r ≡ err range_capacity) ↔ (
        (r.start < r.end)
        × (r.end ≤ max_wire_offset)
        × (a.contiguous < r.end)
        × (a.max_ranges ≤ length a.ranges)
        × (any_touches (max r.start a.contiguous) r.end a.ranges ≡ false))
unfolding insert validate_insert
refusal a r = ground arith

settle_reached :
    (c : ℕ) (r : Range) (rs : List Range)
    → r.start ≤ c
    → settle c (r ∷ rs) ≡ settle (max c r.end) rs
unfolding settle
settle_reached c r rs h = ground arith

settle_stops : (c : ℕ) (r : Range) (rs : List Range) → c < r.start → settle c (r ∷ rs) ≡ (c, r ∷ rs)
unfolding settle
settle_stops c r rs h = ground arith

in_front :
    (c : ℕ) (m first : Range) (rest : List Range)
    → m.start ≤ c
    → c < m.end
    → m.end < first.start
    → first.start < first.end
    → settle c (place m (first ∷ rest)) ≡ (m.end, first ∷ rest)
in_front c m first rest h k l n =
    let reaches : max c m.end ≡ m.end = omega (arith, k) in
    ap (settle c)
      (place_here m first rest (omega (arith, h, k, l, n)) ∙ merge_before m first rest l)
    ∙ settle_reached c m (first ∷ rest) h
    ∙ ap (λ c. settle c (first ∷ rest)) reaches
    ∙ settle_stops m.end first rest l

-- The ranges that are kept, all places being taken.
abbrev pub full : ℕ → Range → List Range → AckRanges
full contiguous first rest = record {
  contiguous = contiguous;
  ranges = first ∷ rest;
  max_ranges = length (first ∷ rest);
}

-- Of a set that satisfies the invariant and has all its places taken, a range that would only carry the
-- prefix further, and so needs no place, is refused for want of room if it ends before the first kept range: what the insertion would give
-- has the same kept ranges and satisfies the invariant.
pub insert-prefix_refused :
    (contiguous : ℕ) (first r : Range) (rest : List Range)
    → Inv (full contiguous first rest)
    → r.start ≤ contiguous
    → contiguous < r.end
    → r.end < first.start
    → (insert (full contiguous first rest) r ≡ err range_capacity)
      × ((inserted (full contiguous first rest) r).contiguous ≡ r.end)
      × ((inserted (full contiguous first rest) r).ranges ≡ first ∷ rest)
      × Inv (inserted (full contiguous first rest) r)
insert-prefix_refused contiguous first r rest v h k l =
    let m = range (max r.start contiguous) r.end in
    let (beyond, nonempty, fits, later) = v.apart in
    let front = in_front contiguous m first rest (omega (arith, h)) k l nonempty in
    let untouched =
      not_before m first.start (first ∷ rest) l (omega arith, nonempty, fits, later) in
    (
      (refusal (full contiguous first rest) r).1
          (omega (arith, h, k), omega (arith, l, nonempty, fits), k, omega arith, untouched),
      ap (λ s. s.0) front,
      ap (λ s. s.1) front,
      subst
          (λ (s : ℕ × List Range).
            Inv (record { contiguous = s.0; ranges = s.1; max_ranges = length (first ∷ rest) }))
          (sym front)
          (record {
            fits = omega (arith, l, nonempty, fits);
            apart = (l, nonempty, fits, later);
            bounded = omega arith;
          }),
    )

-- The offsets of the set stay below `sent_offset`.
abbrev Sent : ℕ → AckRanges → Type 0
Sent sent_offset a = (x : ℕ) → covers a x ≡ true → x < sent_offset

insert-Sent :
    (a b : AckRanges) (r : Range) (sent_offset : ℕ)
    → Inv a
    → r.end ≤ sent_offset
    → insert a r ≡ ok b
    → Sent sent_offset a
    → Sent sent_offset b
insert-Sent a b r sent_offset v h e s x c =
    let after = covers-insert a b r x v e in let before = s x in ground (arith, h, after, before, c)

accepted_end :
    (sent_offset end : ℕ) → fail_if (ltb sent_offset end) invalid_range ≡ ok tt → end ≤ sent_offset
accepted_end sent_offset end h = ground arith

assoc : (p q r : Bool) → ((p || q) || r) ≡ (p || (q || r))
assoc true q r = refl
assoc false q r = refl

covers-insert_all :
    (a b : AckRanges) (ranges : List Range) (sent_offset : ℕ)
    → Inv a
    → Sent sent_offset a
    → insert_all a ranges sent_offset ≡ ok b
    → ((x : ℕ) → covers b x ≡ (covers a x || in_ranges ranges x)) × Sent sent_offset b
unfolding insert_all in_ranges
covers-insert_all a b [] sent_offset v s h =
    subst (λ b. ((x : ℕ) → covers b x ≡ (covers a x || false)) × Sent sent_offset b)
      (ok-injective h) (λ x. ground arith, s)
covers-insert_all a b (r ∷ ranges) sent_offset v s h =
    let (u, e, k) = and_then-eq_ok (fail_if (ltb sent_offset r.end) invalid_range) _ h in
    let (ack, e2, k2) = and_then-eq_ok (insert a r) (λ ack. insert_all ack ranges sent_offset) k in
    let (v2, same) = insert-Inv a ack r v e2 in
    let s2 = insert-Sent a ack r sent_offset v (accepted_end sent_offset r.end e) e2 s in
    let (covered, s3) = covers-insert_all ack b ranges sent_offset v2 s2 k2 in
    (
      λ x.
          covered x
          ∙ ap (λ t. t || in_ranges ranges x) (covers-insert a ack r x v e2)
          ∙ assoc (covers a x) (in_range r x) (in_ranges ranges x),
      s3,
    )

start : ℕ → ℕ → AckRanges
start contiguous max_ranges = record {
  contiguous = contiguous;
  ranges = [];
  max_ranges = max_ranges;
}

start-Inv :
    (contiguous max_ranges : ℕ) → contiguous ≤ max_wire_offset → Inv (start contiguous max_ranges)
unfolding start
start-Inv contiguous max_ranges h = record { fits = h; apart = tt; bounded = omega arith }

covers-start :
    (contiguous max_ranges x : ℕ) → covers (start contiguous max_ranges) x ≡ ltb x contiguous
unfolding start covers in_ranges
covers-start contiguous max_ranges x = ground arith

from_wire-eq_ok :
    (contiguous : ℕ) (ranges : List Range) (max_ranges sent_offset : ℕ) (b : AckRanges)
    → from_wire contiguous ranges max_ranges sent_offset ≡ ok b
    → (contiguous ≤ sent_offset)
      × (insert_all (start contiguous max_ranges) ranges sent_offset ≡ ok b)
unfolding from_wire start
from_wire-eq_ok contiguous ranges max_ranges sent_offset b h = ground arith

-- What is taken from the wire is in order, apart and within the number allowed, covers exactly the
-- offsets of the prefix and of the ranges, and none of them is beyond what was sent, where that is a
-- wire offset.
pub from_wire-Inv :
    (contiguous : ℕ) (ranges : List Range) (max_ranges sent_offset : ℕ) (b : AckRanges)
    → sent_offset ≤ max_wire_offset
    → from_wire contiguous ranges max_ranges sent_offset ≡ ok b
    → Inv b
      × (b.max_ranges ≡ max_ranges)
      × ((x : ℕ) → covers b x ≡ (ltb x contiguous || in_ranges ranges x))
      × ((x : ℕ) → covers b x ≡ true → x < sent_offset)
from_wire-Inv contiguous ranges max_ranges sent_offset b h e =
    let (below, k) = from_wire-eq_ok contiguous ranges max_ranges sent_offset b e in
    let v = start-Inv contiguous max_ranges (omega (arith, below, h)) in
    let s : Sent sent_offset (start contiguous max_ranges) =
      λ x c. let c2 = sym (covers-start contiguous max_ranges x) ∙ c in ground (arith, below, c2) in
    let (w, same) = insert_all-Inv (start contiguous max_ranges) b ranges sent_offset v k in
    let (covered, s2) =
      covers-insert_all (start contiguous max_ranges) b ranges sent_offset v s k in
    (
      w,
      unfold start in same,
      λ x. covered x ∙ ap (λ t. t || in_ranges ranges x) (covers-start contiguous max_ranges x),
      s2,
    )
