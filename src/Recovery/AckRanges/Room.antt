-- ===== src/Recovery/AckRanges/Room.antt =====
-- The touch test of `validate_insert` (src/recovery.rs): what it says of the acknowledged offsets, and of
-- the number of ranges after an insertion.
use quicp.Prelude.{
  ℕ, suc, ◌-◌, ◌<◌, ◌≤◌, ◌≡◌, refl, max, true, false, List, [], ◌∷◌, length, leb, ◌&&◌, arith, ◌⊎◌,
  inl, inr, ◌↔◌, dec_lt, Bool-cases,
}
use quicp.Recovery.{Range}
use quicp.Recovery.AckRanges.{any_touches, merge, place}
use quicp.Recovery.AckRanges.Inv.{Apart, place_beyond, place_here, length-place_touching}
use quicp.Recovery.AckRanges.Covers.{in_range, in_ranges}

-- Every offset in the ranges lies, with a gap, before `start` or behind `end`.
abbrev pub IsClear : ℕ → ℕ → List Range → Type 0
IsClear start end ranges = (x : ℕ) → in_ranges ranges x ≡ true → (suc x < start) ⊎ (end < x)

away-in_range :
    (start end : ℕ) (current : Range) (x : ℕ)
    → (leb start current.end && leb current.start end) ≡ false
    → in_range current x ≡ true
    → (suc x < start) ⊎ (end < x)
away-in_range start end current x away inside = ground (arith, away, inside)

pub untouched-IsClear :
    (start end : ℕ) (ranges : List Range)
    → any_touches start end ranges ≡ false
    → IsClear start end ranges
unfolding any_touches in_ranges
untouched-IsClear start end [] h x inside = ground (arith, inside)
untouched-IsClear start end (current ∷ ranges) h x inside =
    let rest = untouched-IsClear start end ranges (ground (arith, h)) x in
    ground (arith, rest, h, inside)

-- The offset of a range that touches, nearest to `start` from behind.
abbrev nearest : ℕ → Range → ℕ
nearest start current = max current.start (start - 1)

pub IsClear-untouched :
    (low start end : ℕ) (ranges : List Range)
    → start < end
    → Apart low ranges
    → IsClear start end ranges
    → any_touches start end ranges ≡ false
unfolding any_touches in_ranges
IsClear-untouched low start end [] h v clear = refl
IsClear-untouched low start end (current ∷ ranges) h v clear =
    let rest =
      IsClear-untouched (suc current.end) start end ranges h v.3
        (λ x inside. clear x (ground (arith, inside))) in
    let here = clear (nearest start current) in ground (arith, rest, here, h, v.1)

pub merge_before : (m r : Range) (rs : List Range) → m.end < r.start → merge m (r ∷ rs) ≡ m ∷ r ∷ rs
unfolding merge
merge_before m r rs h = ground arith

length-place_alone : (m : Range) → length (place m []) ≡ 1
unfolding place
length-place_alone m = refl

-- A range that touches none takes a place of its own.
pub length-place_untouched :
    (m : Range) (rs : List Range)
    → any_touches m.start m.end rs ≡ false
    → length (place m rs) ≡ suc (length rs)
unfolding any_touches
length-place_untouched m [] h = length-place_alone m
length-place_untouched m (r ∷ rs) h = elim (dec_lt r.end m.start) [
  | yes before ↦
      rw (place_beyond m r rs before)
        (omega (arith, length-place_untouched m rs (ground (arith, h))))
  | no not_before ↦
      let behind : m.end < r.start = ground (arith, h, not_before) in
      rw (place_here m r rs (omega (arith, not_before))) (rw (merge_before m r rs behind) refl)
]

-- The ranges outgrow their number exactly when all places are taken and none touches.
pub outgrown :
    (low limit : ℕ) (m : Range) (rs : List Range)
    → m.start < m.end
    → Apart low rs
    → length rs ≤ limit
    → (limit < length (place m rs)) ↔ ((limit ≤ length rs) × (any_touches m.start m.end rs ≡ false))
outgrown low limit m rs h v bounded = elim (Bool-cases (any_touches m.start m.end rs)) [
  | inl touched ↦
      let kept = length-place_touching low m rs h v touched in
      (
        λ more. absurd (omega (arith, kept, more, bounded)),
        λ c. absurd (ground (arith, touched, c.1)),
      )
  | inr untouched ↦
      let grown = length-place_untouched m rs untouched in
      (λ more. (omega (arith, grown, more), untouched), λ c. omega (arith, grown, c.0))
]
