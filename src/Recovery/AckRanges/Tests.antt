-- ===== src/Recovery/AckRanges/Tests.antt =====
-- Acknowledged ranges (src/recovery.rs) at work, and instances of the theorems.
use quicp.Prelude.{ℕ, ◌≡◌, ◌<◌, refl, [], ◌∷◌, ok, err, arith, true, ltb, ◌||◌}
use quicp.Recovery.{invalid_range, range_capacity}
use quicp.Recovery.AckRanges.{
  AckRanges, range, any_touches, validate_insert, merge, place, settle, inserted, insert,
  insert_all, from_wire,
}
use quicp.Recovery.AckRanges.Inv.{Inv, insert-Inv}
use quicp.Recovery.AckRanges.Covers.{covers, in_range, in_ranges, covers-insert}
use quicp.Recovery.AckRanges.Capacity.{full, insert-prefix_refused, from_wire-Inv}

abbrev two : AckRanges
two = record { contiguous = 5; ranges = range 10 20 ∷ range 30 40 ∷ []; max_ranges = 2 }

abbrev joined : AckRanges
joined = record { contiguous = 5; ranges = range 10 40 ∷ []; max_ranges = 2 }

two-Inv : Inv two
two-Inv = record { fits = omega arith; apart = ground arith; bounded = omega arith }

joins : insert two (range 20 30) ≡ ok joined
unfolding insert validate_insert any_touches place merge settle
joins = refl

more :
    (insert two (range 22 28) ≡ err range_capacity)
    × (insert two (range 0 10)
        ≡ ok (record { contiguous = 20; ranges = range 30 40 ∷ []; max_ranges = 2 }))
    × (insert two (range 7 7) ≡ err invalid_range)
    × (insert two (range 1 5) ≡ ok two)
unfolding insert validate_insert any_touches place merge settle
more = (refl, refl, refl, refl)

received : from_wire 5 (range 10 20 ∷ range 30 40 ∷ []) 2 40 ≡ ok two
unfolding from_wire insert_all insert validate_insert any_touches place merge settle
received = refl

insert-Inv_example : Inv joined × (joined.max_ranges ≡ two.max_ranges)
insert-Inv_example = insert-Inv two joined (range 20 30) two-Inv joins

covers-insert_example : covers joined 25 ≡ (covers two 25 || in_range (range 20 30) 25)
covers-insert_example = covers-insert two joined (range 20 30) 25 two-Inv joins

-- A range that touches one of two is taken, though there is no place for one more.
touching :
    (insert two (range 20 28)
      ≡ ok (record { contiguous = 5; ranges = range 10 28 ∷ range 30 40 ∷ []; max_ranges = 2 }))
    × (insert two (range 22 30)
        ≡ ok (record { contiguous = 5; ranges = range 10 20 ∷ range 22 40 ∷ []; max_ranges = 2 }))
    × (insert two (range 21 29) ≡ err range_capacity)
unfolding insert validate_insert any_touches place merge settle
touching = (refl, refl, refl)

full-Inv : Inv (full 5 (range 10 20) [])
full-Inv = record { fits = omega arith; apart = ground arith; bounded = omega arith }

insert-prefix_refused_example :
    (insert (full 5 (range 10 20) []) (range 5 8) ≡ err range_capacity)
    × ((inserted (full 5 (range 10 20) []) (range 5 8)).contiguous ≡ 8)
    × ((inserted (full 5 (range 10 20) []) (range 5 8)).ranges ≡ range 10 20 ∷ [])
    × Inv (inserted (full 5 (range 10 20) []) (range 5 8))
insert-prefix_refused_example =
    insert-prefix_refused 5 (range 10 20) (range 5 8) [] full-Inv (omega arith) (omega arith)
      (omega arith)

from_wire-Inv_example :
    Inv two
    × (two.max_ranges ≡ 2)
    × ((x : ℕ) → covers two x ≡ (ltb x 5 || in_ranges (range 10 20 ∷ range 30 40 ∷ []) x))
    × ((x : ℕ) → covers two x ≡ true → x < 40)
from_wire-Inv_example =
    from_wire-Inv 5 (range 10 20 ∷ range 30 40 ∷ []) 2 40 two (omega arith) received
