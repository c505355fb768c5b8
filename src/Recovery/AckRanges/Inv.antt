-- ===== src/Recovery/AckRanges/Inv.antt =====
-- The acknowledged ranges of src/recovery.rs stay in order, apart, and within their number.
use quicp.Prelude.{
  ℕ, suc, ◌<◌, ◌≤◌, ◌≡◌, refl, sym, ◌∙◌, min, max, true, false, List, [], ◌∷◌, length, Result, ok,
  ltb, leb, if◌then◌else◌, arith, ◌⊎◌, inl, inr, and_then-eq_ok, ok-injective, dec_lt, fail_if,
}
use mathlib.Core.Path.{subst}
use quicp.Wire.{max_wire_offset}
use quicp.Recovery.{RecoveryError, Range, invalid_range}
use quicp.Recovery.AckRanges.{
  AckRanges, range, any_touches, validate_insert, merge, place, settle, inserted, insert,
  insert_all,
}

pub place_beyond :
    (m r : Range) (rs : List Range) → r.end < m.start → place m (r ∷ rs) ≡ r ∷ place m rs
unfolding place
place_beyond m r rs h = ground arith

pub place_here :
    (m r : Range) (rs : List Range) → m.start ≤ r.end → place m (r ∷ rs) ≡ merge m (r ∷ rs)
unfolding place
place_here m r rs h = ground arith

-- None is empty, none starts before `low` or before what follows the end of the range in front of
-- it, so none touch.
abbrev pub Apart : ℕ → List Range → Type 0
Apart low [] = Unit
Apart low (r ∷ rs) =
    (low ≤ r.start) × (r.start < r.end) × (r.end ≤ max_wire_offset) × Apart (suc r.end) rs

pub record Inv (a : AckRanges) : Type 0 where
  pub fits : a.contiguous ≤ max_wire_offset
  pub apart : Apart (suc a.contiguous) a.ranges
  pub bounded : length a.ranges ≤ a.max_ranges

pub weaken : (low low' : ℕ) (rs : List Range) → low' ≤ low → Apart low rs → Apart low' rs
weaken low low' [] h v = tt
weaken low low' (r ∷ rs) h v = (omega (arith, h, v), v.1, v.2, v.3)

merge-Apart :
    (low : ℕ) (m : Range) (rs : List Range)
    → low ≤ m.start
    → m.start < m.end
    → m.end ≤ max_wire_offset
    → Apart low rs
    → Apart low (merge m rs)
unfolding merge
merge-Apart low m [] h k l v = (h, k, l, tt)
merge-Apart low m (r ∷ rs) h k l v =
    let ih =
      merge-Apart low (range (min m.start r.start) (max m.end r.end)) rs (omega (arith, h, v))
        (omega (arith, k, v)) (omega (arith, l, v))
        (weaken (suc r.end) low rs (omega (arith, v)) v.3) in
    ground (arith, ih)

place-Apart :
    (low : ℕ) (m : Range) (rs : List Range)
    → low ≤ m.start
    → m.start < m.end
    → m.end ≤ max_wire_offset
    → Apart low rs
    → Apart low (place m rs)
place-Apart low m [] h k l v = unfold place in (h, k, l, tt)
place-Apart low m (r ∷ rs) h k l v = elim (dec_lt r.end m.start) [
  | yes e ↦
      subst (Apart low) (sym (place_beyond m r rs e))
        (v.0, v.1, v.2, place-Apart (suc r.end) m rs e k l v.3)
  | no n ↦
      subst (Apart low) (sym (place_here m r rs (omega (arith, n))))
        (merge-Apart low m (r ∷ rs) h k l v)
]

settle-Apart :
    (c : ℕ) (rs : List Range)
    → c ≤ max_wire_offset
    → Apart c rs
    → ((settle c rs).0 ≤ max_wire_offset) × Apart (suc (settle c rs).0) (settle c rs).1
unfolding settle
settle-Apart c [] h v = (h, tt)
settle-Apart c (r ∷ rs) h v =
    let ih =
      settle-Apart (max c r.end) rs (omega (arith, h, v))
        (weaken (suc r.end) (max c r.end) rs (omega (arith, v)) v.3) in
    ground (arith, ih)

length-merge : (m : Range) (rs : List Range) → length (merge m rs) ≤ suc (length rs)
unfolding merge
length-merge m [] = omega arith
length-merge m (r ∷ rs) =
    ground (arith, length-merge (range (min m.start r.start) (max m.end r.end)) rs)

pub length-place : (m : Range) (rs : List Range) → length (place m rs) ≤ suc (length rs)
length-place m [] = unfold place in omega arith
length-place m (r ∷ rs) = elim (dec_lt r.end m.start) [
  | yes e ↦ rw (place_beyond m r rs e) (omega (arith, length-place m rs))
  | no n ↦ rw (place_here m r rs (omega (arith, n))) (length-merge m (r ∷ rs))
]

-- A range that is merged with another takes no place of its own.
merge_taken :
    (m r : Range) (rs : List Range) → r.start ≤ m.end → length (merge m (r ∷ rs)) ≤ length (r ∷ rs)
unfolding merge
merge_taken m r rs h =
    ground (arith, length-merge (range (min m.start r.start) (max m.end r.end)) rs)

pub not_before :
    (m : Range) (low : ℕ) (rs : List Range)
    → m.end < low
    → Apart low rs
    → any_touches m.start m.end rs ≡ false
unfolding any_touches
not_before m low [] h v = refl
not_before m low (r ∷ rs) h v =
    ground (arith, not_before m (suc r.end) rs (omega (arith, h, v)) v.3)

none_touch : (m : Range) → any_touches m.start m.end [] ≡ true → ⊥
unfolding any_touches
none_touch m t = cc

touches_behind :
    (m r : Range) (rs : List Range)
    → r.end < m.start
    → any_touches m.start m.end (r ∷ rs) ≡ true
    → any_touches m.start m.end rs ≡ true
unfolding any_touches
touches_behind m r rs h t = ground arith

touches_here :
    (low : ℕ) (m r : Range) (rs : List Range)
    → Apart low (r ∷ rs)
    → any_touches m.start m.end (r ∷ rs) ≡ true
    → r.start ≤ m.end
unfolding any_touches
touches_here low m r rs v t = elim (dec_lt m.end r.start) [
  | yes e ↦
      let later = not_before m (suc r.end) rs (omega (arith, e, v)) v.3 in
      ground (arith, e, later, t)
  | no n ↦ omega (arith, n)
]

pub length-place_touching :
    (low : ℕ) (m : Range) (rs : List Range)
    → m.start < m.end
    → Apart low rs
    → any_touches m.start m.end rs ≡ true
    → length (place m rs) ≤ length rs
length-place_touching low m [] k v t = absurd (none_touch m t)
length-place_touching low m (r ∷ rs) k v t = elim (dec_lt r.end m.start) [
  | yes e ↦
      rw (place_beyond m r rs e)
        (omega (arith, length-place_touching (suc r.end) m rs k v.3 (touches_behind m r rs e t)))
  | no n ↦
      rw (place_here m r rs (omega (arith, n))) (merge_taken m r rs (touches_here low m r rs v t))
]

length-settle : (c : ℕ) (rs : List Range) → length (settle c rs).1 ≤ length rs
unfolding settle
length-settle c [] = omega arith
length-settle c (r ∷ rs) = ground (arith, length-settle (max c r.end) rs)

pub validate_insert-eq_ok :
    (a : AckRanges) (r : Range)
    → validate_insert a r ≡ ok tt
    → (r.start < r.end)
      × (r.end ≤ max_wire_offset)
      × ((r.end ≤ a.contiguous)
          ⊎ ((length a.ranges < a.max_ranges)
              ⊎ (any_touches (max r.start a.contiguous) r.end a.ranges ≡ true)))
unfolding validate_insert
validate_insert-eq_ok a r h = ground arith

room :
    (a : AckRanges) (m : Range)
    → Inv a
    → m.start < m.end
    → (length a.ranges < a.max_ranges) ⊎ (any_touches m.start m.end a.ranges ≡ true)
    → length (place m a.ranges) ≤ a.max_ranges
room a m v k (inl e) = omega (arith, e, length-place m a.ranges)
room a m v k (inr e) =
    omega (arith, v.bounded, length-place_touching (suc a.contiguous) m a.ranges k v.apart e)

behind : {P : Type 0} (m n : ℕ) → (m ≤ n) ⊎ P → n < m → P
behind m n (inl e) h = absurd ((omega (arith, e, h)))
behind m n (inr p) h = p

pub inserted-Inv :
    (a : AckRanges) (r : Range)
    → Inv a
    → validate_insert a r ≡ ok tt
    → a.contiguous < r.end
    → Inv (inserted a r)
inserted-Inv a r v g h =
    let (nonempty, fits, free) = validate_insert-eq_ok a r g in
    let m = range (max r.start a.contiguous) r.end in
    let nonempty_m : m.start < m.end = omega (arith, nonempty, h) in
    let placed =
      place-Apart a.contiguous m a.ranges (omega arith) nonempty_m fits
        (weaken (suc a.contiguous) a.contiguous a.ranges (omega arith) v.apart) in
    let settled = settle-Apart a.contiguous (place m a.ranges) v.fits placed in
    let count = room a m v nonempty_m (behind r.end a.contiguous free h) in
    record {
      fits = settled.0;
      apart = settled.1;
      bounded = omega (arith, count, length-settle a.contiguous (place m a.ranges));
    }

otherwise {ℓ} : {A : Type ℓ} (m n : ℕ) (x y : A) → n < m → (if leb m n then x else y) ≡ y
otherwise m n x y h = ground arith

at_most {ℓ} : {A : Type ℓ} (m n : ℕ) (x y : A) → m ≤ n → (if leb m n then x else y) ≡ x
at_most m n x y h = ground arith

outcome :
    (a b : AckRanges) (r : Range)
    → ◌≡◌ {A = Result AckRanges RecoveryError}
        (if leb r.end a.contiguous then ok a else ok (inserted a r))
        (ok b)
    → ((r.end ≤ a.contiguous) × (a ≡ b)) ⊎ ((a.contiguous < r.end) × (inserted a r ≡ b))
outcome a b r h = elim (dec_lt a.contiguous r.end) [
  | yes e ↦
      inr (e, ok-injective (sym (otherwise r.end a.contiguous (ok a) (ok (inserted a r)) e) ∙ h))
  | no n ↦ inl (
    omega (arith, n),
    ok-injective
        (sym (at_most r.end a.contiguous (ok a) (ok (inserted a r)) (omega (arith, n))) ∙ h),
  )
]

-- An insertion that is accepted, and the two outcomes that it has.
pub insert-eq_ok :
    (a b : AckRanges) (r : Range)
    → insert a r ≡ ok b
    → (validate_insert a r ≡ ok tt)
      × (((r.end ≤ a.contiguous) × (a ≡ b)) ⊎ ((a.contiguous < r.end) × (inserted a r ≡ b)))
unfolding insert
insert-eq_ok a b r h =
    let (u, e, k) =
      and_then-eq_ok (validate_insert a r)
        (λ u. if leb r.end a.contiguous then ok a else ok (inserted a r)) h in
    (e, outcome a b r k)

-- Inserting a range into acknowledged ranges that are in order, apart and within their number
-- leaves them so, with the same number allowed.
pub insert-Inv :
    (a b : AckRanges) (r : Range)
    → Inv a
    → insert a r ≡ ok b
    → Inv b × (b.max_ranges ≡ a.max_ranges)
insert-Inv a b r v h =
    let (g, cases) = insert-eq_ok a b r h in
    elim cases [
      | inl (k, e) ↦ subst (λ b. Inv b × (b.max_ranges ≡ a.max_ranges)) e (v, refl)
      | inr (k, e) ↦
          subst (λ b. Inv b × (b.max_ranges ≡ a.max_ranges)) e (inserted-Inv a r v g k, refl)
    ]

pub insert_all-Inv :
    (a b : AckRanges) (ranges : List Range) (sent_offset : ℕ)
    → Inv a
    → insert_all a ranges sent_offset ≡ ok b
    → Inv b × (b.max_ranges ≡ a.max_ranges)
unfolding insert_all
insert_all-Inv a b [] sent_offset v h =
    subst (λ b. Inv b × (b.max_ranges ≡ a.max_ranges)) (ok-injective h) (v, refl)
insert_all-Inv a b (r ∷ ranges) sent_offset v h =
    let (u, e, k) = and_then-eq_ok (fail_if (ltb sent_offset r.end) invalid_range) _ h in
    let (ack, e2, k2) = and_then-eq_ok (insert a r) (λ ack. insert_all ack ranges sent_offset) k in
    let (v2, same) = insert-Inv a ack r v e2 in
    let (v3, same3) = insert_all-Inv ack b ranges sent_offset v2 k2 in (v3, same3 ∙ same)
