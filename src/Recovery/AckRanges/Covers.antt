-- ===== src/Recovery/AckRanges/Covers.antt =====
-- The offsets that are acknowledged (src/recovery.rs), as a set.
use quicp.Prelude.{
  ℕ, suc, ◌<◌, ◌≤◌, ◌≡◌, refl, min, max, Bool, false, List, [], ◌∷◌, ok, ltb, leb, ◌||◌, ◌&&◌,
  arith, inl, inr, dec_lt,
}
use mathlib.Core.Path.{subst}
use quicp.Recovery.{Range}
use quicp.Recovery.AckRanges.{AckRanges, range, merge, place, settle, inserted, insert}
use quicp.Recovery.AckRanges.Inv.{
  Inv, Apart, weaken, place_beyond, place_here, validate_insert-eq_ok, insert-eq_ok,
}

abbrev pub in_range : Range → ℕ → Bool
in_range r x = leb r.start x && ltb x r.end

unfoldable pub in_ranges : List Range → ℕ → Bool
in_ranges [] x = false
in_ranges (r ∷ rs) x = in_range r x || in_ranges rs x

-- Whether the byte at `x` is acknowledged.
unfoldable pub covers : AckRanges → ℕ → Bool
covers a x = ltb x a.contiguous || in_ranges a.ranges x

-- The first of the ranges does not end before `m`.
abbrev Near : Range → List Range → Type 0
Near m [] = Unit
Near m (r ∷ rs) = m.start ≤ r.end

Near-rest :
    (m r : Range) (rs : List Range) (low : ℕ)
    → low ≤ r.end
    → Apart (suc r.end) rs
    → Near (range low (max m.end r.end)) rs
Near-rest m r [] low h v = tt
Near-rest m r (q ∷ rs) low h v = omega (arith, h, v)

in_ranges-merge :
    (low : ℕ) (m : Range) (rs : List Range) (x : ℕ)
    → m.start < m.end
    → Near m rs
    → Apart low rs
    → in_ranges (merge m rs) x ≡ (in_range m x || in_ranges rs x)
unfolding merge in_ranges
in_ranges-merge low m [] x k n v = refl
in_ranges-merge low m (r ∷ rs) x k n v =
    let ih =
      in_ranges-merge (suc r.end) (range (min m.start r.start) (max m.end r.end)) rs x
        (omega (arith, k, v)) (Near-rest m r rs (min m.start r.start) (omega (arith, v)) v.3) v.3 in
    ground (arith, ih)

in_ranges-place :
    (low : ℕ) (m : Range) (rs : List Range) (x : ℕ)
    → m.start < m.end
    → Apart low rs
    → in_ranges (place m rs) x ≡ (in_range m x || in_ranges rs x)
unfolding in_ranges
in_ranges-place low m [] x k v = unfold place in refl
in_ranges-place low m (r ∷ rs) x k v = elim (dec_lt r.end m.start) [
  | yes e ↦
      let ih = in_ranges-place (suc r.end) m rs x k v.3 in
      rw (place_beyond m r rs e) (ground (arith, ih))
  | no n ↦
      rw (place_here m r rs (omega (arith, n)))
        (in_ranges-merge low m (r ∷ rs) x k (omega (arith, n)) v)
]

in_ranges-settle :
    (c : ℕ) (rs : List Range) (x : ℕ)
    → (ltb x (settle c rs).0 || in_ranges (settle c rs).1 x) ≡ (ltb x c || in_ranges rs x)
unfolding settle in_ranges
in_ranges-settle c [] x = refl
in_ranges-settle c (r ∷ rs) x = let ih = in_ranges-settle (max c r.end) rs x in ground (arith, ih)

already :
    (a : AckRanges) (r : Range) (x : ℕ)
    → r.end ≤ a.contiguous
    → covers a x ≡ (covers a x || in_range r x)
unfolding covers
already a r x h = ground arith

covers-inserted :
    (a : AckRanges) (r : Range) (x : ℕ)
    → Inv a
    → r.start < r.end
    → a.contiguous < r.end
    → covers (inserted a r) x ≡ (covers a x || in_range r x)
unfolding covers
covers-inserted a r x v k h =
    let m = range (max r.start a.contiguous) r.end in
    let placed =
      in_ranges-place a.contiguous m a.ranges x (omega (arith, k, h))
        (weaken (suc a.contiguous) a.contiguous a.ranges (omega arith) v.apart) in
    let settled = in_ranges-settle a.contiguous (place m a.ranges) x in
    ground (arith, placed, settled)

-- A range that is inserted into acknowledged ranges that are in order, apart and within their number
-- acknowledges its own offsets and those that were acknowledged before, and no others.
pub covers-insert :
    (a b : AckRanges) (r : Range) (x : ℕ)
    → Inv a
    → insert a r ≡ ok b
    → covers b x ≡ (covers a x || in_range r x)
covers-insert a b r x v h =
    let (g, cases) = insert-eq_ok a b r h in
    let nonempty = (validate_insert-eq_ok a r g).0 in
    elim cases [
      | inl (k, e) ↦ subst (λ b. covers b x ≡ (covers a x || in_range r x)) e (already a r x k)
      | inr (k, e) ↦
          subst (λ b. covers b x ≡ (covers a x || in_range r x)) e
            (covers-inserted a r x v nonempty k)
    ]
