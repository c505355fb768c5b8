-- ===== src/Wire/Capabilities/Laws.antt =====
-- The part that two endpoints share (src/wire.rs) does not depend on who asks.
use quicp.Prelude.{ℕ, zero, suc, ◌+◌, ◌*◌, ◌/◌, ◌%◌, ◌^◌, ◌<◌, ◌≤◌, ◌≡◌, refl, true, arith, ◌↔◌}
use native.Mathlib.Nat.{pow-suc}
use quicp.Wire.Capabilities.{Capabilities, bit_and, intersect, supports_adaptive}

bits_comm : (a b : ℕ) → (a % 2) * (b % 2) ≡ (b % 2) * (a % 2)
bits_comm a b = grind arith

bit_and_comm : (n a b : ℕ) → bit_and n a b ≡ bit_and n b a
unfolding bit_and
bit_and_comm zero a b = refl
bit_and_comm (suc n) a b = omega (arith, bits_comm a b, bit_and_comm n (a / 2) (b / 2))

bit_product : (a : ℕ) → (a % 2) * (a % 2) ≡ a % 2
bit_product a = grind arith

bit_and_self : (n a : ℕ) → a < 2 ^ n → bit_and n a a ≡ a
unfolding bit_and
bit_and_self zero a h = omega arith
bit_and_self (suc n) a h =
    omega (arith, bit_product a, bit_and_self n (a / 2) (omega (arith, pow-suc 2 n)))

-- What two endpoints share is the same from either side, an endpoint shares all it has with itself,
-- and no limit of the shared part is above one of an endpoint's own.
pub intersect-Semilattice :
    (a b : Capabilities)
    → (intersect a b ≡ intersect b a)
      × (a.flags < 2 ^ 8 → intersect a a ≡ a)
      × ((intersect a b).max_symbol ≤ a.max_symbol)
      × ((intersect a b).max_span ≤ a.max_span)
      × ((intersect a b).decoder_window ≤ a.decoder_window)
      × ((intersect a b).max_ack_ranges ≤ a.max_ack_ranges)
unfolding intersect
intersect-Semilattice a b = (
  ground (arith, bit_and_comm 8 a.flags b.flags),
  λ h. ground (arith, bit_and_self 8 a.flags h),
  omega arith,
  omega arith,
  omega arith,
  omega arith,
)

bit_and_zero : (n a : ℕ) → bit_and n a 0 ≡ 0
unfolding bit_and
bit_and_zero zero a = refl
bit_and_zero (suc n) a = omega (arith, bit_and_zero n (a / 2))

low_bits : (n a : ℕ) → bit_and (suc (suc n)) a 3 ≡ a % 4
unfolding bit_and
low_bits n a = omega (arith, bit_and_zero n (a / 2 / 2))

low_bits_of_both :
    (n a b : ℕ)
    → bit_and (suc (suc n)) a b % 4 ≡ (a % 2) * (b % 2) + 2 * ((a / 2 % 2) * (b / 2 % 2))
unfolding bit_and
low_bits_of_both n a b = grind arith

bit_pair : (p q : ℕ) → p < 2 → q < 2 → (p * q < 2) × ((p * q ≡ 1) ↔ ((p ≡ 1) × (q ≡ 1)))
bit_pair zero q h k = ground arith
bit_pair (suc zero) q h k = ground arith
bit_pair (suc (suc p)) q h k = absurd ((omega arith))

both_bits :
    (a b : ℕ)
    → ((a % 2) * (b % 2) + 2 * ((a / 2 % 2) * (b / 2 % 2)) ≡ 3) ↔ ((a % 4 ≡ 3) × (b % 4 ≡ 3))
both_bits a b =
    let low = bit_pair (a % 2) (b % 2) (omega arith) (omega arith) in
    let high = bit_pair (a / 2 % 2) (b / 2 % 2) (omega arith) (omega arith) in
    ground (arith, low, high)

-- Two endpoints share adaptive transport exactly if both support it.
pub supports_adaptive-intersect :
    (a b : Capabilities)
    → (supports_adaptive (intersect a b) ≡ true)
      ↔ ((supports_adaptive a ≡ true) × (supports_adaptive b ≡ true))
unfolding intersect supports_adaptive
supports_adaptive-intersect a b =
    rw
      (
        low_bits 6 a.flags,
        low_bits 6 b.flags,
        low_bits 6 (bit_and 8 a.flags b.flags),
        low_bits_of_both 6 a.flags b.flags,
      )
      (ground (arith, both_bits a.flags b.flags))
