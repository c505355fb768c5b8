-- ===== src/Recovery/RepairBudget.antt =====
-- `repair_budget` of src/recovery.rs: how many repair symbols go out for the outstanding sources.
mod Tests
use quicp.Prelude.{
  ℕ, ◌+◌, ◌-◌, ◌*◌, ◌/◌, ◌^◌, ◌≡◌, min, max, not, Bool, true, false, ◌==◌, if◌then◌else◌, ◌⊎◌, inl,
  inr,
}

-- What a sum or a product of `u64` saturates at.
abbrev saturated : ℕ → ℕ
saturated n = min n (2 ^ 64 - 1)

-- `u64::from(flag)`
abbrev flag_bit : Bool → ℕ
flag_bit true = 1
flag_bit false = 0

abbrev div_ceil : ℕ → ℕ → ℕ
div_ceil a b = (a + b - 1) / b

-- The budget before the caps. A count of outstanding sources fits `u64`.
unfoldable pub uncapped : (lost sent : ℕ) (delivered replayed : Bool) (burst outstanding : ℕ) → ℕ
uncapped lost sent delivered replayed burst outstanding = saturated (
    saturated (
      saturated (max (div_ceil (saturated (lost * outstanding)) (max sent 1)) 1 + min (burst - 1) 2)
      + flag_bit (not delivered))
    + flag_bit replayed)

unfoldable pub repair_budget :
    (lost sent : ℕ) (delivered replayed : Bool) (burst outstanding max_span : ℕ) → ℕ
repair_budget lost sent delivered replayed burst outstanding max_span =
    if lost == 0
    then 0
    else min (min (uncapped lost sent delivered replayed burst outstanding) outstanding) max_span
