-- ===== src/Recovery/Budget.antt =====
-- `RecoveryMemoryBudget` and `RecoveryCharge` of src/recovery.rs. The counter is atomic: a call of
-- `try_reserve` takes effect when its exchange succeeds and a call of `release` at its subtraction,
-- so concurrent calls are a sequence of these operations. A turn of the loop of `try_reserve` that
-- fails changes nothing. A charge is its byte count.
pub mod Ledger
mod Tests
use quicp.Prelude.{
  ℕ, ◌+◌, ◌-◌, ◌%◌, ◌^◌, Bool, true, false, Option, none, some, Result, ok, err, ltb, leb,
  if◌then◌else◌,
}
use quicp.Recovery.{RecoveryError, capacity}

pub record MemoryBudget : Type 0 where
  pub used : ℕ
  pub limit : ℕ

-- `RecoveryMemoryBudget::new`
abbrev pub new : ℕ → MemoryBudget
new limit = record { used = 0; limit = limit }

-- The budget if the bytes are reserved, and `none` for `false`.
unfoldable pub try_reserve : MemoryBudget → ℕ → Option MemoryBudget
try_reserve b bytes =
    if leb (b.used + bytes) b.limit
    then some (record { used = b.used + bytes; limit = b.limit })
    else none

-- The subtraction wraps.
unfoldable pub release : MemoryBudget → ℕ → MemoryBudget
release b bytes = record { used = (b.used + 2 ^ 64 - bytes) % 2 ^ 64; limit = b.limit }

abbrev with_charge : ℕ → Option MemoryBudget → Result (ℕ × MemoryBudget) RecoveryError
with_charge bytes none = err capacity
with_charge bytes (some b) = ok (bytes, b)

-- `RecoveryCharge::reserve`
unfoldable pub reserve : MemoryBudget → ℕ → Result (ℕ × MemoryBudget) RecoveryError
reserve b bytes = with_charge bytes (try_reserve b bytes)

unfoldable pub grow : MemoryBudget → (charge bytes : ℕ) → Result (ℕ × MemoryBudget) RecoveryError
grow b charge bytes =
    if leb bytes charge then ok (charge, b) else with_charge bytes (try_reserve b (bytes - charge))

-- `none` where the assertion fails.
unfoldable pub shrink : MemoryBudget → (charge bytes : ℕ) → Option (ℕ × MemoryBudget)
shrink b charge bytes = if leb bytes charge then some (bytes, release b (charge - bytes)) else none

-- What is left of the charge, and the new one.
unfoldable pub split : (charge bytes : ℕ) → Result (ℕ × ℕ) RecoveryError
split charge bytes = if ltb charge bytes then err capacity else ok (charge - bytes, bytes)

unfoldable pub transfer : (charge bytes : ℕ) → Result ℕ RecoveryError
transfer charge bytes = if ltb charge bytes then err capacity else ok (charge - bytes)

-- `RecoveryCharge::drop`
unfoldable pub drop_charge : MemoryBudget → ℕ → MemoryBudget
drop_charge b charge = release b charge
