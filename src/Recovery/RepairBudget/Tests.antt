-- ===== src/Recovery/RepairBudget/Tests.antt =====
-- The repair budget (src/recovery.rs) at work, and an instance of the theorem.
use quicp.Prelude.{◌≡◌, refl, true, false}
use quicp.Recovery.RepairBudget.{uncapped, repair_budget}

budgets :
    (repair_budget 0 10 false true 5 8 64 ≡ 0)
    × (repair_budget 1 10 true false 1 8 64 ≡ 1)
    × (repair_budget 3 10 false true 4 8 64 ≡ 7)
    × (repair_budget 3 10 false true 4 8 2 ≡ 2)
unfolding repair_budget uncapped
budgets = (refl, refl, refl, refl)
