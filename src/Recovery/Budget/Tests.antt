-- ===== src/Recovery/Budget/Tests.antt =====
-- A memory budget (src/recovery.rs) at work, and an instance of the theorem.
use quicp.Prelude.{◌≡◌, refl, [], ◌∷◌, ok, err, arith}
use quicp.Recovery.{capacity}
use quicp.Recovery.Budget.{MemoryBudget, new, try_reserve, reserve, split, transfer}
use quicp.Recovery.Budget.Ledger.{
  ledger, reserving, splitting, transferring, Reachable, fresh, next, IsBalanced,
  reachable-IsBalanced,
}

abbrev filled : MemoryBudget
filled = record { used = 10; limit = 16 }

reserves : (reserve (new 16) 10 ≡ ok (10, filled)) × (reserve filled 7 ≡ err capacity)
unfolding reserve try_reserve
reserves = (refl, refl)

splits : (split 10 4 ≡ ok (6, 4)) × (split 10 11 ≡ err capacity) × (transfer 4 4 ≡ ok 0)
unfolding split transfer
splits = (refl, refl, refl)

held : Reachable 16 (ledger filled (6 ∷ 0 ∷ []) 4)
held =
    next (next (next fresh (reserving 10 reserves.0)) (splitting 10 6 4 [] [] 4 splits.0))
      (transferring 4 0 (6 ∷ []) [] 4 splits.2)

reachable-IsBalanced_example : IsBalanced 16 (ledger filled (6 ∷ 0 ∷ []) 4)
reachable-IsBalanced_example = reachable-IsBalanced (omega arith) held
