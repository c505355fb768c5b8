-- ===== src/Recovery/Budget/Ledger.antt =====
-- The charges that are held against a memory budget of src/recovery.rs, through any operations.
use quicp.Prelude.{
  ℕ, ◌+◌, ◌-◌, ◌^◌, ◌<◌, ◌≤◌, ◌≡◌, refl, sym, ◌∙◌, List, [], ◌∷◌, ◌++◌, some, ok, arith,
}
use mathlib.Core.Path.{subst}
use quicp.Recovery.Budget.{
  MemoryBudget, new, try_reserve, release, reserve, grow, shrink, split, transfer, drop_charge,
}

-- A budget, the charges on it, and the bytes that were transferred out of charges and that their
-- holders still have to release.
pub record Ledger : Type 0 where
  pub budget : MemoryBudget
  pub charges : List ℕ
  pub transferred : ℕ

abbrev pub sum : List ℕ → ℕ
sum [] = 0
sum (n ∷ ns) = n + sum ns

abbrev pub ledger : MemoryBudget → List ℕ → ℕ → Ledger
ledger b charges transferred = record { budget = b; charges = charges; transferred = transferred }

-- An operation on one of the charges, `front` and `back` being the others.
pub data Step : Ledger → Ledger → Type 0 where
  reserving :
      {b b' : MemoryBudget} {charges : List ℕ} {t charge : ℕ} (bytes : ℕ)
      → reserve b bytes ≡ ok (charge, b')
      → Step (ledger b charges t) (ledger b' (charge ∷ charges) t)
  growing :
      {b b' : MemoryBudget} {t : ℕ} (charge grown : ℕ) (front back : List ℕ) (bytes : ℕ)
      → grow b charge bytes ≡ ok (grown, b')
      → Step (ledger b (front ++ (charge ∷ back)) t) (ledger b' (front ++ (grown ∷ back)) t)
  shrinking :
      {b b' : MemoryBudget} {t : ℕ} (charge left : ℕ) (front back : List ℕ) (bytes : ℕ)
      → shrink b charge bytes ≡ some (left, b')
      → Step (ledger b (front ++ (charge ∷ back)) t) (ledger b' (front ++ (left ∷ back)) t)
  splitting :
      {b : MemoryBudget} {t : ℕ} (charge left part : ℕ) (front back : List ℕ) (bytes : ℕ)
      → split charge bytes ≡ ok (left, part)
      → Step (ledger b (front ++ (charge ∷ back)) t) (ledger b (front ++ (left ∷ part ∷ back)) t)
  transferring :
      {b : MemoryBudget} {t : ℕ} (charge left : ℕ) (front back : List ℕ) (bytes : ℕ)
      → transfer charge bytes ≡ ok left
      → Step (ledger b (front ++ (charge ∷ back)) t) (ledger b (front ++ (left ∷ back)) (t + bytes))
  dropping :
      {b : MemoryBudget} {t : ℕ} (charge : ℕ) (front back : List ℕ)
      → Step
          (ledger b (front ++ (charge ∷ back)) t)
          (ledger (drop_charge b charge) (front ++ back) t)
  releasing :
      {b : MemoryBudget} {charges : List ℕ} (t bytes : ℕ)
      → bytes ≤ t
      → Step (ledger b charges t) (ledger (release b bytes) charges (t - bytes))

pub data Reachable (limit : ℕ) : Ledger → Type 0 where
  fresh : Reachable limit (ledger (new limit) [] 0)
  next : {l l' : Ledger} → Reachable limit l → Step l l' → Reachable limit l'

sum-append : (xs ys : List ℕ) → sum (xs ++ ys) ≡ sum xs + sum ys
sum-append [] ys = omega arith
sum-append (x ∷ xs) ys = omega (arith, sum-append xs ys)

pub record IsBalanced (limit : ℕ) (l : Ledger) : Type 0 where
  pub same_limit : l.budget.limit ≡ limit
  pub balanced : l.budget.used ≡ sum l.charges + l.transferred
  pub bounded : l.budget.used ≤ limit

-- What is released is there, so nothing wraps.
release_lem :
    (b : MemoryBudget) (bytes : ℕ)
    → b.used < 2 ^ 64
    → bytes ≤ b.used
    → (release b bytes).used ≡ b.used - bytes
unfolding release
release_lem b bytes h k = omega (arith, h, k)

release_limit : (b : MemoryBudget) (bytes : ℕ) → (release b bytes).limit ≡ b.limit
unfolding release
release_limit b bytes = refl

reserve-eq_ok :
    (b b' : MemoryBudget) (bytes charge : ℕ)
    → reserve b bytes ≡ ok (charge, b')
    → (charge ≡ bytes) × (b'.used ≡ b.used + bytes) × (b'.limit ≡ b.limit) × (b'.used ≤ b.limit)
unfolding reserve try_reserve
reserve-eq_ok b b' bytes charge h = ground arith

grow-eq_ok :
    (b b' : MemoryBudget) (charge bytes grown : ℕ)
    → grow b charge bytes ≡ ok (grown, b')
    → (b.used + grown ≡ b'.used + charge)
      × (b'.limit ≡ b.limit)
      × (b.used ≤ b.limit → b'.used ≤ b.limit)
unfolding grow try_reserve
grow-eq_ok b b' charge bytes grown h = ground arith

shrink-eq_some :
    (b b' : MemoryBudget) (charge bytes left : ℕ)
    → shrink b charge bytes ≡ some (left, b')
    → (left ≤ charge) × (b' ≡ release b (charge - left))
unfolding shrink
shrink-eq_some b b' charge bytes left h = ground arith

split-eq_ok :
    (charge bytes left part : ℕ) → split charge bytes ≡ ok (left, part) → left + part ≡ charge
unfolding split
split-eq_ok charge bytes left part h = ground arith

transfer-eq_ok : (charge bytes left : ℕ) → transfer charge bytes ≡ ok left → left + bytes ≡ charge
unfolding transfer
transfer-eq_ok charge bytes left h = ground arith

released-IsBalanced :
    (limit : ℕ) (b : MemoryBudget) (charges : List ℕ) (t bytes : ℕ)
    → limit < 2 ^ 32
    → b.limit ≡ limit
    → b.used ≡ bytes + (sum charges + t)
    → b.used ≤ limit
    → IsBalanced limit (ledger (release b bytes) charges t)
released-IsBalanced limit b charges t bytes l same total bound =
    let r = release_lem b bytes (omega (arith, l, bound)) (omega (arith, total)) in
    record {
      same_limit = release_limit b bytes ∙ same;
      balanced = omega (arith, r, total);
      bounded = omega (arith, r, bound);
    }

Step-IsBalanced :
    (limit : ℕ) {l l' : Ledger}
    → limit < 2 ^ 32
    → IsBalanced limit l
    → Step l l'
    → IsBalanced limit l'
Step-IsBalanced limit n v (reserving {b} {b'} {charges} {t} {charge} bytes h) =
    let r = reserve-eq_ok b b' bytes charge h in
    record {
      same_limit = r.2 ∙ v.same_limit;
      balanced = omega (arith, r, v.balanced);
      bounded = omega (arith, r, v.same_limit);
    }
Step-IsBalanced limit n v (growing {b} {b'} {t} charge grown front back bytes h) =
    let r = grow-eq_ok b b' charge bytes grown h in
    let before = sum-append front (charge ∷ back) in
    let after = sum-append front (grown ∷ back) in
    record {
      same_limit = r.1 ∙ v.same_limit;
      balanced = omega (arith, r.0, v.balanced, before, after);
      bounded = omega (arith, r.2 (omega (arith, v.bounded, v.same_limit)), v.same_limit);
    }
Step-IsBalanced limit n v (shrinking {b} {b'} {t} charge left front back bytes h) =
    let r = shrink-eq_some b b' charge bytes left h in
    let before = sum-append front (charge ∷ back) in
    let after = sum-append front (left ∷ back) in
    subst (λ b'. IsBalanced limit (ledger b' (front ++ (left ∷ back)) t)) (sym r.1)
      (released-IsBalanced limit b (front ++ (left ∷ back)) t (charge - left) n v.same_limit
        (omega (arith, r.0, v.balanced, before, after)) v.bounded)
Step-IsBalanced limit n v (splitting {b} {t} charge left part front back bytes h) =
    let r = split-eq_ok charge bytes left part h in
    let before = sum-append front (charge ∷ back) in
    let after = sum-append front (left ∷ part ∷ back) in
    record {
      same_limit = v.same_limit;
      balanced = omega (arith, r, v.balanced, before, after);
      bounded = v.bounded;
    }
Step-IsBalanced limit n v (transferring {b} {t} charge left front back bytes h) =
    let r = transfer-eq_ok charge bytes left h in
    let before = sum-append front (charge ∷ back) in
    let after = sum-append front (left ∷ back) in
    record {
      same_limit = v.same_limit;
      balanced = omega (arith, r, v.balanced, before, after);
      bounded = v.bounded;
    }
Step-IsBalanced limit n v (dropping {b} {t} charge front back) =
    let before = sum-append front (charge ∷ back) in
    let after = sum-append front back in
    unfold drop_charge in
    released-IsBalanced limit b (front ++ back) t charge n v.same_limit
      (omega (arith, v.balanced, before, after)) v.bounded
Step-IsBalanced limit n v (releasing {b} {charges} t bytes h) =
    released-IsBalanced limit b charges (t - bytes) bytes n v.same_limit
      (omega (arith, v.balanced, h)) v.bounded

-- Whatever is reserved, grown, shrunk, split, transferred, dropped and released, in any order, on a
-- budget whose limit fits 32 bits: the counter is the sum of the charges and of the transferred
-- bytes that are not yet released, and it stays within the limit.
pub reachable-IsBalanced :
    {limit : ℕ} {l : Ledger} → limit < 2 ^ 32 → Reachable limit l → IsBalanced limit l
reachable-IsBalanced n fresh = record { same_limit = refl; balanced = refl; bounded = omega arith }
reachable-IsBalanced {limit} n (next s step) =
    Step-IsBalanced limit n (reachable-IsBalanced n s) step
