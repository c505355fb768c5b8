-- ===== src/Fec/Reduce.antt =====
-- `reduce` of src/fec.rs: Gauss-Jordan elimination of a decoder's rows, and the symbols that it
-- determines. The rows before the pivot and the rows from it on are two lists.
use quicp.Prelude.{
  same_bytes, ℕ, zero, suc, ◌+◌, Bool, true, false, not, ◌&&◌, ◌||◌, Option, none, some, List, [],
  ◌∷◌, ◌++◌, map, Result, ok, err, ◌>>=◌, ◌>>◌, fail_if, ltb, leb, ◌==◌, if◌then◌else◌, length,
  get_elem?, set,
}
use quicp.Fec.{FecError, contradictory_repair}
use quicp.Fec.Field.{multiply, inverse}
use quicp.Fec.Rows.{Row, scale_row, subtract_row, find_coefficient}

-- `min_by_key` over the rows that have a coefficient: of equal ids the first row stays.
unfoldable pub better : Option (ℕ × ℕ) → (index : ℕ) → List (ℕ × ℕ) → Option (ℕ × ℕ)
better best index [] = best
better none index ((id, c) ∷ cs) = some (id, index)
better (some (least, at_index)) index ((id, c) ∷ cs) =
    if ltb id least then some (id, index) else some (least, at_index)

unfoldable pub candidate : Option (ℕ × ℕ) → (index : ℕ) → List Row → Option (ℕ × ℕ)
candidate best index [] = best
candidate best index (row ∷ rows) = candidate (better best index row.coefficients) (index + 1) rows

-- `rows.swap(pivot, candidate)`, in the rows from the pivot on.
unfoldable pub swap_first : List Row → ℕ → List Row
swap_first [] k = []
swap_first (row ∷ rows) zero = row ∷ rows
swap_first (row ∷ rows) (suc k) = elim (get_elem? rows k) [
  | none ↦ row ∷ rows
  | some c ↦ c ∷ set rows k row
]

-- One turn of the loop over the other rows.
unfoldable pub cancel :
    (pivot_id : ℕ) (source : Row) → Row → Option ℕ → (work budget : ℕ) → Result (Row × ℕ) FecError
cancel pivot_id source row none work budget = ok (row, work)
cancel pivot_id source row (some factor) work budget = subtract_row row source factor work budget

unfoldable pub eliminate :
    (pivot_id : ℕ) (source : Row) → List Row → (work budget : ℕ) → Result (List Row × ℕ) FecError
unfolding cancel
eliminate pivot_id source [] work budget = ok ([], work)
eliminate pivot_id source (row ∷ rows) work budget = do
  (row', work1) ←
      cancel pivot_id source row (find_coefficient row.coefficients pivot_id) work budget
  (rows', work2) ← eliminate pivot_id source rows work1 budget
  ok (row' ∷ rows', work2)

-- The body of the loop for the row that was swapped to the pivot's place, by its coefficients: the
-- rows before, the scaled pivot row, the rows after and the work. A row without coefficients is not
-- a candidate.
unfoldable pub pivot_row :
    List (ℕ × ℕ)
    → Row
    → (finished rows : List Row) (work budget : ℕ) → Result (List Row × List Row × ℕ) FecError
unfolding eliminate
pivot_row [] row finished rows work budget = ok (finished ++ row ∷ [], rows, work)
pivot_row ((pivot_id, c) ∷ _) row finished rows work budget = do
  (source, work1) ← scale_row row (inverse c) work budget
  (finished', work2) ← eliminate pivot_id source finished work1 budget
  (rows', work3) ← eliminate pivot_id source rows work2 budget
  ok (finished' ++ source ∷ [], rows', work3)

unfoldable pub pivot_turn :
    (finished : List Row) → List Row → (work budget : ℕ) → Result (List Row × List Row × ℕ) FecError
unfolding pivot_row
pivot_turn finished [] work budget = ok (finished, [], work)
pivot_turn finished (row ∷ rows) work budget =
    pivot_row row.coefficients row finished rows work budget

-- `while pivot < rows.len()`: each turn moves one row to the finished ones, so the count of the rows
-- that are left is enough.
unfoldable pub reduce_loop :
    (left : ℕ) (finished rows : List Row) (work budget : ℕ) → Result (List Row) FecError
unfolding pivot_turn candidate better swap_first
reduce_loop zero finished rows work budget = ok (finished ++ rows)
reduce_loop (suc n) finished rows work budget = elim (candidate none 0 rows) [
  | none ↦ ok (finished ++ rows)
  | some (_, index) ↦ do
    (finished', rows', work') ← pivot_turn finished (swap_first rows index) work budget
    reduce_loop n finished' rows' work' budget
]

abbrev pub any_nonzero : List ℕ → Bool
any_nonzero [] = false
any_nonzero (b ∷ bs) = not (b == 0) || any_nonzero bs

unfoldable pub solved_bytes : (coefficient : ℕ) → List ℕ → List ℕ
solved_bytes c bytes = if c == 1 then bytes else map (λ b. multiply b (inverse c)) bytes

-- What one row tells: nothing, a symbol, or that the equations contradict one another.
unfoldable pub row_result : List (ℕ × ℕ) → List ℕ → Result (List (ℕ × List ℕ)) FecError
row_result [] bytes = if any_nonzero bytes then err contradictory_repair else ok []
row_result ((id, c) ∷ []) bytes = ok ((id, solved_bytes c bytes) ∷ [])
row_result (_ ∷ _ ∷ _) bytes = ok []

unfoldable pub collect : List Row → Result (List (ℕ × List ℕ)) FecError
unfolding row_result solved_bytes
collect [] = ok []
collect (row ∷ rows) = do
  first ← row_result row.coefficients row.bytes
  rest ← collect rows
  ok (first ++ rest)

-- `sort_unstable_by_key(|(id, _)| *id)`
unfoldable pub insert_sorted : {A : Type 0} → (ℕ × A) → List (ℕ × A) → List (ℕ × A)
insert_sorted e [] = e ∷ []
insert_sorted (id, a) ((j, b) ∷ r) =
    let rest = insert_sorted (id, a) r in if leb id j then (id, a) ∷ (j, b) ∷ r else (j, b) ∷ rest

unfoldable pub sort_by_id : {A : Type 0} → List (ℕ × A) → List (ℕ × A)
unfolding insert_sorted
sort_by_id [] = []
sort_by_id (e ∷ r) = insert_sorted e (sort_by_id r)

-- The loop over `recovered.windows(2)`.
unfoldable pub conflicting : List (ℕ × List ℕ) → Bool
conflicting [] = false
conflicting (e ∷ []) = false
conflicting ((i, a) ∷ (j, b) ∷ r) = ((i == j) && not (same_bytes a b)) || conflicting ((j, b) ∷ r)

-- `dedup_by_key`: of neighbours with one id the first stays.
unfoldable pub dedup_after : (id : ℕ) → List (ℕ × List ℕ) → List (ℕ × List ℕ)
dedup_after id [] = []
dedup_after id ((j, b) ∷ r) = elim (j == id) [
  | true ↦ dedup_after id r
  | false ↦ (j, b) ∷ dedup_after j r
]

unfoldable pub dedup : List (ℕ × List ℕ) → List (ℕ × List ℕ)
unfolding dedup_after
dedup [] = []
dedup ((j, b) ∷ r) = (j, b) ∷ dedup_after j r

-- The reduced rows, which the caller keeps, and the symbols that they determine. The code copies a pivot
-- row and the bytes of a symbol into vectors of the capacity `max_symbol_bytes` each; with capacities
-- exact, the copies succeed and hold the same, so the argument is left out.
unfoldable pub reduce : List Row → (budget : ℕ) → Result (List Row × List (ℕ × List ℕ)) FecError
unfolding reduce_loop collect sort_by_id conflicting dedup
reduce rows budget = do
  reduced ← reduce_loop (length rows) [] rows 0 budget
  found ← collect reduced
  let sorted = sort_by_id found
  fail_if (conflicting sorted) contradictory_repair
  ok (reduced, dedup sorted)
