-- ===== src/Fec/Rows.antt =====
-- The equations of src/fec.rs and the operations on them: `Row`, `spend`, `xor_scaled`, `scale_row`,
-- `subtract_row` and the searches in a row. An operation that fails may leave its row half changed;
-- it works on a copy that is then dropped, so an error has no row.
use Prim.Native.Nat.{bit_xor}
use quicp.Prelude.{
  ℕ, ◌+◌, ◌-◌, ◌^◌, min, Option, none, some, List, [], ◌∷◌, ◌++◌, Result, ok, err, ◌>>=◌, ltb, ◌==◌,
  if◌then◌else◌, length, replicate,
}
use quicp.Fec.{FecError, invalid_symbol_size, work_budget}
use quicp.Fec.Field.{multiply}

-- The coefficients are pairs of a symbol's id and a byte, sorted by id. `Vec::capacity` stands beside
-- each of the two vectors.
pub record Row : Type 0 where
  pub coefficients : List (ℕ × ℕ)
  pub coefficient_capacity : ℕ
  pub bytes : List ℕ
  pub byte_capacity : ℕ

-- The work done so far, one unit more.
unfoldable pub spend : (work budget : ℕ) → Result ℕ FecError
spend work budget =
    let more : ℕ = min (work + 1) (2 ^ 64 - 1) in
    if ltb budget more then err work_budget else ok more

-- `for (target, source) in target.iter_mut().zip(source)`
unfoldable pub xor_scaled_loop :
    (target source : List ℕ) (factor work budget : ℕ) → Result (List ℕ × ℕ) FecError
xor_scaled_loop [] source factor work budget = ok ([], work)
xor_scaled_loop (t ∷ ts) [] factor work budget = ok (t ∷ ts, work)
xor_scaled_loop (t ∷ ts) (s ∷ ss) factor work budget = do
  spent ← spend work budget
  (rest, work') ← xor_scaled_loop ts ss factor spent budget
  ok (bit_xor t (multiply s factor) ∷ rest, work')

unfoldable pub xor_scaled :
    (target source : List ℕ) (factor work budget : ℕ) → Result (List ℕ × ℕ) FecError
xor_scaled target source factor work budget =
    if ltb (length target) (length source)
    then err invalid_symbol_size
    else xor_scaled_loop target source factor work budget

unfoldable pub scale_coefficients :
    List (ℕ × ℕ) → (factor work budget : ℕ) → Result (List (ℕ × ℕ) × ℕ) FecError
scale_coefficients [] factor work budget = ok ([], work)
scale_coefficients ((id, value) ∷ cs) factor work budget = do
  spent ← spend work budget
  (rest, work') ← scale_coefficients cs factor spent budget
  ok ((id, multiply value factor) ∷ rest, work')

unfoldable pub scale_bytes : List ℕ → (factor work budget : ℕ) → Result (List ℕ × ℕ) FecError
scale_bytes [] factor work budget = ok ([], work)
scale_bytes (b ∷ bs) factor work budget = do
  spent ← spend work budget
  (rest, work') ← scale_bytes bs factor spent budget
  ok (multiply b factor ∷ rest, work')

unfoldable pub scale_row : Row → (factor work budget : ℕ) → Result (Row × ℕ) FecError
scale_row row factor work budget = do
  (coefficients, work1) ← scale_coefficients row.coefficients factor work budget
  (bytes, work2) ← scale_bytes row.bytes factor work1 budget
  ok (record row { coefficients = coefficients; bytes = bytes }, work2)

-- The match on the binary search for `id`, which in a sorted vector ends where this scan does.
unfoldable pub add_coefficient : List (ℕ × ℕ) → (id scaled : ℕ) → List (ℕ × ℕ)
add_coefficient [] id scaled = (id, scaled) ∷ []
add_coefficient ((j, c) ∷ cs) id scaled =
    let rest : List (ℕ × ℕ) = add_coefficient cs id scaled in
    if j == id
    then (if bit_xor c scaled == 0 then cs else (j, bit_xor c scaled) ∷ cs)
    else (if ltb id j then (id, scaled) ∷ (j, c) ∷ cs else (j, c) ∷ rest)

-- `for (id, coefficient) in &source.coefficients`
unfoldable pub subtract_coefficients :
    (target source : List (ℕ × ℕ)) (factor work budget : ℕ) → Result (List (ℕ × ℕ) × ℕ) FecError
subtract_coefficients target [] factor work budget = ok (target, work)
subtract_coefficients target ((id, c) ∷ cs) factor work budget = do
  spent ← spend work budget
  subtract_coefficients (add_coefficient target id (multiply c factor)) cs factor spent budget

-- `if target.len() < len { target.resize(len, 0) }`
unfoldable pub resize : List ℕ → ℕ → List ℕ
resize target len = target ++ replicate (len - length target) 0

unfoldable pub subtract_row :
    (target source : Row) (factor work budget : ℕ) → Result (Row × ℕ) FecError
subtract_row target source factor work budget = do
  (coefficients, work1) ←
      subtract_coefficients target.coefficients source.coefficients factor work budget
  (bytes, work2) ←
      xor_scaled_loop (resize target.bytes (length source.bytes)) source.bytes factor work1 budget
  ok (record target { coefficients = coefficients; bytes = bytes }, work2)

-- The coefficient of a symbol.
unfoldable pub find_coefficient : List (ℕ × ℕ) → ℕ → Option ℕ
find_coefficient [] id = none
find_coefficient ((j, c) ∷ cs) id = if j == id then some c else find_coefficient cs id

-- `coefficients.remove(index)`
unfoldable pub remove_coefficient : List (ℕ × ℕ) → ℕ → List (ℕ × ℕ)
remove_coefficient [] id = []
remove_coefficient ((j, c) ∷ cs) id = if j == id then cs else (j, c) ∷ remove_coefficient cs id
