-- ===== src/Fec/Encoder.antt =====
-- `repair_symbol` of src/fec.rs: the coded symbol over a span of sources.
use Prim.Native.Nat.{bit_xor}
use quicp.Prelude.{
  ℕ, ◌+◌, ◌%◌, ◌^◌, max, ◌||◌, List, [], ◌∷◌, Result, ok, err, ltb, ◌==◌, if◌then◌else◌, length,
  replicate,
}
use quicp.Fec.{FecError, invalid_span, invalid_symbol_size}
use quicp.Fec.Field.{multiply, coefficient}

abbrev pub max_repair_span : ℕ
max_repair_span = 256

-- The target and the source are zipped.
unfoldable pub add_scaled : (target source : List ℕ) (factor : ℕ) → List ℕ
add_scaled [] source factor = []
add_scaled (t ∷ ts) [] factor = t ∷ ts
add_scaled (t ∷ ts) (s ∷ ss) factor = bit_xor t (multiply s factor) ∷ add_scaled ts ss factor

-- `first_symbol_id.wrapping_add(ordinal)`
abbrev pub symbol_at : (first_symbol_id ordinal : ℕ) → ℕ
symbol_at first_symbol_id ordinal = (first_symbol_id + ordinal) % 2 ^ 32

unfoldable pub repair_loop :
    (first_symbol_id repair_id seed ordinal : ℕ) → List (List ℕ) → (output : List ℕ) → List ℕ
unfolding add_scaled
repair_loop first repair_id seed ordinal [] output = output
repair_loop first repair_id seed ordinal (source ∷ sources) output =
    repair_loop first repair_id seed (ordinal + 1) sources
      (add_scaled output source (coefficient seed repair_id (symbol_at first ordinal)))

abbrev pub largest : List (List ℕ) → ℕ
largest [] = 0
largest (source ∷ sources) = max (length source) (largest sources)

unfoldable pub repair_symbol :
    (first_symbol_id repair_id seed : ℕ) → List (List ℕ) → Result (List ℕ) FecError
unfolding repair_loop
repair_symbol first repair_id seed sources =
    let symbol_size : ℕ = largest sources in
    if length sources == 0 || ltb max_repair_span (length sources)
    then err invalid_span
    else (if symbol_size == 0 || ltb 65535 symbol_size
        then err invalid_symbol_size
        else ok (repair_loop first repair_id seed 0 sources (replicate symbol_size 0)))
