-- ===== src/Fec/Field/Tests.antt =====
-- The arithmetic of GF(256) at fixed bytes.
use quicp.Prelude.{◌≡◌, ◌≢◌, refl, arith}
use quicp.Fec.Field.{multiply, inverse, coefficient}

products : (multiply 2 0x80 ≡ 0x1d) × (multiply 7 3 ≡ 9) × (multiply 0x57 (inverse 0x57) ≡ 1)
unfolding multiply inverse
products = (refl, refl, refl)

coefficients : (coefficient 0 0 0 ≡ 1) × (coefficient 1 0 0 ≢ coefficient 2 0 0)
unfolding coefficient
coefficients = (refl, omega arith)
