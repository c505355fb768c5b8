-- ===== src/Fec/Coding.antt =====
-- The coded symbol of `repair_symbol` of src/fec.rs as an equation over its sources, and the row
-- that `Decoder::add_repair` makes of it.
use Prim.Native.Nat.{bit_xor}
use quicp.Prelude.{
  ℕ, zero, suc, ◌+◌, ◌≤◌, ◌≡◌, refl, sym, ap, ◌∙◌, Option-cases, Bool-cases, inl, inr, some, List,
  [], ◌∷◌, ◌++◌, ok, leb, ◌==◌, ==_iff, if_of_both, length, replicate, length-replicate, Ensures,
  returned, Ensures_then, arith,
}
use mathlib.Core.List.{append_assoc}
use quicp.Fec.Field.{multiply, coefficient}
use quicp.Fec.Field.Laws.{zero-multiply}
use quicp.Fec.Xor.{zero-bit_xor, bit_xor-zero, bit_xor_assoc, bit_xor_comm, bit_xor_cancel}
use quicp.Fec.LowDigits.{bit_xor_of_eq}
use quicp.Fec.Rows.{xor_scaled}
use quicp.Fec.Reduce.{insert_sorted, sort_by_id}
use quicp.Fec.Encoder.{add_scaled, symbol_at, repair_loop, repair_symbol, largest}
use quicp.Fec.Decoder.{KnownSource, find_known}
use quicp.Fec.Operations.{span_turn, span_loop}
use quicp.Fec.Factors.{IsFactor, AreFactors, coefficient-IsFactor}
use quicp.Fec.Solutions.{
  Symbols, byte_at, combination, Solves, Added, xor_scaled-Added, bit_xor_left_comm,
  byte_at-replicate,
}
use quicp.Fec.Soundness.{IsValue}

-- The terms of the equation of a repair: one for each symbol of the span.
abbrev pub span_terms : (first repair_id seed left ordinal : ℕ) → List (ℕ × ℕ)
span_terms first repair_id seed zero ordinal = []
span_terms first repair_id seed (suc left) ordinal =
    (symbol_at first ordinal, coefficient seed repair_id (symbol_at first ordinal))
    ∷ span_terms first repair_id seed left (ordinal + 1)

-- The sources are the symbols from `ordinal` on.
abbrev pub AreSent : Symbols → (first ordinal : ℕ) → List (List ℕ) → Type 0
AreSent s first ordinal [] = Unit {0}
AreSent s first ordinal (source ∷ sources) =
    IsValue s (symbol_at first ordinal) source × AreSent s first (ordinal + 1) sources

length-add_scaled :
    (target source : List ℕ) (factor : ℕ) → length (add_scaled target source factor) ≡ length target
unfolding add_scaled
length-add_scaled [] source factor = refl
length-add_scaled (t ∷ ts) [] factor = refl
length-add_scaled (t ∷ ts) (x ∷ ss) factor = ap suc (length-add_scaled ts ss factor)

byte_at-add_scaled :
    (target source : List ℕ) (factor k : ℕ)
    → length source ≤ length target
    → byte_at (add_scaled target source factor) k
      ≡ bit_xor (byte_at target k) (multiply (byte_at source k) factor)
unfolding add_scaled
byte_at-add_scaled [] [] factor k h = sym (zero-bit_xor (multiply 0 factor) ∙ zero-multiply factor)
byte_at-add_scaled [] (x ∷ ss) factor k h = absurd (omega (arith, h))
byte_at-add_scaled (t ∷ ts) [] factor k h =
    sym
      (ap (bit_xor (byte_at (t ∷ ts) k)) (zero-multiply factor) ∙ bit_xor-zero (byte_at (t ∷ ts) k))
byte_at-add_scaled (t ∷ ts) (x ∷ ss) factor zero h = refl
byte_at-add_scaled (t ∷ ts) (x ∷ ss) factor (suc k) h =
    byte_at-add_scaled ts ss factor k (omega (arith, h))

repair_loop_lem :
    (s : Symbols) (first repair_id seed ordinal : ℕ) (sources : List (List ℕ)) (output : List ℕ)
    (k : ℕ)
    → largest sources ≤ length output
    → AreSent s first ordinal sources
    → byte_at (repair_loop first repair_id seed ordinal sources output) k
      ≡ bit_xor
          (byte_at output k)
          (combination s (span_terms first repair_id seed (length sources) ordinal) k)
unfolding repair_loop
repair_loop_lem s first repair_id seed ordinal [] output k h sent =
    sym (bit_xor-zero (byte_at output k))
repair_loop_lem s first repair_id seed ordinal (source ∷ sources) output k h (p, sent) =
    let id : ℕ = symbol_at first ordinal in
    let c : ℕ = coefficient seed repair_id id in
    let rest : ℕ =
      combination s (span_terms first repair_id seed (length sources) (ordinal + 1)) k in
    repair_loop_lem s first repair_id seed (ordinal + 1) sources (add_scaled output source c) k
      (omega (arith, h, length-add_scaled output source c)) sent
    ∙ ap (λ t. bit_xor t rest)
        (byte_at-add_scaled output source c k (omega (arith, h))
          ∙ ap (λ t. bit_xor (byte_at output k) (multiply t c)) (p k))
    ∙ bit_xor_assoc (byte_at output k) (multiply (s id k) c) rest

-- A coded symbol satisfies the equation with one term for each source of its span: the symbol's id
-- and its pseudorandom coefficient.
pub repair_symbol-Solves :
    (s : Symbols) (first repair_id seed : ℕ) (sources : List (List ℕ)) (coded : List ℕ)
    → AreSent s first 0 sources
    → repair_symbol first repair_id seed sources ≡ ok coded
    → Solves s (span_terms first repair_id seed (length sources) 0) coded
unfolding repair_symbol
repair_symbol-Solves s first repair_id seed sources coded sent h =
    let size : ℕ = largest sources in
    let result : List ℕ = repair_loop first repair_id seed 0 sources (replicate size 0) in
    let same : result ≡ coded = ground (arith, h) in
    record {
      at_byte = λ k. sym (
          ap (λ t. byte_at t k) (sym same)
          ∙ repair_loop_lem s first repair_id seed 0 sources (replicate size 0) k
              (omega (arith, length-replicate {A = ℕ} size 0)) sent
          ∙ ap
              (λ t.
                bit_xor t (combination s (span_terms first repair_id seed (length sources) 0) k))
              (byte_at-replicate size k)
          ∙ zero-bit_xor (combination s (span_terms first repair_id seed (length sources) 0) k));
    }

combination-append :
    (s : Symbols) (xs ys : List (ℕ × ℕ)) (k : ℕ)
    → combination s (xs ++ ys) k ≡ bit_xor (combination s xs k) (combination s ys k)
combination-append s [] ys k = sym (zero-bit_xor (combination s ys k))
combination-append s ((id, c) ∷ xs) ys k =
    ap (bit_xor (multiply (s id k) c)) (combination-append s xs ys k)
    ∙ sym (bit_xor_assoc (multiply (s id k) c) (combination s xs k) (combination s ys k))

AreFactors-append : (xs ys : List (ℕ × ℕ)) → AreFactors xs → AreFactors ys → AreFactors (xs ++ ys)
AreFactors-append [] ys h k = k
AreFactors-append ((id, c) ∷ xs) ys (p, h) k = (p, AreFactors-append xs ys h k)

-- The terms in another order.
insert_sorted-combination :
    (s : Symbols) (id c : ℕ) (r : List (ℕ × ℕ)) (k : ℕ)
    → combination s (insert_sorted (id, c) r) k ≡ combination s ((id, c) ∷ r) k
unfolding insert_sorted
insert_sorted-combination s id c [] k = refl
insert_sorted-combination s id c ((j, d) ∷ r) k =
    if_of_both (λ t. combination s t k ≡ combination s ((id, c) ∷ (j, d) ∷ r) k) (leb id j)
      (λ e. refl)
      (λ e.
        ap (bit_xor (multiply (s j k) d)) (insert_sorted-combination s id c r k)
        ∙ bit_xor_left_comm (multiply (s j k) d) (multiply (s id k) c) (combination s r k))

pub sort_by_id-combination :
    (s : Symbols) (r : List (ℕ × ℕ)) (k : ℕ) → combination s (sort_by_id r) k ≡ combination s r k
unfolding sort_by_id
sort_by_id-combination s [] k = refl
sort_by_id-combination s ((id, c) ∷ r) k =
    insert_sorted-combination s id c (sort_by_id r) k
    ∙ ap (bit_xor (multiply (s id k) c)) (sort_by_id-combination s r k)

insert_sorted-AreFactors :
    (id c : ℕ) (r : List (ℕ × ℕ)) → AreFactors ((id, c) ∷ r) → AreFactors (insert_sorted (id, c) r)
unfolding insert_sorted
insert_sorted-AreFactors id c [] h = h
insert_sorted-AreFactors id c ((j, d) ∷ r) (p, (q, h)) =
    if_of_both AreFactors (leb id j) (λ e. (p, (q, h)))
      (λ e. (q, insert_sorted-AreFactors id c r (p, h)))

pub sort_by_id-AreFactors : (r : List (ℕ × ℕ)) → AreFactors r → AreFactors (sort_by_id r)
unfolding sort_by_id
sort_by_id-AreFactors [] h = tt
sort_by_id-AreFactors ((id, c) ∷ r) (p, h) =
    insert_sorted-AreFactors id c (sort_by_id r) (p, sort_by_id-AreFactors r h)

abbrev pub AreKnown : Symbols → List KnownSource → Type 0
AreKnown s [] = Unit {0}
AreKnown s (source ∷ known) = IsValue s source.symbol_id source.bytes × AreKnown s known

pub find_known-IsValue :
    (s : Symbols) (known : List KnownSource) (id : ℕ) (source : KnownSource)
    → AreKnown s known
    → find_known known id ≡ some source
    → IsValue s id source.bytes
unfolding find_known
find_known-IsValue s [] id source h e = absurd (cc)
find_known-IsValue s (k ∷ known) id source (p, h) e = elim (Bool-cases (k.symbol_id == id)) [
  | inl t ↦
      let same : k ≡ source = ground arith in
      λ n.
        ap (λ (x : KnownSource). byte_at x.bytes n) (sym same)
        ∙ p n
        ∙ ap (λ i. s i n) ((==_iff k.symbol_id id).0 t)
  | inr t ↦ find_known-IsValue s known id source h (ground arith)
]

-- A row in the making: with the terms that are still to come it is an equation of the symbols.
abbrev pub Accounts : Symbols → List (ℕ × ℕ) → List (ℕ × ℕ) × List ℕ × ℕ → Type 0
Accounts s rest r = Solves s (r.0 ++ rest) r.1 × AreFactors r.0

-- A known symbol is taken out of the bytes.
known_out :
    (s : Symbols) (id c : ℕ) (rest coefficients : List (ℕ × ℕ)) (bytes source : List ℕ)
    (r : List ℕ × ℕ)
    → Solves s (coefficients ++ (id, c) ∷ rest) bytes
    → IsValue s id source
    → Added bytes source c r
    → Solves s (coefficients ++ rest) r.0
known_out s id c rest coefficients bytes source r h value p = record {
  at_byte = λ k.
      let front : ℕ = combination s coefficients k in
      let term : ℕ = multiply (s id k) c in
      let back : ℕ = combination s rest k in
      combination-append s coefficients rest k
      ∙ sym (
          p.sum_at k
          ∙ bit_xor_of_eq
              (sym (h.at_byte k)
                ∙ combination-append s coefficients ((id, c) ∷ rest) k
                ∙ bit_xor_left_comm front term back)
              (ap (λ t. multiply t c) (value k))
          ∙ bit_xor_comm (bit_xor term (bit_xor front back)) term
          ∙ bit_xor_cancel term (bit_xor front back));
}

module _ (s : Symbols) (known : List KnownSource) (values : AreKnown s known) where
  span_turn-Accounts :
      (id c : ℕ) (rest coefficients : List (ℕ × ℕ)) (bytes : List ℕ) (work budget : ℕ)
      → IsFactor c
      → AreFactors coefficients
      → Solves s (coefficients ++ (id, c) ∷ rest) bytes
      → Ensures
          (Accounts s rest)
          (span_turn (find_known known id) id c coefficients bytes work budget)
  unfolding span_turn
  span_turn-Accounts id c rest coefficients bytes work budget f fs h =
      elim (Option-cases (find_known known id)) [
        | inl e ↦
            rw (e, span_turn)
              (returned (coefficients ++ (id, c) ∷ [], bytes, work)
                (
                  record {
                    at_byte = λ k.
                        ap (λ t. combination s t k) (append_assoc coefficients ((id, c) ∷ []) rest)
                        ∙ h.at_byte k;
                  },
                  AreFactors-append coefficients ((id, c) ∷ []) fs (f, tt),
                ))
        | inr (source, e) ↦
            rw (e, span_turn)
              (Ensures_then (xor_scaled bytes source.bytes c work budget) _
                (xor_scaled-Added bytes source.bytes c work budget)
                (λ r p.
                  returned (coefficients, r.0, r.1)
                    (
                      known_out s id c rest coefficients bytes source.bytes r h
                          (find_known-IsValue s known id source values e) p,
                      fs,
                    )))
      ]

  pub span_loop-Accounts :
      (first repair_id seed left ordinal : ℕ) (coefficients : List (ℕ × ℕ)) (bytes : List ℕ)
      (work budget : ℕ)
      → AreFactors coefficients
      → Solves s (coefficients ++ span_terms first repair_id seed left ordinal) bytes
      → Ensures
          (Accounts s [])
          (span_loop known first repair_id seed left ordinal coefficients bytes work budget)
  unfolding span_loop
  span_loop-Accounts first repair_id seed zero ordinal coefficients bytes work budget fs h =
      returned _ (h, fs)
  span_loop-Accounts first repair_id seed (suc left) ordinal coefficients bytes work budget fs h =
      let id : ℕ = symbol_at first ordinal in
      let c : ℕ = coefficient seed repair_id id in
      let rest : List (ℕ × ℕ) = span_terms first repair_id seed left (ordinal + 1) in
      Ensures_then (span_turn (find_known known id) id c coefficients bytes work budget) _
        (span_turn-Accounts id c rest coefficients bytes work budget
          (coefficient-IsFactor seed repair_id id) fs h)
        (λ r p.
          span_loop-Accounts first repair_id seed left (ordinal + 1) r.0 r.1 r.2 budget p.1 p.0)
