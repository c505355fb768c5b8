-- ===== src/Wire/Varint/Canonical.antt =====
-- `decode_varint` (src/wire.rs) accepts one encoding of each number.
use quicp.Prelude.{
  ℕ, zero, suc, ◌+◌, ◌-◌, ◌*◌, ◌/◌, ◌%◌, ◌^◌, ◌<◌, ◌≤◌, ◌≡◌, ap, sym, ◌∙◌, List, [], ◌∷◌, ◌++◌,
  length, arith, ok, Option-cases, inl, inr,
}
use mathlib.Core.Path.{ap₂}
use native.Mathlib.Nat.{pow-suc}
use quicp.Wire.{max_wire_offset}
use quicp.Wire.Bytes.{
  IsBytes, be_bytes, be_value, split_at, split_at-eq_some, be_value-lift, be_value-lt,
  be_bytes-be_value, be_bytes-cons, IsBytes-append,
}
use quicp.Wire.Varint.{encode_varint, decode_varint, varint_minimum, check_minimum}

-- What a successful reading says of its input.
abbrev pub Canonical : List ℕ → ℕ × ℕ → Type 0
Canonical input (v, n) =
    (v ≤ max_wire_offset)
    × (length (encode_varint v) ≡ n)
    × (rest : List ℕ) × (input ≡ encode_varint v ++ rest)

-- The writer's form with tag `k` in `n + 1` bytes, for a value that needs it.
encode_tagged :
    (n k q : ℕ) (bytes : List ℕ)
    → IsBytes bytes
    → length bytes ≡ n
    → q < 64
    → k < 4
    → be_bytes (suc n) ((64 * k + q) * 256 ^ n + be_value 0 bytes) ≡ (64 * k + q) ∷ bytes
encode_tagged n k q bytes b l hq hk =
    be_bytes-cons n (64 * k + q) (be_value 0 bytes) (rw (← l) (be_value-lt bytes b))
    ∙ ap₂ ◌∷◌ (omega arith) (rw (← l) (be_bytes-be_value bytes b))

module _ (v : ℕ) where
  writes_1 : v ≤ 63 → encode_varint v ≡ be_bytes 1 v
  unfolding encode_varint
  writes_1 h = ground arith

  writes_2 : 63 < v → v ≤ 16383 → encode_varint v ≡ be_bytes 2 (v + 2 ^ 14)
  unfolding encode_varint
  writes_2 l h = ground arith

  writes_4 : 16383 < v → v ≤ 1073741823 → encode_varint v ≡ be_bytes 4 (v + 2 ^ 31)
  unfolding encode_varint
  writes_4 l h = ground arith

  writes_8 : 1073741823 < v → encode_varint v ≡ be_bytes 8 (v % 2 ^ 62 + 3 * 2 ^ 62)
  unfolding encode_varint
  writes_8 l = ground arith

-- The writer writes `v` as the first byte with tag `k` and high bits `q`, and then these bytes.
record Written (k q : ℕ) (bytes : List ℕ) (v : ℕ) : Type 0 where
  fits : v ≤ max_wire_offset
  same : encode_varint v ≡ (64 * k + q) ∷ bytes

module _ (q : ℕ) (bytes : List ℕ) (b : IsBytes bytes) (hq : q < 64) where
  below : (n : ℕ) → length bytes ≡ n → be_value 0 bytes < 256 ^ n
  below n l = rw (← l) (be_value-lt bytes b)

  written :
      (n k v x : ℕ)
      → length bytes ≡ n
      → k < 4
      → v ≤ max_wire_offset
      → encode_varint v ≡ be_bytes (suc n) x
      → x ≡ (64 * k + q) * 256 ^ n + be_value 0 bytes
      → Written k q bytes v
  written n k v x l hk f w e = record {
    fits = f;
    same = w ∙ ap (be_bytes (suc n)) e ∙ encode_tagged n k q bytes b l hq hk;
  }

  written_1 : length bytes ≡ 0 → (v : ℕ) → v ≡ q * 256 ^ 0 + be_value 0 bytes → Written 0 q bytes v
  written_1 l v e =
      written 0 0 v v l (omega arith) (omega (arith, below 0 l))
        (writes_1 v (omega (arith, below 0 l))) (omega arith)

  written_2 :
      length bytes ≡ 1 → (v : ℕ) → v ≡ q * 256 ^ 1 + be_value 0 bytes → 64 ≤ v → Written 1 q bytes v
  written_2 l v e m =
      written 1 1 v (v + 2 ^ 14) l (omega arith) (omega (arith, below 1 l))
        (writes_2 v m (omega (arith, below 1 l))) (omega arith)

  written_4 :
      length bytes ≡ 3
      → (v : ℕ) → v ≡ q * 256 ^ 3 + be_value 0 bytes
      → 16384 ≤ v
      → Written 2 q bytes v
  written_4 l v e m =
      written 3 2 v (v + 2 ^ 31) l (omega arith) (omega (arith, below 3 l))
        (writes_4 v m (omega (arith, below 3 l))) (omega arith)

  written_8 :
      length bytes ≡ 7
      → (v : ℕ) → v ≡ q * 256 ^ 7 + be_value 0 bytes
      → 1073741824 ≤ v
      → Written 3 q bytes v
  written_8 l v e m =
      written 7 3 v (v % 2 ^ 62 + 3 * 2 ^ 62) l (omega arith) (omega (arith, below 7 l))
        (writes_8 v m) (omega (arith, below 7 l))

checked :
    (value width : ℕ) {r : ℕ × ℕ}
    → check_minimum value width ≡ ok r
    → (r.0 ≡ value) × (r.1 ≡ width) × (varint_minimum width ≤ r.0)
checked value width h = ground arith

value_split :
    (q n : ℕ) (bytes : List ℕ) {v : ℕ}
    → length bytes ≡ n
    → v ≡ be_value q bytes
    → v ≡ q * 256 ^ n + be_value 0 bytes
value_split q n bytes l e = e ∙ be_value-lift q bytes ∙ ap (λ m. q * 256 ^ m + be_value 0 bytes) l

written_of_tail :
    (k q : ℕ) (bytes : List ℕ) {r : ℕ × ℕ}
    → IsBytes bytes
    → q < 64
    → k < 4
    → length bytes ≡ 2 ^ k - 1
    → check_minimum (be_value q bytes) (2 ^ k) ≡ ok r
    → Written k q bytes r.0 × (r.1 ≡ 2 ^ k)
written_of_tail zero q bytes b hq hk l h =
    let c = checked (be_value q bytes) 1 h in
    (written_1 q bytes b hq l _ (value_split q 0 bytes l c.0), c.1)
written_of_tail (suc zero) q bytes b hq hk l h =
    let c = checked (be_value q bytes) 2 h in
    (written_2 q bytes b hq l _ (value_split q 1 bytes l c.0) c.2, c.1)
written_of_tail (suc (suc zero)) q bytes b hq hk l h =
    let c = checked (be_value q bytes) 4 h in
    (written_4 q bytes b hq l _ (value_split q 3 bytes l c.0) c.2, c.1)
written_of_tail (suc (suc (suc zero))) q bytes b hq hk l h =
    let c = checked (be_value q bytes) 8 h in
    (written_8 q bytes b hq l _ (value_split q 7 bytes l c.0) c.2, c.1)
written_of_tail (suc (suc (suc (suc k)))) q bytes b hq hk l h = absurd (omega arith)

width_pos : (k : ℕ) → 0 < 2 ^ k
width_pos zero = omega arith
width_pos (suc k) = omega (arith, width_pos k, pow-suc 2 k)

Canonical-of_written :
    (first : ℕ) (input bytes rest : List ℕ) {r : ℕ × ℕ}
    → input ≡ bytes ++ rest
    → length bytes ≡ 2 ^ (first / 64) - 1
    → Written (first / 64) (first % 64) bytes r.0
    → r.1 ≡ 2 ^ (first / 64)
    → Canonical (first ∷ input) r
Canonical-of_written first input bytes rest {r} split l w n = (
  w.fits,
  ap length w.same ∙ omega (arith, l, n, width_pos (first / 64)),
  rest,
  ap₂ ◌∷◌ (omega arith) split ∙ ap (λ bs. bs ++ rest) (sym w.same),
)

-- What is read from a byte string is a value up to the maximal offset, and the string begins with
-- the encoding of that value, which is as long as the reader reports: no number has a second form.
pub decode_varint-Canonical :
    (input : List ℕ) {r : ℕ × ℕ} → IsBytes input → decode_varint input ≡ ok r → Canonical input r
unfolding decode_varint
decode_varint-Canonical [] b h = absurd (cc)
decode_varint-Canonical (first ∷ input) {r} b h =
    elim (Option-cases (split_at (2 ^ (first / 64) - 1) input)) [
      | inl e ↦ absurd (cc)
      | inr (p, e) ↦
          let parts = split_at-eq_some (2 ^ (first / 64) - 1) input e in
          let bytes_fit = (IsBytes-append p.0 p.1 (rw parts.0 at b.1)).0 in
          let w =
            written_of_tail (first / 64) (first % 64) p.0 bytes_fit (omega arith) (omega arith)
              parts.1 (rw e at h) in
          Canonical-of_written first input p.0 p.1 parts.0 parts.1 w.0 w.1
    ]
