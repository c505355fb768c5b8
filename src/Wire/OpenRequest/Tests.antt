-- ===== src/Wire/OpenRequest/Tests.antt =====
-- OPEN requests (src/wire.rs) at work, and instances of the theorems.
use quicp.Prelude.{ℕ, ◌≡◌, refl, List, [], ◌∷◌, ◌++◌, length, ok, err, arith}
use quicp.Wire.{truncated, invalid_host_length, invalid_host, zero_port}
use quicp.Wire.Bytes.{be_value}
use quicp.Wire.Host.{parse_host, host_refused, split_dots, contains_dot, is_ipv4, any_label_refused}
use quicp.Wire.OpenRequest.{OpenRequest, IsOpenRequest, encoded_len, encode_open, decode_open}
use quicp.Wire.OpenRequest.RoundTrip.{decode_open-encode_open, decode_open-canonical}

-- The host `a.b` and the port 443.
abbrev request : OpenRequest
request = record { host = b'a' ∷ b'.' ∷ b'b' ∷ []; port = 443 }

abbrev form : List ℕ
form = 3 ∷ b'a' ∷ b'.' ∷ b'b' ∷ 1 ∷ 187 ∷ []

request-IsOpenRequest : IsOpenRequest request
unfolding host_refused contains_dot split_dots is_ipv4 any_label_refused
request-IsOpenRequest = record {
  canonical = refl;
  port_nonzero = omega arith;
  port_fits = omega arith;
}

reads : decode_open (form ++ (9 ∷ [])) ≡ ok (request, 6)
unfolding decode_open parse_host be_value
reads = refl

refusals :
    (decode_open (3 ∷ b'a' ∷ b'.' ∷ b'b' ∷ 0 ∷ 0 ∷ []) ≡ err zero_port)
    × (decode_open (3 ∷ b'a' ∷ b'.' ∷ b'b' ∷ 1 ∷ []) ≡ err truncated)
    × (decode_open (3 ∷ b'a' ∷ b'.' ∷ b'B' ∷ 1 ∷ 1 ∷ []) ≡ err invalid_host)
    × (decode_open (7 ∷ b'1' ∷ b'.' ∷ b'2' ∷ b'.' ∷ b'3' ∷ b'.' ∷ b'4' ∷ 1 ∷ 1 ∷ [])
        ≡ err invalid_host)
    × (decode_open (0 ∷ 1 ∷ 1 ∷ []) ≡ err invalid_host_length)
unfolding decode_open parse_host be_value
refusals = (refl, refl, refl, refl, refl)

decode_open-encode_open_example :
    (bytes : List ℕ) × (encode_open request ≡ ok bytes)
    × (length bytes ≡ encoded_len request)
    × (decode_open (bytes ++ (9 ∷ [])) ≡ ok (request, encoded_len request))
decode_open-encode_open_example = decode_open-encode_open request (9 ∷ []) request-IsOpenRequest

decode_open-canonical_example :
    IsOpenRequest request
    × (6 ≡ encoded_len request)
    × (bytes : List ℕ) × (rest : List ℕ) × (encode_open request ≡ ok bytes)
    × ((form ++ (9 ∷ [])) ≡ bytes ++ rest)
decode_open-canonical_example = decode_open-canonical (form ++ (9 ∷ [])) (ground arith) reads
