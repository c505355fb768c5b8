-- ===== src/Wire/OpenRequest.antt =====
-- `OpenRequest` of src/wire.rs: a host and a port, and their encoding. The port and the host of a
-- value are those that the source's types admit: see `IsOpenRequest`.
pub mod RoundTrip
mod Tests
use quicp.Prelude.{
  ℕ, zero, suc, ◌+◌, ◌%◌, ◌<◌, ◌≡◌, Bool, true, false, List, [], ◌∷◌, ◌++◌, length, take, drop,
  Result, ok, err, and_then, ltb, ◌==◌, if◌then◌else◌,
}
use quicp.Wire.{WireError, truncated, invalid_host_length, zero_port, output_too_small}
use quicp.Wire.Bytes.{be_bytes, be_value}
use quicp.Wire.Host.{parse_host, host_refused}

pub record OpenRequest : Type 0 where
  pub host : List ℕ
  pub port : ℕ

-- What `CanonicalHost` and `NonZeroU16` guarantee.
pub record IsOpenRequest (r : OpenRequest) : Type 0 where
  pub canonical : host_refused r.host ≡ false
  pub port_nonzero : 0 < r.port
  pub port_fits : r.port < 65536

abbrev pub encoded_len : OpenRequest → ℕ
encoded_len r = length r.host + 3

-- `encode_into`, with the capacity of the caller's storage and the bytes written there. The length
-- is cast, `as u8`.
unfoldable pub encode_into : OpenRequest → ℕ → Result (List ℕ) WireError
encode_into r available =
    if ltb available (encoded_len r)
    then err (output_too_small (encoded_len r) available)
    else ok (length r.host % 256 ∷ (r.host ++ be_bytes 2 r.port))

-- `OpenRequest::encode`, whose storage has the length that it needs.
unfoldable pub encode_open : OpenRequest → Result (List ℕ) WireError
unfolding encode_into
encode_open r = encode_into r (encoded_len r)

-- The request and the number of bytes that it takes up.
unfoldable pub decode_open : List ℕ → Result (OpenRequest × ℕ) WireError
decode_open [] = err WireError.truncated
decode_open (host_len ∷ rest) =
    if host_len == 0
    then err invalid_host_length
    else (if ltb (suc (length rest)) (host_len + 3)
        then err WireError.truncated
        else and_then (parse_host (take host_len rest)) λ host.
          let port = be_value 0 (take 2 (drop host_len rest)) in
          if port == 0
          then err zero_port
          else ok (record { host = host; port = port }, host_len + 3))
