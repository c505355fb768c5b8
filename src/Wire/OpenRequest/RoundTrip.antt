-- ===== src/Wire/OpenRequest/RoundTrip.antt =====
-- The encoding of OPEN requests (src/wire.rs) and its decoder against each other.
use quicp.Prelude.{
  ℕ, ◌+◌, ◌%◌, ◌^◌, ◌<◌, ◌≤◌, ◌≡◌, ap, sym, ◌∙◌, Bool, false, List, [], ◌∷◌, ◌++◌, length,
  length-append, take, drop, take-append-drop, take-append, drop-append, length-take, length-drop,
  ◌*◌, Result, ok, err, and_then, and_then-eq_ok, ◌==◌, arith, if◌then◌else◌,
}
use mathlib.Core.Path.{ap₂, subst}
use mathlib.Core.List.{append_assoc}
use quicp.Wire.{WireError}
use quicp.Wire.Bytes.{
  IsBytes, IsBytes-append, be_bytes, be_value, length-be_bytes, be_value-be_bytes,
  be_bytes-be_value, be_value-lt,
}
use quicp.Wire.Host.{parse_host, host_refused, contains_dot}
use quicp.Wire.OpenRequest.{
  OpenRequest, IsOpenRequest, encoded_len, encode_into, encode_open, decode_open,
}

-- A canonical host has between 1 and 253 bytes.
host_bounds : (h : List ℕ) → host_refused h ≡ false → (0 < length h) × (length h ≤ 253)
unfolding host_refused contains_dot
host_bounds [] h = absurd (cc)
host_bounds (b ∷ bs) h = ground arith

abbrev form : OpenRequest → List ℕ
form r = length r.host ∷ (r.host ++ be_bytes 2 r.port)

encode_open-of-IsOpenRequest : (r : OpenRequest) → IsOpenRequest r → encode_open r ≡ ok (form r)
unfolding encode_open encode_into
encode_open-of-IsOpenRequest r v =
    let b = host_bounds r.host v.canonical in
    let small : length r.host % 256 ≡ length r.host = omega (arith, b) in rw small (ground arith)

-- What the decoder makes of the host's bytes and the port's.
request : List ℕ → List ℕ → ℕ → Result (OpenRequest × ℕ) WireError
request host port_bytes host_len = and_then (parse_host host) λ host.
    let port = be_value 0 port_bytes in
    if port == 0
    then err WireError.zero_port
    else ok (record { host = host; port = port }, host_len + 3)

decode_open-request :
    (host_len : ℕ) (rest : List ℕ)
    → 0 < host_len
    → host_len + 2 ≤ length rest
    → decode_open (host_len ∷ rest)
      ≡ request (take host_len rest) (take 2 (drop host_len rest)) host_len
unfolding decode_open request
decode_open-request host_len rest h k = ground arith

served :
    (host : List ℕ) (port n : ℕ)
    → 0 < port
    → ◌≡◌ {A = Result (OpenRequest × ℕ) WireError}
        (if 0 * 256 ^ 2 + port == 0
          then err WireError.zero_port
          else ok (record { host = host; port = 0 * 256 ^ 2 + port }, n))
        (ok (record { host = host; port = port }, n))
served host port n h = ground arith

take_two : (port : ℕ) (rest : List ℕ) → take 2 (be_bytes 2 port ++ rest) ≡ be_bytes 2 port
take_two port rest =
    ap (λ n. take n (be_bytes 2 port ++ rest)) (sym (length-be_bytes 2 port))
    ∙ take-append (be_bytes 2 port) rest

request_lem :
    (r : OpenRequest)
    → IsOpenRequest r
    → request r.host (be_bytes 2 r.port) (length r.host) ≡ ok (r, encoded_len r)
unfolding request parse_host
request_lem r v = rw v.canonical (
    rw (be_value-be_bytes 2 0 r.port v.port_fits)
      (served r.host r.port (length r.host + 3) v.port_nonzero))

-- A request encodes, to a byte string of the announced length; whatever bytes stand behind it, the
-- string decodes to the request and its length. This supposes a host and a port as `CanonicalHost`
-- and `NonZeroU16` hold them.
pub decode_open-encode_open :
    (r : OpenRequest) (rest : List ℕ)
    → IsOpenRequest r
    → (bytes : List ℕ) × (encode_open r ≡ ok bytes)
      × (length bytes ≡ encoded_len r)
      × (decode_open (bytes ++ rest) ≡ ok (r, encoded_len r))
decode_open-encode_open r rest v =
    let l = length-append r.host (be_bytes 2 r.port) in
    let two = length-be_bytes 2 r.port in
    let b = host_bounds r.host v.canonical in
    (
      form r,
      encode_open-of-IsOpenRequest r v,
      omega (arith, l, two),
      decode_open-request (length r.host) ((r.host ++ be_bytes 2 r.port) ++ rest) b.0
            (omega (arith, l, two, length-append (r.host ++ be_bytes 2 r.port) rest))
          ∙ rw (append_assoc r.host (be_bytes 2 r.port) rest) (
              rw
                (
                  take-append r.host (be_bytes 2 r.port ++ rest),
                  drop-append r.host (be_bytes 2 r.port ++ rest),
                )
                (ap (λ port. request r.host port (length r.host)) (take_two r.port rest)
                  ∙ request_lem r v)),
    )

cases_of_decode :
    (host_len : ℕ) (rest : List ℕ) {r : OpenRequest × ℕ}
    → decode_open (host_len ∷ rest) ≡ ok r
    → (0 < host_len) × (host_len + 2 ≤ length rest)
unfolding decode_open
cases_of_decode host_len rest h = ground arith

guarded_host :
    (t : Bool) (h : List ℕ) {x : List ℕ}
    → ◌≡◌ {A = Result (List ℕ) WireError} (if t then err WireError.invalid_host else ok h) (ok x)
    → (t ≡ false) × (h ≡ x)
guarded_host t h e = ground arith

parse_host-eq-ok :
    (h : List ℕ) {x : List ℕ} → parse_host h ≡ ok x → (host_refused h ≡ false) × (h ≡ x)
unfolding parse_host
parse_host-eq-ok h e = guarded_host (host_refused h) h e

guarded_port :
    (host : List ℕ) (port n : ℕ) {r : OpenRequest × ℕ}
    → ◌≡◌ {A = Result (OpenRequest × ℕ) WireError}
        (if port == 0 then err WireError.zero_port else ok (record { host = host; port = port }, n))
        (ok r)
    → (0 < port) × ((record { host = host; port = port }, n) ≡ r)
guarded_port host port n h = ground arith

request-eq-ok :
    (host port_bytes : List ℕ) (host_len : ℕ) {r : OpenRequest × ℕ}
    → request host port_bytes host_len ≡ ok r
    → (host_refused host ≡ false)
      × (0 < be_value 0 port_bytes)
      × ((record { host = host; port = be_value 0 port_bytes }, host_len + 3) ≡ r)
unfolding request
request-eq-ok host port_bytes host_len {r} h =
    let (host', e, k) =
      and_then-eq_ok (parse_host host)
        (λ host.
          if be_value 0 port_bytes == 0
          then err WireError.zero_port
          else ok (record { host = host; port = be_value 0 port_bytes }, host_len + 3))
        h in
    let p = parse_host-eq-ok host e in
    let q = guarded_port host' (be_value 0 port_bytes) (host_len + 3) k in
    (
      p.0,
      q.0,
      ap (λ x. (record { host = x; port = be_value 0 port_bytes }, host_len + 3)) p.1 ∙ q.1,
    )

take_le : (n : ℕ) (bs : List ℕ) → n ≤ length bs → length (take n bs) ≡ n
take_le n bs h = omega (arith, length-take {A = ℕ} n bs)

port_bytes : (bs : List ℕ) → IsBytes bs → length bs ≡ 2 → be_bytes 2 (be_value 0 bs) ≡ bs
port_bytes bs b l = ap (λ n. be_bytes n (be_value 0 bs)) (sym l) ∙ be_bytes-be_value bs b

-- What `decode_open` accepts of an input of bytes is a request with a host and a port as `CanonicalHost` and `NonZeroU16`
-- hold them, and the input starts with its encoding, whose length is the number of bytes taken.
pub decode_open-canonical :
    (input : List ℕ) {r : OpenRequest × ℕ}
    → IsBytes input
    → decode_open input ≡ ok r
    → IsOpenRequest r.0
      × (r.1 ≡ encoded_len r.0)
      × (bytes : List ℕ) × (rest : List ℕ) × (encode_open r.0 ≡ ok bytes)
      × (input ≡ bytes ++ rest)
decode_open-canonical [] h e = absurd ((unfold decode_open in cc))
decode_open-canonical (n ∷ bs) {r} h e =
    let (positive, enough) = cases_of_decode n bs e in
    let q =
      request-eq-ok (take n bs) (take 2 (drop n bs)) n
        (sym (decode_open-request n bs positive enough) ∙ e) in
    let (good, nonzero, same) = q in
    let l = take_le n bs (omega (arith, enough)) in
    let l2 = take_le 2 (drop n bs) (omega (arith, enough, length-drop {A = ℕ} n bs)) in
    let b = IsBytes-append (take n bs) (drop n bs) (rw (take-append-drop n bs) h.1) in
    let b2 =
      (IsBytes-append (take 2 (drop n bs)) (drop 2 (drop n bs))
        (rw (take-append-drop 2 (drop n bs)) b.1)).0 in
    let port = be_value 0 (take 2 (drop n bs)) in
    let v : IsOpenRequest (record { host = take n bs; port = port }) = record {
      canonical = good;
      port_nonzero = nonzero;
      port_fits = subst (λ m. port < 256 ^ m) l2 (be_value-lt (take 2 (drop n bs)) b2);
    } in
    subst
      (λ (r : OpenRequest × ℕ).
        IsOpenRequest r.0
        × (r.1 ≡ encoded_len r.0)
        × (bytes : List ℕ) × (rest : List ℕ) × (encode_open r.0 ≡ ok bytes)
        × ((n ∷ bs) ≡ bytes ++ rest))
      same
      (
        v,
        omega (arith, l),
        form (record { host = take n bs; port = port }),
        drop 2 (drop n bs),
        encode_open-of-IsOpenRequest (record { host = take n bs; port = port }) v,
        ap₂ ◌∷◌ (sym l) (
            sym (
              append_assoc (take n bs) (be_bytes 2 port) (drop 2 (drop n bs))
              ∙ ap (λ t. take n bs ++ (t ++ drop 2 (drop n bs)))
                  (port_bytes (take 2 (drop n bs)) b2 l2)
              ∙ ap (λ t. take n bs ++ t) (take-append-drop 2 (drop n bs))
              ∙ take-append-drop n bs)),
      )
