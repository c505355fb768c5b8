-- ===== src/Session/Issue.antt =====
-- A token that src/session.rs issues is admitted until it expires.
use quicp.Prelude.{
  ℕ, ◌+◌, ◌^◌, ◌≤◌, ◌<◌, ◌≡◌, refl, sym, ap, ◌∙◌, true, false, some, List, [], ◌∷◌, ◌++◌, ok,
  length, take, drop, length-append, take-append, drop-append, arith, leb,
}
use mathlib.Core.List.{append_assoc}
use quicp.Wire.Bytes.{be_bytes, be_value, length-be_bytes, be_value-be_bytes}
use quicp.Session.{
  Mac, ReplayAdmission, find_attempt, is_live, record_attempt, check_body, validated, admit,
  read_token_u64, replay_token_auth_data, token_body, token_domain, expiry_of, issue, body_bytes,
  insert_attempt, replay_token_version,
}

-- What the code relies on of the authentication code.
pub record IsMac (mac : Mac) : Type 0 where
  pub verifies : (key message : List ℕ) → mac.verify key message (mac.sign key message) ≡ true

take_of_length : (n : ℕ) (xs ys : List ℕ) → length xs ≡ n → take n (xs ++ ys) ≡ xs
take_of_length n xs ys h = ap (λ k. take k (xs ++ ys)) (sym h) ∙ take-append xs ys

drop_of_length : (n : ℕ) (xs ys : List ℕ) → length xs ≡ n → drop n (xs ++ ys) ≡ ys
drop_of_length n xs ys h = ap (λ k. drop k (xs ++ ys)) (sym h) ∙ drop-append xs ys

-- A number of 8 bytes is read where it was written.
read_field :
    (front : List ℕ) (v : ℕ) (back : List ℕ) (offset : ℕ)
    → length front ≡ offset
    → v < 2 ^ 64
    → read_token_u64 (front ++ (be_bytes 8 v ++ back)) offset ≡ ok v
unfolding read_token_u64
read_field front v back offset l h =
    let value : be_value 0 (take 8 (drop offset (front ++ (be_bytes 8 v ++ back)))) ≡ v =
      ap (λ t. be_value 0 (take 8 t)) (drop_of_length offset front (be_bytes 8 v ++ back) l)
      ∙ ap (be_value 0) (take_of_length 8 (be_bytes 8 v) back (length-be_bytes 8 v))
      ∙ be_value-be_bytes 8 0 v h
      ∙ omega arith in
    let room : leb (offset + 8) (length (front ++ (be_bytes 8 v ++ back))) ≡ true = ground (
      arith,
      l,
      length-append front (be_bytes 8 v ++ back),
      length-append (be_bytes 8 v) back,
      length-be_bytes 8 v,
    ) in
    rw room (ap ok value)

module _ (epoch expiry fingerprint : ℕ) (identity : List ℕ) (e : epoch < 2 ^ 64)
    (x : expiry < 2 ^ 64) (f : fingerprint < 2 ^ 64) (l : length identity ≡ 16) where
  abbrev body : List ℕ
  body = token_body epoch expiry fingerprint identity

  length-body : length body ≡ 41
  length-body = omega (
    arith,
    l,
    length-append (be_bytes 8 epoch) (be_bytes 8 expiry ++ (be_bytes 8 fingerprint ++ identity)),
    length-append (be_bytes 8 expiry) (be_bytes 8 fingerprint ++ identity),
    length-append (be_bytes 8 fingerprint) identity,
    length-be_bytes 8 epoch,
    length-be_bytes 8 expiry,
    length-be_bytes 8 fingerprint,
  )

  read_epoch : read_token_u64 body 1 ≡ ok epoch
  read_epoch =
      read_field (replay_token_version ∷ []) epoch
        (be_bytes 8 expiry ++ (be_bytes 8 fingerprint ++ identity)) 1 refl e

  read_expiry : read_token_u64 body 9 ≡ ok expiry
  read_expiry =
      read_field (replay_token_version ∷ be_bytes 8 epoch) expiry
        (be_bytes 8 fingerprint ++ identity) 9 (omega (arith, length-be_bytes 8 epoch)) x

  read_fingerprint : read_token_u64 body 17 ≡ ok fingerprint
  read_fingerprint =
      ap (λ t. read_token_u64 (replay_token_version ∷ t) 17)
        (sym (
          append_assoc (be_bytes 8 epoch) (be_bytes 8 expiry) (be_bytes 8 fingerprint ++ identity)))
      ∙ read_field (replay_token_version ∷ (be_bytes 8 epoch ++ be_bytes 8 expiry)) fingerprint
          identity 17
          (omega (
            arith,
            length-append (be_bytes 8 epoch) (be_bytes 8 expiry),
            length-be_bytes 8 epoch,
            length-be_bytes 8 expiry,
          ))
          f

  auth_body : replay_token_auth_data body ≡ ok (token_domain ++ body)
  unfolding replay_token_auth_data
  auth_body = rw length-body refl

  check_body-issued :
      (mac : Mac) (a : ReplayAdmission) (tag : List ℕ) (nonce now : ℕ)
      → epoch ≡ a.epoch
      → mac.verify a.key (token_domain ++ body) tag ≡ true
      → now ≤ expiry
      → check_body mac a body tag nonce now fingerprint
        ≡ ok (take 16 (drop 25 body) ++ be_bytes 8 nonce, expiry)
  unfolding check_body
  check_body-issued mac a tag nonce now same verified live =
      rw auth_body
        (rw verified (rw read_epoch (rw read_expiry (rw read_fingerprint (ground arith)))))

  -- The checks before the cache pass.
  validated-issued :
      (mac : Mac) (a : ReplayAdmission) (tag : List ℕ) (nonce now : ℕ)
      → epoch ≡ a.epoch
      → mac.verify a.key (token_domain ++ body) tag ≡ true
      → now ≤ expiry
      → validated mac a (body ++ tag) nonce now fingerprint
        ≡ ok (take 16 (drop 25 body) ++ be_bytes 8 nonce, expiry)
  unfolding validated
  validated-issued mac a tag nonce now same verified live =
      let long : leb body_bytes (length (body ++ tag)) ≡ true =
        ground (arith, length-append body tag, length-body) in
      rw long (
        rw (take_of_length body_bytes body tag length-body) (
          rw (drop_of_length body_bytes body tag length-body)
            (check_body-issued mac a tag nonce now same verified live)))

record_attempt-fresh :
    (a : ReplayAdmission) (k : List ℕ) (e now : ℕ)
    → is_live (find_attempt a.attempts k) now ≡ false
    → length a.attempts < a.max_attempts
    → record_attempt a k e now ≡ (record a { attempts = insert_attempt a.attempts k e }, ok tt)
unfolding record_attempt
record_attempt-fresh a k e now h r = ground arith

-- The key of an attempt with a token of the identity.
abbrev pub attempt_key : (epoch expiry fingerprint : ℕ) (identity : List ℕ) (nonce : ℕ) → List ℕ
attempt_key epoch expiry fingerprint identity nonce =
    take 16 (drop 25 (token_body epoch expiry fingerprint identity)) ++ be_bytes 8 nonce

-- The authentication code verifies what it signed; the identity has 16 bytes and the numbers fit
-- their fields; the time to live is not 0. Then `issue` returns a token, and at any time up to its
-- expiry, with the same capabilities, `admit` accepts the token with a nonce that is not in the cache
-- alive, if the cache has room, and what it does to the cache is to add the attempt.
pub issue-admit :
    (mac : Mac) (a : ReplayAdmission) (identity : List ℕ) (now ttl fingerprint nonce now' : ℕ)
    → IsMac mac
    → length identity ≡ 16
    → a.epoch < 2 ^ 64
    → fingerprint < 2 ^ 64
    → 0 < ttl
    → now + ttl < 2 ^ 64
    → now' ≤ now + ttl
    → is_live
        (find_attempt a.attempts (attempt_key a.epoch (now + ttl) fingerprint identity nonce))
        now'
      ≡ false
    → length a.attempts < a.max_attempts
    → (token : List ℕ) × (issue mac a (some identity) now ttl fingerprint ≡ ok token)
      × (admit mac a token nonce now' fingerprint ≡ (
        record a {
          attempts =
              insert_attempt a.attempts
                (attempt_key a.epoch (now + ttl) fingerprint identity nonce)
                (now + ttl);
        },
        ok tt,
      ))
unfolding issue admit
issue-admit mac a identity now ttl fingerprint nonce now' good l e f positive fits live fresh room =
    let body : List ℕ = token_body a.epoch (now + ttl) fingerprint identity in
    let tag : List ℕ = mac.sign a.key (token_domain ++ body) in
    let passed : expiry_of now ttl ≡ ok (now + ttl) = ground arith in
    (
      body ++ tag,
      rw passed (rw (auth_body a.epoch (now + ttl) fingerprint identity e fits f l) refl),
      rw
          (validated-issued a.epoch (now + ttl) fingerprint identity e fits f l mac a tag nonce now'
            refl (good.verifies a.key (token_domain ++ body)) live)
          (record_attempt-fresh a (attempt_key a.epoch (now + ttl) fingerprint identity nonce)
            (now + ttl) now' fresh room),
    )
