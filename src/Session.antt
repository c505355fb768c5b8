-- ===== src/Session.antt =====
-- src/session.rs: what a peer must show to be admitted, and the tokens and the cache that admit an early
-- attempt once. The message authentication code is a parameter, since a library computes it. A call
-- takes effect under the cache's lock, so concurrent calls are a sequence.
pub mod Attempts
pub mod Once
pub mod Issue
mod Tests
use quicp.Prelude.{
  ℕ, ◌+◌, ◌^◌, Bool, true, false, not, ◌||◌, Option, none, some, List, [], ◌∷◌, ◌++◌, Result, ok,
  err, and_then, ◌>>=◌, ◌>>◌, fail_if, ok_or, ltb, leb, ◌==◌, if◌then◌else◌, length, take, drop,
  same_bytes,
}
use quicp.Wire.Bytes.{be_bytes, be_value}

-- `hmac::sign` and `hmac::verify` with HMAC-SHA-256.
pub record Mac : Type 0 where
  pub sign : (key message : List ℕ) → List ℕ
  pub verify : (key message tag : List ℕ) → Bool

pub data ReplayTokenError : Type 0 where
  capabilities_unavailable malformed invalid_mac wrong_epoch expired capabilities_changed replayed
        capacity invalid_policy random :
      ReplayTokenError

abbrev pub replay_token_version : ℕ
replay_token_version = 1

-- `REPLAY_TOKEN_BODY_BYTES` and `REPLAY_TOKEN_BYTES`
abbrev pub body_bytes : ℕ
body_bytes = 41

abbrev pub token_bytes : ℕ
token_bytes = 73

-- `b"quicp replay token\0"`
abbrev pub token_domain : List ℕ
token_domain =
    b'q' ∷ b'u' ∷ b'i' ∷ b'c' ∷ b'p' ∷ b' ' ∷ b'r' ∷ b'e' ∷ b'p' ∷ b'l' ∷ b'a' ∷ b'y' ∷ b' ' ∷ b't'
    ∷ b'o' ∷ b'k' ∷ b'e' ∷ b'n' ∷ 0 ∷ []

abbrev pub max_replay_attempts : ℕ
max_replay_attempts = 65536

abbrev is_version : List ℕ → Bool
is_version [] = false
is_version (b ∷ bs) = b == replay_token_version

-- `ReplayToken::from_bytes`
unfoldable pub from_bytes : List ℕ → Result (List ℕ) ReplayTokenError
from_bytes bytes = do
  fail_if (not (length bytes == token_bytes)) malformed
  fail_if (not (is_version bytes)) malformed
  ok bytes

-- The hash map is a list; a key is a token's identity and a nonce.
pub record ReplayAdmission : Type 0 where
  pub key : List ℕ
  pub epoch : ℕ
  pub max_attempts : ℕ
  pub attempts : List (List ℕ × ℕ)

-- `ReplayAdmission::new`
unfoldable pub new :
    (secret : List ℕ) (epoch max_attempts : ℕ) → Result ReplayAdmission ReplayTokenError
new secret epoch max_attempts =
    if ltb (length secret) 32 || (max_attempts == 0 || ltb max_replay_attempts max_attempts)
    then err invalid_policy
    else ok (record { key = secret; epoch = epoch; max_attempts = max_attempts; attempts = [] })

unfoldable pub replay_token_auth_data : List ℕ → Result (List ℕ) ReplayTokenError
replay_token_auth_data body =
    if not (length body == body_bytes) then err malformed else ok (token_domain ++ body)

unfoldable pub read_token_u64 : List ℕ → (offset : ℕ) → Result ℕ ReplayTokenError
read_token_u64 body offset =
    if leb (offset + 8) (length body)
    then ok (be_value 0 (take 8 (drop offset body)))
    else err malformed

-- `bytes.get(..n)` and `bytes.get(n..)`
abbrev slice_to : List ℕ → ℕ → Result (List ℕ) ReplayTokenError
slice_to bytes n = if leb n (length bytes) then ok (take n bytes) else err malformed

abbrev slice_from : List ℕ → ℕ → Result (List ℕ) ReplayTokenError
slice_from bytes n = if leb n (length bytes) then ok (drop n bytes) else err malformed

-- The body of a token before its authentication code.
abbrev pub token_body : (epoch expiry capability_fingerprint : ℕ) → (identity : List ℕ) → List ℕ
token_body epoch expiry capability_fingerprint identity =
    replay_token_version
    ∷ (be_bytes 8 epoch ++ (be_bytes 8 expiry ++ (be_bytes 8 capability_fingerprint ++ identity)))

-- `expiry`: the sum is checked, and no time to live is refused.
abbrev pub expiry_of : (now_seconds ttl_seconds : ℕ) → Result ℕ ReplayTokenError
expiry_of now ttl =
    if ttl == 0 || leb (2 ^ 64) (now + ttl) then err invalid_policy else ok (now + ttl)

-- `identity` is what the system's random source gives, and `none` if it fails.
unfoldable pub issue :
    Mac
    → ReplayAdmission
    → (identity : Option (List ℕ)) → (now_seconds ttl_seconds capability_fingerprint : ℕ)
    → Result (List ℕ) ReplayTokenError
issue mac a identity now ttl fingerprint = do
  identity ← ok_or identity random
  expiry ← expiry_of now ttl
  let body = token_body a.epoch expiry fingerprint identity
  authenticated ← replay_token_auth_data body
  ok (body ++ mac.sign a.key authenticated)

-- The checks of `admit` on the two parts of a token: the attempt's key and its expiry.
unfoldable pub check_body :
    Mac
    → ReplayAdmission
    → (body tag : List ℕ) (nonce now_seconds capability_fingerprint : ℕ)
    → Result (List ℕ × ℕ) ReplayTokenError
check_body mac a body tag nonce now fingerprint = do
  authenticated ← replay_token_auth_data body
  fail_if (not (mac.verify a.key authenticated tag)) invalid_mac
  epoch ← read_token_u64 body 1
  expiry ← read_token_u64 body 9
  capabilities ← read_token_u64 body 17
  fail_if (not (epoch == a.epoch)) wrong_epoch
  fail_if (ltb expiry now) expired
  fail_if (not (capabilities == fingerprint)) capabilities_changed
  ok (take 16 (drop 25 body) ++ be_bytes 8 nonce, expiry)

-- What `admit` does before the cache.
unfoldable pub validated :
    Mac
    → ReplayAdmission
    → (token : List ℕ) (nonce now_seconds capability_fingerprint : ℕ)
    → Result (List ℕ × ℕ) ReplayTokenError
validated mac a token nonce now fingerprint = do
  body ← slice_to token body_bytes
  tag ← slice_from token body_bytes
  check_body mac a body tag nonce now fingerprint

unfoldable pub find_attempt : List (List ℕ × ℕ) → List ℕ → Option ℕ
find_attempt [] attempt = none
find_attempt ((k, expires) ∷ r) attempt =
    if same_bytes k attempt then some expires else find_attempt r attempt

-- `attempts.insert(attempt, expiry)`
unfoldable pub insert_attempt : List (List ℕ × ℕ) → List ℕ → ℕ → List (List ℕ × ℕ)
insert_attempt [] attempt expiry = (attempt, expiry) ∷ []
insert_attempt ((k, expires) ∷ r) attempt expiry =
    let rest = insert_attempt r attempt expiry in
    if same_bytes k attempt then (k, expiry) ∷ r else (k, expires) ∷ rest

-- `attempts.retain(|_, expires| *expires >= now_seconds)`
unfoldable pub retain_attempts : List (List ℕ × ℕ) → (now_seconds : ℕ) → List (List ℕ × ℕ)
retain_attempts [] now = []
retain_attempts ((k, expires) ∷ r) now =
    let rest = retain_attempts r now in if leb now expires then (k, expires) ∷ rest else rest

abbrev pub is_live : Option ℕ → (now_seconds : ℕ) → Bool
is_live none now = false
is_live (some expires) now = leb now expires

abbrev with_attempts : ReplayAdmission → List (List ℕ × ℕ) → ReplayAdmission
with_attempts a attempts = record a { attempts = attempts }

-- The part of `admit` under the lock. The state is returned with an error too.
unfoldable pub record_attempt :
    ReplayAdmission
    → (attempt : List ℕ) (expiry now_seconds : ℕ)
    → ReplayAdmission × Result (Unit {0}) ReplayTokenError
unfolding find_attempt insert_attempt retain_attempts
record_attempt a attempt expiry now =
    if is_live (find_attempt a.attempts attempt) now
    then (a, err replayed)
    else (if not (length a.attempts == a.max_attempts)
        then (with_attempts a (insert_attempt a.attempts attempt expiry), ok tt)
        else (if length (retain_attempts a.attempts now) == a.max_attempts
            then (with_attempts a (retain_attempts a.attempts now), err capacity)
            else (
              with_attempts a (insert_attempt (retain_attempts a.attempts now) attempt expiry),
              ok tt,
            )))

abbrev pub record_valid :
    Result (List ℕ × ℕ) ReplayTokenError
    → ReplayAdmission
    → (now_seconds : ℕ) → ReplayAdmission × Result (Unit {0}) ReplayTokenError
record_valid (err e) a now = (a, err e)
record_valid (ok (attempt, expiry)) a now = record_attempt a attempt expiry now

unfoldable pub admit :
    Mac
    → ReplayAdmission
    → (token : List ℕ) (nonce now_seconds capability_fingerprint : ℕ)
    → ReplayAdmission × Result (Unit {0}) ReplayTokenError
unfolding validated record_attempt
admit mac a token nonce now fingerprint =
    record_valid (validated mac a token nonce now fingerprint) a now

pub data PeerAdmission : Type 0 where
  authenticated explicitly_unauthenticated unauthenticated : PeerAdmission

pub record HandshakeEvidence : Type 0 where
  pub selected_profile_token : List ℕ
  pub peer_admission : PeerAdmission
  pub current_policy_authorized : Bool

-- `SessionError`, of which `wire` carries the codec's error in the code.
pub data SessionError : Type 0 where
  peer_unauthenticated policy_rejected unsupported_profile_token unsupported_crypto invalid_state
        wire :
      SessionError

-- `QUICP_PROFILE`
abbrev pub quicp_profile : List ℕ
quicp_profile = b'q' ∷ b'u' ∷ b'i' ∷ b'c' ∷ b'p' ∷ []

abbrev pub is_unauthenticated : PeerAdmission → Bool
is_unauthenticated unauthenticated = true
is_unauthenticated p = false

unfoldable pub admit_evidence : HandshakeEvidence → Result (Unit {0}) SessionError
admit_evidence e = do
  fail_if (is_unauthenticated e.peer_admission) peer_unauthenticated
  fail_if (not e.current_policy_authorized) policy_rejected
  fail_if (not (same_bytes e.selected_profile_token quicp_profile)) unsupported_profile_token
  ok tt

pub data ApplicationError : Type 0 where
  flow_protocol flow_abort flow_rejected multipath_required multipath_churn : ApplicationError

unfoldable pub code : ApplicationError → ℕ
code flow_protocol = 0x100
code flow_abort = 0x101
code flow_rejected = 0x102
code multipath_required = 0x103
code multipath_churn = 0x104

unfoldable pub from_peer_code : ℕ → ApplicationError
unfolding code
from_peer_code value =
    if value == code flow_abort
    then flow_abort
    else (if value == code flow_rejected
        then flow_rejected
        else (if value == code multipath_required
            then multipath_required
            else (if value == code multipath_churn then multipath_churn else flow_protocol)))
