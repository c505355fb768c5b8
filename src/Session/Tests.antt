-- ===== src/Session/Tests.antt =====
-- Runs of the admission of src/session.rs and instances of its theorems. The authentication code of
-- the runs writes the key's first byte 32 times.
use quicp.Prelude.{
  ℕ, ◌≡◌, ◌≢◌, refl, true, List, [], ◌∷◌, some, ok, err, replicate, same_bytes, same_bytes_refl,
  arith, ◌++◌, ap,
}
use quicp.Wire.Bytes.{be_bytes, be_value}
use quicp.Session.{
  Mac, ReplayAdmission, replayed, expired, capacity, wrong_epoch, malformed, from_bytes, issue,
  admit, check_body, find_attempt, insert_attempt, read_token_u64, replay_token_auth_data, code,
  from_peer_code, flow_abort, admit_evidence, explicitly_unauthenticated,
}
use quicp.Session.Attempts.{admit-unchanged}
use quicp.Session.Once.{Calls, admit_once}
use quicp.Session.Issue.{IsMac, attempt_key, issue-admit}

abbrev tag_of : List ℕ → List ℕ
tag_of [] = replicate 32 0
tag_of (b ∷ bs) = replicate 32 b

abbrev mac : Mac
mac = record {
  sign = λ key message. tag_of key;
  verify = λ key message tag. same_bytes tag (tag_of key);
}

mac-IsMac : IsMac mac
mac-IsMac = record { verifies = λ key message. same_bytes_refl (tag_of key) }

abbrev server : ReplayAdmission
server = record { key = replicate 32 7; epoch = 4; max_attempts = 1; attempts = [] }

abbrev identity : List ℕ
identity = replicate 16 5

abbrev token : List ℕ
token =
    1
    ∷ 0
    ∷ 0
    ∷ 0
    ∷ 0
    ∷ 0
    ∷ 0
    ∷ 0
    ∷ 4
    ∷ 0
    ∷ 0
    ∷ 0
    ∷ 0
    ∷ 0
    ∷ 0
    ∷ 0
    ∷ 110
    ∷ 0
    ∷ 0
    ∷ 0
    ∷ 0
    ∷ 0
    ∷ 0
    ∷ 0
    ∷ 9
    ∷ (replicate 16 5 ++ replicate 32 7)

issued : issue mac server (some identity) 100 10 9 ≡ ok token
unfolding issue replay_token_auth_data be_bytes
issued = refl

imported : (from_bytes token ≡ ok token) × (from_bytes (1 ∷ []) ≡ err malformed)
unfolding from_bytes
imported = (refl, refl)

-- The cache after the nonce 11.
abbrev busy : ReplayAdmission
busy = record server {
  attempts = (replicate 16 5 ++ (0 ∷ 0 ∷ 0 ∷ 0 ∷ 0 ∷ 0 ∷ 0 ∷ 11 ∷ []), 110) ∷ [];
}

admitted : admit mac server token 11 105 9 ≡ (busy, ok tt)
unfolding admit check_body read_token_u64 replay_token_auth_data be_bytes be_value
admitted = refl

refused :
    (admit mac busy token 11 110 9 ≡ (busy, err replayed))
    × (admit mac busy token 11 111 9 ≡ (busy, err expired))
    × (admit mac busy token 12 110 9 ≡ (busy, err capacity))
    × (admit mac (record server { epoch = 5 }) token 11 105 9
        ≡ (record server { epoch = 5 }, err wrong_epoch))
unfolding admit check_body read_token_u64 replay_token_auth_data be_bytes be_value
refused = (refl, refl, refl, refl)

codes : (from_peer_code 0x101 ≡ flow_abort) × (from_peer_code (code flow_abort) ≡ flow_abort)
unfolding from_peer_code
codes = (refl, refl)

evidence :
    admit_evidence (record {
      selected_profile_token = b'q' ∷ b'u' ∷ b'i' ∷ b'c' ∷ b'p' ∷ [];
      peer_admission = explicitly_unauthenticated;
      current_policy_authorized = true;
    })
    ≡ ok tt
unfolding admit_evidence
evidence = refl

admit-unchanged_example : (admit mac busy token 12 110 9).0.attempts ≡ busy.attempts
admit-unchanged_example = admit-unchanged mac busy token 12 110 9 capacity (ap (λ r. r.1) refused.2)

-- An attempt with another nonce finds the cache full.
one_call : Calls mac 105 (admit mac server token 11 105 9).0 108 busy
unfolding admit check_body read_token_u64 replay_token_auth_data be_bytes be_value
one_call = Calls.call token 12 108 9 (omega arith) Calls.done

admit_once_example : (admit mac busy token 11 110 9).1 ≢ ok tt
admit_once_example =
    admit_once mac server token 11 105 9 108 busy 110 9 (ap (λ r. r.1) admitted) one_call
      (omega arith)

issue-admit_example :
    (t : List ℕ) × (issue mac server (some identity) 100 10 9 ≡ ok t)
    × (admit mac server t 11 105 9 ≡ (
      record server { attempts = insert_attempt [] (attempt_key 4 110 9 identity 11) 110 },
      ok tt,
    ))
issue-admit_example =
    issue-admit mac server identity 100 10 9 11 105 mac-IsMac refl (omega arith) (omega arith)
      (omega arith) (omega arith) (omega arith) (unfold find_attempt in refl) (omega arith)
