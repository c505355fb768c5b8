-- ===== src/Session/Once.antt =====
-- No attempt is admitted twice by src/session.rs, as long as the clock does not go back.
use quicp.Prelude.{
  ℕ, ◌≤◌, ◌≡◌, ◌≢◌, refl, sym, ap, ◌∙◌, true, not, Bool-cases, inl, inr, some, List, ◌++◌, Result,
  ok, err, fail_if, ltb, ◌==◌, take, drop, ok-injective, same_bytes, same_bytes→eq, Ensures,
  Ensures_any, returned, Ensures-eq_ok, arith,
}
use quicp.Wire.Bytes.{be_bytes}
use quicp.Session.{
  Mac, ReplayAdmission, ReplayTokenError, find_attempt, retain_attempts, is_live, record_attempt,
  record_valid, check_body, validated, admit, read_token_u64, replay_token_auth_data, body_bytes,
  slice_to, slice_from, invalid_mac, wrong_epoch, expired, capabilities_changed,
}
use quicp.Session.Attempts.{find-insert_self, find-insert_ne, find-retain}

-- While the attempt has not expired the cache has it.
abbrev Remembers : ReplayAdmission → (attempt : List ℕ) (expiry now : ℕ) → Type 0
Remembers a attempt expiry now = now ≤ expiry → find_attempt a.attempts attempt ≡ some expiry

recorded-Remembers :
    (a : ReplayAdmission) (k : List ℕ) (e now : ℕ)
    → (record_attempt a k e now).1 ≡ ok tt
    → Remembers (record_attempt a k e now).0 k e now
unfolding record_attempt
recorded-Remembers a k e now h l =
    ground (
      arith,
      find-insert_self a.attempts k e,
      find-insert_self (retain_attempts a.attempts now) k e,
    )

-- Another attempt is another key, as this one is refused.
record_attempt-Remembers :
    (a : ReplayAdmission) (k j : List ℕ) (e t now : ℕ)
    → find_attempt a.attempts k ≡ some e
    → now ≤ e
    → find_attempt (record_attempt a j t now).0.attempts k ≡ some e
unfolding record_attempt
record_attempt-Remembers a k j e t now h l = elim (Bool-cases (same_bytes j k)) [
  | inl s ↦
      let same : j ≡ k = same_bytes→eq j k s in
      let live : is_live (find_attempt a.attempts j) now ≡ true = rw (same, h) (ground arith) in
      rw live h
  | inr s ↦ ground (
    arith,
    find-retain a.attempts k e now h l,
    find-insert_ne a.attempts j k t s,
    find-insert_ne (retain_attempts a.attempts now) j k t s,
  )
]

-- Calls of `admit` with any arguments, at times that do not go back.
pub data Calls (mac : Mac) : ℕ → ReplayAdmission → ℕ → ReplayAdmission → Type 0 where
  done : {now : ℕ} {a : ReplayAdmission} → Calls mac now a now a
  call :
      {before : ℕ} {a : ReplayAdmission} {after : ℕ} {a' : ReplayAdmission} (token : List ℕ)
      (nonce now fingerprint : ℕ)
      → before ≤ now
      → Calls mac now (admit mac a token nonce now fingerprint).0 after a'
      → Calls mac before a after a'

record_valid-Remembers :
    (v : Result (List ℕ × ℕ) ReplayTokenError) (a : ReplayAdmission) (k : List ℕ) (e now : ℕ)
    → find_attempt a.attempts k ≡ some e
    → now ≤ e
    → find_attempt (record_valid v a now).0.attempts k ≡ some e
record_valid-Remembers (err x) a k e now h l = h
record_valid-Remembers (ok (j, t)) a k e now h l = record_attempt-Remembers a k j e t now h l

Calls-Remembers :
    (mac : Mac) {before : ℕ} {a : ReplayAdmission} {after : ℕ} {a' : ReplayAdmission} (k : List ℕ)
    (e : ℕ)
    → Calls mac before a after a'
    → Remembers a k e before
    → Remembers a' k e after
Calls-Remembers mac k e done h = h
Calls-Remembers mac {a} k e (call token nonce now fingerprint later calls) h =
    Calls-Remembers mac k e calls (λ l.
      unfold admit in
      record_valid-Remembers (validated mac a token nonce now fingerprint) a k e now
        (h (omega (arith, later, l))) l)

-- The key and the expiry are read off the token, and an expired token is refused.
record ReadsOff (token : List ℕ) (nonce now : ℕ) (r : List ℕ × ℕ) : Type 0 where
  attempt : r.0 ≡ take 16 (drop 25 (take body_bytes token)) ++ be_bytes 8 nonce
  expiry : read_token_u64 (take body_bytes token) 9 ≡ ok r.1
  live : now ≤ r.1

check_body-ReadsOff :
    (mac : Mac) (a : ReplayAdmission) (token body tag : List ℕ) (nonce now fingerprint : ℕ)
    → body ≡ take body_bytes token
    → Ensures (ReadsOff token nonce now) (check_body mac a body tag nonce now fingerprint)
unfolding check_body
check_body-ReadsOff mac a token body tag nonce now fingerprint same =
    Ensures_any (replay_token_auth_data body) _ (λ authenticated _.
      Ensures_any (fail_if (not (mac.verify a.key authenticated tag)) invalid_mac) _ (λ _ _.
        Ensures_any (read_token_u64 body 1) _ (λ epoch _.
          Ensures_any (read_token_u64 body 9) _ (λ expires read.
            Ensures_any (read_token_u64 body 17) _ (λ capabilities _.
              Ensures_any (fail_if (not (epoch == a.epoch)) wrong_epoch) _ (λ _ _.
                Ensures_any (fail_if (ltb expires now) expired) _ (λ _ fresh.
                  Ensures_any (fail_if (not (capabilities == fingerprint)) capabilities_changed) _
                    (λ _ _. returned _ (record {
                      attempt = ap (λ b. take 16 (drop 25 b) ++ be_bytes 8 nonce) same;
                      expiry = ap (λ b. read_token_u64 b 9) (sym same) ∙ read;
                      live = ground arith;
                    })))))))))

validated-ReadsOff :
    (mac : Mac) (a : ReplayAdmission) (token : List ℕ) (nonce now fingerprint : ℕ)
    → Ensures (ReadsOff token nonce now) (validated mac a token nonce now fingerprint)
unfolding validated
validated-ReadsOff mac a token nonce now fingerprint =
    Ensures_any (slice_to token body_bytes) _ (λ body sliced.
      Ensures_any (slice_from token body_bytes) _
        (λ tag _. check_body-ReadsOff mac a token body tag nonce now fingerprint (ground arith)))

record_valid-eq_ok :
    (v : Result (List ℕ × ℕ) ReplayTokenError) (a : ReplayAdmission) (now : ℕ)
    → (record_valid v a now).1 ≡ ok tt
    → (r : List ℕ × ℕ) × (v ≡ ok r) × ((record_attempt a r.0 r.1 now).1 ≡ ok tt)
record_valid-eq_ok (err e) a now h = absurd (cc)
record_valid-eq_ok (ok (k, e)) a now h = ((k, e), refl, h)

remembered-refused :
    (a : ReplayAdmission) (k : List ℕ) (e now : ℕ)
    → find_attempt a.attempts k ≡ some e
    → now ≤ e
    → (record_attempt a k e now).1 ≢ ok tt
unfolding record_attempt
remembered-refused a k e now h l ran = ground arith

-- A token and a nonce were admitted. Whatever other attempts follow, at times that do not go back,
-- the same token with the same nonce is not admitted again at the time reached or later.
pub admit_once :
    (mac : Mac) (a : ReplayAdmission) (token : List ℕ) (nonce now fingerprint : ℕ) (later : ℕ)
    (a' : ReplayAdmission) (now' fingerprint' : ℕ)
    → (admit mac a token nonce now fingerprint).1 ≡ ok tt
    → Calls mac now (admit mac a token nonce now fingerprint).0 later a'
    → later ≤ now'
    → (admit mac a' token nonce now' fingerprint').1 ≢ ok tt
unfolding admit
admit_once mac a token nonce now fingerprint later a' now' fingerprint' first calls h again =
    let (r, valid, recorded) =
      record_valid-eq_ok (validated mac a token nonce now fingerprint) a now first in
    let (q, valid', recorded') =
      record_valid-eq_ok (validated mac a' token nonce now' fingerprint') a' now' again in
    let one = Ensures-eq_ok (validated-ReadsOff mac a token nonce now fingerprint) valid in
    let two = Ensures-eq_ok (validated-ReadsOff mac a' token nonce now' fingerprint') valid' in
    let same_key : r.0 ≡ q.0 = one.attempt ∙ sym two.attempt in
    let same_expiry : r.1 ≡ q.1 = ok-injective (sym one.expiry ∙ two.expiry) in
    let kept : Remembers (admit mac a token nonce now fingerprint).0 r.0 r.1 now = λ l.
      ap (λ v. find_attempt (record_valid v a now).0.attempts r.0) valid
      ∙ recorded-Remembers a r.0 r.1 now recorded l in
    let found : find_attempt a'.attempts r.0 ≡ some r.1 =
      Calls-Remembers mac r.0 r.1 calls kept (omega (arith, h, two.live, same_expiry)) in
    remembered-refused a' q.0 q.1 now'
      (ap (find_attempt a'.attempts) (sym same_key) ∙ found ∙ ap some same_expiry) two.live
      recorded'
