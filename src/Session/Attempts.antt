-- ===== src/Session/Attempts.antt =====
-- The cache of attempts of src/session.rs: the map's laws, its bound, and that an error leaves it
-- as it was.
use quicp.Prelude.{
  ℕ, suc, ◌≤◌, ◌≡◌, refl, ap, ◌∙◌, false, Bool-cases, inl, inr, some, List, [], ◌∷◌, Result, ok,
  err, leb, if◌then◌else◌, if_of_both, length, same_bytes, same_bytes_refl, same_bytes→eq, arith,
}
use quicp.Session.{
  Mac, ReplayAdmission, ReplayTokenError, find_attempt, insert_attempt, retain_attempts,
  record_attempt, record_valid, validated, admit,
}

abbrev Attempts : Type 0
Attempts = List (List ℕ × ℕ)

pub find-insert_self :
    (m : Attempts) (k : List ℕ) (e : ℕ) → find_attempt (insert_attempt m k e) k ≡ some e
unfolding find_attempt insert_attempt
find-insert_self [] k e = rw (same_bytes_refl k) refl
find-insert_self ((j, w) ∷ r) k e = ground (arith, find-insert_self r k e)

pub find-insert_ne :
    (m : Attempts) (k j : List ℕ) (e : ℕ)
    → same_bytes k j ≡ false
    → find_attempt (insert_attempt m k e) j ≡ find_attempt m j
unfolding find_attempt insert_attempt
find-insert_ne [] k j e h = rw h refl
find-insert_ne ((i, w) ∷ r) k j e h =
    if_of_both (λ m. find_attempt m j ≡ (if same_bytes i j then some w else find_attempt r j))
      (same_bytes i k)
      (λ t.
        let same : i ≡ k = same_bytes→eq i k t in
        let other : same_bytes i j ≡ false = ap (λ x. same_bytes x j) same ∙ h in rw other refl)
      (λ t. ap (λ o. if same_bytes i j then some w else o) (find-insert_ne r k j e h))

pub find-retain :
    (m : Attempts) (k : List ℕ) (e now : ℕ)
    → find_attempt m k ≡ some e
    → now ≤ e
    → find_attempt (retain_attempts m now) k ≡ some e
unfolding find_attempt retain_attempts
find-retain [] k e now h l = absurd (cc)
find-retain ((j, w) ∷ r) k e now h l = ground (arith, find-retain r k e now)

length-insert : (m : Attempts) (k : List ℕ) (e : ℕ) → length (insert_attempt m k e) ≤ suc (length m)
unfolding insert_attempt
length-insert [] k e = omega arith
length-insert ((j, w) ∷ r) k e = ground (arith, length-insert r k e)

length-retain : (m : Attempts) (now : ℕ) → length (retain_attempts m now) ≤ length m
unfolding retain_attempts
length-retain [] now = omega arith
length-retain ((j, w) ∷ r) now = ground (arith, length-retain r now)

-- What does not get shorter was not changed.
retain-full :
    (m : Attempts) (now : ℕ) → length (retain_attempts m now) ≡ length m → retain_attempts m now ≡ m
unfolding retain_attempts
retain-full [] now h = refl
retain-full ((j, w) ∷ r) now h = elim (Bool-cases (leb now w)) [
  | inl e ↦ rw e (
      ap (λ t. (j, w) ∷ t)
        (retain-full r now
          (let n : length (retain_attempts r now) ≡ length r = ground (arith, h, e) in n)))
  | inr e ↦ absurd (ground (arith, h, e, length-retain r now))
]

pub record_attempt-bound :
    (a : ReplayAdmission) (k : List ℕ) (e now : ℕ)
    → length a.attempts ≤ a.max_attempts
    → length (record_attempt a k e now).0.attempts ≤ (record_attempt a k e now).0.max_attempts
unfolding record_attempt
record_attempt-bound a k e now h = ground (
  arith,
  length-insert a.attempts k e,
  length-retain a.attempts now,
  length-insert (retain_attempts a.attempts now) k e,
)

record_attempt-unchanged :
    (a : ReplayAdmission) (k : List ℕ) (e now : ℕ) (r : ReplayTokenError)
    → (record_attempt a k e now).1 ≡ err r
    → (record_attempt a k e now).0.attempts ≡ a.attempts
unfolding record_attempt
record_attempt-unchanged a k e now r h = ground (arith, retain-full a.attempts now)

-- Whatever the token: an attempt that is refused, also for want of room, leaves the cache as it was.
pub admit-unchanged :
    (mac : Mac) (a : ReplayAdmission) (token : List ℕ) (nonce now fingerprint : ℕ)
    (e : ReplayTokenError)
    → (admit mac a token nonce now fingerprint).1 ≡ err e
    → (admit mac a token nonce now fingerprint).0.attempts ≡ a.attempts
unfolding admit
admit-unchanged mac a token nonce now fingerprint e h =
    record_valid-unchanged (validated mac a token nonce now fingerprint) a now e h
  where
    record_valid-unchanged :
        (v : Result (List ℕ × ℕ) ReplayTokenError) (a : ReplayAdmission) (now : ℕ)
        (e : ReplayTokenError)
        → (record_valid v a now).1 ≡ err e
        → (record_valid v a now).0.attempts ≡ a.attempts
    record_valid-unchanged (err x) a now e h = refl
    record_valid-unchanged (ok (k, t)) a now e h = record_attempt-unchanged a k t now e h

pub admit-bound :
    (mac : Mac) (a : ReplayAdmission) (token : List ℕ) (nonce now fingerprint : ℕ)
    → length a.attempts ≤ a.max_attempts
    → length (admit mac a token nonce now fingerprint).0.attempts
      ≤ (admit mac a token nonce now fingerprint).0.max_attempts
unfolding admit
admit-bound mac a token nonce now fingerprint h =
    record_valid-bound (validated mac a token nonce now fingerprint) a now h
  where
    record_valid-bound :
        (v : Result (List ℕ × ℕ) ReplayTokenError) (a : ReplayAdmission) (now : ℕ)
        → length a.attempts ≤ a.max_attempts
        → length (record_valid v a now).0.attempts ≤ (record_valid v a now).0.max_attempts
    record_valid-bound (err x) a now h = h
    record_valid-bound (ok (k, t)) a now h = record_attempt-bound a k t now h
