-- ===== src/Prelude/Outcomes.antt =====
-- What holds of the value of a fallible computation, if it returns one.
use mathlib.Core.Path.{◌≡◌, refl}
use mathlib.Core.Path.{subst}
use quicp.Prelude.Results.{Result, ok, err, and_then}

pub data Ensures {ℓ} {A E : Type ℓ} (P : A → Type ℓ) : Result A E → Type ℓ where
  returned : (a : A) → P a → Ensures P (ok a)
  failed : (e : E) → Ensures P (err e)

pub Ensures_then :
    {A B E : Type 0} {P : A → Type 0} {Q : B → Type 0} (m : Result A E) (f : A → Result B E)
    → Ensures P m
    → ((a : A) → P a → Ensures Q (f a))
    → Ensures Q (and_then m f)
Ensures_then m f (returned a p) k = k a p
Ensures_then m f (failed e) k = failed e

-- Nothing is asked of the first part.
pub Ensures_any :
    {A B E : Type 0} {Q : B → Type 0} (m : Result A E) (f : A → Result B E)
    → ((a : A) → m ≡ ok a → Ensures Q (f a))
    → Ensures Q (and_then m f)
Ensures_any (ok a) f k = k a refl
Ensures_any (err e) f k = failed e

pub Ensures_mono :
    {A E : Type 0} {P Q : A → Type 0} {m : Result A E}
    → Ensures P m
    → ((a : A) → P a → Q a)
    → Ensures Q m
Ensures_mono (returned a p) k = returned a (k a p)
Ensures_mono (failed e) k = failed e

abbrev Holds : {A E : Type 0} → (A → Type 0) → Result A E → Type 0
Holds P (ok a) = P a
Holds P (err e) = Unit {0}

Ensures-Holds : {A E : Type 0} {P : A → Type 0} {m : Result A E} → Ensures P m → Holds P m
Ensures-Holds (returned a p) = p
Ensures-Holds (failed e) = tt

pub Ensures-eq_ok :
    {A E : Type 0} {P : A → Type 0} {m : Result A E} {a : A} → Ensures P m → m ≡ ok a → P a
Ensures-eq_ok {P} h e = subst (Holds P) e (Ensures-Holds h)

pub Ensures_of :
    {A E : Type 0} {P : A → Type 0} (m : Result A E) → ((a : A) → m ≡ ok a → P a) → Ensures P m
Ensures_of (ok a) k = returned a (k a refl)
Ensures_of (err e) k = failed e
