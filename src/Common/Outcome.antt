-- ===== src/Common/Outcome.antt =====
-- A Go result pair `(value, error)`: either the value or the error.
use mathlib.Core.Path.{◌≡◌, refl}
use mathlib.Core.Bool.{Bool, true, false}

pub data Result {ℓ} (E : Type 0) (A : Type ℓ) : Type ℓ where
  ok : A → Result E A
  err : E → Result E A

infixl 5 ◌>>=◌ ◌>>◌
abbrev pub ◌>>=◌ {ℓ κ} :
    {E : Type 0} {A : Type ℓ} {B : Type κ} → Result E A → (A → Result E B) → Result E B
ok a >>= f = f a
err e >>= f = err e

abbrev pub ◌>>◌ {ℓ} : {E : Type 0} {B : Type ℓ} → Result E (Unit {0}) → Result E B → Result E B
m >> k = m >>= λ _. k

-- `if test { return err }`
abbrev pub reject_if : {E : Type 0} → Bool → E → Result E (Unit {0})
reject_if true e = err e
reject_if false e = ok tt

-- A chain that succeeds has succeeded at each step.
pub >>=-eq-ok {ℓ κ} :
    {E : Type 0} {A : Type ℓ} {B : Type κ} (first : Result E A) (next : A → Result E B) {out : B}
    → first >>= next ≡ ok out
    → (mid : A) × (first ≡ ok mid) × (next mid ≡ ok out)
>>=-eq-ok (err failure) next done = cc
>>=-eq-ok (ok mid) next done = (mid, refl, done)

pub reject_if-eq-ok :
    {E : Type 0} (test : Bool) (e : E) {u : Unit {0}} → reject_if test e ≡ ok u → test ≡ false
reject_if-eq-ok true e h = cc
reject_if-eq-ok false e h = refl

-- A chain past its first guard.
pub guard-eq-ok {ℓ} :
    {E : Type 0} {A : Type ℓ} (test : Bool) (e : E) (rest : Result E A) {a : A}
    → (reject_if test e >> rest) ≡ ok a
    → (test ≡ false) × (rest ≡ ok a)
guard-eq-ok true e rest h = cc
guard-eq-ok false e rest h = (refl, h)
