-- ===== src/Base/Calls.antt =====
-- How a Go call ends: with a value, with a returned error, or with a panic (a failed
-- `common.Assert`, a call of `panic`, an index out of range).
use mathlib.Core.Path.{◌≡◌, refl}
use mathlib.Core.Bool.{Bool, true, false}
use mathlib.Core.Option.{Option, none, some}

pub data Run {ℓ} (E : Type 0) (A : Type ℓ) : Type ℓ where
  ok : A → Run E A
  err : E → Run E A
  panic : Run E A

infixl 5 ◌>>◌ ◌>>=◌
abbrev pub ◌>>=◌ {ℓ κ} : {E : Type 0} {A : Type ℓ} {B : Type κ} → Run E A → (A → Run E B) → Run E B
panic >>= f = panic
err e >>= f = err e
ok a >>= f = f a

abbrev pub ◌>>◌ {κ} : {E : Type 0} {B : Type κ} → Run E (Unit {0}) → Run E B → Run E B
m >> k = m >>= λ _. k

-- common.Assert
abbrev pub assert : {E : Type 0} → Bool → Run E (Unit {0})
assert true = ok tt
assert false = panic

-- an early return of an error
abbrev pub fail_if : {E : Type 0} → Bool → E → Run E (Unit {0})
fail_if true e = err e
fail_if false e = ok tt

-- `xs[i]` with `get_elem? xs i`
abbrev pub or_panic {ℓ} : {E : Type 0} {A : Type ℓ} → Option A → Run E A
or_panic none = panic
or_panic (some a) = ok a

module _ {E : Type 0} where
  -- a sequence of calls returns a value only if both calls do
  pub >>=-eq-ok {ℓ κ} :
      {A : Type ℓ} {B : Type κ} (call : Run E A) (rest : A → Run E B) {res : B}
      → call >>= rest ≡ ok res
      → (mid : A) × (call ≡ ok mid) × (rest mid ≡ ok res)
  >>=-eq-ok panic rest run = cc
  >>=-eq-ok (err e) rest run = cc
  >>=-eq-ok (ok mid) rest run = (mid, refl, run)
