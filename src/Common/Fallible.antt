-- ===== src/Common/Fallible.antt =====
-- Go's `(T, error)`: a value, or an error of the component's own type.
use mathlib.Core.Path.{◌≡◌, refl}
use mathlib.Core.Bool.{Bool, true, false}

pub data Result (E : Type 0) (A : Type 0) : Type 0 where
  ok : A → Result E A
  err : E → Result E A

abbrev pub Check : Type 0 → Type 0
Check E = Result E (Unit {0})

infixl 5 ◌>>=◌ ◌>>◌
abbrev pub ◌>>=◌ : {E A B : Type 0} → Result E A → (A → Result E B) → Result E B
ok a >>= f = f a
err e >>= f = err e

abbrev pub ◌>>◌ : {E B : Type 0} → Check E → Result E B → Result E B
m >> k = m >>= λ _. k

-- `if cond { return err }`.
abbrev pub fail_if : {E : Type 0} → Bool → E → Check E
fail_if true e = err e
fail_if false e = ok tt

pub >>-eq-ok :
    {E B : Type 0} (m : Check E) (k : Result E B) {b : B}
    → (m >> k) ≡ ok b
    → (m ≡ ok tt) × (k ≡ ok b)
>>-eq-ok (ok tt) k h = (refl, h)
>>-eq-ok (err e) k h = cc
