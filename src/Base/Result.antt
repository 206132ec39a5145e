-- ===== src/Base/Result.antt =====
-- C++ exceptions: a call returns a value or throws one of the standard exceptions with its
-- message.
use lark.Base.{◌≡◌, refl, Text}

pub data Exception : Type 0 where
  invalid_argument : Text → Exception
  out_of_range : Text → Exception
  runtime_error : Text → Exception

pub data Result {ℓ} (A : Type ℓ) : Type ℓ where
  done : A → Result A
  throw : Exception → Result A

infixl 5 ◌>>=◌ ◌>>◌
abbrev pub ◌>>=◌ {ℓ κ} : {A : Type ℓ} {B : Type κ} → Result A → (A → Result B) → Result B
done a >>= f = f a
throw e >>= f = throw e

abbrev pub ◌>>◌ {ℓ} : {B : Type ℓ} → Result (Unit {0}) → Result B → Result B
m >> k = m >>= λ _. k

-- Inversion of a successful bind.
pub >>=-eq-done {ℓ κ} :
    {A : Type ℓ} {B : Type κ} (m : Result A) (f : A → Result B) {b : B}
    → (m >>= f) ≡ done b
    → (a : A) × (m ≡ done a) × (f a ≡ done b)
>>=-eq-done (done a) f h = (a, refl, h)
>>=-eq-done (throw e) f h = cc
