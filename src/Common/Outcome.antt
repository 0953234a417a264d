-- ===== src/Common/Outcome.antt =====
-- What a C++ call does: it returns, throws, has undefined behaviour, or is still running when its
-- fuel is used up. The source's exceptions are one data type.
use Prim.Native.Nat.{ℕ}
use mathlib.Core.Path.{◌≡◌, refl}

pub data Exception : Type 0 where
  var_int_too_big : Exception
  packet_too_large : ℕ → Exception
  length_error : Exception
  system_error : Exception
  out_of_range : Exception

pub data Outcome {ℓ} (A : Type ℓ) : Type ℓ where
  ok : A → Outcome A
  throws : Exception → Outcome A
  undefined : Outcome A
  endless : Outcome A

infixl 5 ◌>>=◌ ◌>>◌
abbrev pub ◌>>=◌ {ℓ κ} : {A : Type ℓ} {B : Type κ} → Outcome A → (A → Outcome B) → Outcome B
ok a >>= f = f a
throws e >>= f = throws e
undefined >>= f = undefined
endless >>= f = endless

abbrev pub ◌>>◌ {ℓ} : {B : Type ℓ} → Outcome (Unit {0}) → Outcome B → Outcome B
m >> k = m >>= λ _. k

pub >>=-ok {ℓ κ μ} :
    {A : Type ℓ} {B : Type κ} {C : Type μ} (m : Outcome A) (f : A → B) (g : B → Outcome C)
    → (m >>= λ a. ok (f a)) >>= g ≡ (m >>= λ a. g (f a))
>>=-ok (ok a) f g = refl
>>=-ok (throws e) f g = refl
>>=-ok undefined f g = refl
>>=-ok endless f g = refl
