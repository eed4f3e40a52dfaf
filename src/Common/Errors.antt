-- ===== src/Common/Errors.antt =====
-- The exceptions that the services throw, as values, with `do` blocks.
use mathlib.Core.Option.{Option, none, some}
use mathlib.Core.Path.{◌≡◌, refl}
use mathlib.Core.Logic.{◌⊎◌, inl, inr}
use mathlib.Core.Bool.{Bool, true, false}

-- NestJS's exception classes by their HTTP status; `plain` is JavaScript's `Error`.
pub data Error : Type 0 where
  bad_request unauthorized forbidden not_found conflict gone plain : Error

pub data Result {ℓ} (T : Type ℓ) : Type ℓ where
  raise : Error → Result T
  ok : T → Result T

infixl 5 ◌>>=◌ ◌>>◌
abbrev pub ◌>>=◌ {ℓ ℓ'} : {S : Type ℓ} {T : Type ℓ'} → Result S → (S → Result T) → Result T
raise error >>= next = raise error
ok value >>= next = next value

abbrev pub ◌>>◌ {ℓ} : {T : Type ℓ} → Result (Unit {0}) → Result T → Result T
check >> rest = check >>= λ done. rest

-- `if (refused) throw e`
abbrev pub throw_if : Bool → Error → Result (Unit {0})
throw_if true e = raise e
throw_if false e = ok tt

-- `if (!o) throw e`
abbrev pub require {ℓ} : {A : Type ℓ} → Option A → Error → Result A
require none e = raise e
require (some a) e = ok a

pub Result-cases {ℓ} :
    {A : Type ℓ} (r : Result A) → ((a : A) × (r ≡ ok a)) ⊎ ((e : Error) × (r ≡ raise e))
Result-cases (ok a) = inl (a, refl)
Result-cases (raise e) = inr (e, refl)

pub ok-injective {ℓ} : {A : Type ℓ} {a b : A} → ok a ≡ ok b → a ≡ b
ok-injective p = cc

-- A chain that succeeds has a first part that does.
pub >>=-eq-ok {ℓ ℓ'} :
    {S : Type ℓ} {T : Type ℓ'} {t : T} (first : Result S) (next : S → Result T)
    → (first >>= next) ≡ ok t
    → (value : S) × (first ≡ ok value) × (next value ≡ ok t)
>>=-eq-ok (raise error) next e = cc
>>=-eq-ok (ok value) next e = (value, refl, e)
