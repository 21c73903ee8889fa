-- ===== src/Base/Results.antt =====
-- What a Python call gives back: a value, or the exception that it raised. A method that raises
-- leaves the writes that it made before, so methods return the state beside the result.
use mathlib.Core.Path.{◌≡◌, refl}
use mathlib.Core.Bool.{Bool, true, false}
use mathlib.Core.List.{List, ◌∷◌}
use mathlib.Core.Logic.{◌⊎◌, inl, inr}

-- The exception classes that the modelled code raises or catches.
pub data Error : Type 0 where
  value_error key_error type_error runtime_error empty_buffer expired_instrument expired_position
        not_implemented calibration_error no_implied_vol surface_evaluation neural_error
        price_not_invertible index_error overflow_error zero_division :
      Error

pub data Result {ℓ} (A : Type ℓ) : Type ℓ where
  ok : A → Result A
  err : Error → Result A

pub ok-injective {ℓ} : {A : Type ℓ} {a b : A} → ok a ≡ ok b → a ≡ b
ok-injective h = cc

-- A call of a procedure raised or returned.
pub Result-cases : (r : Result (Unit {0})) → ((e : Error) × (r ≡ err e)) ⊎ (r ≡ ok tt)
Result-cases (err e) = inl (e, refl)
Result-cases (ok tt) = inr refl

-- `if not test: raise exception`
abbrev pub guard : Bool → Error → Result (Unit {0})
guard false exception = err exception
guard true exception = ok tt

-- A call, and what is done with its value unless it raised.
infixl 5 ◌>>=◌
abbrev pub ◌>>=◌ {ℓ ℓ'} : {A : Type ℓ} {B : Type ℓ'} → Result A → (A → Result B) → Result B
err exception >>= next = err exception
ok value >>= next = next value

infixl 5 ◌>>◌
abbrev pub ◌>>◌ {ℓ} : {A : Type ℓ} → Result (Unit {0}) → Result A → Result A
first >> next = first >>= λ done. next

-- What a call that succeeded did before and after.
pub >>=-eq-ok {ℓ ℓ'} :
    {A : Type ℓ} {B : Type ℓ'} (m : Result A) (next : A → Result B) {b : B}
    → (m >>= next) ≡ ok b
    → (a : A) × (m ≡ ok a) × (next a ≡ ok b)
>>=-eq-ok (err exception) next h = cc
>>=-eq-ok (ok value) next h = (value, refl, h)

-- The item that one call gives, before those that a later one gives.
abbrev pub attach {ℓ} : {A : Type ℓ} → Result A → Result (List A) → Result (List A)
attach m later = m >>= λ x. later >>= λ rest. ok (x ∷ rest)

pub attach-eq-ok {ℓ} :
    {A : Type ℓ} (m : Result A) (later : Result (List A)) {xs : List A}
    → attach m later ≡ ok xs
    → (x : A) × (rest : List A) × (m ≡ ok x) × (later ≡ ok rest) × (xs ≡ x ∷ rest)
attach-eq-ok (err exception) later h = cc
attach-eq-ok (ok x) (err exception) h = cc
attach-eq-ok (ok x) (ok rest) h = (x, rest, refl, refl, cc)
