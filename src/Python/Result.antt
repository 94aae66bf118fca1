-- ===== src/Python/Result.antt =====
-- Exceptions as values. What was written before a `raise` stays written, so an action hands the
-- state on beside the error too.
use pondsecndr.Prelude.{String, Bool, if◌then◌else◌, ◌≡◌, ◌⊎◌, inl, inr, refl, arith}

-- `ResponseDenied`, `NormalizationError`, and the errors of Python and of its database that the code
-- may meet.
pub data Error : Type 0 where
  response_denied : String → Error
  normalization_error : String → Error
  type_error : Error
  attribute_error : Error
  integrity_error : Error
  value_error : Error
  overflow_error : Error

pub data Result {ℓ} (A : Type ℓ) : Type ℓ where
  ok : A → Result A
  raise : Error → Result A

-- To split on a computed result and keep the equation.
pub Result-cases {ℓ} :
    {A : Type ℓ} (r : Result A) → ((a : A) × (r ≡ ok a)) ⊎ ((e : Error) × (r ≡ raise e))
Result-cases (ok a) = inl (a, refl)
Result-cases (raise e) = inr (e, refl)

-- What comes after a statement that may raise, as `do` reads it.
module _ {ℓ} {B : Type ℓ} where
  infixl 5 ◌>>=◌
  abbrev pub ◌>>=◌ {κ} : {A : Type κ} → Result A → (A → Result B) → Result B
  raise error >>= continue = raise error
  ok result >>= continue = continue result

  infixl 5 ◌>>◌
  abbrev pub ◌>>◌ : Result (Unit {0}) → Result B → Result B
  raise error >> continue = raise error
  ok _ >> continue = continue

-- What a chain that returned went through.
pub >>=-eq-ok {ℓ κ} :
    {A : Type ℓ} {B : Type κ} (r : Result A) (f : A → Result B) {b : B}
    → (r >>= f) ≡ ok b
    → (a : A) × (r ≡ ok a) × (f a ≡ ok b)
>>=-eq-ok (ok a) f h = (a, refl, h)
>>=-eq-ok (raise e) f h = absurd (ground (arith, h))

pub >>-eq-ok {ℓ} :
    {B : Type ℓ} (r : Result (Unit {0})) (s : Result B) {b : B} → (r >> s) ≡ ok b → s ≡ ok b
>>-eq-ok (ok _) s h = h
>>-eq-ok (raise e) s h = absurd (ground (arith, h))

pub ok-injective {ℓ} : {A : Type ℓ} {a b : A} → ok a ≡ ok b → a ≡ b
ok-injective h = cc

-- `if test: raise error`
abbrev pub deny : Bool → Error → Result (Unit {0})
deny test error = if test then raise error else ok tt

-- An action on a state.
abbrev pub Action {ℓ} : Type ℓ → Type ℓ → Type ℓ
Action S A = S → Result A × S

module _ {ℓ} {S A B : Type ℓ} where
  -- What follows a step that returned or raised.
  abbrev pub and_then : Result A → (A → Action S B) → Action S B
  and_then (ok a) f s = f a s
  and_then (raise e) f s = (raise e, s)

  abbrev pub run : Result A × S → (A → Action S B) → Result B × S
  run (r, s) f = and_then r f s
