-- ===== src/Base/Outcome.antt =====
-- What a call of the program comes to: a value, or the exception that it throws.
use mathlib.Core.Path.{◌≡◌, refl, ap}
use mathlib.Core.Logic.{◌⊎◌, inl, inr}
use mathlib.Core.Bool.{Bool}
use soro_pool.Base.Tests.{if◌then◌else◌}

-- The messages thrown under src/, and the kinds that the language itself throws: `SyntaxError` by
-- `BigInt(text)`, `RangeError` by a division by 0n, `TypeError` by arithmetic on a missing value.
pub data Error : Type 0 where
  invalid_input insufficient_output insufficient_liquidity zero_liquidity : Error
  negative_input invalid_tick invalid_price price_too_low : Error
  syntax_error range_error type_error : Error
  not_found unauthorized no_wallet : Error
  -- what the validation of a request's body answers
  bad_request : Error
  -- thrown by no code: a loop of the model that was given too few rounds
  out_of_rounds : Error

pub data Result {ℓ} (A : Type ℓ) : Type ℓ where
  ok : A → Result A
  err : Error → Result A

pub Result-cases {ℓ} :
    {A : Type ℓ} (r : Result A) → ((e : Error) × (r ≡ err e)) ⊎ ((a : A) × (r ≡ ok a))
Result-cases (ok a) = inr (a, refl)
Result-cases (err e) = inl (e, refl)

ok_value {ℓ} : {A : Type ℓ} → A → Result A → A
ok_value d (ok a) = a
ok_value d (err e) = d

pub ok-injective {ℓ} : {A : Type ℓ} {a b : A} → ok a ≡ ok b → a ≡ b
unfolding ok_value
ok-injective {a} e = ap (ok_value a) e

-- A thrown exception skips what follows.
infixl 5 ◌>>=◌
abbrev pub ◌>>=◌ {ℓ κ} : {X : Type ℓ} {Y : Type κ} → Result X → (X → Result Y) → Result Y
err thrown >>= next = err thrown
ok value >>= next = next value

pub >>=-eq-ok {ℓ κ} :
    {X : Type ℓ} {Y : Type κ} (m : Result X) (next : X → Result Y) {y : Y}
    → (m >>= next) ≡ ok y
    → (x : X) × (m ≡ ok x) × (next x ≡ ok y)
>>=-eq-ok (err thrown) next h = cc
>>=-eq-ok (ok value) next h = (value, refl, h)

-- `if (c) throw e`
abbrev pub throw_if : Bool → Error → Result (Unit {0})
throw_if c e = if c then err e else ok tt

infixl 5 ◌>>◌
abbrev pub ◌>>◌ {ℓ} : {Y : Type ℓ} → Result (Unit {0}) → Result Y → Result Y
m >> rest = m >>= λ done. rest
