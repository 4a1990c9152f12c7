-- ===== src/Base/Result.antt =====
-- A call that may raise. The exceptions are told apart as far as the handlers' `except` clauses do.
use mathlib.Core.Logic.{◌⊎◌, inl, inr, ◌≢◌}
use native.Mathlib.Omega.{arith}
use mathlib.Core.Path.{◌≡◌, refl}

pub data Exception : Type 0 where
  value_error type_error attribute_error key_error : Exception
  runtime_error broker_error database_error zookeeper_error : Exception

pub data Result {ℓ} (A : Type ℓ) : Type ℓ where
  ok : A → Result A
  raise : Exception → Result A

module _ {ℓ κ} {A : Type ℓ} {B : Type κ} where
  infixl 10 ◌>>=◌
  -- the statements that follow a call run if it returned
  abbrev pub ◌>>=◌ : Result A → (A → Result B) → Result B
  ◌>>=◌ r rest = elim r [ raise e ↦ raise e | ok a ↦ rest a ]

pub Result-cases {ℓ} :
    {A : Type ℓ} (r : Result A) → ((a : A) × (r ≡ ok a)) ⊎ ((e : Exception) × (r ≡ raise e))
Result-cases (ok a) = inl (a, refl)
Result-cases (raise e) = inr (e, refl)

pub raise≢ok {ℓ} : {A : Type ℓ} {a : A} (e : Exception) → raise e ≢ ok a
raise≢ok e h = ground arith
