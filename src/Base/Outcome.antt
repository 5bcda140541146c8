-- ===== src/Base/Outcome.antt =====
-- What a Go call comes to: a value, an error value, a panic, or a wait for a lock that nobody gives
-- back.
use ramsql.Base.Bytes.{Bytes}

-- The errors of the program, by the place that makes them. `aborted` wraps the first error.
pub data Error : Type 0 where
  not_comparable column_not_found different_cardinals tuple_mismatch nil_tuple : Error
  schema_missing schema_exists relation_missing relation_exists attribute_missing : Bytes → Error
  cannot_assign no_value not_unique unknown_attribute : Bytes → Error
  pk_violation pk_index_missing element_not_in_rows no_predicate no_join not_implemented : Error
  committed syntax_error unexpected_end cannot_lex malformed : Error
  aborted : Error → Error

pub data Outcome {ℓ} (A : Type ℓ) : Type ℓ where
  ok : A → Outcome A
  err : Error → Outcome A
  panic : Outcome A
  blocked : Outcome A

infixl 5 ◌>>=◌ ◌>>◌
abbrev pub ◌>>=◌ {ℓ κ} : {A : Type ℓ} {B : Type κ} → Outcome A → (A → Outcome B) → Outcome B
ok a >>= f = f a
err e >>= f = err e
panic >>= f = panic
blocked >>= f = blocked

abbrev pub ◌>>◌ {ℓ} : {B : Type ℓ} → Outcome (Unit {0}) → Outcome B → Outcome B
m >> k = m >>= λ _. k

-- The call returns a value, and the value satisfies P.
abbrev pub Returns {ℓ} : {A : Type ℓ} → (A → Type 0) → Outcome A → Type 0
Returns P (ok a) = P a
Returns P (err e) = ⊥
Returns P panic = ⊥
Returns P blocked = ⊥

-- The call does not return an error.
abbrev pub NoErr {ℓ} : {A : Type ℓ} → Outcome A → Type 0
NoErr (err e) = ⊥
NoErr _ = Unit
