-- ===== src/Value/Laws.antt =====
-- How the comparisons of predicate.go relate to one another.
use ramsql.Base.{◌≡◌, refl, Bool, true, false, not, arith}
use ramsql.Base.Outcome.{Outcome, ok, err, panic, blocked}
use ramsql.Value.{Value, nil, kind, Runtime}
use ramsql.Value.Compare.{equal, unequal, less, greater, at_most, at_least, same_kind}

-- NotPredicate.Eval on the outcome of its source.
abbrev pub negated : Outcome Bool → Outcome Bool
negated (ok b) = ok (not b)
negated (err e) = err e
negated panic = panic
negated blocked = blocked

module _ (rt : Runtime) where
  -- `!=` is the negation of `=` on every pair of values, the null and the error cases included.
  pub unequal-negated : (a b : Value) → unequal rt a b ≡ negated (equal rt a b)
  unfolding unequal equal
  unequal-negated nil b = ground arith
  unequal-negated _ b = ground arith

  -- On two values of the same kind `>=` is `<=` with its sides exchanged, and `<` is `>` with its
  -- sides exchanged.
  exchange :
      (a b : Value)
      → same_kind (kind a) (kind b) ≡ true
      → (at_least rt a b ≡ at_most rt b a) × (less rt a b ≡ greater rt b a)
  unfolding at_least at_most less greater kind same_kind
  exchange nil b h = ground arith
  exchange _ b h = ground arith

  -- For a value that is not null, `NULL < value` is false and `value > NULL` is true.
  null_asymmetry :
      (a : Value) → (a ≡ nil → ⊥) → (less rt nil a ≡ ok false) × (greater rt a nil ≡ ok true)
  unfolding less greater
  null_asymmetry nil h = absurd (h refl)
  null_asymmetry _ h = (refl, refl)
