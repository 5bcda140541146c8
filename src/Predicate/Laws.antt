-- ===== src/Predicate/Laws.antt =====
-- The logic of the predicates: negation and the connectives.
use ramsql.Base.{◌≡◌, Bool, not, List, arith, ◌∙◌}
use ramsql.Base.Bytes.{Bytes}
use ramsql.Base.Outcome.{Outcome, ok, ◌>>=◌}
use ramsql.Value.{Value, nil, Runtime}
use ramsql.Value.Laws.{negated, unequal-negated}
use ramsql.Value.Compare.{equal}
use ramsql.Tuple.{Tuple}
use ramsql.Predicate.{
  Predicate, conj, disj, neg, comparison, is_eq, is_neq, Functor, value, test_values, eval,
}

negated-bind : (m : Outcome Bool) → negated m ≡ (m >>= λ e. ok (not e))
negated-bind m = ground arith

test_values-neq :
    (rt : Runtime) (a b : Value)
    → test_values rt is_neq a b ≡ (test_values rt is_eq a b >>= λ e. ok (not e))
unfolding test_values
test_values-neq rt a b = unequal-negated rt a b ∙ negated-bind (equal rt a b)

abbrev returned : Outcome Value → Value
returned (ok v) = v
returned _ = nil

module _ (rt : Runtime) (cols : List Bytes) (t : Tuple) where
  -- De Morgan's laws hold as equations of outcomes: values, errors and panics agree.
  pub de_morgan :
      (p q : Predicate)
      → (eval rt cols t (neg (conj p q)) ≡ eval rt cols t (disj (neg p) (neg q)))
        × (eval rt cols t (neg (disj p q)) ≡ eval rt cols t (conj (neg p) (neg q)))
        × (eval rt cols t (neg (neg p)) ≡ eval rt cols t p)
  unfolding eval
  de_morgan p q = (ground arith, ground arith, ground arith)

  -- `l != r` is `NOT l = r`, whatever the two sides come to.
  neq-neg_eq :
      (l r : Functor)
      → eval rt cols t (comparison is_neq l r) ≡ eval rt cols t (neg (comparison is_eq l r))
  unfolding eval
  neq-neg_eq l r =
      ground
        (arith, test_values-neq rt (returned (value rt l cols t)) (returned (value rt r cols t)))
