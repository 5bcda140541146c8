-- ===== src/Predicate.antt =====
-- The value functors and the predicates of engine/agnostic/predicate.go. The subquery of an IN
-- predicate is given by the outcome of its Exec, which the predicate runs once and keeps.
pub mod Laws
use ramsql.Base.{
  ℕ, Bool, true, false, not, ◌&&◌, ◌||◌, Option, none, some, List, [], ◌∷◌, ◌++◌, if◌then◌else◌,
}
use ramsql.Base.Bytes.{Bytes, str_eq, dotted}
use ramsql.Base.Outcome.{Outcome, ok, err, panic, blocked, Error, not_comparable, ◌>>=◌}
use ramsql.Value.{Value, nil, time, Runtime}
use ramsql.Value.Compare.{equal, unequal, greater, at_least, at_most, less}
use ramsql.Tuple.{Tuple, value_at, column_where}

-- ConstValueFunctor, AttributeValueFunctor and NowValueFunctor
pub data Functor : Type 0 where
  const : Value → Functor
  attribute : Bytes → Bytes → Functor
  current_time : Functor

-- c == aname || c == rname + "." + aname
abbrev pub names_column : Bytes → Bytes → Bytes → Bool
names_column rname aname c = str_eq c aname || str_eq c (dotted rname aname)

unfoldable pub value : Runtime → Functor → List Bytes → Tuple → Outcome Value
unfolding value_at column_where
value rt (const v) cols t = ok v
value rt (attribute rname aname) cols t = elim (column_where (names_column rname aname) cols) [
  | none ↦ ok nil
  | some i ↦ value_at t.values i
]
value rt current_time cols t = ok (time rt.now)

abbrev pub functor_relation : Functor → Bytes
functor_relation (attribute rname aname) = rname
functor_relation _ = []

abbrev pub functor_attribute : Functor → List Bytes
functor_attribute (attribute rname aname) = aname ∷ []
functor_attribute _ = []

pub data PredicateType : Type 0 where
  and or eq geq leq le ge neq like in_ not_ true_ false_ : PredicateType

-- The six predicates that compare two functors.
pub data Comparison : Type 0 where
  is_eq is_geq is_leq is_le is_ge is_neq : Comparison

pub data Predicate : Type 0 where
  truth falsity : Predicate
  conj disj : Predicate → Predicate → Predicate
  neg : Predicate → Predicate
  comparison : Comparison → Functor → Functor → Predicate
  among : Functor → Outcome (List Tuple) → Predicate

-- NewComparisonPredicate
unfoldable pub new_comparison : Functor → PredicateType → Functor → Outcome Predicate
new_comparison l eq r = ok (comparison is_eq l r)
new_comparison l geq r = ok (comparison is_geq l r)
new_comparison l leq r = ok (comparison is_leq l r)
new_comparison l le r = ok (comparison is_le l r)
new_comparison l ge r = ok (comparison is_ge l r)
new_comparison l neq r = ok (comparison is_neq l r)
new_comparison l _ r = err not_comparable

-- Type(). OrPredicate answers And.
unfoldable pub type_of : Predicate → PredicateType
type_of truth = true_
type_of falsity = false_
type_of (conj p q) = and
type_of (disj p q) = and
type_of (neg p) = not_
type_of (comparison is_eq l r) = eq
type_of (comparison is_geq l r) = geq
type_of (comparison is_leq l r) = leq
type_of (comparison is_le l r) = le
type_of (comparison is_ge l r) = ge
type_of (comparison is_neq l r) = neq
type_of (among f rows) = in_

-- Relation()
unfoldable pub relation_of : Predicate → Bytes
relation_of truth = []
relation_of falsity = []
relation_of (conj p q) = let l = relation_of p in if str_eq l (relation_of q) then l else []
relation_of (disj p q) = let l = relation_of p in if str_eq l (relation_of q) then l else []
relation_of (neg p) = relation_of p
relation_of (comparison c l r) =
    if str_eq (functor_relation l) [] then functor_relation r else functor_relation l
relation_of (among f rows) = functor_relation f

-- Attribute()
unfoldable pub attribute_of : Predicate → List Bytes
attribute_of truth = []
attribute_of falsity = []
attribute_of (conj p q) = attribute_of p ++ attribute_of q
attribute_of (disj p q) = attribute_of p ++ attribute_of q
attribute_of (neg p) = attribute_of p
attribute_of (comparison c l r) = functor_attribute l ++ functor_attribute r
attribute_of (among f rows) = functor_attribute f

-- The test of each comparison predicate on the two values.
unfoldable pub test_values : Runtime → Comparison → Value → Value → Outcome Bool
test_values rt is_eq a b = equal rt a b
test_values rt is_geq a b = at_least rt a b
test_values rt is_leq a b = at_most rt a b
test_values rt is_le a b = less rt a b
test_values rt is_ge a b = greater rt a b
test_values rt is_neq a b = unequal rt a b

-- The loop of InPredicate.Eval over the rows of the subquery.
unfoldable pub any_equal : Runtime → Value → List Tuple → Outcome Bool
unfolding value_at
any_equal rt lv [] = ok false
any_equal rt lv (t ∷ ts) =
    let rest = any_equal rt lv ts in
    value_at t.values 0 >>= λ rv. equal rt lv rv >>= λ same. if same then ok true else rest

unfoldable pub eval : Runtime → List Bytes → Tuple → Predicate → Outcome Bool
unfolding value test_values any_equal
eval rt cols t truth = ok true
eval rt cols t falsity = ok false
eval rt cols t (conj p q) = do
  l ← eval rt cols t p
  r ← eval rt cols t q
  if l && r then ok true else ok false
eval rt cols t (disj p q) = do
  l ← eval rt cols t p
  r ← eval rt cols t q
  if l || r then ok true else ok false
eval rt cols t (neg p) = do e ← eval rt cols t p; ok (not e)
eval rt cols t (comparison c l r) = do
  a ← value rt l cols t
  b ← value rt r cols t
  test_values rt c a b
eval rt cols t (among f rows) = do ts ← rows; lv ← value rt f cols t; any_equal rt lv ts
