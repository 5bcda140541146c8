-- ===== src/Value/Compare.antt =====
-- The comparisons of engine/agnostic/predicate.go: `equal`, `greater`, and the switches in the Eval
-- methods of the predicates >=, <=, < and !=.
use ramsql.Base.{ℕ, Bool, true, false, not, Option, none, some, ◌==◌, if◌then◌else◌}
use ramsql.Base.Int.{ℤ, eqb_ℤ, ltb_ℤ, leb_ℤ}
use ramsql.Base.{ltb, leb}
use ramsql.Base.Bytes.{Bytes, codes, str_eq, str_lt}
use ramsql.Base.Outcome.{Outcome, ok, err, not_comparable}
use ramsql.Value.{
  Value, nil, boolean, int, uint, float, str, time, Kind, invalid, bool, int64, uint64, float64,
  string, struct, kind, Runtime,
}

-- l.Kind() == r.Kind()
unfoldable pub same_kind : Kind → Kind → Bool
same_kind invalid invalid = true
same_kind bool bool = true
same_kind int64 int64 = true
same_kind uint64 uint64 = true
same_kind float64 float64 = true
same_kind string string = true
same_kind struct struct = true
same_kind _ _ = false

-- reflect's String(): the text of a string, and "<T Value>" of a value of another type T.
unfoldable pub reflect_string : Value → Bytes
reflect_string nil = codes "<invalid Value>"
reflect_string (boolean b) = codes "<bool Value>"
reflect_string (int n) = codes "<int64 Value>"
reflect_string (uint n) = codes "<uint64 Value>"
reflect_string (float x) = codes "<float64 Value>"
reflect_string (str s) = s
reflect_string (time t) = codes "<time.Time Value>"

-- CanInt and Int, CanUint and Uint, CanFloat and Float, Bool, and the assertion to time.Time.
abbrev pub as_int : Value → Option ℤ
as_int (int n) = some n
as_int _ = none

abbrev pub as_uint : Value → Option ℕ
as_uint (uint n) = some n
as_uint _ = none

abbrev pub as_float : Value → Option ℕ
as_float (float x) = some x
as_float _ = none

abbrev pub as_bool : Value → Option Bool
as_bool (boolean b) = some b
as_bool _ = none

abbrev pub as_time : Value → Option ℕ
as_time (time t) = some t
as_time _ = none

abbrev pub eqb : Bool → Bool → Bool
eqb true b = b
eqb false b = not b

-- `test a b` if the right value has the type that is asked for, and an error otherwise.
abbrev pub compared {ℓ} : {A : Type ℓ} → Option A → (A → Bool) → Outcome Bool
compared none test = err not_comparable
compared (some b) test = ok (test b)

module _ (rt : Runtime) where
  -- reflect's Equal on two values of one kind; a time.Time is compared as a structure.
  unfoldable pub reflect_equal : Value → Value → Bool
  reflect_equal (boolean a) (boolean b) = eqb a b
  reflect_equal (int a) (int b) = eqb_ℤ a b
  reflect_equal (uint a) (uint b) = a == b
  reflect_equal (float a) (float b) = rt.float_eq a b
  reflect_equal (str a) (str b) = str_eq a b
  reflect_equal (time a) (time b) = a == b
  reflect_equal nil nil = true
  reflect_equal _ _ = false

  -- the switch of `equal` on the kind of the left value, which is not nil
  unfoldable pub equal_mixed : Value → Value → Outcome Bool
  unfolding reflect_string
  equal_mixed nil r = err not_comparable
  equal_mixed (boolean a) r = compared (as_bool r) (eqb a)
  equal_mixed (int a) r = compared (as_int r) (eqb_ℤ a)
  equal_mixed (uint a) r = compared (as_uint r) (λ b. a == b)
  equal_mixed (float a) r = compared (as_float r) (rt.float_eq a)
  equal_mixed (str a) r = ok (str_eq a (reflect_string r))
  equal_mixed (time a) r = compared (as_time r) (λ b. eqb_ℤ (rt.unix a) (rt.unix b))

  unfoldable pub equal : Value → Value → Outcome Bool
  unfolding same_kind kind reflect_equal equal_mixed
  equal nil nil = ok true
  equal nil r = ok false
  equal l nil = ok false
  equal l r = if same_kind (kind l) (kind r) then ok (reflect_equal l r) else equal_mixed l r

  -- the switch of NeqPredicate.Eval on the kind of the left value
  unfoldable pub unequal_mixed : Value → Value → Outcome Bool
  unfolding reflect_string
  unequal_mixed nil r = err not_comparable
  unequal_mixed (boolean a) r = compared (as_bool r) (λ b. not (eqb a b))
  unequal_mixed (int a) r = compared (as_int r) (λ b. not (eqb_ℤ a b))
  unequal_mixed (uint a) r = compared (as_uint r) (λ b. not (a == b))
  unequal_mixed (float a) r = compared (as_float r) (λ b. not (rt.float_eq a b))
  unequal_mixed (str a) r = ok (not (str_eq a (reflect_string r)))
  unequal_mixed (time a) r = compared (as_time r) (λ b. not (eqb_ℤ (rt.unix a) (rt.unix b)))

  -- NeqPredicate.Eval
  unfoldable pub unequal : Value → Value → Outcome Bool
  unfolding same_kind kind reflect_equal unequal_mixed
  unequal nil nil = ok false
  unequal nil r = ok true
  unequal l nil = ok true
  unequal l r =
      if same_kind (kind l) (kind r) then ok (not (reflect_equal l r)) else unequal_mixed l r

  -- `greater`, which GePredicate and the ORDER BY sorter call
  unfoldable pub greater : Value → Value → Outcome Bool
  unfolding reflect_string
  greater nil r = ok false
  greater l nil = ok true
  greater (boolean a) r = err not_comparable
  greater (int a) r = compared (as_int r) (λ b. ltb_ℤ b a)
  greater (uint a) r = compared (as_uint r) (λ b. ltb b a)
  greater (float a) r = compared (as_float r) (λ b. rt.float_lt b a)
  greater (str a) r = ok (str_lt (reflect_string r) a)
  greater (time a) r = compared (as_time r) (rt.after a)

  -- GeqPredicate.Eval
  unfoldable pub at_least : Value → Value → Outcome Bool
  unfolding reflect_string
  at_least nil nil = ok true
  at_least nil r = ok false
  at_least l nil = ok false
  at_least (boolean a) r = err not_comparable
  at_least (int a) r = compared (as_int r) (λ b. leb_ℤ b a)
  at_least (uint a) r = compared (as_uint r) (λ b. leb b a)
  at_least (float a) r = compared (as_float r) (λ b. rt.float_le b a)
  at_least (str a) r = ok (not (str_lt a (reflect_string r)))
  at_least (time a) r = compared (as_time r) (λ b. leb_ℤ (rt.unix b) (rt.unix a))

  -- LeqPredicate.Eval
  unfoldable pub at_most : Value → Value → Outcome Bool
  unfolding reflect_string
  at_most nil nil = ok true
  at_most nil r = ok false
  at_most l nil = ok false
  at_most (boolean a) r = err not_comparable
  at_most (int a) r = compared (as_int r) (λ b. leb_ℤ a b)
  at_most (uint a) r = compared (as_uint r) (λ b. leb a b)
  at_most (float a) r = compared (as_float r) (λ b. rt.float_le a b)
  at_most (str a) r = ok (not (str_lt (reflect_string r) a))
  at_most (time a) r = compared (as_time r) (λ b. leb_ℤ (rt.unix a) (rt.unix b))

  -- LePredicate.Eval; time.Before(u) is After with its arguments exchanged
  unfoldable pub less : Value → Value → Outcome Bool
  unfolding reflect_string
  less nil r = ok false
  less l nil = ok false
  less (boolean a) r = err not_comparable
  less (int a) r = compared (as_int r) (λ b. ltb_ℤ a b)
  less (uint a) r = compared (as_uint r) (λ b. ltb a b)
  less (float a) r = compared (as_float r) (λ b. rt.float_lt a b)
  less (str a) r = ok (str_lt a (reflect_string r))
  less (time a) r = compared (as_time r) (λ b. rt.after b a)
