-- ===== src/Transaction/Values.antt =====
-- The loop of Transaction.Insert over the attributes: the values of the new tuple.
use ramsql.Base.{
  ℕ, ◌+◌, ◌%◌, ◌^◌, Bool, true, false, Option, none, some, List, [], ◌∷◌, get_elem?, set,
  if◌then◌else◌,
}
use ramsql.Base.Bytes.{Bytes}
use ramsql.Base.Dict
use ramsql.Base.Dict.{Dict, lookup}
use ramsql.Base.Outcome.{
  Outcome, ok, err, panic, blocked, cannot_assign, no_value, not_unique, ◌>>=◌,
}
use ramsql.Base.Exec.{Exec}
use ramsql.Value.{Value, nil, uint, kind, Runtime}
use ramsql.Attribute.{Attribute, convertible, convert, default_of}
use ramsql.Index.{HashIndex, can_source_with, get}
use ramsql.Predicate.{Predicate, comparison, is_eq, attribute}
use ramsql.Relation.{Relation}

-- The predicate of the unicity check: the attribute equals itself.
abbrev pub self_equal : Bytes → Bytes → Predicate
self_equal rel name = comparison is_eq (attribute rel name) (attribute rel name)

-- The loop over the indexes of the relation: some index that serves the attribute has the value.
unfoldable pub taken : Runtime → Bytes → Bytes → Value → List HashIndex → Bool
taken rt rel name v [] = false
taken rt rel name v (h ∷ hs) =
    let rest = taken rt rel name v hs in
    if can_source_with h (self_equal rel name)
    then elim (get rt h (v ∷ [])) [ none ↦ rest | some e ↦ true ]
    else rest

unfoldable pub check_unique : Runtime → Relation → Attribute → Value → Outcome (Unit {0})
unfolding taken
check_unique rt r a v =
    if a.unique
    then (if taken rt r.name a.name v r.indexes then err (not_unique a.name) else ok tt)
    else ok tt

-- r.attributes[i].nextValue++
unfoldable pub bump : ℕ → Relation → Relation
bump i r = elim (get_elem? r.attributes i) [
  | none ↦ r
  | some a ↦ record r {
    attributes = set r.attributes i (record a { next_value = (a.next_value + 1) % 2 ^ 64 });
  }
]

-- A value that the statement gives: nil is taken as it is.
unfoldable pub given_value : Runtime → Relation → Attribute → Value → Outcome Value
unfolding check_unique
given_value rt r a nil = ok nil
given_value rt r a v =
    if convertible (kind v) a.type_instance
    then (check_unique rt r a v >>= λ done. convert rt v a.type_instance)
    else err (cannot_assign a.name)

-- One attribute: its value, and whether the counter of the attribute moves.
unfoldable pub attribute_value :
    Runtime → Relation → Attribute → Option Value → Outcome (Value × Bool)
unfolding given_value
attribute_value rt r a (some v) = given_value rt r a v >>= λ w. ok (w, false)
attribute_value rt r a none = elim a.default_value [
  | some d ↦ default_of rt a d >>= λ w. ok (w, false)
  | none ↦
      if a.auto_increment
      then (convert rt (uint a.next_value) a.type_instance >>= λ w. ok (w, true))
      else err (no_value a.name)
]

-- The loop over the attributes from position i on: the values of the tuple, the entries of the map
-- that are left, and the relation with its counters. An error keeps the counters that have moved.
unfoldable pub build_tuple :
    Runtime → ℕ → List Attribute → Dict Value → Exec Relation (List Value × Dict Value)
unfolding attribute_value
build_tuple rt i [] given r = (ok ([], given), r)
build_tuple rt i (a ∷ as') given r = elim (attribute_value rt r a (lookup a.name given)) [
  | err e ↦ (err e, r)
  | panic ↦ (panic, r)
  | blocked ↦ (blocked, r)
  | ok (v, moved) ↦
      let (rest, r') =
        build_tuple rt (i + 1) as' (Dict.delete a.name given) (if moved then bump i r else r) in
      (rest >>= (λ (vs, left). ok (v ∷ vs, left)), r')
]
