-- ===== src/Tests/Values.antt =====
-- The theorems on values, predicates, conversions and indexes at concrete inputs.
use ramsql.Base.{◌≡◌, refl, true, false, List, [], ◌∷◌}
use ramsql.Base.Int.{pos}
use ramsql.Base.Bytes.{Bytes, codes, str_lt}
use ramsql.Base.Outcome.{Outcome, ok}
use ramsql.Value.{Value, nil, int, str, string}
use ramsql.Value.Compare.{equal, unequal, greater}
use ramsql.Value.Laws.{negated, unequal-negated}
use ramsql.Value.Order.{greater_chain}
use ramsql.Tuple.{value_at}
use ramsql.Predicate.{Predicate, conj, disj, neg, truth, comparison, is_eq, const, attribute, eval}
use ramsql.Predicate.Laws.{de_morgan}
use ramsql.Index.{HashIndex, values_at, add}
use ramsql.Tests.{runtime, users, ada_row}

unequal-negated_example :
    unequal runtime nil (int (pos 1)) ≡ negated (equal runtime nil (int (pos 1)))
unequal-negated_example = unequal-negated runtime nil (int (pos 1))

greater_chain_example :
    (greater runtime (str (codes "c")) (str (codes "a")) ≡ ok true)
    × (greater runtime (str (codes "a")) (str (codes "c")) ≡ ok false)
greater_chain_example =
    greater_chain runtime string (str (codes "c")) (str (codes "b")) (str (codes "a")) tt tt tt
      (unfold greater str_lt in refl) (unfold greater str_lt in refl)

abbrev named_ada : Predicate
named_ada = comparison is_eq (attribute users (codes "name")) (const (str (codes "ada")))

abbrev two_names : List Bytes
two_names = codes "id" ∷ codes "name" ∷ []

de_morgan_example :
    (eval runtime two_names ada_row.tuple (neg (conj named_ada truth))
      ≡ eval runtime two_names ada_row.tuple (disj (neg named_ada) (neg truth)))
    × (eval runtime two_names ada_row.tuple (neg (disj named_ada truth))
        ≡ eval runtime two_names ada_row.tuple (conj (neg named_ada) (neg truth)))
    × (eval runtime two_names ada_row.tuple (neg (neg named_ada))
        ≡ eval runtime two_names ada_row.tuple named_ada)
de_morgan_example = de_morgan runtime two_names ada_row.tuple named_ada truth

abbrev id_index : HashIndex
id_index = record {
  name = codes "pk";
  rel_name = users;
  rel_attrs = two_names;
  attrs = 0 ∷ [];
  attrs_name = codes "id" ∷ [];
  m = [];
}

abbrev index_of : Outcome HashIndex → HashIndex
index_of (ok h) = h
index_of _ = id_index

abbrev one_key : List Value
one_key = int (pos 1) ∷ []

ada_row-key : values_at ada_row.tuple.values (0 ∷ []) ≡ ok one_key
unfolding values_at value_at
ada_row-key = refl

abbrev full_index : HashIndex
full_index = index_of (add runtime id_index ada_row)
