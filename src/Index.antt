-- ===== src/Index.antt =====
-- engine/agnostic/index.go: the hash index. It maps the hash of a key's text to one list element; an
-- element is kept here by its address and the tuple that it points to.
pub mod Laws
use ramsql.Base.{
  ℕ, Bool, true, false, ◌&&◌, ◌||◌, Option, none, some, List, [], ◌∷◌, ◌++◌, if◌then◌else◌, map,
}
use ramsql.Base.Bytes.{Bytes, codes, str_eq, dotted}
use ramsql.Base.Table.{Table, find, erase, put}
use ramsql.Base.Outcome.{Outcome, ok, ◌>>=◌}
use ramsql.Value.{Value, nil, Runtime, sprint}
use ramsql.Tuple.{Tuple, value_at}
use ramsql.Attribute.{Attribute}
use ramsql.Predicate.{Predicate, PredicateType, eq, relation_of, type_of, attribute_of}

-- container/list's Element: its identity, and the row that Value points to.
pub record Element : Type 0 where
  pub address : ℕ
  pub tuple : Tuple

pub record HashIndex : Type 0 where
  pub name : Bytes
  pub rel_name : Bytes
  pub rel_attrs : List Bytes
  pub attrs : List ℕ
  pub attrs_name : List Bytes
  pub m : Table Element

unfoldable pub new_hash_index : Bytes → Bytes → List Attribute → List Bytes → List ℕ → HashIndex
new_hash_index name rel_name rel_attrs attrs_name attrs = record {
  name = name;
  rel_name = rel_name;
  rel_attrs = map (λ a. a.name) rel_attrs;
  attrs = attrs;
  attrs_name = attrs_name;
  m = [];
}

-- What is written to the hash for one value.
unfoldable pub key_text : Runtime → Value → Bytes
key_text rt nil = codes "nil"
key_text rt v = sprint rt v

-- What Get writes to the hash: the texts of the values, one after the other.
unfoldable pub key_bytes : Runtime → List Value → Bytes
unfolding key_text
key_bytes rt [] = []
key_bytes rt (v ∷ vs) = key_text rt v ++ key_bytes rt vs

-- t.values[idx] for each idx
unfoldable pub values_at : List Value → List ℕ → Outcome (List Value)
unfolding value_at
values_at vs [] = ok []
values_at vs (i ∷ is) = value_at vs i >>= λ v. values_at vs is >>= λ rest. ok (v ∷ rest)

-- The Sum64 that Add and Remove compute for an element.
unfoldable pub sum_of : Runtime → HashIndex → Tuple → Outcome ℕ
unfolding values_at key_bytes
sum_of rt h t = do vs ← values_at t.values h.attrs; ok (rt.hash (key_bytes rt vs))

unfoldable pub add : Runtime → HashIndex → Element → Outcome HashIndex
unfolding sum_of
add rt h e = do sum ← sum_of rt h e.tuple; ok (record h { m = put sum e h.m })

unfoldable pub remove : Runtime → HashIndex → Element → Outcome HashIndex
unfolding sum_of
remove rt h e = do sum ← sum_of rt h e.tuple; ok (record h { m = erase sum h.m })

unfoldable pub get : Runtime → HashIndex → List Value → Option Element
unfolding key_bytes
get rt h vs = find (rt.hash (key_bytes rt vs)) h.m

unfoldable pub truncate : HashIndex → HashIndex
truncate h = record h { m = [] }

-- l == r || h.relName + "." + l == r for some r
unfoldable pub names_one : Bytes → Bytes → List Bytes → Bool
names_one rel l [] = false
names_one rel l (r ∷ rs) = (str_eq l r || str_eq (dotted rel l) r) || names_one rel l rs

unfoldable pub all_named : Bytes → List Bytes → List Bytes → Bool
unfolding names_one
all_named rel [] rs = true
all_named rel (l ∷ ls) rs = names_one rel l rs && all_named rel ls rs

abbrev is_eq_type : PredicateType → Bool
is_eq_type eq = true
is_eq_type _ = false

-- CanSourceWith; its cost is always 1.
unfoldable pub can_source_with : HashIndex → Predicate → Bool
unfolding all_named
can_source_with h p =
    if str_eq (relation_of p) h.rel_name
    then (if is_eq_type (type_of p)
        then all_named h.rel_name h.attrs_name (attribute_of p)
        else false)
    else false
