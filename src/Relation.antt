-- ===== src/Relation.antt =====
-- engine/agnostic/relation.go: a table, without the list of its rows, which is given by its address.
pub mod Keys
pub mod Collision
use ramsql.Base.{
  ℕ, zero, suc, ◌+◌, Bool, true, false, Option, none, some, List, [], ◌∷◌, ◌++◌, get_elem?,
  if◌then◌else◌, map,
}
use ramsql.Base.Bytes.{Bytes, codes, str_eq, has_prefix, to_lower}
use ramsql.Base.Dict.{Dict, lookup, insert}
use ramsql.Base.Outcome.{
  Outcome, ok, err, panic, attribute_missing, pk_index_missing, not_implemented, ◌>>=◌,
}
use ramsql.Value.{Value, Runtime}
use ramsql.Tuple.{Tuple}
use ramsql.Attribute.{Attribute}
use ramsql.Index.{Element, HashIndex, new_hash_index, values_at, get}
use ramsql.Index

pub record Relation : Type 0 where
  pub name : Bytes
  pub schema : Bytes
  pub attributes : List Attribute
  pub attr_index : Dict ℕ
  pub pk : List ℕ
  pub rows : ℕ
  pub indexes : List HashIndex
  -- held by a transaction
  pub locked : Bool

-- for i, a := range r.attributes { r.attrIndex[a.name] = i }
unfoldable pub index_attributes : ℕ → List Attribute → Dict ℕ → Dict ℕ
index_attributes i [] d = d
index_attributes i (a ∷ as') d = index_attributes (i + 1) as' (insert a.name i d)

-- r.attrIndex[k], which is 0 for a name that is not there
abbrev pub index_or_zero : Dict ℕ → Bytes → ℕ
index_or_zero d k = elim (lookup k d) [ none ↦ 0 | some i ↦ i ]

abbrev pub qualified : Bytes → Bytes → Bytes → Bytes
qualified prefix schema name = prefix ++ (schema ++ (b'_' ∷ name))

-- One index for each attribute that is unique.
unfoldable pub unique_indexes : Bytes → Bytes → List Attribute → ℕ → List Attribute → List HashIndex
unfolding new_hash_index
unique_indexes schema name all i [] = []
unique_indexes schema name all i (a ∷ as') =
    let rest = unique_indexes schema name all (i + 1) as' in
    if a.unique
    then new_hash_index (qualified (codes "unique_") schema (name ++ (b'_' ∷ a.name))) name all
        (a.name ∷ []) (i ∷ [])
      ∷ rest
    else rest

-- If a primary key is given, its index.
unfoldable pub pk_indexes : Bytes → Bytes → List Attribute → List Bytes → List ℕ → List HashIndex
unfolding new_hash_index
pk_indexes schema name all pk [] = []
pk_indexes schema name all pk (k ∷ ks) =
    new_hash_index (qualified (codes "pk_") schema name) name all pk (k ∷ ks) ∷ []

unfoldable pub new_relation : Bytes → Bytes → List Attribute → List Bytes → ℕ → Relation
unfolding index_attributes unique_indexes pk_indexes
new_relation schema name attributes pk rows =
    let attr_index = index_attributes 0 attributes [] in
    let keys = map (index_or_zero attr_index) pk in
    record {
      name = name;
      schema = schema;
      attributes = attributes;
      attr_index = attr_index;
      pk = keys;
      rows = rows;
      indexes =
          pk_indexes schema name attributes pk keys
          ++ unique_indexes schema name attributes 0 attributes;
      locked = false;
    }

-- The first index whose name begins with "pk".
unfoldable pub pk_index : List HashIndex → Option HashIndex
pk_index [] = none
pk_index (h ∷ hs) = if has_prefix h.name (codes "pk") then some h else pk_index hs

abbrev pub is_free : Option Element → Bool
is_free none = true
is_free (some e) = false

-- The key part of CheckPrimaryKey, where there is a primary key.
unfoldable pub check_key : Runtime → Option HashIndex → List ℕ → Tuple → Outcome Bool
check_key rt none pk t = err pk_index_missing
check_key rt (some h) pk t = do vals ← values_at t.values pk; ok (is_free (get rt h vals))

unfoldable pub check_primary_key : Runtime → Relation → Tuple → Outcome Bool
unfolding pk_index check_key
check_primary_key rt r t = elim r.pk [
  | [] ↦ ok true
  | k ∷ ks ↦ check_key rt (pk_index r.indexes) r.pk t
]

-- Attribute(name)
unfoldable pub attribute : Relation → Bytes → Outcome (ℕ × Attribute)
attribute r name = elim (lookup (to_lower name) r.attr_index) [
  | none ↦ err (attribute_missing (to_lower name))
  | some i ↦ elim (get_elem? r.attributes i) [ none ↦ panic | some a ↦ ok (i, a) ]
]

pub data IndexType : Type 0 where
  hash_index_type btree_index_type : IndexType

-- the positions of the named attributes; a name that is not there is passed over
unfoldable pub position_of : Bytes → ℕ → List Attribute → Option ℕ
position_of n i [] = none
position_of n i (a ∷ as') = if str_eq n a.name then some i else position_of n (i + 1) as'

unfoldable pub positions_of : List Bytes → List Attribute → List ℕ
unfolding position_of
positions_of [] attrs = []
positions_of (n ∷ ns) attrs = elim (position_of n 0 attrs) [
  | none ↦ positions_of ns attrs
  | some i ↦ i ∷ positions_of ns attrs
]

unfoldable pub create_index : Relation → Bytes → IndexType → List Bytes → Outcome Relation
unfolding positions_of new_hash_index
create_index r name hash_index_type attrs = ok (record r {
  indexes =
      r.indexes
      ++ new_hash_index name r.name r.attributes attrs (positions_of attrs r.attributes) ∷ [];
})
create_index r name btree_index_type attrs = err not_implemented

-- index.Add(e) for every index
unfoldable pub add_all : Runtime → List HashIndex → Element → Outcome (List HashIndex)
add_all rt [] e = ok []
add_all rt (h ∷ hs) e = Index.add rt h e >>= λ h'. add_all rt hs e >>= λ hs'. ok (h' ∷ hs')

unfoldable pub remove_all : Runtime → List HashIndex → Element → Outcome (List HashIndex)
remove_all rt [] e = ok []
remove_all rt (h ∷ hs) e = Index.remove rt h e >>= λ h'. remove_all rt hs e >>= λ hs'. ok (h' ∷ hs')
