-- ===== src/Store.antt =====
-- engine/agnostic/engine.go, schema.go and container/list: the objects that transactions share, each
-- kind in a list indexed by its address.
pub mod Rows
use ramsql.Base.{
  ℕ, suc, ◌+◌, Bool, true, false, Option, none, some, List, [], ◌∷◌, ◌++◌, length, get_elem?, set,
  if◌then◌else◌,
}
use ramsql.Base.Bytes.{Bytes, codes, str_eq}
use ramsql.Base.Dict
use ramsql.Base.Dict.{Dict, lookup}
use ramsql.Base.Outcome.{Outcome, ok, err, panic, schema_missing, schema_exists, relation_missing}
use ramsql.Base.Exec.{Exec, pure, raise, lift, gets, deref, modify, ◌>>=◌, ◌>>◌}
use ramsql.Attribute.{Attribute}
use ramsql.Index.{Element}
use ramsql.Relation.{Relation, new_relation}

pub record Schema : Type 0 where
  pub name : Bytes
  pub relations : Dict ℕ

-- Engine.schemas maps a name to the address of a schema. `next` is the address of the next element.
pub record Heap : Type 0 where
  pub lists : List (List Element)
  pub next : ℕ
  pub relations : List Relation
  pub schemas : List Schema
  pub engine : Dict ℕ

abbrev pub default_schema : Bytes
default_schema = codes "public"

-- NewEngine
unfoldable pub new_engine : Heap
new_engine = record {
  lists = [];
  next = 0;
  relations = [];
  schemas = record { name = default_schema; relations = [] } ∷ [];
  engine = (default_schema, 0) ∷ [];
}

abbrev pub schema_name : Bytes → Bytes
schema_name [] = default_schema
schema_name (c ∷ s) = c ∷ s

-- Engine.schema
unfoldable pub find_schema : Bytes → Heap → Outcome ℕ
find_schema name g = elim (lookup (schema_name name) g.engine) [
  | none ↦ err (schema_missing (schema_name name))
  | some s ↦ ok s
]

-- Schema.Relation
unfoldable pub schema_relation : ℕ → Bytes → Heap → Outcome ℕ
schema_relation s name g = elim (get_elem? g.schemas s) [
  | none ↦ panic
  | some o ↦ elim (lookup name o.relations) [ none ↦ err (relation_missing name) | some r ↦ ok r ]
]

abbrev pub change_schema : ℕ → (Schema → Schema) → Heap → Heap
change_schema s f g = elim (get_elem? g.schemas s) [
  | none ↦ g
  | some o ↦ record g { schemas = set g.schemas s (f o) }
]

-- Schema.Add
unfoldable pub schema_add : ℕ → Bytes → ℕ → Heap → Heap
schema_add s name r = change_schema s (λ o. record o { relations = Dict.insert name r o.relations })

-- Schema.Remove, on the side of the map; what it returns is `schema_relation`
unfoldable pub schema_remove : ℕ → Bytes → Heap → Heap
schema_remove s name = change_schema s (λ o. record o { relations = Dict.delete name o.relations })

-- A read of the heap that may fail.
abbrev pub reads {ℓ} : {A : Type ℓ} → (Heap → Outcome A) → Heap → Outcome A × Heap
reads f g = (f g, g)

-- A new relation object with a new, empty list of rows.
unfoldable pub allocate_relation : Bytes → Bytes → List Attribute → List Bytes → Heap → Heap
unfolding new_relation
allocate_relation schema name attributes pk g = record g {
  lists = g.lists ++ [] ∷ [];
  relations = g.relations ++ new_relation schema name attributes pk (length g.lists) ∷ [];
}

-- The addresses of the schema and of the relation.
unfoldable pub create_relation : Bytes → Bytes → List Attribute → List Bytes → Exec Heap (ℕ × ℕ)
unfolding find_schema schema_add allocate_relation
create_relation schema name attributes pk = do
  s ← reads (find_schema schema)
  r ← gets (λ g. length g.relations)
  modify (allocate_relation schema name attributes pk)
  modify (schema_add s name r)
  pure (s, r)

unfoldable pub drop_relation : Bytes → Bytes → Exec Heap (ℕ × ℕ)
unfolding find_schema schema_relation schema_remove
drop_relation schema name = do
  s ← reads (find_schema schema)
  r ← reads (schema_relation s name)
  modify (schema_remove s name)
  pure (s, r)

unfoldable pub create_schema : Bytes → Exec Heap ℕ
create_schema name g = elim (lookup name g.engine) [
  | some s ↦ (err (schema_exists name), g)
  | none ↦
      let s = length g.schemas in
      (
        ok s,
        record g {
          schemas = g.schemas ++ record { name = name; relations = [] } ∷ [];
          engine = Dict.insert name s g.engine;
        },
      )
]

unfoldable pub drop_schema : Bytes → Exec Heap ℕ
drop_schema name g = elim (lookup name g.engine) [
  | none ↦ (err (schema_missing name), g)
  | some s ↦ (ok s, record g { engine = Dict.delete name g.engine })
]
