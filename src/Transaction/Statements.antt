-- ===== src/Transaction/Statements.antt =====
-- The statements of engine/agnostic/transaction.go on schemas and relations, and the checks that
-- look one up.
use ramsql.Base.{ℕ, Bool, true, false, none, some, List, [], ◌∷◌, ◌++◌, length, set, if◌then◌else◌}
use ramsql.Base.Bytes.{Bytes}
use ramsql.Base.Outcome.{Outcome, ok, blocked}
use ramsql.Base.Exec.{Exec, lift, modify, ◌>>=◌, ◌>>◌}
use ramsql.Attribute.{Attribute}
use ramsql.Index
use ramsql.Index.{Element}
use ramsql.Relation
use ramsql.Relation.{Relation, IndexType}
use ramsql.Store
use ramsql.Store.{Heap, find_schema, schema_relation, schema_add, schema_remove}
use ramsql.Base.{map}
use ramsql.Transaction.{
  Session, on_heap, look, change_heap, check_aborted, set_relation, relation_at, lock, list_at,
  or_abort, push_change, relation_change, schema_change,
}

-- CheckRelation and CheckSchema answer false in an aborted transaction.
abbrev answers {ℓ} : {A : Type ℓ} → Outcome A → Bool
answers (ok a) = true
answers _ = false

unfoldable pub check_schema : Bytes → Session → Bool
unfolding check_aborted
check_schema name s = elim s.error [ some e ↦ false | none ↦ answers (find_schema name s.heap) ]

unfoldable pub check_relation : Bytes → Bytes → Session → Bool
check_relation schema name s = elim s.error [
  | some e ↦ false
  | none ↦ answers ((do o ← look (find_schema schema); look (schema_relation o name)) s).0
]

unfoldable pub create_relation : Bytes → Bytes → List Attribute → List Bytes → Exec Session Unit
create_relation schema name attributes pk = do
  check_aborted
  (s, r) ← or_abort (on_heap (Store.create_relation schema name attributes pk))
  push_change (relation_change s (some r) none)
  lock r

unfoldable pub drop_relation : Bytes → Bytes → Exec Session Unit
drop_relation schema name = do
  check_aborted
  (s, r) ← or_abort (on_heap (Store.drop_relation schema name))
  push_change (relation_change s none (some r))

unfoldable pub create_schema : Bytes → Exec Session Unit
create_schema name = do
  check_aborted
  s ← or_abort (on_heap (Store.create_schema name))
  push_change (schema_change (some s) none)

unfoldable pub drop_schema : Bytes → Exec Session Unit
drop_schema name = do
  check_aborted
  s ← or_abort (on_heap (Store.drop_schema name))
  push_change (schema_change none (some s))

-- t.e.schema(schema) and s.Relation(relation)
unfoldable pub find_relation : Bytes → Bytes → Exec Session ℕ
find_relation schema name = do s ← look (find_schema schema); look (schema_relation s name)

unfoldable pub create_index : Bytes → Bytes → Bytes → IndexType → List Bytes → Exec Session Unit
create_index schema relation name type attrs = do
  check_aborted
  r ← find_relation schema relation
  lock r
  o ← relation_at r
  o' ← lift (Relation.create_index o name type attrs)
  modify (change_heap (set_relation r o'))

-- Relation.Truncate takes the relation's lock itself, and makes a new list.
unfoldable pub truncate_relation : ℕ → Relation → Exec Session ℕ
truncate_relation r o s = if o.locked then (blocked, s) else (
  ok (length (list_at o.rows s.heap)),
  change_heap
      (λ g. record g {
        lists = g.lists ++ [] ∷ [];
        relations =
            set g.relations r
              (record o { rows = length g.lists; indexes = map Index.truncate o.indexes });
      })
      s,
)

unfoldable pub truncate : Bytes → Bytes → Exec Session ℕ
truncate schema relation = do
  check_aborted
  r ← find_relation schema relation
  o ← relation_at r
  truncate_relation r o

unfoldable pub relation_attribute : Bytes → Bytes → Bytes → Exec Session (ℕ × Attribute)
relation_attribute schema relation name = do
  check_aborted
  r ← find_relation schema relation
  o ← relation_at r
  lift (Relation.attribute o name)
