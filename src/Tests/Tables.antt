-- ===== src/Tests/Tables.antt =====
-- The theorems on transactions and tables at concrete inputs.
use ramsql.Base.{
  Option, inl, zero, suc, ◌≡◌, refl, false, none, some, List, [], ◌∷◌, ◌++◌, arith, get_elem?, All,
}
use ramsql.Base.Bytes.{codes}
use ramsql.Base.Dict.{Dict}
use ramsql.Base.Outcome.{ok, err, aborted, committed, pk_violation}
use ramsql.Value.{Value, str}
use ramsql.Tuple.{Tuple}
use ramsql.Index.{Element, HashIndex, new_hash_index, values_at}
use ramsql.Attribute.{Defaulter, default_now, Attribute, new_attribute}
use ramsql.Relation.{Relation, new_relation, hash_index_type, pk_index, check_primary_key}
use ramsql.Relation.Keys.{CoversRows, IsIndexed}
use ramsql.Relation.Collision.{composite_key_collision}
use ramsql.Store.{new_engine}
use ramsql.Store.Rows.{holds}
use ramsql.Transaction.{Session, new_transaction, commit, rollback}
use ramsql.Transaction.Statements.{
  create_relation, drop_relation, create_schema, drop_schema, create_index, relation_attribute,
  check_schema, check_relation, truncate,
}
use ramsql.Transaction.Aborted.{aborted_inert}
use ramsql.Transaction.Abort.{IsAborted, insert-IsAborted}
use ramsql.Transaction.Undo.{IsFresh}
use ramsql.Transaction.Rollback.{
  Inserts, none_yet, one_more, rollback-Inserts, failed_insert-Inserts,
}
use ramsql.Transaction.Insert.{insert, insert_row}
use ramsql.Transaction.Insert.Keys.{IsKeyed, insert_row-IsKeyed}
use ramsql.Transaction.Stale.{rollback-keys_stay}
use ramsql.Transaction.Typed.{IsTyped, HasSoundDefault, insert_row-IsTyped}
use ramsql.Tests.{runtime, users, user_columns, with_users, ada, ada_row, polynomial, whole_model}

-- A transaction that begins after the table has been committed.
abbrev opened : Session
opened = new_transaction (commit with_users).1.heap

abbrev with_ada : Session
with_ada = (insert runtime [] users ada opened).1

opened-IsFresh : IsFresh opened.heap
unfolding whole_model commit holds
opened-IsFresh zero n h = refl
opened-IsFresh (suc l) n h = refl

abbrev ada_in : Inserts runtime opened with_ada
unfolding whole_model commit
ada_in = one_more with_ada [] users ada ada_row.tuple none_yet refl

opened-live : opened.error ≡ none
unfolding new_transaction
opened-live = refl

opened-clean : opened.changes ≡ []
unfolding new_transaction
opened-clean = refl

rollback-Inserts_example :
    ((rollback with_ada).0 ≡ ok tt)
    × ((rollback with_ada).1.heap.lists ≡ opened.heap.lists)
    × ((rollback with_ada).1.changes ≡ [])
    × ((rollback with_ada).1.locks ≡ [])
rollback-Inserts_example = rollback-Inserts runtime opened-live opened-clean opened-IsFresh ada_in

abbrev twice : Session
twice = (insert runtime [] users ada with_ada).1

refused_twice : insert runtime [] users ada with_ada ≡ (err pk_violation, twice)
unfolding whole_model commit
refused_twice = refl

failed_insert-Inserts_example :
    (twice.heap.lists ≡ opened.heap.lists) × IsAborted pk_violation twice
failed_insert-Inserts_example =
    failed_insert-Inserts runtime twice [] users ada pk_violation opened-live opened-clean
      opened-IsFresh ada_in refused_twice

with_ada-live : with_ada.error ≡ none
unfolding whole_model commit
with_ada-live = refl

insert-IsAborted_example : IsAborted pk_violation twice
insert-IsAborted_example =
    insert-IsAborted runtime [] users ada pk_violation with_ada twice with_ada-live refused_twice

abbrev closed : Session
closed = (commit with_users).1

closed-error : closed.error ≡ some committed
unfolding whole_model commit
closed-error = refl

aborted_inert_example :
    (insert runtime [] users ada closed ≡ (err (aborted committed), closed))
    × (create_relation [] users user_columns [] closed ≡ (err (aborted committed), closed))
    × (drop_relation [] users closed ≡ (err (aborted committed), closed))
    × (create_schema [] closed ≡ (err (aborted committed), closed))
    × (drop_schema [] closed ≡ (err (aborted committed), closed))
    × (create_index [] users users hash_index_type [] closed ≡ (err (aborted committed), closed))
    × (truncate [] users closed ≡ (err (aborted committed), closed))
    × (relation_attribute [] users users closed ≡ (err (aborted committed), closed))
    × (commit closed ≡ (err (aborted committed), closed))
    × (rollback closed ≡ (ok tt, closed))
    × (check_schema [] closed ≡ false)
    × (check_relation [] users closed ≡ false)
aborted_inert_example =
    aborted_inert closed committed closed-error runtime [] users users ada user_columns []
      hash_index_type

abbrev made : Relation
made = new_relation (codes "public") users user_columns (codes "id" ∷ []) 0

-- The table object at address 0 of a session, and the index of its key.
abbrev table : Session → Relation
table s = elim (get_elem? s.heap.relations 0) [ none ↦ made | some o ↦ o ]

abbrev no_index : HashIndex
no_index = new_hash_index [] [] [] [] []

abbrev key_index : Session → HashIndex
key_index s = elim (pk_index (table s).indexes) [ none ↦ no_index | some h ↦ h ]

abbrev nothing_indexed : All (IsIndexed runtime (key_index opened)) []
nothing_indexed = tt

opened-IsKeyed : IsKeyed runtime 0 opened
unfolding whole_model commit
opened-IsKeyed = record {
  o = table opened;
  h = key_index opened;
  at = refl;
  has_key = λ p. ground (arith, p);
  in_range = omega arith;
  covers = record { is_pk = refl; same_attrs = refl; covers = nothing_indexed };
}

abbrev row_in : Session
row_in = (insert_row runtime 0 ada opened).1

row_in_run : insert_row runtime 0 ada opened ≡ (ok ada_row.tuple, row_in)
unfolding whole_model commit
row_in_run = refl

insert_row-IsKeyed_example : IsKeyed runtime 0 row_in
insert_row-IsKeyed_example =
    insert_row-IsKeyed runtime 0 ada opened row_in ada_row.tuple opened-IsKeyed row_in_run

opened-table : get_elem? opened.heap.relations 0 ≡ some (table opened)
unfolding whole_model commit
opened-table = refl

-- A table of two text columns, which are its key.
abbrev pair_columns : List Attribute
pair_columns =
    new_attribute (codes "a") (codes "text") ∷ new_attribute (codes "b") (codes "text") ∷ []

abbrev pairs : Session
pairs =
    (create_relation [] users pair_columns (codes "a" ∷ codes "b" ∷ [])
      (new_transaction new_engine)).1

abbrev split_late : Dict Value
split_late = (codes "a", str (codes "xy")) ∷ (codes "b", str (codes "z")) ∷ []

abbrev filled : Session
filled = (insert runtime [] users split_late pairs).1

abbrev late_tuple : Tuple
late_tuple = record { values = str (codes "xy") ∷ str (codes "z") ∷ [] }

abbrev early_tuple : Tuple
early_tuple = record { values = str (codes "x") ∷ str (codes "yz") ∷ [] }

abbrev late_row : Element
late_row = record { address = 0; tuple = late_tuple }

late_row-IsIndexed : IsIndexed runtime (key_index filled) late_row
unfolding whole_model
late_row-IsIndexed = (polynomial (codes "xyz"), refl, refl)

filled-CoversRows : CoversRows runtime (table filled) (key_index filled) (late_row ∷ [])
unfolding whole_model
filled-CoversRows = record { is_pk = refl; same_attrs = refl; covers = (late_row-IsIndexed, tt) }

filled-key : (table filled).pk ≡ [] → ⊥
unfolding whole_model
filled-key p = ground (arith, p)

late_row-key :
    values_at late_row.tuple.values (table filled).pk
    ≡ ok (str (codes "x" ++ codes "y") ∷ str (codes "z") ∷ [])
unfolding whole_model
late_row-key = refl

early_tuple-key :
    values_at early_tuple.values (table filled).pk
    ≡ ok (str (codes "x") ∷ str (codes "y" ++ codes "z") ∷ [])
unfolding whole_model
early_tuple-key = refl

composite_key_collision_example : check_primary_key runtime (table filled) early_tuple ≡ ok false
composite_key_collision_example =
    composite_key_collision runtime (table filled) (key_index filled) (late_row ∷ []) late_row
      early_tuple (codes "x") (codes "y") (codes "z") filled-CoversRows filled-key
      late_row-IsIndexed late_row-key early_tuple-key

with_ada-table : get_elem? with_ada.heap.relations 0 ≡ some (table with_ada)
unfolding whole_model commit
with_ada-table = refl

rollback-keys_stay_example :
    (p : Relation) × (get_elem? (rollback with_ada).1.heap.relations 0 ≡ some p)
    × ((t : Tuple) → check_primary_key runtime p t ≡ check_primary_key runtime (table with_ada) t)
rollback-keys_stay_example =
    rollback-keys_stay runtime 0 (table with_ada) opened-live opened-clean opened-IsFresh ada_in
      with_ada-table

-- The key of a row that was rolled back: the table is empty, and the row is refused.
abbrev again : Session
again = (insert runtime [] users ada (new_transaction (rollback with_ada).1.heap)).1

refused_again :
    insert runtime [] users ada (new_transaction (rollback with_ada).1.heap)
    ≡ (err pk_violation, again)
unfolding whole_model commit
refused_again = refl

no_defaults : All HasSoundDefault (table opened).attributes
unfolding whole_model commit
no_defaults = (inl none_not_now, (inl none_not_now, tt))
  where
    none_not_now : ◌≡◌ {A = Option Defaulter} none (some default_now) → ⊥
    none_not_now p = ground (arith, p)

insert_row-IsTyped_example : IsTyped (table opened).attributes ada_row.tuple.values
insert_row-IsTyped_example =
    insert_row-IsTyped runtime 0 ada opened row_in ada_row.tuple (table opened) opened-table
      no_defaults row_in_run

-- CREATE TABLE users and ROLLBACK in a new engine.
abbrev begun : Session
begun = new_transaction new_engine
