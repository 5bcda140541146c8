-- ===== src/Tests/Modifying.antt =====
-- The theorems on conditions, deletes and rollbacks at concrete inputs.
use ramsql.Base.{◌≡◌, ◌≢◌, refl, inr, Bool, true, none, some, List, [], ◌∷◌, get_elem?, arith}
use ramsql.Base.Int.{pos}
use ramsql.Base.Bytes.{Bytes, codes, contains_byte}
use ramsql.Base.Dict.{lookup}
use ramsql.Base.Outcome.{Outcome, ok, blocked}
use ramsql.Value.{Value, int, str}
use ramsql.Value.Compare.{greater}
use ramsql.Tuple.{Tuple}
use ramsql.Index.{can_source_with, remove}
use ramsql.Predicate.{
  Predicate, truth, comparison, is_ge, const, attribute, relation_of, eval, value,
}
use ramsql.Relation.{Relation, new_relation, remove_all}
use ramsql.Store.{find_schema, schema_relation}
use ramsql.Transaction.{Session, new_transaction, rollback, commit}
use ramsql.Transaction.Statements.{truncate}
use ramsql.Transaction.Append.{Table, Shows}
use ramsql.Transaction.Waits.{truncate-insert}
use ramsql.Query.Plan.{choose_index, rec_can_use_index}
use ramsql.Query.Plan.Pushdown.{IsConjunctive}
use ramsql.Query.Reads.{HasPlainColumn}
use ramsql.Query.Selectors.{star}
use ramsql.Query.Tree.{query}
use ramsql.Query.Where.Filter.{keep, Answers}
use ramsql.Query.Where.{query-keep}
use ramsql.Query.Lifecycle.{query-created}
use ramsql.Query.Refinement.{nothing_yet, and_row}
use ramsql.Transaction.Statements.{create_relation}
use ramsql.Transaction.Insert.Columns.{column_names}
use ramsql.Store.{Schema, new_engine}
use ramsql.Query.Modify.{delete, delete_node, delete_all, delete_element, with_indexes}
use ramsql.Query.Plan.{
  plan, plan_body, rec_lock, touch, lock_selectors, single_scan, choose_source, pushed_down,
}
use ramsql.Query.Source.{
  scan, scan_loop, has_next, next, estimate_source, accepts, columns, new_seq_scan,
}
use ramsql.Query.Selectors.{select_node, select_all, select, star_columns, unify, row_values, fill}
use ramsql.Query.Join.{fresh_elements}
use ramsql.Store.Rows.{remove_element}
use ramsql.Transaction.Insert.{insert}
use ramsql.Base.Dict.{Dict}
use ramsql.Query.Modify.Lasting.{none_yet, deleted, rollback-Modified}
use ramsql.Tests.{runtime, users, user_columns, ada, ada_row, with_users, one_row, whole_model}
use ramsql.Tests.Executing.{test_orders}

-- The table of users with one row.
abbrev ada_only : Table
ada_only = record { columns = codes "id" ∷ codes "name" ∷ []; rows = ada_row.tuple ∷ [] }

users_known : lookup users one_row.locks ≡ some 0
unfolding whole_model
users_known = refl

abbrev users_at : Session → Relation
users_at s = elim (get_elem? s.heap.relations 0) [
  | none ↦ new_relation [] users user_columns [] 0
  | some o ↦ o
]

ada-Shows : Shows [] users 0 ada_only one_row
unfolding whole_model find_schema schema_relation new_relation
ada-Shows = record {
  schema_at = 0;
  o = users_at one_row;
  live = refl;
  in_engine = refl;
  in_schema = refl;
  at = refl;
  lockable = λ e. absurd (ground (arith, users_known, e));
  in_range = omega arith;
  columns = refl;
  rows = refl;
  widths = (refl, tt);
}

ada-Shows-held : ada-Shows.o.locked ≡ true
unfolding ada-Shows whole_model
ada-Shows-held = refl

abbrev bob : Dict Value
bob = (codes "id", int (pos 2)) ∷ (codes "name", str (codes "bob")) ∷ []

abbrev two_rows : Session
two_rows = (insert runtime [] users bob one_row).1

-- INSERT and TRUNCATE in the transaction that has created the table.
truncate-insert_example : truncate [] users two_rows ≡ (blocked, two_rows)
truncate-insert_example =
    truncate-insert [] users 0 ada_only one_row ada-Shows runtime bob
      (record { values = int (pos 2) ∷ str (codes "bob") ∷ [] }) two_rows (inr ada-Shows-held)
      (unfold whole_model in refl)

-- WHERE id > 0
abbrev id_above_zero : Predicate
id_above_zero = comparison is_ge (attribute users (codes "id")) (const (int (pos 0)))

abbrev every_row : Tuple → Bool
every_row t = true

ada-Shows-name : ada-Shows.o.name ≡ users
unfolding ada-Shows whole_model
ada-Shows-name = refl

ada-Shows-unserved : choose_index runtime id_above_zero ada-Shows.o.indexes ≡ none
unfolding ada-Shows whole_model choose_index rec_can_use_index can_source_with relation_of
    ramsql.Predicate.type_of
ada-Shows-unserved = refl

some_users : users ≢ []
some_users h = absurd (ground arith)

users-IsConjunctive : IsConjunctive users id_above_zero
unfolding relation_of whole_model
users-IsConjunctive = refl

plain-HasPlainColumn : HasPlainColumn ada_only.columns
unfolding contains_byte
plain-HasPlainColumn = refl

ada-Answers : Answers runtime ada_only.columns id_above_zero every_row ada_only.rows
unfolding whole_model eval value greater
ada-Answers = (refl, tt)

query-keep_example :
    (t : Session) × (query runtime test_orders [] (star users ∷ []) id_above_zero [] [] one_row
      ≡ (ok (ada_only.columns, keep every_row ada_only.rows), t))
    × Shows [] users 0 ada_only t
query-keep_example =
    query-keep [] users 0 ada_only some_users runtime test_orders id_above_zero every_row one_row
      ada-Shows refl ada-Shows-name ada-Shows-unserved users-IsConjunctive plain-HasPlainColumn
      ada-Answers

-- The table with its row, in a transaction that begins after it has been committed.
abbrev saved : Session
saved = new_transaction (commit one_row).1.heap

abbrev delete_everything : Outcome (List Bytes × List Tuple) × Session
delete_everything = delete runtime [] users (star users ∷ []) truth saved

abbrev columns_and_rows : Outcome (List Bytes × List Tuple) → List Bytes × List Tuple
columns_and_rows (ok x) = x
columns_and_rows _ = ([], [])

delete_run : delete_everything ≡ (ok (columns_and_rows delete_everything.0), delete_everything.1)
unfolding whole_model commit delete delete_node delete_all delete_element with_indexes plan
    plan_body rec_lock touch lock_selectors single_scan choose_source choose_index rec_can_use_index
    can_source_with relation_of ramsql.Predicate.type_of pushed_down find_schema schema_relation
    scan scan_loop has_next next estimate_source accepts columns eval new_seq_scan select_node
    select_all select star_columns unify row_values fill contains_byte fresh_elements remove_element
    remove_all remove
delete_run = refl

saved-live : saved.error ≡ none
unfolding new_transaction
saved-live = refl

saved-clean : saved.changes ≡ []
unfolding new_transaction
saved-clean = refl

rollback-Modified_example :
    ((rollback delete_everything.1).0 ≡ ok tt)
    × ((rollback delete_everything.1).1.heap.lists ≡ delete_everything.1.heap.lists)
rollback-Modified_example = rollback-Modified runtime saved-live saved-clean (
    deleted delete_everything.1 [] users (star users ∷ []) truth
      (columns_and_rows delete_everything.0) none_yet delete_run)

-- CREATE TABLE, INSERT and SELECT in one transaction of a new engine.
abbrev begun : Session
begun = new_transaction new_engine

abbrev public_schema : Schema
public_schema = record { name = codes "public"; relations = [] }

begun-live : begun.error ≡ none
unfolding new_transaction
begun-live = refl

begun-found : find_schema [] begun.heap ≡ ok 0
unfolding whole_model find_schema
begun-found = refl

begun-there : get_elem? begun.heap.schemas 0 ≡ some public_schema
unfolding whole_model
begun-there = refl

users_created : create_relation [] users user_columns (codes "id" ∷ []) begun ≡ (ok tt, with_users)
unfolding whole_model
users_created = refl

named_plainly : HasPlainColumn (column_names user_columns)
unfolding contains_byte whole_model
named_plainly = refl

query-created_example :
    (u : Session) × (query runtime test_orders [] (star users ∷ []) truth [] [] one_row
      ≡ (ok (column_names user_columns, ada_row.tuple ∷ []), u))
query-created_example =
    query-created [] users user_columns (codes "id" ∷ []) begun with_users 0 public_schema
      begun-live begun-found begun-there users_created runtime test_orders (ada_row.tuple ∷ []) refl
      named_plainly (and_row one_row ada ada_row.tuple nothing_yet (unfold whole_model in refl))
