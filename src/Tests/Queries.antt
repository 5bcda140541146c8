-- ===== src/Tests/Queries.antt =====
-- The theorems on queries, updates and deletes at concrete inputs.
use Prim.Native.Nat.{min}
use ramsql.Base.{
  ℕ, ◌-◌, ◌≡◌, refl, Bool, true, false, List, [], ◌∷◌, length, take, drop, set, map, if◌then◌else◌,
  All, ◌+◌, ◌<◌, ◌==◌, arith,
}
use ramsql.Base.Int.{pos}
use ramsql.Base.Bytes.{Bytes, codes}
use ramsql.Base.Dict.{Dict}
use ramsql.Base.Outcome.{Outcome, ok, err, column_not_found, ◌>>=◌}
use ramsql.Value.{Value, nil, int, str}
use ramsql.Tuple.{Tuple}
use ramsql.Index.{Element, HashIndex, remove, can_source_with, get}
use ramsql.Predicate.{
  Predicate, truth, conj, disj, comparison, is_eq, is_ge, const, attribute, eval, value,
  relation_of, attribute_of,
}
use ramsql.Relation.{Relation, new_relation, remove_all}
use ramsql.Store.Rows.{holds, remove_element, insert_after}
use ramsql.Transaction.Insert.{insert}
use ramsql.Transaction.Append.{tuples}
use ramsql.Transaction.{Session, list_at}
use ramsql.Query.{Result}
use ramsql.Query.Source.{seq_scan, columns, accepts, scan}
use ramsql.Query.Source.Laws.{left_in, filtered, scan-filtered}
use ramsql.Query.Sorters.{limit, offset, page_slice}
use ramsql.Query.Join.{join_left, pairs, Compares, join_left-pairs, fresh_elements}
use ramsql.Query.Selectors.{attributes, select_node}
use ramsql.Query.Selectors.Named.{read_row, all_found, select_node-read_row}
use ramsql.Query.Plan.{pushed_down, choose_source}
use ramsql.Query.Plan.Pushdown.{IsConjunctive, accepts-pushed_down}
use ramsql.Query.Plan.Disjunction.{disjunction_reads_one, at_most_one}
use ramsql.Query.Updates.{updated_values, updated_value}
use ramsql.Query.Modify.{delete_all, update_node, update_all, replace_element, with_indexes}
use ramsql.Query.Modify.Copies.{update_node-copies}
use ramsql.Query.Modify.Deleted.{remove_each, delete_all-lists}
use ramsql.Tests.{runtime, users, user_columns, ada_row, one_row, whole_model}

abbrev names : List Bytes
names = codes "id" ∷ codes "name" ∷ []

abbrev bob_row : Element
bob_row = record { address = 1; tuple = record { values = int (pos 2) ∷ str (codes "bob") ∷ [] } }

abbrev both : List Element
both = ada_row ∷ bob_row ∷ []

abbrev found : Result
found = record { cols = names; rows = both }

abbrev id_above : ℕ → Predicate
id_above n = comparison is_ge (attribute users (codes "id")) (const (int (pos n)))

scan-filtered_example : scan runtime (id_above 1 ∷ []) (seq_scan names both) ≡ (
    filtered
      (λ e. accepts runtime (columns (seq_scan names both)) (id_above 1 ∷ []) e.tuple)
      (left_in (seq_scan names both))
    >>= λ es. ok (record { cols = columns (seq_scan names both); rows = es }))
scan-filtered_example = scan-filtered runtime (id_above 1 ∷ []) (seq_scan names both)

range_holds : eval runtime names bob_row.tuple (conj (id_above 0) (id_above 1)) ≡ ok true
unfolding whole_model eval value ramsql.Value.Compare.greater
range_holds = refl

one_relation : IsConjunctive users (conj (id_above 0) (id_above 1))
unfolding whole_model relation_of
one_relation = (refl, refl)

accepts-pushed_down_example :
    accepts runtime names (pushed_down users (conj (id_above 0) (id_above 1))) bob_row.tuple
    ≡ ok true
accepts-pushed_down_example =
    accepts-pushed_down runtime names bob_row.tuple users (conj (id_above 0) (id_above 1)) true
      one_relation range_holds

page_slice_example :
    (limit (pos 3) (offset (pos 1) (ok found)) ≡ ok (record found { rows = take 3 (drop 1 both) }))
    × (length (take 3 (drop 1 both)) ≡ min 3 (length both - 1))
page_slice_example = page_slice 3 1 found (omega arith)

abbrev first_id : List Value → Value
first_id [] = nil
first_id (v ∷ vs) = v

abbrev same_id : Value → Value → Bool
same_id (int (pos a)) (int (pos b)) = a == b
same_id _ _ = false

abbrev same_row : Tuple → Tuple → Bool
same_row l r = same_id (first_id l.values) (first_id r.values)

compared : All (λ l. All (λ r. Compares runtime 0 0 same_row l.tuple r.tuple) both) both
unfolding whole_model ramsql.Value.Compare.equal
compared = ((refl, (refl, tt)), ((refl, (refl, tt)), tt))

join_left-pairs_example : join_left runtime 0 0 both both ≡ ok (pairs same_row both both)
join_left-pairs_example = join_left-pairs runtime 0 0 same_row both both compared

select_node-read_row_example :
    select_node (attributes users (codes "name" ∷ []) [] ∷ []) (ok found) ≡ (
      if all_found users [] names (codes "name" ∷ [])
      then ok (record {
        cols = codes "name" ∷ [];
        rows =
            fresh_elements 0 (map (λ e. read_row users [] names (codes "name" ∷ []) e.tuple) both);
      })
      else err column_not_found)
select_node-read_row_example =
    select_node-read_row users [] (codes "name" ∷ []) found (refl, (refl, tt))

abbrev renamed : Dict Value
renamed = (codes "name", str (codes "eve")) ∷ []

-- The table with two rows.
abbrev two_rows : Session
two_rows =
    (insert runtime [] users ((codes "id", int (pos 2)) ∷ (codes "name", str (codes "bob")) ∷ [])
      one_row).1

abbrev users_object : Relation
users_object = new_relation [] users user_columns [] 0

abbrev updated_rows : Outcome Result × Session
updated_rows = update_node runtime 0 users_object renamed (ok found) two_rows

abbrev rows_of : Outcome Result → Result
rows_of (ok r) = r
rows_of _ = found

updated_run : updated_rows ≡ (ok (rows_of updated_rows.0), updated_rows.1)
unfolding whole_model update_node update_all replace_element with_indexes remove_all remove
    updated_values updated_value holds remove_element insert_after
updated_run = refl

-- UPDATE users SET name = 'eve' over two rows.
update_node-copies_example :
    (ws : List Value) × (left : Dict Value) × (updated_values runtime users_object.attributes names
        ada_row.tuple.values renamed
      ≡ ok (ws, left))
    × (tuples (rows_of updated_rows.0).rows ≡ record { values = ws } ∷ tuples (bob_row ∷ []))
unfolding new_relation
update_node-copies_example =
    update_node-copies runtime 0 users_object renamed names ada_row (bob_row ∷ [])
      (rows_of updated_rows.0) two_rows updated_rows.1 refl updated_run

-- DELETE of the only row, in the transaction that has made it.
abbrev emptied : Session
emptied = (delete_all runtime 0 0 (ada_row ∷ []) one_row).1

emptied_run : delete_all runtime 0 0 (ada_row ∷ []) one_row ≡ (ok tt, emptied)
unfolding whole_model delete_all ramsql.Query.Modify.delete_element ramsql.Query.Modify.with_indexes
    ramsql.Relation.remove_all ramsql.Index.remove
emptied_run = refl

one_list : 0 < length one_row.heap.lists
unfolding whole_model
one_list = omega arith

delete_all-lists_example :
    (emptied.heap.lists
      ≡ set one_row.heap.lists 0 (remove_each (ada_row ∷ []) (list_at 0 one_row.heap)))
    × (length emptied.changes ≡ length one_row.changes + 1)
delete_all-lists_example =
    delete_all-lists runtime 0 0 (ada_row ∷ []) one_row emptied one_list emptied_run

abbrev id_index : HashIndex
id_index = record {
  name = codes "pk";
  rel_name = users;
  rel_attrs = names;
  attrs = 0 ∷ [];
  attrs_name = codes "id" ∷ [];
  m = [];
}

abbrev indexed : Relation
indexed = record (new_relation (codes "public") users user_columns [] 0) { indexes = id_index ∷ [] }

abbrev id_is_one : Predicate
id_is_one = comparison is_eq (attribute users (codes "id")) (const (int (pos 1)))

one_index : indexed.indexes ≡ id_index ∷ []
unfolding new_relation
one_index = refl

index_serves : can_source_with id_index id_is_one ≡ true
unfolding whole_model can_source_with relation_of attribute_of ramsql.Index.names_one
    ramsql.Index.all_named ramsql.Predicate.type_of
index_serves = refl

constant_value : value runtime (const (int (pos 1))) [] (record { values = [] }) ≡ ok (int (pos 1))
unfolding value
constant_value = refl

-- WHERE id = 1 OR TRUE, over an index that has no entry for 1.
disjunction_reads_one_example :
    left_in (choose_source runtime (disj id_is_one truth) indexed both)
    ≡ at_most_one (get runtime id_index (int (pos 1) ∷ []))
disjunction_reads_one_example =
    disjunction_reads_one runtime (attribute users (codes "id")) (const (int (pos 1))) truth indexed
      id_index [] both (int (pos 1)) one_index index_serves constant_value
