-- ===== src/Query/Modify.antt =====
-- Deleter.Exec and Updater.Exec, and Transaction.Delete and Update around them.
pub mod Laws
pub mod Deleted
pub mod Copies
pub mod Lasting
use ramsql.Base.{
  ℕ, suc, Bool, true, false, Option, none, some, List, [], ◌∷◌, ◌++◌, map, set, get_elem?,
  if◌then◌else◌,
}
use ramsql.Base.Bytes.{Bytes}
use ramsql.Base.Dict
use ramsql.Base.Dict.{Dict, lookup}
use ramsql.Base.Outcome.{
  Outcome, ok, err, panic, blocked, Error, cannot_assign, element_not_in_rows, unknown_attribute,
}
use ramsql.Base.Exec.{Exec, pure, raise, lift, gets, modify, ◌>>=◌, ◌>>◌}
use ramsql.Value.{Value, nil, kind, Runtime}
use ramsql.Tuple.{Tuple}
use ramsql.Attribute.{Attribute, convertible, convert}
use ramsql.Index.{Element, HashIndex}
use ramsql.Relation.{Relation, add_all, remove_all}
use ramsql.Predicate.{Predicate}
use ramsql.Store.{Heap}
use ramsql.Store.Rows.{holds, remove_element, insert_after}
use ramsql.Transaction.{
  Session, value_change_pointer, check_aborted, or_abort, relation_at, set_relation, set_list,
  list_at, change_heap, push_change,
}
use ramsql.Transaction.Statements.{find_relation}
use ramsql.Query.{Result}
use ramsql.Query.Updates.{updated_values}
use ramsql.Query.Plan.{plan, run_scan}
use ramsql.Query.Selectors.{Selector, select_node}

-- The indexes of the relation, after one of the loops `for _, i := range u.indexes`.
unfoldable pub with_indexes : ℕ → (List HashIndex → Outcome (List HashIndex)) → Exec Session Unit
with_indexes r f = do
  o ← relation_at r
  hs ← lift (f o.indexes)
  modify (change_heap (set_relation r (record o { indexes = hs })))

-- One turn of the loop of Deleter.Exec, on the list of rows l.
unfoldable pub delete_element : Runtime → ℕ → ℕ → Element → Exec Session Unit
delete_element rt r l e = do
  modify (change_heap (λ g. set_list l (remove_element e.address (list_at l g)) g))
  with_indexes r (λ hs. remove_all rt hs e)
  push_change (value_change_pointer (record { current = none; old = some e; l = l }))

unfoldable pub delete_all : Runtime → ℕ → ℕ → List Element → Exec Session Unit
delete_all rt r l [] = pure tt
delete_all rt r l (e ∷ es) = do delete_element rt r l e; delete_all rt r l es

unfoldable pub delete_node : Runtime → ℕ → ℕ → Outcome Result → Exec Session Result
delete_node rt r l child = do in_ ← lift child; delete_all rt r l in_.rows; pure in_

-- The statement: it plans, puts the delete node between the selector node and the scan, and runs.
unfoldable pub delete :
    Runtime → Bytes → Bytes → List Selector → Predicate → Exec Session (List Bytes × List Tuple)
delete rt schema relation selectors p = do
  check_aborted
  r ← find_relation schema relation
  n ← plan rt schema selectors p
  o ← relation_at r
  out ←
      or_abort
        (do in_ ← delete_node rt r o.rows (run_scan rt n); lift (select_node selectors (ok in_)))
  pure (out.cols, map (λ e. e.tuple) out.rows)

-- One turn of the loop of Updater.Exec: the new tuple is put behind the old one, the old one is taken
-- off, the indexes forget the old one and take the new one.
unfoldable pub replace_element : Runtime → ℕ → ℕ → Element → List Value → Exec Session Element
replace_element rt r l e values s =
    let new : Element = record { address = s.heap.next; tuple = record { values = values } } in
    let replaced : Heap = record s.heap {
      lists =
          set s.heap.lists l
            (remove_element e.address (insert_after new e.address (list_at l s.heap)));
      next = suc s.heap.next;
    } in
    if holds e.address (list_at l s.heap)
    then (do
      with_indexes r (λ hs. remove_all rt hs e)
      with_indexes r (λ hs. add_all rt hs new)
      push_change (value_change_pointer (record { current = some new; old = some e; l = l }))
      pure new)
        (record s { heap = replaced })
    else (err element_not_in_rows, s)

unfoldable pub update_all :
    Runtime
    → ℕ
    → ℕ
    → List Attribute
    → List Bytes
    → List Element
    → Dict Value
    → Exec Session (List Element × Dict Value)
update_all rt r l attrs cols [] given = pure ([], given)
update_all rt r l attrs cols (e ∷ es) given = do
  (values, left) ← lift (updated_values rt attrs cols e.tuple.values given)
  new ← replace_element rt r l e values
  (news, rest) ← update_all rt r l attrs cols es left
  pure (new ∷ news, rest)

-- `if len(u.values) > 0`
abbrev pub all_used : Dict Value → Exec Session Unit
all_used [] = pure tt
all_used ((k, v) ∷ rest) = raise (unknown_attribute k)

unfoldable pub update_node :
    Runtime → ℕ → Relation → Dict Value → Outcome Result → Exec Session Result
update_node rt r o given child = do
  in_ ← lift child
  (news, left) ← update_all rt r o.rows o.attributes in_.cols in_.rows given
  all_used left
  pure (record { cols = in_.cols; rows = news })

unfoldable pub update :
    Runtime
    → Bytes
    → Bytes
    → Dict Value
    → List Selector
    → Predicate
    → Exec Session (List Bytes × List Tuple)
update rt schema relation given selectors p = do
  check_aborted
  r ← find_relation schema relation
  n ← plan rt schema selectors p
  o ← relation_at r
  out ←
      or_abort
        (do in_ ← update_node rt r o given (run_scan rt n); lift (select_node selectors (ok in_)))
  pure (out.cols, map (λ e. e.tuple) out.rows)
