-- ===== src/Transaction/Insert.antt =====
-- Transaction.Insert.
pub mod Frame
pub mod Keys
pub mod Columns
use ramsql.Base.{
  ℕ, suc, ◌+◌, Bool, true, false, Option, none, some, List, [], ◌∷◌, ◌++◌, get_elem?, set,
  if◌then◌else◌,
}
use ramsql.Base.Bytes.{Bytes}
use ramsql.Base.Dict.{Dict}
use ramsql.Base.Outcome.{Outcome, ok, err, Error, unknown_attribute, pk_violation}
use ramsql.Base.Exec.{Exec, pure, raise, lift, gets, deref, modify, ◌>>=◌, ◌>>◌}
use ramsql.Value.{Value, Runtime}
use ramsql.Tuple.{Tuple}
use ramsql.Index.{Element, HashIndex}
use ramsql.Relation.{Relation, check_primary_key, add_all}
use ramsql.Store.{Heap}
use ramsql.Transaction.{
  Session, value_change, check_aborted, or_abort, relation_at, lock, set_relation, set_list,
  list_at, change_heap, push_change,
}
use ramsql.Transaction.Statements.{find_relation}
use ramsql.Transaction.Values.{build_tuple}

-- The loop over the attributes, on the relation object in the heap.
unfoldable pub build_row : Runtime → ℕ → Dict Value → Exec Session (List Value × Dict Value)
build_row rt r values = do
  o ← relation_at r
  let built = build_tuple rt 0 o.attributes values o
  modify (change_heap (set_relation r built.1))
  lift built.0

-- for k := range values { return abort }
abbrev pub none_left : Dict Value → Exec Session Unit
none_left [] = pure tt
none_left ((k, v) ∷ rest) = raise (unknown_attribute k)

-- r.rows.PushBack(tuple)
unfoldable pub push_row : ℕ → Tuple → Heap → Heap
push_row l t g =
    record (set_list l (list_at l g ++ record { address = g.next; tuple = t } ∷ []) g) {
      next = suc g.next;
    }

-- The indexes are those that have taken the element, and the change is noted.
unfoldable pub note_row : ℕ → Relation → Element → List HashIndex → Exec Session Unit
note_row r o e indexes = do
  modify (change_heap (set_relation r (record o { indexes = indexes })))
  push_change (value_change (record { current = some e; old = none; l = o.rows }))

-- The row is pushed, every index takes it, and the change is noted.
unfoldable pub store_in : Runtime → ℕ → Tuple → Relation → Exec Session Tuple
store_in rt r t o = do
  a ← gets (λ s. s.heap.next)
  let e : Element = record { address = a; tuple = t }
  modify (change_heap (push_row o.rows t))
  indexes ← lift (add_all rt o.indexes e)
  note_row r o e indexes
  pure t

unfoldable pub store_row : Runtime → ℕ → Tuple → Exec Session Tuple
store_row rt r t = do o ← relation_at r; store_in rt r t o

abbrev pub require_key : Bool → Exec Session Unit
require_key true = pure tt
require_key false = raise pk_violation

unfoldable pub insert_row : Runtime → ℕ → Dict Value → Exec Session Tuple
insert_row rt r values = do
  (vs, left) ← build_row rt r values
  none_left left
  o ← relation_at r
  let t : Tuple = record { values = vs }
  free ← lift (check_primary_key rt o t)
  require_key free
  store_row rt r t

-- Everything behind the first test.
unfoldable pub insert_body : Runtime → Bytes → Bytes → Dict Value → Exec Session Tuple
insert_body rt schema relation values = do
  r ← find_relation schema relation
  lock r
  insert_row rt r values

-- Every error of the body aborts the transaction.
unfoldable pub insert : Runtime → Bytes → Bytes → Dict Value → Exec Session Tuple
insert rt schema relation values = do
  check_aborted
  or_abort (insert_body rt schema relation values)
