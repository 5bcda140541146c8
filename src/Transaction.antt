-- ===== src/Transaction.antt =====
-- engine/agnostic/transaction.go and change.go: a transaction over the shared heap: locks, changes,
-- Commit and Rollback. The statements on relations are in Transaction/Statements, those on
-- rows in Transaction/Insert and Query/Modify, the proofs in the other children.
pub mod Statements
pub mod Values
pub mod Insert
pub mod Aborted
pub mod Abort
pub mod Undo
pub mod Atomic
pub mod Rollback
pub mod Locks
pub mod Waits
pub mod Typed
pub mod Stale
pub mod Created
pub mod Append
use ramsql.Base.{
  ℕ, suc, Bool, true, false, Option, none, some, List, [], ◌∷◌, ◌++◌, length, get_elem?, set,
  if◌then◌else◌,
}
use ramsql.Base.Bytes.{Bytes}
use ramsql.Base.Dict
use ramsql.Base.Dict.{Dict, lookup}
use ramsql.Base.Outcome.{Outcome, ok, err, panic, blocked, Error, aborted, committed}
use ramsql.Base.Exec.{Exec, pure, raise, lift, gets, deref, modify, continue, ◌>>=◌, ◌>>◌}
use ramsql.Tuple.{Tuple}
use ramsql.Attribute.{Attribute}
use ramsql.Index
use ramsql.Index.{Element}
use ramsql.Relation
use ramsql.Relation.{Relation, IndexType}
use ramsql.Store
use ramsql.Store.{Heap, find_schema, schema_relation, schema_add, schema_remove}
use ramsql.Store.Rows.{remove_element, insert_after, prev, set_tuple}
use ramsql.Base.{map}
use mathlib.Core.List.{reverse}

pub record ValueChange : Type 0 where
  pub current : Option Element
  pub old : Option Element
  pub l : ℕ

-- The entries of Transaction.changes. Insert pushes a ValueChange; the update and delete nodes push a
-- pointer to one, which is another type to the switch in Rollback.
pub data Change : Type 0 where
  value_change : ValueChange → Change
  value_change_pointer : ValueChange → Change
  relation_change : ℕ → Option ℕ → Option ℕ → Change
  schema_change : Option ℕ → Option ℕ → Change

-- The Transaction object, with the heap that its engine points to.
pub record Session : Type 0 where
  pub heap : Heap
  pub locks : Dict ℕ
  pub changes : List Change
  pub error : Option Error

unfoldable pub new_transaction : Heap → Session
new_transaction g = record { heap = g; locks = []; changes = []; error = none }

-- An operation of the engine, run on the heap of the transaction.
abbrev pub on_heap : {A : Type 0} → Exec Heap A → Exec Session A
on_heap m s = let (r, g) = m s.heap in (r, record s { heap = g })

abbrev pub look : {A : Type 0} → (Heap → Outcome A) → Exec Session A
look f s = (f s.heap, s)

abbrev pub change_heap : (Heap → Heap) → Session → Session
change_heap f s = record s { heap = f s.heap }

unfoldable pub check_aborted : Exec Session Unit
check_aborted s = elim s.error [ none ↦ (ok tt, s) | some e ↦ (err (aborted e), s) ]

abbrev pub set_relation : ℕ → Relation → Heap → Heap
set_relation r o g = record g { relations = set g.relations r o }

abbrev pub set_list : ℕ → List Element → Heap → Heap
set_list l es g = record g { lists = set g.lists l es }

-- The relation object at an address.
abbrev pub relation_at : ℕ → Exec Session Relation
relation_at r s = deref (get_elem? s.heap.relations r) s

-- Lock: it waits for ever where the lock is held and this transaction does not know it.
unfoldable pub take_lock : ℕ → Relation → Exec Session Unit
take_lock r o s = elim (lookup o.name s.locks) [
  | some done ↦ (ok tt, s)
  | none ↦ if o.locked then (blocked, s) else (
    ok tt,
    record s {
      heap = set_relation r (record o { locked = true }) s.heap;
      locks = Dict.insert o.name r s.locks;
    },
  )
]

unfoldable pub lock : ℕ → Exec Session Unit
lock r = do o ← relation_at r; take_lock r o

-- r.Unlock() for a relation address.
unfoldable pub release : ℕ → Heap → Heap
release r g = elim (get_elem? g.relations r) [
  | none ↦ g
  | some o ↦ set_relation r (record o { locked = false }) g
]

unfoldable pub release_all : Dict ℕ → Heap → Heap
unfolding release
release_all [] g = g
release_all ((name, r) ∷ d) g = release_all d (release r g)

unfoldable pub unlock : Session → Session
unfolding release_all
unlock s = record s { heap = release_all s.locks s.heap; locks = [] }

-- The list object at an address; an address that is not there does not occur.
abbrev pub list_at : ℕ → Heap → List Element
list_at l g = elim (get_elem? g.lists l) [ none ↦ [] | some es ↦ es ]

-- Removing an element clears its links, so Prev is nil where the list does not hold it, and
-- InsertAfter reads through that nil.
unfoldable pub revert_delete : ℕ → Element → Heap → Outcome Heap
revert_delete l old g = elim (prev old.address (list_at l g)) [
  | none ↦ panic
  | some p ↦
      let new : Element = record { address = g.next; tuple = old.tuple } in
      ok (record g { lists = set g.lists l (insert_after new p (list_at l g)); next = suc g.next })
]

unfoldable pub rollback_value_change : ValueChange → Heap → Outcome Heap
unfolding revert_delete
rollback_value_change c g = elim c.current [
  | some cur ↦ elim c.old [
    | none ↦ ok (set_list c.l (remove_element cur.address (list_at c.l g)) g)
    | some old ↦ ok (set_list c.l (set_tuple cur.address old.tuple (list_at c.l g)) g)
  ]
  | none ↦ elim c.old [ none ↦ ok g | some old ↦ revert_delete c.l old g ]
]

abbrev pub name_at : ℕ → Heap → Option Bytes
name_at r g = elim (get_elem? g.relations r) [ none ↦ none | some o ↦ some o.name ]

-- s.Remove(current.name), s.Add(old.name, old)
unfoldable pub remove_relation_at : ℕ → ℕ → Heap → Outcome Heap
remove_relation_at s r g = elim (name_at r g) [ none ↦ panic | some n ↦ ok (schema_remove s n g) ]

unfoldable pub add_relation_at : ℕ → ℕ → Heap → Outcome Heap
add_relation_at s r g = elim (name_at r g) [ none ↦ panic | some n ↦ ok (schema_add s n r g) ]

unfoldable pub rollback_relation_change : ℕ → Option ℕ → Option ℕ → Heap → Outcome Heap
unfolding remove_relation_at add_relation_at
rollback_relation_change s none none g = ok g
rollback_relation_change s (some r) none g = remove_relation_at s r g
rollback_relation_change s none (some o) g = add_relation_at s o g
rollback_relation_change s (some r) (some o) g = elim (remove_relation_at s r g) [
  | ok g' ↦ add_relation_at s o g'
  | other ↦ other
]

-- One turn of the loop in Rollback. The switch names two of the types of entries.
unfoldable pub revert : Change → Heap → Outcome Heap
unfolding rollback_value_change rollback_relation_change
revert (value_change c) g = rollback_value_change c g
revert (value_change_pointer c) g = ok g
revert (relation_change s cur old) g = rollback_relation_change s cur old g
revert (schema_change cur old) g = ok g

-- The loop in Rollback, over the changes with the last one first. A panic leaves the heap as it is.
unfoldable pub revert_all : List Change → Heap → Outcome (Unit {0}) × Heap
unfolding revert
revert_all [] g = (ok tt, g)
revert_all (c ∷ cs) g = elim (revert c g) [
  | ok g' ↦ revert_all cs g'
  | err e ↦ (err e, g)
  | panic ↦ (panic, g)
  | blocked ↦ (blocked, g)
]

unfoldable pub rollback : Exec Session Unit
rollback s = elim s.error [
  | some e ↦ (ok tt, s)
  | none ↦
      let (r, g) = revert_all (reverse s.changes) s.heap in
      continue r (λ done s'. (ok tt, unlock (record s' { changes = [] }))) (record s { heap = g })
]

-- abort: it rolls back, keeps the error and returns it.
unfoldable pub abort : {A : Type 0} → Error → Exec Session A
abort e s =
    let (r, s') = rollback s in continue r (λ done s''. (err e, record s'' { error = some e })) s'

-- `if err != nil { return t.abort(err) }` behind a call
unfoldable pub or_abort : {A : Type 0} → Exec Session A → Exec Session A
or_abort m s =
    let (r, s') = m s in
    elim r [
      | ok a ↦ (ok a, s')
      | err e ↦ abort e s'
      | panic ↦ (panic, s')
      | blocked ↦ (blocked, s')
    ]

unfoldable pub commit : Exec Session ℕ
commit = do
  check_aborted
  changed ← gets (λ s. length s.changes)
  modify (λ s. unlock (record s { changes = [] }))
  modify (λ s. record s { error = some committed })
  pure changed

abbrev pub push_change : Change → Exec Session Unit
push_change c = modify (λ s. record s { changes = s.changes ++ c ∷ [] })
