-- ===== src/Transaction/Locks.antt =====
-- The lock of a relation: who waits, and who does not.
use ramsql.Base.{Bool, ℕ, ◌≡◌, true, none, some, get_elem?, arith, if◌then◌else◌}
use ramsql.Base.Bytes.{Bytes, str_eq}
use ramsql.Base.Dict
use ramsql.Base.Dict.{Dict, lookup, insert, lookup-insert}
use ramsql.Base.Outcome.{ok, blocked}
use ramsql.Relation.{Relation}
use ramsql.Transaction.{Session, lock}
use ramsql.Transaction.Statements.{truncate, truncate_relation, find_relation}
use ramsql.Transaction.Abort.{check_aborted_live}

module _ (r : ℕ) (s : Session) (o : Relation) (at : get_elem? s.heap.relations r ≡ some o) where
  known :
      lookup o.name (Dict.insert o.name r s.locks)
      ≡ (if str_eq o.name o.name then some r else lookup o.name s.locks)
  known = lookup-insert o.name o.name r s.locks

  -- What locking does, by whether the relation is held.
  abbrev LockOutcome : Bool → Type 0
  LockOutcome held =
      if held
      then lock r s ≡ (blocked, s)
      else ((get_elem? (lock r s).1.heap.relations r ≡ some (record o { locked = true }))
          × (lookup o.name (lock r s).1.locks ≡ some r)
          × (lock r (lock r s).1 ≡ lock r s))

  -- In a live transaction TRUNCATE of a relation that is held waits for ever and changes nothing,
  -- also where this transaction itself holds it.
  pub truncate-held :
      (schema name : Bytes)
      → s.error ≡ none
      → find_relation schema name s ≡ (ok r, s)
      → o.locked ≡ true
      → truncate schema name s ≡ (blocked, s)
  unfolding truncate truncate_relation
  truncate-held schema name live found held = ground (arith, check_aborted_live s live)
