-- ===== src/Transaction/Waits.antt =====
-- INSERT and TRUNCATE of one relation in one transaction: the second one waits for the first one.
use ramsql.Base.{
  ℕ, ◌<◌, ◌≡◌, ap, ◌∙◌, ◌⊎◌, inl, inr, true, none, some, set, get_elem?, get_elem?-set_self,
  get_elem?-lt, length, length-set, arith,
}
use ramsql.Base.Bytes.{Bytes}
use ramsql.Base.Dict.{Dict, lookup}
use ramsql.Base.Outcome.{ok, blocked}
use ramsql.Value.{Value, Runtime}
use ramsql.Tuple.{Tuple}
use ramsql.Relation.{Relation}
use ramsql.Transaction.{Session, lock, take_lock}
use ramsql.Transaction.Statements.{find_relation, truncate}
use ramsql.Transaction.Locks.{truncate-held}
use ramsql.Transaction.Insert.{insert, insert_body, insert_row}
use ramsql.Transaction.Insert.Keys.{insert_row-Inserted}
use ramsql.Transaction.Rollback.{insert-ok}
use ramsql.Transaction.Append.{Table, Shows, lock-Shows, insert-Shows}

-- The row part of Insert leaves the relation as it was locked.
insert_row-locked :
    (rt : Runtime) (r : ℕ) (given : Dict Value) (s s' : Session) (t : Tuple) (o o' : Relation)
    → get_elem? s.heap.relations r ≡ some o
    → insert_row rt r given s ≡ (ok t, s')
    → get_elem? s'.heap.relations r ≡ some o'
    → o'.locked ≡ o.locked
insert_row-locked rt r given s s' t o o' at p at' =
    let i = insert_row-Inserted rt r given s s' t o at p in
    let lt : r < length s.heap.relations = get_elem?-lt s.heap.relations r o at in
    let there : get_elem? s'.heap.relations r ≡ some (record i.o' { indexes = i.hs }) =
      ap (λ rs. get_elem? rs r) i.relations
      ∙ get_elem?-set_self (set s.heap.relations r i.o') r _ (rw length-set lt) in
    ground (arith, there, at', i.head.locked)

module _ (schema name : Bytes) (r : ℕ) (a : Table) (s : Session) (h : Shows schema name r a s) where
  -- The relation is not locked by the transaction yet, or it is marked as held.
  abbrev pub IsTakenOrNew : Type 0
  IsTakenOrNew = (lookup h.o.name s.locks ≡ none) ⊎ (h.o.locked ≡ true)

  lock-held :
      (s1 : Session) (o : Relation)
      → IsTakenOrNew
      → lock r s ≡ (ok tt, s1)
      → get_elem? s1.heap.relations r ≡ some o
      → o.locked ≡ true
  unfolding lock take_lock
  lock-held s1 o (inl new) p at =
      let kept =
        get_elem?-set_self s.heap.relations r (record h.o { locked = true })
          (get_elem?-lt s.heap.relations r h.o h.at) in
      ground (arith, h.at, new, h.lockable new, p, at, kept)
  lock-held s1 o (inr held) p at = ground (arith, h.at, held, p, at)

  -- A transaction that has inserted a row into a table cannot truncate it: where the session shows
  -- the table, whose lock it has not taken yet or is marked as held, TRUNCATE behind a successful
  -- Insert into the table waits for ever, for the lock that its own transaction has taken, and
  -- changes nothing.
  pub truncate-insert :
      (rt : Runtime) (given : Dict Value) (t : Tuple) (s' : Session)
      → IsTakenOrNew
      → insert rt schema name given s ≡ (ok t, s')
      → truncate schema name s' ≡ (blocked, s')
  unfolding insert_body find_relation
  truncate-insert rt given t s' ready p =
      let q = insert-ok rt schema name given s t s' h.live p in
      let (s1, locked, shown) = lock-Shows schema name r a s h in
      let after = insert-Shows rt schema name r a s s' t given h p in
      let row : insert_row rt r given s1 ≡ (ok t, s') =
        ground (arith, h.in_engine, h.in_schema, locked, q) in
      truncate-held r s' after.o after.at schema name after.live
        (ground (arith, after.in_engine, after.in_schema))
        (insert_row-locked rt r given s1 s' t shown.o after.o shown.at row after.at
          ∙ lock-held s1 shown.o ready locked shown.at)
