-- ===== src/Transaction/Aborted.antt =====
-- The error of a transaction: once it is set, nothing runs; and what aborting leaves behind.
use ramsql.Base.{◌≡◌, false, some, List, arith}
use ramsql.Base.Bytes.{Bytes}
use ramsql.Base.Dict.{Dict}
use ramsql.Base.Outcome.{ok, err, Error, aborted}
use ramsql.Base.Exec.{Exec, ◌>>◌}
use ramsql.Value.{Value, Runtime}
use ramsql.Attribute.{Attribute}
use ramsql.Relation.{IndexType}
use ramsql.Transaction.{Session, check_aborted, rollback, commit}
use ramsql.Transaction.Statements.{
  create_relation, drop_relation, create_schema, drop_schema, create_index, truncate,
  relation_attribute, check_schema, check_relation,
}
use ramsql.Transaction.Insert.{insert}

module _ (s : Session) (e : Error) (h : s.error ≡ some e) where
  check_aborted_lem : check_aborted s ≡ (err (aborted e), s)
  unfolding check_aborted
  check_aborted_lem = ground arith

  refused : {A : Type 0} (m : Exec Session A) → (check_aborted >> m) s ≡ (err (aborted e), s)
  refused m = ground (arith, check_aborted_lem)

  -- In a transaction with an error these statements fail with that error wrapped, and change nothing:
  -- Insert, CreateRelation, DropRelation, CreateSchema, DropSchema, CreateIndex, Truncate,
  -- RelationAttribute and Commit. CheckSchema and CheckRelation answer false, and Rollback does
  -- nothing.
  pub aborted_inert :
      (rt : Runtime) (schema relation name : Bytes) (given : Dict Value)
      (attributes : List Attribute) (keys : List Bytes) (type : IndexType)
      → (insert rt schema relation given s ≡ (err (aborted e), s))
        × (create_relation schema relation attributes keys s ≡ (err (aborted e), s))
        × (drop_relation schema relation s ≡ (err (aborted e), s))
        × (create_schema schema s ≡ (err (aborted e), s))
        × (drop_schema schema s ≡ (err (aborted e), s))
        × (create_index schema relation name type keys s ≡ (err (aborted e), s))
        × (truncate schema relation s ≡ (err (aborted e), s))
        × (relation_attribute schema relation name s ≡ (err (aborted e), s))
        × (commit s ≡ (err (aborted e), s))
        × (rollback s ≡ (ok tt, s))
        × (check_schema schema s ≡ false)
        × (check_relation schema relation s ≡ false)
  aborted_inert rt schema relation name given attributes keys type = (
    unfold insert in refused _,
    unfold create_relation in refused _,
    unfold drop_relation in refused _,
    unfold create_schema in refused _,
    unfold drop_schema in refused _,
    unfold create_index in refused _,
    unfold truncate in refused _,
    unfold relation_attribute in refused _,
    unfold commit in refused _,
    unfold rollback in ground arith,
    unfold check_schema in ground arith,
    unfold check_relation in ground arith,
  )
