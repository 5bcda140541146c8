-- ===== src/Tests.antt =====
-- Runs of the model on small inputs, and the theorems at such inputs in the children.
pub mod Values
pub mod Tables
pub mod Queries
pub mod Parsing
pub mod Executing
pub mod Modifying
use ramsql.Base.{
  ℕ, ◌+◌, ◌*◌, Bool, true, false, none, some, List, [], ◌∷◌, ◌≡◌, refl, ltb, leb, ◌==◌,
}
use ramsql.Base.Int.{ℤ, pos}
use ramsql.Base.Bytes.{Bytes, codes}
use ramsql.Base.Dict.{Dict}
use ramsql.Base.Outcome.{Outcome, ok, err, panic, blocked, pk_violation}
use ramsql.Value.{Value, nil, int, uint, str, Runtime}
use ramsql.Tuple.{Tuple}
use ramsql.Index.{Element}
use ramsql.Attribute.{Attribute, new_attribute, with_auto_increment}
use ramsql.Store.{Heap, new_engine}
use ramsql.Transaction.{Session, new_transaction, rollback, commit}
use ramsql.Transaction.Statements.{create_relation}
use ramsql.Transaction.Insert.{insert}

abbrev pub polynomial : Bytes → ℕ
polynomial [] = 0
polynomial (c ∷ s) = c + 257 * polynomial s

-- A runtime in which floats are their own bits, times are seconds, and texts hash to numbers.
abbrev pub runtime : Runtime
runtime = record {
  float_eq = λ a b. a == b;
  float_lt = λ a b. ltb a b;
  float_le = λ a b. leb a b;
  float_of_int = λ n. 0;
  float_of_uint = λ n. n;
  int_of_float = λ x. pos x;
  unix = λ t. pos t;
  after = λ a b. ltb b a;
  print_float = λ x. codes "f";
  print_time = λ t. codes "t";
  now = 7;
  hash = polynomial;
}

abbrev pub users : Bytes
users = codes "users"

abbrev pub user_columns : List Attribute
user_columns =
    new_attribute (codes "id") (codes "bigint") ∷ new_attribute (codes "name") (codes "text") ∷ []

abbrev pub with_users : Session
with_users =
    (create_relation [] users user_columns (codes "id" ∷ []) (new_transaction new_engine)).1

abbrev pub ada : Dict Value
ada = (codes "id", int (pos 1)) ∷ (codes "name", str (codes "ada")) ∷ []

abbrev pub one_row : Session
one_row = (insert runtime [] users ada with_users).1

abbrev pub ada_row : Element
ada_row = record { address = 0; tuple = record { values = int (pos 1) ∷ str (codes "ada") ∷ [] } }

-- What a run computes with.
whole_model : Unit {0}
unfolding insert ramsql.Transaction.release_all ramsql.Transaction.release ramsql.Transaction.revert
    ramsql.Transaction.rollback_value_change ramsql.Relation.new_relation ramsql.Relation.pk_index
    ramsql.Relation.check_key ramsql.Index.sum_of ramsql.Index.key_bytes ramsql.Index.key_text
    ramsql.Index.new_hash_index ramsql.Transaction.Insert.insert_body
    ramsql.Transaction.Insert.insert_row ramsql.Transaction.Insert.build_row
    ramsql.Transaction.Insert.store_row ramsql.Transaction.Insert.store_in
    ramsql.Transaction.Insert.note_row ramsql.Transaction.Insert.push_row
    ramsql.Transaction.Values.build_tuple ramsql.Transaction.check_aborted
    ramsql.Transaction.or_abort ramsql.Transaction.abort ramsql.Transaction.rollback
    ramsql.Transaction.revert_all ramsql.Transaction.unlock ramsql.Transaction.lock
    ramsql.Transaction.take_lock ramsql.Transaction.Statements.find_relation
    ramsql.Transaction.Statements.truncate_relation create_relation new_engine new_transaction
    new_attribute ramsql.Store.create_relation ramsql.Base.Dict.lookup ramsql.Base.Bytes.str_eq
    ramsql.Store.schema_relation ramsql.Base.Dict.insert ramsql.Attribute.convertible
    ramsql.Value.kind ramsql.Attribute.convert ramsql.Base.Dict.delete
    ramsql.Relation.check_primary_key ramsql.Base.Bytes.has_prefix ramsql.Index.values_at
    ramsql.Index.get ramsql.Base.Table.find ramsql.Relation.add_all ramsql.Index.add
    ramsql.Base.Table.put ramsql.Base.Table.erase ramsql.Value.sprint
whole_model = tt

insert_row_run :
    (insert runtime [] users ada with_users).0
    ≡ ok (record { values = int (pos 1) ∷ str (codes "ada") ∷ [] })
unfolding whole_model
insert_row_run = refl

insert_twice : (insert runtime [] users ada one_row).0 ≡ err pk_violation
unfolding whole_model
insert_twice = refl
