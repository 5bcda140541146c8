-- ===== src/Driver.antt =====
-- driver/conn.go, stmt.go and rows.go: a connection with its transaction, prepared statements, and the
-- rows of a result.
pub mod Uri
pub mod Atomic
use ramsql.Base.{
  ℕ, zero, suc, ◌+◌, Option, none, some, List, [], ◌∷◌, length, ltb, get_elem?, if◌then◌else◌,
}
use ramsql.Base.Int.{ℤ}
use ramsql.Base.Bytes.{Bytes}
use ramsql.Base.Dict.{Dict}
use ramsql.Base.Outcome.{Outcome, ok, err, panic, blocked, Error, malformed, tuple_mismatch}
use ramsql.Base.Exec.{Exec}
use ramsql.Value.{Value, print_uint}
use ramsql.Tuple.{Tuple}
use ramsql.Store.{Heap}
use ramsql.Transaction.{Session, Change, new_transaction}
use ramsql.Executor.Values.{NamedValue}
use ramsql.Executor.Statement.{Env}
use ramsql.Executor.Run
use ramsql.Executor.Run.{query_context, exec_context}

-- The Transaction object of a connection, without the heap that it shares.
pub record Open : Type 0 where
  pub locks : Dict ℕ
  pub changes : List Change
  pub error : Option Error

-- Conn, with the heap of its engine.
pub record Conn : Type 0 where
  pub heap : Heap
  pub tx : Option Open

abbrev pub session_of : Heap → Open → Session
session_of g t = record { heap = g; locks = t.locks; changes = t.changes; error = t.error }

abbrev pub open_of : Session → Open
open_of s = record { locks = s.locks; changes = s.changes; error = s.error }

-- A call that changes the connection.
abbrev pub Calls : Type 0 → Type 0
Calls A = Conn → Outcome A × Conn

-- Begin and BeginTx: a transaction that is open is forgotten.
unfoldable pub begin : Calls (Unit {0})
unfolding new_transaction
begin c = (ok tt, record c { tx = some (open_of (new_transaction c.heap)) })

-- A call on the transaction of the connection, which stays open.
abbrev pub within : {A : Type 0} → Open → Exec Session A → Calls A
within t m c =
    let (r, s) = m (session_of c.heap t) in (r, record { heap = s.heap; tx = some (open_of s) })

-- `c.tx = nil` behind a call that has come back
abbrev pub closed : {A : Type 0} → Outcome A × Conn → Outcome A × Conn
closed (ok a, c) = (ok a, record c { tx = none })
closed (err e, c) = (err e, record c { tx = none })
closed (panic, c) = (panic, c)
closed (blocked, c) = (blocked, c)

-- Conn.Rollback, Conn.Commit and Conn.Close
unfoldable pub rollback : Calls (Unit {0})
unfolding Run.rollback
rollback c = elim c.tx [ none ↦ (ok tt, c) | some t ↦ closed (within t Run.rollback c) ]

unfoldable pub commit : Calls (Unit {0})
unfolding Run.commit
commit c = elim c.tx [ none ↦ (ok tt, c) | some t ↦ closed (within t Run.commit c) ]

unfoldable pub close : Calls (Unit {0})
close c = rollback c

-- `defer tx.Rollback()`, which runs behind a panic as well.
unfoldable pub deferred : {A : Type 0} → Outcome A → Session → Outcome A × Heap
unfolding Run.rollback
deferred o s =
    let (r, s') = Run.rollback s in
    elim r [
      | ok done ↦ (o, s'.heap)
      | err e ↦ (o, s'.heap)
      | panic ↦ (panic, s'.heap)
      | blocked ↦ (blocked, s'.heap)
    ]

-- Without a transaction: the call runs in one of its own, which is committed where it succeeds. What a
-- Commit that fails is answered with is given.
unfoldable pub autocommit :
    {A : Type 0} → (A → Error → Outcome A) → Exec Session A → Heap → Outcome A × Heap
unfolding Run.commit deferred
autocommit failed m g =
    let (r, s) = m (new_transaction g) in
    elim r [
      | ok a ↦
          (let (d, s') = Run.commit s in
            elim d [
              | ok done ↦ deferred (ok a) s'
              | err e ↦ deferred (failed a e) s'
              | panic ↦ deferred panic s'
              | blocked ↦ (blocked, s'.heap)
            ])
      | err e ↦ deferred (err e) s
      | panic ↦ deferred panic s
      | blocked ↦ (blocked, s.heap)
    ]

abbrev pub run : {A : Type 0} → (A → Error → Outcome A) → Exec Session A → Calls A
run failed m c = elim c.tx [
  | some t ↦ within t m c
  | none ↦ let (r, g) = autocommit failed m c.heap in (r, record c { heap = g })
]

-- Conn.QueryContext
unfoldable pub query : Env → Bytes → Calls (List Bytes × List Tuple)
unfolding autocommit query_context
query env s = run (λ rows e. err e) (query_context env s)

-- Conn.ExecContext: where Commit fails it returns r.err, which is nil, and not the error.
unfoldable pub exec : Env → Bytes → Calls (ℤ × ℕ)
unfolding autocommit exec_context
exec env s = run (λ result e. ok result) (exec_context env s)

-- The arguments of a prepared statement are named by their positions.
unfoldable pub positional : ℕ → List Value → List NamedValue
positional n [] = []
positional n (v ∷ vs) = record { name = print_uint n; value = v } ∷ positional (n + 1) vs

-- recover: a panic becomes an error.
abbrev pub recovered : {A : Type 0} → Outcome A × Conn → Outcome A × Conn
recovered (panic, c) = (err malformed, c)
recovered (o, c) = (o, c)

abbrev pub prepared : {A : Type 0} → (Env → Bytes → Calls A) → Env → Bytes → List Value → Calls A
prepared f env [] args c = (err malformed, c)
prepared f env (b ∷ s) args c = recovered (f (record env { args = positional 1 args }) (b ∷ s) c)

-- Stmt.Query and Stmt.Exec
unfoldable pub stmt_query : Env → Bytes → List Value → Calls (List Bytes × List Tuple)
unfolding query positional
stmt_query = prepared query

unfoldable pub stmt_exec : Env → Bytes → List Value → Calls (ℤ × ℕ)
unfolding exec positional
stmt_exec = prepared exec

-- Rows
pub record Rows : Type 0 where
  pub columns : List Bytes
  pub tuples : List Tuple
  pub idx : ℕ

-- dest[i] = v for each value, in a slice that is long enough
unfoldable pub copy_over : List Value → List Value → List Value
copy_over [] dest = dest
copy_over (v ∷ vs) [] = []
copy_over (v ∷ vs) (d ∷ dest) = v ∷ copy_over vs dest

-- Rows.Next: none is io.EOF.
unfoldable pub next_row : List Value → Rows → Outcome (Option (List Value)) × Rows
unfolding copy_over
next_row dest r = elim (get_elem? r.tuples r.idx) [
  | none ↦ (ok none, r)
  | some t ↦ (
    (if ltb (length dest) (length t.values)
        then err tuple_mismatch
        else ok (some (copy_over t.values dest))),
    record r { idx = suc r.idx },
  )
]
