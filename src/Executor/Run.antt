-- ===== src/Executor/Run.antt =====
-- engine/executor: the table opsExecutors with createExecutor and dropExecutor, and the Tx object:
-- QueryContext, ExecContext, Commit and Rollback.
pub mod Truncate
use ramsql.Base.{
  ℕ, ◌+◌, Bool, true, false, ◌||◌, ◌==◌, Option, none, some, List, [], ◌∷◌, if◌then◌else◌,
}
use ramsql.Base.Int.{ℤ, pos}
use ramsql.Base.Bytes.{Bytes}
use ramsql.Base.Outcome.{Outcome, ok, err, malformed, syntax_error, not_implemented}
use ramsql.Base.Exec.{Exec, pure, raise, lift, ◌>>=◌, ◌>>◌}
use ramsql.Tuple.{Tuple}
use ramsql.Parser.Token.{
  one_of, create_token, table_token, schema_token, index_token, select_token, insert_token,
  delete_token, update_token, truncate_token, drop_token, grant_token, if_token,
}
use ramsql.Parser.Tree.{Decl, Decls, node, nil, cons}
use ramsql.Parser.Program.{parse_instruction}
use ramsql.Transaction
use ramsql.Transaction.{Session}
use ramsql.Executor.Values.{Texts, parse_date}
use ramsql.Executor.Conditions.{listed, below}
use ramsql.Executor.Statement.{Env, Done, done, first, has}
use ramsql.Executor.Rows.{insert_executor}
use ramsql.Executor.Tables.{
  create_table, create_schema_executor, drop_table, drop_schema_executor, create_index_executor,
}
use ramsql.Executor.Selectors.{select_executor}
use ramsql.Executor.Modify.{update_executor, delete_executor, truncate_executor}

-- t.opsExecutors[k] != nil
unfoldable pub executes : ℕ → Bool
executes k = one_of k (
    create_token ∷ table_token ∷ schema_token ∷ index_token ∷ select_token ∷ insert_token
    ∷ delete_token ∷ update_token ∷ truncate_token ∷ drop_token ∷ grant_token ∷ [])

-- dropExecutor
unfoldable pub drop_executor : Decl → Exec Session Done
unfolding has drop_table drop_schema_executor
drop_executor d = elim (below d) [
  | [] ↦ raise syntax_error
  | e ∷ es ↦ elim (has table_token d) [
    | some t ↦ drop_table (below e)
    | none ↦ elim (has schema_token d) [
      | some t ↦ drop_schema_executor (below e)
      | none ↦ raise not_implemented
    ]
  ]
]

-- The executors that call no other one.
unfoldable pub plain : Env → ℕ → Decl → Exec Session Done
unfolding create_index_executor create_schema_executor select_executor insert_executor
plain env k d =
    if k == schema_token
    then create_schema_executor (below d)
    else if k == index_token
    then create_index_executor d
    else if k == select_token
    then select_executor env (below d)
    else if k == insert_token
    then insert_executor env (below d)
    else if k == delete_token
    then delete_executor env (below d)
    else if k == update_token
    then update_executor env (below d)
    else if k == truncate_token
    then truncate_executor (below d)
    else if k == drop_token
    then drop_executor d
    else if k == grant_token
    then pure (done 1)
    else raise not_implemented

-- t.opsExecutors[decl.Token](t, decl, args): CREATE runs the executor of its first declaration, and TABLE
-- those of the declarations before its name.
unfoldable mutual
  pub execute : Env → Decl → Exec Session Done
  execute env (node k s ds) =
      let created = execute_first env ds in
      let left = execute_leading env ds in
      if k == create_token
      then created
      else if k == table_token
      then elim ds [
        | nil ↦ raise syntax_error
        | cons e es ↦ left >>= λ rest. create_table env (node k s (cons e es)) rest
      ]
      else plain env k (node k s ds)

  -- createExecutor
  pub execute_first : Env → Decls → Exec Session Done
  execute_first env nil = raise syntax_error
  execute_first env (cons d ds) = execute env d

  -- The first loop of createTableExecutor, with the declarations that it leaves.
  pub execute_leading : Env → Decls → Exec Session (List Decl)
  execute_leading env nil = pure []
  execute_leading env (cons (node k s es) ds) =
      let here = execute env (node k s es) in
      let rest = execute_leading env ds in
      if k == if_token
      then rest
      else if executes k
      then (here >>= λ x. rest)
      else pure (node k s es ∷ listed ds)

-- The parser of a statement, with the dates of its environment.
abbrev pub reads_date : Texts → Bytes → Bytes → Bool
reads_date x layout s = elim (x.parse_time layout s) [ none ↦ false | some t ↦ true ]

-- Tx.QueryContext: exactly one statement.
unfoldable pub query_context : Env → Bytes → Exec Session (List Bytes × List Tuple)
unfolding execute
query_context env s = do
  ds ← lift (parse_instruction (reads_date env.texts) s)
  elim ds [ d ∷ [] ↦ (execute env d >>= λ r. pure (r.cols, r.rows)) | _ ↦ raise malformed ]

-- The loop of Tx.ExecContext: the identifier is the one of the last statement.
unfoldable pub execute_all : Env → List Decl → ℤ → ℕ → Exec Session (ℤ × ℕ)
unfolding execute
execute_all env [] last total = pure (last, total)
execute_all env (d ∷ ds) last total = do
  r ← execute env d
  execute_all env ds r.last (total + r.affected)

-- Tx.ExecContext
unfoldable pub exec_context : Env → Bytes → Exec Session (ℤ × ℕ)
unfolding execute_all
exec_context env s = do
  ds ← lift (parse_instruction (reads_date env.texts) s)
  execute_all env ds (pos 0) 0

-- Tx.Commit and Tx.Rollback
unfoldable pub commit : Exec Session (Unit {0})
unfolding Transaction.commit
commit = do changed ← Transaction.commit; pure tt

unfoldable pub rollback : Exec Session (Unit {0})
unfolding Transaction.rollback
rollback = Transaction.rollback
