-- ===== src/Executor/Modify.antt =====
-- engine/executor: updateExecutor, deleteExecutor and truncateExecutor.
use ramsql.Base.{List, [], ◌∷◌, length, ltb, if◌then◌else◌}
use ramsql.Base.Int.{pos}
use ramsql.Base.Bytes.{Bytes}
use ramsql.Base.Outcome.{syntax_error}
use ramsql.Base.Exec.{Exec, pure, raise, ◌>>=◌, ◌>>◌}
use ramsql.Parser.Tree.{Decl}
use ramsql.Transaction.{Session}
use ramsql.Transaction.Statements.{truncate}
use ramsql.Query.Modify
use ramsql.Executor.Conditions.{lexeme_of, below, Context, get_predicates}
use ramsql.Executor.Statement.{Env, Done, done, first}
use ramsql.Executor.Rows.{returning, get_sets}
use ramsql.Executor.Tables.{schema_of}

-- The condition of a statement on one relation, without aliases.
abbrev pub context_of : Env → Bytes → Bytes → Context
context_of env schema relation = record {
  runtime = env.runtime;
  texts = env.texts;
  schema = schema;
  table = relation;
  args = env.args;
  aliases = [];
}

-- updateExecutor. RETURNING is checked, and every column is returned.
unfoldable pub update_executor : Env → List Decl → Exec Session Done
unfolding returning get_predicates get_sets
update_executor env (rel ∷ set' ∷ where' ∷ ds) = do
  let schema = schema_of rel []
  let all = rel ∷ set' ∷ where' ∷ ds
  if ltb 3 (length all) then returning schema (lexeme_of rel) all else pure ([], [])
  p ← get_predicates (context_of env schema (lexeme_of rel)) (below where')
  values ← get_sets env (below set') []
  (cols, rows) ← Modify.update env.runtime schema (lexeme_of rel) values [] p
  pure (record { last = pos 0; affected = length rows; cols = cols; rows = rows })
update_executor env ds = raise syntax_error

-- truncateExecutor: the relation is the first child of the first child.
unfoldable pub truncate_executor : List Decl → Exec Session Done
truncate_executor [] = raise syntax_error
truncate_executor (d ∷ ds) = do
  r ← first (below d)
  n ← truncate (schema_of d []) (lexeme_of r)
  pure (done n)

-- deleteExecutor: without WHERE it truncates.
unfoldable pub delete_executor : Env → List Decl → Exec Session Done
unfolding returning get_predicates truncate_executor
delete_executor env (from' ∷ where' ∷ ds) = do
  rel ← first (below from')
  let schema = schema_of rel []
  let all = from' ∷ where' ∷ ds
  if ltb 3 (length all) then returning schema (lexeme_of rel) all else pure ([], [])
  p ← get_predicates (context_of env schema (lexeme_of rel)) (below where')
  (cols, rows) ← Modify.delete env.runtime schema (lexeme_of rel) [] p
  pure (done (length rows))
delete_executor env ds = truncate_executor ds
