-- ===== src/Executor/Select.antt =====
-- engine/executor: selectExecutor, with getSelectedTables, getSelector, getJoin, getDistinctSorter and
-- orderbyExecutor.
use ramsql.Base.{ℕ, ◌==◌, Option, none, some, List, [], ◌∷◌, ◌++◌, map, if◌then◌else◌}
use ramsql.Base.Int.{ℤ}
use ramsql.Base.Bytes.{Bytes, str_eq}
use ramsql.Base.Dict
use ramsql.Base.Dict.{Dict}
use ramsql.Base.Outcome.{malformed}
use ramsql.Base.Exec.{Exec, pure, raise, deref, ◌>>=◌, ◌>>◌}
use ramsql.Predicate.{Predicate}
use ramsql.Parser.Token.{
  one_of, string_token, from_token, where_token, join_token, on_token, offset_token, distinct_token,
  order_token, limit_token, as_token, asc_token, desc_token,
}
use ramsql.Parser.Tree.{Decl}
use ramsql.Transaction.{Session}
use ramsql.Query.Join.{NaturalJoin}
use ramsql.Query.Order.{
  Sorter, SortExpression, Direction, asc, desc, order_by, distinct, offset_by, limit_by,
}
use ramsql.Executor.Values.{Texts}
use ramsql.Executor.Conditions.{kind_of, lexeme_of, below, get_predicates}
use ramsql.Executor.Statement.{Env, first, second, has}
use ramsql.Executor.Tables.{schema_of}

-- What the clauses of a SELECT have set.
pub record Clauses : Type 0 where
  pub schema : Bytes
  pub tables : List Bytes
  pub aliases : Dict Bytes
  pub predicate : Option Predicate
  pub joiners : List NaturalJoin
  pub sorters : List Sorter

unfoldable pub no_clauses : Clauses
no_clauses = record {
  schema = [];
  tables = [];
  aliases = [];
  predicate = none;
  joiners = [];
  sorters = [];
}

-- getSelectedTables: the schema is the one of the last table.
unfoldable pub selected_tables : List Decl → Clauses → Exec Session Clauses
unfolding has
selected_tables [] c = pure c
selected_tables (d ∷ ds) c =
    let noted : Dict Bytes → Clauses = λ aliases. record c {
      schema = schema_of d [];
      tables = c.tables ++ lexeme_of d ∷ [];
      aliases = aliases;
    } in
    elim (has as_token d) [
      | none ↦ selected_tables ds (noted c.aliases)
      | some e ↦ first (below e) >>= λ a.
          selected_tables ds (noted (Dict.insert (lexeme_of a) (lexeme_of d) c.aliases))
    ]

-- A side of ON: the relation that is written before the column, if there is one.
abbrev pub side_relation : Decl → Bytes → Bytes
side_relation d rel = elim (below d) [ [] ↦ rel | e ∷ es ↦ lexeme_of e ]

abbrev pub join_sides : Decl → Decl → Bytes → Bytes → NaturalJoin
join_sides l r left right = record {
  leftr = side_relation l left;
  lefta = lexeme_of l;
  rightr = side_relation r right;
  righta = lexeme_of r;
}

-- getJoin
unfoldable pub get_join : Decl → Bytes → Exec Session NaturalJoin
get_join d left = do
  table ← first (below d)
  if kind_of table == string_token then pure tt else raise malformed
  on ← second (below d)
  if kind_of on == on_token then pure tt else raise malformed
  elim (below on) [
    | l ∷ m ∷ r ∷ [] ↦ (do
      q ← first (below l)
      pure (
          if str_eq (lexeme_of q) left
          then join_sides l r left (lexeme_of table)
          else join_sides r l left (lexeme_of table)))
    | _ ↦ raise malformed
  ]

-- getDistinctSorter: the columns of ON, or the declaration behind DISTINCT.
unfoldable pub get_distinct : Decl → Decl → Sorter
get_distinct d behind = elim (below d) [
  | [] ↦ distinct [] (lexeme_of behind ∷ [])
  | e ∷ es ↦ distinct [] (map lexeme_of (e ∷ es))
]

-- One expression of ORDER BY, with the direction and the relation as the last one left them.
unfoldable pub order_expression : Bytes → Decl → ℕ × Bytes → ℕ × Bytes
order_expression table d (k, rel) = elim (below d) [
  | e ∷ [] ↦
      if kind_of e == string_token
      then (asc_token, lexeme_of e)
      else if one_of (kind_of e) (asc_token ∷ desc_token ∷ [])
      then (kind_of e, table)
      else (k, rel)
  | e ∷ f ∷ [] ↦ (kind_of f, lexeme_of e)
  | _ ↦ (asc_token, rel)
]

abbrev pub direction_of : ℕ → Direction
direction_of k = if k == desc_token then desc else asc

-- orderbyExecutor: the relation of the last expression is that of all.
unfoldable pub order_expressions :
    Bytes → List Decl → ℕ × Bytes → List SortExpression → Bytes × List SortExpression
unfolding order_expression
order_expressions table [] (k, rel) es = (rel, es)
order_expressions table (d ∷ ds) state es =
    let (k, rel) = order_expression table d state in
    order_expressions table ds (k, rel)
      (es ++ record { attr = lexeme_of d; direction = direction_of k } ∷ [])

unfoldable pub order_sorter : Decl → Bytes → Sorter
unfolding order_expressions
order_sorter d table =
    let (rel, es) = order_expressions table (below d) (0, table) [] in order_by rel es

-- The bound of LIMIT or OFFSET
abbrev pub bound : Texts → Decl → Exec Session ℤ
bound x d = do
  e ← first (below d)
  elim (x.parse_int (lexeme_of e)) [ none ↦ raise malformed | some n ↦ pure n ]

-- tables[0]
abbrev pub main_table : Clauses → Exec Session Bytes
main_table c = deref (elim c.tables [ [] ↦ none | t ∷ ts ↦ some t ])

abbrev pub with_sorter : Clauses → Sorter → Clauses
with_sorter c s = record c { sorters = c.sorters ++ s ∷ [] }

-- One turn of the first loop of selectExecutor, with the declarations behind.
unfoldable pub select_clause : Env → Decl → List Decl → Clauses → Exec Session Clauses
unfolding selected_tables get_predicates get_join get_distinct order_sorter
select_clause env d ds c =
    if kind_of d == from_token
    then selected_tables (below d) (record c { tables = []; aliases = []; schema = [] })
    else if kind_of d == where_token
    then (do
      table ← main_table c
      p ←
          get_predicates
            (record {
              runtime = env.runtime;
              texts = env.texts;
              schema = c.schema;
              table = table;
              args = env.args;
              aliases = c.aliases;
            })
            (below d)
      pure (record c { predicate = some p }))
    else if kind_of d == join_token
    then (do
      table ← main_table c
      j ← get_join d table
      pure (record c { joiners = c.joiners ++ j ∷ [] }))
    else if kind_of d == offset_token
    then (bound env.texts d >>= λ n. pure (with_sorter c (offset_by n)))
    else if kind_of d == distinct_token
    then (first ds >>= λ e. pure (with_sorter c (get_distinct d e)))
    else if kind_of d == order_token
    then (main_table c >>= λ table. pure (with_sorter c (order_sorter d table)))
    else if kind_of d == limit_token
    then (bound env.texts d >>= λ n. pure (with_sorter c (limit_by n)))
    else pure c

unfoldable pub select_clauses : Env → List Decl → Clauses → Exec Session Clauses
unfolding select_clause
select_clauses env [] c = pure c
select_clauses env (d ∷ ds) c = do more ← select_clause env d ds c; select_clauses env ds more
