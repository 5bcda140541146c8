-- ===== src/Executor/Tables.antt =====
-- engine/executor: parseAttribute of attribute.go, and the executors of engine.go on schemas, tables
-- and indexes.
use ramsql.Base.{
  Bool, true, false, ◌&&◌, not, ◌==◌, none, some, List, [], ◌∷◌, ◌++◌, map, if◌then◌else◌,
}
use ramsql.Base.Bytes.{Bytes, codes, str_eq, to_lower}
use ramsql.Base.Outcome.{
  Outcome, ok, err, malformed, syntax_error, relation_missing, relation_exists,
}
use ramsql.Base.Exec.{Exec, pure, raise, lift, gets, ◌>>=◌, ◌>>◌}
use ramsql.Attribute.{
  Attribute, new_attribute, with_auto_increment, with_unique, with_default, default_const,
  default_now,
}
use ramsql.Relation.{hash_index_type}
use ramsql.Store.{default_schema}
use ramsql.Parser.Token.{
  one_of, string_token, decimal_token, number_token, date_token, autoincrement_token, default_token,
  local_timestamp_token, now_token, unique_token, primary_token, key_token, schema_token,
  table_token,
}
use ramsql.Parser.Tree.{Decl}
use ramsql.Transaction.{Session}
use ramsql.Transaction.Statements.{
  check_schema, check_relation, create_relation, drop_relation, create_schema, drop_schema,
  create_index,
}
use ramsql.Executor.Values.{to_instance}
use ramsql.Executor.Conditions.{kind_of, lexeme_of, below, others_of}
use ramsql.Executor.Statement.{
  Env, Done, done, first, second, has, leads_to, has_if_not_exists, has_if_exists,
}

-- The type of a column, as it is written.
unfoldable pub column_type : Decl → Outcome Bytes
column_type d =
    if kind_of d == decimal_token
    then ok (codes "float")
    else if kind_of d == number_token
    then ok (codes "int")
    else if kind_of d == date_token
    then ok (codes "date")
    else if kind_of d == string_token
    then ok (lexeme_of d)
    else err malformed

-- DEFAULT: the clock, or a constant of the type of the column.
unfoldable pub default_clause : Env → Bytes → Attribute → Decl → Exec Session Attribute
unfolding to_instance
default_clause env type_name a d = do
  e ← first (below d)
  if one_of (kind_of e) (local_timestamp_token ∷ now_token ∷ [])
      then pure (with_default a default_now)
      else (do
        v ← lift (to_instance env.runtime env.texts (lexeme_of e) type_name)
        pure (with_default a (default_const v)))

-- One turn of the loop over what stands behind the type, with the key flag.
unfoldable pub column_clause :
    Env → Bytes → Attribute × Bool → Decl → Exec Session (Attribute × Bool)
unfolding default_clause
column_clause env type_name (a, pk) d =
    if kind_of d == autoincrement_token
    then pure (with_auto_increment a, pk)
    else if kind_of d == default_token
    then (default_clause env type_name a d >>= λ b. pure (b, pk))
    else if kind_of d == unique_token
    then pure (with_unique a, pk)
    else if kind_of d == primary_token
    then pure (a, (if leads_to key_token (below d) then true else pk))
    else pure (a, pk)

unfoldable pub column_clauses :
    Env → Bytes → Attribute × Bool → List Decl → Exec Session (Attribute × Bool)
unfolding column_clause
column_clauses env type_name x [] = pure x
column_clauses env type_name x (d ∷ ds) = do
  y ← column_clause env type_name x d
  column_clauses env type_name y ds

-- parseAttribute, with the flag isPk
unfoldable pub parse_attribute : Env → Decl → Exec Session (Attribute × Bool)
unfolding column_type new_attribute column_clauses
parse_attribute env d =
    if kind_of d == string_token
    then elim (below d) [
      | [] ↦ raise malformed
      | t ∷ clauses ↦ (do
        type_name ← lift (column_type t)
        (a, pk) ←
            column_clauses env type_name (new_attribute (to_lower (lexeme_of d)) type_name, false)
              clauses
        pure (
          (if str_eq (to_lower type_name) (codes "bigserial") then with_auto_increment a else a),
          pk,
        ))
    ]
    else raise malformed

-- The columns of CREATE TABLE: the attributes, the keys among them, and the rest.
unfoldable pub table_columns :
    Env → List Decl → Exec Session (List Attribute × List Bytes × List Decl)
unfolding parse_attribute
table_columns env [] = pure ([], [], [])
table_columns env (d ∷ ds) =
    let rest = table_columns env ds in
    if kind_of d == string_token
    then (do
      (a, pk) ← parse_attribute env d
      (more, keys, left) ← rest
      pure (a ∷ more, (if pk then a.name ∷ keys else keys), left))
    else pure ([], [], d ∷ ds)

-- PRIMARY KEY (...) behind the columns
unfoldable pub table_key : List Decl → Exec Session (List Bytes)
table_key [] = pure []
table_key (d ∷ ds) =
    if kind_of d == primary_token
    then (first (below d) >>= λ e. pure (map lexeme_of (below e)))
    else pure []

abbrev pub schema_of : Decl → Bytes → Bytes
schema_of d schema = elim (has schema_token d) [ none ↦ schema | some e ↦ lexeme_of e ]

-- createTableExecutor behind its first loop, with the declarations that the loop has left.
unfoldable pub create_table : Env → Decl → List Decl → Exec Session Done
unfolding table_columns table_key has has_if_not_exists check_relation
create_table env d left = do
  let schema = schema_of d []
  name ← first left
  exists ← gets (check_relation schema (lexeme_of name))
  if exists && has_if_not_exists (below d)
      then pure (done 0)
      else if exists
      then raise (relation_exists (lexeme_of name))
      else (do
        (attributes, keys, rest) ← table_columns env (others_of left)
        key ← table_key rest
        create_relation schema (lexeme_of name) attributes (keys ++ key)
        pure (done 1))

-- createSchemaExecutor
unfoldable pub create_schema_executor : List Decl → Exec Session Done
unfolding has_if_not_exists check_schema create_schema
create_schema_executor [] = raise syntax_error
create_schema_executor (d ∷ ds) = do
  exists ← gets (check_schema (lexeme_of d))
  if has_if_not_exists (d ∷ ds) && exists
      then pure (done 0)
      else (do create_schema (lexeme_of d); pure (done 0))

-- The declaration that is dropped, behind IF EXISTS.
abbrev pub dropped : List Decl → Exec Session Decl
dropped ds = if has_if_exists ds then second ds else first ds

unfoldable pub drop_table : List Decl → Exec Session Done
unfolding has has_if_exists check_relation drop_relation
drop_table [] = raise syntax_error
drop_table (d ∷ ds) = do
  r ← dropped (d ∷ ds)
  let schema = schema_of r default_schema
  exists ← gets (check_relation schema (lexeme_of r))
  if exists
      then (do drop_relation schema (lexeme_of r); pure (done 1))
      else if has_if_exists (d ∷ ds)
      then pure (done 0)
      else raise (relation_missing (lexeme_of r))

unfoldable pub drop_schema_executor : List Decl → Exec Session Done
unfolding has_if_exists check_schema drop_schema
drop_schema_executor [] = raise syntax_error
drop_schema_executor (d ∷ ds) = do
  r ← dropped (d ∷ ds)
  exists ← gets (check_schema (lexeme_of r))
  if has_if_exists (d ∷ ds) && not exists
      then pure (done 0)
      else (do drop_schema (lexeme_of r); pure (done 1))

-- createIndexExecutor: the schema stays empty. Where a table is named, one more declaration is passed
-- over.
unfoldable pub create_index_executor : Decl → Exec Session Done
unfolding has has_if_not_exists create_index
create_index_executor d = elim (below d) [
  | [] ↦ raise syntax_error
  | e ∷ es ↦ (do
    let ds = if has_if_not_exists (e ∷ es) then es else e ∷ es
    name ← first ds
    let table = has table_token d
    let relation : Bytes = elim table [ none ↦ [] | some t ↦ lexeme_of t ]
    let attrs : List Decl = elim table [ none ↦ others_of ds | some t ↦ others_of (others_of ds) ]
    create_index [] relation (lexeme_of name) hash_index_type (map lexeme_of attrs)
    pure (done 0))
]
