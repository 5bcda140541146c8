-- ===== src/Executor/Rows.antt =====
-- engine/executor/engine.go: the values of INSERT and of SET, and insertIntoTableExecutor.
pub mod Appends
pub mod Marks
use ramsql.Base.{
  ℕ, suc, Bool, true, false, ◌==◌, Option, none, some, List, [], ◌∷◌, ◌++◌, length, ltb,
  if◌then◌else◌,
}
use ramsql.Base.Int.{ℤ, pos}
use ramsql.Base.Bytes.{Bytes, codes, str_eq, to_lower}
use ramsql.Base.Dict
use ramsql.Base.Dict.{Dict}
use ramsql.Base.Outcome
use ramsql.Base.Outcome.{Outcome, ok, err, panic, blocked, malformed}
use ramsql.Base.Exec.{Exec, pure, raise, lift, ◌>>=◌, ◌>>◌}
use ramsql.Value
use ramsql.Value.{Value, Runtime, Kind, int64, kind, int}
use ramsql.Tuple.{Tuple}
use ramsql.Attribute.{convertible, convert}
use ramsql.Index.{values_at}
use ramsql.Parser.Token.{
  one_of, int_token, number_token, decimal_token, date_token, text_token, float_token, arg_token,
  named_arg_token, returning_token, schema_token,
}
use ramsql.Parser.Tree.{Decl}
use ramsql.Transaction.{Session}
use ramsql.Transaction.Statements.{relation_attribute}
use ramsql.Transaction.Insert.{insert}
use ramsql.Executor.Values.{Texts, NamedValue, to_instance, numbered}
use ramsql.Executor.Conditions.{kind_of, lexeme_of, below, first_of, others_of}
use ramsql.Executor.Statement.{Env, Done, first, second}

-- The name of the type of a literal; a text that reads as a time is one.
unfoldable pub literal_type : Env → List ℕ → ℕ → Bytes → Bytes
unfolding to_instance
literal_type env floats k s =
    if one_of k (int_token ∷ number_token ∷ [])
    then codes "bigint"
    else if k == date_token
    then codes "timestamp"
    else if k == text_token
    then codes "text"
    else if one_of k floats
    then codes "float"
    else elim (to_instance env.runtime env.texts s (codes "timestamp")) [
      | ok v ↦ codes "timestamp"
      | _ ↦ codes "text"
    ]

-- The last argument of the name; nil where there is none.
unfoldable pub last_named : List NamedValue → Bytes → Value → Value
last_named [] s v = v
last_named (a ∷ as') s v = last_named as' s (if str_eq a.name s then a.value else v)

-- The value of one declaration of VALUES, and the number of the next `?`.
unfoldable pub row_value : Env → Decl → ℕ → Outcome (Value × ℕ)
unfolding literal_type last_named to_instance numbered
row_value env d next =
    if kind_of d == arg_token
    then numbered env.texts env.args (lexeme_of d) next
    else if kind_of d == named_arg_token
    then ok (last_named env.args (lexeme_of d) Value.nil, next)
    else Outcome.◌>>=◌
        (to_instance env.runtime env.texts (lexeme_of d)
          (literal_type env (float_token ∷ []) (kind_of d) (lexeme_of d)))
        λ v. ok (v, next)

-- getValues, with the attributes that are left. A value without an attribute panics.
unfoldable pub get_values : Env → List Bytes → List Decl → ℕ → Dict Value → Outcome (Dict Value)
unfolding row_value
get_values env attrs [] next values = ok values
get_values env attrs (d ∷ ds) next values =
    let others : List Bytes = elim attrs [ [] ↦ [] | a ∷ as' ↦ as' ] in
    let skipped = get_values env others ds next values in
    let taken : Value → ℕ → Outcome (Dict Value) = λ v n. elim attrs [
      | [] ↦ panic
      | a ∷ as' ↦ get_values env as' ds n (Dict.insert (to_lower a) v values)
    ] in
    if str_eq (lexeme_of d) (codes "default")
    then skipped
    else if str_eq (lexeme_of d) (codes "DEFAULT")
    then skipped
    else Outcome.◌>>=◌ (row_value env d next) λ (v, n). taken v n

-- The value of SET: `?` counts from one again in every assignment, and a named argument is its text.
unfoldable pub set_value : Env → Decl → Outcome Value
unfolding literal_type to_instance numbered
set_value env d =
    if kind_of d == arg_token
    then (Outcome.◌>>=◌ (numbered env.texts env.args (lexeme_of d) 1) λ (v, n). ok v)
    else to_instance env.runtime env.texts (lexeme_of d)
        (literal_type env (decimal_token ∷ []) (kind_of d) (lexeme_of d))

-- getSet
unfoldable pub get_set : Env → Decl → Dict Value → Exec Session (Dict Value)
unfolding set_value
get_set env d values = do
  e ← second (below d)
  v ← lift (set_value env e)
  pure (Dict.insert (lexeme_of d) v values)

unfoldable pub get_sets : Env → List Decl → Dict Value → Exec Session (Dict Value)
unfolding get_set
get_sets env [] values = pure values
get_sets env (d ∷ ds) values = do more ← get_set env d values; get_sets env ds more

-- `if err != nil { return fmt.Errorf(...) }`
unfoldable pub or_malformed : {A : Type 0} → Exec Session A → Exec Session A
or_malformed m s =
    let (r, s') = m s in
    elim r [
      | ok a ↦ (ok a, s')
      | err e ↦ (err malformed, s')
      | panic ↦ (panic, s')
      | blocked ↦ (blocked, s')
    ]

-- The attributes behind RETURNING, with their positions in the relation.
unfoldable pub returning : Bytes → Bytes → List Decl → Exec Session (List Bytes × List ℕ)
unfolding or_malformed relation_attribute
returning schema relation [] = pure ([], [])
returning schema relation (d ∷ ds) =
    let rest = returning schema relation ds in
    if kind_of d == returning_token
    then (do
      e ← first (below d)
      (i, a) ← or_malformed (relation_attribute schema relation (lexeme_of e))
      (names, idx) ← rest
      pure (lexeme_of e ∷ names, i ∷ idx))
    else rest

-- The names below the relation, and the schema: the last one that is named.
unfoldable pub insert_names : List Decl → Bytes → Bytes × List Bytes
insert_names [] schema = (schema, [])
insert_names (d ∷ ds) schema =
    if kind_of d == schema_token
    then insert_names ds (lexeme_of d)
    else let (found, names) = insert_names ds schema in (found, lexeme_of d ∷ names)

-- The guess of lastInsertedID: the first value as an int64, if its type converts. The type of nil is
-- nil, and its ConvertibleTo panics.
unfoldable pub guess_id : Runtime → List Value → ℤ → Outcome ℤ
unfolding convertible convert kind
guess_id rt [] last = ok last
guess_id rt (Value.nil ∷ vs) last = panic
guess_id rt (v ∷ vs) last =
    if convertible (kind v) int64
    then elim (convert rt v int64) [ ok (int n) ↦ ok n | _ ↦ panic ]
    else ok last

-- The loop over the rows of VALUES
unfoldable pub insert_rows :
    Env → Bytes → Bytes → List Bytes → List ℕ → List Decl → ℤ → Exec Session (ℤ × List Tuple)
unfolding get_values insert guess_id values_at
insert_rows env schema relation attrs idx [] last = pure (last, [])
insert_rows env schema relation attrs idx (d ∷ ds) last = do
  values ← lift (get_values env attrs (below d) 1 [])
  t ← insert env.runtime schema relation values
  returned ← lift (values_at t.values idx)
  here ← lift (guess_id env.runtime t.values last)
  (final, ts) ← insert_rows env schema relation attrs idx ds here
  pure (final, record { values = returned } ∷ ts)

-- insertIntoTableExecutor. RETURNING is read before the schema is: it looks in the default one.
unfoldable pub insert_executor : Env → List Decl → Exec Session Done
unfolding returning insert_names insert_rows
insert_executor env ds = do
  into ← first ds
  relation ← first (below into)
  (names, idx) ← if ltb 2 (length ds) then returning [] (lexeme_of relation) ds else pure ([], [])
  let (schema, attrs) = insert_names (below relation) []
  rows ← second ds
  (last, ts) ← insert_rows env schema (lexeme_of relation) attrs idx (below rows) (pos 0)
  pure (record {
    last = last;
    affected = length ts;
    cols = names;
    rows = elim names [ [] ↦ [] | a ∷ as' ↦ ts ];
  })
