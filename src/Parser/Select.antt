-- ===== src/Parser/Select.antt =====
-- engine/parser/select.go.
pub mod Ends
pub mod Within
use ramsql.Base.{
  ℕ, zero, suc, Bool, true, false, not, ◌&&◌, ◌==◌, List, [], ◌∷◌, ◌++◌, if◌then◌else◌,
}
use ramsql.Base.Bytes.{Bytes, codes}
use ramsql.Base.Outcome.{Outcome, ok, err, syntax_error}
use ramsql.Parser.Token.{
  Token, token, one_of, number_token, select_token, distinct_token, on_token, bracket_opening_token,
  bracket_closing_token, count_token, comma_token, from_token, join_token, where_token, order_token,
  limit_token, offset_token, for_token, update_token,
}
use ramsql.Parser.Tree.{
  Decl, new_decl, add, add_all, Tokens, Parse, pure, raise, hang, ◌>>=◌, ◌>>◌, cur, is, has_next,
  next, consume, fuel,
}
use ramsql.Parser.Terms.{
  parse_attribute, parse_table_name, parse_builtin_func, parse_join, parse_order_by,
}
use ramsql.Parser.Statements.{parse_where}

-- addImplicitWhereAll
abbrev pub implicit_where : Decl
implicit_where =
    add (new_decl (token where_token (codes "where"))) (new_decl (token number_token (codes "1")))

-- parseForUpdate, where the current token is FOR
unfoldable pub parse_for_update : Parse Decl
parse_for_update = do d ← consume (for_token ∷ []); u ← consume (update_token ∷ []); pure (add d u)

-- One selected column: the columns of DISTINCT ON, and the others.
abbrev pub Columns : Type 0
Columns = List Decl × List Decl

unfoldable pub column : Bool → Columns → Parse Columns
unfolding parse_builtin_func parse_attribute
column open' (on, others) = do
  counted ← is (count_token ∷ [])
  if counted then (do d ← parse_builtin_func; pure (on, others ++ d ∷ [])) else (do
    d ← parse_attribute
    pure (if open' then (on ++ d ∷ [], others) else (on, others ++ d ∷ [])))

-- The loop over the selected columns; the flag is distinctOpen.
unfoldable pub columns_loop : ℕ → Bool → Columns → Parse Columns
unfolding column
columns_loop zero open' cs = hang
columns_loop (suc n) open' cs = column open' cs >>= λ cs'.
    is (bracket_closing_token ∷ []) >>= λ closes. is (comma_token ∷ []) >>= λ more.
    let again : Bool → Parse Columns = λ o. next >> columns_loop n o cs' in
    if open' && closes then again false else if more then again open' else pure cs'

-- The columns, where DISTINCT opened a bracket or not.
unfoldable pub parse_columns : Bool → Parse Columns
unfolding columns_loop
parse_columns open' = do n ← fuel; columns_loop n open' ([], [])

-- DISTINCT, and ON with its bracket
unfoldable pub distinct_open : Parse Bool
distinct_open = do
  on ← is (on_token ∷ [])
  if on
      then (do
        next
        bracket ← is (bracket_opening_token ∷ [])
        if bracket then (next >> pure true) else raise syntax_error)
      else pure false

-- From SELECT to the columns: the declaration with what is selected below it.
unfoldable pub select_head : Decl → Parse Decl
unfolding parse_columns distinct_open
select_head s = do
  distinct ← is (distinct_token ∷ [])
  if distinct
      then (do
        d ← consume (distinct_token ∷ [])
        open' ← distinct_open
        (on, others) ← parse_columns open'
        pure (add_all (add s (add_all d on)) others))
      else (do (on, others) ← parse_columns false; pure (add_all s others))

-- The loop over the tables, and whether the tokens have ended behind one.
unfoldable pub tables_loop : ℕ → Decl → Parse (Decl × Bool)
unfolding parse_table_name
tables_loop zero from = hang
tables_loop (suc n) from =
    next
    >> (parse_table_name >>= λ t. has_next >>= λ more. is (comma_token ∷ []) >>= λ comma.
        if not more
        then pure (add from t, true)
        else if comma
        then tables_loop n (add from t)
        else pure (add from t, false))

unfoldable pub joins_loop : ℕ → Decl → Parse Decl
unfolding parse_join
joins_loop zero s = hang
joins_loop (suc n) s = is (join_token ∷ []) >>= λ joined.
    if joined then (parse_join >>= λ j. joins_loop n (add s j)) else pure s

-- LIMIT n and OFFSET n
unfoldable pub counted_clause : ℕ → Parse Decl
counted_clause k = do d ← consume (k ∷ []); n ← consume (number_token ∷ []); pure (add d n)

-- The loop over the clauses; the flag is hazWhereClause.
unfoldable pub clauses_loop : ℕ → Bool → Decl → Parse Decl
unfolding parse_where parse_order_by counted_clause parse_for_update
clauses_loop zero where' s = hang
clauses_loop (suc n) where' s = cur >>= λ t.
    let again : Bool → Decl → Parse Decl → Parse Decl =
      λ w parent clause. clause >>= λ c. clauses_loop n w (add parent c) in
    if t.kind == where_token
    then again true s parse_where
    else if t.kind == order_token
    then again where' (if where' then s else add s implicit_where) parse_order_by
    else if t.kind == limit_token
    then again where' s (counted_clause limit_token)
    else if t.kind == offset_token
    then again where' s (counted_clause offset_token)
    else if t.kind == for_token
    then again where' s parse_for_update
    else pure s

unfoldable pub select_clauses : Decl → Parse Decl
unfolding joins_loop clauses_loop
select_clauses s = do n ← fuel; s ← joins_loop n s; m ← fuel; clauses_loop m false s

-- parseSelect
unfoldable pub parse_select : Parse Decl
unfolding select_head tables_loop select_clauses
parse_select = do
  t ← cur
  next
  s ← select_head (new_decl t)
  f ← cur
  from ← is (from_token ∷ [])
  if from
      then (do
        n ← fuel
        (tables, ended) ← tables_loop n (new_decl f)
        if ended then pure (add (add s tables) implicit_where) else select_clauses (add s tables))
      else raise syntax_error
