-- ===== src/Parser/Statements.antt =====
-- engine/parser/where.go, insert.go, delete.go, truncate.go, drop.go, and parseUpdate of parser.go.
pub mod Ends
pub mod Within
pub mod RoundTrip
use ramsql.Base.{ℕ, zero, suc, Bool, true, false, not, ◌&&◌, ◌==◌, List, [], ◌∷◌, if◌then◌else◌}
use ramsql.Base.Bytes.{Bytes, codes, str_eq}
use ramsql.Base.Outcome.{Outcome, ok, err, syntax_error}
use ramsql.Parser.Token.{
  Token, one_of, number_token, string_token, equality_token, distinctness_token, left_diple_token,
  right_diple_token, less_or_equal_token, greater_or_equal_token, bracket_opening_token,
  bracket_closing_token, in_token, not_token, is_token, null_token, where_token, order_token,
  limit_token, for_token, and_token, or_token, update_token, set_token, comma_token, delete_token,
  from_token, truncate_token, drop_token, table_token, index_token, schema_token, insert_token,
  into_token, values_token, returning_token,
}
use ramsql.Parser.Tree.{
  Decl, new_decl, add, Tokens, Parse, pure, raise, crash, hang, ◌>>=◌, ◌>>◌, cur, is, has_next,
  next, consume, fuel,
}
use ramsql.Parser.Terms.{
  parse_attribute, parse_table_name, parse_quoted_token, parse_value, parse_in, parse_attribution,
  parse_list_element, list_loop, bracket_list,
}

-- t.Token == NumberToken && t.Lexeme == "1"
abbrev pub is_one : Token → Bool
is_one t = t.kind == number_token && str_eq t.lexeme (codes "1")

-- isNext(NumberToken), and its lexeme
unfoldable pub next_is_one : Parse Bool
next_is_one [] = ok (false, [])
next_is_one (t ∷ []) = ok (false, t ∷ [])
next_is_one (t ∷ u ∷ ts) = ok (is_one u, t ∷ u ∷ ts)

-- WHERE 1, and WHERE 1 = 1
unfoldable pub condition_one : Decl → Parse Decl
unfolding next_is_one
condition_one d = do
  more ← has_next
  if more
      then (do
        next
        equals ← is (equality_token ∷ [])
        one ← next_is_one
        if equals && one
            then (do consume (equality_token ∷ []); consume (number_token ∷ []); pure d)
            else pure d)
      else pure d

abbrev comparisons : List ℕ
comparisons =
    equality_token ∷ distinctness_token ∷ left_diple_token ∷ right_diple_token ∷ less_or_equal_token
    ∷ greater_or_equal_token ∷ []

-- a NOT IN (...)
unfoldable pub condition_not : Decl → Parse Decl
unfolding parse_in
condition_not a = do
  d ← consume (not_token ∷ [])
  in_ ← is (in_token ∷ [])
  if in_ then (do l ← parse_in; pure (add a (add d l))) else raise syntax_error

-- a IS, NOT or not, NULL or not
unfoldable pub condition_is : Decl → Parse Decl
condition_is a = do
  d ← consume (is_token ∷ [])
  negated ← is (not_token ∷ [])
  d ← if negated then (do n ← consume (not_token ∷ []); pure (add d n)) else pure d
  null ← is (null_token ∷ [])
  d ← if null then (do n ← consume (null_token ∷ []); pure (add d n)) else pure d
  pure (add a d)

-- The value, and the closing bracket where one was opened.
unfoldable pub condition_value : Bool → Decl → Parse Decl
unfolding parse_value
condition_value bracket a = do
  v ← parse_value
  if bracket then (do consume (bracket_closing_token ∷ []); pure (add a v)) else pure (add a v)

unfoldable pub condition_operator : Bool → Decl → Parse Decl
unfolding condition_not condition_is condition_value
condition_operator bracket a = do
  t ← cur
  if one_of t.kind comparisons
      then (do o ← consume comparisons; condition_value bracket (add a o))
      else if t.kind == in_token
      then (do l ← parse_in; pure (add a l))
      else if t.kind == not_token
      then condition_not a
      else if t.kind == is_token
      then condition_is a
      else condition_value bracket a

-- parseCondition
unfoldable pub parse_condition : Parse Decl
unfolding condition_one condition_operator parse_attribute
parse_condition = do
  t ← cur
  bracket ← is (bracket_opening_token ∷ [])
  if is_one t
      then condition_one (new_decl t)
      else if bracket
      then (do consume (bracket_opening_token ∷ []); a ← parse_attribute; condition_operator true a)
      else (do a ← parse_attribute; condition_operator false a)

-- The link of two conditions, where there is one.
abbrev pub link : Decl → Bool → Parse Decl
link d true = do l ← consume (and_token ∷ or_token ∷ []); pure (add d l)
link d false = pure d

-- The loop of parseWhere
unfoldable pub where_loop : ℕ → Bool → Decl → Parse Decl
unfolding parse_condition
where_loop zero got d = hang
where_loop (suc n) got d = has_next >>= λ more.
    is (order_token ∷ limit_token ∷ for_token ∷ []) >>= λ stop.
    let rest : Parse Decl =
      (parse_condition >>= λ c. is (and_token ∷ or_token ∷ []) >>= λ linked.
      link (add d c) linked >>= λ d'. where_loop n true d') in
    if not more && got then pure d else if stop then pure d else rest

-- parseWhere, which adds what it returns below the statement
unfoldable pub parse_where : Parse Decl
unfolding where_loop
parse_where = do d ← consume (where_token ∷ []); n ← fuel; where_loop n false d

-- p.consumeToken(CommaToken), with its error passed over
abbrev pub optional_comma : Parse Bool
optional_comma = is (comma_token ∷ []) >>= λ found.
    if found then (consume (comma_token ∷ []) >> pure true) else pure false

-- The loop of parseUpdate
unfoldable pub set_loop : ℕ → Bool → Decl → Parse Decl
unfolding parse_attribution
set_loop zero got d = hang
set_loop (suc n) got d = is (where_token ∷ []) >>= λ stop. has_next >>= λ more.
    let rest : Parse Decl =
      (parse_attribution >>= λ a. optional_comma >>= λ found. set_loop n true (add d a)) in
    if stop then pure d else if not more && got then pure d else rest

-- parseUpdate
unfoldable pub parse_update : Parse Decl
unfolding set_loop parse_where parse_quoted_token
parse_update = do
  u ← consume (update_token ∷ [])
  name ← parse_quoted_token
  s ← consume (set_token ∷ [])
  n ← fuel
  s ← set_loop n false s
  w ← parse_where
  pure (add (add (add u name) s) w)

-- The loop of parseInsert over the rows
unfoldable pub rows_loop : ℕ → Decl → Parse Decl
unfolding bracket_list parse_list_element
rows_loop zero d = hang
rows_loop (suc n) d = consume (bracket_opening_token ∷ []) >>= λ open'.
    bracket_list parse_list_element open' >>= λ row. is (comma_token ∷ []) >>= λ more.
    if more then (consume (comma_token ∷ []) >> rows_loop n (add d row)) else pure (add d row)

-- RETURNING and its attribute, where they stand
unfoldable pub parse_returning : Decl → Parse Decl
unfolding parse_attribute
parse_returning d = do
  found ← is (returning_token ∷ [])
  if found
      then (do r ← consume (returning_token ∷ []); a ← parse_attribute; pure (add d (add r a)))
      else pure d

-- parseInsert
unfoldable pub parse_insert : Parse Decl
unfolding parse_table_name bracket_list parse_list_element rows_loop parse_returning
parse_insert = do
  i ← consume (insert_token ∷ [])
  into ← consume (into_token ∷ [])
  name ← parse_table_name
  consume (bracket_opening_token ∷ [])
  table ← bracket_list parse_list_element name
  values ← consume (values_token ∷ [])
  n ← fuel
  values ← rows_loop n values
  parse_returning (add (add i (add into table)) values)

-- parseDelete
unfoldable pub parse_delete : Parse Decl
unfolding parse_table_name parse_where
parse_delete = do
  d ← consume (delete_token ∷ [])
  from ← consume (from_token ∷ [])
  name ← parse_table_name
  more ← has_next
  if more
      then (do w ← parse_where; pure (add (add d (add from name)) w))
      else pure (add d (add from name))

-- parseTruncate
unfoldable pub parse_truncate : Parse Decl
unfolding parse_quoted_token
parse_truncate = do d ← consume (truncate_token ∷ []); name ← parse_quoted_token; pure (add d name)

-- parseDrop: an INDEX is consumed as a SCHEMA, and what is neither is a nil pointer, which is followed
-- behind the name.
unfoldable pub parse_drop : Parse Decl
unfolding parse_attribute
parse_drop = do
  d ← consume (drop_token ∷ [])
  t ← cur
  if one_of t.kind (table_token ∷ [])
      then (do k ← consume (table_token ∷ []); name ← parse_attribute; pure (add d (add k name)))
      else if one_of t.kind (index_token ∷ schema_token ∷ [])
      then (do k ← consume (schema_token ∷ []); name ← parse_attribute; pure (add d (add k name)))
      else (do name ← parse_attribute; crash)
