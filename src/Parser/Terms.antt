-- ===== src/Parser/Terms.antt =====
-- engine/parser/parser.go: names, values, types and lists.
pub mod Ends
pub mod Within
pub mod Lists
use ramsql.Base.{ℕ, zero, suc, Bool, true, false, Option, none, some, List, [], ◌∷◌, if◌then◌else◌}
use ramsql.Base.Outcome.{Outcome, ok, err, syntax_error}
use ramsql.Parser.Token.{
  Token, double_quote_token, backtick_token, simple_quote_token, string_token, star_token,
  period_token, schema_token, as_token, equality_token, null_token, in_token, bracket_opening_token,
  bracket_closing_token, comma_token, float_token, number_token, date_token, now_token,
  current_schema_token, arg_token, named_arg_token, default_token, false_token, count_token,
  decimal_token, join_token, on_token, order_token, by_token, asc_token, desc_token,
}
use ramsql.Parser.Tree.{
  Decl, new_decl, add, with_kind, Tokens, Parse, pure, raise, hang, ◌>>=◌, ◌>>◌, cur, is, has_next,
  next, consume, must_have_next, fuel,
}

-- `if p.is(DoubleQuoteToken) || p.is(BacktickToken)`: the quote that opens.
unfoldable pub open_quote : Parse (Option ℕ)
open_quote = do
  quoted ← is (double_quote_token ∷ backtick_token ∷ [])
  t ← cur
  if quoted then (next >> pure (some t.kind)) else pure none

abbrev pub closing_next : Option ℕ → Parse (Unit {0})
closing_next none = pure tt
closing_next (some q) = must_have_next (q ∷ [])

abbrev pub closing : Option ℕ → Parse (Unit {0})
closing none = pure tt
closing (some q) = consume (q ∷ []) >> pure tt

-- The current token, which must be of one of the kinds; the parser does not move.
unfoldable pub expect : List ℕ → Parse Decl
expect kinds = do found ← is kinds; t ← cur; if found then pure (new_decl t) else raise syntax_error

-- The name in front, with its quotes.
unfoldable pub quoted_name : List ℕ → Parse Decl
quoted_name kinds = do q ← open_quote; d ← expect kinds; closing_next q; pure d

-- The part behind the point.
unfoldable pub dotted_name : Parse Decl
dotted_name = do
  consume (period_token ∷ [])
  q ← open_quote
  d ← consume (string_token ∷ star_token ∷ [])
  closing q
  pure d

-- parseAttribute
unfoldable pub parse_attribute : Parse Decl
unfolding quoted_name dotted_name
parse_attribute = do
  decl ← quoted_name (string_token ∷ star_token ∷ [])
  more ← has_next
  if more
      then (do
        next
        point ← is (period_token ∷ [])
        if point then (do d ← dotted_name; pure (add d decl)) else pure decl)
      else pure decl

-- AS and the alias, below the name
unfoldable pub parse_alias : Decl → Parse Decl
parse_alias decl = do
  as_decl ← consume (as_token ∷ [])
  alias ← consume (string_token ∷ [])
  pure (add decl (add as_decl alias))

-- parseTableName
unfoldable pub parse_table_name : Parse Decl
unfolding quoted_name dotted_name parse_alias
parse_table_name = do
  decl ← quoted_name (string_token ∷ star_token ∷ [])
  more ← has_next
  if more
      then (do
        next
        point ← is (period_token ∷ [])
        renamed ← is (as_token ∷ [])
        if point
            then (do d ← dotted_name; pure (add d (with_kind schema_token decl)))
            else if renamed
            then parse_alias decl
            else pure decl)
      else pure decl

-- parseQuotedToken: something must follow.
unfoldable pub parse_quoted_token : Parse Decl
unfolding quoted_name
parse_quoted_token = do decl ← quoted_name (string_token ∷ []); next; pure decl

abbrev pub quotes : List ℕ
quotes = simple_quote_token ∷ double_quote_token ∷ []

-- A value with quotes of either kind, or none.
unfoldable pub quoted_value : List ℕ → Parse Decl
quoted_value kinds = do
  quoted ← is quotes
  if quoted then (do consume quotes; v ← consume kinds; consume quotes; pure v) else consume kinds

-- parseValue
unfoldable pub parse_value : Parse Decl
unfolding quoted_value
parse_value = quoted_value (
    float_token ∷ string_token ∷ number_token ∷ date_token ∷ now_token ∷ current_schema_token
    ∷ arg_token ∷ named_arg_token ∷ [])

-- parseListElement
unfoldable pub parse_list_element : Parse Decl
unfolding quoted_value
parse_list_element = do
  default_ ← is (default_token ∷ [])
  if default_
      then consume (default_token ∷ [])
      else quoted_value (
          float_token ∷ string_token ∷ number_token ∷ null_token ∷ date_token ∷ now_token
          ∷ arg_token ∷ named_arg_token ∷ false_token ∷ [])

-- A list of elements with commas between them, up to the closing bracket: the loops of parseIn,
-- parseInsert and parsePrimaryKey. The elements are put below the declaration.
unfoldable pub list_loop : Parse Decl → ℕ → Decl → Parse Decl
list_loop element zero d = hang
list_loop element (suc n) d = element >>= λ e. is (bracket_closing_token ∷ []) >>= λ last.
    if last
    then (consume (bracket_closing_token ∷ []) >> pure (add d e))
    else (consume (comma_token ∷ []) >> list_loop element n (add d e))

unfoldable pub bracket_list : Parse Decl → Decl → Parse Decl
unfolding list_loop
bracket_list element d = do n ← fuel; list_loop element n d

-- parseIn
unfoldable pub parse_in : Parse Decl
unfolding bracket_list parse_value
parse_in = do
  d ← consume (in_token ∷ [])
  consume (bracket_opening_token ∷ [])
  bracket_list parse_value d

-- parseAttribution
unfoldable pub parse_attribution : Parse Decl
unfolding parse_attribute parse_value
parse_attribution = do
  a ← parse_attribute
  equals ← is (equality_token ∷ [])
  d ← if equals then (do e ← consume (equality_token ∷ []); pure (add a e)) else pure a
  null ← is (null_token ∷ [])
  v ← if null then consume (null_token ∷ []) else parse_value
  pure (add d v)

-- parseBuiltinFunc, where the current token is COUNT
unfoldable pub parse_builtin_func : Parse Decl
unfolding parse_attribute
parse_builtin_func = do
  d ← consume (count_token ∷ [])
  consume (bracket_opening_token ∷ [])
  a ← parse_attribute
  consume (bracket_closing_token ∷ [])
  pure (add d a)

-- parseType
unfoldable pub parse_type : Parse Decl
parse_type = do
  d ← consume (float_token ∷ date_token ∷ decimal_token ∷ number_token ∷ string_token ∷ [])
  sized ← is (bracket_opening_token ∷ [])
  if sized
      then (do
        consume (bracket_opening_token ∷ [])
        n ← consume (number_token ∷ [])
        consume (bracket_closing_token ∷ [])
        pure (add d n))
      else pure d

-- parseStringLiteral: the closing quote is of the opening one's kind.
unfoldable pub parse_string_literal : Parse Decl
parse_string_literal = do
  single ← is (simple_quote_token ∷ [])
  consume quotes
  v ← consume (string_token ∷ [])
  wrong ← is ((if single then double_quote_token else simple_quote_token) ∷ [])
  if wrong then raise syntax_error else (consume quotes >> pure v)

-- parseJoin
unfoldable pub parse_join : Parse Decl
unfolding parse_attribute
parse_join = do
  j ← consume (join_token ∷ [])
  name ← parse_attribute
  renamed ← is (as_token ∷ [])
  table ←
      if renamed
      then (do consume (as_token ∷ []); a ← consume (string_token ∷ []); pure (add name a))
      else pure name
  on ← consume (on_token ∷ [])
  left ← parse_attribute
  equals ← consume (equality_token ∷ [])
  right ← parse_attribute
  pure (add (add j table) (add (add (add on left) equals) right))

-- The loop of parseOrderBy
unfoldable pub order_loop : ℕ → Decl → Parse Decl
unfolding parse_attribute
order_loop zero d = hang
order_loop (suc n) d = parse_attribute >>= λ a. is (asc_token ∷ desc_token ∷ []) >>= λ directed.
    (if directed then (do e ← consume (asc_token ∷ desc_token ∷ []); pure (add a e)) else pure a)
    >>= λ a'. is (comma_token ∷ []) >>= λ more.
        if more then (consume (comma_token ∷ []) >> order_loop n (add d a')) else pure (add d a')

-- parseOrderBy, which adds what it returns below the statement
unfoldable pub parse_order_by : Parse Decl
unfolding order_loop
parse_order_by = do
  d ← consume (order_token ∷ [])
  consume (by_token ∷ [])
  n ← fuel
  order_loop n d
