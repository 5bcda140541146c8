-- ===== src/Parser/Create.antt =====
-- engine/parser/create.go. Here `index++` moves without a test, so it may leave the last token.
pub mod Stuck
use ramsql.Base.{ℕ, zero, suc, Bool, true, false, ◌&&◌, ◌==◌, List, [], ◌∷◌, ◌++◌, if◌then◌else◌}
use ramsql.Base.Bytes.{Bytes, codes, str_eq, to_lower}
use ramsql.Base.Outcome.{ok, syntax_error}
use ramsql.Parser.Token.{
  if_token, not_token, exists_token, on_token, table_token, index_token, schema_token, unique_token,
  primary_token, key_token, null_token, default_token, unsigned_token, autoincrement_token,
  with_token, time_token, zone_token, collate_token, nocase_token, bracket_opening_token,
  bracket_closing_token, comma_token, simple_quote_token, double_quote_token, float_token,
  false_token, number_token, local_timestamp_token, now_token, arg_token, named_arg_token,
}
use ramsql.Parser.Tree.{
  Decl, node, new_decl, add, add_all, with_kind, Parse, pure, raise, hang, ◌>>=◌, ◌>>◌, cur, is,
  has_next, next, advance, consume, is_next, fuel,
}
use ramsql.Parser.Terms.{
  parse_attribute, parse_table_name, parse_quoted_token, parse_type, parse_string_literal,
  bracket_list,
}

-- IF NOT EXISTS, or IF alone, below the declaration
unfoldable pub if_not_exists : Decl → Parse Decl
if_not_exists d = do
  conditional ← is (if_token ∷ [])
  if conditional
      then (do
        i ← consume (if_token ∷ [])
        negated ← is (not_token ∷ [])
        if negated
            then (do
              n ← consume (not_token ∷ [])
              e ← consume (exists_token ∷ [])
              pure (add d (add i (add n e))))
            else pure (add d i))
      else pure d

-- `if !p.hasNext() || tokens[p.index].Token != kind { error }; p.index++`
unfoldable pub must_pass : ℕ → Parse (Unit {0})
must_pass k = do
  more ← has_next
  if more
      then (do found ← is (k ∷ []); if found then advance else raise syntax_error)
      else raise syntax_error

abbrev literals : List ℕ
literals =
    null_token ∷ float_token ∷ false_token ∷ number_token ∷ local_timestamp_token ∷ now_token
    ∷ arg_token ∷ named_arg_token ∷ []

-- parseDefaultClause
unfoldable pub parse_default_clause : Parse Decl
unfolding parse_string_literal
parse_default_clause = do
  d ← consume (default_token ∷ [])
  quoted ← is (simple_quote_token ∷ double_quote_token ∷ [])
  v ← if quoted then parse_string_literal else consume literals
  pure (add d v)

-- parsePrimaryKey
unfoldable pub parse_primary_key : Parse Decl
unfolding bracket_list parse_quoted_token
parse_primary_key = do
  p ← consume (primary_token ∷ [])
  k ← consume (key_token ∷ [])
  consume (bracket_opening_token ∷ [])
  k ← bracket_list parse_quoted_token k
  pure (add p k)

abbrev lexeme_of : Decl → Bytes
lexeme_of (node k s ds) = s

-- WITH TIME ZONE, below the type
unfoldable pub parse_time_zone : Decl → Parse Decl
parse_time_zone type = do
  w ← consume (with_token ∷ [])
  t ← consume (time_token ∷ [])
  z ← consume (zone_token ∷ [])
  pure (add type (add w (add t z)))

-- A column: its name with the constraints so far, and its type. The type is put below the name when
-- it is read, so it stands first there.
pub record Column : Type 0 where
  pub name : Decl
  pub type : Decl
  pub constraints : List Decl

unfoldable pub column_decl : Column → Decl
column_decl c = add_all (add c.name c.type) c.constraints

abbrev pub constrain : Column → Decl → Column
constrain c d = record c { constraints = c.constraints ++ d ∷ [] }

-- One turn of the loop over the constraints. NOT without NULL, PRIMARY without KEY, and WITH behind a
-- type that is not timestamp, change nothing.
unfoldable pub constraint : Column → Parse Column
unfolding parse_default_clause parse_time_zone
constraint c = do
  t ← cur
  null ← is_next (null_token ∷ [])
  key ← is_next (key_token ∷ [])
  if t.kind == unsigned_token
      then (do consume (unsigned_token ∷ []); pure c)
      else if t.kind == unique_token
      then (do u ← consume (unique_token ∷ []); pure (constrain c u))
      else if t.kind == not_token
      then (if null
          then (do
            n ← consume (not_token ∷ [])
            l ← consume (null_token ∷ [])
            pure (constrain c (add n l)))
          else pure c)
      else if t.kind == primary_token
      then (if key
          then (do next; k ← cur; next; pure (constrain c (add (new_decl t) (new_decl k))))
          else pure c)
      else if t.kind == autoincrement_token
      then (do a ← consume (autoincrement_token ∷ []); pure (constrain c a))
      else if t.kind == with_token
      then (if str_eq (to_lower (lexeme_of c.type)) (codes "timestamp")
          then (do z ← parse_time_zone c.type; pure (record c { type = z }))
          else pure c)
      else if t.kind == default_token
      then (do d ← parse_default_clause; pure (constrain c d))
      else raise syntax_error

-- `for p.isNot(BracketClosingToken, CommaToken)`
unfoldable pub constraints_loop : ℕ → Column → Parse Column
unfolding constraint
constraints_loop zero c = hang
constraints_loop (suc n) c = is (bracket_closing_token ∷ comma_token ∷ []) >>= λ stop.
    if stop then pure c else (constraint c >>= λ c'. constraints_loop n c')

unfoldable pub parse_column : Parse Decl
unfolding constraints_loop parse_quoted_token parse_type column_decl
parse_column = do
  name ← parse_quoted_token
  type ← parse_type
  n ← fuel
  c ← constraints_loop n (record { name = name; type = type; constraints = [] })
  pure (column_decl c)

-- The current token ends the list, and is passed over; or it is a comma, and is passed over too.
abbrev column_end : Parse Bool
column_end = is (bracket_closing_token ∷ []) >>= λ last. advance >> pure last

-- `for p.index < len(tokens)`
unfoldable pub at_end : Parse Bool
at_end [] = ok (true, [])
at_end (t ∷ ts) = ok (false, t ∷ ts)

-- The loop of parseTable over the columns
unfoldable pub table_loop : ℕ → Decl → Parse Decl
unfolding parse_column parse_primary_key at_end
table_loop zero d = hang
table_loop (suc n) d = at_end >>= λ ended.
    let body : Parse Decl =
      (is (primary_token ∷ []) >>= λ primary. is (bracket_closing_token ∷ []) >>= λ closes.
      if primary
      then (parse_primary_key >>= λ p. table_loop n (add d p))
      else if closes
      then (consume (bracket_closing_token ∷ []) >> pure d)
      else (parse_column >>= λ c.
          column_end >>= λ last. if last then pure (add d c) else table_loop n (add d c))) in
    if ended then pure d else body

-- parseTable
unfoldable pub parse_table : Parse Decl
unfolding if_not_exists must_pass parse_table_name table_loop
parse_table = do
  t ← cur
  advance
  d ← if_not_exists (new_decl t)
  name ← parse_table_name
  must_pass bracket_opening_token
  n ← fuel
  table_loop n (add d name)

-- The loop of parseIndex over the constraints of a column: COLLATE NOCASE only
unfoldable pub collate_loop : ℕ → Decl → Parse Decl
collate_loop zero a = hang
collate_loop (suc n) a = is (bracket_closing_token ∷ comma_token ∷ []) >>= λ stop.
    if stop
    then pure a
    else (consume (collate_token ∷ []) >>= λ c.
        consume (nocase_token ∷ []) >>= λ d. collate_loop n (add a (add c d)))

-- The loop of parseIndex over the columns
unfoldable pub index_loop : ℕ → Decl → Parse Decl
unfolding parse_quoted_token collate_loop at_end
index_loop zero d = hang
index_loop (suc n) d = at_end >>= λ ended.
    let body : Parse Decl =
      (parse_quoted_token >>= λ a. is (bracket_closing_token ∷ []) >>= λ closes.
      if closes
      then (consume (bracket_closing_token ∷ []) >> pure (add d a))
      else (fuel >>= λ m. collate_loop m a >>= λ a'.
          column_end >>= λ last. if last then pure (add d a') else index_loop n (add d a'))) in
    if ended then pure d else body

-- parseIndex
unfoldable pub parse_index : Parse Decl
unfolding if_not_exists must_pass parse_attribute parse_table_name index_loop
parse_index = do
  t ← cur
  advance
  d ← if_not_exists (new_decl t)
  name ← parse_attribute
  must_pass on_token
  table ← parse_table_name
  must_pass bracket_opening_token
  n ← fuel
  index_loop n (add (add d name) (with_kind table_token table))

-- parseSchema
unfoldable pub parse_schema : Parse Decl
unfolding parse_attribute
parse_schema = do t ← cur; advance; name ← parse_attribute; pure (add (new_decl t) name)

-- CREATE UNIQUE INDEX
unfoldable pub parse_unique_index : Parse Decl
unfolding parse_index
parse_unique_index = do
  u ← consume (unique_token ∷ [])
  more ← has_next
  indexed ← is (index_token ∷ [])
  if more && indexed then (do d ← parse_index; pure (add d u)) else raise syntax_error

-- parseCreate
unfoldable pub parse_create : Parse Decl
unfolding parse_table parse_index parse_schema parse_unique_index
parse_create = do
  t ← cur
  next
  k ← cur
  d ←
      if k.kind == table_token
      then parse_table
      else if k.kind == index_token
      then parse_index
      else if k.kind == schema_token
      then parse_schema
      else if k.kind == unique_token
      then parse_unique_index
      else raise syntax_error
  pure (add (new_decl t) d)
