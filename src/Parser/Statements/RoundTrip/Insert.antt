-- ===== src/Parser/Statements/RoundTrip/Insert.antt =====
-- The tokens of an INSERT are parsed to its tree.
use ramsql.Base.{
  ℕ, zero, suc, ◌<◌, ◌≡◌, refl, ◌∙◌, true, false, List, [], ◌∷◌, map, All, length, arith,
  if◌then◌else◌,
}
use ramsql.Base.Bytes.{Bytes}
use ramsql.Base.Outcome.{ok}
use ramsql.Parser.Token.{
  Token, token, one_of, string_token, comma_token, bracket_opening_token, insert_token, into_token,
  values_token, returning_token,
}
use ramsql.Parser.Tree.{
  Decl, new_decl, add, add_all, Tokens, Parse, pure, ◌>>=◌, ◌>>◌, is, cur, next, has_next,
  must_have_next, consume, fuel,
}
use ramsql.Parser.Terms.{
  parse_list_element, bracket_list, parse_table_name, quoted_name, open_quote, expect,
}
use ramsql.Parser.Statements.{rows_loop, parse_returning, parse_insert}
use ramsql.Parser.Statements.RoundTrip.{
  Element, IsElement, comma, opening, insert_word, into_word, values_word, bind-ok, consume-prints,
  choice, print_list, element_decls, print_list-pos, bracket_list-prints, print_list-rest,
}

pub record Row : Type 0 where
  pub first : Element
  pub others : List Element

abbrev pub IsRow : Row → Type 0
IsRow row = All IsElement (row.first ∷ row.others)

abbrev pub row_decl : Row → Decl
row_decl row = add_all (new_decl opening) (element_decls (row.first ∷ row.others))

-- The rows with commas between them, and what follows.
abbrev pub print_rows : Row → List Row → Tokens → Tokens
print_rows row [] rest = opening ∷ print_list row.first row.others rest
print_rows row (row' ∷ rows) rest =
    opening ∷ print_list row.first row.others (comma ∷ print_rows row' rows rest)

abbrev pub row_decls : List Row → List Decl
row_decls rows = map row_decl rows

print_rows-pos :
    (row : Row) (rows : List Row) (rest : Tokens) → length rows < length (print_rows row rows rest)
print_rows-pos row [] rest = omega arith
print_rows-pos row (row' ∷ rows) rest = omega (
  arith,
  print_rows-pos row' rows rest,
  print_list-rest row.first row.others (comma ∷ print_rows row' rows rest),
)

-- What may follow the statement: no comma, and no RETURNING.
abbrev pub Stops : Token → Type 0
Stops r = one_of r.kind (comma_token ∷ returning_token ∷ []) ≡ false

Stops-comma : (r : Token) → Stops r → one_of r.kind (comma_token ∷ []) ≡ true → ⊥
unfolding one_of
Stops-comma r h e = ground arith

Stops-returning : (r : Token) → Stops r → one_of r.kind (returning_token ∷ []) ≡ true → ⊥
unfolding one_of
Stops-returning r h e = ground arith

row-prints :
    (row : Row) (n : ℕ) (d : Decl) (r : Token) (rest : Tokens)
    → IsRow row
    → rows_loop (suc n) d (opening ∷ print_list row.first row.others (r ∷ rest))
      ≡ (is (comma_token ∷ []) >>= λ more.
            if more
            then (consume (comma_token ∷ []) >> rows_loop n (add d (row_decl row)))
            else pure (add d (row_decl row)))
          (r ∷ rest)
unfolding rows_loop
row-prints row n d r rest good =
    bind-ok (consume (bracket_opening_token ∷ [])) _
      (opening ∷ print_list row.first row.others (r ∷ rest)) _ _
      (consume-prints opening (bracket_opening_token ∷ []) _ (unfold one_of in refl)
        (omega (arith, print_list-pos row.first row.others (r ∷ rest))))
    ∙ bind-ok (bracket_list parse_list_element (new_decl opening)) _
        (print_list row.first row.others (r ∷ rest)) _ _
        (bracket_list-prints row.first row.others (new_decl opening) r rest good)

pure-prints : {A : Type 0} (a : A) (ts : Tokens) → pure a ts ≡ ok (a, ts)
unfolding pure
pure-prints a ts = refl

comma-listed : one_of comma_token (comma_token ∷ []) ≡ false → ⊥
unfolding one_of
comma-listed e = ground arith

rows_loop-prints :
    (row : Row) (rows : List Row) (n : ℕ) (d : Decl) (r : Token) (rest : Tokens)
    → All IsRow (row ∷ rows)
    → Stops r
    → length rows < n
    → rows_loop n d (print_rows row rows (r ∷ rest))
      ≡ ok (add_all d (row_decls (row ∷ rows)), r ∷ rest)
rows_loop-prints row rows zero d r rest good stops lt = absurd (omega arith)
rows_loop-prints row [] (suc n) d r rest good stops lt =
    row-prints row n d r rest good.0
    ∙ choice (comma_token ∷ []) _ (pure (add d (row_decl row))) r rest _
        (λ e. absurd (Stops-comma r stops e)) (λ _. pure-prints (add d (row_decl row)) (r ∷ rest))
rows_loop-prints row (row' ∷ rows) (suc n) d r rest good stops lt =
    row-prints row n d comma (print_rows row' rows (r ∷ rest)) good.0
    ∙ choice (comma_token ∷ []) (consume (comma_token ∷ []) >> rows_loop n (add d (row_decl row)))
        (pure (add d (row_decl row))) comma (print_rows row' rows (r ∷ rest)) _
        (λ _.
          bind-ok (consume (comma_token ∷ [])) _ (comma ∷ print_rows row' rows (r ∷ rest)) _ _ (
            consume-prints comma (comma_token ∷ []) _ (unfold one_of in refl)
              (omega (arith, print_rows-pos row' rows (r ∷ rest))))
          ∙ rows_loop-prints row' rows n (add d (row_decl row)) r rest good.1 stops (omega arith))
        (λ e. absurd (comma-listed e))

-- INSERT INTO a table, with the elements that name its columns, and the rows.
pub record Insert : Type 0 where
  pub table : Bytes
  pub columns : Row
  pub first : Row
  pub rows : List Row

abbrev pub print_insert : Insert → Tokens → Tokens
print_insert s rest =
    insert_word
    ∷ into_word
    ∷ token string_token s.table
    ∷ opening
    ∷ print_list s.columns.first s.columns.others (values_word ∷ print_rows s.first s.rows rest)

abbrev pub insert_decl : Insert → Decl
insert_decl s =
    let table =
      add_all (new_decl (token string_token s.table))
        (element_decls (s.columns.first ∷ s.columns.others)) in
    add (add (new_decl insert_word) (add (new_decl into_word) table))
      (add_all (new_decl values_word) (row_decls (s.first ∷ s.rows)))

abbrev pub IsInsert : Insert → Type 0
IsInsert s = IsRow s.columns × All IsRow (s.first ∷ s.rows)

table_name-prints :
    (name : Bytes) (ts : Tokens)
    → parse_table_name (token string_token name ∷ opening ∷ ts)
      ≡ ok (new_decl (token string_token name), opening ∷ ts)
unfolding parse_table_name quoted_name open_quote expect is cur next pure has_next must_have_next
    ◌>>=◌ one_of
table_name-prints name ts = refl

fuel-prints :
    {A : Type 0} (f : ℕ → Parse A) (ts : Tokens) → (fuel >>= f) ts ≡ f (suc (length ts)) ts
unfolding fuel ◌>>=◌
fuel-prints f ts = refl

returning-prints :
    (d : Decl) (r : Token) (rest : Tokens)
    → Stops r
    → parse_returning d (r ∷ rest) ≡ ok (d, r ∷ rest)
unfolding parse_returning
returning-prints d r rest stops =
    choice (returning_token ∷ []) _ (pure d) r rest _ (λ e. absurd (Stops-returning r stops e))
      (λ _. pure-prints d (r ∷ rest))

-- An INSERT that is written as tokens, with one or more columns and one or more rows of plain or
-- quoted elements, is parsed to its tree, and what follows is left, where that begins with a token
-- other than a comma and RETURNING.
pub parse_insert-prints :
    (s : Insert) (r : Token) (rest : Tokens)
    → IsInsert s
    → Stops r
    → parse_insert (print_insert s (r ∷ rest)) ≡ ok (insert_decl s, r ∷ rest)
unfolding parse_insert
parse_insert-prints s r rest (columns, rows) stops =
    let row_tokens = print_rows s.first s.rows (r ∷ rest) in
    let listed = print_list s.columns.first s.columns.others (values_word ∷ row_tokens) in
    let name = token string_token s.table in
    bind-ok (consume (insert_token ∷ [])) _ (insert_word ∷ into_word ∷ name ∷ opening ∷ listed) _ _
      (consume-prints insert_word (insert_token ∷ []) _ (unfold one_of in refl) (omega arith))
    ∙ bind-ok (consume (into_token ∷ [])) _ (into_word ∷ name ∷ opening ∷ listed) _ _
        (consume-prints into_word (into_token ∷ []) _ (unfold one_of in refl) (omega arith))
    ∙ bind-ok parse_table_name _ (name ∷ opening ∷ listed) _ _ (table_name-prints s.table listed)
    ∙ bind-ok (consume (bracket_opening_token ∷ [])) _ (opening ∷ listed) _ _ (
        consume-prints opening (bracket_opening_token ∷ []) listed (unfold one_of in refl) (
          omega
            (arith, print_list-pos s.columns.first s.columns.others (values_word ∷ row_tokens))))
    ∙ bind-ok (bracket_list parse_list_element (new_decl name)) _ listed _ _ (
        bracket_list-prints s.columns.first s.columns.others (new_decl name) values_word row_tokens
          columns)
    ∙ bind-ok (consume (values_token ∷ [])) _ (values_word ∷ row_tokens) _ _ (
        consume-prints values_word (values_token ∷ []) row_tokens (unfold one_of in refl)
          (omega (arith, print_rows-pos s.first s.rows (r ∷ rest))))
    ∙ fuel-prints _ row_tokens
    ∙ bind-ok (rows_loop (suc (length row_tokens)) (new_decl values_word)) _ row_tokens _ _ (
        rows_loop-prints s.first s.rows (suc (length row_tokens)) (new_decl values_word) r rest rows
          stops (omega (arith, print_rows-pos s.first s.rows (r ∷ rest))))
    ∙ returning-prints _ r rest stops
