-- ===== src/Tests/Parsing.antt =====
-- Runs of the lexer and the parser, and their theorems at small inputs.
use ramsql.Base.{true, false, ℕ, Bool, false, none, some, List, [], ◌∷◌, ◌++◌, ◌≡◌, refl}
use ramsql.Base.Bytes.{Bytes, codes}
use ramsql.Base.Outcome.{ok, panic, blocked, ◌>>=◌}
use ramsql.Parser.Token.{
  Token, token, one_of, string_token, where_token, select_token, space_token, star_token,
  from_token, semicolon_token, number_token, not_token, unique_token,
}
use ramsql.Parser.Tree.{Decl, new_decl, add}
use ramsql.Parser.Token.{equality_token}
use ramsql.Executor.Values.{Texts}
use ramsql.Executor.Conditions.{Context, get_predicates}
use ramsql.Executor.Conditions.Precedence.{links, nested, get_predicates-nested}
use ramsql.Tests.{runtime, users, one_row}
use ramsql.Parser.Statements.{parse_insert}
use ramsql.Parser.Statements.RoundTrip.{Element, bare, quoted}
use ramsql.Parser.Statements.RoundTrip.Insert.{
  Insert, IsInsert, print_insert, insert_decl, parse_insert-prints,
}
use ramsql.Parser.Create.{Column, constraints_loop}
use ramsql.Parser.Create.Stuck.{constraints_loop-stuck}
use ramsql.Parser.Program.{parse}
use ramsql.Parser.Program.Ends.{Settles, parse-ends}
use ramsql.Parser.Match.{match_word}
use ramsql.Parser.Lexer.{lex, lex_loop, matchers}
use ramsql.Parser.Lexer.Progress.{lex-ends}
use ramsql.Parser.Lexer.Quotes.{quote, lex_loop-quoted}
use ramsql.Parser.Lexer.Cut.{match_word-cut}

-- No text is a date.
abbrev no_date : Bytes → Bool
no_date s = false

lex-ends_example : lex no_date (codes "select * from users") ≡ blocked → ⊥
lex-ends_example = lex-ends no_date refl (codes "select * from users")

match_word-cut_example : match_word (codes "where") where_token (codes "WHER") ≡ panic
match_word-cut_example = match_word-cut (codes "wher") (codes "WHER") b'e' where_token refl

lex_loop-quoted_example :
    lex_loop no_date matchers 3 none (b'\'' ∷ ((b'a' ∷ b';' ∷ b'"' ∷ []) ++ b'\'' ∷ b';' ∷ [])) ≡ (
      lex_loop no_date matchers 2 (some quote) (b';' ∷ []) >>= λ ts.
      ok (quote ∷ token string_token (b'a' ∷ b';' ∷ b'"' ∷ []) ∷ quote ∷ ts))
lex_loop-quoted_example =
    lex_loop-quoted no_date (b'a' ∷ b';' ∷ b'"' ∷ []) (b';' ∷ []) (refl, (refl, (refl, tt))) 2 none

abbrev tokens_of : List (ℕ × Bytes) → List Token
tokens_of [] = []
tokens_of ((k, s) ∷ ts) = token k s ∷ tokens_of ts

abbrev select_all : List Token
select_all = tokens_of (
    (select_token, codes "select")
    ∷ (space_token, codes " ")
    ∷ (star_token, codes "*")
    ∷ (from_token, codes "from")
    ∷ (string_token, codes "users")
    ∷ (semicolon_token, codes ";")
    ∷ [])

parse-ends_example : Settles (parse select_all)
parse-ends_example =
    parse-ends select_all (unfold one_of in (refl, (refl, (refl, (refl, (refl, (refl, tt)))))))

abbrev one : Element
one = bare (token number_token (codes "1"))

abbrev two : Element
two = quoted (token string_token (codes "two"))

abbrev two_rows : Insert
two_rows = record {
  table = codes "users";
  columns = record {
    first = bare (token string_token (codes "id"));
    others = bare (token string_token (codes "name")) ∷ [];
  };
  first = record { first = one; others = two ∷ [] };
  rows = record { first = two; others = one ∷ [] } ∷ [];
}

two_rows-IsInsert : IsInsert two_rows
unfolding one_of
two_rows-IsInsert = ((refl, (refl, tt)), ((refl, (refl, tt)), ((refl, (refl, tt)), tt)))

abbrev semicolon : Token
semicolon = token semicolon_token (codes ";")

parse_insert-prints_example :
    parse_insert (print_insert two_rows (semicolon ∷ []))
    ≡ ok (insert_decl two_rows, semicolon ∷ [])
parse_insert-prints_example =
    parse_insert-prints two_rows semicolon [] two_rows-IsInsert (unfold one_of in refl)

abbrev id_column : Column
id_column = record {
  name = new_decl (token string_token (codes "id"));
  type = new_decl (token string_token (codes "bigint"));
  constraints = [];
}

constraints_loop-stuck_example :
    constraints_loop 9 id_column
      (token not_token (codes "not") ∷ token unique_token (codes "unique") ∷ semicolon ∷ [])
    ≡ blocked
constraints_loop-stuck_example =
    constraints_loop-stuck 9 id_column (token not_token (codes "not"))
      (token unique_token (codes "unique")) (semicolon ∷ []) refl refl

-- No text is a number or a date.
abbrev no_texts : Texts
no_texts = record {
  parse_uint = λ s. none;
  parse_int = λ s. none;
  parse_float = λ s. none;
  parse_bool = λ s. none;
  parse_time = λ layout s. none;
}

abbrev users_context : Context
users_context = record {
  runtime = runtime;
  texts = no_texts;
  schema = [];
  table = users;
  args = [];
  aliases = [];
}

-- The name is the text.
abbrev name_is : Bytes → Decl
name_is s =
    add
      (add (new_decl (token string_token (codes "name")))
        (new_decl (token equality_token (codes "="))))
      (new_decl (token string_token s))

get_predicates-nested_example :
    get_predicates users_context
      (name_is (codes "a")
        ∷ links ((true, name_is (codes "b")) ∷ (false, name_is (codes "c")) ∷ []))
      one_row
    ≡ nested users_context
        (name_is (codes "a"))
        ((true, name_is (codes "b")) ∷ (false, name_is (codes "c")) ∷ [])
        one_row
get_predicates-nested_example =
    get_predicates-nested users_context (name_is (codes "a"))
      ((true, name_is (codes "b")) ∷ (false, name_is (codes "c")) ∷ []) one_row
      (unfold one_of in refl) (unfold one_of in (refl, (refl, tt)))
