-- ===== src/Parser/Lexer.antt =====
-- engine/parser/lexer.go: the list of matchers, and the loop that tries them in order.
pub mod Progress
pub mod Quotes
pub mod Cut
use ramsql.Base.{
  ℕ, zero, suc, ◌+◌, Bool, true, false, not, ◌&&◌, ◌||◌, Option, none, some, List, [], ◌∷◌, ◌++◌,
  length, ltb, leb, ◌==◌, if◌then◌else◌,
}
use ramsql.Base.Bytes.{Bytes, codes}
use ramsql.Base.Outcome.{Outcome, ok, err, panic, blocked, cannot_lex, ◌>>=◌}
use ramsql.Parser.Token.{
  Token, token, and_token, arg_token, as_token, asc_token, autoincrement_token, backtick_token,
  bracket_closing_token, bracket_opening_token, by_token, collate_token, comma_token, count_token,
  create_token, current_schema_token, date_token, decimal_token, default_token, delete_token,
  desc_token, distinct_token, distinctness_token, double_quote_token, drop_token, equality_token,
  exists_token, false_token, float_token, for_token, from_token, grant_token,
  greater_or_equal_token, if_token, in_token, index_token, insert_token, into_token, is_token,
  join_token, key_token, left_diple_token, less_or_equal_token, limit_token, local_timestamp_token,
  named_arg_token, nocase_token, not_token, now_token, null_token, number_token, offset_token,
  on_token, or_token, order_token, period_token, primary_token, returning_token, right_diple_token,
  schema_token, select_token, semicolon_token, set_token, simple_quote_token, space_token,
  star_token, string_token, table_token, time_token, truncate_token, unique_token, unsigned_token,
  update_token, values_token, where_token, with_token, zone_token,
}
use ramsql.Parser.Match.{
  no_match, match_escaped, match_date, is_letter, is_digit, is_space, lower, Matched, span,
  match_space, match_single, same_word, goes_on, match_word, match_odbc, match_marked, match_span,
  in_number, in_string, float_sign, float_exponent, float_tail, float_point, match_float,
  match_quoted, until_dollars, all_digits,
}

-- The kinds of matchers that `lex` lists.
pub data Matcher : Type 0 where
  arg_odbc named_arg arg float space simple_quote double_quote autoincrement : Matcher
  escaped_string date number string : Matcher
  single : ℕ → ℕ → Matcher
  word : Bytes → ℕ → Matcher

-- `if l.Match(first) { return true }; return l.Match(second)`
abbrev pub or_else : Matched → Matched → Matched
or_else (ok none) m = m
or_else (ok (some r)) m = ok (some r)
or_else (err e) m = err e
or_else panic m = panic
or_else blocked m = blocked

unfoldable pub run : (Bytes → Bool) → Matcher → Option Token → Bytes → Matched
unfolding match_odbc match_marked match_float match_space match_quoted match_word match_escaped
    match_date match_span match_single
run is_date arg_odbc last s = match_odbc last s
run is_date named_arg last s = match_marked b':' is_letter named_arg_token s
run is_date arg last s = match_marked b'$' is_digit arg_token s
run is_date float last s = match_float s
run is_date space last s = match_space s
run is_date simple_quote last s = match_quoted b'\'' simple_quote_token s
run is_date double_quote last s = match_quoted b'"' double_quote_token s
run is_date autoincrement last s =
    or_else (match_word (codes "auto_increment") autoincrement_token s)
      (match_word (codes "autoincrement") autoincrement_token s)
run is_date escaped_string last s = match_escaped is_date s
run is_date date last s = match_date is_date s
run is_date number last s = match_span in_number number_token s
run is_date string last s = match_span in_string string_token s
run is_date (single b k) last s = match_single b k s
run is_date (word w k) last s = match_word w k s

-- The matchers in the order of `lex`.
abbrev pub matchers : List Matcher
matchers =
    arg_odbc
    ∷ named_arg
    ∷ arg
    ∷ float
    ∷ space
    ∷ single b';' semicolon_token
    ∷ single b',' comma_token
    ∷ single b'(' bracket_opening_token
    ∷ single b')' bracket_closing_token
    ∷ single b'*' star_token
    ∷ simple_quote
    ∷ single b'=' equality_token
    ∷ word (codes "<>") distinctness_token
    ∷ word (codes "!=") distinctness_token
    ∷ single b'.' period_token
    ∷ double_quote
    ∷ word (codes "<=") less_or_equal_token
    ∷ word (codes ">=") greater_or_equal_token
    ∷ single b'<' left_diple_token
    ∷ single b'>' right_diple_token
    ∷ single b'`' backtick_token
    ∷ word (codes "create") create_token
    ∷ word (codes "select") select_token
    ∷ word (codes "insert") insert_token
    ∷ word (codes "update") update_token
    ∷ word (codes "delete") delete_token
    ∷ word (codes "truncate") truncate_token
    ∷ word (codes "drop") drop_token
    ∷ word (codes "grant") grant_token
    ∷ word (codes "distinct") distinct_token
    ∷ word (codes "table") table_token
    ∷ word (codes "current_schema()") current_schema_token
    ∷ word (codes "current_schema") current_schema_token
    ∷ word (codes "schema") schema_token
    ∷ word (codes "from") from_token
    ∷ word (codes "where") where_token
    ∷ word (codes "into") into_token
    ∷ word (codes "values") values_token
    ∷ word (codes "join") join_token
    ∷ word (codes "as") as_token
    ∷ word (codes "on") on_token
    ∷ word (codes "if") if_token
    ∷ word (codes "not") not_token
    ∷ word (codes "exists") exists_token
    ∷ word (codes "null") null_token
    ∷ autoincrement
    ∷ word (codes "unsigned") unsigned_token
    ∷ word (codes "count") count_token
    ∷ word (codes "set") set_token
    ∷ word (codes "order") order_token
    ∷ word (codes "by") by_token
    ∷ word (codes "with") with_token
    ∷ word (codes "time") time_token
    ∷ word (codes "zone") zone_token
    ∷ word (codes "returning") returning_token
    ∷ word (codes "in") in_token
    ∷ word (codes "and") and_token
    ∷ word (codes "or") or_token
    ∷ word (codes "asc") asc_token
    ∷ word (codes "desc") desc_token
    ∷ word (codes "limit") limit_token
    ∷ word (codes "is") is_token
    ∷ word (codes "for") for_token
    ∷ word (codes "default") default_token
    ∷ word (codes "localtimestamp") local_timestamp_token
    ∷ word (codes "false") false_token
    ∷ word (codes "unique") unique_token
    ∷ word (codes "now()") now_token
    ∷ word (codes "offset") offset_token
    ∷ word (codes "index") index_token
    ∷ word (codes "on") on_token
    ∷ word (codes "collate") collate_token
    ∷ word (codes "nocase") nocase_token
    ∷ word (codes "decimal") decimal_token
    ∷ word (codes "primary") primary_token
    ∷ word (codes "key") key_token
    ∷ escaped_string
    ∷ date
    ∷ number
    ∷ string
    ∷ []

-- The inner loop: the first matcher that matches.
unfoldable pub first_match : (Bytes → Bool) → List Matcher → Option Token → Bytes → Matched
unfolding run
first_match is_date [] last s = no_match
first_match is_date (m ∷ ms) last s =
    let rest = first_match is_date ms last s in or_else (run is_date m last s) rest

abbrev pub last_of : Option Token → List Token → Option Token
last_of last [] = last
last_of last (t ∷ ts) = last_of (some t) ts

-- The outer loop, with fuel. Where no matcher matches, the position is that of the last match, so the
-- first such round is an error.
unfoldable pub lex_loop :
    (Bytes → Bool) → List Matcher → ℕ → Option Token → Bytes → Outcome (List Token)
unfolding first_match
lex_loop is_date ms zero last s = blocked
lex_loop is_date ms (suc fuel) last [] = ok []
lex_loop is_date ms (suc fuel) last (c ∷ s) = first_match is_date ms last (c ∷ s) >>= λ r. elim r [
  | none ↦ err cannot_lex
  | some (ts, s') ↦ lex_loop is_date ms fuel (last_of last ts) s' >>= λ rest. ok (ts ++ rest)
]

-- lex: the fuel is one more than the bytes.
unfoldable pub lex : (Bytes → Bool) → Bytes → Outcome (List Token)
unfolding lex_loop
lex is_date s = lex_loop is_date matchers (suc (length s)) none s
