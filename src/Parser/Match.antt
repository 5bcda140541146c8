-- ===== src/Parser/Match.antt =====
-- engine/parser/lexer.go: the matchers. A matcher is given the last token and the bytes from the
-- position on; it answers with the tokens that it appends and the bytes behind the new position, or
-- with nothing where it does not match.
use ramsql.Base.{
  ℕ, ◌+◌, Bool, true, false, not, ◌&&◌, ◌||◌, Option, none, some, List, [], ◌∷◌, ◌++◌, length, ltb,
  leb, ◌==◌, if◌then◌else◌,
}
use ramsql.Base.Bytes.{Bytes, codes}
use ramsql.Base.Outcome.{Outcome, ok, panic, ◌>>=◌}
use ramsql.Parser.Token.{
  Token, token, arg_token, date_token, double_quote_token, float_token, number_token,
  simple_quote_token, space_token, string_token,
}

-- unicode.IsLetter, IsDigit, IsSpace and ToLower of a byte, read as a code point.
abbrev pub is_letter : ℕ → Bool
is_letter c =
    (leb b'a' c && leb c b'z')
    || (leb b'A' c && leb c b'Z')
    || c == 170
    || c == 181
    || c == 186
    || (leb 192 c && leb c 255 && not (c == 215) && not (c == 247))

abbrev pub is_digit : ℕ → Bool
is_digit c = leb b'0' c && leb c b'9'

abbrev pub is_space : ℕ → Bool
is_space c = (leb 9 c && leb c 13) || c == 32 || c == 133 || c == 160

abbrev pub lower : ℕ → ℕ
lower c =
    if (leb b'A' c && leb c b'Z') || (leb 192 c && leb c 222 && not (c == 215)) then c + 32 else c

abbrev pub Matched : Type 0
Matched = Outcome (Option (List Token × Bytes))

abbrev pub no_match : Matched
no_match = ok none

abbrev matched : Token → Bytes → Matched
matched t s = ok (some (t ∷ [], s))

-- The bytes that a loop `for i < n && test(instruction[i])` passes over, and those behind them.
unfoldable pub span : (ℕ → Bool) → Bytes → Bytes × Bytes
span test [] = ([], [])
span test (c ∷ s) =
    let (front, rest) = span test s in if test c then (c ∷ front, rest) else ([], c ∷ s)

-- MatchSpaceToken
unfoldable pub match_space : Bytes → Matched
match_space [] = panic
match_space (c ∷ s) = if is_space c then matched (token space_token (codes " ")) s else no_match

-- MatchSingle
unfoldable pub match_single : ℕ → ℕ → Bytes → Matched
match_single b k [] = panic
match_single b k (c ∷ s) = if c == b then matched (token k (b ∷ [])) s else no_match

-- The comparison of Match, byte by byte: it reads behind the end of the instruction.
unfoldable pub same_word : Bytes → Bytes → Outcome (Option Bytes)
same_word [] s = ok (some s)
same_word (d ∷ w) [] = panic
same_word (d ∷ w) (c ∷ s) = let rest = same_word w s in if lower c == lower d then rest else ok none

-- The next byte is a letter or an underscore: the word goes on.
abbrev pub goes_on : Bytes → Bool
goes_on [] = false
goes_on (c ∷ s) = is_letter c || c == b'_'

-- Match: the bound of its first test is one too large.
unfoldable pub match_word : Bytes → ℕ → Bytes → Matched
unfolding same_word
match_word w k s =
    if ltb (length s + 1) (length w)
    then no_match
    else same_word w s >>= λ r. elim r [
      | none ↦ no_match
      | some rest ↦ if goes_on rest then no_match else matched (token k w) rest
    ]

-- MatchArgTokenODBC: not at the start, and not behind a quote.
unfoldable pub match_odbc : Option Token → Bytes → Matched
match_odbc last [] = panic
match_odbc none (c ∷ s) = no_match
match_odbc (some t) (c ∷ s) =
    if c == b'?' && not (t.kind == simple_quote_token || t.kind == double_quote_token)
    then matched (token arg_token (codes "?")) s
    else no_match

-- A token of what a loop has passed over, if that is anything.
abbrev unless_empty : ℕ → Bytes → Bytes → Matched
unless_empty k [] s = no_match
unless_empty k (c ∷ w) s = matched (token k (c ∷ w)) s

-- MatchNamedArgToken and MatchArgToken
unfoldable pub match_marked : ℕ → (ℕ → Bool) → ℕ → Bytes → Matched
unfolding span
match_marked b test k [] = panic
match_marked b test k (c ∷ s) =
    let (front, rest) = span test s in if c == b then unless_empty k front rest else no_match

-- MatchNumberToken and MatchStringToken
unfoldable pub match_span : (ℕ → Bool) → ℕ → Bytes → Matched
unfolding span
match_span test k s = let (front, rest) = span test s in unless_empty k front rest

abbrev pub in_number : ℕ → Bool
in_number c = is_digit c || c == b'-'

abbrev pub in_string : ℕ → Bool
in_string c = is_letter c || is_digit c || c == b'_' || c == b'@'

-- An exponent: what it is made of, and the bytes behind it. The first byte is read without a test.
unfoldable pub float_sign : Bytes → Option (Bytes × Bytes)
float_sign [] = none
float_sign (c ∷ s) = if c == b'+' || c == b'-' then some (b'e' ∷ c ∷ [], s) else none

unfoldable pub float_exponent : Bytes → Outcome (Option (Bytes × Bytes))
unfolding float_sign
float_exponent [] = panic
float_exponent (c ∷ s) = if c == b'e' then ok (float_sign s) else ok (some ([], c ∷ s))

unfoldable pub float_tail : Bytes → Bytes → Matched
unfolding span float_exponent
float_tail front s = float_exponent s >>= λ o. elim o [
  | none ↦ no_match
  | some (e, s') ↦
      let (ds, rest) = span is_digit s' in matched (token float_token (front ++ (e ++ ds))) rest
]

unfoldable pub float_point : Bytes → Bytes → Matched
unfolding float_tail
float_point [] s = no_match
float_point (d ∷ front) [] = no_match
float_point (d ∷ front) (c ∷ s) =
    if c == b'.'
    then float_tail ((d ∷ front) ++ b'.' ∷ []) s
    else if c == b'e'
    then float_tail (d ∷ front) (c ∷ s)
    else no_match

-- MatchFloatToken
unfoldable pub match_float : Bytes → Matched
unfolding float_point span
match_float s = let (front, rest) = span in_number s in float_point front rest

-- The position one behind the closing quote, or two behind the end.
abbrev behind : Bytes → Bytes
behind [] = []
behind (c ∷ s) = s

-- MatchSimpleQuoteToken and MatchDoubleQuoteToken: a quote that is not closed is closed at the end.
unfoldable pub match_quoted : ℕ → ℕ → Bytes → Matched
unfolding span
match_quoted q k [] = panic
match_quoted q k (c ∷ s) =
    let (front, rest) = span (λ d. not (d == q)) s in
    let quote : Token = token k (q ∷ []) in
    if c == q
    then ok (some (quote ∷ token string_token front ∷ quote ∷ [], behind rest))
    else no_match

-- The bytes up to the next `$$`, and those behind it. The empty text stands at the start only.
unfoldable pub until_dollars : Bytes → Option (Bytes × Bytes)
until_dollars [] = some ([], [])
until_dollars (c ∷ []) = none
until_dollars (c ∷ d ∷ s) =
    let rest = until_dollars (d ∷ s) in
    if c == b'$' && d == b'$'
    then some ([], s)
    else elim rest [ none ↦ none | some (front, behind') ↦ some (c ∷ front, behind') ]

unfoldable pub all_digits : Bytes → Bool
all_digits [] = true
all_digits (c ∷ s) = is_digit c && all_digits s

-- ParseDate, which is time.Parse in four layouts, is the parameter is_date.
module _ (is_date : Bytes → Bool) where
  unfoldable pub escaped_kind : Bytes → ℕ
  unfolding all_digits
  escaped_kind s =
      if is_date s then date_token else if all_digits s then number_token else string_token

  -- MatchEscapedStringToken: the second byte is read without a test.
  unfoldable pub match_escaped : Bytes → Matched
  unfolding until_dollars escaped_kind
  match_escaped [] = panic
  match_escaped (c ∷ []) = if c == b'$' then panic else no_match
  match_escaped (c ∷ d ∷ s) =
      if c == b'$' && d == b'$'
      then elim (until_dollars s) [
        | none ↦ no_match
        | some (text, rest) ↦ matched (token (escaped_kind text) text) rest
      ]
      else no_match

  -- MatchDateToken
  unfoldable pub match_date : Bytes → Matched
  unfolding span
  match_date s =
      let (text, rest) = span (λ c. not (c == b',') && not (c == b')')) s in
      if is_date text then matched (token string_token text) rest else no_match
