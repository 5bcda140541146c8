-- ===== src/Parser/Lexer/Quotes.antt =====
-- Text in quotes comes back as one string token.
use ramsql.Base.{
  ℕ, suc, ◌≡◌, refl, Bool, false, not, Option, none, some, [], ◌∷◌, ◌++◌, All, ◌==◌, arith,
}
use ramsql.Base.Bytes.{Bytes}
use ramsql.Base.Outcome.{ok, ◌>>=◌}
use ramsql.Parser.Token.{Token, token, simple_quote_token, string_token}
use ramsql.Parser.Match.{span}
use ramsql.Parser.Lexer.{matchers, first_match, lex_loop}

abbrev pub quote : Token
quote = token simple_quote_token (b'\'' ∷ [])

-- The text has no single quote.
abbrev pub IsQuotable : Bytes → Type 0
IsQuotable = All (λ c. (c == b'\'') ≡ false)

span-quote :
    (text rest : Bytes)
    → IsQuotable text
    → span (λ d. not (d == b'\'')) (text ++ b'\'' ∷ rest) ≡ (text, b'\'' ∷ rest)
unfolding span
span-quote [] rest h = refl
span-quote (c ∷ text) rest h = ground (arith, span-quote text rest h.1)

module _ (is_date : Bytes → Bool) (text rest : Bytes) (h : IsQuotable text) where
  first_match-quoted :
      (last : Option Token)
      → first_match is_date matchers last (b'\'' ∷ (text ++ b'\'' ∷ rest))
        ≡ ok (some (quote ∷ token string_token text ∷ quote ∷ [], rest))
  unfolding first_match
  first_match-quoted none = rw (span-quote text rest h)
  first_match-quoted (some t) = rw (span-quote text rest h)

  -- At any point of the loop, a text without a single quote, between two of them, is lexed as quote,
  -- one string token of exactly that text, quote, whatever the text holds, and the loop goes on
  -- behind the closing quote.
  pub lex_loop-quoted :
      (fuel : ℕ) (last : Option Token)
      → lex_loop is_date matchers (suc fuel) last (b'\'' ∷ (text ++ b'\'' ∷ rest)) ≡ (
          lex_loop is_date matchers fuel (some quote) rest >>= λ ts.
          ok (quote ∷ token string_token text ∷ quote ∷ ts))
  unfolding lex_loop
  lex_loop-quoted fuel last = rw (first_match-quoted last)
