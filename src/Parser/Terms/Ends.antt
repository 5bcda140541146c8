-- ===== src/Parser/Terms/Ends.antt =====
-- The parsers of names, values and lists end.
use ramsql.Base.{ℕ, ◌≡◌, refl, false, Option, none, some, List, [], ◌∷◌, arith}
use ramsql.Parser.Tree.{Decl, ◌>>=◌, is, cur, pure, raise, consume}
use ramsql.Parser.Tame.{Tame, Tame-pure, Tame-must_have_next, tame_rules}
use ramsql.Parser.Token.{
  comma_token, default_token, float_token, number_token, string_token, star_token, null_token,
  date_token, now_token, arg_token, named_arg_token, false_token, one_of,
}
use ramsql.Parser.Tame.Moves.{Moves, moves_rules}
use ramsql.Parser.Tame.Single.{
  Keeps, Keeps-pure, Keeps-must_have_next, Refuses, keeps_rules, refuses_rules,
}
use ramsql.Parser.Terms.{
  open_quote, closing_next, closing, expect, quoted_name, dotted_name, parse_attribute, parse_alias,
  parse_table_name, parse_quoted_token, quoted_value, parse_value, parse_list_element,
  parse_attribution, parse_builtin_func, parse_type, parse_string_literal, parse_join,
}

open_quote-Tame : Tame open_quote
unfolding open_quote
open_quote-Tame = search tame_rules

closing_next-Tame : (q : Option ℕ) → Tame (closing_next q)
closing_next-Tame none = Tame-pure tt
closing_next-Tame (some q) = Tame-must_have_next (q ∷ [])

closing-Tame : (q : Option ℕ) → Tame (closing q)
closing-Tame none = Tame-pure tt
closing-Tame (some q) = search tame_rules

expect-Tame : (kinds : List ℕ) → Tame (expect kinds)
unfolding expect
expect-Tame kinds = search tame_rules

quoted_name-Tame : (kinds : List ℕ) → Tame (quoted_name kinds)
unfolding quoted_name
quoted_name-Tame kinds = search (tame_rules, open_quote-Tame, expect-Tame, closing_next-Tame)

dotted_name-Tame : Tame dotted_name
unfolding dotted_name
dotted_name-Tame = search (tame_rules, open_quote-Tame, closing-Tame)

pub parse_attribute-Tame : Tame parse_attribute
unfolding parse_attribute
parse_attribute-Tame = search (tame_rules, quoted_name-Tame, dotted_name-Tame) depth 12

parse_alias-Tame : (d : Decl) → Tame (parse_alias d)
unfolding parse_alias
parse_alias-Tame d = search tame_rules depth 12

pub parse_table_name-Tame : Tame parse_table_name
unfolding parse_table_name
parse_table_name-Tame =
    search (tame_rules, quoted_name-Tame, dotted_name-Tame, parse_alias-Tame) depth 12 fits 4000

pub parse_quoted_token-Tame : Tame parse_quoted_token
unfolding parse_quoted_token
parse_quoted_token-Tame = search (tame_rules, quoted_name-Tame) depth 12

quoted_value-Tame : (kinds : List ℕ) → Tame (quoted_value kinds)
unfolding quoted_value
quoted_value-Tame kinds = search tame_rules depth 12

pub parse_value-Tame : Tame parse_value
unfolding parse_value
parse_value-Tame = quoted_value-Tame _

pub parse_list_element-Tame : Tame parse_list_element
unfolding parse_list_element
parse_list_element-Tame = search (tame_rules, quoted_value-Tame) depth 12

pub parse_attribution-Tame : Tame parse_attribution
unfolding parse_attribution
parse_attribution-Tame =
    search (tame_rules, parse_attribute-Tame, parse_value-Tame) depth 20 fits 4000

pub parse_builtin_func-Tame : Tame parse_builtin_func
unfolding parse_builtin_func
parse_builtin_func-Tame = search (tame_rules, parse_attribute-Tame) depth 12

pub parse_type-Tame : Tame parse_type
unfolding parse_type
parse_type-Tame = search tame_rules depth 12

pub parse_string_literal-Tame : Tame parse_string_literal
unfolding parse_string_literal
parse_string_literal-Tame = search tame_rules depth 12

pub parse_join-Tame : Tame parse_join
unfolding parse_join
parse_join-Tame = search (tame_rules, parse_attribute-Tame) depth 24 fits 4000

pub parse_attribute-Moves : Moves parse_attribute
unfolding parse_attribute
parse_attribute-Moves =
    search (moves_rules, tame_rules, quoted_name-Tame, dotted_name-Tame) depth 12

-- On a single token the current token stays.
open_quote-Keeps : Keeps open_quote
unfolding open_quote
open_quote-Keeps = search keeps_rules

closing_next-Keeps : (q : Option ℕ) → Keeps (closing_next q)
closing_next-Keeps none = Keeps-pure tt
closing_next-Keeps (some q) = Keeps-must_have_next (q ∷ [])

closing-Keeps : (q : Option ℕ) → Keeps (closing q)
closing-Keeps none = Keeps-pure tt
closing-Keeps (some q) = search keeps_rules

expect-Keeps : (kinds : List ℕ) → Keeps (expect kinds)
unfolding expect
expect-Keeps kinds = search keeps_rules

quoted_name-Keeps : (kinds : List ℕ) → Keeps (quoted_name kinds)
unfolding quoted_name
quoted_name-Keeps kinds = search (keeps_rules, open_quote-Keeps, expect-Keeps, closing_next-Keeps)

dotted_name-Keeps : Keeps dotted_name
unfolding dotted_name
dotted_name-Keeps = search (keeps_rules, open_quote-Keeps, closing-Keeps)

pub parse_attribute-Keeps : Keeps parse_attribute
unfolding parse_attribute
parse_attribute-Keeps = search (keeps_rules, quoted_name-Keeps, dotted_name-Keeps) depth 12

quoted_value-Keeps : (kinds : List ℕ) → Keeps (quoted_value kinds)
unfolding quoted_value
quoted_value-Keeps kinds = search keeps_rules depth 12

pub parse_list_element-Keeps : Keeps parse_list_element
unfolding parse_list_element
parse_list_element-Keeps = search (keeps_rules, quoted_value-Keeps) depth 12

-- What each refuses as a single token
expect-Refuses : (k : ℕ) (kinds : List ℕ) → one_of k kinds ≡ false → Refuses k (expect kinds)
unfolding expect ◌>>=◌ is cur pure raise
expect-Refuses k kinds other = record { refused = λ t same. ground arith }

quoted_name-Refuses :
    (k : ℕ) (kinds : List ℕ) → one_of k kinds ≡ false → Refuses k (quoted_name kinds)
unfolding quoted_name
quoted_name-Refuses k kinds other =
    search (keeps_rules, refuses_rules, open_quote-Keeps, expect-Refuses)

pub parse_attribute-Refuses :
    (k : ℕ) → one_of k (string_token ∷ star_token ∷ []) ≡ false → Refuses k parse_attribute
unfolding parse_attribute
parse_attribute-Refuses k other = search (refuses_rules, quoted_name-Refuses) depth 8

pub parse_quoted_token-Refuses : (k : ℕ) → Refuses k parse_quoted_token
unfolding parse_quoted_token
parse_quoted_token-Refuses k = search (keeps_rules, refuses_rules, quoted_name-Keeps) depth 8

quoted_value-Refuses :
    (k : ℕ) (kinds : List ℕ) → one_of k kinds ≡ false → Refuses k (quoted_value kinds)
unfolding quoted_value
quoted_value-Refuses k kinds other = search (keeps_rules, refuses_rules) depth 8

pub parse_value-Refuses-comma : Refuses comma_token parse_value
unfolding parse_value
parse_value-Refuses-comma = quoted_value-Refuses comma_token _ (unfold one_of in refl)

pub parse_list_element-Refuses :
    (k : ℕ)
    → one_of k (
        default_token ∷ float_token ∷ string_token ∷ number_token ∷ null_token ∷ date_token
        ∷ now_token ∷ arg_token ∷ named_arg_token ∷ false_token ∷ [])
      ≡ false
    → Refuses k parse_list_element
unfolding parse_list_element one_of ◌>>=◌ is consume
parse_list_element-Refuses k other =
    search (keeps_rules, refuses_rules, quoted_value-Refuses, arith) depth 8

pub parse_join-Refuses :
    (k : ℕ) → one_of k (string_token ∷ star_token ∷ []) ≡ false → Refuses k parse_join
unfolding parse_join
parse_join-Refuses k other = search (keeps_rules, refuses_rules, parse_attribute-Refuses) depth 8

pub parse_value-Keeps : Keeps parse_value
unfolding parse_value
parse_value-Keeps = quoted_value-Keeps _

pub parse_quoted_token-Keeps : Keeps parse_quoted_token
unfolding parse_quoted_token
parse_quoted_token-Keeps = search (keeps_rules, quoted_name-Keeps) depth 8

pub parse_attribution-Moves : Moves parse_attribution
unfolding parse_attribution
parse_attribution-Moves =
    search (moves_rules, tame_rules, parse_attribute-Moves, parse_value-Tame) depth 20 fits 4000

pub parse_join-Moves : Moves parse_join
unfolding parse_join
parse_join-Moves = search (moves_rules, tame_rules, parse_attribute-Tame) depth 24 fits 4000
