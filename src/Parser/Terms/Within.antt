-- ===== src/Parser/Terms/Within.antt =====
-- The parsers of names, values and lists leave tokens that they were given.
use ramsql.Base.{ℕ, zero, suc, Option, none, some, List, [], ◌∷◌}
use ramsql.Parser.Token.{Token}
use ramsql.Parser.Tree.{Decl, Parse}
use ramsql.Parser.Tame.Within.{
  Within, Within-pure, Within-hang, within_rules, Within-must_have_next,
}
use ramsql.Parser.Terms.{
  open_quote, closing_next, closing, expect, quoted_name, dotted_name, parse_attribute, parse_alias,
  parse_table_name, parse_quoted_token, quoted_value, parse_value, parse_list_element, list_loop,
  bracket_list, parse_in, parse_attribution, parse_builtin_func, parse_join, order_loop,
  parse_order_by,
}

module _ (P : Token → Type 0) where
  open_quote-Within : Within P open_quote
  unfolding open_quote
  open_quote-Within = search (within_rules) depth 12 fits 4000

  closing_next-Within : (q : Option ℕ) → Within P (closing_next q)
  closing_next-Within none = Within-pure P tt
  closing_next-Within (some q) = Within-must_have_next P (q ∷ [])

  closing-Within : (q : Option ℕ) → Within P (closing q)
  closing-Within none = Within-pure P tt
  closing-Within (some q) = search within_rules

  expect-Within : (kinds : List ℕ) → Within P (expect kinds)
  unfolding expect
  expect-Within kinds = search (within_rules) depth 12 fits 4000

  quoted_name-Within : (kinds : List ℕ) → Within P (quoted_name kinds)
  unfolding quoted_name
  quoted_name-Within kinds =
      search (within_rules, open_quote-Within, expect-Within, closing_next-Within) depth 12 fits
        4000

  dotted_name-Within : Within P dotted_name
  unfolding dotted_name
  dotted_name-Within = search (within_rules, open_quote-Within, closing-Within) depth 12 fits 4000

  pub parse_attribute-Within : Within P parse_attribute
  unfolding parse_attribute
  parse_attribute-Within =
      search (within_rules, quoted_name-Within, dotted_name-Within) depth 12 fits 4000

  parse_alias-Within : (d : Decl) → Within P (parse_alias d)
  unfolding parse_alias
  parse_alias-Within d = search (within_rules) depth 12 fits 4000

  pub parse_table_name-Within : Within P parse_table_name
  unfolding parse_table_name
  parse_table_name-Within =
      search (within_rules, quoted_name-Within, dotted_name-Within, parse_alias-Within) depth 12
        fits 4000

  pub parse_quoted_token-Within : Within P parse_quoted_token
  unfolding parse_quoted_token
  parse_quoted_token-Within = search (within_rules, quoted_name-Within) depth 12 fits 4000

  quoted_value-Within : (kinds : List ℕ) → Within P (quoted_value kinds)
  unfolding quoted_value
  quoted_value-Within kinds = search (within_rules) depth 12 fits 4000

  pub parse_value-Within : Within P parse_value
  unfolding parse_value
  parse_value-Within = search (within_rules, quoted_value-Within) depth 12 fits 4000

  pub parse_list_element-Within : Within P parse_list_element
  unfolding parse_list_element
  parse_list_element-Within = search (within_rules, quoted_value-Within) depth 12 fits 4000

  list_loop-Within : (m : Parse Decl) (n : ℕ) (d : Decl) → Within P m → Within P (list_loop m n d)
  unfolding list_loop
  list_loop-Within m zero d h = Within-hang P
  list_loop-Within m (suc n) d h =
      search (within_rules, λ (e : Decl). list_loop-Within m n e h) depth 16 fits 4000

  pub bracket_list-Within : (m : Parse Decl) (d : Decl) → Within P m → Within P (bracket_list m d)
  unfolding bracket_list
  bracket_list-Within m d h = search (within_rules, list_loop-Within)

  pub parse_in-Within : Within P parse_in
  unfolding parse_in
  parse_in-Within =
      search (within_rules, bracket_list-Within, parse_value-Within) depth 12 fits 4000

  pub parse_attribution-Within : Within P parse_attribution
  unfolding parse_attribution
  parse_attribution-Within =
      search (within_rules, parse_attribute-Within, parse_value-Within) depth 20 fits 4000

  pub parse_builtin_func-Within : Within P parse_builtin_func
  unfolding parse_builtin_func
  parse_builtin_func-Within = search (within_rules, parse_attribute-Within) depth 12 fits 4000

  pub parse_join-Within : Within P parse_join
  unfolding parse_join
  parse_join-Within = search (within_rules, parse_attribute-Within) depth 24 fits 4000

  order_loop-Within : (n : ℕ) (d : Decl) → Within P (order_loop n d)
  unfolding order_loop
  order_loop-Within zero d = Within-hang P
  order_loop-Within (suc n) d =
      search (within_rules, order_loop-Within n, parse_attribute-Within) depth 16 fits 4000

  pub parse_order_by-Within : Within P parse_order_by
  unfolding parse_order_by
  parse_order_by-Within = search (within_rules, order_loop-Within) depth 12 fits 4000
