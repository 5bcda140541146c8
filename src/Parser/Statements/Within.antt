-- ===== src/Parser/Statements/Within.antt =====
-- The parsers of statements leave tokens that they were given.
use ramsql.Base.{ℕ, zero, suc, Bool, true, false, [], ◌∷◌, All}
use ramsql.Parser.Token.{Token}
use ramsql.Parser.Tree.{Decl, Tokens}
use ramsql.Parser.Tame.Within.{Within, Leaves, Within-hang, within_rules}
use ramsql.Parser.Terms.Within.{
  parse_attribute-Within, parse_table_name-Within, parse_quoted_token-Within, parse_value-Within,
  parse_list_element-Within, bracket_list-Within, parse_in-Within, parse_attribution-Within,
}
use ramsql.Parser.Statements.{
  next_is_one, condition_one, condition_not, condition_is, condition_value, condition_operator,
  parse_condition, link, where_loop, parse_where, optional_comma, set_loop, parse_update, rows_loop,
  parse_returning, parse_insert, parse_delete, parse_truncate,
}

module _ (P : Token → Type 0) where
  next_is_one-Within : Within P next_is_one
  unfolding next_is_one
  next_is_one-Within = record { left = go }
    where
      go : (ts : Tokens) → All P ts → Leaves P (next_is_one ts)
      go [] h = h
      go (t ∷ []) h = h
      go (t ∷ u ∷ ts) h = h

  condition_one-Within : (d : Decl) → Within P (condition_one d)
  unfolding condition_one
  condition_one-Within d = search (within_rules, next_is_one-Within) depth 20 fits 4000

  condition_not-Within : (d : Decl) → Within P (condition_not d)
  unfolding condition_not
  condition_not-Within d = search (within_rules, parse_in-Within) depth 12 fits 4000

  condition_is-Within : (d : Decl) → Within P (condition_is d)
  unfolding condition_is
  condition_is-Within d = search (within_rules) depth 20 fits 4000

  condition_value-Within : (b : Bool) (d : Decl) → Within P (condition_value b d)
  unfolding condition_value
  condition_value-Within b d = search (within_rules, parse_value-Within) depth 12 fits 4000

  condition_operator-Within : (b : Bool) (d : Decl) → Within P (condition_operator b d)
  unfolding condition_operator
  condition_operator-Within b d =
      search
        (
          within_rules, parse_in-Within, condition_not-Within, condition_is-Within,
          condition_value-Within,
        )
        depth 20 fits 4000

  parse_condition-Within : Within P parse_condition
  unfolding parse_condition
  parse_condition-Within =
      search (within_rules, condition_one-Within, condition_operator-Within, parse_attribute-Within)
        depth 20 fits 4000

  link-Within : (d : Decl) (b : Bool) → Within P (link d b)
  link-Within d true = search within_rules
  link-Within d false = search within_rules

  where_loop-Within : (n : ℕ) (b : Bool) (d : Decl) → Within P (where_loop n b d)
  unfolding where_loop
  where_loop-Within zero b d = Within-hang P
  where_loop-Within (suc n) b d =
      search (within_rules, where_loop-Within n, parse_condition-Within, link-Within) depth 16 fits
        4000

  pub parse_where-Within : Within P parse_where
  unfolding parse_where
  parse_where-Within = search (within_rules, where_loop-Within) depth 12 fits 4000

  optional_comma-Within : Within P optional_comma
  optional_comma-Within = search within_rules depth 8

  set_loop-Within : (n : ℕ) (b : Bool) (d : Decl) → Within P (set_loop n b d)
  unfolding set_loop
  set_loop-Within zero b d = Within-hang P
  set_loop-Within (suc n) b d =
      search (within_rules, set_loop-Within n, parse_attribution-Within, optional_comma-Within)
        depth 16 fits 4000

  pub parse_update-Within : Within P parse_update
  unfolding parse_update
  parse_update-Within =
      search (within_rules, set_loop-Within, parse_where-Within, parse_quoted_token-Within) depth 12
        fits 4000

  rows_loop-Within : (n : ℕ) (d : Decl) → Within P (rows_loop n d)
  unfolding rows_loop
  rows_loop-Within zero d = Within-hang P
  rows_loop-Within (suc n) d =
      search (within_rules, rows_loop-Within n, bracket_list-Within, parse_list_element-Within)
        depth 16 fits 4000

  parse_returning-Within : (d : Decl) → Within P (parse_returning d)
  unfolding parse_returning
  parse_returning-Within d = search (within_rules, parse_attribute-Within) depth 12 fits 4000

  pub parse_insert-Within : Within P parse_insert
  unfolding parse_insert
  parse_insert-Within =
      search
        (
          within_rules, parse_table_name-Within, bracket_list-Within, parse_list_element-Within,
          rows_loop-Within, parse_returning-Within,
        )
        depth 20 fits 4000

  pub parse_delete-Within : Within P parse_delete
  unfolding parse_delete
  parse_delete-Within =
      search (within_rules, parse_table_name-Within, parse_where-Within) depth 12 fits 4000

  pub parse_truncate-Within : Within P parse_truncate
  unfolding parse_truncate
  parse_truncate-Within = search (within_rules, parse_quoted_token-Within) depth 12 fits 4000
