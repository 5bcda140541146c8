-- ===== src/Parser/Select/Within.antt =====
-- SELECT leaves tokens that it was given.
use ramsql.Base.{ℕ, zero, suc, Bool}
use ramsql.Parser.Token.{Token}
use ramsql.Parser.Tree.{Decl}
use ramsql.Parser.Tame.Within.{Within, Within-hang, within_rules}
use ramsql.Parser.Terms.Within.{
  parse_attribute-Within, parse_table_name-Within, parse_builtin_func-Within, parse_join-Within,
  parse_order_by-Within,
}
use ramsql.Parser.Statements.Within.{parse_where-Within}
use ramsql.Parser.Select.{
  parse_for_update, Columns, column, columns_loop, parse_columns, distinct_open, select_head,
  tables_loop, joins_loop, counted_clause, clauses_loop, select_clauses, parse_select,
}

module _ (P : Token → Type 0) where
  parse_for_update-Within : Within P parse_for_update
  unfolding parse_for_update
  parse_for_update-Within = search (within_rules) depth 12 fits 4000

  column-Within : (b : Bool) (cs : Columns) → Within P (column b cs)
  unfolding column
  column-Within b (on, others) =
      search (within_rules, parse_builtin_func-Within, parse_attribute-Within) depth 8

  columns_loop-Within : (n : ℕ) (b : Bool) (cs : Columns) → Within P (columns_loop n b cs)
  unfolding columns_loop
  columns_loop-Within zero b cs = Within-hang P
  columns_loop-Within (suc n) b cs =
      search (within_rules, columns_loop-Within n, column-Within) depth 16 fits 4000

  parse_columns-Within : (b : Bool) → Within P (parse_columns b)
  unfolding parse_columns
  parse_columns-Within b = search (within_rules, columns_loop-Within) depth 12 fits 4000

  distinct_open-Within : Within P distinct_open
  unfolding distinct_open
  distinct_open-Within = search (within_rules) depth 12 fits 4000

  select_head-Within : (d : Decl) → Within P (select_head d)
  unfolding select_head
  select_head-Within d =
      search (within_rules, parse_columns-Within, distinct_open-Within) depth 12 fits 4000

  tables_loop-Within : (n : ℕ) (d : Decl) → Within P (tables_loop n d)
  unfolding tables_loop
  tables_loop-Within zero d = Within-hang P
  tables_loop-Within (suc n) d =
      search (within_rules, tables_loop-Within n, parse_table_name-Within) depth 16 fits 4000

  joins_loop-Within : (n : ℕ) (d : Decl) → Within P (joins_loop n d)
  unfolding joins_loop
  joins_loop-Within zero d = Within-hang P
  joins_loop-Within (suc n) d =
      search (within_rules, joins_loop-Within n, parse_join-Within) depth 16 fits 4000

  counted_clause-Within : (k : ℕ) → Within P (counted_clause k)
  unfolding counted_clause
  counted_clause-Within k = search (within_rules) depth 12 fits 4000

  clauses_loop-Within : (n : ℕ) (b : Bool) (d : Decl) → Within P (clauses_loop n b d)
  unfolding clauses_loop
  clauses_loop-Within zero b d = Within-hang P
  clauses_loop-Within (suc n) b d =
      search
        (
          within_rules,
          clauses_loop-Within n,
          parse_where-Within,
          parse_order_by-Within,
          counted_clause-Within,
          parse_for_update-Within,
        )
        depth 16 fits 4000

  select_clauses-Within : (d : Decl) → Within P (select_clauses d)
  unfolding select_clauses
  select_clauses-Within d =
      search (within_rules, joins_loop-Within, clauses_loop-Within) depth 12 fits 4000

  pub parse_select-Within : Within P parse_select
  unfolding parse_select
  parse_select-Within =
      search (within_rules, select_head-Within, tables_loop-Within, select_clauses-Within) depth 20
        fits 4000
