-- ===== src/Executor/Rows/Appends.antt =====
-- INSERT of several rows as appends to its table, and SELECT * behind it.
use mathlib.Core.Path.{subst}
use ramsql.Base.{ℕ, suc, ◌≡◌, refl, sym, ap, ◌∙◌, List, [], ◌∷◌, ◌++◌, length, arith}
use ramsql.Base.Int.{ℤ, pos}
use ramsql.Base.Bytes.{Bytes, codes}
use ramsql.Base.Dict.{Dict}
use ramsql.Base.Outcome.{Outcome, ok}
use ramsql.Base.Exec.{pure, lift, ◌>>=◌, >>=-eq-ok}
use ramsql.Value.{Value, Runtime}
use ramsql.Tuple.{Tuple}
use ramsql.Index.{values_at}
use ramsql.Predicate.{truth}
use ramsql.Parser.Token.{
  select_token, star_token, from_token, string_token, into_token, values_token, one_of,
}
use ramsql.Parser.Tree.{Decl, Decls, node, nil, cons}
use ramsql.Transaction.{Session}
use ramsql.Transaction.Insert.{insert}
use ramsql.Transaction.Append.{Table, Shows}
use ramsql.Query.Selectors.{star}
use ramsql.Query.Tree.{query}
use ramsql.Query.Reads.{HasPlainColumn}
use ramsql.Query.Refinement.{Filled, nothing_yet, and_row, query-Filled}
use ramsql.Executor.Conditions.{listed, below}
use ramsql.Executor.Statement.{Env, Done}
use ramsql.Executor.Statement.{has}
use ramsql.Executor.Select.{select_clauses, select_clause, selected_tables, no_clauses}
use ramsql.Executor.Selectors.{select_executor, get_selectors, get_selector, known, run_query}
use ramsql.Executor.Rows.{get_values, guess_id, insert_rows, insert_names, insert_executor}

Filled-cons :
    (rt : Runtime) (schema name : Bytes) {s u t : Session} (given : Dict Value) (row : Tuple)
    {ts : List Tuple}
    → insert rt schema name given s ≡ (ok row, u)
    → Filled rt schema name u ts t
    → Filled rt schema name s (row ∷ ts) t
Filled-cons rt schema name {u = u} given row p nothing_yet = and_row u given row nothing_yet p
Filled-cons rt schema name given row p (and_row w other last run q) =
    and_row w other last (Filled-cons rt schema name given row p run) q

-- The loop over the rows of VALUES inserts one row for each, and returns as many.
insert_rows-Filled :
    (env : Env) (schema relation : Bytes) (attrs : List Bytes) (idx : List ℕ) (ds : List Decl)
    (last n : ℤ) (out : List Tuple) (s s' : Session)
    → insert_rows env schema relation attrs idx ds last s ≡ (ok (n, out), s')
    → (ts : List Tuple) × Filled env.runtime schema relation s ts s'
      × (length ts ≡ length ds)
      × (length out ≡ length ds)
unfolding insert_rows
insert_rows-Filled env schema relation attrs idx [] last n [] s s' p = (
  [],
  subst (λ u. Filled env.runtime schema relation s [] u)
      (ap (λ (x : Outcome (ℤ × List Tuple) × Session). x.1) p) nothing_yet,
  refl,
  refl,
)
insert_rows-Filled env schema relation attrs idx [] last n (t ∷ out) s s' p = absurd (ground arith)
insert_rows-Filled env schema relation attrs idx (d ∷ ds) last n out s s' p =
    let (values, p1, q1) =
      >>=-eq-ok (lift (get_values env attrs (below d) 1 [])) _ s s' (n, out) p in
    let (t, p2, q2) = >>=-eq-ok (insert env.runtime schema relation values) _ s s' (n, out) q1 in
    let u : Session = (insert env.runtime schema relation values s).1 in
    let (returned, p3, q3) = >>=-eq-ok (lift (values_at t.values idx)) _ u s' (n, out) q2 in
    let (here, p4, q4) = >>=-eq-ok (lift (guess_id env.runtime t.values last)) _ u s' (n, out) q3 in
    let ((final, outs), p5, q5) =
      >>=-eq-ok (insert_rows env schema relation attrs idx ds here) _ u s' (n, out) q4 in
    let (ts, run, as_many, reported) =
      insert_rows-Filled env schema relation attrs idx ds here final outs u s'
        (ground (arith, p5, q5)) in
    (
      t ∷ ts,
      Filled-cons env.runtime schema relation values t (ground (arith, p2)) run,
      ap suc as_many,
      ground (arith, q5, reported),
    )

-- SELECT * FROM name
abbrev pub select_all_from : Bytes → Decl
select_all_from name = node select_token (codes "select") (
    cons (node star_token (codes "*") nil)
      (cons (node from_token (codes "from") (cons (node string_token name nil) nil)) nil))

-- INSERT INTO name (...) VALUES ...
abbrev pub insert_decls : Bytes → Decls → Decls → List Decl
insert_decls name cols rows =
    node into_token (codes "into") (cons (node string_token name cols) nil)
    ∷ node values_token (codes "values") rows
    ∷ []

-- The statement is a read of the table.
select_all-run :
    (env : Env) (name : Bytes) (s : Session)
    → select_executor env (below (select_all_from name)) s
      ≡ (query env.runtime env.orders [] (star name ∷ []) truth [] [] >>= λ (cols, rows).
            pure (record { last = pos 0; affected = 0; cols = cols; rows = rows }))
          s
unfolding select_executor select_clauses select_clause selected_tables no_clauses get_selectors
    get_selector known run_query one_of has
select_all-run env name s = refl

abbrev names_below : Decls → Bytes × List Bytes
names_below cols = insert_names (listed cols) []

-- The statement is the loop over its rows, where it returns nothing.
insert-run :
    (env : Env) (name : Bytes) (cols rows : Decls) (s : Session)
    → insert_executor env (insert_decls name cols rows) s
      ≡ (insert_rows env (names_below cols).0 name (names_below cols).1 [] (listed rows) (pos 0)
            >>= λ (last, ts).
                pure (record { last = last; affected = length ts; cols = []; rows = [] }))
          s
unfolding insert_executor
insert-run env name cols rows s = refl

-- The session shows a table of the default schema, whose first column has a plain name. When an INSERT
-- into it without RETURNING succeeds, it reports one row for each list of VALUES, and SELECT * FROM
-- the table then returns its columns, the rows that were there, and as many rows behind them, the ones
-- that were inserted. Ranging over a map of one key visits that key.
pub insert_select :
    (env : Env) (name : Bytes) (cols rows : Decls) (r : ℕ) (a : Table) (s s' : Session) (d : Done)
    → env.orders.range 1 ≡ 0 ∷ []
    → HasPlainColumn a.columns
    → Shows [] name r a s
    → (insert_names (listed cols) []).0 ≡ []
    → insert_executor env (insert_decls name cols rows) s ≡ (ok d, s')
    → (d.affected ≡ length (listed rows))
      × (ts : List Tuple) × (u : Session) × (length ts ≡ length (listed rows))
      × Filled env.runtime [] name s ts s'
      × (select_executor env (below (select_all_from name)) s'
          ≡ (ok (record { last = pos 0; affected = 0; cols = a.columns; rows = a.rows ++ ts }), u))
insert_select env name cols rows r a s s' d one plain h default p =
    let ((n, out), q, q1) =
      >>=-eq-ok
        (insert_rows env (names_below cols).0 name (names_below cols).1 [] (listed rows) (pos 0)) _
        s s' d (sym (insert-run env name cols rows s) ∙ p) in
    let (ts, run, as_many, reported) =
      insert_rows-Filled env (names_below cols).0 name (names_below cols).1 [] (listed rows) (pos 0)
        n out s s' (ground (arith, q, q1)) in
    let filled : Filled env.runtime [] name s ts s' =
      subst (λ schema. Filled env.runtime schema name s ts s') default run in
    let (u, read, shown) = query-Filled env.runtime [] name r a env.orders one plain h filled in
    (
      ground (arith, q1, reported),
      ts,
      u,
      as_many,
      filled,
      select_all-run env name s' ∙ (ground (arith, read)),
    )
