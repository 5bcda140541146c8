-- ===== src/Query/Refinement.antt =====
-- Transaction.Insert and Transaction.Query refine a table that is a sequence of rows: appends and reads.
use mathlib.Core.Path.{subst}
use ramsql.Base.{ℕ, ◌≡◌, sym, ◌∙◌, List, [], ◌∷◌, ◌++◌, append-nil, append_assoc, arith}
use ramsql.Base.Bytes.{Bytes}
use ramsql.Base.Dict.{Dict}
use ramsql.Base.Outcome.{ok}
use ramsql.Value.{Value, Runtime}
use ramsql.Tuple.{Tuple}
use ramsql.Predicate.{truth}
use ramsql.Transaction.{Session}
use ramsql.Transaction.Insert.{insert}
use ramsql.Transaction.Append.{Table, Shows, insert-Shows}
use ramsql.Query.Selectors.{star}
use ramsql.Query.Order.{Orders}
use ramsql.Query.Tree.{query}
use ramsql.Query.Tree.Single.{query-single}
use ramsql.Query.Reads.{HasPlainColumn, query-Shows, plan_body-truth}

-- Inserts into one table that succeed, one after the other, with the rows that they return.
pub data Filled (rt : Runtime) (schema name : Bytes) (s : Session)
    : List Tuple → Session → Type 0 where
  nothing_yet : Filled rt schema name s [] s
  and_row :
      {ts : List Tuple} {t : Session} (u : Session) (given : Dict Value) (row : Tuple)
      → Filled rt schema name s ts t
      → insert rt schema name given t ≡ (ok row, u)
      → Filled rt schema name s (ts ++ row ∷ []) u

abbrev pub extend : Table → List Tuple → Table
extend a ts = record a { rows = a.rows ++ ts }

module _ (rt : Runtime) (schema name : Bytes) (r : ℕ) (a : Table) where
  pub Filled-Shows :
      {s t : Session} {ts : List Tuple}
      → Shows schema name r a s
      → Filled rt schema name s ts t
      → Shows schema name r (extend a ts) t
  Filled-Shows {s} h nothing_yet =
      subst (λ rows. Shows schema name r (record a { rows = rows }) s) (sym (append-nil a.rows)) h
  Filled-Shows h (and_row {ts} {t} u given row run p) =
      subst (λ rows. Shows schema name r (record a { rows = rows }) u)
        (append_assoc a.rows ts (row ∷ []))
        (insert-Shows rt schema name r (extend a ts) t u row given (Filled-Shows h run) p)

  -- The session shows a table whose first column has a plain name. After any number of successful
  -- Inserts into it, SELECT * without a condition, planned with no joiners and no sorters, returns the
  -- columns, the rows that were there, and the rows that the Inserts returned, in their order; and the
  -- session still shows that table. Ranging over a map of one key visits that key.
  pub query-Filled :
      (ord : Orders) {s t : Session} {ts : List Tuple}
      → ord.range 1 ≡ 0 ∷ []
      → HasPlainColumn a.columns
      → Shows schema name r a s
      → Filled rt schema name s ts t
      → (u : Session) × (query rt ord schema (star name ∷ []) truth [] [] t
          ≡ (ok (a.columns, a.rows ++ ts), u))
        × Shows schema name r (extend a ts) u
  query-Filled ord {s} {t} {ts} one plain h run =
      let k = Filled-Shows h run in
      let (s1, shown, planned) = plan_body-truth rt schema name r (extend a ts) t k in
      let (u, q, still) = query-Shows rt schema name r (extend a ts) t k plain in
      (
        u,
        query-single rt ord one truth schema (star name ∷ []) t (ground (arith, planned)) ∙ q,
        still,
      )
