-- ===== src/Executor/Selectors.antt =====
-- engine/executor: getSelector, and selectExecutor behind its clauses.
use ramsql.Base.{Bool, true, false, ◌==◌, Option, none, some, List, [], ◌∷◌, if◌then◌else◌}
use ramsql.Base.Int.{pos}
use ramsql.Base.Bytes.{Bytes, codes, str_eq}
use ramsql.Base.Dict.{Dict}
use ramsql.Base.Outcome.{ok, err, panic, blocked, Error}
use ramsql.Base.Exec.{Exec, pure, lift, ◌>>=◌, ◌>>◌}
use ramsql.Tuple.{Tuple}
use ramsql.Predicate.{Predicate, truth}
use ramsql.Store.{find_schema}
use ramsql.Parser.Token.{one_of, string_token, star_token, count_token}
use ramsql.Parser.Tree.{Decl}
use ramsql.Transaction.{Session, check_aborted, or_abort, look}
use ramsql.Transaction.Statements.{relation_attribute}
use ramsql.Query.Selectors.{Selector, attribute_selector, count, star}
use ramsql.Query.Plan.{rec_lock, lock_selectors}
use ramsql.Query.Tree.{query}
use ramsql.Executor.Conditions.{kind_of, lexeme_of, below, get_alias}
use ramsql.Executor.Statement.{Env, Done, first}
use ramsql.Executor.Select.{Clauses, no_clauses, main_table, select_clauses}

-- The loop over the tables: the first one with the attribute, or the error of the last one. Where there
-- is no table, the selector and the error are nil.
unfoldable pub table_selector :
    Bytes
    → Dict Bytes
    → Bytes
    → (Bytes → Selector)
    → List Bytes
    → Option Error
    → Exec Session (Option Selector)
unfolding relation_attribute get_alias
table_selector schema aliases attr f [] none s = (ok none, s)
table_selector schema aliases attr f [] (some e) s = (err e, s)
table_selector schema aliases attr f (t ∷ ts) last s =
    let (r, s') = relation_attribute schema (get_alias t aliases) attr s in
    elim r [
      | ok found ↦ (ok (some (f t)), s')
      | err e ↦ table_selector schema aliases attr f ts (some e) s'
      | panic ↦ (panic, s')
      | blocked ↦ (blocked, s')
    ]

-- COUNT: of everything in the first table, or of an attribute.
unfoldable pub count_selector : Clauses → Decl → Exec Session (Option Selector)
unfolding table_selector
count_selector c d = elim c.tables [
  | [] ↦ pure none
  | t ∷ ts ↦ (do
    e ← first (below d)
    if str_eq (lexeme_of e) (codes "*")
        then pure (some (count t (codes "*")))
        else table_selector c.schema c.aliases (lexeme_of e) (λ u. count u (lexeme_of e)) (t ∷ ts)
            none)
]

-- A column, with its table or without.
unfoldable pub column_selector : Clauses → Decl → Exec Session (Option Selector)
unfolding table_selector get_alias relation_attribute attribute_selector
column_selector c d = elim (below d) [
  | [] ↦
      table_selector c.schema c.aliases (lexeme_of d)
        (λ u. attribute_selector u (lexeme_of d ∷ []) []) c.tables none
  | e ∷ es ↦ (do
    let name = lexeme_of e
    let a = get_alias name c.aliases
    relation_attribute c.schema a (lexeme_of d)
    pure (some (attribute_selector a (lexeme_of d ∷ []) (if str_eq name a then [] else name))))
]

-- getSelector
unfoldable pub get_selector : Clauses → Decl → Exec Session (Option Selector)
unfolding count_selector column_selector
get_selector c d =
    if kind_of d == star_token
    then (main_table c >>= λ t. pure (some (star t)))
    else if kind_of d == count_token
    then count_selector c d
    else column_selector c d

unfoldable pub get_selectors : Clauses → List Decl → Exec Session (List (Option Selector))
unfolding get_selector
get_selectors c [] = pure []
get_selectors c (d ∷ ds) =
    let rest = get_selectors c ds in
    if one_of (kind_of d) (string_token ∷ star_token ∷ count_token ∷ [])
    then (get_selector c d >>= λ s. rest >>= λ ss. pure (s ∷ ss))
    else rest

-- The selectors before the first nil, and whether that is all of them.
unfoldable pub known : List (Option Selector) → List Selector × Bool
known [] = ([], true)
known (none ∷ ss) = ([], false)
known (some s ∷ ss) = let (l, all) = known ss in (s ∷ l, all)

-- The query of the statement. A nil selector panics in the loop of Plan that locks its relation.
unfoldable pub run_query :
    Env → Clauses → Predicate → List Selector × Bool → Exec Session (List Bytes × List Tuple)
unfolding query
run_query env c p (selectors, true) =
    query env.runtime env.orders c.schema selectors p c.joiners c.sorters
run_query env c p (selectors, false) = do
  check_aborted
  or_abort (do
    look (find_schema c.schema)
    rels ← rec_lock c.schema p []
    lock_selectors c.schema selectors rels
    lift panic)

-- selectExecutor
unfoldable pub select_executor : Env → List Decl → Exec Session Done
unfolding select_clauses get_selectors known run_query
select_executor env ds = do
  c ← select_clauses env ds no_clauses
  let p : Predicate = elim c.predicate [ none ↦ truth | some q ↦ q ]
  selectors ← get_selectors c ds
  (cols, rows) ← run_query env c p (known selectors)
  pure (record { last = pos 0; affected = 0; cols = cols; rows = rows })
