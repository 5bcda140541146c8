-- ===== src/Query/Where.antt =====
-- SELECT * with a condition on one table: Transaction.Query against a filter of the table's rows.
pub mod Filter
pub mod Locked
use ramsql.Query.Where.Filter.{
  keep, keep_elements, tuples-keep_elements, All-keep, Answers, scan_where,
}
use ramsql.Query.Where.Locked.{Still, rec_lock-Locked, lock_selectors-Locked}
use mathlib.Core.Path.{subst}
use ramsql.Base.{
  ℕ, ◌≡◌, ◌≢◌, refl, sym, ap, ◌∙◌, ◌⊎◌, inl, inr, Bool, Bool-cases, true, false, none, some, List,
  [], ◌∷◌, length, set, get_elem?, get_elem?-set_self, get_elem?-lt, All, if◌then◌else◌, arith,
}
use ramsql.Base.Bytes.{Bytes, str_eq, str_eq_refl, str_eq-eq}
use ramsql.Base.Dict
use ramsql.Base.Dict.{Dict, lookup}
use ramsql.Base.Outcome
use ramsql.Base.Outcome.{Outcome, ok, err, no_join}
use ramsql.Value.{Runtime}
use ramsql.Tuple.{Tuple}
use ramsql.Index.{Element}
use ramsql.Predicate.{
  Predicate, truth, falsity, conj, disj, neg, comparison, among, eval, relation_of,
}
use ramsql.Relation.{Relation}
use ramsql.Transaction.{Session, list_at, lock, take_lock, or_abort}
use ramsql.Transaction.Abort.{check_aborted_live}
use ramsql.Transaction.Insert.Columns.{column_names}
use ramsql.Transaction.Append.{Table, Shows, tuples, HasWidth, lock-Shows}
use ramsql.Query.Join.{fresh_elements}
use ramsql.Query.Source.{new_seq_scan, seq_scan, accepts, columns, scan}
use ramsql.Query.Source.Laws.{filtered, scan-filtered}
use ramsql.Query.Selectors.{star, select_node}
use ramsql.Query.Plan.{
  ScanNode, run_scan, choose_index, choose_source, pushed_down, rec_lock, touch, lock_selectors,
  single_scan, plan_body, plan,
}
use ramsql.Query.Plan
use ramsql.Query.Plan.Pushdown.{IsConjunctive, accepts-pushed_down}
use ramsql.Query.Order.{Orders}
use ramsql.Query.Tree
use ramsql.Query.Tree.Single.{query-single}
use ramsql.Query.Reads.{HasPlainColumn, select_star, tuples-fresh_elements}

module _ (schema name : Bytes) (r : ℕ) (a : Table) where
  module _ (some_name : name ≢ []) where
    -- The scan of the table.
    abbrev where_scan : Runtime → Predicate → Relation → Session → ScanNode
    where_scan rt p o t = record {
      source = choose_source rt p o (list_at o.rows t.heap);
      predicates = pushed_down o.name p;
    }

    single_scan-at :
        (rt : Runtime) (p : Predicate) (o : Relation) (t : Session)
        → get_elem? t.heap.relations r ≡ some o
        → single_scan rt p ((name, r) ∷ []) t ≡ (ok (where_scan rt p o t), t)
    unfolding single_scan
    single_scan-at rt p o t at = rw at refl

    plan_body-where :
        (rt : Runtime) (p : Predicate) (s : Session) (h : Shows schema name r a s)
        → IsConjunctive name p
        → (t : Session) × (still : Still schema name r a s h t) × (plan_body rt schema
              (star name ∷ [])
              p
              s
            ≡ (ok (where_scan rt p still.0.o t), t))
    unfolding plan_body
    plan_body-where rt p s h c =
        let (rels1, s1, e1, m1, (k1, n1, i1)) =
          rec_lock-Locked schema name r a some_name s h p [] (inl refl) c in
        let (t, e2, (k2, n2, i2)) =
          lock_selectors-Locked schema name r a some_name s1 k1 rels1 m1 in
        (
          t,
          (k2, n2 ∙ n1, i2 ∙ i1),
          ground (arith, h.in_engine, e1, e2, single_scan-at rt p k2.o t k2.at),
        )

    -- What the selector node returns.
    selected_where :
        (rt : Runtime) (p : Predicate) (test : Tuple → Bool) (t : Session)
        (k : Shows schema name r a t)
        → k.o.name ≡ name
        → choose_index rt p k.o.indexes ≡ none
        → IsConjunctive name p
        → HasPlainColumn a.columns
        → Answers rt a.columns p test a.rows
        → select_node (star name ∷ []) (run_scan rt (where_scan rt p k.o t))
          ≡ ok (record { cols = a.columns; rows = fresh_elements 0 (keep test a.rows) })
    selected_where rt p test t k same unserved c plain answers =
        let es : List Element = list_at k.o.rows t.heap in
        let kept : tuples (keep_elements test es) ≡ keep test a.rows =
          tuples-keep_elements test es ∙ ap (keep test) k.rows in
        let found : run_scan rt (where_scan rt p k.o t)
            ≡ ok (record { cols = column_names k.o.attributes; rows = keep_elements test es }) =
          scan_where rt k.o p test es unserved (subst (λ n. IsConjunctive n p) (sym same) c) (
            subst (λ cols. Answers rt cols p test (tuples es)) (sym k.columns)
              (subst (Answers rt a.columns p test) (sym k.rows) answers)) in
        ap (select_node (star name ∷ [])) found
        ∙ (ap
              (λ cols.
                select_node (star name ∷ [])
                  (ok (record { cols = cols; rows = keep_elements test es })))
              k.columns
            ∙ (select_star name a.columns (keep_elements test es) plain (
                  subst (All (HasWidth (length a.columns))) (sym kept)
                    (All-keep (HasWidth (length a.columns)) test a.rows k.widths))
                ∙ ap (λ ts. ok (record { cols = a.columns; rows = fresh_elements 0 ts })) kept))

    plan_where :
        (rt : Runtime) (p : Predicate) (test : Tuple → Bool) (s : Session)
        (h : Shows schema name r a s)
        → h.o.name ≡ name
        → choose_index rt p h.o.indexes ≡ none
        → IsConjunctive name p
        → HasPlainColumn a.columns
        → Answers rt a.columns p test a.rows
        → (t : Session) × (Plan.query rt schema (star name ∷ []) p s
            ≡ (ok (a.columns, keep test a.rows), t))
          × Shows schema name r a t
    unfolding Plan.query plan or_abort
    plan_where rt p test s h same unserved c plain answers =
        let (t, (k, n, i), planned) = plan_body-where rt p s h c in
        (
          t,
          ground (
            arith,
            check_aborted_live s h.live,
            planned,
            selected_where rt p test t k (n ∙ same) (ap (choose_index rt p) i ∙ unserved) c plain
                answers,
            tuples-fresh_elements 0 (keep test a.rows),
          ),
          k,
        )

    -- SELECT * with a condition returns exactly the rows on which it holds. Where the session shows a
    -- table of that name, which is not empty; its first column has a plain name; no index of it serves
    -- the condition; the condition is a conjunction of conditions on the table, TRUE among them, and
    -- evaluates on each row to what a test says: the query, planned with no joiners and no sorters,
    -- returns the columns and the rows that pass the test, in their order, and the session still shows
    -- the table. Ranging over a map of one key visits that key.
    pub query-keep :
        (rt : Runtime) (ord : Orders) (p : Predicate) (test : Tuple → Bool) (s : Session)
        (h : Shows schema name r a s)
        → ord.range 1 ≡ 0 ∷ []
        → h.o.name ≡ name
        → choose_index rt p h.o.indexes ≡ none
        → IsConjunctive name p
        → HasPlainColumn a.columns
        → Answers rt a.columns p test a.rows
        → (t : Session) × (Tree.query rt ord schema (star name ∷ []) p [] [] s
            ≡ (ok (a.columns, keep test a.rows), t))
          × Shows schema name r a t
    query-keep rt ord p test s h one same unserved c plain answers =
        let (t, still, planned) = plan_body-where rt p s h c in
        let (u, q, k) = plan_where rt p test s h same unserved c plain answers in
        (u, query-single rt ord one p schema (star name ∷ []) s (ground (arith, planned)) ∙ q, k)
