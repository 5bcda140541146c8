-- ===== src/Query/Reads.antt =====
-- SELECT * without a condition as a read of the abstract table, and Insert with it as a refinement.
use mathlib.Core.Path.{subst}
use ramsql.Base.{
  ℕ, ◌+◌, ◌≡◌, refl, sym, ap, ◌∙◌, Bool, true, false, none, some, List, [], ◌∷◌, length, append-nil,
  get_elem?, All, arith,
}
use ramsql.Base.Bytes.{Bytes, contains_byte}
use ramsql.Base.Dict
use ramsql.Base.Dict.{Dict}
use ramsql.Base.Outcome
use ramsql.Base.Outcome.{Outcome, ok}
use ramsql.Value.{Runtime}
use ramsql.Tuple.{Tuple}
use ramsql.Index.{Element, HashIndex, can_source_with}
use ramsql.Predicate.{truth, eval, relation_of, type_of}
use ramsql.Relation.{Relation}
use ramsql.Transaction.{Session, list_at, or_abort, lock}
use ramsql.Transaction.Abort.{check_aborted_live}
use ramsql.Transaction.Insert.Columns.{column_names}
use ramsql.Transaction.Append.{Table, Shows, tuples, lock-Shows}
use ramsql.Query.{Result}
use ramsql.Query.Join.{fresh_elements}
use ramsql.Query.Source.{new_seq_scan, seq_scan, accepts, columns, scan}
use ramsql.Query.Source.Laws.{filtered, scan-filtered}
use ramsql.Query.Selectors.{star, select, select_all, select_node, star_columns}
use ramsql.Query.Selectors.Laws.{unify-one}
use ramsql.Query.Plan.{
  ScanNode, run_scan, choose_index, choose_source, pushed_down, rec_lock, touch, lock_selectors,
  single_scan, plan_body, plan, query,
}

-- No index can be the source of a query without a condition.
choose_index-truth : (rt : Runtime) (hs : List HashIndex) → choose_index rt truth hs ≡ none
unfolding choose_index ramsql.Query.Plan.rec_can_use_index can_source_with relation_of type_of
choose_index-truth rt [] = refl
choose_index-truth rt (h ∷ hs) = ground (arith, choose_index-truth rt hs)

accepts-truth :
    (rt : Runtime) (cols : List Bytes) (rname : Bytes) (t : Tuple)
    → accepts rt cols (pushed_down rname truth) t ≡ ok true
unfolding accepts pushed_down eval
accepts-truth rt cols rname t = ground arith

filtered-all :
    (test : Element → Outcome Bool) (es : List Element)
    → ((e : Element) → test e ≡ ok true)
    → filtered test es ≡ ok es
filtered-all test [] h = refl
filtered-all test (e ∷ es) h = rw (h e, filtered-all test es h)

choose_source-truth :
    (rt : Runtime) (o : Relation) (es : List Element)
    → choose_source rt truth o es ≡ seq_scan (column_names o.attributes) es
unfolding choose_source new_seq_scan
choose_source-truth rt o es = ground (arith, choose_index-truth rt o.indexes)

scan-truth :
    (rt : Runtime) (cols : List Bytes) (rname : Bytes) (es : List Element)
    → scan rt (pushed_down rname truth) (seq_scan cols es) ≡ ok (record { cols = cols; rows = es })
unfolding columns
scan-truth rt cols rname es =
    scan-filtered rt (pushed_down rname truth) (seq_scan cols es)
    ∙ ap (λ o. Outcome.◌>>=◌ o λ rows. ok (record { cols = cols; rows = rows }))
        (filtered-all (λ e. accepts rt cols (pushed_down rname truth) e.tuple) es
          (λ e. accepts-truth rt cols rname e.tuple))

-- The scan of a query without a condition gives every row.
scan_all :
    (rt : Runtime) (o : Relation) (es : List Element)
    → scan rt (pushed_down o.name truth) (choose_source rt truth o es)
      ≡ ok (record { cols = column_names o.attributes; rows = es })
scan_all rt o es =
    ap (scan rt (pushed_down o.name truth)) (choose_source-truth rt o es)
    ∙ scan-truth rt (column_names o.attributes) o.name es

pub tuples-fresh_elements : (n : ℕ) (ts : List Tuple) → tuples (fresh_elements n ts) ≡ ts
unfolding fresh_elements
tuples-fresh_elements n [] = refl
tuples-fresh_elements n (t ∷ ts) = ap (◌∷◌ t) (tuples-fresh_elements (n + 1) ts)

-- The first column of the table is named, without a dot.
abbrev pub HasPlainColumn : List Bytes → Type 0
HasPlainColumn [] = ⊥
HasPlainColumn (c ∷ cs) = contains_byte b'.' c ≡ false

-- StarSelector copies the rows of such a table.
pub select_star :
    (name : Bytes) (cols : List Bytes) (es : List Element)
    → HasPlainColumn cols
    → All (λ t. length t.values ≡ length cols) (tuples es)
    → select_node (star name ∷ []) (ok (record { cols = cols; rows = es }))
      ≡ ok (record { cols = cols; rows = fresh_elements 0 (tuples es) })
unfolding select_node select_all select star_columns
select_star name [] es h w = absurd h
select_star name (c ∷ cs) es h w =
    ground (arith, append-nil (c ∷ cs), h, unify-one (length (c ∷ cs)) [] (tuples es) w)

-- The scan of the table.
abbrev pub scan_of : Runtime → Relation → Session → ScanNode
scan_of rt o s1 = record {
  source = choose_source rt truth o (list_at o.rows s1.heap);
  predicates = pushed_down o.name truth;
}

module _ (rt : Runtime) (schema name : Bytes) (r : ℕ) (a : Table) (s : Session)
    (h : Shows schema name r a s) where
  rec_lock-truth : rec_lock schema truth [] s ≡ (ok [], s)
  unfolding rec_lock touch relation_of
  rec_lock-truth = refl

  lock_selectors-star :
      (s1 : Session)
      → lock r s ≡ (ok tt, s1)
      → lock_selectors schema (star name ∷ []) [] s ≡ (ok ((name, r) ∷ []), s1)
  unfolding lock_selectors Dict.insert Dict.delete
  lock_selectors-star s1 locked = ground (arith, h.in_engine, h.in_schema, locked)

  single_scan-at :
      (o : Relation)
      → get_elem? s.heap.relations r ≡ some o
      → single_scan rt truth ((name, r) ∷ []) s ≡ (ok (scan_of rt o s), s)
  unfolding single_scan
  single_scan-at o at = rw at

-- The plan of such a query, on a session that shows the table.
pub plan_body-truth :
    (rt : Runtime) (schema name : Bytes) (r : ℕ) (a : Table) (s : Session)
    → Shows schema name r a s
    → (s1 : Session) × (k : Shows schema name r a s1) × (plan_body rt schema
          (star name ∷ [])
          truth
          s
        ≡ (ok (scan_of rt k.o s1), s1))
unfolding plan_body
plan_body-truth rt schema name r a s h =
    let (s1, locked, k) = lock-Shows schema name r a s h in
    (
      s1,
      k,
      rw
          (
            h.in_engine,
            rec_lock-truth rt schema name r a s h,
            lock_selectors-star rt schema name r a s h s1 locked,
          )
          (single_scan-at rt schema name r a s1 k k.o k.at),
    )

-- What the selector node returns.
selected :
    (rt : Runtime) (schema name : Bytes) (r : ℕ) (a : Table) (s : Session)
    (k : Shows schema name r a s)
    → HasPlainColumn a.columns
    → select_node (star name ∷ []) (run_scan rt (scan_of rt k.o s))
      ≡ ok (record { cols = a.columns; rows = fresh_elements 0 a.rows })
selected rt schema name r a s k plain =
    ap (select_node (star name ∷ [])) (scan_all rt k.o (list_at k.o.rows s.heap))
    ∙ (ap
          (λ cols.
            select_node (star name ∷ [])
              (ok (record { cols = cols; rows = list_at k.o.rows s.heap })))
          k.columns
        ∙ (select_star name a.columns (list_at k.o.rows s.heap) plain
              (subst (All (λ t. length t.values ≡ length a.columns)) (sym k.rows) k.widths)
            ∙ ap (λ ts. ok (record { cols = a.columns; rows = fresh_elements 0 ts })) k.rows))

-- SELECT * without a condition reads the table: it returns the columns and the rows of the table that
-- the session shows, in order, and the session still shows the table.
pub query-Shows :
    (rt : Runtime) (schema name : Bytes) (r : ℕ) (a : Table) (s : Session)
    → Shows schema name r a s
    → HasPlainColumn a.columns
    → (s1 : Session) × (query rt schema (star name ∷ []) truth s ≡ (ok (a.columns, a.rows), s1))
      × Shows schema name r a s1
unfolding query plan or_abort
query-Shows rt schema name r a s h plain =
    let (s1, k, planned) = plan_body-truth rt schema name r a s h in
    (
      s1,
      ground (
        arith,
        check_aborted_live s h.live,
        planned,
        selected rt schema name r a s1 k plain,
        tuples-fresh_elements 0 a.rows,
      ),
      k,
    )
