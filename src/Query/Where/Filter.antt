-- ===== src/Query/Where/Filter.antt =====
-- What a scan with a condition gives, as a filter of the rows of a table.
use ramsql.Base.{
  ◌≡◌, refl, ap, ◌∙◌, inl, inr, Bool, Bool-cases, none, List, [], ◌∷◌, All, if◌then◌else◌, arith,
}
use ramsql.Base.Bytes.{Bytes}
use ramsql.Base.Outcome
use ramsql.Base.Outcome.{Outcome, ok, err, no_join}
use ramsql.Value.{Runtime}
use ramsql.Tuple.{Tuple}
use ramsql.Index.{Element}
use ramsql.Predicate.{Predicate, eval}
use ramsql.Relation.{Relation}
use ramsql.Transaction.Insert.Columns.{column_names}
use ramsql.Transaction.Append.{tuples}
use ramsql.Query.Source.{new_seq_scan, seq_scan, accepts, columns, scan}
use ramsql.Query.Source.Laws.{filtered, scan-filtered}
use ramsql.Query.Plan.{choose_index, choose_source, pushed_down}
use ramsql.Query.Plan.Pushdown.{IsConjunctive, accepts-pushed_down}

-- The rows that pass a test.
abbrev pub keep : (Tuple → Bool) → List Tuple → List Tuple
keep test [] = []
keep test (t ∷ ts) = if test t then t ∷ keep test ts else keep test ts

abbrev pub keep_elements : (Tuple → Bool) → List Element → List Element
keep_elements test [] = []
keep_elements test (e ∷ es) =
    if test e.tuple then e ∷ keep_elements test es else keep_elements test es

pub tuples-keep_elements :
    (test : Tuple → Bool) (es : List Element)
    → tuples (keep_elements test es) ≡ keep test (tuples es)
tuples-keep_elements test [] = refl
tuples-keep_elements test (e ∷ es) = ground (arith, tuples-keep_elements test es)

pub All-keep :
    (P : Tuple → Type 0) (test : Tuple → Bool) (ts : List Tuple) → All P ts → All P (keep test ts)
All-keep P test [] h = tt
All-keep P test (t ∷ ts) h = elim (Bool-cases (test t)) [
  | inl kept ↦ rw kept (h.0, All-keep P test ts h.1)
  | inr dropped ↦ rw dropped (All-keep P test ts h.1)
]

filtered-keep_elements :
    (check : Element → Outcome Bool) (test : Tuple → Bool) (es : List Element)
    → All (λ e. check e ≡ ok (test e.tuple)) es
    → filtered check es ≡ ok (keep_elements test es)
filtered-keep_elements check test [] h = refl
filtered-keep_elements check test (e ∷ es) h =
    ground (arith, h.0, filtered-keep_elements check test es h.1)

-- What the condition answers on a row of a table, for all rows.
abbrev pub Answers : Runtime → List Bytes → Predicate → (Tuple → Bool) → List Tuple → Type 0
Answers rt cols p test = All (λ t. eval rt cols t p ≡ ok (test t))

accepts-all :
    (rt : Runtime) (cols : List Bytes) (name : Bytes) (p : Predicate) (test : Tuple → Bool)
    (es : List Element)
    → IsConjunctive name p
    → Answers rt cols p test (tuples es)
    → All (λ e. accepts rt cols (pushed_down name p) e.tuple ≡ ok (test e.tuple)) es
accepts-all rt cols name p test [] c h = tt
accepts-all rt cols name p test (e ∷ es) c h = (
  accepts-pushed_down rt cols e.tuple name p (test e.tuple) c h.0,
  accepts-all rt cols name p test es c h.1,
)

-- The scan of such a query gives the elements whose rows pass.
pub scan_where :
    (rt : Runtime) (o : Relation) (p : Predicate) (test : Tuple → Bool) (es : List Element)
    → choose_index rt p o.indexes ≡ none
    → IsConjunctive o.name p
    → Answers rt (column_names o.attributes) p test (tuples es)
    → scan rt (pushed_down o.name p) (choose_source rt p o es)
      ≡ ok (record { cols = column_names o.attributes; rows = keep_elements test es })
unfolding choose_source new_seq_scan columns
scan_where rt o p test es unserved c h =
    let cols = column_names o.attributes in
    let from : choose_source rt p o es ≡ seq_scan cols es = ground (arith, unserved) in
    ap (scan rt (pushed_down o.name p)) from
    ∙ (scan-filtered rt (pushed_down o.name p) (seq_scan cols es)
        ∙ ap (λ o. Outcome.◌>>=◌ o λ rows. ok (record { cols = cols; rows = rows }))
            (filtered-keep_elements (λ e. accepts rt cols (pushed_down o.name p) e.tuple) test es
              (accepts-all rt cols o.name p test es c h)))
