-- ===== src/Query/Selectors.antt =====
-- AttributeSelector, CountSelector and StarSelector, and SelectorNode.Exec over them.
pub mod Laws
pub mod Named
use ramsql.Base.{
  ℕ, zero, suc, ◌+◌, ◌-◌, Bool, true, false, ◌||◌, Option, none, some, List, [], ◌∷◌, ◌++◌, length,
  map, ltb, ◌==◌, if◌then◌else◌,
}
use ramsql.Base.Int.{pos}
use ramsql.Base.Bytes.{Bytes, codes, str_eq, to_lower, dotted, contains_byte, has_prefix}
use ramsql.Base.Outcome.{
  Outcome, ok, err, panic, column_not_found, different_cardinals, tuple_mismatch, ◌>>=◌,
}
use ramsql.Value.{Value, nil, int}
use ramsql.Tuple.{Tuple, value_at, column_where}
use ramsql.Index.{Element, values_at}
use ramsql.Query.{Result}
use ramsql.Query.Join.{fresh_elements}

pub data Selector : Type 0 where
  attributes : Bytes → List Bytes → Bytes → Selector
  count : Bytes → Bytes → Selector
  star : Bytes → Selector

-- NewAttributeSelector with WithAlias
unfoldable pub attribute_selector : Bytes → List Bytes → Bytes → Selector
attribute_selector rel attrs [] = attributes rel attrs []
attribute_selector rel attrs (c ∷ alias) =
    attributes rel (map (dotted (c ∷ alias)) attrs) (c ∷ alias)

abbrev pub selector_relation : Selector → Bytes
selector_relation (attributes rel attrs alias) = rel
selector_relation (count rel attr) = rel
selector_relation (star rel) = rel

-- The test of AttributeSelector.Select on one column, all in lower case.
unfoldable pub selects : Bytes → Bytes → Bytes → Bytes → Bool
selects rel alias attr c =
    str_eq (to_lower c) (to_lower attr)
    || str_eq (to_lower c) (dotted rel (to_lower attr))
    || str_eq (dotted alias (to_lower c)) (to_lower attr)

-- idx: the position of each attribute
unfoldable pub attribute_positions : Bytes → Bytes → List Bytes → List Bytes → Outcome (List ℕ)
attribute_positions rel alias cols [] = ok []
attribute_positions rel alias cols (a ∷ as') =
    let rest = attribute_positions rel alias cols as' in
    elim (column_where (selects rel alias a) cols) [
      | none ↦ err column_not_found
      | some i ↦ (rest >>= λ is. ok (i ∷ is))
    ]

-- The loop over the rows: each has as many values as there are columns.
unfoldable pub project_rows : ℕ → List ℕ → List Element → Outcome (List Tuple)
project_rows n idx [] = ok []
project_rows n idx (e ∷ es) =
    let rest = project_rows n idx es in
    if length e.tuple.values == n
    then (values_at e.tuple.values idx >>= λ vs. rest >>= λ ts. ok (record { values = vs } ∷ ts))
    else err tuple_mismatch

-- The test of CountSelector.Select on one column.
abbrev pub counts : Bytes → Bytes → Bytes → Bool
counts rel attr c = str_eq attr (codes "*") || str_eq c attr || str_eq c (dotted rel attr)

-- The columns that StarSelector takes out of the result of a join: those whose name begins with the
-- relation's, cut behind their first dot.
unfoldable pub after_dot : Bytes → Bytes
after_dot [] = []
after_dot (c ∷ s) = if c == b'.' then s else after_dot s

unfoldable pub until_dot : Bytes → Bytes
until_dot [] = []
until_dot (c ∷ s) = if c == b'.' then [] else c ∷ until_dot s

-- The loop over the columns: none if a column without a dot is met, which returns every row whole.
unfoldable pub star_columns : Bytes → ℕ → List Bytes → Option (List (ℕ × Bytes))
star_columns rel i [] = some []
star_columns rel i (c ∷ cs) =
    let rest = star_columns rel (i + 1) cs in
    if contains_byte b'.' c
    then (if has_prefix c rel
        then elim rest [ none ↦ none | some l ↦ some ((i, until_dot (after_dot c)) ∷ l) ]
        else rest)
    else none

unfoldable pub star_rows : List ℕ → List Element → Outcome (List Tuple)
star_rows idx [] = ok []
star_rows idx (e ∷ es) =
    let rest = star_rows idx es in
    values_at e.tuple.values idx >>= λ vs. rest >>= λ ts. ok (record { values = vs } ∷ ts)

-- Select, with the names that Attribute() gives behind it.
unfoldable pub select : Selector → List Bytes → List Element → Outcome (List Bytes × List Tuple)
select (attributes rel attrs alias) cols es = do
  idx ← attribute_positions rel alias cols attrs
  ts ← project_rows (length cols) idx es
  ok (attrs, ts)
select (count rel attr) cols es = elim (column_where (counts rel attr) cols) [
  | none ↦ err column_not_found
  | some i ↦ ok (
    (codes "COUNT(" ++ (attr ++ codes ")")) ∷ [],
    record { values = int (pos (length es)) ∷ [] } ∷ [],
  )
]
select (star rel) cols es = elim (star_columns rel 0 cols) [
  | none ↦ ok (cols, map (λ e. e.tuple) es)
  | some l ↦ (star_rows (map (λ c. c.0) l) es >>= λ ts. ok (map (λ c. c.1) l, ts))
]

-- The loop over the selectors: every one returns as many rows as the one before.
unfoldable pub select_all :
    Option ℕ → List Selector → List Bytes → List Element → Outcome (List Bytes × List (List Tuple))
unfolding select
select_all prev [] cols es = ok ([], [])
select_all prev (s ∷ ss) cols es =
    let rest = λ (n : ℕ). select_all (some n) ss cols es in
    select s cols es >>= λ (names, out).
    (let n = length out in
      let differs : Bool = elim prev [ none ↦ false | some m ↦ if n == m then false else true ] in
      if differs
      then err different_cardinals
      else (rest n >>= λ (more, outs). ok (names ++ more, out ∷ outs)))

-- outs[x][i].values for every x, one behind the other.
unfoldable pub row_values : ℕ → List (List Tuple) → List Value
row_values i [] = []
row_values i (out ∷ outs) = elim (ramsql.Base.get_elem? out i) [
  | none ↦ row_values i outs
  | some t ↦ t.values ++ row_values i outs
]

-- The l slots of the tuple: too many values panic, too few leave nil.
unfoldable pub fill : ℕ → List Value → Outcome (List Value)
fill zero [] = ok []
fill zero (v ∷ vs) = panic
fill (suc l) [] = fill l [] >>= λ rest. ok (nil ∷ rest)
fill (suc l) (v ∷ vs) = fill l vs >>= λ rest. ok (v ∷ rest)

-- for i := 0; i < prevLen; i++, on the rounds that are left
unfoldable pub unify : ℕ → ℕ → ℕ → List (List Tuple) → Outcome (List Tuple)
unfolding row_values fill
unify zero i l outs = ok []
unify (suc rounds) i l outs = fill l (row_values i outs) >>= λ vs.
    unify rounds (i + 1) l outs >>= λ ts. ok (record { values = vs } ∷ ts)

abbrev pub row_count : List (List Tuple) → ℕ
row_count [] = 0
row_count (out ∷ outs) = length out

-- SelectorNode.Exec
unfoldable pub select_node : List Selector → Outcome Result → Outcome Result
select_node [] child = child
select_node (s ∷ ss) child = do
  r ← child
  (names, outs) ← select_all none (s ∷ ss) r.cols r.rows
  ts ← unify (row_count outs) 0 (length names) outs
  ok (record { cols = names; rows = fresh_elements 0 ts })
