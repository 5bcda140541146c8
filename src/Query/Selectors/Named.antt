-- ===== src/Query/Selectors/Named.antt =====
-- SELECT of named attributes against a plain reading of each row by the names of its columns.
use ramsql.Base.{
  ℕ, zero, suc, ◌≡◌, refl, ap, Bool, Bool-cases, true, false, ◌&&◌, ◌||◌, Option, none, some,
  Option-cases, inl, inr, List, [], ◌∷◌, length, map, append-nil, get_elem?, All, if◌then◌else◌,
  arith,
}
use ramsql.Base.Bytes.{Bytes}
use ramsql.Base.Outcome.{ok, err, column_not_found}
use ramsql.Value.{Value, nil}
use ramsql.Tuple.{Tuple, column_where}
use ramsql.Index.{Element, values_at}
use ramsql.Query.{Result}
use ramsql.Query.Join.{fresh_elements}
use ramsql.Query.Selectors.{
  attributes, select, select_all, select_node, selects, project_rows, attribute_positions,
}
use ramsql.Query.Selectors.Laws.{HasWidth, unify-one}

-- The value of a row in the first column that passes the test, and whether there is such a column.
abbrev pub value_of : (Bytes → Bool) → List Bytes → List Value → Value
value_of test [] vs = nil
value_of test (c ∷ cols) [] = nil
value_of test (c ∷ cols) (v ∷ vs) = if test c then v else value_of test cols vs

abbrev pub any_of : (Bytes → Bool) → List Bytes → Bool
any_of test [] = false
any_of test (c ∷ cols) = test c || any_of test cols

-- The row with the value of each attribute, and whether every attribute has a column.
abbrev pub read_row : Bytes → Bytes → List Bytes → List Bytes → Tuple → Tuple
read_row rel alias cols attrs t = record {
  values = map (λ a. value_of (selects rel alias a) cols t.values) attrs;
}

abbrev pub all_found : Bytes → Bytes → List Bytes → List Bytes → Bool
all_found rel alias cols [] = true
all_found rel alias cols (a ∷ attrs) =
    any_of (selects rel alias a) cols && all_found rel alias cols attrs

column_where-value_of :
    (test : Bytes → Bool) (cols : List Bytes) (vs : List Value) (i : ℕ)
    → length vs ≡ length cols
    → column_where test cols ≡ some i
    → get_elem? vs i ≡ some (value_of test cols vs)
unfolding column_where
column_where-value_of test [] vs i n h = absurd (ground arith)
column_where-value_of test (c ∷ cols) [] i n h = absurd (omega arith)
column_where-value_of test (c ∷ cols) (v ∷ vs) zero n h = ground arith
column_where-value_of test (c ∷ cols) (v ∷ vs) (suc i) n h =
    ground (arith, column_where-value_of test cols vs i (omega arith))

abbrev is_some : Option ℕ → Bool
is_some none = false
is_some (some i) = true

any_of-is_some :
    (test : Bytes → Bool) (cols : List Bytes) → any_of test cols ≡ is_some (column_where test cols)
unfolding column_where
any_of-is_some test [] = refl
any_of-is_some test (c ∷ cols) = ground (arith, any_of-is_some test cols)

module _ (rel alias : Bytes) (cols : List Bytes) where
  -- A name without a column is the error; else the positions read the named values.
  positions-missing :
      (attrs : List Bytes)
      → all_found rel alias cols attrs ≡ false
      → attribute_positions rel alias cols attrs ≡ err column_not_found
  unfolding attribute_positions
  positions-missing [] h = absurd (ground arith)
  positions-missing (a ∷ attrs) h =
      ground (arith, any_of-is_some (selects rel alias a) cols, positions-missing attrs)

  Reads : List Bytes → List ℕ → Type 0
  Reads attrs idx =
      (vs : List Value)
      → length vs ≡ length cols
      → values_at vs idx ≡ ok (map (λ a. value_of (selects rel alias a) cols vs) attrs)

  positions-found :
      (attrs : List Bytes)
      → all_found rel alias cols attrs ≡ true
      → (idx : List ℕ) × (attribute_positions rel alias cols attrs ≡ ok idx) × Reads attrs idx
  unfolding attribute_positions Reads values_at
  positions-found [] h = ([], refl, λ vs n. refl)
  positions-found (a ∷ attrs) h = elim (Option-cases (column_where (selects rel alias a) cols)) [
    | inl missing ↦ absurd (ground (arith, missing, any_of-is_some (selects rel alias a) cols))
    | inr (i, at) ↦
        let (idx, found, reads) = positions-found attrs (ground arith) in
        (
          i ∷ idx,
          ground (arith, at, found),
          λ vs n.
              ground
                (arith, reads vs n, column_where-value_of (selects rel alias a) cols vs i n at),
        )
  ]

  project_rows-Reads :
      (attrs : List Bytes) (idx : List ℕ) (es : List Element)
      → Reads attrs idx
      → All (λ e. HasWidth (length cols) e.tuple) es
      → project_rows (length cols) idx es ≡ ok (map (λ e. read_row rel alias cols attrs e.tuple) es)
  unfolding project_rows Reads
  project_rows-Reads attrs idx [] reads w = refl
  project_rows-Reads attrs idx (e ∷ es) reads w =
      ground (arith, reads e.tuple.values w.0, w.0, project_rows-Reads attrs idx es reads w.1)

length-map : (f : Bytes → Value) (attrs : List Bytes) → length (map f attrs) ≡ length attrs
length-map f [] = refl
length-map f (a ∷ attrs) = ap suc (length-map f attrs)

read_rows-HasWidth :
    (rel alias : Bytes) (cols attrs : List Bytes) (es : List Element)
    → All (HasWidth (length attrs)) (map (λ e. read_row rel alias cols attrs e.tuple) es)
read_rows-HasWidth rel alias cols attrs [] = tt
read_rows-HasWidth rel alias cols attrs (e ∷ es) = (
  length-map (λ a. value_of (selects rel alias a) cols e.tuple.values) attrs,
  read_rows-HasWidth rel alias cols attrs es,
)

-- SELECT of named attributes, over rows with one value for each column: where every attribute names
-- a column, the result has the attributes for its columns, and for each row, in order, the row whose
-- values are those of the first column that each attribute names; where an attribute names no
-- column, it is the error for that.
pub select_node-read_row :
    (rel alias : Bytes) (attrs : List Bytes) (r : Result)
    → All (λ e. HasWidth (length r.cols) e.tuple) r.rows
    → select_node (attributes rel attrs alias ∷ []) (ok r) ≡ (
        if all_found rel alias r.cols attrs
        then ok (record {
          cols = attrs;
          rows = fresh_elements 0 (map (λ e. read_row rel alias r.cols attrs e.tuple) r.rows);
        })
        else err column_not_found)
unfolding select_node select_all select
select_node-read_row rel alias attrs r w = elim (Bool-cases (all_found rel alias r.cols attrs)) [
  | inl found ↦
      let (idx, at, reads) = positions-found rel alias r.cols attrs found in
      let ts : List Tuple = map (λ e. read_row rel alias r.cols attrs e.tuple) r.rows in
      let widths : All (HasWidth (length attrs)) ts =
        read_rows-HasWidth rel alias r.cols attrs r.rows in
      rw found (
        ground (
          arith,
          at,
          project_rows-Reads rel alias r.cols attrs idx r.rows reads w,
          append-nil attrs,
          unify-one (length attrs) [] ts widths,
        ))
  | inr missing ↦ rw missing (ground (arith, positions-missing rel alias r.cols attrs missing))
]
