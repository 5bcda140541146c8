-- ===== src/Query/Order.antt =====
-- The sorters of a query: OrderBySorter, DistinctSorter and GroupBySorter, with LimitSorter and
-- OffsetSorter of Query/Sorters, and the order of their priorities.
use ramsql.Base.{
  ℕ, ◌+◌, Bool, true, false, none, some, List, [], ◌∷◌, ◌++◌, map, length, get_elem?, if◌then◌else◌,
}
use ramsql.Base.Int.{ℤ}
use ramsql.Base.Bytes.{Bytes}
use ramsql.Base.Table.{Table, find}
use ramsql.Base.Outcome.{Outcome, ok, err, panic, blocked, ◌>>=◌}
use ramsql.Value.{Runtime, sprint}
use ramsql.Value.Compare.{equal, greater}
use ramsql.Tuple.{value_at}
use ramsql.Index.{Element, values_at}
use ramsql.Predicate.{names_column}
use ramsql.Query.{Result}
use ramsql.Query.Sorters.{limit, offset}

-- The package sort and the maps of Go: sort.Slice with its less function, sort.Sort on a list of keys,
-- as the old positions in the new order, and the order in which a map of n keys is ranged over.
pub record Orders : Type 0 where
  pub slice : (Element → Element → Outcome Bool) → List Element → Outcome (List Element)
  pub sort : List ℕ → List ℕ
  pub range : ℕ → List ℕ

-- The items at the positions.
unfoldable pub arrange : {A : Type 0} → List A → List ℕ → List A
arrange xs [] = []
arrange xs (i ∷ is) = elim (get_elem? xs i) [ none ↦ arrange xs is | some x ↦ x ∷ arrange xs is ]

-- SortType
pub data Direction : Type 0 where
  asc desc : Direction

pub record SortExpression : Type 0 where
  pub attr : Bytes
  pub direction : Direction

pub data Sorter : Type 0 where
  group_by : Sorter
  order_by : Bytes → List SortExpression → Sorter
  distinct : Bytes → List Bytes → Sorter
  offset_by : ℤ → Sorter
  limit_by : ℤ → Sorter

-- Priority
unfoldable pub priority : Sorter → ℕ
priority group_by = 0
priority (order_by rel es) = 0
priority (distinct rel attrs) = 1000
priority (offset_by n) = 5000
priority (limit_by n) = 10000

-- Every column of the name, with its position.
unfoldable pub columns_of : Bytes → Bytes → ℕ → List Bytes → List ℕ
columns_of rel attr i [] = []
columns_of rel attr i (c ∷ cs) =
    let rest = columns_of rel attr (i + 1) cs in if names_column rel attr c then i ∷ rest else rest

-- idxs, for the names one after the other
unfoldable pub key_columns : Bytes → List Bytes → List Bytes → List ℕ
unfolding columns_of
key_columns rel [] cols = []
key_columns rel (a ∷ as') cols = columns_of rel a 0 cols ++ key_columns rel as' cols

-- An error of a comparison is logged, and the answer is false.
abbrev pub or_false : Outcome Bool → (Bool → Outcome Bool) → Outcome Bool
or_false (ok b) f = f b
or_false (err e) f = ok false
or_false panic f = panic
or_false blocked f = blocked

abbrev pub in_direction :
    Runtime → Direction → ramsql.Value.Value → ramsql.Value.Value → Outcome Bool
in_direction rt asc v w = greater rt w v
in_direction rt desc v w = greater rt v w

-- The closure of OrderBySorter.Exec: the columns, and the expressions that are left. Rows with equal
-- keys answer true.
unfoldable pub less : Runtime → List ℕ → List SortExpression → Element → Element → Outcome Bool
unfolding value_at
less rt [] es s t = ok true
less rt (i ∷ is) [] s t = value_at s.tuple.values i >>= λ v. value_at t.tuple.values i >>= λ w.
    or_false (equal rt v w) λ same. if same then less rt is [] s t else panic
less rt (i ∷ is) (e ∷ es) s t = value_at s.tuple.values i >>= λ v.
    value_at t.tuple.values i >>= λ w.
    or_false (equal rt v w)
      λ same. if same then less rt is es s t else or_false (in_direction rt e.direction v w) ok

-- OrderBySorter.Exec
unfoldable pub order_rows :
    Runtime → Orders → Bytes → List SortExpression → Outcome Result → Outcome Result
unfolding key_columns
order_rows rt ord rel es child = do
  r ← child
  rows ← ord.slice (less rt (key_columns rel (map (λ e. e.attr) es) r.cols) es) r.rows
  ok (record r { rows = rows })

-- What DistinctSorter.Exec writes to the hash for a row.
unfoldable pub row_text : Runtime → List ramsql.Value.Value → Bytes
row_text rt [] = []
row_text rt (v ∷ vs) = sprint rt v ++ row_text rt vs

-- The loop over the rows, with the map of sums; a sum that is there keeps its row.
unfoldable pub first_rows :
    Runtime → List ℕ → List Element → Table Element → Outcome (Table Element)
unfolding values_at row_text
first_rows rt idx [] m = ok m
first_rows rt idx (e ∷ es) m = values_at e.tuple.values idx >>= λ vs.
    (let sum = rt.hash (row_text rt vs) in
      first_rows rt idx es (elim (find sum m) [ none ↦ m ++ (sum, e) ∷ [] | some old ↦ m ]))

-- DistinctSorter.Exec: the rows come back in the order in which the map is ranged over.
unfoldable pub distinct_rows :
    Runtime → Orders → Bytes → List Bytes → Outcome Result → Outcome Result
unfolding key_columns first_rows
distinct_rows rt ord rel attrs child = do
  r ← child
  m ← first_rows rt (key_columns rel attrs r.cols) r.rows []
  ok (record r { rows = arrange (map (λ e. e.1) m) (ord.range (length m)) })

-- Exec of a sorter over its source. GroupBySorter returns what its source does.
unfoldable pub run_sorter : Runtime → Orders → Sorter → Outcome Result → Outcome Result
run_sorter rt ord group_by child = child
run_sorter rt ord (order_by rel es) child = order_rows rt ord rel es child
run_sorter rt ord (distinct rel attrs) child = distinct_rows rt ord rel attrs child
run_sorter rt ord (offset_by n) child = offset n child
run_sorter rt ord (limit_by n) child = limit n child

-- sort.Sort(Sorters(sorters)); every sorter then reads from the one before it.
unfoldable pub sorted_sorters : Orders → List Sorter → List Sorter
unfolding priority
sorted_sorters ord ss = arrange ss (ord.sort (map priority ss))

unfoldable pub run_sorters : Runtime → Orders → List Sorter → Outcome Result → Outcome Result
run_sorters rt ord [] child = child
run_sorters rt ord (s ∷ ss) child = run_sorters rt ord ss (run_sorter rt ord s child)
