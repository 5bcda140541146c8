-- ===== src/Tuple.antt =====
-- A row (engine/agnostic/tuple.go) and the search for a column by name.
use ramsql.Base.{ℕ, suc, Bool, Option, none, some, List, [], ◌∷◌, get_elem?, if◌then◌else◌}
use ramsql.Base.Bytes.{Bytes}
use ramsql.Base.Outcome.{Outcome, ok, panic}
use ramsql.Value.{Value}

pub record Tuple : Type 0 where
  pub values : List Value

-- t.values[i]: an index out of range panics.
unfoldable pub value_at : List Value → ℕ → Outcome Value
value_at vs i = elim (get_elem? vs i) [ none ↦ panic | some v ↦ ok v ]

-- The loop `for i, c := range cols { if test(c) { idx = i; break } }`; none is idx = -1.
unfoldable pub column_where : (Bytes → Bool) → List Bytes → Option ℕ
column_where test [] = none
column_where test (c ∷ cs) =
    if test c then some 0 else elim (column_where test cs) [ none ↦ none | some i ↦ some (suc i) ]
