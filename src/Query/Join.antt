-- ===== src/Query/Join.antt =====
-- NaturalJoin.Exec: a nested loop over the rows of two children.
use ramsql.Base.{
  ℕ, ◌+◌, ◌≡◌, refl, Bool, none, some, List, [], ◌∷◌, ◌++◌, All, arith, if◌then◌else◌,
}
use ramsql.Base.Bytes.{Bytes, dotted, contains_byte}
use ramsql.Base.Outcome.{Outcome, ok, err, column_not_found, ◌>>=◌}
use ramsql.Value.{Runtime}
use ramsql.Value.Compare.{equal}
use ramsql.Tuple.{Tuple, value_at, column_where}
use ramsql.Index.{Element}
use ramsql.Predicate.{names_column}
use ramsql.Query.{Result}

pub record NaturalJoin : Type 0 where
  pub leftr : Bytes
  pub lefta : Bytes
  pub rightr : Bytes
  pub righta : Bytes

-- lidx and ridx
unfoldable pub join_column : Bytes → Bytes → List Bytes → Outcome ℕ
join_column rel attr cols = elim (column_where (names_column rel attr) cols) [
  | none ↦ err column_not_found
  | some i ↦ ok i
]

-- A column keeps its dot, and gets the name of its relation in front if it has none.
unfoldable pub qualify : Bytes → List Bytes → List Bytes
qualify rel [] = []
qualify rel (c ∷ cs) = (if contains_byte b'.' c then c else dotted rel c) ∷ qualify rel cs

unfoldable pub join_tuples : Tuple → Tuple → Tuple
join_tuples l r = record { values = l.values ++ r.values }

-- The inner loop, over the rows of the right side.
unfoldable pub join_right : Runtime → ℕ → ℕ → Tuple → List Element → Outcome (List Tuple)
unfolding value_at
join_right rt li ri l [] = ok []
join_right rt li ri l (r ∷ rs) =
    let rest = join_right rt li ri l rs in
    value_at l.values li >>= λ a. value_at r.tuple.values ri >>= λ b.
    equal rt a b >>= λ same. rest >>= λ ts. ok (if same then join_tuples l r.tuple ∷ ts else ts)

unfoldable pub join_left : Runtime → ℕ → ℕ → List Element → List Element → Outcome (List Tuple)
unfolding join_right
join_left rt li ri [] rights = ok []
join_left rt li ri (l ∷ ls) rights =
    let rest = join_left rt li ri ls rights in
    join_right rt li ri l.tuple rights >>= λ here. rest >>= λ ts. ok (here ++ ts)

-- l.PushBack for each tuple, on a list of its own: the elements are numbered from n on.
unfoldable pub fresh_elements : ℕ → List Tuple → List Element
fresh_elements n [] = []
fresh_elements n (t ∷ ts) = record { address = n; tuple = t } ∷ fresh_elements (n + 1) ts

unfoldable pub natural_join :
    Runtime → NaturalJoin → Outcome Result → Outcome Result → Outcome Result
natural_join rt j left right = do
  l ← left
  li ← join_column j.leftr j.lefta l.cols
  r ← right
  ri ← join_column j.rightr j.righta r.cols
  ts ← join_left rt li ri l.rows r.rows
  ok (record {
    cols = qualify j.leftr l.cols ++ qualify j.rightr r.cols;
    rows = fresh_elements 0 ts;
  })

-- The pairs of rows that a test selects, left rows first.
abbrev pub pairs_right : (Tuple → Tuple → Bool) → Tuple → List Element → List Tuple
pairs_right test l [] = []
pairs_right test l (r ∷ rs) =
    if test l r.tuple then join_tuples l r.tuple ∷ pairs_right test l rs else pairs_right test l rs

abbrev pub pairs : (Tuple → Tuple → Bool) → List Element → List Element → List Tuple
pairs test [] rights = []
pairs test (l ∷ ls) rights = pairs_right test l.tuple rights ++ pairs test ls rights

-- The columns exist in both rows, and comparing them answers what the test says.
abbrev pub Compares : Runtime → ℕ → ℕ → (Tuple → Tuple → Bool) → Tuple → Tuple → Type 0
Compares rt li ri test l r =
    (value_at l.values li >>= λ a. value_at r.values ri >>= λ b. equal rt a b) ≡ ok (test l r)

join_right-pairs :
    (rt : Runtime) (li ri : ℕ) (test : Tuple → Tuple → Bool) (l : Tuple) (rs : List Element)
    → All (λ r. Compares rt li ri test l r.tuple) rs
    → join_right rt li ri l rs ≡ ok (pairs_right test l rs)
unfolding join_right
join_right-pairs rt li ri test l [] h = refl
join_right-pairs rt li ri test l (r ∷ rs) h =
    ground (arith, join_right-pairs rt li ri test l rs h.1)

-- Where every pair of rows can be compared in the two columns, and compares as a test says, the nested loop gives exactly the joined tuples of the
-- pairs for which the test holds, in the order of the left rows and then of the right rows.
pub join_left-pairs :
    (rt : Runtime) (li ri : ℕ) (test : Tuple → Tuple → Bool) (ls rs : List Element)
    → All (λ l. All (λ r. Compares rt li ri test l.tuple r.tuple) rs) ls
    → join_left rt li ri ls rs ≡ ok (pairs test ls rs)
unfolding join_left
join_left-pairs rt li ri test [] rs h = refl
join_left-pairs rt li ri test (l ∷ ls) rs h =
    rw (join_right-pairs rt li ri test l.tuple rs h.0, join_left-pairs rt li ri test ls rs h.1)
