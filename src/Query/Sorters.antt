-- ===== src/Query/Sorters.antt =====
-- LimitSorter and OffsetSorter on the rows that their child returns. Both bounds are signed.
use ramsql.Base.{
  ℕ, suc, ◌-◌, ◌<◌, ◌≤◌, ◌≡◌, refl, ap, ◌∙◌, List, [], ◌∷◌, ◌++◌, length, take, drop, length-take,
  length-drop, ltb, if◌then◌else◌, arith,
}
use Prim.Native.Nat.{min}
use ramsql.Base.Int.{ℤ, pos, negsuc}
use ramsql.Base.Outcome.{Outcome, ok, panic, ◌>>=◌}
use ramsql.Index.{Element}
use ramsql.Query.{Result}

-- `if len(res) > int(d.limit) { res = res[:d.limit] }`: a negative bound panics.
unfoldable pub limit_rows : ℤ → List Element → Outcome (List Element)
limit_rows (pos n) es = if ltb n (length es) then ok (take n es) else ok es
limit_rows (negsuc n) es = panic

-- `if len(res) > s.o { res = res[s.o:] }`
unfoldable pub offset_rows : ℤ → List Element → Outcome (List Element)
offset_rows (pos n) es = if ltb n (length es) then ok (drop n es) else ok es
offset_rows (negsuc n) es = panic

unfoldable pub limit : ℤ → Outcome Result → Outcome Result
limit n child = do r ← child; es ← limit_rows n r.rows; ok (record r { rows = es })

unfoldable pub offset : ℤ → Outcome Result → Outcome Result
offset n child = do r ← child; es ← offset_rows n r.rows; ok (record r { rows = es })

take_all : (n : ℕ) (es : List Element) → length es ≤ n → take n es ≡ es
take_all n [] h = take-nil n
  where
    take-nil : (n : ℕ) → take {A = Element} n [] ≡ []
    take-nil ℕ.zero = refl
    take-nil (suc n) = refl
take_all ℕ.zero (e ∷ es) h = absurd (omega arith)
take_all (suc n) (e ∷ es) h = ap (◌∷◌ e) (take_all n es (omega arith))

limit_rows-take : (n : ℕ) (es : List Element) → limit_rows (pos n) es ≡ ok (take n es)
unfolding limit_rows
limit_rows-take n es = ground (arith, take_all n es)

take-append-drop : (n : ℕ) (es : List Element) → take n es ++ drop n es ≡ es
take-append-drop ℕ.zero es = refl
take-append-drop (suc n) [] = refl
take-append-drop (suc n) (e ∷ es) = ap (◌∷◌ e) (take-append-drop n es)

-- A page is a slice: over a child that returns more rows than the offset, LIMIT n OFFSET k returns
-- the n rows behind the first k, or as many as there are.
pub page_slice :
    (n k : ℕ) (r : Result)
    → k < length r.rows
    → (limit (pos n) (offset (pos k) (ok r)) ≡ ok (record r { rows = take n (drop k r.rows) }))
      × (length (take n (drop k r.rows)) ≡ min n (length r.rows - k))
unfolding limit offset offset_rows
page_slice n k r h = (
  ground (arith, limit_rows-take n (drop k r.rows)),
  length-take n (drop k r.rows) ∙ ap (min n) (length-drop k r.rows),
)

-- Two pages make the whole: the rows under LIMIT k and those under OFFSET k are all the rows, where
-- there are more than k.
pages_cover :
    (k : ℕ) (r : Result)
    → k < length r.rows
    → (first : List Element) × (rest : List Element) × (limit (pos k) (ok r)
        ≡ ok (record r { rows = first }))
      × (offset (pos k) (ok r) ≡ ok (record r { rows = rest }))
      × (first ++ rest ≡ r.rows)
unfolding limit offset offset_rows
pages_cover k r h = (
  take k r.rows,
  drop k r.rows,
  ground (arith, limit_rows-take k r.rows),
  ground arith,
  take-append-drop k r.rows,
)

-- An offset at or behind the end is passed over: every row comes back.
offset_past_end : (k : ℕ) (r : Result) → length r.rows ≤ k → offset (pos k) (ok r) ≡ ok r
unfolding offset offset_rows
offset_past_end k r h = ground arith
