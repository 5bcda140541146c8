-- ===== src/Query/Selectors/Laws.antt =====
-- What a selection returns.
use ramsql.Base.{
  ℕ, ◌+◌, ◌≡◌, refl, some, List, [], ◌∷◌, ◌++◌, length, append-nil, append_assoc, length-append,
  get_elem?, All, arith,
}
use mathlib.Core.Path.{subst, ap₂}
use ramsql.Base.Int.{pos}
use ramsql.Base.Bytes.{Bytes, codes, str_eq}
use ramsql.Base.Outcome.{ok}
use ramsql.Value.{Value, int}
use ramsql.Tuple.{Tuple, column_where}
use ramsql.Index.{Element}
use ramsql.Query.Join.{fresh_elements}
use ramsql.Query.Selectors.{count, select_all, select_node, unify, fill}

fill_exact : (vs : List Value) → fill (length vs) vs ≡ ok vs
unfolding fill
fill_exact [] = refl
fill_exact (v ∷ vs) = rw (fill_exact vs)

-- SELECT COUNT(*) over rows with at least one column returns one row, which holds their number.
count_rows :
    (rel c : Bytes) (cols : List Bytes) (es : List Element)
    → select_node (count rel (codes "*") ∷ []) (ok (record { cols = c ∷ cols; rows = es }))
      ≡ ok (record {
        cols = codes "COUNT(*)" ∷ [];
        rows = record { address = 0; tuple = record { values = int (pos (length es)) ∷ [] } } ∷ [];
      })
unfolding select_node select_all unify column_where str_eq fresh_elements
count_rows rel c cols es = refl

get_elem?-middle :
    (pre suf : List Tuple) (t : Tuple) → get_elem? (pre ++ t ∷ suf) (length pre) ≡ some t
get_elem?-middle [] suf t = refl
get_elem?-middle (x ∷ pre) suf t = get_elem?-middle pre suf t

abbrev pub HasWidth : ℕ → Tuple → Type 0
HasWidth n t = length t.values ≡ n

shift :
    (pre suf : List Tuple) (t : Tuple)
    → ◌≡◌ {A = ℕ × List Tuple}
        (length (pre ++ t ∷ []), (pre ++ t ∷ []) ++ suf)
        (length pre + 1, pre ++ t ∷ suf)
shift pre suf t = ap₂ (λ a b. (a, b)) (length-append pre (t ∷ [])) (append_assoc pre (t ∷ []) suf)

-- With one selector the rows are copied as they are.
pub unify-one :
    (l : ℕ) (pre suf : List Tuple)
    → All (HasWidth l) suf
    → unify (length suf) (length pre) l ((pre ++ suf) ∷ []) ≡ ok suf
unfolding unify
unify-one l pre [] h = refl
unify-one l pre (t ∷ suf) h =
    let full : fill l (t.values ++ []) ≡ ok t.values =
      rw append-nil (subst (λ n. fill n t.values ≡ ok t.values) h.0 (fill_exact t.values)) in
    let later : unify (length suf) (length pre + 1) l ((pre ++ t ∷ suf) ∷ []) ≡ ok suf =
      subst (λ (x : ℕ × List Tuple). unify (length suf) x.0 l (x.1 ∷ []) ≡ ok suf) (shift pre suf t)
        (unify-one l (pre ++ t ∷ []) suf h.1) in
    ground (arith, get_elem?-middle pre suf t, full, later)
