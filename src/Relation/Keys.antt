-- ===== src/Relation/Keys.antt =====
-- The primary-key index of a relation covers its rows: Insert keeps it so, and then no two rows have
-- the same key.
use ramsql.Base.{ℕ, ◌≡◌, refl, ◌∙◌, true, none, some, List, [], ◌∷◌, ◌++◌, All, arith}
use ramsql.Base.Table.{find, put, find-put}
use ramsql.Base.Outcome.{Outcome, ok}
use ramsql.Value.{Runtime}
use ramsql.Tuple.{Tuple}
use ramsql.Index
use ramsql.Index.{Element, HashIndex, key_bytes, values_at, sum_of, get}
use ramsql.Relation.{Relation, pk_index, check_key, check_primary_key, add_all}

-- The element's key is in the index, and stands for this element.
abbrev pub IsIndexed : Runtime → HashIndex → Element → Type 0
IsIndexed rt h e = (k : ℕ) × (sum_of rt h e.tuple ≡ ok k) × (find k h.m ≡ some e)

-- The index of the primary key, where the relation has one, knows every row.
pub record CoversRows (rt : Runtime) (r : Relation) (h : HashIndex) (es : List Element)
    : Type 0 where
  pub is_pk : pk_index r.indexes ≡ some h
  pub same_attrs : h.attrs ≡ r.pk
  pub covers : All (IsIndexed rt h) es

-- Two rows with one key text are one row.
pub CoversRows-unique :
    (rt : Runtime) (r : Relation) (h : HashIndex) (es : List Element) (e f : Element)
    → IsIndexed rt h e
    → IsIndexed rt h f
    → sum_of rt h e.tuple ≡ sum_of rt h f.tuple
    → e ≡ f
CoversRows-unique rt r h es e f (k, p, q) (l, p', q') same = cc

add_lem :
    (rt : Runtime) (h h' : HashIndex) (e : Element) (k : ℕ)
    → sum_of rt h e.tuple ≡ ok k
    → Index.add rt h e ≡ ok h'
    → h' ≡ record h { m = put k e h.m }
unfolding Index.add
add_lem rt h h' e k p q = ground arith

sum_of-put :
    (rt : Runtime) (h : HashIndex) (t : Tuple) (k : ℕ) (e : Element)
    → sum_of rt (record h { m = put k e h.m }) t ≡ sum_of rt h t
unfolding sum_of
sum_of-put rt h t k e = refl

-- A new element whose key is not in the index leaves the others where they are.
IsIndexed-put :
    (rt : Runtime) (h : HashIndex) (e f : Element) (k : ℕ)
    → find k h.m ≡ none
    → IsIndexed rt h f
    → IsIndexed rt (record h { m = put k e h.m }) f
IsIndexed-put rt h e f k free (l, a, b) =
    (l, sum_of-put rt h f.tuple k e ∙ a, ground (arith, find-put k l e h.m))

All-put :
    (rt : Runtime) (h : HashIndex) (e : Element) (k : ℕ) (es : List Element)
    → find k h.m ≡ none
    → sum_of rt h e.tuple ≡ ok k
    → All (IsIndexed rt h) es
    → All (IsIndexed rt (record h { m = put k e h.m })) (es ++ e ∷ [])
All-put rt h e k [] free p c =
    ((k, sum_of-put rt h e.tuple k e ∙ p, find-put k k e h.m ∙ (ground arith)), tt)
All-put rt h e k (f ∷ es) free p c =
    (IsIndexed-put rt h e f k free c.0, All-put rt h e k es free p c.1)

pk_index-add_all :
    (rt : Runtime) (hs hs' : List HashIndex) (e : Element) (h : HashIndex) (k : ℕ)
    → pk_index hs ≡ some h
    → sum_of rt h e.tuple ≡ ok k
    → add_all rt hs e ≡ ok hs'
    → pk_index hs' ≡ some (record h { m = put k e h.m })
unfolding pk_index add_all Index.add
pk_index-add_all rt [] hs' e h k p c q = cc
pk_index-add_all rt (g ∷ hs) [] e h k p c q = ground arith
pk_index-add_all rt (g ∷ hs) (g' ∷ hs') e h k p c q =
    ground (arith, pk_index-add_all rt hs hs' e h k)

-- The primary-key check passes only where the index does not have the key.
check_primary_key-free :
    (rt : Runtime) (r : Relation) (h : HashIndex) (e : Element) (k : ℕ)
    → pk_index r.indexes ≡ some h
    → h.attrs ≡ r.pk
    → (r.pk ≡ [] → ⊥)
    → check_primary_key rt r e.tuple ≡ ok true
    → sum_of rt h e.tuple ≡ ok k
    → find k h.m ≡ none
unfolding check_primary_key check_key sum_of get
check_primary_key-free rt r h e k i a n p q = ground arith

abbrev value_of : Outcome ℕ → ℕ
value_of (ok n) = n
value_of _ = 0

-- Where every index takes the element, the first one with the prefix has a key for it.
sum_of-add_all :
    (rt : Runtime) (hs hs' : List HashIndex) (e : Element) (h : HashIndex)
    → pk_index hs ≡ some h
    → add_all rt hs e ≡ ok hs'
    → sum_of rt h e.tuple ≡ ok (value_of (sum_of rt h e.tuple))
unfolding pk_index add_all Index.add
sum_of-add_all rt [] hs' e h p q = cc
sum_of-add_all rt (g ∷ hs) [] e h p q = ground arith
sum_of-add_all rt (g ∷ hs) (g' ∷ hs') e h p q = ground (arith, sum_of-add_all rt hs hs' e h)

-- An element of which the check passed is added, and the index covers the rows with it behind them.
pub CoversRows-add :
    (rt : Runtime) (r : Relation) (h : HashIndex) (es : List Element) (e : Element)
    (hs : List HashIndex)
    → (r.pk ≡ [] → ⊥)
    → CoversRows rt r h es
    → check_primary_key rt r e.tuple ≡ ok true
    → add_all rt r.indexes e ≡ ok hs
    → (h' : HashIndex) × CoversRows rt (record r { indexes = hs }) h' (es ++ e ∷ [])
CoversRows-add rt r h es e hs n c p q =
    let k = value_of (sum_of rt h e.tuple) in
    let sum = sum_of-add_all rt r.indexes hs e h c.is_pk q in
    (
      record h { m = put k e h.m },
      record {
        is_pk = pk_index-add_all rt r.indexes hs e h k c.is_pk sum q;
        same_attrs = c.same_attrs;
        covers =
            All-put rt h e k es (check_primary_key-free rt r h e k c.is_pk c.same_attrs n p sum) sum
              c.covers;
      },
    )
