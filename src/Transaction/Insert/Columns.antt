-- ===== src/Transaction/Insert/Columns.antt =====
-- Insert keeps the name and the columns of its relation, and gives rows with one value for each column.
use ramsql.Base.{
  ℕ, suc, ◌+◌, ◌%◌, ◌^◌, ◌≡◌, Bool, if◌then◌else◌, refl, ap, ◌∙◌, Option, none, some, List, [], ◌∷◌,
  map, length, set, get_elem?, get_elem?-set_self, get_elem?-lt, arith,
}
use ramsql.Base.Bytes.{Bytes}
use ramsql.Base.Dict.{Dict, lookup, delete}
use ramsql.Base.Outcome.{Outcome, ok}
use ramsql.Value.{Value, Runtime}
use ramsql.Tuple.{Tuple}
use ramsql.Attribute.{Attribute}
use ramsql.Relation.{Relation}
use ramsql.Transaction.{Session}
use ramsql.Transaction.Typed.{moves, built_left}
use ramsql.Transaction.Values.{attribute_value, build_tuple, bump}
use ramsql.Transaction.Insert.{insert_row, build_row, store_row, store_in, note_row}

abbrev pub column_names : List Attribute → List Bytes
column_names as' = map (λ a. a.name) as'

set-column_names :
    (as' : List Attribute) (i n : ℕ) (a : Attribute)
    → get_elem? as' i ≡ some a
    → column_names (set as' i (record a { next_value = n })) ≡ column_names as'
set-column_names [] i n a h = refl
set-column_names (b ∷ as') ℕ.zero n a h = ground (arith, h)
set-column_names (b ∷ as') (suc i) n a h = ap (◌∷◌ b.name) (set-column_names as' i n a h)

-- The name, the lock and the columns of a relation object.
pub record SameHead (o p : Relation) : Type 0 where
  pub name : p.name ≡ o.name
  pub locked : p.locked ≡ o.locked
  pub columns : column_names p.attributes ≡ column_names o.attributes

SameHead-trans : (o p q : Relation) → SameHead o p → SameHead p q → SameHead o q
SameHead-trans o p q h k = record {
  name = k.name ∙ h.name;
  locked = k.locked ∙ h.locked;
  columns = k.columns ∙ h.columns;
}

bump_found :
    (i : ℕ) (o : Relation) (found : Option Attribute)
    → get_elem? o.attributes i ≡ found
    → SameHead o (bump i o)
unfolding bump
bump_found i o none e = ground (arith, e)
bump_found i o (some a) e = record {
  name = ground (arith, e);
  locked = ground (arith, e);
  columns = ground (arith, e, set-column_names o.attributes i ((a.next_value + 1) % 2 ^ 64) a);
}

bump-SameHead : (i : ℕ) (o : Relation) → SameHead o (bump i o)
bump-SameHead i o = bump_found i o (get_elem? o.attributes i) refl

pub build_tuple-SameHead :
    (rt : Runtime) (i : ℕ) (as' : List Attribute) (given : Dict Value) (o : Relation)
    → SameHead o (build_tuple rt i as' given o).1
unfolding build_tuple
build_tuple-SameHead rt i [] given o = ground arith
build_tuple-SameHead rt i (a ∷ as') given o =
    let kept = build_tuple-SameHead rt (i + 1) as' (delete a.name given) o in
    let moved = build_tuple-SameHead rt (i + 1) as' (delete a.name given) (bump i o) in
    ground (arith, kept, moved, bump-SameHead i o)

build_tuple-length :
    (rt : Runtime) (i : ℕ) (as' : List Attribute) (given left : Dict Value) (r r' : Relation)
    (vs : List Value)
    → build_tuple rt i as' given r ≡ (ok (vs, left), r')
    → length vs ≡ length (column_names as')
unfolding build_tuple
build_tuple-length rt i [] given left r r' [] p = refl
build_tuple-length rt i [] given left r r' (v ∷ vs) p = absurd (ground arith)
build_tuple-length rt i (a ∷ as') given left r r' [] p = absurd (ground arith)
build_tuple-length rt i (a ∷ as') given left r r' (v ∷ vs) p =
    let m : Outcome (Value × Bool) = attribute_value rt r a (lookup a.name given) in
    let from : Relation = if moves m then bump i r else r in
    ap suc (build_tuple-length rt (i + 1) as' (delete a.name given) left from r' vs (ground arith))

-- The row of an Insert has one value for each column.
pub insert_row-length :
    (rt : Runtime) (r : ℕ) (given : Dict Value) (s s' : Session) (t : Tuple) (o : Relation)
    → get_elem? s.heap.relations r ≡ some o
    → insert_row rt r given s ≡ (ok t, s')
    → length t.values ≡ length (column_names o.attributes)
unfolding insert_row build_row store_row store_in note_row
insert_row-length rt r given s s' t o at p =
    let built : Outcome (List Value × Dict Value) × Relation =
      build_tuple rt 0 o.attributes given o in
    let there =
      get_elem?-set_self s.heap.relations r built.1 (get_elem?-lt s.heap.relations r o at) in
    build_tuple-length rt 0 o.attributes given (built_left built.0) o built.1 t.values
      (ground (arith, at, there, p))
