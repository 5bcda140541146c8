-- ===== src/Transaction/Typed.antt =====
-- The values that Insert builds have the types of their columns.
use ramsql.Base.{
  ℕ, ◌+◌, ◌≡◌, Bool, Option, none, some, Option-cases, get_elem?, get_elem?-set_self, get_elem?-lt,
  false, if◌then◌else◌, All, List, [], ◌∷◌, ◌⊎◌, inl, inr, arith,
}
use ramsql.Base.Dict.{Dict, lookup, delete}
use ramsql.Base.Outcome.{Outcome, ok}
use ramsql.Value.{Value, nil, uint, Kind, struct, kind, Runtime}
use ramsql.Attribute.{Attribute, Defaulter, default_const, default_now, convert, default_of}
use ramsql.Relation.{Relation}
use ramsql.Tuple.{Tuple}
use ramsql.Transaction.{Session}
use ramsql.Transaction.Insert.{insert_row, build_row, store_row, store_in, note_row}
use ramsql.Transaction.Values.{given_value, attribute_value, build_tuple, bump}

-- The value is null or of the type of the column.
abbrev pub HasType : Attribute → Value → Type 0
HasType a v = (v ≡ nil) ⊎ (kind v ≡ a.type_instance)

-- There is one value for each column, and it is null or of the type of the column.
abbrev pub IsTyped : List Attribute → List Value → Type 0
IsTyped [] [] = Unit
IsTyped [] (v ∷ vs) = ⊥
IsTyped (a ∷ as') [] = ⊥
IsTyped (a ∷ as') (v ∷ vs) = HasType a v × IsTyped as' vs

-- The default of the column is not the current time, or the column is for times.
abbrev pub HasSoundDefault : Attribute → Type 0
HasSoundDefault a = (a.default_value ≡ some default_now → ⊥) ⊎ (a.type_instance ≡ struct)

convert-ok : (rt : Runtime) (v w : Value) (k : Kind) → convert rt v k ≡ ok w → kind w ≡ k
unfolding convert kind
convert-ok rt v w k p = ground arith

given_value-HasType :
    (rt : Runtime) (r : Relation) (a : Attribute) (v w : Value)
    → given_value rt r a v ≡ ok w
    → HasType a w
unfolding given_value
given_value-HasType rt r a nil w p = inl (ground arith)
given_value-HasType rt r a v w p = inr (ground (arith, convert-ok rt v w a.type_instance))

default_of-HasType :
    (rt : Runtime) (a : Attribute) (d : Defaulter) (w : Value)
    → a.default_value ≡ some d
    → HasSoundDefault a
    → default_of rt a d ≡ ok w
    → HasType a w
unfolding default_of
default_of-HasType rt a (default_const nil) w e s p = inl (ground arith)
default_of-HasType rt a (default_const v) w e s p =
    inr (ground (arith, convert-ok rt v w a.type_instance))
default_of-HasType rt a default_now w e (inl other) p = absurd (other e)
default_of-HasType rt a default_now w e (inr times) p = inr (unfold kind in ground (arith, times))

abbrev value_in : Outcome Value → Value
value_in (ok v) = v
value_in _ = nil

attribute_value-HasType :
    (rt : Runtime) (r : Relation) (a : Attribute) (m : Option Value) (w : Value) (moved : Bool)
    → HasSoundDefault a
    → attribute_value rt r a m ≡ ok (w, moved)
    → HasType a w
unfolding attribute_value
attribute_value-HasType rt r a (some v) w moved s p = given_value-HasType rt r a v w (ground arith)
attribute_value-HasType rt r a none w moved s p = elim (Option-cases a.default_value) [
  | inl no_default ↦
      inr (convert-ok rt (uint a.next_value) w a.type_instance (ground (arith, no_default)))
  | inr (d, e) ↦ default_of-HasType rt a d w e s (ground (arith, e))
]

abbrev first_value : Outcome (Value × Bool) → Value
first_value (ok (v, moved)) = v
first_value _ = nil

abbrev pub moves : Outcome (Value × Bool) → Bool
moves (ok (v, moved)) = moved
moves _ = false

build_tuple-IsTyped :
    (rt : Runtime) (i : ℕ) (as' : List Attribute) (given left : Dict Value) (r r' : Relation)
    (vs : List Value)
    → All HasSoundDefault as'
    → build_tuple rt i as' given r ≡ (ok (vs, left), r')
    → IsTyped as' vs
unfolding build_tuple
build_tuple-IsTyped rt i [] given left r r' [] s p = tt
build_tuple-IsTyped rt i [] given left r r' (v ∷ vs) s p = absurd (ground arith)
build_tuple-IsTyped rt i (a ∷ as') given left r r' [] s p = absurd (ground arith)
build_tuple-IsTyped rt i (a ∷ as') given left r r' (v ∷ vs) s p =
    let m : Outcome (Value × Bool) = attribute_value rt r a (lookup a.name given) in
    let from : Relation = if moves m then bump i r else r in
    (
      attribute_value-HasType rt r a (lookup a.name given) v (moves m) s.0 (ground arith),
      build_tuple-IsTyped rt (i + 1) as' (delete a.name given) left from r' vs s.1 (ground arith),
    )

abbrev pub built_left : Outcome (List Value × Dict Value) → Dict Value
built_left (ok (vs, left)) = left
built_left _ = []

-- The row that the row part of an Insert returns has one value for each column, null or of the type
-- of the column, where only columns for times have the current time for their default.
pub insert_row-IsTyped :
    (rt : Runtime) (r : ℕ) (given : Dict Value) (s s' : Session) (t : Tuple) (o : Relation)
    → get_elem? s.heap.relations r ≡ some o
    → All HasSoundDefault o.attributes
    → insert_row rt r given s ≡ (ok t, s')
    → IsTyped o.attributes t.values
unfolding insert_row build_row store_row store_in note_row
insert_row-IsTyped rt r given s s' t o at sound p =
    let built : Outcome (List Value × Dict Value) × Relation =
      build_tuple rt 0 o.attributes given o in
    let there =
      get_elem?-set_self s.heap.relations r built.1 (get_elem?-lt s.heap.relations r o at) in
    build_tuple-IsTyped rt 0 o.attributes given (built_left built.0) o built.1 t.values sound
      (ground (arith, at, there, p))
