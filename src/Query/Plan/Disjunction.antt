-- ===== src/Query/Plan/Disjunction.antt =====
-- An index below an OR: the planner takes it as the source of the whole statement.
use ramsql.Base.{◌≡◌, true, false, Option, none, some, List, [], ◌∷◌, arith}
use ramsql.Base.Outcome.{ok}
use ramsql.Value.{Value, Runtime}
use ramsql.Index.{Element, HashIndex, can_source_with, get}
use ramsql.Relation.{Relation}
use ramsql.Predicate.{Predicate, disj, comparison, is_eq, Functor, value, type_of}
use ramsql.Query.Source.{new_index_source}
use ramsql.Query.Source.Laws.{left_in}
use ramsql.Query.Plan.{rec_can_use_index, index_source, choose_index, choose_source}

abbrev pub at_most_one : Option Element → List Element
at_most_one none = []
at_most_one (some e) = e ∷ []

can_source_with-disj : (h : HashIndex) (p q : Predicate) → can_source_with h (disj p q) ≡ false
unfolding can_source_with type_of
can_source_with-disj h p q = ground arith

-- In a statement `l = r OR q` over a table whose first index serves `l = r`, where r has a value
-- without a row, the only row that is read is the one that the index has for that value, whatever q
-- says of the other rows.
pub disjunction_reads_one :
    (rt : Runtime) (l r : Functor) (q : Predicate) (o : Relation) (h : HashIndex)
    (hs : List HashIndex) (rows : List Element) (v : Value)
    → o.indexes ≡ h ∷ hs
    → can_source_with h (comparison is_eq l r) ≡ true
    → value rt r [] (record { values = [] }) ≡ ok v
    → left_in (choose_source rt (disj (comparison is_eq l r) q) o rows)
      ≡ at_most_one (get rt h (v ∷ []))
unfolding choose_source choose_index rec_can_use_index index_source new_index_source
disjunction_reads_one rt l r q o h hs rows v i c w =
    ground (arith, can_source_with-disj h (comparison is_eq l r) q)
