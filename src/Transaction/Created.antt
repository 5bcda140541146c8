-- ===== src/Transaction/Created.antt =====
-- A table that a transaction has created, after a rollback.
use ramsql.Base.{ℕ, ◌≡◌, refl, none, some, List, [], ◌∷◌, ◌++◌, length, get_elem?}
use ramsql.Base.Bytes.{Bytes}
use ramsql.Base.Dict.{Dict}
use ramsql.Base.Outcome.{Outcome, ok}
use ramsql.Attribute.{Attribute}
use ramsql.Relation.{Relation, new_relation}
use ramsql.Store
use ramsql.Store.{find_schema}
use ramsql.Transaction.{Session}
use ramsql.Transaction.Statements.{create_relation}

pub get_elem?-last :
    (rs : List Relation) (o : Relation) → get_elem? (rs ++ o ∷ []) (length rs) ≡ some o
get_elem?-last [] o = refl
get_elem?-last (x ∷ rs) o = get_elem?-last rs o

-- The new relation object of CreateRelation.
abbrev pub fresh_relation : Session → Bytes → Bytes → List Attribute → List Bytes → Relation
fresh_relation s schema name attributes pk =
    new_relation schema name attributes pk (length s.heap.lists)

abbrev address_in : Outcome ℕ → ℕ
address_in (ok n) = n
address_in _ = 0

module _ (schema name : Bytes) (attributes : List Attribute) (pk : List Bytes) (s s' : Session)
    (live : s.error ≡ none) (done : create_relation schema name attributes pk s ≡ (ok tt, s')) where
  abbrev fresh : Relation
  fresh = fresh_relation s schema name attributes pk

  abbrev sid : ℕ
  sid = address_in (find_schema schema s.heap)
