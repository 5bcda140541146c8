-- ===== src/Relation/Collision.antt =====
-- The text of a composite key has nothing between its parts.
use ramsql.Base.{◌≡◌, false, List, [], ◌∷◌, ◌++◌, append-nil, append_assoc, arith}
use ramsql.Base.Bytes.{Bytes}
use ramsql.Base.Outcome.{ok}
use ramsql.Value.{str, sprint, Runtime}
use ramsql.Tuple.{Tuple}
use ramsql.Index.{Element, HashIndex, key_bytes, values_at, sum_of, get}
use ramsql.Relation.{Relation, check_key, check_primary_key}
use ramsql.Relation.Keys.{IsIndexed, CoversRows}

key_bytes-moved :
    (rt : Runtime) (a b c : Bytes)
    → key_bytes rt (str a ∷ str (b ++ c) ∷ []) ≡ key_bytes rt (str (a ++ b) ∷ str c ∷ [])
unfolding key_bytes sprint
key_bytes-moved rt a b c = rw (append-nil, append-nil, append_assoc)

-- In a table whose key index covers its rows, and whose key is two text columns, an indexed row with
-- the key (a b, c) makes the primary-key check refuse a row with the key (a, b c).
pub composite_key_collision :
    (rt : Runtime) (r : Relation) (h : HashIndex) (es : List Element) (e : Element) (t : Tuple)
    (a b c : Bytes)
    → CoversRows rt r h es
    → (r.pk ≡ [] → ⊥)
    → IsIndexed rt h e
    → values_at e.tuple.values r.pk ≡ ok (str (a ++ b) ∷ str c ∷ [])
    → values_at t.values r.pk ≡ ok (str a ∷ str (b ++ c) ∷ [])
    → check_primary_key rt r t ≡ ok false
unfolding check_primary_key check_key get sum_of
composite_key_collision rt r h es e t a b c cov n (k, sum, there) old new =
    ground (arith, cov.is_pk, cov.same_attrs, key_bytes-moved rt a b c)
