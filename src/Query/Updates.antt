-- ===== src/Query/Updates.antt =====
-- The inner loop of Updater.Exec: the values of the new tuple.
pub mod Laws
use ramsql.Base.{ℕ, List, [], ◌∷◌, Option, none, some, if◌then◌else◌}
use ramsql.Base.Bytes.{Bytes}
use ramsql.Base.Dict
use ramsql.Base.Dict.{Dict, lookup}
use ramsql.Base.Outcome.{Outcome, ok, err, panic, cannot_assign, ◌>>=◌}
use ramsql.Value.{Value, nil, kind, Runtime}
use ramsql.Attribute.{Attribute, convertible, convert}

-- One value of the new tuple: the value that the statement gives for the column, or the old one.
unfoldable pub updated_value : Runtime → Attribute → Option Value → Value → Outcome Value
updated_value rt a none v = ok v
updated_value rt a (some nil) v = ok nil
updated_value rt a (some w) v =
    if convertible (kind w) a.type_instance
    then convert rt w a.type_instance
    else err (cannot_assign a.name)

-- The loop over the values of a row. The entry of every column is deleted from the map of the
-- statement, which the next row reads too.
unfoldable pub updated_values :
    Runtime
    → List Attribute
    → List Bytes
    → List Value
    → Dict Value
    → Outcome (List Value × Dict Value)
updated_values rt attrs cols [] given = ok ([], given)
updated_values rt [] cols (v ∷ vs) given = panic
updated_values rt (a ∷ attrs) [] (v ∷ vs) given = panic
updated_values rt (a ∷ attrs) (c ∷ cols) (v ∷ vs) given =
    let rest = updated_values rt attrs cols vs (Dict.delete c given) in
    updated_value rt a (lookup c given) v >>= λ w. rest >>= λ (ws, left). ok (w ∷ ws, left)
