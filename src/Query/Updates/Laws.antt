-- ===== src/Query/Updates/Laws.antt =====
-- What an UPDATE does to the rows that it meets.
use ramsql.Base.{◌≡◌, none, List, [], ◌∷◌, length, All, arith}
use ramsql.Base.Bytes.{Bytes, str_eq_refl}
use ramsql.Base.Dict.{Dict, lookup, delete, lookup-delete}
use ramsql.Base.Outcome.{ok}
use ramsql.Value.{Value, Runtime}
use ramsql.Attribute.{Attribute}
use ramsql.Query.Updates.{updated_value, updated_values}

-- No entry of the map names one of the columns.
abbrev pub Untouched : Dict Value → List Bytes → Type 0
Untouched given = All (λ c. lookup c given ≡ none)

Untouched-delete :
    (given : Dict Value) (c : Bytes) (cols : List Bytes)
    → Untouched given cols
    → Untouched (delete c given) cols
Untouched-delete given c [] u = tt
Untouched-delete given c (d ∷ cols) u =
    (ground (arith, lookup-delete c d given, u.0), Untouched-delete given c cols u.1)

module _ (rt : Runtime) where
  -- With nothing given for its columns a row is copied.
  pub updated_values-copy :
      (attrs : List Attribute) (cols : List Bytes) (vs ws : List Value) (given left : Dict Value)
      → Untouched given cols
      → updated_values rt attrs cols vs given ≡ ok (ws, left)
      → ws ≡ vs
  unfolding updated_values updated_value
  updated_values-copy attrs cols [] ws given left u h = ground arith
  updated_values-copy [] cols (v ∷ vs) ws given left u h = absurd (ground arith)
  updated_values-copy (a ∷ attrs) [] (v ∷ vs) ws given left u h = absurd (ground arith)
  updated_values-copy (a ∷ attrs) (c ∷ cols) (v ∷ vs) [] given left u h = absurd (ground arith)
  updated_values-copy (a ∷ attrs) (c ∷ cols) (v ∷ vs) (w ∷ ws) given left u h = ground (
    arith,
    u.0,
    updated_values-copy attrs cols vs ws (delete c given) left (Untouched-delete given c cols u.1),
  )

  -- What is not in the map of the statement is not in what is left of it.
  pub updated_values-left :
      (attrs : List Attribute) (cols : List Bytes) (vs ws : List Value) (given left : Dict Value)
      (d : Bytes)
      → lookup d given ≡ none
      → updated_values rt attrs cols vs given ≡ ok (ws, left)
      → lookup d left ≡ none
  unfolding updated_values
  updated_values-left attrs cols [] ws given left d u h = ground arith
  updated_values-left [] cols (v ∷ vs) ws given left d u h = absurd (ground arith)
  updated_values-left (a ∷ attrs) [] (v ∷ vs) ws given left d u h = absurd (ground arith)
  updated_values-left (a ∷ attrs) (c ∷ cols) (v ∷ vs) [] given left d u h = absurd (ground arith)
  updated_values-left (a ∷ attrs) (c ∷ cols) (v ∷ vs) (w ∷ ws) given left d u h =
      ground (
        arith,
        lookup-delete c d given,
        updated_values-left attrs cols vs ws (delete c given) left d,
      )

  -- The first row takes every entry of its columns out of the map.
  pub updated_values-Untouched :
      (attrs : List Attribute) (cols : List Bytes) (vs ws : List Value) (given left : Dict Value)
      → length vs ≡ length cols
      → updated_values rt attrs cols vs given ≡ ok (ws, left)
      → Untouched left cols
  unfolding updated_values
  updated_values-Untouched attrs [] vs ws given left n h = tt
  updated_values-Untouched attrs (c ∷ cols) [] ws given left n h = absurd (omega arith)
  updated_values-Untouched [] (c ∷ cols) (v ∷ vs) ws given left n h = absurd (ground arith)
  updated_values-Untouched (a ∷ attrs) (c ∷ cols) (v ∷ vs) [] given left n h = absurd (ground arith)
  updated_values-Untouched (a ∷ attrs) (c ∷ cols) (v ∷ vs) (w ∷ ws) given left n h =
      let gone : lookup c (delete c given) ≡ none =
        ground (arith, lookup-delete c c given, str_eq_refl c) in
      let rest : updated_values rt attrs cols vs (delete c given) ≡ ok (ws, left) = ground arith in
      (
        updated_values-left attrs cols vs ws (delete c given) left c gone rest,
        updated_values-Untouched attrs cols vs ws (delete c given) left (omega arith) rest,
      )
