-- ===== src/Executor/Values.antt =====
-- ToInstance and parseDate of engine/agnostic/attribute.go, TypeNameFromToken of
-- engine/parser/lexer.go, and the arguments of a statement.
use ramsql.Base.{
  ℕ, zero, suc, ◌-◌, ◌^◌, Bool, false, ◌||◌, ◌==◌, Option, none, some, List, [], ◌∷◌, if◌then◌else◌,
}
use ramsql.Base.Int.{ℤ, pos, negsuc}
use ramsql.Base.Bytes.{Bytes, codes, str_eq, to_lower}
use ramsql.Base.Outcome.{Outcome, ok, err, panic, malformed, ◌>>=◌}
use ramsql.Parser.Token.{
  int_token, number_token, date_token, text_token, string_token, float_token, one_of,
}
use ramsql.Value.{Value, nil, boolean, int, uint, float, str, time, Runtime}

-- strconv.ParseUint, ParseInt, ParseFloat and ParseBool, and time.Parse with its layout first
pub record Texts : Type 0 where
  pub parse_uint : Bytes → Option ℕ
  pub parse_int : Bytes → Option ℤ
  pub parse_float : Bytes → Option ℕ
  pub parse_bool : Bytes → Option Bool
  pub parse_time : Bytes → Bytes → Option ℕ

-- The value of a text that must be readable.
abbrev pub required : {A : Type 0} → (A → Value) → Option A → Outcome Value
required f none = err malformed
required f (some a) = ok (f a)

abbrev pub first_of_two : {A : Type 0} → Option A → Option A → Option A
first_of_two none b = b
first_of_two (some a) b = some a

unfoldable pub parse_date : Texts → Bytes → Option ℕ
parse_date x s = first_of_two (x.parse_time (codes "2006-01-02 15:04:05.999999999 -0700 MST") s) (
    first_of_two (x.parse_time (codes "2006-01-02T15:04:05Z07:00") s)
      (first_of_two (x.parse_time (codes "2006-Jan-02") s) (x.parse_time (codes "2006-01-02") s)))

-- The default of ToInstance: a number, a date, a Boolean, or the text itself.
abbrev pub anything : Texts → Bytes → Option ℕ → Option ℕ → Option Bool → Value
anything x s (some n) d b = uint n
anything x s none (some t) b = time t
anything x s none none (some v) = boolean v
anything x s none none none = str s

abbrev pub is_any : Bytes → List Bytes → Bool
is_any s [] = false
is_any s (w ∷ ws) = str_eq s w || is_any s ws

unfoldable pub to_instance : Runtime → Texts → Bytes → Bytes → Outcome Value
unfolding parse_date
to_instance rt x s type_name =
    let name = to_lower type_name in
    if is_any s (codes "now()" ∷ codes "current_timestamp" ∷ [])
    then ok (time rt.now)
    else if str_eq s (codes "null")
    then ok nil
    else if is_any name (codes "serial" ∷ codes "bigserial" ∷ [])
    then required uint (x.parse_uint s)
    else if is_any name (codes "decimal" ∷ codes "float" ∷ [])
    then required float (x.parse_float s)
    else if is_any name (codes "int" ∷ codes "bigint" ∷ [])
    then required int (x.parse_int s)
    else if is_any name (codes "bool" ∷ codes "boolean" ∷ [])
    then required boolean (x.parse_bool s)
    else if is_any name (codes "timestamp" ∷ codes "timestamptz" ∷ codes "date" ∷ [])
    then required time (parse_date x s)
    else if is_any name (codes "json" ∷ codes "jsonb" ∷ codes "varchar" ∷ [])
    then ok (str s)
    else ok (anything x s (x.parse_uint s) (parse_date x s) (x.parse_bool s))

-- TypeNameFromToken
unfoldable pub type_name_from_token : ℕ → Bytes
type_name_from_token k =
    if one_of k (int_token ∷ number_token ∷ [])
    then codes "int"
    else if k == date_token
    then codes "date"
    else if one_of k (text_token ∷ string_token ∷ [])
    then codes "text"
    else if k == float_token
    then codes "float"
    else codes "unknown"

-- NamedValue
pub record NamedValue : Type 0 where
  pub name : Bytes
  pub value : Value

-- The first argument of the name
unfoldable pub named : List NamedValue → Bytes → Outcome Value
named [] s = err malformed
named (a ∷ as') s = let rest = named as' s in if str_eq s a.name then ok a.value else rest

abbrev pub argument_at : List NamedValue → ℕ → Outcome Value
argument_at [] n = err malformed
argument_at (a ∷ as') zero = ok a.value
argument_at (a ∷ as') (suc n) = argument_at as' n

-- `if len(args) <= int(idx)-1 { error }; args[idx-1]`: an index below one is out of range, and the
-- least int64 wraps when one is taken off.
unfoldable pub argument : List NamedValue → ℤ → Outcome Value
argument args (pos zero) = panic
argument args (pos (suc n)) = argument_at args n
argument args (negsuc n) = if n == 2 ^ 63 - 1 then err malformed else panic

-- The argument that `?` or `$n` stands for, and the number of the next `?`.
unfoldable pub numbered : Texts → List NamedValue → Bytes → ℕ → Outcome (Value × ℕ)
unfolding argument
numbered x args s next =
    if str_eq s (codes "?")
    then (argument args (pos next) >>= λ v. ok (v, suc next))
    else elim (x.parse_int s) [
      | none ↦ err malformed
      | some i ↦ argument args i >>= λ v. ok (v, next)
    ]
