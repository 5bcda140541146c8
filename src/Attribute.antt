-- ===== src/Attribute.antt =====
-- engine/agnostic/attribute.go: the columns of a relation, the Go type of a column, and Go's
-- conversion of a value to it (reflect's ConvertibleTo and Convert).
use ramsql.Base.{
  ℕ, ◌+◌, ◌/◌, ◌%◌, Bool, true, false, ◌&&◌, ◌||◌, Option, none, some, List, [], ◌∷◌, ltb, leb,
  if◌then◌else◌,
}
use ramsql.Base.Int.{ℤ, pos, negsuc, int64_of}
use ramsql.Base.Bytes.{Bytes, codes, str_eq, to_lower}
use ramsql.Base.Outcome.{Outcome, ok, panic}
use ramsql.Value.{
  Value, nil, boolean, int, uint, float, str, time, Kind, bool, int64, uint64, float64, string,
  struct, Runtime,
}

-- WithDefaultConst and WithDefaultNow
pub data Defaulter : Type 0 where
  default_const : Value → Defaulter
  default_now : Defaulter

pub record Attribute : Type 0 where
  pub name : Bytes
  pub type_name : Bytes
  pub type_instance : Kind
  pub default_value : Option Defaulter
  pub auto_increment : Bool
  pub next_value : ℕ
  pub unique : Bool

unfoldable pub any_of : Bytes → List Bytes → Bool
any_of s [] = false
any_of s (t ∷ ts) = str_eq s t || any_of s ts

unfoldable pub type_instance_from_name : Bytes → Kind
unfolding any_of
type_instance_from_name name =
    let n = to_lower name in
    if any_of n (codes "serial" ∷ codes "bigserial" ∷ codes "int" ∷ codes "bigint" ∷ [])
    then int64
    else if any_of n (codes "bool" ∷ codes "boolean" ∷ [])
    then bool
    else if any_of n (codes "decimal" ∷ codes "float" ∷ [])
    then float64
    else if any_of n (codes "timestamp" ∷ codes "timestamptz" ∷ codes "date" ∷ [])
    then struct
    else string

unfoldable pub new_attribute : Bytes → Bytes → Attribute
unfolding type_instance_from_name
new_attribute name type_name = record {
  name = name;
  type_name = type_name;
  type_instance = type_instance_from_name type_name;
  default_value = none;
  auto_increment = false;
  next_value = 0;
  unique = false;
}

abbrev pub with_auto_increment : Attribute → Attribute
with_auto_increment a = record a { auto_increment = true; next_value = 1 }

abbrev pub with_unique : Attribute → Attribute
with_unique a = record a { unique = true }

abbrev pub with_default : Attribute → Defaulter → Attribute
with_default a d = record a { default_value = some d }

-- tof.ConvertibleTo(target) for the type of a value that is not nil, where the target is one of the five
-- types that type_instance_from_name gives; the other targets do not occur.
unfoldable pub convertible : Kind → Kind → Bool
convertible bool bool = true
convertible int64 int64 = true
convertible int64 float64 = true
convertible int64 string = true
convertible uint64 int64 = true
convertible uint64 float64 = true
convertible uint64 string = true
convertible float64 int64 = true
convertible float64 float64 = true
convertible string string = true
convertible struct struct = true
convertible _ _ = false

-- The UTF-8 encoding of a code point, as string(rune) writes it.
unfoldable pub utf8 : ℕ → Bytes
utf8 n =
    if ltb n 128
    then n ∷ []
    else if ltb n 2048
    then (192 + n / 64) ∷ (128 + n % 64) ∷ []
    else if (leb 55296 n && ltb n 57344) || leb 1114112 n
    then 239 ∷ 191 ∷ 189 ∷ []
    else if ltb n 65536
    then (224 + n / 4096) ∷ (128 + n / 64 % 64) ∷ (128 + n % 64) ∷ []
    else (240 + n / 262144) ∷ (128 + n / 4096 % 64) ∷ (128 + n / 64 % 64) ∷ (128 + n % 64) ∷ []

-- string(n) of an int64: a negative number is no code point.
unfoldable pub utf8_int : ℤ → Bytes
unfolding utf8
utf8_int (pos n) = utf8 n
utf8_int (negsuc n) = 239 ∷ 191 ∷ 189 ∷ []

-- reflect.ValueOf(v).Convert(target): it panics where the type is not convertible.
unfoldable pub convert : Runtime → Value → Kind → Outcome Value
unfolding utf8_int
convert rt (boolean b) bool = ok (boolean b)
convert rt (int n) int64 = ok (int n)
convert rt (int n) float64 = ok (float (rt.float_of_int n))
convert rt (int n) string = ok (str (utf8_int n))
convert rt (uint n) int64 = ok (int (int64_of n))
convert rt (uint n) float64 = ok (float (rt.float_of_uint n))
convert rt (uint n) string = ok (str (utf8_int (pos n)))
convert rt (float x) int64 = ok (int (rt.int_of_float x))
convert rt (float x) float64 = ok (float x)
convert rt (str s) string = ok (str s)
convert rt (time t) struct = ok (time t)
convert rt _ _ = panic

-- attr.defaultValue(): a constant nil stays nil.
unfoldable pub default_of : Runtime → Attribute → Defaulter → Outcome Value
unfolding convert
default_of rt a (default_const nil) = ok nil
default_of rt a (default_const v) = convert rt v a.type_instance
default_of rt a default_now = ok (time rt.now)
