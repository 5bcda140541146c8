-- ===== src/Value.antt =====
-- The values of a row (the `any` of engine/agnostic/tuple.go) and what the engine takes of Go's
-- runtime: float64 and time.Time, printing and hashing.
pub mod Compare
pub mod Laws
pub mod Order
use ramsql.Base.{ℕ, ◌+◌, Bool, true, false, Option, none, some, [], ◌∷◌, ◌++◌}
use ramsql.Base.Int.{ℤ, pos, negsuc}
use ramsql.Base.Bytes.{Bytes, codes, digits}

-- nil, bool, int64, uint64, float64, string and time.Time. A float64 is given by its bit pattern,
-- and a time.Time by a number that stands for its content: equal numbers are equal structures.
pub data Value : Type 0 where
  nil : Value
  boolean : Bool → Value
  int : ℤ → Value
  uint : ℕ → Value
  float : ℕ → Value
  str : Bytes → Value
  time : ℕ → Value

-- reflect.Kind of such a value. The kind of nil is Invalid.
pub data Kind : Type 0 where
  invalid bool int64 uint64 float64 string struct : Kind

unfoldable pub kind : Value → Kind
kind nil = invalid
kind (boolean b) = bool
kind (int n) = int64
kind (uint n) = uint64
kind (float x) = float64
kind (str s) = string
kind (time t) = struct

-- The parts of Go that are not written out: IEEE comparisons and conversions, time.Time's methods,
-- fmt's printing of floats and times, the clock, and maphash under the seed of an index.
pub record Runtime : Type 0 where
  pub float_eq : ℕ → ℕ → Bool
  pub float_lt : ℕ → ℕ → Bool
  pub float_le : ℕ → ℕ → Bool
  pub float_of_int : ℤ → ℕ
  pub float_of_uint : ℕ → ℕ
  pub int_of_float : ℕ → ℤ
  pub unix : ℕ → ℤ
  pub after : ℕ → ℕ → Bool
  pub print_float : ℕ → Bytes
  pub print_time : ℕ → Bytes
  pub now : ℕ
  pub hash : Bytes → ℕ

-- strconv's decimal text of a 64-bit integer: at most twenty digits.
unfoldable pub print_uint : ℕ → Bytes
unfolding digits
print_uint n = digits 20 n []

unfoldable pub print_int : ℤ → Bytes
unfolding print_uint
print_int (pos n) = print_uint n
print_int (negsuc n) = b'-' ∷ print_uint (n + 1)

-- fmt.Sprintf("%v", v)
unfoldable pub sprint : Runtime → Value → Bytes
unfolding print_int print_uint
sprint rt nil = codes "<nil>"
sprint rt (boolean true) = codes "true"
sprint rt (boolean false) = codes "false"
sprint rt (int n) = print_int n
sprint rt (uint n) = print_uint n
sprint rt (float x) = rt.print_float x
sprint rt (str s) = s
sprint rt (time t) = rt.print_time t
