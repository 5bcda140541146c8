-- ===== src/Value/Order.antt =====
-- The order behind ORDER BY and the comparison predicates, on the values of one column: null, or of
-- one kind.
use ramsql.Base.{[], ◌≡◌, refl, Bool, true, false, ◌⊎◌, inl, inr, ltb, Bool-cases, arith}
use ramsql.Base.Int.{pos, negsuc, ltb_ℤ}
use ramsql.Base.Bytes.{Bytes, str_lt, str_lt_irrefl, str_lt_trans, str_lt-total}
use ramsql.Base.Outcome.{ok}
use ramsql.Value.{
  Value, nil, boolean, int, uint, float, str, time, Kind, int64, uint64, string, Runtime,
}
use ramsql.Value.Compare.{equal, less, greater}

-- A value of a column of signed integers, unsigned integers or texts, or null.
abbrev pub InColumn : Kind → Value → Type 0
InColumn _ nil = Unit
InColumn int64 (int n) = Unit
InColumn uint64 (uint n) = Unit
InColumn string (str s) = Unit
InColumn _ _ = ⊥

abbrev text_of : Value → Bytes
text_of (str s) = s
text_of _ = []

-- The answer of `greater` within a column.
abbrev above : Value → Value → Bool
above nil v = false
above u nil = true
above (int a) (int b) = ltb_ℤ b a
above (uint a) (uint b) = ltb b a
above (str a) (str b) = str_lt b a
above _ _ = false

module _ (rt : Runtime) where
  -- In such a column `greater` never fails.
  pub greater_irrefl : (v : Value) (k : Kind) → InColumn k v → greater rt v v ≡ ok false
  unfolding greater
  greater_irrefl nil k h = refl
  greater_irrefl (int (pos n)) k h = ground arith
  greater_irrefl (int (negsuc n)) k h = ground arith
  greater_irrefl (uint n) k h = ground arith
  greater_irrefl (str s) k h = ground (arith, str_lt_irrefl s)
  greater_irrefl (boolean b) k h = elim h [ ]
  greater_irrefl (float b) k h = elim h [ ]
  greater_irrefl (time b) k h = elim h [ ]

  greater_trans :
      (k : Kind) (u v w : Value)
      → InColumn k u
      → InColumn k v
      → InColumn k w
      → greater rt u v ≡ ok true
      → greater rt v w ≡ ok true
      → greater rt u w ≡ ok true
  unfolding greater
  greater_trans int64 u v w a b c p q = ground arith
  greater_trans uint64 u v w a b c p q = ground arith
  greater_trans string u v w a b c p q =
      ground (arith, str_lt_trans (text_of w) (text_of v) (text_of u))
  greater_trans _ u v w a b c p q = ground arith

  greater-total :
      (k : Kind) (u v : Value)
      → InColumn k u
      → InColumn k v
      → greater rt u v ≡ ok false
      → greater rt v u ≡ ok false
      → equal rt u v ≡ ok true
  unfolding greater equal
  greater-total string u v a b p q =
      ground (arith, str_lt-total (text_of u) (text_of v), str_lt_irrefl (text_of u))
  greater-total _ u v a b p q = ground arith

  greater_defined :
      (k : Kind) (u v : Value) → InColumn k u → InColumn k v → greater rt u v ≡ ok (above u v)
  unfolding greater
  greater_defined k nil v a b = refl
  greater_defined k _ v a b = ground arith

  -- On the values of a signed integer, unsigned integer or text column and null, `greater` is
  -- transitive, and the converse comparison then answers false.
  pub greater_chain :
      (k : Kind) (u v w : Value)
      → InColumn k u
      → InColumn k v
      → InColumn k w
      → greater rt u v ≡ ok true
      → greater rt v w ≡ ok true
      → (greater rt u w ≡ ok true) × (greater rt w u ≡ ok false)
  greater_chain k u v w a b c p q =
      let r = greater_trans k u v w a b c p q in
      (
        r,
        elim (Bool-cases (above w u)) [
          | inl back ↦
              let s : greater rt w u ≡ ok true = rw (greater_defined k w u c a, back) in
              absurd (ground (arith, greater_trans k u w u a c a r s, greater_irrefl u k a))
          | inr no_back ↦ rw (greater_defined k w u c a, no_back)
        ],
      )

  -- Two values of a signed integer, unsigned integer or text column, or null, are comparable: no
  -- value is greater than itself, and of two values one is greater or they are equal.
  greater_trichotomy :
      (k : Kind) (u v : Value)
      → InColumn k u
      → InColumn k v
      → (greater rt u u ≡ ok false)
        × ((greater rt u v ≡ ok true) ⊎ (greater rt v u ≡ ok true) ⊎ (equal rt u v ≡ ok true))
  greater_trichotomy k u v a b = (
    greater_irrefl u k a,
    elim (Bool-cases (above u v)) [
      | inl more ↦ inl (rw (greater_defined k u v a b, more))
      | inr no_more ↦ elim (Bool-cases (above v u)) [
        | inl less ↦ inr (inl (rw (greater_defined k v u b a, less)))
        | inr no_less ↦ inr (
            inr (
              greater-total k u v a b (rw (greater_defined k u v a b, no_more))
                (rw (greater_defined k v u b a, no_less))))
      ]
    ],
  )
