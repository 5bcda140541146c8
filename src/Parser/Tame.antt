-- ===== src/Parser/Tame.antt =====
-- Parsers that end: from a current token they come to an error, or to a result with a current token
-- and no more tokens than before. They neither panic nor loop.
pub mod Moves
pub mod Single
pub mod Within
use ramsql.Base.{
  ℕ, zero, suc, ◌≤◌, ◌<◌, ◌≡◌, refl, Bool, true, false, Option, none, some, List, [], ◌∷◌, length,
  arith, if◌then◌else◌,
}
use ramsql.Base.Outcome.{Outcome, ok, err, panic, blocked, Error}
use ramsql.Parser.Token.{Token, one_of}
use ramsql.Parser.Tree.{
  Decl, new_decl, Tokens, Parse, pure, raise, ◌>>=◌, ◌>>◌, cur, is, has_next, next, skip, advance,
  consume, is_next, must_have_next, fuel,
}

abbrev pub Ends : {A : Type 0} → ℕ → Outcome (A × Tokens) → Type 0
Ends n (ok (a, us)) = (0 < length us) × (length us ≤ n)
Ends n (err e) = Unit
Ends n panic = ⊥
Ends n blocked = ⊥

pub record Tame {A : Type 0} (m : Parse A) : Type 0 where
  pub at : (ts : Tokens) → 0 < length ts → Ends (length ts) (m ts)

module _ {A : Type 0} where
  pub Tame-pure : (a : A) → Tame (pure a)
  unfolding pure
  Tame-pure a = record { at = λ ts h. (h, omega arith) }

  pub Tame-raise : (e : Error) → Tame (raise {A = A} e)
  unfolding raise
  Tame-raise e = record { at = λ ts h. tt }

  pub Tame-if : (b : Bool) (m n : Parse A) → Tame m → Tame n → Tame (if b then m else n)
  Tame-if true m n h k = h
  Tame-if false m n h k = k

pub Ends-le : {A : Type 0} (m n : ℕ) (r : Outcome (A × Tokens)) → m ≤ n → Ends m r → Ends n r
Ends-le m n (ok (a, us)) h e = (e.0, omega arith)
Ends-le m n (err x) h e = tt
Ends-le m n panic h e = e
Ends-le m n blocked h e = e

-- The rule for a bind at one list of tokens; the rest may use what the first part has come to.
pub Ends-bind :
    {A B : Type 0} (k n : ℕ) (m : Parse A) (f : A → Parse B) (ts : Tokens)
    → Ends k (m ts)
    → ((a : A) (us : Tokens) → m ts ≡ ok (a, us) → 0 < length us → length us ≤ k → Ends n (f a us))
    → Ends n ((m >>= f) ts)
unfolding ◌>>=◌
Ends-bind {A} {B} k n m f ts e rest = go (m ts) e rest
  where
    go :
        (r : Outcome (A × Tokens))
        → Ends k r
        → ((a : A) (us : Tokens) → r ≡ ok (a, us) → 0 < length us → length us ≤ k → Ends n (f a us))
        → Ends n
            (elim r [ ok (a, us) ↦ f a us | err x ↦ err x | panic ↦ panic | blocked ↦ blocked ])
    go (ok (a, us)) e rest = rest a us refl e.0 e.1
    go (err x) e rest = tt
    go panic e rest = e
    go blocked e rest = e

pub Tame-bind :
    {A B : Type 0} (m : Parse A) (f : A → Parse B)
    → Tame m
    → ((a : A) → Tame (f a))
    → Tame (m >>= f)
Tame-bind m f h k = record {
  at = λ ts pos.
      Ends-bind (length ts) (length ts) m f ts (h.at ts pos)
        (λ a us e p le. Ends-le (length us) (length ts) (f a us) le ((k a).at us p));
}

pub Tame-cur : Tame cur
unfolding cur
Tame-cur = record { at = go }
  where
    go : (ts : Tokens) → 0 < length ts → Ends (length ts) (cur ts)
    go [] h = absurd (omega arith)
    go (t ∷ ts) h = omega arith

pub Tame-is : (kinds : List ℕ) → Tame (is kinds)
unfolding is
Tame-is kinds = record { at = go }
  where
    go : (ts : Tokens) → 0 < length ts → Ends (length ts) (is kinds ts)
    go [] h = absurd (omega arith)
    go (t ∷ ts) h = omega arith

pub Tame-has_next : Tame has_next
unfolding has_next
Tame-has_next = record { at = go }
  where
    go : (ts : Tokens) → 0 < length ts → Ends (length ts) (has_next ts)
    go [] h = absurd (omega arith)
    go (t ∷ []) h = omega arith
    go (t ∷ u ∷ ts) h = omega arith

pub Tame-next : Tame next
unfolding next
Tame-next = record { at = go }
  where
    go : (ts : Tokens) → 0 < length ts → Ends (length ts) (next ts)
    go [] h = tt
    go (t ∷ []) h = tt
    go (t ∷ u ∷ ts) h = omega arith

pub Tame-consume : (kinds : List ℕ) → Tame (consume kinds)
unfolding consume
Tame-consume kinds = record { at = go }
  where
    go : (ts : Tokens) → 0 < length ts → Ends (length ts) (consume kinds ts)
    go [] h = absurd (omega arith)
    go (t ∷ []) h = ground arith
    go (t ∷ u ∷ ts) h = ground arith

pub Tame-is_next : (kinds : List ℕ) → Tame (is_next kinds)
unfolding is_next
Tame-is_next kinds = record { at = go }
  where
    go : (ts : Tokens) → 0 < length ts → Ends (length ts) (is_next kinds ts)
    go [] h = absurd (omega arith)
    go (t ∷ []) h = omega arith
    go (t ∷ u ∷ ts) h = omega arith

pub Tame-must_have_next : (kinds : List ℕ) → Tame (must_have_next kinds)
unfolding must_have_next
Tame-must_have_next kinds = record { at = go }
  where
    go : (ts : Tokens) → 0 < length ts → Ends (length ts) (must_have_next kinds ts)
    go [] h = tt
    go (t ∷ []) h = tt
    go (t ∷ u ∷ ts) h = ground arith

pub Tame-fuel : Tame fuel
unfolding fuel
Tame-fuel = record { at = go }
  where
    go : (ts : Tokens) → 0 < length ts → Ends (length ts) (fuel ts)
    go [] h = absurd (omega arith)
    go (t ∷ ts) h = omega arith

pub ruleset tame_rules = (
  Tame-pure, Tame-raise, Tame-if, Tame-bind, Tame-cur, Tame-is, Tame-has_next, Tame-next,
  Tame-consume, Tame-is_next, Tame-must_have_next, Tame-fuel,
)
