-- ===== src/Parser/Tame/Within.antt =====
-- Parsers leave tokens that they were given: what holds of all tokens holds of those that are left.
use ramsql.Base.{ℕ, Bool, true, false, List, [], ◌∷◌, All, if◌then◌else◌}
use ramsql.Base.Outcome.{Outcome, ok, err, panic, blocked, Error, syntax_error}
use ramsql.Parser.Token.{Token, one_of}
use ramsql.Parser.Tree.{
  Decl, new_decl, Tokens, Parse, pure, raise, crash, hang, ◌>>=◌, cur, is, has_next, next, advance,
  consume, is_next, must_have_next, fuel,
}

abbrev pub Leaves : (Token → Type 0) → {A : Type 0} → Outcome (A × Tokens) → Type 0
Leaves P (ok (a, us)) = All P us
Leaves P (err e) = Unit
Leaves P panic = Unit
Leaves P blocked = Unit

pub record Within (P : Token → Type 0) {A : Type 0} (m : Parse A) : Type 0 where
  pub left : (ts : Tokens) → All P ts → Leaves P (m ts)

module _ (P : Token → Type 0) where
  module _ {A : Type 0} where
    pub Within-pure : (a : A) → Within P (pure a)
    unfolding pure
    Within-pure a = record { left = λ ts h. h }

    pub Within-raise : (e : Error) → Within P (raise {A = A} e)
    unfolding raise
    Within-raise e = record { left = λ ts h. tt }

    pub Within-crash : Within P (crash {A = A})
    unfolding crash
    Within-crash = record { left = λ ts h. tt }

    pub Within-hang : Within P (hang {A = A})
    unfolding hang
    Within-hang = record { left = λ ts h. tt }

    pub Within-if :
        (b : Bool) (m n : Parse A) → Within P m → Within P n → Within P (if b then m else n)
    Within-if true m n h k = h
    Within-if false m n h k = k

  pub Within-bind :
      {A B : Type 0} (m : Parse A) (f : A → Parse B)
      → Within P m
      → ((a : A) → Within P (f a))
      → Within P (m >>= f)
  unfolding ◌>>=◌
  Within-bind {A} {B} m f h k = record { left = λ ts all. go (m ts) (h.left ts all) }
    where
      go :
          (r : Outcome (A × Tokens))
          → Leaves P r
          → Leaves P
              (elim r [ ok (a, us) ↦ f a us | err e ↦ err e | panic ↦ panic | blocked ↦ blocked ])
      go (ok (a, us)) all = (k a).left us all
      go (err e) all = tt
      go panic all = tt
      go blocked all = tt

  pub Within-cur : Within P cur
  unfolding cur
  Within-cur = record { left = go }
    where
      go : (ts : Tokens) → All P ts → Leaves P (cur ts)
      go [] h = tt
      go (t ∷ ts) h = h

  pub Within-is : (kinds : List ℕ) → Within P (is kinds)
  unfolding is
  Within-is kinds = record { left = go }
    where
      go : (ts : Tokens) → All P ts → Leaves P (is kinds ts)
      go [] h = tt
      go (t ∷ ts) h = h

  pub Within-has_next : Within P has_next
  unfolding has_next
  Within-has_next = record { left = go }
    where
      go : (ts : Tokens) → All P ts → Leaves P (has_next ts)
      go [] h = h
      go (t ∷ []) h = h
      go (t ∷ u ∷ ts) h = h

  pub Within-next : Within P next
  unfolding next
  Within-next = record { left = go }
    where
      go : (ts : Tokens) → All P ts → Leaves P (next ts)
      go [] h = tt
      go (t ∷ []) h = tt
      go (t ∷ u ∷ ts) h = h.1

  pub Within-consume : (kinds : List ℕ) → Within P (consume kinds)
  unfolding consume ramsql.Parser.Tree.skip
  Within-consume kinds = record { left = go }
    where
      taken :
          (b : Bool) (d : Decl) (us : Tokens)
          → All P us
          → Leaves P (if b then ok (d, us) else err syntax_error)
      taken true d us h = h
      taken false d us h = tt

      go : (ts : Tokens) → All P ts → Leaves P (consume kinds ts)
      go [] h = tt
      go (t ∷ []) h = taken (one_of t.kind kinds) (new_decl t) (t ∷ []) h
      go (t ∷ u ∷ ts) h = taken (one_of t.kind kinds) (new_decl t) (u ∷ ts) h.1

  pub Within-must_have_next : (kinds : List ℕ) → Within P (must_have_next kinds)
  unfolding must_have_next
  Within-must_have_next kinds = record { left = go }
    where
      taken :
          (b : Bool) (us : Tokens)
          → All P us
          → Leaves P (if b then ok (tt, us) else err syntax_error)
      taken true us h = h
      taken false us h = tt

      go : (ts : Tokens) → All P ts → Leaves P (must_have_next kinds ts)
      go [] h = tt
      go (t ∷ []) h = tt
      go (t ∷ u ∷ ts) h = taken (one_of u.kind kinds) (u ∷ ts) h.1

  pub Within-fuel : Within P fuel
  unfolding fuel
  Within-fuel = record { left = λ ts h. h }

pub ruleset within_rules = (
  Within-pure, Within-raise, Within-crash, Within-hang, Within-if, Within-bind, Within-cur,
  Within-is, Within-has_next, Within-next, Within-consume, Within-must_have_next, Within-fuel,
)
