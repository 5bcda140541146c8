-- ===== src/Parser/Tame/Moves.antt =====
-- Parsers that end and move: a result leaves fewer tokens, except that the last token stays the
-- current one.
use ramsql.Base.{
  ℕ, suc, ◌≤◌, ◌<◌, ◌-◌, ◌≡◌, refl, Bool, true, false, List, [], ◌∷◌, length, arith, if◌then◌else◌,
}
use ramsql.Base.Outcome.{Error}
use ramsql.Parser.Token.{Token}
use ramsql.Parser.Tree.{
  Tokens, Parse, cur, raise, ◌>>=◌, ◌>>◌, has_next, next, consume, must_have_next,
}
use ramsql.Parser.Tame.{Ends, Ends-le, Ends-bind, Tame}

-- The tokens that are left at most, where n are there.
abbrev pub fewer : ℕ → ℕ
fewer n = suc (n - 2)

pub record Moves {A : Type 0} (m : Parse A) : Type 0 where
  pub on : (ts : Tokens) → 0 < length ts → Ends (fewer (length ts)) (m ts)

pub Moves-raise : {A : Type 0} (e : Error) → Moves (raise {A = A} e)
unfolding raise
Moves-raise e = record { on = λ ts h. tt }

pub Moves-if :
    {A : Type 0} (b : Bool) (m n : Parse A) → Moves m → Moves n → Moves (if b then m else n)
Moves-if true m n h k = h
Moves-if false m n h k = k

pub Moves-next : Moves next
unfolding next
Moves-next = record { on = go }
  where
    go : (ts : Tokens) → 0 < length ts → Ends (fewer (length ts)) (next ts)
    go [] h = tt
    go (t ∷ []) h = tt
    go (t ∷ u ∷ ts) h = omega arith

pub Moves-consume : (kinds : List ℕ) → Moves (consume kinds)
unfolding consume
Moves-consume kinds = record { on = go }
  where
    go : (ts : Tokens) → 0 < length ts → Ends (fewer (length ts)) (consume kinds ts)
    go [] h = absurd (omega arith)
    go (t ∷ []) h = ground arith
    go (t ∷ u ∷ ts) h = ground arith

pub Moves-must_have_next : (kinds : List ℕ) → Moves (must_have_next kinds)
unfolding must_have_next
Moves-must_have_next kinds = record { on = go }
  where
    go : (ts : Tokens) → 0 < length ts → Ends (fewer (length ts)) (must_have_next kinds ts)
    go [] h = tt
    go (t ∷ []) h = tt
    go (t ∷ u ∷ ts) h = ground arith

module _ {A B : Type 0} where
  -- The first part moves.
  pub Moves-first :
      (m : Parse A) (f : A → Parse B) → Moves m → ((a : A) → Tame (f a)) → Moves (m >>= f)
  Moves-first m f h k = record {
    on = λ ts pos.
        Ends-bind (fewer (length ts)) (fewer (length ts)) m f ts (h.on ts pos)
          (λ a us e p le. Ends-le (length us) (fewer (length ts)) (f a us) le ((k a).at us p));
  }

  -- The rest moves.
  pub Moves-rest :
      (m : Parse A) (f : A → Parse B) → Tame m → ((a : A) → Moves (f a)) → Moves (m >>= f)
  Moves-rest m f h k = record {
    on = λ ts pos. Ends-bind (length ts) (fewer (length ts)) m f ts (h.at ts pos) (λ a us e p le.
        Ends-le (fewer (length us)) (fewer (length ts)) (f a us) (omega arith) ((k a).on us p));
  }

-- Behind has_next, the last token need not be left.
pub Moves-has_next :
    {B : Type 0} (f : Bool → Parse B) → Moves (f true) → Tame (f false) → Moves (has_next >>= f)
unfolding has_next ◌>>=◌
Moves-has_next {B} f h k = record { on = go }
  where
    go : (ts : Tokens) → 0 < length ts → Ends (fewer (length ts)) ((has_next >>= f) ts)
    go [] pos = absurd (omega arith)
    go (t ∷ []) pos = k.at (t ∷ []) pos
    go (t ∷ u ∷ ts) pos = h.on (t ∷ u ∷ ts) pos

pub Moves-Tame : {A : Type 0} (m : Parse A) → Moves m → Tame m
Moves-Tame m h = record {
  at = λ ts pos. Ends-le (fewer (length ts)) (length ts) (m ts) (omega arith) (h.on ts pos);
}

-- The same rules at one list of tokens, where the bound is n.
module _ {A : Type 0} (n : ℕ) where
  pub Ends-Tame :
      (m : Parse A) (ts : Tokens) → Tame m → 0 < length ts → length ts ≤ n → Ends n (m ts)
  Ends-Tame m ts h pos le = Ends-le (length ts) n (m ts) le (h.at ts pos)

  pub Ends-if :
      (b : Bool) (p q : Parse A) (ts : Tokens)
      → Ends n (p ts)
      → Ends n (q ts)
      → Ends n ((if b then p else q) ts)
  Ends-if true p q ts h k = h
  Ends-if false p q ts h k = k

module _ {A B : Type 0} (n : ℕ) (m : Parse A) (f : A → Parse B) (ts : Tokens) where
  pub Ends-behind :
      Tame m
      → 0 < length ts
      → ((a : A) (us : Tokens) → 0 < length us → length us ≤ length ts → Ends n (f a us))
      → Ends n ((m >>= f) ts)
  Ends-behind h pos k = Ends-bind (length ts) n m f ts (h.at ts pos) (λ a us e. k a us)

  pub Ends-moved :
      Moves m
      → 0 < length ts
      → ((a : A) (us : Tokens) → 0 < length us → length us ≤ fewer (length ts) → Ends n (f a us))
      → Ends n ((m >>= f) ts)
  Ends-moved h pos k = Ends-bind (fewer (length ts)) n m f ts (h.on ts pos) (λ a us e. k a us)

pub Ends-when :
    {A : Type 0} (n : ℕ) (b : Bool) (p q : Parse A) (ts : Tokens)
    → (b ≡ true → Ends n (p ts))
    → Ends n (q ts)
    → Ends n ((if b then p else q) ts)
Ends-when n true p q ts h k = h refl
Ends-when n false p q ts h k = k

pub Ends-current :
    {A : Type 0} (n : ℕ) (f : Token → Parse A) (t : Token) (ts : Tokens)
    → Ends n (f t (t ∷ ts))
    → Ends n ((cur >>= f) (t ∷ ts))
unfolding cur ◌>>=◌
Ends-current n f t ts h = h

-- next fails on the last token.
pub Ends-next :
    {A : Type 0} (n : ℕ) (m : Parse A) (ts : Tokens)
    → ((us : Tokens) → 0 < length us → length us < length ts → Ends n (m us))
    → Ends n ((next >> m) ts)
unfolding next ◌>>=◌
Ends-next n m [] rest = tt
Ends-next n m (t ∷ []) rest = tt
Ends-next n m (t ∷ u ∷ ts) rest = rest (u ∷ ts) (omega arith) (omega arith)

pub ruleset moves_rules = (
  Moves-raise, Moves-if, Moves-next, Moves-consume, Moves-must_have_next, Moves-has_next,
  Moves-first, Moves-rest,
)
