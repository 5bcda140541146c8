-- ===== src/Parser/Tame/Single.antt =====
-- Parsers on a single token: it stays the current one, and some kinds of it are refused.
use mathlib.Core.Path.{subst}
use ramsql.Base.{
  ℕ, ◌≡◌, refl, sym, ap, ◌==◌, ◌||◌, Bool, true, false, List, [], ◌∷◌, arith, if◌then◌else◌,
}
use ramsql.Base.Outcome.{Outcome, ok, err, panic, blocked, Error, syntax_error}
use ramsql.Parser.Token.{Token, one_of}
use ramsql.Parser.Tame.{Ends, Ends-bind, Tame}
use ramsql.Parser.Tame.Moves.{Ends-when}
use ramsql.Parser.Tree.{
  Decl, new_decl, ◌>>◌, Tokens, Parse, pure, raise, ◌>>=◌, cur, is, has_next, next, consume,
  must_have_next, fuel,
}

-- A result leaves the token.
abbrev pub Left : {A : Type 0} → Token → Outcome (A × Tokens) → Type 0
Left t (ok (a, us)) = us ≡ t ∷ []
Left t (err e) = Unit
Left t panic = Unit
Left t blocked = Unit

pub record Keeps {A : Type 0} (m : Parse A) : Type 0 where
  pub on_one : (t : Token) → Left t (m (t ∷ []))

-- There is no result.
abbrev pub NoResult : {A : Type 0} → Outcome (A × Tokens) → Type 0
NoResult (ok r) = ⊥
NoResult (err e) = Unit
NoResult panic = Unit
NoResult blocked = Unit

pub record Refuses (k : ℕ) {A : Type 0} (m : Parse A) : Type 0 where
  pub refused : (t : Token) → t.kind ≡ k → NoResult (m (t ∷ []))

module _ {A : Type 0} where
  pub Keeps-pure : (a : A) → Keeps (pure a)
  unfolding pure
  Keeps-pure a = record { on_one = λ t. refl }

  pub Keeps-raise : (e : Error) → Keeps (raise {A = A} e)
  unfolding raise
  Keeps-raise e = record { on_one = λ t. tt }

  pub Keeps-if : (b : Bool) (m n : Parse A) → Keeps m → Keeps n → Keeps (if b then m else n)
  Keeps-if true m n h k = h
  Keeps-if false m n h k = k

  pub Refuses-raise : (k : ℕ) (e : Error) → Refuses k (raise {A = A} e)
  unfolding raise
  Refuses-raise k e = record { refused = λ t h. tt }

  pub Refuses-if :
      (k : ℕ) (b : Bool) (m n : Parse A)
      → Refuses k m
      → Refuses k n
      → Refuses k (if b then m else n)
  Refuses-if k true m n h h' = h
  Refuses-if k false m n h h' = h'

pub Keeps-cur : Keeps cur
unfolding cur
Keeps-cur = record { on_one = λ t. refl }

pub Keeps-is : (kinds : List ℕ) → Keeps (is kinds)
unfolding is
Keeps-is kinds = record { on_one = λ t. refl }

pub Keeps-has_next : Keeps has_next
unfolding has_next
Keeps-has_next = record { on_one = λ t. refl }

pub Keeps-next : Keeps next
unfolding next
Keeps-next = record { on_one = λ t. tt }

pub Keeps-must_have_next : (kinds : List ℕ) → Keeps (must_have_next kinds)
unfolding must_have_next
Keeps-must_have_next kinds = record { on_one = λ t. tt }

pub Keeps-fuel : Keeps fuel
unfolding fuel
Keeps-fuel = record { on_one = λ t. refl }

pub Keeps-consume : (kinds : List ℕ) → Keeps (consume kinds)
unfolding consume
Keeps-consume kinds = record { on_one = λ t. go (one_of t.kind kinds) t }
  where
    go : (b : Bool) (t : Token) → Left t (if b then (ok (new_decl t, t ∷ [])) else err syntax_error)
    go true t = refl
    go false t = tt

pub Refuses-next : (k : ℕ) → Refuses k next
unfolding next
Refuses-next k = record { refused = λ t h. tt }

pub Refuses-must_have_next : (k : ℕ) (kinds : List ℕ) → Refuses k (must_have_next kinds)
unfolding must_have_next
Refuses-must_have_next k kinds = record { refused = λ t h. tt }

pub Refuses-consume : (k : ℕ) (kinds : List ℕ) → one_of k kinds ≡ false → Refuses k (consume kinds)
unfolding consume
Refuses-consume k kinds other = record { refused = λ t same. ground arith }

module _ {A B : Type 0} where
  pub Keeps-bind :
      (m : Parse A) (f : A → Parse B) → Keeps m → ((a : A) → Keeps (f a)) → Keeps (m >>= f)
  unfolding ◌>>=◌
  Keeps-bind m f h k = record { on_one = λ t. go t (m (t ∷ [])) (h.on_one t) }
    where
      go :
          (t : Token) (r : Outcome (A × Tokens))
          → Left t r
          → Left t
              (elim r [ ok (a, us) ↦ f a us | err x ↦ err x | panic ↦ panic | blocked ↦ blocked ])
      go t (ok (a, us)) e = subst (λ vs. Left t (f a vs)) (sym e) ((k a).on_one t)
      go t (err x) e = tt
      go t panic e = tt
      go t blocked e = tt

  pub Refuses-first : (k : ℕ) (m : Parse A) (f : A → Parse B) → Refuses k m → Refuses k (m >>= f)
  unfolding ◌>>=◌
  Refuses-first k m f h = record { refused = λ t same. go (m (t ∷ [])) (h.refused t same) }
    where
      go :
          (r : Outcome (A × Tokens))
          → NoResult r
          → NoResult
              (elim r [ ok (a, us) ↦ f a us | err x ↦ err x | panic ↦ panic | blocked ↦ blocked ])
      go (ok r) e = absurd e
      go (err x) e = tt
      go panic e = tt
      go blocked e = tt

  pub Refuses-rest :
      (k : ℕ) (m : Parse A) (f : A → Parse B)
      → Keeps m
      → ((a : A) → Refuses k (f a))
      → Refuses k (m >>= f)
  unfolding ◌>>=◌
  Refuses-rest k m f h h' = record { refused = λ t same. go t same (m (t ∷ [])) (h.on_one t) }
    where
      go :
          (t : Token)
          → t.kind ≡ k
          → (r : Outcome (A × Tokens)) → Left t r
          → NoResult
              (elim r [ ok (a, us) ↦ f a us | err x ↦ err x | panic ↦ panic | blocked ↦ blocked ])
      go t same (ok (a, us)) e = subst (λ vs. NoResult (f a vs)) (sym e) ((h' a).refused t same)
      go t same (err x) e = tt
      go t same panic e = tt
      go t same blocked e = tt

-- Behind has_next, only the case without a next token counts.
pub Refuses-has_next :
    {B : Type 0} (k : ℕ) (f : Bool → Parse B) → Refuses k (f false) → Refuses k (has_next >>= f)
unfolding has_next ◌>>=◌
Refuses-has_next k f h = record { refused = λ t same. h.refused t same }

pub Ends-one :
    {A B : Type 0} (m : Parse A) (f : A → Parse B) (t : Token)
    → Tame m
    → Keeps m
    → ((a : A) → m (t ∷ []) ≡ ok (a, t ∷ []) → Ends 1 (f a (t ∷ [])))
    → Ends 1 ((m >>= f) (t ∷ []))
unfolding ◌>>=◌
Ends-one {A} {B} m f t tame keeps k =
    go (m (t ∷ [])) (tame.at (t ∷ []) (omega arith)) (keeps.on_one t) k
  where
    go :
        (r : Outcome (A × Tokens))
        → Ends 1 r
        → Left t r
        → ((a : A) → r ≡ ok (a, t ∷ []) → Ends 1 (f a (t ∷ [])))
        → Ends 1
            (elim r [ ok (a, us) ↦ f a us | err x ↦ err x | panic ↦ panic | blocked ↦ blocked ])
    go (ok (a, us)) e same k =
        subst (λ vs. Ends 1 (f a vs)) (sym same) (k a (ap (λ vs. ok (a, vs)) same))
    go (err x) e same k = tt
    go panic e same k = e
    go blocked e same k = e

consume-other :
    (k : ℕ) (t : Token) → (t.kind ≡ k → ⊥) → consume (k ∷ []) (t ∷ []) ≡ err syntax_error
unfolding consume one_of
consume-other k t other = ground arith

-- A token of the kind k is excluded, so what is behind it is not come to.
pub Ends-unless :
    {A : Type 0} (k : ℕ) (m : Parse A) (t : Token)
    → (t.kind ≡ k → ⊥)
    → Ends 1 ((consume (k ∷ []) >> m) (t ∷ []))
unfolding ◌>>=◌
Ends-unless k m t other = rw (Ends, ◌>>◌, consume-other k t other) tt

-- A result that is there is not refused.
pub Refuses-result :
    {A : Type 0} (k : ℕ) (m : Parse A) (t : Token) (r : A × Tokens)
    → Refuses k m
    → m (t ∷ []) ≡ ok r
    → t.kind ≡ k
    → ⊥
Refuses-result k m t r h e same = subst NoResult e (h.refused t same)

-- A part that refuses the token ends the run.
pub Ends-refused :
    {A B : Type 0} (k : ℕ) (m : Parse A) (f : A → Parse B) (t : Token)
    → Tame m
    → Refuses k m
    → t.kind ≡ k
    → Ends 1 ((m >>= f) (t ∷ []))
Ends-refused k m f t tame h same =
    Ends-bind 1 1 m f (t ∷ []) (tame.at (t ∷ []) (omega arith))
      (λ a us e p le. absurd (Refuses-result k m t (a, us) h e same))

pub consume-kind :
    (k : ℕ) (t : Token) (r : Decl × Tokens) → consume (k ∷ []) (t ∷ []) ≡ ok r → t.kind ≡ k
unfolding consume one_of
consume-kind k t r e = ground arith

-- What is asked of the token is known.
module _ {B : Type 0} (k : ℕ) where
  pub Refuses-is :
      (kinds : List ℕ) (f : Bool → Parse B)
      → Refuses k (f (one_of k kinds))
      → Refuses k (is kinds >>= f)
  unfolding is ◌>>=◌
  Refuses-is kinds f h = record {
    refused =
        λ t same. subst (λ j. NoResult (f (one_of j kinds) (t ∷ []))) (sym same) (h.refused t same);
  }

  pub Refuses-cur :
      (f : Token → Parse B) → ((t : Token) → t.kind ≡ k → Refuses k (f t)) → Refuses k (cur >>= f)
  unfolding cur ◌>>=◌
  Refuses-cur f h = record { refused = λ t same. (h t same).refused t same }

  pub Refuses-unless :
      (b : Bool) (m n : Parse B) → b ≡ false → Refuses k n → Refuses k (if b then m else n)
  Refuses-unless true m n e h = absurd (ground arith)
  Refuses-unless false m n e h = h

pub Ends-is_one :
    {A : Type 0} (k : ℕ) (m n : Parse A) (t : Token)
    → (t.kind ≡ k → Ends 1 (m (t ∷ [])))
    → Ends 1 (n (t ∷ []))
    → Ends 1 ((is (k ∷ []) >>= λ found. if found then m else n) (t ∷ []))
unfolding is ◌>>=◌ one_of
Ends-is_one k m n t h h' =
    Ends-when 1 (t.kind == k || false) m n (t ∷ []) (λ e. h (ground (arith, e))) h'

pub ruleset keeps_rules = (
  Keeps-pure, Keeps-raise, Keeps-if, Keeps-cur, Keeps-is, Keeps-has_next, Keeps-next,
  Keeps-must_have_next, Keeps-fuel, Keeps-consume, Keeps-bind,
)

pub ruleset refuses_rules = (
  Refuses-raise, Refuses-if, Refuses-next, Refuses-must_have_next, Refuses-consume, Refuses-first,
  Refuses-has_next, Refuses-rest,
)
