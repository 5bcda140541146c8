-- ===== src/Parser/Tree.antt =====
-- Declaration trees, and the state of the parser: the tokens from the current one on. Outside CREATE
-- there is always a current token, since `next` does not move behind the last one.
use ramsql.Base.{ℕ, suc, Bool, true, false, List, [], ◌∷◌, length, if◌then◌else◌}
use ramsql.Base.Bytes.{Bytes}
use ramsql.Base.Outcome.{Outcome, ok, err, panic, blocked, Error, syntax_error, unexpected_end}
use ramsql.Parser.Token.{Token, one_of}

-- Decl
mutual
  pub data Decl : Type 0 where
    node : ℕ → Bytes → Decls → Decl

  pub data Decls : Type 0 where
    nil : Decls
    cons : Decl → Decls → Decls

-- NewDecl
abbrev pub new_decl : Token → Decl
new_decl t = node t.kind t.lexeme nil

abbrev pub append_decl : Decls → Decl → Decls
append_decl nil d = cons d nil
append_decl (cons e ds) d = cons e (append_decl ds d)

-- Add
abbrev pub add : Decl → Decl → Decl
add (node k s ds) d = node k s (append_decl ds d)

abbrev pub add_all : Decl → List Decl → Decl
add_all d [] = d
add_all d (e ∷ es) = add_all (add d e) es

abbrev pub with_kind : ℕ → Decl → Decl
with_kind j (node k s ds) = node j s ds

abbrev pub Tokens : Type 0
Tokens = List Token

-- What a method of the parser does: it fails, or returns a result and moves on.
abbrev pub Parse : Type 0 → Type 0
Parse A = Tokens → Outcome (A × Tokens)

module _ {A : Type 0} where
  unfoldable pub pure : A → Parse A
  pure a ts = ok (a, ts)

  unfoldable pub raise : Error → Parse A
  raise e ts = err e

  -- A nil pointer is followed.
  unfoldable pub crash : Parse A
  crash ts = panic

  -- A loop that does not move on.
  unfoldable pub hang : Parse A
  hang ts = blocked

infixl 5 ◌>>=◌ ◌>>◌
unfoldable pub ◌>>=◌ : {A B : Type 0} → Parse A → (A → Parse B) → Parse B
◌>>=◌ m f ts = elim (m ts) [
  | ok (a, us) ↦ f a us
  | err e ↦ err e
  | panic ↦ panic
  | blocked ↦ blocked
]

abbrev pub ◌>>◌ : {A B : Type 0} → Parse A → Parse B → Parse B
m >> n = m >>= λ _. n

-- p.cur()
unfoldable pub cur : Parse Token
cur [] = panic
cur (t ∷ ts) = ok (t, t ∷ ts)

-- p.is(...)
unfoldable pub is : List ℕ → Parse Bool
is kinds [] = panic
is kinds (t ∷ ts) = ok (one_of t.kind kinds, t ∷ ts)

-- p.hasNext()
unfoldable pub has_next : Parse Bool
has_next [] = ok (false, [])
has_next (t ∷ []) = ok (false, t ∷ [])
has_next (t ∷ u ∷ ts) = ok (true, t ∷ u ∷ ts)

-- p.next()
unfoldable pub next : Parse (Unit {0})
next [] = err unexpected_end
next (t ∷ []) = err unexpected_end
next (t ∷ u ∷ ts) = ok (tt, u ∷ ts)

-- p.next() with its error passed over: the last token stays the current one.
unfoldable pub skip : Parse (Unit {0})
skip [] = ok (tt, [])
skip (t ∷ []) = ok (tt, t ∷ [])
skip (t ∷ u ∷ ts) = ok (tt, u ∷ ts)

-- p.index++
unfoldable pub advance : Parse (Unit {0})
advance [] = ok (tt, [])
advance (t ∷ ts) = ok (tt, ts)

-- p.consumeToken(...)
unfoldable pub consume : List ℕ → Parse Decl
unfolding skip
consume kinds [] = panic
consume kinds (t ∷ ts) =
    if one_of t.kind kinds
    then elim (skip (t ∷ ts)) [
      | ok (u, us) ↦ ok (new_decl t, us)
      | err e ↦ err e
      | panic ↦ panic
      | blocked ↦ blocked
    ]
    else err syntax_error

-- p.isNext(...), which does not move
unfoldable pub is_next : List ℕ → Parse Bool
is_next kinds [] = ok (false, [])
is_next kinds (t ∷ []) = ok (false, t ∷ [])
is_next kinds (t ∷ u ∷ ts) = ok (one_of u.kind kinds, t ∷ u ∷ ts)

-- p.mustHaveNext(...)
unfoldable pub must_have_next : List ℕ → Parse (Unit {0})
must_have_next kinds [] = err syntax_error
must_have_next kinds (t ∷ []) = err syntax_error
must_have_next kinds (t ∷ u ∷ ts) =
    if one_of u.kind kinds then ok (tt, u ∷ ts) else err syntax_error

-- The fuel of a loop: one more than the tokens.
unfoldable pub fuel : Parse ℕ
fuel ts = ok (suc (length ts), ts)
