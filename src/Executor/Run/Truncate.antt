-- ===== src/Executor/Run/Truncate.antt =====
-- TRUNCATE, from the parser to its executor.
use ramsql.Base.Bytes.{Bytes}
use ramsql.Base.{ℕ, ◌≡◌, refl, sym, ap, ◌∙◌, Option, none, some, List, [], ◌∷◌, arith}
use ramsql.Base.Outcome.{Outcome, ok, err, panic, blocked}
use ramsql.Parser.Token.{one_of, truncate_token, string_token}
use ramsql.Parser.Tree.{
  Decl, Tokens, Parse, ◌>>=◌, pure, raise, is, cur, next, skip, add, node, nil, cons, consume,
}
use ramsql.Parser.Terms.{open_quote, expect, closing_next, quoted_name, parse_quoted_token}
use ramsql.Parser.Statements.{parse_truncate}
use ramsql.Transaction.{Session}
use ramsql.Executor.Conditions.{below}
use ramsql.Executor.Statement.{Env}
use ramsql.Executor.Modify.{truncate_executor}
use ramsql.Executor.Run.{execute, plain}

-- A chain of the parser that ends with a value: its first part did, and the rest ran from there.
outcome-eq-ok :
    {A B : Type 0} (o : Outcome (A × Tokens)) (f : A → Parse B) (x : B × Tokens)
    → (elim o [ ok (a, us) ↦ f a us | err e ↦ err e | panic ↦ panic | blocked ↦ blocked ]) ≡ ok x
    → (a : A) × (us : Tokens) × (o ≡ ok (a, us)) × (f a us ≡ ok x)
outcome-eq-ok (ok (a, us)) f x h = (a, us, refl, h)
outcome-eq-ok (err e) f x h = absurd (ground arith)
outcome-eq-ok panic f x h = absurd (ground arith)
outcome-eq-ok blocked f x h = absurd (ground arith)

>>=-eq-ok :
    {A B : Type 0} (m : Parse A) (f : A → Parse B) (ts : Tokens) (x : B × Tokens)
    → (m >>= f) ts ≡ ok x
    → (a : A) × (us : Tokens) × (m ts ≡ ok (a, us)) × (f a us ≡ ok x)
unfolding ◌>>=◌
>>=-eq-ok m f ts x h = outcome-eq-ok (m ts) f x h

expect-below :
    (kinds : List ℕ) (ts us : Tokens) (d : Decl) → expect kinds ts ≡ ok (d, us) → below d ≡ []
unfolding expect ◌>>=◌ is cur pure raise
expect-below kinds [] us d h = absurd (ground arith)
expect-below kinds (t ∷ ts) us d h = ground arith

quoted_name-below :
    (kinds : List ℕ) (ts us : Tokens) (d : Decl) → quoted_name kinds ts ≡ ok (d, us) → below d ≡ []
unfolding quoted_name pure
quoted_name-below kinds ts us d h =
    let (q, u1, p1, h1) = >>=-eq-ok open_quote _ ts (d, us) h in
    let (e, u2, p2, h2) = >>=-eq-ok (expect kinds) _ u1 (d, us) h1 in
    let (x, u3, p3, h3) = >>=-eq-ok (closing_next q) _ u2 (d, us) h2 in
    ground (arith, h3, expect-below kinds u1 u2 e p2)

parse_quoted_token-below :
    (ts us : Tokens) (d : Decl) → parse_quoted_token ts ≡ ok (d, us) → below d ≡ []
unfolding parse_quoted_token pure
parse_quoted_token-below ts us d h =
    let (e, u1, p1, h1) = >>=-eq-ok (quoted_name (string_token ∷ [])) _ ts (d, us) h in
    let (x, u2, p2, h2) = >>=-eq-ok next _ u1 (d, us) h1 in
    ground (arith, h2, quoted_name-below (string_token ∷ []) ts u1 e p1)

consume-node :
    (k : ℕ) (ts us : Tokens) (d : Decl)
    → consume (k ∷ []) ts ≡ ok (d, us)
    → (s : Bytes) × (d ≡ node k s nil)
unfolding consume one_of skip
consume-node k [] us d h = absurd (ground arith)
consume-node k (t ∷ []) us d h = (t.lexeme, ground arith)
consume-node k (t ∷ u ∷ ts) us d h = (t.lexeme, ground arith)

-- The executor of a TRUNCATE declaration whose name has nothing below it.
execute-truncate :
    (env : Env) (w s : Bytes) (k : ℕ) (t : Session)
    → (execute env (node truncate_token w (cons (node k s nil) nil)) t).0 ≡ panic
unfolding execute plain truncate_executor
execute-truncate env w s k t = refl

-- Every TRUNCATE statement that the parser accepts makes its executor panic.
pub execute-parse_truncate :
    (env : Env) (ts us : Tokens) (d : Decl) (s : Session)
    → parse_truncate ts ≡ ok (d, us)
    → (execute env d s).0 ≡ panic
unfolding parse_truncate pure
execute-parse_truncate env ts us d s h =
    let (e, u1, p1, h1) = >>=-eq-ok (consume (truncate_token ∷ [])) _ ts (d, us) h in
    let (name, u2, p2, h2) = >>=-eq-ok parse_quoted_token _ u1 (d, us) h1 in
    let (w, is_node) = consume-node truncate_token ts u1 e p1 in
    truncated env name w s d (parse_quoted_token-below u1 u2 name p2)
      (ap result_decl (sym h2) ∙ ap (λ x. some (add x name)) is_node)
  where
    result_decl : Outcome (Decl × Tokens) → Option Decl
    result_decl (ok (x, vs)) = some x
    result_decl _ = none

    truncated :
        (env : Env) (name : Decl) (w : Bytes) (s : Session) (d : Decl)
        → below name ≡ []
        → some d ≡ some (add (node truncate_token w nil) name)
        → (execute env d s).0 ≡ panic
    truncated env (node k x nil) w s d h e = ground (arith, execute-truncate env w x k s)
    truncated env (node k x (cons y ys)) w s d h e = absurd (ground arith)
