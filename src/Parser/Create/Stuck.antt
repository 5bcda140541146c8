-- ===== src/Parser/Create/Stuck.antt =====
-- A column constraint that the parser does not move over.
use ramsql.Base.{ℕ, zero, suc, ◌≡◌, refl, false, ◌==◌, List, ◌∷◌, arith}
use ramsql.Base.Outcome.{blocked}
use ramsql.Parser.Token.{Token, one_of, not_token, null_token}
use ramsql.Parser.Tree.{◌>>=◌, is, is_next, cur, pure, hang}
use ramsql.Parser.Create.{Column, constraint, constraints_loop}

-- Where NOT is followed by a token other than NULL, the loop over the constraints of a column does
-- not end, whatever the fuel: no turn of it moves on.
pub constraints_loop-stuck :
    (n : ℕ) (c : Column) (t u : Token) (ts : List Token)
    → t.kind ≡ not_token
    → (u.kind == null_token) ≡ false
    → constraints_loop n c (t ∷ u ∷ ts) ≡ blocked
unfolding constraints_loop constraint ◌>>=◌ is is_next cur pure hang one_of
constraints_loop-stuck zero c t u ts negated other = refl
constraints_loop-stuck (suc n) c t u ts negated other =
    ground (arith, constraints_loop-stuck n c t u ts negated other)
