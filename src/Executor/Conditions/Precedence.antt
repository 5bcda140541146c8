-- ===== src/Executor/Conditions/Precedence.antt =====
-- How getPredicates joins the conditions of a WHERE clause.
use ramsql.Base.{◌≡◌, ◌∙◌, Bool, true, false, none, some, List, [], ◌∷◌, All, arith}
use ramsql.Base.Bytes.{codes}
use ramsql.Base.Exec.{Exec, pure, ◌>>=◌}
use ramsql.Predicate.{Predicate, conj, disj}
use ramsql.Parser.Token.{token, one_of, and_token, or_token}
use ramsql.Parser.Tree.{Decl, new_decl}
use ramsql.Transaction.{Session}
use ramsql.Executor.Conditions.{Context, kind_of, condition, split, get_predicates}

-- A link, AND where it is true, and the condition behind it.
abbrev pub Linked : Type 0
Linked = Bool × Decl

abbrev pub link_decl : Bool → Decl
link_decl true = new_decl (token and_token (codes "and"))
link_decl false = new_decl (token or_token (codes "or"))

-- The declarations below WHERE: conditions with links between them.
abbrev pub links : List Linked → List Decl
links [] = []
links ((link, e) ∷ rest) = link_decl link ∷ e ∷ links rest

abbrev pub linked : Bool → Predicate → Predicate → Predicate
linked true p q = conj p q
linked false p q = disj p q

-- Every link takes the whole rest of the clause as its right side, whether it is AND or OR.
abbrev pub nested : Context → Decl → List Linked → Exec Session Predicate
nested c d [] = condition c d
nested c d ((link, e) ∷ rest) =
    condition c d >>= λ p. nested c e rest >>= λ q. pure (linked link p q)

abbrev pub IsCondition : Decl → Type 0
IsCondition d = one_of (kind_of d) (and_token ∷ or_token ∷ []) ≡ false

abbrev pub AreConditions : List Linked → Type 0
AreConditions = All λ l. IsCondition l.1

split-condition :
    (c : Context) (d : Decl) (ds : List Decl) (s : Session)
    → IsCondition d
    → split c none (d ∷ ds) s ≡ split c (some d) ds s
unfolding split one_of
split-condition c d ds s h = ground arith

-- A clause of conditions with AND and OR between them becomes the predicate that is nested to the
-- right in the order of writing: a AND b OR c is a AND (b OR c), and the errors, the panics and the
-- state come about in that order.
pub get_predicates-nested :
    (c : Context) (d : Decl) (rest : List Linked) (s : Session)
    → IsCondition d
    → AreConditions rest
    → get_predicates c (d ∷ links rest) s ≡ nested c d rest s
unfolding get_predicates split
get_predicates-nested c d [] s h hs = split-condition c d [] s h
get_predicates-nested c d ((true, e) ∷ rest) s h hs =
    split-condition c d (links ((true, e) ∷ rest)) s h ∙ λ i.
    (condition c d >>= λ p.
    (λ s'. get_predicates-nested c e rest s' hs.0 hs.1 i) >>= λ q. pure (conj p q))
      s
get_predicates-nested c d ((false, e) ∷ rest) s h hs =
    split-condition c d (links ((false, e) ∷ rest)) s h ∙ λ i.
    (condition c d >>= λ p.
    (λ s'. get_predicates-nested c e rest s' hs.0 hs.1 i) >>= λ q. pure (disj p q))
      s
