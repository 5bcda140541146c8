-- ===== src/Parser/Program/Ends.antt =====
-- The statements that parse chooses end, except CREATE and DROP, and with them parse.
use ramsql.Base.{
  ℕ, zero, suc, ◌≤◌, ◌<◌, ◌≡◌, refl, Bool, true, false, ◌==◌, ◌||◌, List, [], ◌∷◌, ◌++◌, All,
  length, arith, if◌then◌else◌,
}
use ramsql.Base.Outcome.{Outcome, ok, err, panic, blocked}
use ramsql.Parser.Token.{
  Token, one_of, space_token, semicolon_token, create_token, drop_token, explain_token, grant_token,
}
use ramsql.Parser.Tree.{Decl, new_decl, Tokens, Parse, pure, raise, ◌>>=◌, ◌>>◌, has_next, advance}
use ramsql.Parser.Tame.{Ends}
use ramsql.Parser.Tame.Moves.{Moves, fewer, moves_rules}
use ramsql.Parser.Tame.Within.{Within, Leaves, within_rules}
use ramsql.Parser.Statements.Ends.{
  parse_insert-Moves, parse_update-Moves, parse_delete-Moves, parse_truncate-Moves,
}
use ramsql.Parser.Statements.Within.{
  parse_insert-Within, parse_update-Within, parse_delete-Within, parse_truncate-Within,
}
use ramsql.Parser.Select.Ends.{parse_select-Moves}
use ramsql.Parser.Select.Within.{parse_select-Within}
use ramsql.Parser.Program.{strip_spaces, parse_statement, program_loop, result_of, parse}

parse_statement-Moves :
    (k : ℕ) → (k == create_token) ≡ false → (k == drop_token) ≡ false → Moves (parse_statement k)
unfolding parse_statement
parse_statement-Moves k create drop =
    rw (create, drop)
      (search
        (
          moves_rules, parse_insert-Moves, parse_update-Moves, parse_delete-Moves,
          parse_truncate-Moves, parse_select-Moves,
        )
        depth 12)

parse_statement-Within :
    (P : Token → Type 0) (k : ℕ)
    → (k == create_token) ≡ false
    → (k == drop_token) ≡ false
    → Within P (parse_statement k)
unfolding parse_statement
parse_statement-Within P k create drop =
    rw (create, drop)
      (search
        (
          within_rules, parse_insert-Within, parse_update-Within, parse_delete-Within,
          parse_truncate-Within, parse_select-Within,
        )
        depth 12)

-- No keyword CREATE, DROP or EXPLAIN.
abbrev pub IsPlain : Token → Type 0
IsPlain t = one_of t.kind (create_token ∷ drop_token ∷ explain_token ∷ []) ≡ false

plain-create : (t : Token) → IsPlain t → (t.kind == create_token) ≡ false
unfolding one_of
plain-create t h = ground arith

plain-drop : (t : Token) → IsPlain t → (t.kind == drop_token) ≡ false
unfolding one_of
plain-drop t h = ground arith

plain-explain : (t : Token) → IsPlain t → (t.kind == explain_token) ≡ true → ⊥
unfolding one_of
plain-explain t h e = ground arith

-- The outcome is a result or an error.
abbrev pub Settles : {A : Type 0} → Outcome A → Type 0
Settles (ok a) = Unit
Settles (err e) = Unit
Settles panic = ⊥
Settles blocked = ⊥

Settles-if :
    {A : Type 0} (b : Bool) (m n : Parse A) (ts : Tokens)
    → (b ≡ true → Settles (m ts))
    → (b ≡ false → Settles (n ts))
    → Settles ((if b then m else n) ts)
Settles-if true m n ts h k = h refl
Settles-if false m n ts h k = k refl

Settles-bind :
    {A B : Type 0} (P : Token → Type 0) (m : Parse A) (f : A → Parse B) (ts : Tokens)
    → Moves m
    → Within P m
    → 0 < length ts
    → All P ts
    → ((a : A) (us : Tokens)
        → 0 < length us
        → length us ≤ fewer (length ts)
        → All P us
        → Settles (f a us))
    → Settles ((m >>= f) ts)
unfolding ◌>>=◌
Settles-bind {A} {B} P m f ts moves within pos all rest =
    go (m ts) (moves.on ts pos) (within.left ts all)
  where
    go :
        (r : Outcome (A × Tokens))
        → Ends (fewer (length ts)) r
        → Leaves P r
        → Settles
            (elim r [ ok (a, us) ↦ f a us | err e ↦ err e | panic ↦ panic | blocked ↦ blocked ])
    go (ok (a, us)) e all = rest a us e.0 e.1 all
    go (err x) e all = tt
    go panic e all = e
    go blocked e all = e

program_loop-Settles :
    (n : ℕ) (is' : List Decl) (ts : Tokens)
    → All IsPlain ts
    → length ts < suc n
    → Settles (program_loop (suc n) is' ts)
unfolding program_loop has_next ◌>>=◌ ramsql.Parser.Tree.cur pure advance
program_loop-Settles n is' [] all lt = tt
program_loop-Settles n is' (t ∷ []) all lt = tt
program_loop-Settles zero is' (t ∷ u ∷ ts) all lt = absurd (omega arith)
program_loop-Settles (suc n) is' (t ∷ u ∷ ts) all lt =
    Settles-if (t.kind == semicolon_token || t.kind == space_token) _ _ (t ∷ u ∷ ts)
      (λ _. program_loop-Settles n is' (u ∷ ts) all.1 (omega arith))
      (λ _.
        Settles-if (t.kind == explain_token) _ _ (t ∷ u ∷ ts)
          (λ e. absurd (plain-explain t all.0 e))
          (λ _.
            Settles-if (t.kind == grant_token) _ _ (t ∷ u ∷ ts) (λ _. tt)
              (λ _.
                Settles-bind IsPlain (parse_statement t.kind)
                  (λ d. program_loop (suc n) (is' ++ d ∷ [])) (t ∷ u ∷ ts)
                  (parse_statement-Moves t.kind (plain-create t all.0) (plain-drop t all.0))
                  (parse_statement-Within IsPlain t.kind (plain-create t all.0)
                    (plain-drop t all.0))
                  (omega arith) all
                  (λ d us p le plain.
                    program_loop-Settles n (is' ++ d ∷ []) us plain (omega arith)))))

strip_spaces-All : (P : Token → Type 0) (ts : Tokens) → All P ts → All P (strip_spaces ts)
unfolding strip_spaces
strip_spaces-All P [] h = tt
strip_spaces-All P (t ∷ ts) h = go (t.kind == space_token) (strip_spaces-All P ts h.1)
  where
    go :
        (b : Bool)
        → All P (strip_spaces ts)
        → All P (if b then strip_spaces ts else t ∷ strip_spaces ts)
    go true rest = rest
    go false rest = (h.0, rest)

result-Settles : (r : Outcome (List Decl × Tokens)) → Settles r → Settles (result_of r)
result-Settles (ok (ds, ts)) h = tt
result-Settles (err e) h = tt
result-Settles panic h = h
result-Settles blocked h = h

-- On all tokens without the keywords CREATE, DROP and EXPLAIN the parser ends within its fuel, in a
-- list of trees or in an error: no loop of SELECT, INSERT, UPDATE, DELETE, TRUNCATE and GRANT runs for
-- ever, and no token behind the last one is read.
pub parse-ends : (ts : Tokens) → All IsPlain ts → Settles (parse ts)
unfolding parse
parse-ends ts all =
    result-Settles (program_loop (suc (length (strip_spaces ts))) [] (strip_spaces ts)) (
      program_loop-Settles (length (strip_spaces ts)) [] (strip_spaces ts)
        (strip_spaces-All IsPlain ts all) (omega arith))
