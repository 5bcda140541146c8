-- ===== src/Parser/Select/Ends.antt =====
-- SELECT ends.
use ramsql.Base.{
  ℕ, zero, suc, ◌<◌, ◌≡◌, refl, Bool, true, false, not, ◌&&◌, ◌==◌, [], ◌∷◌, length, arith,
  if◌then◌else◌,
}
use ramsql.Parser.Token.{
  Token, one_of, comma_token, bracket_closing_token, join_token, where_token, order_token,
  limit_token, offset_token, for_token, number_token,
}
use ramsql.Parser.Tree.{Decl, add, Tokens, Parse, pure, ◌>>=◌, cur, is, has_next, fuel}
use ramsql.Parser.Tame.{Ends, Ends-le, Tame, Tame-is, Tame-has_next, tame_rules}
use ramsql.Parser.Tame.Moves.{
  Moves, Moves-Tame, moves_rules, Ends-Tame, Ends-if, Ends-when, Ends-current, Ends-next,
  Ends-behind, Ends-moved,
}
use ramsql.Parser.Tame.Single.{Refuses, refuses_rules, keeps_rules, Ends-refused, Ends-is_one}
use ramsql.Parser.Terms.{parse_table_name, parse_join, parse_order_by}
use ramsql.Parser.Terms.Ends.{
  parse_attribute-Tame, parse_builtin_func-Tame, parse_table_name-Tame, parse_join-Tame,
  parse_join-Moves, parse_join-Refuses,
}
use ramsql.Parser.Terms.Lists.{fuel_loop-Tame, fuel_then-Tame, parse_order_by-Moves}
use ramsql.Parser.Statements.{parse_where}
use ramsql.Parser.Statements.Ends.{parse_where-Moves, parse_where-Refuses}
use ramsql.Parser.Select.{
  implicit_where, parse_for_update, Columns, column, columns_loop, parse_columns, distinct_open,
  select_head, tables_loop, joins_loop, counted_clause, clauses_loop, select_clauses, parse_select,
}

column-Tame : (o : Bool) (cs : Columns) → Tame (column o cs)
unfolding column
column-Tame o (on, others) =
    search (tame_rules, parse_builtin_func-Tame, parse_attribute-Tame) depth 8

columns_loop-Ends :
    (o : Bool) (cs : Columns) (n : ℕ) (ts : Tokens)
    → 0 < length ts
    → length ts < n
    → Ends (length ts) (columns_loop n o cs ts)
unfolding columns_loop
columns_loop-Ends o cs zero ts pos lt = absurd (omega arith)
columns_loop-Ends o cs (suc n) ts pos lt =
    Ends-behind _ (column o cs) _ ts (column-Tame o cs) pos λ cs' us p le.
      Ends-behind _ (is (bracket_closing_token ∷ [])) _ us (Tame-is _) p λ closes vs p' le'.
        Ends-behind _ (is (comma_token ∷ [])) _ vs (Tame-is _) p' λ more ws q lq.
          Ends-if _ (o && closes) _ _ ws
            (Ends-next _ (columns_loop n false cs') ws λ xs q' lq'.
              Ends-le (length xs) (length ts) _ (omega arith)
                (columns_loop-Ends false cs' n xs q' (omega arith)))
            (Ends-if _ more _ _ ws
              (Ends-next _ (columns_loop n o cs') ws λ xs q' lq'.
                Ends-le (length xs) (length ts) _ (omega arith)
                  (columns_loop-Ends o cs' n xs q' (omega arith)))
              (Ends-Tame _ (pure cs') ws (search tame_rules) q (omega arith)))

parse_columns-Tame : (o : Bool) → Tame (parse_columns o)
unfolding parse_columns
parse_columns-Tame o =
    fuel_loop-Tame (λ n. columns_loop n o ([], [])) (columns_loop-Ends o ([], []))

distinct_open-Tame : Tame distinct_open
unfolding distinct_open
distinct_open-Tame = search tame_rules depth 12

select_head-Tame : (s : Decl) → Tame (select_head s)
unfolding select_head
select_head-Tame s = search (tame_rules, parse_columns-Tame, distinct_open-Tame) depth 12

tables_loop-Ends :
    (d : Decl) (n : ℕ) (ts : Tokens)
    → 0 < length ts
    → length ts < n
    → Ends (length ts) (tables_loop n d ts)
unfolding tables_loop
tables_loop-Ends d zero ts pos lt = absurd (omega arith)
tables_loop-Ends d (suc n) ts pos lt = Ends-next _ _ ts λ us p le.
    Ends-behind _ parse_table_name _ us parse_table_name-Tame p λ t vs p' le'.
      Ends-behind _ has_next _ vs Tame-has_next p' λ more ws q lq.
        Ends-behind _ (is (comma_token ∷ [])) _ ws (Tame-is _) q λ comma xs q' lq'.
          Ends-if _ (not more) _ _ xs
            (Ends-Tame _ (pure (add d t, true)) xs (search tame_rules) q' (omega arith))
            (Ends-if _ comma _ _ xs
              (Ends-le (length xs) (length ts) _ (omega arith)
                (tables_loop-Ends (add d t) n xs q' (omega arith)))
              (Ends-Tame _ (pure (add d t, false)) xs (search tame_rules) q' (omega arith)))

joins_loop-Ends :
    (s : Decl) (n : ℕ) (ts : Tokens)
    → 0 < length ts
    → length ts < n
    → Ends (length ts) (joins_loop n s ts)
unfolding joins_loop
joins_loop-Ends s zero ts pos lt = absurd (omega arith)
joins_loop-Ends s (suc n) [] pos lt = absurd (omega arith)
joins_loop-Ends s (suc n) (t ∷ []) pos lt =
    Ends-is_one join_token _ (pure s) t
      (Ends-refused join_token parse_join _ t parse_join-Tame
        (parse_join-Refuses join_token (unfold one_of in refl)))
      (Ends-Tame _ (pure s) (t ∷ []) (search tame_rules) (omega arith) (omega arith))
joins_loop-Ends s (suc n) (t ∷ u ∷ ts) pos lt =
    Ends-behind _ (is (join_token ∷ [])) _ (t ∷ u ∷ ts) (Tame-is _) pos λ joined us p le.
      Ends-if _ joined _ _ us
        (Ends-moved _ parse_join _ us parse_join-Moves p λ j vs p' le'.
          Ends-le (length vs) (length (t ∷ u ∷ ts)) _ (omega arith)
            (joins_loop-Ends (add s j) n vs p' (omega arith)))
        (Ends-Tame _ (pure s) us (search tame_rules) p (omega arith))

-- A part that the kind of the first token has chosen: it moves, or the token is the last one and is
-- refused.
chosen-Ends :
    (k : ℕ) (m : Parse Decl) (f : Decl → Parse Decl) (t : Token) (ts : Tokens)
    → Moves m
    → Refuses k m
    → (t.kind == k) ≡ true
    → ((c : Decl) (us : Tokens)
        → 0 < length us
        → length us < length (t ∷ ts)
        → Ends (length us) (f c us))
    → Ends (length (t ∷ ts)) ((m >>= f) (t ∷ ts))
chosen-Ends k m f t [] moves refuses same rest =
    Ends-refused k m f t (Moves-Tame m moves) refuses (ground (arith, same))
chosen-Ends k m f t (u ∷ ts) moves refuses same rest =
    Ends-moved _ m f (t ∷ u ∷ ts) moves (omega arith) λ c us p le.
      Ends-le (length us) (length (t ∷ u ∷ ts)) _ (omega arith) (rest c us p (omega arith))

counted_clause-Moves : (k : ℕ) → Moves (counted_clause k)
unfolding counted_clause
counted_clause-Moves k = search (moves_rules, tame_rules)

counted_clause-Refuses :
    (k : ℕ) → one_of k (number_token ∷ []) ≡ false → Refuses k (counted_clause k)
unfolding counted_clause
counted_clause-Refuses k other = search (keeps_rules, refuses_rules)

parse_for_update-Moves : Moves parse_for_update
unfolding parse_for_update
parse_for_update-Moves = search (moves_rules, tame_rules)

parse_for_update-Refuses : Refuses for_token parse_for_update
unfolding parse_for_update one_of
parse_for_update-Refuses = search (keeps_rules, refuses_rules)

parse_order_by-Refuses : Refuses order_token parse_order_by
unfolding parse_order_by one_of
parse_order_by-Refuses = search (keeps_rules, refuses_rules)

clauses_loop-Ends :
    (w : Bool) (s : Decl) (n : ℕ) (ts : Tokens)
    → 0 < length ts
    → length ts < n
    → Ends (length ts) (clauses_loop n w s ts)
unfolding clauses_loop cur
clauses_loop-Ends w s zero ts pos lt = absurd (omega arith)
clauses_loop-Ends w s (suc n) [] pos lt = absurd (omega arith)
clauses_loop-Ends w s (suc n) (t ∷ ts) pos lt = Ends-current _ _ t ts (
    Ends-when _ (t.kind == where_token) _ _ (t ∷ ts)
      (λ same.
        chosen-Ends where_token parse_where _ t ts parse_where-Moves parse_where-Refuses same
          λ c us p le. clauses_loop-Ends true (add s c) n us p (omega arith))
      (Ends-when _ (t.kind == order_token) _ _ (t ∷ ts)
        (λ same.
          chosen-Ends order_token parse_order_by _ t ts parse_order_by-Moves parse_order_by-Refuses
            same
            λ c us p le.
              clauses_loop-Ends w (add (if w then s else add s implicit_where) c) n us p
                (omega arith))
        (Ends-when _ (t.kind == limit_token) _ _ (t ∷ ts)
          (λ same.
            chosen-Ends limit_token (counted_clause limit_token) _ t ts
              (counted_clause-Moves limit_token)
              (counted_clause-Refuses limit_token (unfold one_of in refl)) same
              λ c us p le. clauses_loop-Ends w (add s c) n us p (omega arith))
          (Ends-when _ (t.kind == offset_token) _ _ (t ∷ ts)
            (λ same.
              chosen-Ends offset_token (counted_clause offset_token) _ t ts
                (counted_clause-Moves offset_token)
                (counted_clause-Refuses offset_token (unfold one_of in refl)) same
                λ c us p le. clauses_loop-Ends w (add s c) n us p (omega arith))
            (Ends-when _ (t.kind == for_token) _ _ (t ∷ ts)
              (λ same.
                chosen-Ends for_token parse_for_update _ t ts parse_for_update-Moves
                  parse_for_update-Refuses same
                  λ c us p le. clauses_loop-Ends w (add s c) n us p (omega arith))
              (Ends-Tame _ (pure s) (t ∷ ts) (search tame_rules) pos (omega arith)))))))

joins_body-Tame :
    (s : Decl) (f : Decl → Parse Decl)
    → ((j : Decl) → Tame (f j))
    → Tame (fuel >>= λ n. joins_loop n s >>= f)
joins_body-Tame s f = fuel_then-Tame (λ n. joins_loop n s) f (joins_loop-Ends s)

clauses_body-Tame : (s : Decl) → Tame (fuel >>= λ n. clauses_loop n false s)
clauses_body-Tame s = fuel_loop-Tame (λ n. clauses_loop n false s) (clauses_loop-Ends false s)

select_clauses-Tame : (s : Decl) → Tame (select_clauses s)
unfolding select_clauses
select_clauses-Tame s = search (joins_body-Tame, clauses_body-Tame)

tables_body-Tame :
    (d : Decl) (f : Decl × Bool → Parse Decl)
    → ((r : Decl × Bool) → Tame (f r))
    → Tame (fuel >>= λ n. tables_loop n d >>= f)
tables_body-Tame d f = fuel_then-Tame (λ n. tables_loop n d) f (tables_loop-Ends d)

pub parse_select-Moves : Moves parse_select
unfolding parse_select
parse_select-Moves =
    search (moves_rules, tame_rules, select_head-Tame, tables_body-Tame, select_clauses-Tame) depth
      12
