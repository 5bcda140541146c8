-- ===== src/Parser/Statements/Ends.antt =====
-- The parsers of conditions, assignments and rows end, and with them UPDATE, INSERT, DELETE and
-- TRUNCATE.
use ramsql.Base.{ℕ, zero, suc, ◌≤◌, ◌<◌, refl, Bool, true, false, not, ◌&&◌, [], ◌∷◌, length, arith}
use ramsql.Parser.Token.{
  one_of, order_token, limit_token, for_token, where_token, comma_token, bracket_opening_token,
}
use ramsql.Parser.Tree.{Decl, add, Tokens, Parse, pure, ◌>>=◌, is, has_next, consume, fuel, hang}
use ramsql.Parser.Tame.{Ends, Ends-le, Tame, Tame-is, Tame-has_next, Tame-consume, tame_rules}
use ramsql.Parser.Tame.Moves.{
  Moves, Moves-consume, Moves-Tame, fewer, moves_rules, Ends-Tame, Ends-if, Ends-behind, Ends-moved,
}
use ramsql.Parser.Tame.Single.{
  Keeps-consume, Keeps-is, Refuses, Refuses-first, Refuses-if, Refuses-is, Refuses-cur,
  Refuses-unless, Refuses-has_next, refuses_rules, keeps_rules, Ends-one, Ends-refused,
  consume-kind,
}
use ramsql.Parser.Terms.{
  bracket_list, list_loop, parse_list_element, parse_attribute, parse_attribution,
}
use ramsql.Parser.Terms.Ends.{
  parse_attribute-Tame, parse_attribute-Moves, parse_attribute-Refuses, parse_table_name-Tame,
  parse_quoted_token-Tame, parse_value-Tame, parse_attribution-Moves, parse_list_element-Refuses,
}
use ramsql.Parser.Terms.Lists.{parse_in-Tame, elements-Tame, fuel_loop-Tame, fuel_then-Tame}
use ramsql.Parser.Statements.{
  is_one, next_is_one, condition_one, condition_not, condition_is, condition_value,
  condition_operator, parse_condition, link, where_loop, parse_where, optional_comma, set_loop,
  parse_update, rows_loop, parse_returning, parse_insert, parse_delete, parse_truncate,
}

next_is_one-Tame : Tame next_is_one
unfolding next_is_one
next_is_one-Tame = record { at = go }
  where
    go : (ts : Tokens) → 0 < length ts → Ends (length ts) (next_is_one ts)
    go [] h = absurd (omega arith)
    go (t ∷ []) h = omega arith
    go (t ∷ u ∷ ts) h = omega arith

condition_one-Tame : (d : Decl) → Tame (condition_one d)
unfolding condition_one
condition_one-Tame d = search (tame_rules, next_is_one-Tame) depth 20 fits 4000

condition_one-Moves : (d : Decl) → Moves (condition_one d)
unfolding condition_one
condition_one-Moves d = search (moves_rules, tame_rules, next_is_one-Tame) depth 20 fits 4000

condition_not-Tame : (a : Decl) → Tame (condition_not a)
unfolding condition_not
condition_not-Tame a = search (tame_rules, parse_in-Tame) depth 12

condition_is-Tame : (a : Decl) → Tame (condition_is a)
unfolding condition_is
condition_is-Tame a = search tame_rules depth 20 fits 4000

condition_value-Tame : (b : Bool) (a : Decl) → Tame (condition_value b a)
unfolding condition_value
condition_value-Tame b a = search (tame_rules, parse_value-Tame) depth 12

condition_operator-Tame : (b : Bool) (a : Decl) → Tame (condition_operator b a)
unfolding condition_operator
condition_operator-Tame b a =
    search (tame_rules, parse_in-Tame, condition_not-Tame, condition_is-Tame, condition_value-Tame)
      depth 20 fits 4000

parse_condition-Moves : Moves parse_condition
unfolding parse_condition
parse_condition-Moves =
    search
      (
        moves_rules, tame_rules, condition_one-Moves, condition_operator-Tame, parse_attribute-Tame,
        parse_attribute-Moves,
      )
      depth 20 fits 4000

link-Tame : (d : Decl) (b : Bool) → Tame (link d b)
link-Tame d true = search tame_rules
link-Tame d false = search tame_rules

where_loop-step :
    (n : ℕ) (got : Bool) (d : Decl) (ts : Tokens)
    → 0 < length ts
    → ((c : Decl) (us : Tokens)
        → 0 < length us
        → length us ≤ fewer (length ts)
        → Ends (length ts) (where_loop n true c us))
    → Ends (length ts) (where_loop (suc n) got d ts)
unfolding where_loop
where_loop-step n got d ts pos rest = Ends-behind _ has_next _ ts Tame-has_next pos λ more us p le.
    Ends-behind _ (is (order_token ∷ limit_token ∷ for_token ∷ [])) _ us (Tame-is _) p
      λ stop vs p' le'.
        Ends-if _ (not more && got) _ _ vs
          (Ends-Tame _ (pure d) vs (search tame_rules) p' (omega arith))
          (Ends-if _ stop _ _ vs (Ends-Tame _ (pure d) vs (search tame_rules) p' (omega arith)) (
            Ends-moved _ parse_condition _ vs parse_condition-Moves p' λ c ws q lq.
              Ends-behind _ (is _) _ ws (Tame-is _) q λ linked xs q' lq'.
                Ends-behind _ (link (add d c) linked) _ xs (link-Tame _ linked) q'
                  λ d' ys r lr. rest d' ys r (omega arith)))

where_loop-Ends :
    (n : ℕ) (d : Decl) (ts : Tokens)
    → 0 < length ts
    → length ts ≤ n
    → Ends (length ts) (where_loop n true d ts)
where_loop-Ends zero d ts pos le = absurd (omega arith)
where_loop-Ends (suc n) d [] pos le = absurd (omega arith)
where_loop-Ends (suc n) d (t ∷ []) pos le = unfold where_loop ◌>>=◌ has_next is pure in omega arith
where_loop-Ends (suc n) d (t ∷ u ∷ ts) pos le =
    where_loop-step n true d (t ∷ u ∷ ts) pos λ c us p lt.
      Ends-le (length us) (length (t ∷ u ∷ ts)) _ (omega arith)
        (where_loop-Ends n c us p (omega arith))

where-Ends :
    (d : Decl) (n : ℕ) (ts : Tokens)
    → 0 < length ts
    → length ts < n
    → Ends (length ts) (where_loop n false d ts)
where-Ends d zero ts pos lt = absurd (omega arith)
where-Ends d (suc n) ts pos lt = where_loop-step n false d ts pos λ c us p le.
    Ends-le (length us) (length ts) _ (omega arith) (where_loop-Ends n c us p (omega arith))

where_body-Tame : (d : Decl) → Tame (fuel >>= λ n. where_loop n false d)
where_body-Tame d = fuel_loop-Tame (λ n. where_loop n false d) (where-Ends d)

pub parse_where-Moves : Moves parse_where
unfolding parse_where
parse_where-Moves = search (moves_rules, tame_rules, where_body-Tame)

pub parse_where-Tame : Tame parse_where
parse_where-Tame = Moves-Tame parse_where parse_where-Moves

-- WHERE alone is refused.
attribute-Refuses-where : Refuses where_token parse_attribute
attribute-Refuses-where = parse_attribute-Refuses where_token (unfold one_of in refl)

parse_condition-Refuses : Refuses where_token parse_condition
unfolding parse_condition
parse_condition-Refuses = Refuses-cur where_token _ λ t same.
    Refuses-is where_token (bracket_opening_token ∷ []) _ (
      Refuses-unless where_token (is_one t) _ _ (ground (arith, same)) (
        Refuses-if where_token (one_of where_token (bracket_opening_token ∷ [])) _ _
          (search (keeps_rules, refuses_rules, attribute-Refuses-where))
          (search (keeps_rules, refuses_rules, attribute-Refuses-where))))

where_loop-Refuses : (n : ℕ) (d : Decl) → Refuses where_token (where_loop n false d)
unfolding where_loop
where_loop-Refuses zero d = record { refused = λ t same. unfold hang in tt }
where_loop-Refuses (suc n) d = Refuses-has_next where_token _ (
    Refuses-is where_token (order_token ∷ limit_token ∷ for_token ∷ []) _ (
      Refuses-unless where_token (one_of where_token (order_token ∷ limit_token ∷ for_token ∷ [])) _
        _ (unfold one_of in refl)
        (Refuses-first where_token parse_condition _ parse_condition-Refuses)))

pub parse_where-Refuses : Refuses where_token parse_where
unfolding parse_where
parse_where-Refuses = search (keeps_rules, refuses_rules, where_loop-Refuses)

optional_comma-Tame : Tame optional_comma
optional_comma-Tame = search tame_rules depth 8

set_loop-step :
    (n : ℕ) (got : Bool) (d : Decl) (ts : Tokens)
    → 0 < length ts
    → ((s : Decl) (us : Tokens)
        → 0 < length us
        → length us ≤ fewer (length ts)
        → Ends (length ts) (set_loop n true s us))
    → Ends (length ts) (set_loop (suc n) got d ts)
unfolding set_loop
set_loop-step n got d ts pos rest =
    Ends-behind _ (is (where_token ∷ [])) _ ts (Tame-is _) pos λ stop us p le.
      Ends-behind _ has_next _ us Tame-has_next p λ more vs p' le'.
        Ends-if _ stop _ _ vs (Ends-Tame _ (pure d) vs (search tame_rules) p' (omega arith)) (
          Ends-if _ (not more && got) _ _ vs
            (Ends-Tame _ (pure d) vs (search tame_rules) p' (omega arith))
            (Ends-moved _ parse_attribution _ vs parse_attribution-Moves p' λ a ws q lq.
              Ends-behind _ optional_comma _ ws optional_comma-Tame q
                λ found xs q' lq'. rest (add d a) xs q' (omega arith)))

set_loop-Ends :
    (n : ℕ) (d : Decl) (ts : Tokens)
    → 0 < length ts
    → length ts ≤ n
    → Ends (length ts) (set_loop n true d ts)
set_loop-Ends zero d ts pos le = absurd (omega arith)
set_loop-Ends (suc n) d [] pos le = absurd (omega arith)
set_loop-Ends (suc n) d (t ∷ []) pos le =
    unfold set_loop in
    Ends-one (is (where_token ∷ [])) _ t (Tame-is _) (Keeps-is _) λ stop _.
      unfold ◌>>=◌ has_next pure in
      Ends-if 1 stop (pure d) (pure d) (t ∷ []) (omega arith) (omega arith)
set_loop-Ends (suc n) d (t ∷ u ∷ ts) pos le = set_loop-step n true d (t ∷ u ∷ ts) pos λ s us p lt.
    Ends-le (length us) (length (t ∷ u ∷ ts)) _ (omega arith) (set_loop-Ends n s us p (omega arith))

set-Ends :
    (d : Decl) (n : ℕ) (ts : Tokens)
    → 0 < length ts
    → length ts < n
    → Ends (length ts) (set_loop n false d ts)
set-Ends d zero ts pos lt = absurd (omega arith)
set-Ends d (suc n) ts pos lt = set_loop-step n false d ts pos λ s us p le.
    Ends-le (length us) (length ts) _ (omega arith) (set_loop-Ends n s us p (omega arith))

set_body-Tame :
    (d : Decl) (f : Decl → Parse Decl)
    → ((s : Decl) → Tame (f s))
    → Tame (fuel >>= λ n. set_loop n false d >>= f)
set_body-Tame d f = fuel_then-Tame (λ n. set_loop n false d) f (set-Ends d)

pub parse_update-Moves : Moves parse_update
unfolding parse_update
parse_update-Moves =
    search (moves_rules, tame_rules, set_body-Tame, parse_where-Tame, parse_quoted_token-Tame) depth
      12

elements_loop-Refuses :
    (n : ℕ) (d : Decl) → Refuses bracket_opening_token (list_loop parse_list_element n d)
unfolding list_loop
elements_loop-Refuses zero d = record { refused = λ t same. unfold hang in tt }
elements_loop-Refuses (suc n) d =
    Refuses-first bracket_opening_token parse_list_element _
      (parse_list_element-Refuses bracket_opening_token (unfold one_of in refl))

elements-Refuses : (d : Decl) → Refuses bracket_opening_token (bracket_list parse_list_element d)
unfolding bracket_list
elements-Refuses d = search (keeps_rules, refuses_rules, elements_loop-Refuses)

rows_loop-Ends :
    (n : ℕ) (d : Decl) (ts : Tokens)
    → 0 < length ts
    → length ts < n
    → Ends (length ts) (rows_loop n d ts)
unfolding rows_loop
rows_loop-Ends zero d ts pos lt = absurd (omega arith)
rows_loop-Ends (suc n) d [] pos lt = absurd (omega arith)
rows_loop-Ends (suc n) d (t ∷ []) pos lt =
    Ends-one (consume (bracket_opening_token ∷ [])) _ t (Tame-consume _) (Keeps-consume _)
      λ open' found.
        Ends-refused bracket_opening_token (bracket_list parse_list_element open') _ t
          (elements-Tame open') (elements-Refuses open')
          (consume-kind bracket_opening_token t _ found)
rows_loop-Ends (suc n) d (t ∷ u ∷ ts) pos lt =
    Ends-moved _ (consume (bracket_opening_token ∷ [])) _ (t ∷ u ∷ ts) (Moves-consume _) pos
      λ open' us p le.
        Ends-behind _ (bracket_list parse_list_element open') _ us (elements-Tame open') p
          λ row vs p' le'. Ends-behind _ (is (comma_token ∷ [])) _ vs (Tame-is _) p' λ more ws q lq.
            Ends-if _ more _ _ ws
              (Ends-behind _ (consume (comma_token ∷ [])) _ ws (Tame-consume _) q λ c xs q' lq'.
                Ends-le (length xs) (length (t ∷ u ∷ ts)) _ (omega arith)
                  (rows_loop-Ends n (add d row) xs q' (omega arith)))
              (Ends-Tame _ (pure (add d row)) ws (search tame_rules) q (omega arith))

parse_returning-Tame : (d : Decl) → Tame (parse_returning d)
unfolding parse_returning
parse_returning-Tame d = search (tame_rules, parse_attribute-Tame) depth 8

rows_body-Tame :
    (d : Decl) (f : Decl → Parse Decl)
    → ((s : Decl) → Tame (f s))
    → Tame (fuel >>= λ n. rows_loop n d >>= f)
rows_body-Tame d f = fuel_then-Tame (λ n. rows_loop n d) f (λ n. rows_loop-Ends n d)

pub parse_insert-Moves : Moves parse_insert
unfolding parse_insert
parse_insert-Moves =
    search
      (
        moves_rules, tame_rules, rows_body-Tame, elements-Tame, parse_table_name-Tame,
        parse_returning-Tame,
      )
      depth 20 fits 4000

pub parse_delete-Moves : Moves parse_delete
unfolding parse_delete
parse_delete-Moves =
    search (moves_rules, tame_rules, parse_where-Tame, parse_table_name-Tame) depth 12

pub parse_truncate-Moves : Moves parse_truncate
unfolding parse_truncate
parse_truncate-Moves = search (moves_rules, tame_rules, parse_quoted_token-Tame)
