-- ===== src/Parser/Terms/Lists.antt =====
-- The lists in brackets end.
use ramsql.Base.{ℕ, zero, suc, ◌<◌, refl, [], ◌∷◌, length, arith, if◌then◌else◌}
use ramsql.Parser.Token.{Token, one_of, comma_token, bracket_closing_token, asc_token, desc_token}
use ramsql.Parser.Tree.{Decl, add, Tokens, Parse, pure, ◌>>=◌, ◌>>◌, is, consume, fuel}
use ramsql.Parser.Tame.{Ends, Ends-le, Ends-bind, Tame, Tame-is, tame_rules}
use ramsql.Parser.Tame.Moves.{
  Moves, Moves-consume, moves_rules, Ends-Tame, Ends-if, Ends-behind, Ends-moved,
}
use ramsql.Parser.Tame.Single.{
  Keeps, Keeps-is, Refuses, Ends-one, Ends-unless, Refuses-result, keeps_rules,
}
use ramsql.Parser.Terms.{
  list_loop, bracket_list, parse_attribute, parse_value, parse_list_element, parse_in, order_loop,
  parse_order_by,
}
use ramsql.Parser.Terms.Ends.{
  parse_attribute-Tame, parse_attribute-Keeps, parse_attribute-Refuses, parse_value-Tame,
  parse_value-Keeps, parse_value-Refuses-comma, parse_list_element-Tame, parse_list_element-Keeps,
  parse_list_element-Refuses,
}

-- A loop on fuel, which is more than the tokens.
pub fuel_loop-Tame :
    {A : Type 0} (loop : ℕ → Parse A)
    → ((n : ℕ) (ts : Tokens) → 0 < length ts → length ts < n → Ends (length ts) (loop n ts))
    → Tame (fuel >>= loop)
unfolding fuel ◌>>=◌
fuel_loop-Tame loop h = record { at = λ ts pos. h (suc (length ts)) ts pos (omega arith) }

-- The same, where more follows the loop.
pub fuel_then-Tame :
    {A B : Type 0} (loop : ℕ → Parse A) (f : A → Parse B)
    → ((n : ℕ) (ts : Tokens) → 0 < length ts → length ts < n → Ends (length ts) (loop n ts))
    → ((a : A) → Tame (f a))
    → Tame (fuel >>= λ n. loop n >>= f)
fuel_then-Tame loop f h k =
    fuel_loop-Tame (λ n. loop n >>= f)
      λ n ts pos lt.
        Ends-bind (length ts) (length ts) (loop n) f ts (h n ts pos lt)
          λ a us e p le. Ends-Tame (length ts) (f a) us (k a) p le

module _ (element : Parse Decl) (tame : Tame element) (keeps : Keeps element)
    (refuses : Refuses comma_token element) where
  -- On a single token an element is read at most, since the element is not a comma.
  list_loop-one : (n : ℕ) (d : Decl) (t : Token) → Ends 1 (list_loop element (suc n) d (t ∷ []))
  unfolding list_loop
  list_loop-one n d t = Ends-one element _ t tame keeps λ e found.
      Ends-one (is (bracket_closing_token ∷ [])) _ t (Tame-is _) (Keeps-is _) λ last _.
        Ends-if 1 last _ _ (t ∷ [])
          (Ends-Tame 1 (consume (bracket_closing_token ∷ []) >> pure (add d e)) (t ∷ [])
            (search tame_rules) (omega arith) (omega arith))
          (Ends-unless comma_token (list_loop element n (add d e)) t
            (Refuses-result comma_token element t _ refuses found))

  pub list_loop-Ends :
      (n : ℕ) (d : Decl) (ts : Tokens)
      → 0 < length ts
      → length ts < n
      → Ends (length ts) (list_loop element n d ts)
  unfolding list_loop
  list_loop-Ends zero d ts pos lt = absurd (omega arith)
  list_loop-Ends (suc n) d [] pos lt = absurd (omega arith)
  list_loop-Ends (suc n) d (t ∷ []) pos lt = list_loop-one n d t
  list_loop-Ends (suc n) d (t ∷ u ∷ ts) pos lt =
      Ends-behind _ element _ (t ∷ u ∷ ts) tame pos λ e us p le.
        Ends-behind _ (is (bracket_closing_token ∷ [])) _ us (Tame-is _) p λ last vs p' le'.
          Ends-if _ last _ _ vs
            (Ends-Tame _ (consume (bracket_closing_token ∷ []) >> pure (add d e)) vs
              (search tame_rules) p' (omega arith))
            (Ends-moved _ (consume (comma_token ∷ [])) _ vs (Moves-consume _) p' λ c ws q lq.
              Ends-le (length ws) (length (t ∷ u ∷ ts)) _ (omega arith)
                (list_loop-Ends n (add d e) ws q (omega arith)))

  pub bracket_list-Tame : (d : Decl) → Tame (bracket_list element d)
  unfolding bracket_list
  bracket_list-Tame d = fuel_loop-Tame (λ n. list_loop element n d) (λ n. list_loop-Ends n d)

pub parse_in-Tame : Tame parse_in
unfolding parse_in
parse_in-Tame = search (
  tame_rules,
  bracket_list-Tame parse_value parse_value-Tame parse_value-Keeps parse_value-Refuses-comma,
)

pub elements-Tame : (d : Decl) → Tame (bracket_list parse_list_element d)
elements-Tame d =
    bracket_list-Tame parse_list_element parse_list_element-Tame parse_list_element-Keeps
      (parse_list_element-Refuses comma_token (unfold one_of in refl)) d

order_loop-one : (n : ℕ) (d : Decl) (t : Token) → Ends 1 (order_loop (suc n) d (t ∷ []))
unfolding order_loop
order_loop-one n d t =
    Ends-one parse_attribute _ t parse_attribute-Tame parse_attribute-Keeps λ a found.
      Ends-one (is (asc_token ∷ desc_token ∷ [])) _ t (Tame-is _) (Keeps-is _) λ directed _.
        Ends-one
          (if directed
            then (consume (asc_token ∷ desc_token ∷ []) >>= λ e. pure (add a e))
            else pure a)
          _ t (search tame_rules) (search keeps_rules)
          λ a' _. Ends-one (is (comma_token ∷ [])) _ t (Tame-is _) (Keeps-is _) λ more _.
            Ends-if 1 more _ _ (t ∷ [])
              (Ends-unless comma_token (order_loop n (add d a')) t (
                Refuses-result comma_token parse_attribute t _
                  (parse_attribute-Refuses comma_token (unfold one_of in refl)) found))
              (Ends-Tame 1 (pure (add d a')) (t ∷ []) (search tame_rules) (omega arith)
                (omega arith))

order_loop-Ends :
    (n : ℕ) (d : Decl) (ts : Tokens)
    → 0 < length ts
    → length ts < n
    → Ends (length ts) (order_loop n d ts)
unfolding order_loop
order_loop-Ends zero d ts pos lt = absurd (omega arith)
order_loop-Ends (suc n) d [] pos lt = absurd (omega arith)
order_loop-Ends (suc n) d (t ∷ []) pos lt = order_loop-one n d t
order_loop-Ends (suc n) d (t ∷ u ∷ ts) pos lt =
    Ends-behind _ parse_attribute _ (t ∷ u ∷ ts) parse_attribute-Tame pos λ a us p le.
      Ends-behind _ (is (asc_token ∷ desc_token ∷ [])) _ us (Tame-is _) p λ directed vs p' le'.
        Ends-behind _
          (if directed
            then (consume (asc_token ∷ desc_token ∷ []) >>= λ e. pure (add a e))
            else pure a)
          _ vs (search tame_rules) p'
          λ a' ws q lq. Ends-behind _ (is (comma_token ∷ [])) _ ws (Tame-is _) q λ more xs q' lq'.
            Ends-if _ more _ _ xs
              (Ends-moved _ (consume (comma_token ∷ [])) _ xs (Moves-consume _) q' λ c ys r lr.
                Ends-le (length ys) (length (t ∷ u ∷ ts)) _ (omega arith)
                  (order_loop-Ends n (add d a') ys r (omega arith)))
              (Ends-Tame _ (pure (add d a')) xs (search tame_rules) q' (omega arith))

order_body-Tame : (d : Decl) → Tame (fuel >>= λ n. order_loop n d)
order_body-Tame d = fuel_loop-Tame (λ n. order_loop n d) (λ n. order_loop-Ends n d)

pub parse_order_by-Moves : Moves parse_order_by
unfolding parse_order_by
parse_order_by-Moves = search (moves_rules, tame_rules, order_body-Tame)
