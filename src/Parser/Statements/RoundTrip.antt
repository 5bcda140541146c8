-- ===== src/Parser/Statements/RoundTrip.antt =====
-- The tokens of a list of elements in brackets are parsed to its declarations.
pub mod Insert
use ramsql.Base.{
  ℕ, zero, suc, ◌≤◌, ◌<◌, ◌≡◌, refl, ap, ◌∙◌, Bool, true, false, List, [], ◌∷◌, map, All, length,
  arith, if◌then◌else◌,
}
use ramsql.Base.Bytes.{Bytes, codes}
use ramsql.Base.Outcome.{Outcome, ok, err, panic, blocked}
use ramsql.Parser.Token.{
  Token, token, one_of, default_token, float_token, string_token, number_token, null_token,
  date_token, now_token, arg_token, named_arg_token, false_token, simple_quote_token, comma_token,
  bracket_opening_token, bracket_closing_token, insert_token, into_token, values_token,
  returning_token,
}
use ramsql.Parser.Tree.{
  Decl, new_decl, add, add_all, Tokens, Parse, pure, ◌>>=◌, ◌>>◌, is, consume, fuel,
}
use ramsql.Parser.Terms.{
  quotes, quoted_value, parse_list_element, list_loop, bracket_list, parse_table_name,
}
use ramsql.Parser.Statements.{rows_loop, parse_returning, parse_insert}

-- An element of a list: a token alone, or a token in single quotes.
pub data Element : Type 0 where
  bare quoted : Token → Element

abbrev pub value_kinds : List ℕ
value_kinds =
    float_token ∷ string_token ∷ number_token ∷ null_token ∷ date_token ∷ now_token ∷ arg_token
    ∷ named_arg_token ∷ false_token ∷ []

abbrev pub IsElement : Element → Type 0
IsElement (bare t) = one_of t.kind (default_token ∷ value_kinds) ≡ true
IsElement (quoted t) = one_of t.kind value_kinds ≡ true

abbrev pub element_decl : Element → Decl
element_decl (bare t) = new_decl t
element_decl (quoted t) = new_decl t

abbrev pub quote_mark : Token
quote_mark = token simple_quote_token (codes "'")

abbrev pub comma : Token
comma = token comma_token (codes ",")

abbrev pub opening : Token
opening = token bracket_opening_token (codes "(")

abbrev pub closing_mark : Token
closing_mark = token bracket_closing_token (codes ")")

abbrev pub insert_word : Token
insert_word = token insert_token (codes "insert")

abbrev pub into_word : Token
into_word = token into_token (codes "into")

abbrev pub values_word : Token
values_word = token values_token (codes "values")

-- The tokens of an element, with what follows.
abbrev pub print_element : Element → Tokens → Tokens
print_element (bare t) rest = t ∷ rest
print_element (quoted t) rest = quote_mark ∷ t ∷ quote_mark ∷ rest

pub bind-ok :
    {A B : Type 0} (m : Parse A) (f : A → Parse B) (ts us : Tokens) (a : A)
    → m ts ≡ ok (a, us)
    → (m >>= f) ts ≡ f a us
unfolding ◌>>=◌
bind-ok {A} {B} m f ts us a h =
    ap
      (λ r. elim r as (λ _. Outcome (B × Tokens)) [
        | ok (a, us) ↦ f a us
        | err e ↦ err e
        | panic ↦ panic
        | blocked ↦ blocked
      ])
      h

pub consume-prints :
    (t : Token) (kinds : List ℕ) (us : Tokens)
    → one_of t.kind kinds ≡ true
    → 0 < length us
    → consume kinds (t ∷ us) ≡ ok (new_decl t, us)
unfolding consume ramsql.Parser.Tree.skip
consume-prints t kinds [] h pos = absurd (omega arith)
consume-prints t kinds (u ∷ us) h pos = rw h

pub choice :
    {A : Type 0} (kinds : List ℕ) (m n : Parse A) (t : Token) (us : Tokens)
    (r : Outcome (A × Tokens))
    → (one_of t.kind kinds ≡ true → m (t ∷ us) ≡ r)
    → (one_of t.kind kinds ≡ false → n (t ∷ us) ≡ r)
    → (is kinds >>= λ found. if found then m else n) (t ∷ us) ≡ r
unfolding is ◌>>=◌
choice {A} kinds m n t us r h k = go (one_of t.kind kinds) h k
  where
    go :
        (b : Bool)
        → (b ≡ true → m (t ∷ us) ≡ r)
        → (b ≡ false → n (t ∷ us) ≡ r)
        → (if b then m else n) (t ∷ us) ≡ r
    go true h k = h refl
    go false h k = k refl

not_quote : (k : ℕ) → one_of k (default_token ∷ value_kinds) ≡ true → one_of k quotes ≡ true → ⊥
unfolding one_of
not_quote k h q = ground arith

value_kind :
    (k : ℕ)
    → one_of k (default_token ∷ value_kinds) ≡ true
    → one_of k (default_token ∷ []) ≡ false
    → one_of k value_kinds ≡ true
unfolding one_of
value_kind k h other = ground arith

pub element-prints :
    (e : Element) (u : Token) (us : Tokens)
    → IsElement e
    → parse_list_element (print_element e (u ∷ us)) ≡ ok (element_decl e, u ∷ us)
unfolding parse_list_element quoted_value
element-prints (bare t) u us h =
    choice (default_token ∷ []) _ _ t (u ∷ us) _
      (λ default'. consume-prints t (default_token ∷ []) (u ∷ us) default' (omega arith))
      (λ other.
        choice quotes _ _ t (u ∷ us) _ (λ q. absurd (not_quote t.kind h q))
          (λ _. consume-prints t value_kinds (u ∷ us) (value_kind t.kind h other) (omega arith)))
element-prints (quoted t) u us h =
    unfold ◌>>=◌ is one_of in
    bind-ok (consume quotes) _ (quote_mark ∷ t ∷ quote_mark ∷ u ∷ us) _ _
      (consume-prints quote_mark quotes (t ∷ quote_mark ∷ u ∷ us) refl (omega arith))
    ∙ bind-ok (consume value_kinds) _ (t ∷ quote_mark ∷ u ∷ us) _ _
        (consume-prints t value_kinds (quote_mark ∷ u ∷ us) h (omega arith))
    ∙ bind-ok (consume quotes) _ (quote_mark ∷ u ∷ us) _ _
        (consume-prints quote_mark quotes (u ∷ us) refl (omega arith))
    ∙ unfold pure in refl

-- The elements of a list with commas between them, the closing bracket, and what follows.
abbrev pub print_list : Element → List Element → Tokens → Tokens
print_list e [] rest = print_element e (closing_mark ∷ rest)
print_list e (f ∷ es) rest = print_element e (comma ∷ print_list f es rest)

abbrev pub element_decls : List Element → List Decl
element_decls es = map element_decl es

pub print_list-pos :
    (e : Element) (es : List Element) (rest : Tokens) → length es < length (print_list e es rest)
print_list-pos (bare t) [] rest = omega arith
print_list-pos (quoted t) [] rest = omega arith
print_list-pos (bare t) (f ∷ es) rest = omega (arith, print_list-pos f es rest)
print_list-pos (quoted t) (f ∷ es) rest = omega (arith, print_list-pos f es rest)

list_loop-prints :
    (e : Element) (es : List Element) (n : ℕ) (d : Decl) (r : Token) (rest : Tokens)
    → All IsElement (e ∷ es)
    → length es < n
    → list_loop parse_list_element n d (print_list e es (r ∷ rest))
      ≡ ok (add_all d (element_decls (e ∷ es)), r ∷ rest)
unfolding list_loop ◌>>=◌ is one_of consume pure ramsql.Parser.Tree.skip
list_loop-prints e es zero d r rest good lt = absurd (omega arith)
list_loop-prints e [] (suc n) d r rest good lt =
    bind-ok parse_list_element _ (print_element e (closing_mark ∷ r ∷ rest)) _ _
      (element-prints e closing_mark (r ∷ rest) good.0)
    ∙ refl
list_loop-prints e (f ∷ es) (suc n) d r rest good lt =
    bind-ok parse_list_element _ (print_element e (comma ∷ print_list f es (r ∷ rest))) _ _
      (element-prints e comma (print_list f es (r ∷ rest)) good.0)
    ∙ (bind-ok (consume (comma_token ∷ []))
        (λ _. list_loop parse_list_element n (add d (element_decl e)))
        (comma ∷ print_list f es (r ∷ rest)) _ _
        (consume-prints comma (comma_token ∷ []) (print_list f es (r ∷ rest)) refl
          (omega (arith, print_list-pos f es (r ∷ rest)))))
    ∙ list_loop-prints f es n (add d (element_decl e)) r rest good.1 (omega arith)

pub bracket_list-prints :
    (e : Element) (es : List Element) (d : Decl) (r : Token) (rest : Tokens)
    → All IsElement (e ∷ es)
    → bracket_list parse_list_element d (print_list e es (r ∷ rest))
      ≡ ok (add_all d (element_decls (e ∷ es)), r ∷ rest)
unfolding bracket_list fuel ◌>>=◌
bracket_list-prints e es d r rest good =
    list_loop-prints e es (suc (length (print_list e es (r ∷ rest)))) d r rest good
      (omega (arith, print_list-pos e es (r ∷ rest)))

pub print_list-rest :
    (e : Element) (es : List Element) (rest : Tokens) → length rest < length (print_list e es rest)
print_list-rest (bare t) [] rest = omega arith
print_list-rest (quoted t) [] rest = omega arith
print_list-rest (bare t) (f ∷ es) rest = omega (arith, print_list-rest f es rest)
print_list-rest (quoted t) (f ∷ es) rest = omega (arith, print_list-rest f es rest)
