-- ===== src/Executor/Rows/Marks.antt =====
-- The arguments that the question marks of INSERT and UPDATE stand for.
use mathlib.Core.Path.{subst}
use ramsql.Base.{
  ℕ, suc, ◌≡◌, refl, sym, ◌∙◌, List, [], ◌∷◌, ◌++◌, map, length, append_assoc, length-append, arith,
}
use ramsql.Base.Bytes.{Bytes, codes, str_eq, to_lower}
use ramsql.Base.Dict
use ramsql.Base.Dict.{Dict}
use ramsql.Base.Outcome.{ok}
use ramsql.Value.{Value}
use ramsql.Parser.Token.{arg_token, string_token}
use ramsql.Parser.Tree.{Decl, node, nil, cons}
use ramsql.Transaction.{Session}
use ramsql.Executor.Values.{NamedValue, argument, argument_at, numbered}
use ramsql.Executor.Statement.{Env}
use ramsql.Executor.Rows.{row_value, get_values, set_value, get_set, get_sets}

abbrev pub question_mark : Decl
question_mark = node arg_token (codes "?") nil

-- A row of VALUES of n question marks.
abbrev pub question_marks : ℕ → List Decl
question_marks ℕ.zero = []
question_marks (suc n) = question_mark ∷ question_marks n

-- The columns, in lower case, with the arguments in their order.
abbrev pub assigned : List Bytes → List NamedValue → Dict Value → Dict Value
assigned [] args values = values
assigned (a ∷ as') [] values = values
assigned (a ∷ as') (v ∷ args) values = assigned as' args (Dict.insert (to_lower a) v.value values)

argument_at-behind :
    (pre args : List NamedValue) (v : NamedValue)
    → argument_at (pre ++ v ∷ args) (length pre) ≡ ok v.value
argument_at-behind [] args v = refl
argument_at-behind (x ∷ pre) args v = argument_at-behind pre args v

row_value-mark :
    (env : Env) (pre args : List NamedValue) (v : NamedValue)
    → env.args ≡ pre ++ v ∷ args
    → row_value env question_mark (suc (length pre)) ≡ ok (v.value, suc (suc (length pre)))
unfolding row_value numbered argument str_eq
row_value-mark env pre args v h = ground (arith, h, argument_at-behind pre args v)

get_values-behind :
    (env : Env) (attrs : List Bytes) (pre args : List NamedValue) (values : Dict Value)
    → env.args ≡ pre ++ args
    → length args ≡ length attrs
    → get_values env attrs (question_marks (length attrs)) (suc (length pre)) values
      ≡ ok (assigned attrs args values)
unfolding get_values str_eq
get_values-behind env [] pre args values h n = refl
get_values-behind env (a ∷ as') pre [] values h n = absurd (omega (arith, n))
get_values-behind env (a ∷ as') pre (v ∷ args) values h n =
    let later =
      subst
        (λ k.
          get_values env as' (question_marks (length as')) (suc k)
            (Dict.insert (to_lower a) v.value values)
          ≡ ok (assigned as' args (Dict.insert (to_lower a) v.value values)))
        (length-append pre (v ∷ []) ∙ omega arith)
        (get_values-behind env as' (pre ++ v ∷ []) args (Dict.insert (to_lower a) v.value values)
          (h ∙ sym (append_assoc pre (v ∷ []) args)) (omega (arith, n))) in
    rw (row_value-mark env pre args v h) later

-- INSERT with a question mark for every column, and as many arguments: each column, in lower case, is
-- given the argument at its position.
pub get_values-question_marks :
    (env : Env) (attrs : List Bytes)
    → length env.args ≡ length attrs
    → get_values env attrs (question_marks (length attrs)) 1 [] ≡ ok (assigned attrs env.args [])
get_values-question_marks env attrs n = get_values-behind env attrs [] env.args [] refl n

-- The assignment `name = ?`
abbrev pub set_mark : Bytes → Decl
set_mark name =
    node string_token name (cons (node string_token (codes "=") nil) (cons question_mark nil))

abbrev pub all_to : Value → List Bytes → Dict Value → Dict Value
all_to v [] values = values
all_to v (name ∷ names) values = all_to v names (Dict.insert name v values)

-- UPDATE gives every question mark of SET the first argument, whatever the number of assignments.
pub get_sets-first_argument :
    (env : Env) (v : NamedValue) (args : List NamedValue) (names : List Bytes) (values : Dict Value)
    (s : Session)
    → env.args ≡ v ∷ args
    → get_sets env (map set_mark names) values s ≡ (ok (all_to v.value names values), s)
unfolding get_sets get_set set_value numbered argument str_eq
get_sets-first_argument env v args [] values s h = refl
get_sets-first_argument env v args (name ∷ names) values s h =
    ground (arith, h, get_sets-first_argument env v args names (Dict.insert name v.value values) s)
