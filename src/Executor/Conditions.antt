-- ===== src/Executor/Conditions.antt =====
-- engine/executor/tx.go: the predicate of a WHERE clause (getPredicates, and, or, inExecutor,
-- notInExecutor, isExecutor, getAlias).
pub mod Precedence
use ramsql.Base.{
  ℕ, suc, Bool, true, false, ◌||◌, ◌==◌, Option, none, some, List, [], ◌∷◌, map, if◌then◌else◌,
}
use ramsql.Base.Int.{ℤ, pos}
use ramsql.Base.Bytes.{Bytes, codes, str_eq, to_lower}
use ramsql.Base.Dict.{Dict, lookup}
use ramsql.Base.Outcome
use ramsql.Base.Outcome.{Outcome, ok, err, panic, malformed, syntax_error}
use ramsql.Base.Exec.{Exec, pure, raise, lift, deref, ◌>>=◌, ◌>>◌}
use ramsql.Value.{Value, nil, str, Runtime}
use ramsql.Predicate.{
  Functor, const, attribute, PredicateType, eq, leq, geq, neq, le, ge, Predicate, truth, conj, disj,
  neg, comparison, is_eq, among, new_comparison,
}
use ramsql.Parser.Token.{
  one_of, is_token, in_token, equality_token, distinctness_token, left_diple_token,
  right_diple_token, less_or_equal_token, greater_or_equal_token, not_token, null_token,
  select_token, current_schema_token, named_arg_token, arg_token, and_token, or_token,
}
use ramsql.Parser.Tree.{Decl, Decls, node, nil, cons}
use ramsql.Executor.Values.{Texts, NamedValue, to_instance, type_name_from_token, named, numbered}
use ramsql.Transaction.{Session}
use ramsql.Transaction.Statements.{relation_attribute}

abbrev pub listed : Decls → List Decl
listed Decls.nil = []
listed (cons d ds) = d ∷ listed ds

abbrev pub kind_of : Decl → ℕ
kind_of (node k s ds) = k

abbrev pub lexeme_of : Decl → Bytes
lexeme_of (node k s ds) = s

abbrev pub below : Decl → List Decl
below (node k s ds) = listed ds

-- ds[0], ds[1] and ds[1:]
abbrev pub first_of : List Decl → Option Decl
first_of [] = none
first_of (d ∷ ds) = some d

abbrev pub others_of : List Decl → List Decl
others_of [] = []
others_of (d ∷ ds) = ds

-- getAlias
unfoldable pub get_alias : Bytes → Dict Bytes → Bytes
unfolding lookup
get_alias t aliases = elim (lookup t aliases) [ none ↦ t | some a ↦ a ]

-- inExecutor: the values of the list are the texts, whatever their kind.
unfoldable pub in_predicate : Bytes → Bytes → Decl → Exec Session Predicate
in_predicate rname aname d = elim (below d) [
  | [] ↦ raise syntax_error
  | e ∷ es ↦
      if kind_of e == select_token
      then raise malformed
      else pure (
          among (attribute rname aname)
            (ok (map (λ v. record { values = str (lexeme_of v) ∷ [] }) (e ∷ es))))
]

-- isExecutor
unfoldable pub is_predicate : Bytes → Bytes → Decl → Exec Session Predicate
is_predicate rname aname d =
    let null : Predicate = comparison is_eq (attribute rname aname) (const nil) in
    deref (first_of (below d)) >>= λ e.
    if kind_of e == null_token
    then pure null
    else if kind_of e == not_token
    then (deref (first_of (others_of (below d))) >>= λ f.
        if kind_of f == null_token then pure (neg null) else raise syntax_error)
    else raise syntax_error

-- What a statement is run with.
pub record Context : Type 0 where
  pub runtime : Runtime
  pub texts : Texts
  pub schema : Bytes
  pub table : Bytes
  pub args : List NamedValue
  pub aliases : Dict Bytes

-- The functor on the left. `$n` and `?` read the text of the right operand.
unfoldable pub left_operand : Context → Bytes → Bytes → Decl → Decl → Outcome (Functor × ℕ)
unfolding numbered named
left_operand c rname aname l r =
    if kind_of l == current_schema_token
    then ok (const (str c.schema), 1)
    else if kind_of l == named_arg_token
    then (Outcome.◌>>=◌ (named c.args (lexeme_of l)) λ v. ok (const v, 1))
    else if kind_of l == arg_token
    then (Outcome.◌>>=◌ (numbered c.texts c.args (lexeme_of r) 1) λ (v, n). ok (const v, n))
    else ok (attribute rname aname, 1)

-- The functor on the right, if it is set. CURRENT_SCHEMA sets the left one instead.
unfoldable pub right_operand : Context → Functor → ℕ → Decl → Outcome (Functor × Option Functor)
unfolding numbered named to_instance type_name_from_token
right_operand c l next r =
    if kind_of r == current_schema_token
    then ok (const (str c.schema), none)
    else if kind_of r == named_arg_token
    then (Outcome.◌>>=◌ (named c.args (lexeme_of r)) λ v. ok (l, some (const v)))
    else if kind_of r == arg_token
    then (Outcome.◌>>=◌ (numbered c.texts c.args (lexeme_of r) next)
        λ (v, n). ok (l, some (const v)))
    else (Outcome.◌>>=◌
        (to_instance c.runtime c.texts (lexeme_of r) (type_name_from_token (kind_of r)))
        λ v. ok (l, some (const v)))

unfoldable pub comparison_type : ℕ → Outcome PredicateType
comparison_type k =
    if k == equality_token
    then ok eq
    else if k == less_or_equal_token
    then ok leq
    else if k == greater_or_equal_token
    then ok geq
    else if k == distinctness_token
    then ok neq
    else if k == left_diple_token
    then ok le
    else if k == right_diple_token
    then ok ge
    else err malformed

-- NewComparisonPredicate; a nil functor on the right is stored, and panics when it is used.
abbrev pub compare_with_type : PredicateType → Functor × Option Functor → Outcome Predicate
compare_with_type t (l, none) = panic
compare_with_type t (l, some r) = new_comparison l t r

unfoldable pub compare_operands : Context → Bytes → Bytes → Decl → Decl → Decl → Outcome Predicate
unfolding left_operand right_operand comparison_type new_comparison
compare_operands c rname aname l op r =
    Outcome.◌>>=◌ (left_operand c rname aname l r) λ (left, next).
      Outcome.◌>>=◌ (right_operand c left next r)
        λ operands. Outcome.◌>>=◌ (comparison_type (kind_of op)) λ t. compare_with_type t operands

abbrev operators : List ℕ
operators =
    is_token ∷ in_token ∷ equality_token ∷ distinctness_token ∷ left_diple_token ∷ right_diple_token
    ∷ less_or_equal_token ∷ greater_or_equal_token ∷ []

-- cond.Decl[0].Token == NotToken && cond.Decl[0].Decl[0].Token == InToken
unfoldable pub negates_in : Decl → Exec Session (Option Decl)
negates_in d =
    if kind_of d == not_token
    then (deref (first_of (below d)) >>= λ e.
        if kind_of e == in_token then pure (some e) else pure none)
    else pure none

-- The comparison, where the second operand is there.
abbrev pub compared_with :
    Context → Bytes → Bytes → Decl → Decl → Option Decl → Exec Session Predicate
compared_with c rname aname l op none = raise malformed
compared_with c rname aname l op (some r) = lift (compare_operands c rname aname l op r)

-- A condition on the column, with what stands below it and behind the table.
unfoldable pub column_condition : Context → Bytes → Decl → List Decl → Exec Session Predicate
unfolding get_alias in_predicate is_predicate negates_in compare_operands relation_attribute
column_condition c table cond parts = do
  let aname = to_lower (lexeme_of cond)
  let rname = get_alias table c.aliases
  relation_attribute c.schema rname aname
  op ← deref (first_of parts)
  negated ← if kind_of op == in_token then pure none else negates_in op
  if kind_of op == in_token then in_predicate rname aname op else elim negated [
    | some e ↦ (in_predicate rname aname e >>= λ p. pure (neg p))
    | none ↦
        if kind_of op == is_token
        then is_predicate rname aname op
        else compared_with c rname aname cond op (first_of (others_of parts))
  ]

-- One condition: what follows the split in getPredicates. What is no operator names the table.
unfoldable pub condition : Context → Decl → Exec Session Predicate
unfolding column_condition
condition c cond =
    if str_eq (lexeme_of cond) (codes "1")
    then pure truth
    else (deref (first_of (below cond)) >>= λ d.
        if one_of (kind_of d) operators
        then column_condition c c.table cond (below cond)
        else column_condition c (lexeme_of d) cond (others_of (below cond)))

-- getPredicates: it splits at the first link, and what stands before it has none.
unfoldable pub split : Context → Option Decl → List Decl → Exec Session Predicate
unfolding condition
split c front [] = deref front >>= condition c
split c front (d ∷ ds) =
    let joined : (Predicate → Predicate → Predicate) → Exec Session Predicate = λ f. elim ds [
      | [] ↦ raise malformed
      | _ ∷ _ ↦ elim front [
        | none ↦ raise malformed
        | some e ↦ condition c e >>= λ p. split c none ds >>= λ q. pure (f p q)
      ]
    ] in
    if kind_of d == and_token
    then joined conj
    else if kind_of d == or_token
    then joined disj
    else split c (elim front [ none ↦ some d | some e ↦ some e ]) ds

unfoldable pub get_predicates : Context → List Decl → Exec Session Predicate
unfolding split
get_predicates c ds = split c none ds
