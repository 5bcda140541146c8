-- ===== src/Executor/Statement.antt =====
-- engine/executor: what every executor is given and returns, and the searches in a declaration tree.
use ramsql.Base.{ℕ, Bool, false, ◌||◌, ◌==◌, Option, none, some, List, [], ◌∷◌, if◌then◌else◌}
use ramsql.Base.Int.{ℤ, pos}
use ramsql.Base.Bytes.{Bytes}
use ramsql.Base.Exec.{Exec, deref}
use ramsql.Value.{Runtime}
use ramsql.Tuple.{Tuple}
use ramsql.Parser.Token.{if_token, not_token, exists_token}
use ramsql.Parser.Tree.{Decl, Decls, node, nil, cons}
use ramsql.Query.Order.{Orders}
use ramsql.Transaction.{Session}
use ramsql.Executor.Values.{Texts, NamedValue}
use ramsql.Executor.Conditions.{kind_of, below, first_of, others_of}

-- The environment of an executor: Go's run time and packages, and the arguments of the statement.
pub record Env : Type 0 where
  pub runtime : Runtime
  pub texts : Texts
  pub orders : Orders
  pub args : List NamedValue

-- What an executor returns beside its error: lastInsertedID, the rows affected, columns and rows.
pub record Done : Type 0 where
  pub last : ℤ
  pub affected : ℕ
  pub cols : List Bytes
  pub rows : List Tuple

abbrev pub done : ℕ → Done
done n = record { last = pos 0; affected = n; cols = []; rows = [] }

-- ds[0], which panics where it is not there
abbrev pub first : List Decl → Exec Session Decl
first ds = deref (first_of ds)

abbrev pub second : List Decl → Exec Session Decl
second ds = deref (first_of (others_of ds))

-- Decl.Has: the first declaration of the kind below, depth first.
unfoldable mutual
  pub has : ℕ → Decl → Option Decl
  has k (node j s ds) = has_in k ds

  pub has_in : ℕ → Decls → Option Decl
  has_in k nil = none
  has_in k (cons (node j s es) ds) =
      let deep = has_in k es in
      let rest = has_in k ds in
      if j == k then some (node j s es) else elim deep [ some e ↦ some e | none ↦ rest ]

-- A declaration of one kind whose first child is of another.
abbrev pub leads_to : ℕ → List Decl → Bool
leads_to k [] = false
leads_to k (d ∷ ds) = kind_of d == k

abbrev not_exists : List Decl → Bool
not_exists [] = false
not_exists (d ∷ ds) = if kind_of d == not_token then leads_to exists_token (below d) else false

-- hasIfNotExists
unfoldable pub has_if_not_exists : List Decl → Bool
has_if_not_exists [] = false
has_if_not_exists (d ∷ ds) =
    let rest = has_if_not_exists ds in
    if kind_of d == if_token then not_exists (below d) || rest else rest

-- hasIfExists
unfoldable pub has_if_exists : List Decl → Bool
has_if_exists [] = false
has_if_exists (d ∷ ds) =
    let rest = has_if_exists ds in
    if kind_of d == if_token then leads_to exists_token (below d) || rest else rest
