-- ===== src/Tests/Executing.antt =====
-- The theorems on executors and query plans at concrete inputs.
use ramsql.Base.{
  ℕ, ◌+◌, ◌-◌, ◌*◌, ◌≡◌, ap, arith, refl, Bool, true, Option, none, some, List, [], ◌∷◌, ◌++◌, ltb,
  leb, if◌then◌else◌,
}
use ramsql.Base.Int.{pos}
use ramsql.Base.Bytes.{Bytes, codes}
use ramsql.Base.Outcome.{Outcome, ok}
use ramsql.Base.Outcome
use ramsql.Value.{int, str}
use ramsql.Tuple.{Tuple}
use ramsql.Index.{Element}
use ramsql.Transaction.{Session}
use ramsql.Query.Order.{Orders}
use ramsql.Executor.Statement.{Env}
use ramsql.Executor.Values.{Texts}
use ramsql.Store.{find_schema, schema_relation}
use ramsql.Base.Bytes.{contains_byte}
use ramsql.Predicate.{truth}
use ramsql.Transaction.Append.{Table, Shows}
use ramsql.Query.Selectors.{star}
use ramsql.Query.Tree.{query}
use ramsql.Query.Reads.{HasPlainColumn}
use ramsql.Query.Refinement.{Filled, nothing_yet, and_row, extend, query-Filled}
use ramsql.Base.{length, map}
use ramsql.Base.Bytes.{str_eq}
use ramsql.Base.Dict.{lookup}
use ramsql.Base.Outcome.{panic}
use ramsql.Relation.{new_relation}
use ramsql.Parser.Token.{
  token, string_token, bracket_opening_token, truncate_token, semicolon_token, one_of,
}
use ramsql.Parser.Tree.{
  Decl, Decls, Tokens, node, nil, cons, new_decl, add, consume, skip, is, cur, next, pure, ◌>>=◌,
}
use ramsql.Parser.Terms.{open_quote, expect, quoted_name, parse_quoted_token}
use ramsql.Parser.Statements.{parse_truncate}
use ramsql.Query.Join.{NaturalJoin}
use ramsql.Query.Tree.{scanner, join, head_node}
use ramsql.Query.Tree.Chains.{left_deep, head_node-chain, head_node-dropped}
use ramsql.Executor.Conditions.{listed, below}
use ramsql.Executor.Statement.{Done}
use ramsql.Executor.Values.{to_instance, numbered, argument}
use ramsql.Executor.Rows.{
  insert_executor, insert_names, insert_rows, get_values, row_value, literal_type, guess_id,
  get_sets,
}
use ramsql.Executor.Rows.Appends.{insert_decls, select_all_from, insert_select}
use ramsql.Executor.Rows.Marks.{
  question_mark, question_marks, assigned, get_values-question_marks, set_mark, all_to,
  get_sets-first_argument,
}
use ramsql.Executor.Selectors.{select_executor}
use ramsql.Executor.Run.{execute}
use ramsql.Executor.Run.Truncate.{execute-parse_truncate}
use ramsql.Base.Outcome.{err, pk_violation}
use ramsql.Store.{Heap}
use ramsql.Store.Rows.{holds}
use ramsql.Transaction.{new_transaction, commit}
use ramsql.Transaction.Undo.{IsFresh}
use ramsql.Driver.{autocommit}
use ramsql.Driver.Atomic.{autocommit-insert}
use ramsql.Tests.{user_columns, runtime, users, ada, ada_row, with_users, one_row, whole_model}

-- Decimal numbers.
abbrev digits : Bytes → ℕ → Option ℕ
digits [] n = some n
digits (c ∷ s) n =
    let rest = digits s (n * 10 + (c - 48)) in
    if ltb c 48 then none else if ltb c 58 then rest else none

abbrev natural : Bytes → Option ℕ
natural [] = none
natural (c ∷ s) = digits (c ∷ s) 0

abbrev test_texts : Texts
test_texts = record {
  parse_uint = natural;
  parse_int = λ s. elim (natural s) [ none ↦ none | some n ↦ some (pos n) ];
  parse_float = λ s. none;
  parse_bool = λ s. none;
  parse_time = λ layout s. none;
}

-- Insertion sort of rows: a row is put before the first one that it is less than.
abbrev put_row :
    (Element → Element → Outcome Bool) → Element → List Element → Outcome (List Element)
put_row f e [] = ok (e ∷ [])
put_row f e (x ∷ xs) =
    let rest = put_row f e xs in
    Outcome.◌>>=◌ (f e x) λ b. if b then ok (e ∷ x ∷ xs) else (Outcome.◌>>=◌ rest λ ys. ok (x ∷ ys))

abbrev sort_rows : (Element → Element → Outcome Bool) → List Element → Outcome (List Element)
sort_rows f [] = ok []
sort_rows f (e ∷ es) = Outcome.◌>>=◌ (sort_rows f es) λ xs. put_row f e xs

-- The positions of sorted keys.
abbrev put_key : ℕ × ℕ → List (ℕ × ℕ) → List (ℕ × ℕ)
put_key k [] = k ∷ []
put_key (a, i) ((b, j) ∷ ks) =
    let rest = put_key (a, i) ks in if leb a b then (a, i) ∷ (b, j) ∷ ks else (b, j) ∷ rest

abbrev sort_keys : ℕ → List ℕ → List (ℕ × ℕ)
sort_keys i [] = []
sort_keys i (k ∷ ks) = put_key (k, i) (sort_keys (i + 1) ks)

abbrev seconds : List (ℕ × ℕ) → List ℕ
seconds [] = []
seconds ((k, i) ∷ ks) = i ∷ seconds ks

abbrev below_number : ℕ → List ℕ
below_number ℕ.zero = []
below_number (ℕ.suc n) = below_number n ++ n ∷ []

abbrev pub test_orders : Orders
test_orders = record {
  slice = sort_rows;
  sort = λ ks. seconds (sort_keys 0 ks);
  range = below_number;
}

abbrev env : Env
env = record { runtime = runtime; texts = test_texts; orders = test_orders; args = [] }

-- The table of users with no rows.
abbrev no_users : Table
no_users = record { columns = codes "id" ∷ codes "name" ∷ []; rows = [] }

known : lookup users with_users.locks ≡ some 0
unfolding whole_model
known = refl

users_relation : Shows [] users 0 no_users with_users
unfolding whole_model find_schema schema_relation new_relation
users_relation = record {
  schema_at = 0;
  o = record (new_relation [] users user_columns (codes "id" ∷ []) 0) { locked = true };
  live = refl;
  in_engine = refl;
  in_schema = refl;
  at = refl;
  lockable = λ e. absurd (ground (arith, known));
  in_range = omega arith;
  columns = refl;
  rows = refl;
  widths = tt;
}

plain_id : HasPlainColumn no_users.columns
unfolding contains_byte
plain_id = refl

query-Filled_example :
    (u : Session) × (query runtime test_orders [] (star users ∷ []) truth [] [] one_row
      ≡ (ok (no_users.columns, [] ++ ada_row.tuple ∷ []), u))
    × Shows [] users 0 (extend no_users (ada_row.tuple ∷ [])) u
query-Filled_example =
    query-Filled runtime [] users 0 no_users test_orders refl plain_id users_relation
      (and_row one_row ada ada_row.tuple nothing_yet (unfold whole_model in refl))

-- INSERT INTO users (id, name) VALUES (?, ?)
abbrev name_decl : Bytes → Decl
name_decl s = new_decl (token string_token s)

abbrev user_names : Decls
user_names = cons (name_decl (codes "id")) (cons (name_decl (codes "name")) nil)

abbrev marked_row : Decls
marked_row =
    cons (node bracket_opening_token (codes "(") (cons question_mark (cons question_mark nil))) nil

abbrev two_arguments : Env
two_arguments = record env {
  args =
      record { name = codes "1"; value = int (pos 1) }
      ∷ record { name = codes "2"; value = str (codes "ada") }
      ∷ [];
}

get_values-question_marks_example :
    get_values two_arguments (codes "id" ∷ codes "name" ∷ []) (question_marks 2) 1 []
    ≡ ok (assigned (codes "id" ∷ codes "name" ∷ []) two_arguments.args [])
get_values-question_marks_example =
    get_values-question_marks two_arguments (codes "id" ∷ codes "name" ∷ []) refl

get_sets-first_argument_example :
    get_sets two_arguments (map set_mark (codes "id" ∷ codes "name" ∷ [])) [] with_users
    ≡ (ok (all_to (int (pos 1)) (codes "id" ∷ codes "name" ∷ []) []), with_users)
get_sets-first_argument_example =
    get_sets-first_argument two_arguments (record { name = codes "1"; value = int (pos 1) })
      (record { name = codes "2"; value = str (codes "ada") } ∷ []) (codes "id" ∷ codes "name" ∷ [])
      [] with_users refl

abbrev inserted : Outcome Done × Session
inserted = insert_executor two_arguments (insert_decls users user_names marked_row) with_users

inserted_value : inserted.0 ≡ ok (record { last = pos 1; affected = 1; cols = []; rows = [] })
unfolding whole_model insert_executor insert_names insert_rows get_values row_value literal_type
    to_instance numbered argument guess_id
inserted_value = refl

insert_select_example :
    (1 ≡ length (listed marked_row))
    × (ts : List Tuple) × (u : Session) × (length ts ≡ length (listed marked_row))
    × Filled runtime [] users with_users ts inserted.1
    × (select_executor two_arguments (below (select_all_from users)) inserted.1
        ≡ (ok (record { last = pos 0; affected = 0; cols = no_users.columns; rows = [] ++ ts }), u))
insert_select_example =
    insert_select two_arguments users user_names marked_row 0 no_users with_users inserted.1
      (record { last = pos 1; affected = 1; cols = []; rows = [] }) refl plain_id users_relation
      (unfold insert_names in refl) (ap (λ o. (o, inserted.1)) inserted_value)

-- Joiners from one relation to another.
abbrev joiner : Bytes → Bytes → NaturalJoin
joiner l r = record { leftr = l; lefta = codes "id"; rightr = r; righta = codes "id" }

head_node-chain_example :
    head_node [] (joiner (codes "a") (codes "b") ∷ joiner (codes "b") (codes "c") ∷ [])
    ≡ ok (
        left_deep
          (join (joiner (codes "a") (codes "b")) (scanner (codes "a")) (scanner (codes "b")))
          (joiner (codes "b") (codes "c") ∷ []))
head_node-chain_example =
    head_node-chain [] (joiner (codes "a") (codes "b")) (joiner (codes "b") (codes "c") ∷ [])
      (unfold str_eq in (refl, tt)) (unfold str_eq in (refl, (refl, (refl, tt)), tt))

head_node-dropped_example :
    head_node [] (
      joiner (codes "a") (codes "b")
      ∷ joiner (codes "a") (codes "c")
      ∷ joiner (codes "a") (codes "d")
      ∷ [])
    ≡ ok (
        join
          (joiner (codes "a") (codes "d"))
          (join (joiner (codes "a") (codes "b")) (scanner (codes "a")) (scanner (codes "b")))
          (scanner (codes "d")))
head_node-dropped_example =
    head_node-dropped [] (joiner (codes "a") (codes "b")) (joiner (codes "a") (codes "c"))
      (joiner (codes "a") (codes "d")) refl refl (unfold str_eq in (refl, tt))
      (unfold str_eq in (refl, (refl, tt))) (unfold str_eq in (refl, (refl, (refl, tt))))

abbrev truncate_tokens : Tokens
truncate_tokens =
    token truncate_token (codes "truncate")
    ∷ token string_token users
    ∷ token semicolon_token (codes ";")
    ∷ []

execute-parse_truncate_example :
    (execute env
      (add (new_decl (token truncate_token (codes "truncate"))) (name_decl users))
      with_users).0
    ≡ panic
execute-parse_truncate_example =
    execute-parse_truncate env truncate_tokens (token semicolon_token (codes ";") ∷ [])
      (add (new_decl (token truncate_token (codes "truncate"))) (name_decl users)) with_users
      (unfold parse_truncate consume skip parse_quoted_token quoted_name open_quote expect is cur
          next one_of pure ◌>>=◌ in
        refl)

-- Both rows have the same key, so that the second one is refused.
abbrev same_key : List Decl
same_key = insert_decls users user_names (
    cons (node bracket_opening_token (codes "(") (cons question_mark (cons question_mark nil)))
      marked_row)

abbrev committed_heap : Heap
committed_heap = (commit with_users).1.heap

committed_heap-IsFresh : IsFresh committed_heap
unfolding whole_model commit holds
committed_heap-IsFresh ℕ.zero n h = refl
committed_heap-IsFresh (ℕ.suc l) n h = refl

second_refused :
    (insert_executor two_arguments same_key (new_transaction committed_heap)).0 ≡ err pk_violation
unfolding whole_model commit insert_executor insert_names insert_rows get_values row_value
    literal_type to_instance numbered argument guess_id
second_refused = refl

autocommit-insert_example :
    ((autocommit (λ result e. ok result) (insert_executor two_arguments same_key) committed_heap).0
      ≡ err pk_violation)
    × ((autocommit
          (λ result e. ok result)
          (insert_executor two_arguments same_key)
          committed_heap).1.lists
        ≡ committed_heap.lists)
autocommit-insert_example =
    autocommit-insert two_arguments same_key (λ result e. ok result) committed_heap pk_violation
      committed_heap-IsFresh second_refused
