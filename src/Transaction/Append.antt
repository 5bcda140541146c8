-- ===== src/Transaction/Append.antt =====
-- A table as a client sees it, names of columns and a sequence of rows, and Insert as an append to it.
use mathlib.Core.Path.{subst}
use ramsql.Base.{
  ℕ, ◌<◌, ◌≡◌, refl, ap, ◌∙◌, true, false, Option, none, some, List, [], ◌∷◌, ◌++◌, map, length,
  set, get_elem?, get_elem?-set_self, get_elem?-lt, length-set, All, arith,
}
use ramsql.Base.Bytes.{Bytes, str_eq_refl}
use ramsql.Base.Dict
use ramsql.Base.Dict.{Dict, lookup}
use ramsql.Base.Outcome.{Outcome, ok}
use ramsql.Value.{Value, Runtime}
use ramsql.Tuple.{Tuple}
use ramsql.Index.{Element}
use ramsql.Relation.{Relation}
use ramsql.Store.{find_schema, schema_relation}
use ramsql.Transaction.{Session, lock, take_lock, list_at}
use ramsql.Transaction.Statements.{find_relation}
use ramsql.Transaction.Undo.{Lists, list_in}
use ramsql.Transaction.Insert.{insert, insert_body, insert_row}
use ramsql.Transaction.Insert.Frame.{SameFrame, insert_row-SameFrame}
use ramsql.Transaction.Insert.Keys.{insert_row-Inserted, row_at, or_empty}
use ramsql.Transaction.Insert.Columns.{column_names, insert_row-length}
use ramsql.Transaction.Rollback.{insert-ok}

-- The abstract table.
pub record Table : Type 0 where
  pub columns : List Bytes
  pub rows : List Tuple

abbrev pub append : Tuple → Table → Table
append t a = record a { rows = a.rows ++ t ∷ [] }

abbrev pub tuples : List Element → List Tuple
tuples es = map (λ e. e.tuple) es

abbrev pub HasWidth : ℕ → Tuple → Type 0
HasWidth n t = length t.values ≡ n

-- The session shows the abstract table under the names of a schema and a relation: the names lead to
-- it, its lock is free or held by the session, and its columns and rows are those of the table.
pub record Shows (schema name : Bytes) (r : ℕ) (a : Table) (s : Session) : Type 0 where
  pub schema_at : ℕ
  pub o : Relation
  pub live : s.error ≡ none
  pub in_engine : find_schema schema s.heap ≡ ok schema_at
  pub in_schema : schema_relation schema_at name s.heap ≡ ok r
  pub at : get_elem? s.heap.relations r ≡ some o
  pub lockable : lookup o.name s.locks ≡ none → o.locked ≡ false
  pub in_range : o.rows < length s.heap.lists
  pub columns : column_names o.attributes ≡ a.columns
  pub rows : tuples (list_at o.rows s.heap) ≡ a.rows
  pub widths : All (HasWidth (length a.columns)) a.rows

All-append :
    (P : Tuple → Type 0) (ts : List Tuple) (t : Tuple) → All P ts → P t → All P (ts ++ t ∷ [])
All-append P [] t h p = (p, tt)
All-append P (u ∷ ts) t h p = (h.0, All-append P ts t h.1 p)

tuples-append :
    (es : List Element) (e : Element) → tuples (es ++ e ∷ []) ≡ tuples es ++ e.tuple ∷ []
tuples-append [] e = refl
tuples-append (x ∷ es) e = ap (◌∷◌ x.tuple) (tuples-append es e)

-- The state behind a lock that was free.
abbrev taken : ℕ → Relation → Session → Session
taken r o s = record s {
  heap = record s.heap { relations = set s.heap.relations r (record o { locked = true }) };
  locks = Dict.insert o.name r s.locks;
}

module _ (schema name : Bytes) (r : ℕ) (a : Table) (s : Session) (h : Shows schema name r a s) where
  lookup-taken : lookup h.o.name (taken r h.o s).locks ≡ some r
  unfolding lookup Dict.insert
  lookup-taken = rw (str_eq_refl h.o.name)

  taken-Shows : Shows schema name r a (taken r h.o s)
  unfolding find_schema schema_relation
  taken-Shows = record {
    schema_at = h.schema_at;
    o = record h.o { locked = true };
    live = h.live;
    in_engine = h.in_engine;
    in_schema = h.in_schema;
    at = get_elem?-set_self s.heap.relations r _ (get_elem?-lt s.heap.relations r h.o h.at);
    lockable = λ e. absurd (ground (arith, lookup-taken, e));
    in_range = h.in_range;
    columns = h.columns;
    rows = h.rows;
    widths = h.widths;
  }

  lock_cases :
      (known : Option ℕ)
      → lookup h.o.name s.locks ≡ known
      → (s1 : Session) × (lock r s ≡ (ok tt, s1)) × Shows schema name r a s1
  unfolding lock take_lock
  lock_cases (some done) e = (s, ground (arith, h.at, e), h)
  lock_cases none e = (taken r h.o s, ground (arith, h.at, e, h.lockable e), taken-Shows)

  -- Taking the lock of the table succeeds, and the table is shown as before.
  pub lock-Shows : (s1 : Session) × (lock r s ≡ (ok tt, s1)) × Shows schema name r a s1
  lock-Shows = lock_cases (lookup h.o.name s.locks) refl

-- The row part of Insert appends.
insert_row-Shows :
    (rt : Runtime) (schema name : Bytes) (r : ℕ) (a : Table) (s s' : Session) (t : Tuple)
    (given : Dict Value) (h : Shows schema name r a s)
    → insert_row rt r given s ≡ (ok t, s')
    → Shows schema name r (append t a) s'
unfolding find_schema schema_relation
insert_row-Shows rt schema name r a s s' t given h p =
    let i = insert_row-Inserted rt r given s s' t h.o h.at p in
    let e = row_at s t in
    let es : List Element = list_at h.o.rows s.heap in
    let frame : SameFrame s s' =
      subst (λ (x : Outcome Tuple × Session). SameFrame s x.1) p
        (insert_row-SameFrame rt r given s) in
    let lists : s'.heap.lists ≡ set s.heap.lists h.o.rows (es ++ e ∷ []) =
      i.lists ∙ ap (λ l. set s.heap.lists l (list_at l s.heap ++ e ∷ [])) i.same.rows in
    let now : list_at i.o'.rows s'.heap ≡ es ++ e ∷ [] =
      ap (list_in s'.heap.lists) i.same.rows
      ∙ (ap (λ (ls : Lists). list_in ls h.o.rows) lists
          ∙ ap or_empty (get_elem?-set_self s.heap.lists h.o.rows (es ++ e ∷ []) h.in_range)) in
    let lt : r < length s.heap.relations = get_elem?-lt s.heap.relations r h.o h.at in
    record {
      schema_at = h.schema_at;
      o = record i.o' { indexes = i.hs };
      live = frame.error ∙ h.live;
      in_engine = ground (arith, frame.engine, h.in_engine);
      in_schema = ground (arith, frame.schemas, h.in_schema);
      at =
          ap (λ rs. get_elem? rs r) i.relations
          ∙ get_elem?-set_self (set s.heap.relations r i.o') r _ (rw length-set lt);
      lockable = λ x. i.head.locked ∙ h.lockable (ground (arith, frame.locks, i.head.name, x));
      in_range = rw (i.same.rows, lists, length-set) h.in_range;
      columns = i.head.columns ∙ h.columns;
      rows = ap tuples now ∙ (tuples-append es e ∙ ap (λ ts. ts ++ t ∷ []) h.rows);
      widths =
          All-append (HasWidth (length a.columns)) a.rows t h.widths
            (insert_row-length rt r given s s' t h.o h.at p ∙ ap length h.columns);
    }

-- A successful Insert into a table that the session shows is an append: the session shows the table
-- with the returned row behind the others.
pub insert-Shows :
    (rt : Runtime) (schema name : Bytes) (r : ℕ) (a : Table) (s s' : Session) (t : Tuple)
    (given : Dict Value)
    → Shows schema name r a s
    → insert rt schema name given s ≡ (ok t, s')
    → Shows schema name r (append t a) s'
unfolding insert_body find_relation
insert-Shows rt schema name r a s s' t given h p =
    let q = insert-ok rt schema name given s t s' h.live p in
    let (s1, locked, shown) = lock-Shows schema name r a s h in
    insert_row-Shows rt schema name r a s1 s' t given shown
      (ground (arith, h.in_engine, h.in_schema, locked, q))
