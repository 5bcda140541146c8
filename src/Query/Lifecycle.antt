-- ===== src/Query/Lifecycle.antt =====
-- The life of a table in one transaction: CreateRelation, Inserts and Query.
use ramsql.Base.{
  ℕ, ◌≡◌, true, false, refl, sym, ap, ◌∙◌, none, some, inl, inr, Option-cases, List, [], ◌∷◌, ◌++◌,
  length, set, get_elem?, get_elem?-set_self, get_elem?-lt, length-append, arith,
}
use ramsql.Base.Bytes.{Bytes, str_eq_refl}
use ramsql.Base.Dict
use ramsql.Base.Dict.{Dict, lookup, lookup-insert}
use ramsql.Base.Outcome.{ok}
use ramsql.Value.{Runtime}
use ramsql.Tuple.{Tuple}
use ramsql.Attribute.{Attribute}
use ramsql.Index.{Element}
use ramsql.Relation.{Relation, new_relation}
use ramsql.Predicate.{truth}
use ramsql.Store
use ramsql.Store.{Schema, find_schema, schema_relation, schema_add, allocate_relation}
use ramsql.Transaction.{Session, lock, take_lock, or_abort, abort}
use ramsql.Transaction.Abort.{check_aborted_live}
use ramsql.Transaction.Statements.{create_relation}
use ramsql.Transaction.Created.{get_elem?-last, fresh_relation}
use ramsql.Transaction.Insert.Columns.{column_names}
use ramsql.Transaction.Append.{Table, Shows}
use ramsql.Query.Selectors.{star}
use ramsql.Query.Order.{Orders}
use ramsql.Query.Tree.{query}
use ramsql.Query.Reads.{HasPlainColumn}
use ramsql.Query.Refinement.{Filled, query-Filled}

list-last : (ls : List (List Element)) → get_elem? (ls ++ [] ∷ []) (length ls) ≡ some []
list-last [] = refl
list-last (x ∷ ls) = list-last ls

abbrev pub empty_table : List Attribute → Table
empty_table attributes = record { columns = column_names attributes; rows = [] }

module _ (schema name : Bytes) (attributes : List Attribute) (pk : List Bytes) (s s' : Session)
    (sid : ℕ) (d : Schema) (live : s.error ≡ none) (found : find_schema schema s.heap ≡ ok sid)
    (there : get_elem? s.heap.schemas sid ≡ some d)
    (done : create_relation schema name attributes pk s ≡ (ok tt, s')) where
  abbrev fresh : Relation
  fresh = fresh_relation s schema name attributes pk

  abbrev at_end : ℕ
  at_end = length s.heap.relations

  last : get_elem? (s.heap.relations ++ fresh ∷ []) at_end ≡ some fresh
  last = get_elem?-last s.heap.relations fresh

  -- The state behind the statement, but for the lock of the new relation.
  abbrev added : Schema
  added = record d { relations = Dict.insert name at_end d.relations }

  parts :
      (s'.error ≡ none)
      × (s'.heap.engine ≡ s.heap.engine)
      × (s'.heap.schemas ≡ set s.heap.schemas sid added)
      × (s'.heap.lists ≡ s.heap.lists ++ [] ∷ [])
  unfolding create_relation or_abort Store.create_relation allocate_relation schema_add lock
      take_lock new_relation abort
  parts = (
    ground (arith, live, check_aborted_live s live, done, last, found, there),
    ground (arith, live, check_aborted_live s live, done, last, found, there),
    ground (arith, live, check_aborted_live s live, done, last, found, there),
    ground (arith, live, check_aborted_live s live, done, last, found, there),
  )

  last_locked :
      get_elem?
        (set (s.heap.relations ++ fresh ∷ []) at_end (record fresh { locked = true }))
        at_end
      ≡ some (record fresh { locked = true })
  last_locked =
      get_elem?-set_self (s.heap.relations ++ fresh ∷ []) at_end _
        (get_elem?-lt (s.heap.relations ++ fresh ∷ []) at_end fresh last)

  -- The lock is taken, unless a relation of that name was locked before.
  relation_part :
      (o : Relation) × (get_elem? s'.heap.relations at_end ≡ some o)
      × (o.name ≡ name)
      × (o.attributes ≡ attributes)
      × (o.rows ≡ length s.heap.lists)
      × (lookup name s'.locks ≡ none → o.locked ≡ false)
  unfolding create_relation or_abort Store.create_relation allocate_relation schema_add lock
      take_lock new_relation abort lookup Dict.insert
  relation_part = elim (Option-cases (lookup name s.locks)) [
    | inl new ↦ (
      record fresh { locked = true },
      ground (arith, new, live, check_aborted_live s live, done, last, last_locked, found, there),
      refl,
      refl,
      refl,
      λ e. absurd (
          ground (
            arith,
            e,
            new,
            live,
            check_aborted_live s live,
            done,
            last,
            found,
            there,
            str_eq_refl name,
          )),
    )
    | inr (k, noted) ↦ (
      fresh,
      ground (arith, noted, live, check_aborted_live s live, done, last, found, there),
      refl,
      refl,
      refl,
      λ e. refl,
    )
  ]

  in_schema : schema_relation sid name s'.heap ≡ ok at_end
  unfolding schema_relation
  in_schema =
      let kept : get_elem? (set s.heap.schemas sid added) sid ≡ some added =
        get_elem?-set_self s.heap.schemas sid added (get_elem?-lt s.heap.schemas sid d there) in
      ground (arith, parts.2, kept, lookup-insert name name at_end d.relations, str_eq_refl name)

  -- A created table is shown with its columns and no rows.
  created-Shows : Shows schema name at_end (empty_table attributes) s'
  unfolding find_schema
  created-Shows =
      let (alive, engine, schemas, lists) = parts in
      let (o, at, named, attrs, rows, lockable) = relation_part in
      record {
        schema_at = sid;
        o = o;
        live = alive;
        in_engine = ground (arith, engine, found);
        in_schema = in_schema;
        at = at;
        lockable = λ e. lockable (ap (λ n. lookup n s'.locks) (sym named) ∙ e);
        in_range = ground (arith, rows, lists, length-append s.heap.lists ([] ∷ []));
        columns = ap column_names attrs;
        rows = ground (arith, rows, lists, list-last s.heap.lists);
        widths = tt;
      }

  -- The life of a table: behind a successful CreateRelation in a live transaction, where the schema is
  -- an object of the heap, and any number of successful Inserts into the new table, SELECT * without a
  -- condition, planned with no joiners and no sorters, returns the columns of the statement, the first
  -- of which has a plain name, and exactly the rows that the Inserts returned, in their order, whatever
  -- relation the schema had under that name before. Ranging over a map of one key visits that key.
  pub query-created :
      (rt : Runtime) (ord : Orders) {t : Session} (ts : List Tuple)
      → ord.range 1 ≡ 0 ∷ []
      → HasPlainColumn (column_names attributes)
      → Filled rt schema name s' ts t
      → (u : Session) × (query rt ord schema (star name ∷ []) truth [] [] t
          ≡ (ok (column_names attributes, ts), u))
  query-created rt ord ts one plain run =
      let (u, q, still) =
        query-Filled rt schema name at_end (empty_table attributes) ord one plain created-Shows
          run in
      (u, q)
