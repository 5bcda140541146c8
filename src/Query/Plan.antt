-- ===== src/Query/Plan.antt =====
-- Transaction.Plan and Transaction.Query for a statement over one table: no joiners and no sorters.
pub mod Pushdown
pub mod Disjunction
use ramsql.Base.{
  ℕ, Bool, true, false, Option, none, some, List, [], ◌∷◌, ◌++◌, map, get_elem?, if◌then◌else◌,
}
use ramsql.Base.Bytes.{Bytes, str_eq}
use ramsql.Base.Dict
use ramsql.Base.Dict.{Dict}
use ramsql.Base.Outcome.{Outcome, ok, err, panic, blocked, no_join, not_comparable}
use ramsql.Base.Exec.{Exec, pure, raise, lift, gets, ◌>>=◌, ◌>>◌}
use ramsql.Value.{Runtime}
use ramsql.Tuple.{Tuple}
use ramsql.Index.{Element, HashIndex, can_source_with}
use ramsql.Relation.{Relation}
use ramsql.Predicate.{Predicate, conj, disj, comparison, is_eq, relation_of}
use ramsql.Store.{find_schema, schema_relation}
use ramsql.Transaction.{Session, check_aborted, or_abort, look, lock, relation_at, list_at}
use ramsql.Query.{Result}
use ramsql.Query.Source.{Source, new_seq_scan, new_index_source, scan}
use ramsql.Query.Selectors.{Selector, selector_relation, select_node}

-- recCanUseIndex: the first part of the predicate that the index can serve.
unfoldable pub rec_can_use_index : HashIndex → Predicate → Option Predicate
rec_can_use_index h (conj p q) =
    let below : Option Predicate = elim (rec_can_use_index h p) [
      | some found ↦ some found
      | none ↦ rec_can_use_index h q
    ] in
    if can_source_with h (conj p q) then some (conj p q) else below
rec_can_use_index h (disj p q) =
    let below : Option Predicate = elim (rec_can_use_index h p) [
      | some found ↦ some found
      | none ↦ rec_can_use_index h q
    ] in
    if can_source_with h (disj p q) then some (disj p q) else below
rec_can_use_index h p = if can_source_with h p then some p else none

-- NewHashIndexSource refuses a predicate that is not an EqPredicate.
unfoldable pub index_source : Runtime → HashIndex → Predicate → Outcome Source
index_source rt h (comparison is_eq l r) = new_index_source rt h r
index_source rt h p = err not_comparable

-- The loop over the indexes: every cost is 1, so the first source that is made is kept.
unfoldable pub choose_index : Runtime → Predicate → List HashIndex → Option Source
choose_index rt p [] = none
choose_index rt p (h ∷ hs) =
    let rest = choose_index rt p hs in
    elim (rec_can_use_index h p) [
      | none ↦ rest
      | some q ↦ elim (index_source rt h q) [ ok src ↦ some src | _ ↦ rest ]
    ]

unfoldable pub choose_source : Runtime → Predicate → Relation → List Element → Source
choose_source rt p r rows = elim (choose_index rt p r.indexes) [
  | none ↦ new_seq_scan r rows
  | some src ↦ src
]

-- recAppendPredicates: the predicates that the scanner of a relation is given.
unfoldable pub pushed_down : Bytes → Predicate → List Predicate
pushed_down rname (conj p q) =
    let below = pushed_down rname p ++ pushed_down rname q in
    if str_eq (relation_of (conj p q)) rname then conj p q ∷ [] else below
pushed_down rname (disj p q) =
    let below = pushed_down rname p ++ pushed_down rname q in
    if str_eq (relation_of (disj p q)) rname then disj p q ∷ [] else below
pushed_down rname p = if str_eq (relation_of p) rname then p ∷ [] else []

-- A relation that is named is looked up, locked and noted; the empty name is passed over.
unfoldable pub touch : Bytes → Bytes → Dict ℕ → Exec Session (Dict ℕ)
touch schema [] rels = pure rels
touch schema (c ∷ name) rels = do
  s ← look (find_schema schema)
  r ← look (schema_relation s (c ∷ name))
  lock r
  pure (Dict.insert (c ∷ name) r rels)

-- recLock
unfoldable pub rec_lock : Bytes → Predicate → Dict ℕ → Exec Session (Dict ℕ)
rec_lock schema (conj p q) rels = do
  here ← touch schema (relation_of (conj p q)) rels
  left ← rec_lock schema p here
  rec_lock schema q left
rec_lock schema (disj p q) rels = do
  here ← touch schema (relation_of (disj p q)) rels
  left ← rec_lock schema p here
  rec_lock schema q left
rec_lock schema p rels = touch schema (relation_of p) rels

-- The loop over the selectors looks the empty name up too.
unfoldable pub lock_selectors : Bytes → List Selector → Dict ℕ → Exec Session (Dict ℕ)
lock_selectors schema [] rels = pure rels
lock_selectors schema (sel ∷ sels) rels = do
  s ← look (find_schema schema)
  r ← look (schema_relation s (selector_relation sel))
  lock r
  lock_selectors schema sels (Dict.insert (selector_relation sel) r rels)

pub record ScanNode : Type 0 where
  pub source : Source
  pub predicates : List Predicate

-- Without joiners there must be exactly one scanner.
unfoldable pub single_scan : Runtime → Predicate → Dict ℕ → Exec Session ScanNode
single_scan rt p ((name, r) ∷ []) = do
  o ← relation_at r
  rows ← gets (λ s. list_at o.rows s.heap)
  pure (record { source = choose_source rt p o rows; predicates = pushed_down o.name p })
single_scan rt p rels = raise no_join

unfoldable pub plan_body : Runtime → Bytes → List Selector → Predicate → Exec Session ScanNode
plan_body rt schema selectors p = do
  s ← look (find_schema schema)
  rels ← rec_lock schema p []
  rels ← lock_selectors schema selectors rels
  single_scan rt p rels

unfoldable pub plan : Runtime → Bytes → List Selector → Predicate → Exec Session ScanNode
plan rt schema selectors p = do check_aborted; or_abort (plan_body rt schema selectors p)

abbrev pub run_scan : Runtime → ScanNode → Outcome Result
run_scan rt n = scan rt n.predicates n.source

unfoldable pub query :
    Runtime → Bytes → List Selector → Predicate → Exec Session (List Bytes × List Tuple)
query rt schema selectors p = do
  check_aborted
  n ← plan rt schema selectors p
  r ← or_abort (lift (select_node selectors (run_scan rt n)))
  pure (r.cols, map (λ e. e.tuple) r.rows)
