-- ===== src/Query/Tree.antt =====
-- Transaction.Plan and Transaction.Query with joiners and sorters: the scanners of all relations, the
-- tree of the joins, and the chain of the sorters below the selector node.
pub mod Single
pub mod Chains
use ramsql.Base.{
  ℕ, ◌+◌, ◌*◌, ◌/◌, Bool, true, false, Option, none, some, List, [], ◌∷◌, ◌++◌, map, length,
  if◌then◌else◌,
}
use ramsql.Base.Bytes.{Bytes, str_eq}
use ramsql.Base.Dict
use ramsql.Base.Dict.{Dict, lookup}
use ramsql.Base.Outcome.{Outcome, ok, err, panic, blocked, no_join, relation_missing}
use ramsql.Base.Exec.{Exec, pure, raise, lift, gets, deref, modify, ◌>>=◌, ◌>>◌}
use ramsql.Value.{Runtime}
use ramsql.Tuple.{Tuple}
use ramsql.Predicate.{Predicate}
use ramsql.Store.{find_schema}
use ramsql.Transaction.{Session, check_aborted, or_abort, look, relation_at, list_at}
use ramsql.Query.{Result}
use ramsql.Query.Source.{Source, seq_scan, index_scan, new_seq_scan, columns, estimate_scanner}
use ramsql.Query.Selectors.{Selector, select_node}
use ramsql.Query.Join.{NaturalJoin, natural_join, join_column, join_left, qualify, fresh_elements}
use ramsql.Query.Order.{Orders, Sorter, arrange, sorted_sorters, run_sorters}
use ramsql.Query.Plan.{ScanNode, run_scan, choose_index, pushed_down, rec_lock, lock_selectors}

-- The nodes below the sorters. A join of a relation with itself that is met first becomes its own
-- right child, and Exec of it does not end.
pub data Tree : Type 0 where
  scanner : Bytes → Tree
  join : NaturalJoin → Tree → Tree → Tree
  itself : Tree

-- (2) and (3): the relations in the order in which the map is ranged over. Every index costs 1, and
-- sourceCost is kept from one relation to the next, so only the first relation that can use an index
-- gets one.
unfoldable pub scanners : Runtime → Predicate → Bool → Dict ℕ → Exec Session (Dict ScanNode)
unfolding choose_index pushed_down
scanners rt p taken [] = pure []
scanners rt p taken ((name, r) ∷ rels) = do
  o ← relation_at r
  rows ← gets (λ s. list_at o.rows s.heap)
  let found : Option Source = if taken then none else choose_index rt p o.indexes
  let node : ScanNode = record {
    source = elim found [ none ↦ new_seq_scan o rows | some src ↦ src ];
    predicates = pushed_down o.name p;
  }
  rest ← scanners rt p (elim found [ none ↦ taken | some src ↦ true ]) rels
  pure ((o.name, node) ∷ rest)

-- The scanner of a side of a joiner.
abbrev pub scanner_of : Bytes → Dict ScanNode → Outcome ScanNode
scanner_of name scs = elim (lookup name scs) [ none ↦ err (relation_missing name) | some n ↦ ok n ]

-- EstimateCardinal of a join of two scanners
unfoldable pub estimate_join : ScanNode → ScanNode → ℕ
unfolding estimate_scanner
estimate_join l r =
    estimate_scanner l.source l.predicates * estimate_scanner r.source r.predicates / 2

-- The loop that assigns the scanners: the estimates, by which the joiners are sorted.
unfoldable pub estimates : Dict ScanNode → List NaturalJoin → Outcome (List ℕ)
unfolding estimate_join lookup
estimates scs [] = ok []
estimates scs (j ∷ js) =
    let rest = estimates scs js in
    ramsql.Base.Outcome.◌>>=◌ (scanner_of j.leftr scs) λ l.
      ramsql.Base.Outcome.◌>>=◌ (scanner_of j.rightr scs)
        λ r. ramsql.Base.Outcome.◌>>=◌ rest λ ns. ok (estimate_join l r ∷ ns)

-- A side of a join: what was seen for its relation, or its scanner.
unfoldable pub child_of : Dict Tree → Bytes → Tree
child_of seen name = elim (lookup name seen) [ none ↦ scanner name | some t ↦ t ]

-- `if _, ok := seen[name]; !ok { seen[name] = n }`
unfoldable pub note_seen : Bytes → Tree → Dict Tree → Dict Tree
note_seen name t seen = elim (lookup name seen) [ none ↦ Dict.insert name t seen | some old ↦ seen ]

-- One turn of the loop over the sorted joiners. The left side is noted before the right side is looked
-- up.
unfoldable pub joined : Dict Tree → NaturalJoin → Tree
unfolding child_of note_seen lookup
joined seen j = join j (child_of seen j.leftr) (child_of (note_seen j.leftr itself seen) j.rightr)

-- headJoin: the last joiner. What is seen first for a relation stays.
unfoldable pub head_join : Dict Tree → Tree → List NaturalJoin → Tree
unfolding joined note_seen
head_join seen last [] = last
head_join seen last (j ∷ js) =
    let n = joined seen j in head_join (note_seen j.rightr n (note_seen j.leftr n seen)) n js

-- The joins where there are some, the only scanner otherwise.
unfoldable pub head_node : Dict ScanNode → List NaturalJoin → Outcome Tree
unfolding head_join
head_node scs (j ∷ js) = ok (head_join [] itself (j ∷ js))
head_node ((name, n) ∷ []) [] = ok (scanner name)
head_node scs [] = err no_join

pub record QueryPlan : Type 0 where
  pub scanners : Dict ScanNode
  pub head : Tree
  pub sorters : List Sorter

-- The plan behind the locks.
unfoldable pub plan_locked :
    Runtime → Orders → Predicate → List NaturalJoin → List Sorter → Dict ℕ → Exec Session QueryPlan
unfolding scanners estimates head_node arrange sorted_sorters
plan_locked rt ord p joiners sorters rels = do
  scs ← scanners rt p false (arrange rels (ord.range (length rels)))
  ns ← lift (estimates scs joiners)
  head ← lift (head_node scs (arrange joiners (ord.sort ns)))
  pure (record { scanners = scs; head = head; sorters = sorted_sorters ord sorters })

unfoldable pub plan_tree :
    Runtime
    → Orders
    → Bytes
    → List Selector
    → Predicate
    → List NaturalJoin
    → List Sorter
    → Exec Session QueryPlan
plan_tree rt ord schema selectors p joiners sorters = do
  s ← look (find_schema schema)
  rels ← rec_lock schema p []
  rels ← lock_selectors schema selectors rels
  plan_locked rt ord p joiners sorters rels

unfoldable pub plan_query :
    Runtime
    → Orders
    → Bytes
    → List Selector
    → Predicate
    → List NaturalJoin
    → List Sorter
    → Exec Session QueryPlan
plan_query rt ord schema selectors p joiners sorters = do
  check_aborted
  or_abort (plan_tree rt ord schema selectors p joiners sorters)

-- A scanner that has been read: its source has no element left.
unfoldable pub drained : Source → Source
drained (seq_scan cols es) = seq_scan cols []
drained (index_scan cols e) = index_scan cols none

-- Exec of a scanner: a second Exec of it finds no rows.
unfoldable pub run_scanner : Runtime → Bytes → Exec (Dict ScanNode) Result
unfolding lookup drained
run_scanner rt name = do
  found ← gets (λ scs. lookup name scs)
  n ← deref found
  modify (λ scs. Dict.insert name (record n { source = drained n.source }) scs)
  lift (run_scan rt n)

-- Exec of the tree: the left side, its column, and then the right side.
unfoldable pub run_tree : Runtime → Tree → Exec (Dict ScanNode) Result
unfolding run_scanner
run_tree rt (scanner name) = run_scanner rt name
run_tree rt itself = lift panic
run_tree rt (join j left right) = do
  l ← run_tree rt left
  lift (join_column j.leftr j.lefta l.cols)
  r ← run_tree rt right
  lift (natural_join rt j (ok l) (ok r))

-- PrintQueryPlan estimates every node of the tree before Exec, and does not come back from a cycle.
unfoldable pub print_plan : Tree → Outcome (Unit {0})
print_plan (scanner name) = ok tt
print_plan itself = panic
print_plan (join j left right) = ramsql.Base.Outcome.◌>>◌ (print_plan left) (print_plan right)

-- Exec of the selector node over the chain of the sorters.
unfoldable pub run_plan : Runtime → Orders → List Selector → QueryPlan → Outcome Result
unfolding run_tree run_sorters select_node
run_plan rt ord selectors n =
    select_node selectors (run_sorters rt ord n.sorters (run_tree rt n.head n.scanners).0)

-- Transaction.Query
unfoldable pub query :
    Runtime
    → Orders
    → Bytes
    → List Selector
    → Predicate
    → List NaturalJoin
    → List Sorter
    → Exec Session (List Bytes × List Tuple)
unfolding plan_query run_plan print_plan
query rt ord schema selectors p joiners sorters = do
  check_aborted
  n ← plan_query rt ord schema selectors p joiners sorters
  lift (print_plan n.head)
  r ← or_abort (lift (run_plan rt ord selectors n))
  pure (r.cols, map (λ e. e.tuple) r.rows)
