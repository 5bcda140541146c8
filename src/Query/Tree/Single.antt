-- ===== src/Query/Tree/Single.antt =====
-- A query with no joiners and no sorters: the plan of Query/Tree and the one of Query/Plan.
use ramsql.Base.{ℕ, ◌≡◌, ◌≢◌, refl, ap, ◌∙◌, none, some, List, [], ◌∷◌, map, get_elem?, arith}
use ramsql.Base.Bytes.{Bytes, str_eq_refl}
use ramsql.Base.Dict.{Dict, lookup}
use ramsql.Base.Outcome.{Outcome, ok, err, panic, blocked, no_join}
use ramsql.Base.Exec.{Exec, pure, lift, ◌>>◌, continue, ◌>>=◌}
use ramsql.Value.{Runtime}
use ramsql.Tuple.{Tuple}
use ramsql.Predicate.{Predicate}
use ramsql.Store.{find_schema}
use ramsql.Transaction.{Session, check_aborted, or_abort, abort}
use ramsql.Query.Selectors.{Selector, select_node}
use ramsql.Query.Order.{Orders, Sorter, run_sorters, arrange, sorted_sorters}
use ramsql.Query.Join.{NaturalJoin}
use ramsql.Query.Plan
use ramsql.Query.Plan.{
  ScanNode, run_scan, single_scan, choose_source, plan_body, plan, rec_lock, lock_selectors,
}
use ramsql.Query.Tree
use ramsql.Base.{Option}
use ramsql.Relation.{Relation}
use ramsql.Query.Tree.{
  Tree, scanner, scanners, estimates, head_node, run_tree, run_scanner, QueryPlan, plan_locked,
  plan_tree, plan_query, run_plan, print_plan,
}

-- The plan over one scanner.
abbrev one : Bytes → ScanNode → QueryPlan
one name n = record { scanners = (name, n) ∷ []; head = scanner name; sorters = [] }

arrange_nil : {A : Type 0} (is : List ℕ) → arrange {A = A} [] is ≡ []
unfolding arrange
arrange_nil [] = refl
arrange_nil (i ∷ is) = arrange_nil is

-- The outcome of a plan over one scanner, from that of Query/Plan.
abbrev as_tree : Bytes → Outcome ScanNode × Session → Outcome QueryPlan × Session
as_tree name (o, s) = continue o (λ k. pure (one name k)) s

-- Both plans end in the same way, with the same scanner.
abbrev Agrees : Outcome QueryPlan × Session → Outcome ScanNode × Session → Type 0
Agrees x y = (name : Bytes) × (x ≡ as_tree name y)

continue-Agrees :
    {A : Type 0} (o : Outcome A) (f : A → Exec Session QueryPlan) (g : A → Exec Session ScanNode)
    → ((a : A) (s : Session) → (g a s).0 ≢ err no_join → Agrees (f a s) (g a s))
    → (s : Session) → (continue o g s).0 ≢ err no_join
    → Agrees (continue o f s) (continue o g s)
continue-Agrees (ok a) f g law s h = law a s h
continue-Agrees (err e) f g law s h = ([], refl)
continue-Agrees panic f g law s h = ([], refl)
continue-Agrees blocked f g law s h = ([], refl)

-- What is put behind a plan that may abort.
or_abort-as_tree :
    (name : Bytes) (m : Exec Session QueryPlan) (n : Exec Session ScanNode) (s : Session)
    → m s ≡ as_tree name (n s)
    → or_abort m s ≡ as_tree name (or_abort n s)
unfolding or_abort abort
or_abort-as_tree name m n s h = ground (arith, h)

module _ (rt : Runtime) (ord : Orders) (range_one : ord.range 1 ≡ 0 ∷ []) (p : Predicate) where
  plan_found :
      (name : Bytes) (r : ℕ) (s : Session) (found : Option Relation)
      → get_elem? s.heap.relations r ≡ found
      → Agrees (plan_locked rt ord p [] [] ((name, r) ∷ []) s) (single_scan rt p ((name, r) ∷ []) s)
  unfolding plan_locked single_scan scanners estimates head_node arrange sorted_sorters
      choose_source
  plan_found name r s none e = ([], ground (arith, range_one))
  plan_found name r s (some o) e = (
    o.name,
    ground (
      arith,
      range_one,
      arrange_nil {A = NaturalJoin} (ord.sort []),
      arrange_nil {A = Sorter} (ord.sort []),
    ),
  )

  plan_locked-one :
      (rels : Dict ℕ) (s : Session)
      → (single_scan rt p rels s).0 ≢ err no_join
      → Agrees (plan_locked rt ord p [] [] rels s) (single_scan rt p rels s)
  unfolding single_scan
  plan_locked-one [] s h = absurd (h refl)
  plan_locked-one ((name, r) ∷ []) s h = plan_found name r s (get_elem? s.heap.relations r) refl
  plan_locked-one (a ∷ b ∷ rels) s h = absurd (h refl)

  plan_tree-body :
      (schema : Bytes) (selectors : List Selector) (s : Session)
      → (plan_body rt schema selectors p s).0 ≢ err no_join
      → Agrees (plan_tree rt ord schema selectors p [] [] s) (plan_body rt schema selectors p s)
  unfolding plan_tree plan_body
  plan_tree-body schema selectors s h =
      continue-Agrees (find_schema schema s.heap)
        (λ d. rec_lock schema p [] >>= λ rels.
          lock_selectors schema selectors rels >>= λ rels. plan_locked rt ord p [] [] rels)
        (λ d. rec_lock schema p [] >>= λ rels.
          lock_selectors schema selectors rels >>= λ rels. single_scan rt p rels)
        (λ d s1.
          continue-Agrees (rec_lock schema p [] s1).0
            (λ rels.
              lock_selectors schema selectors rels >>= λ rels. plan_locked rt ord p [] [] rels)
            (λ rels. lock_selectors schema selectors rels >>= λ rels. single_scan rt p rels)
            (λ rels s2.
              continue-Agrees (lock_selectors schema selectors rels s2).0
                (λ rels. plan_locked rt ord p [] [] rels) (λ rels. single_scan rt p rels)
                plan_locked-one (lock_selectors schema selectors rels s2).1)
            (rec_lock schema p [] s1).1)
        s h

  plan_query-plan :
      (schema : Bytes) (selectors : List Selector) (s : Session)
      → (plan_body rt schema selectors p s).0 ≢ err no_join
      → Agrees (plan_query rt ord schema selectors p [] [] s) (plan rt schema selectors p s)
  unfolding plan_query plan check_aborted
  plan_query-plan schema selectors s h =
      let (name, same) = plan_tree-body schema selectors s h in
      (
        name,
        ground (
          arith,
          or_abort-as_tree name (plan_tree rt ord schema selectors p [] [])
              (plan_body rt schema selectors p) s same,
        ),
      )

  run_plan-one :
      (selectors : List Selector) (name : Bytes) (n : ScanNode)
      → run_plan rt ord selectors (one name n) ≡ select_node selectors (run_scan rt n)
  unfolding run_plan run_tree run_scanner lookup run_sorters
  run_plan-one selectors name n = rw (str_eq_refl name)

  -- What the query does behind its plan.
  abbrev finish_tree : List Selector → QueryPlan → Exec Session (List Bytes × List Tuple)
  finish_tree selectors n = do
    lift (print_plan n.head)
    r ← or_abort (lift (run_plan rt ord selectors n))
    pure (r.cols, map (λ e. e.tuple) r.rows)

  abbrev finish_scan : List Selector → ScanNode → Exec Session (List Bytes × List Tuple)
  finish_scan selectors n = do
    r ← or_abort (lift (select_node selectors (run_scan rt n)))
    pure (r.cols, map (λ e. e.tuple) r.rows)

  finish_same :
      (selectors : List Selector) (name : Bytes) (o : Outcome ScanNode) (s : Session)
      → continue (as_tree name (o, s)).0 (finish_tree selectors) (as_tree name (o, s)).1
        ≡ continue o (finish_scan selectors) s
  unfolding print_plan
  finish_same selectors name (ok n) s = rw (run_plan-one selectors name n)
  finish_same selectors name (err e) s = refl
  finish_same selectors name panic s = refl
  finish_same selectors name blocked s = refl

  query_behind :
      (schema : Bytes) (selectors : List Selector) (s : Session)
      → (plan_body rt schema selectors p s).0 ≢ err no_join
      → (plan_query rt ord schema selectors p [] [] >>= finish_tree selectors) s
        ≡ (plan rt schema selectors p >>= finish_scan selectors) s
  query_behind schema selectors s h =
      let (name, same) = plan_query-plan schema selectors s h in
      ap (λ x. continue x.0 (finish_tree selectors) x.1) same
      ∙ finish_same selectors name (plan rt schema selectors p s).0 (plan rt schema selectors p s).1

  -- A query without joiners and without sorters is the query over one table: where the relations
  -- that it names are one, or an error comes before they are counted, the plan with join trees and
  -- sorters gives the same columns, rows, errors and state as the plan over one scan.
  pub query-single :
      (schema : Bytes) (selectors : List Selector) (s : Session)
      → (plan_body rt schema selectors p s).0 ≢ err no_join
      → Tree.query rt ord schema selectors p [] [] s ≡ Plan.query rt schema selectors p s
  unfolding Tree.query Plan.query check_aborted
  query-single schema selectors s h = ground (arith, query_behind schema selectors s h)
