-- ===== src/Query/Modify/Lasting/Statements.antt =====
-- Deletes and updates note nothing but pointers to changes.
use mathlib.Core.Path.{subst}
use ramsql.Base.{ℕ, suc, set, refl, none, some, List, [], ◌∷◌, map, arith}
use ramsql.Base.Bytes.{Bytes}
use ramsql.Base.Dict.{Dict}
use ramsql.Base.Outcome.{Outcome, ok}
use ramsql.Store.Rows.{remove_element, insert_after}
use ramsql.Base.Exec.{Exec, lift, modify, ◌>>=◌}
use ramsql.Value.{Value, Runtime}
use ramsql.Tuple.{Tuple}
use ramsql.Index.{Element, HashIndex}
use ramsql.Attribute.{Attribute}
use ramsql.Relation.{Relation, add_all, remove_all}
use ramsql.Predicate.{Predicate}
use ramsql.Transaction.{
  Session, Change, value_change_pointer, check_aborted, or_abort, abort, lock, take_lock,
  relation_at, rollback, look, push_change, change_heap, set_list, list_at,
}
use ramsql.Transaction.Statements.{find_relation}
use ramsql.Query.{Result}
use ramsql.Query.Selectors.{Selector, select_node}
use ramsql.Query.Plan.{plan, run_scan}
use ramsql.Query.Updates.{updated_values}
use ramsql.Query.Modify.{
  with_indexes, delete_element, delete_all, delete_node, delete, replace_element, update_all,
  all_used, update_node, update,
}
use ramsql.Query.Modify.Lasting.Edits.{
  Edits, Edits-bind, Edits-or_abort, Edits-reads, check_aborted-Edits, relation_at-Edits,
  find_relation-Edits, lift-Edits, plan-Edits, ArePointers-append,
}
use ramsql.Query.Modify.Laws.{ArePointers}

-- The element that replaces another one.
abbrev fresh : Session → List Value → Element
fresh s vs = record { address = s.heap.next; tuple = record { values = vs } }

module _ (rt : Runtime) where
  with_indexes-Edits :
      (r : ℕ) (f : List HashIndex → Outcome (List HashIndex)) → Edits (with_indexes r f)
  unfolding with_indexes
  with_indexes-Edits r f s u a p = (ground arith, λ q. ground arith)

  push-Edits : (c : ramsql.Transaction.ValueChange) → Edits (push_change (value_change_pointer c))
  push-Edits c s u a p = (
    ground arith,
    λ q.
        subst (λ (x : Outcome (Unit {0}) × Session). ArePointers x.1.changes) p
          (ArePointers-append s.changes (value_change_pointer c) q tt),
  )

  delete_element-Edits : (r l : ℕ) (e : Element) → Edits (delete_element rt r l e)
  unfolding delete_element
  delete_element-Edits r l e =
      Edits-bind (modify (change_heap (λ g. set_list l (remove_element e.address (list_at l g)) g)))
        _ (λ s u a p. (ground arith, λ q. ground arith))
        λ done.
          Edits-bind (with_indexes r (λ hs. remove_all rt hs e)) _
            (with_indexes-Edits r (λ hs. remove_all rt hs e))
            λ done. push-Edits (record { current = none; old = some e; l = l })

  delete_all-Edits : (r l : ℕ) (es : List Element) → Edits (delete_all rt r l es)
  unfolding delete_all
  delete_all-Edits r l [] = lift-Edits (ok tt)
  delete_all-Edits r l (e ∷ es) =
      Edits-bind (delete_element rt r l e) _ (delete_element-Edits r l e)
        λ done. delete_all-Edits r l es

  -- The end of both statements: the selector node, and the rows that are returned.
  Edits-selected :
      (selectors : List Selector) (m : Exec Session Result)
      → Edits m
      → Edits {A = List Bytes × List Tuple} (
          or_abort (m >>= λ in_. lift (select_node selectors (ok in_))) >>= λ out.
          lift (ok (out.cols, map (λ (e : Element). e.tuple) out.rows)))
  Edits-selected selectors m h =
      Edits-bind (or_abort (m >>= λ in_. lift (select_node selectors (ok in_)))) _
        (Edits-or_abort (m >>= λ in_. lift (select_node selectors (ok in_)))
          (Edits-bind m _ h λ in_. lift-Edits (select_node selectors (ok in_))))
        λ out.
          lift-Edits {A = List Bytes × List Tuple}
            (ok (out.cols, map (λ (e : Element). e.tuple) out.rows))

  delete_node-Edits : (r l : ℕ) (child : Outcome Result) → Edits (delete_node rt r l child)
  unfolding delete_node
  delete_node-Edits r l child = Edits-bind (lift child) _ (lift-Edits child) λ in_.
      Edits-bind (delete_all rt r l in_.rows) _ (delete_all-Edits r l in_.rows)
        λ done. lift-Edits (ok in_)

  pub delete-Edits :
      (schema relation : Bytes) (selectors : List Selector) (p : Predicate)
      → Edits (delete rt schema relation selectors p)
  unfolding delete
  delete-Edits schema relation selectors p = Edits-bind check_aborted _ check_aborted-Edits λ live.
      Edits-bind (find_relation schema relation) _ (find_relation-Edits schema relation) λ r.
        Edits-bind (plan rt schema selectors p) _ (plan-Edits rt schema selectors p) λ n.
          Edits-bind (relation_at r) _ (relation_at-Edits r) λ o.
            Edits-selected selectors (delete_node rt r o.rows (run_scan rt n))
              (delete_node-Edits r o.rows (run_scan rt n))

  replace_element-Edits :
      (r l : ℕ) (e : Element) (vs : List Value) → Edits (replace_element rt r l e vs)
  unfolding replace_element
  replace_element-Edits r l e vs s u new p =
      let m : Exec Session Element = with_indexes r (λ hs. remove_all rt hs e) >>= λ done.
      with_indexes r (λ hs. add_all rt hs (fresh s vs)) >>= λ done.
      push_change
        (value_change_pointer (record { current = some (fresh s vs); old = some e; l = l }))
      >>= λ done. lift (ok (fresh s vs)) in
      let edits : Edits m =
        Edits-bind (with_indexes r (λ hs. remove_all rt hs e)) _
          (with_indexes-Edits r (λ hs. remove_all rt hs e))
          λ done.
            Edits-bind (with_indexes r (λ hs. add_all rt hs (fresh s vs))) _
              (with_indexes-Edits r (λ hs. add_all rt hs (fresh s vs)))
              λ done.
                Edits-bind
                  (push_change (
                    value_change_pointer
                      (record { current = some (fresh s vs); old = some e; l = l })))
                  _ (push-Edits (record { current = some (fresh s vs); old = some e; l = l }))
                  λ done. lift-Edits (ok (fresh s vs)) in
      let from : Session = record s {
        heap = record s.heap {
          lists =
              set s.heap.lists l
                (remove_element e.address (insert_after (fresh s vs) e.address (list_at l s.heap)));
          next = suc s.heap.next;
        };
      } in
      edits from u new (ground arith)

  update_all-Edits :
      (r l : ℕ) (attrs : List Attribute) (cols : List Bytes) (es : List Element)
      (given : Dict Value)
      → Edits (update_all rt r l attrs cols es given)
  unfolding update_all
  update_all-Edits r l attrs cols [] given = lift-Edits (ok ([], given))
  update_all-Edits r l attrs cols (e ∷ es) given =
      Edits-bind (lift (updated_values rt attrs cols e.tuple.values given)) _
        (lift-Edits (updated_values rt attrs cols e.tuple.values given))
        λ w. Edits-bind (replace_element rt r l e w.0) _ (replace_element-Edits r l e w.0) λ new.
          Edits-bind (update_all rt r l attrs cols es w.1) _
            (update_all-Edits r l attrs cols es w.1) λ more. lift-Edits (ok (new ∷ more.0, more.1))

  all_used-Edits : (left : Dict Value) → Edits (all_used left)
  all_used-Edits [] = lift-Edits (ok tt)
  all_used-Edits ((k, v) ∷ rest) = Edits-reads (all_used ((k, v) ∷ rest)) λ s. refl

  update_node-Edits :
      (r : ℕ) (o : Relation) (given : Dict Value) (child : Outcome Result)
      → Edits (update_node rt r o given child)
  unfolding update_node
  update_node-Edits r o given child = Edits-bind (lift child) _ (lift-Edits child) λ in_.
      Edits-bind (update_all rt r o.rows o.attributes in_.cols in_.rows given) _
        (update_all-Edits r o.rows o.attributes in_.cols in_.rows given)
        λ done.
          Edits-bind (all_used done.1) _ (all_used-Edits done.1)
            λ used. lift-Edits (ok (record { cols = in_.cols; rows = done.0 }))

  pub update-Edits :
      (schema relation : Bytes) (given : Dict Value) (selectors : List Selector) (p : Predicate)
      → Edits (update rt schema relation given selectors p)
  unfolding update
  update-Edits schema relation given selectors p =
      Edits-bind check_aborted _ check_aborted-Edits λ live.
        Edits-bind (find_relation schema relation) _ (find_relation-Edits schema relation) λ r.
          Edits-bind (plan rt schema selectors p) _ (plan-Edits rt schema selectors p) λ n.
            Edits-bind (relation_at r) _ (relation_at-Edits r) λ o.
              Edits-selected selectors (update_node rt r o given (run_scan rt n))
                (update_node-Edits r o given (run_scan rt n))
