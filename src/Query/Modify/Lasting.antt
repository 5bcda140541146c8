-- ===== src/Query/Modify/Lasting.antt =====
-- Deletes and updates followed by a rollback.
mod Edits
mod Statements
use mathlib.Core.Path.{subst}
use mathlib.Core.List.{reverse, reverse-cons}
use ramsql.Base.{ℕ, suc, set, ◌≡◌, refl, sym, ap, ◌∙◌, none, some, List, [], ◌∷◌, ◌++◌, map, arith}
use ramsql.Base.Bytes.{Bytes}
use ramsql.Base.Dict
use ramsql.Base.Dict.{Dict}
use ramsql.Base.Outcome.{Outcome, ok}
use ramsql.Store.Rows.{remove_element, insert_after}
use ramsql.Base.Exec.{Exec, lift, modify, ◌>>◌, ◌>>=◌, >>=-eq-ok}
use ramsql.Value.{Value, Runtime}
use ramsql.Tuple.{Tuple}
use ramsql.Index.{Element, HashIndex}
use ramsql.Attribute.{Attribute}
use ramsql.Relation.{Relation, add_all, remove_all}
use ramsql.Predicate.{Predicate, conj, disj, truth, relation_of}
use ramsql.Store.{find_schema, schema_relation}
use ramsql.Transaction.{
  Session, Change, value_change_pointer, check_aborted, or_abort, abort, lock, take_lock,
  relation_at, rollback, look, push_change, change_heap, set_list, list_at,
}
use ramsql.Transaction.Statements.{find_relation}
use ramsql.Query.{Result}
use ramsql.Query.Selectors.{Selector, select_node, selector_relation}
use ramsql.Query.Plan.{touch, rec_lock, lock_selectors, single_scan, plan_body, plan, run_scan}
use ramsql.Query.Updates.{updated_values}
use ramsql.Query.Modify.{
  with_indexes, delete_element, delete_all, delete_node, delete, replace_element, update_all,
  all_used, update_node, update,
}
use ramsql.Query.Modify.Lasting.Edits.{Edited, Edited-trans, ArePointers-reverse}
use ramsql.Query.Modify.Lasting.Statements.{delete-Edits, update-Edits}
use ramsql.Query.Modify.Laws.{ArePointers, rollback-pointers}

-- Deletes and updates that succeed, one after the other, in any tables.
pub data Modified (rt : Runtime) : Session → Session → Type 0 where
  none_yet : {s : Session} → Modified rt s s
  deleted :
      {s t : Session} (u : Session) (schema relation : Bytes) (selectors : List Selector)
      (p : Predicate) (out : List Bytes × List Tuple)
      → Modified rt s t
      → delete rt schema relation selectors p t ≡ (ok out, u)
      → Modified rt s u
  updated :
      {s t : Session} (u : Session) (schema relation : Bytes) (given : Dict Value)
      (selectors : List Selector) (p : Predicate) (out : List Bytes × List Tuple)
      → Modified rt s t
      → update rt schema relation given selectors p t ≡ (ok out, u)
      → Modified rt s u

module _ (rt : Runtime) where
  Modified-Edited : {s u : Session} → Modified rt s u → Edited s u
  Modified-Edited none_yet = (refl, λ q. q)
  Modified-Edited {s} (deleted {t = t} u schema relation selectors p out run h) =
      Edited-trans s t u (Modified-Edited run)
        (delete-Edits rt schema relation selectors p t u out h)
  Modified-Edited {s} (updated {t = t} u schema relation given selectors p out run h) =
      Edited-trans s t u (Modified-Edited run)
        (update-Edits rt schema relation given selectors p t u out h)

  -- Rollback does not undo DELETE and UPDATE: after any number of successful deletes and updates, in
  -- any tables, of a live transaction that began with no changes, it reports success, and every list
  -- of rows stays as the statements left it.
  pub rollback-Modified :
      {s u : Session}
      → s.error ≡ none
      → s.changes ≡ []
      → Modified rt s u
      → ((rollback u).0 ≡ ok tt) × ((rollback u).1.heap.lists ≡ u.heap.lists)
  rollback-Modified {s} {u} live none_noted run =
      let (error, pointers) = Modified-Edited run in
      rollback-pointers u (error ∙ live) (
        ArePointers-reverse u.changes (pointers (subst (λ cs. ArePointers cs) (sym none_noted) tt)))
