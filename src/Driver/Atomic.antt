-- ===== src/Driver/Atomic.antt =====
-- An INSERT statement outside a transaction is all or nothing.
use mathlib.Core.Path.{subst}
use ramsql.Base.{
  ℕ, ◌≡◌, refl, sym, ap, ◌∙◌, ◌⊎◌, inl, inr, Bool, true, false, none, some, List, [], ◌∷◌, length,
  ltb, arith, if◌then◌else◌,
}
use ramsql.Base.Int.{ℤ, pos}
use ramsql.Base.Bytes.{Bytes}
use ramsql.Base.Outcome.{Outcome, ok, err, panic, blocked, Error}
use ramsql.Base.Exec.{Exec, pure, lift, ◌>>=◌, >>=-eq-err}
use ramsql.Value.{Value}
use ramsql.Index.{values_at}
use ramsql.Store.{Heap}
use ramsql.Parser.Tree.{Decl}
use ramsql.Transaction.{Session, new_transaction, check_aborted, rollback}
use ramsql.Transaction.Statements.{relation_attribute, find_relation}
use ramsql.Transaction.Insert.{insert}
use ramsql.Transaction.Undo.{IsFresh}
use ramsql.Transaction.Rollback.{
  Inserts, none_yet, one_more, rollback-Inserts, failed_insert-Inserts,
}
use ramsql.Executor.Conditions.{below, lexeme_of, first_of, others_of}
use ramsql.Base.Framed.{Framed, Framed-bind, Transitive, deref-state}
use ramsql.Executor.Statement.{Env, Done, first, second}
use ramsql.Executor.Run
use ramsql.Driver.{autocommit, deferred}
use ramsql.Executor.Rows.{
  get_values, guess_id, insert_rows, insert_executor, insert_names, returning, or_malformed,
}

-- A rollback gives the rows back as they were.
abbrev Restores : Session → Session → Type 0
Restores s t = ((rollback t).0 ≡ ok tt) × ((rollback t).1.heap.lists ≡ s.heap.lists)

module _ (env : Env) (s0 : Session) (live : s0.error ≡ none) (clean : s0.changes ≡ [])
    (fresh : IsFresh s0.heap) where
  restored : (s : Session) → Inserts env.runtime s0 s → Restores s0 s
  restored s run = let back = rollback-Inserts env.runtime live clean fresh run in (back.0, back.1)

  restored_aborted :
      (s t : Session) (schema relation : Bytes) (given : ramsql.Base.Dict.Dict Value) (e : Error)
      → Inserts env.runtime s0 s
      → insert env.runtime schema relation given s ≡ (err e, t)
      → Restores s0 t
  unfolding rollback
  restored_aborted s t schema relation given e run p =
      let (lists, aborted) =
        failed_insert-Inserts env.runtime t schema relation given e live clean fresh run p in
      (ground (arith, aborted), ground (arith, aborted, lists))

  -- A part that leaves the state alone, in front of the rest.
  lift-restored :
      {A B : Type 0} (o : Outcome A) (f : A → Exec Session B) (s t : Session) (e : Error)
      → Restores s0 s
      → (lift o >>= f) s ≡ (err e, t)
      → ((a : A) → f a s ≡ (err e, t) → Restores s0 t)
      → Restores s0 t
  lift-restored (ok a) f s t e h p k = k a p
  lift-restored {B} (err x) f s t e h p k =
      subst (Restores s0) (ap (λ (y : Outcome B × Session). y.1) p) h
  lift-restored panic f s t e h p k = absurd (ground arith)
  lift-restored blocked f s t e h p k = absurd (ground arith)

  insert_rows-restored :
      (schema relation : Bytes) (attrs : List Bytes) (idx : List ℕ) (ds : List Decl) (last : ℤ)
      (s t : Session) (e : Error)
      → Inserts env.runtime s0 s
      → insert_rows env schema relation attrs idx ds last s ≡ (err e, t)
      → Restores s0 t
  unfolding insert_rows
  insert_rows-restored schema relation attrs idx [] last s t e run p = absurd (ground arith)
  insert_rows-restored schema relation attrs idx (d ∷ ds) last s t e run p =
      lift-restored (get_values env attrs (below d) 1 []) _ s t e (restored s run) p λ values p1.
        elim (>>=-eq-err (insert env.runtime schema relation values) _ s t e p1) [
          | inl (failed, same) ↦
              restored_aborted s t schema relation values e run (ground (arith, failed, same))
          | inr (row, stored, p2) ↦
              (let u : Session = (insert env.runtime schema relation values s).1 in
                let run' : Inserts env.runtime s0 u =
                  one_more u schema relation values row run (ground (arith, stored)) in
                lift-restored (values_at row.values idx) _ u t e (restored u run') p2 λ returned p3.
                  lift-restored (guess_id env.runtime row.values last) _ u t e (restored u run') p3
                    λ here p4.
                      elim (>>=-eq-err (insert_rows env schema relation attrs idx ds here) _ u t e
                        p4) [
                          | inl (failed, same) ↦
                              insert_rows-restored schema relation attrs idx ds here u t e run'
                                (ground (arith, failed, same))
                          | inr (x, finished, p5) ↦ absurd (ground (arith, p5))
                        ])
        ]

-- RETURNING reads the relation and leaves the state alone.
relation_attribute-state :
    (schema relation name : Bytes) (s : Session) → (relation_attribute schema relation name s).1 ≡ s
unfolding relation_attribute check_aborted find_relation
relation_attribute-state schema relation name s = ground arith

-- The state is as it was, whatever the outcome.
abbrev Still : {A : Type 0} → Exec Session A → Type 0
Still m = Framed (λ s t. t ≡ s) m

still_trans : Transitive {S = Session} (λ s t. t ≡ s)
still_trans s t u h k = k ∙ h

or_malformed-state :
    {A : Type 0} (m : Exec Session A) (s : Session) → (or_malformed m s).1 ≡ (m s).1
unfolding or_malformed
or_malformed-state m s = ground arith

returning_one-state :
    (schema relation : Bytes) (d : Decl) (rest : Exec Session (List Bytes × List ℕ))
    → Still rest
    → Still {A = List Bytes × List ℕ} (
        first (below d) >>= λ e.
        or_malformed (relation_attribute schema relation (lexeme_of e)) >>= λ (i, a).
        rest >>= λ (names, idx). pure (lexeme_of e ∷ names, i ∷ idx))
returning_one-state schema relation d rest h =
    Framed-bind still_trans (first (below d)) _ (deref-state (first_of (below d))) λ e.
      Framed-bind still_trans (or_malformed (relation_attribute schema relation (lexeme_of e))) _
        (λ u.
          or_malformed-state (relation_attribute schema relation (lexeme_of e)) u
          ∙ relation_attribute-state schema relation (lexeme_of e) u)
        λ (i, a). Framed-bind still_trans rest _ h λ x u. refl

returning-state : (schema relation : Bytes) (ds : List Decl) → Still (returning schema relation ds)
unfolding returning
returning-state schema relation [] s = refl
returning-state schema relation (d ∷ ds) s = ground (
  arith,
  returning-state schema relation ds s,
  returning_one-state schema relation d (returning schema relation ds)
      (returning-state schema relation ds) s,
)

asked-state :
    (relation : Decl) (ds : List Decl) (asked : Bool)
    → Still {A = List Bytes × List ℕ}
        (if asked then returning [] (lexeme_of relation) ds else pure ([], []))
asked-state relation ds true = returning-state [] (lexeme_of relation) ds
asked-state relation ds false = λ u. refl

module _ (env : Env) (s : Session) (live : s.error ≡ none) (clean : s.changes ≡ [])
    (fresh : IsFresh s.heap) where
  -- A part that leaves the state alone, in front of the rest.
  Still-restored :
      {A B : Type 0} (m : Exec Session A) (f : A → Exec Session B) (t : Session) (e : Error)
      → Still m
      → (m >>= f) s ≡ (err e, t)
      → ((a : A) → f a s ≡ (err e, t) → Restores s t)
      → Restores s t
  Still-restored m f t e still p k = elim (>>=-eq-err m f s t e p) [
    | inl (failed, same) ↦
        subst (Restores s) (sym (still s) ∙ same) (restored env s live clean fresh s none_yet)
    | inr (a, done, q) ↦ k a (subst (λ u. f a u ≡ (err e, t)) (still s) q)
  ]

  insert_executor-restored :
      (ds : List Decl) (t : Session) (e : Error)
      → insert_executor env ds s ≡ (err e, t)
      → Restores s t
  unfolding insert_executor
  insert_executor-restored ds t e p =
      Still-restored (first ds) _ t e (deref-state (first_of ds)) p λ into p1.
        Still-restored (first (below into)) _ t e (deref-state (first_of (below into))) p1
          λ relation p2.
            Still-restored
              (if ltb 2 (length ds) then returning [] (lexeme_of relation) ds else pure ([], [])) _
              t e (asked-state relation ds (ltb 2 (length ds))) p2
              λ (names, idx) p3.
                Still-restored (second ds) _ t e (deref-state (first_of (others_of ds))) p3
                  λ rows p4.
                    elim (>>=-eq-err
                      (insert_rows env (insert_names (below relation) []).0 (lexeme_of relation)
                        (insert_names (below relation) []).1 idx (below rows) (pos 0))
                      _ s t e p4) [
                        | inl (failed, same) ↦
                            insert_rows-restored env s live clean fresh
                              (insert_names (below relation) []).0 (lexeme_of relation)
                              (insert_names (below relation) []).1 idx (below rows) (pos 0) s t e
                              none_yet (ground (arith, failed, same))
                        | inr (x, finished, p5) ↦ absurd (ground (arith, p5))
                      ]

-- An INSERT statement outside a transaction, on a heap with fresh addresses, that fails, at whatever
-- row or clause: the connection answers with its error, and every list of rows is as it was before the
-- statement, the rows that it had inserted first included.
pub autocommit-insert :
    (env : Env) (ds : List Decl) (failed : Done → Error → Outcome Done) (g : Heap) (e : Error)
    → IsFresh g
    → (insert_executor env ds (new_transaction g)).0 ≡ err e
    → ((autocommit failed (insert_executor env ds) g).0 ≡ err e)
      × ((autocommit failed (insert_executor env ds) g).1.lists ≡ g.lists)
unfolding autocommit deferred Run.rollback new_transaction
autocommit-insert env ds failed g e fresh h =
    let s : Session = new_transaction g in
    let t : Session = (insert_executor env ds s).1 in
    let back : Restores s t =
      insert_executor-restored env s refl refl fresh ds t e (ground (arith, h)) in
    (ground (arith, h, back.0), ground (arith, h, back.0, back.1))
