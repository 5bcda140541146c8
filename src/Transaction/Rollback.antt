-- ===== src/Transaction/Rollback.antt =====
-- All or nothing: a rollback gives back the lists of rows that the transaction began with.
use ramsql.Base.{ℕ, ◌≡◌, refl, ap, ◌∙◌, none, [], ◌∷◌, arith}
use ramsql.Base.Bytes.{Bytes}
use ramsql.Base.Dict.{Dict}
use ramsql.Base.Outcome.{ok, err, Error}
use ramsql.Base.Framed.{Settled}
use ramsql.Value.{Value, Runtime}
use ramsql.Tuple.{Tuple}
use ramsql.Store.{Heap}
use ramsql.Transaction.{Session, abort, or_abort, rollback, unlock, release_all, release}
use ramsql.Transaction.Abort.{IsAborted, insert-IsAborted, body-SameError, check_aborted_live}
use ramsql.Transaction.Insert.{insert, insert_body}
use ramsql.Transaction.Undo.{IsFresh, Undoes, Undoes-start}
use ramsql.Transaction.Atomic.{insert_body-KeepsUndo}
use ramsql.Transaction.Undo.{Lists}

pub release_all-lists : (d : Dict ℕ) (g : Heap) → (release_all d g).lists ≡ g.lists
unfolding release_all release
release_all-lists [] g = refl
release_all-lists ((name, r) ∷ d) g = release_all-lists d _ ∙ (ground arith)

-- A live session whose change list undoes what was done since `start`.
rollback-Undoes :
    (start : Lists) (s : Session)
    → s.error ≡ none
    → Undoes start s
    → ((rollback s).0 ≡ ok tt)
      × ((rollback s).1.heap.lists ≡ start)
      × ((rollback s).1.changes ≡ [])
      × ((rollback s).1.locks ≡ [])
unfolding rollback unlock
rollback-Undoes start s h u =
    ground (arith, u.back s.heap refl, release_all-lists s.locks (record s.heap { lists = start }))

module _ (rt : Runtime) (schema relation : Bytes) (given : Dict Value) (s : Session) where
  pub insert-ok :
      (t : Tuple) (s' : Session)
      → s.error ≡ none
      → insert rt schema relation given s ≡ (ok t, s')
      → insert_body rt schema relation given s ≡ (ok t, s')
  unfolding insert or_abort abort
  insert-ok t s' h p = ground (arith, check_aborted_live s h)

  -- A failing statement has rolled back from the state that its body left.
  insert-err :
      (e : Error) (s' : Session)
      → s.error ≡ none
      → insert rt schema relation given s ≡ (err e, s')
      → (Settled (insert_body rt schema relation given s).0)
        × (s'.heap ≡ (rollback (insert_body rt schema relation given s).1).1.heap)
  unfolding insert or_abort abort
  insert-err e s' h p = ground (arith, check_aborted_live s h)

-- Inserts that succeed, one after the other, in any tables.
pub data Inserts (rt : Runtime) : Session → Session → Type 0 where
  none_yet : {s : Session} → Inserts rt s s
  one_more :
      {s t : Session} (u : Session) (schema relation : Bytes) (given : Dict Value) (row : Tuple)
      → Inserts rt s t
      → insert rt schema relation given t ≡ (ok row, u)
      → Inserts rt s u

module _ (rt : Runtime) where
  pub Inserts-Undoes :
      {s s' : Session}
      → s.error ≡ none
      → s.changes ≡ []
      → IsFresh s.heap
      → Inserts rt s s'
      → (s'.error ≡ none) × Undoes s.heap.lists s'
  Inserts-Undoes h c f none_yet = (h, Undoes-start _ f c)
  Inserts-Undoes {s} h c f (one_more {t = t} u schema relation given row run p) =
      let (live, undo) = Inserts-Undoes h c f run in
      let q = insert-ok rt schema relation given t row u live p in
      (
        rw q at (body-SameError rt schema relation given t) ∙ live,
        (rw q at (insert_body-KeepsUndo s.heap.lists rt schema relation given t)) tt undo,
      )

  -- Rollback after any number of successful inserts, into any tables, of a live transaction that
  -- began with no changes on a heap with fresh addresses: it succeeds, gives every list of rows back
  -- as it was when the transaction began, and leaves no change and no lock.
  pub rollback-Inserts :
      {s s' : Session}
      → s.error ≡ none
      → s.changes ≡ []
      → IsFresh s.heap
      → Inserts rt s s'
      → ((rollback s').0 ≡ ok tt)
        × ((rollback s').1.heap.lists ≡ s.heap.lists)
        × ((rollback s').1.changes ≡ [])
        × ((rollback s').1.locks ≡ [])
  rollback-Inserts {s} {s'} h c f run =
      let (live, undo) = Inserts-Undoes h c f run in rollback-Undoes s.heap.lists s' live undo

  -- An insert that fails after any number of successful inserts, in a live transaction that began
  -- with no changes on a heap with fresh addresses, has given every list of rows back as it was, and
  -- aborted the transaction with its error: no change and no lock is left.
  pub failed_insert-Inserts :
      {s s' : Session} (t : Session) (schema relation : Bytes) (given : Dict Value) (e : Error)
      → s.error ≡ none
      → s.changes ≡ []
      → IsFresh s.heap
      → Inserts rt s s'
      → insert rt schema relation given s' ≡ (err e, t)
      → (t.heap.lists ≡ s.heap.lists) × IsAborted e t
  failed_insert-Inserts {s} {s'} t schema relation given e h c f run p =
      let (live, undo) = Inserts-Undoes h c f run in
      let (settled, same) = insert-err rt schema relation given s' e t live p in
      let m : Session = (insert_body rt schema relation given s').1 in
      let back =
        rollback-Undoes s.heap.lists m (body-SameError rt schema relation given s' ∙ live)
          (insert_body-KeepsUndo s.heap.lists rt schema relation given s' settled undo) in
      (
        ap (λ (g : Heap). g.lists) same ∙ back.1,
        insert-IsAborted rt schema relation given e s' t live p,
      )
