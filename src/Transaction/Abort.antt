-- ===== src/Transaction/Abort.antt =====
-- What an aborted statement leaves behind.
use mathlib.Core.List.{reverse}
use ramsql.Base.{ℕ, ◌≡◌, ◌∙◌, ap, get_elem?, none, some, List, [], ◌∷◌, arith}
use ramsql.Base.Bytes.{Bytes}
use ramsql.Base.Dict.{Dict}
use ramsql.Base.Outcome.{Outcome, ok, err, NoErr, Error, committed}
use ramsql.Base.Framed.{Framed, Framed-bind, Transitive, deref-state}
use ramsql.Base.Exec.{Exec}
use ramsql.Value.{Value, Runtime}
use ramsql.Relation.{Relation}
use ramsql.Store.{Heap}
use ramsql.Transaction.{
  Session, Change, check_aborted, abort, or_abort, rollback, unlock, revert, revert_all,
  relation_at, lock, take_lock,
}
use ramsql.Transaction.Statements.{find_relation}
use ramsql.Transaction.Insert.{insert, insert_body}
use ramsql.Transaction.Insert.Frame.{insert_row-SameFrame}

-- The transaction holds nothing and remembers the error.
pub record IsAborted (e : Error) (s : Session) : Type 0 where
  pub error : s.error ≡ some e
  pub changes : s.changes ≡ []
  pub locks : s.locks ≡ []

-- Undoing a change works or panics.
revert-NoErr : (c : Change) (g : Heap) → NoErr (revert c g)
unfolding revert
revert-NoErr (Change.value_change c) g = ground arith
revert-NoErr (Change.relation_change s (some r) (some o)) g = ground arith
revert-NoErr _ g = ground arith

abbrev reverted : Heap → Outcome Heap → Heap
reverted g (ok g') = g'
reverted g _ = g

revert_all-NoErr : (cs : List Change) (g : Heap) → NoErr (revert_all cs g).0
unfolding revert_all
revert_all-NoErr [] g = tt
revert_all-NoErr (c ∷ cs) g =
    ground (arith, revert-NoErr c g, revert_all-NoErr cs (reverted g (revert c g)))

abort-IsAborted :
    {A : Type 0} (e e' : Error) (s s' : Session)
    → s.error ≡ none
    → abort {A = A} e s ≡ (err e', s')
    → (e' ≡ e) × IsAborted e s'
unfolding abort rollback unlock
abort-IsAborted e e' s s' h p = ground (arith, revert_all-NoErr (reverse s.changes) s.heap)

abbrev pub raised : {A : Type 0} → Outcome A → Error
raised (err e) = e
raised _ = committed

or_abort-IsAborted :
    {A : Type 0} (m : Exec Session A) (e : Error) (s s' : Session)
    → (m s).1.error ≡ none
    → or_abort m s ≡ (err e, s')
    → IsAborted e s'
unfolding or_abort
or_abort-IsAborted {A} m e s s' h p =
    ground (arith, abort-IsAborted {A = A} (raised (m s).0) e (m s).1 s' h)

take_lock-error : (r : ℕ) (o : Relation) (s : Session) → (take_lock r o s).1.error ≡ s.error
unfolding take_lock
take_lock-error r o s = ground arith

pub check_aborted_live : (s : Session) → s.error ≡ none → check_aborted s ≡ (ok tt, s)
unfolding check_aborted
check_aborted_live s h = ground arith

-- The two sessions have the same error.
abbrev pub SameError : Session → Session → Type 0
SameError s t = t.error ≡ s.error

SameError-trans : Transitive SameError
SameError-trans s t u h k = k ∙ h

pub body-SameError :
    (rt : Runtime) (schema relation : Bytes) (given : Dict Value)
    → Framed SameError (insert_body rt schema relation given)
unfolding insert_body find_relation lock
body-SameError rt schema relation given =
    Framed-bind SameError-trans (find_relation schema relation) _
      (λ s. unfold find_relation in ground arith)
      λ r.
        Framed-bind SameError-trans (lock r) _
          (Framed-bind SameError-trans (relation_at r) _
            (λ s. ap (λ (t : Session). t.error) (deref-state (get_elem? s.heap.relations r) s))
            (λ o. take_lock-error r o))
          λ done s. (insert_row-SameFrame rt r given s).error

-- An Insert that fails in a live transaction has rolled the whole transaction back: its changes and
-- its locks are gone, and it is aborted by the error that is returned.
pub insert-IsAborted :
    (rt : Runtime) (schema relation : Bytes) (given : Dict Value) (e : Error) (s s' : Session)
    → s.error ≡ none
    → insert rt schema relation given s ≡ (err e, s')
    → IsAborted e s'
unfolding insert
insert-IsAborted rt schema relation given e s s' h p =
    or_abort-IsAborted (insert_body rt schema relation given) e s s'
      (body-SameError rt schema relation given s ∙ h) (ground (arith, check_aborted_live s h))
