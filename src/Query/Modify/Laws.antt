-- ===== src/Query/Modify/Laws.antt =====
-- What DELETE leaves behind, and what a rollback makes of it.
use mathlib.Core.List.{reverse}
use ramsql.Base.{◌≡◌, refl, none, List, [], ◌∷◌, arith}
use ramsql.Base.Outcome.{ok}
use ramsql.Store.{Heap}
use ramsql.Transaction.{Session, Change, value_change_pointer, revert, revert_all, rollback, unlock}
use ramsql.Transaction.Rollback.{release_all-lists}

-- The changes that the update and delete nodes note.
abbrev pub ArePointers : List Change → Type 0
ArePointers [] = Unit
ArePointers (value_change_pointer c ∷ cs) = ArePointers cs
ArePointers (_ ∷ cs) = ⊥

revert_all-pointers : (cs : List Change) (g : Heap) → ArePointers cs → revert_all cs g ≡ (ok tt, g)
unfolding revert_all revert
revert_all-pointers [] g h = refl
revert_all-pointers (value_change_pointer c ∷ cs) g h = revert_all-pointers cs g h
revert_all-pointers (Change.value_change c ∷ cs) g h = elim h [ ]
revert_all-pointers (Change.relation_change s r o ∷ cs) g h = elim h [ ]
revert_all-pointers (Change.schema_change c o ∷ cs) g h = elim h [ ]

-- Rollback of a live transaction whose changes are all noted by updates and deletes brings no row
-- back: it succeeds, and every list of rows stays as the statements left it.
pub rollback-pointers :
    (s : Session)
    → s.error ≡ none
    → ArePointers (reverse s.changes)
    → ((rollback s).0 ≡ ok tt) × ((rollback s).1.heap.lists ≡ s.heap.lists)
unfolding rollback unlock
rollback-pointers s h p =
    ground
      (arith, revert_all-pointers (reverse s.changes) s.heap p, release_all-lists s.locks s.heap)
