-- ===== src/Transaction/Stale.antt =====
-- What a rollback leaves of the indexes.
use mathlib.Core.Path.{subst}
use ramsql.Index.{Element}
use ramsql.Base.{
  inl, inr, Option-cases, ℕ, zero, suc, ◌≡◌, refl, ap, ◌∙◌, Bool, false, none, some, List, [], ◌∷◌,
  set, get_elem?, arith,
}
use ramsql.Base.Dict.{Dict}
use ramsql.Value.{Runtime}
use ramsql.Tuple.{Tuple}
use ramsql.Relation.{Relation, check_primary_key}
use ramsql.Store.{Heap}
use ramsql.Transaction.{Session, rollback, unlock, release, release_all}
use ramsql.Transaction.Undo.{IsFresh, Undoes}
use ramsql.Transaction.Rollback.{Inserts, Inserts-Undoes}

-- The relation objects are the same but for who holds them.
abbrev SameButHeld : Relation → Relation → Type 0
SameButHeld o p = (b : Bool) × (p ≡ record o { locked = b })

abbrev Holds : ℕ → Relation → Heap → Type 0
Holds r o g = (p : Relation) × (get_elem? g.relations r ≡ some p) × SameButHeld o p

set-SameButHeld :
    (rs : List Relation) (k r : ℕ) (q o : Relation)
    → get_elem? rs k ≡ some q
    → get_elem? rs r ≡ some o
    → (p : Relation) × (get_elem? (set rs k (record q { locked = false })) r ≡ some p)
      × SameButHeld o p
set-SameButHeld [] k r q o a h = absurd (ground (arith, h))
set-SameButHeld (x ∷ rs) zero zero q o a h =
    (record q { locked = false }, refl, (false, ground (arith, a, h)))
set-SameButHeld (x ∷ rs) zero (suc r) q o a h = (o, h, (o.locked, refl))
set-SameButHeld (x ∷ rs) (suc k) zero q o a h = (o, h, (o.locked, refl))
set-SameButHeld (x ∷ rs) (suc k) (suc r) q o a h = set-SameButHeld rs k r q o a h

release-Holds : (k r : ℕ) (o : Relation) (g : Heap) → Holds r o g → Holds r o (release k g)
unfolding release
release-Holds k r o g (p, at, (b, same)) = elim (Option-cases (get_elem? g.relations k)) [
  | inl gone ↦ (p, ground (arith, gone, at), (b, same))
  | inr (q, found) ↦
      let (p', at', (c, same')) = set-SameButHeld g.relations k r q p found at in
      (
        p',
        ground (arith, found, at'),
        (c, same' ∙ ap (λ (x : Relation). record x { locked = c }) same),
      )
]

release_all-Holds :
    (d : Dict ℕ) (r : ℕ) (o : Relation) (g : Heap) → Holds r o g → Holds r o (release_all d g)
unfolding release_all
release_all-Holds [] r o g h = h
release_all-Holds ((name, k) ∷ d) r o g h =
    release_all-Holds d r o (release k g) (release-Holds k r o g h)

rollback-Holds :
    (start : List (List Element)) (s : Session) (r : ℕ) (o : Relation)
    → s.error ≡ none
    → Undoes start s
    → get_elem? s.heap.relations r ≡ some o
    → Holds r o (rollback s).1.heap
unfolding rollback unlock
rollback-Holds start s r o live u at =
    let after : Heap = record s.heap { lists = start } in
    let same : release_all s.locks after ≡ (rollback s).1.heap =
      ground (arith, live, u.back s.heap refl) in
    subst (Holds r o) same (release_all-Holds s.locks r o after (o, at, (o.locked, refl)))

-- Rollback after any number of successful inserts, in a live transaction that began with no changes
-- on a heap with fresh addresses, leaves the primary-key check of every relation as it was before the
-- rollback, for every row: the keys of the rows that are taken off stay taken.
pub rollback-keys_stay :
    (rt : Runtime) {s s' : Session} (r : ℕ) (o : Relation)
    → s.error ≡ none
    → s.changes ≡ []
    → IsFresh s.heap
    → Inserts rt s s'
    → get_elem? s'.heap.relations r ≡ some o
    → (p : Relation) × (get_elem? (rollback s').1.heap.relations r ≡ some p)
      × ((t : Tuple) → check_primary_key rt p t ≡ check_primary_key rt o t)
unfolding check_primary_key
rollback-keys_stay rt {s} {s'} r o h c f run at =
    let (live, undo) = Inserts-Undoes rt h c f run in
    let (p, there, (b, same)) = rollback-Holds s.heap.lists s' r o live undo at in
    (p, there, λ t. ap (λ (x : Relation). check_primary_key rt x t) same)
