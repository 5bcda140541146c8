-- ===== src/Transaction/Atomic.antt =====
-- Every step of Insert keeps what the change list can undo.
use ramsql.Base.{ℕ, ◌≡◌, refl, ◌∙◌, Bool, true, false, List, [], ◌∷◌, arith}
use ramsql.Base.Bytes.{Bytes}
use ramsql.Base.Dict.{Dict}
use ramsql.Base.Outcome.{Outcome, ok, err, panic, blocked, NoErr}
use ramsql.Base.Framed.{Framed, Framed-bind, Settles, Settles-bind, Settled, Transitive}
use ramsql.Base.Exec.{Exec, lift, pure, ◌>>=◌, ◌>>◌}
use ramsql.Value.{Value, Runtime}
use ramsql.Tuple.{Tuple, value_at}
use ramsql.Index
use ramsql.Index.{Element, HashIndex, values_at, sum_of}
use ramsql.Relation.{Relation, add_all, check_primary_key}
use ramsql.Transaction.{Session, relation_at, lock, take_lock, change_heap}
use ramsql.Transaction.Statements.{find_relation}
use ramsql.Transaction.Insert.{
  insert_body, store_in, note_row, insert_row, build_row, store_row, push_row, none_left,
  require_key,
}
use ramsql.Transaction.Undo.{Undoes, Undoes-push, Lists}

-- The parts that the change list speaks of are as they were.
record SameRows (s t : Session) : Type 0 where
  lists : t.heap.lists ≡ s.heap.lists
  next : t.heap.next ≡ s.heap.next
  changes : t.changes ≡ s.changes

values_at-NoErr : (vs : List Value) (is : List ℕ) → NoErr (values_at vs is)
unfolding values_at value_at
values_at-NoErr vs [] = tt
values_at-NoErr vs (i ∷ is) = ground (arith, values_at-NoErr vs is)

add-NoErr : (rt : Runtime) (h : HashIndex) (e : Element) → NoErr (Index.add rt h e)
unfolding Index.add sum_of
add-NoErr rt h e = ground (arith, values_at-NoErr e.tuple.values h.attrs)

add_all-NoErr : (rt : Runtime) (hs : List HashIndex) (e : Element) → NoErr (add_all rt hs e)
unfolding add_all
add_all-NoErr rt [] e = tt
add_all-NoErr rt (h ∷ hs) e = ground (arith, add-NoErr rt h e, add_all-NoErr rt hs e)

relation_at-SameRows : (r : ℕ) → Framed SameRows (relation_at r)
relation_at-SameRows r s = ground arith

SameRows-refl : (s : Session) → SameRows s s
SameRows-refl s = record { lists = refl; next = refl; changes = refl }

SameRows-trans : Transitive SameRows
SameRows-trans s t u h k = record {
  lists = k.lists ∙ h.lists;
  next = k.next ∙ h.next;
  changes = k.changes ∙ h.changes;
}

build_row-SameRows :
    (rt : Runtime) (r : ℕ) (given : Dict Value) → Framed SameRows (build_row rt r given)
unfolding build_row
build_row-SameRows rt r given s = ground arith

none_left-SameRows : (left : Dict Value) → Framed SameRows (none_left left)
none_left-SameRows [] s = SameRows-refl s
none_left-SameRows ((k, v) ∷ rest) s = SameRows-refl s

require_key-SameRows : (free : Bool) → Framed SameRows (require_key free)
require_key-SameRows true s = SameRows-refl s
require_key-SameRows false s = SameRows-refl s

find_relation-SameRows : (schema name : Bytes) → Framed SameRows (find_relation schema name)
unfolding find_relation
find_relation-SameRows schema name s = ground arith

take_lock-SameRows : (r : ℕ) (o : Relation) → Framed SameRows (take_lock r o)
unfolding take_lock
take_lock-SameRows r o s = ground arith

lock-SameRows : (r : ℕ) → Framed SameRows (lock r)
unfolding lock
lock-SameRows r =
    Framed-bind SameRows-trans (relation_at r) _ (relation_at-SameRows r) (take_lock-SameRows r)

module _ (start : Lists) where
  -- An action keeps what the change list can undo.
  abbrev pub KeepsUndo : Session → Session → Type 0
  KeepsUndo s t = Undoes start s → Undoes start t

  KeepsUndo-trans : Transitive KeepsUndo
  KeepsUndo-trans s t u h k x = k (h x)

  KeepsUndo-SameRows : (s t : Session) → SameRows s t → KeepsUndo s t
  KeepsUndo-SameRows s t h u = record {
    fresh = λ l n k. rw (h.lists) (u.fresh l n (omega (arith, h.next)));
    back = λ g b. rw (h.changes) (u.back g (b ∙ h.lists));
  }

  of_SameRows : {A : Type 0} (m : Exec Session A) → Framed SameRows m → Settles KeepsUndo m
  of_SameRows m h s d = KeepsUndo-SameRows s (m s).1 (h s)

  noted-KeepsUndo :
      (r : ℕ) (o : Relation) (t : Tuple) (s : Session) (indexes : Outcome (List HashIndex))
      → (let e : Element = record { address = s.heap.next; tuple = t } in
          let s1 : Session = change_heap (push_row o.rows t) s in
          let rest : Exec Session Tuple = lift indexes >>= λ hs. note_row r o e hs >> pure t in
          NoErr indexes → Settled (rest s1).0 → Undoes start s → Undoes start (rest s1).1)
  unfolding note_row push_row
  noted-KeepsUndo r o t s (ok hs) n d u =
      Undoes-push start s _ o.rows (record { address = s.heap.next; tuple = t }) u refl refl refl
        refl
  noted-KeepsUndo r o t s (err x) n d u = absurd n
  noted-KeepsUndo r o t s panic n d u = absurd d
  noted-KeepsUndo r o t s blocked n d u = absurd d

  store_in-KeepsUndo :
      (rt : Runtime) (r : ℕ) (t : Tuple) (o : Relation) → Settles KeepsUndo (store_in rt r t o)
  unfolding store_in
  store_in-KeepsUndo rt r t o s d u =
      let e : Element = record { address = s.heap.next; tuple = t } in
      noted-KeepsUndo r o t s (add_all rt o.indexes e) (add_all-NoErr rt o.indexes e) d u

  store_row-KeepsUndo : (rt : Runtime) (r : ℕ) (t : Tuple) → Settles KeepsUndo (store_row rt r t)
  unfolding store_row
  store_row-KeepsUndo rt r t =
      Settles-bind KeepsUndo-trans (relation_at r) _
        (of_SameRows (relation_at r) (relation_at-SameRows r)) (store_in-KeepsUndo rt r t)

  insert_row-KeepsUndo :
      (rt : Runtime) (r : ℕ) (given : Dict Value) → Settles KeepsUndo (insert_row rt r given)
  unfolding insert_row
  insert_row-KeepsUndo rt r given =
      Settles-bind KeepsUndo-trans (build_row rt r given) _
        (of_SameRows (build_row rt r given) (build_row-SameRows rt r given))
        λ (vs, left).
          Settles-bind KeepsUndo-trans (none_left left) _
            (of_SameRows (none_left left) (none_left-SameRows left))
            λ done.
              Settles-bind KeepsUndo-trans (relation_at r) _
                (of_SameRows (relation_at r) (relation_at-SameRows r))
                λ o.
                  Settles-bind KeepsUndo-trans
                    (lift (check_primary_key rt o (record { values = vs }))) _ (λ s d u. u)
                    λ free.
                      Settles-bind KeepsUndo-trans (require_key free) _
                        (of_SameRows (require_key free) (require_key-SameRows free))
                        λ done'. store_row-KeepsUndo rt r (record { values = vs })

  pub insert_body-KeepsUndo :
      (rt : Runtime) (schema relation : Bytes) (given : Dict Value)
      → Settles KeepsUndo (insert_body rt schema relation given)
  unfolding insert_body
  insert_body-KeepsUndo rt schema relation given =
      Settles-bind KeepsUndo-trans (find_relation schema relation) _
        (of_SameRows (find_relation schema relation) (find_relation-SameRows schema relation))
        λ r.
          Settles-bind KeepsUndo-trans (lock r) _ (of_SameRows (lock r) (lock-SameRows r))
            λ done. insert_row-KeepsUndo rt r given
