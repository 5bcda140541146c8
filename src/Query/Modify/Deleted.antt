-- ===== src/Query/Modify/Deleted.antt =====
-- DELETE takes off the list exactly the elements that the scan returned.
use ramsql.Base.{
  ℕ, zero, suc, ◌+◌, ◌<◌, ◌≡◌, refl, sym, ap, ◌∙◌, none, some, List, [], ◌∷◌, set, length,
  length-set, length-append, set-set, arith,
}
use ramsql.Base.Outcome.{ok}
use ramsql.Base.Exec.{>>=-eq-ok}
use ramsql.Value.{Runtime}
use ramsql.Index.{Element}
use ramsql.Store.Rows.{remove_element}
use ramsql.Transaction.{Session, list_at, value_change_pointer}
use ramsql.Transaction.Undo.{Lists, list_in}
use ramsql.Query.Modify.{delete_element, delete_all, with_indexes}

-- The rows without the elements, one after the other.
abbrev pub remove_each : List Element → List Element → List Element
remove_each [] rows = rows
remove_each (e ∷ es) rows = remove_each es (remove_element e.address rows)

delete_element-lists :
    (rt : Runtime) (r l : ℕ) (e : Element) (s : Session)
    → (delete_element rt r l e s).1.heap.lists
      ≡ set s.heap.lists l (remove_element e.address (list_at l s.heap))
unfolding delete_element with_indexes
delete_element-lists rt r l e s = ground arith

delete_element-changes :
    (rt : Runtime) (r l : ℕ) (e : Element) (s : Session)
    → (u : Unit {0}) → (delete_element rt r l e s).0 ≡ ok u
    → length (delete_element rt r l e s).1.changes ≡ length s.changes + 1
unfolding delete_element with_indexes
delete_element-changes rt r l e s u h = ground (
  arith,
  length-append s.changes
      (value_change_pointer (record { current = none; old = some e; l = l }) ∷ []),
)

list_in-set :
    (ls : Lists) (l : ℕ) (es : List Element) → l < length ls → list_in (set ls l es) l ≡ es
list_in-set [] l es h = absurd (omega arith)
list_in-set (x ∷ ls) zero es h = refl
list_in-set (x ∷ ls) (suc l) es h = list_in-set ls l es (omega arith)

set-list_in : (ls : Lists) (l : ℕ) → set ls l (list_in ls l) ≡ ls
set-list_in [] l = refl
set-list_in (x ∷ ls) zero = refl
set-list_in (x ∷ ls) (suc l) = ap (◌∷◌ x) (set-list_in ls l)

-- A delete loop over a list of the heap that ends well leaves in its list the rows without the deleted elements, touches no
-- other list, and notes one change for each element.
pub delete_all-lists :
    (rt : Runtime) (r l : ℕ) (es : List Element) (s s' : Session)
    → l < length s.heap.lists
    → delete_all rt r l es s ≡ (ok tt, s')
    → (s'.heap.lists ≡ set s.heap.lists l (remove_each es (list_at l s.heap)))
      × (length s'.changes ≡ length s.changes + length es)
unfolding delete_all
delete_all-lists rt r l [] s s' h p =
    let e : s ≡ s' = ap (λ x. x.1) p in
    (
      ap (λ (t : Session). t.heap.lists) (sym e) ∙ sym (set-list_in s.heap.lists l),
      omega (arith, ap (λ (t : Session). length t.changes) e),
    )
delete_all-lists rt r l (e ∷ es) s s' h p =
    let (u, q, rest) = >>=-eq-ok (delete_element rt r l e) (λ u. delete_all rt r l es) s s' tt p in
    let t : Session = (delete_element rt r l e s).1 in
    let x : List Element = remove_element e.address (list_in s.heap.lists l) in
    let now : t.heap.lists ≡ set s.heap.lists l x = delete_element-lists rt r l e s in
    let range : l < length t.heap.lists = rw (now, length-set) h in
    let ih = delete_all-lists rt r l es t s' range rest in
    (
      ih.0
          ∙ (ap (λ ls. set ls l (remove_each es (list_in ls l))) now
              ∙ (ap (λ y. set (set s.heap.lists l x) l (remove_each es y))
                    (list_in-set s.heap.lists l x h)
                  ∙ set-set s.heap.lists l x (remove_each es x))),
      omega (arith, ih.1, delete_element-changes rt r l e s u q),
    )
