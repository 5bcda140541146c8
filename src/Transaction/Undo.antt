-- ===== src/Transaction/Undo.antt =====
-- The change list undoes what the inserts of a transaction have pushed.
use mathlib.Core.List.{reverse, reverse-append}
use ramsql.Base.{
  ℕ, zero, suc, ◌≤◌, ◌≡◌, refl, ap, ◌∙◌, ◌==◌, false, none, some, List, [], ◌∷◌, ◌++◌, set,
  get_elem?, arith,
}
use ramsql.Base.Outcome.{ok}
use ramsql.Index.{Element}
use ramsql.Store.{Heap}
use ramsql.Store.Rows.{holds, remove_element, remove_element-push}
use ramsql.Transaction.{
  Session, Change, value_change, revert, revert_all, rollback_value_change, list_at, set_list,
}

abbrev pub Lists : Type 0
Lists = List (List Element)

abbrev pub list_in : Lists → ℕ → List Element
list_in ls l = elim (get_elem? ls l) [ none ↦ [] | some es ↦ es ]

-- No list holds an element at the next address or above it.
abbrev pub IsFresh : Heap → Type 0
IsFresh g = (l n : ℕ) → g.next ≤ n → holds n (list_at l g) ≡ false

-- Taking off what was pushed restores the lists, whatever the address.
undo-push :
    (ls : Lists) (l : ℕ) (e : Element)
    → holds e.address (list_in ls l) ≡ false
    → (let pushed : Lists = set ls l (list_in ls l ++ e ∷ []) in
        set pushed l (remove_element e.address (list_in pushed l)))
      ≡ ls
undo-push [] l e h = refl
undo-push (es ∷ ls) zero e h = ap (λ x. x ∷ ls) (remove_element-push es e h)
undo-push (es ∷ ls) (suc l) e h = ap (◌∷◌ es) (undo-push ls l e h)

-- Reverting the changes of the session from its lists gives the lists `start`, and nothing else
-- of the heap moves.
pub record Undoes (start : Lists) (s : Session) : Type 0 where
  pub fresh : IsFresh s.heap
  pub back :
      (g : Heap)
      → g.lists ≡ s.heap.lists
      → revert_all (reverse s.changes) g ≡ (ok tt, record g { lists = start })

pub Undoes-start : (s : Session) → IsFresh s.heap → s.changes ≡ [] → Undoes s.heap.lists s
unfolding revert_all
Undoes-start s f h = record {
  fresh = f;
  back = λ g e. rw h (ap (λ ls. (ok tt, record g { lists = ls })) e);
}

holds-push :
    (n : ℕ) (es : List Element) (e : Element)
    → holds n es ≡ false
    → (e.address == n) ≡ false
    → holds n (es ++ e ∷ []) ≡ false
unfolding holds
holds-push n [] e h k = ground arith
holds-push n (x ∷ es) e h k = ground (arith, holds-push n es e)

holds-set-push :
    (ls : Lists) (l : ℕ) (e : Element) (n : ℕ)
    → ((k : ℕ) → holds n (list_in ls k) ≡ false)
    → (e.address == n) ≡ false
    → (k : ℕ) → holds n (list_in (set ls l (list_in ls l ++ e ∷ [])) k) ≡ false
holds-set-push [] l e n h d k = h k
holds-set-push (es ∷ ls) zero e n h d zero = holds-push n es e (h 0) d
holds-set-push (es ∷ ls) zero e n h d (suc k) = h (suc k)
holds-set-push (es ∷ ls) (suc l) e n h d zero = h 0
holds-set-push (es ∷ ls) (suc l) e n h d (suc k) = holds-set-push ls l e n (λ j. h (suc j)) d k

abbrev pub inserted : Element → ℕ → Change
inserted e l = value_change (record { current = some e; old = none; l = l })

abbrev pub pushed : Lists → ℕ → Element → Lists
pushed ls l e = set ls l (list_in ls l ++ e ∷ [])

pub Undoes-push :
    (start : Lists) (s t : Session) (l : ℕ) (e : Element)
    → Undoes start s
    → e.address ≡ s.heap.next
    → t.heap.lists ≡ pushed s.heap.lists l e
    → t.heap.next ≡ suc s.heap.next
    → t.changes ≡ s.changes ++ inserted e l ∷ []
    → Undoes start t
unfolding revert_all revert rollback_value_change
Undoes-push start s t l e u a p q c = record {
  fresh = λ k n h.
      rw p (holds-set-push s.heap.lists l e n (λ j. u.fresh j n (omega arith)) (ground arith) k);
  back = λ g b.
      rw (c, reverse-append)
        (u.back (set_list l (remove_element e.address (list_at l g)) g)
          (rw (b ∙ p) (undo-push s.heap.lists l e (rw a (u.fresh l s.heap.next (omega arith))))));
}
