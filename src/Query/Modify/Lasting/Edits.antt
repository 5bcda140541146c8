-- ===== src/Query/Modify/Lasting/Edits.antt =====
-- Actions that note nothing but pointers to changes: the rules, and what Plan does.
use mathlib.Core.Path.{subst}
use mathlib.Core.List.{reverse, reverse-cons}
use ramsql.Base.{ℕ, ◌≡◌, refl, sym, ap, ◌∙◌, List, [], ◌∷◌, ◌++◌, arith}
use ramsql.Base.Bytes.{Bytes}
use ramsql.Base.Dict
use ramsql.Base.Dict.{Dict}
use ramsql.Base.Outcome.{Outcome, ok}
use ramsql.Base.Exec.{Exec, lift, ◌>>=◌, >>=-eq-ok}
use ramsql.Value.{Runtime}
use ramsql.Predicate.{Predicate, conj, disj, truth, relation_of}
use ramsql.Store.{find_schema, schema_relation}
use ramsql.Transaction.{
  Session, Change, value_change_pointer, check_aborted, or_abort, abort, lock, take_lock,
  relation_at, look,
}
use ramsql.Transaction.Statements.{find_relation}
use ramsql.Query.Selectors.{Selector, selector_relation}
use ramsql.Query.Plan.{touch, rec_lock, lock_selectors, single_scan, plan_body, plan}
use ramsql.Query.Modify.Laws.{ArePointers}

-- The transaction has the same error, and has noted nothing but pointers.
abbrev pub Edited : Session → Session → Type 0
Edited s t = (t.error ≡ s.error) × (ArePointers s.changes → ArePointers t.changes)

pub Edited-trans : (s t u : Session) → Edited s t → Edited t u → Edited s u
Edited-trans s t u h k = (k.0 ∙ h.0, λ p. k.1 (h.1 p))

-- An action that ends well has edited.
abbrev pub Edits : {A : Type 0} → Exec Session A → Type 0
Edits {A} m = (s u : Session) (a : A) → m s ≡ (ok a, u) → Edited s u

pub ArePointers-append :
    (cs : List Change) (d : Change)
    → ArePointers cs
    → ArePointers (d ∷ [])
    → ArePointers (cs ++ d ∷ [])
ArePointers-append [] d h k = k
ArePointers-append (value_change_pointer c ∷ cs) d h k = ArePointers-append cs d h k
ArePointers-append (Change.value_change c ∷ cs) d h k = elim h [ ]
ArePointers-append (Change.relation_change s r o ∷ cs) d h k = elim h [ ]
ArePointers-append (Change.schema_change c o ∷ cs) d h k = elim h [ ]

pub ArePointers-reverse : (cs : List Change) → ArePointers cs → ArePointers (reverse cs)
ArePointers-reverse [] h = h
ArePointers-reverse (value_change_pointer c ∷ cs) h =
    rw (reverse-cons (value_change_pointer c) cs)
      (ArePointers-append (reverse cs) (value_change_pointer c) (ArePointers-reverse cs h) tt)
ArePointers-reverse (Change.value_change c ∷ cs) h = elim h [ ]
ArePointers-reverse (Change.relation_change s r o ∷ cs) h = elim h [ ]
ArePointers-reverse (Change.schema_change c o ∷ cs) h = elim h [ ]

module _ {A B : Type 0} where
  pub Edits-bind :
      (m : Exec Session A) (f : A → Exec Session B)
      → Edits m
      → ((a : A) → Edits (f a))
      → Edits (m >>= f)
  Edits-bind m f h k s u b p =
      let (a, q, rest) = >>=-eq-ok m f s u b p in
      Edited-trans s (m s).1 u (h s (m s).1 a (ground (arith, q))) (k a (m s).1 u b rest)

module _ {A : Type 0} where
  -- The state does not change.
  pub Edits-reads : (m : Exec Session A) → ((s : Session) → (m s).1 ≡ s) → Edits m
  Edits-reads m h s u a p =
      let same : s ≡ u = sym (h s) ∙ ap (λ (x : Outcome A × Session). x.1) p in
      subst (λ (t : Session). Edited s t) same (refl, λ q. q)

  pub Edits-or_abort : (m : Exec Session A) → Edits m → Edits (or_abort m)
  unfolding or_abort abort
  Edits-or_abort m h s u a p = h s u a (ground arith)

pub check_aborted-Edits : Edits check_aborted
unfolding check_aborted
check_aborted-Edits = Edits-reads check_aborted λ s. ground arith

lock-Edits : (r : ℕ) → Edits (lock r)
unfolding lock take_lock
lock-Edits r s u a p = (ground arith, λ q. ground arith)

pub relation_at-Edits : (r : ℕ) → Edits (relation_at r)
relation_at-Edits r = Edits-reads (relation_at r) λ s. ground arith

pub find_relation-Edits : (schema name : Bytes) → Edits (find_relation schema name)
unfolding find_relation
find_relation-Edits schema name = Edits-reads (find_relation schema name) λ s. ground arith

pub lift-Edits : {A : Type 0} (o : Outcome A) → Edits (lift {S = Session} o)
lift-Edits o = Edits-reads (lift o) λ s. refl

look-Edits : {A : Type 0} (f : ramsql.Store.Heap → Outcome A) → Edits (look f)
look-Edits f = Edits-reads (look f) λ s. refl

touch-Edits : (schema name : Bytes) (rels : Dict ℕ) → Edits (touch schema name rels)
unfolding touch
touch-Edits schema [] rels = lift-Edits (ok rels)
touch-Edits schema (c ∷ name) rels =
    Edits-bind (look (find_schema schema)) _ (look-Edits (find_schema schema)) λ d.
      Edits-bind (look (schema_relation d (c ∷ name))) _ (look-Edits (schema_relation d (c ∷ name)))
        λ r.
          Edits-bind (lock r) _ (lock-Edits r)
            λ done. lift-Edits (ok (Dict.insert (c ∷ name) r rels))

rec_lock-Edits : (schema : Bytes) (p : Predicate) (rels : Dict ℕ) → Edits (rec_lock schema p rels)
unfolding rec_lock
rec_lock-Edits schema (conj p q) rels =
    Edits-bind (touch schema (relation_of (conj p q)) rels) _
      (touch-Edits schema (relation_of (conj p q)) rels)
      λ here.
        Edits-bind (rec_lock schema p here) _ (rec_lock-Edits schema p here)
          (rec_lock-Edits schema q)
rec_lock-Edits schema (disj p q) rels =
    Edits-bind (touch schema (relation_of (disj p q)) rels) _
      (touch-Edits schema (relation_of (disj p q)) rels)
      λ here.
        Edits-bind (rec_lock schema p here) _ (rec_lock-Edits schema p here)
          (rec_lock-Edits schema q)
rec_lock-Edits schema truth rels = touch-Edits schema (relation_of truth) rels
rec_lock-Edits schema p rels = touch-Edits schema (relation_of p) rels

lock_selectors-Edits :
    (schema : Bytes) (sels : List Selector) (rels : Dict ℕ)
    → Edits (lock_selectors schema sels rels)
unfolding lock_selectors
lock_selectors-Edits schema [] rels = lift-Edits (ok rels)
lock_selectors-Edits schema (sel ∷ sels) rels =
    Edits-bind (look (find_schema schema)) _ (look-Edits (find_schema schema)) λ d.
      Edits-bind (look (schema_relation d (selector_relation sel))) _
        (look-Edits (schema_relation d (selector_relation sel)))
        λ r.
          Edits-bind (lock r) _ (lock-Edits r)
            λ done. lock_selectors-Edits schema sels (Dict.insert (selector_relation sel) r rels)

module _ (rt : Runtime) where
  single_scan-Edits : (p : Predicate) (rels : Dict ℕ) → Edits (single_scan rt p rels)
  unfolding single_scan
  single_scan-Edits p [] = Edits-reads (single_scan rt p []) λ s. refl
  single_scan-Edits p ((name, r) ∷ []) =
      Edits-reads (single_scan rt p ((name, r) ∷ [])) λ s. ground arith
  single_scan-Edits p (a ∷ b ∷ rels) = Edits-reads (single_scan rt p (a ∷ b ∷ rels)) λ s. refl

  pub plan-Edits :
      (schema : Bytes) (selectors : List Selector) (p : Predicate)
      → Edits (plan rt schema selectors p)
  unfolding plan plan_body
  plan-Edits schema selectors p = Edits-bind check_aborted _ check_aborted-Edits λ live.
      Edits-or_abort (plan_body rt schema selectors p) (
        Edits-bind (look (find_schema schema)) _ (look-Edits (find_schema schema)) λ d.
          Edits-bind (rec_lock schema p []) _ (rec_lock-Edits schema p []) λ here.
            Edits-bind (lock_selectors schema selectors here) _
              (lock_selectors-Edits schema selectors here) (single_scan-Edits p))
