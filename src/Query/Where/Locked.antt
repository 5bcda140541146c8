-- ===== src/Query/Where/Locked.antt =====
-- What Plan locks for a condition on one table.
use ramsql.Base.{
  ℕ, ◌≡◌, ◌≢◌, refl, sym, ◌∙◌, ◌⊎◌, inl, inr, Bool-cases, true, some, [], ◌∷◌, get_elem?,
  get_elem?-set_self, get_elem?-lt, arith,
}
use ramsql.Base.Bytes.{Bytes, str_eq, str_eq_refl, str_eq-eq}
use ramsql.Base.Dict
use ramsql.Base.Dict.{Dict, lookup}
use ramsql.Base.Outcome.{Outcome, ok}
use ramsql.Predicate.{Predicate, truth, falsity, conj, disj, neg, comparison, among, relation_of}
use ramsql.Relation.{Relation}
use ramsql.Transaction.{Session, lock, take_lock}
use ramsql.Transaction.Append.{Table, Shows, lock-Shows}
use ramsql.Query.Selectors.{star}
use ramsql.Query.Plan.{rec_lock, touch, lock_selectors}
use ramsql.Query.Plan.Pushdown.{IsConjunctive}

-- The relation that a part of such a condition names.
abbrev pub IsNamed : Bytes → Bytes → Type 0
IsNamed name rname = (rname ≡ []) ⊎ (rname ≡ name)

-- A part whose relation is the named one has only parts of that relation.
named-IsConjunctive :
    (name : Bytes) (p : Predicate) → name ≢ [] → relation_of p ≡ name → IsConjunctive name p
unfolding relation_of
named-IsConjunctive name truth some_name h = tt
named-IsConjunctive name falsity some_name h = absurd (some_name (sym h))
named-IsConjunctive name (conj p q) some_name h =
    let l : relation_of p ≡ name =
      ground (arith, some_name, h, str_eq-eq (relation_of p) (relation_of q)) in
    let r : relation_of q ≡ name =
      ground (arith, some_name, h, str_eq-eq (relation_of p) (relation_of q)) in
    (named-IsConjunctive name p some_name l, named-IsConjunctive name q some_name r)
named-IsConjunctive name (disj p q) some_name h = rw h (str_eq_refl name)
named-IsConjunctive name (neg p) some_name h = rw h (str_eq_refl name)
named-IsConjunctive name (comparison c l r) some_name h = rw h (str_eq_refl name)
named-IsConjunctive name (among f rows) some_name h = rw h (str_eq_refl name)

conjunctive-IsNamed :
    (name : Bytes) (p : Predicate) → IsConjunctive name p → IsNamed name (relation_of p)
unfolding relation_of
conjunctive-IsNamed name truth c = inl refl
conjunctive-IsNamed name falsity c = inr (str_eq-eq [] name c)
conjunctive-IsNamed name (conj p q) c = elim (Bool-cases (str_eq (relation_of p) (relation_of q))) [
  | inl same ↦ rw same (conjunctive-IsNamed name p c.0)
  | inr other ↦ rw other (inl refl)
]
conjunctive-IsNamed name (disj p q) c = inr (str_eq-eq (relation_of (disj p q)) name c)
conjunctive-IsNamed name (neg p) c = inr (str_eq-eq (relation_of (neg p)) name c)
conjunctive-IsNamed name (comparison o l r) c =
    inr (str_eq-eq (relation_of (comparison o l r)) name c)
conjunctive-IsNamed name (among f rows) c = inr (str_eq-eq (relation_of (among f rows)) name c)

-- Both parts of a disjunction on one relation are on it.
disj-parts :
    (name : Bytes) (p q : Predicate)
    → name ≢ []
    → IsConjunctive name (disj p q)
    → IsConjunctive name p × IsConjunctive name q
unfolding relation_of
disj-parts name p q some_name c =
    let whole : relation_of (disj p q) ≡ name = str_eq-eq (relation_of (disj p q)) name c in
    let l : relation_of p ≡ name =
      ground (arith, some_name, whole, str_eq-eq (relation_of p) (relation_of q)) in
    let r : relation_of q ≡ name =
      ground (arith, some_name, whole, str_eq-eq (relation_of p) (relation_of q)) in
    (named-IsConjunctive name p some_name l, named-IsConjunctive name q some_name r)

module _ (schema name : Bytes) (r : ℕ) (a : Table) where
  -- The session still shows the table, with the name and the indexes of its relation.
  abbrev pub Still : (s : Session) → Shows schema name r a s → Session → Type 0
  Still s h t = (k : Shows schema name r a t) × (k.o.name ≡ h.o.name) × (k.o.indexes ≡ h.o.indexes)

  lock-kept :
      (s t : Session) (h : Shows schema name r a s) (o : Relation)
      → lock r s ≡ (ok tt, t)
      → get_elem? t.heap.relations r ≡ some o
      → (o.name ≡ h.o.name) × (o.indexes ≡ h.o.indexes)
  unfolding lock take_lock
  lock-kept s t h o p at =
      let there =
        get_elem?-set_self s.heap.relations r (record h.o { locked = true })
          (get_elem?-lt s.heap.relations r h.o h.at) in
      (ground (arith, h.at, p, at, there), ground (arith, h.at, p, at, there))

  lock-Still :
      (s : Session) (h : Shows schema name r a s)
      → (t : Session) × (lock r s ≡ (ok tt, t)) × Still s h t
  lock-Still s h =
      let (t, locked, k) = lock-Shows schema name r a s h in
      let kept = lock-kept s t h k.o locked k.at in (t, locked, (k, kept.0, kept.1))

  -- The relations that are locked so far.
  abbrev pub AtMost : Dict ℕ → Type 0
  AtMost rels = (rels ≡ []) ⊎ (rels ≡ (name, r) ∷ [])

  insert-AtMost : (rels : Dict ℕ) → AtMost rels → Dict.insert name r rels ≡ (name, r) ∷ []
  unfolding Dict.insert Dict.delete
  insert-AtMost rels (inl e) = rw e refl
  insert-AtMost rels (inr e) = rw (e, str_eq_refl name) refl

  -- Locking for the condition succeeds, notes at most the table, and still shows it.
  abbrev pub Locked : (s : Session) → Shows schema name r a s → Outcome (Dict ℕ) × Session → Type 0
  Locked s h out =
      (rels : Dict ℕ) × (t : Session) × (out ≡ (ok rels, t)) × AtMost rels × Still s h t

  module _ (some_name : name ≢ []) where
    touch-Locked :
        (s : Session) (h : Shows schema name r a s) (rname : Bytes) (rels : Dict ℕ)
        → AtMost rels
        → IsNamed name rname
        → Locked s h (touch schema rname rels s)
    unfolding touch
    touch-Locked s h [] rels m n = (rels, s, refl, m, (h, refl, refl))
    touch-Locked s h (c ∷ rname) rels m (inl e) = absurd (ground arith)
    touch-Locked s h (c ∷ rname) rels m (inr e) =
        let (t, locked, still) = lock-Still s h in
        (
          (name, r) ∷ [],
          t,
          rw e (ground (arith, h.in_engine, h.in_schema, locked, insert-AtMost rels m)),
          inr refl,
          still,
        )

    pub rec_lock-Locked :
        (s : Session) (h : Shows schema name r a s) (p : Predicate) (rels : Dict ℕ)
        → AtMost rels
        → IsConjunctive name p
        → Locked s h (rec_lock schema p rels s)
    unfolding rec_lock
    rec_lock-Locked s h truth rels m c =
        touch-Locked s h (relation_of truth) rels m (conjunctive-IsNamed name truth c)
    rec_lock-Locked s h (conj p q) rels m c =
        let (rels1, s1, e1, m1, (k1, n1, i1)) =
          touch-Locked s h (relation_of (conj p q)) rels m
            (conjunctive-IsNamed name (conj p q) c) in
        let (rels2, s2, e2, m2, (k2, n2, i2)) = rec_lock-Locked s1 k1 p rels1 m1 c.0 in
        let (rels3, s3, e3, m3, (k3, n3, i3)) = rec_lock-Locked s2 k2 q rels2 m2 c.1 in
        (rels3, s3, ground (arith, e1, e2, e3), m3, (k3, n3 ∙ n2 ∙ n1, i3 ∙ i2 ∙ i1))
    rec_lock-Locked s h (disj p q) rels m c =
        let (l, u) = disj-parts name p q some_name c in
        let (rels1, s1, e1, m1, (k1, n1, i1)) =
          touch-Locked s h (relation_of (disj p q)) rels m
            (conjunctive-IsNamed name (disj p q) c) in
        let (rels2, s2, e2, m2, (k2, n2, i2)) = rec_lock-Locked s1 k1 p rels1 m1 l in
        let (rels3, s3, e3, m3, (k3, n3, i3)) = rec_lock-Locked s2 k2 q rels2 m2 u in
        (rels3, s3, ground (arith, e1, e2, e3), m3, (k3, n3 ∙ n2 ∙ n1, i3 ∙ i2 ∙ i1))
    rec_lock-Locked s h p rels m c =
        touch-Locked s h (relation_of p) rels m (conjunctive-IsNamed name p c)

    pub lock_selectors-Locked :
        (s : Session) (h : Shows schema name r a s) (rels : Dict ℕ)
        → AtMost rels
        → (t : Session) × (lock_selectors schema (star name ∷ []) rels s ≡ (ok ((name, r) ∷ []), t))
          × Still s h t
    unfolding lock_selectors
    lock_selectors-Locked s h rels m =
        let (t, locked, still) = lock-Still s h in
        (t, ground (arith, h.in_engine, h.in_schema, locked, insert-AtMost rels m), still)
