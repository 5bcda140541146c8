-- ===== src/Query/Plan/Pushdown.antt =====
-- When the filter of the scanner is the filter of the statement.
use ramsql.Base.{
  ◌≡◌, refl, Bool, true, false, ◌&&◌, List, [], ◌∷◌, ◌++◌, arith, if◌then◌else◌, Bool-cases, inl,
  inr,
}
use ramsql.Base.Bytes.{Bytes, str_eq}
use ramsql.Base.Outcome.{Outcome, ok, ◌>>=◌}
use ramsql.Value.{Runtime}
use ramsql.Tuple.{Tuple}
use ramsql.Predicate.{Predicate, truth, conj, disj, relation_of, eval}
use ramsql.Query.Source.{accepts}
use ramsql.Query.Plan.{pushed_down}

-- A conjunction of conditions on one relation, TRUE among them.
abbrev pub IsConjunctive : Bytes → Predicate → Type 0
IsConjunctive rname truth = Unit
IsConjunctive rname (conj p q) = IsConjunctive rname p × IsConjunctive rname q
IsConjunctive rname p = str_eq (relation_of p) rname ≡ true

abbrev answer : Outcome Bool → Bool
answer (ok b) = b
answer _ = false

module _ (rt : Runtime) (cols : List Bytes) (t : Tuple) where
  accepts-append :
      (ps qs : List Predicate)
      → accepts rt cols (ps ++ qs) t
        ≡ (accepts rt cols ps t >>= λ b. if b then accepts rt cols qs t else ok false)
  unfolding accepts
  accepts-append [] qs = refl
  accepts-append (p ∷ ps) qs = ground (arith, accepts-append ps qs)

  accepts-one :
      (p : Predicate) (b : Bool) → eval rt cols t p ≡ ok b → accepts rt cols (p ∷ []) t ≡ ok b
  unfolding accepts
  accepts-one p b h = ground arith

  truth-pushed_down :
      (rname : Bytes) (b : Bool)
      → eval rt cols t truth ≡ ok b
      → accepts rt cols (pushed_down rname truth) t ≡ ok b
  unfolding pushed_down accepts eval
  truth-pushed_down rname b h = ground arith

  eval-conj :
      (p q : Predicate) (b : Bool)
      → eval rt cols t (conj p q) ≡ ok b
      → (eval rt cols t p ≡ ok (answer (eval rt cols t p)))
        × (eval rt cols t q ≡ ok (answer (eval rt cols t q)))
        × (b ≡ (answer (eval rt cols t p) && answer (eval rt cols t q)))
  unfolding eval
  eval-conj p q b h = (ground arith, ground arith, ground arith)

  -- On a conjunction of conditions on one relation, TRUE among them, which evaluates on a tuple, the
  -- pushed-down predicates answer on that tuple as the whole does.
  pub accepts-pushed_down :
      (rname : Bytes) (p : Predicate) (b : Bool)
      → IsConjunctive rname p
      → eval rt cols t p ≡ ok b
      → accepts rt cols (pushed_down rname p) t ≡ ok b
  unfolding pushed_down
  accepts-pushed_down rname truth b c h = truth-pushed_down rname b h
  accepts-pushed_down rname (conj p q) b c h =
      let (l, r, both) = eval-conj p q b h in
      elim (Bool-cases (str_eq (relation_of (conj p q)) rname)) [
        | inl whole ↦ rw whole (accepts-one (conj p q) b h)
        | inr split ↦
            rw (split, accepts-append (pushed_down rname p) (pushed_down rname q))
              (ground (
                arith,
                accepts-pushed_down rname p (answer (eval rt cols t p)) c.0 l,
                accepts-pushed_down rname q (answer (eval rt cols t q)) c.1 r,
                both,
              ))
      ]
  accepts-pushed_down rname (disj p q) b c h = rw c (accepts-one (disj p q) b h)
  accepts-pushed_down rname p b c h = rw c (accepts-one p b h)
