-- ===== src/Query/Modify/Copies.antt =====
-- Updater.Exec over several rows: what becomes of the rows behind the first one.
use ramsql.Base.{◌≡◌, List, [], ◌∷◌, length, arith, ℕ}
use ramsql.Base.Bytes.{Bytes}
use ramsql.Base.Dict.{Dict}
use ramsql.Base.Outcome.{ok}
use ramsql.Base.Exec.{lift, >>=-eq-ok}
use ramsql.Value.{Value, Runtime}
use ramsql.Attribute.{Attribute}
use ramsql.Index.{Element}
use ramsql.Relation.{Relation}
use ramsql.Transaction.{Session}
use ramsql.Transaction.Append.{tuples}
use ramsql.Query.{Result}
use ramsql.Query.Updates.{updated_values}
use ramsql.Query.Updates.Laws.{
  Untouched, updated_values-copy, updated_values-left, updated_values-Untouched,
}
use ramsql.Query.Modify.{replace_element, update_all, update_node, all_used, with_indexes}

replace_element-tuple :
    (rt : Runtime) (r l : ℕ) (e new : Element) (vs : List Value) (s : Session)
    → (replace_element rt r l e vs s).0 ≡ ok new
    → new.tuple ≡ record { values = vs }
unfolding replace_element with_indexes
replace_element-tuple rt r l e new vs s h = ground arith

module _ (rt : Runtime) (attrs : List Attribute) (cols : List Bytes) where
  left-Untouched :
      (vs ws : List Value) (given left : Dict Value) (ds : List Bytes)
      → Untouched given ds
      → updated_values rt attrs cols vs given ≡ ok (ws, left)
      → Untouched left ds
  left-Untouched vs ws given left [] u h = tt
  left-Untouched vs ws given left (d ∷ ds) u h = (
    updated_values-left rt attrs cols vs ws given left d u.0 h,
    left-Untouched vs ws given left ds u.1 h,
  )

  -- One turn of the loop, where it ends well: the new row, and the turns behind it.
  update_all-turn :
      (r l : ℕ) (e : Element) (es news : List Element) (given rest : Dict Value) (s s' : Session)
      → update_all rt r l attrs cols (e ∷ es) given s ≡ (ok (news, rest), s')
      → (ws : List Value) × (left : Dict Value) × (new : Element) × (more : List Element)
        × (t : Session) × (updated_values rt attrs cols e.tuple.values given ≡ ok (ws, left))
        × (new.tuple ≡ record { values = ws })
        × (update_all rt r l attrs cols es left t ≡ (ok (more, rest), s'))
        × (news ≡ new ∷ more)
  unfolding update_all
  update_all-turn r l e es news given rest s s' h =
      let (w, q, p) =
        >>=-eq-ok (lift (updated_values rt attrs cols e.tuple.values given)) _ s s' (news, rest)
          h in
      let (new, q1, p1) = >>=-eq-ok (replace_element rt r l e w.0) _ s s' (news, rest) p in
      let t : Session = (replace_element rt r l e w.0 s).1 in
      let (more, q2, p2) = >>=-eq-ok (update_all rt r l attrs cols es w.1) _ t s' (news, rest) p1 in
      (
        w.0,
        w.1,
        new,
        more.0,
        t,
        q,
        replace_element-tuple rt r l e new w.0 s q1,
        ground (arith, q2, p2),
        ground (arith, p2),
      )

  update_all-copies :
      (r l : ℕ) (es news : List Element) (given rest : Dict Value) (s s' : Session)
      → Untouched given cols
      → update_all rt r l attrs cols es given s ≡ (ok (news, rest), s')
      → tuples news ≡ tuples es
  unfolding update_all
  update_all-copies r l [] news given rest s s' u h = ground arith
  update_all-copies r l (e ∷ es) news given rest s s' u h =
      let (ws, left, new, more, t, up, tuple, later, split) =
        update_all-turn r l e es news given rest s s' h in
      let later_kept : tuples more ≡ tuples es =
        update_all-copies r l es more left rest t s'
          (left-Untouched e.tuple.values ws given left cols u up) later in
      let kept : ws ≡ e.tuple.values =
        updated_values-copy rt attrs cols e.tuple.values ws given left u up in
      ground (arith, split, tuple, kept, later_kept)

-- UPDATE changes one row at most: where Updater.Exec ends well over the rows of a scan, the first of
-- which has a value for every column, the first row becomes what the loop over its values makes of it
-- with the values of the statement, and every row behind it comes back with the values that it
-- had, since the first one has used up the values of the statement.
pub update_node-copies :
    (rt : Runtime) (r : ℕ) (o : Relation) (given : Dict Value) (cols : List Bytes) (e : Element)
    (es : List Element) (out : Result) (s s' : Session)
    → length e.tuple.values ≡ length cols
    → update_node rt r o given (ok (record { cols = cols; rows = e ∷ es })) s ≡ (ok out, s')
    → (ws : List Value) × (left : Dict Value) × (updated_values rt o.attributes cols e.tuple.values
          given
        ≡ ok (ws, left))
      × (tuples out.rows ≡ record { values = ws } ∷ tuples es)
unfolding update_node
update_node-copies rt r o given cols e es out s s' n h =
    let (done, q, p) =
      >>=-eq-ok (update_all rt r o.rows o.attributes cols (e ∷ es) given) _ s s' out h in
    let t : Session = (update_all rt r o.rows o.attributes cols (e ∷ es) given s).1 in
    let (u, q1, p1) = >>=-eq-ok (all_used done.1) _ t s' out p in
    let (ws, left, new, more, t1, up, tuple, later, split) =
      update_all-turn rt o.attributes cols r o.rows e es done.0 given done.1 s t
        (ground (arith, q)) in
    let kept : tuples more ≡ tuples es =
      update_all-copies rt o.attributes cols r o.rows es more left done.1 t1 t
        (updated_values-Untouched rt o.attributes cols e.tuple.values ws given left n up) later in
    (ws, left, up, ground (arith, p1, split, tuple, kept))
