-- ===== src/Transaction/Insert/Keys.antt =====
-- Insert keeps the primary key: the rows of the table are covered by its index before and after.
use ramsql.Base.{
  ℕ, ◌+◌, ◌<◌, ◌≡◌, sym, ap, ◌∙◌, true, Option, none, some, List, [], ◌∷◌, ◌++◌, set, length,
  get_elem?, get_elem?-set_self, get_elem?-lt, length-set, arith,
}
use mathlib.Core.Path.{subst}
use ramsql.Transaction.Undo.{Lists, list_in}
use ramsql.Base.Dict.{Dict, delete}
use ramsql.Base.Outcome.{Outcome, ok}
use ramsql.Value.{Value, Runtime}
use ramsql.Tuple.{Tuple}
use ramsql.Attribute.{Attribute}
use ramsql.Index.{Element, HashIndex}
use ramsql.Relation.{Relation, add_all, check_primary_key}
use ramsql.Relation.Keys.{CoversRows, CoversRows-add}
use ramsql.Transaction.{Session, list_at}
use ramsql.Transaction.Values.{build_tuple, bump}
use ramsql.Transaction.Insert.Columns.{SameHead, build_tuple-SameHead}
use ramsql.Transaction.Insert.{insert_row, build_row, store_row, store_in, note_row, push_row}

-- Building the tuple moves counters of attributes and nothing else.
pub record SameTable (o p : Relation) : Type 0 where
  pub pk : p.pk ≡ o.pk
  pub rows : p.rows ≡ o.rows
  pub indexes : p.indexes ≡ o.indexes

bump-SameTable : (i : ℕ) (o : Relation) → SameTable o (bump i o)
unfolding bump
bump-SameTable i o = ground arith

SameTable-trans : (o p q : Relation) → SameTable o p → SameTable p q → SameTable o q
SameTable-trans o p q h k = record {
  pk = k.pk ∙ h.pk;
  rows = k.rows ∙ h.rows;
  indexes = k.indexes ∙ h.indexes;
}

build_tuple-SameTable :
    (rt : Runtime) (i : ℕ) (as' : List Attribute) (given : Dict Value) (o : Relation)
    → SameTable o (build_tuple rt i as' given o).1
unfolding build_tuple bump
build_tuple-SameTable rt i [] given o = ground arith
build_tuple-SameTable rt i (a ∷ as') given o =
    let kept = build_tuple-SameTable rt (i + 1) as' (delete a.name given) o in
    let moved = build_tuple-SameTable rt (i + 1) as' (delete a.name given) (bump i o) in
    ground (arith, kept, moved, bump-SameTable i o)

-- What a successful row statement did.
pub record Inserted (rt : Runtime) (r : ℕ) (s s' : Session) (t : Tuple) (o : Relation)
    : Type 0 where
  pub hs : List HashIndex
  pub o' : Relation
  pub same : SameTable o o'
  pub head : SameHead o o'
  pub checked : check_primary_key rt o' t ≡ ok true
  pub added : add_all rt o'.indexes (record { address = s.heap.next; tuple = t }) ≡ ok hs
  pub relations : s'.heap.relations ≡ set (set s.heap.relations r o') r (record o' { indexes = hs })
  pub lists :
      s'.heap.lists
      ≡ set s.heap.lists o'.rows
          (list_at o'.rows s.heap ++ record { address = s.heap.next; tuple = t } ∷ [])

abbrev items : Outcome (List HashIndex) → List HashIndex
items (ok hs) = hs
items _ = []

abbrev pub row_at : Session → Tuple → Element
row_at s t = record { address = s.heap.next; tuple = t }

module _ (rt : Runtime) (r : ℕ) (given : Dict Value) (s s' : Session) (t : Tuple) (o : Relation)
    (at : get_elem? s.heap.relations r ≡ some o) (done : insert_row rt r given s ≡ (ok t, s')) where
  abbrev pub counted : Relation
  counted = (build_tuple rt 0 o.attributes given o).1

  there : get_elem? (set s.heap.relations r counted) r ≡ some counted
  there = get_elem?-set_self s.heap.relations r counted (get_elem?-lt s.heap.relations r o at)

  pub insert_row-Inserted : Inserted rt r s s' t o
  unfolding insert_row build_row store_row store_in note_row push_row
  insert_row-Inserted = record {
    hs = items (add_all rt counted.indexes (row_at s t));
    o' = counted;
    same = build_tuple-SameTable rt 0 o.attributes given o;
    head = build_tuple-SameHead rt 0 o.attributes given o;
    checked = ground (arith, there);
    added = ground (arith, there);
    relations = ground (arith, there);
    lists = ground (arith, there);
  }

-- The table at address r has a primary key, and its index covers the rows.
pub record IsKeyed (rt : Runtime) (r : ℕ) (s : Session) : Type 0 where
  pub o : Relation
  pub h : HashIndex
  pub at : get_elem? s.heap.relations r ≡ some o
  pub has_key : o.pk ≡ [] → ⊥
  pub in_range : o.rows < length s.heap.lists
  pub covers : CoversRows rt o h (list_at o.rows s.heap)

CoversRows-SameTable :
    (rt : Runtime) (o p : Relation) (h : HashIndex) (es : List Element)
    → SameTable o p
    → CoversRows rt o h es
    → CoversRows rt p h es
CoversRows-SameTable rt o p h es same c = record {
  is_pk = rw (same.indexes) c.is_pk;
  same_attrs = c.same_attrs ∙ sym same.pk;
  covers = c.covers;
}

abbrev pub or_empty : Option (List Element) → List Element
or_empty none = []
or_empty (some es) = es

-- Where a table has a primary key whose index covers the rows, so it is after the row part of an
-- Insert that succeeds, the new row included.
pub insert_row-IsKeyed :
    (rt : Runtime) (r : ℕ) (given : Dict Value) (s s' : Session) (t : Tuple)
    → IsKeyed rt r s
    → insert_row rt r given s ≡ (ok t, s')
    → IsKeyed rt r s'
insert_row-IsKeyed rt r given s s' t k p =
    let i = insert_row-Inserted rt r given s s' t k.o k.at p in
    let same = i.same in
    let e : Element = row_at s t in
    let es : List Element = list_at k.o.rows s.heap in
    let lt : r < length s.heap.relations = get_elem?-lt s.heap.relations r k.o k.at in
    let lists : s'.heap.lists ≡ set s.heap.lists k.o.rows (es ++ e ∷ []) =
      i.lists ∙ ap (λ l. set s.heap.lists l (list_at l s.heap ++ e ∷ [])) same.rows in
    let rows = get_elem?-set_self s.heap.lists k.o.rows (es ++ e ∷ []) k.in_range in
    let (h', c) =
      CoversRows-add rt i.o' k.h es e i.hs (λ n. k.has_key (sym same.pk ∙ n))
        (CoversRows-SameTable rt k.o i.o' k.h es same k.covers) i.checked i.added in
    let now : list_at i.o'.rows s'.heap ≡ es ++ e ∷ [] =
      ap (list_in s'.heap.lists) same.rows
      ∙ (ap (λ (ls : Lists). list_in ls k.o.rows) lists ∙ ap or_empty rows) in
    record {
      o = record i.o' { indexes = i.hs };
      h = h';
      at =
          ap (λ rs. get_elem? rs r) i.relations
          ∙ get_elem?-set_self (set s.heap.relations r i.o') r _ (rw length-set lt);
      has_key = λ n. k.has_key (sym same.pk ∙ n);
      in_range = rw (same.rows, lists, length-set) k.in_range;
      covers = subst (CoversRows rt (record i.o' { indexes = i.hs }) h') (sym now) c;
    }
