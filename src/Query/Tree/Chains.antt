-- ===== src/Query/Tree/Chains.antt =====
-- The tree that Plan builds from joiners: along a chain of relations, and around one relation.
use ramsql.Base.{◌≡◌, refl, ap, ◌∙◌, false, none, some, List, [], ◌∷◌, All, arith}
use ramsql.Base.Bytes.{Bytes, str_eq, str_eq_refl, str_eq-eq}
use ramsql.Base.Dict
use ramsql.Base.Dict.{Dict, lookup, lookup-insert}
use ramsql.Base.Outcome.{ok}
use ramsql.Query.Join.{NaturalJoin}
use ramsql.Query.Plan.{ScanNode}
use ramsql.Query.Tree.{Tree, scanner, join, child_of, note_seen, joined, head_join, head_node}

-- The name is none of those.
abbrev pub IsNew : Bytes → List Bytes → Type 0
IsNew z used = All (λ u. str_eq u z ≡ false) used

-- Each joiner leads from the relation that the one before it has reached to a new one.
abbrev pub IsChain : Bytes → List Bytes → List NaturalJoin → Type 0
IsChain x used [] = Unit
IsChain x used (j ∷ js) = (j.leftr ≡ x) × IsNew j.rightr (x ∷ used) × IsChain j.rightr (x ∷ used) js

-- Every join takes the tree so far on its left, and a scan on its right.
abbrev pub left_deep : Tree → List NaturalJoin → Tree
left_deep t [] = t
left_deep t (j ∷ js) = left_deep (join j t (scanner j.rightr)) js

-- Names that are not used are not seen.
abbrev Unseen : List Bytes → Dict Tree → Type 0
Unseen used seen = (z : Bytes) → IsNew z used → lookup z seen ≡ none

module _ (x : Bytes) (used : List Bytes) (seen : Dict Tree) (t : Tree) (j : NaturalJoin)
    (reached : lookup x seen ≡ some t) (unseen : Unseen (x ∷ used) seen) (from : j.leftr ≡ x)
    (to : IsNew j.rightr (x ∷ used)) where
  left_seen : lookup j.leftr seen ≡ some t
  left_seen = ap (λ n. lookup n seen) from ∙ reached

  joined-chain : joined seen j ≡ join j t (scanner j.rightr)
  unfolding joined child_of note_seen
  joined-chain = ground (arith, left_seen, unseen j.rightr to)

  seen-chain :
      (n : Tree) → note_seen j.rightr n (note_seen j.leftr n seen) ≡ Dict.insert j.rightr n seen
  unfolding note_seen
  seen-chain n = ground (arith, left_seen, unseen j.rightr to)

  Unseen-chain : (n : Tree) → Unseen (j.rightr ∷ x ∷ used) (Dict.insert j.rightr n seen)
  Unseen-chain n z (differs, new) =
      lookup-insert j.rightr z n seen ∙ ground (arith, unseen z new, differs)

head_join-chain :
    (x : Bytes) (used : List Bytes) (seen : Dict Tree) (t : Tree) (js : List NaturalJoin)
    → lookup x seen ≡ some t
    → Unseen (x ∷ used) seen
    → IsChain x used js
    → head_join seen t js ≡ left_deep t js
unfolding head_join
head_join-chain x used seen t [] reached unseen c = refl
head_join-chain x used seen t (j ∷ js) reached unseen (from, to, c) =
    let n : Tree = join j t (scanner j.rightr) in
    ap (λ m. head_join (note_seen j.rightr m (note_seen j.leftr m seen)) m js)
      (joined-chain x used seen t j reached unseen from to)
    ∙ (ap (λ d. head_join d n js) (seen-chain x used seen t j reached unseen from to n)
        ∙ head_join-chain j.rightr (x ∷ used) (Dict.insert j.rightr n seen) n js
            (lookup-insert j.rightr j.rightr n seen ∙ (rw (str_eq_refl j.rightr)))
            (Unseen-chain x used seen t j reached unseen from to n) c)

lookup-nil : (z : Bytes) → lookup {V = Tree} z [] ≡ none
unfolding lookup
lookup-nil z = refl

first_joined :
    (j : NaturalJoin)
    → str_eq j.leftr j.rightr ≡ false
    → joined [] j ≡ join j (scanner j.leftr) (scanner j.rightr)
unfolding joined child_of note_seen lookup Dict.insert Dict.delete
first_joined j h = ground (arith, h)

different : (x y : Bytes) → str_eq x y ≡ false → str_eq y x ≡ false
different x y h = ground (arith, h, str_eq-eq y x, str_eq_refl x)

first_seen :
    (j : NaturalJoin) (n : Tree)
    → str_eq j.leftr j.rightr ≡ false
    → note_seen j.rightr n (Dict.insert j.leftr n [])
      ≡ Dict.insert j.rightr n (Dict.insert j.leftr n [])
unfolding note_seen
first_seen j n h = ground (arith, h, lookup-insert j.leftr j.rightr n [], lookup-nil j.rightr)

-- Joiners in a chain, where each leads from the relation that the one before it has reached to a
-- relation that none before it names, make one left-deep tree: every join is in it, each over the tree
-- of those before it and a scan of its new relation.
pub head_node-chain :
    (scs : Dict ScanNode) (j : NaturalJoin) (js : List NaturalJoin)
    → IsNew j.rightr (j.leftr ∷ [])
    → IsChain j.rightr (j.leftr ∷ []) js
    → head_node scs (j ∷ js) ≡ ok (left_deep (join j (scanner j.leftr) (scanner j.rightr)) js)
unfolding head_node head_join
head_node-chain scs j js new c =
    let n : Tree = join j (scanner j.leftr) (scanner j.rightr) in
    let seen : Dict Tree = Dict.insert j.leftr n [] in
    ap ok (
      ap (λ m. head_join (note_seen j.rightr m (Dict.insert j.leftr m [])) m js)
        (first_joined j new.0)
      ∙ (ap (λ d. head_join d n js) (first_seen j n new.0)
          ∙ head_join-chain j.rightr (j.leftr ∷ []) (Dict.insert j.rightr n seen) n js
              (lookup-insert j.rightr j.rightr n seen ∙ rw (str_eq_refl j.rightr))
              (λ z (differs, (other, done)).
                lookup-insert j.rightr z n seen
                ∙ ground (arith, differs, other, lookup-insert j.leftr z n [], lookup-nil z))
              c))

-- Three joins of one relation, with three others: the tree holds the first and the last, and the
-- second one is lost.
pub head_node-dropped :
    (scs : Dict ScanNode) (a b c : NaturalJoin)
    → b.leftr ≡ a.leftr
    → c.leftr ≡ a.leftr
    → IsNew a.rightr (a.leftr ∷ [])
    → IsNew b.rightr (a.leftr ∷ a.rightr ∷ [])
    → IsNew c.rightr (a.leftr ∷ b.rightr ∷ a.rightr ∷ [])
    → head_node scs (a ∷ b ∷ c ∷ [])
      ≡ ok (join c (join a (scanner a.leftr) (scanner a.rightr)) (scanner c.rightr))
unfolding head_node head_join
head_node-dropped scs a b c p q h k l =
    let x = a.leftr in
    let n : Tree = join a (scanner x) (scanner a.rightr) in
    let m : Tree = join b n (scanner b.rightr) in
    let seen : Dict Tree = Dict.insert a.rightr n (Dict.insert x n []) in
    let later : Dict Tree = Dict.insert b.rightr m seen in
    let there : lookup x seen ≡ some n =
      lookup-insert a.rightr x n (Dict.insert x n [])
      ∙ ground (arith, different x a.rightr h.0, lookup-insert x x n [], str_eq_refl x) in
    let still : lookup x later ≡ some n =
      lookup-insert b.rightr x m seen ∙ ground (arith, different x b.rightr k.0, there) in
    let unseen : Unseen (x ∷ a.rightr ∷ []) seen = λ z (differs, (other, done)).
      lookup-insert a.rightr z n (Dict.insert x n [])
      ∙ ground (arith, differs, other, lookup-insert x z n [], lookup-nil z) in
    let unseen' : Unseen (x ∷ b.rightr ∷ a.rightr ∷ []) later =
      λ z (differs, (second, (other, done))).
        lookup-insert b.rightr z m seen ∙ ground (arith, second, unseen z (differs, (other, tt))) in
    ap ok (
      ap
        (λ t.
          let d : Dict Tree = note_seen a.rightr t (Dict.insert x t []) in
          joined (note_seen b.rightr (joined d b) (note_seen b.leftr (joined d b) d)) c)
        (first_joined a h.0)
      ∙ (ap (λ d. joined (note_seen b.rightr (joined d b) (note_seen b.leftr (joined d b) d)) c)
            (first_seen a n h.0)
          ∙ (ap (λ t. joined (note_seen b.rightr t (note_seen b.leftr t seen)) c)
                (joined-chain x (a.rightr ∷ []) seen n b there unseen p k)
              ∙ (ap (λ d. joined d c) (seen-chain x (a.rightr ∷ []) seen n b there unseen p k m)
                  ∙ joined-chain x (b.rightr ∷ a.rightr ∷ []) later n c still unseen' q l))))
