-- ===== src/Store/Rows.antt =====
-- container/list as the program uses it: the operations on the elements of one list.
use ramsql.Base.{
  ℕ, Bool, false, ◌||◌, Option, none, some, List, [], ◌∷◌, ◌++◌, ◌≡◌, ◌==◌, All, arith,
  if◌then◌else◌,
}
use ramsql.Tuple.{Tuple}
use ramsql.Index.{Element}

-- e.list == l
unfoldable pub holds : ℕ → List Element → Bool
holds a [] = false
holds a (e ∷ es) = e.address == a || holds a es

-- l.Remove(e): a list that does not hold the element stays as it is.
unfoldable pub remove_element : ℕ → List Element → List Element
remove_element a [] = []
remove_element a (e ∷ es) = if e.address == a then es else e ∷ remove_element a es

-- l.InsertAfter(v, mark), where the list holds the mark.
unfoldable pub insert_after : Element → ℕ → List Element → List Element
insert_after n a [] = []
insert_after n a (e ∷ es) = if e.address == a then e ∷ n ∷ es else e ∷ insert_after n a es

-- e.Prev(): the address of the element before, if there is one.
unfoldable pub prev_from : Option ℕ → ℕ → List Element → Option ℕ
prev_from p a [] = none
prev_from p a (e ∷ es) = if e.address == a then p else prev_from (some e.address) a es

unfoldable pub prev : ℕ → List Element → Option ℕ
unfolding prev_from
prev = prev_from none

-- A write through the element's tuple pointer.
unfoldable pub set_tuple : ℕ → Tuple → List Element → List Element
set_tuple a t [] = []
set_tuple a t (e ∷ es) =
    if e.address == a then record e { tuple = t } ∷ es else e ∷ set_tuple a t es

-- Every element lies below the next address, so a new one is in no list.
abbrev pub AllBelow : ℕ → List Element → Type 0
AllBelow n = All (λ e. (e.address == n) ≡ false)

-- An element that was pushed behind a list that does not hold it is taken off again by Remove.
pub remove_element-push :
    (es : List Element) (e : Element)
    → holds e.address es ≡ false
    → remove_element e.address (es ++ e ∷ []) ≡ es
unfolding remove_element holds
remove_element-push [] e h = ground arith
remove_element-push (x ∷ es) e h = ground (arith, remove_element-push es e)
