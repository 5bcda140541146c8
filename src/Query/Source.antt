-- ===== src/Query/Source.antt =====
-- engine/agnostic/source.go and scanner.go: the two sources of rows, and the scanner that filters one.
pub mod Laws
use ramsql.Base.{
  ℕ, zero, suc, ◌+◌, ◌/◌, Bool, true, false, Option, none, some, List, [], ◌∷◌, map, if◌then◌else◌,
  length,
}
use ramsql.Base.Bytes.{Bytes}
use ramsql.Base.Outcome.{Outcome, ok, err, panic, blocked, ◌>>=◌}
use ramsql.Value.{Runtime}
use ramsql.Tuple.{Tuple}
use ramsql.Index.{Element, HashIndex, get}
use ramsql.Predicate.{Predicate, Functor, eval, value}
use ramsql.Relation.{Relation}
use ramsql.Query.{Result}

-- SeqScanSrc holds the elements from its position on; IndexSrc holds at most one element.
pub data Source : Type 0 where
  seq_scan : List Bytes → List Element → Source
  index_scan : List Bytes → Option Element → Source

-- NewSeqScan
unfoldable pub new_seq_scan : Relation → List Element → Source
new_seq_scan r rows = seq_scan (map (λ a. a.name) r.attributes) rows

-- NewHashIndexSource: the right side of the predicate is read with no columns and no tuple.
unfoldable pub new_index_source : Runtime → HashIndex → Functor → Outcome Source
new_index_source rt h right = do
  v ← value rt right [] (record { values = [] })
  ok (index_scan h.rel_attrs (get rt h (v ∷ [])))

unfoldable pub columns : Source → List Bytes
columns (seq_scan cols es) = cols
columns (index_scan cols e) = cols

unfoldable pub has_next : Source → Bool
has_next (seq_scan cols []) = false
has_next (seq_scan cols (e ∷ es)) = true
has_next (index_scan cols none) = false
has_next (index_scan cols (some e)) = true

unfoldable pub next : Source → Option Element × Source
next (seq_scan cols []) = (none, seq_scan cols [])
next (seq_scan cols (e ∷ es)) = (some e, seq_scan cols es)
next (index_scan cols none) = (none, index_scan cols none)
next (index_scan cols (some e)) = (some e, index_scan cols none)

-- EstimateCardinal of a source that has not been read, and of a scanner over it.
unfoldable pub estimate_source : Source → ℕ
estimate_source (seq_scan cols es) = length es
estimate_source (index_scan cols none) = 0
estimate_source (index_scan cols (some e)) = 1

unfoldable pub estimate_scanner : Source → List Predicate → ℕ
estimate_scanner s [] = estimate_source s
estimate_scanner s (p ∷ ps) = estimate_source s / 2 + 1

-- The inner loop: the predicates are tried until one fails.
unfoldable pub accepts : Runtime → List Bytes → List Predicate → Tuple → Outcome Bool
accepts rt cols [] t = ok true
accepts rt cols (p ∷ ps) t =
    let rest = accepts rt cols ps t in eval rt cols t p >>= λ yes'. if yes' then rest else ok false

-- The loop of RelationScanner.Exec, `for s.src.HasNext()`, with fuel; it panics where the fuel ends.
unfoldable pub scan_loop :
    Runtime → ℕ → List Bytes → List Predicate → Source → Outcome (List Element)
scan_loop rt zero cols ps src = panic
scan_loop rt (suc fuel) cols ps src =
    let (e, src') = next src in
    let rest = scan_loop rt fuel cols ps src' in
    if has_next src
    then elim e [
      | none ↦ panic
      | some e ↦
          accepts rt cols ps e.tuple >>= λ keep. rest >>= λ es. ok (if keep then e ∷ es else es)
    ]
    else ok []

-- The fuel is one more than the elements that the source holds.
unfoldable pub scan : Runtime → List Predicate → Source → Outcome Result
scan rt ps src = do
  rows ← scan_loop rt (suc (estimate_source src)) (columns src) ps src
  ok (record { cols = columns src; rows = rows })
