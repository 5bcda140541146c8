-- ===== src/Query/Source/Laws.antt =====
-- The scanner returns the rows that satisfy every predicate, in the order of the source.
use ramsql.Base.{
  ℕ, zero, suc, ◌<◌, ◌≡◌, refl, Bool, none, some, List, [], ◌∷◌, length, if◌then◌else◌, arith,
}
use ramsql.Base.Bytes.{Bytes}
use ramsql.Base.Outcome.{Outcome, ok, ◌>>=◌}
use ramsql.Value.{Runtime}
use ramsql.Index.{Element}
use ramsql.Predicate.{Predicate}
use ramsql.Query.Source.{
  Source, seq_scan, index_scan, columns, has_next, next, estimate_source, accepts, scan_loop, scan,
}

-- The elements that a source has still to give.
abbrev pub left_in : Source → List Element
left_in (seq_scan cols es) = es
left_in (index_scan cols none) = []
left_in (index_scan cols (some e)) = e ∷ []

-- The elements that pass a test which may fail.
abbrev pub filtered : (Element → Outcome Bool) → List Element → Outcome (List Element)
filtered test [] = ok []
filtered test (e ∷ es) =
    test e >>= λ keep. filtered test es >>= λ rest. ok (if keep then e ∷ rest else rest)

module _ (rt : Runtime) (cols : List Bytes) (ps : List Predicate) where
  scan_loop-seq :
      (fuel : ℕ) (cs : List Bytes) (es : List Element)
      → length es < fuel
      → scan_loop rt fuel cols ps (seq_scan cs es) ≡ filtered (λ e. accepts rt cols ps e.tuple) es
  unfolding scan_loop has_next next
  scan_loop-seq zero cs es h = absurd (omega arith)
  scan_loop-seq (suc fuel) cs [] h = refl
  scan_loop-seq (suc fuel) cs (e ∷ es) h = rw (scan_loop-seq fuel cs es (omega arith))

-- Exec ends, and gives the columns of the source and the rows that pass every predicate in the order
-- of the source, or the first error.
pub scan-filtered :
    (rt : Runtime) (ps : List Predicate) (src : Source)
    → scan rt ps src ≡ (
        filtered (λ e. accepts rt (columns src) ps e.tuple) (left_in src) >>= λ es.
        ok (record { cols = columns src; rows = es }))
unfolding scan estimate_source columns
scan-filtered rt ps (seq_scan cs es) =
    rw (scan_loop-seq rt cs ps (suc (length es)) cs es (omega arith))
scan-filtered rt ps (index_scan cs none) = unfold scan_loop has_next next in refl
scan-filtered rt ps (index_scan cs (some e)) = unfold scan_loop has_next next in refl
