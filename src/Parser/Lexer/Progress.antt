-- ===== src/Parser/Lexer/Progress.antt =====
-- The loop of the lexer ends: every matcher that matches moves the position on.
use ramsql.Base.{
  ℕ, zero, suc, ◌+◌, ◌≤◌, ◌<◌, ◌≡◌, refl, Bool, true, false, not, ◌&&◌, Option, none, some, List,
  [], ◌∷◌, ◌++◌, length, All, ◌==◌, arith, if◌then◌else◌,
}
use ramsql.Base.Bytes.{Bytes, codes}
use ramsql.Base.Outcome.{Outcome, ok, err, panic, blocked, cannot_lex, ◌>>=◌}
use ramsql.Parser.Token.{Token, token, autoincrement_token}
use ramsql.Parser.Match.{
  match_escaped, match_date, escaped_kind, Matched, span, match_space, match_single, same_word,
  match_word, match_odbc, match_marked, match_span, float_sign, float_exponent, float_tail,
  float_point, match_float, match_quoted, until_dollars, is_digit, in_number,
}
use ramsql.Parser.Lexer.{
  Matcher, arg_odbc, named_arg, arg, float, space, simple_quote, double_quote, autoincrement,
  escaped_string, date, number, string, single, word, run, matchers, first_match, or_else, last_of,
  lex_loop, lex,
}

-- A match leaves fewer bytes than there were, and nothing waits for ever.
abbrev pub Advances : Bytes → Matched → Type 0
Advances s (ok none) = Unit
Advances s (ok (some (ts, r))) = length r < length s
Advances s (err e) = Unit
Advances s panic = Unit
Advances s blocked = ⊥

span-length :
    (test : ℕ → Bool) (s : Bytes) → length (span test s).0 + length (span test s).1 ≡ length s
unfolding span
span-length test [] = refl
span-length test (c ∷ s) = ground (arith, span-length test s)

same_word-length : (w s r : Bytes) → same_word w s ≡ ok (some r) → length r + length w ≡ length s
unfolding same_word
same_word-length [] s r h = ground arith
same_word-length (d ∷ w) [] r h = absurd (ground arith)
same_word-length (d ∷ w) (c ∷ s) r h = ground (arith, same_word-length w s r)

same_word-ne-blocked : (w s : Bytes) → same_word w s ≡ blocked → ⊥
unfolding same_word
same_word-ne-blocked [] s h = ground arith
same_word-ne-blocked (d ∷ w) [] h = ground arith
same_word-ne-blocked (d ∷ w) (c ∷ s) h = ground (arith, same_word-ne-blocked w s)

until_dollars-length : (s f r : Bytes) → until_dollars s ≡ some (f, r) → length r ≤ length s
unfolding until_dollars
until_dollars-length [] f r h = ground arith
until_dollars-length (c ∷ []) f r h = absurd (ground arith)
until_dollars-length (c ∷ d ∷ s) [] r h = ground arith
until_dollars-length (c ∷ d ∷ s) (x ∷ f) r h = ground (arith, until_dollars-length (d ∷ s) f r)

abbrev word_of : Outcome (Option Bytes) → Bytes
word_of (ok (some r)) = r
word_of _ = []

match_word-Advances : (c : ℕ) (w : Bytes) (k : ℕ) (s : Bytes) → Advances s (match_word (c ∷ w) k s)
unfolding match_word
match_word-Advances c w k s = ground (
  arith,
  same_word-length (c ∷ w) s (word_of (same_word (c ∷ w) s)),
  same_word-ne-blocked (c ∷ w) s,
)

match_span-Advances : (test : ℕ → Bool) (k : ℕ) (s : Bytes) → Advances s (match_span test k s)
unfolding match_span
match_span-Advances test k s = ground (arith, span-length test s)

match_marked-Advances :
    (b : ℕ) (test : ℕ → Bool) (k : ℕ) (s : Bytes) → Advances s (match_marked b test k s)
unfolding match_marked
match_marked-Advances b test k [] = tt
match_marked-Advances b test k (c ∷ s) = ground (arith, span-length test s)

match_odbc-Advances : (last : Option Token) (s : Bytes) → Advances s (match_odbc last s)
unfolding match_odbc
match_odbc-Advances last [] = tt
match_odbc-Advances last (c ∷ s) = ground arith

match_space-Advances : (s : Bytes) → Advances s (match_space s)
unfolding match_space
match_space-Advances [] = tt
match_space-Advances (c ∷ s) = ground arith

match_single-Advances : (b k : ℕ) (s : Bytes) → Advances s (match_single b k s)
unfolding match_single
match_single-Advances b k [] = tt
match_single-Advances b k (c ∷ s) = ground arith

match_quoted-Advances : (q k : ℕ) (s : Bytes) → Advances s (match_quoted q k s)
unfolding match_quoted
match_quoted-Advances q k [] = tt
match_quoted-Advances q k (c ∷ s) = ground (arith, span-length (λ (d : ℕ). not (d == q)) s)

-- The tail of a float takes no byte back.
abbrev Shrinks : ℕ → Matched → Type 0
Shrinks n (ok none) = Unit
Shrinks n (ok (some (ts, r))) = length r ≤ n
Shrinks n (err e) = Unit
Shrinks n panic = Unit
Shrinks n blocked = ⊥

abbrev rest_of : Outcome (Option (Bytes × Bytes)) → Bytes
rest_of (ok (some (f, r))) = r
rest_of _ = []

float_tail-Shrinks : (front s : Bytes) → Shrinks (length s) (float_tail front s)
unfolding float_tail float_exponent float_sign
float_tail-Shrinks front [] = tt
float_tail-Shrinks front (c ∷ []) = ground (arith, span-length is_digit (c ∷ []))
float_tail-Shrinks front (c ∷ d ∷ s) =
    ground (arith, span-length is_digit s, span-length is_digit (c ∷ d ∷ s))

float_point-Shrinks : (front s : Bytes) → Shrinks (length s) (float_point front s)
unfolding float_point
float_point-Shrinks [] s = tt
float_point-Shrinks (d ∷ front) [] = tt
float_point-Shrinks (d ∷ front) (c ∷ s) =
    ground (
      arith,
      float_tail-Shrinks ((d ∷ front) ++ b'.' ∷ []) s,
      float_tail-Shrinks (d ∷ front) (c ∷ s),
    )

Advances-Shrinks : (n : ℕ) (s : Bytes) (m : Matched) → n < length s → Shrinks n m → Advances s m
Advances-Shrinks n s (ok none) h k = tt
Advances-Shrinks n s (ok (some (ts, r))) h k = omega arith
Advances-Shrinks n s (err e) h k = tt
Advances-Shrinks n s panic h k = tt
Advances-Shrinks n s blocked h k = k

match_float-Advances : (s : Bytes) → Advances s (match_float s)
unfolding match_float
match_float-Advances s = go (span in_number s).0 (span in_number s).1 (span-length in_number s)
  where
    go : (f r : Bytes) → length f + length r ≡ length s → Advances s (float_point f r)
    go [] r h = tt
    go (d ∷ f) r h =
        Advances-Shrinks (length r) s (float_point (d ∷ f) r) (omega arith)
          (float_point-Shrinks (d ∷ f) r)

module _ (is_date : Bytes → Bool) where
  match_escaped-Advances : (s : Bytes) → Advances s (match_escaped is_date s)
  unfolding match_escaped
  match_escaped-Advances [] = tt
  match_escaped-Advances (c ∷ []) = ground arith
  match_escaped-Advances (c ∷ d ∷ s) = go (until_dollars s) (until_dollars-length s)
    where
      go :
          (o : Option (Bytes × Bytes))
          → ((f r : Bytes) → o ≡ some (f, r) → length r ≤ length s)
          → Advances (c ∷ d ∷ s) (
              if c == b'$' && d == b'$'
              then elim o [
                | none ↦ ok none
                | some (text, rest) ↦ ok (some (token (escaped_kind is_date text) text ∷ [], rest))
              ]
              else ok none)
      go none h = ground arith
      go (some (f, r)) h = ground (arith, h f r refl)

  module _ (no_empty_date : is_date [] ≡ false) where
    date_nonempty : (text : Bytes) → is_date text ≡ true → 0 < length text
    date_nonempty [] h = absurd (ground (arith, no_empty_date))
    date_nonempty (c ∷ text) h = omega arith

    abbrev not_end : ℕ → Bool
    not_end c = not (c == b',') && not (c == b')')

    match_date-Advances : (s : Bytes) → Advances s (match_date is_date s)
    unfolding match_date
    match_date-Advances s = ground (arith, span-length not_end s, date_nonempty (span not_end s).0)

    -- A keyword of the list is not empty.
    abbrev IsProper : Matcher → Type 0
    IsProper (word [] k) = ⊥
    IsProper _ = Unit

    or_else-Advances :
        (s : Bytes) (m n : Matched) → Advances s m → Advances s n → Advances s (or_else m n)
    or_else-Advances s (ok none) n h k = k
    or_else-Advances s (ok (some (ts, r))) n h k = h
    or_else-Advances s (err e) n h k = tt
    or_else-Advances s panic n h k = tt
    or_else-Advances s blocked n h k = h

    run-Advances :
        (m : Matcher) (last : Option Token) (s : Bytes)
        → IsProper m
        → Advances s (run is_date m last s)
    unfolding run
    run-Advances arg_odbc last s p = match_odbc-Advances last s
    run-Advances named_arg last s p = match_marked-Advances _ _ _ s
    run-Advances arg last s p = match_marked-Advances _ _ _ s
    run-Advances float last s p = match_float-Advances s
    run-Advances space last s p = match_space-Advances s
    run-Advances simple_quote last s p = match_quoted-Advances _ _ s
    run-Advances double_quote last s p = match_quoted-Advances _ _ s
    run-Advances autoincrement last s p =
        or_else-Advances s _ _
          (match_word-Advances b'a' (codes "uto_increment") autoincrement_token s)
          (match_word-Advances b'a' (codes "utoincrement") autoincrement_token s)
    run-Advances escaped_string last s p = match_escaped-Advances s
    run-Advances date last s p = match_date-Advances s
    run-Advances number last s p = match_span-Advances _ _ s
    run-Advances string last s p = match_span-Advances _ _ s
    run-Advances (single b k) last s p = match_single-Advances b k s
    run-Advances (word [] k) last s p = absurd p
    run-Advances (word (c ∷ w) k) last s p = match_word-Advances c w k s

    first_match-Advances :
        (ms : List Matcher) (last : Option Token) (s : Bytes)
        → All IsProper ms
        → Advances s (first_match is_date ms last s)
    unfolding first_match
    first_match-Advances [] last s p = tt
    first_match-Advances (m ∷ ms) last s p =
        or_else-Advances s _ _ (run-Advances m last s p.0) (first_match-Advances ms last s p.1)

    lex_loop-ends :
        (ms : List Matcher) (fuel : ℕ) (last : Option Token) (s : Bytes)
        → All IsProper ms
        → length s < fuel
        → lex_loop is_date ms fuel last s ≡ blocked
        → ⊥
    unfolding lex_loop
    lex_loop-ends ms zero last s p h e = absurd (omega arith)
    lex_loop-ends ms (suc fuel) last [] p h e = ground arith
    lex_loop-ends ms (suc fuel) last (c ∷ s) p h e =
        step (first_match is_date ms last (c ∷ s)) (first_match-Advances ms last (c ∷ s) p)
          (λ last' r lt. lex_loop-ends ms fuel last' r p lt) h e
      where
        step :
            (m : Matched)
            → Advances (c ∷ s) m
            → ((last' : Option Token) (r : Bytes)
                → length r < fuel
                → lex_loop is_date ms fuel last' r ≡ blocked
                → ⊥)
            → length (c ∷ s) < suc fuel
            → (m >>= λ r. elim r [
              | none ↦ err cannot_lex
              | some (ts, s') ↦
                  lex_loop is_date ms fuel (last_of last ts) s' >>= λ rest. ok (ts ++ rest)
            ])
              ≡ blocked
            → ⊥
        step (ok none) a ih lt e = ground arith
        step (ok (some (ts, r))) a ih lt e = ground (arith, ih (last_of last ts) r (omega arith))
        step (err x) a ih lt e = ground arith
        step panic a ih lt e = ground arith
        step blocked a ih lt e = a

    all-IsProper : All IsProper matchers
    all-IsProper = omega arith

    -- Where the empty text is not a date, the lexer ends on every instruction: it returns tokens or an
    -- error, or it panics, within as many rounds as the instruction has bytes, and one more.
    pub lex-ends : (s : Bytes) → lex is_date s ≡ blocked → ⊥
    unfolding lex
    lex-ends s = lex_loop-ends matchers (suc (length s)) none s all-IsProper (omega arith)
