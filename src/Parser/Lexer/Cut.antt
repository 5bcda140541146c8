-- ===== src/Parser/Lexer/Cut.antt =====
-- An instruction that ends inside a keyword.
use ramsql.Base.{ℕ, ◌≡◌, refl, [], ◌∷◌, ◌++◌, length, map, length-append, arith}
use ramsql.Base.Bytes.{Bytes}
use ramsql.Base.Outcome.{panic}
use ramsql.Parser.Match.{lower, same_word, match_word}

same_word-cut :
    (w s : Bytes) (d : ℕ) → map lower s ≡ map lower w → same_word (w ++ d ∷ []) s ≡ panic
unfolding same_word
same_word-cut [] [] d h = refl
same_word-cut [] (c ∷ s) d h = absurd (ground arith)
same_word-cut (b ∷ w) [] d h = absurd (ground arith)
same_word-cut (b ∷ w) (c ∷ s) d h = ground (arith, same_word-cut w s d)

length-map-lower : (s : Bytes) → length (map lower s) ≡ length s
length-map-lower [] = refl
length-map-lower (c ∷ s) = omega (arith, length-map-lower s)

-- Match panics where the rest of the instruction is a keyword, in any case, without its last byte.
pub match_word-cut :
    (w s : Bytes) (d k : ℕ) → map lower s ≡ map lower w → match_word (w ++ d ∷ []) k s ≡ panic
unfolding match_word
match_word-cut w s d k h = ground (
  arith,
  same_word-cut w s d h,
  length-append w (d ∷ []),
  length-map-lower w,
  length-map-lower s,
  h,
)
