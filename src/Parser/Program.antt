-- ===== src/Parser/Program.antt =====
-- parse of engine/parser/parser.go, and engine/parser/interface.go. An Instruction holds one
-- declaration, and is given by it.
pub mod Ends
use ramsql.Base.{
  ℕ, zero, suc, Bool, true, false, not, ◌||◌, ◌==◌, List, [], ◌∷◌, ◌++◌, length, if◌then◌else◌,
}
use ramsql.Base.Bytes.{Bytes, codes}
use ramsql.Base.Outcome
use ramsql.Base.Outcome.{Outcome, ok, err, panic, blocked, syntax_error}
use ramsql.Parser.Token.{
  Token, token, space_token, semicolon_token, create_token, select_token, insert_token,
  update_token, delete_token, truncate_token, drop_token, explain_token, grant_token,
}
use ramsql.Parser.Lexer.{lex}
use ramsql.Parser.Tree.{
  Decl, new_decl, Tokens, Parse, pure, raise, hang, ◌>>=◌, ◌>>◌, cur, has_next, advance,
}
use ramsql.Parser.Statements.{parse_insert, parse_update, parse_delete, parse_truncate, parse_drop}
use ramsql.Parser.Select.{parse_select}
use ramsql.Parser.Create.{parse_create}

-- stripSpaces
unfoldable pub strip_spaces : Tokens → Tokens
strip_spaces [] = []
strip_spaces (t ∷ ts) =
    let rest = strip_spaces ts in if t.kind == space_token then rest else t ∷ rest

-- The statement that the first token begins.
unfoldable pub parse_statement : ℕ → Parse Decl
unfolding parse_create parse_select parse_insert parse_update parse_delete parse_truncate parse_drop
parse_statement k =
    if k == create_token
    then parse_create
    else if k == select_token
    then parse_select
    else if k == insert_token
    then parse_insert
    else if k == update_token
    then parse_update
    else if k == delete_token
    then parse_delete
    else if k == truncate_token
    then parse_truncate
    else if k == drop_token
    then parse_drop
    else raise syntax_error

-- The loop of parse. `break` behind EXPLAIN leaves the switch, not the loop.
unfoldable pub program_loop : ℕ → List Decl → Parse (List Decl)
unfolding parse_statement
program_loop zero is' = hang
program_loop (suc n) is' = has_next >>= λ more.
    let body : Parse (List Decl) =
      (cur >>= λ t.
      if t.kind == semicolon_token || t.kind == space_token
      then (advance >> program_loop n is')
      else if t.kind == explain_token
      then program_loop n is'
      else if t.kind == grant_token
      then pure (is' ++ new_decl (token grant_token []) ∷ [])
      else (parse_statement t.kind >>= λ d. program_loop n (is' ++ d ∷ []))) in
    if more then body else pure is'

abbrev pub result_of : Outcome (List Decl × Tokens) → Outcome (List Decl)
result_of (ok (ds, ts)) = ok ds
result_of (err e) = err e
result_of panic = panic
result_of blocked = blocked

-- parse: the fuel is one more than the tokens.
unfoldable pub parse : Tokens → Outcome (List Decl)
unfolding strip_spaces program_loop
parse ts =
    let stripped = strip_spaces ts in result_of (program_loop (suc (length stripped)) [] stripped)

abbrev some_instruction : List Decl → Outcome (List Decl)
some_instruction [] = err syntax_error
some_instruction (d ∷ ds) = ok (d ∷ ds)

-- ParseDate of engine/parser/date.go, where the parameter says whether time.Parse, with its layout
-- first, reads a text
abbrev pub is_date : (Bytes → Bytes → Bool) → Bytes → Bool
is_date reads s =
    reads (codes "2006-01-02 15:04:05.999999999 -0700 MST") s
    || reads (codes "2006-01-02T15:04:05Z07:00") s
    || reads (codes "2006-Jan-02") s
    || reads (codes "2006-01-02") s

-- ParseInstruction
unfoldable pub parse_instruction : (Bytes → Bytes → Bool) → Bytes → Outcome (List Decl)
unfolding lex parse
parse_instruction reads s =
    Outcome.◌>>=◌ (lex (is_date reads) s) λ ts. Outcome.◌>>=◌ (parse ts) some_instruction
