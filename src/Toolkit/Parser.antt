-- ===== src/Toolkit/Parser.antt =====
-- toolkit::dsl::Lexer's token cache and the token functions of toolkit::dsl::Parser
-- (toolkit/src/dsl.cpp, toolkit/include/toolkit/dsl.h).
pub mod Shrinks
pub mod Parsed
use lark.Base.{
  Bool, true, false, Option, none, some, Text, text, text_dec, ite, ◌++◌, ◌&&◌, if◌then◌else◌, List,
}
use lark.Toolkit.Lexer.{
  TokenKind, ident, number, symbol, end, Token, DslError, Lexed, token_of, fail, stod_error, Cursor,
  start_of, lex,
}

infixl 5 ◌>>=◌
abbrev pub ◌>>=◌ {ℓ κ} : {A : Type ℓ} {B : Type κ} → Lexed A → (A → Lexed B) → Lexed B
token_of a >>= f = f a
fail e >>= f = fail e
stod_error >>= f = stod_error

-- The lexer's position, and `peek_` where `peeked_` is true.
pub record Parser : Type 0 where
  pub cursor : Cursor
  pub peeked : Option Token

abbrev pub parser_of : Text → Parser
parser_of source = record { cursor = start_of source; peeked = none }

abbrev pub same_kind : TokenKind → TokenKind → Bool
same_kind ident ident = true
same_kind number number = true
same_kind symbol symbol = true
same_kind end end = true
same_kind _ _ = false

abbrev pub is_symbol : Text → Token → Bool
is_symbol s t = same_kind t.kind symbol && ite (text_dec t.lexeme s) true false

module _ (symbols : Text) (multi : List Text) where
  unfoldable pub peek : Parser → Lexed (Token × Parser)
  peek p = elim p.peeked [
    | some t ↦ token_of (t, p)
    | none ↦ do
      (t, c) ← lex symbols multi p.cursor
      token_of (t, record { cursor = c; peeked = some t })
  ]

  -- Lexer::Next and Parser::Consume.
  unfoldable pub consume : Parser → Lexed (Token × Parser)
  unfolding peek
  consume p = do (t, p') ← peek p; token_of (t, record p' { peeked = none })

  unfoldable pub at_end : Parser → Lexed (Bool × Parser)
  unfolding peek
  at_end p = do (t, p') ← peek p; token_of (same_kind t.kind end, p')

  -- Fail, where the next token was read.
  abbrev pub fail_at : {A : Type 0} → Text → Token → Lexed A
  fail_at message t = fail (record { message = message; line = t.line; col = t.col })

  unfoldable pub match_symbol : Text → Parser → Lexed (Bool × Parser)
  unfolding peek
  match_symbol s p = do
    (t, p') ← peek p
    if is_symbol s t then token_of (true, record p' { peeked = none }) else token_of (false, p')

  -- Match.
  unfoldable pub match_kind : TokenKind → Parser → Lexed (Bool × Parser)
  unfolding peek
  match_kind kind p = do
    (t, p') ← peek p
    if same_kind t.kind kind
        then token_of (true, record p' { peeked = none })
        else token_of (false, p')

  -- Expect.
  unfoldable pub expect_kind : TokenKind → Text → Parser → Lexed Parser
  unfolding peek
  expect_kind kind what p = do
    (t, p') ← peek p
    if same_kind t.kind kind
        then token_of (record p' { peeked = none })
        else fail_at (text "expected " ++ what) t

  unfoldable pub expect_token : TokenKind → Text → Parser → Lexed (Token × Parser)
  unfolding peek
  expect_token kind what p = do
    (t, p') ← peek p
    if same_kind t.kind kind
        then token_of (t, record p' { peeked = none })
        else fail_at (text "expected " ++ what) t

  unfoldable pub expect_symbol : Text → Text → Parser → Lexed Parser
  unfolding peek
  expect_symbol s what p = do
    (t, p') ← peek p
    if is_symbol s t
        then token_of (record p' { peeked = none })
        else fail_at (text "expected " ++ what) t
