-- ===== src/Column/Expr.antt =====
-- ExprParser (column/src/column/biz/dsl.cpp): the expressions over columns are compiled to ops.
mod State
mod Make
pub mod Program
pub mod Reached
pub mod Emits
pub mod Tokens
pub mod Calls
pub mod Compiled
pub mod Expressions
pub mod Parses
unfoldable pub use State.*
unfoldable pub use Make.*
use lark.Base.{
  ℕ, zero, suc, Bool, true, false, not, ◌||◌, ltb, Option, none, some, List, [], ◌∷◌, ◌++◌, Text,
  text, text_dec, length, if◌then◌else◌,
}
use lark.Base.Dict.{contains}
use lark.Base.Int.{pos}
use lark.Base.Decimal.{to_string_ℕ, to_string}
use lark.Toolkit.Lexer.{TokenKind, ident, number, symbol, end, Token, Lexed, token_of, fail}
use lark.Toolkit.Parser.{
  Parser, parser_of, same_kind, is_symbol, peek, consume, at_end, expect_symbol,
}
use lark.Toolkit.Parser.Parsed.{Parsed, parsed, syntax_error, out_of_fuel, ◌>>=◌, lexing}
use lark.Column.Numbers.{Floating}
use lark.Column.Tensor.{is_text}
use lark.Column.Op.{OpSpec, plain_op}

module _ {S F : Type 0} (m : Floating S F) (numerals : Numerals F) where
  -- n arguments with commas between, and the parenthesis behind.
  unfoldable pub arguments : Subparser F → ℕ → ExprParser → Parsed (List (Value F) × ExprParser)
  unfolding expecting
  arguments rec zero s = do s' ← expecting (text ")") s; parsed ([], s')
  arguments rec (suc zero) s = do
    (v, s') ← rec 0 s
    s'' ← expecting (text ")") s'
    parsed (v ∷ [], s'')
  arguments rec (suc (suc n)) s = do
    (v, s') ← rec 0 s
    s'' ← expecting (text ",") s'
    (vs, s3) ← arguments rec (suc n) s''
    parsed (v ∷ vs, s3)

  -- A call of n arguments, whose op has the type `fn`.
  unfoldable pub call_plain :
      Subparser F → ℕ → Text → Text → ExprParser → Parsed (Value F × ExprParser)
  unfolding arguments materialize_all push
  call_plain rec n fn out s = do
    (vs, s') ← arguments rec n s
    let (names, s'') = materialize_all m numerals vs s'
    parsed (named out, push (plain_op fn names out) s'')

  unfoldable pub call_cast : Subparser F → Text → ExprParser → Parsed (Value F × ExprParser)
  unfolding expecting consuming failing materialize push
  call_cast rec out s = do
    (v, s') ← rec 0 s
    s'' ← expecting (text ",") s'
    (dtype, s3) ← consuming s''
    if same_kind dtype.kind ident
        then (do
          s4 ← expecting (text ")") s3
          let (name, s5) = materialize m numerals v s4
          parsed (
            named out,
            push
                (record (plain_op (text "cast") (name ∷ []) out) {
                  attrs = (text "dtype", dtype.lexeme) ∷ [];
                })
                s5,
          ))
        else failing (text "dsl: cast expects a dtype name") s3

  -- ParseCall, behind the parenthesis.
  unfoldable pub call : Subparser F → Text → ExprParser → Parsed (Value F × ExprParser)
  unfolding temp call_plain call_cast failing
  call rec fn s =
      let (out, s') = temp s in
      if is_text fn (text "select")
      then call_plain rec 3 fn out s'
      else if is_text fn (text "filter") || is_text fn (text "dot")
      then call_plain rec 2 fn out s'
      else if is_text fn (text "cast")
      then call_cast rec out s'
      else if contains text_dec fn unary_functions
      then call_plain rec 1 fn out s'
      else failing (text "dsl: unknown function '" ++ (fn ++ text "'")) s'

  unfoldable pub negate : Value F → ExprParser → Value F × ExprParser
  unfolding temp push
  negate (literal x) s = (literal (m.double.neg x), s)
  negate (named n) s =
      let (out, s') = temp s in (named out, push (plain_op (text "neg") (n ∷ []) out) s')

  -- ParsePrimary behind its first token; `again` is the function itself.
  unfoldable pub primary_token :
      Subparser F
      → (ExprParser → Parsed (Value F × ExprParser))
      → TokenKind
      → Text
      → ExprParser
      → Parsed (Value F × ExprParser)
  unfolding consuming peeking call negate expecting failing
  primary_token rec again number lexeme s = parsed (literal (numerals.stod lexeme), s)
  primary_token rec again ident lexeme s = do
    (next, s') ← peeking s
    if is_symbol (text "(") next
        then (do (_, s'') ← consuming s'; call rec lexeme s'')
        else parsed (named lexeme, s')
  primary_token rec again symbol lexeme s =
      if is_text lexeme (text "-")
      then (do (v, s') ← again s; parsed (negate v s'))
      else if is_text lexeme (text "(")
      then (do (v, s') ← rec 0 s; s'' ← expecting (text ")") s'; parsed (v, s''))
      else failing (text "dsl: unexpected token") s
  primary_token rec again end lexeme s = failing (text "dsl: unexpected token") s

  -- ParsePrimary.
  unfoldable pub primary : Subparser F → ℕ → ExprParser → Parsed (Value F × ExprParser)
  unfolding consuming primary_token
  primary rec zero s = out_of_fuel
  primary rec (suc fuel) s = do
    (t, s') ← consuming s
    primary_token rec (primary rec fuel) t.kind t.lexeme s'

  -- The precedence of the operator that the loop of ParseExpr goes on with.
  unfoldable pub operator : ℕ → Token → Option ℕ
  unfolding precedence
  operator min_prec t =
      if same_kind t.kind symbol
      then elim (precedence t.lexeme) [
        | none ↦ none
        | some prec ↦ if ltb prec min_prec then none else some prec
      ]
      else none

  unfoldable pub operations :
      Subparser F → ℕ → ℕ → Value F → ExprParser → Parsed (Value F × ExprParser)
  unfolding peeking consuming operator make_binary
  operations rec zero min_prec left s = out_of_fuel
  operations rec (suc fuel) min_prec left s = do
    (t, s') ← peeking s
    elim (operator min_prec t) [
      | none ↦ parsed (left, s')
      | some prec ↦ do
        (_, s'') ← consuming s'
        (right, s3) ← rec (suc prec) s''
        let (v, s4) = make_binary m numerals left right t.lexeme s3
        operations rec fuel min_prec v s4
    ]

  -- ParseExpr.
  unfoldable pub expression : ℕ → Subparser F
  unfolding primary operations
  expression zero min_prec s = out_of_fuel
  expression (suc fuel) min_prec s = do
    (left, s') ← primary (expression fuel) (suc fuel) s
    operations (expression fuel) (suc fuel) min_prec left s'

  unfoldable pub assign_to : Text → Value F → ExprParser → ExprParser
  unfolding push
  assign_to lhs (literal x) s = push (const_op m numerals x lhs) s
  assign_to lhs (named n) s =
      if is_text n lhs then s else push (plain_op (text "identity") (n ∷ []) lhs) s

  -- ParseStatement.
  unfoldable pub statement : ℕ → ExprParser → Parsed ExprParser
  unfolding consuming failing expecting expression assign_to
  statement fuel s = do
    (lhs, s') ← consuming s
    if same_kind lhs.kind ident
        then (do
          s'' ← expecting (text "=") s'
          (v, s3) ← expression fuel 0 s''
          parsed (assign_to lhs.lexeme v s3))
        else failing (text "dsl: statement must start with an identifier") s'

  -- Parse.
  unfoldable pub statements : ℕ → ExprParser → Parsed (List OpSpec)
  unfolding ending statement
  statements zero s = out_of_fuel
  statements (suc fuel) s = do
    (over, s') ← ending s
    if over then parsed s'.ops else do s'' ← statement (suc fuel) s'; statements fuel s''

  -- Every round reads a token, so a round more than there are characters is enough.
  unfoldable pub parse : Text → Parsed (List OpSpec)
  unfolding statements
  parse source =
      statements (suc (length source)) (record { parser = parser_of source; ops = []; tmp = 0 })
