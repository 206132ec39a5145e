-- ===== src/Column/Expr/State.antt =====
-- The state of ExprParser, its token functions and its tables of operators and functions
-- (column/src/column/biz/dsl.cpp).
use lark.Base.{
  ℕ, suc, Bool, ◌||◌, Option, none, some, List, [], ◌∷◌, ◌++◌, Text, text, text_dec, if◌then◌else◌,
}
use lark.Base.Dict.{contains}
use lark.Base.Decimal.{to_string_ℕ}
use lark.Toolkit.Lexer.{Token, token_of, fail, stod_error}
use lark.Toolkit.Parser.{Parser, peek, consume, at_end, expect_symbol}
use lark.Toolkit.Parser.Parsed.{Parsed, parsed, syntax_error, ◌>>=◌, lexing}
use lark.Column.Tensor.{is_text}
use lark.Column.Op.{OpSpec}

-- Numerals: std::stod on the numerals of the source, std::to_string on a double, and the test that
-- a double is finite and equal to its floor.
pub record Numerals (F : Type 0) : Type 0 where
  pub stod : Text → F
  pub to_string : F → Text
  pub is_whole : F → Bool

pub data Value (F : Type 0) : Type 0 where
  literal : F → Value F
  named : Text → Value F

abbrev pub symbols : Text
symbols = text "+-*/=(),<>!"

abbrev pub multi : List Text
multi = text ">=" ∷ text "<=" ∷ text "==" ∷ text "!=" ∷ []

-- The token functions of the base class, and `ops_` and `tmp_`.
pub record ExprParser : Type 0 where
  pub parser : Parser
  pub ops : List OpSpec
  pub tmp : ℕ

abbrev pub temp_name : ℕ → Text
temp_name n = text "@t" ++ to_string_ℕ n

unfoldable pub temp : ExprParser → Text × ExprParser
temp s = (temp_name s.tmp, record s { tmp = suc s.tmp })

unfoldable pub push : OpSpec → ExprParser → ExprParser
push op s = record s { ops = s.ops ++ op ∷ [] }

-- A token function leaves the ops alone.
abbrev pub stepping : {A : Type 0} → ExprParser → Parsed (A × Parser) → Parsed (A × ExprParser)
stepping s m = do (a, p) ← m; parsed (a, record s { parser = p })

unfoldable pub peeking : ExprParser → Parsed (Token × ExprParser)
unfolding peek
peeking s = stepping s (lexing (peek symbols multi s.parser))

unfoldable pub consuming : ExprParser → Parsed (Token × ExprParser)
unfolding consume
consuming s = stepping s (lexing (consume symbols multi s.parser))

unfoldable pub ending : ExprParser → Parsed (Bool × ExprParser)
unfolding at_end
ending s = stepping s (lexing (at_end symbols multi s.parser))

unfoldable pub expecting : Text → ExprParser → Parsed ExprParser
unfolding expect_symbol
expecting sym s = do
  p ← lexing (expect_symbol symbols multi sym (text "'" ++ (sym ++ text "'")) s.parser)
  parsed (record s { parser = p })

-- Fail: the position is that of the next token, or 0 where that is none.
unfoldable pub failing : {A : Type 0} → Text → ExprParser → Parsed A
failing message s =
    let place : ℕ × ℕ = elim (peek symbols multi s.parser) [
      | token_of r ↦ (r.0.line, r.0.col)
      | fail e ↦ (0, 0)
      | stod_error ↦ (0, 0)
    ] in
    syntax_error (record { message = message; line = place.0; col = place.1 })

unfoldable pub arith_op : Text → Text
arith_op op =
    if is_text op (text "+")
    then text "add"
    else if is_text op (text "-")
    then text "sub"
    else if is_text op (text "*")
    then text "mul"
    else text "div"

unfoldable pub cmp_op : Text → Text
cmp_op op =
    if is_text op (text ">")
    then text "gt"
    else if is_text op (text ">=")
    then text "ge"
    else if is_text op (text "<")
    then text "lt"
    else if is_text op (text "<=")
    then text "le"
    else if is_text op (text "==")
    then text "eq"
    else text "neq"

unfoldable pub is_cmp : Text → Bool
is_cmp op =
    contains text_dec op (text ">" ∷ text ">=" ∷ text "<" ∷ text "<=" ∷ text "==" ∷ text "!=" ∷ [])

-- `none` is -1, which is below every bound that ParseExpr is called with.
unfoldable pub precedence : Text → Option ℕ
unfolding is_cmp
precedence op =
    if is_text op (text "*") || is_text op (text "/")
    then some 10
    else if is_text op (text "+") || is_text op (text "-")
    then some 5
    else if is_cmp op
    then some 2
    else none

unfoldable pub base_op : Text → Text
unfolding is_cmp arith_op cmp_op
base_op op = if is_cmp op then cmp_op op else arith_op op

abbrev pub name_of : {F : Type 0} → Value F → Text
name_of (literal x) = []
name_of (named n) = n

abbrev pub unary_functions : List Text
unary_functions =
    text "sum"
    ∷ text "mean"
    ∷ text "count"
    ∷ text "max"
    ∷ text "min"
    ∷ text "stddev"
    ∷ text "abs"
    ∷ text "neg"
    ∷ text "square"
    ∷ text "sqrt"
    ∷ text "exp"
    ∷ text "log"
    ∷ text "quantize"
    ∷ text "dequantize"
    ∷ []

-- ParseExpr as its callers see it: the bound on the precedence.
abbrev pub Subparser : Type 0 → Type 0
Subparser F = ℕ → ExprParser → Parsed (Value F × ExprParser)
