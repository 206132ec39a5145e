-- ===== src/Column/ExprTests.antt =====
-- The expression DSL and its ops at concrete inputs, with integers in place of doubles.
use mathlib.Core.List.{lookup}
use lark.Base.{◌≡◌, refl, some, [], ◌∷◌, map, Text, text, text_dec, ℕ_discrete, arith}
use lark.Base.Int.{ℤ, pos}
use lark.Base.Dict.{contains}
use lark.Base.Decimal.{
  to_string, to_string_ℕ, digits, stoll, magnitude, split_sign, skip_space, scan_digits,
  starts_with_digit,
}
use lark.Base.Result.{done}
use lark.Toolkit.Parser.Parsed.{Yields}
use lark.Column.Numbers.{wrap}
use lark.Column.Tensor.{float64s}
use lark.Column.Sample.{floating, machine, numerals}
use lark.Column.Store
use lark.Column.Store.{TensorStore, find}
use lark.Column.Op.{OpSpec, plain_op}
use lark.Column.Expr.{named, literal, format, parse}
use lark.Column.Expr.Program.{IsProgram}
use lark.Column.Expr.Parses.{parse-IsProgram}
use lark.Column.Ops.{returns, zip_with}
use lark.Column.Ops.Runs.{minus, value_of, run_binary, compiled-run}
use lark.Column.Ops.Defined.{IsDefined, AllPlain}
use lark.Column.Ops.Create.{create_op}
use lark.Column.Ops.Factories.{create_op-Made}
use lark.Column.Ops.Makes.{IsFed, Made}

parse-IsProgram_example :
    Yields IsProgram (parse floating numerals (text "y = select(x > 10, -x * 2, x)"))
parse-IsProgram_example = parse-IsProgram floating numerals (text "y = select(x > 10, -x * 2, x)")

abbrev store : TensorStore ℤ ℤ
store = record {
  tensors =
      (text "x", float64s (pos 3 ∷ pos 4 ∷ [])) ∷ (text "y", float64s (pos 1 ∷ pos 2 ∷ [])) ∷ [];
  order = text "x" ∷ text "y" ∷ [];
}

abbrev name : Text
name = text "x"

abbrev other : Text
other = text "y"

abbrev out : Text
out = text "z"

ten_exact : stoll (format floating numerals (pos 10)) ≡ done (pos 10)
unfolding format wrap to_string to_string_ℕ digits stoll magnitude split_sign skip_space scan_digits
    starts_with_digit
ten_exact = refl

x_there : find store name ≡ some (float64s (pos 3 ∷ pos 4 ∷ []))
unfolding find lookup text_dec ℕ_discrete
x_there = refl

y_there : find store other ≡ some (float64s (pos 1 ∷ pos 2 ∷ []))
unfolding find lookup text_dec ℕ_discrete
y_there = refl

compiled-run_example :
    (run_binary floating machine numerals stoll (named name) (named other) minus out store
      ≡ returns (
          Store.set out
            (float64s (
              zip_with
                (value_of floating machine numerals minus)
                (pos 3 ∷ pos 4 ∷ [])
                (pos 1 ∷ pos 2 ∷ [])))
            store))
    × (run_binary floating machine numerals stoll (named name) (literal (pos 10)) minus out store
        ≡ returns (
            Store.set out
              (float64s (
                map
                  (λ x. value_of floating machine numerals minus x (pos 10))
                  (pos 3 ∷ pos 4 ∷ [])))
              store))
    × (run_binary floating machine numerals stoll (literal (pos 10)) (named name) minus out store
        ≡ returns (
            Store.set out
              (float64s (
                map
                  (λ x. value_of floating machine numerals minus x (pos 10))
                  (pos 3 ∷ pos 4 ∷ [])))
              store))
compiled-run_example =
    compiled-run floating machine numerals stoll (λ x. refl) minus (pos 10) name other out
      (pos 3 ∷ pos 4 ∷ []) (pos 1 ∷ pos 2 ∷ []) store ten_exact refl x_there y_there

store-AllPlain : AllPlain store
unfolding find lookup
store-AllPlain n t h = elim (text_dec n name) [
  | yes e ↦ ground (arith, e, h)
  | no ne ↦ elim (text_dec n other) [
    | yes e ↦ ground (arith, ne, e, h)
    | no ne' ↦ absurd (ground (arith, ne, ne', h))
  ]
]

abbrev subtraction : OpSpec
subtraction = plain_op (text "sub") (name ∷ other ∷ []) out

subtraction-IsFed : IsFed subtraction
unfolding contains text_dec ℕ_discrete
subtraction-IsFed = record { outputs = omega arith; two = λ e. omega arith; one = λ e. omega arith }

create_op-Made_example :
    Made (λ f. IsDefined (f store)) (create_op floating machine stoll subtraction)
create_op-Made_example =
    create_op-Made floating machine stoll store store-AllPlain subtraction subtraction-IsFed
