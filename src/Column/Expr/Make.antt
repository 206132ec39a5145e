-- ===== src/Column/Expr/Make.antt =====
-- The ops that MakeBinary and Materialize of ExprParser push (column/src/column/biz/dsl.cpp), and the
-- constant folds of MakeBinary.
use lark.Base.{Bool, not, Option, none, some, List, [], ◌∷◌, ◌++◌, Text, text, if◌then◌else◌}
use lark.Base.Int.{pos}
use lark.Base.Decimal.{to_string}
use lark.Column.Numbers.{Floating}
use lark.Column.Tensor.{is_text}
use lark.Column.Op.{OpSpec, plain_op}
use lark.Column.Expr.State.{
  Numerals, Value, literal, named, ExprParser, temp, push, base_op, name_of,
}

module _ {S F : Type 0} (m : Floating S F) (numerals : Numerals F) where
  unfoldable pub format : F → Text
  format v = if numerals.is_whole v then to_string (m.to_int64 v) else numerals.to_string v

  -- The two constant folds of MakeBinary: `none` where no operator is folded.
  unfoldable pub fold : Text → F → F → Option F
  fold op x y =
      let truth = λ (b : Bool). if b then m.of_int (pos 1) else m.double.nought in
      if is_text op (text "+")
      then some (m.double.add x y)
      else if is_text op (text "-")
      then some (m.double.sub x y)
      else if is_text op (text "*")
      then some (m.double.mul x y)
      else if is_text op (text "/")
      then some (if m.double.eq y m.double.nought then m.double.nought else m.div x y)
      else if is_text op (text ">")
      then some (truth (m.double.lt y x))
      else if is_text op (text ">=")
      then some (truth (m.double.le y x))
      else if is_text op (text "<")
      then some (truth (m.double.lt x y))
      else if is_text op (text "<=")
      then some (truth (m.double.le x y))
      else if is_text op (text "==")
      then some (truth (m.double.eq x y))
      else if is_text op (text "!=")
      then some (truth (not (m.double.eq x y)))
      else none

  abbrev pub scalar_op : Text → F → Text → Text → OpSpec
  scalar_op op x name out = record {
    type = base_op op ++ text "_scalar";
    inputs = name ∷ [];
    outputs = out ∷ [];
    attrs = (text "scalar", format x) ∷ [];
  }

  -- The op that MakeBinary pushes.
  unfoldable pub binary_op : Value F → Value F → Text → Text → OpSpec
  binary_op (literal x) b op out = scalar_op op x (name_of b) out
  binary_op (named a) (literal y) op out = scalar_op op y a out
  binary_op (named a) (named b) op out = plain_op (base_op op) (a ∷ b ∷ []) out

  abbrev pub folded : Value F → Value F → Text → Option F
  folded (literal x) (literal y) op = fold op x y
  folded _ _ op = none

  unfoldable pub make_binary : Value F → Value F → Text → ExprParser → Value F × ExprParser
  unfolding temp push binary_op
  make_binary a b op s = elim (folded a b op) [
    | some v ↦ (literal v, s)
    | none ↦ let (out, s') = temp s in (named out, push (binary_op a b op out) s')
  ]

  abbrev pub const_op : F → Text → OpSpec
  const_op x out = record {
    type = text "const";
    inputs = [];
    outputs = out ∷ [];
    attrs = (text "value", format x) ∷ (text "size", text "1") ∷ [];
  }

  -- A literal argument is made a column of one element.
  unfoldable pub materialize : Value F → ExprParser → Text × ExprParser
  unfolding temp push
  materialize (named n) s = (n, s)
  materialize (literal x) s = let (out, s') = temp s in (out, push (const_op x out) s')

  unfoldable pub materialize_all : List (Value F) → ExprParser → List Text × ExprParser
  unfolding materialize
  materialize_all [] s = ([], s)
  materialize_all (v ∷ vs) s =
      let (name, s') = materialize v s in
      let (names, s'') = materialize_all vs s' in (name ∷ names, s'')
