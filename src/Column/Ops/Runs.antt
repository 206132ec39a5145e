-- ===== src/Column/Ops/Runs.antt =====
-- The ops that MakeBinary compiles an arithmetic operator to (column/src/column/biz/dsl.cpp), run on
-- columns of doubles.
use mathlib.Core.List.{lookup}
use lark.Base.{
  ℕ, ◌≡◌, ◌∙◌, ◌==◌, true, false, refl, [], ◌∷◌, List, map, length, Text, text, text_dec, some,
  ℕ_discrete, arith,
}
use lark.Base.Dict.{contains}
use lark.Base.Result.{done}
use lark.Column.Numbers.{Floating}
use lark.Column.Tensor.{Tensor, float64s, size, dtype}
use lark.Column.Store.{TensorStore, find}
use lark.Column.Store
use lark.Column.Op.{attr_at}
use lark.Column.Quantize.{Machine}
use lark.Column.Expr.{Numerals, Value, literal, named, binary_op, base_op, is_cmp, arith_op, format}
use lark.Column.Ops.{
  Outcome, returns, ◌>>=◌, calling, zip_with, map_tensor, zip_tensors, cast_tensor,
  elementwise_scalar, elementwise_binary, input, input_at, write, promote,
}
use lark.Column.Ops.Binary.{Stod, arith_fn, binary_arith, scalar_arith, scalar_of, create_binary_op}
use lark.Column.Ops.Create.{create_op}

pub data Operator : Type 0 where
  plus minus times : Operator

abbrev pub symbol_of : Operator → Text
symbol_of plus = text "+"
symbol_of minus = text "-"
symbol_of times = text "*"

module _ {S F : Type 0} (m : Floating S F) (machine : Machine S F) (numerals : Numerals F) where
  -- The operator on doubles.
  abbrev pub value_of : Operator → F → F → F
  value_of plus = m.double.add
  value_of minus = m.double.sub
  value_of times = m.double.mul

  -- The op that the operator is compiled to is created and run.
  unfoldable pub run_binary :
      Stod F → Value F → Value F → Operator → Text → TensorStore S F → Outcome (TensorStore S F)
  run_binary stod a b o out store = do
    f ← calling (create_op m machine stod (binary_op m numerals a b (symbol_of o) out))
    f store

  reads :
      (store : TensorStore S F) (n : Text) (t : Tensor S F)
      → find store n ≡ some t
      → input store n ≡ returns t
  unfolding input
  reads store n t there = rw (there, input) refl

  -- The loops of the two families on doubles.
  scalar_arith-doubles :
      (op : ℕ) (c : F) (n out : Text) (xs : List F) (store : TensorStore S F)
      → (op == b'/') ≡ false
      → find store n ≡ some (float64s xs)
      → scalar_arith m machine op c (n ∷ []) (out ∷ []) store
        ≡ returns (
            Store.set out
              (float64s (map (λ x. arith_fn op F m.double x (m.double.of_double c)) xs))
              store)
  unfolding scalar_arith input_at elementwise_scalar cast_tensor map_tensor write dtype
  scalar_arith-doubles op c n out xs store other there =
      rw (reads store n (float64s xs) there, other) refl

  binary_arith-doubles :
      (op : ℕ) (n k out : Text) (xs ys : List F) (store : TensorStore S F)
      → (op == b'/') ≡ false
      → length ys ≡ length xs
      → find store n ≡ some (float64s xs)
      → find store k ≡ some (float64s ys)
      → binary_arith m machine op (n ∷ k ∷ []) (out ∷ []) store
        ≡ returns (Store.set out (float64s (zip_with (arith_fn op F m.double) xs ys)) store)
  unfolding binary_arith input_at elementwise_binary cast_tensor zip_tensors write dtype promote
      size
  binary_arith-doubles op n k out xs ys store other long there too =
      let equal : (length ys == length xs) ≡ true = ground (arith, long) in
      rw (reads store n (float64s xs) there, reads store k (float64s ys) too, other, equal) refl

  module _ (stod : Stod F) (same : (x : F) → m.double.of_double x ≡ x) where
    right-literal :
        (o : Operator) (c : F) (n out : Text) (xs : List F) (store : TensorStore S F)
        → stod (format m numerals c) ≡ done c
        → find store n ≡ some (float64s xs)
        → run_binary stod (named n) (literal c) o out store
          ≡ returns (Store.set out (float64s (map (λ x. value_of o x c) xs)) store)
    unfolding run_binary binary_op create_op create_binary_op contains scalar_of attr_at arith_fn
        base_op is_cmp arith_op text_dec ℕ_discrete lookup
    right-literal plus c n out xs store exact there =
        rw (exact, scalar_arith-doubles b'+' c n out xs store refl there, same c) refl
    right-literal minus c n out xs store exact there =
        rw (exact, scalar_arith-doubles b'-' c n out xs store refl there, same c) refl
    right-literal times c n out xs store exact there =
        rw (exact, scalar_arith-doubles b'*' c n out xs store refl there, same c) refl

    left-literal :
        (o : Operator) (c : F) (n out : Text) (store : TensorStore S F)
        → run_binary stod (literal c) (named n) o out store
          ≡ run_binary stod (named n) (literal c) o out store
    unfolding run_binary binary_op
    left-literal o c n out store = refl

    both-named :
        (o : Operator) (n k out : Text) (xs ys : List F) (store : TensorStore S F)
        → length ys ≡ length xs
        → find store n ≡ some (float64s xs)
        → find store k ≡ some (float64s ys)
        → run_binary stod (named n) (named k) o out store
          ≡ returns (Store.set out (float64s (zip_with (value_of o) xs ys)) store)
    unfolding run_binary binary_op create_op create_binary_op contains arith_fn base_op is_cmp
        arith_op text_dec ℕ_discrete
    both-named plus n k out xs ys store long there too =
        rw (binary_arith-doubles b'+' n k out xs ys store refl long there too) refl
    both-named minus n k out xs ys store long there too =
        rw (binary_arith-doubles b'-' n k out xs ys store refl long there too) refl
    both-named times n k out xs ys store long there too =
        rw (binary_arith-doubles b'*' n k out xs ys store refl long there too) refl

    -- An operator `+`, `-` or `*` on two columns of doubles of one length is compiled to an op that,
    -- created and run on a store with the columns, writes the results element by element. With a
    -- literal on the right it writes what the operator gives for each element and the literal, if
    -- reading the printed literal gives it back. With the literal on the left it writes the same,
    -- so that the operands of `-` are exchanged.
    pub compiled-run :
        (o : Operator) (c : F) (n k out : Text) (xs ys : List F) (store : TensorStore S F)
        → stod (format m numerals c) ≡ done c
        → length ys ≡ length xs
        → find store n ≡ some (float64s xs)
        → find store k ≡ some (float64s ys)
        → (run_binary stod (named n) (named k) o out store
            ≡ returns (Store.set out (float64s (zip_with (value_of o) xs ys)) store))
          × (run_binary stod (named n) (literal c) o out store
              ≡ returns (Store.set out (float64s (map (λ x. value_of o x c) xs)) store))
          × (run_binary stod (literal c) (named n) o out store
              ≡ returns (Store.set out (float64s (map (λ x. value_of o x c) xs)) store))
    compiled-run o c n k out xs ys store exact long there too = (
      both-named o n k out xs ys store long there too,
      right-literal o c n out xs store exact there,
      left-literal o c n out store ∙ right-literal o c n out xs store exact there,
    )
