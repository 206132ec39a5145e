-- ===== src/Column/Ops/Single.antt =====
-- The ops on one column (column/src/column/exec/ops_unary.cpp, column/src/column/exec/ops_reduce.cpp).
use lark.Base.{
  zero, suc, Bool, true, false, Option, none, some, List, [], ◌∷◌, ◌++◌, Text, text, text_dec,
  if◌then◌else◌,
}
use lark.Base.Int.{ℤ, pos, ◌+ℤ◌}
use lark.Base.Dict.{contains}
use lark.Base.Result.{Result, done}
use lark.Column.Numbers.{Scalar, Floating, wrap}
use lark.Column.Tensor.{
  DType, int32, int64, float32, float64, q8_0, Tensor, int32s, int64s, float32s, float64s, blocks,
  dtype, size, is_text,
}
use lark.Column.Op.{OpSpec}
use lark.Column.Quantize.{Machine}
use lark.Column.Ops.{
  Outcome, returns, ◌>>=◌, error, unsupported, Unary, int32_scalar, int64_scalar, elementwise_unary,
  input_at, write,
}
use lark.Column.Ops.Binary.{TensorOp}

-- A function on doubles, on the elements of any type.
abbrev pub on_double : {F : Type 0} → (F → F) → Unary F
on_double f T k x = k.of_double (f (k.to_double x))

module _ {S F : Type 0} (m : Floating S F) (machine : Machine S F) where
  -- UnaryOp.
  unfoldable pub unary_op : Text → List Text → List Text → TensorOp S F
  unfolding input_at write elementwise_unary
  unary_op kind inputs outputs store = do
    a ← input_at store inputs 0
    r ←
        if is_text kind (text "neg")
        then elementwise_unary m machine (λ T k x. k.neg x) a (dtype a)
        else if is_text kind (text "abs")
        then elementwise_unary m machine (λ T k x. if k.lt x k.nought then k.neg x else x) a
            (dtype a)
        else if is_text kind (text "square")
        then elementwise_unary m machine (λ T k x. k.mul x x) a (dtype a)
        else if is_text kind (text "sqrt")
        then elementwise_unary m machine (on_double m.sqrt) a float64
        else if is_text kind (text "exp")
        then elementwise_unary m machine (on_double machine.exp) a float64
        else if is_text kind (text "log")
        then elementwise_unary m machine (on_double machine.log) a float64
        else error (text "unary op: unknown kind '" ++ (kind ++ text "'"))
    write store outputs r

module _ {S F : Type 0} (m : Floating S F) where
  unfoldable pub sum_ints : ℤ → List ℤ → ℤ
  sum_ints s [] = s
  sum_ints s (x ∷ xs) = sum_ints (wrap 64 (s +ℤ x)) xs

  unfoldable pub sum_doubles : {T : Type 0} → (T → F) → F → List T → F
  sum_doubles f s [] = s
  sum_doubles f s (x ∷ xs) = sum_doubles f (m.double.add s (f x)) xs

  unfoldable pub tensor_sum : Tensor S F → Outcome F
  unfolding sum_ints sum_doubles
  tensor_sum (int32s xs) = returns (m.of_int (sum_ints (pos 0) xs))
  tensor_sum (int64s xs) = returns (m.of_int (sum_ints (pos 0) xs))
  tensor_sum (float32s xs) = returns (sum_doubles m.single.to_double m.double.nought xs)
  tensor_sum (float64s xs) = returns (sum_doubles (λ x. x) m.double.nought xs)
  tensor_sum (blocks n bs) = error (text "reduce: unsupported dtype")

  unfoldable pub reduce_to_scalar : DType → F → Outcome (Tensor S F)
  reduce_to_scalar int32 v = returns (int32s (m.to_int32 v ∷ []))
  reduce_to_scalar int64 v = returns (int64s (m.to_int64 v ∷ []))
  reduce_to_scalar float32 v = returns (float32s (m.single.of_double v ∷ []))
  reduce_to_scalar float64 v = returns (float64s (v ∷ []))
  reduce_to_scalar q8_0 v = unsupported

  -- The loop of reduce_minmax, and the zero of an empty column.
  unfoldable pub extreme_loop : {T : Type 0} → Scalar F T → Bool → T → List T → T
  extreme_loop k want_max acc [] = acc
  extreme_loop k want_max acc (x ∷ xs) =
      let better = if want_max then k.lt acc x else k.lt x acc in
      extreme_loop k want_max (if better then x else acc) xs

  unfoldable pub extreme : {T : Type 0} → Scalar F T → Bool → List T → T
  unfolding extreme_loop
  extreme k want_max [] = k.nought
  extreme k want_max (x ∷ xs) = extreme_loop k want_max x xs

  unfoldable pub reduce_minmax : Bool → Tensor S F → Outcome (Tensor S F)
  unfolding extreme
  reduce_minmax want_max (int32s xs) = returns (int32s (extreme (int32_scalar m) want_max xs ∷ []))
  reduce_minmax want_max (int64s xs) = returns (int64s (extreme (int64_scalar m) want_max xs ∷ []))
  reduce_minmax want_max (float32s xs) = returns (float32s (extreme m.single want_max xs ∷ []))
  reduce_minmax want_max (float64s xs) = returns (float64s (extreme m.double want_max xs ∷ []))
  reduce_minmax want_max (blocks n bs) = unsupported

  -- The mean of a column, 0 where it is empty.
  unfoldable pub tensor_mean : Tensor S F → Outcome F
  unfolding tensor_sum size
  tensor_mean a = elim (size a) [
    | zero ↦ returns m.double.nought
    | suc n ↦ do s ← tensor_sum a; returns (m.div s (m.of_int (pos (suc n))))
  ]

  unfoldable pub squares : {T : Type 0} → (T → F) → F → F → List T → F
  squares f mean sq [] = sq
  squares f mean sq (x ∷ xs) =
      let d = m.double.sub (f x) mean in squares f mean (m.double.add sq (m.double.mul d d)) xs

  -- The squares of the differences. Of a quantized tensor there is no sum, so it is empty here.
  unfoldable pub deviations : F → Tensor S F → F
  unfolding squares
  deviations mean (int32s xs) = squares m.of_int mean m.double.nought xs
  deviations mean (int64s xs) = squares m.of_int mean m.double.nought xs
  deviations mean (float32s xs) = squares m.single.to_double mean m.double.nought xs
  deviations mean (float64s xs) = squares (λ x. x) mean m.double.nought xs
  deviations mean (blocks n bs) = m.double.nought

  unfoldable pub stddev : Tensor S F → Outcome F
  unfolding tensor_mean deviations size
  stddev a = do
    mean ← tensor_mean a
    elim (size a) [
      | zero ↦ returns m.double.nought
      | suc n ↦ returns (m.sqrt (m.div (deviations mean a) (m.of_int (pos (suc n)))))
    ]

  -- ReduceOp.
  unfoldable pub reduce_op : Text → List Text → List Text → TensorOp S F
  unfolding input_at write tensor_sum tensor_mean stddev reduce_to_scalar reduce_minmax size
  reduce_op kind inputs outputs store = do
    a ← input_at store inputs 0
    r ←
        if is_text kind (text "sum")
        then (do s ← tensor_sum a; reduce_to_scalar float64 s)
        else if is_text kind (text "mean")
        then (do s ← tensor_mean a; reduce_to_scalar float64 s)
        else if is_text kind (text "count")
        then reduce_to_scalar int64 (m.of_int (pos (size a)))
        else if is_text kind (text "max")
        then reduce_minmax true a
        else if is_text kind (text "min")
        then reduce_minmax false a
        else if is_text kind (text "stddev")
        then (do s ← stddev a; reduce_to_scalar float64 s)
        else error (text "reduce op: unknown kind '" ++ (kind ++ text "'"))
    write store outputs r

module _ {S F : Type 0} (m : Floating S F) (machine : Machine S F) where
  unfoldable pub create_unary_op : OpSpec → Result (Option (TensorOp S F))
  create_unary_op spec =
      if contains text_dec spec.type
        (text "neg" ∷ text "abs" ∷ text "square" ∷ text "sqrt" ∷ text "exp" ∷ text "log" ∷ [])
      then done (some (unary_op m machine spec.type spec.inputs spec.outputs))
      else done none

  unfoldable pub create_reduce_op : OpSpec → Result (Option (TensorOp S F))
  create_reduce_op spec =
      if contains text_dec spec.type
        (text "sum" ∷ text "mean" ∷ text "count" ∷ text "max" ∷ text "min" ∷ text "stddev" ∷ [])
      then done (some (reduce_op m spec.type spec.inputs spec.outputs))
      else done none
