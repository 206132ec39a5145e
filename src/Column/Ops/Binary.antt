-- ===== src/Column/Ops/Binary.antt =====
-- The ops on two columns, or on a column and a scalar (column/src/column/exec/ops_binary.cpp,
-- column/src/column/exec/ops_compare.cpp).
use lark.Base.{
  ℕ, ◌==◌, Bool, not, Option, none, some, List, [], ◌∷◌, ◌++◌, map, Text, text, text_dec,
  if◌then◌else◌,
}
use lark.Base.Int.{ℤ}
use lark.Base.Dict.{contains}
use lark.Base.Decimal.{to_string_ℕ}
use lark.Base.Result
use lark.Base.Result.{Result, done, throw, invalid_argument, runtime_error}
use lark.Column.Numbers.{Scalar, Floating}
use lark.Column.Compute.{truth}
use lark.Column.Tensor.{
  float64, q8_0, Tensor, int32s, int64s, float32s, float64s, blocks, dtype, size, is_text,
}
use lark.Column.Store.{TensorStore}
use lark.Column.Op.{OpSpec, attr_at}
use lark.Column.Quantize.{Machine}
use lark.Column.Ops.{
  Outcome, returns, undefined, ◌>>=◌, error, unsupported, is_dtype, promote, Binary, zip_with,
  int32_scalar, int64_scalar, cast_tensor, elementwise_binary, elementwise_scalar, input_at, write,
}

-- A test on two elements of any type.
abbrev pub Test : Type 0 → Type 1
Test F = (T : Type 0) → Scalar F T → T → T → Bool

-- compute() of an op.
abbrev pub TensorOp : Type 0 → Type 0 → Type 0
TensorOp S F = TensorStore S F → Outcome (TensorStore S F)

unfoldable pub arith_fn : {F : Type 0} → ℕ → Binary F
arith_fn op T k x y = if op == b'+' then k.add x y else if op == b'-' then k.sub x y else k.mul x y

-- The lambda of CompareOp; the kinds of CompareScalarOp end in `_scalar`.
unfoldable pub compare_fn : {F : Type 0} → Text → Text → Test F
compare_fn kind suffix T k x y =
    if is_text kind (text "gt" ++ suffix)
    then k.lt y x
    else if is_text kind (text "ge" ++ suffix)
    then k.le y x
    else if is_text kind (text "lt" ++ suffix)
    then k.lt x y
    else if is_text kind (text "le" ++ suffix)
    then k.le x y
    else if is_text kind (text "eq" ++ suffix)
    then k.eq x y
    else not (k.eq x y)

module _ {S F : Type 0} (m : Floating S F) where
  unfoldable pub zip_masks : Test F → Tensor S F → Tensor S F → Outcome (List ℤ)
  unfolding zip_with
  zip_masks fn (int32s xs) (int32s ys) =
      returns (zip_with (λ x y. truth (fn ℤ (int32_scalar m) x y)) xs ys)
  zip_masks fn (int64s xs) (int64s ys) =
      returns (zip_with (λ x y. truth (fn ℤ (int64_scalar m) x y)) xs ys)
  zip_masks fn (float32s xs) (float32s ys) =
      returns (zip_with (λ x y. truth (fn S m.single x y)) xs ys)
  zip_masks fn (float64s xs) (float64s ys) =
      returns (zip_with (λ x y. truth (fn F m.double x y)) xs ys)
  zip_masks fn _ _ = undefined

  unfoldable pub map_masks : Test F → F → Tensor S F → Outcome (List ℤ)
  map_masks fn v (int32s xs) =
      returns (map (λ x. truth (fn ℤ (int32_scalar m) x (m.to_int32 v))) xs)
  map_masks fn v (int64s xs) =
      returns (map (λ x. truth (fn ℤ (int64_scalar m) x (m.to_int64 v))) xs)
  map_masks fn v (float32s xs) =
      returns (map (λ x. truth (fn S m.single x (m.single.of_double v))) xs)
  map_masks fn v (float64s xs) =
      returns (map (λ x. truth (fn F m.double x (m.double.of_double v))) xs)
  map_masks fn v (blocks n bs) = unsupported

  -- The quotient of the doubles.
  abbrev pub quotient : Binary F
  quotient T k x y = k.of_double (m.div (k.to_double x) (k.to_double y))

module _ {S F : Type 0} (m : Floating S F) (machine : Machine S F) where
  -- BinaryArithOp.
  unfoldable pub binary_arith : ℕ → List Text → List Text → TensorOp S F
  unfolding input_at write elementwise_binary promote arith_fn
  binary_arith op inputs outputs store = do
    a ← input_at store inputs 0
    b ← input_at store inputs 1
    r ←
        if op == b'/'
        then elementwise_binary m machine (quotient m) a b float64
        else elementwise_binary m machine (arith_fn op) a b (promote (dtype a) (dtype b))
    write store outputs r

  -- ScalarArithOp.
  unfoldable pub scalar_arith : ℕ → F → List Text → List Text → TensorOp S F
  unfolding input_at write elementwise_scalar arith_fn
  scalar_arith op v inputs outputs store = do
    a ← input_at store inputs 0
    r ←
        if op == b'/'
        then elementwise_scalar m machine (quotient m) a v float64
        else elementwise_scalar m machine (arith_fn op) a v (dtype a)
    write store outputs r

  -- CompareOp.
  unfoldable pub compare_op : Text → List Text → List Text → TensorOp S F
  unfolding input_at write promote cast_tensor zip_masks compare_fn
  compare_op kind inputs outputs store = do
    a ← input_at store inputs 0
    b ← input_at store inputs 1
    let d = promote (dtype a) (dtype b)
    if size a == size b
        then (if is_dtype d q8_0 then unsupported else do
          ra ← cast_tensor m machine a d
          rb ← cast_tensor m machine b d
          masks ← zip_masks m (compare_fn kind []) ra rb
          write store outputs (int64s masks))
        else error (
            text "compare: length mismatch ("
            ++ (to_string_ℕ (size a) ++ (text " vs " ++ (to_string_ℕ (size b) ++ text ")"))))

  -- CompareScalarOp.
  unfoldable pub compare_scalar_op : Text → F → List Text → List Text → TensorOp S F
  unfolding input_at write map_masks compare_fn
  compare_scalar_op kind v inputs outputs store = do
    a ← input_at store inputs 0
    masks ← map_masks m (compare_fn kind (text "_scalar")) v a
    write store outputs (int64s masks)

-- std::stod.
abbrev pub Stod : Type 0 → Type 0
Stod F = Text → Result F

abbrev pub arith_code : Text → Text → ℕ
arith_code t suffix =
    if is_text t (text "add" ++ suffix)
    then b'+'
    else if is_text t (text "sub" ++ suffix)
    then b'-'
    else if is_text t (text "mul" ++ suffix)
    then b'*'
    else b'/'

-- The attribute `scalar`, or an exception.
unfoldable pub scalar_of : {F : Type 0} → Stod F → Text → OpSpec → Result F
unfolding attr_at
scalar_of stod what spec = elim (attr_at spec (text "scalar")) [
  | some v ↦ stod v
  | none ↦
      throw
        (invalid_argument (what ++ (text " '" ++ (spec.type ++ text "' requires attr 'scalar'"))))
]

module _ {S F : Type 0} (m : Floating S F) (machine : Machine S F) (stod : Stod F) where
  unfoldable pub create_binary_op : OpSpec → Result (Option (TensorOp S F))
  unfolding scalar_of
  create_binary_op spec =
      if contains text_dec spec.type (text "add" ∷ text "sub" ∷ text "mul" ∷ text "div" ∷ [])
      then done (some (binary_arith m machine (arith_code spec.type []) spec.inputs spec.outputs))
      else if contains text_dec spec.type
          (text "add_scalar" ∷ text "sub_scalar" ∷ text "mul_scalar" ∷ text "div_scalar" ∷ [])
      then Result.◌>>=◌ (scalar_of stod (text "scalar op") spec) (λ v. done (
          some (
            scalar_arith m machine (arith_code spec.type (text "_scalar")) v spec.inputs
              spec.outputs)))
      else done none

  unfoldable pub create_compare_op : OpSpec → Result (Option (TensorOp S F))
  unfolding scalar_of
  create_compare_op spec =
      if contains text_dec spec.type
        (text "gt" ∷ text "ge" ∷ text "lt" ∷ text "le" ∷ text "eq" ∷ text "neq" ∷ [])
      then done (some (compare_op m machine spec.type spec.inputs spec.outputs))
      else if contains text_dec spec.type (
          text "gt_scalar"
          ∷ text "ge_scalar"
          ∷ text "lt_scalar"
          ∷ text "le_scalar"
          ∷ text "eq_scalar"
          ∷ text "neq_scalar"
          ∷ [])
      then Result.◌>>=◌ (scalar_of stod (text "scalar compare") spec)
          (λ v. done (some (compare_scalar_op m machine spec.type v spec.inputs spec.outputs)))
      else done none
