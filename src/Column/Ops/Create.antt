-- ===== src/Column/Ops/Create.antt =====
-- The special ops that cast or build columns (column/src/column/exec/ops_special.cpp), and create_op
-- (column/src/column/exec/ops.cpp).
use lark.Base.{
  ℕ, ◌==◌, ◌&&◌, Option, none, some, List, [], ◌∷◌, ◌++◌, map, Text, text, length, ℕ_discrete,
  if◌then◌else◌,
}
use lark.Base.Dict.{contains}
use lark.Base.Decimal.{stoull}
use lark.Base.Result
use lark.Base.Result.{Result, done, throw, invalid_argument, out_of_range}
use lark.Column.Numbers.{Floating}
use lark.Column.Tensor.{
  DType, int32, int64, float32, float64, q8_0, Tensor, int32s, int64s, float32s, float64s, dtype,
  size, is_float, is_quantized, is_text, parse_dtype,
}
use lark.Column.Op.{OpSpec, attr_at}
use lark.Column.Feed.{dequantize}
use lark.Column.Quantize.{Machine, quantize, full, dot_q8_0}
use lark.Column.Ops.{
  Outcome, returns, raises, ◌>>=◌, calling, error, unsupported, is_dtype, promote, cast_tensor,
  input_at, write,
}
use lark.Column.Ops.Binary.{TensorOp, Stod, create_binary_op, create_compare_op}
use lark.Column.Ops.Single.{create_unary_op, create_reduce_op}
use lark.Column.Ops.Special.{
  mask_of, select_tensors, filter_op, identity_op, split_commas, parse_values,
}

module _ {S F : Type 0} (m : Floating S F) (machine : Machine S F) where
  -- SelectOp.
  unfoldable pub select_op : List Text → List Text → TensorOp S F
  unfolding input_at write mask_of promote cast_tensor select_tensors size
  select_op inputs outputs store = do
    mask ← input_at store inputs 0
    a ← input_at store inputs 1
    b ← input_at store inputs 2
    elim (mask_of mask) [
      | none ↦ error (text "select: mask must be int64")
      | some bits ↦
          let out = promote (dtype a) (dtype b) in
          if (size mask == size a) && (size b == size a)
          then (if is_dtype out q8_0 then unsupported else do
            ra ← cast_tensor m machine a out
            rb ← cast_tensor m machine b out
            r ← select_tensors bits ra rb
            write store outputs r)
          else error (text "select: length mismatch")
    ]

  -- CastOp.
  unfoldable pub cast_op : DType → List Text → List Text → TensorOp S F
  unfolding input_at write cast_tensor
  cast_op to inputs outputs store = do
    a ← input_at store inputs 0
    r ← cast_tensor m machine a to
    write store outputs r

  -- QuantizeOp.
  unfoldable pub quantize_op : List Text → List Text → TensorOp S F
  unfolding input_at write is_float quantize
  quantize_op inputs outputs store = do
    a ← input_at store inputs 0
    if is_float (dtype a)
        then (do r ← calling (quantize m machine a); write store outputs r)
        else error (text "quantize: input must be a float tensor")

module _ {S F : Type 0} (m : Floating S F) where
  -- DequantizeOp.
  unfoldable pub dequantize_op : List Text → List Text → TensorOp S F
  unfolding input_at write is_quantized dequantize
  dequantize_op inputs outputs store = do
    a ← input_at store inputs 0
    if is_quantized (dtype a)
        then (do r ← calling (dequantize m a); write store outputs r)
        else error (text "dequantize: input must be a q8_0 tensor")

  -- DotQ8Op.
  unfoldable pub dot_op : List Text → List Text → TensorOp S F
  unfolding input_at write is_quantized dot_q8_0
  dot_op inputs outputs store = do
    a ← input_at store inputs 0
    b ← input_at store inputs 1
    if is_quantized (dtype a) && is_quantized (dtype b)
        then (do v ← calling (dot_q8_0 m a b); write store outputs (float64s (v ∷ [])))
        else error (text "dot: both inputs must be q8_0 tensors")

  -- The values of a list, cast to a dtype.
  unfoldable pub column_of : List F → DType → Outcome (Tensor S F)
  column_of vs int32 = returns (int32s (map m.to_int32 vs))
  column_of vs int64 = returns (int64s (map m.to_int64 vs))
  column_of vs float32 = returns (float32s (map m.single.of_double vs))
  column_of vs float64 = returns (float64s vs)
  column_of vs q8_0 = unsupported

  -- BuildConst.
  unfoldable pub build_const : Stod F → Text → DType → ℕ → Outcome (Tensor S F)
  build_const stod value t n =
      if contains ℕ_discrete b',' value
      then (do vs ← calling (parse_values stod (split_commas value)); column_of vs t)
      else (do v ← calling (stod value); calling (full m n v t))

  -- ConstOp: a missing attribute has a default, and `attrs_.at` throws.
  unfoldable pub constant_op : Stod F → OpSpec → TensorOp S F
  constant_op stod spec store = do
    value ← elim (attr_at spec (text "value")) [
      | some v ↦ returns v
      | none ↦ raises (out_of_range (text "unordered_map::at"))
    ]
    t ←
        calling
          (parse_dtype (elim (attr_at spec (text "dtype")) [ some d ↦ d | none ↦ text "float64" ]))
    n ← calling (stoull (elim (attr_at spec (text "size")) [ some k ↦ k | none ↦ text "1" ]))
    r ← build_const stod value t n
    write store spec.outputs r

module _ {S F : Type 0} (m : Floating S F) (machine : Machine S F) (stod : Stod F) where
  unfoldable pub create_special_op : OpSpec → Result (Option (TensorOp S F))
  unfolding attr_at parse_dtype
  create_special_op spec =
      if is_text spec.type (text "select")
      then (if length spec.inputs == 3
          then done (some (select_op m machine spec.inputs spec.outputs))
          else throw (invalid_argument (text "select requires 3 inputs (mask,a,b)")))
      else if is_text spec.type (text "filter")
      then (if length spec.inputs == 2
          then done (some (filter_op spec.inputs spec.outputs))
          else throw (invalid_argument (text "filter requires 2 inputs (data,mask)")))
      else if is_text spec.type (text "cast")
      then elim (attr_at spec (text "dtype")) [
        | none ↦ throw (invalid_argument (text "cast requires attr 'dtype'"))
        | some name ↦
            Result.◌>>=◌ (parse_dtype name)
              (λ t. done (some (cast_op m machine t spec.inputs spec.outputs)))
      ]
      else if is_text spec.type (text "quantize")
      then done (some (quantize_op m machine spec.inputs spec.outputs))
      else if is_text spec.type (text "dequantize")
      then done (some (dequantize_op m spec.inputs spec.outputs))
      else if is_text spec.type (text "dot")
      then done (some (dot_op m spec.inputs spec.outputs))
      else if is_text spec.type (text "const")
      then elim (attr_at spec (text "value")) [
        | none ↦ throw (invalid_argument (text "const requires attr 'value'"))
        | some v ↦ done (some (constant_op m stod spec))
      ]
      else if is_text spec.type (text "identity")
      then done (some (identity_op spec.inputs spec.outputs))
      else done none

  -- The first family that knows the op.
  abbrev pub first_op :
      Result (Option (TensorOp S F)) → Result (TensorOp S F) → Result (TensorOp S F)
  first_op family more = Result.◌>>=◌ family (λ o. elim o [ some op ↦ done op | none ↦ more ])

  unfoldable pub create_op : OpSpec → Result (TensorOp S F)
  unfolding create_special_op
  create_op spec = first_op (create_binary_op m machine stod spec) (
      first_op (create_unary_op m machine spec) (
        first_op (create_reduce_op m machine spec) (
          first_op (create_compare_op m machine stod spec) (
            first_op (create_special_op spec) (
              throw (
                invalid_argument
                  (text "create_op: unknown op type '" ++ (spec.type ++ text "'"))))))))
