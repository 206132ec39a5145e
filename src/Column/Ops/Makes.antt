-- ===== src/Column/Ops/Makes.antt =====
-- The factories of the binary, unary, reducing and comparing ops: what they make of a spec with
-- enough columns does nothing undefined on a store without quantized columns.
use lark.Base.{
  ◌<◌, ◌≡◌, ◌||◌, refl, Bool, true, Option, none, some, [], ◌∷◌, Text, text, text_dec, length,
  arith, Bool-cases, inl, inr,
}
use lark.Base.Dict.{contains}
use lark.Base.Result
use lark.Base.Result.{Result, done, throw, invalid_argument}
use lark.Column.Numbers.{Floating}
use lark.Column.Tensor.{is_text}
use lark.Column.Store.{TensorStore}
use lark.Column.Op.{OpSpec}
use lark.Column.Quantize.{Machine}
use lark.Column.Ops.Binary.{
  TensorOp, Stod, arith_code, scalar_of, create_binary_op, create_compare_op,
}
use lark.Column.Ops.Single.{create_unary_op, create_reduce_op}
use lark.Column.Ops.Defined.{IsDefined, AllPlain}
use lark.Column.Ops.Total.{
  binary_arith-IsDefined, scalar_arith-IsDefined, compare_op-IsDefined, compare_scalar_op-IsDefined,
}
use lark.Column.Ops.Checked.{reduce_op-IsDefined, unary_op-IsDefined}

-- The op that a factory makes, where it makes one.
abbrev pub Makes : {A : Type 0} → (A → Type 0) → Result (Option A) → Type 0
Makes P (done (some f)) = P f
Makes P (done none) = Unit
Makes P (throw e) = Unit

abbrev pub Made : {A : Type 0} → (A → Type 0) → Result A → Type 0
Made P (done f) = P f
Made P (throw e) = Unit

pub Makes->>= :
    {A B : Type 0} (P : A → Type 0) (r : Result B) (f : B → Result (Option A))
    → ((b : B) → Makes P (f b))
    → Makes P (Result.◌>>=◌ r f)
Makes->>= P (done b) f h = h b
Makes->>= P (throw e) f h = tt

-- The ops that read two columns, and those that read one.
abbrev pub reads_two : Text → Bool
reads_two t =
    contains text_dec t (text "add" ∷ text "sub" ∷ text "mul" ∷ text "div" ∷ [])
    || contains text_dec t
        (text "gt" ∷ text "ge" ∷ text "lt" ∷ text "le" ∷ text "eq" ∷ text "neq" ∷ [])
    || is_text t (text "dot")

abbrev pub reads_one : Text → Bool
reads_one t =
    contains text_dec t
      (text "add_scalar" ∷ text "sub_scalar" ∷ text "mul_scalar" ∷ text "div_scalar" ∷ [])
    || contains text_dec t
        (text "neg" ∷ text "abs" ∷ text "square" ∷ text "sqrt" ∷ text "exp" ∷ text "log" ∷ [])
    || contains text_dec t
        (text "sum" ∷ text "mean" ∷ text "count" ∷ text "max" ∷ text "min" ∷ text "stddev" ∷ [])
    || contains text_dec t (
        text "gt_scalar"
        ∷ text "ge_scalar"
        ∷ text "lt_scalar"
        ∷ text "le_scalar"
        ∷ text "eq_scalar"
        ∷ text "neq_scalar"
        ∷ [])
    || is_text t (text "cast")
    || is_text t (text "quantize")
    || is_text t (text "dequantize")
    || is_text t (text "identity")

-- An op lists a column to write and the columns that it reads.
pub record IsFed (spec : OpSpec) : Type 0 where
  pub outputs : 0 < length spec.outputs
  pub two : reads_two spec.type ≡ true → 1 < length spec.inputs
  pub one : reads_one spec.type ≡ true → 0 < length spec.inputs

module _ {S F : Type 0} (m : Floating S F) (machine : Machine S F) (stod : Stod F)
    (store : TensorStore S F) (all : AllPlain store) where
  abbrev Runs : TensorOp S F → Type 0
  Runs f = IsDefined (f store)

  pub create_binary_op-Makes :
      (spec : OpSpec) → IsFed spec → Makes Runs (create_binary_op m machine stod spec)
  unfolding create_binary_op
  create_binary_op-Makes spec fed =
      elim (Bool-cases
        (contains text_dec spec.type (text "add" ∷ text "sub" ∷ text "mul" ∷ text "div" ∷ []))) [
          | inl e ↦ rw e (
              binary_arith-IsDefined m machine store all (arith_code spec.type []) spec.inputs
                spec.outputs (fed.two (rw e refl)) fed.outputs)
          | inr e ↦
              rw e
                (elim (Bool-cases (
                  contains text_dec spec.type (
                    text "add_scalar"
                    ∷ text "sub_scalar"
                    ∷ text "mul_scalar"
                    ∷ text "div_scalar"
                    ∷ []))) [
                      | inr e' ↦ rw e' tt
                      | inl e' ↦ rw e' (
                          Makes->>= Runs (scalar_of stod (text "scalar op") spec) _ (λ v.
                            scalar_arith-IsDefined m machine store all
                              (arith_code spec.type (text "_scalar")) v spec.inputs spec.outputs
                              (fed.one (rw e' refl)) fed.outputs))
                    ])
        ]

  pub create_unary_op-Makes :
      (spec : OpSpec) → IsFed spec → Makes Runs (create_unary_op m machine spec)
  unfolding create_unary_op
  create_unary_op-Makes spec fed =
      elim (Bool-cases (
        contains text_dec spec.type
          (text "neg" ∷ text "abs" ∷ text "square" ∷ text "sqrt" ∷ text "exp" ∷ text "log" ∷ []))) [
            | inr e ↦ rw e tt
            | inl e ↦ rw e (
                unary_op-IsDefined m machine store all spec.type spec.inputs spec.outputs
                  (fed.one (ground (arith, e))) fed.outputs)
          ]

  pub create_reduce_op-Makes :
      (spec : OpSpec) → IsFed spec → Makes Runs (create_reduce_op m machine spec)
  unfolding create_reduce_op
  create_reduce_op-Makes spec fed =
      elim (Bool-cases (
        contains text_dec spec.type (
          text "sum"
          ∷ text "mean"
          ∷ text "count"
          ∷ text "max"
          ∷ text "min"
          ∷ text "stddev"
          ∷ []))) [
            | inr e ↦ rw e tt
            | inl e ↦ rw e (
                reduce_op-IsDefined m store all spec.type spec.inputs spec.outputs
                  (fed.one (ground (arith, e))) fed.outputs)
          ]

  pub create_compare_op-Makes :
      (spec : OpSpec) → IsFed spec → Makes Runs (create_compare_op m machine stod spec)
  unfolding create_compare_op
  create_compare_op-Makes spec fed =
      elim (Bool-cases (
        contains text_dec spec.type
          (text "gt" ∷ text "ge" ∷ text "lt" ∷ text "le" ∷ text "eq" ∷ text "neq" ∷ []))) [
            | inl e ↦ rw e (
                compare_op-IsDefined m machine store all spec.type spec.inputs spec.outputs
                  (fed.two (ground (arith, e))) fed.outputs)
            | inr e ↦
                rw e
                  (elim (Bool-cases (
                    contains text_dec spec.type (
                      text "gt_scalar"
                      ∷ text "ge_scalar"
                      ∷ text "lt_scalar"
                      ∷ text "le_scalar"
                      ∷ text "eq_scalar"
                      ∷ text "neq_scalar"
                      ∷ []))) [
                        | inr e' ↦ rw e' tt
                        | inl e' ↦ rw e' (
                            Makes->>= Runs (scalar_of stod (text "scalar compare") spec) _ (λ v.
                              compare_scalar_op-IsDefined m machine store all spec.type v
                                spec.inputs spec.outputs (fed.one (ground (arith, e')))
                                fed.outputs))
                      ])
          ]
