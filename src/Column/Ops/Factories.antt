-- ===== src/Column/Ops/Factories.antt =====
-- create_op: an op with enough columns does nothing undefined on a store without quantized columns.
use lark.Base.{
  ◌==◌, Option, none, some, ◌++◌, text, length, arith, Option-cases, Bool-cases, inl, inr,
}
use lark.Base.Result.{Result, done, throw, invalid_argument}
use lark.Column.Numbers.{Floating}
use lark.Column.Tensor.{is_text, parse_dtype}
use lark.Column.Store.{TensorStore}
use lark.Column.Op.{OpSpec, attr_at}
use lark.Column.Quantize.{Machine}
use lark.Column.Ops.Binary.{TensorOp, Stod, create_binary_op, create_compare_op}
use lark.Column.Ops.Single.{create_unary_op, create_reduce_op}
use lark.Column.Ops.Create.{create_special_op, create_op, first_op}
use lark.Column.Ops.Defined.{IsDefined, AllPlain}
use lark.Column.Ops.Checked.{filter_op-IsDefined, identity_op-IsDefined}
use lark.Column.Ops.Creates.{
  select_op-IsDefined, cast_op-IsDefined, quantize_op-IsDefined, dequantize_op-IsDefined,
  dot_op-IsDefined, constant_op-IsDefined,
}
use lark.Column.Ops.Makes.{
  Makes, Made, Makes->>=, IsFed, create_binary_op-Makes, create_unary_op-Makes,
  create_reduce_op-Makes, create_compare_op-Makes,
}

module _ {S F : Type 0} (m : Floating S F) (machine : Machine S F) (stod : Stod F)
    (store : TensorStore S F) (all : AllPlain store) where
  abbrev Runs : TensorOp S F → Type 0
  Runs f = IsDefined (f store)

  create_special_op-Makes :
      (spec : OpSpec) → IsFed spec → Makes Runs (create_special_op m machine stod spec)
  unfolding create_special_op
  create_special_op-Makes spec fed = elim (Bool-cases (is_text spec.type (text "select"))) [
    | inl e ↦ rw e (elim (Bool-cases (length spec.inputs == 3)) [
      | inr e' ↦ rw e' tt
      | inl e' ↦ rw e' (
          select_op-IsDefined m machine store all spec.inputs spec.outputs (ground (arith, e'))
            fed.outputs)
    ])
    | inr e ↦ rw e (elim (Bool-cases (is_text spec.type (text "filter"))) [
      | inl e1 ↦ rw e1 (elim (Bool-cases (length spec.inputs == 2)) [
        | inr e' ↦ rw e' tt
        | inl e' ↦ rw e' (
            filter_op-IsDefined store all spec.inputs spec.outputs (ground (arith, e')) fed.outputs)
      ])
      | inr e1 ↦ rw e1 (elim (Bool-cases (is_text spec.type (text "cast"))) [
        | inl e2 ↦ rw e2 (elim (Option-cases (attr_at spec (text "dtype"))) [
          | inl e' ↦ rw e' tt
          | inr (name, e') ↦ rw e' (
              Makes->>= Runs (parse_dtype name) _ (λ t.
                cast_op-IsDefined m machine store all t spec.inputs spec.outputs
                  (fed.one (ground (arith, e2))) fed.outputs))
        ])
        | inr e2 ↦ rw e2 (elim (Bool-cases (is_text spec.type (text "quantize"))) [
          | inl e3 ↦ rw e3 (
              quantize_op-IsDefined m machine store all spec.inputs spec.outputs
                (fed.one (ground (arith, e3))) fed.outputs)
          | inr e3 ↦ rw e3 (elim (Bool-cases (is_text spec.type (text "dequantize"))) [
            | inl e4 ↦ rw e4 (
                dequantize_op-IsDefined m store all spec.inputs spec.outputs
                  (fed.one (ground (arith, e4))) fed.outputs)
            | inr e4 ↦ rw e4 (elim (Bool-cases (is_text spec.type (text "dot"))) [
              | inl e5 ↦ rw e5 (
                  dot_op-IsDefined m store all spec.inputs spec.outputs
                    (fed.two (ground (arith, e5))) fed.outputs)
              | inr e5 ↦ rw e5 (elim (Bool-cases (is_text spec.type (text "const"))) [
                | inl e6 ↦ rw e6 (elim (Option-cases (attr_at spec (text "value"))) [
                  | inl e' ↦ rw e' tt
                  | inr (v, e') ↦ rw e' (constant_op-IsDefined m store all stod spec fed.outputs)
                ])
                | inr e6 ↦ rw e6 (elim (Bool-cases (is_text spec.type (text "identity"))) [
                  | inr e7 ↦ rw e7 tt
                  | inl e7 ↦ rw e7 (
                      identity_op-IsDefined store all spec.inputs spec.outputs
                        (fed.one (ground (arith, e7))) fed.outputs)
                ])
              ])
            ])
          ])
        ])
      ])
    ])
  ]

  first_op-Made :
      (family : Result (Option (TensorOp S F))) (more : Result (TensorOp S F))
      → Makes Runs family
      → Made Runs more
      → Made Runs (first_op m machine stod family more)
  first_op-Made (done (some f)) more u v = u
  first_op-Made (done none) more u v = v
  first_op-Made (throw e) more u v = tt

  -- An op that create_op makes of a spec that lists enough columns, run on a store without quantized
  -- columns, never reads a column as another type than it has, nor beyond its lists of columns: it
  -- returns a store or throws.
  pub create_op-Made : (spec : OpSpec) → IsFed spec → Made Runs (create_op m machine stod spec)
  unfolding create_op
  create_op-Made spec fed =
      let unknown : Result (TensorOp S F) =
        throw (invalid_argument (text "create_op: unknown op type '" ++ (spec.type ++ text "'"))) in
      let special = create_special_op m machine stod spec in
      let compares = create_compare_op m machine stod spec in
      let reduces = create_reduce_op m machine spec in
      let unaries = create_unary_op m machine spec in
      let from_special = first_op m machine stod special unknown in
      let from_compares = first_op m machine stod compares from_special in
      let from_reduces = first_op m machine stod reduces from_compares in
      let from_unaries = first_op m machine stod unaries from_reduces in
      first_op-Made (create_binary_op m machine stod spec) from_unaries
        (create_binary_op-Makes m machine stod store all spec fed)
        (first_op-Made unaries from_reduces
          (create_unary_op-Makes m machine stod store all spec fed)
          (first_op-Made reduces from_compares
            (create_reduce_op-Makes m machine stod store all spec fed)
            (first_op-Made compares from_special
              (create_compare_op-Makes m machine stod store all spec fed)
              (first_op-Made special unknown (create_special_op-Makes spec fed) tt))))
