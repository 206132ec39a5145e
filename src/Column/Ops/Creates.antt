-- ===== src/Column/Ops/Creates.antt =====
-- The ops that create_special_op makes of casts and values: what they do is defined.
use lark.Base.{
  ℕ, ◌<◌, ◌==◌, ◌&&◌, ◌∙◌, sym, Option, none, some, List, Text, text, length, arith, Option-cases,
  Bool-cases, inl, inr, ℕ_discrete,
}
use lark.Base.Dict.{contains}
use lark.Base.Decimal.{stoull}
use lark.Base.Result.{out_of_range}
use lark.Column.Numbers.{Floating}
use lark.Column.Tensor.{DType, q8_0, dtype, size, is_float, is_quantized, parse_dtype}
use lark.Column.Store.{TensorStore}
use lark.Column.Op.{OpSpec, attr_at}
use lark.Column.Feed.{dequantize}
use lark.Column.Quantize.{Machine, quantize, dot_q8_0, full}
use lark.Column.Ops.{Outcome, returns, raises, calling, promote, input_at, write}
use lark.Column.Ops.Binary.{Stod}
use lark.Column.Ops.Special.{mask_of, select_tensors, split_commas, parse_values}
use lark.Column.Ops.Create.{
  select_op, cast_op, quantize_op, dequantize_op, dot_op, column_of, build_const, constant_op,
}
use lark.Column.Ops.Defined.{
  IsDefined, Gives->>=, calling-IsDefined, AllPlain, Plain, branch-IsDefined, input_at-Plain,
  write-IsDefined, promote-Plain,
}
use lark.Column.Ops.Safe.{cast_tensor-IsDefined, casts-IsDefined}
use lark.Column.Ops.Total.{Plain-dtype, one-IsDefined, two-IsDefined}
use lark.Column.Ops.Checked.{select_tensors-IsDefined}

abbrev Any {ℓ} : {A : Type ℓ} → A → Type 0
Any a = Unit {0}

abbrev given : Option Text → Outcome Text
given (some v) = returns v
given none = raises (out_of_range (text "unordered_map::at"))

given-IsDefined : (o : Option Text) → IsDefined (given o)
given-IsDefined (some v) = tt
given-IsDefined none = tt

module _ {S F : Type 0} (m : Floating S F) (machine : Machine S F) (store : TensorStore S F)
    (all : AllPlain store) where
  pub select_op-IsDefined :
      (inputs outputs : List Text)
      → 2 < length inputs
      → 0 < length outputs
      → IsDefined (select_op m machine inputs outputs store)
  unfolding select_op
  select_op-IsDefined inputs outputs three out =
      Gives->>= Plain Any (input_at store inputs 0) _
        (input_at-Plain store inputs 0 all (omega (arith, three)))
        (λ mask pm.
          Gives->>= Plain Any (input_at store inputs 1) _
            (input_at-Plain store inputs 1 all (omega (arith, three)))
            (λ a p.
              Gives->>= Plain Any (input_at store inputs 2) _
                (input_at-Plain store inputs 2 all three)
                (λ b q. elim (Option-cases (mask_of mask)) [
                  | inl e ↦ rw e tt
                  | inr (bits, e) ↦
                      rw e (elim (Bool-cases ((size mask == size a) && (size b == size a))) [
                        | inr e' ↦ rw e' tt
                        | inl e' ↦
                            rw (e', promote-Plain a b p q)
                              (casts-IsDefined m machine a b (promote (dtype a) (dtype b)) _ p q
                                (promote-Plain a b p q)
                                (λ ra rb e1 e2.
                                  Gives->>= Any Any (select_tensors bits ra rb) _
                                    (select_tensors-IsDefined bits ra rb (e1 ∙ sym e2)
                                      (Plain-dtype ra (rw e1 (promote-Plain a b p q))))
                                    (λ r u. write-IsDefined store outputs r out)))
                      ])
                ])))

  pub cast_op-IsDefined :
      (d : DType) (inputs outputs : List Text)
      → 0 < length inputs
      → 0 < length outputs
      → IsDefined (cast_op m machine d inputs outputs store)
  unfolding cast_op
  cast_op-IsDefined d inputs outputs one out =
      one-IsDefined store inputs outputs _ all one out (λ a p. cast_tensor-IsDefined m machine a d)

  pub quantize_op-IsDefined :
      (inputs outputs : List Text)
      → 0 < length inputs
      → 0 < length outputs
      → IsDefined (quantize_op m machine inputs outputs store)
  unfolding quantize_op
  quantize_op-IsDefined inputs outputs one out =
      Gives->>= Plain Any (input_at store inputs 0) _ (input_at-Plain store inputs 0 all one)
        (λ a p.
          branch-IsDefined (is_float (dtype a)) _ _
            (Gives->>= Any Any (calling (quantize m machine a)) (write store outputs)
              (calling-IsDefined (quantize m machine a))
              (λ r u. write-IsDefined store outputs r out))
            tt)

module _ {S F : Type 0} (m : Floating S F) (store : TensorStore S F) (all : AllPlain store) where
  pub dequantize_op-IsDefined :
      (inputs outputs : List Text)
      → 0 < length inputs
      → 0 < length outputs
      → IsDefined (dequantize_op m inputs outputs store)
  unfolding dequantize_op
  dequantize_op-IsDefined inputs outputs one out =
      Gives->>= Plain Any (input_at store inputs 0) _ (input_at-Plain store inputs 0 all one)
        (λ a p. elim (Bool-cases (is_quantized (dtype a))) [
          | inr e ↦ rw e tt
          | inl e ↦ rw e (
              Gives->>= Any Any (calling (dequantize m a)) (write store outputs)
                (calling-IsDefined (dequantize m a)) (λ r u. write-IsDefined store outputs r out))
        ])

  pub dot_op-IsDefined :
      (inputs outputs : List Text)
      → 1 < length inputs
      → 0 < length outputs
      → IsDefined (dot_op m inputs outputs store)
  unfolding dot_op
  dot_op-IsDefined inputs outputs two out = two-IsDefined store inputs _ all two (λ a b p q.
      elim (Bool-cases (is_quantized (dtype a) && is_quantized (dtype b))) [
        | inr e ↦ rw e tt
        | inl e ↦ rw e (
            Gives->>= Any Any (calling (dot_q8_0 m a b)) _ (calling-IsDefined (dot_q8_0 m a b))
              (λ r u. write-IsDefined store outputs _ out))
      ])

  column_of-IsDefined : (vs : List F) (d : DType) → IsDefined (column_of {S = S} m vs d)
  unfolding column_of
  column_of-IsDefined vs q8_0 = tt
  column_of-IsDefined vs _ = tt

  build_const-IsDefined :
      (stod : Stod F) (value : Text) (d : DType) (n : ℕ)
      → IsDefined (build_const {S = S} m stod value d n)
  unfolding build_const
  build_const-IsDefined stod value d n =
      branch-IsDefined (contains ℕ_discrete b',' value) _ _
        (Gives->>= Any Any (calling (parse_values stod (split_commas value))) _
          (calling-IsDefined (parse_values stod (split_commas value)))
          (λ vs u. column_of-IsDefined vs d))
        (Gives->>= Any Any (calling (stod value)) _ (calling-IsDefined (stod value))
          (λ v u. calling-IsDefined (full m n v d)))

  pub constant_op-IsDefined :
      (stod : Stod F) (spec : OpSpec)
      → 0 < length spec.outputs
      → IsDefined (constant_op m stod spec store)
  unfolding constant_op
  constant_op-IsDefined stod spec out =
      let name : Text = elim (attr_at spec (text "dtype")) [ some d ↦ d | none ↦ text "float64" ] in
      let count : Text = elim (attr_at spec (text "size")) [ some k ↦ k | none ↦ text "1" ] in
      Gives->>= Any Any (given (attr_at spec (text "value"))) _
        (given-IsDefined (attr_at spec (text "value")))
        (λ value u.
          Gives->>= Any Any (calling (parse_dtype name)) _ (calling-IsDefined (parse_dtype name))
            (λ d u'.
              Gives->>= Any Any (calling (stoull count)) _ (calling-IsDefined (stoull count))
                (λ n u''.
                  Gives->>= Any Any (build_const m stod value d n) _
                    (build_const-IsDefined stod value d n)
                    (λ r u3. write-IsDefined store spec.outputs r out))))
