-- ===== src/Column/Ops/Checked.antt =====
-- The other ops, and create_op: with enough columns an op does nothing undefined.
use lark.Base.{
  ℕ, zero, suc, ◌<◌, ◌⊎◌, ◌≡◌, ◌==◌, refl, Bool, true, false, List, [], ◌∷◌, ◌++◌, Text, text,
  length, arith, Option-cases, Bool-cases, inl, inr, if◌then◌else◌,
}
use lark.Base.Int.{ℤ, pos}
use lark.Column.Numbers.{Floating}
use lark.Column.Tensor.{
  DType, int32, int64, float32, float64, q8_0, Tensor, int32s, int64s, float32s, float64s, blocks,
  dtype, size, is_text,
}
use lark.Column.Store.{TensorStore}
use lark.Column.Quantize.{Machine}
use lark.Column.Ops.{Outcome, ◌>>=◌, error, input}
use lark.Column.Ops.Single.{
  on_double, unary_op, reduce_op, tensor_sum, tensor_mean, stddev, reduce_to_scalar, reduce_minmax,
}
use lark.Column.Ops.Special.{mask_of, select_tensors, filter_tensor, filter_op, identity_op}
use lark.Column.Ops.Defined.{
  IsDefined, Gives->>=, AllPlain, Plain, branch-IsDefined, input-Plain, write-IsDefined,
}
use lark.Column.Ops.Safe.{elementwise_unary-IsDefined}
use lark.Column.Ops.Total.{one-IsDefined, two-IsDefined}

ℕ-cases : (n : ℕ) → (n ≡ zero) ⊎ ((k : ℕ) × (n ≡ suc k))
ℕ-cases zero = inl refl
ℕ-cases (suc k) = inr (k, refl)

module _ {S F : Type 0} where
  pub select_tensors-IsDefined :
      (mask : List ℤ) (a b : Tensor S F)
      → dtype a ≡ dtype b
      → Plain a
      → IsDefined (select_tensors mask a b)
  unfolding select_tensors dtype
  select_tensors-IsDefined mask (int32s xs) (int32s ys) e p = tt
  select_tensors-IsDefined mask (int64s xs) (int64s ys) e p = tt
  select_tensors-IsDefined mask (float32s xs) (float32s ys) e p = tt
  select_tensors-IsDefined mask (float64s xs) (float64s ys) e p = tt
  select_tensors-IsDefined mask (blocks n bs) b e p = absurd (ground (arith, p))
  select_tensors-IsDefined mask a b e p = cc

  filter_tensor-IsDefined : (mask : List ℤ) (a : Tensor S F) → IsDefined (filter_tensor mask a)
  unfolding filter_tensor
  filter_tensor-IsDefined mask (blocks n bs) = tt
  filter_tensor-IsDefined mask (int32s xs) = tt
  filter_tensor-IsDefined mask (int64s xs) = tt
  filter_tensor-IsDefined mask (float32s xs) = tt
  filter_tensor-IsDefined mask (float64s xs) = tt

  module _ (store : TensorStore S F) (all : AllPlain store) where
    pub filter_op-IsDefined :
        (inputs outputs : List Text)
        → 1 < length inputs
        → 0 < length outputs
        → IsDefined (filter_op inputs outputs store)
    unfolding filter_op
    filter_op-IsDefined inputs outputs two out = two-IsDefined store inputs _ all two (λ a b p q.
        elim (Option-cases (mask_of b)) [
          | inl e ↦ rw e tt
          | inr (bits, e) ↦ rw e (elim (Bool-cases (size b == size a)) [
            | inr e' ↦ rw e' tt
            | inl e' ↦ rw e' (
                Gives->>= (λ r. Unit {0}) (λ s. Unit {0}) _ _ (filter_tensor-IsDefined bits a)
                  (λ r u. write-IsDefined store outputs r out))
          ])
        ])

    pub identity_op-IsDefined :
        (inputs outputs : List Text)
        → 0 < length inputs
        → 0 < length outputs
        → IsDefined (identity_op inputs outputs store)
    unfolding identity_op
    identity_op-IsDefined [] outputs one out = absurd (omega (arith, one))
    identity_op-IsDefined (n ∷ ns) [] one out = absurd (omega (arith, out))
    identity_op-IsDefined (n ∷ ns) (k ∷ ks) one out = elim (Bool-cases (is_text n k)) [
      | inl e ↦ rw e tt
      | inr e ↦ rw e (
          Gives->>= Plain (λ s. Unit {0}) (input store n) _ (input-Plain store n all)
            (λ t p. write-IsDefined store (k ∷ ks) t out))
    ]

module _ {S F : Type 0} (m : Floating S F) where
  tensor_sum-IsDefined : (a : Tensor S F) → IsDefined (tensor_sum m a)
  unfolding tensor_sum
  tensor_sum-IsDefined (blocks n bs) = tt
  tensor_sum-IsDefined (int32s xs) = tt
  tensor_sum-IsDefined (int64s xs) = tt
  tensor_sum-IsDefined (float32s xs) = tt
  tensor_sum-IsDefined (float64s xs) = tt

  reduce_to_scalar-IsDefined : (d : DType) (v : F) → IsDefined (reduce_to_scalar {S = S} m d v)
  unfolding reduce_to_scalar
  reduce_to_scalar-IsDefined q8_0 v = tt
  reduce_to_scalar-IsDefined int32 v = tt
  reduce_to_scalar-IsDefined int64 v = tt
  reduce_to_scalar-IsDefined float32 v = tt
  reduce_to_scalar-IsDefined float64 v = tt

  reduce_minmax-IsDefined : (b : Bool) (a : Tensor S F) → IsDefined (reduce_minmax m b a)
  unfolding reduce_minmax
  reduce_minmax-IsDefined b (blocks n bs) = tt
  reduce_minmax-IsDefined b (int32s xs) = tt
  reduce_minmax-IsDefined b (int64s xs) = tt
  reduce_minmax-IsDefined b (float32s xs) = tt
  reduce_minmax-IsDefined b (float64s xs) = tt

  tensor_mean-IsDefined : (a : Tensor S F) → IsDefined (tensor_mean m a)
  unfolding tensor_mean
  tensor_mean-IsDefined a = elim (ℕ-cases (size a)) [
    | inl e ↦ rw (e, tensor_mean) tt
    | inr (n, e) ↦
        rw (e, tensor_mean)
          (Gives->>= (λ s. Unit {0}) (λ s. Unit {0}) (tensor_sum m a) _ (tensor_sum-IsDefined a)
            (λ s u. tt))
  ]

  stddev-IsDefined : (a : Tensor S F) → IsDefined (stddev m a)
  unfolding stddev
  stddev-IsDefined a =
      Gives->>= (λ s. Unit {0}) (λ s. Unit {0}) (tensor_mean m a) _ (tensor_mean-IsDefined a)
        (λ s u. elim (ℕ-cases (size a)) [ inl e ↦ rw e tt | inr (n, e) ↦ rw e tt ])

  -- A number is made a column.
  scalar-IsDefined :
      (r : Outcome F) (d : DType) → IsDefined r → IsDefined (r >>= reduce_to_scalar {S = S} m d)
  scalar-IsDefined r d u =
      Gives->>= (λ s. Unit {0}) (λ s. Unit {0}) r _ u (λ s v. reduce_to_scalar-IsDefined d s)

  module _ (store : TensorStore S F) (all : AllPlain store) where
    pub reduce_op-IsDefined :
        (kind : Text) (inputs outputs : List Text)
        → 0 < length inputs
        → 0 < length outputs
        → IsDefined (reduce_op m kind inputs outputs store)
    unfolding reduce_op
    reduce_op-IsDefined kind inputs outputs one out =
        one-IsDefined store inputs outputs _ all one out (λ a p.
          branch-IsDefined (is_text kind (text "sum")) _ _
            (scalar-IsDefined (tensor_sum m a) float64 (tensor_sum-IsDefined a))
            (branch-IsDefined (is_text kind (text "mean")) _ _
              (scalar-IsDefined (tensor_mean m a) float64 (tensor_mean-IsDefined a))
              (branch-IsDefined (is_text kind (text "count")) _ _
                (reduce_to_scalar-IsDefined int64 (m.of_int (pos (size a))))
                (branch-IsDefined (is_text kind (text "max")) _ _ (reduce_minmax-IsDefined true a) (
                  branch-IsDefined (is_text kind (text "min")) _ _ (reduce_minmax-IsDefined false a)
                    (branch-IsDefined (is_text kind (text "stddev")) _
                      (error (text "reduce op: unknown kind '" ++ (kind ++ text "'")))
                      (scalar-IsDefined (stddev m a) float64 (stddev-IsDefined a)) tt))))))

module _ {S F : Type 0} (m : Floating S F) (machine : Machine S F) (store : TensorStore S F)
    (all : AllPlain store) where
  pub unary_op-IsDefined :
      (kind : Text) (inputs outputs : List Text)
      → 0 < length inputs
      → 0 < length outputs
      → IsDefined (unary_op m machine kind inputs outputs store)
  unfolding unary_op
  unary_op-IsDefined kind inputs outputs one out =
      one-IsDefined store inputs outputs _ all one out (λ a p.
        branch-IsDefined (is_text kind (text "neg")) _ _
          (elementwise_unary-IsDefined m machine (λ T k x. k.neg x) a (dtype a))
          (branch-IsDefined (is_text kind (text "abs")) _ _
            (elementwise_unary-IsDefined m machine (λ T k x. if k.lt x k.nought then k.neg x else x)
              a (dtype a))
            (branch-IsDefined (is_text kind (text "square")) _ _
              (elementwise_unary-IsDefined m machine (λ T k x. k.mul x x) a (dtype a))
              (branch-IsDefined (is_text kind (text "sqrt")) _ _
                (elementwise_unary-IsDefined m machine (on_double m.sqrt) a float64)
                (branch-IsDefined (is_text kind (text "exp")) _ _
                  (elementwise_unary-IsDefined m machine (on_double machine.exp) a float64)
                  (branch-IsDefined (is_text kind (text "log")) _
                    (error (text "unary op: unknown kind '" ++ (kind ++ text "'")))
                    (elementwise_unary-IsDefined m machine (on_double machine.log) a float64)
                    tt))))))
