-- ===== src/Column/Ops/Total.antt =====
-- Every op that create_op makes, on a store without quantized columns.
use lark.Base.{
  ℕ, ◌<◌, ◌≡◌, ◌==◌, ◌∙◌, refl, sym, false, List, [], Text, text, length, arith, Bool-cases, inl,
  inr,
}
use lark.Column.Numbers.{Floating}
use lark.Column.Tensor.{float64, q8_0, Tensor, blocks, dtype, size}
use lark.Column.Store.{TensorStore}
use lark.Column.Quantize.{Machine}
use lark.Column.Ops.{Outcome, ◌>>=◌, is_dtype, promote, input_at, write}
use lark.Column.Ops.Binary.{
  quotient, arith_fn, compare_fn, binary_arith, scalar_arith, compare_op, compare_scalar_op,
}
use lark.Column.Ops.Defined.{
  IsDefined, Gives->>=, AllPlain, Plain, input_at-Plain, write-IsDefined, promote-Plain,
}
use lark.Column.Ops.Safe.{
  zip_masks-IsDefined, map_masks-IsDefined, elementwise_scalar-IsDefined, casts-IsDefined,
  elementwise_binary-IsDefined,
}

module _ {S F : Type 0} where
  pub Plain-dtype : (a : Tensor S F) → is_dtype (dtype a) q8_0 ≡ false → Plain a
  unfolding dtype
  Plain-dtype (blocks n bs) h = absurd (ground (arith, h))
  Plain-dtype a h = refl

  -- The columns of an op are read and its result is written.
  pub one-IsDefined :
      (store : TensorStore S F) (inputs outputs : List Text) (f : Tensor S F → Outcome (Tensor S F))
      → AllPlain store
      → 0 < length inputs
      → 0 < length outputs
      → ((a : Tensor S F) → Plain a → IsDefined (f a))
      → IsDefined (input_at store inputs 0 >>= (λ a. f a >>= write store outputs))
  one-IsDefined store inputs outputs f all one out h =
      Gives->>= Plain (λ s. Unit {0}) (input_at store inputs 0) _
        (input_at-Plain store inputs 0 all one)
        (λ a p.
          Gives->>= (λ r. Unit {0}) (λ s. Unit {0}) (f a) _ (h a p)
            (λ r u. write-IsDefined store outputs r out))

  pub two-IsDefined :
      (store : TensorStore S F) (inputs : List Text)
      (f : Tensor S F → Tensor S F → Outcome (TensorStore S F))
      → AllPlain store
      → 1 < length inputs
      → ((a b : Tensor S F) → Plain a → Plain b → IsDefined (f a b))
      → IsDefined (input_at store inputs 0 >>= (λ a. input_at store inputs 1 >>= f a))
  two-IsDefined store inputs f all two h =
      Gives->>= Plain (λ s. Unit {0}) (input_at store inputs 0) _
        (input_at-Plain store inputs 0 all (omega (arith, two)))
        (λ a p.
          Gives->>= Plain (λ s. Unit {0}) (input_at store inputs 1) (f a)
            (input_at-Plain store inputs 1 all two) (λ b q. h a b p q))

module _ {S F : Type 0} (m : Floating S F) (machine : Machine S F) (store : TensorStore S F)
    (all : AllPlain store) where
  pub binary_arith-IsDefined :
      (op : ℕ) (inputs outputs : List Text)
      → 1 < length inputs
      → 0 < length outputs
      → IsDefined (binary_arith m machine op inputs outputs store)
  unfolding binary_arith
  binary_arith-IsDefined op inputs outputs two out =
      two-IsDefined store inputs _ all two (λ a b p q.
        Gives->>= (λ r. Unit {0}) (λ s. Unit {0}) _ _
          (elim (Bool-cases (op == b'/')) [
            | inl e ↦
                rw e (elementwise_binary-IsDefined m machine (quotient m) a b float64 p q refl)
            | inr e ↦ rw e (
                elementwise_binary-IsDefined m machine (arith_fn op) a b
                  (promote (dtype a) (dtype b)) p q (promote-Plain a b p q))
          ])
          (λ r u. write-IsDefined store outputs r out))

  pub scalar_arith-IsDefined :
      (op : ℕ) (v : F) (inputs outputs : List Text)
      → 0 < length inputs
      → 0 < length outputs
      → IsDefined (scalar_arith m machine op v inputs outputs store)
  unfolding scalar_arith
  scalar_arith-IsDefined op v inputs outputs one out =
      one-IsDefined store inputs outputs _ all one out (λ a p. elim (Bool-cases (op == b'/')) [
        | inl e ↦ rw e (elementwise_scalar-IsDefined m machine (quotient m) a v float64)
        | inr e ↦ rw e (elementwise_scalar-IsDefined m machine (arith_fn op) a v (dtype a))
      ])

  pub compare_op-IsDefined :
      (kind : Text) (inputs outputs : List Text)
      → 1 < length inputs
      → 0 < length outputs
      → IsDefined (compare_op m machine kind inputs outputs store)
  unfolding compare_op
  compare_op-IsDefined kind inputs outputs two out =
      two-IsDefined store inputs _ all two (λ a b p q. elim (Bool-cases (size a == size b)) [
        | inr e ↦ rw e tt
        | inl e ↦
            rw (e, promote-Plain a b p q)
              (casts-IsDefined m machine a b (promote (dtype a) (dtype b)) _ p q
                (promote-Plain a b p q)
                (λ ra rb e1 e2.
                  Gives->>= (λ r. Unit {0}) (λ s. Unit {0}) _ _
                    (zip_masks-IsDefined m machine (compare_fn kind []) ra rb (e1 ∙ sym e2)
                      (Plain-dtype ra (rw e1 (promote-Plain a b p q))))
                    (λ r u. write-IsDefined store outputs _ out)))
      ])

  pub compare_scalar_op-IsDefined :
      (kind : Text) (v : F) (inputs outputs : List Text)
      → 0 < length inputs
      → 0 < length outputs
      → IsDefined (compare_scalar_op m machine kind v inputs outputs store)
  unfolding compare_scalar_op
  compare_scalar_op-IsDefined kind v inputs outputs one out =
      Gives->>= Plain (λ s. Unit {0}) (input_at store inputs 0) _
        (input_at-Plain store inputs 0 all one)
        (λ a p.
          Gives->>= (λ r. Unit {0}) (λ s. Unit {0}) _ _
            (map_masks-IsDefined m machine (compare_fn kind (text "_scalar")) v a)
            (λ r u. write-IsDefined store outputs _ out))
