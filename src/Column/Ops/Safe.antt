-- ===== src/Column/Ops/Safe.antt =====
-- The helpers and the ops, one by one: what they do is defined.
use lark.Base.{◌≡◌, ◌==◌, ◌∙◌, sym, false, arith, Bool-cases, inl, inr}
use lark.Column.Numbers.{Floating}
use lark.Column.Tensor.{
  DType, q8_0, Tensor, int32s, int64s, float32s, float64s, blocks, dtype, size,
}
use lark.Column.Quantize.{Machine}
use lark.Column.Ops.{
  Outcome, ◌>>=◌, is_dtype, Unary, Binary, map_tensor, zip_tensors, cast_tensor, elementwise_binary,
  elementwise_scalar, elementwise_unary,
}
use lark.Column.Ops.Binary.{Test, zip_masks, map_masks}
use lark.Column.Ops.Defined.{IsDefined, Gives->>=, Plain, cast_tensor-dtype}

module _ {S F : Type 0} (m : Floating S F) (machine : Machine S F) where
  pub cast_tensor-IsDefined : (a : Tensor S F) (d : DType) → IsDefined (cast_tensor m machine a d)
  unfolding cast_tensor
  cast_tensor-IsDefined (blocks n bs) q8_0 = tt
  cast_tensor-IsDefined (blocks n bs) _ = tt
  cast_tensor-IsDefined (int32s xs) q8_0 = tt
  cast_tensor-IsDefined (int32s xs) _ = tt
  cast_tensor-IsDefined (int64s xs) q8_0 = tt
  cast_tensor-IsDefined (int64s xs) _ = tt
  cast_tensor-IsDefined (float32s xs) q8_0 = tt
  cast_tensor-IsDefined (float32s xs) _ = tt
  cast_tensor-IsDefined (float64s xs) q8_0 = tt
  cast_tensor-IsDefined (float64s xs) _ = tt

  map_tensor-IsDefined : (fn : Unary F) (a : Tensor S F) → IsDefined (map_tensor m fn a)
  unfolding map_tensor
  map_tensor-IsDefined fn (blocks n bs) = tt
  map_tensor-IsDefined fn (int32s xs) = tt
  map_tensor-IsDefined fn (int64s xs) = tt
  map_tensor-IsDefined fn (float32s xs) = tt
  map_tensor-IsDefined fn (float64s xs) = tt

  zip_tensors-IsDefined :
      (fn : Binary F) (a b : Tensor S F) → dtype a ≡ dtype b → IsDefined (zip_tensors m fn a b)
  unfolding zip_tensors dtype
  zip_tensors-IsDefined fn (int32s xs) (int32s ys) e = tt
  zip_tensors-IsDefined fn (int64s xs) (int64s ys) e = tt
  zip_tensors-IsDefined fn (float32s xs) (float32s ys) e = tt
  zip_tensors-IsDefined fn (float64s xs) (float64s ys) e = tt
  zip_tensors-IsDefined fn (blocks n xs) (blocks k ys) e = tt
  zip_tensors-IsDefined fn a b e = cc

  pub zip_masks-IsDefined :
      (fn : Test F) (a b : Tensor S F)
      → dtype a ≡ dtype b
      → Plain a
      → IsDefined (zip_masks m fn a b)
  unfolding zip_masks dtype
  zip_masks-IsDefined fn (int32s xs) (int32s ys) e p = tt
  zip_masks-IsDefined fn (int64s xs) (int64s ys) e p = tt
  zip_masks-IsDefined fn (float32s xs) (float32s ys) e p = tt
  zip_masks-IsDefined fn (float64s xs) (float64s ys) e p = tt
  zip_masks-IsDefined fn (blocks n bs) b e p = absurd (ground (arith, p))
  zip_masks-IsDefined fn a b e p = cc

  pub map_masks-IsDefined : (fn : Test F) (v : F) (a : Tensor S F) → IsDefined (map_masks m fn v a)
  unfolding map_masks
  map_masks-IsDefined fn v (blocks n bs) = tt
  map_masks-IsDefined fn v (int32s xs) = tt
  map_masks-IsDefined fn v (int64s xs) = tt
  map_masks-IsDefined fn v (float32s xs) = tt
  map_masks-IsDefined fn v (float64s xs) = tt

  pub elementwise_unary-IsDefined :
      (fn : Unary F) (a : Tensor S F) (d : DType) → IsDefined (elementwise_unary m machine fn a d)
  unfolding elementwise_unary
  elementwise_unary-IsDefined fn a d =
      Gives->>= (λ r. Unit {0}) (λ r. Unit {0}) (cast_tensor m machine a d) _
        (cast_tensor-IsDefined a d) (λ r u. map_tensor-IsDefined fn r)

  pub elementwise_scalar-IsDefined :
      (fn : Binary F) (a : Tensor S F) (v : F) (d : DType)
      → IsDefined (elementwise_scalar m machine fn a v d)
  unfolding elementwise_scalar
  elementwise_scalar-IsDefined fn a v d =
      Gives->>= (λ r. Unit {0}) (λ r. Unit {0}) (cast_tensor m machine a d) _
        (cast_tensor-IsDefined a d)
        (λ r u. map_tensor-IsDefined (λ T k x. fn T k x (k.of_double v)) r)

  -- Two plain columns are cast to one type.
  pub casts-IsDefined {ℓ} :
      {A : Type ℓ} (a b : Tensor S F) (d : DType) (f : Tensor S F → Tensor S F → Outcome A)
      → Plain a
      → Plain b
      → is_dtype d q8_0 ≡ false
      → ((ra rb : Tensor S F) → dtype ra ≡ d → dtype rb ≡ d → IsDefined (f ra rb))
      → IsDefined (cast_tensor m machine a d >>= (λ ra. cast_tensor m machine b d >>= f ra))
  casts-IsDefined a b d f p q other h =
      Gives->>= (λ r. Path DType (dtype r) d) (λ r. Unit {0}) (cast_tensor m machine a d) _
        (cast_tensor-dtype m machine a d p other)
        (λ ra e.
          Gives->>= (λ r. Path DType (dtype r) d) (λ r. Unit {0}) (cast_tensor m machine b d) (f ra)
            (cast_tensor-dtype m machine b d q other) (λ rb e'. h ra rb e e'))

  pub elementwise_binary-IsDefined :
      (fn : Binary F) (a b : Tensor S F) (d : DType)
      → Plain a
      → Plain b
      → is_dtype d q8_0 ≡ false
      → IsDefined (elementwise_binary m machine fn a b d)
  unfolding elementwise_binary
  elementwise_binary-IsDefined fn a b d p q other = elim (Bool-cases (size b == size a)) [
    | inr e ↦ rw e tt
    | inl e ↦ rw e (
        casts-IsDefined a b d (zip_tensors m fn) p q other
          (λ ra rb e e'. zip_tensors-IsDefined fn ra rb (e ∙ sym e')))
  ]
