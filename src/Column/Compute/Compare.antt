-- ===== src/Column/Compute/Compare.antt =====
-- The comparison kernels (column/src/column/compute/compare_tensor.cpp).
use lark.Base.{ℕ, Bool, Option, if◌then◌else◌}
use lark.Base.Int.{ℤ, ltb_ℤ}
use lark.Column.Numbers.{Floating, leb_ℤ, eq_ℤ}
use lark.Column.Tensor.{Tensor, int64s}
use lark.Column.Compute.{
  Simd, neon, avx512, avx2, sse2, scalar, truth, is_int64, int64_pairs, f64_pairs, int64_each,
  f64_each,
}

-- Only NEON has vector code for the comparisons.
unfoldable pub compare_lanes : Simd → ℕ
compare_lanes neon = 2
compare_lanes avx512 = 0
compare_lanes avx2 = 0
compare_lanes sse2 = 0
compare_lanes scalar = 0

module _ {S F : Type 0} (m : Floating S F) (simd : Simd) where
  unfoldable pub compare_with :
      (ℤ → ℤ → Bool) → (F → F → Bool) → Tensor S F → Tensor S F → Option (Tensor S F)
  unfolding int64_pairs f64_pairs compare_lanes
  compare_with int_op op a b =
      if is_int64 a
      then int64_pairs (λ x y. truth (int_op x y)) a b
      else f64_pairs (compare_lanes simd) (λ x y. truth (op x y)) int64s a b

  unfoldable pub compare_with_scalar :
      (ℤ → ℤ → Bool) → (F → F → Bool) → Tensor S F → F → Option (Tensor S F)
  unfolding int64_each f64_each compare_lanes
  compare_with_scalar int_op op a v =
      let test = λ (x : F). truth (op x v) in
      if is_int64 a
      then int64_each (λ x. truth (int_op x (m.to_int64 v))) int64s a
      else f64_each (compare_lanes simd) test test int64s a

  unfoldable pub gt : Tensor S F → Tensor S F → Option (Tensor S F)
  unfolding compare_with
  gt = compare_with (λ x y. ltb_ℤ y x) (λ x y. m.double.lt y x)

  unfoldable pub lt : Tensor S F → Tensor S F → Option (Tensor S F)
  unfolding compare_with
  lt = compare_with ltb_ℤ m.double.lt

  unfoldable pub ge : Tensor S F → Tensor S F → Option (Tensor S F)
  unfolding compare_with
  ge = compare_with (λ x y. leb_ℤ y x) (λ x y. m.double.le y x)

  unfoldable pub le : Tensor S F → Tensor S F → Option (Tensor S F)
  unfolding compare_with
  le = compare_with leb_ℤ m.double.le

  unfoldable pub eq : Tensor S F → Tensor S F → Option (Tensor S F)
  unfolding compare_with
  eq = compare_with eq_ℤ m.double.eq

  unfoldable pub gt_scalar : Tensor S F → F → Option (Tensor S F)
  unfolding compare_with_scalar
  gt_scalar = compare_with_scalar (λ x y. ltb_ℤ y x) (λ x y. m.double.lt y x)

  unfoldable pub lt_scalar : Tensor S F → F → Option (Tensor S F)
  unfolding compare_with_scalar
  lt_scalar = compare_with_scalar ltb_ℤ m.double.lt

  unfoldable pub ge_scalar : Tensor S F → F → Option (Tensor S F)
  unfolding compare_with_scalar
  ge_scalar = compare_with_scalar (λ x y. leb_ℤ y x) (λ x y. m.double.le y x)

  unfoldable pub le_scalar : Tensor S F → F → Option (Tensor S F)
  unfolding compare_with_scalar
  le_scalar = compare_with_scalar leb_ℤ m.double.le

  unfoldable pub eq_scalar : Tensor S F → F → Option (Tensor S F)
  unfolding compare_with_scalar
  eq_scalar = compare_with_scalar eq_ℤ m.double.eq
