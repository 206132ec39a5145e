-- ===== src/Column/Compute/Agreement.antt =====
-- The kernels on machines with vectors and without.
use lark.Base.{ℕ, ◌≡◌, List}
use lark.Column.Numbers.{Floating}
use lark.Column.Tensor.{Tensor}
use lark.Column.Compute.{Simd, scalar, lanes, f64_pairs, f64_each}
use lark.Column.Compute.Arith.{
  add, sub, mul, div, add_scalar, sub_scalar, mul_scalar, div_scalar, abs, sqrt, square,
}
use lark.Column.Compute.Compare.{
  compare_lanes, compare_with, compare_with_scalar, gt, lt, ge, le, eq, gt_scalar, lt_scalar,
  ge_scalar, le_scalar, eq_scalar,
}
use lark.Column.Compute.Loops.{simd_map_lem}

module _ {S F : Type 0} where
  f64_pairs_lem {ℓ} :
      {T : Type ℓ} (w : ℕ) (op : F → F → T) (result : List T → Tensor S F) (a b : Tensor S F)
      → f64_pairs w op result a b ≡ f64_pairs 0 op result a b
  unfolding f64_pairs
  f64_pairs_lem w op result a b = simp simd_map_lem

  f64_each_lem {ℓ} :
      {T : Type ℓ} (w : ℕ) (op : F → T) (result : List T → Tensor S F) (a : Tensor S F)
      → f64_each w op op result a ≡ f64_each 0 op op result a
  unfolding f64_each
  f64_each_lem w op result a = simp simd_map_lem

  ruleset loops = (f64_pairs_lem, f64_each_lem)

module _ {S F : Type 0} (m : Floating S F) (simd : Simd) (a b : Tensor S F) (v : F) where
  arithmetic_agrees :
      (add m simd a b ≡ add m scalar a b)
      × (sub m simd a b ≡ sub m scalar a b)
      × (mul m simd a b ≡ mul m scalar a b)
      × (div m simd a b ≡ div m scalar a b)
  unfolding add sub mul div lanes
  arithmetic_agrees = (simp loops, simp loops, simp loops, simp loops)

  scalars_agree :
      (add_scalar m simd a v ≡ add_scalar m scalar a v)
      × (sub_scalar m simd a v ≡ sub_scalar m scalar a v)
      × (mul_scalar m simd a v ≡ mul_scalar m scalar a v)
      × (div_scalar m simd a v ≡ div_scalar m scalar a v)
  unfolding add_scalar sub_scalar mul_scalar div_scalar lanes
  scalars_agree = (simp loops, simp loops, simp loops, simp loops)

  unary_agrees :
      (abs m simd a ≡ abs m scalar a)
      × (sqrt m simd a ≡ sqrt m scalar a)
      × (square m simd a ≡ square m scalar a)
  unfolding abs sqrt square lanes
  unary_agrees = (simp loops, simp loops, simp loops)

  comparisons_agree :
      (gt m simd a b ≡ gt m scalar a b)
      × (lt m simd a b ≡ lt m scalar a b)
      × (ge m simd a b ≡ ge m scalar a b)
      × (le m simd a b ≡ le m scalar a b)
      × (eq m simd a b ≡ eq m scalar a b)
  unfolding gt lt ge le eq compare_lanes compare_with
  comparisons_agree = (simp loops, simp loops, simp loops, simp loops, simp loops)

  scalar_comparisons_agree :
      (gt_scalar m simd a v ≡ gt_scalar m scalar a v)
      × (lt_scalar m simd a v ≡ lt_scalar m scalar a v)
      × (ge_scalar m simd a v ≡ ge_scalar m scalar a v)
      × (le_scalar m simd a v ≡ le_scalar m scalar a v)
      × (eq_scalar m simd a v ≡ eq_scalar m scalar a v)
  unfolding gt_scalar lt_scalar ge_scalar le_scalar eq_scalar compare_lanes compare_with_scalar
  scalar_comparisons_agree = (simp loops, simp loops, simp loops, simp loops, simp loops)

  -- Each kernel gives what the scalar code gives.
  abbrev pub Agree : Type 0
  Agree =
      ((add m simd a b ≡ add m scalar a b)
        × (sub m simd a b ≡ sub m scalar a b)
        × (mul m simd a b ≡ mul m scalar a b)
        × (div m simd a b ≡ div m scalar a b))
      × ((add_scalar m simd a v ≡ add_scalar m scalar a v)
          × (sub_scalar m simd a v ≡ sub_scalar m scalar a v)
          × (mul_scalar m simd a v ≡ mul_scalar m scalar a v)
          × (div_scalar m simd a v ≡ div_scalar m scalar a v))
      × ((abs m simd a ≡ abs m scalar a)
          × (sqrt m simd a ≡ sqrt m scalar a)
          × (square m simd a ≡ square m scalar a))
      × ((gt m simd a b ≡ gt m scalar a b)
          × (lt m simd a b ≡ lt m scalar a b)
          × (ge m simd a b ≡ ge m scalar a b)
          × (le m simd a b ≡ le m scalar a b)
          × (eq m simd a b ≡ eq m scalar a b))
      × ((gt_scalar m simd a v ≡ gt_scalar m scalar a v)
          × (lt_scalar m simd a v ≡ lt_scalar m scalar a v)
          × (ge_scalar m simd a v ≡ ge_scalar m scalar a v)
          × (le_scalar m simd a v ≡ le_scalar m scalar a v)
          × (eq_scalar m simd a v ≡ eq_scalar m scalar a v))

  -- On every machine the kernels on two tensors, those on a tensor and a scalar, the comparisons, and
  -- abs, sqrt and square have the outcome of the scalar code: the same tensor, the same exception
  -- where the dtypes differ, or undefined behaviour on the same tensors.
  pub kernels_agree : Agree
  kernels_agree =
      (arithmetic_agrees, scalars_agree, unary_agrees, comparisons_agree, scalar_comparisons_agree)
