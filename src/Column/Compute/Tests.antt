-- ===== src/Column/Compute/Tests.antt =====
-- The kernels at concrete inputs; doubles are integers here, whose sums round nothing.
use lark.Base.{◌≡◌, refl, some, List, [], ◌∷◌, ◌++◌, map}
use lark.Base.Int.{ℤ, pos, negsuc, ◌+ℤ◌, ◌-ℤ◌}
use lark.Base.Result.{done}
use lark.Column.Numbers.{wrap, signed, in_range}
use lark.Column.Sample.{numbers, floating}
use lark.Column.Tensor.{Tensor, int64s, float64s}
use lark.Column.Compute.{
  neon, avx512, avx2, sse2, scalar, lanes, vector_loop, simd_map, pairs, as_int64, as_double,
  int64_pairs, f64_pairs,
}
use lark.Column.Compute.Arith.{add, neg}
use lark.Column.Compute.Agreement.{Agree, kernels_agree}
use lark.Column.Compute.Negation.{neg-Split}
use lark.Column.Compute.Loops.{Split}

abbrev five : Tensor ℤ ℤ
five = float64s (pos 1 ∷ pos 2 ∷ pos 3 ∷ pos 4 ∷ pos 5 ∷ [])

abbrev edge : Tensor ℤ ℤ
edge = int64s (pos 9223372036854775807 ∷ negsuc 0 ∷ [])

added :
    add floating avx2 five five
    ≡ done (some (float64s (pos 2 ∷ pos 4 ∷ pos 6 ∷ pos 8 ∷ pos 10 ∷ [])))
unfolding add f64_pairs simd_map vector_loop pairs as_double lanes ◌+ℤ◌
added = refl

-- The largest int64_t and 1, where the machine wraps around.
wrapped :
    add floating neon edge (int64s (pos 1 ∷ pos 1 ∷ []))
    ≡ done (some (int64s (negsuc 9223372036854775807 ∷ pos 0 ∷ [])))
unfolding add int64_pairs pairs as_int64 signed in_range wrap ◌+ℤ◌
wrapped = refl

kernels_agree_example : Agree floating avx512 five five (pos 7)
kernels_agree_example = kernels_agree floating avx512 five five (pos 7)

neg-Split_example :
    (neg floating neon (float64s (pos 1 ∷ pos 2 ∷ pos 3 ∷ []))
      ≡ some (float64s (map numbers.neg (pos 1 ∷ pos 2 ∷ pos 3 ∷ []))))
    × (neg floating scalar (float64s (pos 1 ∷ pos 2 ∷ pos 3 ∷ []))
        ≡ some (float64s (map numbers.neg (pos 1 ∷ pos 2 ∷ pos 3 ∷ []))))
    × (ys : List ℤ) × (zs : List ℤ) × Split 2 (pos 1 ∷ pos 2 ∷ pos 3 ∷ []) ys zs
    × (neg floating sse2 (float64s (pos 1 ∷ pos 2 ∷ pos 3 ∷ []))
        ≡ some (float64s (map (λ x. pos 0 -ℤ x) ys ++ map numbers.neg zs)))
unfolding lanes
neg-Split_example = neg-Split floating sse2 1 (pos 1 ∷ pos 2 ∷ pos 3 ∷ []) (λ e. cc) refl
