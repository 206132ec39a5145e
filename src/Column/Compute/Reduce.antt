-- ===== src/Column/Compute/Reduce.antt =====
-- The sum, the mean and the count (column/src/column/compute/reduce_tensor.cpp,
-- column/include/column/compute/simd.h).
use lark.Base.{
  ℕ, zero, suc, leb, Option, some, List, [], ◌∷◌, length, take, drop, if◌then◌else◌, replicate,
}
use lark.Base.Int.{ℤ, pos}
use lark.Column.Numbers.{Floating, int64}
use lark.Column.Tensor.{Tensor, size}
use lark.Column.Compute.{
  Simd, neon, avx512, avx2, sse2, scalar, lanes, ◌>>=◌, as_int64, as_double, is_int64,
}

module _ {S F : Type 0} (m : Floating S F) where
  -- The lanes of the accumulator, and `hsum_f64`.
  unfoldable pub add_lanes : List F → List F → List F
  add_lanes [] ys = []
  add_lanes (x ∷ xs) [] = []
  add_lanes (x ∷ xs) (y ∷ ys) = m.double.add x y ∷ add_lanes xs ys

  abbrev pub fold_sum : F → List F → F
  fold_sum s [] = s
  fold_sum s (x ∷ xs) = fold_sum (m.double.add s x) xs

  abbrev pub add_all : List F → F
  add_all (a ∷ []) = a
  add_all (a ∷ b ∷ []) = m.double.add a b
  add_all _ = m.double.nought

  -- The accumulator after the vector loop, and the elements that are left.
  unfoldable pub sum_loop : ℕ → ℕ → List F → List F → List F × List F
  unfolding add_lanes
  sum_loop zero w acc xs = (acc, xs)
  sum_loop (suc fuel) w acc xs =
      let round = sum_loop fuel w (add_lanes acc (take w xs)) (drop w xs) in
      if leb w (length xs) then round else (acc, xs)

  abbrev pub fold_int : ℤ → List ℤ → ℤ
  fold_int s [] = s
  fold_int s (x ∷ xs) = fold_int ((int64 m).add s x) xs

module _ {S F : Type 0} (m : Floating S F) (simd : Simd) where
  -- The upper half of the lanes is added to the lower, and so on.
  unfoldable pub hsum : List F → F
  unfolding add_lanes
  hsum v = elim simd [
    | neon ↦ add_all m v
    | sse2 ↦ add_all m v
    | avx2 ↦ add_all m (add_lanes m (take 2 v) (drop 2 v))
    | avx512 ↦
        let half = add_lanes m (take 4 v) (drop 4 v) in
        add_all m (add_lanes m (take 2 half) (drop 2 half))
    | scalar ↦ m.double.nought
  ]

  unfoldable pub sum_double : List F → F
  unfolding sum_loop hsum lanes
  sum_double xs =
      let w = lanes simd in
      let (acc, left) = sum_loop m (length xs) w (replicate w m.double.nought) xs in
      elim simd [ scalar ↦ fold_sum m m.double.nought xs | _ ↦ fold_sum m (hsum acc) left ]

  unfoldable pub sum : Tensor S F → Option F
  unfolding as_int64 as_double sum_double
  sum a =
      if is_int64 a
      then (do pa ← as_int64 a; some (m.of_int (fold_int m (pos 0) pa)))
      else (do pa ← as_double a; some (sum_double pa))

  unfoldable pub mean : Tensor S F → Option F
  unfolding sum size
  mean a = elim (size a) [
    | zero ↦ some m.double.nought
    | suc n ↦ do s ← sum a; some (m.div s (m.of_int (pos (suc n))))
  ]

  unfoldable pub count : Tensor S F → ℤ
  unfolding size
  count a = pos (size a)
