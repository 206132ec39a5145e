-- ===== src/Column/Compute/Arith.antt =====
-- The arithmetic kernels (column/src/column/compute: add_tensor.cpp, sub_tensor.cpp, mul_tensor.cpp,
-- div_tensor.cpp, scalar_tensor.cpp, unary_tensor.cpp).
use lark.Base.{Option, some, map, text, if◌then◌else◌}
use lark.Base.Result.{Result, done, throw, runtime_error}
use lark.Column.Numbers.{Floating, int64}
use lark.Column.Tensor.{Tensor, int64s, float64s}
use lark.Column.Compute.{
  Simd, neon, lanes, pairs, ◌>>=◌, as_int64, same_dtype, is_int64, int64_pairs, f64_pairs,
  int64_each, f64_each,
}

module _ {S F : Type 0} (m : Floating S F) (simd : Simd) where
  -- add_int64, add_f64, add: the dtypes are compared, and the lengths are not.
  unfoldable pub add : Tensor S F → Tensor S F → Result (Option (Tensor S F))
  unfolding int64_pairs f64_pairs lanes
  add a b =
      if same_dtype a b
      then done (
          if is_int64 a
          then int64_pairs ((int64 m).add) a b
          else f64_pairs (lanes simd) m.double.add float64s a b)
      else throw (runtime_error (text "Type mismatch in add"))

  unfoldable pub sub : Tensor S F → Tensor S F → Result (Option (Tensor S F))
  unfolding int64_pairs f64_pairs lanes
  sub a b =
      if same_dtype a b
      then done (
          if is_int64 a
          then int64_pairs ((int64 m).sub) a b
          else f64_pairs (lanes simd) m.double.sub float64s a b)
      else throw (runtime_error (text "Type mismatch in sub"))

  unfoldable pub mul : Tensor S F → Tensor S F → Result (Option (Tensor S F))
  unfolding int64_pairs f64_pairs lanes
  mul a b =
      if same_dtype a b
      then done (
          if is_int64 a
          then int64_pairs ((int64 m).mul) a b
          else f64_pairs (lanes simd) m.double.mul float64s a b)
      else throw (runtime_error (text "Type mismatch in mul"))

  -- The quotients of integers are doubles, and have no vector code.
  unfoldable pub div_int64 : Tensor S F → Tensor S F → Option (Tensor S F)
  unfolding as_int64 pairs
  div_int64 a b = do
    pa ← as_int64 a
    pb ← as_int64 b
    ps ← pairs pa pb
    some (float64s (map (λ p. m.div (m.of_int p.0) (m.of_int p.1)) ps))

  unfoldable pub div : Tensor S F → Tensor S F → Result (Option (Tensor S F))
  unfolding div_int64 f64_pairs lanes
  div a b =
      if same_dtype a b
      then done (if is_int64 a then div_int64 a b else f64_pairs (lanes simd) m.div float64s a b)
      else throw (runtime_error (text "Type mismatch in div"))

  -- The scalar of an int64 tensor is cast to int64_t.
  unfoldable pub add_scalar : Tensor S F → F → Option (Tensor S F)
  unfolding int64_each f64_each lanes
  add_scalar a v =
      let s = m.to_int64 v in
      let op = λ (x : F). m.double.add x v in
      if is_int64 a
      then int64_each (λ x. (int64 m).add x s) int64s a
      else f64_each (lanes simd) op op float64s a

  unfoldable pub sub_scalar : Tensor S F → F → Option (Tensor S F)
  unfolding int64_each f64_each lanes
  sub_scalar a v =
      let s = m.to_int64 v in
      let op = λ (x : F). m.double.sub x v in
      if is_int64 a
      then int64_each (λ x. (int64 m).sub x s) int64s a
      else f64_each (lanes simd) op op float64s a

  unfoldable pub mul_scalar : Tensor S F → F → Option (Tensor S F)
  unfolding int64_each f64_each lanes
  mul_scalar a v =
      let s = m.to_int64 v in
      let op = λ (x : F). m.double.mul x v in
      if is_int64 a
      then int64_each (λ x. (int64 m).mul x s) int64s a
      else f64_each (lanes simd) op op float64s a

  unfoldable pub div_scalar : Tensor S F → F → Option (Tensor S F)
  unfolding int64_each f64_each lanes
  div_scalar a v =
      let op = λ (x : F). m.div x v in
      if is_int64 a
      then int64_each (λ x. m.div (m.of_int x) v) float64s a
      else f64_each (lanes simd) op op float64s a

  -- On x86 a vector is negated by a subtraction from zero.
  abbrev pub neg_lane : F → F
  neg_lane x = elim simd [ neon ↦ m.double.neg x | _ ↦ m.double.sub m.double.nought x ]

  unfoldable pub neg : Tensor S F → Option (Tensor S F)
  unfolding int64_each f64_each lanes
  neg a =
      if is_int64 a
      then int64_each (int64 m).neg int64s a
      else f64_each (lanes simd) neg_lane m.double.neg float64s a

  unfoldable pub abs : Tensor S F → Option (Tensor S F)
  unfolding int64_each f64_each lanes
  abs a =
      if is_int64 a
      then int64_each (int64 m).abs int64s a
      else f64_each (lanes simd) m.double.abs m.double.abs float64s a

  unfoldable pub sqrt : Tensor S F → Option (Tensor S F)
  unfolding int64_each f64_each lanes
  sqrt a =
      if is_int64 a
      then int64_each (λ x. m.sqrt (m.of_int x)) float64s a
      else f64_each (lanes simd) m.sqrt m.sqrt float64s a

  unfoldable pub square : Tensor S F → Option (Tensor S F)
  unfolding int64_each f64_each lanes
  square a =
      let op = λ (x : F). m.double.mul x x in
      if is_int64 a
      then int64_each (λ x. (int64 m).mul x x) int64s a
      else f64_each (lanes simd) op op float64s a
