-- ===== src/Column/Quantize.antt =====
-- The rest of Tensor (column/src/column/tensor.cpp): filled tensors, casts to double and blocks of
-- small integers.
use lark.Base.{
  ℕ, zero, suc, ◌+◌, ◌-◌, ◌/◌, ◌==◌, min, List, [], ◌∷◌, ◌++◌, map, take, drop, length, text,
  replicate, if◌then◌else◌,
}
use lark.Base.Int.{ℤ, pos, ◌+ℤ◌, ◌*ℤ◌}
use lark.Base.Result.{Result, done, throw, runtime_error}
use lark.Column.Numbers.{Scalar, Floating, wrap}
use lark.Column.Tensor.{
  DType, int32, int64, float32, float64, q8_0, Tensor, int32s, int64s, float32s, float64s, blocks,
  Block,
}

-- More operators of the machine, and functions of <cmath>.
pub record Machine (S F : Type 0) : Type 0 where
  pub single_of_int : ℤ → S
  pub single_div : S → S → S
  pub to_int8 : S → ℤ
  pub exp : F → F
  pub log : F → F

-- `amax = std::max(amax, std::fabs(x))` over the elements.
unfoldable pub max_abs : {F T : Type 0} → Scalar F T → T → List T → T
max_abs k acc [] = acc
max_abs k acc (x ∷ xs) = max_abs k (if k.lt acc (k.abs x) then k.abs x else acc) xs

-- Blocks of 32 elements; the last one may be short. One round of fuel for each element is enough.
unfoldable pub in_blocks : {T B : Type 0} → (List T → B) → ℕ → List T → List B
in_blocks encode zero xs = []
in_blocks encode (suc fuel) [] = []
in_blocks encode (suc fuel) (x ∷ xs) =
    encode (take 32 (x ∷ xs)) ∷ in_blocks encode fuel (drop 32 (x ∷ xs))

module _ {S F : Type 0} (m : Floating S F) where
  unfoldable pub full : ℕ → F → DType → Result (Tensor S F)
  full n v int32 = done (int32s (replicate n (m.to_int32 v)))
  full n v int64 = done (int64s (replicate n (m.to_int64 v)))
  full n v float32 = done (float32s (replicate n (m.single.of_double v)))
  full n v float64 = done (float64s (replicate n v))
  full n v q8_0 = throw (runtime_error (text "Tensor::full: unsupported dtype"))

  unfoldable pub zeros : ℕ → DType → Tensor S F
  zeros n int32 = int32s (replicate n (pos 0))
  zeros n int64 = int64s (replicate n (pos 0))
  zeros n float32 = float32s (replicate n m.single.nought)
  zeros n float64 = float64s (replicate n m.double.nought)
  zeros n q8_0 = blocks n (
      replicate ((n + 31) / 32) (record { scale = m.single.nought; values = replicate 32 (pos 0) }))

  unfoldable pub ones : ℕ → DType → Result (Tensor S F)
  unfolding full
  ones n t = full n (m.of_int (pos 1)) t

  unfoldable pub to_double : Tensor S F → Result (Tensor S F)
  to_double (float64s xs) = done (float64s xs)
  to_double (int32s xs) = done (float64s (map m.of_int xs))
  to_double (int64s xs) = done (float64s (map m.of_int xs))
  to_double (float32s xs) = done (float64s (map m.single.to_double xs))
  to_double (blocks n bs) = throw (runtime_error (text "Tensor::to_double: unsupported dtype"))

module _ {S F : Type 0} (m : Floating S F) (machine : Machine S F) where
  abbrev pub limit : S
  limit = m.single.of_double (m.of_int (pos 127))

  -- `max(-127, min(127, q))`.
  unfoldable pub clamp : S → S
  clamp q =
      let low = if m.single.lt q limit then q else limit in
      if m.single.lt (m.single.neg limit) low then low else m.single.neg limit

  -- The elements of a block, given its scale.
  unfoldable pub encode : S → List S → Block S
  unfolding clamp
  encode d xs = record {
    scale = if m.single.eq d m.single.nought then m.single.nought else d;
    values =
        map
          (λ x. machine.to_int8 (
            clamp
              (if m.single.eq d m.single.nought then m.single.nought else machine.single_div x d)))
          xs
        ++ replicate (32 - length xs) (pos 0);
  }

  unfoldable pub encode_single : List S → Block S
  unfolding encode max_abs
  encode_single xs = encode (machine.single_div (max_abs m.single m.single.nought xs) limit) xs

  unfoldable pub encode_double : List F → Block S
  unfolding encode max_abs
  encode_double xs =
      encode (m.single.of_double (m.div (max_abs m.double m.double.nought xs) (m.of_int (pos 127))))
        (map m.single.of_double xs)

  unfoldable pub quantize : Tensor S F → Result (Tensor S F)
  unfolding encode_single encode_double in_blocks
  quantize (float32s xs) = done (blocks (length xs) (in_blocks encode_single (length xs) xs))
  quantize (float64s xs) = done (blocks (length xs) (in_blocks encode_double (length xs) xs))
  quantize _ = throw (runtime_error (text "quantize_q8_0: input must be a float tensor"))

module _ {S F : Type 0} (m : Floating S F) where
  -- The integers of a block: the products are added in 32 bits.
  unfoldable pub dot_values : ℤ → List ℤ → List ℤ → ℤ
  dot_values s [] ys = s
  dot_values s (x ∷ xs) [] = s
  dot_values s (x ∷ xs) (y ∷ ys) = dot_values (wrap 32 (s +ℤ x *ℤ y)) xs ys

  unfoldable pub dot_blocks : ℕ → F → List (Block S) → List (Block S) → F
  unfolding dot_values
  dot_blocks n acc [] bs = acc
  dot_blocks n acc (a ∷ xs) [] = acc
  dot_blocks n acc (a ∷ xs) (b ∷ bs) =
      let s = dot_values (pos 0) (take (min 32 n) a.values) (take (min 32 n) b.values) in
      let scales = m.double.mul (m.single.to_double a.scale) (m.single.to_double b.scale) in
      dot_blocks (n - 32) (m.double.add acc (m.double.mul scales (m.of_int s))) xs bs

  unfoldable pub dot_q8_0 : Tensor S F → Tensor S F → Result F
  unfolding dot_blocks
  dot_q8_0 (blocks n xs) (blocks k bs) =
      if n == k
      then done (dot_blocks n m.double.nought xs bs)
      else throw (runtime_error (text "dot_q8_0: length mismatch"))
  dot_q8_0 _ _ = throw (runtime_error (text "dot_q8_0: both operands must be kQ8_0"))
