-- ===== src/Column/Tensor.antt =====
-- Tensor (column/include/column/tensor.h, column/src/column/tensor.cpp) and DType
-- (column/include/column/types.h).
use lark.Base.{
  ℕ, ◌+◌, ◌-◌, ◌*◌, ◌/◌, Bool, true, false, ◌||◌, List, [], ◌∷◌, ◌++◌, length, Text, text, text_dec,
  ite, if◌then◌else◌,
}
use lark.Base.Int.{ℤ}
use lark.Base.Result.{Result, done, throw, runtime_error}

pub data DType : Type 0 where
  int32 int64 float32 float64 q8_0 : DType

unfoldable pub is_float : DType → Bool
is_float DType.float32 = true
is_float DType.float64 = true
is_float DType.int32 = false
is_float DType.int64 = false
is_float DType.q8_0 = false

unfoldable pub is_int : DType → Bool
is_int DType.int32 = true
is_int DType.int64 = true
is_int DType.float32 = false
is_int DType.float64 = false
is_int DType.q8_0 = false

unfoldable pub is_scalar_type : DType → Bool
unfolding is_float is_int
is_scalar_type t = is_float t || is_int t

unfoldable pub is_quantized : DType → Bool
is_quantized DType.q8_0 = true
is_quantized _ = false

unfoldable pub dtype_size : DType → ℕ
dtype_size DType.int32 = 4
dtype_size DType.int64 = 8
dtype_size DType.float32 = 4
dtype_size DType.float64 = 8
dtype_size DType.q8_0 = 36

unfoldable pub dtype_name : DType → Text
dtype_name DType.int32 = text "int32"
dtype_name DType.int64 = text "int64"
dtype_name DType.float32 = text "float32"
dtype_name DType.float64 = text "float64"
dtype_name DType.q8_0 = text "q8_0"

unfoldable pub dtype_bytes : ℕ → DType → ℕ
unfolding dtype_size
dtype_bytes count DType.q8_0 = (count + 32 - 1) / 32 * 36
dtype_bytes count t = count * dtype_size t

abbrev pub is_text : Text → Text → Bool
is_text s t = ite (text_dec s t) true false

unfoldable pub parse_dtype : Text → Result DType
parse_dtype s =
    if is_text s (text "int32")
    then done DType.int32
    else if is_text s (text "int64")
    then done DType.int64
    else if is_text s (text "float32") || is_text s (text "float")
    then done DType.float32
    else if is_text s (text "float64") || is_text s (text "double")
    then done DType.float64
    else throw (runtime_error (text "unknown dtype: " ++ s))

-- BlockQ8_0: the scale and 32 small integers.
pub record Block (S : Type 0) : Type 0 where
  pub scale : S
  pub values : List ℤ

-- `dtype_`, and the elements up to `size_`. A quantized tensor has whole blocks, and its size.
pub data Tensor (S F : Type 0) : Type 0 where
  int32s : List ℤ → Tensor S F
  int64s : List ℤ → Tensor S F
  float32s : List S → Tensor S F
  float64s : List F → Tensor S F
  blocks : ℕ → List (Block S) → Tensor S F

module _ {S F : Type 0} where
  unfoldable pub dtype : Tensor S F → DType
  dtype (int32s xs) = DType.int32
  dtype (int64s xs) = DType.int64
  dtype (float32s xs) = DType.float32
  dtype (float64s xs) = DType.float64
  dtype (blocks n bs) = DType.q8_0

  unfoldable pub size : Tensor S F → ℕ
  size (int32s xs) = length xs
  size (int64s xs) = length xs
  size (float32s xs) = length xs
  size (float64s xs) = length xs
  size (blocks n bs) = n

  unfoldable pub append_int64 : ℤ → Tensor S F → Result (Tensor S F)
  append_int64 v (int64s xs) = done (int64s (xs ++ v ∷ []))
  append_int64 v _ = throw (runtime_error (text "append_int64 on non-int64 tensor"))

  unfoldable pub append_double : F → Tensor S F → Result (Tensor S F)
  append_double v (float64s xs) = done (float64s (xs ++ v ∷ []))
  append_double v _ = throw (runtime_error (text "append_double on non-double tensor"))
