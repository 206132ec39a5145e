-- ===== src/Column/Ops.antt =====
-- The helpers of the ops (column/include/column/exec/ops_kernels.h) and OpContext
-- (column/src/column/exec/tensor_op.cpp).
pub mod Binary
pub mod Single
pub mod Special
pub mod Create
pub mod Runs
pub mod Defined
pub mod Safe
pub mod Total
pub mod Checked
pub mod Creates
pub mod Makes
pub mod Factories
use lark.Base.{
  ℕ, ◌==◌, Bool, true, false, ◌&&◌, ◌||◌, not, Option, none, some, List, [], ◌∷◌, ◌++◌, map, Text,
  text, get_elem?, if◌then◌else◌,
}
use lark.Base.Decimal.{to_string_ℕ}
use lark.Base.Int.{ℤ}
use lark.Base.Result.{Result, done, throw, Exception, out_of_range, runtime_error}
use lark.Column.Numbers.{Scalar, Floating, integer}
use lark.Column.Numbers
use lark.Column.Tensor.{
  DType, int32, int64, float32, float64, q8_0, is_float, Tensor, int32s, int64s, float32s, float64s,
  blocks, dtype, size,
}
use lark.Column.Store.{TensorStore, find}
use lark.Column.Store
use lark.Column.Feed.{dequantize}
use lark.Column.Quantize.{Machine, quantize}

-- What a run of an op does: it returns, throws, or reads memory that holds something else.
pub data Outcome {ℓ} (A : Type ℓ) : Type ℓ where
  returns : A → Outcome A
  raises : Exception → Outcome A
  undefined : Outcome A

infixl 5 ◌>>=◌
abbrev pub ◌>>=◌ {ℓ κ} : {A : Type ℓ} {B : Type κ} → Outcome A → (A → Outcome B) → Outcome B
returns a >>= f = f a
raises e >>= f = raises e
undefined >>= f = undefined

abbrev pub calling {ℓ} : {A : Type ℓ} → Result A → Outcome A
calling (done a) = returns a
calling (throw e) = raises e

-- An element that is not there.
abbrev pub at {ℓ} : {A : Type ℓ} → List A → ℕ → Outcome A
at xs i = elim (get_elem? xs i) [ none ↦ undefined | some a ↦ returns a ]

abbrev pub error {ℓ} : {A : Type ℓ} → Text → Outcome A
error message = raises (runtime_error message)

abbrev pub is_dtype : DType → DType → Bool
is_dtype int32 int32 = true
is_dtype int64 int64 = true
is_dtype float32 float32 = true
is_dtype float64 float64 = true
is_dtype q8_0 q8_0 = true
is_dtype _ _ = false

unfoldable pub promote : DType → DType → DType
unfolding is_float
promote a b =
    if is_dtype a b
    then a
    else if is_float a && is_float b
    then float64
    else if is_float a || is_float b
    then (let f = if is_float a then a else b in
        let i = if is_float a then b else a in if is_dtype i int64 then float64 else f)
    else int64

-- An operation on elements of any type.
abbrev pub Unary : Type 0 → Type 1
Unary F = (T : Type 0) → Scalar F T → T → T

abbrev pub Binary : Type 0 → Type 1
Binary F = (T : Type 0) → Scalar F T → T → T → T

-- The elements at the same index.
unfoldable pub zip_with : {A B C : Type 0} → (A → B → C) → List A → List B → List C
zip_with f [] ys = []
zip_with f (x ∷ xs) [] = []
zip_with f (x ∷ xs) (y ∷ ys) = f x y ∷ zip_with f xs ys

abbrev pub unsupported {ℓ} : {A : Type ℓ} → Outcome A
unsupported = error (text "op: unsupported dtype")

module _ {S F : Type 0} (m : Floating S F) where
  abbrev pub int32_scalar : Scalar F ℤ
  int32_scalar = Numbers.int32 m

  abbrev pub int64_scalar : Scalar F ℤ
  int64_scalar = Numbers.int64 m

  -- The loop of elementwise_unary, on the element type of the tensor.
  unfoldable pub map_tensor : Unary F → Tensor S F → Outcome (Tensor S F)
  map_tensor fn (int32s xs) = returns (int32s (map (fn ℤ int32_scalar) xs))
  map_tensor fn (int64s xs) = returns (int64s (map (fn ℤ int64_scalar) xs))
  map_tensor fn (float32s xs) = returns (float32s (map (fn S m.single) xs))
  map_tensor fn (float64s xs) = returns (float64s (map (fn F m.double) xs))
  map_tensor fn (blocks n bs) = unsupported

  -- The loop of elementwise_binary. Of a quantized tensor that was cast to another type than
  -- double, the doubles are read as that type: the types differ here.
  unfoldable pub zip_tensors : Binary F → Tensor S F → Tensor S F → Outcome (Tensor S F)
  unfolding zip_with
  zip_tensors fn (int32s xs) (int32s ys) = returns (int32s (zip_with (fn ℤ int32_scalar) xs ys))
  zip_tensors fn (int64s xs) (int64s ys) = returns (int64s (zip_with (fn ℤ int64_scalar) xs ys))
  zip_tensors fn (float32s xs) (float32s ys) = returns (float32s (zip_with (fn S m.single) xs ys))
  zip_tensors fn (float64s xs) (float64s ys) = returns (float64s (zip_with (fn F m.double) xs ys))
  zip_tensors fn (blocks n _) (blocks k _) = unsupported
  zip_tensors fn _ _ = undefined

module _ {S F : Type 0} (m : Floating S F) (machine : Machine S F) where
  -- cast_tensor. A quantized tensor becomes double, whatever is asked for.
  unfoldable pub cast_tensor : Tensor S F → DType → Outcome (Tensor S F)
  unfolding dequantize quantize
  cast_tensor (blocks n bs) q8_0 = returns (blocks n bs)
  cast_tensor (blocks n bs) _ = calling (dequantize m (blocks n bs))
  cast_tensor (int32s xs) int32 = returns (int32s xs)
  cast_tensor (int32s xs) int64 = returns (int64s xs)
  cast_tensor (int32s xs) float32 = returns (float32s (map machine.single_of_int xs))
  cast_tensor (int32s xs) float64 = returns (float64s (map m.of_int xs))
  cast_tensor (int32s xs) q8_0 = calling (quantize m machine (int32s xs))
  cast_tensor (int64s xs) int32 = returns (int32s (map (Numbers.wrap 32) xs))
  cast_tensor (int64s xs) int64 = returns (int64s xs)
  cast_tensor (int64s xs) float32 = returns (float32s (map machine.single_of_int xs))
  cast_tensor (int64s xs) float64 = returns (float64s (map m.of_int xs))
  cast_tensor (int64s xs) q8_0 = calling (quantize m machine (int64s xs))
  cast_tensor (float32s xs) int32 =
      returns (int32s (map (λ x. m.to_int32 (m.single.to_double x)) xs))
  cast_tensor (float32s xs) int64 =
      returns (int64s (map (λ x. m.to_int64 (m.single.to_double x)) xs))
  cast_tensor (float32s xs) float32 = returns (float32s xs)
  cast_tensor (float32s xs) float64 = returns (float64s (map m.single.to_double xs))
  cast_tensor (float32s xs) q8_0 = calling (quantize m machine (float32s xs))
  cast_tensor (float64s xs) int32 = returns (int32s (map m.to_int32 xs))
  cast_tensor (float64s xs) int64 = returns (int64s (map m.to_int64 xs))
  cast_tensor (float64s xs) float32 = returns (float32s (map m.single.of_double xs))
  cast_tensor (float64s xs) float64 = returns (float64s xs)
  cast_tensor (float64s xs) q8_0 = calling (quantize m machine (float64s xs))

  unfoldable pub elementwise_binary :
      Binary F → Tensor S F → Tensor S F → DType → Outcome (Tensor S F)
  unfolding cast_tensor zip_tensors size
  elementwise_binary fn a b out =
      if size b == size a
      then (do ra ← cast_tensor a out; rb ← cast_tensor b out; zip_tensors m fn ra rb)
      else error (
          text "binary op: length mismatch ("
          ++ (to_string_ℕ (size a) ++ (text " vs " ++ (to_string_ℕ (size b) ++ text ")"))))

  -- The scalar is cast to the element type.
  unfoldable pub elementwise_scalar : Binary F → Tensor S F → F → DType → Outcome (Tensor S F)
  unfolding cast_tensor map_tensor
  elementwise_scalar fn a v out = do
    ra ← cast_tensor a out
    map_tensor m (λ T k x. fn T k x (k.of_double v)) ra

  unfoldable pub elementwise_unary : Unary F → Tensor S F → DType → Outcome (Tensor S F)
  unfolding cast_tensor map_tensor
  elementwise_unary fn a out = do ra ← cast_tensor a out; map_tensor m fn ra

module _ {S F : Type 0} where
  -- OpContext::input.
  unfoldable pub input : TensorStore S F → Text → Outcome (Tensor S F)
  unfolding find
  input store name = elim (find store name) [
    | some t ↦ returns t
    | none ↦ raises (out_of_range (text "OpContext::input: unknown tensor '" ++ (name ++ text "'")))
  ]

  -- A column that an op lists, by its place in the list.
  unfoldable pub input_at : TensorStore S F → List Text → ℕ → Outcome (Tensor S F)
  unfolding input
  input_at store inputs i = do name ← at inputs i; input store name

  unfoldable pub write : TensorStore S F → List Text → Tensor S F → Outcome (TensorStore S F)
  unfolding Store.set
  write store outputs t = do name ← at outputs 0; returns (Store.set name t store)
