-- ===== src/Column/Ops/Special.antt =====
-- select, filter, cast, quantize, dequantize, dot, const, identity
-- (column/src/column/exec/ops_special.cpp), and create_op (column/src/column/exec/ops.cpp).
use lark.Base.{◌==◌, Bool, not, Option, none, some, List, [], ◌∷◌, Text, text, if◌then◌else◌}
use lark.Base.Int.{ℤ, pos}
use lark.Base.Result
use lark.Base.Result.{Result, done, throw, invalid_argument}
use lark.Column.Numbers.{eq_ℤ}
use lark.Column.Tensor.{Tensor, int32s, int64s, float32s, float64s, blocks, size, is_text}
use lark.Column.Ops.{Outcome, returns, undefined, ◌>>=◌, at, error, input, input_at, write}
use lark.Column.Ops.Binary.{TensorOp, Stod}

abbrev pub is_set : ℤ → Bool
is_set x = not (eq_ℤ x (pos 0))

-- `m[i] ? pa[i] : pb[i]`.
unfoldable pub select_list : {T : Type 0} → List ℤ → List T → List T → List T
select_list [] xs ys = []
select_list (i ∷ is) [] ys = []
select_list (i ∷ is) (x ∷ xs) [] = []
select_list (i ∷ is) (x ∷ xs) (y ∷ ys) = (if is_set i then x else y) ∷ select_list is xs ys

-- The elements where the mask is set.
unfoldable pub filter_list : {T : Type 0} → List ℤ → List T → List T
filter_list [] xs = []
filter_list (i ∷ is) [] = []
filter_list (i ∷ is) (x ∷ xs) = let rest = filter_list is xs in if is_set i then x ∷ rest else rest

-- The loop of BuildConst: the texts between commas.
unfoldable pub split_commas : Text → List Text
split_commas [] = [] ∷ []
split_commas (c ∷ cs) =
    let rest = split_commas cs in
    if c == b','
    then [] ∷ rest
    else elim rest [ [] ↦ (c ∷ []) ∷ [] | part ∷ parts ↦ (c ∷ part) ∷ parts ]

unfoldable pub parse_values : {F : Type 0} → Stod F → List Text → Result (List F)
parse_values stod [] = done []
parse_values stod (s ∷ ss) =
    Result.◌>>=◌ (stod s) (λ v. Result.◌>>=◌ (parse_values stod ss) (λ vs. done (v ∷ vs)))

module _ {S F : Type 0} where
  unfoldable pub mask_of : Tensor S F → Option (List ℤ)
  mask_of (int64s xs) = some xs
  mask_of (int32s xs) = none
  mask_of (float32s xs) = none
  mask_of (float64s xs) = none
  mask_of (blocks n bs) = none

  unfoldable pub select_tensors : List ℤ → Tensor S F → Tensor S F → Outcome (Tensor S F)
  unfolding select_list
  select_tensors mask (int32s xs) (int32s ys) = returns (int32s (select_list mask xs ys))
  select_tensors mask (int64s xs) (int64s ys) = returns (int64s (select_list mask xs ys))
  select_tensors mask (float32s xs) (float32s ys) = returns (float32s (select_list mask xs ys))
  select_tensors mask (float64s xs) (float64s ys) = returns (float64s (select_list mask xs ys))
  select_tensors mask _ _ = undefined

  unfoldable pub filter_tensor : List ℤ → Tensor S F → Outcome (Tensor S F)
  unfolding filter_list
  filter_tensor mask (int32s xs) = returns (int32s (filter_list mask xs))
  filter_tensor mask (int64s xs) = returns (int64s (filter_list mask xs))
  filter_tensor mask (float32s xs) = returns (float32s (filter_list mask xs))
  filter_tensor mask (float64s xs) = returns (float64s (filter_list mask xs))
  filter_tensor mask (blocks n bs) = error (text "filter: cannot filter a quantized tensor")

  -- FilterOp.
  unfoldable pub filter_op : List Text → List Text → TensorOp S F
  unfolding input_at write mask_of filter_tensor size
  filter_op inputs outputs store = do
    column ← input_at store inputs 0
    mask ← input_at store inputs 1
    elim (mask_of mask) [
      | none ↦ error (text "filter: mask must be int64")
      | some bits ↦
          if size mask == size column
          then (do r ← filter_tensor bits column; write store outputs r)
          else error (text "filter: mask length mismatch")
    ]

  -- IdentityOp.
  unfoldable pub identity_op : List Text → List Text → TensorOp S F
  unfolding input write
  identity_op inputs outputs store = do
    from ← at inputs 0
    to ← at outputs 0
    if is_text from to then returns store else do t ← input store from; write store outputs t
