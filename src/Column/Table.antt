-- ===== src/Column/Table.antt =====
-- TensorTable (column/include/column/tensor_table.h, column/src/column/tensor_table.cpp): columns by
-- name, in the order of their insertion.
pub mod Valid
pub mod Copies
use mathlib.Core.List.{lookup}
use lark.Base.{
  ℕ, zero, suc, ltb, ◌==◌, Bool, true, false, not, ◌&&◌, Option, none, some, List, [], ◌∷◌, ◌++◌,
  Text, text, text_dec, ite, is_empty, length, if◌then◌else◌,
}
use lark.Base.Dict.{assign, erase, is_some}
use lark.Base.Decimal.{to_string_ℕ}
use lark.Base.Result.{Result, done, throw, Exception, runtime_error, ◌>>=◌}
use lark.Column.Tensor.{Tensor, size}

-- `v.erase(std::find(v.begin(), v.end(), name))`: the first one.
unfoldable pub erase_first : Text → List Text → List Text
erase_first name [] = []
erase_first name (x ∷ xs) = let rest = x ∷ erase_first name xs in ite (text_dec name x) xs rest

pub record TensorTable (S F : Type 0) : Type 0 where
  pub tensors : List (Text × Tensor S F)
  pub order : List Text
  pub num_rows : ℕ

module _ {S F : Type 0} where
  abbrev pub empty_table : TensorTable S F
  empty_table = record { tensors = []; order = []; num_rows = 0 }

  unfoldable pub has : TensorTable S F → Text → Bool
  has t name = is_some (lookup text_dec name t.tensors)

  -- The two nested tests of the size.
  unfoldable pub rejects : TensorTable S F → ℕ → Bool
  rejects t sz =
      (not (is_empty t.tensors) && not (sz == t.num_rows))
      && (ltb 0 t.num_rows && not (sz == t.num_rows))

  unfoldable pub add : Text → Tensor S F → TensorTable S F → Result (TensorTable S F)
  unfolding size rejects has assign
  add name tensor t =
      let sz = size tensor in
      if rejects t sz
      then throw (
          runtime_error (
            text "Tensor size mismatch: expected "
            ++ (to_string_ℕ t.num_rows ++ (text ", got " ++ to_string_ℕ sz))))
      else done (record {
        tensors = assign text_dec name tensor t.tensors;
        order = if has t name then t.order else t.order ++ name ∷ [];
        num_rows = sz;
      })

  unfoldable pub get : TensorTable S F → Text → Result (Tensor S F)
  get t name = elim (lookup text_dec name t.tensors) [
    | none ↦ throw (runtime_error (text "Tensor not found: " ++ name))
    | some tensor ↦ done tensor
  ]

  unfoldable pub remove : Text → TensorTable S F → TensorTable S F
  unfolding has erase erase_first
  remove name t =
      let rest = erase text_dec name t.tensors in
      if has t name
      then record {
        tensors = rest;
        order = erase_first name t.order;
        num_rows = if is_empty rest then 0 else t.num_rows;
      }
      else t

  unfoldable pub num_cols : TensorTable S F → ℕ
  num_cols t = length t.tensors

  unfoldable pub names : TensorTable S F → List Text
  names t = t.order

  -- Adds the columns of the names, one after the other.
  unfoldable pub copy_columns :
      List Text → TensorTable S F → TensorTable S F → Result (TensorTable S F)
  unfolding add get
  copy_columns [] t result = done result
  copy_columns (name ∷ names) t result = do
    tensor ← get t name
    result' ← add name tensor result
    copy_columns names t result'

  unfoldable pub clone : TensorTable S F → Result (TensorTable S F)
  unfolding copy_columns
  clone t = copy_columns t.order t empty_table
