-- ===== src/Column/Store.antt =====
-- TensorStore (column/include/column/tensor_store.h, column/src/column/tensor_store.cpp): the tensors
-- of a run by name.
pub mod Valid
pub mod Transfer
use mathlib.Core.List.{lookup}
use lark.Base.{
  ℕ, ◌==◌, Bool, true, false, Option, none, some, List, [], ◌∷◌, ◌++◌, Text, text, text_dec, length,
  if◌then◌else◌,
}
use lark.Base.Dict.{assign, erase, is_some}
use lark.Base.Result.{Result, done, throw, Exception, out_of_range, runtime_error, ◌>>=◌}
use lark.Column.Tensor.{Tensor, float64s, size}
use lark.Column.Table
use lark.Column.Table.{TensorTable, empty_table, erase_first}

pub record TensorStore (S F : Type 0) : Type 0 where
  pub tensors : List (Text × Tensor S F)
  pub order : List Text

module _ {S F : Type 0} where
  abbrev pub empty_store : TensorStore S F
  empty_store = record { tensors = []; order = [] }

  unfoldable pub find : TensorStore S F → Text → Option (Tensor S F)
  find s name = lookup text_dec name s.tensors

  unfoldable pub has : TensorStore S F → Text → Bool
  has s name = is_some (lookup text_dec name s.tensors)

  unfoldable pub set : Text → Tensor S F → TensorStore S F → TensorStore S F
  unfolding has assign
  set name tensor s = record {
    tensors = assign text_dec name tensor s.tensors;
    order = if has s name then s.order else s.order ++ name ∷ [];
  }

  -- An absent name gets an empty tensor, whose dtype is double.
  unfoldable pub ensure_names : List Text → TensorStore S F → TensorStore S F
  unfolding has set
  ensure_names [] s = s
  ensure_names (name ∷ names) s =
      ensure_names names (if has s name then s else set name (float64s []) s)

  unfoldable pub get : TensorStore S F → Text → Result (Tensor S F)
  get s name = elim (lookup text_dec name s.tensors) [
    | none ↦ throw (out_of_range (text "TensorStore::get: unknown tensor '" ++ (name ++ text "'")))
    | some tensor ↦ done tensor
  ]

  unfoldable pub erase_tensor : Text → TensorStore S F → TensorStore S F
  unfolding has erase erase_first
  erase_tensor name s =
      if has s name
      then record { tensors = erase text_dec name s.tensors; order = erase_first name s.order }
      else s

  unfoldable pub clear : TensorStore S F → TensorStore S F
  clear s = empty_store

  unfoldable pub add_columns :
      List Text → TensorTable S F → TensorStore S F → Result (TensorStore S F)
  unfolding set
  add_columns [] t s = done s
  add_columns (name ∷ names) t s = do
    tensor ← Table.get t name
    add_columns names t (set name tensor s)

  unfoldable pub add_table : TensorTable S F → TensorStore S F → Result (TensorStore S F)
  unfolding add_columns
  add_table t s = add_columns (Table.names t) t s

  -- The loop of to_table; `rows` is `none` before the first column.
  unfoldable pub collect :
      List Text → TensorStore S F → Option ℕ → TensorTable S F → Result (TensorTable S F)
  unfolding find
  collect [] s rows out = done out
  collect (name ∷ names) s rows out = elim (find s name) [
    | none ↦
        throw (out_of_range (text "TensorStore::to_table: unknown tensor '" ++ (name ++ text "'")))
    | some tensor ↦
        let next = (do
          out' ← Table.add name tensor out
          collect names s (some (size tensor)) out') in
        let mismatch =
          runtime_error
            (text "TensorStore::to_table: length mismatch for column '" ++ (name ++ text "'")) in
        elim rows [ none ↦ next | some n ↦ if size tensor == n then next else throw mismatch ]
  ]

  unfoldable pub to_table : TensorStore S F → List Text → Result (TensorTable S F)
  unfolding collect
  to_table s names = collect names s none empty_table

  -- `tensors_.at` finds each name of `order_`; it would throw std::out_of_range.
  unfoldable pub copy_tensors :
      List Text → TensorStore S F → TensorStore S F → Result (TensorStore S F)
  unfolding set
  copy_tensors [] s result = done result
  copy_tensors (name ∷ names) s result = elim (lookup text_dec name s.tensors) [
    | none ↦ throw (out_of_range (text "_Map_base::at"))
    | some tensor ↦ copy_tensors names s (set name tensor result)
  ]

  unfoldable pub clone : TensorStore S F → Result (TensorStore S F)
  unfolding copy_tensors
  clone s = copy_tensors s.order s empty_store
