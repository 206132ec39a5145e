-- ===== src/Column/Tests.antt =====
-- Tables, stores and pipelines at concrete inputs.
use mathlib.Core.List.{lookup}
use lark.Base.{◌≡◌, refl, false, some, List, [], ◌∷◌, Text, text, text_dec, ℕ_discrete, arith}
use lark.Base.Dict.{contains, assign}
use lark.Base.Int.{ℤ, pos}
use lark.Base.Result.{done}
use lark.Column.Sample.{floating}
use lark.Column.Tensor.{int64s, float64s, size}
use lark.Column.Table.{TensorTable, empty_table, add, rejects, has, clone}
use lark.Column.Table.Valid.{IsTable, column, Added, add-Added}
use lark.Column.Table.Copies.{clone_lem}
use lark.Column.Store.{TensorStore}
use lark.Column.Store.Valid.{IsUpdated, store-IsUpdated}
use lark.Column.Feed.{Row, null, int, real, int_cell, double_cell}
use lark.Column.Feed.RoundTrip.{kept}
use lark.Column.Pipeline.{Pipeline, feed_phase}

abbrev one_column : TensorTable ℤ ℤ
one_column = record {
  tensors = (text "x", int64s (pos 1 ∷ pos 2 ∷ [])) ∷ [];
  order = text "x" ∷ [];
  num_rows = 2;
}

one_column-IsTable : IsTable one_column
unfolding contains lookup size
one_column-IsTable = record {
  index = record { distinct = (refl, tt); same = λ q. ground arith };
  bare = λ h. cc;
  rows = λ q t h. ground (arith, h);
}

add-Added_example :
    Added
      (text "y")
      (int64s (pos 5 ∷ []))
      one_column
      (add (text "y") (int64s (pos 5 ∷ [])) one_column)
add-Added_example = add-Added (text "y") (int64s (pos 5 ∷ [])) one_column one_column-IsTable

clone_lem_example :
    (t : TensorTable ℤ ℤ) × (clone one_column ≡ done t)
    × ((q : Text) → column t q ≡ column one_column q)
    × (t.order ≡ text "x" ∷ [])
    × (t.num_rows ≡ 2)
clone_lem_example = clone_lem one_column one_column-IsTable

-- A column of two elements goes into a table with a column of none.
abbrev hollow : TensorTable ℤ ℤ
hollow = record { tensors = (text "x", int64s []) ∷ []; order = text "x" ∷ []; num_rows = 0 }

hollow_accepts :
    add (text "y") (int64s (pos 1 ∷ pos 2 ∷ [])) hollow
    ≡ done (record {
      tensors = (text "x", int64s []) ∷ (text "y", int64s (pos 1 ∷ pos 2 ∷ [])) ∷ [];
      order = text "x" ∷ text "y" ∷ [];
      num_rows = 2;
    })
unfolding add rejects has size assign lookup text_dec ℕ_discrete
hollow_accepts = refl

abbrev stored : TensorStore ℤ ℤ
stored = record { tensors = one_column.tensors; order = one_column.order }

store-IsUpdated_example : IsUpdated stored (text "y") (float64s []) (text "x" ∷ text "z" ∷ [])
store-IsUpdated_example =
    store-IsUpdated stored (text "y") (float64s []) (text "x" ∷ text "z" ∷ [])
      one_column-IsTable.index

abbrev pipeline : Pipeline ℤ ℤ
pipeline = record {
  ctx = record {
    phase = feed_phase;
    phase_elapsed = λ p. 0;
    phase_start = 0;
    phase_active = false;
    feed = empty_table;
    fetch = empty_table;
    store = stored;
  };
  log = [];
}

abbrev two_rows : List (Row ℤ)
two_rows = (int (pos 1) ∷ null ∷ []) ∷ (int (pos 2) ∷ real (pos 3) ∷ null ∷ []) ∷ []

abbrev two_names : List Text
two_names = text "x" ∷ text "y" ∷ []

-- The row that comes back has a zero in place of the missing value, as a double.
kept_row :
    kept floating 0 two_names two_rows (int (pos 1) ∷ null ∷ [])
    ≡ some (int (pos 1)) ∷ some (real (pos 0)) ∷ []
unfolding int_cell double_cell
kept_row = refl
