-- ===== src/Column/Feed.antt =====
-- Rows to columns and back (column/include/column/feed_fetch.h, column/src/column/feed_fetch.cpp).
pub mod Columns
pub mod RoundTrip
use lark.Base.{
  ℕ, zero, suc, ◌-◌, min, take, ltb, ◌==◌, Bool, true, false, not, ◌||◌, Option, none, some, List,
  [], ◌∷◌, ◌++◌, map, length, get_or, range, replicate, Text, text, if◌then◌else◌,
}
use lark.Base.Int.{ℤ, pos}
use lark.Base.Result.{Result, done, throw, Exception, runtime_error, ◌>>=◌}
use lark.Column.Numbers.{Floating}
use lark.Column.Tensor.{Tensor, int32s, int64s, float32s, float64s, blocks, size, Block}
use lark.Column.Table.{TensorTable, empty_table, has, add, get}

-- std::variant<std::monostate, int64_t, double>.
pub data Cell (F : Type 0) : Type 0 where
  null : Cell F
  int : ℤ → Cell F
  real : F → Cell F

abbrev pub Row : Type 0 → Type 0
Row F = List (Cell F)

abbrev pub is_real : {F : Type 0} → Cell F → Bool
is_real (real _) = true
is_real _ = false

module _ {F : Type 0} where
  -- The first loop over the rows: whether a cell of the column is a double.
  unfoldable pub any_double : ℕ → List (Row F) → Bool → Result Bool
  any_double c [] any = done any
  any_double c (row ∷ rows) any =
      let rest = any_double c rows (is_real (get_or row c null) || any) in
      if ltb c (length row)
      then rest
      else throw (runtime_error (text "feed_table: row has fewer cells than columns"))

module _ {S F : Type 0} where
  unfoldable pub table_from_columns :
      List (Text × Tensor S F) → TensorTable S F → Result (TensorTable S F)
  unfolding add
  table_from_columns [] table = done table
  table_from_columns ((name, tensor) ∷ columns) table = do
    table' ← add name tensor table
    table_from_columns columns table'

module _ {S F : Type 0} (m : Floating S F) where
  unfoldable pub int_cell : Cell F → ℤ
  int_cell null = pos 0
  int_cell (int v) = v
  int_cell (real v) = m.to_int64 v

  unfoldable pub double_cell : Cell F → F
  double_cell null = m.double.nought
  double_cell (int v) = m.of_int v
  double_cell (real v) = v

  -- The second loop over the rows.
  unfoldable pub feed_column : ℕ → List (Row F) → Bool → Tensor S F
  unfolding int_cell double_cell
  feed_column c rows any =
      if any
      then float64s (map (λ row. double_cell (get_or row c null)) rows)
      else int64s (map (λ row. int_cell (get_or row c null)) rows)

  unfoldable pub feed_columns :
      ℕ → List Text → List (Row F) → TensorTable S F → Result (TensorTable S F)
  unfolding any_double feed_column add
  feed_columns c [] rows table = done table
  feed_columns c (name ∷ names) rows table = do
    any ← any_double c rows false
    table' ← add name (feed_column c rows any) table
    feed_columns (suc c) names rows table'

  unfoldable pub feed_table : List Text → List (Row F) → Result (TensorTable S F)
  unfolding feed_columns
  feed_table names rows = feed_columns 0 names rows empty_table

  -- The cells of a column. A quantized tensor is read as doubles, which is undefined: `none`.
  unfoldable pub cells : Tensor S F → List (Option (Cell F))
  cells (int32s xs) = map (λ x. some (int x)) xs
  cells (int64s xs) = map (λ x. some (int x)) xs
  cells (float32s xs) = map (λ x. some (real (m.single.to_double x))) xs
  cells (float64s xs) = map (λ x. some (real x)) xs
  cells (blocks n bs) = replicate n none

  unfoldable pub check_columns : List Text → TensorTable S F → ℕ → Result (Unit {0})
  unfolding has get size
  check_columns [] table rows = done tt
  check_columns (name ∷ names) table rows =
      if has table name
      then (do
        tensor ← get table name
        if size tensor == rows
            then check_columns names table rows
            else throw
                (runtime_error (text "fetch_rows: column '" ++ (name ++ text "' length mismatch"))))
      else throw (runtime_error (text "fetch_rows: unknown column '" ++ (name ++ text "'")))

  -- The columns that the last loop reads; each has as many cells as there are rows.
  unfoldable pub read_columns : List Text → TensorTable S F → Result (List (List (Option (Cell F))))
  unfolding get cells
  read_columns [] table = done []
  read_columns (name ∷ names) table = do
    tensor ← get table name
    columns ← read_columns names table
    done (cells tensor ∷ columns)

  unfoldable pub fetch_rows : TensorTable S F → List Text → Result (List (List (Option (Cell F))))
  fetch_rows table [] = done []
  fetch_rows table (name ∷ names) = do
    first ← get table name
    _ ← check_columns (name ∷ names) table (size first)
    columns ← read_columns (name ∷ names) table
    done (map (λ r. map (λ column. get_or column r (some null)) columns) (range (size first)))

  -- `dequantize` on the blocks of n elements: the last block is used as far as n goes.
  unfoldable pub dequantize_blocks : ℕ → List (Block S) → List F
  dequantize_blocks n [] = []
  dequantize_blocks n (b ∷ bs) =
      map (λ v. m.double.mul (m.of_int v) (m.single.to_double b.scale)) (take (min 32 n) b.values)
      ++ dequantize_blocks (n - 32) bs

  unfoldable pub dequantize : Tensor S F → Result (Tensor S F)
  unfolding dequantize_blocks
  dequantize (blocks n bs) = done (float64s (dequantize_blocks n bs))
  dequantize _ = throw (runtime_error (text "dequantize: input must be a kQ8_0 tensor"))

  unfoldable pub fetch_scalar : Tensor S F → F
  unfolding dequantize_blocks
  fetch_scalar (int32s []) = m.double.nought
  fetch_scalar (int32s (x ∷ _)) = m.of_int x
  fetch_scalar (int64s []) = m.double.nought
  fetch_scalar (int64s (x ∷ _)) = m.of_int x
  fetch_scalar (float32s []) = m.double.nought
  fetch_scalar (float32s (x ∷ _)) = m.single.to_double x
  fetch_scalar (float64s []) = m.double.nought
  fetch_scalar (float64s (x ∷ _)) = x
  fetch_scalar (blocks n bs) = get_or (dequantize_blocks n bs) 0 m.double.nought
