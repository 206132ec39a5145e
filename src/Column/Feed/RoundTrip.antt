-- ===== src/Column/Feed/RoundTrip.antt =====
-- Rows that are fed and fetched again.
use mathlib.Core.Path.{fun_ext}
use lark.Base.{
  ℕ, suc, ◌+◌, ◌≤◌, ◌<◌, ◌≡◌, ◌∙◌, refl, sym, ap, ltb, Bool, true, false, ◌||◌, Bool-cases, inl,
  inr, Option, some, List, [], ◌∷◌, map, length, length-map, get_elem?, get_or, range, Text,
  text_dec, arith, if◌then◌else◌, map-map, get_or-map, map-range, is_empty,
}
use lark.Base.Dict.{Distinct, keys}
use lark.Base.Result.{done, ◌>>=◌}
use lark.Column.Numbers.{Floating}
use lark.Column.Tensor.{Tensor, size}
use lark.Column.Table.{TensorTable, empty_table, has, add, get}
use lark.Column.Table.Valid.{column, get_lem}
use lark.Column.Feed.{
  Cell, null, int, real, Row, is_real, any_double, table_from_columns, int_cell, double_cell,
  feed_column, feed_columns, feed_table, cells, check_columns, read_columns, fetch_rows,
}
use lark.Column.Feed.Columns.{AllSized, Named, Holds, empty-Holds, table_from_columns-Holds}

module _ {F : Type 0} where
  -- Whether a cell of column c is a double.
  abbrev pub holds_real : ℕ → List (Row F) → Bool → Bool
  holds_real c [] any = any
  holds_real c (row ∷ rows) any = holds_real c rows (is_real (get_or row c null) || any)

  -- Each row has at least n cells.
  abbrev pub AllWide : ℕ → List (Row F) → Type 0
  AllWide n [] = Unit
  AllWide n (row ∷ rows) = (n ≤ length row) × AllWide n rows

  any_double_lem :
      (c n : ℕ) (rows : List (Row F)) (any : Bool)
      → c < n
      → AllWide n rows
      → any_double c rows any ≡ done (holds_real c rows any)
  unfolding any_double
  any_double_lem c n [] any h w = refl
  any_double_lem c n (row ∷ rows) any h w =
      let fits : ltb c (length row) ≡ true = ground (arith, h, w.0) in
      rw fits (any_double_lem c n rows (is_real (get_or row c null) || any) h w.1)

module _ {S F : Type 0} (m : Floating S F) where
  -- The columns that are made of the rows.
  abbrev pub fed : ℕ → List Text → List (Row F) → List (Text × Tensor S F)
  fed c [] rows = []
  fed c (name ∷ names) rows =
      (name, feed_column m c rows (holds_real c rows false)) ∷ fed (suc c) names rows

  pub keys-fed : (c : ℕ) (names : List Text) (rows : List (Row F)) → keys (fed c names rows) ≡ names
  keys-fed c [] rows = refl
  keys-fed c (name ∷ names) rows = ap (◌∷◌ name) (keys-fed (suc c) names rows)

  pub fed-AllSized :
      (c : ℕ) (names : List Text) (rows : List (Row F)) → AllSized (length rows) (fed c names rows)
  unfolding feed_column size
  fed-AllSized c [] rows = tt
  fed-AllSized c (name ∷ names) rows = elim (Bool-cases (holds_real c rows false)) [
    | inl e ↦ rw e (length-map rows _, fed-AllSized (suc c) names rows)
    | inr e ↦ rw e (length-map rows _, fed-AllSized (suc c) names rows)
  ]

  feed_columns_lem :
      (n c : ℕ) (names : List Text) (rows : List (Row F)) (t : TensorTable S F)
      → c + length names ≤ n
      → AllWide n rows
      → feed_columns m c names rows t ≡ table_from_columns (fed c names rows) t
  unfolding feed_columns table_from_columns
  feed_columns_lem n c [] rows t h w = refl
  feed_columns_lem n c (name ∷ names) rows t h w =
      let column = feed_column m c rows (holds_real c rows false) in
      rw (any_double_lem c n rows false (omega (arith, h)) w) (
        ap (λ k. add name column t >>= k)
          (fun_ext λ t'. feed_columns_lem n (suc c) names rows t' (omega (arith, h)) w))

  -- What a cell becomes in a column of doubles, and in one of integers.
  abbrev pub normal : Bool → Cell F → Cell F
  normal any cell = if any then real (double_cell m cell) else int (int_cell m cell)

  -- The cells of a row that are fetched.
  abbrev pub kept : ℕ → List Text → List (Row F) → Row F → List (Option (Cell F))
  kept c [] rows row = []
  kept c (name ∷ names) rows row =
      some (normal (holds_real c rows false) (get_or row c null)) ∷ kept (suc c) names rows row

  cells-feed_column :
      (c : ℕ) (rows : List (Row F)) (any : Bool)
      → cells m (feed_column m c rows any) ≡ map (λ row. some (normal any (get_or row c null))) rows
  unfolding cells feed_column
  cells-feed_column c rows true = map-map _ _ rows
  cells-feed_column c rows false = map-map _ _ rows

  -- The cells of one row in the columns.
  row_lem :
      (c : ℕ) (names : List Text) (rows : List (Row F)) (r : ℕ) (row : Row F)
      → get_elem? rows r ≡ some row
      → map (λ column. get_or column r (some null)) (map (λ e. cells m e.1) (fed c names rows))
        ≡ kept c names rows row
  row_lem c [] rows r row h = refl
  row_lem c (name ∷ names) rows r row h =
      let any = holds_real c rows false in
      let head : get_or (cells m (feed_column m c rows any)) r (some null)
          ≡ some (normal any (get_or row c null)) =
        rw (cells-feed_column c rows any)
          (get_or-map (λ row. some (normal any (get_or row c null))) rows r row (some null) h) in
      let value = some (normal any (get_or row c null)) in
      rw head (ap (λ l. value ∷ l) (row_lem (suc c) names rows r row h))

  check_columns_lem :
      (cs : List (Text × Tensor S F)) (n : ℕ) (t : TensorTable S F)
      → Named (column t) cs
      → AllSized n cs
      → check_columns m (keys cs) t n ≡ done tt
  unfolding check_columns has get
  check_columns_lem [] n t k s = refl
  check_columns_lem ((name, tensor) ∷ cs) n t k s =
      ground (arith, k.0, s.0, check_columns_lem cs n t k.1 s.1)

  read_columns_lem :
      (cs : List (Text × Tensor S F)) (t : TensorTable S F)
      → Named (column t) cs
      → read_columns m (keys cs) t ≡ done (map (λ e. cells m e.1) cs)
  unfolding read_columns get
  read_columns_lem [] t k = refl
  read_columns_lem ((name, tensor) ∷ cs) t k = ground (arith, k.0, read_columns_lem cs t k.1)

  -- Fetching columns of the same length.
  pub fetch_rows_lem :
      (cs : List (Text × Tensor S F)) (n : ℕ) (t : TensorTable S F)
      → Named (column t) cs
      → AllSized n cs
      → is_empty cs ≡ false
      → fetch_rows m t (keys cs)
        ≡ done (
            map
              (λ r. map (λ column. get_or column r (some null)) (map (λ e. cells m e.1) cs))
              (range n))
  unfolding fetch_rows
  fetch_rows_lem [] n t k s e = cc
  fetch_rows_lem ((name, tensor) ∷ cs) n t k s e =
      let all = (name, tensor) ∷ cs in
      simp (get_lem name tensor t k.0, s.0, check_columns_lem all n t k s, read_columns_lem all t k)

  -- The table of the rows.
  pub feed_table_lem :
      (names : List Text) (rows : List (Row F))
      → Distinct text_dec names
      → AllWide (length names) rows
      → (t : TensorTable S F) × (feed_table m names rows ≡ done t)
        × Holds (fed 0 names rows) (length rows) t
  unfolding feed_table
  feed_table_lem names rows d w =
      let (t, run, h) =
        table_from_columns-Holds (fed 0 names rows) [] (length rows) empty_table
          (empty-Holds (length rows)) (rw (keys-fed 0 names rows) d) (fed-AllSized 0 names rows) in
      (t, feed_columns_lem (length names) 0 names rows empty_table (omega arith) w ∙ run, h)

  -- Fetching the columns that were made of rows.
  pub fetch-fed :
      (name : Text) (names : List Text) (rows : List (Row F)) (t : TensorTable S F)
      → Named (column t) (fed 0 (name ∷ names) rows)
      → fetch_rows m t (name ∷ names) ≡ done (map (kept 0 (name ∷ names) rows) rows)
  fetch-fed name names rows t k =
      let cs = fed 0 (name ∷ names) rows in
      let shown = map (λ e. cells m e.1) cs in
      let all : fetch_rows m t (keys cs)
          ≡ done
              (map (λ r. map (λ column. get_or column r (some null)) shown) (range (length rows))) =
        fetch_rows_lem cs (length rows) t k (fed-AllSized 0 (name ∷ names) rows) refl in
      ap (fetch_rows m t) (sym (keys-fed 0 (name ∷ names) rows))
      ∙ all
      ∙ ap done (
          map-range (λ r. map (λ column. get_or column r (some null)) shown)
            (kept 0 (name ∷ names) rows) 0 rows
            (λ i row h.
              let start : 0 + i ≡ i = omega arith in
              ap (λ r. map (λ column. get_or column r (some null)) shown) start
              ∙ row_lem 0 (name ∷ names) rows i row h))
