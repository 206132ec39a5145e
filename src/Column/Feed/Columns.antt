-- ===== src/Column/Feed/Columns.antt =====
-- A table made of columns, one after the other.
use mathlib.Core.List.{lookup, append_assoc, append-nil, map-append}
use lark.Base.{
  ℕ, ◌≡◌, ◌∙◌, refl, sym, ap, false, Option, none, some, List, [], ◌∷◌, ◌++◌, Text, text_dec,
  is_empty, arith, if◌then◌else◌,
}
use lark.Base.Dict.{Distinct, keys}
use lark.Base.Dict.Laws.{lookup-assign, lookup-append, absent_of_Distinct}
use lark.Base.Result.{done}
use lark.Column.Tensor.{Tensor, size}
use lark.Column.Table.{TensorTable, empty_table, has, rejects, add}
use lark.Column.Table.Valid.{column, grown, is_empty-assign}
use lark.Column.Feed.{table_from_columns}

module _ {S F : Type 0} where
  abbrev pub AllSized : ℕ → List (Text × Tensor S F) → Type 0
  AllSized n [] = Unit
  AllSized n (c ∷ cs) = (size c.1 ≡ n) × AllSized n cs

  -- Each column is found by its name.
  abbrev pub Named : (Text → Option (Tensor S F)) → List (Text × Tensor S F) → Type 0
  Named look [] = Unit
  Named look (c ∷ cs) = (look c.0 ≡ some c.1) × Named look cs

  -- The table has these columns of n elements.
  pub record Holds (cs : List (Text × Tensor S F)) (n : ℕ) (r : TensorTable S F) : Type 0 where
    pub columns : (q : Text) → column r q ≡ lookup text_dec q cs
    pub order : r.order ≡ keys cs
    pub rows : r.num_rows ≡ (if is_empty cs then 0 else n)
    pub bare : is_empty r.tensors ≡ is_empty cs

  is_empty-append :
      (cs : List (Text × Tensor S F)) (c : Text × Tensor S F) → is_empty (cs ++ c ∷ []) ≡ false
  is_empty-append [] c = refl
  is_empty-append (d ∷ cs) c = refl

  Holds-next :
      (cs : List (Text × Tensor S F)) (n : ℕ) (r : TensorTable S F) (name : Text)
      (tensor : Tensor S F)
      → Holds cs n r
      → lookup text_dec name cs ≡ none
      → size tensor ≡ n
      → (add name tensor r ≡ done (grown name tensor r))
        × Holds (cs ++ (name, tensor) ∷ []) n (grown name tensor r)
  unfolding add has rejects lookup
  Holds-next cs n r name tensor h new fits = (
    ground (arith, h.rows, h.bare, fits),
    record {
      columns = λ q. elim (text_dec q name) [
        | yes e ↦ ground (
          arith,
          e,
          new,
          lookup-assign text_dec name q tensor r.tensors,
          lookup-append text_dec q cs ((name, tensor) ∷ []),
        )
        | no ne ↦ ground (
          arith,
          ne,
          h.columns q,
          lookup-assign text_dec name q tensor r.tensors,
          lookup-append text_dec q cs ((name, tensor) ∷ []),
        )
      ];
      order = rw (h.columns name ∙ new) (
          ap (λ l. l ++ name ∷ []) h.order
          ∙ sym (map-append (λ (e : Text × Tensor S F). e.0) cs ((name, tensor) ∷ [])));
      rows = rw (is_empty-append cs (name, tensor)) fits;
      bare = is_empty-assign name tensor r.tensors ∙ sym (is_empty-append cs (name, tensor));
    },
  )

  pub empty-Holds : (n : ℕ) → Holds [] n empty_table
  unfolding lookup
  empty-Holds n = record { columns = λ q. refl; order = refl; rows = refl; bare = refl }

  -- Columns of the same length and different names make a table.
  pub table_from_columns-Holds :
      (cs pre : List (Text × Tensor S F)) (n : ℕ) (r : TensorTable S F)
      → Holds pre n r
      → Distinct text_dec (keys (pre ++ cs))
      → AllSized n cs
      → (r' : TensorTable S F) × (table_from_columns cs r ≡ done r') × Holds (pre ++ cs) n r'
  unfolding table_from_columns
  table_from_columns-Holds [] pre n r h d s = (r, refl, rw append-nil h)
  table_from_columns-Holds ((name, tensor) ∷ cs) pre n r h d s =
      let new = absent_of_Distinct text_dec pre cs name tensor d in
      let (step, h') = Holds-next pre n r name tensor h new.0 s.0 in
      let (r', run, all) =
        table_from_columns-Holds cs (pre ++ (name, tensor) ∷ []) n (grown name tensor r) h'
          (rw (append_assoc pre ((name, tensor) ∷ []) cs) d) s.1 in
      (r', rw step run, rw (← append_assoc pre ((name, tensor) ∷ []) cs) all)
