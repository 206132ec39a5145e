-- ===== src/Column/Table/Copies.antt =====
-- Clone: the loop that adds the columns to an empty table.
use mathlib.Core.List.{lookup, append_assoc, append-nil}
use lark.Base.{
  ◌≡◌, ◌∙◌, refl, sym, ap, true, false, Bool-cases, Option-cases, inl, inr, none, some, List, [],
  ◌∷◌, ◌++◌, Text, text_dec, is_empty, arith, if◌then◌else◌,
}
use lark.Base.Dict.{contains, Distinct, is_some}
use lark.Base.Dict.Laws.{lookup-assign, contains-append}
use lark.Base.Result.{done}
use lark.Column.Tensor.{Tensor}
use lark.Column.Table.{TensorTable, empty_table, has, rejects, add, get, copy_columns, clone}
use lark.Column.Table.Valid.{IsTable, column, grown, is_empty-assign, lookup_empty}

-- The names of `ys` are none of `xs`, and differ.
Distinct-front :
    (xs ys : List Text) (y : Text)
    → Distinct text_dec (xs ++ y ∷ ys)
    → contains text_dec y xs ≡ false
unfolding contains
Distinct-front [] ys y d = refl
Distinct-front (x ∷ xs) ys y d =
    ground (arith, d.0, Distinct-front xs ys y d.1, contains-append text_dec x xs (y ∷ ys))

is_empty_of_lookup :
    {V : Type 0} (m : List (Text × V))
    → ((q : Text) → lookup text_dec q m ≡ none)
    → is_empty m ≡ true
unfolding lookup
is_empty_of_lookup [] h = refl
is_empty_of_lookup (e ∷ m) h = ground (arith, h e.0)

module _ {S F : Type 0} where
  -- The columns of `pre` are copied.
  record Copied (t : TensorTable S F) (pre : List Text) (r : TensorTable S F) : Type 0 where
    columns : (q : Text) → column r q ≡ (if contains text_dec q pre then column t q else none)
    order : r.order ≡ pre
    rows : r.num_rows ≡ (if is_empty r.tensors then 0 else t.num_rows)

  Copied-next :
      (t r : TensorTable S F) (pre : List Text) (name : Text) (tensor : Tensor S F)
      → IsTable t
      → Copied t pre r
      → contains text_dec name pre ≡ false
      → column t name ≡ some tensor
      → (add name tensor r ≡ done (grown name tensor r))
        × Copied t (pre ++ name ∷ []) (grown name tensor r)
  unfolding add has rejects contains
  Copied-next t r pre name tensor v c new here =
      let absent : column r name ≡ none = ground (arith, c.columns name, new) in
      (
        ground (arith, c.rows, v.rows name tensor here),
        record {
          columns = λ q. elim (text_dec q name) [
            | yes e ↦ ground (
              arith,
              e,
              here,
              lookup-assign text_dec name q tensor r.tensors,
              contains-append text_dec q pre (name ∷ []),
            )
            | no ne ↦ ground (
              arith,
              ne,
              lookup-assign text_dec name q tensor r.tensors,
              c.columns q,
              contains-append text_dec q pre (name ∷ []),
            )
          ];
          order = rw absent (ap (λ l. l ++ name ∷ []) c.order);
          rows = rw (is_empty-assign name tensor r.tensors) (v.rows name tensor here);
        },
      )

  copy_step :
      (name : Text) (names : List Text) (tensor : Tensor S F) (t r r' : TensorTable S F)
      → column t name ≡ some tensor
      → add name tensor r ≡ done r'
      → copy_columns (name ∷ names) t r ≡ copy_columns names t r'
  unfolding copy_columns get
  copy_step name names tensor t r r' here step = ground (arith, here, step)

  copy_columns_lem :
      (names pre : List Text) (t r : TensorTable S F)
      → IsTable t
      → Distinct text_dec (pre ++ names)
      → ((q : Text) → contains text_dec q names ≡ true → is_some (column t q) ≡ true)
      → Copied t pre r
      → (r' : TensorTable S F) × (copy_columns names t r ≡ done r') × Copied t (pre ++ names) r'
  unfolding copy_columns contains
  copy_columns_lem [] pre t r v d known c = (r, refl, rw append-nil c)
  copy_columns_lem (name ∷ names) pre t r v d known c = elim (Option-cases (column t name)) [
    | inl gone ↦ absurd (ground (arith, gone, known name))
    | inr (tensor, here) ↦
        let (step, c') =
          Copied-next t r pre name tensor v c (Distinct-front pre names name d) here in
        let (r', run, all) =
          copy_columns_lem names (pre ++ name ∷ []) t (grown name tensor r) v
            (rw (append_assoc pre (name ∷ []) names) d) (λ q k. known q (ground (arith, k))) c' in
        (
          r',
          copy_step name names tensor t r (grown name tensor r) here step ∙ run,
          rw (← append_assoc pre (name ∷ []) names) all,
        )
  ]

  -- A copy of a table whose columns are equally long is always made: it has the same columns under
  -- the same names, in the same order, and as many rows.
  pub clone_lem :
      (t : TensorTable S F)
      → IsTable t
      → (t' : TensorTable S F) × (clone t ≡ done t')
        × ((q : Text) → column t' q ≡ column t q)
        × (t'.order ≡ t.order)
        × (t'.num_rows ≡ t.num_rows)
  unfolding clone contains lookup
  clone_lem t v =
      let (t', run, c) =
        copy_columns_lem t.order [] t empty_table v v.index.distinct
          (λ q k. sym (v.index.same q) ∙ k)
          (record { columns = λ q. refl; order = refl; rows = refl }) in
      (
        t',
        run,
        λ q. c.columns q ∙ ground (arith, v.index.same q),
        c.order,
        elim (Bool-cases (is_empty t'.tensors)) [
          | inr e ↦ ground (arith, c.rows, e)
          | inl e ↦
              let bare : is_empty t.tensors ≡ true =
                is_empty_of_lookup t.tensors
                  (λ q. ground (arith, c.columns q, v.index.same q, lookup_empty q t'.tensors e)) in
              ground (arith, c.rows, e, v.bare bare)
        ],
      )
