-- ===== src/Column/Table/Valid.antt =====
-- Tables whose columns are equally long: which additions keep them so, and copies.
use mathlib.Core.List.{lookup}
use lark.Base.{
  ℕ, ◌<◌, ◌≡◌, ◌≢◌, ◌∙◌, ◌⊎◌, refl, ◌==◌, true, false, Bool-cases, inl, inr, Option, none, some,
  List, [], ◌∷◌, ◌++◌, Text, text_dec, ite, is_empty, arith, if◌then◌else◌,
}
use lark.Base.Dict.{assign, contains, is_some}
use lark.Base.Dict.Laws.{lookup-assign, contains-append}
use lark.Base.Result.{Result, done, throw, Exception}
use lark.Column.Tensor.{Tensor, size}
use lark.Column.Table.{TensorTable, has, rejects, add, get}
use lark.Column.Index.{IsIndex, assign-IsIndex}

pub is_empty-assign :
    {V : Type 0} (name : Text) (v : V) (m : List (Text × V))
    → is_empty (assign text_dec name v m) ≡ false
unfolding assign
is_empty-assign name v [] = refl
is_empty-assign name v (e ∷ m) = ground arith

pub lookup_empty :
    {V : Type 0} (q : Text) (m : List (Text × V)) → is_empty m ≡ true → lookup text_dec q m ≡ none
unfolding lookup
lookup_empty q [] h = refl
lookup_empty q (e ∷ m) h = cc

again :
    (name q : Text) (xs : List Text)
    → contains text_dec name xs ≡ true
    → contains text_dec q xs ≡ contains text_dec q (xs ++ name ∷ [])
unfolding contains
again name q xs h = elim (text_dec q name) [
  | yes e ↦ rw e (ground (arith, h, contains-append text_dec name xs (name ∷ [])))
  | no ne ↦ ground (arith, ne, contains-append text_dec q xs (name ∷ []))
]

module _ {S F : Type 0} where
  abbrev pub column : TensorTable S F → Text → Option (Tensor S F)
  column t q = lookup text_dec q t.tensors

  pub record IsTable (t : TensorTable S F) : Type 0 where
    pub index : IsIndex t.order t.tensors
    pub bare : is_empty t.tensors ≡ true → t.num_rows ≡ 0
    pub rows :
        (q : Text) (tensor : Tensor S F) → column t q ≡ some tensor → size tensor ≡ t.num_rows

  -- The table is one with columns, and none of them has an element.
  abbrev pub IsHollow : TensorTable S F → Type 0
  IsHollow t = (is_empty t.tensors ≡ false) × (t.num_rows ≡ 0)

  -- What add does.
  pub data Added (name : Text) (tensor : Tensor S F) (t : TensorTable S F)
      : Result (TensorTable S F) → Type 0 where
    refused :
        (e : Exception)
        → is_empty t.tensors ≡ false
        → size tensor ≢ t.num_rows
        → Added name tensor t (throw e)
    added :
        (t' : TensorTable S F)
        → IsTable t' ⊎ (IsHollow t × (0 < size tensor))
        → ((q : Text) → column t' q ≡ ite (text_dec q name) (some tensor) (column t q))
        → ((q : Text) → contains text_dec q t'.order ≡ contains text_dec q (t.order ++ name ∷ []))
        → t'.num_rows ≡ size tensor
        → Added name tensor t (done t')

  abbrev pub grown : Text → Tensor S F → TensorTable S F → TensorTable S F
  grown name tensor t = record {
    tensors = assign text_dec name tensor t.tensors;
    order = if is_some (lookup text_dec name t.tensors) then t.order else t.order ++ name ∷ [];
    num_rows = size tensor;
  }

  grown-IsTable :
      (name : Text) (tensor : Tensor S F) (t : TensorTable S F)
      → IsTable t
      → ((q : Text) (u : Tensor S F) → column t q ≡ some u → size u ≡ size tensor)
      → IsTable (grown name tensor t)
  grown-IsTable name tensor t v same = record {
    index = assign-IsIndex name tensor t.order t.tensors v.index;
    bare = λ h. cc (is_empty-assign name tensor t.tensors);
    rows = λ q u h. elim (text_dec q name) [
      | yes e ↦ ground (arith, h, e, lookup-assign text_dec name q tensor t.tensors)
      | no ne ↦ same q u (ground (arith, h, ne, lookup-assign text_dec name q tensor t.tensors))
    ];
  }

  accepted :
      (name : Text) (tensor : Tensor S F) (t : TensorTable S F)
      → IsTable t
      → rejects t (size tensor) ≡ false
      → IsTable (grown name tensor t) ⊎ (IsHollow t × (0 < size tensor))
  unfolding rejects
  accepted name tensor t v h = elim (Bool-cases (is_empty t.tensors)) [
    | inl e ↦ inl (grown-IsTable name tensor t v (λ q u k. cc (lookup_empty q t.tensors e)))
    | inr e ↦ elim (Bool-cases (size tensor == t.num_rows)) [
      | inl e' ↦ inl (grown-IsTable name tensor t v (λ q u k. ground (arith, e', v.rows q u k)))
      | inr e' ↦ inr ((e, ground (arith, h, e, e')), ground (arith, h, e, e'))
    ]
  ]

  rejects_lem :
      (t : TensorTable S F) (sz : ℕ)
      → rejects t sz ≡ true
      → (is_empty t.tensors ≡ false) × (sz ≢ t.num_rows)
  unfolding rejects
  rejects_lem t sz h = (ground (arith, h), λ e. ground (arith, h, e))

  -- On a table whose columns are equally long, Add throws only where the table has columns and the
  -- new one is not as long. Otherwise the new column is found by its name, in place of one that had
  -- the name, the other columns are as before, the names are the former and the new one, and the
  -- columns are equally long again, unless the table had columns without an element and the new one
  -- has some.
  pub add-Added :
      (name : Text) (tensor : Tensor S F) (t : TensorTable S F)
      → IsTable t
      → Added name tensor t (add name tensor t)
  unfolding add has
  add-Added name tensor t v = elim (Bool-cases (rejects t (size tensor))) [
    | inl e ↦ rw e (refused _ (rejects_lem t (size tensor) e).0 (rejects_lem t (size tensor) e).1)
    | inr e ↦ rw e (
        added (grown name tensor t) (accepted name tensor t v e)
          (λ q. lookup-assign text_dec name q tensor t.tensors)
          (λ q. elim (Bool-cases (is_some (lookup text_dec name t.tensors))) [
            | inl old ↦ rw old (again name q t.order (v.index.same name ∙ old))
            | inr new ↦ rw new refl
          ])
          refl)
  ]

  pub get_lem :
      (name : Text) (tensor : Tensor S F) (t : TensorTable S F)
      → column t name ≡ some tensor
      → get t name ≡ done tensor
  unfolding get
  get_lem name tensor t h = rw (h, get) refl
