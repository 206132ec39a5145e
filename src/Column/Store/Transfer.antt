-- ===== src/Column/Store/Transfer.antt =====
-- Tables that go into a store and come out of it.
use mathlib.Core.List.{lookup}
use mathlib.Core.Path.{fun_ext}
use lark.Base.{
  ℕ, ◌≡◌, ◌⊎◌, ◌∙◌, refl, sym, ap, false, inl, inr, Option, none, some, List, [], ◌∷◌, Text,
  text_dec, arith,
}
use lark.Base.Dict.{contains, Distinct, keys, is_some}
use lark.Base.Dict.Laws.{lookup-keys}
use lark.Base.Result.{done, ◌>>=◌}
use lark.Column.Tensor.{Tensor, size}
use lark.Column.Table
use lark.Column.Table.{TensorTable}
use lark.Column.Table.Valid.{column, get_lem}
use lark.Column.Feed.{table_from_columns}
use lark.Column.Feed.Columns.{AllSized, Named}
use lark.Column.Store.{TensorStore, find, set, add_columns, collect}
use lark.Column.Store.Valid.{find-set}

module _ {S F : Type 0} where
  named_weaken :
      (cs ds : List (Text × Tensor S F)) (name : Text) (tensor : Tensor S F)
      → contains text_dec name (keys cs) ≡ false
      → Named (λ q. lookup text_dec q ds) cs
      → Named (λ q. lookup text_dec q ((name, tensor) ∷ ds)) cs
  unfolding lookup contains
  named_weaken [] ds name tensor h k = tt
  named_weaken ((n, t) ∷ cs) ds name tensor h k =
      (ground (arith, h, k.0), named_weaken cs ds name tensor (ground (arith, h)) k.1)

  -- Columns with different names are found by them in their list.
  pub lookup-Named :
      (cs : List (Text × Tensor S F))
      → Distinct text_dec (keys cs)
      → Named (λ q. lookup text_dec q cs) cs
  unfolding lookup
  lookup-Named [] d = tt
  lookup-Named ((n, t) ∷ cs) d = (ground arith, named_weaken cs cs n t d.0 (lookup-Named cs d.1))

  pub Named_congr :
      (f g : Text → Option (Tensor S F)) (cs : List (Text × Tensor S F))
      → ((q : Text) → f q ≡ g q)
      → Named g cs
      → Named f cs
  Named_congr f g [] h k = tt
  Named_congr f g ((n, t) ∷ cs) h k = (h n ∙ k.0, Named_congr f g cs h k.1)

  -- The loop of add_table.
  abbrev pub set_all : List (Text × Tensor S F) → TensorStore S F → TensorStore S F
  set_all [] s = s
  set_all ((name, tensor) ∷ cs) s = set_all cs (set name tensor s)

  pub add_columns_lem :
      (cs : List (Text × Tensor S F)) (t : TensorTable S F) (s : TensorStore S F)
      → Named (column t) cs
      → add_columns (keys cs) t s ≡ done (set_all cs s)
  unfolding add_columns
  add_columns_lem [] t s k = refl
  add_columns_lem ((name, tensor) ∷ cs) t s k =
      rw (get_lem name tensor t k.0) (add_columns_lem cs t (set name tensor s) k.1)

  -- What the loop has set, over what was there.
  abbrev pub over : Option (Tensor S F) → Option (Tensor S F) → Option (Tensor S F)
  over none below = below
  over (some tensor) below = some tensor

  pub find-set_all :
      (cs : List (Text × Tensor S F)) (s : TensorStore S F) (q : Text)
      → Distinct text_dec (keys cs)
      → find (set_all cs s) q ≡ over (lookup text_dec q cs) (find s q)
  unfolding lookup
  find-set_all [] s q d = refl
  find-set_all ((name, tensor) ∷ cs) s q d =
      let absent : is_some (lookup text_dec name cs) ≡ false =
        sym (lookup-keys text_dec name cs) ∙ d.0 in
      elim (text_dec q name) [
        | yes k ↦
            ground (
              arith,
              k,
              absent,
              find-set_all cs (set name tensor s) q d.1,
              find-set name q tensor s,
            )
        | no k ↦
            ground (arith, k, find-set_all cs (set name tensor s) q d.1, find-set name q tensor s)
      ]

  collect-nil :
      (s : TensorStore S F) (rows : Option ℕ) (out : TensorTable S F)
      → collect [] s rows out ≡ done out
  unfolding collect
  collect-nil s rows out = refl

  collect_step :
      (name : Text) (names : List Text) (tensor : Tensor S F) (n : ℕ) (s : TensorStore S F)
      (rows : Option ℕ) (out : TensorTable S F)
      → find s name ≡ some tensor
      → size tensor ≡ n
      → (rows ≡ none) ⊎ (rows ≡ some n)
      → collect (name ∷ names) s rows out
        ≡ (Table.add name tensor out >>= λ out'. collect names s (some n) out')
  unfolding collect find
  collect_step name names tensor n s none out h e k = ground (arith, h, e)
  collect_step name names tensor n s (some r) out h e (inl k) = cc
  collect_step name names tensor n s (some r) out h e (inr k) = ground (arith, h, e, k)

  -- The loop of to_table makes a table of the columns.
  pub collect_lem :
      (cs : List (Text × Tensor S F)) (n : ℕ) (s : TensorStore S F) (rows : Option ℕ)
      (out : TensorTable S F)
      → Named (find s) cs
      → AllSized n cs
      → (rows ≡ none) ⊎ (rows ≡ some n)
      → collect (keys cs) s rows out ≡ table_from_columns cs out
  unfolding table_from_columns
  collect_lem [] n s rows out k z r = collect-nil s rows out
  collect_lem ((name, tensor) ∷ cs) n s rows out k z r =
      collect_step name (keys cs) tensor n s rows out k.0 z.0 r
      ∙ ap (λ f. Table.add name tensor out >>= f)
          (fun_ext λ out'. collect_lem cs n s (some n) out' k.1 z.1 (inr refl))
