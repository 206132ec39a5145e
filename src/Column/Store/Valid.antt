-- ===== src/Column/Store/Valid.antt =====
-- Stores: what is found after each operation; and tables that go into a store and come out of it.
use mathlib.Core.List.{lookup}
use lark.Base.{
  ◌≡◌, refl, Bool-cases, inl, inr, none, some, List, [], ◌∷◌, Text, text_dec, ite, arith,
  if◌then◌else◌,
}
use lark.Base.Dict.{contains, is_some}
use lark.Base.Dict.Laws.{lookup-assign, lookup-erase}
use lark.Column.Tensor.{Tensor, float64s}
use lark.Column.Index.{IsIndex, empty-IsIndex, assign-IsIndex, erase-IsIndex}
use lark.Column.Store.{TensorStore, empty_store, find, has, set, ensure_names, erase_tensor, clear}

module _ {S F : Type 0} where
  -- `order_` has each name of the map once.
  abbrev pub IsStore : TensorStore S F → Type 0
  IsStore s = IsIndex s.order s.tensors

  pub find-empty : (q : Text) → find (empty_store {S = S} {F = F}) q ≡ none
  unfolding find lookup
  find-empty q = refl

  pub find-set :
      (name q : Text) (tensor : Tensor S F) (s : TensorStore S F)
      → find (set name tensor s) q ≡ ite (text_dec q name) (some tensor) (find s q)
  unfolding find set
  find-set name q tensor s = lookup-assign text_dec name q tensor s.tensors

  set-IsStore :
      (name : Text) (tensor : Tensor S F) (s : TensorStore S F)
      → IsStore s
      → IsStore (set name tensor s)
  unfolding set has
  set-IsStore name tensor s i = assign-IsIndex name tensor s.order s.tensors i

  -- The store after one name of ensure_names.
  abbrev ensured : Text → TensorStore S F → TensorStore S F
  ensured name s = if has s name then s else set name (float64s []) s

  ensured_lem :
      (name : Text) (s : TensorStore S F)
      → IsStore s
      → IsStore (ensured name s)
        × ((q : Text)
            → find (ensured name s) q
              ≡ (if has s q then find s q else ite (text_dec q name) (some (float64s [])) none))
  unfolding has find
  ensured_lem name s i = elim (Bool-cases (has s name)) [
    | inl e ↦
        rw e (
          i,
          λ q. elim (text_dec q name) [ yes k ↦ ground (arith, k, e) | no k ↦ ground (arith, k) ],
        )
    | inr e ↦ rw e (
      set-IsStore name (float64s []) s i,
      λ q. elim (text_dec q name) [
        | yes k ↦ ground (arith, k, e, find-set name q (float64s []) s)
        | no k ↦ ground (arith, k, find-set name q (float64s []) s)
      ],
    )
  ]

  ensure_names_lem :
      (names : List Text) (s : TensorStore S F)
      → IsStore s
      → IsStore (ensure_names names s)
        × ((q : Text)
            → find (ensure_names names s) q ≡ (
                if has s q
                then find s q
                else if contains text_dec q names
                then some (float64s [])
                else none))
  unfolding ensure_names contains has find
  ensure_names_lem [] s i = (i, λ q. ground arith)
  ensure_names_lem (name ∷ names) s i =
      let (i', looks) = ensured_lem name s i in
      let (i'', finds) = ensure_names_lem names (ensured name s) i' in
      (
        i'',
        λ q. elim (text_dec q name) [
          | yes k ↦ ground (arith, k, looks q, finds q)
          | no k ↦ ground (arith, k, looks q, finds q)
        ],
      )

  erase_tensor_lem :
      (name : Text) (s : TensorStore S F)
      → IsStore s
      → IsStore (erase_tensor name s)
        × ((q : Text) → find (erase_tensor name s) q ≡ ite (text_dec q name) none (find s q))
  unfolding erase_tensor has find
  erase_tensor_lem name s i = elim (Bool-cases (is_some (lookup text_dec name s.tensors))) [
    | inl e ↦
        rw e (erase-IsIndex name s.order s.tensors i, λ q. lookup-erase text_dec name q s.tensors)
    | inr e ↦ rw e (
      i,
      λ q. elim (text_dec q name) [ yes k ↦ rw k (ground (arith, e)) | no k ↦ ground (arith, k) ],
    )
  ]

  -- What is found after each operation.
  pub record IsUpdated (s : TensorStore S F) (name : Text) (tensor : Tensor S F) (names : List Text)
      : Type 0 where
    pub after_set :
        (q : Text) → find (set name tensor s) q ≡ ite (text_dec q name) (some tensor) (find s q)
    pub after_erase :
        (q : Text) → find (erase_tensor name s) q ≡ ite (text_dec q name) none (find s q)
    pub after_ensure :
        (q : Text)
        → find (ensure_names names s) q ≡ (
            if has s q
            then find s q
            else if contains text_dec q names
            then some (float64s [])
            else none)
    pub after_clear : (q : Text) → find (clear s) q ≡ none
    pub set_store : IsStore (set name tensor s)
    pub erase_store : IsStore (erase_tensor name s)
    pub ensure_store : IsStore (ensure_names names s)
    pub clear_store : IsStore (clear s)

  -- On a store whose order has each name of its map once, set, erase, EnsureNames and clear keep it
  -- so; set changes what is found by its name alone, erase takes that away alone, EnsureNames gives
  -- an empty tensor to each of its names that has none and changes nothing else, and after clear
  -- nothing is found.
  pub store-IsUpdated :
      (s : TensorStore S F) (name : Text) (tensor : Tensor S F) (names : List Text)
      → IsStore s
      → IsUpdated s name tensor names
  unfolding clear find
  store-IsUpdated s name tensor names i = record {
    after_set = λ q. find-set name q tensor s;
    after_erase = (erase_tensor_lem name s i).1;
    after_ensure = (ensure_names_lem names s i).1;
    after_clear = λ q. find-empty q;
    set_store = set-IsStore name tensor s i;
    erase_store = (erase_tensor_lem name s i).0;
    ensure_store = (ensure_names_lem names s i).0;
    clear_store = empty-IsIndex;
  }
