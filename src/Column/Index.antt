-- ===== src/Column/Index.antt =====
-- What TensorTable and TensorStore share: an unordered_map and the vector of its keys in the order
-- of their insertion.
use mathlib.Core.List.{lookup}
use lark.Base.{
  ◌≡◌, ◌∙◌, refl, false, Bool-cases, inl, inr, List, [], ◌∷◌, ◌++◌, Text, text_dec, ite, if_pos,
  if_neg, arith, if◌then◌else◌,
}
use lark.Base.Dict.{assign, erase, contains, Distinct, is_some}
use lark.Base.Dict.Laws.{lookup-assign, lookup-erase, contains-append, Distinct-concat}
use lark.Column.Table.{erase_first}

-- `order_` has each key once.
pub record IsIndex {V : Type 0} (order : List Text) (m : List (Text × V)) : Type 0 where
  pub distinct : Distinct text_dec order
  pub same : (q : Text) → contains text_dec q order ≡ is_some (lookup text_dec q m)

contains-erase_first :
    (name q : Text) (xs : List Text)
    → Distinct text_dec xs
    → contains text_dec q (erase_first name xs)
      ≡ ite (text_dec q name) false (contains text_dec q xs)
unfolding contains erase_first
contains-erase_first name q [] d = ground arith
contains-erase_first name q (x ∷ xs) d = ground (arith, d.0, contains-erase_first name q xs d.1)

erase_first-Distinct :
    (name : Text) (xs : List Text) → Distinct text_dec xs → Distinct text_dec (erase_first name xs)
unfolding contains erase_first
erase_first-Distinct name [] d = tt
erase_first-Distinct name (x ∷ xs) d = elim (text_dec name x) [
  | yes e ↦ rw (if_pos _ e) d.1
  | no ne ↦
      rw (if_neg _ ne)
        (ground (arith, d.0, contains-erase_first name x xs d.1), erase_first-Distinct name xs d.1)
]

module _ {V : Type 0} where
  pub empty-IsIndex : IsIndex {V = V} [] []
  unfolding contains lookup
  empty-IsIndex = record { distinct = tt; same = λ q. refl }

  pub assign-IsIndex :
      (name : Text) (v : V) (order : List Text) (m : List (Text × V))
      → IsIndex order m
      → IsIndex
          (if is_some (lookup text_dec name m) then order else order ++ name ∷ [])
          (assign text_dec name v m)
  unfolding contains lookup
  assign-IsIndex name v order m i = elim (Bool-cases (is_some (lookup text_dec name m))) [
    | inl e ↦ rw e (record {
      distinct = i.distinct;
      same = λ q. ground (arith, i.same q, lookup-assign text_dec name q v m, e);
    })
    | inr e ↦ rw e (record {
      distinct = Distinct-concat text_dec order name i.distinct (i.same name ∙ e);
      same = λ q. ground (
        arith,
        i.same q,
        lookup-assign text_dec name q v m,
        contains-append text_dec q order (name ∷ []),
      );
    })
  ]

  pub erase-IsIndex :
      (name : Text) (order : List Text) (m : List (Text × V))
      → IsIndex order m
      → IsIndex (erase_first name order) (erase text_dec name m)
  erase-IsIndex name order m i = record {
    distinct = erase_first-Distinct name order i.distinct;
    same = λ q. ground (
      arith,
      i.same q,
      contains-erase_first name q order i.distinct,
      lookup-erase text_dec name q m,
    );
  }
