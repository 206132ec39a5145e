-- ===== src/Column/Op.antt =====
-- OpSpec (column/include/column/exec/tensor_op.h): an op that reads and writes columns by name.
use mathlib.Core.List.{lookup}
use lark.Base.{Bool, Option, List, [], ◌∷◌, Text, text_dec}
use lark.Base.Dict.{is_some}

-- The keys of `attrs` are distinct.
pub record OpSpec : Type 0 where
  pub type : Text
  pub inputs : List Text
  pub outputs : List Text
  pub attrs : List (Text × Text)

unfoldable pub has_attr : OpSpec → Text → Bool
has_attr spec key = is_some (lookup text_dec key spec.attrs)

-- `attrs.at(key)`.
unfoldable pub attr_at : OpSpec → Text → Option Text
attr_at spec key = lookup text_dec key spec.attrs

abbrev pub plain_op : Text → List Text → Text → OpSpec
plain_op type inputs out = record { type = type; inputs = inputs; outputs = out ∷ []; attrs = [] }
