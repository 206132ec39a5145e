-- ===== src/Dag/OpDsl/Closed.antt =====
-- What BuildDsl hands to Build: each id has one definition, and every dependency has one.
use mathlib.Core.List.{lookup}
use lark.Base.{
  ℕ, ◌≡◌, Bool, true, some, List, [], ◌∷◌, ◌++◌, map, Text, text_dec, length, get_elem?,
}
use lark.Base.Dict.{assign, keys, contains, Distinct, is_some}
use lark.Toolkit.Parser.{Parser}
use lark.Dag.OpGraph.{OpDef}
use lark.Toolkit.Parser.Shrinks.{Left}
use lark.Dag.OpDsl.{Flow}

abbrev pub is_known : Text → Flow → Bool
is_known id f = is_some (lookup text_dec id f.index)

abbrev pub ids_of : List OpDef → List Text
ids_of = map (λ (def : OpDef). def.id)

-- Between two definitions.
pub record IsClosed (f : Flow) : Type 0 where
  pub named : ids_of f.defs ≡ keys f.index
  pub distinct : Distinct text_dec (keys f.index)
  pub known :
      (i : ℕ) (def : OpDef) (dep : Text)
      → get_elem? f.defs i ≡ some def
      → (contains text_dec dep def.deps ≡ true)
      → is_known dep f ≡ true

-- The flow with a new definition.
abbrev grown : Text → Text → Flow → Flow
grown id type_name f = record {
  defs = f.defs ++ record { type_name = type_name; deps = []; id = id } ∷ [];
  index = assign text_dec id (length f.defs) f.index;
}

-- What ensure gives, before depend.
abbrev Ensured : Text → Flow → ℕ × Flow → Type 0
Ensured id f r =
    IsClosed r.1
    × (is_known id r.1 ≡ true)
    × ((q : Text) → is_known q f ≡ true → is_known q r.1 ≡ true)

abbrev Chained : ℕ → Parser × Flow → Type 0
Chained n r = Left n r.0 × IsClosed r.1
