-- ===== src/Dag/OpDsl.antt =====
-- OpGraphBuilder::BuildDsl (dag/src/op_graph_builder.cpp): the arrow DSL, `id:Type -> id:Type`.
pub mod Closed
pub mod Fuel
use mathlib.Core.List.{lookup}
use lark.Base.{
  ℕ, zero, suc, Bool, true, false, Option, none, some, List, [], ◌∷◌, ◌++◌, Text, text, text_dec,
  length, get_elem?, set, ite, if◌then◌else◌,
}
use lark.Base.Dict.{assign}
use lark.Base.Result.{Result, done, throw, Exception, invalid_argument}
use lark.Toolkit.Lexer.{ident, Token, DslError, Lexed, token_of, fail}
use lark.Toolkit.Parser.{Parser, parser_of, at_end, match_symbol, expect_token}
use lark.Toolkit.Parser.Parsed.{
  Parsed, parsed, syntax_error, thrown, out_of_fuel, ◌>>=◌, lexing, trying,
}
use lark.Dag.Graph.{quoted}
use lark.Dag.OpGraph.{OpDef, OpGraph, OpAspect, OpRegistry, build_ops}

-- `defs` and `index`.
pub record Flow : Type 0 where
  pub defs : List OpDef
  pub index : List (Text × ℕ)

abbrev pub no_flow : Flow
no_flow = record { defs = []; index = [] }

abbrev pub arrow : Text
arrow = text "->"

unfoldable pub peeking : Parser → Parsed (Bool × Parser)
unfolding at_end
peeking p = lexing (at_end (text ":") (arrow ∷ []) p)

unfoldable pub matching : Text → Parser → Parsed (Bool × Parser)
unfolding match_symbol
matching s p = lexing (match_symbol (text ":") (arrow ∷ []) s p)

unfoldable pub identifier : Parser → Parsed (Token × Parser)
unfolding expect_token
identifier p = lexing (expect_token (text ":") (arrow ∷ []) ident (text "identifier") p)

-- Segment: the id, the type, and the parser behind them.
unfoldable pub segment : Parser → Parsed (Text × Text × Parser)
unfolding identifier matching
segment p = do
  (id, p') ← identifier p
  (colon, p'') ← matching (text ":") p'
  if colon
      then (do (type_name, p''') ← identifier p''; parsed (id.lexeme, type_name.lexeme, p'''))
      else parsed (id.lexeme, id.lexeme, p'')

abbrev pub same_type : Option OpDef → Text → Bool
same_type none type_name = true
same_type (some def) type_name = ite (text_dec def.type_name type_name) true false

-- The function `ensure`: the slot of an id.
unfoldable pub ensure : Text → Text → Flow → Result (ℕ × Flow)
ensure id type_name f = elim (lookup text_dec id f.index) [
  | some slot ↦
      if same_type (get_elem? f.defs slot) type_name
      then done (slot, f)
      else throw (
          invalid_argument
            (quoted "OpGraphBuilder DSL: node id '" id "' used with two different types"))
  | none ↦ done (
    length f.defs,
    record {
      defs = f.defs ++ record { type_name = type_name; deps = []; id = id } ∷ [];
      index = assign text_dec id (length f.defs) f.index;
    },
  )
]

-- `defs[slot].deps.push_back(prev)`.
unfoldable pub depend : ℕ → Text → Flow → Flow
depend slot prev f = elim (get_elem? f.defs slot) [
  | none ↦ f
  | some def ↦ record f { defs = set f.defs slot (record def { deps = def.deps ++ prev ∷ [] }) }
]

-- The inner loop, after the id `prev`.
unfoldable pub chain : ℕ → Text → Parser → Flow → Parsed (Parser × Flow)
unfolding segment ensure depend matching
chain zero prev p f = out_of_fuel
chain (suc fuel) prev p f = do
  (more, p') ← matching arrow p
  if more
      then (do
        (id, type_name, p'') ← segment p'
        (slot, f') ← trying (ensure id type_name f)
        chain fuel id p'' (depend slot prev f'))
      else parsed (p', f)

-- The outer loop.
unfoldable pub statements : ℕ → Parser → Flow → Parsed Flow
unfolding chain segment ensure peeking matching
statements zero p f = out_of_fuel
statements (suc fuel) p f = do
  (over, p') ← peeking p
  if over then parsed f else do
    (id, type_name, p'') ← segment p'
    (slot, f') ← trying (ensure id type_name f)
    (p''', f'') ← chain fuel id p'' f'
    (semicolon, q) ← matching (text ";") p'''
    statements fuel q f''

-- Every round reads a token, and there is one round more than that.
unfoldable pub parse_flow : Text → Parsed Flow
unfolding statements
parse_flow source = statements (suc (length source)) (parser_of source) no_flow

module _ {D : Type 0} where
  unfoldable pub build_dsl : OpRegistry D → List (OpAspect D) → Text → Parsed (OpGraph D)
  unfolding parse_flow build_ops
  build_dsl r aspects source = do f ← parse_flow source; trying (build_ops r aspects f.defs)
