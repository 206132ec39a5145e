-- ===== src/Dag/OpGraph.antt =====
-- Op, OpGraph, OpRegistry and OpGraphBuilder (dag/include/dag/op.h, dag/src/op_executor.cpp,
-- dag/src/op_registry.cpp, dag/src/op_graph_builder.cpp). An Op* is the op's index in `ops_`: a
-- graph has each op object once, as the builder makes them. `D` is the shared Context.
pub mod Valid
pub mod Compile
pub mod Builder
pub mod Built
use mathlib.Core.List.{lookup}
use lark.Base.{
  is_empty, ℕ, zero, suc, ◌==◌, Bool, true, false, Option, none, some, List, [], ◌∷◌, ◌++◌, Text,
  text, text_dec, length, if◌then◌else◌,
}
use lark.Base.Dict.{emplace, assign}
use lark.Base.Sums.{update}
use lark.Base.Result.{
  Result, done, throw, Exception, invalid_argument, out_of_range, runtime_error, ◌>>=◌,
}
use lark.Dag.Graph.{quoted}
use lark.Dag.Kahn.{kahn}

pub data OpStatus : Type 0 where
  pending running success skipped failed : OpStatus

-- Execute changes the context; the flag is false when it throws.
pub record Op (D : Type 0) : Type 0 where
  pub name : Text
  pub execute : D → D × Bool

-- The hooks, which are business code: `should_skip` is `none` where it throws; the flag of the
-- other two is false where they do, and the context is what they leave then.
pub record OpAspect (D : Type 0) : Type 0 where
  pub should_skip : Op D → D → Option Bool
  pub on_before : Op D → D → D × Bool
  pub on_after : Op D → D → OpStatus → D × Bool

-- `by_id_`, `deps_` (a missing key reads as the empty list), `order_`.
pub record OpGraph (D : Type 0) : Type 0 where
  pub ops : List (Op D)
  pub by_id : List (Text × ℕ)
  pub deps : ℕ → List ℕ
  pub aspects : List (OpAspect D)
  pub order : List ℕ
  pub compiled : Bool

pub record OpDef : Type 0 where
  pub type_name : Text
  pub deps : List Text
  pub id : Text

-- A factory is business code: it may throw, or return a null pointer.
abbrev pub OpRegistry : Type 0 → Type 0
OpRegistry D = List (Text × Result (Option (Op D)))

abbrev pub op_id : OpDef → Text
op_id def = if is_empty def.id then def.type_name else def.id

module _ {D : Type 0} where
  abbrev pub empty_op_graph : OpGraph D
  empty_op_graph = record {
    ops = [];
    by_id = [];
    deps = λ v. [];
    aspects = [];
    order = [];
    compiled = false;
  }

  unfoldable pub add_op : Option (Op D) → Text → OpGraph D → Result (OpGraph D)
  unfolding emplace
  add_op none id g = throw (invalid_argument (text "OpGraph: null op"))
  add_op (some op) id g =
      let name = if is_empty id then op.name else id in
      let (index, inserted) = emplace text_dec name (length g.ops) g.by_id in
      if inserted
      then done (record g { ops = g.ops ++ op ∷ []; by_id = index; compiled = false })
      else throw (invalid_argument (quoted "OpGraph: duplicate node id '" name "'"))

  unfoldable pub add_aspect : Option (OpAspect D) → OpGraph D → OpGraph D
  add_aspect none g = g
  add_aspect (some aspect) g = record g { aspects = g.aspects ++ aspect ∷ [] }

  unfoldable pub depends_on : Text → Text → OpGraph D → Result (OpGraph D)
  depends_on dep dependent g = elim (lookup text_dec dep g.by_id) [
    | none ↦ throw (invalid_argument (quoted "OpGraph: unknown dependency '" dep "'"))
    | some u ↦ elim (lookup text_dec dependent g.by_id) [
      | none ↦ throw (invalid_argument (quoted "OpGraph: unknown dependent '" dependent "'"))
      | some v ↦ done (record g { deps = update g.deps v (g.deps v ++ u ∷ []); compiled = false })
    ]
  ]

  -- Compile: the graph as it is left, and what it throws. That the order never runs out of fuel
  -- is `Compile.compile-CompileVerdict`.
  unfoldable pub compile : OpGraph D → OpGraph D × Option Exception
  unfolding kahn
  compile g = if g.compiled then (g, none) else elim (kahn g.deps (length g.ops)) [
    | none ↦ (g, some (runtime_error (text "out of fuel")))
    | some order ↦
        if length order == length g.ops
        then (record g { order = order; compiled = true }, none)
        else (
          record g { order = order },
          some (runtime_error (text "OpGraph: dependency cycle detected")),
        )
  ]

  -- OpRegistry::Register and OpRegistry::Create.
  unfoldable pub register_op : Text → Result (Option (Op D)) → OpRegistry D → Result (OpRegistry D)
  unfolding emplace
  register_op type_name factory r =
      let (r', inserted) = emplace text_dec type_name factory r in
      if inserted then done r' else throw (invalid_argument (text "OpRegistry: duplicate op type"))

  unfoldable pub create_op : OpRegistry D → Text → Result (Option (Op D))
  create_op r type_name = elim (lookup text_dec type_name r) [
    | none ↦ throw (out_of_range (quoted "OpRegistry: unknown op type '" type_name "'"))
    | some factory ↦ factory
  ]

  unfoldable pub add_aspects : List (OpAspect D) → OpGraph D → OpGraph D
  unfolding add_aspect
  add_aspects [] g = g
  add_aspects (aspect ∷ aspects) g = add_aspects aspects (add_aspect (some aspect) g)

  -- The first loop of OpGraphBuilder::Build: the graph and `by_id`, the index of the raw pointer.
  unfoldable pub add_ops :
      OpRegistry D → List OpDef → List (Text × ℕ) → OpGraph D → Result (List (Text × ℕ) × OpGraph D)
  unfolding create_op add_op
  add_ops r [] by_id g = done (by_id, g)
  add_ops r (def ∷ defs) by_id g =
      if is_empty def.type_name
      then throw (invalid_argument (text "OpGraphBuilder: node def has empty type"))
      else do
        op ← create_op r def.type_name
        g' ← add_op op (op_id def) g
        add_ops r defs (assign text_dec (op_id def) (length g.ops) by_id) g'

  -- The second loop: for one definition, and for all.
  unfoldable pub wire_op : List (Text × ℕ) → Text → List Text → OpGraph D → Result (OpGraph D)
  unfolding depends_on
  wire_op by_id id [] g = done g
  wire_op by_id id (dep ∷ ds) g = elim (lookup text_dec dep by_id) [
    | none ↦ throw (
        invalid_argument
          (text "OpGraphBuilder: node '" ++ (id ++ quoted "' depends on unknown id '" dep "'")))
    | some _ ↦ do g' ← depends_on dep id g; wire_op by_id id ds g'
  ]

  unfoldable pub wire_ops : List (Text × ℕ) → List OpDef → OpGraph D → Result (OpGraph D)
  unfolding wire_op
  wire_ops by_id [] g = done g
  wire_ops by_id (def ∷ defs) g = do
    g' ← wire_op by_id (op_id def) def.deps g
    wire_ops by_id defs g'

  -- OpGraphBuilder::Build, with the aspects of the builder.
  unfoldable pub build_ops : OpRegistry D → List (OpAspect D) → List OpDef → Result (OpGraph D)
  unfolding add_aspects add_ops wire_ops
  build_ops r aspects defs = do
    (by_id, g) ← add_ops r defs [] (add_aspects aspects empty_op_graph)
    wire_ops by_id defs g
