-- ===== src/Dag/Tests.antt =====
-- The graph builder at concrete inputs: a diamond, and a cycle of two.
use mathlib.Core.List.{lookup}
use lark.Base.{ℕ, ◌<◌, ◌≡◌, refl, List, [], ◌∷◌, Text, text, text_dec, arith, zero, suc, ℕ_discrete}
use lark.Base.Dict.{contains, emplace}
use lark.Base.Result.{done, throw, runtime_error}
use lark.Base.Sums.{update, sum_below}
use lark.Dag.Digraph.{Has}
use lark.Dag.Search.{visit, visit_all, search_fuel}
use lark.Dag.Graph.{
  NodeDef, node_def, Node, Graph, NodeRegistry, quoted, deps_of, create, add_node, create_and_index,
  add_dependency, wire_node, wire_from, reject_cycles, build,
}
use lark.Dag.Graph.Cycles.{Decision, reject_cycles-Decision}
use lark.Dag.Graph.Build.{IsBuilt, build-IsBuilt}

abbrev types : NodeRegistry ℕ
types = (text "load", done 1) ∷ (text "join", done 2) ∷ []

-- `top` needs `left` and `right`, which both need `load`.
abbrev diamond : List NodeDef
diamond =
    node_def (text "join") (text "left" ∷ text "right" ∷ []) (text "top")
    ∷ node_def (text "join") (text "load" ∷ []) (text "left")
    ∷ node_def (text "join") (text "load" ∷ []) (text "right")
    ∷ node_def (text "load") [] []
    ∷ []

abbrev node : Text → Text → List ℕ → ℕ → Node ℕ
node id type_name dependencies behaviour = record {
  id = id;
  type_name = type_name;
  dependencies = dependencies;
  behaviour = behaviour;
}

abbrev built : Graph ℕ
built = record {
  nodes =
      node (text "top") (text "join") (1 ∷ 2 ∷ []) 2
      ∷ node (text "left") (text "join") (3 ∷ []) 2
      ∷ node (text "right") (text "join") (3 ∷ []) 2
      ∷ node (text "load") (text "load") [] 1
      ∷ [];
  by_id = (text "top", 0) ∷ (text "left", 1) ∷ (text "right", 2) ∷ (text "load", 3) ∷ [];
}

builds : build types diamond ≡ done built
unfolding build node_def create_and_index add_node create emplace lookup text_dec wire_from
    wire_node add_dependency reject_cycles visit_all visit search_fuel sum_below update
builds = refl

build-IsBuilt_example : IsBuilt diamond built
build-IsBuilt_example = build-IsBuilt types diamond built builds

-- Two nodes that depend on each other.
abbrev loop : Graph ℕ
loop = record {
  nodes = node (text "a") (text "join") (1 ∷ []) 2 ∷ node (text "b") (text "join") (0 ∷ []) 2 ∷ [];
  by_id = (text "a", 0) ∷ (text "b", 1) ∷ [];
}

loop_in_range : (u v : ℕ) → Has v (deps_of loop u) → v < 2
unfolding contains
loop_in_range zero v h = ground arith
loop_in_range (suc zero) v h = ground arith
loop_in_range (suc (suc u)) v h = cc

reject_cycles-Decision_example : Decision loop (reject_cycles loop)
reject_cycles-Decision_example = reject_cycles-Decision loop loop_in_range

loop_is_rejected :
    reject_cycles loop
    ≡ throw (
        runtime_error
          (quoted "GraphBuilder: dependency cycle detected involving node '" (text "a") "'"))
unfolding reject_cycles visit_all visit search_fuel sum_below ℕ_discrete
loop_is_rejected = refl
