-- ===== src/Dag/ExecutorTests.antt =====
-- Execute at a concrete input: two nodes, the second of which depends on the first.
use mathlib.Core.List.{lookup}
use lark.Base.{
  ℕ, suc, ◌*◌, ◌≤◌, ◌≡◌, ◌↔◌, ◌⊎◌, refl, false, none, some, List, [], ◌∷◌, text, text_dec, length,
  arith, ℕ_discrete,
}
use lark.Base.Dict.{contains, emplace}
use lark.Base.Int.{pos}
use lark.Base.Result.{done}
use lark.Base.Sums.{update, sum_below}
use lark.Dag.Digraph.{Edge}
use lark.Dag.Search.{visit, visit_all, search_fuel}
use lark.Dag.Kahn.{decrement}
use lark.Dag.Graph.{
  NodeDef, node_def, Node, Graph, NodeRegistry, deps_of, create, add_node, create_and_index,
  add_dependency, wire_node, wire_from, reject_cycles, build,
}
use lark.Dag.Graph.Build.{build-IsBuilt}
use lark.Dag.Executor.{
  NodeCode, inside, over, Execution, complete, spawn_node, begin_node, finish_node, start_execution,
  Step, spawns, begins, finishes, Steps, here, then_,
}
use lark.Dag.Executor.Returns.{AllOver, execute_returns}
use lark.Dag.Executor.Statuses.{Fits, runs_after_dependencies}

-- The context counts the runs; `broken` throws and has no fallback.
abbrev code : NodeCode ℕ
code = record { run = λ d. (suc d, none); degrade = λ d. (d, false) }

abbrev broken : NodeCode ℕ
broken = record { run = λ d. (suc d, some (text "timeout")); degrade = λ d. (d, false) }

abbrev types : NodeRegistry (NodeCode ℕ)
types = (text "fetch", done broken) ∷ (text "score", done code) ∷ []

abbrev defs : List NodeDef
defs = node_def (text "fetch") [] [] ∷ node_def (text "score") (text "fetch" ∷ []) [] ∷ []

abbrev first : Node (NodeCode ℕ)
first = record {
  id = text "fetch";
  type_name = text "fetch";
  dependencies = [];
  behaviour = broken;
}

abbrev second : Node (NodeCode ℕ)
second = record {
  id = text "score";
  type_name = text "score";
  dependencies = 0 ∷ [];
  behaviour = code;
}

abbrev graph : Graph (NodeCode ℕ)
graph = record { nodes = first ∷ second ∷ []; by_id = (text "fetch", 0) ∷ (text "score", 1) ∷ [] }

builds : build types defs ≡ done graph
unfolding build node_def create_and_index add_node create emplace lookup text_dec wire_from
    wire_node add_dependency reject_cycles visit_all visit search_fuel sum_below update ℕ_discrete
builds = refl

abbrev start : Execution ℕ
start = start_execution 2 0 (some [])

-- Both are spawned, the first one fails, and the second one runs.
abbrev halfway : Execution ℕ
halfway =
    begin_node (pos 30) second 1 (
      finish_node (pos 20) first 0
        (begin_node (pos 10) first 0 (spawn_node 1 (spawn_node 0 start))))

five-Steps : Steps graph [] start 5 halfway
unfolding spawn_node begin_node finish_node complete decrement contains ℕ_discrete
five-Steps =
    then_
      (then_
        (then_ (then_ (then_ here (spawns first refl refl)) (spawns second refl refl))
          (begins 0 first (pos 10) refl refl (λ d e. cc)))
        (finishes 0 first (pos 20) refl refl))
      (begins 1 second (pos 30) refl refl (λ d e. ground (arith, e)))

execute_returns_example :
    (5 ≤ 3 * length graph.nodes)
    × (halfway.signals ≤ 1)
    × ((halfway.signals ≡ 1) ↔ AllOver graph [] halfway)
    × ((halfway.signals ≡ 1) ⊎ ((u : Execution ℕ) × Step graph [] halfway u))
execute_returns_example =
    execute_returns graph [] defs 0 (some []) 5 halfway (build-IsBuilt types defs graph builds)
      (omega arith) five-Steps

second_inside : halfway.stage 1 ≡ inside
unfolding begin_node ℕ_discrete
second_inside = refl

second_needs_first : Edge (deps_of graph) 1 0
unfolding contains ℕ_discrete
second_needs_first = refl

runs_after_dependencies_example :
    Fits false inside (halfway.status 1)
    × (halfway.stage 0 ≡ over)
    × Fits false over (halfway.status 0)
unfolding contains
runs_after_dependencies_example =
    runs_after_dependencies graph [] 0 (some []) 5 halfway 1 0 second first (omega arith) five-Steps
      refl refl second_inside second_needs_first
