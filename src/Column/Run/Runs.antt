-- ===== src/Column/Run/Runs.antt =====
-- ComputeGraph::Execute as a whole.
use mathlib.Core.Option
use lark.Base.{ℕ, ◌≡◌, Option, none, some, List, [], ◌∷◌, ◌++◌, map, Text, text}
use lark.Base.Result.{Exception, runtime_error}
use lark.Metric.{Event}
use lark.Dag.Digraph.{Walk}
use lark.Column.Numbers.{Floating}
use lark.Column.Store.{TensorStore}
use lark.Column.Expr.{Numerals}
use lark.Column.Ops.{Outcome, returns}
use lark.Column.Graph.{ComputeGraph}
use lark.Column.Graph.Nodes.{deps_of}
use lark.Column.Graph.Finalize.{IsTopo}
use lark.Column.Graph.Reached.{IsSound}
use lark.Column.Run.{
  ModuleAcc, Execution, Executed, reset_run_state, reserve_outputs, execute_nodes, module_event,
}
use lark.Column.Run.Modules.{IsTally, node_count, occurrences}
use lark.Column.Run.Turns.{
  brief, InTurn, HasRun, store_after, history, modules_of, bare, AllDefined,
}

module _ {S F : Type 0} where
  -- What Execute does when it does not throw: `order` is the order of its runs.
  pub record IsRun (g : ComputeGraph S F) (order : List ℕ) (store : TensorStore S F)
      (monitor : Option (List Event)) (r : Executed S F) : Type 0 where
    pub returned : r.error ≡ none
    pub same : map bare r.graph.nodes ≡ map bare g.nodes
    pub topo : r.graph.topo ≡ order
    pub runs : InTurn HasRun r.graph.nodes order (reserve_outputs g.nodes store)
    pub left : r.store ≡ store_after r.graph.nodes order (reserve_outputs g.nodes store)
    pub events : List Event
    pub modules : List (Text × ModuleAcc)
    pub last : Event
    pub told :
        r.monitor
        ≡ Option.map (λ log. log ++ (events ++ (map module_event modules ++ last ∷ []))) monitor
    pub briefs : map brief events ≡ history r.graph.nodes order (reserve_outputs g.nodes store)
    pub tally : IsTally modules
    pub counts : (q : Text) → node_count q modules ≡ occurrences q (modules_of r.graph.nodes order)
    pub pressure : brief last ≡ (text "cpu.pressure", text "compute")

  pub data RunVerdict (g : ComputeGraph S F) (store : TensorStore S F)
      (monitor : Option (List Event)) : Outcome (Executed S F) → Type 0 where
    throws :
        (a : ℕ) (h : ComputeGraph S F)
        → Walk (deps_of g.nodes) a a
        → RunVerdict g store monitor (
            returns (record {
              graph = h;
              store = store;
              monitor = monitor;
              error = some (runtime_error (text "ComputeGraph: dependency cycle detected"));
            }))
    idle :
        (h : ComputeGraph S F)
        → g.nodes ≡ []
        → RunVerdict g store monitor
            (returns (record { graph = h; store = store; monitor = monitor; error = none }))
    ran :
        (order : List ℕ) {r : Executed S F}
        → IsTopo g order
        → IsRun g order store monitor r
        → RunVerdict g store monitor (returns r)

  module _ (m : Floating S F) (numerals : Numerals F) (now : ℕ → ℕ) (g : ComputeGraph S F)
      (s : IsSound g) (d : AllDefined g.nodes) (store : TensorStore S F)
      (monitor : Option (List Event)) where
    abbrev begun : Execution S F
    begun = record {
      nodes = reset_run_state g.nodes;
      store = reserve_outputs (reset_run_state g.nodes) store;
      monitor = monitor;
      modules = [];
      busy = 0;
      reads = 1;
    }

    abbrev with_graph : ComputeGraph S F × Option Exception → Outcome (Executed S F)
    with_graph (h, error) = elim error [
      | some e ↦ returns (record { graph = h; store = store; monitor = monitor; error = some e })
      | none ↦
          execute_nodes m numerals now (record h { nodes = reset_run_state h.nodes }) store monitor
    ]
