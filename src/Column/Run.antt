-- ===== src/Column/Run.antt =====
-- ComputeGraph::Execute (column/src/column/exec/compute_graph.cpp): the run of a graph on the thread that
-- calls, with its events. `now k` is the k-th reading of the steady clock, in nanoseconds.
mod Events
pub mod Modules
pub mod Turns
mod Loop
pub mod Runs
unfoldable pub use Events.*
use mathlib.Core.Option
use lark.Base.{
  ℕ, zero, suc, ◌+◌, ◌-◌, ◌*◌, ◌==◌, ltb, max, ◌&&◌, Bool, true, false, if◌then◌else◌, is_empty,
  Option, none, some, List, [], ◌∷◌, ◌++◌, map, length, Text, text, text_dec,
}
use lark.Base.Decimal.{to_string_ℕ}
use lark.Base.Dict.{assign}
use lark.Base.Int.{pos}
use lark.Base.Result.{Exception}
use lark.Metric.{Event, event}
use lark.Column.Numbers.{Floating}
use lark.Column.Store.{TensorStore, ensure_names}
use lark.Column.Expr.{Numerals}
use lark.Column.Ops.{Outcome, returns, raises, undefined, ◌>>=◌}
use lark.Column.Graph.{
  NodeStatus, pending, success, failed, NodeRun, fresh_run, ComputeNode, ComputeGraph, node_at,
  change_node, finalize,
}

-- The nodes with their run states, the store, the monitor's events, RunState, and how often the
-- clock has been read.
pub record Execution (S F : Type 0) : Type 0 where
  pub nodes : List (ComputeNode S F)
  pub store : TensorStore S F
  pub monitor : Option (List Event)
  pub modules : List (Text × ModuleAcc)
  pub busy : ℕ
  pub reads : ℕ

abbrev pub is_ok : Option Exception → Bool
is_ok none = true
is_ok (some _) = false

abbrev pub node_run : ℕ → Option Exception → NodeRun
node_run elapsed err = record {
  status = if is_ok err then success else failed;
  elapsed = elapsed;
  error = err;
  is_done = true;
}

module _ {S F : Type 0} where
  -- EmitNodeEvent.
  unfoldable pub emit_node_event :
      Text → ComputeNode S F → ℕ → Bool → Option (List Event) → Option (List Event)
  unfolding node_event
  emit_node_event action node elapsed ok =
      tell (node_event action node.id node.op.op_type elapsed ok)

  -- A round of the loop, up to the op.
  unfoldable pub begin_node : ℕ → ComputeNode S F → Execution S F → Execution S F
  unfolding emit_node_event change_acc
  begin_node start node x = record x {
    monitor = emit_node_event (text "node.start") node 0 true x.monitor;
    modules =
        change_acc node.module_name
          (λ acc. record acc {
            count = suc acc.count;
            started = true;
            start = if acc.started then acc.start else start;
          })
          x.modules;
    reads = suc x.reads;
  }

  -- A round of the loop, from the op on, which leaves a store and maybe an exception.
  unfoldable pub end_node :
      ℕ → ℕ → Option Exception → TensorStore S F → ComputeNode S F → Execution S F → Execution S F
  unfolding emit_node_event change_acc
  end_node start finish err store node x =
      let elapsed = finish - start in
      record x {
        nodes =
            change_node node.address (λ other. record other { run = node_run elapsed err }) x.nodes;
        store = store;
        monitor =
            emit_node_event (if is_ok err then text "node.end" else text "node.error") node elapsed
              (is_ok err) x.monitor;
        modules =
            change_acc node.module_name (λ acc. record acc { finish = max acc.finish finish })
              x.modules;
        busy = x.busy + elapsed;
        reads = suc x.reads;
      }

  module _ (now : ℕ → ℕ) where
    unfoldable pub run_node : ComputeNode S F → Execution S F → Outcome (Execution S F)
    unfolding begin_node end_node
    run_node node x =
        let start = now x.reads in
        let begun = begin_node start node x in
        elim (node.op.compute begun.store) [
          | returns store ↦ returns (end_node start (now begun.reads) none store node begun)
          | raises e ↦ returns (end_node start (now begun.reads) (some e) begun.store node begun)
          | undefined ↦ undefined
        ]

    -- The loop over the order.
    unfoldable pub run_nodes : List ℕ → Execution S F → Outcome (Execution S F)
    unfolding run_node node_at
    run_nodes [] x = returns x
    run_nodes (a ∷ order) x = elim (node_at x.nodes a) [
      | none ↦ undefined
      | some node ↦ run_node node x >>= λ x'. run_nodes order x'
    ]

  -- ResetRunState.
  unfoldable pub reset_run_state : List (ComputeNode S F) → List (ComputeNode S F)
  reset_run_state = map (λ (node : ComputeNode S F). record node { run = fresh_run })

  unfoldable pub reserve_names : List Text → TensorStore S F → TensorStore S F
  unfolding ensure_names
  reserve_names [] store = store
  reserve_names (out ∷ outs) store =
      reserve_names outs (if is_empty out then store else ensure_names (out ∷ []) store)

  -- ReserveOutputs.
  unfoldable pub reserve_outputs : List (ComputeNode S F) → TensorStore S F → TensorStore S F
  unfolding reserve_names
  reserve_outputs [] store = store
  reserve_outputs (node ∷ nodes) store = reserve_outputs nodes (reserve_names node.op.outputs store)

module _ (S F : Type 0) where
  -- What is left of a graph and a context, and the exception if the call throws.
  pub record Executed : Type 0 where
    pub graph : ComputeGraph S F
    pub store : TensorStore S F
    pub monitor : Option (List Event)
    pub error : Option Exception

module _ {S F : Type 0} (m : Floating S F) (numerals : Numerals F) where
  -- The share of the workers' time that was used, at most 1.
  unfoldable pub utilization : ℕ → ℕ → ℕ → F
  utilization busy wall workers =
      if ltb 0 wall && ltb 0 workers
      then (let util = m.div (m.of_int (pos busy)) (m.of_int (pos (wall * workers))) in
          if m.double.lt (m.of_int (pos 1)) util then m.of_int (pos 1) else util)
      else m.of_int (pos 0)

  -- The event of the cpu.
  unfoldable pub pressure_event : ℕ → ℕ → ℕ → Event
  unfolding utilization
  pressure_event busy wall workers =
      record (event (text "column") (text "cpu.pressure") (text "compute")) {
        attrs = assign text_dec (text "workers") (to_string_ℕ workers) (
            assign text_dec (text "wall_ns") (to_string_ℕ wall) (
              assign text_dec (text "busy_ns") (to_string_ℕ busy) (
                assign text_dec (text "utilization")
                  (numerals.to_string (utilization busy wall workers))
                  (assign text_dec (text "pool") (text "compute") []))));
      }

  -- ReportRunSummary.
  unfoldable pub report_run_summary : ℕ → ℕ → Execution S F → Option (List Event)
  unfolding module_event pressure_event
  report_run_summary wall workers x =
      Option.map
        (λ log. log ++ (map module_event x.modules ++ pressure_event x.busy wall workers ∷ []))
        x.monitor

  -- The part of Execute after Finalize and the reset. The clock is read before the loop and after.
  unfoldable pub execute_nodes :
      (ℕ → ℕ) → ComputeGraph S F → TensorStore S F → Option (List Event) → Outcome (Executed S F)
  unfolding run_nodes reserve_outputs report_run_summary
  execute_nodes now g store monitor =
      if is_empty g.nodes
      then returns (record { graph = g; store = store; monitor = monitor; error = none })
      else (do
        x ← run_nodes now g.topo (record {
          nodes = g.nodes;
          store = reserve_outputs g.nodes store;
          monitor = monitor;
          modules = [];
          busy = 0;
          reads = 1;
        })
        returns (record {
          graph = record g { nodes = x.nodes };
          store = x.store;
          monitor = report_run_summary (now x.reads - now 0) 1 x;
          error = none;
        }))

  unfoldable pub execute :
      (ℕ → ℕ) → ComputeGraph S F → TensorStore S F → Option (List Event) → Outcome (Executed S F)
  unfolding finalize reset_run_state execute_nodes
  execute now g store monitor =
      let (h, error) = if g.finalized then (g, none) else finalize g in
      elim error [
        | some e ↦ returns (record { graph = h; store = store; monitor = monitor; error = some e })
        | none ↦ execute_nodes now (record h { nodes = reset_run_state h.nodes }) store monitor
      ]
