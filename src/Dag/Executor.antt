-- ===== src/Dag/Executor.antt =====
-- Executor of dag/src/executor.cpp: Execute starts a coroutine for each node that is not disabled,
-- and waits until a counter of the nodes that are left reaches 0. A run is a sequence of steps, in
-- an order that the pools choose: of the thread that calls Execute, and of the coroutines. What a
-- node does between its suspensions is one step; `D` is what the context holds.
pub mod Counter
pub mod Finish
pub mod Ranks
pub mod Returns
pub mod Statuses
use mathlib.Core.Option
use lark.Base.{
  is_empty, ℕ, zero, suc, ◌<◌, ◌≡◌, ◌==◌, Bool, true, false, Option, none, some, List, [], ◌∷◌,
  ◌++◌, Text, text, text_dec, length, get_elem?, if◌then◌else◌,
}
use lark.Base.Decimal.{to_string}
use lark.Base.Dict.{assign, contains}
use lark.Base.Int.{ℤ, pos, negsuc, ltb_ℤ}
use lark.Base.Sums.{update}
use lark.Metric.{Event, event}
use lark.Dag.Digraph.{Edge}
use lark.Dag.Graph.{Node, Graph, deps_of}
use lark.Dag.Kahn.{decrement}

pub data NodeStatus : Type 0 where
  pending running success failed fallback skipped : NodeStatus

-- Run, with the text of the exception that it throws, and Fallback, which is false where it throws.
pub record NodeCode (D : Type 0) : Type 0 where
  pub run : D → D × Option Text
  pub degrade : D → D × Bool

-- Before SpawnNode, waiting for dependencies, in Run, and after `done_event().Set()`.
pub data Stage : Type 0 where
  idle waiting inside over : Stage

-- `spawned` is how far the loop of Execute is; `signals` counts the calls of `done.set_value()`;
-- `started` is `started_at_`.
pub record Execution (D : Type 0) : Type 0 where
  pub spawned : ℕ
  pub stage : ℕ → Stage
  pub status : ℕ → NodeStatus
  pub started : ℕ → ℤ
  pub left : ℕ
  pub signals : ℕ
  pub data_of : D
  pub monitor : Option (List Event)

abbrev pub attr_if : Bool → Text → Text → List (Text × Text) → List (Text × Text)
attr_if b key value attrs = if b then assign text_dec key value attrs else attrs

unfoldable pub node_event : {N : Type 0} → Node N → Text → Text → ℤ → ℤ → Text → Event
node_event node action status elapsed started error =
    let named =
      assign text_dec (text "status") status (assign text_dec (text "type") node.type_name []) in
    let timed =
      attr_if (if ltb_ℤ elapsed (pos 0) then false else true) (text "elapsed_ns")
        (to_string elapsed) named in
    let placed = assign text_dec (text "started_ns") (to_string started) timed in
    record (event (text "dag") action node.id) {
      attrs = attr_if (if is_empty error then false else true) (text "error") error placed;
      duration = elapsed;
      ok = is_empty error;
    }

abbrev pub tell : Event → Option (List Event) → Option (List Event)
tell e = Option.map (λ log. log ++ e ∷ [])

module _ {D : Type 0} where
  -- `done_event().Set()`, `fetch_sub` and `set_value()`.
  unfoldable pub complete : ℕ → Execution D → Execution D
  unfolding decrement
  complete v s = record s {
    stage = update s.stage v over;
    left = decrement s.left;
    signals = if s.left == 1 then suc s.signals else s.signals;
  }

  -- A round of the loop of Execute, on node `v`.
  unfoldable pub skip_node : Node (NodeCode D) → ℕ → Execution D → Execution D
  unfolding complete node_event
  skip_node node v s = complete v (record s {
    spawned = suc s.spawned;
    status = update s.status v skipped;
    monitor =
        tell (node_event node (text "node.skipped") (text "skipped") (pos 0) (s.started v) [])
          s.monitor;
  })

  unfoldable pub spawn_node : ℕ → Execution D → Execution D
  spawn_node v s = record s { spawned = suc s.spawned; stage = update s.stage v waiting }

  -- SpawnNode up to Run, at the time `now` since the start of the run.
  unfoldable pub begin_node : ℤ → Node (NodeCode D) → ℕ → Execution D → Execution D
  unfolding node_event
  begin_node now node v s = record s {
    stage = update s.stage v inside;
    status = update s.status v running;
    started = update s.started v now;
    monitor =
        tell (node_event node (text "node.start") (text "running") (negsuc 0) now []) s.monitor;
  }

  -- SpawnNode from Run on.
  unfoldable pub finish_node : ℤ → Node (NodeCode D) → ℕ → Execution D → Execution D
  unfolding complete node_event
  finish_node elapsed node v s =
      let (d, error) = node.behaviour.run s.data_of in
      let (d', recovered) = node.behaviour.degrade d in
      let at = s.started v in
      let report = λ (st : NodeStatus) (d'' : D) (e : Event).
        complete v
          (record s { status = update s.status v st; data_of = d''; monitor = tell e s.monitor }) in
      elim error [
        | none ↦
            report success d (node_event node (text "node.success") (text "success") elapsed at [])
        | some message ↦
            if recovered
            then report fallback d'
                (node_event node (text "node.fallback") (text "fallback") elapsed at [])
            else report failed d'
                (node_event node (text "node.failure") (text "failed") elapsed at message)
      ]

  -- Execute up to its loop, after ResetRunState; `n` is the number of nodes, which is not 0.
  abbrev pub start_execution : ℕ → D → Option (List Event) → Execution D
  start_execution n d monitor = record {
    spawned = 0;
    stage = λ v. idle;
    status = λ v. pending;
    started = λ v. pos 0;
    left = n;
    signals = 0;
    data_of = d;
    monitor = monitor;
  }

  module _ (g : Graph (NodeCode D)) (disabled : List Text) where
    pub data Step (s : Execution D) : Execution D → Type 0 where
      skips :
          (node : Node (NodeCode D))
          → get_elem? g.nodes s.spawned ≡ some node
          → contains text_dec node.id disabled ≡ true
          → Step s (skip_node node s.spawned s)
      spawns :
          (node : Node (NodeCode D))
          → get_elem? g.nodes s.spawned ≡ some node
          → contains text_dec node.id disabled ≡ false
          → Step s (spawn_node s.spawned s)
      begins :
          (v : ℕ) (node : Node (NodeCode D)) (now : ℤ)
          → get_elem? g.nodes v ≡ some node
          → s.stage v ≡ waiting
          → ((d : ℕ) → Edge (deps_of g) v d → s.stage d ≡ over)
          → Step s (begin_node now node v s)
      finishes :
          (v : ℕ) (node : Node (NodeCode D)) (elapsed : ℤ)
          → get_elem? g.nodes v ≡ some node
          → s.stage v ≡ inside
          → Step s (finish_node elapsed node v s)

    -- `k` steps.
    pub data Steps (s : Execution D) : ℕ → Execution D → Type 0 where
      here : Steps s 0 s
      then_ : {k : ℕ} {t u : Execution D} → Steps s k t → Step t u → Steps s (suc k) u
