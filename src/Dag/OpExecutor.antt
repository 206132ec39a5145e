-- ===== src/Dag/OpExecutor.antt =====
-- OpExecutor of dag/src/op_executor.cpp. ExecuteAsync starts one coroutine for each op, which
-- waits for the futures of the op's dependencies, and then runs RunOp on a pool. A run is a
-- sequence of steps, in an order that the pool chooses: a step takes one op from its wait to its
-- execution, or to its end when it is skipped or a hook throws, and another one executes it. The
-- future of an op resolves with an error when a hook throws, since RunOp catches only what Execute
-- throws; AllOf and ThenAsync (coro/include/coro/future.h) pass the error on to the ops that depend
-- on it, which are not run. What an op does between its suspensions is one step; `D` is the shared
-- Context.
pub mod Safety
pub mod Progress
use mathlib.Core.Option
use lark.Base.{
  ℕ, suc, zero, ◌≡◌, ◌⊎◌, Bool, true, false, ◌||◌, ◌&&◌, Option, none, some, List, [], ◌∷◌, ◌++◌,
  Text, text, get_elem?, if◌then◌else◌,
}
use lark.Base.Int.{ℤ}
use lark.Base.Sums.{update}
use lark.Metric.{Event, event}
use lark.Dag.Digraph.{Edge}
use lark.Dag.OpGraph.{OpStatus, pending, running, success, skipped, failed, Op, OpAspect, OpGraph}

-- Where the coroutine of an op is. Its future is resolved at `over`; with an error at `threw`, after
-- a hook, and at `canceled`, where RunOp is not called.
pub data Phase : Type 0 where
  waiting inside over threw canceled : Phase

-- The future is resolved with an error.
abbrev pub HasFailed : Phase → Type 0
HasFailed p = (p ≡ threw) ⊎ (p ≡ canceled)

-- `status` is `status_`, which reads as pending where nothing is stored; `monitor` as in LocalCache.
pub record Run (D : Type 0) : Type 0 where
  pub phase : ℕ → Phase
  pub status : ℕ → OpStatus
  pub data_of : D
  pub monitor : Option (List Event)

abbrev pub emit_event : Event → Option (List Event) → Option (List Event)
emit_event e = Option.map (λ log. log ++ e ∷ [])

-- OpExecutor::Emit.
abbrev pub emit_op : Text → Text → Bool → Option (List Event) → Option (List Event)
emit_op action name ok = emit_event (record (event (text "dag") action name) { ok = ok })

module _ {D : Type 0} where
  -- The loop over ShouldSkip, up to the first that answers true or throws.
  unfoldable pub any_skips : List (OpAspect D) → Op D → D → Option Bool
  any_skips [] op d = some false
  any_skips (aspect ∷ aspects) op d =
      let rest = any_skips aspects op d in
      elim (aspect.should_skip op d) [ none ↦ none | some true ↦ some true | some false ↦ rest ]

  unfoldable pub all_before : List (OpAspect D) → Op D → D → D × Bool
  all_before [] op d = (d, true)
  all_before (aspect ∷ aspects) op d =
      let (d', returned) = aspect.on_before op d in
      let rest = all_before aspects op d' in if returned then rest else (d', false)

  unfoldable pub all_after : List (OpAspect D) → Op D → OpStatus → D → D × Bool
  all_after [] op st d = (d, true)
  all_after (aspect ∷ aspects) op st d =
      let (d', returned) = aspect.on_after op d st in
      let rest = all_after aspects op st d' in if returned then rest else (d', false)

  -- RunOp up to `co_await op->Execute(data)`.
  unfoldable pub begin_op : List (OpAspect D) → Op D → ℕ → Run D → Run D
  unfolding any_skips all_before
  begin_op aspects op v s =
      let started = emit_op (text "op.start") op.name true s.monitor in
      let (d, returned) = all_before aspects op s.data_of in
      elim (any_skips aspects op s.data_of) [
        | none ↦ record s {
          phase = update s.phase v threw;
          status = update s.status v running;
          monitor = started;
        }
        | some true ↦ record s {
          phase = update s.phase v over;
          status = update s.status v skipped;
          monitor = emit_op (text "op.skipped") op.name true started;
        }
        | some false ↦ record s {
          phase = update s.phase v (if returned then inside else threw);
          status = update s.status v running;
          data_of = d;
          monitor = started;
        }
      ]

  -- RunOp from there on; Execute took `elapsed` nanoseconds.
  unfoldable pub finish_op : ℤ → List (OpAspect D) → Op D → ℕ → Run D → Run D
  unfolding all_after
  finish_op elapsed aspects op v s =
      let (d, ok) = op.execute s.data_of in
      let st = if ok then success else failed in
      let (d', returned) = all_after aspects op st d in
      record {
        phase = update s.phase v (if returned then over else threw);
        status = update s.status v st;
        data_of = d';
        monitor =
            if returned
            then emit_event
                (record (event (text "dag") (if ok then text "op.end" else text "op.error")
                  op.name) { duration = elapsed; ok = ok })
                s.monitor
            else s.monitor;
      }

  -- ThenAsync where AllOf has resolved with an error.
  unfoldable pub cancel_op : ℕ → Run D → Run D
  cancel_op v s = record s { phase = update s.phase v canceled }

  -- The start of ExecuteAsync: the statuses are those of the executor's last run.
  abbrev pub start_run : (ℕ → OpStatus) → D → Option (List Event) → Run D
  start_run status d monitor = record {
    phase = λ v. waiting;
    status = status;
    data_of = d;
    monitor = monitor;
  }

  module _ (g : OpGraph D) where
    pub data Step (s : Run D) : Run D → Type 0 where
      begins :
          (v : ℕ) (op : Op D)
          → get_elem? g.ops v ≡ some op
          → s.phase v ≡ waiting
          → ((d : ℕ) → Edge g.deps v d → s.phase d ≡ over)
          → Step s (begin_op g.aspects op v s)
      finishes :
          (v : ℕ) (op : Op D) (elapsed : ℤ)
          → get_elem? g.ops v ≡ some op
          → s.phase v ≡ inside
          → Step s (finish_op elapsed g.aspects op v s)
      cancels :
          (v : ℕ) (op : Op D) (d : ℕ)
          → get_elem? g.ops v ≡ some op
          → s.phase v ≡ waiting
          → Edge g.deps v d
          → HasFailed (s.phase d)
          → Step s (cancel_op v s)

    -- `n` steps.
    pub data Steps (s : Run D) : ℕ → Run D → Type 0 where
      here : Steps s 0 s
      then_ : {n : ℕ} {t u : Run D} → Steps s n t → Step t u → Steps s (suc n) u
