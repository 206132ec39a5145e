-- ===== src/Column/Pipeline.antt =====
-- ExecutionContext (column/include/column/context/execution_context.h,
-- column/src/column/context/execution_context.cpp), and the feed and the fetch of Pipeline
-- (column/src/column/biz/pipeline.cpp). The clock is an argument.
pub mod Rows
use lark.Base.{
  ℕ, ◌+◌, ◌-◌, Bool, true, false, List, [], ◌∷◌, ◌++◌, Text, text, Option, none, some,
  if◌then◌else◌,
}
use lark.Base.Int.{pos}
use lark.Base.Result.{Result, done, throw, ◌>>=◌}
use lark.Metric.{Event, event}
use lark.Column.Numbers.{Floating}
use lark.Column.Tensor.{Tensor}
use lark.Column.Table.{TensorTable, empty_table}
use lark.Column.Store
use lark.Column.Store.{TensorStore, empty_store}
use lark.Column.Feed
use lark.Column.Feed.{Cell, Row, feed_table, fetch_rows}

pub data RunPhase : Type 0 where
  feed_phase compute_phase fetch_phase : RunPhase

abbrev pub same_phase : RunPhase → RunPhase → Bool
same_phase feed_phase feed_phase = true
same_phase compute_phase compute_phase = true
same_phase fetch_phase fetch_phase = true
same_phase _ _ = false

pub record ExecutionContext (S F : Type 0) : Type 0 where
  pub phase : RunPhase
  pub phase_elapsed : RunPhase → ℕ
  pub phase_start : ℕ
  pub phase_active : Bool
  pub feed : TensorTable S F
  pub fetch : TensorTable S F
  pub store : TensorStore S F

module _ {S F : Type 0} where
  unfoldable pub end_phase : ℕ → ExecutionContext S F → ExecutionContext S F
  end_phase now c =
      if c.phase_active
      then record c {
        phase_elapsed = λ p.
            if same_phase p c.phase
            then c.phase_elapsed p + (now - c.phase_start)
            else c.phase_elapsed p;
        phase_active = false;
      }
      else c

  -- The clock is read after the phase before has ended.
  unfoldable pub begin_phase : RunPhase → ℕ → ExecutionContext S F → ExecutionContext S F
  unfolding end_phase
  begin_phase p now c = record (end_phase now c) {
    phase = p;
    phase_start = now;
    phase_active = true;
  }

-- `ctx_`, and the events that `chaining_` was handed.
pub record Pipeline (S F : Type 0) : Type 0 where
  pub ctx : ExecutionContext S F
  pub log : List Event

module _ {S F : Type 0} where
  unfoldable pub notify : Text → Text → Pipeline S F → Pipeline S F
  notify action subject p = record p { log = p.log ++ event (text "column") action subject ∷ [] }

  unfoldable pub notify_end : RunPhase → Text → Text → Pipeline S F → Pipeline S F
  notify_end phase action subject p = record p {
    log =
        p.log
        ++ record (event (text "column") action subject) {
          duration = pos (p.ctx.phase_elapsed phase);
        }
          ∷ [];
  }

  -- `begin_phase` and the event of the start.
  unfoldable pub enter : RunPhase → Text → Text → ℕ → Pipeline S F → Pipeline S F
  unfolding begin_phase notify
  enter phase action subject now p =
      notify action subject (record p { ctx = begin_phase phase now p.ctx })

  unfoldable pub leave : RunPhase → Text → Text → ℕ → Pipeline S F → Pipeline S F
  unfolding end_phase notify_end
  leave phase action subject now p =
      notify_end phase action subject (record p { ctx = end_phase now p.ctx })

  -- The feed of a table. Its names are those of its columns, so add_table does not throw.
  unfoldable pub feed_into : ℕ → TensorTable S F → Pipeline S F → Pipeline S F × Result (Unit {0})
  unfolding leave
  feed_into later table p =
      let p' : Pipeline S F = record p {
        ctx = record p.ctx { feed = table; store = Store.clear p.ctx.store };
      } in
      elim (Store.add_table table (Store.clear p.ctx.store)) [
        | throw e ↦ (p', throw e)
        | done store ↦ (
          leave feed_phase (text "feed.end") (text "feed") later
              (record p' { ctx = record p'.ctx { store = store } }),
          done tt,
        )
      ]

  unfoldable pub feed_columns :
      ℕ → ℕ → TensorTable S F → Pipeline S F → Pipeline S F × Result (Unit {0})
  unfolding enter feed_into
  feed_columns now later table p =
      feed_into later table (enter feed_phase (text "feed.start") (text "feed") now p)

module _ {S F : Type 0} (m : Floating S F) where
  unfoldable pub feed_named :
      ℕ → ℕ → List Text → List (Row F) → Pipeline S F → Pipeline S F × Result (Unit {0})
  unfolding enter feed_into
  feed_named now later names rows p =
      let p' = enter feed_phase (text "feed.start") (text "feed") now p in
      elim (feed_table m names rows) [
        | throw e ↦ (p', throw e)
        | done table ↦ feed_into later table p'
      ]

  unfoldable pub fetch_named :
      ℕ → ℕ → List Text → Pipeline S F → Pipeline S F × Result (List (List (Option (Cell F))))
  unfolding enter leave
  fetch_named now later names p =
      let p' = enter fetch_phase (text "fetch.start") (text "fetch") now p in
      elim (Store.to_table p'.ctx.store names) [
        | throw e ↦ (p', throw e)
        | done table ↦
            let p'' : Pipeline S F = record p' { ctx = record p'.ctx { fetch = table } } in
            elim (fetch_rows m table names) [
              | throw e ↦ (p'', throw e)
              | done rows ↦
                  (leave fetch_phase (text "fetch.end") (text "fetch") later p'', done rows)
            ]
      ]

  -- The table is moved into the context, and what is left of it is returned.
  unfoldable pub fetch_table :
      ℕ → ℕ → List Text → Pipeline S F → Pipeline S F × Result (TensorTable S F)
  unfolding enter leave
  fetch_table now later names p =
      let p' = enter fetch_phase (text "fetch.start") (text "fetch") now p in
      elim (Store.to_table p'.ctx.store names) [
        | throw e ↦ (p', throw e)
        | done table ↦
            let p'' : Pipeline S F = record p' { ctx = record p'.ctx { fetch = table } } in
            (
              leave fetch_phase (text "fetch.end") (text "fetch") later p'',
              done (record { tensors = []; order = []; num_rows = table.num_rows }),
            )
      ]

  unfoldable pub fetch_scalar : ℕ → ℕ → Text → Pipeline S F → Pipeline S F × Result F
  unfolding enter leave Store.get Feed.fetch_scalar
  fetch_scalar now later name p =
      let p' = enter fetch_phase (text "fetch.start") (text "fetch") now p in
      elim (Store.get p'.ctx.store name) [
        | throw e ↦ (p', throw e)
        | done t ↦ (
          leave fetch_phase (text "fetch.end") (text "fetch") later p',
          done (Feed.fetch_scalar m t),
        )
      ]
