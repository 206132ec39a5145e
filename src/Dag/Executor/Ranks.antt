-- ===== src/Dag/Executor/Ranks.antt =====
-- Every step of Execute leaves fewer steps before its end (dag/src/dag/executor.cpp).
use lark.Base.{
  ℕ, zero, suc, ◌+◌, ◌*◌, ◌≤◌, ◌<◌, ◌≡◌, refl, Option, List, Text, length, lt-length_of_get_elem?,
  arith,
}
use lark.Base.Sums.{update, sum_below, sum_below_change}
use lark.Metric.{Event}
use lark.Dag.Graph.{Graph}
use lark.Dag.Executor.{
  NodeCode, Stage, idle, waiting, inside, over, Execution, complete, skip_node, spawn_node,
  begin_node, start_execution, Step, skips, spawns, begins, finishes, Steps, here, then_,
}
use lark.Dag.Executor.Counter.{start-IsCounted}
use lark.Dag.Executor.Finish.{IsRun, finish_node_lem, Step-IsRun}

-- The steps that a node has before it.
abbrev pub rank : Stage → ℕ
rank idle = 3
rank waiting = 2
rank inside = 1
rank over = 0

pub ranks_start : (n : ℕ) → sum_below n (λ v. 3) ≡ 3 * n
unfolding sum_below
ranks_start zero = omega arith
ranks_start (suc n) = omega (arith, ranks_start n)

module _ {D : Type 0} (g : Graph (NodeCode D)) (disabled : List Text) where
  abbrev pub ranks : Execution D → ℕ
  ranks s = sum_below (length g.nodes) (λ v. rank (s.stage v))

  -- One node has gone on.
  ranks_less :
      (v : ℕ) (p : Stage) (s t : Execution D)
      → v < length g.nodes
      → rank p < rank (s.stage v)
      → ((u : ℕ) → t.stage u ≡ update s.stage v p u)
      → ranks t < ranks s
  ranks_less v p s t lt fewer m =
      let change =
        sum_below_change (length g.nodes) v (λ u. rank (t.stage u)) (λ u. rank (s.stage u)) lt
          (λ u ne. ground (arith, m u)) in
      let now : rank (t.stage v) ≡ rank p = ground (arith, m v) in omega (arith, change, now, fewer)

  pub Step-ranks :
      (s : Execution D) {t : Execution D}
      → IsRun g disabled s
      → Step g disabled s t
      → ranks t < ranks s
  unfolding skip_node complete spawn_node begin_node
  Step-ranks s r (skips node at off) =
      ranks_less s.spawned over s (skip_node node s.spawned s)
        (lt-length_of_get_elem? g.nodes s.spawned node at)
        (rw (r.idle_later s.spawned (omega arith)) (omega arith)) (λ u. refl)
  Step-ranks s r (spawns node at on) =
      ranks_less s.spawned waiting s (spawn_node s.spawned s)
        (lt-length_of_get_elem? g.nodes s.spawned node at)
        (rw (r.idle_later s.spawned (omega arith)) (omega arith)) (λ u. refl)
  Step-ranks s r (begins v node now at wait deps_over) =
      ranks_less v inside s (begin_node now node v s) (lt-length_of_get_elem? g.nodes v node at)
        (rw wait (omega arith)) (λ u. refl)
  Step-ranks s r (finishes v node elapsed at work) =
      let (s', same, e) = finish_node_lem g disabled elapsed node v s in
      rw e (
        ranks_less v over s (complete v s') (lt-length_of_get_elem? g.nodes v node at)
          (rw work (omega arith)) (λ u. rw same.stage refl))

  pub Steps-IsRun :
      (k : ℕ) (s : Execution D) {t : Execution D}
      → IsRun g disabled s
      → Steps g disabled s k t
      → IsRun g disabled t × (k + ranks t ≤ ranks s)
  Steps-IsRun zero s r here = (r, omega arith)
  Steps-IsRun (suc k) s r (then_ {t = t} steps step) =
      let (before, less) = Steps-IsRun k s r steps in
      (Step-IsRun g disabled t before step, omega (arith, less, Step-ranks t before step))

  pub start-IsRun :
      (d : D) (m : Option (List Event))
      → 0 < length g.nodes
      → IsRun g disabled (start_execution (length g.nodes) d m)
  start-IsRun d m positive = record {
    counted = start-IsCounted (length g.nodes) d m positive;
    spawned_le = omega arith;
    idle_later = λ v le. refl;
    begun = λ v lt. absurd (omega arith);
    met = λ v w h e. cc;
  }
