-- ===== src/Dag/Executor/Statuses.antt =====
-- The statuses that a run of Execute gives to its nodes (dag/src/executor.cpp).
use lark.Base.{
  ℕ, zero, suc, ◌≡◌, ◌≢◌, ◌⊎◌, refl, Bool, true, false, Bool-cases, Option-cases, inl, inr, Option,
  some, List, Text, text_dec, length, get_elem?, arith, ℕ_discrete, ◌<◌,
}
use lark.Base.Dict.{contains}
use lark.Base.Int.{ℤ}
use lark.Metric.{Event}
use lark.Dag.Digraph.{Edge}
use lark.Dag.Graph.{Node, Graph, deps_of}
use lark.Dag.Executor.{
  NodeStatus, running, success, fallback, skipped, failed, NodeCode, Stage, idle, waiting, inside,
  over, Execution, complete, skip_node, spawn_node, begin_node, finish_node, start_execution, Step,
  skips, spawns, begins, finishes, Steps, here, then_,
}
use lark.Dag.Executor.Ranks.{Steps-IsRun, start-IsRun}

-- Whether a node is disabled, where it is, and its status.
abbrev pub Fits : Bool → Stage → NodeStatus → Type 0
Fits off idle st = Unit {0}
Fits off waiting st = off ≡ false
Fits off inside st = (off ≡ false) × (st ≡ running)
Fits true over st = st ≡ skipped
Fits false over st = (st ≡ success) ⊎ (st ≡ fallback) ⊎ (st ≡ failed)

module _ {D : Type 0} (g : Graph (NodeCode D)) (disabled : List Text) where
  abbrev pub is_off : Node (NodeCode D) → Bool
  is_off node = contains text_dec node.id disabled

  abbrev pub AllFit : Execution D → Type 0
  AllFit s =
      (u : ℕ) (node : Node (NodeCode D))
      → get_elem? g.nodes u ≡ some node
      → Fits (is_off node) (s.stage u) (s.status u)

  -- A step changes one node.
  changed-AllFit :
      (v : ℕ) (node : Node (NodeCode D)) (s t : Execution D)
      → get_elem? g.nodes v ≡ some node
      → AllFit s
      → ((u : ℕ) → u ≢ v → (t.stage u ≡ s.stage u) × (t.status u ≡ s.status u))
      → Fits (is_off node) (t.stage v) (t.status v)
      → AllFit t
  changed-AllFit v node s t at fit same own u other there = elim (ℕ_discrete u v) [
    | no ne ↦ rw (same u ne).0 (rw (same u ne).1 (fit u other there))
    | yes e ↦ let same_node : other ≡ node = ground (arith, there, at, e) in rw e (rw same_node own)
  ]

  finish_node-Fits :
      (elapsed : ℤ) (node : Node (NodeCode D)) (v : ℕ) (s : Execution D)
      → is_off node ≡ false
      → Fits
          (is_off node)
          ((finish_node elapsed node v s).stage v)
          ((finish_node elapsed node v s).status v)
        × ((u : ℕ)
            → u ≢ v
            → ((finish_node elapsed node v s).stage u ≡ s.stage u)
              × ((finish_node elapsed node v s).status u ≡ s.status u))
  unfolding finish_node complete
  finish_node-Fits elapsed node v s on = elim (Option-cases (node.behaviour.run s.data_of).1) [
    | inl fine ↦
        rw (fine, finish_node)
          (rw on (ground arith), λ u ne. (ground (arith, ne), ground (arith, ne)))
    | inr (message, bad) ↦
        elim (Bool-cases (node.behaviour.degrade (node.behaviour.run s.data_of).0).1) [
          | inl e ↦
              rw (bad, finish_node, e)
                (rw on (ground arith), λ u ne. (ground (arith, ne), ground (arith, ne)))
          | inr e ↦
              rw (bad, finish_node, e)
                (rw on (ground arith), λ u ne. (ground (arith, ne), ground (arith, ne)))
        ]
  ]

  Step-AllFit : (s : Execution D) {t : Execution D} → AllFit s → Step g disabled s t → AllFit t
  unfolding skip_node complete spawn_node begin_node
  Step-AllFit s fit (skips node at off) =
      changed-AllFit s.spawned node s (skip_node node s.spawned s) at fit
        (λ u ne. (ground (arith, ne), ground (arith, ne))) (rw off (ground arith))
  Step-AllFit s fit (spawns node at on) =
      changed-AllFit s.spawned node s (spawn_node s.spawned s) at fit
        (λ u ne. (ground (arith, ne), refl)) (ground (arith, on))
  Step-AllFit s fit (begins v node now at wait deps_over) =
      let on : is_off node ≡ false = rw wait at (fit v node at) in
      changed-AllFit v node s (begin_node now node v s) at fit
        (λ u ne. (ground (arith, ne), ground (arith, ne))) (ground (arith, on))
  Step-AllFit s fit (finishes v node elapsed at work) =
      let (on, was) : (is_off node ≡ false) × (s.status v ≡ running) = rw work at (fit v node at) in
      let (own, same) = finish_node-Fits elapsed node v s on in
      changed-AllFit v node s (finish_node elapsed node v s) at fit same own

  Steps-AllFit :
      (k : ℕ) (s : Execution D) {t : Execution D} → AllFit s → Steps g disabled s k t → AllFit t
  Steps-AllFit zero s fit here = fit
  Steps-AllFit (suc k) s fit (then_ {t = t} steps step) =
      Step-AllFit t (Steps-AllFit k s fit steps) step

  -- In every state that Execute reaches, whatever the order of the steps, a node that is in Run has
  -- the status running and is not disabled, and all that it depends on is over: a dependency that
  -- is disabled has the status skipped, and another one success, fallback or failed.
  pub runs_after_dependencies :
      (d : D) (m : Option (List Event)) (k : ℕ) (t : Execution D) (v u : ℕ)
      (node dep : Node (NodeCode D))
      → 0 < length g.nodes
      → Steps g disabled (start_execution (length g.nodes) d m) k t
      → get_elem? g.nodes v ≡ some node
      → get_elem? g.nodes u ≡ some dep
      → t.stage v ≡ inside
      → Edge (deps_of g) v u
      → Fits (is_off node) inside (t.status v)
        × (t.stage u ≡ over)
        × Fits (is_off dep) over (t.status u)
  runs_after_dependencies d m k t v u node dep positive steps is_node is_dep work edge =
      let start = start_execution (length g.nodes) d m in
      let (r, few) = Steps-IsRun g disabled k start (start-IsRun g disabled d m positive) steps in
      let fit = Steps-AllFit k start (λ w other there. tt) steps in
      let done = r.met v u work edge in
      (rw work at (fit v node is_node), done, rw done at (fit u dep is_dep))
