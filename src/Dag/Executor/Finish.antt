-- ===== src/Dag/Executor/Finish.antt =====
-- What every state of a run of Execute keeps: the counter, how far the loop is, and that a node
-- runs only after all that it depends on is over.
use lark.Base.{
  ℕ, ◌≤◌, ◌<◌, ◌≡◌, ◌≢◌, refl, Bool-cases, Option-cases, inl, inr, List, Text, length,
  lt-length_of_get_elem?, arith, dec_lt, ℕ_discrete,
}
use lark.Base.Int.{ℤ}
use lark.Dag.Digraph.{Edge}
use lark.Dag.Graph.{Node, Graph, deps_of}
use lark.Dag.Executor.{
  NodeCode, idle, waiting, inside, over, Execution, complete, skip_node, spawn_node, begin_node,
  finish_node, Step, skips, spawns, begins, finishes,
}
use lark.Dag.Executor.Counter.{IsCounted, complete-IsCounted, same-IsCounted}

module _ {D : Type 0} (g : Graph (NodeCode D)) (disabled : List Text) where
  -- What every state of a run keeps.
  pub record IsRun (s : Execution D) : Type 0 where
    pub counted : IsCounted (length g.nodes) s
    pub spawned_le : s.spawned ≤ length g.nodes
    pub idle_later : (v : ℕ) → s.spawned ≤ v → s.stage v ≡ idle
    pub begun : (v : ℕ) → v < s.spawned → s.stage v ≢ idle
    pub met : (v d : ℕ) → s.stage v ≡ inside → Edge (deps_of g) v d → s.stage d ≡ over

  -- The parts of a state that the steps are about.
  pub record SameStages (s t : Execution D) : Type 0 where
    pub stage : t.stage ≡ s.stage
    left : t.left ≡ s.left
    signals : t.signals ≡ s.signals
    spawned : t.spawned ≡ s.spawned

  SameStages-IsRun : (s t : Execution D) → SameStages s t → IsRun s → IsRun t
  SameStages-IsRun s t e r = record {
    counted = same-IsCounted (length g.nodes) s t e.left e.signals (λ v. rw e.stage refl) r.counted;
    spawned_le = rw e.spawned r.spawned_le;
    idle_later = rw (e.spawned, e.stage) r.idle_later;
    begun = rw (e.spawned, e.stage) r.begun;
    met = rw e.stage r.met;
  }

  -- A node that has begun ends.
  complete-IsRun :
      (v : ℕ) (s : Execution D) → v < s.spawned → s.stage v ≢ over → IsRun s → IsRun (complete v s)
  unfolding complete
  complete-IsRun v s lt open_node r = record {
    counted =
        complete-IsCounted (length g.nodes) v s (omega (arith, r.spawned_le)) open_node r.counted;
    spawned_le = r.spawned_le;
    idle_later = λ u le. ground (arith, r.idle_later u le);
    begun = λ u h. ground (arith, r.begun u h);
    met = λ u d h e. ground (arith, r.met u d, h, e);
  }

  skip_node-IsRun :
      (node : Node (NodeCode D)) (s : Execution D)
      → s.spawned < length g.nodes
      → IsRun s
      → IsRun (skip_node node s.spawned s)
  unfolding skip_node complete
  skip_node-IsRun node s lt r =
      let first = r.idle_later s.spawned (omega arith) in
      record {
        counted =
            complete-IsCounted (length g.nodes) s.spawned _ lt (λ e. ground (arith, first, e))
              (record { counted = r.counted.counted; signalled = r.counted.signalled });
        spawned_le = omega arith;
        idle_later = λ u le. ground (arith, r.idle_later u (omega arith));
        begun = λ u h. elim (ℕ_discrete u s.spawned) [
          | yes e ↦ λ k. ground (arith, e, k)
          | no ne ↦ ground (arith, r.begun u (omega arith))
        ];
        met = λ u d h e. ground (arith, r.met u d, h, e, first);
      }

  spawn_node-IsRun :
      (s : Execution D) → s.spawned < length g.nodes → IsRun s → IsRun (spawn_node s.spawned s)
  unfolding spawn_node
  spawn_node-IsRun s lt r =
      let first = r.idle_later s.spawned (omega arith) in
      record {
        counted =
            same-IsCounted (length g.nodes) s (spawn_node s.spawned s) refl refl
              (λ v. ground (arith, first)) r.counted;
        spawned_le = omega arith;
        idle_later = λ u le. ground (arith, r.idle_later u (omega arith));
        begun = λ u h. elim (ℕ_discrete u s.spawned) [
          | yes e ↦ λ k. ground (arith, e, k)
          | no ne ↦ ground (arith, r.begun u (omega arith))
        ];
        met = λ u d h e. ground (arith, r.met u d, h, e, first);
      }

  begin_node-IsRun :
      (now : ℤ) (node : Node (NodeCode D)) (v : ℕ) (s : Execution D)
      → s.stage v ≡ waiting
      → ((d : ℕ) → Edge (deps_of g) v d → s.stage d ≡ over)
      → IsRun s
      → IsRun (begin_node now node v s)
  unfolding begin_node
  begin_node-IsRun now node v s wait deps_over r = record {
    counted =
        same-IsCounted (length g.nodes) s (begin_node now node v s) refl refl
          (λ u. ground (arith, wait)) r.counted;
    spawned_le = r.spawned_le;
    idle_later = λ u le. ground (arith, r.idle_later u le, wait);
    begun = λ u h. ground (arith, r.begun u h);
    met = λ u d h e. elim (ℕ_discrete u v) [
      | yes own ↦ ground (arith, deps_over d (rw own at e), wait)
      | no other ↦ ground (arith, r.met u d, h, e, wait, other)
    ];
  }

  -- finish_node records what the node did, and completes it.
  pub finish_node_lem :
      (elapsed : ℤ) (node : Node (NodeCode D)) (v : ℕ) (s : Execution D)
      → (s' : Execution D) × SameStages s s' × (finish_node elapsed node v s ≡ complete v s')
  unfolding finish_node
  finish_node_lem elapsed node v s = elim (Option-cases (node.behaviour.run s.data_of).1) [
    | inl fine ↦
        rw (fine, finish_node)
          (_, record { stage = refl; left = refl; signals = refl; spawned = refl }, refl)
    | inr (message, bad) ↦
        elim (Bool-cases (node.behaviour.degrade (node.behaviour.run s.data_of).0).1) [
          | inl e ↦
              rw (bad, finish_node, e)
                (_, record { stage = refl; left = refl; signals = refl; spawned = refl }, refl)
          | inr e ↦
              rw (bad, finish_node, e)
                (_, record { stage = refl; left = refl; signals = refl; spawned = refl }, refl)
        ]
  ]

  pub Step-IsRun : (s : Execution D) {t : Execution D} → IsRun s → Step g disabled s t → IsRun t
  Step-IsRun s r (skips node at off) =
      skip_node-IsRun node s (lt-length_of_get_elem? g.nodes s.spawned node at) r
  Step-IsRun s r (spawns node at on) =
      spawn_node-IsRun s (lt-length_of_get_elem? g.nodes s.spawned node at) r
  Step-IsRun s r (begins v node now at wait deps_over) =
      begin_node-IsRun now node v s wait deps_over r
  Step-IsRun s r (finishes v node elapsed at work) =
      let (s', same, e) = finish_node_lem elapsed node v s in
      let early : v < s.spawned = elim (dec_lt v s.spawned) [
        | yes lt ↦ lt
        | no ge ↦ absurd (ground (arith, r.idle_later v (omega arith), work))
      ] in
      rw e (
        complete-IsRun v s' (rw same.spawned early) (λ k. ground (arith, work, same.stage, k))
          (SameStages-IsRun s s' same r))
