-- ===== src/Dag/Executor/Returns.antt =====
-- Execute returns: a run has at most three steps for each node, it does not get stuck before its
-- promise is fulfilled, and the promise is fulfilled once, when all nodes are over.
use lark.Base.{
  ℕ, ◌*◌, ◌≤◌, ◌<◌, ◌≡◌, ◌↔◌, ◌⊎◌, refl, Bool-cases, inl, inr, Option, List, [], ◌∷◌, Text,
  text_dec, length, get_elem?_of_lt, arith, dec_lt, ℕ_discrete,
}
use lark.Base.Dict.{contains}
use lark.Base.Int.{pos}
use lark.Metric.{Event}
use lark.Dag.Digraph.{Has, Edge, IsOrdered}
use lark.Dag.Search.Decide.{cycle_or_order}
use lark.Dag.Graph.{NodeDef, Graph, deps_of}
use lark.Dag.Graph.Build.{IsBuilt}
use lark.Dag.Executor.{
  NodeCode, Stage, idle, waiting, inside, over, Execution, skip_node, spawn_node, begin_node,
  finish_node, start_execution, Step, skips, spawns, begins, finishes, Steps,
}
use lark.Dag.Executor.Counter.{is_over, is_over_le, sum_full, sum_all, IsCounted}
use lark.Dag.Executor.Ranks.{ranks_start, Steps-IsRun, start-IsRun}
use lark.Dag.Executor.Finish.{IsRun}

Stage-cases : (p : Stage) → (p ≡ idle) ⊎ ((p ≡ waiting) ⊎ ((p ≡ inside) ⊎ (p ≡ over)))
Stage-cases idle = inl refl
Stage-cases waiting = inr (inl refl)
Stage-cases inside = inr (inr (inl refl))
Stage-cases over = inr (inr (inr refl))

is_over-over : (p : Stage) → is_over p ≡ 1 → p ≡ over
is_over-over idle h = absurd (omega arith)
is_over-over waiting h = absurd (omega arith)
is_over-over inside h = absurd (omega arith)
is_over-over over h = refl

module _ {D : Type 0} (g : Graph (NodeCode D)) (disabled : List Text) where
  -- A node whose dependencies are over can go on until it is over.
  next_of :
      (s : Execution D) (v : ℕ)
      → IsRun g disabled s
      → v < length g.nodes
      → v < s.spawned
      → ((d : ℕ) → Edge (deps_of g) v d → s.stage d ≡ over)
      → (s.stage v ≡ over) ⊎ ((t : Execution D) × Step g disabled s t)
  next_of s v r lt early deps_over =
      let (node, at) = get_elem?_of_lt g.nodes v lt in
      elim (Stage-cases (s.stage v)) [
        | inl e ↦ absurd (r.begun v early e)
        | inr (inl e) ↦ inr (begin_node (pos 0) node v s, begins v node (pos 0) at e deps_over)
        | inr (inr (inl e)) ↦ inr (finish_node (pos 0) node v s, finishes v node (pos 0) at e)
        | inr (inr (inr e)) ↦ inl e
      ]

  -- Through an order of the nodes from its end, when all are spawned.
  scan :
      (s : Execution D) (order : List ℕ)
      → IsRun g disabled s
      → ((u v : ℕ) → Edge (deps_of g) u v → v < length g.nodes)
      → length g.nodes ≤ s.spawned
      → IsOrdered (deps_of g) order
      → ((v : ℕ) → Has v order → v < length g.nodes → s.stage v ≡ over)
        ⊎ ((t : Execution D) × Step g disabled s t)
  unfolding contains
  scan s [] r in_range all o = inl (λ v h lt. cc)
  scan s (x ∷ xs) r in_range all o = elim (scan s xs r in_range all o.2) [
    | inr next ↦ inr next
    | inl rest ↦ elim (dec_lt x (length g.nodes)) [
      | no ge ↦ inl (λ v h lt. rest v (ground (arith, h, lt, ge)) lt)
      | yes lt ↦
          elim (next_of s x r lt (omega (arith, all, lt))
            (λ d e. rest d (o.0 d e) (in_range x d e))) [
              | inr next ↦ inr next
              | inl done ↦ inl (λ v h lt'. elim (ℕ_discrete v x) [
                | yes e ↦ rw e done
                | no ne ↦ rest v (ground (arith, h, ne)) lt'
              ])
            ]
    ]
  ]

  abbrev pub AllOver : Execution D → Type 0
  AllOver s = (v : ℕ) → v < length g.nodes → s.stage v ≡ over

  -- As long as a node is not over, there is a next step.
  over_or_next :
      (defs : List NodeDef) (s : Execution D)
      → IsBuilt defs g
      → IsRun g disabled s
      → AllOver s ⊎ ((t : Execution D) × Step g disabled s t)
  over_or_next defs s b r = elim (dec_lt s.spawned (length g.nodes)) [
    | yes lt ↦
        let (node, at) = get_elem?_of_lt g.nodes s.spawned lt in
        elim (Bool-cases (contains text_dec node.id disabled)) [
          | inl off ↦ inr (skip_node node s.spawned s, skips node at off)
          | inr on ↦ inr (spawn_node s.spawned s, spawns node at on)
        ]
    | no ge ↦ elim (cycle_or_order (deps_of g) (length g.nodes) b.in_range) [
      | inr (v, walk) ↦ absurd (b.acyclic v walk)
      | inl (order, ordered, covers) ↦
          elim (scan s order r b.in_range (omega (arith, ge)) ordered) [
            | inr next ↦ inr next
            | inl all ↦ inl (λ v lt. all v (covers v lt) lt)
          ]
    ]
  ]

  -- The promise is fulfilled exactly when all nodes are over.
  signals_lem :
      (s : Execution D)
      → IsCounted (length g.nodes) s
      → (s.signals ≤ 1) × ((s.signals ≡ 1) ↔ AllOver s)
  signals_lem s c =
      let bits : (j : ℕ) → is_over (s.stage j) ≤ 1 = λ j. is_over_le (s.stage j) in
      (
        ground (arith, c.signalled),
        (
          λ h.
              let none_left : s.left ≡ 0 = ground (arith, c.signalled, h) in
              λ v lt. is_over-over (s.stage v) (
                sum_full (length g.nodes) (λ j. is_over (s.stage j)) bits
                  (omega (arith, none_left, c.counted)) v lt),
          λ h.
              let full =
                sum_all (length g.nodes) (λ j. is_over (s.stage j)) (λ j lt. rw (h j lt) refl) in
              let none_left : s.left ≡ 0 = omega (arith, full, c.counted) in
              ground (arith, c.signalled, none_left),
        ),
      )

  -- Execute on a graph that Build returned, with any nodes disabled, whatever the order in which
  -- the pools take the steps: it has at most three steps for each node; the promise that Execute
  -- waits for is fulfilled at most once, and is so exactly when all nodes are over; and until then
  -- there is a next step.
  pub execute_returns :
      (defs : List NodeDef) (d : D) (m : Option (List Event)) (k : ℕ) (t : Execution D)
      → IsBuilt defs g
      → 0 < length g.nodes
      → Steps g disabled (start_execution (length g.nodes) d m) k t
      → (k ≤ 3 * length g.nodes)
        × (t.signals ≤ 1)
        × ((t.signals ≡ 1) ↔ AllOver t)
        × ((t.signals ≡ 1) ⊎ ((u : Execution D) × Step g disabled t u))
  execute_returns defs d m k t b positive steps =
      let start = start_execution (length g.nodes) d m in
      let (r, few) = Steps-IsRun g disabled k start (start-IsRun g disabled d m positive) steps in
      let (once, iff) = signals_lem t r.counted in
      (
        omega (arith, few, ranks_start (length g.nodes)),
        once,
        iff,
        elim (over_or_next defs t b r) [ inl all ↦ inl (iff.1 all) | inr next ↦ inr next ],
      )
