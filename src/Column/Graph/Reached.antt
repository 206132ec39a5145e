-- ===== src/Column/Graph/Reached.antt =====
-- The ComputeGraphs that a sequence of calls builds, exceptions included. A new node's address is
-- not that of a node in the graph.
use lark.Base.{
  ℕ, ◌≡◌, true, false, Option, List, [], Text, text, refl, Bool, arith, ℕ_discrete, Option-cases,
  inl, inr,
}
use lark.Base.Dict.{contains}
use lark.Base.Result.{Exception}
use lark.Dag.Digraph.{Has, Walk, not-Walk}
use lark.Dag.Search.Decide.{Walk-end}
use lark.Dag.Kahn.Correct.{onto}
use lark.Dag.Kahn.Order.{onto-IsOrdered, contains-onto}
use lark.Column.Graph.{
  NodeOp, ComputeGraph, empty_graph, add_node, add_placeholder, placeholder_op, find,
  replace_placeholder, add_dependency, finalize,
}
use lark.Column.Graph.Nodes.{addresses, deps_of}
use lark.Column.Graph.Wired.{IsWired, empty-IsWired, add_node-IsWired, add_dependency-IsWired}
use lark.Column.Graph.Replace.{
  Replacement, unknown_placeholder, unknown_node, same_node, replaced,
  replace_placeholder-Replacement, replace_placeholder-IsWired,
}
use lark.Column.Graph.Finalize.{IsTopo, Finalized, ordered, cyclic, finalize-Finalized}

module _ {S F : Type 0} where
  abbrev pub Fresh : ComputeGraph S F → ℕ → Type 0
  Fresh g a = contains ℕ_discrete a (addresses g.nodes) ≡ false

  pub data Step (g : ComputeGraph S F) : ComputeGraph S F → Type 0 where
    adds :
        (a : ℕ) (id module_name : Text) (op : NodeOp S F)
        → Fresh g a
        → Step g (add_node a id module_name op g)
    stands_in : (a : ℕ) (output id : Text) → Fresh g a → Step g (add_placeholder a output id g)
    replaces : (p r : Text) → Step g (replace_placeholder p r g).0
    depends : (id dep_id : Text) → Step g (add_dependency id dep_id g).0
    finalizes : Step g (finalize g).0

  pub data Reached : ComputeGraph S F → Type 0 where
    start : Reached empty_graph
    next : {g h : ComputeGraph S F} → Reached g → Step g h → Reached h

  -- Wired, and sorted if it says so.
  abbrev pub IsSound : ComputeGraph S F → Type 0
  IsSound g = IsWired g × (g.finalized ≡ true → IsTopo g g.topo)

  -- A graph with an order of its nodes has no cycle.
  no_cycle :
      (g : ComputeGraph S F) (order : List ℕ) (a : ℕ)
      → IsWired g
      → IsTopo g order
      → Walk (deps_of g.nodes) a a
      → ⊥
  unfolding contains
  no_cycle g order a w t walk =
      let (u, edge) = Walk-end walk in
      let there : Has a order = (t.covers a).1 (w.inside u a edge) in
      let listed : Has a (onto order []) = ground (arith, contains-onto a order [], there) in
      not-Walk (deps_of g.nodes) (onto order []) a
        (onto-IsOrdered (deps_of g.nodes) order [] t.sorted tt) listed walk

  stale-IsSound : (g : ComputeGraph S F) → IsWired g → g.finalized ≡ false → IsSound g
  stale-IsSound g w e = (w, λ h. absurd (ground (arith, e, h)))

  -- Finalize changes the order alone.
  module _ (g : ComputeGraph S F) where
    abbrev with_topo : List ℕ → Bool → ComputeGraph S F
    with_topo order b = record g { topo = order; finalized = b }

    with_topo-IsWired : (w : IsWired g) (order : List ℕ) (b : Bool) → IsWired (with_topo order b)
    unfolding find
    with_topo-IsWired w order b = record {
      distinct = w.distinct;
      named = w.named;
      inside = w.inside;
      single = w.single;
    }

    with_topo-IsTopo :
        (order topo : List ℕ) (b : Bool) → IsTopo g order → IsTopo (with_topo topo b) order
    with_topo-IsTopo order topo b t = record { sorted = t.sorted; covers = t.covers; size = t.size }

  Finalized-IsSound :
      {g : ComputeGraph S F} {r : ComputeGraph S F × Option Exception}
      → IsSound g
      → Finalized g r
      → IsSound r.0
  Finalized-IsSound {g} s (ordered order t) =
      (with_topo-IsWired g s.0 order true, λ h. with_topo-IsTopo g order order true t)
  Finalized-IsSound {g} s (cyclic order a walk) = (
    with_topo-IsWired g s.0 order g.finalized,
    λ h. absurd (no_cycle g g.topo a s.0 (s.1 h) walk),
  )

  Replacement-IsSound :
      {g : ComputeGraph S F} {p r : Text} {o : ComputeGraph S F × Option Exception}
      → IsSound g
      → IsWired o.0
      → Replacement g p r o
      → IsSound o.0
  Replacement-IsSound s w (unknown_placeholder lost) = s
  Replacement-IsSound s w (unknown_node a h lost) = s
  Replacement-IsSound s w (same_node a h k) = s
  Replacement-IsSound s w (replaced a b {h} from to ne t) = stale-IsSound h w t.stale

  add_dependency-IsSound :
      (g : ComputeGraph S F) (id dep_id : Text) → IsSound g → IsSound (add_dependency id dep_id g).0
  unfolding add_dependency
  add_dependency-IsSound g id dep_id s =
      let w = add_dependency-IsWired g s.0 id dep_id in
      elim (Option-cases (find g id)) [
        | inl lost ↦ rw (lost, add_dependency) s
        | inr (a, h) ↦ elim (Option-cases (find g dep_id)) [
          | inl lost ↦ rw (h, add_dependency) (rw (lost, add_dependency) s)
          | inr (d, k) ↦ (w, λ e. absurd (ground (arith, h, k, e)))
        ]
      ]

  Step-IsSound : {g h : ComputeGraph S F} → Step g h → IsSound g → IsSound h
  unfolding add_placeholder add_node
  Step-IsSound {g} (adds a id module_name op fresh) s =
      (add_node-IsWired g s.0 a id module_name op fresh, λ h. cc)
  Step-IsSound {g} (stands_in a output id fresh) s =
      (add_node-IsWired g s.0 a id (text "@placeholder") (placeholder_op output) fresh, λ h. cc)
  Step-IsSound {g} (replaces p r) s =
      Replacement-IsSound s (replace_placeholder-IsWired g s.0 p r)
        (replace_placeholder-Replacement g p r)
  Step-IsSound {g} (depends id dep_id) s = add_dependency-IsSound g id dep_id s
  Step-IsSound {g} finalizes s = Finalized-IsSound s (finalize-Finalized g s.0)

  -- After any calls on a new graph, in any order and whether they throw or not: no two nodes are
  -- one; each name leads to a node with that name; what a node depends on are nodes of the graph,
  -- none of them twice; and where the graph says that it is finalized, its order has every node
  -- exactly once, each after all that it depends on.
  pub Reached-IsSound : {g : ComputeGraph S F} → Reached g → IsSound g
  Reached-IsSound start = stale-IsSound empty_graph empty-IsWired refl
  Reached-IsSound (next r step) = Step-IsSound step (Reached-IsSound r)
