-- ===== src/Dag/OpGraph/Compile.antt =====
-- OpGraph::Compile: a topological order of all ops, or an exception and then there is a cycle.
use lark.Base.{
  ℕ, ◌≤◌, ◌<◌, ◌≡◌, ◌==◌, ap, true, false, Option, none, some, List, [], length, text, arith,
  if◌then◌else◌, Bool-cases, inl, inr,
}
use lark.Base.Dict.{contains}
use lark.Base.Result.{Exception, runtime_error}
use lark.Dag.Digraph.{Edge, Walk}
use lark.Dag.Kahn.{kahn}
use lark.Dag.Kahn.Order.{KahnVerdict, sorted, stuck, kahn-KahnVerdict}
use lark.Dag.OpGraph.{OpGraph, compile}
use lark.Dag.OpGraph.Valid.{IsOrder, IsValid, no_edges}

module _ {D : Type 0} where
  -- The graph and the exception that Compile leaves.
  pub data CompileVerdict (g : OpGraph D) : OpGraph D × Option Exception → Type 0 where
    again : g.compiled ≡ true → IsOrder g.deps (length g.ops) g.order → CompileVerdict g (g, none)
    ordered :
        (order : List ℕ)
        → g.compiled ≡ false
        → IsOrder g.deps (length g.ops) order
        → CompileVerdict g (record g { order = order; compiled = true }, none)
    cyclic :
        (order : List ℕ) (v : ℕ)
        → g.compiled ≡ false
        → Walk g.deps v v
        → CompileVerdict g (
          record g { order = order },
          some (runtime_error (text "OpGraph: dependency cycle detected")),
        )

  -- What Compile does with the order.
  abbrev with_order : OpGraph D → Option (List ℕ) → OpGraph D × Option Exception
  with_order g o = elim o [
    | none ↦ (g, some (runtime_error (text "out of fuel")))
    | some order ↦
        if length order == length g.ops
        then (record g { order = order; compiled = true }, none)
        else (
          record g { order = order },
          some (runtime_error (text "OpGraph: dependency cycle detected")),
        )
  ]

  with_order-CompileVerdict :
      (g : OpGraph D) (in_range : (u v : ℕ) → Edge g.deps u v → v < length g.ops)
      (beyond : (u : ℕ) → length g.ops ≤ u → g.deps u ≡ []) {o : Option (List ℕ)}
      → g.compiled ≡ false
      → KahnVerdict g.deps (length g.ops) in_range beyond o
      → CompileVerdict g (with_order g o)
  with_order-CompileVerdict g in_range beyond new (sorted order s covers size) =
      let full : (length order == length g.ops) ≡ true = ground arith in
      rw full (ordered order new (record { sorted = s; covers = covers; size = size }))
  with_order-CompileVerdict g in_range beyond new (stuck order v short walk) =
      let missing : (length order == length g.ops) ≡ false = ground arith in
      rw missing (cyclic order v new walk)

  compile_again : (g : OpGraph D) → g.compiled ≡ true → compile g ≡ (g, none)
  unfolding compile
  compile_again g h = ground arith

  compile_new :
      (g : OpGraph D) → g.compiled ≡ false → compile g ≡ with_order g (kahn g.deps (length g.ops))
  unfolding compile
  compile_new g h = ap (λ b. if b then (g, none) else with_order g (kahn g.deps (length g.ops))) h

  -- Compile on a valid graph ends within the fuel of the model. A compiled graph is left as it is,
  -- and its order has each op exactly once and after all that it depends on; for another graph
  -- Compile makes such an order, or throws, and then some op depends on itself through others.
  pub compile-CompileVerdict : (g : OpGraph D) → IsValid g → CompileVerdict g (compile g)
  unfolding contains
  compile-CompileVerdict g v = elim (Bool-cases g.compiled) [
    | inl old ↦ rw (compile_again g old) (again old (v.ordered old))
    | inr new ↦
        let in_range : (u w : ℕ) → Edge g.deps u w → w < length g.ops =
          λ u w e. (v.in_range u w e).1 in
        let beyond : (u : ℕ) → length g.ops ≤ u → g.deps u ≡ [] =
          λ u le. no_edges (g.deps u) (λ w e. omega (arith, (v.in_range u w e).0)) in
        rw (compile_new g new) (
          with_order-CompileVerdict g in_range beyond new
            (kahn-KahnVerdict g.deps (length g.ops) in_range beyond))
  ]

  CompileVerdict-IsValid :
      (g : OpGraph D) (v : IsValid g) {r : OpGraph D × Option Exception}
      → CompileVerdict g r
      → IsValid r.0
  CompileVerdict-IsValid g v (again old o) = v
  CompileVerdict-IsValid g v (ordered order new o) = record {
    indexed = v.indexed;
    in_range = v.in_range;
    ordered = λ h. o;
  }
  CompileVerdict-IsValid g v (cyclic order w new walk) = record {
    indexed = v.indexed;
    in_range = v.in_range;
    ordered = λ h. absurd (ground (arith, new, h));
  }

  pub compile-IsValid : (g : OpGraph D) → IsValid g → IsValid (compile g).0
  compile-IsValid g v = CompileVerdict-IsValid g v (compile-CompileVerdict g v)
