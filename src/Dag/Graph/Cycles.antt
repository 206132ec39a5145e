-- ===== src/Dag/Graph/Cycles.antt =====
-- RejectCycles: the last pass tells the graphs with a cycle from those without.
use lark.Base.{ℕ, ◌<◌, [], text, length, range, arith}
use lark.Base.Result.{Result, done, throw, runtime_error}
use lark.Dag.Digraph.{Has, Has-range_from, Walk, not-Walk}
use lark.Dag.Search.{unvisited, Outcome, clear, cycle, out_of_fuel, search_fuel}
use lark.Dag.Search.Correct.{VerdictAll, all_acyclic, one_cyclic, visit_all-VerdictAll}
use lark.Dag.Graph.{Graph, quoted, name_of, deps_of, reject_cycles}
use lark.Dag.Search.Decide.{nothing_visited, Walk-end, finished_at_end}

module _ {N : Type 0} where
  -- What reject_cycles answers: nothing on a graph without a cycle, else an error that names a
  -- node on one.
  pub data Decision (g : Graph N) : Result (Unit {0}) → Type 0 where
    accepted : ((v : ℕ) → ¬ Walk (deps_of g) v v) → Decision g (done tt)
    rejected :
        (v : ℕ)
        → Walk (deps_of g) v v
        → Decision g (
            throw (
              runtime_error (
                quoted "GraphBuilder: dependency cycle detected involving node '"
                  (name_of g v)
                  "'")))

  -- How reject_cycles reads the outcome of the search.
  answer : Graph N → Outcome → Result (Unit {0})
  answer g o = elim o [
    | clear _ ↦ done tt
    | cycle v ↦ throw (
        runtime_error
          (quoted "GraphBuilder: dependency cycle detected involving node '" (name_of g v) "'"))
    | out_of_fuel ↦ throw (runtime_error (text "out of fuel"))
  ]

  answer-Decision :
      (g : Graph N) (in_range : (u v : ℕ) → Has v (deps_of g u) → v < length g.nodes) {o : Outcome}
      → VerdictAll (deps_of g) (length g.nodes) in_range (range (length g.nodes)) (λ _. unvisited) o
      → Decision g (answer g o)
  unfolding answer
  answer-Decision g in_range (all_acyclic order marks inv kept visited) = accepted (λ v walk.
      let (u, edge) = Walk-end walk in
      let starts =
        (Has-range_from 0 (length g.nodes) v).1 (omega arith) (omega (arith, in_range u v edge)) in
      not-Walk (deps_of g) order v inv.ordered
        (finished_at_end (deps_of g) order marks v inv (visited v starts)) walk)
  answer-Decision g in_range (one_cyclic v walk) = rejected v walk

  -- On a graph whose dependencies are its own nodes, RejectCycles ends within the fuel of the
  -- model: it accepts only if no node is on a cycle of dependencies, and the node that its error
  -- names is on one.
  pub reject_cycles-Decision :
      (g : Graph N)
      → ((u v : ℕ) → Has v (deps_of g u) → v < length g.nodes)
      → Decision g (reject_cycles g)
  unfolding reject_cycles answer
  reject_cycles-Decision g in_range = answer-Decision g in_range (
      visit_all-VerdictAll (deps_of g) (length g.nodes) in_range
        (search_fuel (deps_of g) (length g.nodes)) (range (length g.nodes)) [] (λ _. unvisited)
        (omega arith) (λ v h. omega (arith, (Has-range_from 0 (length g.nodes) v).0 h))
        (nothing_visited (deps_of g)))
