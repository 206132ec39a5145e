-- ===== src/Dag/Search/Decide.antt =====
-- The search decides: there is a cycle, or an order of all nodes in which each stands before its
-- dependencies.
use lark.Base.{ℕ, ◌<◌, ◌≢◌, ◌⊎◌, inl, inr, List, [], range, arith}
use lark.Base.Dict.{contains}
use lark.Dag.Digraph.{Has, Has-range_from, Edge, Walk, one, snoc, IsOrdered}
use lark.Dag.Search.{Mark, unvisited, Outcome, search_fuel}
use lark.Dag.Search.Invariant.{Inv}
use lark.Dag.Search.Correct.{Mark-cases, VerdictAll, all_acyclic, one_cyclic, visit_all-VerdictAll}

pub nothing_visited : (deps : ℕ → List ℕ) → Inv deps [] [] (λ v. unvisited)
unfolding contains
nothing_visited deps = record {
  ordered = tt;
  finished_iff = λ v. (λ e. cc, λ e. cc);
  in_stack_iff = λ v. (λ e. cc, λ e. cc);
  distinct = tt;
  links = tt;
}

pub Walk-end : {deps : ℕ → List ℕ} {u v : ℕ} → Walk deps u v → (w : ℕ) × Has v (deps w)
Walk-end {u} (one e) = (u, e)
Walk-end (snoc {v} walk e) = (v, e)

pub finished_at_end :
    (deps : ℕ → List ℕ) (order : List ℕ) (marks : ℕ → Mark) (v : ℕ)
    → Inv deps order [] marks
    → marks v ≢ unvisited
    → Has v order
unfolding contains
finished_at_end deps order marks v inv seen = elim (Mark-cases (marks v)) [
  | inl e ↦ absurd (seen e)
  | inr (inl e) ↦ ground (arith, inv.in_stack_iff v)
  | inr (inr e) ↦ ground (arith, inv.finished_iff v)
]

module _ (deps : ℕ → List ℕ) (n : ℕ) (in_range : (u v : ℕ) → Edge deps u v → v < n) where
  abbrev pub Decided : Type 0
  Decided =
      ((order : List ℕ) × IsOrdered deps order × ((v : ℕ) → v < n → Has v order))
      ⊎ ((v : ℕ) × Walk deps v v)

  decided : {o : Outcome} → VerdictAll deps n in_range (range n) (λ _. unvisited) o → Decided
  decided (all_acyclic order marks inv kept visited) = inl (
    order,
    inv.ordered,
    λ v lt.
        finished_at_end deps order marks v inv
          (visited v ((Has-range_from 0 n v).1 (omega arith) (omega arith))),
  )
  decided (one_cyclic v walk) = inr (v, walk)

  pub cycle_or_order : Decided
  cycle_or_order = decided (
      visit_all-VerdictAll deps n in_range (search_fuel deps n) (range n) [] (λ _. unvisited)
        (omega arith) (λ v h. omega (arith, (Has-range_from 0 n v).0 h)) (nothing_visited deps))
