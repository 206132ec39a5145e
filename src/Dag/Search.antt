-- ===== src/Dag/Search.antt =====
-- The depth-first search of GraphBuilder::RejectCycles (dag/src/graph_builder.cpp). `deps v` are
-- the dependencies of node `v`, in order; the stack has its top first.
pub mod Measure
pub mod Invariant
pub mod Correct
pub mod Decide
use lark.Base.{ℕ, zero, suc, ◌+◌, none, some, List, [], ◌∷◌, length, get_elem?}
use lark.Base.Sums.{update, sum_below}

pub data Mark : Type 0 where
  unvisited in_stack finished : Mark

-- The marks at the end, a node at which the search throws, or no fuel left.
pub data Outcome : Type 0 where
  clear : (ℕ → Mark) → Outcome
  cycle : ℕ → Outcome
  out_of_fuel : Outcome

module _ (deps : ℕ → List ℕ) where
  -- The `while` loop. An entry is a node and the index of its next dependency.
  unfoldable pub visit : ℕ → List (ℕ × ℕ) → (ℕ → Mark) → Outcome
  visit fuel [] marks = clear marks
  visit zero (_ ∷ _) marks = out_of_fuel
  visit (suc fuel) ((node, index) ∷ rest) marks = elim (get_elem? (deps node) index) [
    | none ↦ visit fuel rest (update marks node finished)
    | some next ↦ elim (marks next) [
      | in_stack ↦ cycle next
      | unvisited ↦ visit fuel ((next, 0) ∷ (node, suc index) ∷ rest) (update marks next in_stack)
      | finished ↦ visit fuel ((node, suc index) ∷ rest) marks
    ]
  ]

  -- The `for` loop over the nodes.
  unfoldable pub visit_all : ℕ → List ℕ → (ℕ → Mark) → Outcome
  unfolding visit
  visit_all fuel [] marks = clear marks
  visit_all fuel (start ∷ more) marks = elim (marks start) [
    | unvisited ↦ elim (visit fuel ((start, 0) ∷ []) (update marks start in_stack)) [
      | clear marks' ↦ visit_all fuel more marks'
      | cycle v ↦ cycle v
      | out_of_fuel ↦ out_of_fuel
    ]
    | _ ↦ visit_all fuel more marks
  ]

  -- A round advances an index, pushes a node that is not visited yet, or pops.
  unfoldable pub search_fuel : ℕ → ℕ
  unfolding sum_below
  search_fuel n = sum_below n (λ v. length (deps v) + 2)
