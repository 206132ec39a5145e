-- ===== src/Dag/Kahn/Sorted.antt =====
-- An order in which every node stands behind its dependencies has every node once
-- (dag/include/dag/graph.h, column/src/column/exec/compute_graph.cpp).
use lark.Base.{ℕ, ◌≡◌, ap, ◌∙◌, false, List, [], ◌∷◌, arith, ℕ_discrete, Bool-cases, inl, inr}
use lark.Base.Dict.{contains, Distinct}
use lark.Dag.Digraph.{Has}
use lark.Dag.Kahn.Order.{IsSorted}

module _ (deps : ℕ → List ℕ) where
  sorted-fresh :
      (seen xs : List ℕ) (y : ℕ)
      → IsSorted deps seen xs
      → Has y xs
      → contains ℕ_discrete y seen ≡ false
  unfolding contains
  sorted-fresh seen [] y s h = cc
  sorted-fresh seen (x ∷ xs) y s h = elim (ℕ_discrete y x) [
    | yes e ↦ ap (λ z. contains ℕ_discrete z seen) e ∙ s.1
    | no ne ↦ let later = sorted-fresh (x ∷ seen) xs y s.2 (ground arith) in ground (arith, later)
  ]

  pub sorted-Distinct : (seen xs : List ℕ) → IsSorted deps seen xs → Distinct ℕ_discrete xs
  unfolding contains
  sorted-Distinct seen [] s = tt
  sorted-Distinct seen (x ∷ xs) s =
      let absent : contains ℕ_discrete x xs ≡ false = elim (Bool-cases (contains ℕ_discrete x xs)) [
        | inl there ↦ absurd (ground (arith, sorted-fresh (x ∷ seen) xs x s.2 there))
        | inr gone ↦ gone
      ] in
      (absent, sorted-Distinct (x ∷ seen) xs s.2)
