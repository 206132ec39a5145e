-- ===== src/Column/Graph/Rewire.antt =====
-- ReplaceDependency on the list of dependencies: sorted, without repetition, and the same nodes but
-- for the one that is replaced.
use lark.Base.{
  ℕ, ◌≡◌, ◌==◌, refl, ◌∙◌, Bool, true, false, ◌||◌, if◌then◌else◌, leb, List, [], ◌∷◌, map, arith,
  ℕ_discrete, Bool-cases, inl, inr,
}
use lark.Base.Dict.{contains, Distinct}
use lark.Dag.Digraph.{Has}
use lark.Column.Graph.{ComputeNode, insert_sorted, sort, unique, redirect, replace_dependency}

-- No element is below an earlier one.
abbrev Ascending : List ℕ → Type 0
Ascending [] = Unit {0}
Ascending (x ∷ xs) = ((v : ℕ) → Has v xs → leb x v ≡ true) × Ascending xs

contains-insert_sorted :
    (v a : ℕ) (xs : List ℕ)
    → contains ℕ_discrete v (insert_sorted a xs) ≡ contains ℕ_discrete v (a ∷ xs)
unfolding insert_sorted contains
contains-insert_sorted v a [] = refl
contains-insert_sorted v a (x ∷ xs) = ground (arith, contains-insert_sorted v a xs)

contains-sort : (v : ℕ) (xs : List ℕ) → contains ℕ_discrete v (sort xs) ≡ contains ℕ_discrete v xs
unfolding sort contains
contains-sort v [] = refl
contains-sort v (x ∷ xs) = ground (arith, contains-insert_sorted v x (sort xs), contains-sort v xs)

insert_sorted-Ascending : (a : ℕ) (xs : List ℕ) → Ascending xs → Ascending (insert_sorted a xs)
unfolding insert_sorted contains
insert_sorted-Ascending a [] h = (λ v e. cc, tt)
insert_sorted-Ascending a (x ∷ xs) h = elim (Bool-cases (leb a x)) [
  | inl le ↦ rw le ((λ v e. ground (arith, h.0 v)), h)
  | inr gt ↦ rw gt (
    (λ v e. ground (arith, contains-insert_sorted v a xs, h.0 v)),
    insert_sorted-Ascending a xs h.1,
  )
]

sort-Ascending : (xs : List ℕ) → Ascending (sort xs)
unfolding sort
sort-Ascending [] = tt
sort-Ascending (x ∷ xs) = insert_sorted-Ascending x (sort xs) (sort-Ascending xs)

contains-unique :
    (v : ℕ) (xs : List ℕ) → contains ℕ_discrete v (unique xs) ≡ contains ℕ_discrete v xs
unfolding unique contains
contains-unique v [] = refl
contains-unique v (x ∷ []) = refl
contains-unique v (x ∷ y ∷ xs) = ground (arith, contains-unique v (y ∷ xs))

unique-Distinct : (xs : List ℕ) → Ascending xs → Distinct ℕ_discrete (unique xs)
unfolding unique contains
unique-Distinct [] h = tt
unique-Distinct (x ∷ []) h = (refl, tt)
unique-Distinct (x ∷ y ∷ xs) h =
    let ih = unique-Distinct (y ∷ xs) h.1 in
    elim (Bool-cases (x == y)) [
      | inl same ↦ rw same ih
      | inr other ↦ rw other (ground (arith, contains-unique x (y ∷ xs), h.0 y, h.1.0 x), ih)
    ]

contains-redirect :
    (v from to : ℕ) (ds : List ℕ)
    → contains ℕ_discrete v (map (redirect from to) ds) ≡ (
        if v == to
        then contains ℕ_discrete to ds || contains ℕ_discrete from ds
        else if v == from
        then false
        else contains ℕ_discrete v ds)
unfolding contains
contains-redirect v from to [] = ground arith
contains-redirect v from to (d ∷ ds) = ground (arith, contains-redirect v from to ds)

-- What becomes of the dependencies.
abbrev pub rewired : (v from to : ℕ) → List ℕ → Bool
rewired v from to ds =
    if v == to
    then contains ℕ_discrete to ds || contains ℕ_discrete from ds
    else if v == from
    then false
    else contains ℕ_discrete v ds

module _ {S F : Type 0} where
  pub contains-replace_dependency :
      (v from to : ℕ) (node : ComputeNode S F)
      → contains ℕ_discrete v (replace_dependency from to node).deps ≡ rewired v from to node.deps
  unfolding replace_dependency
  contains-replace_dependency v from to node =
      let moved = map (redirect from to) node.deps in
      contains-unique v (sort moved) ∙ contains-sort v moved ∙ contains-redirect v from to node.deps

  pub replace_dependency-Distinct :
      (from to : ℕ) (node : ComputeNode S F)
      → Distinct ℕ_discrete (replace_dependency from to node).deps
  unfolding replace_dependency
  replace_dependency-Distinct from to node =
      let moved = map (redirect from to) node.deps in
      unique-Distinct (sort moved) (sort-Ascending moved)
