-- ===== src/Dag/Search/Measure.antt =====
-- The rounds of the search are bounded.
use lark.Base.{ℕ, ◌+◌, ◌-◌, ◌≤◌, ◌<◌, ◌≡◌, List, [], ◌∷◌, length, arith}
use lark.Base.Sums.{update, sum_below, sum_below_change, sum_below_le}
use lark.Dag.Search.{Mark, unvisited, in_stack, finished, search_fuel}

module _ (deps : ℕ → List ℕ) where
  abbrev pub weight : (ℕ → Mark) → ℕ → ℕ
  weight marks v = elim (marks v) [ unvisited ↦ length (deps v) + 2 | _ ↦ 0 ]

  -- What the entries of the stack still have to do.
  abbrev pub stack_work : List (ℕ × ℕ) → ℕ
  stack_work [] = 0
  stack_work ((v, k) ∷ rest) = (length (deps v) - k) + 1 + stack_work rest

  abbrev pub work : ℕ → List (ℕ × ℕ) → (ℕ → Mark) → ℕ
  work n stack marks = sum_below n (weight marks) + stack_work stack

  pub work-push :
      (n v : ℕ) (marks : ℕ → Mark)
      → v < n
      → marks v ≡ unvisited
      → sum_below n (weight (update marks v in_stack)) + length (deps v) + 2
        ≡ sum_below n (weight marks)
  work-push n v marks lt h = ground (
    arith,
    sum_below_change n v (weight (update marks v in_stack)) (weight marks) lt
        (λ j ne. ground arith),
  )

  pub work-pop :
      (n v : ℕ) (marks : ℕ → Mark)
      → sum_below n (weight (update marks v finished)) ≤ sum_below n (weight marks)
  work-pop n v marks =
      sum_below_le n (weight (update marks v finished)) (weight marks) (λ j. ground arith)

  pub work_start : (n : ℕ) (marks : ℕ → Mark) → sum_below n (weight marks) ≤ search_fuel deps n
  unfolding search_fuel
  work_start n marks = sum_below_le n (weight marks) (λ v. length (deps v) + 2) (λ j. ground arith)
