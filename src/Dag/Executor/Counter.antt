-- ===== src/Dag/Executor/Counter.antt =====
-- The counter of Execute: it is the number of nodes that are not over, so that the promise is
-- fulfilled once, when the last node is over.
use lark.Base.{
  ℕ, zero, suc, ◌+◌, ◌≤◌, ◌<◌, ◌≡◌, ◌≢◌, ◌==◌, refl, Option, List, arith, ℕ_discrete, if◌then◌else◌,
}
use lark.Base.Sums.{update, sum_below, sum_below_change, sum_below_le}
use lark.Metric.{Event}
use lark.Dag.Kahn.Release.{decrement_lem}
use lark.Dag.Executor.{Stage, idle, waiting, inside, over, Execution, complete, start_execution}

abbrev pub is_over : Stage → ℕ
is_over over = 1
is_over _ = 0

pub is_over_le : (p : Stage) → is_over p ≤ 1
is_over_le idle = omega arith
is_over_le waiting = omega arith
is_over_le inside = omega arith
is_over_le over = omega arith

pub not_over : (p : Stage) → p ≢ over → is_over p ≡ 0
not_over idle h = refl
not_over waiting h = refl
not_over inside h = refl
not_over over h = absurd (h refl)

sum_none : (n : ℕ) → sum_below n (λ v. 0) ≡ 0
unfolding sum_below
sum_none zero = refl
sum_none (suc n) = omega (arith, sum_none n)

sum_le : (n : ℕ) (f : ℕ → ℕ) → ((j : ℕ) → f j ≤ 1) → sum_below n f ≤ n
unfolding sum_below
sum_le zero f h = omega arith
sum_le (suc n) f h = omega (arith, sum_le n f h, h n)

pub sum_full :
    (n : ℕ) (f : ℕ → ℕ) → ((j : ℕ) → f j ≤ 1) → sum_below n f ≡ n → (j : ℕ) → j < n → f j ≡ 1
unfolding sum_below
sum_full zero f h e j lt = absurd (omega arith)
sum_full (suc n) f h e j lt = elim (ℕ_discrete j n) [
  | yes last ↦ rw last (omega (arith, sum_le n f h, h n))
  | no before ↦ sum_full n f h (omega (arith, sum_le n f h, h n)) j (omega arith)
]

pub sum_all : (n : ℕ) (f : ℕ → ℕ) → ((j : ℕ) → j < n → f j ≡ 1) → sum_below n f ≡ n
unfolding sum_below
sum_all zero f h = refl
sum_all (suc n) f h = omega (arith, sum_all n f (λ j lt. h j (omega arith)), h n (omega arith))

module _ {D : Type 0} (n : ℕ) where
  abbrev pub finished : Execution D → ℕ
  finished s = sum_below n (λ v. is_over (s.stage v))

  pub record IsCounted (s : Execution D) : Type 0 where
    pub counted : s.left + finished s ≡ n
    pub signalled : s.signals ≡ (if s.left == 0 then 1 else 0)

  -- One more node is over.
  pub complete-IsCounted :
      (v : ℕ) (s : Execution D) → v < n → s.stage v ≢ over → IsCounted s → IsCounted (complete v s)
  unfolding complete
  complete-IsCounted v s lt open_node c =
      let change =
        sum_below_change n v (λ u. is_over (update s.stage v over u)) (λ u. is_over (s.stage u)) lt
          (λ u ne. ground arith) in
      let now : is_over (update s.stage v over v) ≡ 1 = ground arith in
      let was : is_over (s.stage v) ≡ 0 = not_over (s.stage v) open_node in
      let bound =
        sum_le n (λ u. is_over (update s.stage v over u))
          (λ u. is_over_le (update s.stage v over u)) in
      let positive : 0 < s.left = omega (arith, change, now, was, bound, c.counted) in
      let less = decrement_lem s.left positive in
      record {
        counted = omega (arith, change, now, was, less, c.counted);
        signalled = ground (arith, c.signalled, less);
      }

  -- A change of a stage that does not end a node.
  pub same-IsCounted :
      (s t : Execution D)
      → t.left ≡ s.left
      → t.signals ≡ s.signals
      → ((v : ℕ) → is_over (t.stage v) ≡ is_over (s.stage v))
      → IsCounted s
      → IsCounted t
  same-IsCounted s t e f h c = record {
    counted = omega (
      arith,
      e,
      c.counted,
      sum_below_le n (λ v. is_over (t.stage v)) (λ v. is_over (s.stage v))
          (λ v. omega (arith, h v)),
      sum_below_le n (λ v. is_over (s.stage v)) (λ v. is_over (t.stage v))
          (λ v. omega (arith, h v)),
    );
    signalled = ground (arith, e, f, c.signalled);
  }

  pub start-IsCounted :
      (d : D) (m : Option (List Event)) → 0 < n → IsCounted (start_execution n d m)
  start-IsCounted d m positive = record {
    counted = omega (arith, sum_none n);
    signalled = ground arith;
  }
