-- ===== src/Base/Sums.antt =====
-- Families over the natural numbers: change at one index, and sums over the first `n`.
use lark.Base.{ℕ, zero, suc, ◌+◌, ◌≤◌, ◌<◌, ◌≡◌, ◌≢◌, refl, ite, arith, ℕ_discrete}

-- `f[i] = a`.
abbrev pub update {ℓ} : {A : Type ℓ} → (ℕ → A) → ℕ → A → ℕ → A
update f i a j = ite (ℕ_discrete j i) a (f j)

unfoldable pub sum_below : ℕ → (ℕ → ℕ) → ℕ
sum_below zero f = 0
sum_below (suc n) f = sum_below n f + f n

sum_below_same :
    (n : ℕ) (f g : ℕ → ℕ) → ((j : ℕ) → j < n → f j ≡ g j) → sum_below n f ≡ sum_below n g
unfolding sum_below
sum_below_same zero f g h = refl
sum_below_same (suc n) f g h =
    omega (arith, sum_below_same n f g (λ j k. h j (omega arith)), h n (omega arith))

-- Two families that differ at one index.
pub sum_below_change :
    (n i : ℕ) (f g : ℕ → ℕ)
    → i < n
    → ((j : ℕ) → j ≢ i → f j ≡ g j)
    → sum_below n f + g i ≡ sum_below n g + f i
unfolding sum_below
sum_below_change zero i f g lt h = absurd (omega arith)
sum_below_change (suc n) i f g lt h = elim (ℕ_discrete i n) [
  | yes last ↦ rw (last) (omega (arith, sum_below_same n f g (λ j k. h j (omega arith))))
  | no before ↦ omega (arith, sum_below_change n i f g (omega arith) h, h n (omega arith))
]

pub sum_below_le : (n : ℕ) (f g : ℕ → ℕ) → ((j : ℕ) → f j ≤ g j) → sum_below n f ≤ sum_below n g
unfolding sum_below
sum_below_le zero f g h = omega arith
sum_below_le (suc n) f g h = omega (arith, sum_below_le n f g h, h n)
