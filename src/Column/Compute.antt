-- ===== src/Column/Compute.antt =====
-- The kernels of column/src/column/compute. Each has a loop over the lanes of a vector, a loop over
-- the elements that are left, and scalar code for machines without vectors; the machine is a
-- parameter. A vector instruction does its operation in each lane. `none` stands for undefined
-- behaviour: a kernel that reads past the end of a buffer, or reads it as another type.
pub mod Loops
pub mod Arith
pub mod Compare
pub mod Reduce
pub mod Agreement
pub mod Negation
mod Tests
use lark.Base.{
  ℕ, zero, suc, leb, Bool, true, false, not, Option, none, some, List, [], ◌∷◌, ◌++◌, map, length,
  take, drop, text, if◌then◌else◌, replicate,
}
use lark.Base.Int.{ℤ, pos, ◌+ℤ◌, ltb_ℤ, ◌-ℤ◌}
use lark.Base.Result.{Result, done, throw, Exception, runtime_error}
use lark.Column.Numbers.{Scalar, Floating, wrap, int64, leb_ℤ, eq_ℤ}
use lark.Column.Tensor.{DType, Tensor, int32s, int64s, float32s, float64s, blocks, dtype, size}

pub data Simd : Type 0 where
  neon avx512 avx2 sse2 scalar : Simd

-- The doubles in a vector; 0 without vectors.
unfoldable pub lanes : Simd → ℕ
lanes neon = 2
lanes avx512 = 8
lanes avx2 = 4
lanes sse2 = 2
lanes scalar = 0

-- `for (; i + w <= n; i += w)`: what the rounds write, and what is left. There are at most as many
-- rounds as elements.
unfoldable pub vector_loop {ℓ κ} :
    {A : Type ℓ} {B : Type κ} → ℕ → ℕ → (List A → List B) → List A → List B × List A
vector_loop zero w f xs = ([], xs)
vector_loop {A} {B} (suc fuel) w f xs =
    let round : List B × List A =
      (let (out, left) = vector_loop fuel w f (drop w xs) in (f (take w xs) ++ out, left)) in
    if leb w (length xs) then round else ([], xs)

-- Both loops: `f` is done in the lanes, `g` on what is left. Without vectors, `g` on all.
unfoldable pub simd_map {ℓ κ} : {A : Type ℓ} {B : Type κ} → ℕ → (A → B) → (A → B) → List A → List B
unfolding vector_loop
simd_map zero f g xs = map g xs
simd_map (suc w) f g xs =
    let (out, left) = vector_loop (length xs) (suc w) (map f) xs in out ++ map g left

-- `pa[i]` and `pb[i]` for the indices of the first list.
unfoldable pub pairs {ℓ κ} : {A : Type ℓ} {B : Type κ} → List A → List B → Option (List (A × B))
pairs [] ys = some []
pairs (x ∷ xs) [] = none
pairs (x ∷ xs) (y ∷ ys) = elim (pairs xs ys) [ none ↦ none | some ps ↦ some ((x, y) ∷ ps) ]

infixl 5 ◌>>=◌
abbrev pub ◌>>=◌ {ℓ κ} : {A : Type ℓ} {B : Type κ} → Option A → (A → Option B) → Option B
none >>= f = none
some a >>= f = f a

-- The casts of a comparison to 1 and 0.
abbrev pub truth : Bool → ℤ
truth b = if b then pos 1 else pos 0

module _ {S F : Type 0} where
  unfoldable pub as_int64 : Tensor S F → Option (List ℤ)
  as_int64 (int64s xs) = some xs
  as_int64 (int32s xs) = none
  as_int64 (float32s xs) = none
  as_int64 (float64s xs) = none
  as_int64 (blocks n bs) = none

  unfoldable pub as_double : Tensor S F → Option (List F)
  as_double (float64s xs) = some xs
  as_double (int32s xs) = none
  as_double (int64s xs) = none
  as_double (float32s xs) = none
  as_double (blocks n bs) = none

  abbrev pub same_dtype : Tensor S F → Tensor S F → Bool
  same_dtype (int32s _) (int32s _) = true
  same_dtype (int64s _) (int64s _) = true
  same_dtype (float32s _) (float32s _) = true
  same_dtype (float64s _) (float64s _) = true
  same_dtype (blocks _ _) (blocks _ _) = true
  same_dtype _ _ = false

  abbrev pub is_int64 : Tensor S F → Bool
  is_int64 (int64s _) = true
  is_int64 _ = false

  -- The loops over two tensors.
  unfoldable pub int64_pairs : (ℤ → ℤ → ℤ) → Tensor S F → Tensor S F → Option (Tensor S F)
  unfolding as_int64 pairs
  int64_pairs op a b = do
    pa ← as_int64 a
    pb ← as_int64 b
    ps ← pairs pa pb
    some (int64s (map (λ p. op p.0 p.1) ps))

  unfoldable pub f64_pairs {ℓ} :
      {T : Type ℓ}
      → ℕ
      → (F → F → T)
      → (List T → Tensor S F)
      → Tensor S F
      → Tensor S F
      → Option (Tensor S F)
  unfolding as_double pairs simd_map
  f64_pairs w op result a b = do
    pa ← as_double a
    pb ← as_double b
    ps ← pairs pa pb
    some (result (simd_map w (λ p. op p.0 p.1) (λ p. op p.0 p.1) ps))

  -- The loops over one tensor.
  unfoldable pub int64_each {ℓ} :
      {T : Type ℓ} → (ℤ → T) → (List T → Tensor S F) → Tensor S F → Option (Tensor S F)
  unfolding as_int64
  int64_each op result a = do pa ← as_int64 a; some (result (map op pa))

  unfoldable pub f64_each {ℓ} :
      {T : Type ℓ}
      → ℕ
      → (F → T)
      → (F → T)
      → (List T → Tensor S F)
      → Tensor S F
      → Option (Tensor S F)
  unfolding as_double simd_map
  f64_each w lane op result a = do pa ← as_double a; some (result (simd_map w lane op pa))
