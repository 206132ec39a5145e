-- ===== src/Column/Ops/Defined.antt =====
-- No op of create_op reads a column as another type than it has, unless a column is quantized.
use lark.Base.{
  ℕ, zero, suc, ◌<◌, ◌≡◌, refl, Bool, true, false, some, List, [], ◌∷◌, Text, length, arith,
  Option-cases, inl, inr, if◌then◌else◌,
}
use lark.Base.Result.{Result, done, throw}
use lark.Column.Numbers.{Floating}
use lark.Column.Tensor.{
  DType, int32, int64, float32, float64, q8_0, Tensor, int32s, int64s, float32s, float64s, blocks,
  dtype, is_float,
}
use lark.Column.Store.{TensorStore, find}
use lark.Column.Quantize.{Machine}
use lark.Column.Ops.{
  Outcome, returns, raises, undefined, ◌>>=◌, calling, is_dtype, promote, cast_tensor, input,
  input_at, write,
}

-- A result has a property, and nothing undefined was done.
abbrev pub Gives {ℓ} : {A : Type ℓ} → (A → Type 0) → Outcome A → Type 0
Gives Q (returns a) = Q a
Gives Q (raises e) = Unit
Gives Q undefined = ⊥

abbrev pub IsDefined {ℓ} : {A : Type ℓ} → Outcome A → Type 0
IsDefined m = Gives (λ a. Unit {0}) m

pub Gives->>= {ℓ κ} :
    {A : Type ℓ} {B : Type κ} (Q : A → Type 0) (R : B → Type 0) (m : Outcome A) (f : A → Outcome B)
    → Gives Q m
    → ((a : A) → Q a → Gives R (f a))
    → Gives R (m >>= f)
Gives->>= Q R (returns a) f g h = h a g
Gives->>= Q R (raises e) f g h = tt
Gives->>= Q R undefined f g h = absurd g

pub Gives-calling {ℓ} :
    {A : Type ℓ} (Q : A → Type 0) (m : Result A)
    → ((a : A) → m ≡ done a → Q a)
    → Gives Q (calling m)
Gives-calling Q (done a) h = h a refl
Gives-calling Q (throw e) h = tt

pub calling-IsDefined {ℓ} : {A : Type ℓ} (m : Result A) → IsDefined (calling m)
calling-IsDefined m = Gives-calling (λ a. Unit {0}) m (λ a e. tt)

pub branch-IsDefined {ℓ} :
    {A : Type ℓ} (b : Bool) (x y : Outcome A)
    → IsDefined x
    → IsDefined y
    → IsDefined (if b then x else y)
branch-IsDefined true x y u v = u
branch-IsDefined false x y u v = v

module _ {S F : Type 0} where
  abbrev pub is_plain : Tensor S F → Bool
  is_plain (blocks n bs) = false
  is_plain _ = true

  -- No column is quantized.
  abbrev pub AllPlain : TensorStore S F → Type 0
  AllPlain store = (n : Text) (t : Tensor S F) → find store n ≡ some t → is_plain t ≡ true

  abbrev pub Plain : Tensor S F → Type 0
  Plain t = Path Bool (is_plain t) true

  pub input-Plain :
      (store : TensorStore S F) (n : Text) → AllPlain store → Gives Plain (input store n)
  unfolding input
  input-Plain store n all = elim (Option-cases (find store n)) [
    | inl e ↦ rw (e, input) tt
    | inr (t, e) ↦ rw (e, input) (all n t e)
  ]

  pub input_at-Plain :
      (store : TensorStore S F) (inputs : List Text) (i : ℕ)
      → AllPlain store
      → i < length inputs
      → Gives Plain (input_at store inputs i)
  unfolding input_at
  input_at-Plain store (n ∷ ns) zero all less = input-Plain store n all
  input_at-Plain store (n ∷ ns) (suc i) all less =
      input_at-Plain store ns i all (omega (arith, less))
  input_at-Plain store [] i all less = absurd (omega (arith, less))

  pub write-IsDefined :
      (store : TensorStore S F) (outputs : List Text) (t : Tensor S F)
      → 0 < length outputs
      → IsDefined (write store outputs t)
  unfolding write
  write-IsDefined store [] t less = absurd (omega (arith, less))
  write-IsDefined store (n ∷ ns) t less = tt

  pub promote-Plain :
      (a b : Tensor S F) → Plain a → Plain b → is_dtype (promote (dtype a) (dtype b)) q8_0 ≡ false
  unfolding promote dtype is_float
  promote-Plain (blocks n bs) b p q = absurd (ground (arith, p))
  promote-Plain (int32s xs) (blocks n bs) p q = absurd (ground (arith, q))
  promote-Plain (int64s xs) (blocks n bs) p q = absurd (ground (arith, q))
  promote-Plain (float32s xs) (blocks n bs) p q = absurd (ground (arith, q))
  promote-Plain (float64s xs) (blocks n bs) p q = absurd (ground (arith, q))
  promote-Plain (int32s xs) (int32s ys) p q = refl
  promote-Plain (int32s xs) (int64s ys) p q = refl
  promote-Plain (int32s xs) (float32s ys) p q = refl
  promote-Plain (int32s xs) (float64s ys) p q = refl
  promote-Plain (int64s xs) (int32s ys) p q = refl
  promote-Plain (int64s xs) (int64s ys) p q = refl
  promote-Plain (int64s xs) (float32s ys) p q = refl
  promote-Plain (int64s xs) (float64s ys) p q = refl
  promote-Plain (float32s xs) (int32s ys) p q = refl
  promote-Plain (float32s xs) (int64s ys) p q = refl
  promote-Plain (float32s xs) (float32s ys) p q = refl
  promote-Plain (float32s xs) (float64s ys) p q = refl
  promote-Plain (float64s xs) (int32s ys) p q = refl
  promote-Plain (float64s xs) (int64s ys) p q = refl
  promote-Plain (float64s xs) (float32s ys) p q = refl
  promote-Plain (float64s xs) (float64s ys) p q = refl

module _ {S F : Type 0} (m : Floating S F) (machine : Machine S F) where
  -- A plain column is cast to the type that is asked for.
  pub cast_tensor-dtype :
      (a : Tensor S F) (d : DType)
      → Plain a
      → is_dtype d q8_0 ≡ false
      → Gives (λ r. Path DType (dtype r) d) (cast_tensor m machine a d)
  unfolding cast_tensor dtype
  cast_tensor-dtype (blocks n bs) d p other = absurd (ground (arith, p))
  cast_tensor-dtype (int32s xs) q8_0 p other = absurd (ground (arith, other))
  cast_tensor-dtype (int64s xs) q8_0 p other = absurd (ground (arith, other))
  cast_tensor-dtype (float32s xs) q8_0 p other = absurd (ground (arith, other))
  cast_tensor-dtype (float64s xs) q8_0 p other = absurd (ground (arith, other))
  cast_tensor-dtype (int32s xs) int32 p other = refl
  cast_tensor-dtype (int32s xs) int64 p other = refl
  cast_tensor-dtype (int32s xs) float32 p other = refl
  cast_tensor-dtype (int32s xs) float64 p other = refl
  cast_tensor-dtype (int64s xs) int32 p other = refl
  cast_tensor-dtype (int64s xs) int64 p other = refl
  cast_tensor-dtype (int64s xs) float32 p other = refl
  cast_tensor-dtype (int64s xs) float64 p other = refl
  cast_tensor-dtype (float32s xs) int32 p other = refl
  cast_tensor-dtype (float32s xs) int64 p other = refl
  cast_tensor-dtype (float32s xs) float32 p other = refl
  cast_tensor-dtype (float32s xs) float64 p other = refl
  cast_tensor-dtype (float64s xs) int32 p other = refl
  cast_tensor-dtype (float64s xs) int64 p other = refl
  cast_tensor-dtype (float64s xs) float32 p other = refl
  cast_tensor-dtype (float64s xs) float64 p other = refl
