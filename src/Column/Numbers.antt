-- ===== src/Column/Numbers.antt =====
-- The arithmetic that the tensors use. That of float (type S) and double (type F) is a parameter;
-- int32_t and int64_t are integers; what signed arithmetic leaves beyond their range is not defined
-- in C++, and an argument here.
use lark.Base.{ℕ, ◌+◌, ◌-◌, ◌%◌, ◌^◌, ltb, leb, Bool, false, if◌then◌else◌}
use lark.Base.Int.{ℤ, pos, negsuc, pos_part, neg_part, ◌+ℤ◌, ◌-ℤ◌, ◌*ℤ◌, ltb_ℤ}

-- The operators of one element type T. `of_double` and `to_double` are the casts.
pub record Scalar (F T : Type 0) : Type 0 where
  pub nought : T
  pub add : T → T → T
  pub sub : T → T → T
  pub mul : T → T → T
  pub neg : T → T
  pub abs : T → T
  pub lt : T → T → Bool
  pub le : T → T → Bool
  pub eq : T → T → Bool
  pub of_double : F → T
  pub to_double : T → F

pub record Floating (S F : Type 0) : Type 0 where
  pub single : Scalar F S
  pub double : Scalar F F
  pub div : F → F → F
  pub sqrt : F → F
  pub of_int : ℤ → F
  pub to_int64 : F → ℤ
  pub to_int32 : F → ℤ
  -- What is left of a signed operation with this result, which w bits do not hold.
  pub overflow : ℕ → ℤ → ℤ

-- The integers from -(2 ^ (w - 1)) up to and without 2 ^ (w - 1).
unfoldable pub in_range : ℕ → ℤ → Bool
in_range w (pos n) = ltb n (2 ^ (w - 1))
in_range w (negsuc n) = ltb n (2 ^ (w - 1))

-- The value in w bits, two's complement, of an integer.
unfoldable pub wrap : ℕ → ℤ → ℤ
wrap w (pos n) = let r = n % 2 ^ w in if ltb r (2 ^ (w - 1)) then pos r else negsuc (2 ^ w - 1 - r)
wrap w (negsuc n) =
    let r = n % 2 ^ w in if ltb r (2 ^ (w - 1)) then negsuc r else pos (2 ^ w - 1 - r)

abbrev pub leb_ℤ : ℤ → ℤ → Bool
leb_ℤ a b = leb (pos_part a + neg_part b) (pos_part b + neg_part a)

abbrev pub eq_ℤ : ℤ → ℤ → Bool
eq_ℤ a b = if leb_ℤ a b then leb_ℤ b a else false

-- `x < 0 ? -x : x`.
abbrev pub magnitude : ℤ → ℤ
magnitude a = if ltb_ℤ a (pos 0) then pos 0 -ℤ a else a

module _ {S F : Type 0} (m : Floating S F) where
  unfoldable pub signed : ℕ → ℤ → ℤ
  unfolding in_range
  signed w z = if in_range w z then z else m.overflow w z

  abbrev pub integer : ℕ → (F → ℤ) → Scalar F ℤ
  integer w cast = record {
    nought = pos 0;
    add = λ x y. signed w (x +ℤ y);
    sub = λ x y. signed w (x -ℤ y);
    mul = λ x y. signed w (x *ℤ y);
    neg = λ x. signed w (pos 0 -ℤ x);
    abs = λ x. signed w (magnitude x);
    lt = ltb_ℤ;
    le = leb_ℤ;
    eq = eq_ℤ;
    of_double = cast;
    to_double = m.of_int;
  }

  abbrev pub int64 : Scalar F ℤ
  int64 = integer 64 m.to_int64

  abbrev pub int32 : Scalar F ℤ
  int32 = integer 32 m.to_int32
