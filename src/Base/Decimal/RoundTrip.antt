-- ===== src/Base/Decimal/RoundTrip.antt =====
-- What was printed is read back.
use mathlib.Core.List.{append_assoc, append-nil}
use lark.Base.{
  ℕ, zero, suc, ◌+◌, ◌-◌, ◌*◌, ◌/◌, ◌%◌, ◌≤◌, ◌<◌, ◌≡◌, ◌∙◌, refl, sym, ap, ltb, true, false, [],
  ◌∷◌, ◌++◌, Text, text, arith, Bool-cases, inl, inr,
}
use lark.Base.Int.{ℤ, pos, negsuc, pos_part, neg_part}
use lark.Base.Result.{done}
use lark.Base.Decimal.{
  digits, to_string_ℕ, to_string, scan_digits, skip_space, starts_with_digit, magnitude, split_sign,
  stoll, stoull, max_int64, max_uint64, is_digit,
}

scan-step :
    (acc c : ℕ) (s : Text)
    → is_digit c ≡ true
    → scan_digits acc (c ∷ s) ≡ scan_digits (acc * 10 + (c - b'0')) s
unfolding scan_digits
scan-step acc c s h = rw h

digit_ok : (d : ℕ) → d < 10 → is_digit (b'0' + d) ≡ true
digit_ok d h = ground arith

scan-digits :
    (fuel n : ℕ) (rest : Text)
    → n < fuel
    → scan_digits 0 (digits fuel n ++ rest) ≡ scan_digits n rest
unfolding digits
scan-digits zero n rest h = elim h [ ]
scan-digits (suc fuel) n rest h = elim (Bool-cases (ltb n 10)) [
  | inl small ↦ rw (small) (
      scan-step 0 (b'0' + n) rest (digit_ok n (ground arith))
      ∙ ap (λ (k : ℕ). scan_digits k rest) (omega arith))
  | inr big ↦
      rw (big, append_assoc)
        (scan-digits fuel (n / 10) ((b'0' + n % 10) ∷ rest) (ground arith)
          ∙ scan-step (n / 10) (b'0' + n % 10) rest (digit_ok (n % 10) (omega arith))
          ∙ ap (λ (k : ℕ). scan_digits k rest) (omega arith))
]

-- The first byte of the digits is a digit.
digits-head :
    (fuel n : ℕ) → n < fuel → (c : ℕ) × (s : Text) × (digits fuel n ≡ c ∷ s) × (is_digit c ≡ true)
unfolding digits
digits-head zero n h = elim h [ ]
digits-head (suc fuel) n h = elim (Bool-cases (ltb n 10)) [
  | inl small ↦ (b'0' + n, [], rw small, digit_ok n (ground arith))
  | inr big ↦
      let (c, s, e, d) = digits-head fuel (n / 10) (ground arith) in
      (c, s ++ (b'0' + n % 10) ∷ [], rw (big, e), d)
]

stoll_reads : (stoll (text "  -42ms") ≡ done (negsuc 41)) × (to_string (negsuc 99) ≡ text "-100")
unfolding stoll to_string
stoll_reads = (refl, refl)

-- A text that begins with a digit has no white space and no sign before its number.
pub number-head :
    (c : ℕ) (s : Text)
    → is_digit c ≡ true
    → (split_sign (skip_space (c ∷ s)) ≡ (false, c ∷ s)) × (starts_with_digit (c ∷ s) ≡ true)
unfolding split_sign skip_space starts_with_digit
number-head c s h = ground arith

scan-to_string_ℕ : (n : ℕ) → scan_digits 0 (to_string_ℕ n) ≡ n
unfolding to_string_ℕ scan_digits
scan-to_string_ℕ n = let e = scan-digits (suc n) n [] (omega arith) in rw append-nil at e

pub to_string_ℕ-injective : (m n : ℕ) → to_string_ℕ m ≡ to_string_ℕ n → m ≡ n
to_string_ℕ-injective m n e = sym (scan-to_string_ℕ m) ∙ ap (scan_digits 0) e ∙ scan-to_string_ℕ n

pub to_string_ℕ-head :
    (n : ℕ) → (c : ℕ) × (s : Text) × (to_string_ℕ n ≡ c ∷ s) × (is_digit c ≡ true)
unfolding to_string_ℕ
to_string_ℕ-head n = digits-head (suc n) n (omega arith)

magnitude-to_string_ℕ :
    (what : Text) (n limit : ℕ) → n ≤ limit → magnitude what limit (to_string_ℕ n) ≡ done n
unfolding magnitude
magnitude-to_string_ℕ what n limit h =
    let (c, s, e, d) = to_string_ℕ-head n in
    let starts : starts_with_digit (to_string_ℕ n) ≡ true = rw e (number-head c s d).1 in
    rw (starts, scan-to_string_ℕ) (ground arith)

-- A count that was printed is read back.
pub stoull-to_string_ℕ : (n : ℕ) → n ≤ max_uint64 → stoull (to_string_ℕ n) ≡ done n
unfolding stoull
stoull-to_string_ℕ n h =
    let (c, s, e, d) = to_string_ℕ-head n in
    let plain : split_sign (skip_space (to_string_ℕ n)) ≡ (false, to_string_ℕ n) =
      rw e (number-head c s d).0 in
    rw plain (magnitude-to_string_ℕ (text "stoull") n max_uint64 h)

-- An int64_t that was printed is read back.
pub stoll-to_string :
    (z : ℤ) → pos_part z ≤ max_int64 → neg_part z ≤ max_int64 + 1 → stoll (to_string z) ≡ done z
unfolding stoll to_string
stoll-to_string (pos n) h k =
    let (c, s, e, d) = to_string_ℕ-head n in
    let plain : split_sign (skip_space (to_string_ℕ n)) ≡ (false, to_string_ℕ n) =
      rw e (number-head c s d).0 in
    rw (plain, magnitude-to_string_ℕ (text "stoll") n max_int64 h)
stoll-to_string (negsuc n) h k = rw (magnitude-to_string_ℕ (text "stoll") (suc n) (max_int64 + 1) k)
