-- ===== src/Toolkit/Str/Numbers.antt =====
-- ToInt64 reads what std::to_string prints.
use mathlib.Core.List.{append_assoc, append-nil}
use lark.Base.{
  ◌<◌, ◌/◌, ◌%◌, ltb, sym, ◌∙◌, Bool-cases, inl, inr, ℕ, zero, suc, ◌+◌, ◌≤◌, ◌≡◌, refl, ap, true,
  false, some, [], ◌∷◌, ◌++◌, Text, arith,
}
use lark.Base.Decimal.{is_digit, digits, to_string, to_string_ℕ, max_int64, skip_space, split_sign}
use lark.Base.Decimal.RoundTrip.{to_string_ℕ-head, number-head, stoll-to_string}
use lark.Base.Int.{ℤ, pos, negsuc, pos_part, neg_part}
use lark.Toolkit.Str.{after_digits, to_int64}

after_digits-digits :
    (fuel n : ℕ) (t : Text) → n < fuel → after_digits (digits fuel n ++ t) ≡ after_digits t
unfolding digits after_digits
after_digits-digits zero n t h = elim h [ ]
after_digits-digits (suc fuel) n t h = elim (Bool-cases (ltb n 10)) [
  | inl small ↦ let digit : is_digit (b'0' + n) ≡ true = ground arith in rw small (rw digit refl)
  | inr big ↦
      let digit : is_digit (b'0' + n % 10) ≡ true = ground arith in
      let rest = after_digits-digits fuel (n / 10) ((b'0' + n % 10) ∷ t) (ground arith) in
      rw big
        (rw (append_assoc (digits fuel (n / 10)) ((b'0' + n % 10) ∷ []) t) (rest ∙ rw digit refl))
]

reads_all : (n : ℕ) → after_digits (to_string_ℕ n) ≡ []
unfolding to_string_ℕ after_digits
reads_all n =
    ap after_digits (sym (append-nil (digits (suc n) n)))
    ∙ after_digits-digits (suc n) n [] (omega arith)

minus : (s : Text) → split_sign (skip_space (b'-' ∷ s)) ≡ (true, s)
unfolding split_sign skip_space
minus s = refl

signed : (z : ℤ) → after_digits (split_sign (skip_space (to_string z))).1 ≡ []
unfolding to_string
signed (pos n) =
    let (c, s, e, d) = to_string_ℕ-head n in
    let plain : split_sign (skip_space (to_string_ℕ n)) ≡ (false, to_string_ℕ n) =
      rw e (number-head c s d).0 in
    rw plain (reads_all n)
signed (negsuc n) = ap (λ p. after_digits p.1) (minus (to_string_ℕ (suc n))) ∙ reads_all (suc n)

-- An int64_t that was printed is accepted and read back.
pub to_int64-to_string :
    (z : ℤ) → pos_part z ≤ max_int64 → neg_part z ≤ max_int64 + 1 → to_int64 (to_string z) ≡ some z
unfolding to_int64
to_int64-to_string z h k = rw (signed z) (rw (stoll-to_string z h k) refl)
