-- ===== src/Base/Decimal.antt =====
-- std::to_string of integers, and std::stoll and std::stoull: white space, a sign, the longest run
-- of digits, and what follows is ignored. A text with no digit and a value out of range throw.
pub mod RoundTrip
use lark.Base.{
  ℕ, zero, suc, ◌+◌, ◌-◌, ◌*◌, ◌/◌, ◌%◌, ◌^◌, ltb, leb, ◌==◌, Bool, true, false, ◌&&◌, ◌||◌,
  if◌then◌else◌, List, [], ◌∷◌, ◌++◌, Text, text,
}
use lark.Base.Int.{ℤ, pos, negsuc}
use lark.Base.Result.{Result, done, throw, invalid_argument, out_of_range}

abbrev pub is_digit : ℕ → Bool
is_digit c = leb b'0' c && leb c b'9'

-- std::isspace in the "C" locale.
abbrev pub is_space : ℕ → Bool
is_space c = c == 32 || leb 9 c && leb c 13

-- The digits of `n`, given fuel above `n`.
unfoldable pub digits : ℕ → ℕ → Text
digits zero n = []
digits (suc fuel) n =
    let more = digits fuel (n / 10) ++ (b'0' + n % 10) ∷ [] in
    if ltb n 10 then (b'0' + n) ∷ [] else more

unfoldable pub to_string_ℕ : ℕ → Text
unfolding digits
to_string_ℕ n = digits (suc n) n

unfoldable pub to_string : ℤ → Text
unfolding to_string_ℕ
to_string (pos n) = to_string_ℕ n
to_string (negsuc n) = b'-' ∷ to_string_ℕ (suc n)

-- The value of the digits that come next, after `acc`.
unfoldable pub scan_digits : ℕ → Text → ℕ
scan_digits acc [] = acc
scan_digits acc (c ∷ s) =
    let rest = scan_digits (acc * 10 + (c - b'0')) s in if is_digit c then rest else acc

unfoldable pub skip_space : Text → Text
skip_space [] = []
skip_space (c ∷ s) = let rest = skip_space s in if is_space c then rest else c ∷ s

unfoldable pub starts_with_digit : Text → Bool
starts_with_digit [] = false
starts_with_digit (c ∷ s) = is_digit c

-- The magnitude, at most `limit`.
unfoldable pub magnitude : Text → ℕ → Text → Result ℕ
unfolding starts_with_digit scan_digits
magnitude what limit s =
    if starts_with_digit s
    then (let n = scan_digits 0 s in if leb n limit then done n else throw (out_of_range what))
    else throw (invalid_argument what)

abbrev pub negate : ℕ → ℤ
negate zero = pos 0
negate (suc n) = negsuc n

abbrev pub max_int64 : ℕ
max_int64 = 2 ^ 63 - 1

abbrev pub max_uint64 : ℕ
max_uint64 = 2 ^ 64 - 1

-- The sign, and what follows.
unfoldable pub split_sign : Text → Bool × Text
split_sign [] = (false, [])
split_sign (c ∷ s) =
    if c == b'-' then (true, s) else if c == b'+' then (false, s) else (false, c ∷ s)

abbrev map_result {ℓ} : {A B : Type ℓ} → (A → B) → Result A → Result B
map_result f (done a) = done (f a)
map_result f (throw e) = throw e

unfoldable pub stoll : Text → Result ℤ
unfolding magnitude split_sign skip_space
stoll s =
    let (negative, rest) = split_sign (skip_space s) in
    if negative
    then map_result negate (magnitude (text "stoll") (max_int64 + 1) rest)
    else map_result pos (magnitude (text "stoll") max_int64 rest)

-- A minus sign negates in the unsigned type.
unfoldable pub stoull : Text → Result ℕ
unfolding magnitude split_sign skip_space
stoull s =
    let (negative, rest) = split_sign (skip_space s) in
    let n = magnitude (text "stoull") max_uint64 rest in
    if negative then map_result (λ k. (2 ^ 64 - k) % 2 ^ 64) n else n
