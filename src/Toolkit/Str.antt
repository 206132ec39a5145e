-- ===== src/Toolkit/Str.antt =====
-- toolkit::str (toolkit/src/toolkit.cpp), in the C locale. A std::string_view is the text that it
-- shows; a search from a start position is a search in the rest of the text.
pub mod Splits
pub mod Trims
pub mod Numbers
use lark.Base.{
  is_empty, ℕ, zero, suc, ◌+◌, ◌-◌, ltb, leb, ◌==◌, Bool, true, false, not, ◌&&◌, ◌||◌, Option,
  none, some, List, [], ◌∷◌, ◌++◌, map, Text, text_dec, length, take, drop, ite, if◌then◌else◌,
  ℕ_discrete,
}
use lark.Base.Decimal.{is_digit, skip_space, split_sign, stoll}
use lark.Base.Dict.{contains}
use lark.Base.Int.{ℤ}
use lark.Base.Result.{Result, done, throw}
use lark.Toolkit.Lexer.{is_space, starts_with}

-- `s.find(needle)`; `none` is npos.
unfoldable pub find_text : Text → Text → Option ℕ
find_text needle [] = if is_empty needle then some 0 else none
find_text needle (c ∷ cs) =
    let later = find_text needle cs in
    if starts_with needle (c ∷ cs)
    then some 0
    else elim later [ none ↦ none | some i ↦ some (suc i) ]

-- The loop of Split from one start position on. Every delimiter takes a character, so the length
-- is enough fuel.
unfoldable pub split_loop : ℕ → Text → Bool → Text → List Text
unfolding find_text
split_loop zero delim skip s = if skip && is_empty s then [] else s ∷ []
split_loop (suc fuel) delim skip s = elim (find_text delim s) [
  | none ↦ if skip && is_empty s then [] else s ∷ []
  | some i ↦
      let rest = split_loop fuel delim skip (drop (i + length delim) s) in
      if skip && is_empty (take i s) then rest else take i s ∷ rest
]

unfoldable pub split : Text → Text → Bool → List Text
unfolding split_loop
split s delim skip = if is_empty delim then s ∷ [] else split_loop (length s) delim skip s

-- SplitAny: `part` is what is read since the last delimiter.
unfoldable pub split_any_loop : Text → Text → Text → List Text
split_any_loop delims part [] = part ∷ []
split_any_loop delims part (c ∷ cs) =
    let cut = split_any_loop delims [] cs in
    let on = split_any_loop delims (part ++ c ∷ []) cs in
    if contains ℕ_discrete c delims then part ∷ cut else on

unfoldable pub split_any : Text → Text → List Text
unfolding split_any_loop
split_any s delims = split_any_loop delims [] s

-- Join, for strings and for views.
unfoldable pub join : List Text → Text → Text
join [] sep = []
join (p ∷ []) sep = p
join (p ∷ q ∷ ps) sep = p ++ (sep ++ join (q ∷ ps) sep)

-- `remove_prefix` and `remove_suffix` while the test holds.
unfoldable pub trim_front : (ℕ → Bool) → Text → Text
trim_front test [] = []
trim_front test (c ∷ cs) = let rest = trim_front test cs in if test c then rest else c ∷ cs

unfoldable pub trim_back : (ℕ → Bool) → Text → Text
trim_back test [] = []
trim_back test (c ∷ cs) =
    let rest = trim_back test cs in if test c && is_empty rest then [] else c ∷ rest

unfoldable pub trim : Text → Text
unfolding trim_front trim_back
trim s = trim_back is_space (trim_front is_space s)

-- Trim with the characters to remove.
unfoldable pub trim_chars : Text → Text → Text
unfolding trim_front trim_back
trim_chars s chars =
    trim_back (λ c. contains ℕ_discrete c chars) (trim_front (λ c. contains ℕ_discrete c chars) s)

abbrev pub is_blank : Text → Bool
is_blank s = is_empty (trim s)

abbrev pub has_prefix : Text → Text → Bool
has_prefix s prefix = leb (length prefix) (length s) && starts_with prefix s

abbrev pub has_suffix : Text → Text → Bool
has_suffix s suffix =
    leb (length suffix) (length s)
    && ite (text_dec (drop (length s - length suffix) s) suffix) true false

abbrev pub has_text : Text → Text → Bool
has_text s needle = elim (find_text needle s) [ none ↦ false | some _ ↦ true ]

abbrev pub to_lower : Text → Text
to_lower = map (λ c. if leb 65 c && leb c 90 then c + 32 else c)

abbrev pub to_upper : Text → Text
to_upper = map (λ c. if leb 97 c && leb c 122 then c - 32 else c)

-- The loop of ReplaceAll from `pos` on.
unfoldable pub replace_loop : ℕ → Text → Text → Text → Text
unfolding find_text
replace_loop zero from to s = s
replace_loop (suc fuel) from to s = elim (find_text from s) [
  | none ↦ s
  | some i ↦ take i s ++ (to ++ replace_loop fuel from to (drop (i + length from) s))
]

unfoldable pub replace_all : Text → Text → Text → Text
unfolding replace_loop
replace_all s from to = if is_empty from then s else replace_loop (length s) from to s

-- What std::strtoll leaves unread after its digits.
unfoldable pub after_digits : Text → Text
after_digits [] = []
after_digits (c ∷ s) = let rest = after_digits s in if is_digit c then rest else c ∷ s

-- The whole text has to be read, and no digit and a value out of range are errors.
unfoldable pub to_int64 : Text → Option ℤ
unfolding after_digits split_sign skip_space stoll
to_int64 s =
    if is_empty (after_digits (split_sign (skip_space s)).1)
    then elim (stoll s) [ done v ↦ some v | throw e ↦ none ]
    else none

-- `c_str()` up to its first zero byte, which is what std::strtod reads.
unfoldable pub c_str : Text → Text
c_str [] = []
c_str (c ∷ s) = let rest = c_str s in if c == 0 then [] else c ∷ rest

-- `strtod` gives the value, how many characters it read, and whether it set errno.
unfoldable pub to_double : {F : Type 0} → (Text → F × ℕ × Bool) → Text → Option F
unfolding c_str
to_double strtod s =
    let (v, used, erred) = strtod (c_str s) in
    if is_empty s || (erred || not (used == length s)) then none else some v
