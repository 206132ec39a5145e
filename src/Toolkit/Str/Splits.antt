-- ===== src/Toolkit/Str/Splits.antt =====
-- Split, Join and ReplaceAll against each other.
use mathlib.Core.Path.{ap₂}
use lark.Base.{
  ℕ, zero, suc, ◌+◌, ◌≤◌, ◌≡◌, ◌≢◌, ◌∙◌, refl, sym, ap, true, false, Bool-cases, Option-cases, inl,
  inr, none, some, List, [], ◌∷◌, ◌++◌, is_empty, Text, text_dec, length, length-drop, take, drop,
  take-append-drop, arith, if◌then◌else◌,
}
use lark.Toolkit.Lexer.{starts_with}
use lark.Toolkit.Str.{find_text, split_loop, split, join, replace_loop, replace_all}

starts_with-take : (needle s : Text) → starts_with needle s ≡ true → take (length needle) s ≡ needle
starts_with-take needle s h = elim (text_dec (take (length needle) s) needle) [
  | yes e ↦ e
  | no ne ↦ absurd (ground (arith, h, ne))
]

-- An occurrence cuts the text in three.
pub find_text-cut :
    (needle s : Text) (i : ℕ)
    → find_text needle s ≡ some i
    → s ≡ take i s ++ (needle ++ drop (i + length needle) s)
unfolding find_text
find_text-cut [] [] i h = let here : 0 ≡ i = ground (arith, h) in rw (← here) refl
find_text-cut (n ∷ ns) [] i h = cc
find_text-cut needle (c ∷ cs) i h = elim (Bool-cases (starts_with needle (c ∷ cs))) [
  | inl e ↦
      let here : i ≡ 0 = ground (arith, h, e) in
      let front : 0 + length needle ≡ length needle = omega arith in
      rw (here, front)
        (sym (take-append-drop (length needle) (c ∷ cs))
          ∙ ap (λ t. t ++ drop (length needle) (c ∷ cs)) (starts_with-take needle (c ∷ cs) e))
  | inr e ↦ elim (Option-cases (find_text needle cs)) [
    | inl none_later ↦ absurd (ground (arith, h, e, none_later))
    | inr (j, later) ↦
        let here : i ≡ suc j = ground (arith, h, e, later) in
        let shift : suc j + length needle ≡ suc (j + length needle) = omega arith in
        rw (here, shift) (ap (◌∷◌ c) (find_text-cut needle cs j later))
  ]
]

join-cons :
    (p : Text) (ps : List Text) (sep : Text)
    → ps ≢ []
    → join (p ∷ ps) sep ≡ p ++ (sep ++ join ps sep)
unfolding join
join-cons p [] sep h = absurd (h refl)
join-cons p (q ∷ ps) sep h = refl

split_loop-nonempty : (fuel : ℕ) (delim s : Text) → split_loop fuel delim false s ≢ []
unfolding split_loop
split_loop-nonempty zero delim s = λ e. cc
split_loop-nonempty (suc fuel) delim s = elim (Option-cases (find_text delim s)) [
  | inl e ↦ λ k. ground (arith, e, k)
  | inr (i, e) ↦ λ k. ground (arith, e, k)
]

split_loop-found :
    (fuel : ℕ) (delim s : Text) (i : ℕ)
    → find_text delim s ≡ some i
    → split_loop (suc fuel) delim false s
      ≡ take i s ∷ split_loop fuel delim false (drop (i + length delim) s)
unfolding split_loop
split_loop-found fuel delim s i h = ground (arith, h)

split_loop-last :
    (fuel : ℕ) (delim s : Text)
    → find_text delim s ≡ none
    → split_loop (suc fuel) delim false s ≡ s ∷ []
unfolding split_loop
split_loop-last fuel delim s h = ground (arith, h)

join-split_loop : (fuel : ℕ) (delim s : Text) → join (split_loop fuel delim false s) delim ≡ s
unfolding split_loop join
join-split_loop zero delim s = refl
join-split_loop (suc fuel) delim s = elim (Option-cases (find_text delim s)) [
  | inl e ↦ ap (λ ps. join ps delim) (split_loop-last fuel delim s e)
  | inr (i, e) ↦
      let rest = drop (i + length delim) s in
      ap (λ ps. join ps delim) (split_loop-found fuel delim s i e)
      ∙ join-cons (take i s) (split_loop fuel delim false rest) delim
          (split_loop-nonempty fuel delim rest)
      ∙ ap (λ t. take i s ++ (delim ++ t)) (join-split_loop fuel delim rest)
      ∙ sym (find_text-cut delim s i e)
]

-- Joining what Split makes of a text gives the text back, whatever the delimiter.
join-split : (s delim : Text) → join (split s delim false) delim ≡ s
unfolding split join
join-split s [] = refl
join-split s (d ∷ ds) = join-split_loop (length s) (d ∷ ds) s

replace_loop-found :
    (fuel : ℕ) (from to s : Text) (i : ℕ)
    → find_text from s ≡ some i
    → replace_loop (suc fuel) from to s
      ≡ take i s ++ (to ++ replace_loop fuel from to (drop (i + length from) s))
unfolding replace_loop
replace_loop-found fuel from to s i h = ground (arith, h)

replace_loop-join :
    (fuel : ℕ) (from to s : Text)
    → replace_loop fuel from to s ≡ join (split_loop fuel from false s) to
unfolding replace_loop split_loop join
replace_loop-join zero from to s = refl
replace_loop-join (suc fuel) from to s = elim (Option-cases (find_text from s)) [
  | inl e ↦ ground (arith, e) ∙ sym (ap (λ ps. join ps to) (split_loop-last fuel from s e))
  | inr (i, e) ↦
      let rest = drop (i + length from) s in
      replace_loop-found fuel from to s i e
      ∙ ap (λ t. take i s ++ (to ++ t)) (replace_loop-join fuel from to rest)
      ∙ sym (
          ap (λ ps. join ps to) (split_loop-found fuel from s i e)
          ∙ join-cons (take i s) (split_loop fuel from false rest) to
              (split_loop-nonempty fuel from rest))
]

-- ReplaceAll is Split at the old text and Join with the new one.
pub replace_all-join : (s from to : Text) → replace_all s from to ≡ join (split s from false) to
unfolding replace_all split join
replace_all-join s [] to = refl
replace_all-join s (f ∷ fs) to = replace_loop-join (length s) (f ∷ fs) to s

-- A front of a text has only occurrences that the text has.
take-take : (d s : Text) (n : ℕ) → take (length d) (take n s) ≡ d → take (length d) s ≡ d
take-take [] s n h = refl
take-take (x ∷ d) s zero h = cc
take-take (x ∷ d) [] (suc n) h = cc
take-take (x ∷ d) (c ∷ cs) (suc n) h =
    ap₂ (λ a b. a ∷ b) (ground (arith, h)) (take-take d cs n (ground (arith, h)))

-- Before the first occurrence there is none.
find_text-take :
    (d : ℕ) (ds s : Text) (i : ℕ)
    → find_text (d ∷ ds) s ≡ some i
    → find_text (d ∷ ds) (take i s) ≡ none
unfolding find_text
find_text-take d ds [] i h = cc
find_text-take d ds (c ∷ cs) zero h = refl
find_text-take d ds (c ∷ cs) (suc i) h = elim (Bool-cases (starts_with (d ∷ ds) (c ∷ take i cs))) [
  | inl e ↦
      let whole =
        take-take (d ∷ ds) (c ∷ cs) (suc i) (starts_with-take (d ∷ ds) (c ∷ take i cs) e) in
      absurd (ground (arith, h, whole))
  | inr e ↦
      let later : find_text (d ∷ ds) cs ≡ some i = ground (arith, h) in
      ground (arith, e, find_text-take d ds cs i later)
]

-- No part has the delimiter in it.
abbrev pub AreFree : Text → List Text → Type 0
AreFree delim [] = Unit {0}
AreFree delim (p ∷ ps) = (find_text delim p ≡ none) × AreFree delim ps

split_loop-AreFree :
    (fuel d : ℕ) (ds s : Text)
    → length s ≤ fuel
    → AreFree (d ∷ ds) (split_loop fuel (d ∷ ds) false s)
unfolding split_loop find_text
split_loop-AreFree zero d ds [] h = (refl, tt)
split_loop-AreFree zero d ds (c ∷ cs) h = absurd (omega arith)
split_loop-AreFree (suc fuel) d ds s h = elim (Option-cases (find_text (d ∷ ds) s)) [
  | inl e ↦ rw (split_loop-last fuel (d ∷ ds) s e) (e, tt)
  | inr (i, e) ↦
      let rest = drop (i + length (d ∷ ds)) s in
      rw (split_loop-found fuel (d ∷ ds) s i e) (
        find_text-take d ds s i e,
        split_loop-AreFree fuel d ds rest (omega (arith, length-drop (i + length (d ∷ ds)) s, h)),
      )
]

-- None of the parts that Split makes at a delimiter has the delimiter in it.
split-AreFree : (d : ℕ) (ds s : Text) → AreFree (d ∷ ds) (split s (d ∷ ds) false)
unfolding split
split-AreFree d ds s = split_loop-AreFree (length s) d ds s (omega arith)

-- At a delimiter that is not empty, Split without skip_empty makes the parts that join to the text
-- and do not have the delimiter in them.
pub split-IsSplit :
    (d : ℕ) (ds s : Text)
    → (join (split s (d ∷ ds) false) (d ∷ ds) ≡ s) × AreFree (d ∷ ds) (split s (d ∷ ds) false)
split-IsSplit d ds s = (join-split s (d ∷ ds), split-AreFree d ds s)

abbrev pub drop_empty : List Text → List Text
drop_empty [] = []
drop_empty (p ∷ ps) = if is_empty p then drop_empty ps else p ∷ drop_empty ps

split_loop-drop_empty :
    (fuel : ℕ) (delim s : Text)
    → split_loop fuel delim true s ≡ drop_empty (split_loop fuel delim false s)
unfolding split_loop
split_loop-drop_empty zero delim s = ground arith
split_loop-drop_empty (suc fuel) delim s = elim (Option-cases (find_text delim s)) [
  | inl e ↦ ground (arith, e)
  | inr (i, e) ↦ ground (arith, e, split_loop-drop_empty fuel delim (drop (i + length delim) s))
]

-- With skip_empty, Split at a delimiter leaves exactly the empty parts out.
split-drop_empty :
    (d : ℕ) (ds s : Text) → split s (d ∷ ds) true ≡ drop_empty (split s (d ∷ ds) false)
unfolding split
split-drop_empty d ds s = split_loop-drop_empty (length s) (d ∷ ds) s
