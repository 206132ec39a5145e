-- ===== src/Toolkit/Lexer/Munch.antt =====
-- The longest symbol wins: the constructor's sort makes the first match the longest.
use mathlib.Core.Bool.{false≢true}
use lark.Base.{
  ◌≤◌, ◌≡◌, ◌∙◌, sym, ltb, ite, true, false, Option, none, some, Bool-cases, inl, inr, List, [],
  ◌∷◌, Text, text_dec, length, arith,
}
use lark.Base.Dict.{contains}
use lark.Toolkit.Lexer.{starts_with, find_symbol, insert_symbol, sort_symbols}

-- No symbol is longer than one before it.
abbrev pub IsDescending : List Text → Type 0
IsDescending [] = Unit {0}
IsDescending (s ∷ syms) =
    ((t : Text) → (contains text_dec t syms ≡ true) → length t ≤ length s) × IsDescending syms

contains-insert_symbol :
    (t s : Text) (syms : List Text)
    → contains text_dec t (insert_symbol s syms)
      ≡ ite (text_dec t s) true (contains text_dec t syms)
unfolding insert_symbol contains
contains-insert_symbol t s [] = ground arith
contains-insert_symbol t s (x ∷ syms) = ground (arith, contains-insert_symbol t s syms)

insert_symbol-IsDescending :
    (s : Text) (syms : List Text) → IsDescending syms → IsDescending (insert_symbol s syms)
unfolding insert_symbol contains
insert_symbol-IsDescending s [] d = (λ t h. cc, tt)
insert_symbol-IsDescending s (x ∷ syms) d =
    let later = insert_symbol-IsDescending s syms d.1 in
    elim (Bool-cases (ltb (length s) (length x))) [
      | inl e ↦ rw e (λ t h. ground (arith, h, contains-insert_symbol t s syms, d.0 t, e), later)
      | inr e ↦ rw e (λ t h. ground (arith, h, d.0 t, e), d)
    ]

pub contains-sort_symbols :
    (t : Text) (syms : List Text)
    → contains text_dec t (sort_symbols syms) ≡ contains text_dec t syms
unfolding sort_symbols contains
contains-sort_symbols t [] = ground arith
contains-sort_symbols t (s ∷ syms) =
    ground (arith, contains-insert_symbol t s (sort_symbols syms), contains-sort_symbols t syms)

sort_symbols-IsDescending : (syms : List Text) → IsDescending (sort_symbols syms)
unfolding sort_symbols
sort_symbols-IsDescending [] = tt
sort_symbols-IsDescending (s ∷ syms) =
    insert_symbol-IsDescending s (sort_symbols syms) (sort_symbols-IsDescending syms)

-- What the first match tells of the symbols that match.
abbrev pub IsLongest : List Text → Text → Option Text → Type 0
IsLongest syms rest none =
    (t : Text) → (contains text_dec t syms ≡ true) → starts_with t rest ≡ false
IsLongest syms rest (some s) =
    (contains text_dec s syms ≡ true)
    × (starts_with s rest ≡ true)
    × ((t : Text)
        → (contains text_dec t syms ≡ true)
        → (starts_with t rest ≡ true)
        → length t ≤ length s)

IsLongest-cons :
    (s : Text) (syms : List Text) (rest : Text) (o : Option Text)
    → starts_with s rest ≡ false
    → IsLongest syms rest o
    → IsLongest (s ∷ syms) rest o
unfolding contains
IsLongest-cons s syms rest none e l =
    λ t h. elim (text_dec t s) [ yes same ↦ rw same e | no other ↦ l t (ground (arith, h, other)) ]
IsLongest-cons s syms rest (some u) e (member, here, longest) = (
  ground (arith, member),
  here,
  λ t h k. elim (text_dec t s) [
    | yes same ↦ absurd (false≢true (sym e ∙ rw same at k))
    | no other ↦ longest t (ground (arith, h, other)) k
  ],
)

find_symbol-IsLongest :
    (syms : List Text) (rest : Text)
    → IsDescending syms
    → IsLongest syms rest (find_symbol syms rest)
unfolding find_symbol contains
find_symbol-IsLongest [] rest d = λ t h. cc
find_symbol-IsLongest (s ∷ syms) rest d = elim (Bool-cases (starts_with s rest)) [
  | inl e ↦ rw e (
    ground arith,
    e,
    λ t h k. elim (text_dec t s) [
      | yes same ↦ rw same (omega arith)
      | no other ↦ d.0 t (ground (arith, h, other))
    ],
  )
  | inr e ↦
      rw e
        (IsLongest-cons s syms rest (find_symbol syms rest) e (find_symbol-IsLongest syms rest d.1))
]

IsLongest-sort :
    (syms : List Text) (rest : Text) (o : Option Text)
    → IsLongest (sort_symbols syms) rest o
    → IsLongest syms rest o
IsLongest-sort syms rest none l = λ t h. l t (contains-sort_symbols t syms ∙ h)
IsLongest-sort syms rest (some s) (member, here, longest) = (
  sym (contains-sort_symbols s syms) ∙ member,
  here,
  λ t h k. longest t (contains-sort_symbols t syms ∙ h) k,
)

-- Whatever the order in which the symbols were given, the lexer finds the longest of those that the
-- source goes on with, and finds none only if it goes on with none of them.
pub find_symbol-sort_symbols :
    (syms : List Text) (rest : Text) → IsLongest syms rest (find_symbol (sort_symbols syms) rest)
find_symbol-sort_symbols syms rest =
    IsLongest-sort syms rest (find_symbol (sort_symbols syms) rest)
      (find_symbol-IsLongest (sort_symbols syms) rest (sort_symbols-IsDescending syms))
