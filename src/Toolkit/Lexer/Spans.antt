-- ===== src/Toolkit/Lexer/Spans.antt =====
-- What the lexer passes over: the text between two positions, with the lines and columns that it
-- moves by.
use mathlib.Core.List.{append_assoc}
use lark.Base.{
  ℕ, suc, ◌+◌, ◌≡◌, ◌∙◌, ◌==◌, ◌||◌, refl, sym, ap, Bool, true, false, Bool-cases, inl, inr, some,
  List, [], ◌∷◌, ◌++◌, Text, text_dec, length, length-append, take, drop, take-append-drop, arith,
  if◌then◌else◌, ℕ_discrete,
}
use lark.Base.Dict.{contains}
use lark.Toolkit.Lexer.{Cursor, is_space, skip_space, span, find_symbol, after}

-- The line and the column after a text.
abbrev pub walk : Text → ℕ × ℕ → ℕ × ℕ
walk [] at = at
walk (c ∷ cs) at = walk cs (if c == 10 then (suc at.0, 1) else (at.0, suc at.1))

pub walk-append : (xs ys : Text) (at : ℕ × ℕ) → walk (xs ++ ys) at ≡ walk ys (walk xs at)
walk-append [] ys at = refl
walk-append (c ∷ cs) ys at = walk-append cs ys (if c == 10 then (suc at.0, 1) else (at.0, suc at.1))

-- `c'` is the cursor behind `between`.
pub record Follows (c : Cursor) (between : Text) (c' : Cursor) : Type 0 where
  pub rest : c.rest ≡ between ++ c'.rest
  pub pos : c'.pos ≡ c.pos + length between
  pub at : walk between (c.line, c.col) ≡ (c'.line, c'.col)

pub Follows-trans :
    (c d e : Cursor) (xs ys : Text) → Follows c xs d → Follows d ys e → Follows c (xs ++ ys) e
Follows-trans c d e xs ys f g = record {
  rest = f.rest ∙ ap (λ l. xs ++ l) g.rest ∙ sym (append_assoc xs ys e.rest);
  pos = omega (arith, f.pos, g.pos, length-append xs ys);
  at = walk-append xs ys (c.line, c.col) ∙ ap (walk ys) f.at ∙ g.at;
}

abbrev pub cursor : Text → ℕ → ℕ → ℕ → Cursor
cursor rest pos line col = record { rest = rest; pos = pos; line = line; col = col }

Follows-newline :
    (ch : ℕ) (cs : Text) (pos line col : ℕ) (xs : Text) (d : Cursor)
    → (ch == 10) ≡ true
    → Follows (cursor cs (suc pos) (suc line) 1) xs d
    → Follows (cursor (ch ∷ cs) pos line col) (ch ∷ xs) d
Follows-newline ch cs pos line col xs d e f = record {
  rest = ap (◌∷◌ ch) f.rest;
  pos = omega (arith, f.pos);
  at = ap (λ b. walk xs (if b then (suc line, 1) else (line, suc col))) e ∙ f.at;
}

Follows-beside :
    (ch : ℕ) (cs : Text) (pos line col : ℕ) (xs : Text) (d : Cursor)
    → (ch == 10) ≡ false
    → Follows (cursor cs (suc pos) line (suc col)) xs d
    → Follows (cursor (ch ∷ cs) pos line col) (ch ∷ xs) d
Follows-beside ch cs pos line col xs d e f = record {
  rest = ap (◌∷◌ ch) f.rest;
  pos = omega (arith, f.pos);
  at = ap (λ b. walk xs (if b then (suc line, 1) else (line, suc col))) e ∙ f.at;
}

-- SkipSpace passes over some text.
pub skip_space-Follows :
    (comment : Bool) (cs : Text) (pos line col : ℕ)
    → (ws : Text) × Follows (cursor cs pos line col) ws (skip_space comment cs pos line col)
unfolding skip_space
skip_space-Follows comment [] pos line col =
    ([], record { rest = refl; pos = omega arith; at = refl })
skip_space-Follows comment (c ∷ cs) pos line col =
    let (below, f) = skip_space-Follows false cs (suc pos) (suc line) 1 in
    let (beside, g) = skip_space-Follows false cs (suc pos) line (suc col) in
    let (hidden, h) = skip_space-Follows true cs (suc pos) line (suc col) in
    elim (Bool-cases (c == 10)) [
      | inl e ↦ rw e (c ∷ below, Follows-newline c cs pos line col below _ e f)
      | inr e ↦ rw e (elim (Bool-cases (comment || (c == 35))) [
        | inl e' ↦ rw e' (c ∷ hidden, Follows-beside c cs pos line col hidden _ e h)
        | inr e' ↦ rw e' (elim (Bool-cases (is_space c)) [
          | inl e'' ↦ rw e'' (c ∷ beside, Follows-beside c cs pos line col beside _ e g)
          | inr e'' ↦ rw e'' ([], record { rest = refl; pos = omega arith; at = refl })
        ])
      ])
    ]

pub span-append : (test : ℕ → Bool) (cs : Text) → cs ≡ (span test cs).0 ++ (span test cs).1
unfolding span
span-append test [] = refl
span-append test (c ∷ cs) = ground (arith, span-append test cs)

-- Text without a new line.
abbrev pub NoNewline : Text → Type 0
NoNewline cs = Path Bool (contains ℕ_discrete 10 cs) false

pub span-NoNewline : (test : ℕ → Bool) (cs : Text) → test 10 ≡ false → NoNewline (span test cs).0
unfolding span contains
span-NoNewline test [] h = refl
span-NoNewline test (c ∷ cs) h = ground (arith, span-NoNewline test cs h)

pub walk-NoNewline :
    (cs : Text) (line col : ℕ) → NoNewline cs → walk cs (line, col) ≡ (line, col + length cs)
unfolding contains
walk-NoNewline [] line col h = ap (λ (k : ℕ). (line, k)) (omega arith)
walk-NoNewline (c ∷ cs) line col h =
    let other : (c == 10) ≡ false = ground (arith, h) in
    ap (λ b. walk cs (if b then (suc line, 1) else (line, suc col))) other
    ∙ walk-NoNewline cs line (suc col) (ground (arith, h))
    ∙ ap (λ (k : ℕ). (line, k)) (omega arith)

pub after-Follows :
    (lexeme rest : Text) (c : Cursor)
    → c.rest ≡ lexeme ++ rest
    → NoNewline lexeme
    → Follows c lexeme (after lexeme rest c)
after-Follows lexeme rest c e h = record {
  rest = e;
  pos = refl;
  at = walk-NoNewline lexeme c.line c.col h;
}

pub find_symbol-prefix :
    (syms : List Text) (rest found : Text)
    → find_symbol syms rest ≡ some found
    → (rest ≡ found ++ drop (length found) rest) × (contains text_dec found syms ≡ true)
unfolding find_symbol contains
find_symbol-prefix [] rest found h = cc
find_symbol-prefix (s ∷ syms) rest found h = elim (text_dec (take (length s) rest) s) [
  | yes e ↦
      let same : s ≡ found = ground (arith, e) in
      (
        rw (← same)
            (sym (take-append-drop (length s) rest) ∙ ap (λ t. t ++ drop (length s) rest) e),
        ground (arith, same),
      )
  | no ne ↦
      let (split, member) = find_symbol-prefix syms rest found (ground (arith, ne)) in
      (split, ground (arith, member))
]
