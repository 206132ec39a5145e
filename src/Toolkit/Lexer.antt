-- ===== src/Toolkit/Lexer.antt =====
-- toolkit::dsl::Lexer and the token functions of Parser (toolkit/src/dsl.cpp,
-- toolkit/include/toolkit/dsl.h), in the C locale. The number of a token is what std::stod makes
-- of its text, so a token has the text only; std::stod throws where that is no double.
pub mod Spans
pub mod Slices
pub mod Munch
use lark.Base.{
  ℕ, zero, suc, ◌+◌, ◌-◌, ◌*◌, ◌^◌, ◌%◌, ltb, leb, ◌==◌, Bool, true, false, not, ◌&&◌, ◌||◌, Option,
  none, some, List, [], ◌∷◌, ◌++◌, Text, text, text_dec, length, take, drop, ite, if◌then◌else◌,
  ℕ_discrete,
}
use lark.Base.Dict.{contains}

pub data TokenKind : Type 0 where
  ident number symbol end : TokenKind

pub record Token : Type 0 where
  pub kind : TokenKind
  pub lexeme : Text
  pub offset : ℕ
  pub line : ℕ
  pub col : ℕ

-- DslError: the message and the position.
pub record DslError : Type 0 where
  pub message : Text
  pub line : ℕ
  pub col : ℕ

-- A token, a DslError, or the std::out_of_range of std::stod.
pub data Lexed {ℓ} (A : Type ℓ) : Type ℓ where
  token_of : A → Lexed A
  fail : DslError → Lexed A
  stod_error : Lexed A

-- What is left of the source from `pos_` on, and the position.
pub record Cursor : Type 0 where
  pub rest : Text
  pub pos : ℕ
  pub line : ℕ
  pub col : ℕ

abbrev pub start_of : Text → Cursor
start_of source = record { rest = source; pos = 0; line = 1; col = 1 }

abbrev pub is_digit : ℕ → Bool
is_digit c = leb 48 c && leb c 57

abbrev pub is_alpha : ℕ → Bool
is_alpha c = (leb 65 c && leb c 90) || (leb 97 c && leb c 122)

abbrev pub is_space : ℕ → Bool
is_space c = (leb 9 c && leb c 13) || (c == 32)

abbrev pub is_number_char : ℕ → Bool
is_number_char c = is_digit c || (c == 46)

abbrev pub is_ident_char : ℕ → Bool
is_ident_char c = (is_alpha c || is_digit c) || (c == 95)

-- SkipSpace; the flag is true inside a comment.
unfoldable pub skip_space : Bool → Text → ℕ → ℕ → ℕ → Cursor
skip_space comment [] pos line col = record { rest = []; pos = pos; line = line; col = col }
skip_space comment (c ∷ cs) pos line col =
    let below = skip_space false cs (suc pos) (suc line) 1 in
    let beside = skip_space false cs (suc pos) line (suc col) in
    let hidden = skip_space true cs (suc pos) line (suc col) in
    let here : Cursor = record { rest = c ∷ cs; pos = pos; line = line; col = col } in
    if c == 10
    then below
    else if comment || (c == 35)
    then hidden
    else if is_space c
    then beside
    else here

-- The characters from the front that a test accepts, and the rest.
unfoldable pub span : (ℕ → Bool) → Text → Text × Text
span test [] = ([], [])
span test (c ∷ cs) =
    let (taken, left) = span test cs in if test c then (c ∷ taken, left) else ([], c ∷ cs)

-- `source_.substr(pos_, sym.size()) == sym`.
abbrev pub starts_with : Text → Text → Bool
starts_with sym rest = ite (text_dec (take (length sym) rest) sym) true false

unfoldable pub find_symbol : List Text → Text → Option Text
find_symbol [] rest = none
find_symbol (sym ∷ syms) rest =
    let later = find_symbol syms rest in if starts_with sym rest then some sym else later

-- The constructor sorts `multi_` by length, the longest first. The order of equally long symbols
-- is left open by std::sort; none of them is a prefix where another one is.
unfoldable pub insert_symbol : Text → List Text → List Text
insert_symbol sym [] = sym ∷ []
insert_symbol sym (s ∷ syms) =
    let later = insert_symbol sym syms in
    if ltb (length sym) (length s) then s ∷ later else sym ∷ s ∷ syms

unfoldable pub sort_symbols : List Text → List Text
unfolding insert_symbol
sort_symbols [] = []
sort_symbols (sym ∷ syms) = insert_symbol sym (sort_symbols syms)

-- The cursor after a token of this text, which has no new line in it.
abbrev pub after : Text → Text → Cursor → Cursor
after lexeme rest c = record c {
  rest = rest;
  pos = c.pos + length lexeme;
  col = c.col + length lexeme;
}

abbrev pub token_at : TokenKind → Text → Cursor → Token
token_at kind lexeme c = record {
  kind = kind;
  lexeme = lexeme;
  offset = c.pos;
  line = c.line;
  col = c.col;
}

-- `'.'` before a digit starts a number, too.
unfoldable pub starts_number : ℕ → Text → Bool
starts_number c [] = is_digit c
starts_number c (d ∷ _) = is_digit c || ((c == 46) && is_digit d)

-- A numeral without a sign or an exponent up to its second '.': its digits as a number, and how
-- many stand behind the '.'.
unfoldable pub decimal : Bool → ℕ → ℕ → Text → ℕ × ℕ
decimal point n k [] = (n, k)
decimal point n k (c ∷ cs) =
    let dot = c == 46 in
    let rest =
      decimal (point || dot) (if dot then n else 10 * n + (c - 48)) (if point then suc k else k)
        cs in
    if point && dot then (n, k) else rest

-- Whether std::stod returns: it throws where the number rounds to 2 ^ 1024 or more, and, with glibc
-- on x86, where it rounds to less than 2 ^ -1022 and is no double.
unfoldable pub has_double : Text → Bool
unfolding decimal
has_double digits =
    let (n, k) = decimal false 0 0 digits in
    let overflows = leb ((2 ^ 54 - 1) * 2 ^ 970 * 10 ^ k) n in
    let tiny = ltb (n * 2 ^ 1_076) ((2 ^ 54 - 1) * 10 ^ k) in
    let exact = (n * 2 ^ 1_074) % (10 ^ k) == 0 in not overflows && (not tiny || exact)

module _ (symbols : Text) (multi : List Text) where
  -- The end of Lex: a symbol.
  unfoldable pub lex_symbol : ℕ → Text → Cursor → Lexed (Token × Cursor)
  lex_symbol ch cs c = elim (find_symbol multi c.rest) [
    | some s ↦ token_of (token_at symbol s c, after s (drop (length s) c.rest) c)
    | none ↦
        if contains ℕ_discrete ch symbols
        then token_of (token_at symbol (ch ∷ []) c, after (ch ∷ []) cs c)
        else fail (record {
          message = text "unexpected character '" ++ (ch ∷ text "'");
          line = c.line;
          col = c.col;
        })
  ]

  -- Lex where a character is left.
  unfoldable pub lex_front : ℕ → Text → Cursor → Lexed (Token × Cursor)
  unfolding lex_symbol has_double
  lex_front ch cs c =
      let (digits, after_number) = span is_number_char c.rest in
      let (name, after_name) = span is_ident_char c.rest in
      if starts_number ch cs
      then (if has_double digits
          then token_of (token_at number digits c, after digits after_number c)
          else stod_error)
      else if is_alpha ch || (ch == 95)
      then token_of (token_at ident name c, after name after_name c)
      else lex_symbol ch cs c

  -- Lex after SkipSpace.
  unfoldable pub lex_at : Cursor → Lexed (Token × Cursor)
  unfolding lex_front
  lex_at c = elim c.rest [ [] ↦ token_of (token_at end [] c, c) | ch ∷ cs ↦ lex_front ch cs c ]

  unfoldable pub lex : Cursor → Lexed (Token × Cursor)
  unfolding lex_at
  lex c = lex_at (skip_space false c.rest c.pos c.line c.col)
