-- ===== src/Toolkit/Lexer/Slices.antt =====
-- Tokens are slices of the source: the text, the offset, the line and the column of a token are
-- those of a place in the source, and the lexer goes on behind it.
use lark.Base.{
  ℕ, suc, ◌<◌, ◌≡◌, ◌≢◌, ◌==◌, ◌||◌, refl, Bool, true, false, Bool-cases, inl, inr, Option-cases,
  List, [], ◌∷◌, ◌++◌, Text, text_dec, length, drop, arith, ℕ_discrete,
}
use lark.Base.Dict.{contains}
use lark.Toolkit.Lexer.{
  TokenKind, ident, number, symbol, end, Token, Lexed, token_of, fail, stod_error, has_double,
  Cursor, is_alpha, is_number_char, is_ident_char, skip_space, span, find_symbol, after, token_at,
  starts_number, lex_symbol, lex_front, lex_at, lex, DslError,
}
use lark.Toolkit.Lexer.Spans.{
  cursor, Follows, skip_space-Follows, span-append, NoNewline, span-NoNewline, after-Follows,
  find_symbol-prefix,
}

-- The token stands at the cursor, and the lexer goes on at `c'`.
pub record Placed (c : Cursor) (t : Token) (c' : Cursor) : Type 0 where
  pub follows : Follows c t.lexeme c'
  pub offset : t.offset ≡ c.pos
  pub line : t.line ≡ c.line
  pub col : t.col ≡ c.col
  pub last : t.kind ≡ end → c.rest ≡ []
  pub nonempty : t.kind ≢ end → 0 < length t.lexeme

-- A token at the cursor, an error with the position of the cursor, or a number there that std::stod
-- does not read.
pub data LexVerdict (c : Cursor) : Lexed (Token × Cursor) → Type 0 where
  found : (t : Token) (c' : Cursor) → Placed c t c' → LexVerdict c (token_of (t, c'))
  refused : (e : DslError) → e.line ≡ c.line → e.col ≡ c.col → c.rest ≢ [] → LexVerdict c (fail e)
  unread :
      (digits more : Text)
      → c.rest ≡ digits ++ more
      → 0 < length digits
      → has_double digits ≡ false
      → LexVerdict c stod_error

placed :
    (kind : TokenKind) (lexeme rest : Text) (c : Cursor)
    → c.rest ≡ lexeme ++ rest
    → NoNewline lexeme
    → kind ≢ end
    → 0 < length lexeme
    → LexVerdict c (token_of (token_at kind lexeme c, after lexeme rest c))
placed kind lexeme rest c e h k n = found (token_at kind lexeme c) (after lexeme rest c) (record {
  follows = after-Follows lexeme rest c e h;
  offset = refl;
  line = refl;
  col = refl;
  last = λ bad. absurd (k bad);
  nonempty = λ good. n;
})

-- No symbol is empty or has a new line in it.
abbrev pub AreSymbols : List Text → Type 0
AreSymbols multi = (s : Text) → (contains text_dec s multi ≡ true) → NoNewline s × (0 < length s)

span-nonempty :
    (test : ℕ → Bool) (c : ℕ) (cs : Text) → test c ≡ true → 0 < length (span test (c ∷ cs)).0
unfolding span
span-nonempty test c cs h = ground (arith, h)

starts_number_lem : (c : ℕ) (cs : Text) → starts_number c cs ≡ true → is_number_char c ≡ true
unfolding starts_number
starts_number_lem c [] h = ground (arith, h)
starts_number_lem c (d ∷ cs) h = ground (arith, h)

-- The cursor behind the spaces and comments.
abbrev pub skipped : Cursor → Cursor
skipped c = skip_space false c.rest c.pos c.line c.col

module _ (symbols : Text) (multi : List Text) (fit : AreSymbols multi) where
  lex_symbol-LexVerdict :
      (ch : ℕ) (cs : Text) (pos line col : ℕ)
      → (ch == 10) ≡ false
      → LexVerdict
          (cursor (ch ∷ cs) pos line col)
          (lex_symbol symbols multi ch cs (cursor (ch ∷ cs) pos line col))
  unfolding lex_symbol contains
  lex_symbol-LexVerdict ch cs pos line col black =
      let c = cursor (ch ∷ cs) pos line col in
      elim (Option-cases (find_symbol multi (ch ∷ cs))) [
        | inr (s, e) ↦
            let (split, member) = find_symbol-prefix multi (ch ∷ cs) s e in
            rw (e, lex_symbol)
              (placed symbol s (drop (length s) (ch ∷ cs)) c split (fit s member).0 (λ k. cc)
                (fit s member).1)
        | inl e ↦
            rw (e, lex_symbol)
              (elim (Bool-cases (contains ℕ_discrete ch symbols)) [
                | inl e' ↦ rw e' (
                    placed symbol (ch ∷ []) cs c refl (ground (arith, black)) (λ k. cc)
                      (omega arith))
                | inr e' ↦ rw e' (refused _ refl refl (λ k. cc))
              ])
      ]

  lex_front-LexVerdict :
      (ch : ℕ) (cs : Text) (pos line col : ℕ)
      → (ch == 10) ≡ false
      → LexVerdict
          (cursor (ch ∷ cs) pos line col)
          (lex_front symbols multi ch cs (cursor (ch ∷ cs) pos line col))
  unfolding lex_front starts_number
  lex_front-LexVerdict ch cs pos line col black =
      let c = cursor (ch ∷ cs) pos line col in
      elim (Bool-cases (starts_number ch cs)) [
        | inl e ↦ rw e (elim (Bool-cases (has_double (span is_number_char (ch ∷ cs)).0)) [
          | inr out ↦
              rw (out, lex_front)
                (unread (span is_number_char (ch ∷ cs)).0 (span is_number_char (ch ∷ cs)).1
                  (span-append is_number_char (ch ∷ cs))
                  (span-nonempty is_number_char ch cs (starts_number_lem ch cs e)) out)
          | inl read ↦
              rw (read, lex_front)
                (placed number _ _ c (span-append is_number_char (ch ∷ cs))
                  (span-NoNewline is_number_char (ch ∷ cs) refl) (λ k. cc)
                  (span-nonempty is_number_char ch cs (starts_number_lem ch cs e)))
        ])
        | inr e ↦ rw e (elim (Bool-cases (is_alpha ch || (ch == 95))) [
          | inl e' ↦ rw e' (
              placed ident _ _ c (span-append is_ident_char (ch ∷ cs))
                (span-NoNewline is_ident_char (ch ∷ cs) refl) (λ k. cc)
                (span-nonempty is_ident_char ch cs (ground (arith, e'))))
          | inr e' ↦ rw e' (lex_symbol-LexVerdict ch cs pos line col black)
        ])
      ]

  skip_space-front :
      (comment : Bool) (cs : Text) (pos line col ch : ℕ) (more : Text)
      → (skip_space comment cs pos line col).rest ≡ ch ∷ more
      → (ch == 10) ≡ false
  unfolding skip_space
  skip_space-front comment [] pos line col ch more h = cc
  skip_space-front comment (c ∷ cs) pos line col ch more h = ground (
    arith,
    h,
    skip_space-front false cs (suc pos) (suc line) 1 ch more,
    skip_space-front false cs (suc pos) line (suc col) ch more,
    skip_space-front true cs (suc pos) line (suc col) ch more,
  )

  lex_at-LexVerdict :
      (rest : Text) (pos line col : ℕ)
      → ((ch : ℕ) (more : Text) → rest ≡ ch ∷ more → (ch == 10) ≡ false)
      → LexVerdict (cursor rest pos line col) (lex_at symbols multi (cursor rest pos line col))
  unfolding lex_at
  lex_at-LexVerdict [] pos line col h =
      let c = cursor [] pos line col in
      found (token_at end [] c) c (record {
        follows = record { rest = refl; pos = omega arith; at = refl };
        offset = refl;
        line = refl;
        col = refl;
        last = λ e. refl;
        nonempty = λ bad. absurd (bad refl);
      })
  lex_at-LexVerdict (ch ∷ cs) pos line col h =
      lex_front-LexVerdict ch cs pos line col (h ch cs refl)

  -- Where the symbols have no new line in them and are not empty, Lex passes over some text and
  -- then finds a token there, fails with that position, or throws the std::out_of_range of
  -- std::stod on a run of digits there. The text of the token is the source at its offset, its line
  -- and column count the lines and characters before it, the lexer goes on behind it, a token is
  -- empty only at the end of the source, and Lex does not fail there.
  pub lex-LexVerdict :
      (c : Cursor)
      → ((ws : Text) × Follows c ws (skipped c)) × LexVerdict (skipped c) (lex symbols multi c)
  unfolding lex
  lex-LexVerdict c = (
    skip_space-Follows false c.rest c.pos c.line c.col,
    lex_at-LexVerdict (skipped c).rest (skipped c).pos (skipped c).line (skipped c).col
        (λ ch more e. skip_space-front false c.rest c.pos c.line c.col ch more e),
  )
