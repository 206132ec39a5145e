-- ===== src/Toolkit/Parser/Shrinks.antt =====
-- How much of the source each token function of Parser leaves.
use lark.Base.{
  ℕ, ◌+◌, ◌<◌, ◌≤◌, ◌≡◌, ◌≢◌, ◌==◌, ◌||◌, [], ◌∷◌, refl, ap, Bool, true, false, Bool-cases,
  Option-cases, ℕ_discrete, inl, inr, Option, none, some, List, Text, length, length-append, arith,
}
use lark.Base.Dict.{contains}
use lark.Toolkit.Lexer.{
  is_alpha, starts_number, lex_front, lex_at, lex_symbol, span, find_symbol, TokenKind, ident, end,
  Token, Lexed, token_of, fail, stod_error, has_double, is_number_char, Cursor, lex,
}
use lark.Toolkit.Lexer.Slices.{
  AreSymbols, LexVerdict, found, refused, unread, skipped, lex-LexVerdict,
}
use lark.Toolkit.Lexer.Spans.{Follows}
use lark.Toolkit.Parser.{
  Parser, ◌>>=◌, same_kind, is_symbol, peek, at_end, match_symbol, expect_token, consume,
  expect_symbol,
}

abbrev peeked_size : Option Token → ℕ
peeked_size none = 0
peeked_size (some t) = length t.lexeme

-- The characters of the token in the cache and those behind it.
abbrev pub size : Parser → ℕ
size p = peeked_size p.peeked + length p.cursor.rest

abbrev pub starts_name : Text → Bool
starts_name [] = false
starts_name (c ∷ cs) = is_alpha c || (c == 95)

-- A token is empty only at the end, and an identifier starts as one.
abbrev pub IsSolid : Token → Type 0
IsSolid t = (t.kind ≢ end → 0 < length t.lexeme) × (t.kind ≡ ident → starts_name t.lexeme ≡ true)

abbrev IsSolid? : Option Token → Type 0
IsSolid? none = Unit {0}
IsSolid? (some t) = IsSolid t

-- At most n characters are left, and a token in the cache is solid.
abbrev pub Left : ℕ → Parser → Type 0
Left n p = IsSolid? p.peeked × (size p ≤ n)

-- A result has a property.
abbrev pub LexYields {ℓ} : {A : Type ℓ} → (A → Type 0) → Lexed A → Type 0
LexYields Q (token_of a) = Q a
LexYields Q (fail e) = Unit
LexYields Q stod_error = Unit

LexYields->>= {ℓ κ} :
    {A : Type ℓ} {B : Type κ} (Q : A → Type 0) (R : B → Type 0) (m : Lexed A) (f : A → Lexed B)
    → LexYields Q m
    → ((a : A) → Q a → LexYields R (f a))
    → LexYields R (m >>= f)
LexYields->>= Q R (token_of a) f y h = h a y
LexYields->>= Q R (fail e) f y h = tt
LexYields->>= Q R stod_error f y h = tt

abbrev Measured : Cursor → Token × Cursor → Type 0
Measured c r =
    (length r.0.lexeme + length r.1.rest ≤ length c.rest) × (r.0.kind ≢ end → 0 < length r.0.lexeme)

abbrev Named : Token × Cursor → Type 0
Named r = r.0.kind ≡ ident → starts_name r.0.lexeme ≡ true

abbrev Read : Cursor → Token × Cursor → Type 0
Read c r = (length r.0.lexeme + length r.1.rest ≤ length c.rest) × IsSolid r.0

LexYields-and :
    (c : Cursor) (m : Lexed (Token × Cursor))
    → LexYields (Measured c) m
    → LexYields Named m
    → LexYields (Read c) m
LexYields-and c (token_of r) (less, solid) name = (less, (solid, name))
LexYields-and c (fail e) y z = tt
LexYields-and c stod_error y z = tt

verdict-Measured :
    (c d : Cursor) (ws : Text) (r : Lexed (Token × Cursor))
    → Follows c ws d
    → LexVerdict d r
    → LexYields (Measured c) r
verdict-Measured c d ws _ f (found t e p) = (
  omega (
    arith,
    ap length f.rest,
    length-append ws d.rest,
    ap length p.follows.rest,
    length-append t.lexeme e.rest,
  ),
  p.nonempty,
)
verdict-Measured c d ws _ f (refused e l k n) = tt
verdict-Measured c d ws _ f (unread digits more e n out) = tt

-- What Peek gives: the token stays in the cache.
abbrev pub Peeked : ℕ → Token × Parser → Type 0
Peeked n r =
    IsSolid r.0 × (length r.0.lexeme + length r.1.cursor.rest ≤ n) × (r.1.peeked ≡ some r.0)

-- After a test: at most n characters are left, and fewer if it was true.
abbrev pub Tested : ℕ → Bool × Parser → Type 0
Tested n r = Left n r.1 × (r.0 ≡ true → size r.1 < n)

-- After a token.
abbrev pub Taken : ℕ → Token × Parser → Type 0
Taken n r = Left n r.1 × (size r.1 < n)

-- After any token, which is none only at the end.
abbrev pub Consumed : ℕ → Token × Parser → Type 0
Consumed n r = Left n r.1 × IsSolid r.0 × (r.0.kind ≢ end → size r.1 < n)

abbrev pub Shorter : ℕ → Parser → Type 0
Shorter n p = Left n p × (size p < n)

module _ (symbols : Text) (multi : List Text) (fit : AreSymbols multi) where
  lex-Measured : (c : Cursor) → LexYields (Measured c) (lex symbols multi c)
  lex-Measured c =
      let ((ws, f), v) = lex-LexVerdict symbols multi fit c in
      verdict-Measured c (skipped c) ws _ f v

  lex_symbol-Named :
      (ch : ℕ) (cs : Text) (c : Cursor) → LexYields Named (lex_symbol symbols multi ch cs c)
  unfolding lex_symbol
  lex_symbol-Named ch cs c = elim (Option-cases (find_symbol multi c.rest)) [
    | inr (s, e) ↦ rw (e, lex_symbol) (λ bad. cc)
    | inl e ↦
        rw (e, lex_symbol)
          (elim (Bool-cases (contains ℕ_discrete ch symbols)) [
            | inl known ↦ rw known (λ bad. cc)
            | inr other ↦ rw other tt
          ])
  ]

  lex_front-Named :
      (ch : ℕ) (cs : Text) (pos line col : ℕ)
      → LexYields Named (
          lex_front symbols multi ch cs
            (record { rest = ch ∷ cs; pos = pos; line = line; col = col }))
  unfolding lex_front span
  lex_front-Named ch cs pos line col = elim (Bool-cases (starts_number ch cs)) [
    | inl digits ↦ rw digits (elim (Bool-cases (has_double (span is_number_char (ch ∷ cs)).0)) [
      | inl read ↦ rw (read, lex_front) (λ bad. cc)
      | inr out ↦ rw (out, lex_front) tt
    ])
    | inr other ↦ rw other (elim (Bool-cases (is_alpha ch || (ch == 95))) [
      | inl name ↦ rw name (λ same. ground (arith, name))
      | inr sign ↦ rw sign (lex_symbol-Named ch cs _)
    ])
  ]

  lex_at-Named :
      (rest : Text) (pos line col : ℕ)
      → LexYields Named
          (lex_at symbols multi (record { rest = rest; pos = pos; line = line; col = col }))
  unfolding lex_at
  lex_at-Named [] pos line col = λ bad. cc
  lex_at-Named (ch ∷ cs) pos line col = lex_front-Named ch cs pos line col

  lex-Named : (c : Cursor) → LexYields Named (lex symbols multi c)
  unfolding lex
  lex-Named c = lex_at-Named (skipped c).rest (skipped c).pos (skipped c).line (skipped c).col

  lex-Read : (c : Cursor) → LexYields (Read c) (lex symbols multi c)
  lex-Read c = LexYields-and c (lex symbols multi c) (lex-Measured c) (lex-Named c)

  cached-Peeked :
      (n : ℕ) (c : Cursor) (o : Option Token)
      → Left n (record { cursor = c; peeked = o })
      → LexYields (Peeked n) (peek symbols multi (record { cursor = c; peeked = o }))
  unfolding peek
  cached-Peeked n c (some t) (laid, small) = (laid, small, refl)
  cached-Peeked n c none (laid, small) =
      LexYields->>= (Read c) (Peeked n) (lex symbols multi c) _ (lex-Read c)
        (λ r (less, solid). (solid, omega (arith, less, small), refl))

  pub peek-Peeked : (n : ℕ) (p : Parser) → Left n p → LexYields (Peeked n) (peek symbols multi p)
  peek-Peeked n p l = cached-Peeked n p.cursor p.peeked l

  pub Peeked-Left : (n : ℕ) (r : Token × Parser) → Peeked n r → Left n r.1
  Peeked-Left n r (solid, small, e) = rw e (solid, small)

  pub consumed-Taken :
      (n : ℕ) (r : Token × Parser)
      → Peeked n r
      → r.0.kind ≢ end
      → Taken n (r.0, record r.1 { peeked = none })
  consumed-Taken n r (solid, small, e) k =
      let less = solid.0 k in ((tt, omega (arith, small)), omega (arith, small, less))

  pub at_end-Left :
      (n : ℕ) (p : Parser) → Left n p → LexYields (λ r. Left n r.1) (at_end symbols multi p)
  unfolding at_end
  at_end-Left n p l =
      LexYields->>= (Peeked n) (λ r. Left n r.1) (peek symbols multi p) _ (peek-Peeked n p l)
        (λ r k. Peeked-Left n r k)

  pub match_symbol-Tested :
      (n : ℕ) (s : Text) (p : Parser)
      → Left n p
      → LexYields (Tested n) (match_symbol symbols multi s p)
  unfolding match_symbol
  match_symbol-Tested n s p l =
      LexYields->>= (Peeked n) (Tested n) (peek symbols multi p) _ (peek-Peeked n p l) (λ r k.
        elim (Bool-cases (is_symbol s r.0)) [
          | inl e ↦
              let (laid, less) = consumed-Taken n r k (λ bad. ground (arith, e, bad)) in
              rw e (laid, λ same. less)
          | inr e ↦ rw e (Peeked-Left n r k, λ bad. cc)
        ])

  pub expect_token-Taken :
      (n : ℕ) (kind : TokenKind) (what : Text) (p : Parser)
      → same_kind end kind ≡ false
      → Left n p
      → LexYields (Taken n) (expect_token symbols multi kind what p)
  unfolding expect_token
  expect_token-Taken n kind what p other l =
      LexYields->>= (Peeked n) (Taken n) (peek symbols multi p) _ (peek-Peeked n p l) (λ r k.
        elim (Bool-cases (same_kind r.0.kind kind)) [
          | inl e ↦ rw e (consumed-Taken n r k (λ bad. ground (arith, e, bad, other)))
          | inr e ↦ rw e tt
        ])

  -- The token that was peeked at is consumed.
  pub consume-peeked :
      (p : Parser) (t : Token)
      → p.peeked ≡ some t
      → consume symbols multi p ≡ token_of (t, record p { peeked = none })
  unfolding consume peek
  consume-peeked p t e = rw e refl

  pub consume-Consumed :
      (n : ℕ) (p : Parser) → Left n p → LexYields (Consumed n) (consume symbols multi p)
  unfolding consume
  consume-Consumed n p l =
      LexYields->>= (Peeked n) (Consumed n) (peek symbols multi p) _ (peek-Peeked n p l)
        (λ r (solid, small, e).
          ((tt, omega (arith, small)), solid, λ k. omega (arith, small, solid.0 k)))

  pub expect_symbol-Shorter :
      (n : ℕ) (s what : Text) (p : Parser)
      → Left n p
      → LexYields (Shorter n) (expect_symbol symbols multi s what p)
  unfolding expect_symbol
  expect_symbol-Shorter n s what p l =
      LexYields->>= (Peeked n) (Shorter n) (peek symbols multi p) _ (peek-Peeked n p l) (λ r k.
        elim (Bool-cases (is_symbol s r.0)) [
          | inl e ↦ rw e (consumed-Taken n r k (λ bad. ground (arith, e, bad)))
          | inr e ↦ rw e tt
        ])
