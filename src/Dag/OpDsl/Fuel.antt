-- ===== src/Dag/OpDsl/Fuel.antt =====
-- The rounds of BuildDsl's loops: each reads a token, so the fuel is enough.
use lark.Base.{ℕ, ◌<◌, refl, inl, inr, Bool-cases, [], ◌∷◌, Text, text, text_dec, arith, ℕ_discrete}
use lark.Base.Dict.{contains}
use lark.Toolkit.Lexer.{ident}
use lark.Toolkit.Lexer.Slices.{AreSymbols}
use lark.Toolkit.Parser.{Parser, at_end, match_symbol, expect_token}
use lark.Toolkit.Parser.Shrinks.{
  size, Left, Tested, Taken, at_end-Left, match_symbol-Tested, expect_token-Taken,
}
use lark.Toolkit.Parser.Parsed.{Yields, Yields->>=, Yields-lexing}
use lark.Dag.OpDsl.{arrow, peeking, matching, identifier, segment}

arrow-AreSymbols : AreSymbols (arrow ∷ [])
unfolding contains ℕ_discrete
arrow-AreSymbols s h = elim (text_dec s arrow) [
  | yes e ↦ rw e (refl, omega arith)
  | no ne ↦ absurd (ground (arith, ne, h))
]

pub peeking-Left : (n : ℕ) (p : Parser) → Left n p → Yields (λ r. Left n r.1) (peeking p)
unfolding peeking
peeking-Left n p l =
    Yields-lexing (λ r. Left n r.1) (at_end (text ":") (arrow ∷ []) p)
      (at_end-Left (text ":") (arrow ∷ []) arrow-AreSymbols n p l)

pub matching-Tested : (n : ℕ) (s : Text) (p : Parser) → Left n p → Yields (Tested n) (matching s p)
unfolding matching
matching-Tested n s p l =
    Yields-lexing (Tested n) (match_symbol (text ":") (arrow ∷ []) s p)
      (match_symbol-Tested (text ":") (arrow ∷ []) arrow-AreSymbols n s p l)

identifier-Taken : (n : ℕ) (p : Parser) → Left n p → Yields (Taken n) (identifier p)
unfolding identifier
identifier-Taken n p l =
    Yields-lexing (Taken n) (expect_token (text ":") (arrow ∷ []) ident (text "identifier") p) (
      expect_token-Taken (text ":") (arrow ∷ []) arrow-AreSymbols n ident (text "identifier") p refl
        l)

-- After a segment fewer than n characters are left.
abbrev pub Fewer : ℕ → Parser → Type 0
Fewer n p = Left n p × (size p < n)

fewer : (n k : ℕ) (p : Parser) → Left k p → k < n → Fewer n p
fewer n k p l h = ((l.0, omega (arith, l.1, h)), omega (arith, l.1, h))

abbrev pub Segment : ℕ → Text × Text × Parser → Type 0
Segment n r = Fewer n r.2

pub segment-Fewer : (n : ℕ) (p : Parser) → Left n p → Yields (Segment n) (segment p)
unfolding segment
segment-Fewer n p l =
    Yields->>= (Taken n) (Segment n) (identifier p) _ (identifier-Taken n p l) (λ t taken.
      Yields->>= (Tested (size t.1)) (Segment n) (matching (text ":") t.1) _
        (matching-Tested (size t.1) (text ":") t.1 (taken.0.0, omega arith))
        (λ r tested. elim (Bool-cases r.0) [
          | inl e ↦ rw e (
              Yields->>= (Taken (size r.1)) (Segment n) (identifier r.1) _
                (identifier-Taken (size r.1) r.1 (tested.0.0, omega arith))
                (λ u last. fewer n (size r.1) u.1 last.0 (omega (arith, tested.0.1, taken.1))))
          | inr e ↦ rw e (fewer n (size t.1) r.1 tested.0 taken.1)
        ]))
