-- ===== src/Column/Expr/Tokens.antt =====
-- The token functions of ExprParser: they leave the ops alone, and less of the source.
use lark.Base.{ℕ, ◌≤◌, ◌≡◌, refl, Text, text, text_dec, arith, none, some, Bool, ℕ_discrete}
use lark.Base.Dict.{contains}
use lark.Toolkit.Lexer.{Token, Lexed, token_of, fail, stod_error}
use lark.Toolkit.Lexer.Slices.{AreSymbols}
use lark.Toolkit.Parser.{Parser, peek, consume}
use lark.Toolkit.Parser.Parsed.{parsed, lexing, Yields, Yields->>=, Yields-lexing, Yields-mono}
use lark.Toolkit.Parser.Shrinks.{
  size, Left, LexYields, Peeked, Consumed, Shorter, peek-Peeked, consume-Consumed, consume-peeked,
  expect_symbol-Shorter, at_end-Left,
}
use lark.Column.Expr.{
  ExprParser, symbols, multi, stepping, peeking, consuming, ending, expecting, failing,
}
use lark.Column.Expr.Reached.{IsEmitted, Reached, Reached-same, Reached-trans, Reached-lower}
use lark.Column.Expr.Emits.{Emitted}

pub multi-AreSymbols : AreSymbols multi
unfolding contains ℕ_discrete
multi-AreSymbols s h = elim (text_dec s (text ">=")) [
  | yes e ↦ rw e (refl, omega arith)
  | no n1 ↦ elim (text_dec s (text "<=")) [
    | yes e ↦ rw e (refl, omega arith)
    | no n2 ↦ elim (text_dec s (text "==")) [
      | yes e ↦ rw e (refl, omega arith)
      | no n3 ↦ elim (text_dec s (text "!=")) [
        | yes e ↦ rw e (refl, omega arith)
        | no n4 ↦ absurd (ground (arith, n1, n2, n3, n4, h))
      ]
    ]
  ]
]

-- The parser of the tokens moved, and the ops are the same.
abbrev pub Moved : ExprParser → ExprParser → Type 0
Moved s s' = (s'.ops ≡ s.ops) × (s'.tmp ≡ s.tmp)

Yields-stepping :
    {A : Type 0} (Q : A × Parser → Type 0) (s : ExprParser) (m : Lexed (A × Parser))
    → LexYields Q m
    → Yields (λ (r : A × ExprParser). Q (r.0, r.1.parser) × Moved s r.1) (stepping s (lexing m))
Yields-stepping Q s (token_of r) y = (y, (refl, refl))
Yields-stepping Q s (fail e) y = tt
Yields-stepping Q s stod_error y = tt

module _ (n : ℕ) (s : ExprParser) (l : Left n s.parser) where
  pub peeking-Peeked :
      Yields (λ (r : Token × ExprParser). Peeked n (r.0, r.1.parser) × Moved s r.1) (peeking s)
  unfolding peeking
  peeking-Peeked =
      Yields-stepping (Peeked n) s (peek symbols multi s.parser)
        (peek-Peeked symbols multi multi-AreSymbols n s.parser l)

  pub consuming-Consumed :
      Yields (λ (r : Token × ExprParser). Consumed n (r.0, r.1.parser) × Moved s r.1) (consuming s)
  unfolding consuming
  consuming-Consumed =
      Yields-stepping (Consumed n) s (consume symbols multi s.parser)
        (consume-Consumed symbols multi multi-AreSymbols n s.parser l)

  pub ending-Left : Yields (λ (r : Bool × ExprParser). Left n r.1.parser × Moved s r.1) (ending s)
  unfolding ending
  ending-Left =
      Yields-stepping (λ r. Left n r.1) s _
        (at_end-Left symbols multi multi-AreSymbols n s.parser l)

  pub expecting-Shorter :
      (sym : Text)
      → Yields (λ (s' : ExprParser). Shorter n s'.parser × Moved s s') (expecting sym s)
  unfolding expecting
  expecting-Shorter sym =
      Yields->>= (Shorter n) (λ (s' : ExprParser). Shorter n s'.parser × Moved s s') _ _
        (Yields-lexing (Shorter n) _
          (expect_symbol-Shorter symbols multi multi-AreSymbols n sym _ s.parser l))
        (λ p k. (k, (refl, refl)))

pub failing-Yields :
    {A : Type 0} (Q : A → Type 0) (message : Text) (s : ExprParser) → Yields Q (failing message s)
unfolding failing
failing-Yields Q message s = tt

pub consuming-peeked :
    (s : ExprParser) (t : Token)
    → s.parser.peeked ≡ some t
    → consuming s ≡ parsed (t, record s { parser = record s.parser { peeked = none } })
unfolding consuming
consuming-peeked s t e = rw (consume-peeked symbols multi multi-AreSymbols s.parser t e) refl

-- Fewer than n characters are left, and the ops are those of `s` and more.
abbrev pub Progress : ℕ → ℕ → ExprParser → ExprParser → Type 0
Progress k n s s' = Shorter n s'.parser × Reached k s s'

pub Progress-trans :
    (k n : ℕ) (a b c : ExprParser)
    → Progress k n a b
    → Progress k (size b.parser) b c
    → Progress k n a c
Progress-trans k n a b c ((left, less), r) ((left', less'), q) =
    (((left'.0, omega (arith, less, less')), omega (arith, less, less')), Reached-trans k a b c r q)

pub Progress-next :
    (k n : ℕ) (a b c : ExprParser)
    → k ≤ a.tmp
    → Progress k n a b
    → Progress b.tmp (size b.parser) b c
    → Progress k n a c
Progress-next k n a b c le p (shorter, q) =
    Progress-trans k n a b c p (shorter, Reached-lower k b.tmp b c (omega (arith, le, p.1.later)) q)

-- A token is passed over after that.
pub Progress-Moved :
    (k n : ℕ) (a b c : ExprParser)
    → Progress k n a b
    → Left (size b.parser) c.parser
    → Moved b c
    → Progress k n a c
Progress-Moved k n a b c ((left, less), r) after move = (
  ((after.0, omega (arith, after.1, less)), omega (arith, after.1, less)),
  Reached-trans k a b c r (Reached-same k b c r.valid move.0 move.1),
)

-- Ops are pushed after that.
pub Progress-Emitted :
    (k n : ℕ) (a b c : ExprParser) → k ≤ a.tmp → Progress k n a b → Emitted b c → Progress k n a c
Progress-Emitted k n a b c le (shorter, r) (same, q) = (
  rw same shorter,
  Reached-trans k a b c r (Reached-lower k b.tmp b c (omega (arith, le, r.later)) q),
)

pub Moved-Reached : (k : ℕ) (s s' : ExprParser) → IsEmitted s → Moved s s' → Reached k s s'
Moved-Reached k s s' v move = Reached-same k s s' v move.0 move.1

pub remains : (n : ℕ) (p : Parser) → Left n p → Left (size p) p
remains n p l = (l.0, omega arith)

pub expecting-Progress :
    (k n : ℕ) (sym : Text) (s : ExprParser)
    → Left n s.parser
    → IsEmitted s
    → Yields (Progress k n s) (expecting sym s)
expecting-Progress k n sym s l v =
    Yields-mono _ (Progress k n s) (expecting sym s)
      (λ s' (shorter, move). (shorter, Moved-Reached k s s' v move)) (expecting-Shorter n s l sym)
