-- ===== src/Column/Expr/Expressions.antt =====
-- The expressions of the DSL: what the loops of ParseExpr and ParsePrimary compile, and that their
-- fuel suffices.
use lark.Base.{
  ℕ, zero, suc, ◌<◌, ◌≡◌, ◌≢◌, refl, ap, true, false, [], ◌∷◌, Text, arith, none, some,
  Option-cases, inl, inr,
}
use lark.Toolkit.Lexer.{TokenKind, ident, number, symbol, end, Token}
use lark.Toolkit.Parser.{same_kind}
use lark.Toolkit.Parser.Parsed.{Yields, Yields->>=, Yields-mono}
use lark.Toolkit.Parser.Shrinks.{
  size, Left, Peeked, Consumed, starts_name, Peeked-Left, consumed-Taken,
}
use lark.Column.Numbers.{Floating}
use lark.Column.Op.{OpSpec}
use lark.Column.Expr.{
  ExprParser, Subparser, Value, Numerals, symbols, multi, temp_name, push, peeking, consuming,
  primary, operator, operations, make_binary, expression,
}
use lark.Column.Expr.Program.{is_temp, all_readable}
use lark.Column.Expr.Reached.{
  outputs, IsEmitted, Reached, Reached-trans, Reached-lower, Reached-next, IsReady, push-Reached,
}
use lark.Column.Expr.Emits.{IsReady-Reached, make_binary-Emitted}
use lark.Column.Expr.Tokens.{
  Moved, Moved-Reached, remains, multi-AreSymbols, peeking-Peeked, consuming-Consumed,
  consuming-peeked,
}
use lark.Column.Expr.Compiled.{primary_token-Compiled}
use lark.Column.Expr.Calls.{Compiled, Compiles}

name-plain : (n : Text) → starts_name n ≡ true → is_temp n ≡ false
name-plain [] h = cc
name-plain (c ∷ cs) h = ground (arith, h)

temp_name-named : (i : ℕ) (n : Text) → n ≡ temp_name i → is_temp n ≢ false
temp_name-named i n e h = ground (arith, ap is_temp e, h)

-- A push of an op that writes a column.
pub column-IsEmitted :
    (s : ExprParser) (op : OpSpec) (lhs : Text)
    → starts_name lhs ≡ true
    → IsEmitted s
    → op.outputs ≡ lhs ∷ []
    → all_readable (outputs s) op.inputs ≡ true
    → IsEmitted (push op s)
column-IsEmitted s op lhs name v one reads =
    let plain = name-plain lhs name in
    (push-Reached 0 s op lhs v one reads (λ bad. absurd (ground (arith, plain, bad)))
      (λ i e. absurd (temp_name-named i lhs e plain))).0.valid

pub same_kind-ident : (k : TokenKind) → same_kind k ident ≡ true → k ≡ ident
same_kind-ident ident h = refl
same_kind-ident number h = cc
same_kind-ident symbol h = cc
same_kind-ident end h = cc

module _ {S F : Type 0} (m : Floating S F) (numerals : Numerals F) where
  -- The rest of an expression: maybe nothing is read.
  abbrev Continued : ℕ → ExprParser → Value F × ExprParser → Type 0
  Continued n s r = Left n r.1.parser × Reached s.tmp s r.1 × IsReady r.1 r.0

  operator-symbol :
      (min_prec prec : ℕ) (t : Token) → operator m numerals min_prec t ≡ some prec → t.kind ≢ end
  unfolding operator
  operator-symbol min_prec prec t h bad = ground (arith, h, bad)

  module _ (bound : ℕ) (rec : Subparser F) (ok : Compiles m numerals bound rec) where
    primary-Compiled :
        (fuel n : ℕ) (s : ExprParser)
        → n < fuel
        → n < suc bound
        → Left n s.parser
        → IsEmitted s
        → Yields (Compiled n s) (primary m numerals rec fuel s)
    unfolding primary
    primary-Compiled zero n s less below l v = absurd (omega (arith, less))
    primary-Compiled (suc fuel) n s less below l v =
        Yields->>= (λ (r : Token × ExprParser). Consumed n (r.0, r.1.parser) × Moved s r.1)
          (Compiled n s) (consuming s) _ (consuming-Consumed n s l)
          (λ r (c, move).
            primary_token-Compiled m numerals bound rec ok (primary m numerals rec fuel) n r.0.kind
              r.0.lexeme s r.1
              (λ t lt left v'.
                primary-Compiled fuel (size t.parser) t (omega (arith, lt, less))
                  (omega (arith, lt, below)) left v')
              below c.0 c.2 c.1.1 move v)

    operations-Continued :
        (fuel n min_prec : ℕ) (a : Value F) (s : ExprParser)
        → n < fuel
        → n < suc bound
        → Left n s.parser
        → IsEmitted s
        → IsReady s a
        → Yields (Continued n s) (operations m numerals rec fuel min_prec a s)
    unfolding operations
    operations-Continued zero n min_prec a s less below l v f = absurd (omega (arith, less))
    operations-Continued (suc fuel) n min_prec a s less below l v f =
        Yields->>= (λ (r : Token × ExprParser). Peeked n (r.0, r.1.parser) × Moved s r.1)
          (Continued n s) (peeking s) _ (peeking-Peeked n s l)
          (λ r (peeked, move).
            let reached = Moved-Reached s.tmp s r.1 v move in
            elim (Option-cases (operator m numerals min_prec r.0)) [
              | inl e ↦ rw e (
                Peeked-Left symbols multi multi-AreSymbols n (r.0, r.1.parser) peeked,
                reached,
                IsReady-Reached s.tmp s r.1 a reached f,
              )
              | inr (prec, e) ↦
                  rw (e, consuming-peeked r.1 r.0 peeked.2)
                    (let s3 : ExprParser = record r.1 {
                      parser = record r.1.parser { peeked = none };
                    } in
                      let took =
                        consumed-Taken symbols multi multi-AreSymbols n (r.0, r.1.parser) peeked
                          (operator-symbol min_prec prec r.0 e) in
                      let reached3 : Reached s.tmp s s3 = Moved-Reached s.tmp s s3 v move in
                      Yields->>= (Compiled (size s3.parser) s3) (Continued n s) (rec (suc prec) s3)
                        _
                        (ok (size s3.parser) (suc prec) s3 (omega (arith, took.1, below))
                          (remains n s3.parser took.0) reached3.valid)
                        (λ q ((shorter, reachedq), ready).
                          let out = make_binary m numerals a q.0 r.0.lexeme q.1 in
                          let here =
                            IsReady-Reached s3.tmp s3 q.1 a reachedq
                              (IsReady-Reached s.tmp s s3 a reached3 f) in
                          let ((same, reached5), ready5) =
                            make_binary-Emitted m numerals a q.0 r.0.lexeme q.1 reachedq.valid here
                              ready in
                          let far : Reached s.tmp s out.1 =
                            Reached-next s.tmp s q.1 out.1 (omega arith)
                              (Reached-next s.tmp s s3 q.1 (omega arith) reached3 reachedq)
                              reached5 in
                          Yields-mono (Continued (size q.1.parser) out.1) (Continued n s) _
                            (λ t (left, reachedt, readyt). (
                              (left.0, omega (arith, left.1, shorter.1, took.1)),
                              Reached-trans s.tmp s out.1 t.1 far
                                  (Reached-lower s.tmp out.1.tmp out.1 t.1 far.later reachedt),
                              readyt,
                            ))
                            (operations-Continued fuel (size q.1.parser) min_prec out.0 out.1
                              (omega (arith, less, shorter.1, took.1))
                              (omega (arith, below, shorter.1, took.1))
                              (rw same (remains (size s3.parser) q.1.parser shorter.0))
                              reached5.valid ready5)))
            ])

  pub expression-Compiles : (fuel : ℕ) → Compiles m numerals fuel (expression m numerals fuel)
  unfolding expression
  expression-Compiles zero n min_prec s less l v = absurd (omega (arith, less))
  expression-Compiles (suc fuel) n min_prec s less l v =
      let rec = expression m numerals fuel in
      let ok = expression-Compiles fuel in
      Yields->>= (Compiled n s) (Compiled n s) (primary m numerals rec (suc fuel) s) _
        (primary-Compiled fuel rec ok (suc fuel) n s less less l v)
        (λ r ((shorter, reached), ready).
          Yields-mono (Continued (size r.1.parser) r.1) (Compiled n s) _
            (λ t (left, reachedt, readyt). (
              (
                ((left.0, omega (arith, left.1, shorter.1)), omega (arith, left.1, shorter.1)),
                Reached-next s.tmp s r.1 t.1 (omega arith) reached reachedt,
              ),
              readyt,
            ))
            (operations-Continued fuel rec ok (suc fuel) (size r.1.parser) min_prec r.0 r.1
              (omega (arith, less, shorter.1)) (omega (arith, less, shorter.1))
              (remains n r.1.parser shorter.0) reached.valid ready))
