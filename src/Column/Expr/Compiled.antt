-- ===== src/Column/Expr/Compiled.antt =====
-- The recursive functions of ExprParser, to Parse.
use lark.Base.{
  ℕ, suc, ◌<◌, ◌≡◌, ◌≢◌, refl, true, ◌||◌, List, [], ◌∷◌, Text, text, text_dec, arith, none,
  Bool-cases, inl, inr,
}
use lark.Base.Dict.{contains}
use lark.Toolkit.Lexer.{TokenKind, ident, number, symbol, end, Token}
use lark.Toolkit.Parser.{is_symbol}
use lark.Toolkit.Parser.Parsed.{Parsed, Yields, Yields->>=, Yields-mono}
use lark.Toolkit.Parser.Shrinks.{size, Left, Peeked, starts_name, Peeked-Left, consumed-Taken}
use lark.Column.Numbers.{Floating}
use lark.Column.Tensor.{is_text}
use lark.Column.Expr.{
  ExprParser, Subparser, Value, Numerals, symbols, multi, temp_name, temp, peeking, unary_functions,
  call_plain, call, primary_token,
}
use lark.Column.Expr.Program.{is_readable}
use lark.Column.Expr.Reached.{outputs, IsEmitted, Reached-trans, taken, taken-Reached, unwritten}
use lark.Column.Expr.Emits.{negate-Emitted}
use lark.Column.Expr.Tokens.{
  Moved, Moved-Reached, Progress, Progress-next, Progress-Moved, Progress-Emitted, remains,
  multi-AreSymbols, peeking-Peeked, consuming-peeked,
}
use lark.Column.Expr.Calls.{
  Compiled, CompiledTo, Pending, Compiles, before-Compiled, call_plain-CompiledTo,
  call_cast-CompiledTo,
}

-- An identifier is not a temporary.
name-readable :
    (written : List Text) (n : Text) → starts_name n ≡ true → is_readable written n ≡ true
name-readable written [] h = cc
name-readable written (c ∷ cs) h = ground (arith, h)

-- The temporary that was taken first is written last.
widen-Compiled :
    {F : Type 0} (n : ℕ) (s : ExprParser)
    → IsEmitted s
    → (r : Parsed (Value F × ExprParser)) → Yields (CompiledTo s.tmp n (taken s)) r
    → Yields (Compiled n s) r
widen-Compiled n s v r y =
    Yields-mono (CompiledTo s.tmp n (taken s)) (Compiled n s) r
      (λ q ((shorter, reached), ready).
        ((shorter, Reached-trans s.tmp s (taken s) q.1 (taken-Reached s.tmp s v) reached), ready))
      y

module _ {S F : Type 0} (m : Floating S F) (numerals : Numerals F) where
  module _ (bound : ℕ) (rec : Subparser F) (ok : Compiles m numerals bound rec) where
    call-Compiled :
        (n : ℕ) (fn : Text) (s : ExprParser)
        → n < bound
        → Left n s.parser
        → IsEmitted s
        → Yields (Compiled n s) (call m numerals rec fn s)
    unfolding call temp
    call-Compiled n fn s less l v =
        let s' : ExprParser = taken s in
        let reached = taken-Reached s.tmp s v in
        let pending : Pending s.tmp s' = (omega arith, unwritten s s.tmp v (omega arith)) in
        let plain : (k : ℕ)
            → Yields (Compiled n s) (call_plain m numerals rec k fn (temp_name s.tmp) s') =
          λ k. widen-Compiled n s v _ (
            call_plain-CompiledTo m numerals bound rec ok s.tmp k n fn s' less l reached.valid
              pending) in
        elim (Bool-cases (is_text fn (text "select"))) [
          | inl e ↦ rw e (plain 3)
          | inr e ↦
              rw e (elim (Bool-cases (is_text fn (text "filter") || is_text fn (text "dot"))) [
                | inl e' ↦ rw e' (plain 2)
                | inr e' ↦ rw e' (elim (Bool-cases (is_text fn (text "cast"))) [
                  | inl e'' ↦ rw e'' (
                      widen-Compiled n s v _ (
                        call_cast-CompiledTo m numerals bound rec ok s.tmp n s' less l reached.valid
                          pending))
                  | inr e'' ↦ rw e'' (elim (Bool-cases (contains text_dec fn unary_functions)) [
                    | inl u ↦ rw u (plain 1)
                    | inr u ↦ rw u tt
                  ])
                ])
              ])
        ]

    pub primary_token-Compiled :
        (again : ExprParser → Parsed (Value F × ExprParser)) (n : ℕ) (kind : TokenKind)
        (lexeme : Text) (s s' : ExprParser)
        → ((t : ExprParser)
            → size t.parser < n
            → Left (size t.parser) t.parser
            → IsEmitted t
            → Yields (Compiled (size t.parser) t) (again t))
        → n < suc bound
        → Left n s'.parser
        → (kind ≢ end → size s'.parser < n)
        → (kind ≡ ident → starts_name lexeme ≡ true)
        → Moved s s'
        → IsEmitted s
        → Yields (Compiled n s) (primary_token m numerals rec again kind lexeme s')
    unfolding primary_token
    primary_token-Compiled again n end lexeme s s' more below l less name move v = tt
    primary_token-Compiled again n number lexeme s s' more below l less name move v =
        (((l, less (λ e. cc)), Moved-Reached s.tmp s s' v move), tt)
    primary_token-Compiled again n symbol lexeme s s' more below l less name move v =
        let short = less (λ e. cc) in
        let p : Progress s.tmp n s s' = ((l, short), Moved-Reached s.tmp s s' v move) in
        let here = remains n s'.parser l in
        elim (Bool-cases (is_text lexeme (text "-"))) [
          | inl e ↦ rw e (
              Yields->>= (Compiled (size s'.parser) s') (Compiled n s) (again s') _
                (more s' short here p.1.valid)
                (λ r (q, ready).
                  let (emitted, ready') = negate-Emitted m numerals r.0 r.1 q.1.valid ready in
                  (
                    Progress-Emitted s.tmp n s r.1 _ (omega arith)
                        (Progress-next s.tmp n s s' r.1 (omega arith) p q) emitted,
                    ready',
                  )))
          | inr e ↦ rw e (elim (Bool-cases (is_text lexeme (text "("))) [
            | inr e' ↦ rw e' tt
            | inl e' ↦ rw e' (
                before-Compiled m numerals bound rec ok (Compiled n s) (size s'.parser) (text ")")
                  s' _ (omega (arith, below, short)) here p.1.valid
                  (λ a t t' q ready. (Progress-next s.tmp n s s' t' (omega arith) p q, ready)))
          ])
        ]
    primary_token-Compiled again n ident lexeme s s' more below l less name move v =
        let short = less (λ e. cc) in
        let p : Progress s.tmp n s s' = ((l, short), Moved-Reached s.tmp s s' v move) in
        let k = size s'.parser in
        Yields->>= (λ (r : Token × ExprParser). Peeked k (r.0, r.1.parser) × Moved s' r.1)
          (Compiled n s) (peeking s') _ (peeking-Peeked k s' (remains n s'.parser l))
          (λ r (peeked, move').
            let q =
              Progress-Moved s.tmp n s s' r.1 p
                (Peeked-Left symbols multi multi-AreSymbols k (r.0, r.1.parser) peeked) move' in
            elim (Bool-cases (is_symbol (text "(") r.0)) [
              | inr e ↦ rw e (q, name-readable (outputs r.1) lexeme (name refl))
              | inl e ↦
                  rw (e, consuming-peeked r.1 r.0 peeked.2)
                    (let s3 : ExprParser = record r.1 {
                      parser = record r.1.parser { peeked = none };
                    } in
                      let took =
                        consumed-Taken symbols multi multi-AreSymbols k (r.0, r.1.parser) peeked
                          (λ bad. ground (arith, e, bad)) in
                      let q3 : Progress s.tmp n s s3 =
                        Progress-Moved s.tmp n s s' s3 p took.0 move' in
                      Yields-mono (Compiled (size s3.parser) s3) (Compiled n s) _
                        (λ t (q', ready).
                          (Progress-next s.tmp n s s3 t.1 (omega arith) q3 q', ready))
                        (call-Compiled (size s3.parser) lexeme s3 (omega (arith, below, q3.0.1))
                          (remains n s3.parser q3.0.0) q3.1.valid))
            ])
