-- ===== src/Column/Expr/Parses.antt =====
-- The loops of ExprParser: Parse ends, and its ops are a program.
use lark.Base.{
  ℕ, zero, suc, ◌<◌, ◌≡◌, refl, Bool, true, [], ◌∷◌, Text, text, length, arith, Bool-cases, inl,
  inr,
}
use lark.Base.Dict.{contains}
use lark.Toolkit.Lexer.{ident, Token}
use lark.Toolkit.Parser.{parser_of, same_kind}
use lark.Toolkit.Parser.Parsed.{Yields, Yields->>=}
use lark.Toolkit.Parser.Shrinks.{size, Left, Consumed, Shorter, starts_name}
use lark.Column.Numbers.{Floating}
use lark.Column.Tensor.{is_text}
use lark.Column.Op.{plain_op}
use lark.Column.Expr.{
  ExprParser, Value, literal, named, Numerals, push, consuming, ending, expecting, expression,
  assign_to, const_op, statement, statements, parse,
}
use lark.Column.Expr.Program.{all_readable, in_order, temps_of, outputs_of, IsProgram}
use lark.Column.Expr.Reached.{IsEmitted, IsReady}
use lark.Column.Expr.Tokens.{
  Moved, Moved-Reached, Progress, Progress-trans, Progress-next, remains, consuming-Consumed,
  ending-Left, expecting-Progress,
}
use lark.Column.Expr.Calls.{Compiled}
use lark.Column.Expr.Expressions.{column-IsEmitted, same_kind-ident, expression-Compiles}

module _ {S F : Type 0} (m : Floating S F) (numerals : Numerals F) where
  assign_to-IsEmitted :
      (lhs : Text) (a : Value F) (s : ExprParser)
      → starts_name lhs ≡ true
      → IsEmitted s
      → IsReady s a
      → IsEmitted (assign_to m numerals lhs a s)
        × ((assign_to m numerals lhs a s).parser ≡ s.parser)
  unfolding assign_to all_readable push
  assign_to-IsEmitted lhs (literal x) s name v f =
      (column-IsEmitted s (const_op m numerals x lhs) lhs name v refl refl, refl)
  assign_to-IsEmitted lhs (named n) s name v f = elim (Bool-cases (is_text n lhs)) [
    | inl e ↦ rw e (v, refl)
    | inr e ↦ rw e (
      column-IsEmitted s (plain_op (text "identity") (n ∷ []) lhs) lhs name v refl
          (ground (arith, f)),
      refl,
    )
  ]

  abbrev Stated : ℕ → ExprParser → Type 0
  Stated n s = Shorter n s.parser × IsEmitted s

  statement-Stated :
      (fuel n : ℕ) (s : ExprParser)
      → n < fuel
      → Left n s.parser
      → IsEmitted s
      → Yields (Stated n) (statement m numerals fuel s)
  unfolding statement
  statement-Stated fuel n s less l v =
      Yields->>= (λ (r : Token × ExprParser). Consumed n (r.0, r.1.parser) × Moved s r.1) (Stated n)
        (consuming s) _ (consuming-Consumed n s l)
        (λ r (c, move). elim (Bool-cases (same_kind r.0.kind ident)) [
          | inr e ↦ rw e tt
          | inl e ↦ rw e (
              let short = c.2 (λ bad. ground (arith, e, bad)) in
              let p : Progress s.tmp n s r.1 = ((c.0, short), Moved-Reached s.tmp s r.1 v move) in
              let name : starts_name r.0.lexeme ≡ true = c.1.1 (same_kind-ident r.0.kind e) in
              Yields->>= (Progress s.tmp (size r.1.parser) r.1) (Stated n)
                (expecting (text "=") r.1) _
                (expecting-Progress s.tmp (size r.1.parser) (text "=") r.1
                  (remains n r.1.parser c.0) p.1.valid)
                (λ s2 q.
                  let p2 = Progress-trans s.tmp n s r.1 s2 p q in
                  Yields->>= (Compiled (size s2.parser) s2) (Stated n)
                    (expression m numerals fuel 0 s2) _
                    (expression-Compiles m numerals fuel (size s2.parser) 0 s2
                      (omega (arith, less, p2.0.1)) (remains n s2.parser p2.0.0) p2.1.valid)
                    (λ t (pt, ready).
                      let p3 = Progress-next s.tmp n s s2 t.1 (omega arith) p2 pt in
                      let (done, same) =
                        assign_to-IsEmitted r.0.lexeme t.0 t.1 name p3.1.valid ready in
                      (rw same p3.0, done))))
        ])

  statements-IsProgram :
      (fuel n : ℕ) (s : ExprParser)
      → n < fuel
      → Left n s.parser
      → IsEmitted s
      → Yields IsProgram (statements m numerals fuel s)
  unfolding statements
  statements-IsProgram zero n s less l v = absurd (omega (arith, less))
  statements-IsProgram (suc fuel) n s less l v =
      Yields->>= (λ (r : Bool × ExprParser). Left n r.1.parser × Moved s r.1) IsProgram (ending s) _
        (ending-Left n s l)
        (λ r (left, move).
          let valid = (Moved-Reached s.tmp s r.1 v move).valid in
          elim (Bool-cases r.0) [
            | inl e ↦ rw e valid.program
            | inr e ↦ rw e (
                Yields->>= (Stated n) IsProgram (statement m numerals (suc fuel) r.1) _
                  (statement-Stated (suc fuel) n r.1 less left valid)
                  (λ s2 (shorter, valid2).
                    statements-IsProgram fuel (size s2.parser) s2 (omega (arith, less, shorter.1))
                      (remains n s2.parser shorter.0) valid2))
          ])

  -- On any source the loops and calls of Parse end with the fuel that the model gives them. Where
  -- they end without an exception, every op of the result reads only columns of the input and what
  -- ops before it wrote, and no temporary is written twice.
  pub parse-IsProgram : (source : Text) → Yields IsProgram (parse m numerals source)
  unfolding parse in_order temps_of outputs_of contains
  parse-IsProgram source =
      statements-IsProgram (suc (length source)) (length source)
        (record { parser = parser_of source; ops = []; tmp = 0 }) (omega arith) (tt, omega arith)
        (record { program = record { ordered = refl; once = tt }; below = λ i h. cc })
