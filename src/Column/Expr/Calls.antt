-- ===== src/Column/Expr/Calls.antt =====
-- The arguments of a call, and its op.
use lark.Base.{
  ℕ, Bool, zero, suc, ◌<◌, ◌≡◌, refl, sym, true, false, [], ◌∷◌, Text, text, text_dec, arith, List,
  Bool-cases, inl, inr,
}
use lark.Base.Dict.{contains}
use lark.Toolkit.Lexer.{ident}
use lark.Toolkit.Parser.{same_kind}
use lark.Toolkit.Parser.Parsed.{Parsed, ◌>>=◌, Yields, Yields->>=}
use lark.Toolkit.Parser.Shrinks.{size, Left, Consumed}
use lark.Column.Numbers.{Floating}
use lark.Column.Op.{OpSpec, plain_op}
use lark.Column.Expr.{
  ExprParser, Subparser, Value, Numerals, temp_name, push, arguments, call_plain, call_cast,
  materialize, materialize_all, expecting, consuming,
}
use lark.Column.Expr.Program.{is_readable, all_readable, temp_name-injective}
use lark.Column.Expr.Reached.{
  outputs, IsEmitted, Reached, Reached-trans, Reached-lower, IsReady, push-Reached,
}
use lark.Column.Expr.Emits.{IsReady-Reached, AllReady, materialize-Emitted, materialize_all-Emitted}
use lark.Column.Expr.Tokens.{
  Moved, Moved-Reached, Progress, Progress-trans, remains, Progress-next, Progress-Moved,
  Progress-Emitted, expecting-Progress, consuming-Consumed,
}

module _ {F : Type 0} where
  -- A value is compiled from some of the n characters that are left.
  abbrev pub Compiled : ℕ → ExprParser → Value F × ExprParser → Type 0
  Compiled n s r = Progress s.tmp n s r.1 × IsReady r.1 r.0

  abbrev pub AllCompiled : ℕ → ExprParser → List (Value F) × ExprParser → Type 0
  AllCompiled n s r = Progress s.tmp n s r.1 × AllReady r.1 r.0

  -- A value whose temporary was taken before: `i` is not written below.
  abbrev pub CompiledTo : ℕ → ℕ → ExprParser → Value F × ExprParser → Type 0
  CompiledTo i n s r = Progress i n s r.1 × IsReady r.1 r.0

-- A temporary that was taken and not written yet.
abbrev pub Pending : ℕ → ExprParser → Type 0
Pending i s = (i < s.tmp) × (Path Bool (contains text_dec (temp_name i) (outputs s)) false)

Pending-Reached : (i : ℕ) (s s' : ExprParser) → Reached s.tmp s s' → Pending i s → Pending i s'
Pending-Reached i s s' r (less, new) = (omega (arith, less, r.later), r.fresh i less new)

-- The op of the taken temporary is pushed.
finish-Progress :
    (i n : ℕ) (s s' : ExprParser) (op : OpSpec)
    → op.outputs ≡ temp_name i ∷ []
    → Progress i n s s'
    → Pending i s'
    → all_readable (outputs s') op.inputs ≡ true
    → Progress i n s (push op s') × (is_readable (outputs (push op s')) (temp_name i) ≡ true)
unfolding push
finish-Progress i n s s' op one (shorter, r) (less, new) reads =
    let (q, ready) =
      push-Reached i s' op (temp_name i) r.valid one reads (λ e. new)
        (λ j e.
          let same = temp_name-injective i j e in
          (omega (arith, same), omega (arith, same, less))) in
    ((shorter, Reached-trans i s s' (push op s') r q), ready)

module _ {S F : Type 0} (m : Floating S F) (numerals : Numerals F) where
  -- ParseExpr does its part on fewer than `bound` characters.
  abbrev pub Compiles : ℕ → Subparser F → Type 0
  Compiles bound rec =
      (n prec : ℕ) (s : ExprParser)
      → n < bound
      → Left n s.parser
      → IsEmitted s
      → Yields (Compiled n s) (rec prec s)

  module _ (bound : ℕ) (rec : Subparser F) (ok : Compiles bound rec) where
    -- An expression and the symbol behind it.
    pub before-Compiled {κ} :
        {B : Type κ} (Q : B → Type 0) (n : ℕ) (sym : Text) (s : ExprParser)
        (f : Value F × ExprParser → ExprParser → Parsed B)
        → n < bound
        → Left n s.parser
        → IsEmitted s
        → ((v : Value F) (s' s'' : ExprParser)
            → Progress s.tmp n s s''
            → IsReady s'' v
            → Yields Q (f (v, s') s''))
        → Yields Q (rec 0 s >>= (λ r. expecting sym r.1 >>= f r))
    before-Compiled Q n sym s f less l v h =
        Yields->>= (Compiled n s) Q (rec 0 s) _ (ok n 0 s less l v) (λ r (p, ready).
          Yields->>= (Progress s.tmp (size r.1.parser) r.1) Q (expecting sym r.1) _
            (expecting-Progress s.tmp (size r.1.parser) sym r.1 (remains n r.1.parser p.0.0)
              p.1.valid)
            (λ s' q.
              h r.0 r.1 s' (Progress-trans s.tmp n s r.1 s' p q)
                (IsReady-Reached s.tmp r.1 s' r.0 q.1 ready)))

    arguments-AllCompiled :
        (k n : ℕ) (s : ExprParser)
        → n < bound
        → Left n s.parser
        → IsEmitted s
        → Yields (AllCompiled n s) (arguments m numerals rec k s)
    unfolding arguments
    arguments-AllCompiled zero n s less l v =
        Yields->>= (Progress s.tmp n s) (AllCompiled n s) (expecting (text ")") s) _
          (expecting-Progress s.tmp n (text ")") s l v) (λ s' p. (p, tt))
    arguments-AllCompiled (suc zero) n s less l v =
        before-Compiled (AllCompiled n s) n (text ")") s _ less l v
          (λ a s' s'' p ready. (p, (ready, tt)))
    arguments-AllCompiled (suc (suc k)) n s less l v =
        before-Compiled (AllCompiled n s) n (text ",") s _ less l v (λ a s' s'' p ready.
          Yields->>= (AllCompiled (size s''.parser) s'') (AllCompiled n s)
            (arguments m numerals rec (suc k) s'') _
            (arguments-AllCompiled (suc k) (size s''.parser) s'' (omega (arith, less, p.0.1))
              (remains n s''.parser p.0.0) p.1.valid)
            (λ r (q, all). (
              Progress-next s.tmp n s s'' r.1 (omega arith) p q,
              (IsReady-Reached s''.tmp s'' r.1 a q.1 ready, all),
            )))

    pub call_plain-CompiledTo :
        (i k n : ℕ) (fn : Text) (s : ExprParser)
        → n < bound
        → Left n s.parser
        → IsEmitted s
        → Pending i s
        → Yields (CompiledTo i n s) (call_plain m numerals rec k fn (temp_name i) s)
    unfolding call_plain
    call_plain-CompiledTo i k n fn s less l v pending =
        Yields->>= (AllCompiled n s) (CompiledTo i n s) (arguments m numerals rec k s) _
          (arguments-AllCompiled k n s less l v)
          (λ r ((shorter, reached), all).
            let made = materialize_all m numerals r.0 r.1 in
            let (emitted, reads) = materialize_all-Emitted m numerals r.0 r.1 reached.valid all in
            let before : Progress i n s r.1 =
              (shorter, Reached-lower i s.tmp s r.1 (omega (arith, pending.0)) reached) in
            finish-Progress i n s made.1 (plain_op fn made.0 (temp_name i)) refl
              (Progress-Emitted i n s r.1 made.1 (omega (arith, pending.0)) before emitted)
              (Pending-Reached i r.1 made.1 emitted.1 (Pending-Reached i s r.1 reached pending))
              reads)

    pub call_cast-CompiledTo :
        (i n : ℕ) (s : ExprParser)
        → n < bound
        → Left n s.parser
        → IsEmitted s
        → Pending i s
        → Yields (CompiledTo i n s) (call_cast m numerals rec (temp_name i) s)
    unfolding call_cast all_readable
    call_cast-CompiledTo i n s less l v pending =
        before-Compiled (CompiledTo i n s) n (text ",") s _ less l v (λ a s' s'' p ready.
          Yields->>= (λ r. Consumed (size s''.parser) (r.0, r.1.parser) × Moved s'' r.1)
            (CompiledTo i n s) (consuming s'') _
            (consuming-Consumed (size s''.parser) s'' (remains n s''.parser p.0.0))
            (λ r (consumed, move).
              let q = Progress-Moved s.tmp n s s'' r.1 p consumed.0 move in
              elim (Bool-cases (same_kind r.0.kind ident)) [
                | inr e ↦ rw e tt
                | inl e ↦ rw e (
                    Yields->>= (Progress s.tmp (size r.1.parser) r.1) (CompiledTo i n s)
                      (expecting (text ")") r.1) _
                      (expecting-Progress s.tmp (size r.1.parser) (text ")") r.1
                        (remains n r.1.parser q.0.0) q.1.valid)
                      (λ s4 closed.
                        let (shorter, reached) = Progress-trans s.tmp n s r.1 s4 q closed in
                        let made = materialize m numerals a s4 in
                        let here : IsReady s4 a = IsReady-Reached s.tmp r.1 s4 a closed.1 (
                          IsReady-Reached s.tmp s'' r.1 a
                            (Moved-Reached s.tmp s'' r.1 p.1.valid move) ready) in
                        let (emitted, reads) =
                          materialize-Emitted m numerals a s4 reached.valid here in
                        finish-Progress i n s made.1 _ refl
                          (Progress-Emitted i n s s4 made.1 (omega (arith, pending.0))
                            (shorter, Reached-lower i s.tmp s s4 (omega (arith, pending.0)) reached)
                            emitted)
                          (Pending-Reached i s4 made.1 emitted.1
                            (Pending-Reached i s s4 reached pending))
                          (ground (arith, reads))))
              ]))
