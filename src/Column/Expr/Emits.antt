-- ===== src/Column/Expr/Emits.antt =====
-- The functions of ExprParser that push ops and read no token.
use lark.Base.{ℕ, ◌≡◌, ◌∙◌, refl, true, List, [], ◌∷◌, Text, text, arith, Option-cases, inl, inr}
use lark.Column.Numbers.{Floating}
use lark.Column.Op.{plain_op}
use lark.Column.Expr.{
  ExprParser, Value, literal, named, Numerals, temp_name, temp, push, binary_op, folded,
  make_binary, const_op, materialize, materialize_all, negate,
}
use lark.Column.Expr.Program.{is_readable, all_readable}
use lark.Column.Expr.Reached.{
  outputs, IsEmitted, Reached, Reached-same, Reached-trans, Reached-lower, IsReady, emit-Reached,
}

-- Values are read where they were made, and later.
module _ {F : Type 0} where
  pub IsReady-Reached :
      (k : ℕ) (s s' : ExprParser) (a : Value F) → Reached k s s' → IsReady s a → IsReady s' a
  IsReady-Reached k s s' (literal x) r f = tt
  IsReady-Reached k s s' (named n) r f = r.kept n f

  abbrev pub AllReady : ExprParser → List (Value F) → Type 0
  AllReady s [] = Unit {0}
  AllReady s (a ∷ vs) = IsReady s a × AllReady s vs

  pub AllReady-Reached :
      (k : ℕ) (s s' : ExprParser) (vs : List (Value F))
      → Reached k s s'
      → AllReady s vs
      → AllReady s' vs
  AllReady-Reached k s s' [] r f = tt
  AllReady-Reached k s s' (a ∷ vs) r (f, g) =
      (IsReady-Reached k s s' a r f, AllReady-Reached k s s' vs r g)

-- Ops are pushed and no token is read.
abbrev pub Emitted : ExprParser → ExprParser → Type 0
Emitted s s' = (s'.parser ≡ s.parser) × Reached s.tmp s s'

module _ {S F : Type 0} (m : Floating S F) (numerals : Numerals F) where
  binary_op-readable :
      (a b : Value F) (op out : Text) (s : ExprParser)
      → IsReady s a
      → IsReady s b
      → all_readable (outputs s) (binary_op m numerals a b op out).inputs ≡ true
  unfolding binary_op all_readable
  binary_op-readable (literal x) (literal y) op out s f g = refl
  binary_op-readable (literal x) (named b) op out s f g = ground (arith, g)
  binary_op-readable (named a) (literal y) op out s f g = ground (arith, f)
  binary_op-readable (named a) (named b) op out s f g = ground (arith, f, g)

  binary_op-outputs :
      (a b : Value F) (op out : Text) → (binary_op m numerals a b op out).outputs ≡ out ∷ []
  unfolding binary_op
  binary_op-outputs (literal x) b op out = refl
  binary_op-outputs (named a) (literal y) op out = refl
  binary_op-outputs (named a) (named b) op out = refl

  pub make_binary-Emitted :
      (a b : Value F) (op : Text) (s : ExprParser)
      → IsEmitted s
      → IsReady s a
      → IsReady s b
      → Emitted s (make_binary m numerals a b op s).1
        × IsReady (make_binary m numerals a b op s).1 (make_binary m numerals a b op s).0
  unfolding make_binary temp push
  make_binary-Emitted a b op s v f g = elim (Option-cases (folded m numerals a b op)) [
    | inr (x, e) ↦ rw (e, make_binary) ((refl, Reached-same s.tmp s s v refl refl), tt)
    | inl e ↦
        let out = temp_name s.tmp in
        let (r, ready) =
          emit-Reached s (binary_op m numerals a b op out) v (binary_op-outputs a b op out)
            (binary_op-readable a b op out s f g) in
        rw (e, make_binary) ((refl, r), ready)
  ]

  pub negate-Emitted :
      (a : Value F) (s : ExprParser)
      → IsEmitted s
      → IsReady s a
      → Emitted s (negate m numerals a s).1
        × IsReady (negate m numerals a s).1 (negate m numerals a s).0
  unfolding negate temp push all_readable
  negate-Emitted (literal x) s v f = ((refl, Reached-same s.tmp s s v refl refl), tt)
  negate-Emitted (named n) s v f =
      let (r, ready) =
        emit-Reached s (plain_op (text "neg") (n ∷ []) (temp_name s.tmp)) v refl
          (ground (arith, f)) in
      ((refl, r), ready)

  pub materialize-Emitted :
      (a : Value F) (s : ExprParser)
      → IsEmitted s
      → IsReady s a
      → Emitted s (materialize m numerals a s).1
        × (is_readable (outputs (materialize m numerals a s).1) (materialize m numerals a s).0
            ≡ true)
  unfolding materialize temp push all_readable
  materialize-Emitted (literal x) s v f =
      let (r, ready) = emit-Reached s (const_op m numerals x (temp_name s.tmp)) v refl refl in
      ((refl, r), ready)
  materialize-Emitted (named n) s v f = ((refl, Reached-same s.tmp s s v refl refl), f)

  pub materialize_all-Emitted :
      (vs : List (Value F)) (s : ExprParser)
      → IsEmitted s
      → AllReady s vs
      → Emitted s (materialize_all m numerals vs s).1
        × (all_readable
              (outputs (materialize_all m numerals vs s).1)
              (materialize_all m numerals vs s).0
            ≡ true)
  unfolding materialize_all all_readable
  materialize_all-Emitted [] s v f = ((refl, Reached-same s.tmp s s v refl refl), refl)
  materialize_all-Emitted (a ∷ vs) s v (f, g) =
      let s' : ExprParser = (materialize m numerals a s).1 in
      let s'' : ExprParser = (materialize_all m numerals vs s').1 in
      let ((same, r), first) = materialize-Emitted a s v f in
      let ((same', q), rest) =
        materialize_all-Emitted vs s' r.valid (AllReady-Reached s.tmp s s' vs r g) in
      (
        (
          same' ∙ same,
          Reached-trans s.tmp s s' s'' r (Reached-lower s.tmp s'.tmp s' s'' r.later q),
        ),
        ground (arith, q.kept (materialize m numerals a s).0 first, rest),
      )
