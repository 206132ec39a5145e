-- ===== src/Column/Expr/Reached.antt =====
-- The states of ExprParser: what is written, what can be read, and how a push changes that.
use mathlib.Core.Path.{subst}
use lark.Base.{
  ℕ, suc, ◌<◌, ◌≤◌, ◌≡◌, ◌∙◌, refl, sym, Bool, true, false, List, [], ◌∷◌, ◌++◌, Text, text_dec,
  arith, Bool-cases, inl, inr,
}
use lark.Base.Dict.{contains, Distinct}
use lark.Base.Dict.Laws.{contains-append}
use lark.Column.Op.{OpSpec}
use lark.Column.Expr.{ExprParser, Value, literal, named, temp_name, push}
use lark.Column.Expr.Program.{
  is_temp, is_readable, all_readable, outputs_of, IsProgram, temp_name-injective, in_order-snoc,
  outputs_of-snoc, is_readable-append, temps_of-snoc, temps_of,
}

abbrev pub outputs : ExprParser → List Text
outputs s = outputs_of s.ops

-- The temporaries that are written are below the counter.
pub record IsEmitted (s : ExprParser) : Type 0 where
  pub program : IsProgram s.ops
  pub below : (i : ℕ) → contains text_dec (temp_name i) (outputs s) ≡ true → i < s.tmp

-- From s the compiler comes to s', and the temporaries below k that were not written are not yet.
pub record Reached (k : ℕ) (s s' : ExprParser) : Type 0 where
  pub valid : IsEmitted s'
  pub later : s.tmp ≤ s'.tmp
  pub kept : (n : Text) → is_readable (outputs s) n ≡ true → is_readable (outputs s') n ≡ true
  pub fresh :
      (i : ℕ)
      → i < k
      → contains text_dec (temp_name i) (outputs s) ≡ false
      → contains text_dec (temp_name i) (outputs s') ≡ false

-- The tokens change, and the ops do not.
pub Reached-same :
    (k : ℕ) (s s' : ExprParser) → IsEmitted s → s'.ops ≡ s.ops → s'.tmp ≡ s.tmp → Reached k s s'
Reached-same k s s' v o t = record {
  valid = record {
    program = subst (λ l. IsProgram l) (sym o) v.program;
    below = λ i h. rw t (v.below i (rw (sym o) h));
  };
  later = omega (arith, t);
  kept = λ n h. rw o h;
  fresh = λ i less h. rw o h;
}

pub Reached-trans : (k : ℕ) (a b c : ExprParser) → Reached k a b → Reached k b c → Reached k a c
Reached-trans k a b c r q = record {
  valid = q.valid;
  later = omega (arith, r.later, q.later);
  kept = λ n h. q.kept n (r.kept n h);
  fresh = λ i less h. q.fresh i less (r.fresh i less h);
}

pub Reached-lower : (j k : ℕ) (s s' : ExprParser) → j ≤ k → Reached k s s' → Reached j s s'
Reached-lower j k s s' le r = record {
  valid = r.valid;
  later = r.later;
  kept = r.kept;
  fresh = λ i less h. r.fresh i (omega (arith, less, le)) h;
}

pub Reached-next :
    (k : ℕ) (a b c : ExprParser) → k ≤ a.tmp → Reached k a b → Reached b.tmp b c → Reached k a c
Reached-next k a b c le r q =
    Reached-trans k a b c r (Reached-lower k b.tmp b c (omega (arith, le, r.later)) q)

-- A value that an op can read.
abbrev pub IsReady : {F : Type 0} → ExprParser → Value F → Type 0
IsReady s (literal x) = Unit
IsReady s (named n) = Path Bool (is_readable (outputs s) n) true

-- A push of an op with one output, a temporary at least k that was taken and not written, or a
-- column.
pub push-Reached :
    (k : ℕ) (s : ExprParser) (op : OpSpec) (out : Text)
    → IsEmitted s
    → op.outputs ≡ out ∷ []
    → all_readable (outputs s) op.inputs ≡ true
    → (is_temp out ≡ true → contains text_dec out (outputs s) ≡ false)
    → ((i : ℕ) → out ≡ temp_name i → (k ≤ i) × (i < s.tmp))
    → Reached k s (push op s) × (is_readable (outputs (push op s)) out ≡ true)
unfolding push contains
push-Reached k s op out v one reads new low =
    let more : outputs (push op s) ≡ outputs s ++ out ∷ [] =
      outputs_of-snoc s.ops op ∙ rw one refl in
    (
      record {
        valid = record {
          program = record {
            ordered = in_order-snoc [] s.ops op ∙ ground (arith, v.program.ordered, reads);
            once =
                subst (λ l. Distinct text_dec (temps_of l)) (sym more)
                  (temps_of-snoc (outputs s) out new v.program.once);
          };
          below = λ i h. elim (text_dec (temp_name i) out) [
            | yes e ↦ (low i (sym e)).1
            | no ne ↦ v.below i (
                ground (
                  arith,
                  ne,
                  more,
                  h,
                  contains-append text_dec (temp_name i) (outputs s) (out ∷ []),
                ))
          ];
        };
        later = omega arith;
        kept = λ n h. rw more (is_readable-append (outputs s) (out ∷ []) n h);
        fresh = λ i less h. ground (
          arith,
          less,
          h,
          more,
          low i,
          contains-append text_dec (temp_name i) (outputs s) (out ∷ []),
        );
      },
      ground (arith, more, contains-append text_dec out (outputs s) (out ∷ [])),
    )

abbrev pub taken : ExprParser → ExprParser
taken s = record s { tmp = suc s.tmp }

pub taken-Reached : (k : ℕ) (s : ExprParser) → IsEmitted s → Reached k s (taken s)
taken-Reached k s v = record {
  valid = record { program = v.program; below = λ i h. omega (arith, v.below i h) };
  later = omega arith;
  kept = λ n h. h;
  fresh = λ i less h. h;
}

pub unwritten :
    (s : ExprParser) (i : ℕ)
    → IsEmitted s
    → s.tmp ≤ i
    → contains text_dec (temp_name i) (outputs s) ≡ false
unwritten s i v le = elim (Bool-cases (contains text_dec (temp_name i) (outputs s))) [
  | inl e ↦ absurd (omega (arith, le, v.below i e))
  | inr e ↦ e
]

-- A push of an op that writes the next temporary.
pub emit-Reached :
    (s : ExprParser) (op : OpSpec)
    → IsEmitted s
    → op.outputs ≡ temp_name s.tmp ∷ []
    → all_readable (outputs s) op.inputs ≡ true
    → Reached s.tmp s (push op (taken s))
      × (is_readable (outputs (push op (taken s))) (temp_name s.tmp) ≡ true)
emit-Reached s op v one reads =
    let t = taken-Reached s.tmp s v in
    let (r, readable) =
      push-Reached s.tmp (taken s) op (temp_name s.tmp) t.valid one reads
        (λ e. unwritten s s.tmp v (omega arith))
        (λ i e.
          let same = temp_name-injective s.tmp i e in (omega (arith, same), omega (arith, same))) in
    (Reached-trans s.tmp s (taken s) (push op (taken s)) t r, readable)
