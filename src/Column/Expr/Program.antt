-- ===== src/Column/Expr/Program.antt =====
-- What the compiler of expressions promises of its ops: columns are read after they are written.
use mathlib.Core.List.{append_assoc, append-nil}
use lark.Base.{
  ℕ, ◌≡◌, ◌∙◌, refl, sym, ap, Bool, true, false, not, ◌&&◌, ◌||◌, ◌==◌, List, [], ◌∷◌, ◌++◌, Text,
  text_dec, arith, if◌then◌else◌, Bool-cases, inl, inr,
}
use lark.Base.Dict.{contains, Distinct}
use lark.Base.Dict.Laws.{contains-append}
use lark.Base.Decimal.RoundTrip.{to_string_ℕ-injective}
use lark.Column.Op.{OpSpec}
use lark.Column.Expr.{temp_name}

-- The names of temporaries start with `@`, which starts no identifier.
abbrev pub is_temp : Text → Bool
is_temp [] = false
is_temp (c ∷ cs) = c == 64

-- An input that is a temporary was written.
abbrev pub is_readable : List Text → Text → Bool
is_readable written n = not (is_temp n) || contains text_dec n written

unfoldable pub all_readable : List Text → List Text → Bool
all_readable written [] = true
all_readable written (n ∷ ns) = is_readable written n && all_readable written ns

unfoldable pub outputs_of : List OpSpec → List Text
outputs_of [] = []
outputs_of (op ∷ ops) = op.outputs ++ outputs_of ops

-- Every op reads what is in `written` or what ops before it wrote.
unfoldable pub in_order : List Text → List OpSpec → Bool
unfolding all_readable
in_order written [] = true
in_order written (op ∷ ops) = all_readable written op.inputs && in_order (written ++ op.outputs) ops

unfoldable pub temps_of : List Text → List Text
temps_of [] = []
temps_of (n ∷ ns) = let rest = temps_of ns in if is_temp n then n ∷ rest else rest

-- The ops read temporaries in order, and write each at most once.
pub record IsProgram (ops : List OpSpec) : Type 0 where
  pub ordered : in_order [] ops ≡ true
  pub once : Distinct text_dec (temps_of (outputs_of ops))

pub temp_name-injective : (i j : ℕ) → temp_name i ≡ temp_name j → i ≡ j
temp_name-injective i j e =
    to_string_ℕ-injective i j
      (ap (λ s. elim s [ [] ↦ [] | _ ∷ t ↦ elim t [ [] ↦ [] | _ ∷ u ↦ u ] ]) e)

pub in_order-snoc :
    (written : List Text) (ops : List OpSpec) (op : OpSpec)
    → in_order written (ops ++ op ∷ [])
      ≡ in_order written ops && all_readable (written ++ outputs_of ops) op.inputs
unfolding in_order outputs_of
in_order-snoc written [] op = rw append-nil (ground arith)
in_order-snoc written (o ∷ ops) op = ground (
  arith,
  in_order-snoc (written ++ o.outputs) ops op,
  append_assoc written o.outputs (outputs_of ops),
)

pub outputs_of-snoc :
    (ops : List OpSpec) (op : OpSpec) → outputs_of (ops ++ op ∷ []) ≡ outputs_of ops ++ op.outputs
unfolding outputs_of
outputs_of-snoc [] op = append-nil op.outputs
outputs_of-snoc (o ∷ ops) op =
    ap (λ l. o.outputs ++ l) (outputs_of-snoc ops op)
    ∙ sym (append_assoc o.outputs (outputs_of ops) op.outputs)

pub is_readable-append :
    (written more : List Text) (n : Text)
    → is_readable written n ≡ true
    → is_readable (written ++ more) n ≡ true
is_readable-append written more n h = ground (arith, h, contains-append text_dec n written more)

temps_of-append :
    (ns : List Text) (n : Text)
    → temps_of (ns ++ n ∷ []) ≡ (if is_temp n then temps_of ns ++ n ∷ [] else temps_of ns)
unfolding temps_of
temps_of-append [] n = refl
temps_of-append (x ∷ ns) n = ground (arith, temps_of-append ns n)

contains-temps_of :
    (ns : List Text) (n : Text)
    → contains text_dec n ns ≡ false
    → contains text_dec n (temps_of ns) ≡ false
unfolding temps_of contains
contains-temps_of [] n h = refl
contains-temps_of (x ∷ ns) n h = ground (arith, h, contains-temps_of ns n)

Distinct-snoc :
    (ns : List Text) (n : Text)
    → contains text_dec n ns ≡ false
    → Distinct text_dec ns
    → Distinct text_dec (ns ++ n ∷ [])
unfolding contains
Distinct-snoc [] n new d = (refl, tt)
Distinct-snoc (x ∷ ns) n new d =
    ground (arith, new, contains-append text_dec x ns (n ∷ []), Distinct-snoc ns n)

-- A temporary that was not there keeps the list distinct, and a column adds none.
pub temps_of-snoc :
    (ns : List Text) (n : Text)
    → (is_temp n ≡ true → contains text_dec n ns ≡ false)
    → Distinct text_dec (temps_of ns)
    → Distinct text_dec (temps_of (ns ++ n ∷ []))
temps_of-snoc ns n new d = rw temps_of-append (elim (Bool-cases (is_temp n)) [
  | inl e ↦ rw e (Distinct-snoc (temps_of ns) n (contains-temps_of ns n (new e)) d)
  | inr e ↦ rw e d
])
