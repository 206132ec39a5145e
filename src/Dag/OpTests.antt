-- ===== src/Dag/OpTests.antt =====
-- Op graphs at concrete inputs: three ops in a row, built, compiled and run; and a cycle.
use mathlib.Core.List.{lookup}
use lark.Base.{
  ℕ, zero, suc, ◌*◌, ◌≤◌, ◌<◌, ◌≡◌, ◌⊎◌, refl, true, false, some, List, [], ◌∷◌, Text, text,
  text_dec, length, arith, ℕ_discrete,
}
use lark.Base.Dict.{contains, emplace, assign}
use lark.Base.Int.{pos}
use lark.Base.Result.{done}
use lark.Base.Sums.{update}
use lark.Dag.Digraph.{Edge}
use lark.Dag.Kahn.{count_deps, count_all, start_nodes, decrement, release, drain, kahn}
use lark.Dag.Kahn.Order.{KahnVerdict, kahn-KahnVerdict}
use lark.Dag.OpGraph.{
  OpStatus, pending, Op, OpAspect, OpGraph, OpDef, OpRegistry, add_op, add_aspect, depends_on,
  create_op, add_aspects, add_ops, wire_op, wire_ops, build_ops, compile,
}
use lark.Dag.OpGraph.Valid.{IsOrder}
use lark.Dag.OpGraph.Compile.{CompileVerdict, compile-CompileVerdict}
use lark.Dag.OpGraph.Built.{IsBuiltFrom, build_ops-IsBuiltFrom}
use lark.Dag.OpExecutor.{
  Run, any_skips, all_before, all_after, begin_op, finish_op, start_run, Step, begins, finishes,
  Steps, here, then_,
}
use lark.Dag.OpExecutor.Safety.{IsSafe, run-IsSafe}
use lark.Dag.OpExecutor.Progress.{AllResolved, run_ends}

abbrev row : ℕ → List ℕ
row zero = []
row (suc zero) = 0 ∷ []
row (suc (suc zero)) = 1 ∷ 0 ∷ []
row (suc (suc (suc v))) = []

row_in_range : (u v : ℕ) → Edge row u v → v < 3
unfolding contains
row_in_range zero v h = cc
row_in_range (suc zero) v h = ground arith
row_in_range (suc (suc zero)) v h = ground arith
row_in_range (suc (suc (suc u))) v h = cc

row_beyond : (u : ℕ) → 3 ≤ u → row u ≡ []
row_beyond zero h = absurd (omega arith)
row_beyond (suc zero) h = absurd (omega arith)
row_beyond (suc (suc zero)) h = absurd (omega arith)
row_beyond (suc (suc (suc u))) h = refl

row_order : kahn row 3 ≡ some (0 ∷ 1 ∷ 2 ∷ [])
unfolding kahn count_all count_deps start_nodes decrement release drain ℕ_discrete
row_order = refl

kahn-KahnVerdict_example : KahnVerdict row 3 row_in_range row_beyond (kahn row 3)
kahn-KahnVerdict_example = kahn-KahnVerdict row 3 row_in_range row_beyond

-- The context is a list of the ops that were executed, the last first.
abbrev op : Text → Op (List Text)
op name = record { name = name; execute = λ d. (name ∷ d, true) }

-- An aspect that skips the op `b`.
abbrev skips_b : OpAspect (List Text)
skips_b = record {
  should_skip = λ op d. some (contains text_dec op.name (text "b" ∷ []));
  on_before = λ op d. (d, true);
  on_after = λ op d st. (d, true);
}

abbrev types : OpRegistry (List Text)
types = (text "A", done (some (op (text "a")))) ∷ (text "B", done (some (op (text "b")))) ∷ []

abbrev def : Text → List Text → Text → OpDef
def type_name deps id = record { type_name = type_name; deps = deps; id = id }

abbrev defs : List OpDef
defs =
    def (text "A") [] (text "x")
    ∷ def (text "B") (text "x" ∷ []) (text "y")
    ∷ def (text "A") (text "y" ∷ text "x" ∷ []) (text "z")
    ∷ []

abbrev built : OpGraph (List Text)
built = record {
  ops = op (text "a") ∷ op (text "b") ∷ op (text "a") ∷ [];
  by_id = (text "x", 0) ∷ (text "y", 1) ∷ (text "z", 2) ∷ [];
  deps = update (update (update (λ v. []) 1 (0 ∷ [])) 2 (1 ∷ [])) 2 (1 ∷ 0 ∷ []);
  aspects = skips_b ∷ [];
  order = [];
  compiled = false;
}

builds : build_ops types (skips_b ∷ []) defs ≡ done built
unfolding build_ops add_aspects add_aspect add_ops create_op add_op emplace assign lookup text_dec
    wire_ops wire_op depends_on update ℕ_discrete
builds = refl

build_ops-IsBuiltFrom_example : IsBuiltFrom types (skips_b ∷ []) defs built
build_ops-IsBuiltFrom_example = build_ops-IsBuiltFrom types (skips_b ∷ []) defs built builds

compile-CompileVerdict_example : CompileVerdict built (compile built)
compile-CompileVerdict_example =
    compile-CompileVerdict built
      (build_ops-IsBuiltFrom types (skips_b ∷ []) defs built builds).valid

built-IsOrder : IsOrder built.deps 3 (0 ∷ 1 ∷ 2 ∷ [])
unfolding contains ℕ_discrete
built-IsOrder = record {
  sorted =
      (λ d e. cc, refl, (λ d e. ground (arith, e), refl, (λ d e. ground (arith, e), refl, tt)));
  covers = λ v. (λ h. ground arith, λ h. ground arith);
  size = refl;
}

abbrev before : ℕ → OpStatus
before v = pending

abbrev start : Run (List Text)
start = start_run before [] (some [])

abbrev once : Run (List Text)
once = begin_op built.aspects (op (text "a")) 0 start

abbrev twice : Run (List Text)
twice = finish_op (pos 7) built.aspects (op (text "a")) 0 once

-- The first op is executed, and the second one is skipped.
abbrev thrice : Run (List Text)
thrice = begin_op built.aspects (op (text "b")) 1 twice

three-Steps : Steps built start 3 thrice
unfolding begin_op finish_op any_skips all_before all_after contains text_dec ℕ_discrete
three-Steps =
    then_
      (then_ (then_ here (begins 0 (op (text "a")) refl refl (λ d e. cc)))
        (finishes 0 (op (text "a")) (pos 7) refl refl))
      (begins 1 (op (text "b")) refl refl (λ d e. ground (arith, e)))

run-IsSafe_example : IsSafe built before thrice
run-IsSafe_example = run-IsSafe built before [] (some []) 3 thrice three-Steps

run_ends_example :
    (3 ≤ 2 * length built.ops)
    × (AllResolved built thrice ⊎ ((u : Run (List Text)) × Step built thrice u))
run_ends_example =
    run_ends built (0 ∷ 1 ∷ 2 ∷ []) before [] (some []) 3 thrice built-IsOrder three-Steps
