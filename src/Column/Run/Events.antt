-- ===== src/Column/Run/Events.antt =====
-- The events of a run and what they count (column/src/column/exec/compute_graph.cpp).
use mathlib.Core.Option
use lark.Base.{
  ℕ, ◌-◌, ◌==◌, ltb, Bool, true, false, if◌then◌else◌, Option, List, [], ◌∷◌, ◌++◌, Text, text,
  text_dec,
}
use lark.Base.Decimal.{to_string_ℕ}
use lark.Base.Dict.{assign}
use lark.Base.Int.{pos}
use lark.Metric.{Event, event}

pub record ModuleAcc : Type 0 where
  pub start : ℕ
  pub finish : ℕ
  pub started : Bool
  pub count : ℕ

abbrev pub no_acc : ModuleAcc
no_acc = record { start = 0; finish = 0; started = false; count = 0 }

-- operator< of std::string.
unfoldable pub text_less : Text → Text → Bool
text_less s [] = false
text_less [] (d ∷ t) = true
text_less (c ∷ s) (d ∷ t) =
    let rest = text_less s t in if ltb c d then true else if c == d then rest else false

-- A change of `modules[name]`, in a std::map.
unfoldable pub change_acc :
    Text → (ModuleAcc → ModuleAcc) → List (Text × ModuleAcc) → List (Text × ModuleAcc)
unfolding text_less
change_acc name f [] = (name, f no_acc) ∷ []
change_acc name f ((key, acc) ∷ accs) =
    let rest = change_acc name f accs in
    if text_less name key
    then (name, f no_acc) ∷ (key, acc) ∷ accs
    else if text_less key name
    then (key, acc) ∷ rest
    else (key, f acc) ∷ accs

abbrev pub tell : Event → Option (List Event) → Option (List Event)
tell e = Option.map (λ log. log ++ e ∷ [])

unfoldable pub node_event : Text → Text → Text → ℕ → Bool → Event
node_event action id op_type elapsed ok = record (event (text "column") action id) {
  attrs =
      assign text_dec (text "elapsed_ns") (to_string_ℕ elapsed)
        (assign text_dec (text "op") op_type []);
  duration = pos elapsed;
  ok = ok;
}

unfoldable pub module_event : Text × ModuleAcc → Event
module_event (name, acc) = record (event (text "column") (text "module.end") name) {
  attrs = assign text_dec (text "node_count") (to_string_ℕ acc.count) [];
  duration = pos (acc.finish - acc.start);
}
