-- ===== src/Column/Run/Turns.antt =====
-- The loop of Execute against the plain sequence of its ops.
use mathlib.Core.Option
use mathlib.Core.List.{append_assoc}
use mathlib.Core.Path.{subst}
use lark.Base.{
  ℕ, suc, max, ◌≡◌, refl, ap, sym, true, false, ◌==◌, Option, none, some, List, [], ◌∷◌, ◌++◌, map,
  Text, text, if◌then◌else◌, arith, ℕ_discrete, Bool-cases, inl, inr, ◌⊎◌, ◌-◌,
}
use lark.Base.Dict.{contains}
use lark.Base.Result.{Exception}
use lark.Metric.{Event}
use lark.Column.Store.{TensorStore}
use lark.Column.Ops.{Outcome, returns, raises, undefined}
use lark.Column.Ops.Defined.{IsDefined}
use lark.Column.Graph.{success, failed, NodeRun, fresh_run, ComputeNode, node_at, change_node}
use lark.Column.Run.Modules.{Tallied, changes-Tallied}
use lark.Column.Run.{
  Execution, tell, is_ok, node_event, emit_node_event, begin_node, end_node, node_run, run_node,
}

-- The action and the subject of an event.
abbrev pub brief : Event → Text × Text
brief e = (e.action, e.subject)

Outcome-cases :
    {A : Type 0} (o : Outcome A)
    → ((a : A) × (o ≡ returns a)) ⊎ ((e : Exception) × (o ≡ raises e)) ⊎ (o ≡ undefined)
Outcome-cases (returns a) = inl (a, refl)
Outcome-cases (raises e) = inr (inl (e, refl))
Outcome-cases undefined = inr (inr refl)

tell-tell :
    (d e : Event) (monitor : Option (List Event))
    → tell e (tell d monitor) ≡ Option.map (λ log. log ++ d ∷ e ∷ []) monitor
tell-tell d e none = refl
tell-tell d e (some log) = ap some (append_assoc log (d ∷ []) (e ∷ []))

abbrev pub ending : {A : Type 0} → Outcome A → Text
ending (returns _) = text "node.end"
ending (raises _) = text "node.error"
ending undefined = text "node.error"

module _ {S F : Type 0} where
  -- The store that an op leaves; one that throws leaves it as it was.
  abbrev pub left_by : Outcome (TensorStore S F) → TensorStore S F → TensorStore S F
  left_by (returns store') store = store'
  left_by (raises e) store = store
  left_by undefined store = store

  abbrev pub after : ComputeNode S F → TensorStore S F → TensorStore S F
  after node store = left_by (node.op.compute store) store

  -- Each node of an order in turn, on the store that the ones before have left.
  abbrev pub InTurn :
      (ComputeNode S F → TensorStore S F → Type 0)
      → List (ComputeNode S F)
      → List ℕ
      → TensorStore S F
      → Type 0
  InTurn P nodes [] store = Unit {0}
  InTurn P nodes (a ∷ order) store =
      (node : ComputeNode S F) × (node_at nodes a ≡ some node)
      × P node store
      × InTurn P nodes order (after node store)

  -- What the run of a node says after its op.
  abbrev Says : Outcome (TensorStore S F) → NodeRun → Type 0
  Says (returns store) run = (run.status ≡ success) × (run.error ≡ none) × (run.is_done ≡ true)
  Says (raises e) run = (run.status ≡ failed) × (run.error ≡ some e) × (run.is_done ≡ true)
  Says undefined run = ⊥

  abbrev pub HasRun : ComputeNode S F → TensorStore S F → Type 0
  HasRun node store = Says (node.op.compute store) node.run

  -- The store at the end, and what a monitor is told in the meantime.
  abbrev pub store_after : List (ComputeNode S F) → List ℕ → TensorStore S F → TensorStore S F
  store_after nodes [] store = store
  store_after nodes (a ∷ order) store = elim (node_at nodes a) [
    | none ↦ store
    | some node ↦ store_after nodes order (after node store)
  ]

  abbrev pub history : List (ComputeNode S F) → List ℕ → TensorStore S F → List (Text × Text)
  history nodes [] store = []
  history nodes (a ∷ order) store = elim (node_at nodes a) [
    | none ↦ []
    | some node ↦
        (text "node.start", node.id)
        ∷ (ending (node.op.compute store), node.id)
        ∷ history nodes order (after node store)
  ]

  -- The modules of the nodes that an order runs.
  abbrev pub modules_of : List (ComputeNode S F) → List ℕ → List Text
  modules_of nodes [] = []
  modules_of nodes (a ∷ order) = elim (node_at nodes a) [
    | none ↦ []
    | some node ↦ node.module_name ∷ modules_of nodes order
  ]

  -- All but the run.
  abbrev pub bare : ComputeNode S F → ComputeNode S F
  bare node = record node { run = fresh_run }

  abbrev pub AllDefined : List (ComputeNode S F) → Type 0
  AllDefined nodes =
      (a : ℕ) (node : ComputeNode S F)
      → node_at nodes a ≡ some node
      → (store : TensorStore S F) → IsDefined (node.op.compute store)

  pub record Followed (order : List ℕ) (x x' : Execution S F) : Type 0 where
    pub same : map bare x'.nodes ≡ map bare x.nodes
    pub others :
        (u : ℕ) → contains ℕ_discrete u order ≡ false → node_at x'.nodes u ≡ node_at x.nodes u
    pub runs : InTurn HasRun x'.nodes order x.store
    pub store : x'.store ≡ store_after x'.nodes order x.store
    pub events : List Event
    pub told : x'.monitor ≡ Option.map (λ log. log ++ events) x.monitor
    pub briefs : map brief events ≡ history x'.nodes order x.store
    pub modules : Tallied (modules_of x'.nodes order) x.modules x'.modules

  -- One round.
  module _ (now : ℕ → ℕ) (a : ℕ) (node : ComputeNode S F) (x : Execution S F)
      (there : node_at x.nodes a ≡ some node) where
    pub record Turned (x1 : Execution S F) : Type 0 where
      pub run : NodeRun
      pub nodes : x1.nodes ≡ change_node node.address (λ other. record other { run = run }) x.nodes
      pub says : Says (node.op.compute x.store) run
      pub store : x1.store ≡ after node x.store
      pub modules : Tallied (node.module_name ∷ []) x.modules x1.modules
      pub first : Event
      pub second : Event
      pub told : x1.monitor ≡ Option.map (λ log. log ++ first ∷ second ∷ []) x.monitor
      pub briefs :
          map brief (first ∷ second ∷ [])
          ≡ (text "node.start", node.id) ∷ (ending (node.op.compute x.store), node.id) ∷ []

    turn :
        (start : ℕ) (finish : ℕ) (err : Option Exception) (store : TensorStore S F)
        → Says (node.op.compute x.store) (node_run (finish - start) err)
        → store ≡ after node x.store
        → (if is_ok err then text "node.end" else text "node.error")
          ≡ ending (node.op.compute x.store)
        → Turned (end_node start finish err store node (begin_node start node x))
    unfolding begin_node end_node emit_node_event node_event
    turn start finish err store says same action =
        let elapsed = finish - start in
        record {
          run = node_run elapsed err;
          nodes = refl;
          says = says;
          store = same;
          modules =
              changes-Tallied node.module_name
                (λ acc. record acc {
                  count = suc acc.count;
                  started = true;
                  start = if acc.started then acc.start else start;
                })
                (λ acc. record acc { finish = max acc.finish finish }) x.modules (λ acc. refl);
          first = node_event (text "node.start") node.id node.op.op_type 0 true;
          second =
              node_event (if is_ok err then text "node.end" else text "node.error") node.id
                node.op.op_type elapsed (is_ok err);
          told = tell-tell _ _ x.monitor;
          briefs = ap (λ t. (text "node.start", node.id) ∷ (t, node.id) ∷ []) action;
        }

    pub run_node-Turned :
        IsDefined (node.op.compute x.store)
        → (x1 : Execution S F) × (run_node now node x ≡ returns x1) × Turned x1
    unfolding run_node begin_node
    run_node-Turned d =
        let start = now x.reads in
        let begun = begin_node start node x in
        let finish = now begun.reads in
        elim (Outcome-cases (node.op.compute x.store)) [
          | inl (store, e) ↦ (
            end_node start finish none store node begun,
            rw (e, run_node) refl,
            turn start finish none store (rw e (refl, refl, refl))
                (sym (ap (λ o. left_by o x.store) e)) (sym (ap ending e)),
          )
          | inr (inl (error, e)) ↦ (
            end_node start finish (some error) x.store node begun,
            rw (e, run_node) refl,
            turn start finish (some error) x.store (rw e (refl, refl, refl))
                (sym (ap (λ o. left_by o x.store) e)) (sym (ap ending e)),
          )
          | inr (inr e) ↦ absurd (rw e at d)
        ]

module _ {S F : Type 0} where
  pub AllDefined-cons :
      (node : ComputeNode S F) (nodes : List (ComputeNode S F))
      → ((store : TensorStore S F) → IsDefined (node.op.compute store))
      → AllDefined nodes
      → AllDefined (node ∷ nodes)
  unfolding node_at
  AllDefined-cons node nodes d ds a other h store = elim (Bool-cases (a == node.address)) [
    | inl e ↦
        let same : node ≡ other = ground (arith, h, e) in
        subst (λ (n : ComputeNode S F). IsDefined (n.op.compute store)) same (d store)
    | inr e ↦ ds a other (ground (arith, h, e)) store
  ]

  pub nothing-AllDefined : AllDefined {S = S} {F = F} []
  unfolding node_at
  nothing-AllDefined a node h store = cc
