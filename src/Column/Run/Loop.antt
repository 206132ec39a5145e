-- ===== src/Column/Run/Loop.antt =====
-- The whole loop of Execute, by induction on the order.
use mathlib.Core.Option
use mathlib.Core.Path.{subst}
use mathlib.Core.List.{append_assoc, append-nil}
use lark.Base.{
  ℕ, ◌≡◌, refl, ap, sym, ◌∙◌, true, false, ◌==◌, Option, none, some, List, [], ◌∷◌, ◌++◌, map, text,
  if◌then◌else◌, arith, ℕ_discrete, Option-cases, inl, inr,
}
use lark.Base.Dict.{contains, Distinct, is_some}
use lark.Metric.{Event}
use lark.Dag.Digraph.{Has}
use lark.Column.Ops.{returns, ◌>>=◌}
use lark.Column.Ops.Defined.{IsDefined}
use lark.Column.Graph.{NodeOp, NodeRun, ComputeNode, node_at, change_node}
use lark.Column.Graph.Nodes.{node_at-change_node, node_at-address}
use lark.Column.Run.{Execution, run_nodes}
use lark.Column.Run.Modules.{nothing-Tallied, Tallied-cons}
use lark.Column.Run.Turns.{
  brief, ending, InTurn, HasRun, store_after, history, modules_of, bare, AllDefined, Followed,
  Turned, run_node-Turned,
}

pub map-append_told :
    (es fs : List Event) (m : Option (List Event))
    → Option.map (λ log. log ++ fs) (Option.map (λ log. log ++ es) m)
      ≡ Option.map (λ log. log ++ (es ++ fs)) m
map-append_told es fs none = refl
map-append_told es fs (some log) = ap some (append_assoc log es fs)

told_nothing : (m : Option (List Event)) → m ≡ Option.map (λ log. log ++ []) m
told_nothing none = refl
told_nothing (some log) = ap some (sym (append-nil log))

module _ {S F : Type 0} where
  abbrev with_run : NodeRun → ComputeNode S F → ComputeNode S F
  with_run run node = record node { run = run }

  bare-change_node :
      (a : ℕ) (run : NodeRun) (nodes : List (ComputeNode S F))
      → map bare (change_node a (with_run run) nodes) ≡ map bare nodes
  unfolding change_node
  bare-change_node a run [] = refl
  bare-change_node a run (node ∷ nodes) = ground (arith, bare-change_node a run nodes)

  node_there :
      (x : Execution S F) (a : ℕ)
      → is_some (node_at x.nodes a) ≡ true
      → (node : ComputeNode S F) × (node_at x.nodes a ≡ some node)
  node_there x a h = elim (Option-cases (node_at x.nodes a)) [
    | inl e ↦ absurd (ground (arith, h, e))
    | inr found ↦ found
  ]

  module _ (now : ℕ → ℕ) (a : ℕ) (node : ComputeNode S F) (x x1 : Execution S F)
      (there : node_at x.nodes a ≡ some node) (t : Turned now a node x there x1) where
    at_after :
        (u : ℕ)
        → node_at x1.nodes u
          ≡ (if u == a then Option.map (with_run t.run) (node_at x.nodes u) else node_at x.nodes u)
    at_after u =
        let same = node_at-address x.nodes a node there in
        ap (λ ns. node_at ns u) t.nodes
        ∙ node_at-change_node node.address (with_run t.run) x.nodes u (λ other. refl)
        ∙ ap
            (λ b.
              if u == b then Option.map (with_run t.run) (node_at x.nodes u) else node_at x.nodes u)
            same

    turned-known :
        (u : ℕ) → is_some (node_at x.nodes u) ≡ true → is_some (node_at x1.nodes u) ≡ true
    turned-known u h = ground (arith, at_after u, h)

    turned-AllDefined : AllDefined x.nodes → AllDefined x1.nodes
    turned-AllDefined d u other h store = elim (Option-cases (node_at x.nodes u)) [
      | inl e ↦ absurd (ground (arith, at_after u, h, e))
      | inr (old, e) ↦
          let op : other.op ≡ old.op = ground (arith, at_after u, h, e) in
          subst (λ (op : NodeOp S F). IsDefined (op.compute store)) (sym op) (d u old e store)
    ]

  module _ (now : ℕ → ℕ) (a : ℕ) (node : ComputeNode S F) (x x1 x' : Execution S F)
      (there : node_at x.nodes a ≡ some node) (t : Turned now a node x there x1) (order : List ℕ)
      (absent : contains ℕ_discrete a order ≡ false) (f : Followed order x1 x') where
    abbrev node' : ComputeNode S F
    node' = with_run t.run node

    there' : node_at x'.nodes a ≡ some node'
    there' = f.others a absent ∙ ground (arith, at_after now a node x x1 there t a, there)

    Followed-cons : Followed (a ∷ order) x x'
    unfolding contains
    Followed-cons = record {
      same = f.same ∙ ap (map bare) t.nodes ∙ bare-change_node node.address t.run x.nodes;
      others = λ u h.
          f.others u (ground (arith, h)) ∙ ground (arith, at_after now a node x x1 there t u, h);
      runs = (node', there', t.says, subst (InTurn HasRun x'.nodes order) t.store f.runs);
      store = f.store ∙ rw (there', store_after) (ap (store_after x'.nodes order) t.store);
      modules =
          rw (there', modules_of)
            (Tallied-cons node.module_name (modules_of x'.nodes order) x.modules x1.modules
              x'.modules t.modules f.modules);
      events = t.first ∷ t.second ∷ f.events;
      told =
          f.told
          ∙ ap (Option.map (λ log. log ++ f.events)) t.told
          ∙ map-append_told (t.first ∷ t.second ∷ []) f.events x.monitor;
      briefs =
          rw (there', history)
            (ap (λ rest. brief t.first ∷ brief t.second ∷ rest) f.briefs
              ∙ ap (λ start. start ++ history x'.nodes order x1.store) t.briefs
              ∙ ap
                  (λ st.
                    (text "node.start", node.id)
                    ∷ (ending (node.op.compute x.store), node.id)
                    ∷ history x'.nodes order st)
                  t.store);
    }

  module _ (now : ℕ → ℕ) where
    pub run_nodes-Followed :
        (order : List ℕ) (x : Execution S F)
        → AllDefined x.nodes
        → Distinct ℕ_discrete order
        → ((a : ℕ) → Has a order → is_some (node_at x.nodes a) ≡ true)
        → (x' : Execution S F) × (run_nodes now order x ≡ returns x') × Followed order x x'
    unfolding run_nodes contains
    run_nodes-Followed [] x d distinct known = (
      x,
      refl,
      record {
        same = refl;
        others = λ u h. refl;
        runs = tt;
        store = refl;
        modules = nothing-Tallied x.modules;
        events = [];
        told = told_nothing x.monitor;
        briefs = refl;
      },
    )
    run_nodes-Followed (a ∷ order) x d distinct known =
        let (node, there) = node_there x a (known a (ground arith)) in
        let (x1, first, t) = run_node-Turned now a node x there (d a node there x.store) in
        let (x', rest, f) =
          run_nodes-Followed order x1 (turned-AllDefined now a node x x1 there t d) distinct.1
            (λ u h. turned-known now a node x x1 there t u (known u (ground arith))) in
        (
          x',
          rw (there, run_nodes) (rw (first, ◌>>=◌) rest),
          Followed-cons now a node x x1 x' there t order distinct.0 f,
        )
