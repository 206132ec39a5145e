-- ===== src/Column/Graph/Replace.antt =====
-- ComputeGraph::ReplacePlaceholder: what becomes of the nodes, their names and their dependencies.
use mathlib.Core.Option
use mathlib.Core.Path.{subst}
use lark.Base.{
  ℕ, ◌≡◌, ◌≢◌, ◌==◌, refl, ap, sym, ◌∙◌, false, if◌then◌else◌, Option, none, some, List, [], map,
  Text, text, text_dec, arith, ℕ_discrete, Option-cases, Bool-cases, inl, inr, ite,
}
use lark.Base.Dict.{contains, Distinct, remove, erase}
use lark.Base.Dict.Laws.{lookup-erase, remove-Distinct, contains-remove}
use lark.Base.Result.{Exception}
use lark.Column.Graph.{
  ComputeNode, ComputeGraph, find, node_at, replace_dependency, remove_node, replace_placeholder,
  unknown,
}
use lark.Column.Graph.Rewire.{rewired, contains-replace_dependency, replace_dependency-Distinct}
use lark.Column.Graph.Nodes.{
  addresses, deps_of, node_at-map, node_at-remove_node, Has-addresses, addresses-map,
  addresses-remove_node,
}
use lark.Column.Graph.Wired.{IsWired}

module _ {S F : Type 0} where
  -- All but the dependencies and the run.
  pub record IsSameNode (before after : ComputeNode S F) : Type 0 where
    pub id : after.id ≡ before.id
    pub module_name : after.module_name ≡ before.module_name
    pub op : after.op ≡ before.op

  -- The graph `h` when the node at `a`, whose id is `p`, is replaced by the node at `b`.
  pub record IsReplaced (g : ComputeGraph S F) (p : Text) (a b : ℕ) (h : ComputeGraph S F)
      : Type 0 where
    pub order : addresses h.nodes ≡ remove ℕ_discrete a (addresses g.nodes)
    pub ids : (q : Text) → find h q ≡ ite (text_dec q p) none (find g q)
    pub kept :
        (u : ℕ) (node : ComputeNode S F)
        → u ≢ a
        → node_at g.nodes u ≡ some node
        → (after : ComputeNode S F) × (node_at h.nodes u ≡ some after) × IsSameNode node after
    pub edges :
        (u v : ℕ)
        → contains ℕ_discrete v (deps_of h.nodes u)
          ≡ (if u == a then false else rewired v a b (deps_of g.nodes u))
    pub single : (u : ℕ) → Distinct ℕ_discrete (deps_of h.nodes u)
    pub stale : h.finalized ≡ false

  pub data Replacement (g : ComputeGraph S F) (p r : Text)
      : ComputeGraph S F × Option Exception → Type 0 where
    unknown_placeholder :
        find g p ≡ none
        → Replacement g p r (g, unknown (text "ReplacePlaceholder: unknown placeholder '") p)
    unknown_node :
        (a : ℕ)
        → find g p ≡ some a
        → find g r ≡ none
        → Replacement g p r (g, unknown (text "ReplacePlaceholder: unknown node '") r)
    same_node : (a : ℕ) → find g p ≡ some a → find g r ≡ some a → Replacement g p r (g, none)
    replaced :
        (a b : ℕ) {h : ComputeGraph S F}
        → find g p ≡ some a
        → find g r ≡ some b
        → a ≢ b
        → IsReplaced g p a b h
        → Replacement g p r (h, none)

  module _ (g : ComputeGraph S F) (p : Text) (a b : ℕ) where
    abbrev after_replace : ComputeGraph S F
    after_replace = record g {
      nodes = remove_node a (map (replace_dependency a b) g.nodes);
      by_id = erase text_dec p g.by_id;
      finalized = false;
    }

    keeps : (node : ComputeNode S F) → (replace_dependency a b node).address ≡ node.address
    unfolding replace_dependency
    keeps node = refl

    same : (node : ComputeNode S F) → IsSameNode node (replace_dependency a b node)
    unfolding replace_dependency
    same node = record { id = refl; module_name = refl; op = refl }

    at_address :
        (u : ℕ)
        → node_at after_replace.nodes u
          ≡ (if u == a then none else Option.map (replace_dependency a b) (node_at g.nodes u))
    at_address u =
        node_at-remove_node a (map (replace_dependency a b) g.nodes) u
        ∙ ap (λ o. if u == a then none else o)
            (node_at-map (replace_dependency a b) g.nodes u keeps)

    replace_edges :
        (u v : ℕ)
        → contains ℕ_discrete v (deps_of after_replace.nodes u)
          ≡ (if u == a then false else rewired v a b (deps_of g.nodes u))
    unfolding contains
    replace_edges u v = elim (Option-cases (node_at g.nodes u)) [
      | inl absent ↦ ground (arith, at_address u, absent)
      | inr (node, there) ↦
          ground (arith, at_address u, there, contains-replace_dependency v a b node)
    ]

    abbrev deps_in : Option (ComputeNode S F) → List ℕ
    deps_in o = elim o [ none ↦ [] | some node ↦ node.deps ]

    cases :
        (u : ℕ) (o : Option (ComputeNode S F))
        → Distinct ℕ_discrete
            (deps_in (if u == a then none else Option.map (replace_dependency a b) o))
    cases u none = elim (Bool-cases (u == a)) [ inl e ↦ rw e tt | inr e ↦ rw e tt ]
    cases u (some node) = elim (Bool-cases (u == a)) [
      | inl e ↦ rw e tt
      | inr e ↦ rw e (replace_dependency-Distinct a b node)
    ]

    replace_single : (u : ℕ) → Distinct ℕ_discrete (deps_of after_replace.nodes u)
    replace_single u =
        subst (λ o. Distinct ℕ_discrete (deps_in o)) (sym (at_address u))
          (cases u (node_at g.nodes u))

    after_replace-IsReplaced : IsReplaced g p a b after_replace
    unfolding find
    after_replace-IsReplaced = record {
      order =
          addresses-remove_node a (map (replace_dependency a b) g.nodes)
          ∙ ap (remove ℕ_discrete a) (addresses-map (replace_dependency a b) g.nodes keeps);
      ids = λ q. lookup-erase text_dec p q g.by_id;
      kept = λ u node ne there.
          (replace_dependency a b node, ground (arith, at_address u, there), same node);
      edges = replace_edges;
      single = replace_single;
      stale = refl;
    }

  -- ReplacePlaceholder throws on an id that no node has, and does nothing if both ids name one
  -- node; otherwise the node of the placeholder goes, the others stay in order, and who depended
  -- on it depends on the other node, on nothing twice.
  pub replace_placeholder-Replacement :
      (g : ComputeGraph S F) (p r : Text) → Replacement g p r (replace_placeholder p r g)
  unfolding replace_placeholder
  replace_placeholder-Replacement g p r = elim (Option-cases (find g p)) [
    | inl lost ↦ rw (lost, replace_placeholder) (unknown_placeholder lost)
    | inr (a, h) ↦ elim (Option-cases (find g r)) [
      | inl lost ↦
          rw (h, replace_placeholder) (rw (lost, replace_placeholder) (unknown_node a h lost))
      | inr (b, k) ↦ elim (Bool-cases (a == b)) [
        | inl e ↦
            let one : find g r ≡ some a = ground (arith, k) in
            rw (h, replace_placeholder)
              (rw (k, replace_placeholder) (rw (e, replace_placeholder) (same_node a h one)))
        | inr e ↦
            rw (h, replace_placeholder)
              (rw (k, replace_placeholder)
                (rw (e, replace_placeholder)
                  (replaced a b h k (λ eq. ground (arith, eq, e))
                    (after_replace-IsReplaced g p a b))))
      ]
    ]
  ]

  module _ (g : ComputeGraph S F) (w : IsWired g) (p r : Text) where
    IsReplaced-IsWired :
        (a b : ℕ) (h : ComputeGraph S F)
        → find g p ≡ some a
        → find g r ≡ some b
        → a ≢ b
        → IsReplaced g p a b h
        → IsWired h
    IsReplaced-IsWired a b h from to ne s =
        let (node, at, called) = w.named p a from in
        let (real, at_real, called_real) = w.named r b to in
        record {
          distinct = rw s.order (remove-Distinct ℕ_discrete a (addresses g.nodes) w.distinct);
          named = λ q c e. elim (text_dec q p) [
            | yes same_id ↦ absurd (ground (arith, s.ids q, e))
            | no other ↦
                let old : find g q ≡ some c = ground (arith, s.ids q, e) in
                let (before, at_c, called_c) = w.named q c old in
                let elsewhere : c ≢ a = λ (eq : c ≡ a).
                  let one : some before ≡ some node = sym at_c ∙ ap (node_at g.nodes) eq ∙ at in
                  other (cc) in
                let (after, there, alike) = s.kept c before elsewhere at_c in
                (after, there, alike.id ∙ called_c)
          ];
          inside = λ u v e. ground (
            arith,
            s.edges u v,
            s.order,
            contains-remove ℕ_discrete a v (addresses g.nodes),
            w.inside u v,
            Has-addresses g.nodes b,
            at_real,
          );
          single = s.single;
        }

    Replacement-IsWired :
        {o : ComputeGraph S F × Option Exception} → Replacement g p r o → IsWired o.0
    Replacement-IsWired (unknown_placeholder lost) = w
    Replacement-IsWired (unknown_node a h lost) = w
    Replacement-IsWired (same_node a h k) = w
    Replacement-IsWired (replaced a b {h} from to ne s) = IsReplaced-IsWired a b h from to ne s

    pub replace_placeholder-IsWired : IsWired (replace_placeholder p r g).0
    replace_placeholder-IsWired = Replacement-IsWired (replace_placeholder-Replacement g p r)
