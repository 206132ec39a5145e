-- ===== src/Column/Graph/Wired.antt =====
-- What holds of a ComputeGraph after any calls that build it.
use mathlib.Core.List.{lookup, map-append}
use mathlib.Core.Option
use lark.Base.{
  ℕ, ◌≡◌, ◌==◌, refl, ap, sym, ◌∙◌, false, ◌||◌, if◌then◌else◌, none, some, List, [], ◌∷◌, ◌++◌,
  Text, text_dec, arith, ℕ_discrete, Option-cases, Bool-cases, ◌⊎◌, inl, inr,
}
use lark.Base.Dict.{contains, Distinct, emplace}
use lark.Base.Dict.Laws.{lookup-append, contains-append, Distinct-concat}
use lark.Dag.Digraph.{Has}
use lark.Column.Graph.{
  NodeOp, ComputeNode, ComputeGraph, empty_graph, add_node, find, node_at, change_node, depend_on,
  add_dependency, fresh_run,
}
use lark.Column.Graph.Nodes.{
  addresses, deps_of, node_at-append, node_at-change_node, Has-addresses, addresses-change_node,
}

module _ {S F : Type 0} where
  -- `by_id_` finds a node by its id.
  abbrev pub Named : ComputeGraph S F → Text → ℕ → Type 0
  Named g id a = (node : ComputeNode S F) × (node_at g.nodes a ≡ some node) × (node.id ≡ id)

  pub record IsWired (g : ComputeGraph S F) : Type 0 where
    pub distinct : Distinct ℕ_discrete (addresses g.nodes)
    pub named : (id : Text) (a : ℕ) → find g id ≡ some a → Named g id a
    pub inside : (u d : ℕ) → Has d (deps_of g.nodes u) → Has d (addresses g.nodes)
    pub single : (u : ℕ) → Distinct ℕ_discrete (deps_of g.nodes u)

  pub empty-IsWired : IsWired (empty_graph {S = S} {F = F})
  unfolding find node_at contains lookup
  empty-IsWired = record {
    distinct = tt;
    named = λ id a h. cc;
    inside = λ u d h. cc;
    single = λ u. tt;
  }

  new_node : ℕ → Text → Text → NodeOp S F → ComputeNode S F
  new_node a id module_name op = record {
    address = a;
    id = id;
    module_name = module_name;
    op = op;
    deps = [];
    run = fresh_run;
  }

  module _ (g : ComputeGraph S F) (w : IsWired g) (a : ℕ) (id module_name : Text) (op : NodeOp S F)
      (fresh : contains ℕ_discrete a (addresses g.nodes) ≡ false) where
    abbrev more : List (ComputeNode S F)
    more = (add_node a id module_name op g).nodes

    abbrev new : ComputeNode S F
    new = new_node a id module_name op

    absent : node_at g.nodes a ≡ none
    absent = ground (arith, Has-addresses g.nodes a)

    kept :
        (b : ℕ) (node : ComputeNode S F)
        → node_at g.nodes b ≡ some node
        → node_at more b ≡ some node
    unfolding add_node new_node
    kept b node h = ground (arith, node_at-append g.nodes (new ∷ []) b)

    deps-more : (u : ℕ) → deps_of more u ≡ deps_of g.nodes u
    unfolding add_node node_at new_node
    deps-more u = ground (arith, node_at-append g.nodes (new ∷ []) u)

    there : node_at more a ≡ some new
    unfolding add_node node_at new_node
    there = ground (arith, node_at-append g.nodes (new ∷ []) a, absent)

    listed :
        (d : ℕ)
        → contains ℕ_discrete d (addresses more)
          ≡ contains ℕ_discrete d (addresses g.nodes) || (d == a)
    unfolding add_node node_at new_node
    listed d =
        ground (
          arith,
          Has-addresses more d,
          Has-addresses g.nodes d,
          node_at-append g.nodes (new ∷ []) d,
        )

    find-more :
        (q : Text)
        → (find (add_node a id module_name op g) q ≡ find g q)
          ⊎ ((q ≡ id) × (find (add_node a id module_name op g) q ≡ some a))
    unfolding find add_node emplace lookup
    find-more q = elim (Option-cases (lookup text_dec id g.by_id)) [
      | inr (c, old) ↦ inl (ground (arith, old))
      | inl none_old ↦ elim (text_dec q id) [
        | no other ↦ inl (ground (arith, none_old, lookup-append text_dec q g.by_id ((id, a) ∷ [])))
        | yes same ↦
            inr (same, ground (arith, none_old, lookup-append text_dec q g.by_id ((id, a) ∷ [])))
      ]
    ]

    Named-more :
        (q : Text) (b : ℕ)
        → find (add_node a id module_name op g) q ≡ some b
        → Named (add_node a id module_name op g) q b
    unfolding new_node
    Named-more q b h = elim (find-more q) [
      | inl old ↦
          let (node, at, called) = w.named q b (sym old ∙ h) in (node, kept b node at, called)
      | inr (same, put) ↦
          let same_address : a ≡ b = cc in
          (new, ap (node_at more) (sym same_address) ∙ there, sym same)
    ]

    addresses-more : addresses more ≡ addresses g.nodes ++ a ∷ []
    unfolding add_node new_node
    addresses-more = map-append (λ (node : ComputeNode S F). node.address) g.nodes (new ∷ [])

    pub add_node-IsWired : IsWired (add_node a id module_name op g)
    add_node-IsWired = record {
      distinct =
          rw addresses-more (Distinct-concat ℕ_discrete (addresses g.nodes) a w.distinct fresh);
      named = Named-more;
      inside = λ u d h.
          ground
            (arith, listed d, w.inside u d (ap (contains ℕ_discrete d) (sym (deps-more u)) ∙ h));
      single = λ u. rw (deps-more u) (w.single u);
    }

  -- A change of the nodes that keeps what `by_id_` reads.
  module _ (g : ComputeGraph S F) (w : IsWired g) (id dep_id : Text) where
    depend_on-keeps :
        (d : ℕ) (node : ComputeNode S F)
        → ((depend_on d node).address ≡ node.address) × ((depend_on d node).id ≡ node.id)
    depend_on-keeps d node = elim (Bool-cases (contains ℕ_discrete d node.deps)) [
      | inl old ↦ rw old (refl, refl)
      | inr new ↦ rw new (refl, refl)
    ]

    module _ (a d : ℕ) (from : find g id ≡ some a) (to : find g dep_id ≡ some d) where
      abbrev depending : ComputeGraph S F
      depending = record g { nodes = change_node a (depend_on d) g.nodes; finalized = false }

      at_address :
          (b : ℕ)
          → node_at depending.nodes b
            ≡ (if b == a then Option.map (depend_on d) (node_at g.nodes b) else node_at g.nodes b)
      at_address b =
          node_at-change_node a (depend_on d) g.nodes b (λ node. (depend_on-keeps d node).0)

      abbrev grown : List ℕ → List ℕ
      grown ds = if contains ℕ_discrete d ds then ds else ds ++ d ∷ []

      deps-depending :
          (u : ℕ)
          → deps_of depending.nodes u
            ≡ (if u == a then grown (deps_of g.nodes u) else deps_of g.nodes u)
      deps-depending u =
          let (node, at, called) = w.named id a from in ground (arith, at_address u, at)

      contains-grown :
          (v : ℕ) (ds : List ℕ)
          → contains ℕ_discrete v (grown ds) ≡ contains ℕ_discrete v ds || (v == d)
      unfolding contains
      contains-grown v ds = ground (arith, contains-append ℕ_discrete v ds (d ∷ []))

      grown-Distinct : (ds : List ℕ) → Distinct ℕ_discrete ds → Distinct ℕ_discrete (grown ds)
      grown-Distinct ds h = elim (Bool-cases (contains ℕ_discrete d ds)) [
        | inl old ↦ rw old h
        | inr new ↦ rw new (Distinct-concat ℕ_discrete ds d h new)
      ]

      there_is : (q : Text) (b : ℕ) → find depending q ≡ some b → Named depending q b
      unfolding find
      there_is q b h =
          let (node, at, called) = w.named q b h in
          elim (Bool-cases (b == a)) [
            | inl same ↦ (
              depend_on d node,
              ground (arith, at_address b, at),
              (depend_on-keeps d node).1 ∙ called,
            )
            | inr other ↦ (node, ground (arith, at_address b, at), called)
          ]

      same_addresses : addresses depending.nodes ≡ addresses g.nodes
      same_addresses =
          addresses-change_node a (depend_on d) g.nodes (λ node. (depend_on-keeps d node).0)

      depending-inside : (u v : ℕ) → Has v (deps_of depending.nodes u) → Has v (addresses g.nodes)
      depending-inside u v h =
          let (node, at, called) = w.named dep_id d to in
          ground (
            arith,
            deps-depending u,
            contains-grown v (deps_of g.nodes u),
            w.inside u v,
            Has-addresses g.nodes d,
            at,
          )

      depending-IsWired : IsWired depending
      depending-IsWired = record {
        distinct = rw same_addresses w.distinct;
        named = there_is;
        inside = λ u v h. ap (contains ℕ_discrete v) same_addresses ∙ depending-inside u v h;
        single = λ u. elim (Bool-cases (u == a)) [
          | inl same ↦
              rw (deps-depending u) (rw same (grown-Distinct (deps_of g.nodes u) (w.single u)))
          | inr other ↦ rw (deps-depending u) (rw other (w.single u))
        ];
      }

    pub add_dependency-IsWired : IsWired (add_dependency id dep_id g).0
    unfolding add_dependency
    add_dependency-IsWired = elim (Option-cases (find g id)) [
      | inl unknown_id ↦ rw (unknown_id, add_dependency) w
      | inr (a, h) ↦ elim (Option-cases (find g dep_id)) [
        | inl unknown_dep ↦ rw (h, add_dependency) (rw (unknown_dep, add_dependency) w)
        | inr (d, k) ↦ rw (h, add_dependency) (rw (k, add_dependency) (depending-IsWired a d h k))
      ]
    ]
