-- ===== src/Dag/Graph/Wiring.antt =====
-- The passes of GraphBuilder::Build: what creating and wiring leave in the graph.
use mathlib.Core.List.{lookup, append_assoc, append-nil, map-append}
use mathlib.Core.Path.{subst, ap₂}
use native.Mathlib.Nat.{zero-add}
use lark.Base.{
  is_empty, ℕ, suc, ◌+◌, ◌-◌, ◌≤◌, ◌<◌, ◌≡◌, ◌∙◌, refl, sym, ap, if◌then◌else◌, none, some,
  Option-cases, Bool-cases, inl, inr, List, [], ◌∷◌, ◌++◌, map, Text, text_dec, length, get_elem?,
  arith,
}
use lark.Base.Dict.{emplace, keys, contains, Distinct, is_some}
use lark.Base.Dict.Laws.{lookup-keys, Distinct-concat}
use lark.Base.Result.{done, >>=-eq-done}
use lark.Dag.Graph.{NodeDef, Node, Graph, NodeRegistry, id_of, create, add_node, create_and_index}

id_of_lem :
    (def : NodeDef) → (if is_empty (id_of def) then def.type_name else id_of def) ≡ id_of def
id_of_lem def = ground arith

module _ {N : Type 0} where
  -- `by_id_` as it has to be: every node's id with its index.
  abbrev pub index_from : ℕ → List (Node N) → List (Text × ℕ)
  index_from k [] = []
  index_from k (node ∷ nodes) = (node.id, k) ∷ index_from (suc k) nodes

  abbrev pub ids_of : List (Node N) → List Text
  ids_of = map (λ (node : Node N). node.id)

  pub keys-index_from : (k : ℕ) (nodes : List (Node N)) → keys (index_from k nodes) ≡ ids_of nodes
  keys-index_from k [] = refl
  keys-index_from k (node ∷ nodes) = ap (◌∷◌ node.id) (keys-index_from (suc k) nodes)

  index_from-append :
      (k : ℕ) (nodes : List (Node N)) (node : Node N)
      → index_from k (nodes ++ node ∷ []) ≡ index_from k nodes ++ (node.id, k + length nodes) ∷ []
  index_from-append k [] node = ap (λ (j : ℕ). (node.id, j) ∷ []) (omega arith)
  index_from-append k (x ∷ nodes) node = ap (◌∷◌ (x.id, k)) (
      index_from-append (suc k) nodes node
      ∙ ap (λ (j : ℕ). index_from (suc k) nodes ++ (node.id, j) ∷ []) (omega arith))

  -- An index that is found is a node's, and the node has the id.
  pub lookup-index_from :
      (k : ℕ) (nodes : List (Node N)) (id : Text) (v : ℕ)
      → lookup text_dec id (index_from k nodes) ≡ some v
      → (k ≤ v)
        × (v < k + length nodes)
        × ((node : Node N) × (get_elem? nodes (v - k) ≡ some node) × (node.id ≡ id))
  unfolding lookup
  lookup-index_from k [] id v h = cc
  lookup-index_from k (x ∷ nodes) id v h = elim (text_dec id x.id) [
    | yes e ↦
        let here : v ≡ k = ground arith in
        (omega arith, omega arith, (x, rw here (ground arith), sym e))
    | no ne ↦
        let (low, high, at) = lookup-index_from (suc k) nodes id v (ground arith) in
        let shift : v - k ≡ suc (v - suc k) = omega arith in
        (omega arith, omega arith, (at.0, rw shift at.1, at.2))
  ]

  -- What one created node adds.
  record Added (def : NodeDef) (g g' : Graph N) : Type 0 where
    node : Node N
    nodes : g'.nodes ≡ g.nodes ++ node ∷ []
    by_id : g'.by_id ≡ g.by_id ++ (id_of def, length g.nodes) ∷ []
    id : node.id ≡ id_of def
    type_name : node.type_name ≡ def.type_name
    dependencies : node.dependencies ≡ []
    new : lookup text_dec (id_of def) g.by_id ≡ none

  create_lem :
      (r : NodeRegistry N) (type_name id : Text) (node : Node N)
      → create r type_name id ≡ done node
      → (node.id ≡ (if is_empty id then type_name else id))
        × (node.type_name ≡ type_name)
        × (node.dependencies ≡ [])
  unfolding create
  create_lem r type_name id node h = ground arith

  add_node_lem :
      (r : NodeRegistry N) (def : NodeDef) (g g' : Graph N)
      → add_node r def g ≡ done g'
      → Added def g g'
  unfolding add_node emplace
  add_node_lem r def g g' h = elim (Bool-cases (is_empty def.type_name)) [
    | inl e ↦ absurd (ground arith)
    | inr e ↦
        let (node, made, rest) =
          >>=-eq-done (create r def.type_name (id_of def)) _ (rw (e, add_node) at h) in
        let (id, type_name, dependencies) = create_lem r def.type_name (id_of def) node made in
        elim (Option-cases (lookup text_dec (id_of def) g.by_id)) [
          | inl free ↦ record {
            node = node;
            nodes = ground arith;
            by_id = ground arith;
            id = id ∙ id_of_lem def;
            type_name = type_name;
            dependencies = dependencies;
            new = free;
          }
          | inr (v, taken) ↦ absurd (ground arith)
        ]
  ]

  -- What the first pass leaves for the definitions that it went through.
  pub record Created (defs : List NodeDef) (g : Graph N) : Type 0 where
    pub ids : ids_of g.nodes ≡ map (λ (def : NodeDef). id_of def) defs
    pub types :
        map (λ (node : Node N). node.type_name) g.nodes
        ≡ map (λ (def : NodeDef). def.type_name) defs
    pub bare : map (λ (node : Node N). node.dependencies) g.nodes ≡ map (λ (def : NodeDef). []) defs
    pub index : g.by_id ≡ index_from 0 g.nodes
    pub distinct : Distinct text_dec (ids_of g.nodes)

  add-Created :
      (pre : List NodeDef) (def : NodeDef) (g g' : Graph N)
      → Created pre g
      → Added def g g'
      → Created (pre ++ def ∷ []) g'
  add-Created pre def g g' c a = record {
    ids = rw (a.nodes, map-append, map-append) (ap₂ (λ x y. x ++ y) c.ids (ap (λ i. i ∷ []) a.id));
    types =
        rw (a.nodes, map-append, map-append)
          (ap₂ (λ x y. x ++ y) c.types (ap (λ i. i ∷ []) a.type_name));
    bare =
        rw (a.nodes, map-append, map-append)
          (ap₂ (λ x y. x ++ y) c.bare (ap (λ i. i ∷ []) a.dependencies));
    index = rw (a.nodes, index_from-append) (rw (a.by_id, c.index, a.id, zero-add) refl);
    distinct =
        rw (a.nodes, map-append)
          (Distinct-concat text_dec (ids_of g.nodes) a.node.id c.distinct (
            rw a.id (
              sym (ap (contains text_dec (id_of def)) (keys-index_from 0 g.nodes))
              ∙ lookup-keys text_dec (id_of def) (index_from 0 g.nodes)
              ∙ ap is_some (rw c.index at a.new))));
  }

  pub create_and_index-Created :
      (r : NodeRegistry N) (pre defs : List NodeDef) (g g' : Graph N)
      → Created pre g
      → create_and_index r defs g ≡ done g'
      → Created (pre ++ defs) g'
  unfolding create_and_index
  create_and_index-Created r pre [] g g' c h = rw append-nil (subst (Created pre) (ground arith) c)
  create_and_index-Created r pre (def ∷ defs) g g' c h =
      let (middle, added, rest) = >>=-eq-done (add_node r def g) _ h in
      rw (← append_assoc pre (def ∷ []) defs) (
        create_and_index-Created r (pre ++ def ∷ []) defs middle g'
          (add-Created pre def g middle c (add_node_lem r def g middle added)) rest)
