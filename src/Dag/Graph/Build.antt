-- ===== src/Dag/Graph/Build.antt =====
-- GraphBuilder::Build as a whole: what a graph that it returns is like.
use mathlib.Core.List.{lookup}
use mathlib.Core.Path.{subst}
use native.Mathlib.Nat.{zero-add}
use lark.Base.{
  ℕ, zero, suc, ◌-◌, ◌<◌, ◌≡◌, length-map, ◌∙◌, refl, sym, ap, Option, some, inl, inr, List, [],
  ◌∷◌, map, Text, text_dec, length, get_elem?, get_or, get_elem?_of_lt, lt-length_of_get_elem?,
  arith, ℕ_discrete, Option-cases,
}
use lark.Base.Dict.{Distinct, contains}
use lark.Base.Result.{Result, done, >>=-eq-done}
use lark.Dag.Digraph.{Has, Walk}
use lark.Dag.Graph.{
  NodeDef, Node, Graph, NodeRegistry, id_of, empty_graph, find, name_of, deps_of, create_and_index,
  wire_from, reject_cycles, build,
}
use lark.Dag.Graph.Wiring.{ids_of, index_from, lookup-index_from, Created, create_and_index-Created}
use lark.Dag.Graph.Edges.{find_same, AllWired, wire_from-AllWired}
use lark.Dag.Graph.Cycles.{Decision, accepted, rejected, reject_cycles-Decision}

-- A node whose index a list of resolved ids has comes from one of the ids.
resolved_from :
    (f : Text → Option ℕ) (ids : List Text) (vs : List ℕ) (v : ℕ)
    → map f ids ≡ map some vs
    → Has v vs
    → (id : Text) × (f id ≡ some v)
unfolding contains
resolved_from f ids [] v e h = cc
resolved_from f [] (w ∷ vs) v e h = cc
resolved_from f (id ∷ ids) (w ∷ vs) v e h = elim (ℕ_discrete v w) [
  | yes same ↦ (id, ground (arith, e))
  | no other ↦ resolved_from f ids vs v (ground (arith, e)) (ground (arith, h))
]

module _ {N : Type 0} where
  -- What the caller is promised of the graph.
  pub record IsBuilt (defs : List NodeDef) (g : Graph N) : Type 0 where
    pub ids : ids_of g.nodes ≡ map (λ (def : NodeDef). id_of def) defs
    pub types :
        map (λ (node : Node N). node.type_name) g.nodes
        ≡ map (λ (def : NodeDef). def.type_name) defs
    pub distinct : Distinct text_dec (ids_of g.nodes)
    pub found : (id : Text) (v : ℕ) → find g id ≡ some v → (v < length g.nodes) × (name_of g v ≡ id)
    pub resolved :
        (i : ℕ) (def : NodeDef)
        → get_elem? defs i ≡ some def
        → map (find g) def.deps ≡ map some (deps_of g i)
    pub in_range : (u v : ℕ) → Has v (deps_of g u) → v < length g.nodes
    pub acyclic : (v : ℕ) → ¬ Walk (deps_of g) v v

  nothing-Created : Created [] (empty_graph {N = N})
  nothing-Created = record { ids = refl; types = refl; bare = refl; index = refl; distinct = tt }

  -- A definition stands at the place of each node.
  def_at :
      (defs : List NodeDef) (g : Graph N) (u v : ℕ)
      → length g.nodes ≡ length defs
      → Has v (deps_of g u)
      → (def : NodeDef) × (get_elem? defs u ≡ some def)
  unfolding contains
  def_at defs g u v same h = elim (Option-cases (get_elem? g.nodes u)) [
    | inl e ↦ absurd (ground (arith, h))
    | inr (node, e) ↦
        get_elem?_of_lt defs u (omega (arith, lt-length_of_get_elem? g.nodes u node e))
  ]

  bare_deps :
      (nodes : List (Node N)) (by_id : List (Text × ℕ)) (defs : List NodeDef) (i : ℕ)
      → map (λ (node : Node N). node.dependencies) nodes ≡ map (λ (def : NodeDef). []) defs
      → deps_of (record { nodes = nodes; by_id = by_id }) i ≡ []
  bare_deps [] by_id defs i e = refl
  bare_deps (node ∷ nodes) by_id [] i e = cc
  bare_deps (node ∷ nodes) by_id (def ∷ defs) zero e = cc
  bare_deps (node ∷ nodes) by_id (def ∷ defs) (suc i) e = bare_deps nodes by_id defs i cc

  name_of_lem :
      (nodes : List (Node N)) (by_id : List (Text × ℕ)) (v : ℕ)
      → name_of (record { nodes = nodes; by_id = by_id }) v ≡ get_or (ids_of nodes) v []
  name_of_lem [] by_id v = refl
  name_of_lem (node ∷ nodes) by_id zero = refl
  name_of_lem (node ∷ nodes) by_id (suc v) = name_of_lem nodes by_id v

  name_of_ids :
      (g h : Graph N) (v : ℕ) → ids_of g.nodes ≡ ids_of h.nodes → name_of g v ≡ name_of h v
  name_of_ids g h v e =
      name_of_lem g.nodes g.by_id v
      ∙ ap (λ ids. get_or ids v []) e
      ∙ sym (name_of_lem h.nodes h.by_id v)

  Created-size : (defs : List NodeDef) (g : Graph N) → Created defs g → length g.nodes ≡ length defs
  Created-size defs g c =
      sym (length-map g.nodes (λ (node : Node N). node.id))
      ∙ ap length c.ids
      ∙ length-map defs (λ (def : NodeDef). id_of def)

  module _ (defs : List NodeDef) (g g' : Graph N) (c : Created defs g)
      (w : AllWired 0 defs g g') where
    resolved_lem :
        (i : ℕ) (def : NodeDef)
        → get_elem? defs i ≡ some def
        → map (find g') def.deps ≡ map some (deps_of g' i)
    resolved_lem i def e =
        let (added, own, resolved) = w.own i def e in
        let start : deps_of g i ≡ [] = bare_deps g.nodes g.by_id defs i c.bare in
        let all : deps_of g' i ≡ added = rw start at (rw (zero-add i) at own) in
        sym (find_same g g' def.deps w.same) ∙ resolved ∙ ap (map some) (sym all)

    found_lem :
        (id : Text) (v : ℕ) → find g' id ≡ some v → (v < length g'.nodes) × (name_of g' v ≡ id)
    found_lem id v h =
        let before : lookup text_dec id (index_from 0 g.nodes) ≡ some v =
          rw (← c.index, ← w.same.by_id) h in
        let (low, high, at) = lookup-index_from 0 g.nodes id v before in
        let zero_off : v - 0 ≡ v = omega arith in
        let here : get_elem? g.nodes v ≡ some at.0 = rw zero_off at at.1 in
        (omega (arith, w.same.size), name_of_ids g' g v w.same.ids ∙ rw (here, name_of) at.2)

    in_range_lem : (u v : ℕ) → Has v (deps_of g' u) → v < length g'.nodes
    in_range_lem u v h =
        let (def, here) = def_at defs g' u v (w.same.size ∙ Created-size defs g c) h in
        let (id, from) =
          resolved_from (find g') def.deps (deps_of g' u) v (resolved_lem u def here) h in
        (found_lem id v from).0

  accepted_acyclic :
      (g : Graph N) {o : Result (Unit {0})}
      → Decision g o
      → o ≡ done tt
      → (v : ℕ) → ¬ Walk (deps_of g) v v
  accepted_acyclic g (accepted acyclic) h = acyclic
  accepted_acyclic g (rejected v walk) h = cc

  wired-IsBuilt :
      (defs : List NodeDef) (g g' : Graph N)
      → Created defs g
      → AllWired 0 defs g g'
      → reject_cycles g' ≡ done tt
      → IsBuilt defs g'
  wired-IsBuilt defs g g' c w h = record {
    ids = w.same.ids ∙ c.ids;
    types = w.same.types ∙ c.types;
    distinct = rw w.same.ids c.distinct;
    found = found_lem defs g g' c w;
    resolved = resolved_lem defs g g' c w;
    in_range = in_range_lem defs g g' c w;
    acyclic = accepted_acyclic g' (reject_cycles-Decision g' (in_range_lem defs g g' c w)) h;
  }

  -- A graph that Build returns has a node for each definition, in order, with its id and type;
  -- the ids differ and Find answers by them; the dependencies of a node are those that its
  -- definition names; and no node depends on itself through others.
  pub build-IsBuilt :
      (r : NodeRegistry N) (defs : List NodeDef) (g : Graph N)
      → build r defs ≡ done g
      → IsBuilt defs g
  unfolding build
  build-IsBuilt r defs g h =
      let (created, first, rest) = >>=-eq-done (create_and_index r defs empty_graph) _ h in
      let (wired, second, last) = >>=-eq-done (wire_from 0 defs created) _ rest in
      let (unit, third, same) = >>=-eq-done (reject_cycles wired) _ last in
      let c = create_and_index-Created r [] defs empty_graph created nothing-Created first in
      let w =
        wire_from-AllWired 0 defs created wired (omega (arith, Created-size defs created c))
          second in
      subst (IsBuilt defs) (ground arith) (wired-IsBuilt defs created wired c w third)
