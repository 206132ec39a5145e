-- ===== src/Dag/Graph.antt =====
-- Graph, Node's identity and dependencies, NodeRegistry and GraphBuilder (dag/src/graph.cpp,
-- node.cpp, node_registry.cpp, graph_builder.cpp). A Node* is the node's index in `nodes_`; what
-- the business code of a node does is a value `N`, which the factory of its type makes.
pub mod Wiring
pub mod Edges
pub mod Cycles
pub mod Build
use Prim.Native.String.{String}
use mathlib.Core.List.{lookup}
use lark.Base.{
  is_empty, ℕ, zero, suc, ◌+◌, ◌==◌, Bool, true, false, if◌then◌else◌, Option, none, some, List, [],
  ◌∷◌, ◌++◌, Text, text, text_dec, length, get_elem?, set, range,
}
use lark.Base.Dict.{emplace}
use lark.Base.Result.{
  Result, done, throw, Exception, invalid_argument, out_of_range, runtime_error, ◌>>=◌, ◌>>◌,
}
use lark.Dag.Search.{Mark, unvisited, Outcome, clear, cycle, out_of_fuel, visit_all, search_fuel}

pub record NodeDef : Type 0 where
  pub type_name : Text
  pub deps : List Text
  pub id : Text

-- The constructor: without a type the id is dropped.
unfoldable pub node_def : Text → List Text → Text → NodeDef
node_def type_name deps id = record {
  type_name = type_name;
  deps = deps;
  id = if is_empty type_name then [] else id;
}

pub record Node (N : Type 0) : Type 0 where
  pub id : Text
  pub type_name : Text
  pub dependencies : List ℕ
  pub behaviour : N

pub record Graph (N : Type 0) : Type 0 where
  pub nodes : List (Node N)
  pub by_id : List (Text × ℕ)

-- The factories by type; a factory is business code, which may throw.
abbrev pub NodeRegistry : Type 0 → Type 0
NodeRegistry N = List (Text × Result N)

abbrev pub quoted : String → Text → String → Text
quoted before name after = text before ++ (name ++ text after)

-- The id that a definition gives its node.
abbrev pub id_of : NodeDef → Text
id_of def = if is_empty def.id then def.type_name else def.id

module _ {N : Type 0} where
  abbrev pub empty_graph : Graph N
  empty_graph = record { nodes = []; by_id = [] }

  -- NodeRegistry::Register.
  unfoldable pub register_type : Text → Result N → NodeRegistry N → Result (NodeRegistry N)
  unfolding emplace
  register_type type_name factory r =
      let (r', inserted) = emplace text_dec type_name factory r in
      if inserted
      then done r'
      else throw (invalid_argument (quoted "NodeRegistry: duplicate node type '" type_name "'"))

  -- NodeRegistry::Create.
  unfoldable pub create : NodeRegistry N → Text → Text → Result (Node N)
  create r type_name id = elim (lookup text_dec type_name r) [
    | none ↦ throw (out_of_range (quoted "NodeRegistry: unknown node type '" type_name "'"))
    | some factory ↦ do
      behaviour ← factory
      done (record {
        id = if is_empty id then type_name else id;
        type_name = type_name;
        dependencies = [];
        behaviour = behaviour;
      })
  ]

  -- Graph::Find.
  abbrev pub find : Graph N → Text → Option ℕ
  find g id = lookup text_dec id g.by_id

  -- One round of CreateAndIndexNodes.
  unfoldable pub add_node : NodeRegistry N → NodeDef → Graph N → Result (Graph N)
  unfolding create emplace
  add_node r def g =
      if is_empty def.type_name
      then throw (invalid_argument (text "GraphBuilder: node def has empty type"))
      else do
        node ← create r def.type_name (id_of def)
        let (index, inserted) = emplace text_dec (id_of def) (length g.nodes) g.by_id
        if inserted
            then done (record { nodes = g.nodes ++ node ∷ []; by_id = index })
            else throw
                (invalid_argument (quoted "GraphBuilder: duplicate node id '" (id_of def) "'"))

  unfoldable pub create_and_index : NodeRegistry N → List NodeDef → Graph N → Result (Graph N)
  unfolding add_node
  create_and_index r [] g = done g
  create_and_index r (def ∷ defs) g = do g' ← add_node r def g; create_and_index r defs g'

  abbrev pub name_of : Graph N → ℕ → Text
  name_of g i = elim (get_elem? g.nodes i) [ none ↦ [] | some node ↦ node.id ]

  -- The dependencies of a node; none for an index that is no node.
  abbrev pub deps_of : Graph N → ℕ → List ℕ
  deps_of g i = elim (get_elem? g.nodes i) [ none ↦ [] | some node ↦ node.dependencies ]

  -- Node::AddDependency.
  unfoldable pub add_dependency : ℕ → ℕ → Graph N → Graph N
  add_dependency i dep g = elim (get_elem? g.nodes i) [
    | none ↦ g
    | some node ↦ record g {
      nodes = set g.nodes i (record node { dependencies = node.dependencies ++ dep ∷ [] });
    }
  ]

  -- The inner loop of WireDependencies, for node `i`.
  unfoldable pub wire_node : ℕ → List Text → Graph N → Result (Graph N)
  unfolding add_dependency
  wire_node i [] g = done g
  wire_node i (dep_id ∷ dep_ids) g = elim (find g dep_id) [
    | none ↦ throw (
        invalid_argument (
          text "GraphBuilder: node '"
          ++ (name_of g i ++ quoted "' depends on unknown id '" dep_id "'")))
    | some dep ↦
        let rest = wire_node i dep_ids (add_dependency i dep g) in
        if dep == i
        then throw
            (runtime_error (quoted "GraphBuilder: node '" (name_of g i) "' depends on itself"))
        else rest
  ]

  -- WireDependencies, from node `i` on.
  unfoldable pub wire_from : ℕ → List NodeDef → Graph N → Result (Graph N)
  unfolding wire_node
  wire_from i [] g = done g
  wire_from i (def ∷ defs) g = do g' ← wire_node i def.deps g; wire_from (suc i) defs g'

  -- RejectCycles. The search never runs out of fuel: `Cycles.reject_cycles-Decision`.
  unfoldable pub reject_cycles : Graph N → Result (Unit {0})
  unfolding visit_all search_fuel
  reject_cycles g =
      let n = length g.nodes in
      elim (visit_all (deps_of g) (search_fuel (deps_of g) n) (range n) (λ _. unvisited)) [
        | clear _ ↦ done tt
        | cycle v ↦ throw (
            runtime_error
              (quoted "GraphBuilder: dependency cycle detected involving node '" (name_of g v) "'"))
        | out_of_fuel ↦ throw (runtime_error (text "out of fuel"))
      ]

  -- GraphBuilder::Build.
  unfoldable pub build : NodeRegistry N → List NodeDef → Result (Graph N)
  unfolding create_and_index wire_from reject_cycles
  build r defs = do
    created ← create_and_index r defs empty_graph
    wired ← wire_from 0 defs created
    reject_cycles wired
    done wired
