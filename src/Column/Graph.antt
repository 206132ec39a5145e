-- ===== src/Column/Graph.antt =====
-- ComputeNode (column/include/column/exec/exec_node.h, column/src/column/exec/exec_node.cpp) and the
-- construction of a ComputeGraph (column/src/column/exec/compute_graph.cpp). A ComputeNode* is the
-- address of the node, a number that the allocator chooses.
mod Sorting
pub mod Rewire
pub mod Nodes
pub mod Wired
pub mod Replace
pub mod Places
pub mod Finalize
pub mod Reached
unfoldable pub use Sorting.*
use mathlib.Core.List.{lookup}
use lark.Base.{
  ℕ, suc, ◌==◌, leb, Bool, true, false, ◌||◌, if◌then◌else◌, Option, none, some, List, [], ◌∷◌,
  ◌++◌, map, length, get_elem?, Text, text, text_dec, ℕ_discrete,
}
use lark.Base.Dict.{contains, emplace, erase}
use lark.Base.Result.{Exception, out_of_range, runtime_error}
use lark.Dag.Kahn.{kahn}
use lark.Column.Tensor.{is_text}
use lark.Column.Ops.{raises}
use lark.Column.Ops.Binary.{TensorOp}

-- A TensorOp, by its virtual functions.
pub record NodeOp (S F : Type 0) : Type 0 where
  pub op_type : Text
  pub inputs : List Text
  pub outputs : List Text
  pub compute : TensorOp S F

pub data NodeStatus : Type 0 where
  pending success failed : NodeStatus

-- `status_`, `elapsed_`, `error_` and whether `done_` is set.
pub record NodeRun : Type 0 where
  pub status : NodeStatus
  pub elapsed : ℕ
  pub error : Option Exception
  pub is_done : Bool

abbrev pub fresh_run : NodeRun
fresh_run = record { status = pending; elapsed = 0; error = none; is_done = false }

pub record ComputeNode (S F : Type 0) : Type 0 where
  pub address : ℕ
  pub id : Text
  pub module_name : Text
  pub op : NodeOp S F
  pub deps : List ℕ
  pub run : NodeRun

pub record ComputeGraph (S F : Type 0) : Type 0 where
  pub nodes : List (ComputeNode S F)
  pub by_id : List (Text × ℕ)
  pub topo : List ℕ
  pub finalized : Bool

abbrev pub unknown : Text → Text → Option Exception
unknown what id = some (out_of_range (text "ComputeGraph::" ++ (what ++ (id ++ text "'"))))

module _ {S F : Type 0} where
  -- ComputeNode::ReplaceDependency.
  unfoldable pub replace_dependency : ℕ → ℕ → ComputeNode S F → ComputeNode S F
  unfolding sort unique
  replace_dependency from to node = record node {
    deps = unique (sort (map (redirect from to) node.deps));
  }

  abbrev pub empty_graph : ComputeGraph S F
  empty_graph = record { nodes = []; by_id = []; topo = []; finalized = false }

  unfoldable pub add_node : ℕ → Text → Text → NodeOp S F → ComputeGraph S F → ComputeGraph S F
  unfolding emplace
  add_node address id module_name op g = record g {
    nodes =
        g.nodes
        ++ record {
          address = address;
          id = id;
          module_name = module_name;
          op = op;
          deps = [];
          run = fresh_run;
        }
          ∷ [];
    by_id = (emplace text_dec id address g.by_id).0;
    finalized = false;
  }

  -- PlaceholderOp.
  unfoldable pub placeholder_op : Text → NodeOp S F
  placeholder_op output = record {
    op_type = text "placeholder";
    inputs = [];
    outputs = output ∷ [];
    compute =
        λ store. raises (runtime_error (text "placeholder executed: unresolved forward reference"));
  }

  unfoldable pub add_placeholder : ℕ → Text → Text → ComputeGraph S F → ComputeGraph S F
  unfolding add_node placeholder_op
  add_placeholder address output id g =
      add_node address id (text "@placeholder") (placeholder_op output) g

  unfoldable pub find : ComputeGraph S F → Text → Option ℕ
  find g id = lookup text_dec id g.by_id

  -- The node at an address.
  unfoldable pub node_at : List (ComputeNode S F) → ℕ → Option (ComputeNode S F)
  node_at [] a = none
  node_at (node ∷ nodes) a = if a == node.address then some node else node_at nodes a

  -- A change of the node at an address.
  unfoldable pub change_node :
      ℕ → (ComputeNode S F → ComputeNode S F) → List (ComputeNode S F) → List (ComputeNode S F)
  change_node a f [] = []
  change_node a f (node ∷ nodes) =
      let rest = change_node a f nodes in (if a == node.address then f node else node) ∷ rest

  -- `erase(remove_if(...))` of the node at an address.
  unfoldable pub remove_node : ℕ → List (ComputeNode S F) → List (ComputeNode S F)
  remove_node a [] = []
  remove_node a (node ∷ nodes) =
      let rest = remove_node a nodes in if a == node.address then rest else node ∷ rest

  -- The graph, and the exception where the call throws.
  unfoldable pub replace_placeholder :
      Text → Text → ComputeGraph S F → ComputeGraph S F × Option Exception
  unfolding find replace_dependency remove_node erase
  replace_placeholder placeholder_id real_id g = elim (find g placeholder_id) [
    | none ↦ (g, unknown (text "ReplacePlaceholder: unknown placeholder '") placeholder_id)
    | some placeholder ↦ elim (find g real_id) [
      | none ↦ (g, unknown (text "ReplacePlaceholder: unknown node '") real_id)
      | some real ↦ if placeholder == real then (g, none) else (
        record g {
          nodes = remove_node placeholder (map (replace_dependency placeholder real) g.nodes);
          by_id = erase text_dec placeholder_id g.by_id;
          finalized = false;
        },
        none,
      )
    ]
  ]

  unfoldable pub has_placeholder_in : List (ComputeNode S F) → Bool
  has_placeholder_in [] = false
  has_placeholder_in (node ∷ nodes) =
      is_text node.op.op_type (text "placeholder") || has_placeholder_in nodes

  unfoldable pub has_placeholders : ComputeGraph S F → Bool
  unfolding has_placeholder_in
  has_placeholders g = has_placeholder_in g.nodes

  abbrev pub depend_on : ℕ → ComputeNode S F → ComputeNode S F
  depend_on dep node =
      if contains ℕ_discrete dep node.deps
      then node
      else record node { deps = node.deps ++ dep ∷ [] }

  unfoldable pub add_dependency :
      Text → Text → ComputeGraph S F → ComputeGraph S F × Option Exception
  unfolding find change_node contains
  add_dependency id dep_id g = elim (find g id) [
    | none ↦ (g, unknown (text "AddDependency: unknown node '") id)
    | some a ↦ elim (find g dep_id) [
      | none ↦ (g, unknown (text "AddDependency: unknown dep '") dep_id)
      | some dep ↦
          (record g { nodes = change_node a (depend_on dep) g.nodes; finalized = false }, none)
    ]
  ]

  -- Where in `nodes_` an address is.
  unfoldable pub place_of : List (ComputeNode S F) → ℕ → ℕ
  place_of [] a = 0
  place_of (node ∷ nodes) a =
      let rest = place_of nodes a in if a == node.address then 0 else suc rest

  abbrev pub address_at : List (ComputeNode S F) → ℕ → ℕ
  address_at nodes i = elim (get_elem? nodes i) [ none ↦ 0 | some node ↦ node.address ]

  -- The dependencies of the node at a place, as places.
  unfoldable pub deps_at : List (ComputeNode S F) → ℕ → List ℕ
  unfolding place_of
  deps_at nodes i = elim (get_elem? nodes i) [
    | none ↦ []
    | some node ↦ map (place_of nodes) node.deps
  ]

  -- `in_degree` and `outs` are read by place. The fuel suffices: `Wired.finalize-Finalized`.
  unfoldable pub finalize : ComputeGraph S F → ComputeGraph S F × Option Exception
  unfolding deps_at kahn
  finalize g = elim (kahn (deps_at g.nodes) (length g.nodes)) [
    | none ↦ (g, some (runtime_error (text "out of fuel")))
    | some order ↦
        let sorted : ComputeGraph S F = record g { topo = map (address_at g.nodes) order } in
        if length order == length g.nodes
        then (record sorted { finalized = true }, none)
        else (sorted, some (runtime_error (text "ComputeGraph: dependency cycle detected")))
  ]
