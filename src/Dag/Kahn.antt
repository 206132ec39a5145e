-- ===== src/Dag/Kahn.antt =====
-- Kahn's algorithm as OpGraph::Compile (dag/src/op_executor.cpp) and ComputeGraph::Finalize
-- (column/src/column/exec/compute_graph.cpp) run it. A node is its index in the list of nodes;
-- `deps v` are the dependencies of node `v`, in the order in which they were declared.
pub mod Counting
pub mod Release
pub mod Correct
pub mod Order
pub mod Sorted
use lark.Base.{
  ℕ, zero, suc, ◌-◌, ◌==◌, Bool, Option, none, some, List, [], ◌∷◌, ◌++◌, range, if◌then◌else◌,
}
use lark.Base.Sums.{update}

-- `in_degree` and `outs`; a missing key reads as 0 and as the empty list.
pub record Counts : Type 0 where
  pub in_degree : ℕ → ℕ
  pub outs : ℕ → List ℕ

abbrev pub no_counts : Counts
no_counts = record { in_degree = λ v. 0; outs = λ v. [] }

-- The inner loop over the dependencies of `node`.
unfoldable pub count_deps : ℕ → List ℕ → Counts → Counts
count_deps node [] c = c
count_deps node (dep ∷ ds) c = count_deps node ds (record {
  in_degree = update c.in_degree node (suc (c.in_degree node));
  outs = update c.outs dep (c.outs dep ++ node ∷ []);
})

unfoldable pub count_all : (ℕ → List ℕ) → List ℕ → Counts → Counts
unfolding count_deps
count_all deps [] c = c
count_all deps (node ∷ nodes) c = count_all deps nodes (count_deps node (deps node) c)

-- The nodes that are ready at the start.
unfoldable pub start_nodes : (ℕ → ℕ) → List ℕ → List ℕ
start_nodes in_degree [] = []
start_nodes in_degree (node ∷ nodes) =
    let rest = start_nodes in_degree nodes in if in_degree node == 0 then node ∷ rest else rest

-- `--d` on a size_t.
unfoldable pub decrement : ℕ → ℕ
decrement zero = 18_446_744_073_709_551_615
decrement (suc d) = d

-- The inner loop over the dependents of a node: what is ready now, and the counts.
unfoldable pub release : List ℕ → List ℕ → (ℕ → ℕ) → List ℕ × (ℕ → ℕ)
unfolding decrement
release [] ready in_degree = (ready, in_degree)
release (next ∷ nexts) ready in_degree =
    let d = decrement (in_degree next) in
    release nexts (if d == 0 then ready ++ next ∷ [] else ready) (update in_degree next d)

-- The `while` loop; `none` when the fuel is out.
unfoldable pub drain : ℕ → (ℕ → List ℕ) → List ℕ → (ℕ → ℕ) → List ℕ → Option (List ℕ)
unfolding release
drain fuel outs [] in_degree order = some order
drain zero outs (_ ∷ _) in_degree order = none
drain (suc fuel) outs (node ∷ ready) in_degree order =
    let (ready', in_degree') = release (outs node) ready in_degree in
    drain fuel outs ready' in_degree' (order ++ node ∷ [])

-- The order that the algorithm makes of the nodes below `n`; each is taken off the queue once.
unfoldable pub kahn : (ℕ → List ℕ) → ℕ → Option (List ℕ)
unfolding count_all start_nodes drain
kahn deps n =
    let c = count_all deps (range n) no_counts in
    drain n c.outs (start_nodes c.in_degree (range n)) c.in_degree []
