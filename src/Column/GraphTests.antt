-- ===== src/Column/GraphTests.antt =====
-- A ComputeGraph that is built with a placeholder, and run.
use mathlib.Core.List.{lookup}
use lark.Base.{◌≡◌, refl, true, [], ◌∷◌, Text, text, text_dec, ℕ_discrete}
use lark.Base.Dict.{contains, emplace}
use lark.Base.Int.{ℤ}
use lark.Dag.Kahn.{kahn, count_all, count_deps, start_nodes, drain, release, decrement}
use lark.Column.Tensor.{float64s}
use lark.Column.Store
use lark.Column.Store.{TensorStore}
use lark.Column.Ops.{returns}
use lark.Column.Graph.{
  NodeOp, ComputeGraph, empty_graph, add_node, add_placeholder, placeholder_op, deps_at, place_of,
  add_dependency, find, replace_placeholder, replace_dependency, sort, unique, insert_sorted,
  finalize, change_node, remove_node, has_placeholders,
}
use lark.Column.Graph.Replace.{Replacement, replace_placeholder-Replacement}
use lark.Column.Graph.Reached.{
  Reached, start, next, adds, stands_in, replaces, depends, finalizes, IsSound, Reached-IsSound,
}

-- An op that makes an empty column.
abbrev writes : Text → NodeOp ℤ ℤ
writes name = record {
  op_type = text "const";
  inputs = [];
  outputs = name ∷ [];
  compute = λ store. returns (Store.set name (float64s []) store);
}

abbrev waiting : ComputeGraph ℤ ℤ
waiting =
    add_placeholder 4 (text "y") (text "later")
      (add_node 10 (text "a") (text "m") (writes (text "x")) empty_graph)

abbrev wired : ComputeGraph ℤ ℤ
wired =
    add_node 7 (text "b") (text "m") (writes (text "y"))
      (add_dependency (text "a") (text "later") waiting).0

abbrev resolved : ComputeGraph ℤ ℤ
resolved = (replace_placeholder (text "later") (text "b") wired).0

abbrev sorted : ComputeGraph ℤ ℤ
sorted = (finalize resolved).0

resolved-Reached : Reached resolved
unfolding add_placeholder add_node add_dependency find change_node contains lookup emplace
    ℕ_discrete text_dec
resolved-Reached =
    next
      (next
        (next
          (next (next start (adds 10 (text "a") (text "m") (writes (text "x")) refl))
            (stands_in 4 (text "y") (text "later") refl))
          (depends (text "a") (text "later")))
        (adds 7 (text "b") (text "m") (writes (text "y")) refl))
      (replaces (text "later") (text "b"))

Reached-IsSound_example : IsSound sorted
Reached-IsSound_example = Reached-IsSound (next resolved-Reached finalizes)

replace_placeholder-Replacement_example :
    Replacement wired
      (text "later")
      (text "b")
      (replace_placeholder (text "later") (text "b") wired)
replace_placeholder-Replacement_example =
    replace_placeholder-Replacement wired (text "later") (text "b")

-- The node that waited for the placeholder waits for the real node.
sorted_order : sorted.topo ≡ 7 ∷ 10 ∷ []
unfolding add_placeholder add_node add_dependency find change_node contains lookup emplace
    replace_placeholder remove_node replace_dependency text_dec ℕ_discrete finalize kahn deps_at
    place_of count_all count_deps start_nodes drain release decrement sort insert_sorted unique
sorted_order = refl

placeholder_waits : has_placeholders wired ≡ true
unfolding add_placeholder add_node add_dependency find change_node contains lookup emplace text_dec
    has_placeholders placeholder_op
placeholder_waits = refl
