-- ===== src/Column/Graph/Nodes.antt =====
-- The nodes of a ComputeGraph, read by address, after each change of the list.
use mathlib.Core.Option
use lark.Base.{
  ℕ, ◌≡◌, ◌==◌, refl, if◌then◌else◌, Option, none, some, List, [], ◌∷◌, ◌++◌, map, arith,
  ℕ_discrete,
}
use lark.Base.Dict.{contains, remove, is_some}
use lark.Column.Graph.{ComputeNode, node_at, change_node, remove_node}

module _ {S F : Type 0} where
  abbrev pub addresses : List (ComputeNode S F) → List ℕ
  addresses = map (λ node. node.address)

  -- The dependencies of the node at an address.
  abbrev pub deps_of : List (ComputeNode S F) → ℕ → List ℕ
  deps_of nodes a = elim (node_at nodes a) [ none ↦ [] | some node ↦ node.deps ]

  pub node_at-append :
      (xs ys : List (ComputeNode S F)) (a : ℕ)
      → node_at (xs ++ ys) a ≡ elim (node_at xs a) as (λ _. Option (ComputeNode S F)) [
        | none ↦ node_at ys a
        | some node ↦ some node
      ]
  unfolding node_at
  node_at-append [] ys a = refl
  node_at-append (x ∷ xs) ys a = ground (arith, node_at-append xs ys a)

  pub node_at-change_node :
      (b : ℕ) (f : ComputeNode S F → ComputeNode S F) (nodes : List (ComputeNode S F)) (a : ℕ)
      → ((node : ComputeNode S F) → (f node).address ≡ node.address)
      → node_at (change_node b f nodes) a
        ≡ (if a == b then Option.map f (node_at nodes a) else node_at nodes a)
  unfolding node_at change_node
  node_at-change_node b f [] a h = ground arith
  node_at-change_node b f (x ∷ xs) a h = ground (arith, h x, node_at-change_node b f xs a h)

  pub node_at-map :
      (f : ComputeNode S F → ComputeNode S F) (nodes : List (ComputeNode S F)) (a : ℕ)
      → ((node : ComputeNode S F) → (f node).address ≡ node.address)
      → node_at (map f nodes) a ≡ Option.map f (node_at nodes a)
  unfolding node_at
  node_at-map f [] a h = refl
  node_at-map f (x ∷ xs) a h = ground (arith, h x, node_at-map f xs a h)

  pub node_at-remove_node :
      (b : ℕ) (nodes : List (ComputeNode S F)) (a : ℕ)
      → node_at (remove_node b nodes) a ≡ (if a == b then none else node_at nodes a)
  unfolding node_at remove_node
  node_at-remove_node b [] a = ground arith
  node_at-remove_node b (x ∷ xs) a = ground (arith, node_at-remove_node b xs a)

  pub Has-addresses :
      (nodes : List (ComputeNode S F)) (a : ℕ)
      → contains ℕ_discrete a (addresses nodes) ≡ is_some (node_at nodes a)
  unfolding node_at contains
  Has-addresses [] a = refl
  Has-addresses (x ∷ xs) a = ground (arith, Has-addresses xs a)

  pub node_at-address :
      (nodes : List (ComputeNode S F)) (a : ℕ) (node : ComputeNode S F)
      → node_at nodes a ≡ some node
      → node.address ≡ a
  unfolding node_at
  node_at-address [] a node h = cc
  node_at-address (x ∷ xs) a node h = ground (arith, node_at-address xs a node)

  pub addresses-change_node :
      (b : ℕ) (f : ComputeNode S F → ComputeNode S F) (nodes : List (ComputeNode S F))
      → ((node : ComputeNode S F) → (f node).address ≡ node.address)
      → addresses (change_node b f nodes) ≡ addresses nodes
  unfolding change_node
  addresses-change_node b f [] h = refl
  addresses-change_node b f (x ∷ xs) h = ground (arith, h x, addresses-change_node b f xs h)

  pub addresses-map :
      (f : ComputeNode S F → ComputeNode S F) (nodes : List (ComputeNode S F))
      → ((node : ComputeNode S F) → (f node).address ≡ node.address)
      → addresses (map f nodes) ≡ addresses nodes
  addresses-map f [] h = refl
  addresses-map f (x ∷ xs) h = ground (arith, h x, addresses-map f xs h)

  pub addresses-remove_node :
      (b : ℕ) (nodes : List (ComputeNode S F))
      → addresses (remove_node b nodes) ≡ remove ℕ_discrete b (addresses nodes)
  unfolding remove_node remove
  addresses-remove_node b [] = refl
  addresses-remove_node b (x ∷ xs) = ground (arith, addresses-remove_node b xs)
