-- ===== src/Column/Graph/Places.antt =====
-- The places of the nodes of a ComputeGraph and their addresses: Finalize reads its counts by place.
use lark.Base.{
  ℕ, zero, suc, ◌≡◌, ◌<◌, ◌≤◌, sym, List, [], ◌∷◌, map, length, get_elem?, lt-length_of_get_elem?,
  arith, ℕ_discrete, Option-cases, inl, inr,
}
use lark.Base.Dict.{contains, Distinct}
use lark.Dag.Digraph.{Has}
use lark.Column.Graph.{ComputeNode, node_at, place_of, address_at, deps_at}
use lark.Column.Graph.Nodes.{addresses, deps_of}

pub Has-map : (f : ℕ → ℕ) (ds : List ℕ) (v : ℕ) → Has v (map f ds) → (d : ℕ) × Has d ds × (f d ≡ v)
unfolding contains
Has-map f [] v h = cc
Has-map f (d ∷ ds) v h = elim (ℕ_discrete v (f d)) [
  | yes e ↦ (d, ground arith, sym e)
  | no ne ↦ let (d', there, eq) = Has-map f ds v (ground arith) in (d', ground arith, eq)
]

pub map-Has : (f : ℕ → ℕ) (ds : List ℕ) (d : ℕ) → Has d ds → Has (f d) (map f ds)
unfolding contains
map-Has f [] d h = cc
map-Has f (x ∷ xs) d h = ground (arith, map-Has f xs d)

module _ {S F : Type 0} where
  pub place_small :
      (nodes : List (ComputeNode S F)) (a : ℕ)
      → Has a (addresses nodes)
      → place_of nodes a < length nodes
  unfolding place_of contains
  place_small [] a h = cc
  place_small (x ∷ xs) a h = ground (arith, place_small xs a)

  pub address_at-place_of :
      (nodes : List (ComputeNode S F)) (a : ℕ)
      → Has a (addresses nodes)
      → address_at nodes (place_of nodes a) ≡ a
  unfolding place_of contains
  address_at-place_of [] a h = cc
  address_at-place_of (x ∷ xs) a h = ground (arith, address_at-place_of xs a)

  pub address_at-Has :
      (nodes : List (ComputeNode S F)) (i : ℕ)
      → i < length nodes
      → Has (address_at nodes i) (addresses nodes)
  unfolding contains
  address_at-Has [] i h = absurd (omega arith)
  address_at-Has (x ∷ xs) zero h = ground arith
  address_at-Has (x ∷ xs) (suc i) h = ground (arith, address_at-Has xs i)

  pub place_of-address_at :
      (nodes : List (ComputeNode S F)) (i : ℕ)
      → Distinct ℕ_discrete (addresses nodes)
      → i < length nodes
      → place_of nodes (address_at nodes i) ≡ i
  unfolding place_of
  place_of-address_at [] i d h = absurd (omega arith)
  place_of-address_at (x ∷ xs) zero d h = ground arith
  place_of-address_at (x ∷ xs) (suc i) d h =
      ground (arith, place_of-address_at xs i d.1, address_at-Has xs i)

  node_at-address_at :
      (nodes : List (ComputeNode S F)) (i : ℕ)
      → Distinct ℕ_discrete (addresses nodes)
      → i < length nodes
      → node_at nodes (address_at nodes i) ≡ get_elem? nodes i
  unfolding node_at
  node_at-address_at [] i d h = absurd (omega arith)
  node_at-address_at (x ∷ xs) zero d h = ground arith
  node_at-address_at (x ∷ xs) (suc i) d h =
      ground (arith, node_at-address_at xs i d.1, address_at-Has xs i)

  pub no_deps_at :
      (nodes : List (ComputeNode S F)) (i : ℕ) → length nodes ≤ i → deps_at nodes i ≡ []
  unfolding deps_at
  no_deps_at nodes i h = elim (Option-cases (get_elem? nodes i)) [
    | inl e ↦ ground (arith, e)
    | inr (node, e) ↦ absurd (omega (arith, lt-length_of_get_elem? nodes i node e))
  ]

  pub deps_at_lem :
      (nodes : List (ComputeNode S F)) (i : ℕ)
      → Distinct ℕ_discrete (addresses nodes)
      → i < length nodes
      → deps_at nodes i ≡ map (place_of nodes) (deps_of nodes (address_at nodes i))
  unfolding deps_at
  deps_at_lem nodes i d h = elim (Option-cases (get_elem? nodes i)) [
    | inl e ↦ ground (arith, e, node_at-address_at nodes i d h)
    | inr (node, e) ↦ ground (arith, e, node_at-address_at nodes i d h)
  ]
