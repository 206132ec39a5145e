-- ===== src/Column/Graph/Finalize.antt =====
-- ComputeGraph::Finalize: a topological order of all nodes, or an exception and then there is a cycle.
use lark.Base.{
  ℕ, ◌≡◌, ◌<◌, ◌==◌, ◌↔◌, refl, ap, sym, ◌∙◌, true, false, if◌then◌else◌, Option, none, some, List,
  [], ◌∷◌, map, length, length-map, text, arith, ℕ_discrete, dec_lt,
}
use lark.Base.Dict.{contains}
use lark.Base.Result.{Exception, runtime_error}
use lark.Dag.Digraph.{Has, Edge, Walk, one, snoc}
use lark.Dag.Kahn.Order.{IsSorted, KahnVerdict, sorted, stuck, kahn-KahnVerdict}
use lark.Column.Graph.{ComputeGraph, place_of, address_at, deps_at, finalize}
use lark.Column.Graph.Nodes.{addresses, deps_of}
use lark.Column.Graph.Wired.{IsWired}
use lark.Column.Graph.Places.{
  Has-map, map-Has, place_small, address_at-place_of, address_at-Has, place_of-address_at,
  no_deps_at, deps_at_lem,
}

module _ {S F : Type 0} where
  -- Every node once, each after all that it depends on.
  pub record IsTopo (g : ComputeGraph S F) (order : List ℕ) : Type 0 where
    pub sorted : IsSorted (deps_of g.nodes) [] order
    pub covers : (a : ℕ) → Has a order ↔ Has a (addresses g.nodes)
    pub size : length order ≡ length g.nodes

  pub data Finalized (g : ComputeGraph S F) : ComputeGraph S F × Option Exception → Type 0 where
    ordered :
        (order : List ℕ)
        → IsTopo g order
        → Finalized g (record g { topo = order; finalized = true }, none)
    cyclic :
        (order : List ℕ) (a : ℕ)
        → Walk (deps_of g.nodes) a a
        → Finalized g (
          record g { topo = order },
          some (runtime_error (text "ComputeGraph: dependency cycle detected")),
        )

  module _ (g : ComputeGraph S F) (w : IsWired g) where
    abbrev by_place : ℕ → List ℕ
    by_place = deps_at g.nodes

    abbrev address : ℕ → ℕ
    address = address_at g.nodes

    source_small : (u v : ℕ) → Edge by_place u v → u < length g.nodes
    unfolding contains
    source_small u v e = elim (dec_lt u (length g.nodes)) [
      | yes lt ↦ lt
      | no ge ↦ absurd (ground (arith, no_deps_at g.nodes u (omega arith), e))
    ]

    Edge-up :
        (u v : ℕ)
        → Edge by_place u v
        → (v < length g.nodes) × Edge (deps_of g.nodes) (address u) (address v)
    Edge-up u v e =
        let small = source_small u v e in
        let listed : Has v (map (place_of g.nodes) (deps_of g.nodes (address u))) =
          ap (contains ℕ_discrete v) (sym (deps_at_lem g.nodes u w.distinct small)) ∙ e in
        let (d, there, eq) = Has-map (place_of g.nodes) (deps_of g.nodes (address u)) v listed in
        let inside = w.inside (address u) d there in
        let same : address v ≡ d = ap address (sym eq) ∙ address_at-place_of g.nodes d inside in
        (
          ground (arith, place_small g.nodes d inside, eq),
          ap (λ x. contains ℕ_discrete x (deps_of g.nodes (address u))) same ∙ there,
        )

    Edge-down :
        (u d : ℕ)
        → u < length g.nodes
        → Edge (deps_of g.nodes) (address u) d
        → Edge by_place u (place_of g.nodes d)
    Edge-down u d small e =
        ap (contains ℕ_discrete (place_of g.nodes d)) (deps_at_lem g.nodes u w.distinct small)
        ∙ map-Has (place_of g.nodes) (deps_of g.nodes (address u)) d e

    Walk-up : {u v : ℕ} → Walk by_place u v → Walk (deps_of g.nodes) (address u) (address v)
    Walk-up {u} {v} (one e) = one (Edge-up u v e).1
    Walk-up (snoc {v} {w} walk e) = snoc (Walk-up walk) (Edge-up v w e).1

    contains-address :
        (v : ℕ) (xs : List ℕ)
        → v < length g.nodes
        → ((x : ℕ) → Has x xs → x < length g.nodes)
        → contains ℕ_discrete (address v) (map address xs) ≡ contains ℕ_discrete v xs
    unfolding contains
    contains-address v [] small h = refl
    contains-address v (x ∷ xs) small h = ground (
      arith,
      contains-address v xs small (λ y e. h y (ground arith)),
      place_of-address_at g.nodes v w.distinct small,
      place_of-address_at g.nodes x w.distinct (h x (ground arith)),
      ap (place_of g.nodes),
    )

    sorted_up :
        (seen xs : List ℕ)
        → ((x : ℕ) → Has x seen → x < length g.nodes)
        → ((x : ℕ) → Has x xs → x < length g.nodes)
        → IsSorted by_place seen xs
        → IsSorted (deps_of g.nodes) (map address seen) (map address xs)
    unfolding contains
    sorted_up seen [] old new s = tt
    sorted_up seen (x ∷ xs) old new s =
        let small : x < length g.nodes = new x (ground arith) in
        let met : (d : ℕ) → Edge (deps_of g.nodes) (address x) d → Has d (map address seen) = λ d e.
          let place = place_of g.nodes d in
          let there = map-Has address seen place (s.0 place (Edge-down x d small e)) in
          ap (λ y. contains ℕ_discrete y (map address seen))
            (sym (address_at-place_of g.nodes d (w.inside (address x) d e)))
          ∙ there in
        (
          met,
          contains-address x seen small old ∙ s.1,
          sorted_up (x ∷ seen) xs (λ y e. ground (arith, old y, small))
              (λ y e. new y (ground arith)) s.2,
        )

    covers_up :
        (order : List ℕ)
        → ((v : ℕ) → Has v order ↔ (v < length g.nodes))
        → (a : ℕ) → Has a (map address order) ↔ Has a (addresses g.nodes)
    covers_up order covers a = (
      λ h.
          let (v, there, eq) = Has-map address order a h in
          ap (λ x. contains ℕ_discrete x (addresses g.nodes)) (sym eq)
          ∙ address_at-Has g.nodes v ((covers v).0 there),
      λ h.
          let place = place_of g.nodes a in
          ap (λ x. contains ℕ_discrete x (map address order))
            (sym (address_at-place_of g.nodes a h))
          ∙ map-Has address order place ((covers place).1 (place_small g.nodes a h)),
    )

    -- What Finalize makes of the order.
    abbrev with_order : Option (List ℕ) → ComputeGraph S F × Option Exception
    with_order o = elim o [
      | none ↦ (g, some (runtime_error (text "out of fuel")))
      | some order ↦
          let sorted : ComputeGraph S F = record g { topo = map address order } in
          if length order == length g.nodes
          then (record sorted { finalized = true }, none)
          else (sorted, some (runtime_error (text "ComputeGraph: dependency cycle detected")))
    ]

    in_range : (u v : ℕ) → Edge by_place u v → v < length g.nodes
    in_range u v e = (Edge-up u v e).0

    nothing_small : (v : ℕ) → Has v [] → v < length g.nodes
    unfolding contains
    nothing_small v h = cc

    with_order-Finalized :
        {o : Option (List ℕ)}
        → KahnVerdict by_place (length g.nodes) in_range (no_deps_at g.nodes) o
        → Finalized g (with_order o)
    with_order-Finalized (sorted order s covers size) =
        let full : (length order == length g.nodes) ≡ true = ground arith in
        rw full (
          ordered (map address order) (record {
            sorted = sorted_up [] order nothing_small (λ x h. (covers x).0 h) s;
            covers = covers_up order covers;
            size = length-map order address ∙ size;
          }))
    with_order-Finalized (stuck order v short walk) =
        let missing : (length order == length g.nodes) ≡ false = ground arith in
        rw missing (cyclic (map address order) (address v) (Walk-up walk))

    -- Finalize ends within the fuel of the model: the order has every node exactly once, each after
    -- all that it depends on; or it throws, and then some node depends on itself through others.
    pub finalize-Finalized : Finalized g (finalize g)
    unfolding finalize
    finalize-Finalized =
        with_order-Finalized
          (kahn-KahnVerdict by_place (length g.nodes) in_range (no_deps_at g.nodes))
