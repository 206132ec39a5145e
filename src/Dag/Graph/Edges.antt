-- ===== src/Dag/Graph/Edges.antt =====
-- Wiring: a node gets the indices that the ids of its definition's dependencies resolve to, and
-- nothing else changes.
use mathlib.Core.List.{lookup, append_assoc, append-nil}
use mathlib.Core.Path.{subst, ap₂}
use lark.Base.{
  ℕ, zero, suc, ◌+◌, ◌≤◌, ◌<◌, ◌≡◌, ◌≢◌, ◌∙◌, ◌==◌, refl, sym, ap, some, Option-cases, Bool-cases,
  inl, inr, List, [], ◌∷◌, ◌++◌, map, Text, text_dec, length, get_elem?, length-set,
  get_elem?-set_self, get_elem?-set_ne, map-set_same, get_elem?_of_lt, arith,
}
use lark.Base.Result.{done, >>=-eq-done}
use lark.Dag.Graph.{NodeDef, Node, Graph, find, deps_of, add_dependency, wire_node, wire_from}
use lark.Dag.Graph.Wiring.{ids_of}

module _ {N : Type 0} where
  -- What wiring leaves alone.
  pub record SameNodes (g g' : Graph N) : Type 0 where
    pub by_id : g'.by_id ≡ g.by_id
    pub size : length g'.nodes ≡ length g.nodes
    pub ids : ids_of g'.nodes ≡ ids_of g.nodes
    pub types :
        map (λ (node : Node N). node.type_name) g'.nodes
        ≡ map (λ (node : Node N). node.type_name) g.nodes

  SameNodes-trans : (g h k : Graph N) → SameNodes g h → SameNodes h k → SameNodes g k
  SameNodes-trans g h k s t = record {
    by_id = t.by_id ∙ s.by_id;
    size = t.size ∙ s.size;
    ids = t.ids ∙ s.ids;
    types = t.types ∙ s.types;
  }

  SameNodes-refl : (g : Graph N) → SameNodes g g
  SameNodes-refl g = record { by_id = refl; size = refl; ids = refl; types = refl }

  add_dependency_lem :
      (i dep : ℕ) (g : Graph N)
      → i < length g.nodes
      → SameNodes g (add_dependency i dep g)
        × (deps_of (add_dependency i dep g) i ≡ deps_of g i ++ dep ∷ [])
        × ((j : ℕ) → j ≢ i → deps_of (add_dependency i dep g) j ≡ deps_of g j)
  unfolding add_dependency
  add_dependency_lem i dep g h =
      let (node, here) = get_elem?_of_lt g.nodes i h in
      let new : Node N = record node { dependencies = node.dependencies ++ dep ∷ [] } in
      rw (here, add_dependency)
        (
          record {
            by_id = refl;
            size = length-set g.nodes i new;
            ids = map-set_same (λ (n : Node N). n.id) g.nodes i node new here refl;
            types = map-set_same (λ (n : Node N). n.type_name) g.nodes i node new here refl;
          },
          ground (arith, get_elem?-set_self g.nodes i new h),
          λ j ne. ground (arith, get_elem?-set_ne g.nodes {i = i} {j = j} new (λ e. ne (sym e))),
        )

  -- What the dependencies of one definition add to node `i`.
  pub record Wired (i : ℕ) (dep_ids : List Text) (g g' : Graph N) : Type 0 where
    pub same : SameNodes g g'
    pub added : List ℕ
    pub own : deps_of g' i ≡ deps_of g i ++ added
    pub others : (j : ℕ) → j ≢ i → deps_of g' j ≡ deps_of g j
    pub resolved : map (find g) dep_ids ≡ map some added

  wire_node-Wired :
      (i : ℕ) (dep_ids : List Text) (g g' : Graph N)
      → i < length g.nodes
      → wire_node i dep_ids g ≡ done g'
      → Wired i dep_ids g g'
  unfolding wire_node
  wire_node-Wired i [] g g' lt h = subst (Wired i [] g) (ground arith) (record {
    same = SameNodes-refl g;
    added = [];
    own = sym (append-nil (deps_of g i));
    others = λ j ne. refl;
    resolved = refl;
  })
  wire_node-Wired i (dep_id ∷ dep_ids) g g' lt h = elim (Option-cases (find g dep_id)) [
    | inl missing ↦ absurd (ground arith)
    | inr (dep, found) ↦ elim (Bool-cases (dep == i)) [
      | inl self ↦ absurd (ground arith)
      | inr other ↦
          let middle = add_dependency i dep g in
          let (same, own, others) = add_dependency_lem i dep g lt in
          let rest : wire_node i dep_ids middle ≡ done g' = ground arith in
          let wired = wire_node-Wired i dep_ids middle g' (omega (arith, same.size)) rest in
          record {
            same = SameNodes-trans g middle g' same wired.same;
            added = dep ∷ wired.added;
            own =
                wired.own
                ∙ ap (λ l. l ++ wired.added) own
                ∙ append_assoc (deps_of g i) (dep ∷ []) wired.added;
            others = λ j ne. wired.others j ne ∙ others j ne;
            resolved =
                ap₂ (λ x y. x ∷ y) found
                  (ap (λ m. map (λ id. lookup text_dec id m) dep_ids) (sym same.by_id)
                    ∙ wired.resolved);
          }
    ]
  ]

  pub find_same :
      (g g' : Graph N) (dep_ids : List Text)
      → SameNodes g g'
      → map (find g) dep_ids ≡ map (find g') dep_ids
  find_same g g' dep_ids s = ap (λ m. map (λ id. lookup text_dec id m) dep_ids) (sym s.by_id)

  -- What the dependencies of all definitions add, the first of them to node `i`.
  pub record AllWired (i : ℕ) (defs : List NodeDef) (g g' : Graph N) : Type 0 where
    pub same : SameNodes g g'
    pub before : (j : ℕ) → j < i → deps_of g' j ≡ deps_of g j
    pub own :
        (k : ℕ) (def : NodeDef)
        → get_elem? defs k ≡ some def
        → (added : List ℕ) × (deps_of g' (i + k) ≡ deps_of g (i + k) ++ added)
          × (map (find g) def.deps ≡ map some added)

  AllWired-own :
      (i : ℕ) (def : NodeDef) (defs : List NodeDef) (g middle g' : Graph N)
      → Wired i def.deps g middle
      → AllWired (suc i) defs middle g'
      → (k : ℕ) (d : NodeDef) → get_elem? (def ∷ defs) k ≡ some d
      → (added : List ℕ) × (deps_of g' (i + k) ≡ deps_of g (i + k) ++ added)
        × (map (find g) d.deps ≡ map some added)
  AllWired-own i def defs g middle g' w ws zero d e =
      let here : i + 0 ≡ i = omega arith in
      let same : def ≡ d = ground arith in
      (
        w.added,
        rw here (ws.before i (omega arith) ∙ w.own),
        ap (λ (x : NodeDef). map (find g) x.deps) (sym same) ∙ w.resolved,
      )
  AllWired-own i def defs g middle g' w ws (suc k) d e =
      let (added, own, resolved) = ws.own k d e in
      let shift : suc i + k ≡ i + suc k = omega arith in
      (
        added,
        rw (← shift) (own ∙ ap (λ l. l ++ added) (w.others (suc i + k) (λ e'. omega arith))),
        find_same g middle d.deps w.same ∙ resolved,
      )

  pub wire_from-AllWired :
      (i : ℕ) (defs : List NodeDef) (g g' : Graph N)
      → i + length defs ≤ length g.nodes
      → wire_from i defs g ≡ done g'
      → AllWired i defs g g'
  unfolding wire_from
  wire_from-AllWired i [] g g' le h =
      subst (AllWired i [] g) (ground arith)
        (record { same = SameNodes-refl g; before = λ j lt. refl; own = λ k def e. cc })
  wire_from-AllWired i (def ∷ defs) g g' le h =
      let (middle, first, rest) = >>=-eq-done (wire_node i def.deps g) _ h in
      let w = wire_node-Wired i def.deps g middle (omega arith) first in
      let ws = wire_from-AllWired (suc i) defs middle g' (omega (arith, w.same.size)) rest in
      record {
        same = SameNodes-trans g middle g' w.same ws.same;
        before = λ j lt. ws.before j (omega arith) ∙ w.others j (λ e. omega arith);
        own = AllWired-own i def defs g middle g' w ws;
      }
