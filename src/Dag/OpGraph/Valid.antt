-- ===== src/Dag/OpGraph/Valid.antt =====
-- What every OpGraph keeps: ids and dependencies name its own ops, and a compiled graph has a
-- topological order of them.
use mathlib.Core.List.{lookup}
use lark.Base.{
  is_empty, ℕ, ◌<◌, ◌≡◌, ◌↔◌, refl, true, false, Option, none, some, Option-cases, inl, inr, List,
  [], ◌∷◌, ◌++◌, length, length-append, if◌then◌else◌, Text, text_dec, arith, ℕ_discrete,
}
use lark.Base.Dict.{contains, emplace}
use lark.Base.Dict.Laws.{contains-append, lookup-append}
use lark.Base.Sums.{update}
use lark.Base.Result.{done}
use lark.Dag.Digraph.{Has, Edge}
use lark.Dag.Kahn.Order.{IsSorted}
use lark.Dag.OpGraph.{Op, OpAspect, OpGraph, empty_op_graph, add_op, add_aspect, depends_on}

-- An order of exactly the nodes below `n`, each after its dependencies.
pub record IsOrder (deps : ℕ → List ℕ) (n : ℕ) (order : List ℕ) : Type 0 where
  pub sorted : IsSorted deps [] order
  pub covers : (v : ℕ) → Has v order ↔ (v < n)
  pub size : length order ≡ n

pub no_edges : (xs : List ℕ) → ((v : ℕ) → ¬ Has v xs) → xs ≡ []
unfolding contains
no_edges [] h = refl
no_edges (x ∷ xs) h = absurd (h x (ground arith))

module _ {D : Type 0} where
  pub record IsValid (g : OpGraph D) : Type 0 where
    pub indexed : (id : Text) (v : ℕ) → lookup text_dec id g.by_id ≡ some v → v < length g.ops
    pub in_range : (u v : ℕ) → Edge g.deps u v → (u < length g.ops) × (v < length g.ops)
    pub ordered : g.compiled ≡ true → IsOrder g.deps (length g.ops) g.order

  pub empty-IsValid : IsValid (empty_op_graph {D = D})
  unfolding lookup contains
  empty-IsValid = record { indexed = λ id v h. cc; in_range = λ u v h. cc; ordered = λ h. cc }

  pub add_aspect-IsValid :
      (aspect : Option (OpAspect D)) (g : OpGraph D) → IsValid g → IsValid (add_aspect aspect g)
  unfolding add_aspect
  add_aspect-IsValid none g v = v
  add_aspect-IsValid (some aspect) g v = record {
    indexed = v.indexed;
    in_range = v.in_range;
    ordered = v.ordered;
  }

  -- The graph with one more op.
  abbrev pub added : Op D → Text → OpGraph D → OpGraph D
  added op name g = record g {
    ops = g.ops ++ op ∷ [];
    by_id = g.by_id ++ (name, length g.ops) ∷ [];
    compiled = false;
  }

  pub add_op_lem :
      (op : Op D) (id : Text) (g g' : OpGraph D)
      → add_op (some op) id g ≡ done g'
      → (g' ≡ added op (if is_empty id then op.name else id) g)
        × (lookup text_dec (if is_empty id then op.name else id) g.by_id ≡ none)
  unfolding add_op emplace
  add_op_lem op id g g' h = ground arith

  added-IsValid : (op : Op D) (name : Text) (g : OpGraph D) → IsValid g → IsValid (added op name g)
  unfolding lookup
  added-IsValid op name g v = record {
    indexed = λ q w h. ground (
      arith,
      h,
      lookup-append text_dec q g.by_id ((name, length g.ops) ∷ []),
      v.indexed q w,
      length-append g.ops (op ∷ []),
    );
    in_range = λ u w e.
        let (a, b) = v.in_range u w e in
        (
          omega (arith, a, length-append g.ops (op ∷ [])),
          omega (arith, b, length-append g.ops (op ∷ [])),
        );
    ordered = λ h. cc;
  }

  -- AddOp keeps ids and dependencies within the ops, and forgets that the graph was compiled.
  pub add_op-IsValid :
      (op : Option (Op D)) (id : Text) (g g' : OpGraph D)
      → IsValid g
      → add_op op id g ≡ done g'
      → IsValid g'
  unfolding add_op
  add_op-IsValid none id g g' v h = cc
  add_op-IsValid (some op) id g g' v h =
      rw (add_op_lem op id g g' h).0 (added-IsValid op (if is_empty id then op.name else id) g v)

  abbrev pub linked : ℕ → ℕ → OpGraph D → OpGraph D
  linked u w g = record g { deps = update g.deps w (g.deps w ++ u ∷ []); compiled = false }

  pub depends_on_lem :
      (dep dependent : Text) (g g' : OpGraph D)
      → depends_on dep dependent g ≡ done g'
      → (u : ℕ) × (w : ℕ) × (lookup text_dec dep g.by_id ≡ some u)
        × (lookup text_dec dependent g.by_id ≡ some w)
        × (g' ≡ linked u w g)
  unfolding depends_on
  depends_on_lem dep dependent g g' h = elim (Option-cases (lookup text_dec dep g.by_id)) [
    | inl missing ↦ absurd (ground arith)
    | inr (u, found) ↦ elim (Option-cases (lookup text_dec dependent g.by_id)) [
      | inl missing ↦ absurd (ground arith)
      | inr (w, there) ↦ (u, w, found, there, ground arith)
    ]
  ]

  linked-IsValid :
      (u w : ℕ) (g : OpGraph D)
      → u < length g.ops
      → w < length g.ops
      → IsValid g
      → IsValid (linked u w g)
  unfolding contains
  linked-IsValid u w g a b v = record {
    indexed = v.indexed;
    in_range =
        λ x y e. ground (arith, v.in_range x y, contains-append ℕ_discrete y (g.deps w) (u ∷ []));
    ordered = λ h. cc;
  }

  -- DependsOn keeps the graph valid.
  pub depends_on-IsValid :
      (dep dependent : Text) (g g' : OpGraph D)
      → IsValid g
      → depends_on dep dependent g ≡ done g'
      → IsValid g'
  depends_on-IsValid dep dependent g g' v h =
      let (u, w, found, there, e) = depends_on_lem dep dependent g g' h in
      rw e (linked-IsValid u w g (v.indexed dep u found) (v.indexed dependent w there) v)
