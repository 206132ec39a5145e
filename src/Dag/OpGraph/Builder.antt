-- ===== src/Dag/OpGraph/Builder.antt =====
-- OpGraphBuilder::Build: the graph that it returns is valid.
use mathlib.Core.List.{lookup, append_assoc, append-nil}
use mathlib.Core.Path.{subst}
use lark.Base.{
  is_empty, ℕ, suc, ◌+◌, ◌≡◌, ◌∙◌, refl, ap, Option, none, some, Option-cases, Bool-cases, inl, inr,
  List, [], ◌∷◌, ◌++◌, length, length-append, Text, text_dec, arith,
}
use lark.Base.Dict.{assign}
use lark.Base.Result.{done, >>=-eq-done}
use lark.Dag.OpGraph.{
  Op, OpAspect, OpGraph, OpDef, OpRegistry, op_id, empty_op_graph, add_op, add_aspect, depends_on,
  create_op, add_aspects, add_ops, wire_op, wire_ops, build_ops,
}
use lark.Dag.OpGraph.Valid.{
  IsValid, empty-IsValid, add_aspect-IsValid, add_op_lem, add_op-IsValid, depends_on_lem,
  depends_on-IsValid,
}

module _ {D : Type 0} where
  -- A valid graph of `n` ops with these aspects.
  pub record IsBuiltOf (n : ℕ) (aspects : List (OpAspect D)) (g : OpGraph D) : Type 0 where
    pub valid : IsValid g
    pub size : length g.ops ≡ n
    pub hooks : g.aspects ≡ aspects

  add_aspects-IsBuiltOf :
      (before aspects : List (OpAspect D)) (n : ℕ) (g : OpGraph D)
      → IsBuiltOf n before g
      → IsBuiltOf n (before ++ aspects) (add_aspects aspects g)
  unfolding add_aspects add_aspect
  add_aspects-IsBuiltOf before [] n g b = rw append-nil b
  add_aspects-IsBuiltOf before (aspect ∷ aspects) n g b =
      rw (← append_assoc before (aspect ∷ []) aspects) (
        add_aspects-IsBuiltOf (before ++ aspect ∷ []) aspects n (add_aspect (some aspect) g)
          (record {
            valid = add_aspect-IsValid (some aspect) g b.valid;
            size = b.size;
            hooks = ap (λ l. l ++ aspect ∷ []) b.hooks;
          }))

  add_op-IsBuiltOf :
      (op : Option (Op D)) (id : Text) (n : ℕ) (aspects : List (OpAspect D)) (g g' : OpGraph D)
      → IsBuiltOf n aspects g
      → add_op op id g ≡ done g'
      → IsBuiltOf (suc n) aspects g'
  unfolding add_op
  add_op-IsBuiltOf none id n aspects g g' b h = cc
  add_op-IsBuiltOf (some op) id n aspects g g' b h =
      let same = (add_op_lem op id g g' h).0 in
      record {
        valid = add_op-IsValid (some op) id g g' b.valid h;
        size =
            ap (λ (x : OpGraph D). length x.ops) same
            ∙ length-append g.ops (op ∷ [])
            ∙ omega (arith, b.size);
        hooks = ap (λ (x : OpGraph D). x.aspects) same ∙ b.hooks;
      }

  add_ops-IsBuiltOf :
      (r : OpRegistry D) (defs : List OpDef) (by_id : List (Text × ℕ)) (n : ℕ)
      (aspects : List (OpAspect D)) (g : OpGraph D) (by_id' : List (Text × ℕ)) (g' : OpGraph D)
      → IsBuiltOf n aspects g
      → add_ops r defs by_id g ≡ done (by_id', g')
      → IsBuiltOf (n + length defs) aspects g'
  unfolding add_ops
  add_ops-IsBuiltOf r [] by_id n aspects g by_id' g' b h =
      let none_left : n + 0 ≡ n = omega arith in
      rw none_left (subst (IsBuiltOf n aspects) (ground arith) b)
  add_ops-IsBuiltOf r (def ∷ defs) by_id n aspects g by_id' g' b h =
      elim (Bool-cases (is_empty def.type_name)) [
        | inl e ↦ absurd (ground arith)
        | inr e ↦
            let (op, made, rest) =
              >>=-eq-done (create_op r def.type_name) _ (rw (e, add_ops) at h) in
            let (middle, put, more) = >>=-eq-done (add_op op (op_id def) g) _ rest in
            let shift : suc n + length defs ≡ n + suc (length defs) = omega arith in
            rw (← shift) (
              add_ops-IsBuiltOf r defs (assign text_dec (op_id def) (length g.ops) by_id) (suc n)
                aspects middle by_id' g' (add_op-IsBuiltOf op (op_id def) n aspects g middle b put)
                more)
      ]

  depends_on-IsBuiltOf :
      (dep dependent : Text) (n : ℕ) (aspects : List (OpAspect D)) (g g' : OpGraph D)
      → IsBuiltOf n aspects g
      → depends_on dep dependent g ≡ done g'
      → IsBuiltOf n aspects g'
  depends_on-IsBuiltOf dep dependent n aspects g g' b h =
      let (u, w, found, there, same) = depends_on_lem dep dependent g g' h in
      record {
        valid = depends_on-IsValid dep dependent g g' b.valid h;
        size = ap (λ (x : OpGraph D). length x.ops) same ∙ b.size;
        hooks = ap (λ (x : OpGraph D). x.aspects) same ∙ b.hooks;
      }

  wire_op-IsBuiltOf :
      (by_id : List (Text × ℕ)) (id : Text) (ds : List Text) (n : ℕ) (aspects : List (OpAspect D))
      (g g' : OpGraph D)
      → IsBuiltOf n aspects g
      → wire_op by_id id ds g ≡ done g'
      → IsBuiltOf n aspects g'
  unfolding wire_op
  wire_op-IsBuiltOf by_id id [] n aspects g g' b h = subst (IsBuiltOf n aspects) (ground arith) b
  wire_op-IsBuiltOf by_id id (dep ∷ ds) n aspects g g' b h =
      elim (Option-cases (lookup text_dec dep by_id)) [
        | inl missing ↦ absurd (ground arith)
        | inr (u, found) ↦
            let (middle, first, rest) =
              >>=-eq-done (depends_on dep id g) _ (rw (found, wire_op) at h) in
            wire_op-IsBuiltOf by_id id ds n aspects middle g'
              (depends_on-IsBuiltOf dep id n aspects g middle b first) rest
      ]

  wire_ops-IsBuiltOf :
      (by_id : List (Text × ℕ)) (defs : List OpDef) (n : ℕ) (aspects : List (OpAspect D))
      (g g' : OpGraph D)
      → IsBuiltOf n aspects g
      → wire_ops by_id defs g ≡ done g'
      → IsBuiltOf n aspects g'
  unfolding wire_ops
  wire_ops-IsBuiltOf by_id [] n aspects g g' b h = subst (IsBuiltOf n aspects) (ground arith) b
  wire_ops-IsBuiltOf by_id (def ∷ defs) n aspects g g' b h =
      let (middle, first, rest) = >>=-eq-done (wire_op by_id (op_id def) def.deps g) _ h in
      wire_ops-IsBuiltOf by_id defs n aspects middle g'
        (wire_op-IsBuiltOf by_id (op_id def) def.deps n aspects g middle b first) rest

  -- A graph that Build returns is valid.
  pub build_ops-IsValid :
      (r : OpRegistry D) (aspects : List (OpAspect D)) (defs : List OpDef) (g : OpGraph D)
      → build_ops r aspects defs ≡ done g
      → IsValid g
  unfolding build_ops
  build_ops-IsValid r aspects defs g h =
      let start =
        add_aspects-IsBuiltOf [] aspects 0 empty_op_graph
          (record { valid = empty-IsValid; size = refl; hooks = refl }) in
      let ((by_id, middle), first, rest) =
        >>=-eq-done (add_ops r defs [] (add_aspects aspects empty_op_graph)) _ h in
      let b =
        add_ops-IsBuiltOf r defs [] 0 aspects (add_aspects aspects empty_op_graph) by_id middle
          start first in
      (wire_ops-IsBuiltOf by_id defs (0 + length defs) aspects middle g b rest).valid
