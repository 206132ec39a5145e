-- ===== src/Dag/OpGraph/Built.antt =====
-- OpGraphBuilder::Build (dag/src/op_graph_builder.cpp) as a whole: the ops, the ids and the
-- dependencies of the graph that it returns.
use mathlib.Core.List.{lookup, append_assoc, append-nil}
use mathlib.Core.Path.{subst, ap₂}
use lark.Base.{
  is_empty, ℕ, zero, suc, ◌+◌, ◌<◌, ◌≡◌, ◌≢◌, ◌∙◌, refl, sym, ap, Option, none, some, Option-cases,
  Bool-cases, inl, inr, List, [], ◌∷◌, ◌++◌, map, length, length-append, get_elem?, Text, text_dec,
  false, arith, if◌then◌else◌,
}
use lark.Base.Dict.{assign}
use lark.Base.Dict.Laws.{lookup-append}
use lark.Base.Result.{done, >>=-eq-done}
use lark.Dag.OpGraph.{
  Op, OpAspect, OpGraph, OpDef, OpRegistry, op_id, empty_op_graph, add_op, depends_on, create_op,
  add_aspect, add_aspects, add_ops, wire_op, wire_ops, build_ops,
}
use lark.Dag.OpGraph.Valid.{IsValid, add_op_lem, depends_on_lem, added}
use lark.Dag.OpGraph.Builder.{build_ops-IsValid}

-- No id is given twice, and each leads to the place of its definition.
abbrev pub Indexed : ℕ → List OpDef → List (Text × ℕ) → Type 0
Indexed k defs m =
    (i : ℕ) (def : OpDef)
    → get_elem? defs i ≡ some def
    → lookup text_dec (op_id def) m ≡ some (k + i)

Indexed-cons :
    (k : ℕ) (def : OpDef) (defs : List OpDef) (m : List (Text × ℕ))
    → lookup text_dec (op_id def) m ≡ some k
    → Indexed (suc k) defs m
    → Indexed k (def ∷ defs) m
Indexed-cons k def defs m first later zero d at =
    let it : def ≡ d = ground (arith, at) in
    let here : k ≡ k + 0 = omega arith in
    ap (λ (x : OpDef). lookup text_dec (op_id x) m) (sym it) ∙ first ∙ ap some here
Indexed-cons k def defs m first later (suc j) d at =
    let there : suc k + j ≡ k + suc j = omega arith in later j d at ∙ ap some there

module _ {D : Type 0} where
  -- The registry's factory of each type has made the op at its place.
  abbrev pub Made : OpRegistry D → List OpDef → List (Op D) → Type 0
  Made r [] [] = Unit {0}
  Made r [] (op ∷ ops) = ⊥
  Made r (def ∷ defs) [] = ⊥
  Made r (def ∷ defs) (op ∷ ops) = (create_op r def.type_name ≡ done (some op)) × Made r defs ops

  -- What the first loop does.
  record Added (r : OpRegistry D) (defs : List OpDef) (g g' : OpGraph D) : Type 0 where
    ops : List (Op D)
    made : Made r defs ops
    all : g'.ops ≡ g.ops ++ ops
    kept :
        (q : Text) (v : ℕ)
        → lookup text_dec q g.by_id ≡ some v
        → lookup text_dec q g'.by_id ≡ some v
    indexed : Indexed (length g.ops) defs g'.by_id
    deps : g'.deps ≡ g.deps
    aspects : g'.aspects ≡ g.aspects

  add_one :
      (op : Option (Op D)) (def : OpDef) (g g' : OpGraph D)
      → is_empty def.type_name ≡ false
      → add_op op (op_id def) g ≡ done g'
      → (o : Op D) × (op ≡ some o)
        × (g' ≡ added o (op_id def) g)
        × (lookup text_dec (op_id def) g.by_id ≡ none)
  unfolding add_op
  add_one none def g g' e h = cc
  add_one (some o) def g g' e h =
      let (same, new) = add_op_lem o (op_id def) g g' h in
      let name : (if is_empty (op_id def) then o.name else op_id def) ≡ op_id def =
        ground (arith, e) in
      (o, refl, same ∙ ap (λ t. added o t g) name, rw name at new)

  Added-cons :
      (r : OpRegistry D) (def : OpDef) (defs : List OpDef) (g middle g' : OpGraph D) (o : Op D)
      → create_op r def.type_name ≡ done (some o)
      → middle ≡ added o (op_id def) g
      → lookup text_dec (op_id def) g.by_id ≡ none
      → Added r defs middle g'
      → Added r (def ∷ defs) g g'
  unfolding lookup
  Added-cons r def defs g middle g' o made same new a =
      let one = (op_id def, length g.ops) ∷ [] in
      let size : length middle.ops ≡ suc (length g.ops) =
        ap (λ (x : OpGraph D). length x.ops) same ∙ length-append g.ops (o ∷ []) ∙ omega arith in
      let into : (q : Text) → lookup text_dec q middle.by_id ≡ lookup text_dec q (g.by_id ++ one) =
        λ q. ap (λ (x : OpGraph D). lookup text_dec q x.by_id) same in
      let here : lookup text_dec (op_id def) (g.by_id ++ one) ≡ some (length g.ops) =
        ground (arith, lookup-append text_dec (op_id def) g.by_id one, new) in
      record {
        ops = o ∷ a.ops;
        made = (made, a.made);
        all =
            a.all ∙ ap (λ (x : OpGraph D). x.ops ++ a.ops) same ∙ append_assoc g.ops (o ∷ []) a.ops;
        kept = λ q v h.
            let still : lookup text_dec q (g.by_id ++ one) ≡ some v =
              ground (arith, lookup-append text_dec q g.by_id one, h) in
            a.kept q v (into q ∙ still);
        indexed =
            Indexed-cons (length g.ops) def defs g'.by_id
              (a.kept (op_id def) (length g.ops) (into (op_id def) ∙ here)) (rw size at a.indexed);
        deps = a.deps ∙ ap (λ (x : OpGraph D). x.deps) same;
        aspects = a.aspects ∙ ap (λ (x : OpGraph D). x.aspects) same;
      }

  add_ops-Added :
      (r : OpRegistry D) (defs : List OpDef) (by_id : List (Text × ℕ)) (g : OpGraph D)
      (by_id' : List (Text × ℕ)) (g' : OpGraph D)
      → add_ops r defs by_id g ≡ done (by_id', g')
      → Added r defs g g'
  unfolding add_ops
  add_ops-Added r [] by_id g by_id' g' h =
      let e : g ≡ g' = ground (arith, h) in
      subst (Added r [] g) e (record {
        ops = [];
        made = tt;
        all = sym (append-nil g.ops);
        kept = λ q v k. k;
        indexed = λ i def at. cc;
        deps = refl;
        aspects = refl;
      })
  add_ops-Added r (def ∷ defs) by_id g by_id' g' h = elim (Bool-cases (is_empty def.type_name)) [
    | inl e ↦ absurd (ground arith)
    | inr e ↦
        let (op, made, rest) = >>=-eq-done (create_op r def.type_name) _ (rw (e, add_ops) at h) in
        let (middle, put, more) = >>=-eq-done (add_op op (op_id def) g) _ rest in
        let (o, is_op, same, new) = add_one op def g middle e put in
        let a =
          add_ops-Added r defs (assign text_dec (op_id def) (length g.ops) by_id) middle by_id' g'
            more in
        Added-cons r def defs g middle g' o (made ∙ ap done is_op) same new a
  ]

  -- What the second loop leaves alone.
  record Same (g g' : OpGraph D) : Type 0 where
    ops : g'.ops ≡ g.ops
    by_id : g'.by_id ≡ g.by_id
    aspects : g'.aspects ≡ g.aspects

  Same-trans : (g h k : OpGraph D) → Same g h → Same h k → Same g k
  Same-trans g h k s t = record {
    ops = t.ops ∙ s.ops;
    by_id = t.by_id ∙ s.by_id;
    aspects = t.aspects ∙ s.aspects;
  }

  abbrev resolve : OpGraph D → List Text → List (Option ℕ)
  resolve g = map (λ id. lookup text_dec id g.by_id)

  -- What the dependencies of one definition add to the op at `i`.
  record Wired (i : ℕ) (ds : List Text) (g g' : OpGraph D) : Type 0 where
    same : Same g g'
    added_deps : List ℕ
    resolved : resolve g ds ≡ map some added_deps
    at_i : g'.deps i ≡ g.deps i ++ added_deps
    others : (j : ℕ) → j ≢ i → g'.deps j ≡ g.deps j

  wire_op-Wired :
      (by_id : List (Text × ℕ)) (id : Text) (i : ℕ) (ds : List Text) (g g' : OpGraph D)
      → lookup text_dec id g.by_id ≡ some i
      → wire_op by_id id ds g ≡ done g'
      → Wired i ds g g'
  unfolding wire_op
  wire_op-Wired by_id id i [] g g' there h =
      let e : g ≡ g' = ground (arith, h) in
      subst (Wired i [] g) e (record {
        same = record { ops = refl; by_id = refl; aspects = refl };
        added_deps = [];
        resolved = refl;
        at_i = sym (append-nil (g.deps i));
        others = λ j ne. refl;
      })
  wire_op-Wired by_id id i (dep ∷ ds) g g' there h =
      elim (Option-cases (lookup text_dec dep by_id)) [
        | inl missing ↦ absurd (ground arith)
        | inr (x, found) ↦
            let (middle, first, rest) =
              >>=-eq-done (depends_on dep id g) _ (rw (found, wire_op) at h) in
            let (u, w, is_u, is_w, e) = depends_on_lem dep id g middle first in
            let own : w ≡ i = ground (arith, is_w, there) in
            let s : Same g middle = rw e (record { ops = refl; by_id = refl; aspects = refl }) in
            let t =
              wire_op-Wired by_id id i ds middle g' (ap (λ m. lookup text_dec id m) s.by_id ∙ there)
                rest in
            let now : middle.deps i ≡ g.deps i ++ u ∷ [] = rw e (ground (arith, own)) in
            record {
              same = Same-trans g middle g' s t.same;
              added_deps = u ∷ t.added_deps;
              resolved =
                  ap₂ (λ o os. o ∷ os) is_u
                    (ap (λ m. map (λ id. lookup text_dec id m) ds) (sym s.by_id) ∙ t.resolved);
              at_i =
                  t.at_i
                  ∙ ap (λ l. l ++ t.added_deps) now
                  ∙ append_assoc (g.deps i) (u ∷ []) t.added_deps;
              others = λ j ne. t.others j ne ∙ rw e (ground (arith, own, ne));
            }
      ]

  -- From the definition at `k` on.
  record AllWired (k : ℕ) (defs : List OpDef) (g g' : OpGraph D) : Type 0 where
    same : Same g g'
    resolved :
        (i : ℕ) (def : OpDef)
        → get_elem? defs i ≡ some def
        → (us : List ℕ) × (resolve g def.deps ≡ map some us)
          × (g'.deps (k + i) ≡ g.deps (k + i) ++ us)
    before : (j : ℕ) → j < k → g'.deps j ≡ g.deps j

  AllWired-cons :
      (k : ℕ) (def : OpDef) (defs : List OpDef) (g middle g' : OpGraph D)
      → Wired k def.deps g middle
      → AllWired (suc k) defs middle g'
      → AllWired k (def ∷ defs) g g'
  AllWired-cons k def defs g middle g' w a = record {
    same = Same-trans g middle g' w.same a.same;
    resolved = λ i d at.
        elim i
            as (λ i.
              get_elem? (def ∷ defs) i ≡ some d
              → (us : List ℕ) × (resolve g d.deps ≡ map some us)
                × (g'.deps (k + i) ≡ g.deps (k + i) ++ us)) [
                  | zero ↦ λ at.
                      let it : def ≡ d = ground (arith, at) in
                      let here : k + 0 ≡ k = omega arith in
                      (
                        w.added_deps,
                        ap (λ (d : OpDef). resolve g d.deps) (sym it) ∙ w.resolved,
                        rw here (a.before k (omega arith) ∙ w.at_i),
                      )
                  | suc j ↦ λ at.
                      let (us, e, f) = a.resolved j d at in
                      let shift : k + suc j ≡ suc k + j = omega arith in
                      (
                        us,
                        ap (λ m. map (λ id. lookup text_dec id m) d.deps) (sym w.same.by_id) ∙ e,
                        rw shift (
                            f
                            ∙ ap (λ l. l ++ us)
                                (w.others (suc k + j) (λ e. absurd (omega (arith, e))))),
                      )
                ]
          at;
    before =
        λ j lt. a.before j (omega (arith, lt)) ∙ w.others j (λ e. absurd (omega (arith, e, lt)));
  }

  wire_ops-AllWired :
      (by_id : List (Text × ℕ)) (k : ℕ) (defs : List OpDef) (g g' : OpGraph D)
      → Indexed k defs g.by_id
      → wire_ops by_id defs g ≡ done g'
      → AllWired k defs g g'
  unfolding wire_ops
  wire_ops-AllWired by_id k [] g g' ix h =
      let e : g ≡ g' = ground (arith, h) in
      subst (AllWired k [] g) e (record {
        same = record { ops = refl; by_id = refl; aspects = refl };
        resolved = λ i def at. cc;
        before = λ j lt. refl;
      })
  wire_ops-AllWired by_id k (def ∷ defs) g g' ix h =
      let (middle, first, rest) = >>=-eq-done (wire_op by_id (op_id def) def.deps g) _ h in
      let w =
        wire_op-Wired by_id (op_id def) k def.deps g middle (ix 0 def refl ∙ ap some (omega arith))
          first in
      AllWired-cons k def defs g middle g' w (
        wire_ops-AllWired by_id (suc k) defs middle g'
          (λ i d at.
            ap (λ m. lookup text_dec (op_id d) m) w.same.by_id
            ∙ ix (suc i) d at
            ∙ ap some (omega arith))
          rest)

  add_aspects_lem :
      (aspects : List (OpAspect D)) (g : OpGraph D)
      → add_aspects aspects g ≡ record g { aspects = g.aspects ++ aspects }
  unfolding add_aspects add_aspect
  add_aspects_lem [] g = ap (λ l. record g { aspects = l }) (sym (append-nil g.aspects))
  add_aspects_lem (aspect ∷ aspects) g =
      add_aspects_lem aspects (add_aspect (some aspect) g)
      ∙ ap (λ l. record g { aspects = l }) (append_assoc g.aspects (aspect ∷ []) aspects)

  pub record IsBuiltFrom (r : OpRegistry D) (aspects : List (OpAspect D)) (defs : List OpDef)
      (g : OpGraph D) : Type 0 where
    pub valid : IsValid g
    pub hooks : g.aspects ≡ aspects
    pub made : Made r defs g.ops
    pub indexed : Indexed 0 defs g.by_id
    pub resolved :
        (i : ℕ) (def : OpDef)
        → get_elem? defs i ≡ some def
        → map (λ id. lookup text_dec id g.by_id) def.deps ≡ map some (g.deps i)

  -- A graph that OpGraphBuilder::Build returns has, in the order of the definitions, the op that
  -- the registry's factory of its type makes for each; the id of a definition, or its type where
  -- that is empty, leads to the definition's own place, so no two are the same; the dependencies of
  -- an op are the places of the ids that its definition lists, in their order; the aspects are the
  -- builder's, and the graph is valid.
  pub build_ops-IsBuiltFrom :
      (r : OpRegistry D) (aspects : List (OpAspect D)) (defs : List OpDef) (g : OpGraph D)
      → build_ops r aspects defs ≡ done g
      → IsBuiltFrom r aspects defs g
  unfolding build_ops
  build_ops-IsBuiltFrom r aspects defs g h =
      let start = add_aspects aspects empty_op_graph in
      let begun : start ≡ record empty_op_graph { aspects = aspects } =
        add_aspects_lem aspects empty_op_graph in
      let ((by_id, middle), first, rest) = >>=-eq-done (add_ops r defs [] start) _ h in
      let a = add_ops-Added r defs [] start by_id middle first in
      let none_yet : length start.ops ≡ 0 = ap (λ (x : OpGraph D). length x.ops) begun in
      let ix : Indexed 0 defs middle.by_id = rw none_yet at a.indexed in
      let w = wire_ops-AllWired by_id 0 defs middle g ix rest in
      record {
        valid = build_ops-IsValid r aspects defs g h;
        hooks = w.same.aspects ∙ a.aspects ∙ ap (λ (x : OpGraph D). x.aspects) begun;
        made =
            subst (Made r defs)
              (sym (w.same.ops ∙ a.all ∙ ap (λ (x : OpGraph D). x.ops ++ a.ops) begun)) a.made;
        indexed = λ i def at. ap (λ m. lookup text_dec (op_id def) m) w.same.by_id ∙ ix i def at;
        resolved = λ i def at.
            let (us, e, f) = w.resolved i def at in
            let first : 0 + i ≡ i = omega arith in
            let now : g.deps i ≡ middle.deps i ++ us = rw first at f in
            let bare : middle.deps i ≡ [] =
              ap (λ f. f i) (a.deps ∙ ap (λ (x : OpGraph D). x.deps) begun) in
            ap (λ m. map (λ id. lookup text_dec id m) def.deps) w.same.by_id
            ∙ e
            ∙ ap (map some) (sym (now ∙ ap (λ l. l ++ us) bare));
      }
