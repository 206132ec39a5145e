-- ===== src/Dag/Kahn/Correct.antt =====
-- The loop of the algorithm ends within its fuel. The order that it makes lists every node after
-- its dependencies, and all nodes unless there is a cycle.
use mathlib.Core.List.{append_assoc, append-nil}
use lark.Base.{
  ℕ, zero, suc, ◌+◌, ◌≤◌, ◌<◌, ◌≡◌, ◌⊎◌, sym, ap, ◌∙◌, false, Option, some, List, [], ◌∷◌, ◌++◌,
  length, dec_lt, arith, ℕ_discrete, inl, inr,
}
use lark.Base.Dict.{contains, Distinct}
use lark.Dag.Digraph.{Has, IsOrdered}
use lark.Dag.Kahn.{release, drain}
use lark.Dag.Kahn.Counting.{
  occurrences, unmet, unmet_step, Has-unmet, unmet_of_Has, Distinct-length,
}
use lark.Dag.Kahn.Release.{release-Released}

-- A list onto the nodes that are done, the last first.
abbrev pub onto : List ℕ → List ℕ → List ℕ
onto [] finished = finished
onto (x ∷ xs) finished = onto xs (x ∷ finished)

module _ (deps : ℕ → List ℕ) (n : ℕ) where
  -- The queue and the counts when the nodes of `finished` are done.
  pub record Progress (finished ready : List ℕ) (d : ℕ → ℕ) : Type 0 where
    pub ordered : IsOrdered deps finished
    pub small : (v : ℕ) → Has v finished → v < n
    pub small_ready : (v : ℕ) → Has v ready → v < n
    pub counted : (u : ℕ) → d u ≡ unmet finished (deps u)
    pub zeros : (u : ℕ) → Has u ready → d u ≡ 0
    pub listed : (u : ℕ) → u < n → d u ≡ 0 → Has u ready ⊎ Has u finished
    pub distinct : Distinct ℕ_discrete ready
    pub fresh : (u : ℕ) → Has u ready → contains ℕ_discrete u finished ≡ false

  ordered-deps :
      (finished : List ℕ) (v d : ℕ)
      → IsOrdered deps finished
      → Has v finished
      → Has d (deps v)
      → Has d finished
  unfolding contains
  ordered-deps [] v d o h e = cc
  ordered-deps (x ∷ xs) v d o h e = ground (arith, o.0 d, ordered-deps xs v d o.2)

  pub ordered-Distinct : (xs : List ℕ) → IsOrdered deps xs → Distinct ℕ_discrete xs
  ordered-Distinct [] o = tt
  ordered-Distinct (x ∷ xs) o = (o.1, ordered-Distinct xs o.2)

  module _ (outs : ℕ → List ℕ) (beyond : (u : ℕ) → n ≤ u → deps u ≡ [])
      (out : (u v : ℕ) → occurrences u (outs v) ≡ occurrences v (deps u)) where
    busy-small :
        (finished : List ℕ) (d : ℕ → ℕ)
        → ((u : ℕ) → d u ≡ unmet finished (deps u))
        → (v : ℕ) → 0 < d v
        → v < n
    unfolding unmet
    busy-small finished d counted v positive = elim (dec_lt v n) [
      | yes lt ↦ lt
      | no ge ↦ absurd (omega (arith, counted v, ap (unmet finished) (beyond v (omega arith))))
    ]

    -- A node that is taken off the queue is done.
    Progress-step :
        (finished ready : List ℕ) (node : ℕ) (d : ℕ → ℕ)
        → Progress finished (node ∷ ready) d
        → Progress (node ∷ finished) (release (outs node) ready d).0 (release (outs node) ready d).1
    unfolding contains
    Progress-step finished ready node d p =
        let absent : contains ℕ_discrete node finished ≡ false = p.fresh node (ground arith) in
        let r =
          release-Released (outs node) ready d
            (λ u. omega (arith, out u node, unmet_step node finished (deps u) absent, p.counted u))
            (λ u h. p.zeros u (ground arith)) p.distinct.1 in
        let met : (e : ℕ) → Has e (deps node) → Has e finished =
          Has-unmet finished (deps node)
            (omega (arith, p.counted node, p.zeros node (ground arith))) in
        let idle : (u : ℕ) → Has u finished → d u ≡ 0 = λ u h.
          p.counted u
          ∙ unmet_of_Has finished (deps u) (λ e. ordered-deps finished u e p.ordered h) in
        record {
          ordered = (met, absent, p.ordered);
          small = λ v h. ground (arith, p.small v, p.small_ready v);
          small_ready = λ v h. elim (r.only v h) [
            | inl old ↦ p.small_ready v (ground (arith, old))
            | inr (positive, done) ↦ busy-small finished d p.counted v positive
          ];
          counted = λ u. omega (
            arith,
            r.counted u,
            out u node,
            unmet_step node finished (deps u) absent,
            p.counted u,
          );
          zeros = λ u h. ground (arith, r.only u h, p.zeros u, r.counted u);
          listed = λ u lt e. ground (arith, p.listed u lt, r.kept u, r.entered u);
          distinct = r.distinct;
          fresh = λ u h. ground (
            arith,
            r.only u h,
            p.fresh u,
            p.distinct.0,
            p.zeros u,
            p.zeros node (ground arith),
            idle u,
          );
        }

    pub record Drained (finished : List ℕ) (order : List ℕ) (o : Option (List ℕ)) : Type 0 where
      pub rest : List ℕ
      pub counts : ℕ → ℕ
      pub result : o ≡ some (order ++ rest)
      pub final : Progress (onto rest finished) [] counts

    pub drain-Drained :
        (fuel : ℕ) (finished ready : List ℕ) (d : ℕ → ℕ) (order : List ℕ)
        → Progress finished ready d
        → n ≤ fuel + length finished
        → Drained finished order (drain fuel outs ready d order)
    unfolding drain contains
    drain-Drained fuel finished [] d order p h = record {
      rest = [];
      counts = d;
      result = ap some (sym (append-nil order));
      final = p;
    }
    drain-Drained zero finished (node ∷ ready) d order p h =
        let many =
          Distinct-length n (node ∷ finished)
            (p.fresh node (ground arith), ordered-Distinct finished p.ordered)
            (λ v e. ground (arith, p.small v, p.small_ready v)) in
        absurd (omega (arith, many))
    drain-Drained (suc fuel) finished (node ∷ ready) d order p h =
        let ih =
          drain-Drained fuel (node ∷ finished) (release (outs node) ready d).0
            (release (outs node) ready d).1 (order ++ node ∷ [])
            (Progress-step finished ready node d p) (omega arith) in
        record {
          rest = node ∷ ih.rest;
          counts = ih.counts;
          result = ih.result ∙ ap some (append_assoc order (node ∷ []) ih.rest);
          final = ih.final;
        }
