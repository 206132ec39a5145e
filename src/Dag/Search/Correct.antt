-- ===== src/Dag/Search/Correct.antt =====
-- The search ends within its fuel: without a cycle all nodes are finished, in an order in which
-- each stands before its dependencies, and where it throws there is a cycle.
use lark.Base.{
  ℕ, zero, suc, ◌≤◌, ◌<◌, ◌≡◌, ◌≢◌, ◌⊎◌, inl, inr, refl, List, [], ◌∷◌, get_elem?, arith,
  ℕ_discrete, Option-cases,
}
use lark.Base.Dict.{contains}
use lark.Base.Sums.{update}
use lark.Dag.Digraph.{Has, Has-get_elem?, Edge, Walk}
use lark.Dag.Search.{
  Mark, unvisited, in_stack, finished, Outcome, clear, cycle, out_of_fuel, visit, visit_all,
  search_fuel,
}
use lark.Dag.Search.Measure.{work, work-push, work-pop, work_start}
use lark.Dag.Search.Invariant.{Inv, Inv-pop, Inv-push, Inv-pass, Walk-back}

pub Mark-cases : (m : Mark) → (m ≡ unvisited) ⊎ ((m ≡ in_stack) ⊎ (m ≡ finished))
Mark-cases unvisited = inl refl
Mark-cases in_stack = inr (inl refl)
Mark-cases finished = inr (inr refl)

module _ (deps : ℕ → List ℕ) (n : ℕ) (in_range : (u v : ℕ) → Edge deps u v → v < n) where
  -- What a search from `marks` leads to: everything visited stays visited, or a cycle.
  pub data Verdict (marks : ℕ → Mark) : Outcome → Type 0 where
    acyclic :
        (order : List ℕ) (marks' : ℕ → Mark)
        → Inv deps order [] marks'
        → ((v : ℕ) → marks v ≢ unvisited → marks' v ≢ unvisited)
        → Verdict marks (clear marks')
    cyclic : (v : ℕ) → Walk deps v v → Verdict marks (cycle v)

  -- A verdict from later marks is one from earlier marks.
  Verdict-back :
      (marks later : ℕ → Mark) {o : Outcome}
      → ((v : ℕ) → marks v ≢ unvisited → later v ≢ unvisited)
      → Verdict later o
      → Verdict marks o
  Verdict-back marks later keep (acyclic order marks' inv kept) =
      acyclic order marks' inv (λ v h. kept v (keep v h))
  Verdict-back marks later keep (cyclic v walk) = cyclic v walk

  visited_update :
      (marks : ℕ → Mark) (u : ℕ) (m : Mark)
      → m ≢ unvisited
      → (v : ℕ) → marks v ≢ unvisited
      → update marks u m v ≢ unvisited
  visited_update marks u m h v k = elim (ℕ_discrete v u) [
    | yes e ↦ λ bad. h (ground arith)
    | no ne ↦ λ bad. k (ground arith)
  ]

  visit-Verdict :
      (fuel : ℕ) (order : List ℕ) (stack : List (ℕ × ℕ)) (marks : ℕ → Mark)
      → Inv deps order stack marks
      → work deps n stack marks ≤ fuel
      → Verdict marks (visit deps fuel stack marks)
  unfolding visit
  visit-Verdict zero order [] marks inv h = acyclic order marks inv (λ v k. k)
  visit-Verdict (suc fuel) order [] marks inv h = acyclic order marks inv (λ v k. k)
  visit-Verdict zero order ((node, index) ∷ rest) marks inv h = absurd (omega arith)
  visit-Verdict (suc fuel) order ((node, index) ∷ rest) marks inv h =
      elim (Option-cases (get_elem? (deps node) index)) [
        | inl over ↦
            rw (over, visit)
              (Verdict-back marks (update marks node finished)
                (visited_update marks node finished (λ e. cc))
                (visit-Verdict fuel (node ∷ order) rest (update marks node finished)
                  (Inv-pop deps order node index rest marks inv over)
                  (omega (arith, work-pop deps n node marks))))
        | inr (next, here) ↦
            let (edge, small) = Has-get_elem? (deps node) index next here in
            elim (Mark-cases (marks next)) [
              | inl new ↦
                  rw (here, visit, new)
                    (Verdict-back marks (update marks next in_stack)
                      (visited_update marks next in_stack (λ e. cc))
                      (visit-Verdict fuel order ((next, 0) ∷ (node, suc index) ∷ rest)
                        (update marks next in_stack)
                        (Inv-push deps order node index rest marks inv next here new)
                        (omega (arith, work-push deps n next marks (in_range node next edge) new))))
              | inr (inl back) ↦
                  rw (here, visit, back)
                    (cyclic next (Walk-back deps order node index rest marks inv next here back))
              | inr (inr old) ↦
                  rw (here, visit, old)
                    (visit-Verdict fuel order ((node, suc index) ∷ rest) marks
                      (Inv-pass deps order node index rest marks inv next here old) (omega arith))
            ]
      ]

  start-Inv :
      (order : List ℕ) (marks : ℕ → Mark) (start : ℕ)
      → Inv deps order [] marks
      → marks start ≡ unvisited
      → Inv deps order ((start, 0) ∷ []) (update marks start in_stack)
  unfolding contains
  start-Inv order marks start inv h = record {
    ordered = inv.ordered;
    finished_iff = λ v. ground (arith, inv.finished_iff v, inv.finished_iff start);
    in_stack_iff = λ v. ground (arith, inv.in_stack_iff v);
    distinct = (refl, tt);
    links = ((λ j d lt e. absurd (omega arith), λ a e. cc), tt);
  }

  -- The verdict on a whole list of start nodes: each of them is visited at the end.
  pub data VerdictAll (starts : List ℕ) (marks : ℕ → Mark) : Outcome → Type 0 where
    all_acyclic :
        (order : List ℕ) (marks' : ℕ → Mark)
        → Inv deps order [] marks'
        → ((v : ℕ) → marks v ≢ unvisited → marks' v ≢ unvisited)
        → ((v : ℕ) → Has v starts → marks' v ≢ unvisited)
        → VerdictAll starts marks (clear marks')
    one_cyclic : (v : ℕ) → Walk deps v v → VerdictAll starts marks (cycle v)

  -- One more start node, visited by the time that the rest begins.
  VerdictAll-cons :
      (starts : List ℕ) (start : ℕ) (marks later : ℕ → Mark) {o : Outcome}
      → ((v : ℕ) → marks v ≢ unvisited → later v ≢ unvisited)
      → later start ≢ unvisited
      → VerdictAll starts later o
      → VerdictAll (start ∷ starts) marks o
  unfolding contains
  VerdictAll-cons starts start marks later keep seen (all_acyclic order marks' inv kept visited) =
      all_acyclic order marks' inv (λ v h. kept v (keep v h))
        (λ v h. elim (ℕ_discrete v start) [
          | yes e ↦ rw e (kept start seen)
          | no ne ↦ visited v (ground arith)
        ])
  VerdictAll-cons starts start marks later keep seen (one_cyclic v walk) = one_cyclic v walk

  -- What the rest of the loop does with the outcome of one search.
  pub then_all : ℕ → List ℕ → Outcome → Outcome
  then_all fuel more o = elim o [
    | clear marks' ↦ visit_all deps fuel more marks'
    | cycle v ↦ cycle v
    | out_of_fuel ↦ out_of_fuel
  ]

  after_start :
      (fuel : ℕ) (more : List ℕ) (start : ℕ) (marks later : ℕ → Mark) {o : Outcome}
      → ((order : List ℕ) (marks' : ℕ → Mark)
          → Inv deps order [] marks'
          → VerdictAll more marks' (visit_all deps fuel more marks'))
      → ((v : ℕ) → marks v ≢ unvisited → later v ≢ unvisited)
      → later start ≢ unvisited
      → Verdict later o
      → VerdictAll (start ∷ more) marks (then_all fuel more o)
  unfolding then_all
  after_start fuel more start marks later all keep seen (acyclic order marks' inv kept) =
      VerdictAll-cons more start marks marks' (λ v h. kept v (keep v h)) (kept start seen)
        (all order marks' inv)
  after_start fuel more start marks later all keep seen (cyclic v walk) = one_cyclic v walk

  pub visit_all-VerdictAll :
      (fuel : ℕ) (starts order : List ℕ) (marks : ℕ → Mark)
      → search_fuel deps n ≤ fuel
      → ((v : ℕ) → Has v starts → v < n)
      → Inv deps order [] marks
      → VerdictAll starts marks (visit_all deps fuel starts marks)
  unfolding visit_all contains then_all
  visit_all-VerdictAll fuel [] order marks f small inv =
      all_acyclic order marks inv (λ v h. h) (λ v h. cc)
  visit_all-VerdictAll fuel (start ∷ more) order marks f small inv =
      let rest = λ (order' : List ℕ) (marks' : ℕ → Mark).
        visit_all-VerdictAll fuel more order' marks' f (λ v h. small v (ground arith)) in
      elim (Mark-cases (marks start)) [
        | inl new ↦
            rw (new, visit_all)
              (after_start fuel more start marks (update marks start in_stack) rest
                (visited_update marks start in_stack (λ e. cc)) (λ e. ground arith)
                (visit-Verdict fuel order ((start, 0) ∷ []) (update marks start in_stack)
                  (start-Inv order marks start inv new)
                  (omega (
                    arith,
                    work-push deps n start marks (small start (ground arith)) new,
                    work_start deps n marks,
                  ))))
        | inr (inl e) ↦
            rw (e, visit_all)
              (VerdictAll-cons more start marks marks (λ v h. h) (λ bad. cc) (rest order marks inv))
        | inr (inr e) ↦
            rw (e, visit_all)
              (VerdictAll-cons more start marks marks (λ v h. h) (λ bad. cc) (rest order marks inv))
      ]
