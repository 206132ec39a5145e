-- ===== src/Dag/Search/Invariant.antt =====
-- What the search keeps: the finished nodes in the order in which they finished, last first, and
-- what the stack says of the nodes on it.
use lark.Base.{
  ℕ, zero, suc, ◌≤◌, ◌<◌, ◌≡◌, ◌↔◌, ◌⊎◌, refl, Option, none, some, List, [], ◌∷◌, get_elem?, arith,
  ℕ_discrete,
}
use lark.Base.Dict.{contains, keys, Distinct}
use lark.Base.Sums.{update}
use lark.Dag.Digraph.{Has, Has-get_elem?, index_of_Has, Edge, Walk, one, snoc, IsOrdered}
use lark.Dag.Search.{Mark, unvisited, in_stack, finished}

get_elem?-none : (xs : List ℕ) (k i : ℕ) → get_elem? xs k ≡ none → k ≤ i → get_elem? xs i ≡ none
get_elem?-none [] k i h le = refl
get_elem?-none (x ∷ xs) zero i h le = cc
get_elem?-none (x ∷ xs) (suc k) zero h le = absurd (omega arith)
get_elem?-none (x ∷ xs) (suc k) (suc i) h le = get_elem?-none xs k i h (omega arith)

module _ (deps : ℕ → List ℕ) where
  -- Of an entry `(v, k)` the first `k` dependencies are finished, but for the node above it, on
  -- which it depends.
  abbrev pub Linked : List ℕ → Option ℕ → ℕ → ℕ → Type 0
  Linked order above v k =
      ((j d : ℕ) → j < k → get_elem? (deps v) j ≡ some d → Has d order ⊎ (above ≡ some d))
      × ((a : ℕ) → above ≡ some a → Edge deps v a)

  abbrev pub Links : List ℕ → Option ℕ → List (ℕ × ℕ) → Type 0
  Links order above [] = Unit {0}
  Links order above ((v, k) ∷ rest) = Linked order above v k × Links order (some v) rest

  pub record Inv (order : List ℕ) (stack : List (ℕ × ℕ)) (marks : ℕ → Mark) : Type 0 where
    pub ordered : IsOrdered deps order
    pub finished_iff : (v : ℕ) → (marks v ≡ finished) ↔ Has v order
    pub in_stack_iff : (v : ℕ) → (marks v ≡ in_stack) ↔ Has v (keys stack)
    pub distinct : Distinct ℕ_discrete (keys stack)
    pub links : Links order none stack

  Links-grow :
      (order : List ℕ) (a : ℕ) (above : Option ℕ) (stack : List (ℕ × ℕ))
      → Links order above stack
      → Links (a ∷ order) above stack
  unfolding contains
  Links-grow order a above [] l = tt
  Links-grow order a above ((v, k) ∷ rest) l =
      ((λ j d lt e. ground (arith, l.0.0 j d lt e), l.0.1), Links-grow order a (some v) rest l.1)

  -- The node above finishes and goes.
  Links-pop :
      (order : List ℕ) (a : ℕ) (stack : List (ℕ × ℕ))
      → Links order (some a) stack
      → Links (a ∷ order) none stack
  unfolding contains
  Links-pop order a [] l = tt
  Links-pop order a ((v, k) ∷ rest) l = (
    (λ j d lt e. ground (arith, l.0.0 j d lt e), λ b e. cc),
    Links-grow order a (some v) rest l.1,
  )

  -- A node under `a` on the stack leads to it.
  pub reach_top :
      (order : List ℕ) (a u : ℕ) (stack : List (ℕ × ℕ))
      → Links order (some a) stack
      → Has u (keys stack)
      → Walk deps u a
  unfolding contains
  reach_top order a u [] l h = cc
  reach_top order a u ((v, k) ∷ rest) l h = elim (ℕ_discrete u v) [
    | yes e ↦ one (rw e (l.0.1 a refl))
    | no ne ↦ snoc (reach_top order v u rest l.1 (ground arith)) (l.0.1 a refl)
  ]

  module _ (order : List ℕ) (node index : ℕ) (rest : List (ℕ × ℕ)) (marks : ℕ → Mark)
      (inv : Inv order ((node, index) ∷ rest) marks) where
    -- All dependencies were seen: the node finishes.
    pub Inv-pop :
        get_elem? (deps node) index ≡ none → Inv (node ∷ order) rest (update marks node finished)
    unfolding contains
    Inv-pop h = record {
      ordered = (
        λ d e.
            let (i, found) = index_of_Has (deps node) d e in
            ground (arith, inv.links.0.0 i d, get_elem?-none (deps node) index i h),
        ground (arith, inv.finished_iff node, inv.in_stack_iff node),
        inv.ordered,
      );
      finished_iff = λ v. ground (arith, inv.finished_iff v);
      in_stack_iff = λ v. ground (arith, inv.in_stack_iff v, inv.distinct.0);
      distinct = inv.distinct.1;
      links = Links-pop order node rest inv.links.1;
    }

    module _ (next : ℕ) (here : get_elem? (deps node) index ≡ some next) where
      -- A dependency that was not visited goes on the stack.
      pub Inv-push :
          marks next ≡ unvisited
          → Inv order ((next, 0) ∷ (node, suc index) ∷ rest) (update marks next in_stack)
      unfolding contains
      Inv-push h = record {
        ordered = inv.ordered;
        finished_iff = λ v. ground (arith, inv.finished_iff v, inv.finished_iff next);
        in_stack_iff = λ v. ground (arith, inv.in_stack_iff v);
        distinct = (ground (arith, inv.in_stack_iff next), inv.distinct);
        links = (
          (λ j d lt e. absurd (omega arith), λ a e. cc),
          (
            (
              λ j d lt e. ground (arith, inv.links.0.0 j d),
              λ a e. ground (arith, Has-get_elem? (deps node) index next),
            ),
            inv.links.1,
          ),
        );
      }

      -- A dependency that is finished is passed.
      pub Inv-pass : marks next ≡ finished → Inv order ((node, suc index) ∷ rest) marks
      unfolding contains
      Inv-pass h = record {
        ordered = inv.ordered;
        finished_iff = inv.finished_iff;
        in_stack_iff = inv.in_stack_iff;
        distinct = inv.distinct;
        links = (
          (λ j d lt e. ground (arith, inv.links.0.0 j d, inv.finished_iff next), inv.links.0.1),
          inv.links.1,
        );
      }

      -- A dependency on the stack closes a cycle.
      pub Walk-back : marks next ≡ in_stack → Walk deps next next
      unfolding contains
      Walk-back h =
          let edge = (Has-get_elem? (deps node) index next here).0 in
          elim (ℕ_discrete next node) [
            | yes e ↦ one (rw (← e) at edge)
            | no ne ↦
                snoc
                  (reach_top order node next rest inv.links.1
                    (ground (arith, inv.in_stack_iff next)))
                  edge
          ]
