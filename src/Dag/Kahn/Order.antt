-- ===== src/Dag/Kahn/Order.antt =====
-- The order that the algorithm makes, and that it misses a node only if there is a cycle.
use lark.Base.{
  ℕ, zero, suc, ◌+◌, ◌≤◌, ◌<◌, ◌≡◌, ◌↔◌, refl, sym, ◌∙◌, false, Option, some, List, [], ◌∷◌, length,
  range, arith, ℕ_discrete, inl, inr, Bool-cases, dec_lt, ◌||◌,
}
use lark.Base.Dict.{contains, Distinct, remove}
use lark.Base.Dict.Laws.{contains-remove, remove-Distinct, length-remove}
use lark.Dag.Digraph.{Has, Has-range_from, Edge, Walk, IsOrdered, not-Walk}
use lark.Dag.Search.Decide.{cycle_or_order, Walk-end}
use lark.Dag.Kahn.{Counts, no_counts, count_all, start_nodes, kahn}
use lark.Dag.Kahn.Counting.{
  occurrences, unmet_start, unmet_of_Has, count_all_lem, contains-start_nodes, start_nodes-Distinct,
  Distinct-length, range-Distinct,
}
use lark.Dag.Kahn.Correct.{onto, Progress, ordered-Distinct, drain-Drained}

-- Read from the front, after the nodes of `seen`: no node twice, and each after its dependencies.
abbrev pub IsSorted : (ℕ → List ℕ) → List ℕ → List ℕ → Type 0
IsSorted deps seen [] = Unit {0}
IsSorted deps seen (x ∷ xs) =
    ((d : ℕ) → Edge deps x d → Has d seen)
    × (contains ℕ_discrete x seen ≡ false)
    × IsSorted deps (x ∷ seen) xs

length-onto : (xs ys : List ℕ) → length (onto xs ys) ≡ length xs + length ys
length-onto [] ys = omega arith
length-onto (x ∷ xs) ys = omega (arith, length-onto xs (x ∷ ys))

pub contains-onto :
    (v : ℕ) (xs ys : List ℕ)
    → contains ℕ_discrete v (onto xs ys) ≡ contains ℕ_discrete v xs || contains ℕ_discrete v ys
unfolding contains
contains-onto v [] ys = refl
contains-onto v (x ∷ xs) ys = ground (arith, contains-onto v xs (x ∷ ys))

-- All numbers below `n` take `n` places.
length-covering :
    (n : ℕ) (xs : List ℕ) → Distinct ℕ_discrete xs → ((v : ℕ) → v < n → Has v xs) → n ≤ length xs
length-covering zero xs d h = omega arith
length-covering (suc n) xs d h = omega (
  arith,
  length-remove ℕ_discrete n xs d (h n (omega arith)),
  length-covering n (remove ℕ_discrete n xs) (remove-Distinct ℕ_discrete n xs d)
      (λ v lt. ground (arith, contains-remove ℕ_discrete n v xs, h v (omega arith))),
)

module _ (deps : ℕ → List ℕ) where
  IsOrdered-back : (xs ys : List ℕ) → IsOrdered deps (onto xs ys) → IsOrdered deps ys
  IsOrdered-back [] ys o = o
  IsOrdered-back (x ∷ xs) ys o = (IsOrdered-back xs (x ∷ ys) o).2

  onto-IsSorted : (xs ys : List ℕ) → IsOrdered deps (onto xs ys) → IsSorted deps ys xs
  onto-IsSorted [] ys o = tt
  onto-IsSorted (x ∷ xs) ys o =
      let (met, absent, _) = IsOrdered-back xs (x ∷ ys) o in
      (met, absent, onto-IsSorted xs (x ∷ ys) o)

  pub onto-IsOrdered :
      (xs ys : List ℕ) → IsSorted deps ys xs → IsOrdered deps ys → IsOrdered deps (onto xs ys)
  onto-IsOrdered [] ys s o = o
  onto-IsOrdered (x ∷ xs) ys s o = onto-IsOrdered xs (x ∷ ys) s.2 (s.0, s.1, o)

  module _ (n : ℕ) (in_range : (u v : ℕ) → Edge deps u v → v < n)
      (beyond : (u : ℕ) → n ≤ u → deps u ≡ []) where
    -- What the algorithm makes: an order of exactly the nodes, each after its dependencies, or
    -- fewer nodes, and then there is a cycle.
    pub data KahnVerdict : Option (List ℕ) → Type 0 where
      sorted :
          (order : List ℕ)
          → IsSorted deps [] order
          → ((v : ℕ) → Has v order ↔ (v < n))
          → length order ≡ n
          → KahnVerdict (some order)
      stuck : (order : List ℕ) (v : ℕ) → length order < n → Walk deps v v → KahnVerdict (some order)

    -- Nodes whose dependencies can all be done are all done at the end.
    all_done :
        (finished : List ℕ) (d : ℕ → ℕ)
        → Progress deps n finished [] d
        → (order : List ℕ) → IsOrdered deps order
        → (v : ℕ) → v < n
        → Has v order
        → Has v finished
    unfolding contains
    all_done finished d p [] o v lt h = cc
    all_done finished d p (x ∷ xs) o v lt h = elim (ℕ_discrete v x) [
      | yes e ↦
          let met : (u : ℕ) → Has u (deps v) → Has u finished =
            λ u edge. all_done finished d p xs o.2 u (in_range v u edge) (o.0 u (rw (← e) edge)) in
          let zero_left : d v ≡ 0 = p.counted v ∙ unmet_of_Has finished (deps v) met in
          ground (arith, p.listed v lt zero_left)
      | no ne ↦ all_done finished d p xs o.2 v lt (ground arith)
    ]

    abbrev start_counts : Counts
    start_counts = count_all deps (range n) no_counts

    counts_lem :
        (u v : ℕ)
        → (start_counts.in_degree u ≡ length (deps u))
          × (occurrences u (start_counts.outs v) ≡ occurrences v (deps u))
    unfolding occurrences
    counts_lem u v =
        let (degree, out) = count_all_lem deps 0 n no_counts u v in
        elim (dec_lt u n) [
          | yes lt ↦ (ground arith, ground arith)
          | no ge ↦ let none_left = beyond u (omega arith) in (ground arith, ground arith)
        ]

    start-Progress :
        Progress deps n [] (start_nodes start_counts.in_degree (range n)) start_counts.in_degree
    unfolding contains
    start-Progress = record {
      ordered = tt;
      small = λ v h. cc;
      small_ready = λ v h. ground (
        arith,
        contains-start_nodes start_counts.in_degree (range n) v,
        (Has-range_from 0 n v).0,
      );
      counted = λ u. (counts_lem u 0).0 ∙ sym (unmet_start (deps u));
      zeros = λ u h. ground (arith, contains-start_nodes start_counts.in_degree (range n) u);
      listed = λ u lt e.
          let there = (Has-range_from 0 n u).1 (omega arith) (omega arith) in
          ground (arith, contains-start_nodes start_counts.in_degree (range n) u);
      distinct = start_nodes-Distinct start_counts.in_degree (range n) (range-Distinct 0 n);
      fresh = λ u h. refl;
    }

    final-KahnVerdict :
        (order : List ℕ) (d : ℕ → ℕ)
        → Progress deps n (onto order []) [] d
        → KahnVerdict (some order)
    unfolding contains
    final-KahnVerdict order d p =
        let distinct = ordered-Distinct deps n (onto order []) p.ordered in
        let sized = length-onto order [] in
        let listed : (v : ℕ) → contains ℕ_discrete v (onto order []) ≡ contains ℕ_discrete v order =
          λ v. ground (arith, contains-onto v order []) in
        elim (cycle_or_order deps n in_range) [
          | inl (all, ordered, covers) ↦
              let every : (v : ℕ) → v < n → Has v (onto order []) =
                λ v lt. all_done (onto order []) d p all ordered v lt (covers v lt) in
              sorted order (onto-IsSorted order [] p.ordered)
                (λ v. (λ h. p.small v (listed v ∙ h), λ lt. sym (listed v) ∙ every v lt))
                (omega (
                  arith,
                  sized,
                  Distinct-length n (onto order []) distinct p.small,
                  length-covering n (onto order []) distinct every,
                ))
          | inr (v, walk) ↦
              let (w, edge) = Walk-end walk in
              let absent : contains ℕ_discrete v (onto order []) ≡ false =
                elim (Bool-cases (contains ℕ_discrete v (onto order []))) [
                  | inl there ↦ absurd (not-Walk deps (onto order []) v p.ordered there walk)
                  | inr gone ↦ gone
                ] in
              let many =
                Distinct-length n (v ∷ onto order []) (absent, distinct)
                  (λ u h. ground (arith, p.small u, in_range w v edge)) in
              stuck order v (omega (arith, many, sized)) walk
        ]

    -- On nodes below n whose dependencies are such nodes, the algorithm ends within its fuel. The
    -- order that it makes has every node exactly once, each after all that it depends on; or it
    -- has fewer nodes, and then some node depends on itself through others.
    pub kahn-KahnVerdict : KahnVerdict (kahn deps n)
    unfolding kahn
    kahn-KahnVerdict =
        let c = start_counts in
        let drained =
          drain-Drained deps n c.outs beyond (λ u v. (counts_lem u v).1) n []
            (start_nodes c.in_degree (range n)) c.in_degree [] start-Progress (omega arith) in
        rw drained.result (final-KahnVerdict drained.rest drained.counts drained.final)
