-- ===== src/Dag/OpExecutor/Progress.antt =====
-- A run neither gets stuck nor goes on for ever: every step brings an op nearer to its end, and
-- while the future of an op is not resolved, some step is possible.
use lark.Base.{
  ℕ, zero, suc, ◌+◌, ◌*◌, ◌≤◌, ◌<◌, ◌≡◌, ◌⊎◌, ◌≢◌, refl, true, ℕ_discrete, inl, inr, Option, List,
  [], ◌∷◌, length, get_elem?_of_lt, lt-length_of_get_elem?, arith,
}
use lark.Base.Dict.{contains}
use lark.Base.Int.{pos}
use lark.Base.Sums.{sum_below, sum_below_change, update}
use lark.Metric.{Event}
use lark.Dag.Digraph.{Has}
use lark.Dag.Kahn.Order.{IsSorted}
use lark.Dag.OpGraph.{OpStatus, OpGraph}
use lark.Dag.OpGraph.Valid.{IsOrder}
use lark.Dag.OpExecutor.{
  Phase, waiting, inside, over, threw, canceled, HasFailed, Run, begin_op, finish_op, cancel_op,
  start_run, Step, begins, finishes, cancels, Steps, here, then_,
}
use lark.Dag.OpExecutor.Safety.{has_begun, begin_op-Ran, finish_op-Ran}

-- The steps that an op has before it.
abbrev pub left : Phase → ℕ
left waiting = 2
left inside = 1
left over = 0
left threw = 0
left canceled = 0

-- The future is resolved, with a value or with an error.
abbrev pub IsResolved : Phase → Type 0
IsResolved p = (p ≡ over) ⊎ HasFailed p

Phase-cases : (p : Phase) → (p ≡ waiting) ⊎ ((p ≡ inside) ⊎ IsResolved p)
Phase-cases waiting = inl refl
Phase-cases inside = inr (inl refl)
Phase-cases over = inr (inr (inl refl))
Phase-cases threw = inr (inr (inr (inl refl)))
Phase-cases canceled = inr (inr (inr (inr refl)))

left_le : (p : Phase) → left p ≤ 2
left_le waiting = omega arith
left_le inside = omega arith
left_le over = omega arith
left_le threw = omega arith
left_le canceled = omega arith

has_begun_left : (p : Phase) → has_begun p ≡ true → left p ≤ 1
has_begun_left waiting h = cc
has_begun_left inside h = omega arith
has_begun_left over h = omega arith
has_begun_left threw h = omega arith
has_begun_left canceled h = omega arith

past_inside : (p : Phase) → has_begun p ≡ true → p ≢ inside → left p ≡ 0
past_inside waiting h ne = cc
past_inside inside h ne = absurd (ne refl)
past_inside over h ne = refl
past_inside threw h ne = refl
past_inside canceled h ne = refl

module _ {D : Type 0} (g : OpGraph D) where
  abbrev pub all_left : Run D → ℕ
  all_left s = sum_below (length g.ops) (λ v. left (s.phase v))

  all_left_less :
      (v : ℕ) (p : Phase) (s t : Run D)
      → v < length g.ops
      → left p < left (s.phase v)
      → ((u : ℕ) → t.phase u ≡ update s.phase v p u)
      → all_left t < all_left s
  all_left_less v p s t lt fewer m =
      let change =
        sum_below_change (length g.ops) v (λ u. left (t.phase u)) (λ u. left (s.phase u)) lt
          (λ u ne. ground (arith, m u)) in
      let now : left (t.phase v) ≡ left p = ground (arith, m v) in omega (arith, change, now, fewer)

  Step-all_left : (s : Run D) {t : Run D} → Step g s t → all_left t < all_left s
  unfolding cancel_op
  Step-all_left s (begins v op is_op wait deps_over) =
      let r = begin_op-Ran g op v s in
      all_left_less v r.at s (begin_op g.aspects op v s) (lt-length_of_get_elem? g.ops v op is_op)
        (rw wait (omega (arith, has_begun_left r.at r.has_run))) r.moved.phase
  Step-all_left s (finishes v op elapsed is_op work) =
      let (r, past) = finish_op-Ran g elapsed op v s in
      all_left_less v r.at s (finish_op elapsed g.aspects op v s)
        (lt-length_of_get_elem? g.ops v op is_op)
        (rw work (omega (arith, past_inside r.at r.has_run past))) r.moved.phase
  Step-all_left s (cancels v op d is_op wait edge bad) =
      all_left_less v canceled s (cancel_op v s) (lt-length_of_get_elem? g.ops v op is_op)
        (rw wait (omega arith)) (λ u. refl)

  Steps-all_left : (n : ℕ) (s : Run D) {t : Run D} → Steps g s n t → n + all_left t ≤ all_left s
  Steps-all_left zero s here = omega arith
  Steps-all_left (suc n) s (then_ {t = t} steps step) =
      omega (arith, Steps-all_left n s steps, Step-all_left t step)

  -- Of resolved futures all have a value, or one has an error.
  over_or_failed :
      (s : Run D) (ds : List ℕ)
      → ((d : ℕ) → Has d ds → IsResolved (s.phase d))
      → ((d : ℕ) → Has d ds → s.phase d ≡ over) ⊎ ((d : ℕ) × Has d ds × HasFailed (s.phase d))
  unfolding contains
  over_or_failed s [] h = inl (λ d k. cc)
  over_or_failed s (x ∷ xs) h = elim (h x (ground arith)) [
    | inr bad ↦ inr (x, ground arith, bad)
    | inl done ↦ elim (over_or_failed s xs (λ d k. h d (ground (arith, k)))) [
      | inr (d, k, bad) ↦ inr (d, ground (arith, k), bad)
      | inl rest ↦ inl (λ d k. elim (ℕ_discrete d x) [
        | yes e ↦ rw e done
        | no ne ↦ rest d (ground (arith, k, ne))
      ])
    ]
  ]

  -- Through the rest of an order, with the futures of all before it resolved.
  scan :
      (s : Run D) (seen rest : List ℕ)
      → ((v : ℕ) → Has v seen → IsResolved (s.phase v))
      → ((v : ℕ) → Has v rest → v < length g.ops)
      → IsSorted g.deps seen rest
      → ((v : ℕ) → Has v rest → IsResolved (s.phase v)) ⊎ ((t : Run D) × Step g s t)
  unfolding contains
  scan s seen [] before small o = inl (λ v h. cc)
  scan s seen (x ∷ xs) before small o =
      let (op, is_op) = get_elem?_of_lt g.ops x (small x (ground arith)) in
      elim (Phase-cases (s.phase x)) [
        | inl wait ↦ elim (over_or_failed s (g.deps x) (λ d e. before d (o.0 d e))) [
          | inl deps_over ↦ inr (begin_op g.aspects op x s, begins x op is_op wait deps_over)
          | inr (d, edge, bad) ↦ inr (cancel_op x s, cancels x op d is_op wait edge bad)
        ]
        | inr (inl work) ↦
            inr (finish_op (pos 0) g.aspects op x s, finishes x op (pos 0) is_op work)
        | inr (inr done) ↦
            elim (scan s (x ∷ seen) xs
              (λ v h. elim (ℕ_discrete v x) [
                | yes e ↦ rw e done
                | no ne ↦ before v (ground (arith, h, ne))
              ])
              (λ v h. small v (ground arith)) o.2) [
                | inr next ↦ inr next
                | inl rest ↦ inl (λ v h. elim (ℕ_discrete v x) [
                  | yes e ↦ rw e done
                  | no ne ↦ rest v (ground (arith, h, ne))
                ])
              ]
      ]

  abbrev pub AllResolved : Run D → Type 0
  AllResolved s = (v : ℕ) → v < length g.ops → IsResolved (s.phase v)

  resolved_or_Step :
      (s : Run D) (order : List ℕ)
      → IsOrder g.deps (length g.ops) order
      → AllResolved s ⊎ ((t : Run D) × Step g s t)
  unfolding contains
  resolved_or_Step s order o = elim (scan s [] order (λ v h. cc) (λ v. (o.covers v).0) o.sorted) [
    | inl all ↦ inl (λ v lt. all v ((o.covers v).1 lt))
    | inr next ↦ inr next
  ]

  all_left_start : (n : ℕ) (s : Run D) → sum_below n (λ v. left (s.phase v)) ≤ 2 * n
  unfolding sum_below
  all_left_start zero s = omega arith
  all_left_start (suc n) s =
      let at : left (s.phase n) ≤ 2 = left_le (s.phase n) in omega (arith, all_left_start n s, at)

  -- A run of a compiled graph takes at most two steps for each op, in whatever order the pool takes
  -- them, and does not get stuck: as long as the future of some op is not resolved, with a value or
  -- with an error, there is a next step.
  pub run_ends :
      (order : List ℕ) (before : ℕ → OpStatus) (d : D) (m : Option (List Event)) (n : ℕ) (t : Run D)
      → IsOrder g.deps (length g.ops) order
      → Steps g (start_run before d m) n t
      → (n ≤ 2 * length g.ops) × (AllResolved t ⊎ ((u : Run D) × Step g t u))
  run_ends order before d m n t o steps = (
    omega (
      arith,
      Steps-all_left n (start_run before d m) steps,
      all_left_start (length g.ops) (start_run before d m),
    ),
    resolved_or_Step t order o,
  )
