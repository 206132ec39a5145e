-- ===== src/Dag/Kahn/Release.antt =====
-- The inner loop of the algorithm: every dependent of a finished node has one dependency less for
-- each time that it depends on the node, and is ready when none is left.
use lark.Base.{
  ℕ, zero, suc, ◌+◌, ◌≤◌, ◌<◌, ◌≡◌, ◌==◌, ◌⊎◌, false, List, [], ◌∷◌, ◌++◌, arith, ℕ_discrete,
  if◌then◌else◌, ◌||◌, inl,
}
use lark.Base.Dict.{contains, Distinct}
use lark.Base.Dict.Laws.{contains-append, Distinct-concat}
use lark.Base.Sums.{update}
use lark.Dag.Digraph.{Has}
use lark.Dag.Kahn.{decrement, release}
use lark.Dag.Kahn.Counting.{occurrences}

-- What is ready after the loop, `(ready', d')`, against what was before.
pub record Released (nexts ready : List ℕ) (d : ℕ → ℕ) (r : List ℕ × (ℕ → ℕ)) : Type 0 where
  pub counted : (u : ℕ) → r.1 u + occurrences u nexts ≡ d u
  pub kept : (u : ℕ) → Has u ready → Has u r.0
  pub entered : (u : ℕ) → 0 < d u → r.1 u ≡ 0 → Has u r.0
  pub only : (u : ℕ) → Has u r.0 → Has u ready ⊎ ((0 < d u) × (r.1 u ≡ 0))
  pub distinct : Distinct ℕ_discrete r.0

pub decrement_lem : (d : ℕ) → 0 < d → decrement d + 1 ≡ d
unfolding decrement
decrement_lem zero h = absurd (omega arith)
decrement_lem (suc d) h = omega arith

-- One round: `next` loses a dependency.
module _ (next : ℕ) (nexts ready : List ℕ) (d : ℕ → ℕ)
    (enough : (u : ℕ) → occurrences u (next ∷ nexts) ≤ d u)
    (zeros : (u : ℕ) → Has u ready → d u ≡ 0) where
  abbrev fewer : ℕ → ℕ
  fewer = update d next (decrement (d next))

  abbrev pushed : List ℕ
  pushed = if decrement (d next) == 0 then ready ++ next ∷ [] else ready

  next_lem : decrement (d next) + 1 ≡ d next
  unfolding occurrences
  next_lem = decrement_lem (d next) (ground (arith, enough next))

  fewer-enough : (u : ℕ) → occurrences u nexts ≤ fewer u
  unfolding occurrences
  fewer-enough u = ground (arith, enough u, next_lem)

  contains-pushed :
      (u : ℕ)
      → contains ℕ_discrete u pushed
        ≡ contains ℕ_discrete u ready
          || (if decrement (d next) == 0 then contains ℕ_discrete u (next ∷ []) else false)
  contains-pushed u = ground (arith, contains-append ℕ_discrete u ready (next ∷ []))

  pushed-zeros : (u : ℕ) → Has u pushed → fewer u ≡ 0
  unfolding contains
  pushed-zeros u h = ground (arith, contains-pushed u, zeros u, next_lem)

  pushed-Distinct : Distinct ℕ_discrete ready → Distinct ℕ_discrete pushed
  pushed-Distinct distinct =
      let absent : contains ℕ_discrete next ready ≡ false = ground (arith, zeros next, next_lem) in
      ground (arith, Distinct-concat ℕ_discrete ready next distinct absent)

  Released-cons :
      {r : List ℕ × (ℕ → ℕ)} → Released nexts pushed fewer r → Released (next ∷ nexts) ready d r
  unfolding occurrences contains
  Released-cons {r} ih = record {
    counted = λ u. ground (arith, ih.counted u, next_lem);
    kept = λ u h. ih.kept u (ground (arith, contains-pushed u));
    entered = λ u h e. ground (arith, ih.entered u, ih.kept u, contains-pushed u, next_lem);
    only =
        λ u h. ground (arith, ih.only u, contains-pushed u, ih.counted u, next_lem, pushed-zeros u);
    distinct = ih.distinct;
  }

pub release-Released :
    (nexts ready : List ℕ) (d : ℕ → ℕ)
    → ((u : ℕ) → occurrences u nexts ≤ d u)
    → ((u : ℕ) → Has u ready → d u ≡ 0)
    → Distinct ℕ_discrete ready
    → Released nexts ready d (release nexts ready d)
unfolding release occurrences
release-Released [] ready d enough zeros distinct = record {
  counted = λ u. omega arith;
  kept = λ u h. h;
  entered = λ u h e. absurd (omega arith);
  only = λ u h. inl h;
  distinct = distinct;
}
release-Released (next ∷ nexts) ready d enough zeros distinct =
    Released-cons next nexts ready d enough zeros (
      release-Released nexts (pushed next nexts ready d enough zeros)
        (fewer next nexts ready d enough zeros) (fewer-enough next nexts ready d enough zeros)
        (pushed-zeros next nexts ready d enough zeros)
        (pushed-Distinct next nexts ready d enough zeros distinct))
