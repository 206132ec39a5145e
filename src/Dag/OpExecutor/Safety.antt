-- ===== src/Dag/OpExecutor/Safety.antt =====
-- What every run keeps, whatever the order of its steps: which ops have begun, and what the status
-- of an op tells of where it is.
use lark.Base.{
  ℕ, zero, suc, Option-cases, true, false, ◌≡◌, ◌≢◌, ◌⊎◌, ◌∙◌, sym, Bool, refl, Bool-cases, inl,
  inr, Option, List, arith, ℕ_discrete, if◌then◌else◌,
}
use lark.Base.Int.{ℤ}
use lark.Base.Sums.{update}
use lark.Metric.{Event}
use lark.Dag.Digraph.{Edge}
use lark.Dag.OpGraph.{OpStatus, running, success, skipped, failed, Op, OpGraph}
use lark.Dag.OpExecutor.{
  Phase, waiting, inside, over, threw, canceled, HasFailed, Run, any_skips, all_before, all_after,
  begin_op, finish_op, cancel_op, start_run, Step, begins, finishes, cancels, Steps, here, then_,
}

abbrev pub IsFinal : OpStatus → Type 0
IsFinal st = (st ≡ success) ⊎ ((st ≡ skipped) ⊎ (st ≡ failed))

-- The status when a hook has thrown: before the op is executed, or after that.
abbrev pub IsThrown : OpStatus → Type 0
IsThrown st = (st ≡ running) ⊎ ((st ≡ success) ⊎ (st ≡ failed))

-- What a step of RunOp may leave an op with.
abbrev pub Fits : Phase → OpStatus → Type 0
Fits waiting st = ⊥
Fits inside st = st ≡ running
Fits over st = IsFinal st
Fits threw st = IsThrown st
Fits canceled st = ⊥

-- RunOp has begun.
abbrev pub has_begun : Phase → Bool
has_begun waiting = false
has_begun inside = true
has_begun over = true
has_begun threw = true
has_begun canceled = false

module _ {D : Type 0} (g : OpGraph D) where
  -- `before` are the statuses at the start of the run.
  pub record IsSafe (before : ℕ → OpStatus) (s : Run D) : Type 0 where
    pub met : (v d : ℕ) → has_begun (s.phase v) ≡ true → Edge g.deps v d → s.phase d ≡ over
    pub unmet : (v : ℕ) → s.phase v ≡ canceled → (d : ℕ) × Edge g.deps v d × HasFailed (s.phase d)
    pub unbegun : (v : ℕ) → has_begun (s.phase v) ≡ false → s.status v ≡ before v
    pub begun : (v : ℕ) → has_begun (s.phase v) ≡ true → Fits (s.phase v) (s.status v)

  -- The phase and the status of one op change together.
  pub record Moved (v : ℕ) (p : Phase) (st : OpStatus) (s t : Run D) : Type 0 where
    pub phase : (u : ℕ) → t.phase u ≡ update s.phase v p u
    pub status : (u : ℕ) → t.status u ≡ update s.status v st u

  -- An op has moved within RunOp.
  pub record Ran (v : ℕ) (s t : Run D) : Type 0 where
    pub at : Phase
    pub st : OpStatus
    pub has_run : has_begun at ≡ true
    pub fits : Fits at st
    pub moved : Moved v at st s t

  pub begin_op-Ran : (op : Op D) (v : ℕ) (s : Run D) → Ran v s (begin_op g.aspects op v s)
  unfolding begin_op
  begin_op-Ran op v s = elim (Option-cases (any_skips g.aspects op s.data_of)) [
    | inl e ↦
        rw (e, begin_op)
          (record {
            at = threw;
            st = running;
            has_run = refl;
            fits = inl refl;
            moved = record { phase = λ u. refl; status = λ u. refl };
          })
    | inr (true, e) ↦
        rw (e, begin_op)
          (record {
            at = over;
            st = skipped;
            has_run = refl;
            fits = inr (inl refl);
            moved = record { phase = λ u. refl; status = λ u. refl };
          })
    | inr (false, e) ↦
        rw (e, begin_op)
          (elim (Bool-cases (all_before g.aspects op s.data_of).1) [
            | inl b ↦
                rw (b, begin_op)
                  (record {
                    at = inside;
                    st = running;
                    has_run = refl;
                    fits = refl;
                    moved = record { phase = λ u. refl; status = λ u. refl };
                  })
            | inr b ↦
                rw (b, begin_op)
                  (record {
                    at = threw;
                    st = running;
                    has_run = refl;
                    fits = inl refl;
                    moved = record { phase = λ u. refl; status = λ u. refl };
                  })
          ])
  ]

  -- Afterwards the future is resolved.
  pub finish_op-Ran :
      (elapsed : ℤ) (op : Op D) (v : ℕ) (s : Run D)
      → (r : Ran v s (finish_op elapsed g.aspects op v s)) × (r.at ≢ inside)
  unfolding finish_op
  finish_op-Ran elapsed op v s =
      let st = if (op.execute s.data_of).1 then success else failed in
      elim (Bool-cases (all_after g.aspects op st (op.execute s.data_of).0).1) [
        | inl b ↦
            rw (b, finish_op)
              (
                record {
                  at = over;
                  st = st;
                  has_run = refl;
                  fits = ground arith;
                  moved = record { phase = λ u. refl; status = λ u. refl };
                },
                λ e. cc,
              )
        | inr b ↦
            rw (b, finish_op)
              (
                record {
                  at = threw;
                  st = st;
                  has_run = refl;
                  fits = ground arith;
                  moved = record { phase = λ u. refl; status = λ u. refl };
                },
                λ e. cc,
              )
      ]

  unfinished : (s : Run D) (v : ℕ) → (s.phase v ≡ waiting) ⊎ (s.phase v ≡ inside) → s.phase v ≢ over
  unfinished s v (inl wait) h = ground (arith, wait, h)
  unfinished s v (inr work) h = ground (arith, work, h)

  -- A move within RunOp keeps the invariant: the dependencies are over, and the op is not.
  Ran-IsSafe :
      (before : ℕ → OpStatus) (v : ℕ) (s t : Run D)
      → IsSafe before s
      → ((d : ℕ) → Edge g.deps v d → s.phase d ≡ over)
      → (s.phase v ≡ waiting) ⊎ (s.phase v ≡ inside)
      → Ran v s t
      → IsSafe before t
  Ran-IsSafe before v s t safe deps_over early r =
      let elsewhere : (u : ℕ) → u ≢ v → t.phase u ≡ s.phase u =
        λ u ne. ground (arith, r.moved.phase u, ne) in
      let kept : (u : ℕ) → u ≢ v → t.status u ≡ s.status u =
        λ u ne. ground (arith, r.moved.status u, ne) in
      let own : t.phase v ≡ r.at = ground (arith, r.moved.phase v) in
      let own_status : t.status v ≡ r.st = ground (arith, r.moved.status v) in
      let not_v : (d : ℕ) → s.phase d ≡ over → d ≢ v = λ d h e. unfinished s v early (rw e at h) in
      record {
        met = λ u d h e. elim (ℕ_discrete u v) [
          | yes same ↦ let ready = deps_over d (rw same at e) in elsewhere d (not_v d ready) ∙ ready
          | no ne ↦
              let ready = safe.met u d (rw (elsewhere u ne) at h) e in
              elsewhere d (not_v d ready) ∙ ready
        ];
        unmet = λ u h. elim (ℕ_discrete u v) [
          | yes same ↦ absurd (ground (arith, r.has_run, own, h, same))
          | no ne ↦
              let (d, edge, bad) = safe.unmet u (sym (elsewhere u ne) ∙ h) in
              (
                d,
                edge,
                rw
                    (elsewhere d (λ e. elim early [
                      | inl wait ↦ ground (arith, wait, e, bad)
                      | inr work ↦ ground (arith, work, e, bad)
                    ]))
                    bad,
              )
        ];
        unbegun = λ u h. elim (ℕ_discrete u v) [
          | yes same ↦ absurd (ground (arith, r.has_run, own, h, same))
          | no ne ↦ kept u ne ∙ safe.unbegun u (rw (elsewhere u ne) at h)
        ];
        begun = λ u h. elim (ℕ_discrete u v) [
          | yes same ↦ rw same (rw own (rw own_status r.fits))
          | no ne ↦ rw (elsewhere u ne) (rw (kept u ne) (safe.begun u (rw (elsewhere u ne) at h)))
        ];
      }

  cancel_op-IsSafe :
      (before : ℕ → OpStatus) (v d : ℕ) (s : Run D)
      → IsSafe before s
      → s.phase v ≡ waiting
      → Edge g.deps v d
      → HasFailed (s.phase d)
      → IsSafe before (cancel_op v s)
  unfolding cancel_op
  cancel_op-IsSafe before v d s safe wait edge bad =
      let t = cancel_op v s in
      let elsewhere : (u : ℕ) → u ≢ v → t.phase u ≡ s.phase u = λ u ne. ground (arith, ne) in
      let own : t.phase v ≡ canceled = ground arith in
      let still_failed : (w : ℕ) → HasFailed (s.phase w) → HasFailed (t.phase w) =
        λ w h. rw (elsewhere w (λ e. ground (arith, wait, e, h))) h in
      record {
        met = λ u w h e. elim (ℕ_discrete u v) [
          | yes same ↦ absurd (ground (arith, own, h, same))
          | no ne ↦
              let ready = safe.met u w (rw (elsewhere u ne) at h) e in
              elsewhere w (λ same. ground (arith, wait, same, ready)) ∙ ready
        ];
        unmet = λ u h. elim (ℕ_discrete u v) [
          | yes same ↦ (d, rw same edge, still_failed d bad)
          | no ne ↦
              let (w, e, k) = safe.unmet u (sym (elsewhere u ne) ∙ h) in (w, e, still_failed w k)
        ];
        unbegun = λ u h. elim (ℕ_discrete u v) [
          | yes same ↦ safe.unbegun u (rw (same, wait) refl)
          | no ne ↦ safe.unbegun u (rw (elsewhere u ne) at h)
        ];
        begun = λ u h. elim (ℕ_discrete u v) [
          | yes same ↦ absurd (ground (arith, own, h, same))
          | no ne ↦ rw (elsewhere u ne) (safe.begun u (rw (elsewhere u ne) at h))
        ];
      }

  Step-IsSafe :
      (before : ℕ → OpStatus) (s : Run D) {t : Run D}
      → IsSafe before s
      → Step g s t
      → IsSafe before t
  Step-IsSafe before s safe (begins v op is_op wait deps_over) =
      Ran-IsSafe before v s (begin_op g.aspects op v s) safe deps_over (inl wait)
        (begin_op-Ran op v s)
  Step-IsSafe before s safe (finishes v op elapsed is_op work) =
      Ran-IsSafe before v s (finish_op elapsed g.aspects op v s) safe
        (λ d e. safe.met v d (rw work refl) e) (inr work) (finish_op-Ran elapsed op v s).0
  Step-IsSafe before s safe (cancels v op d is_op wait edge bad) =
      cancel_op-IsSafe before v d s safe wait edge bad

  Steps-IsSafe :
      (before : ℕ → OpStatus) (n : ℕ) (s : Run D) {t : Run D}
      → IsSafe before s
      → Steps g s n t
      → IsSafe before t
  Steps-IsSafe before zero s safe here = safe
  Steps-IsSafe before (suc n) s safe (then_ {t = t} steps step) =
      Step-IsSafe before t (Steps-IsSafe before n s safe steps) step

  start_run-IsSafe :
      (before : ℕ → OpStatus) (d : D) (m : Option (List Event))
      → IsSafe before (start_run before d m)
  start_run-IsSafe before d m = record {
    met = λ u w h e. cc;
    unmet = λ v h. cc;
    unbegun = λ v h. refl;
    begun = λ v h. cc;
  }

  -- In every state that a run reaches, in whatever order the pool takes the steps: RunOp has begun
  -- for an op only if all ops that it depends on are over; an op is canceled only if a hook of an
  -- op that it depends on has thrown, or that op is canceled; an op for which RunOp has not begun
  -- has the status of before the run, one that is executed is running, one that is over succeeded,
  -- was skipped or failed, and one whose hook has thrown is still running, succeeded or failed.
  pub run-IsSafe :
      (before : ℕ → OpStatus) (d : D) (m : Option (List Event)) (n : ℕ) (t : Run D)
      → Steps g (start_run before d m) n t
      → IsSafe before t
  run-IsSafe before d m n t steps =
      Steps-IsSafe before n (start_run before d m) (start_run-IsSafe before d m) steps
