-- ===== src/Column/Compute/Negation.antt =====
-- The negation of doubles: on x86 the lanes subtract from zero, and the scalar loop negates.
use mathlib.Core.List.{map-append}
use lark.Base.{ℕ, suc, ◌≡◌, ◌≢◌, ◌∙◌, sym, refl, ap, some, List, ◌++◌, map}
use lark.Column.Numbers.{Floating}
use lark.Column.Tensor.{float64s}
use lark.Column.Compute.{Simd, neon, sse2, avx2, avx512, scalar, lanes, f64_each}
use lark.Column.Compute.Arith.{neg, neg_lane}
use lark.Column.Compute.Loops.{Split, simd_map-Split}

module _ {S F : Type 0} (m : Floating S F) where
  neg_lane_x86 :
      (simd : Simd) → simd ≢ neon → neg_lane m simd ≡ (λ x. m.double.sub m.double.nought x)
  neg_lane_x86 neon h = absurd (h refl)
  neg_lane_x86 sse2 h = refl
  neg_lane_x86 avx2 h = refl
  neg_lane_x86 avx512 h = refl
  neg_lane_x86 scalar h = refl

  -- On ARM, and without vectors, each element is negated. On x86 with vectors of w doubles, the
  -- elements in front, as many as fill whole vectors, are subtracted from zero, and the others,
  -- fewer than w, are negated.
  pub neg-Split :
      (simd : Simd) (w : ℕ) (xs : List F)
      → simd ≢ neon
      → lanes simd ≡ suc w
      → (neg m neon (float64s xs) ≡ some (float64s (map m.double.neg xs)))
        × (neg m scalar (float64s xs) ≡ some (float64s (map m.double.neg xs)))
        × (ys : List F) × (zs : List F) × Split (suc w) xs ys zs
        × (neg m simd (float64s xs)
            ≡ some (float64s (map (λ x. m.double.sub m.double.nought x) ys ++ map m.double.neg zs)))
  unfolding neg f64_each lanes
  neg-Split simd w xs x86 h =
      let (ys, zs, split, out) = simd_map-Split w (neg_lane m simd) m.double.neg xs in
      let (before, behind, parts, all) = simd_map-Split 1 m.double.neg m.double.neg xs in
      (
        ap (λ l. some (float64s l))
            (all
              ∙ sym (map-append m.double.neg before behind)
              ∙ ap (map m.double.neg) (sym parts.parts)),
        refl,
        ys,
        zs,
        split,
        rw h (ap (λ l. some (float64s l)) out)
            ∙ ap (λ f. some (float64s (map f ys ++ map m.double.neg zs))) (neg_lane_x86 simd x86),
      )
