-- ===== src/Column/Compute/Loops.antt =====
-- The two loops of a kernel: what the vector rounds write, and what they leave to the scalar loop.
use mathlib.Core.List.{append_assoc, map-append}
use native.Mathlib.Nat.{suc-mul}
use lark.Base.{
  ℕ, zero, suc, ◌*◌, ◌≤◌, ◌<◌, ◌≡◌, ◌∙◌, refl, sym, ap, leb, Bool-cases, inl, inr, List, [], ◌∷◌,
  ◌++◌, map, length, take, drop, take-append-drop, length-append, length-take, length-drop, arith,
}
use lark.Column.Compute.{vector_loop, simd_map}

-- The operands in front of the ones that are left, which fill whole vectors.
pub record Split {ℓ} {A : Type ℓ} (w : ℕ) (xs ys zs : List A) : Type ℓ where
  pub parts : xs ≡ ys ++ zs
  pub rounds : ℕ
  pub whole : length ys ≡ rounds * w
  pub short : length zs < w

whole_round {ℓ} :
    {A : Type ℓ} (w rounds : ℕ) (xs ys : List A)
    → length xs ≡ w
    → length ys ≡ rounds * w
    → length (xs ++ ys) ≡ suc rounds * w
whole_round w rounds xs ys h k = omega (arith, length-append xs ys, h, k, suc-mul rounds w)

module _ {ℓ κ} {A : Type ℓ} {B : Type κ} where
  -- The vector rounds stop when less than a vector is left.
  pub vector_loop-Split :
      (fuel w : ℕ) (f : A → B) (xs : List A)
      → length xs ≤ fuel
      → (ys : List A) × Split (suc w) xs ys (vector_loop fuel (suc w) (map f) xs).1
        × ((vector_loop fuel (suc w) (map f) xs).0 ≡ map f ys)
  unfolding vector_loop
  vector_loop-Split zero w f [] h =
      ([], record { parts = refl; rounds = 0; whole = omega arith; short = omega arith }, refl)
  vector_loop-Split zero w f (x ∷ xs) h = absurd (omega (arith, h))
  vector_loop-Split (suc fuel) w f xs h = elim (Bool-cases (leb (suc w) (length xs))) [
    | inr e ↦ rw e (
      [],
      record { parts = refl; rounds = 0; whole = omega arith; short = ground (arith, e) },
      refl,
    )
    | inl e ↦
        let fits : suc w ≤ length xs = ground (arith, e) in
        let (ys, split, out) =
          vector_loop-Split fuel w f (drop (suc w) xs) (omega (arith, length-drop (suc w) xs, h)) in
        rw e (
          take (suc w) xs ++ ys,
          record {
            parts =
                sym (take-append-drop (suc w) xs)
                ∙ ap (λ l. take (suc w) xs ++ l) split.parts
                ∙ sym (append_assoc (take (suc w) xs) ys _);
            rounds = suc split.rounds;
            whole =
                whole_round (suc w) split.rounds (take (suc w) xs) ys
                  (omega (arith, length-take (suc w) xs, fits)) split.whole;
            short = split.short;
          },
          ap (λ l. map f (take (suc w) xs) ++ l) out ∙ sym (map-append f (take (suc w) xs) ys),
        )
  ]

  -- With w doubles in a vector, the operation of the lanes is done on the greatest multiple of w
  -- elements, and that of the scalar loop on the rest.
  pub simd_map-Split :
      (w : ℕ) (f g : A → B) (xs : List A)
      → (ys zs : List A) × Split (suc w) xs ys zs × (simd_map (suc w) f g xs ≡ map f ys ++ map g zs)
  unfolding simd_map
  simd_map-Split w f g xs =
      let (ys, split, out) = vector_loop-Split (length xs) w f xs (omega arith) in
      let left = (vector_loop (length xs) (suc w) (map f) xs).1 in
      (ys, left, split, ap (λ l. l ++ map g left) out)

  -- Where both loops do the same operation, it is done on each element.
  pub simd_map_lem : (w : ℕ) (f : A → B) (xs : List A) → simd_map w f f xs ≡ map f xs
  unfolding simd_map
  simd_map_lem zero f xs = refl
  simd_map_lem (suc w) f xs =
      let (ys, zs, split, out) = simd_map-Split w f f xs in
      out ∙ sym (map-append f ys zs) ∙ ap (map f) (sym split.parts)
