-- ===== src/Dag/Digraph.antt =====
-- Dependency graphs: node `v` depends on the nodes of `deps v`. Walks, cycles, and lists in which
-- every node stands before the nodes that it depends on.
use lark.Base.{
  ◌+◌, ◌≤◌, range_from, ℕ, suc, ◌≤◌, ◌<◌, ◌≡◌, ite, true, false, some, List, [], ◌∷◌, length,
  get_elem?, arith, ℕ_discrete, zero,
}
use lark.Base.Dict.{contains}

abbrev pub Has : ℕ → List ℕ → Type 0
Has v xs = contains ℕ_discrete v xs ≡ true

pub Has-get_elem? : (xs : List ℕ) (i v : ℕ) → get_elem? xs i ≡ some v → Has v xs × (i < length xs)
unfolding contains
Has-get_elem? [] i v h = cc
Has-get_elem? (x ∷ xs) zero v h = (ground arith, omega arith)
Has-get_elem? (x ∷ xs) (suc i) v h =
    let (member, small) = Has-get_elem? xs i v h in (ground arith, omega arith)

pub index_of_Has : (xs : List ℕ) (v : ℕ) → Has v xs → (i : ℕ) × (get_elem? xs i ≡ some v)
unfolding contains
index_of_Has [] v h = cc
index_of_Has (x ∷ xs) v h = elim (ℕ_discrete v x) [
  | yes e ↦ (0, ground arith)
  | no e ↦ let (i, found) = index_of_Has xs v (ground arith) in (suc i, found)
]

pub Has-range_from :
    (k n v : ℕ)
    → (Has v (range_from k n) → (k ≤ v) × (v < k + n))
      × (k ≤ v → v < k + n → Has v (range_from k n))
unfolding contains
Has-range_from k zero v = (λ h. cc, λ h l. absurd (omega arith))
Has-range_from k (suc n) v =
    let ih = Has-range_from (suc k) n v in (λ h. ground (arith, ih.0), λ h l. ground (arith, ih.1))

module _ (deps : ℕ → List ℕ) where
  abbrev pub Edge : ℕ → ℕ → Type 0
  Edge u v = Has v (deps u)

  -- At least one edge.
  pub data Walk (u : ℕ) : ℕ → Type 0 where
    one : {v : ℕ} → Edge u v → Walk u v
    snoc : {v w : ℕ} → Walk u v → Edge v w → Walk u w

  abbrev pub IsCyclic : Type 0
  IsCyclic = (v : ℕ) × Walk v v

  -- No node twice, and what a node depends on stands behind it.
  abbrev pub IsOrdered : List ℕ → Type 0
  IsOrdered [] = Unit {0}
  IsOrdered (x ∷ xs) =
      ((d : ℕ) → Edge x d → Has d xs) × (contains ℕ_discrete x xs ≡ false) × IsOrdered xs

  -- How far from the end a node stands; 0 if it is not listed.
  unfoldable pub position : List ℕ → ℕ → ℕ
  position [] v = 0
  position (x ∷ xs) v = ite (ℕ_discrete v x) (suc (length xs)) (position xs v)

  pub position-le-length : (xs : List ℕ) (v : ℕ) → position xs v ≤ length xs
  unfolding position
  position-le-length [] v = omega arith
  position-le-length (x ∷ xs) v = ground (arith, position-le-length xs v)

  pub position-Edge :
      (xs : List ℕ) (u d : ℕ)
      → IsOrdered xs
      → Has u xs
      → Edge u d
      → Has d xs × (position xs d < position xs u)
  unfolding position contains
  position-Edge [] u d o h e = cc
  position-Edge (x ∷ xs) u d o h e =
      ground (arith, o.0 d, position-Edge xs u d o.2, position-le-length xs d)

  position-Walk :
      (xs : List ℕ) {u v : ℕ}
      → IsOrdered xs
      → Has u xs
      → Walk u v
      → Has v xs × (position xs v < position xs u)
  position-Walk xs o h (one e) = position-Edge xs _ _ o h e
  position-Walk xs o h (snoc {v} {w} walk e) =
      let (there, closer) = position-Walk xs o h walk in
      let (found, last) = position-Edge xs v w o there e in (found, omega arith)

  -- A node of such a list is on no cycle.
  pub not-Walk : (xs : List ℕ) (v : ℕ) → IsOrdered xs → Has v xs → ¬ Walk v v
  not-Walk xs v o h walk = omega (arith, (position-Walk xs o h walk).1)
