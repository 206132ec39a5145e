-- ===== src/Dag/Kahn/Counting.antt =====
-- What the counts of the algorithm count: how often a node depends on another, and how many
-- dependencies are not met.
use lark.Base.{
  ℕ, zero, suc, ◌+◌, ◌≤◌, ◌<◌, ◌≡◌, ap, refl, inl, inr, Bool-cases, false, ite, List, [], ◌∷◌, ◌++◌,
  length, range_from, arith, ℕ_discrete, leb, ltb, ◌&&◌, if◌then◌else◌, ◌==◌,
}
use lark.Base.Dict.{contains, remove, Distinct}
use lark.Base.Dict.Laws.{contains-remove, remove-Distinct, remove_absent, length-remove}
use lark.Base.Sums.{update}
use lark.Dag.Digraph.{Has}
use lark.Dag.Kahn.{Counts, count_deps, count_all, start_nodes}

-- How often a number is in a list.
unfoldable pub occurrences : ℕ → List ℕ → ℕ
occurrences v [] = 0
occurrences v (x ∷ xs) = let rest = occurrences v xs in ite (ℕ_discrete v x) (suc rest) rest

-- How many entries of a list are not done.
unfoldable pub unmet : List ℕ → List ℕ → ℕ
unmet finished [] = 0
unmet finished (x ∷ xs) =
    let rest = unmet finished xs in if contains ℕ_discrete x finished then rest else suc rest

pub occurrences-append :
    (v : ℕ) (xs ys : List ℕ) → occurrences v (xs ++ ys) ≡ occurrences v xs + occurrences v ys
unfolding occurrences
occurrences-append v [] ys = omega arith
occurrences-append v (x ∷ xs) ys = ground (arith, occurrences-append v xs ys)

pub occurrences_of_Has : (v : ℕ) (xs : List ℕ) → Has v xs → 0 < occurrences v xs
unfolding occurrences contains
occurrences_of_Has v [] h = cc
occurrences_of_Has v (x ∷ xs) h = ground (arith, occurrences_of_Has v xs)

pub unmet_start : (xs : List ℕ) → unmet [] xs ≡ length xs
unfolding unmet contains
unmet_start [] = refl
unmet_start (x ∷ xs) = ground (arith, unmet_start xs)

-- One more node is done.
pub unmet_step :
    (v : ℕ) (finished xs : List ℕ)
    → contains ℕ_discrete v finished ≡ false
    → unmet (v ∷ finished) xs + occurrences v xs ≡ unmet finished xs
unfolding unmet occurrences contains
unmet_step v finished [] h = omega arith
unmet_step v finished (x ∷ xs) h = ground (arith, unmet_step v finished xs h)

pub Has-unmet : (finished xs : List ℕ) → unmet finished xs ≡ 0 → (d : ℕ) → Has d xs → Has d finished
unfolding unmet contains
Has-unmet finished [] h d e = cc
Has-unmet finished (x ∷ xs) h d e =
    let rest : unmet finished xs ≡ 0 = ground arith in
    let here : Has x finished = ground arith in
    elim (ℕ_discrete d x) [
      | yes same ↦ rw same here
      | no other ↦ Has-unmet finished xs rest d (ground arith)
    ]

pub unmet_of_Has :
    (finished xs : List ℕ) → ((d : ℕ) → Has d xs → Has d finished) → unmet finished xs ≡ 0
unfolding unmet contains
unmet_of_Has finished [] h = refl
unmet_of_Has finished (x ∷ xs) h =
    let here : Has x finished = h x (ground arith) in
    let rest = unmet_of_Has finished xs (λ d e. h d (ground arith)) in ground arith

-- What one node adds to the counts.
pub count_deps_lem :
    (node : ℕ) (ds : List ℕ) (c : Counts) (u v : ℕ)
    → ((count_deps node ds c).in_degree u ≡ c.in_degree u + ite (ℕ_discrete u node) (length ds) 0)
      × (occurrences u ((count_deps node ds c).outs v)
          ≡ occurrences u (c.outs v) + ite (ℕ_discrete u node) (occurrences v ds) 0)
unfolding count_deps occurrences
count_deps_lem node [] c u v = (ground arith, ground arith)
count_deps_lem node (dep ∷ ds) c u v =
    let next : Counts = record {
      in_degree = update c.in_degree node (suc (c.in_degree node));
      outs = update c.outs dep (c.outs dep ++ node ∷ []);
    } in
    let (degree, out) = count_deps_lem node ds next u v in
    (ground arith, ground (arith, occurrences-append u (c.outs dep) (node ∷ [])))

pub count_all_lem :
    (deps : ℕ → List ℕ) (k m : ℕ) (c : Counts) (u v : ℕ)
    → ((count_all deps (range_from k m) c).in_degree u
        ≡ c.in_degree u + (if leb k u && ltb u (k + m) then length (deps u) else 0))
      × (occurrences u ((count_all deps (range_from k m) c).outs v)
          ≡ occurrences u (c.outs v)
            + (if leb k u && ltb u (k + m) then occurrences v (deps u) else 0))
unfolding count_all
count_all_lem deps k zero c u v = (ground arith, ground arith)
count_all_lem deps k (suc m) c u v =
    let next = count_deps k (deps k) c in
    let (degree, out) = count_deps_lem k (deps k) c u v in
    let (degree', out') = count_all_lem deps (suc k) m next u v in (ground arith, ground arith)

pub contains-start_nodes :
    (d : ℕ → ℕ) (xs : List ℕ) (v : ℕ)
    → contains ℕ_discrete v (start_nodes d xs) ≡ contains ℕ_discrete v xs && (d v == 0)
unfolding start_nodes contains
contains-start_nodes d [] v = refl
contains-start_nodes d (x ∷ xs) v = ground (arith, contains-start_nodes d xs v)

pub start_nodes-Distinct :
    (d : ℕ → ℕ) (xs : List ℕ) → Distinct ℕ_discrete xs → Distinct ℕ_discrete (start_nodes d xs)
unfolding start_nodes
start_nodes-Distinct d [] h = tt
start_nodes-Distinct d (x ∷ xs) h =
    ground (arith, contains-start_nodes d xs x, start_nodes-Distinct d xs h.1)

below :
    (n : ℕ) (xs : List ℕ)
    → ((v : ℕ) → Has v xs → v < suc n)
    → (v : ℕ) → Has v (remove ℕ_discrete n xs)
    → v < n
below n xs h v e = ground (arith, contains-remove ℕ_discrete n v xs, h v)

-- Distinct numbers below `n` are at most `n`.
pub Distinct-length :
    (n : ℕ) (xs : List ℕ) → Distinct ℕ_discrete xs → ((v : ℕ) → Has v xs → v < n) → length xs ≤ n
unfolding contains
Distinct-length zero [] d h = omega arith
Distinct-length zero (x ∷ xs) d h = absurd (omega (arith, h x (ground arith)))
Distinct-length (suc n) xs d h =
    let smaller =
      Distinct-length n (remove ℕ_discrete n xs) (remove-Distinct ℕ_discrete n xs d)
        (λ v e. below n xs h v e) in
    elim (Bool-cases (contains ℕ_discrete n xs)) [
      | inl there ↦ omega (arith, length-remove ℕ_discrete n xs d there)
      | inr gone ↦ omega (arith, ap length (remove_absent ℕ_discrete n xs gone))
    ]

range_small : (k m v : ℕ) → v < k → contains ℕ_discrete v (range_from k m) ≡ false
unfolding contains
range_small k zero v h = refl
range_small k (suc m) v h = ground (arith, range_small (suc k) m v (omega arith))

pub range-Distinct : (k m : ℕ) → Distinct ℕ_discrete (range_from k m)
range-Distinct k zero = tt
range-Distinct k (suc m) = (range_small (suc k) m k (omega arith), range-Distinct (suc k) m)
