-- ===== src/Base/Dict.antt =====
-- std::unordered_map<K, V> as an association list, whose order no statement depends on, and the
-- std::list operations on keys that the code uses. Keys have a decidable equality.
pub mod Laws
use mathlib.Core.List.{lookup}
use lark.Base.{ite, Bool, true, false, Option, none, some, List, [], ◌∷◌, ◌++◌, map}

abbrev pub is_some {ℓ} : {A : Type ℓ} → Option A → Bool
is_some none = false
is_some (some _) = true

abbrev pub keys {ℓ} : {K V : Type ℓ} → List (K × V) → List K
keys = map (λ e. e.0)

module _ {K : Type 0} (dec : Discrete K) where
  -- `std::unordered_set<K>::count(k) > 0`, and `std::find(first, last, k) != last`.
  unfoldable pub contains : K → List K → Bool
  contains k [] = false
  contains k (x ∷ xs) = ite (dec k x) true (contains k xs)

  -- `std::list<K>::remove(k)`: every occurrence.
  unfoldable pub remove : K → List K → List K
  remove k [] = []
  remove k (x ∷ xs) = let rest = remove k xs in ite (dec k x) rest (x ∷ rest)

  -- No key twice.
  abbrev pub Distinct : List K → Type 0
  Distinct [] = Unit {0}
  Distinct (x ∷ xs) = (Path Bool (contains x xs) false) × Distinct xs

module _ {K V : Type 0} (dec : Discrete K) where
  -- `erase(k)`.
  unfoldable pub erase : K → List (K × V) → List (K × V)
  erase k [] = []
  erase k (e ∷ m) = let rest = erase k m in ite (dec k e.0) rest (e ∷ rest)

  -- `m[k] = v`, `insert_or_assign(k, v)`.
  unfoldable pub assign : K → V → List (K × V) → List (K × V)
  assign k v [] = (k, v) ∷ []
  assign k v (e ∷ m) = let rest = assign k v m in ite (dec k e.0) ((k, v) ∷ m) (e ∷ rest)

  -- `emplace(k, v)`: nothing where the key exists; the flag says whether it inserted.
  unfoldable pub emplace : K → V → List (K × V) → List (K × V) × Bool
  emplace k v m = elim (lookup dec k m) [ none ↦ (m ++ (k, v) ∷ [], true) | some _ ↦ (m, false) ]

module _ {ℓ} {A : Type ℓ} where
  -- `back()` and `pop_back()`.
  unfoldable pub split_last : List A → Option (List A × A)
  split_last [] = none
  split_last (x ∷ []) = some ([], x)
  split_last (x ∷ y ∷ xs) = elim (split_last (y ∷ xs)) [
    | none ↦ none
    | some (rest, last) ↦ some (x ∷ rest, last)
  ]
