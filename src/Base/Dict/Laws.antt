-- ===== src/Base/Dict/Laws.antt =====
-- The laws of the dictionary and of the key list.
use mathlib.Core.List.{lookup}
use lark.Base.{
  ◌+◌, ◌≡◌, Option, refl, ap, ite, true, false, none, some, List, [], ◌∷◌, ◌++◌, arith, length,
  ◌||◌, cond, ◌⊎◌, inl, inr,
}
use lark.Base.Dict.{is_some, keys, contains, remove, Distinct, erase, assign, split_last}

module _ {K : Type 0} (dec : Discrete K) where
  pub contains-remove :
      (k q : K) (xs : List K)
      → contains dec q (remove dec k xs) ≡ ite (dec q k) false (contains dec q xs)
  unfolding contains remove
  contains-remove k q [] = ground arith
  contains-remove k q (x ∷ xs) = ground (arith, contains-remove k q xs)

  pub remove-Distinct : (k : K) (xs : List K) → Distinct dec xs → Distinct dec (remove dec k xs)
  unfolding remove
  remove-Distinct k [] d = tt
  remove-Distinct k (x ∷ xs) d = ground (arith, contains-remove k x xs, remove-Distinct k xs)

  pub remove_absent : (k : K) (xs : List K) → contains dec k xs ≡ false → remove dec k xs ≡ xs
  unfolding contains remove
  remove_absent k [] h = refl
  remove_absent k (x ∷ xs) h = ground (arith, remove_absent k xs)

  pub length-remove :
      (k : K) (xs : List K)
      → Distinct dec xs
      → contains dec k xs ≡ true
      → length (remove dec k xs) + 1 ≡ length xs
  unfolding contains remove
  length-remove k [] d h = cc
  length-remove k (x ∷ xs) d h = ground (arith, length-remove k xs, remove_absent k xs)

module _ {K V : Type 0} (dec : Discrete K) where
  pub lookup-erase :
      (k q : K) (m : List (K × V))
      → lookup dec q (erase dec k m) ≡ ite (dec q k) none (lookup dec q m)
  unfolding lookup erase
  lookup-erase k q [] = ground arith
  lookup-erase k q (e ∷ m) = ground (arith, lookup-erase k q m)

  pub lookup-assign :
      (k q : K) (v : V) (m : List (K × V))
      → lookup dec q (assign dec k v m) ≡ ite (dec q k) (some v) (lookup dec q m)
  unfolding lookup assign
  lookup-assign k q v [] = refl
  lookup-assign k q v (e ∷ m) = ground (arith, lookup-assign k q v m)

  pub lookup-keys : (k : K) (m : List (K × V)) → contains dec k (keys m) ≡ is_some (lookup dec k m)
  unfolding lookup contains
  lookup-keys k [] = refl
  lookup-keys k (e ∷ m) = ground (arith, lookup-keys k m)

  pub keys-erase : (k : K) (m : List (K × V)) → keys (erase dec k m) ≡ remove dec k (keys m)
  unfolding erase remove
  keys-erase k [] = refl
  keys-erase k (e ∷ m) = ground (arith, keys-erase k m)

  pub erase_absent : (k : K) (m : List (K × V)) → lookup dec k m ≡ none → erase dec k m ≡ m
  unfolding lookup erase
  erase_absent k [] h = refl
  erase_absent k (e ∷ m) h = ground (arith, erase_absent k m)

  pub length-erase :
      (k : K) (m : List (K × V))
      → Distinct dec (keys m)
      → is_some (lookup dec k m) ≡ true
      → length (erase dec k m) + 1 ≡ length m
  unfolding lookup erase
  length-erase k [] d h = cc
  length-erase k (e ∷ m) d h = ground (arith, length-erase k m, erase_absent k m, lookup-keys k m)

  pub erase-Distinct :
      (k : K) (m : List (K × V)) → Distinct dec (keys m) → Distinct dec (keys (erase dec k m))
  erase-Distinct k m d = rw (keys-erase k m) (remove-Distinct dec k (keys m) d)

  pub contains-keys-assign :
      (k q : K) (v : V) (m : List (K × V))
      → contains dec q (keys (assign dec k v m)) ≡ ite (dec q k) true (contains dec q (keys m))
  unfolding contains assign
  contains-keys-assign k q v [] = refl
  contains-keys-assign k q v (e ∷ m) = ground (arith, contains-keys-assign k q v m)

  pub assign-Distinct :
      (k : K) (v : V) (m : List (K × V))
      → Distinct dec (keys m)
      → Distinct dec (keys (assign dec k v m))
  unfolding contains assign
  assign-Distinct k v [] d = (refl, tt)
  assign-Distinct k v (e ∷ m) d =
      ground (arith, assign-Distinct k v m, contains-keys-assign k e.0 v m)

  pub length-assign :
      (k : K) (v : V) (m : List (K × V))
      → length (assign dec k v m) ≡ cond (is_some (lookup dec k m)) (length m) (length m + 1)
  unfolding lookup assign
  length-assign k v [] = refl
  length-assign k v (e ∷ m) = ground (arith, length-assign k v m)

module _ {K : Type 0} (dec : Discrete K) where
  pub contains-append :
      (q : K) (xs ys : List K) → contains dec q (xs ++ ys) ≡ contains dec q xs || contains dec q ys
  unfolding contains
  contains-append q [] ys = refl
  contains-append q (x ∷ xs) ys = ground (arith, contains-append q xs ys)

  -- The last key of a list with no key twice is not among the others.
  pub Distinct-append :
      (xs : List K) (x : K)
      → Distinct dec (xs ++ x ∷ [])
      → Distinct dec xs × (contains dec x xs ≡ false)
  unfolding contains
  Distinct-append [] x d = (tt, refl)
  Distinct-append (y ∷ xs) x d = ground (arith, Distinct-append xs x, contains-append y xs (x ∷ []))

module _ {A : Type 0} where
  pub split_last-append : (xs : List A) (x : A) → split_last (xs ++ x ∷ []) ≡ some (xs, x)
  unfolding split_last
  split_last-append [] x = refl
  split_last-append (y ∷ []) x = refl
  split_last-append (y ∷ z ∷ xs) x = rw (split_last-append (z ∷ xs) x)

  -- A list is empty or ends in its last element.
  pub split_last-cases :
      (xs : List A)
      → (split_last xs ≡ none) × (xs ≡ [])
        ⊎ ((rest : List A) × (x : A) × (split_last xs ≡ some (rest, x)) × (xs ≡ rest ++ x ∷ []))
  unfolding split_last
  split_last-cases [] = inl (refl, refl)
  split_last-cases (x ∷ []) = inr ([], x, refl, refl)
  split_last-cases (x ∷ y ∷ xs) = elim (split_last-cases (y ∷ xs)) [
    | inl (e, empty) ↦ absurd (cc)
    | inr (rest, last, e, split) ↦ inr (x ∷ rest, last, rw e, ap (◌∷◌ x) split)
  ]

module _ {K V : Type 0} (dec : Discrete K) where
  pub contains-keys-append :
      (q : K) (m n : List (K × V))
      → contains dec q (keys (m ++ n)) ≡ contains dec q (keys m) || contains dec q (keys n)
  unfolding contains
  contains-keys-append q [] n = refl
  contains-keys-append q (e ∷ m) n = ground (arith, contains-keys-append q m n)

  pub erase-append :
      (q : K) (m n : List (K × V)) → erase dec q (m ++ n) ≡ erase dec q m ++ erase dec q n
  unfolding erase
  erase-append q [] n = refl
  erase-append q (e ∷ m) n = ground (arith, erase-append q m n)

  pub lookup-append :
      (q : K) (m n : List (K × V))
      → lookup dec q (m ++ n)
        ≡ elim (lookup dec q m) as (λ _. Option V) [ none ↦ lookup dec q n | some v ↦ some v ]
  unfolding lookup
  lookup-append q [] n = refl
  lookup-append q (e ∷ m) n = ground (arith, lookup-append q m n)

  -- A key in the middle of distinct keys is in neither part.
  pub absent_of_Distinct :
      (m n : List (K × V)) (k : K) (v : V)
      → Distinct dec (keys (m ++ (k, v) ∷ n))
      → (lookup dec k m ≡ none) × (lookup dec k n ≡ none)
  unfolding contains lookup
  absent_of_Distinct [] n k v d = (refl, ground (arith, lookup-keys dec k n))
  absent_of_Distinct (e ∷ m) n k v d =
      ground (arith, absent_of_Distinct m n k v, contains-keys-append e.0 m ((k, v) ∷ n))

module _ {K : Type 0} (dec : Discrete K) where
  pub Distinct-concat :
      (xs : List K) (x : K)
      → Distinct dec xs
      → contains dec x xs ≡ false
      → Distinct dec (xs ++ x ∷ [])
  unfolding contains
  Distinct-concat [] x d h = (refl, tt)
  Distinct-concat (y ∷ xs) x d h =
      (ground (arith, contains-append dec y xs (x ∷ [])), Distinct-concat xs x d.1 (ground arith))
