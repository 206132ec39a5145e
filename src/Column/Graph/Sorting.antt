-- ===== src/Column/Graph/Sorting.antt =====
-- std::sort, std::unique and the redirection of ReplaceDependency
-- (column/src/column/exec/exec_node.cpp).
use lark.Base.{ℕ, ◌==◌, leb, Bool, false, if◌then◌else◌, List, [], ◌∷◌}

-- std::sort on addresses.
unfoldable pub insert_sorted : ℕ → List ℕ → List ℕ
insert_sorted a [] = a ∷ []
insert_sorted a (x ∷ xs) = let rest = insert_sorted a xs in if leb a x then a ∷ x ∷ xs else x ∷ rest

unfoldable pub sort : List ℕ → List ℕ
unfolding insert_sorted
sort [] = []
sort (x ∷ xs) = insert_sorted x (sort xs)

abbrev pub starts_with : ℕ → List ℕ → Bool
starts_with a [] = false
starts_with a (x ∷ xs) = a == x

-- std::unique, with the erase of what it leaves behind.
unfoldable pub unique : List ℕ → List ℕ
unique [] = []
unique (x ∷ xs) = let rest = unique xs in if starts_with x xs then rest else x ∷ rest

abbrev pub redirect : ℕ → ℕ → ℕ → ℕ
redirect from to d = if d == from then to else d
