-- ===== src/Base/Bytes.antt =====
-- std::string as the list of its bytes, with a decidable equality.
use Prim.Native.Char.{code}
use Prim.Native.Nat.{ℕ}
use Prim.Native.String.{String}
use mathlib.Core.List.{List, [], ◌∷◌}
use mathlib.Core.Path.{◌≡◌, refl}
use native.Mathlib.Decide.{ℕ_discrete}

abbrev pub Text : Type 0
Text = List ℕ

-- A literal of the source.
abbrev pub text : String → Text
text String.[] = []
text (String.◌∷◌ c s) = code c ∷ text s

cons_dec :
    {x y : ℕ} {xs ys : Text} → Dec (x ≡ y) → Dec (xs ≡ ys) → Dec (◌≡◌ {A = Text} (x ∷ xs) (y ∷ ys))
cons_dec (yes p) (yes q) = yes (λ i. p i ∷ q i)
cons_dec (yes p) (no n) = no (λ e. n (cc))
cons_dec (no n) q = no (λ e. n (cc))

unfoldable pub text_dec : Discrete Text
unfolding ℕ_discrete cons_dec
text_dec [] [] = yes refl
text_dec [] (y ∷ ys) = no (λ e. cc)
text_dec (x ∷ xs) [] = no (λ e. cc)
text_dec (x ∷ xs) (y ∷ ys) = cons_dec (ℕ_discrete x y) (text_dec xs ys)
