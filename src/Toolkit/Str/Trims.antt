-- ===== src/Toolkit/Str/Trims.antt =====
-- Trim removes exactly the white space at both ends.
use lark.Base.{
  ℕ, ◌≡◌, ◌∙◌, ◌&&◌, refl, ap, Bool, true, false, Bool-cases, inl, inr, [], ◌∷◌, ◌++◌, is_empty,
  Text, arith,
}
use lark.Toolkit.Lexer.{is_space}
use lark.Toolkit.Str.{trim_front, trim_back, trim}

-- All characters pass a test.
abbrev pub AreAll : (ℕ → Bool) → Text → Type 0
AreAll test [] = Unit {0}
AreAll test (c ∷ cs) = (test c ≡ true) × AreAll test cs

-- The first and the last character, if there are any, fail a test.
abbrev pub StartsOutside : (ℕ → Bool) → Text → Type 0
StartsOutside test [] = Unit {0}
StartsOutside test (c ∷ cs) = test c ≡ false

abbrev pub EndsOutside : (ℕ → Bool) → Text → Type 0
EndsOutside test [] = Unit {0}
EndsOutside test (c ∷ []) = test c ≡ false
EndsOutside test (c ∷ d ∷ cs) = EndsOutside test (d ∷ cs)

module _ (test : ℕ → Bool) where
  trim_front-append :
      (s : Text)
      → (pre : Text) × (s ≡ pre ++ trim_front test s)
        × AreAll test pre
        × StartsOutside test (trim_front test s)
  unfolding trim_front
  trim_front-append [] = ([], refl, tt, tt)
  trim_front-append (c ∷ cs) =
      let (pre, split, all, outside) = trim_front-append cs in
      elim (Bool-cases (test c)) [
        | inl e ↦ rw e (c ∷ pre, ap (◌∷◌ c) split, (e, all), outside)
        | inr e ↦ rw e ([], refl, tt, e)
      ]

  EndsOutside-cons :
      (c : ℕ) (cs : Text)
      → EndsOutside test cs
      → (test c && is_empty cs) ≡ false
      → EndsOutside test (c ∷ cs)
  EndsOutside-cons c [] o h = ground (arith, h)
  EndsOutside-cons c (d ∷ ds) o h = o

  empty_of : (cs : Text) → is_empty cs ≡ true → cs ≡ []
  empty_of [] h = refl
  empty_of (c ∷ cs) h = cc

  trim_back-append :
      (s : Text)
      → (post : Text) × (s ≡ trim_back test s ++ post)
        × AreAll test post
        × EndsOutside test (trim_back test s)
  unfolding trim_back
  trim_back-append [] = ([], refl, tt, tt)
  trim_back-append (c ∷ cs) =
      let (post, split, all, outside) = trim_back-append cs in
      elim (Bool-cases (test c && is_empty (trim_back test cs))) [
        | inl e ↦
            let gone = empty_of (trim_back test cs) (ground (arith, e)) in
            rw e (
              c ∷ post,
              ap (◌∷◌ c) (split ∙ ap (λ t. t ++ post) gone),
              (ground (arith, e), all),
              tt,
            )
        | inr e ↦
            rw e (post, ap (◌∷◌ c) split, all, EndsOutside-cons c (trim_back test cs) outside e)
      ]

  trim_back-StartsOutside :
      (s : Text) → StartsOutside test s → StartsOutside test (trim_back test s)
  unfolding trim_back
  trim_back-StartsOutside [] h = tt
  trim_back-StartsOutside (c ∷ cs) h = ground (arith, h)

  -- What a trim at both ends leaves of a text.
  pub record IsTrimmed (s t : Text) : Type 0 where
    pub before : Text
    pub behind : Text
    pub whole : s ≡ before ++ (t ++ behind)
    pub front : AreAll test before
    pub back : AreAll test behind
    pub starts : StartsOutside test t
    pub ends : EndsOutside test t

  pub both-IsTrimmed : (s : Text) → IsTrimmed s (trim_back test (trim_front test s))
  both-IsTrimmed s =
      let (pre, split, all, outside) = trim_front-append s in
      let (post, split', all', outside') = trim_back-append (trim_front test s) in
      record {
        before = pre;
        behind = post;
        whole = split ∙ ap (λ t. pre ++ t) split';
        front = all;
        back = all';
        starts = trim_back-StartsOutside (trim_front test s) outside;
        ends = outside';
      }

-- Trim takes white space off both ends and nothing else, and what it leaves neither starts nor ends
-- with white space.
pub trim-IsTrimmed : (s : Text) → IsTrimmed is_space s (trim s)
unfolding trim
trim-IsTrimmed s = both-IsTrimmed is_space s
