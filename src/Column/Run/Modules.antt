-- ===== src/Column/Run/Modules.antt =====
-- The accounts of the modules of a run (ModuleAcc in column/src/column/exec/compute_graph.cpp).
use lark.Base.{
  ℕ, suc, ◌+◌, ◌<◌, ◌≡◌, ◌==◌, refl, true, false, List, [], ◌∷◌, Text, text_dec, ite, arith,
  Bool-cases, inl, inr,
}
use lark.Column.Run.{ModuleAcc, no_acc, text_less, change_acc}

text_less_irrefl : (s : Text) → text_less s s ≡ false
unfolding text_less
text_less_irrefl [] = refl
text_less_irrefl (c ∷ s) = ground (arith, text_less_irrefl s)

text_less_total : (s t : Text) → text_less s t ≡ false → text_less t s ≡ false → s ≡ t
unfolding text_less
text_less_total [] [] h k = refl
text_less_total [] (d ∷ t) h k = cc
text_less_total (c ∷ s) [] h k = cc
text_less_total (c ∷ s) (d ∷ t) h k = elim (Bool-cases (c == d)) [
  | inl e ↦
      let same : c ≡ d = ground (arith, e) in
      let rest : s ≡ t = text_less_total s t (ground (arith, h, e)) (ground (arith, k, e)) in
      ground (arith, same, rest)
  | inr e ↦ absurd (ground (arith, h, k, e))
]

-- How often a name occurs.
abbrev pub occurrences : Text → List Text → ℕ
occurrences q [] = 0
occurrences q (name ∷ names) = ite (text_dec q name) 1 0 + occurrences q names

-- The nodes that the accounts of a module count.
abbrev pub node_count : Text → List (Text × ModuleAcc) → ℕ
node_count q [] = 0
node_count q ((key, acc) ∷ accs) = ite (text_dec q key) acc.count 0 + node_count q accs

abbrev pub IsBelow : Text → List (Text × ModuleAcc) → Type 0
IsBelow name [] = Unit {0}
IsBelow name ((key, acc) ∷ accs) = text_less name key ≡ true

-- Every account is of a module of its own, in their order, and counts some node.
abbrev pub IsTally : List (Text × ModuleAcc) → Type 0
IsTally [] = Unit {0}
IsTally ((key, acc) ∷ accs) = IsBelow key accs × (0 < acc.count) × IsTally accs

-- What the runs of nodes of these modules do to the accounts.
pub record Tallied (names : List Text) (accs accs' : List (Text × ModuleAcc)) : Type 0 where
  pub tally : IsTally accs → IsTally accs'
  pub counts : (q : Text) → node_count q accs' ≡ node_count q accs + occurrences q names

pub nothing-Tallied : (accs : List (Text × ModuleAcc)) → Tallied [] accs accs
nothing-Tallied accs = record { tally = λ t. t; counts = λ q. omega arith }

pub Tallied-cons :
    (name : Text) (names : List Text) (accs accs' accs'' : List (Text × ModuleAcc))
    → Tallied (name ∷ []) accs accs'
    → Tallied names accs' accs''
    → Tallied (name ∷ names) accs accs''
Tallied-cons name names accs accs' accs'' s t = record {
  tally = λ k. t.tally (s.tally k);
  counts = λ q. omega (arith, t.counts q, s.counts q);
}

-- Two changes of one account are one.
change_acc_twice :
    (name : Text) (f g : ModuleAcc → ModuleAcc) (accs : List (Text × ModuleAcc))
    → change_acc name g (change_acc name f accs) ≡ change_acc name (λ acc. g (f acc)) accs
unfolding change_acc
change_acc_twice name f g [] = ground (arith, text_less_irrefl name)
change_acc_twice name f g ((key, acc) ∷ accs) = elim (Bool-cases (text_less name key)) [
  | inl e ↦ ground (arith, e, text_less_irrefl name)
  | inr e ↦ elim (Bool-cases (text_less key name)) [
    | inl k ↦ ground (arith, e, k, change_acc_twice name f g accs)
    | inr k ↦ ground (arith, e, k)
  ]
]

module _ (name : Text) (h : ModuleAcc → ModuleAcc)
    (one : (acc : ModuleAcc) → (h acc).count ≡ suc acc.count) where
  change_acc-counts :
      (q : Text) (accs : List (Text × ModuleAcc))
      → node_count q (change_acc name h accs) ≡ node_count q accs + ite (text_dec q name) 1 0
  unfolding change_acc
  change_acc-counts q [] = ground (arith, one no_acc)
  change_acc-counts q ((key, acc) ∷ accs) = elim (Bool-cases (text_less name key)) [
    | inl e ↦ rw e (ground (arith, one no_acc))
    | inr e ↦ elim (Bool-cases (text_less key name)) [
      | inl k ↦ rw (e, k) (omega (arith, change_acc-counts q accs))
      | inr k ↦
          let same : name ≡ key = text_less_total name key e k in
          rw (e, k) (ground (arith, one acc, same))
    ]
  ]

  change_acc-IsBelow :
      (first : Text) (accs : List (Text × ModuleAcc))
      → IsBelow first accs
      → text_less first name ≡ true
      → IsBelow first (change_acc name h accs)
  unfolding change_acc
  change_acc-IsBelow first [] b less = less
  change_acc-IsBelow first ((key, acc) ∷ accs) b less = elim (Bool-cases (text_less name key)) [
    | inl e ↦ rw e less
    | inr e ↦ elim (Bool-cases (text_less key name)) [ inl k ↦ rw (e, k) b | inr k ↦ rw (e, k) b ]
  ]

  change_acc-IsTally :
      (accs : List (Text × ModuleAcc)) → IsTally accs → IsTally (change_acc name h accs)
  unfolding change_acc
  change_acc-IsTally [] t = (tt, omega (arith, one no_acc), tt)
  change_acc-IsTally ((key, acc) ∷ accs) t = elim (Bool-cases (text_less name key)) [
    | inl e ↦ rw e (e, omega (arith, one no_acc), t)
    | inr e ↦ elim (Bool-cases (text_less key name)) [
      | inl k ↦ rw (e, k) (change_acc-IsBelow key accs t.0 k, t.1, change_acc-IsTally accs t.2)
      | inr k ↦ rw (e, k) (t.0, omega (arith, one acc), t.2)
    ]
  ]

-- The start and the end of a node.
pub changes-Tallied :
    (name : Text) (f g : ModuleAcc → ModuleAcc) (accs : List (Text × ModuleAcc))
    → ((acc : ModuleAcc) → (g (f acc)).count ≡ suc acc.count)
    → Tallied (name ∷ []) accs (change_acc name g (change_acc name f accs))
changes-Tallied name f g accs one = rw (change_acc_twice name f g accs) (record {
  tally = change_acc-IsTally name (λ acc. g (f acc)) one accs;
  counts = λ q. omega (arith, change_acc-counts name (λ acc. g (f acc)) one q accs);
})
