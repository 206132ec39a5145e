-- ===== src/Cache/Local/Invariant.antt =====
-- What every method of LocalCache keeps: `lru_` lists exactly the keys of `entries_`, each once,
-- and a bounded cache holds at most `capacity` entries.
use mathlib.Core.List.{lookup}
use mathlib.Core.Path.{subst}
use lark.Base.{
  ℕ, zero, suc, ◌+◌, ◌≤◌, ◌<◌, ◌≡◌, ◌∙◌, refl, ap, true, none, List, [], ◌∷◌, ◌++◌, length,
  length-append, Text, text_dec, arith, inl, inr, Bool-cases, leb, ltb, some, ◌&&◌,
}
use lark.Base.Dict.{remove, erase, assign, is_some, contains, keys, Distinct, split_last}
use lark.Base.Dict.Laws.{
  contains-remove, remove-Distinct, length-remove, lookup-erase, lookup-assign, length-erase,
  erase-Distinct, assign-Distinct, length-assign, contains-append, Distinct-append,
  split_last-cases,
}
use lark.Cache.Local.{LocalCache, Entry, emit, evict_one, evict_loop, make_room}

-- `entries_` and `lru_` hold the same keys.
pub record IsCoherent (m : List (Text × Entry)) (ks : List Text) : Type 0 where
  pub covered : (k : Text) → contains text_dec k ks ≡ is_some (lookup text_dec k m)
  pub distinct : Distinct text_dec ks
  pub unique : Distinct text_dec (keys m)
  pub sized : length m ≡ length ks

pub record IsValid (c : LocalCache) : Type 0 where
  pub coherent : IsCoherent c.entries c.lru
  pub bounded : 0 < c.capacity → length c.entries ≤ c.capacity

module _ {m : List (Text × Entry)} {ks : List Text} (key : Text) (v : IsCoherent m ks) where
  pub touch-IsCoherent :
      is_some (lookup text_dec key m) ≡ true → IsCoherent m (key ∷ remove text_dec key ks)
  unfolding contains
  touch-IsCoherent h = record {
    covered = λ k. ground (arith, contains-remove text_dec key k ks, v.covered k);
    distinct = (
      ground (arith, contains-remove text_dec key key ks),
      remove-Distinct text_dec key ks v.distinct,
    );
    unique = v.unique;
    sized = omega (arith, v.sized, length-remove text_dec key ks v.distinct (v.covered key ∙ h));
  }

  pub assign-IsCoherent :
      (e : Entry) → is_some (lookup text_dec key m) ≡ true → IsCoherent (assign text_dec key e m) ks
  assign-IsCoherent e h = record {
    covered = λ k. ground (arith, lookup-assign text_dec key k e m, v.covered k, v.covered key);
    distinct = v.distinct;
    unique = assign-Distinct text_dec key e m v.unique;
    sized = ground (arith, length-assign text_dec key e m, v.sized);
  }

  pub drop-IsCoherent :
      is_some (lookup text_dec key m) ≡ true
      → IsCoherent (erase text_dec key m) (remove text_dec key ks)
  drop-IsCoherent h = record {
    covered = λ k.
        ground
          (arith, contains-remove text_dec key k ks, lookup-erase text_dec key k m, v.covered k);
    distinct = remove-Distinct text_dec key ks v.distinct;
    unique = erase-Distinct text_dec key m v.unique;
    sized = omega (
      arith,
      v.sized,
      length-remove text_dec key ks v.distinct (v.covered key ∙ h),
      length-erase text_dec key m v.unique h,
    );
  }

  pub push-IsCoherent :
      (e : Entry) → lookup text_dec key m ≡ none → IsCoherent (assign text_dec key e m) (key ∷ ks)
  unfolding contains
  push-IsCoherent e h = record {
    covered = λ k. ground (arith, lookup-assign text_dec key k e m, v.covered k);
    distinct = (ground (arith, v.covered key), v.distinct);
    unique = assign-Distinct text_dec key e m v.unique;
    sized = ground (arith, length-assign text_dec key e m, v.sized);
  }

-- The last key, dropped from both.
evict-IsCoherent :
    (m : List (Text × Entry)) (rest : List Text) (victim : Text)
    → IsCoherent m (rest ++ victim ∷ [])
    → IsCoherent (erase text_dec victim m) rest
      × (length (erase text_dec victim m) + 1 ≡ length m)
      × (length m ≡ length rest + 1)
unfolding contains
evict-IsCoherent m rest victim v =
    let (d, absent) = Distinct-append text_dec rest victim v.distinct in
    let here = contains-append text_dec victim rest (victim ∷ []) in
    let present : is_some (lookup text_dec victim m) ≡ true =
      ground (arith, here, v.covered victim) in
    let shorter = length-erase text_dec victim m v.unique present in
    let longer = length-append rest (victim ∷ []) in
    (
      record {
        covered = λ k. ground (
          arith,
          contains-append text_dec k rest (victim ∷ []),
          lookup-erase text_dec victim k m,
          v.covered k,
        );
        distinct = d;
        unique = erase-Distinct text_dec victim m v.unique;
        sized = omega (arith, v.sized);
      },
      shorter,
      omega (arith, v.sized),
    )

-- Below the capacity the loop stops at once.
evict_loop_below :
    (fuel : ℕ) (c : LocalCache) → length c.entries < c.capacity → evict_loop fuel c ≡ c
unfolding evict_loop
evict_loop_below zero c h = refl
evict_loop_below (suc fuel) c h = ground arith

-- What making room does to a valid cache: nothing if there is room, and otherwise the eviction
-- of the last key, after which there is room.
pub data Room (c : LocalCache) : Type 0 where
  enough : make_room c ≡ c → (0 < c.capacity → length c.entries < c.capacity) → Room c
  evicted :
      (rest : List Text) (victim : Text)
      → c.lru ≡ rest ++ victim ∷ []
      → make_room c ≡ evict_one rest victim c
      → length c.entries ≡ c.capacity
      → length rest + 1 ≡ c.capacity
      → IsCoherent (erase text_dec victim c.entries) rest
      → Room c

-- A full cache has a last key.
full_split :
    (c : LocalCache) (rest : List Text) (victim : Text)
    → IsValid c
    → split_last c.lru ≡ some (rest, victim)
    → c.lru ≡ rest ++ victim ∷ []
    → 0 < c.capacity
    → c.capacity ≤ length c.entries
    → Room c
unfolding make_room evict_loop evict_one emit
full_split c rest victim v e split positive full =
    let (coherent, shorter, longer) =
      evict-IsCoherent c.entries rest victim (subst (IsCoherent c.entries) split v.coherent) in
    let n : length c.lru ≡ suc (length rest) = omega (arith, v.coherent.sized) in
    let stop =
      evict_loop_below (length rest) (evict_one rest victim c)
        (omega (arith, v.bounded positive)) in
    evicted rest victim split (ground arith) (omega (arith, v.bounded positive))
      (omega (arith, v.bounded positive)) coherent

pub room : (c : LocalCache) → IsValid c → Room c
unfolding make_room
room c v = elim (Bool-cases (ltb 0 c.capacity && leb c.capacity (length c.entries))) [
  | inr below ↦ enough (rw below) (λ positive. ground arith)
  | inl full ↦ elim (split_last-cases c.lru) [
    | inl (e, empty) ↦
        let zero_len : length c.lru ≡ 0 = ap length empty in
        absurd (ground (arith, v.coherent.sized))
    | inr (rest, victim, e, split) ↦
        full_split c rest victim v e split (ground arith) (ground arith)
  ]
]
