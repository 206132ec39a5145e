-- ===== src/Cache/Local/Preservation.antt =====
-- Every method of LocalCache keeps the invariant.
use mathlib.Core.List.{lookup}
use lark.Base.{
  ℕ, ◌≤◌, ◌<◌, ◌≡◌, refl, true, Option, none, List, length, Text, text_dec, arith, inl, inr,
  Bool-cases, Option-cases,
}
use lark.Base.Int.{ℤ}
use lark.Base.Dict.{erase, is_some, contains}
use lark.Base.Dict.Laws.{length-assign, length-erase, lookup-erase}
use lark.Metric.{Event}
use lark.Cache.Local.{
  LocalCache, Entry, emit, is_expired, get, put, evict_one, make_room, update_entry, insert_entry,
  remove_key, clear, new_local, effective_ttl, new_entry,
}
use lark.Cache.Local.Invariant.{
  IsCoherent, IsValid, touch-IsCoherent, assign-IsCoherent, drop-IsCoherent, push-IsCoherent, Room,
  enough, evicted, room,
}

-- A new cache is valid.
pub new_local-IsValid :
    (capacity : ℕ) (ttl : ℤ) (m : Option (List Event)) → IsValid (new_local capacity ttl m)
unfolding new_local contains lookup
new_local-IsValid capacity ttl m = record {
  coherent = record { covered = λ k. refl; distinct = tt; unique = tt; sized = refl };
  bounded = λ h. omega arith;
}

drop-bounded :
    (c : LocalCache) (key : Text)
    → is_some (lookup text_dec key c.entries) ≡ true
    → IsValid c
    → 0 < c.capacity
    → length (erase text_dec key c.entries) ≤ c.capacity
drop-bounded c key h v positive =
    omega (arith, v.bounded positive, length-erase text_dec key c.entries v.coherent.unique h)

pub get-IsValid : (now : ℤ) (key : Text) (c : LocalCache) → IsValid c → IsValid (get now key c).0
unfolding get emit
get-IsValid now key c v = elim (Option-cases (lookup text_dec key c.entries)) [
  | inl miss ↦ rw (miss, get) (record { coherent = v.coherent; bounded = v.bounded })
  | inr (e, hit) ↦
      let present : is_some (lookup text_dec key c.entries) ≡ true = rw hit in
      elim (Bool-cases (is_expired e now)) [
        | inl old ↦
            rw (hit, get, old)
              (record {
                coherent = drop-IsCoherent key v.coherent present;
                bounded = drop-bounded c key present v;
              })
        | inr fresh ↦
            rw (hit, get, fresh)
              (record { coherent = touch-IsCoherent key v.coherent present; bounded = v.bounded })
      ]
]

update-IsValid :
    (key : Text) (e : Entry) (c : LocalCache)
    → is_some (lookup text_dec key c.entries) ≡ true
    → IsValid c
    → IsValid (update_entry key e c)
unfolding update_entry emit
update-IsValid key e c present v = record {
  coherent = assign-IsCoherent key (touch-IsCoherent key v.coherent present) e present;
  bounded = λ positive. ground (arith, length-assign text_dec key e c.entries, v.bounded positive);
}

insert-IsValid :
    (key : Text) (e : Entry) (c : LocalCache)
    → lookup text_dec key c.entries ≡ none
    → IsCoherent c.entries c.lru
    → (0 < c.capacity → length c.entries < c.capacity)
    → IsValid (insert_entry key e c)
unfolding insert_entry emit
insert-IsValid key e c absent v below = record {
  coherent = push-IsCoherent key v e absent;
  bounded = λ positive. ground (arith, length-assign text_dec key e c.entries, below positive);
}

module _ (rest : List Text) (victim : Text) (c : LocalCache) where
  pub evict-absent :
      (key : Text)
      → lookup text_dec key c.entries ≡ none
      → lookup text_dec key (evict_one rest victim c).entries ≡ none
  unfolding evict_one emit
  evict-absent key h = ground (arith, lookup-erase text_dec victim key c.entries)

  pub evict-IsCoherent :
      IsCoherent (erase text_dec victim c.entries) rest
      → IsCoherent (evict_one rest victim c).entries (evict_one rest victim c).lru
  unfolding evict_one emit
  evict-IsCoherent v = v

  evict-below :
      length (erase text_dec victim c.entries) < c.capacity
      → length (evict_one rest victim c).entries < (evict_one rest victim c).capacity
  unfolding evict_one emit
  evict-below h = h

-- Storing into a cache where the key is new, after room was made.
put-new-IsValid :
    (key : Text) (e : Entry) (c : LocalCache)
    → lookup text_dec key c.entries ≡ none
    → IsValid c
    → Room c
    → IsValid (insert_entry key e (make_room c))
put-new-IsValid key e c absent v (enough same below) =
    rw same (insert-IsValid key e c absent v.coherent below)
put-new-IsValid key e c absent v (evicted rest victim split done full short coherent) = rw done (
    insert-IsValid key e (evict_one rest victim c) (evict-absent rest victim c key absent)
      (evict-IsCoherent rest victim c coherent)
      (λ positive. evict-below rest victim c (omega (arith, full, short, coherent.sized))))

pub put-IsValid :
    (now : ℤ) (key value : Text) (ttl : ℤ) (c : LocalCache)
    → IsValid c
    → IsValid (put now key value ttl c)
unfolding put
put-IsValid now key value ttl c v = elim (Option-cases (lookup text_dec key c.entries)) [
  | inl absent ↦
      rw (absent, put)
        (put-new-IsValid key (new_entry now value (effective_ttl c ttl)) c absent v (room c v))
  | inr (old, hit) ↦
      rw (hit, put) (update-IsValid key (new_entry now value (effective_ttl c ttl)) c (rw hit) v)
]

remove_key-IsValid : (key : Text) (c : LocalCache) → IsValid c → IsValid (remove_key key c).0
unfolding remove_key emit
remove_key-IsValid key c v = elim (Option-cases (lookup text_dec key c.entries)) [
  | inl absent ↦ rw (absent, remove_key) v
  | inr (e, hit) ↦
      rw (hit, remove_key)
        (record {
          coherent = drop-IsCoherent key v.coherent (rw hit);
          bounded = drop-bounded c key (rw hit) v;
        })
]

clear-IsValid : (c : LocalCache) → IsValid (clear c)
unfolding clear emit contains lookup
clear-IsValid c = record {
  coherent = record { covered = λ k. refl; distinct = tt; unique = tt; sized = refl };
  bounded = λ h. omega arith;
}

-- Every method keeps the invariant that the keys of the entries and of the LRU list agree, without
-- duplicates, within the capacity: reading (a hit, a miss, or an expired entry that is dropped),
-- storing (the key is there, is new, or another key has to go), removing and clearing.
pub ops-IsValid :
    (now : ℤ) (key value : Text) (ttl : ℤ) (c : LocalCache)
    → IsValid c
    → IsValid (get now key c).0
      × IsValid (put now key value ttl c)
      × IsValid (remove_key key c).0
      × IsValid (clear c)
ops-IsValid now key value ttl c v = (
  get-IsValid now key c v,
  put-IsValid now key value ttl c v,
  remove_key-IsValid key c v,
  clear-IsValid c,
)
