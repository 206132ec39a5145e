-- ===== src/Cache/Local/Refinement.antt =====
-- LocalCache behaves as the abstract cache.
use mathlib.Core.List.{lookup}
use mathlib.Core.Path.{subst}
use lark.Base.{
  ℕ, zero, suc, ◌+◌, ◌-◌, ◌≤◌, ◌<◌, ◌≡◌, ◌∙◌, sym, refl, ap, false, none, some, List, [], ◌∷◌, ◌++◌,
  length, Text, text_dec, arith, inl, inr, Option-cases, ltb, if◌then◌else◌, take,
}
use lark.Base.Int.{ℤ}
use lark.Base.Dict.{remove, erase, is_some, contains, Distinct}
use lark.Base.Dict.Laws.{erase_absent, contains-remove, lookup-assign, Distinct-append}
use lark.Cache.Local.{
  Entry, LocalCache, emit, get, put, evict_one, make_room, update_entry, insert_entry, remove_key,
  effective_ttl, new_entry,
}
use lark.Cache.Local.Invariant.{IsCoherent, IsValid, Room, enough, evicted, room}
use lark.Cache.Local.Preservation.{evict-absent, evict-IsCoherent}
use lark.Cache.Local.View.{
  spec_get, spec_put, items_of, view, lookup-items_of, items_of-remove, items_of-erase,
  items_of-assign, items_of-append, length-items_of,
}

pub lookup-view :
    (c : LocalCache) (k : Text)
    → IsValid c
    → lookup text_dec k (view c) ≡ lookup text_dec k c.entries
unfolding view
lookup-view c k v = ground (arith, lookup-items_of k c.entries c.lru, v.coherent.covered k)

pub length-view : (c : LocalCache) → IsValid c → length (view c) ≡ length c.lru
unfolding view
length-view c v = length-items_of c.entries c.lru (λ k h. sym (v.coherent.covered k) ∙ h)

-- The key itself is gone from what is shown after `remove`.
absent_after_remove :
    (k : Text) (ks : List Text) → contains text_dec k (remove text_dec k ks) ≡ false
absent_after_remove k ks = ground (arith, contains-remove text_dec k k ks)

-- On a valid cache, a read returns what the abstract read returns, and shows the same items in
-- the same order afterwards.
pub view-get :
    (now : ℤ) (key : Text) (c : LocalCache)
    → IsValid c
    → (view (get now key c).0 ≡ (spec_get now key (view c)).0)
      × ((get now key c).1 ≡ (spec_get now key (view c)).1)
unfolding get emit view spec_get items_of
view-get now key c v = ground (
  arith,
  lookup-view c key v,
  items_of-remove key c.entries c.lru,
  items_of-erase key c.entries (remove text_dec key c.lru),
  absent_after_remove key c.lru,
)

-- On a valid cache, a removal takes exactly the key out of what is shown, and returns whether it
-- was shown.
pub view-remove_key :
    (key : Text) (c : LocalCache)
    → IsValid c
    → (view (remove_key key c).0 ≡ erase text_dec key (view c))
      × ((remove_key key c).1 ≡ is_some (lookup text_dec key (view c)))
unfolding remove_key emit view
view-remove_key key c v = ground (
  arith,
  lookup-view c key v,
  items_of-remove key c.entries c.lru,
  items_of-erase key c.entries (remove text_dec key c.lru),
  absent_after_remove key c.lru,
  erase_absent text_dec key (view c),
)

take_append : (xs ys : List (Text × Entry)) → take (length xs) (xs ++ ys) ≡ xs
take_append [] ys = refl
take_append (x ∷ xs) ys = ap (◌∷◌ x) (take_append xs ys)

take_all : (n : ℕ) (xs : List (Text × Entry)) → length xs ≤ n → take n xs ≡ xs
take_all zero [] h = refl
take_all zero (x ∷ xs) h = absurd (omega arith)
take_all (suc n) [] h = refl
take_all (suc n) (x ∷ xs) h = ap (◌∷◌ x) (take_all n xs (omega arith))

-- The rest of a coherent pair shows one entry for each key.
length-rest :
    (m : List (Text × Entry)) (rest : List Text)
    → IsCoherent m rest
    → length (items_of m rest) ≡ length rest
length-rest m rest v = length-items_of m rest (λ k h. sym (v.covered k) ∙ h)

-- What the eviction of the last key shows: all entries but the last.
view-evict_one :
    (c : LocalCache) (rest : List Text) (victim : Text)
    → IsValid c
    → c.lru ≡ rest ++ victim ∷ []
    → length rest + 1 ≡ c.capacity
    → IsCoherent (erase text_dec victim c.entries) rest
    → view (evict_one rest victim c) ≡ take (c.capacity - 1) (view c)
unfolding view evict_one emit
view-evict_one c rest victim v split short coherent =
    let (d, absent) =
      Distinct-append text_dec rest victim (subst (Distinct text_dec) split v.coherent.distinct) in
    let same = items_of-erase victim c.entries rest absent in
    let n : length (items_of c.entries rest) ≡ c.capacity - 1 =
      omega (arith, ap length same, length-rest _ rest coherent, short) in
    rw (split, items_of-append c.entries rest (victim ∷ []), ← n, take_append) same

-- A new key: make room, then add.
view-insert :
    (key : Text) (e : Entry) (c : LocalCache)
    → lookup text_dec key c.entries ≡ none
    → contains text_dec key c.lru ≡ false
    → view (insert_entry key e c) ≡ (key, e) ∷ view c
unfolding view insert_entry emit items_of
view-insert key e c absent unlisted =
    ground
      (arith, lookup-assign text_dec key key e c.entries, items_of-assign key e c.entries c.lru)

put_absent :
    (now : ℤ) (key value : Text) (ttl : ℤ) (c : LocalCache)
    → lookup text_dec key c.entries ≡ none
    → put now key value ttl c
      ≡ insert_entry key (new_entry now value (effective_ttl c ttl)) (make_room c)
unfolding put
put_absent now key value ttl c h = rw (h, put)

spec_put_absent :
    (capacity : ℕ) (key : Text) (e : Entry) (items : List (Text × Entry))
    → lookup text_dec key items ≡ none
    → spec_put capacity key e items
      ≡ (key, e) ∷ (if ltb 0 capacity then take (capacity - 1) items else items)
unfolding spec_put
spec_put_absent capacity key e items h = rw (h, spec_put)

view-put-old :
    (now : ℤ) (key value : Text) (ttl : ℤ) (c : LocalCache) (old : Entry)
    → lookup text_dec key c.entries ≡ some old
    → IsValid c
    → view (put now key value ttl c)
      ≡ spec_put c.capacity key (new_entry now value (effective_ttl c ttl)) (view c)
unfolding put view update_entry emit spec_put items_of
view-put-old now key value ttl c old hit v =
    let e = new_entry now value (effective_ttl c ttl) in
    ground (
      arith,
      lookup-view c key v,
      lookup-assign text_dec key key e c.entries,
      items_of-remove key c.entries c.lru,
      items_of-assign key e c.entries (remove text_dec key c.lru),
      absent_after_remove key c.lru,
    )

view-put-new :
    (key : Text) (e : Entry) (c : LocalCache)
    → lookup text_dec key c.entries ≡ none
    → IsValid c
    → Room c
    → view (insert_entry key e (make_room c))
      ≡ (key, e) ∷ (if ltb 0 c.capacity then take (c.capacity - 1) (view c) else view c)
view-put-new key e c absent v (enough same below) =
    let unlisted : contains text_dec key c.lru ≡ false = ground (arith, v.coherent.covered key) in
    let n : 0 < c.capacity → length (view c) < c.capacity =
      λ positive. omega (arith, below positive, length-view c v, v.coherent.sized) in
    rw (same, view-insert key e c absent unlisted)
      (ground (arith, n, take_all (c.capacity - 1) (view c)))
view-put-new key e c absent v (evicted rest victim split done full short coherent) =
    let there = evict-IsCoherent rest victim c coherent in
    let gone = evict-absent rest victim c key absent in
    let unlisted : contains text_dec key (evict_one rest victim c).lru ≡ false =
      ground (arith, there.covered key) in
    rw (done, view-insert key e (evict_one rest victim c) gone unlisted)
      (ground (arith, view-evict_one c rest victim v split short coherent))

-- On a valid cache, a store shows what the abstract store shows: the key with its new entry in
-- front, its old entry gone, and otherwise the most recent items that the capacity leaves room
-- for.
pub view-put :
    (now : ℤ) (key value : Text) (ttl : ℤ) (c : LocalCache)
    → IsValid c
    → view (put now key value ttl c)
      ≡ spec_put c.capacity key (new_entry now value (effective_ttl c ttl)) (view c)
view-put now key value ttl c v =
    let e = new_entry now value (effective_ttl c ttl) in
    elim (Option-cases (lookup text_dec key c.entries)) [
      | inl absent ↦
          rw
            (
              put_absent now key value ttl c absent,
              spec_put_absent c.capacity key e (view c) (lookup-view c key v ∙ absent),
            )
            (view-put-new key e c absent v (room c v))
      | inr (old, hit) ↦ view-put-old now key value ttl c old hit v
    ]
