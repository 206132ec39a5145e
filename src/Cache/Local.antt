-- ===== src/Cache/Local.antt =====
-- LocalCache of cache/src/cache.cpp: the in-memory cache with expiry and eviction of the least
-- recently used key. A method runs under the cache's mutex, so it is one step on the state.
pub mod Invariant
pub mod Preservation
pub mod View
pub mod Refinement
pub mod Reads
pub mod Runs
use mathlib.Core.List.{lookup}
use mathlib.Core.Option
use lark.Base.{
  ℕ, zero, suc, ltb, leb, Bool, true, false, not, ◌&&◌, if◌then◌else◌, Option, none, some, List, [],
  ◌∷◌, ◌++◌, length, Text, text, text_dec,
}
use lark.Base.Int.{ℤ, pos, ltb_ℤ, ◌+ℤ◌, ◌*ℤ◌}
use lark.Base.Dict.{remove, erase, assign, split_last, is_some}
use lark.Metric.{Event, event}

-- `expires_at` in nanoseconds of the monotonic clock.
pub record Entry : Type 0 where
  pub value : Text
  pub has_ttl : Bool
  pub expires_at : ℤ

-- The options, `entries_` and `lru_`, most recently used first. `monitor` is `none` where no
-- monitor is attached, and otherwise the events that it was handed, oldest first.
pub record LocalCache : Type 0 where
  pub capacity : ℕ
  pub default_ttl : ℤ
  pub monitor : Option (List Event)
  pub entries : List (Text × Entry)
  pub lru : List Text

unfoldable pub new_local : ℕ → ℤ → Option (List Event) → LocalCache
new_local capacity default_ttl monitor = record {
  capacity = capacity;
  default_ttl = default_ttl;
  monitor = monitor;
  entries = [];
  lru = [];
}

unfoldable pub emit : Text → Text → LocalCache → LocalCache
emit action key c = record c {
  monitor = Option.map (λ log. log ++ event (text "cache") action key ∷ []) c.monitor;
}

unfoldable pub is_expired : Entry → ℤ → Bool
is_expired e now = e.has_ttl && not (ltb_ℤ now e.expires_at)

unfoldable pub get : ℤ → Text → LocalCache → LocalCache × Option Text
get now key c = elim (lookup text_dec key c.entries) [
  | none ↦ (emit (text "cache.miss") key c, none)
  | some e ↦
      if is_expired e now
      then (
        emit (text "cache.miss") key
            (record c { lru = remove text_dec key c.lru; entries = erase text_dec key c.entries }),
        none,
      )
      else (
        emit (text "cache.hit") key (record c { lru = key ∷ remove text_dec key c.lru }),
        some e.value,
      )
]

-- `ttl.count() > 0 ? ttl : options_.default_ttl`, in milliseconds.
unfoldable pub effective_ttl : LocalCache → ℤ → ℤ
effective_ttl c ttl = if ltb_ℤ (pos 0) ttl then ttl else c.default_ttl

unfoldable pub new_entry : ℤ → Text → ℤ → Entry
new_entry now value t = record {
  value = value;
  has_ttl = ltb_ℤ (pos 0) t;
  expires_at = now +ℤ t *ℤ pos 1_000_000;
}

-- One round of the eviction loop: the last key of `lru_` goes.
unfoldable pub evict_one : List Text → Text → LocalCache → LocalCache
evict_one rest victim c =
    emit (text "cache.evict") victim
      (record c { lru = rest; entries = erase text_dec victim c.entries })

-- `while (!lru_.empty() && entries_.size() >= options_.capacity)`. Each round takes one key off
-- `lru_`, so its length is enough fuel.
unfoldable pub evict_loop : ℕ → LocalCache → LocalCache
unfolding evict_one
evict_loop zero c = c
evict_loop (suc fuel) c = elim (split_last c.lru) [
  | none ↦ c
  | some (rest, victim) ↦
      let next = evict_loop fuel (evict_one rest victim c) in
      if leb c.capacity (length c.entries) then next else c
]

unfoldable pub make_room : LocalCache → LocalCache
make_room c =
    if ltb 0 c.capacity && leb c.capacity (length c.entries) then evict_loop (length c.lru) c else c

-- An existing entry is overwritten in place.
unfoldable pub update_entry : Text → Entry → LocalCache → LocalCache
update_entry key e c =
    emit (text "cache.put") key (record c {
      entries = assign text_dec key e c.entries;
      lru = key ∷ remove text_dec key c.lru;
    })

unfoldable pub insert_entry : Text → Entry → LocalCache → LocalCache
insert_entry key e c =
    emit (text "cache.put") key
      (record c { entries = assign text_dec key e c.entries; lru = key ∷ c.lru })

unfoldable pub put : ℤ → Text → Text → ℤ → LocalCache → LocalCache
put now key value ttl c =
    let e = new_entry now value (effective_ttl c ttl) in
    elim (lookup text_dec key c.entries) [
      | none ↦ insert_entry key e (make_room c)
      | some _ ↦ update_entry key e c
    ]

-- `Remove`; the method name of the model is the source's word for its callers.
unfoldable pub remove_key : Text → LocalCache → LocalCache × Bool
remove_key key c = elim (lookup text_dec key c.entries) [
  | none ↦ (c, false)
  | some _ ↦ (
    emit (text "cache.remove") key
        (record c { entries = erase text_dec key c.entries; lru = remove text_dec key c.lru }),
    true,
  )
]

unfoldable pub clear : LocalCache → LocalCache
clear c = emit (text "cache.clear") (text "") (record c { entries = []; lru = [] })

unfoldable pub size : LocalCache → ℕ
size c = length c.entries
