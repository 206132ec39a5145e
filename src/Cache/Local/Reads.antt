-- ===== src/Cache/Local/Reads.antt =====
-- What can be read after a call, what a full cache gives up, and what the monitor is told.
use mathlib.Core.List.{lookup, append_assoc}
use mathlib.Core.Option
use lark.Base.{
  ℕ, zero, suc, ◌≤◌, ◌<◌, ◌≡◌, refl, ap, Option, none, some, List, [], ◌∷◌, ◌++◌, length,
  length-append, Text, text, text_dec, arith, inl, inr, if◌then◌else◌, ◌⊎◌, not, ◌&&◌,
}
use lark.Base.Int.{ℤ, pos, ◌+ℤ◌, ◌*ℤ◌, ltb_ℤ}
use lark.Base.Dict.{assign}
use lark.Base.Dict.Laws.{lookup-assign, split_last-cases}
use lark.Metric.{Event, event}
use lark.Cache.Local.{
  Entry, LocalCache, emit, is_expired, get, put, evict_one, evict_loop, make_room, update_entry,
  insert_entry, effective_ttl, new_entry,
}
use lark.Cache.Local.Invariant.{IsValid, Room, enough, evicted, room}

lookup-update_entry :
    (q key : Text) (e : Entry) (c : LocalCache)
    → (lookup text_dec q (update_entry key e c).entries
        ≡ lookup text_dec q (assign text_dec key e c.entries))
      × (lookup text_dec q (insert_entry key e c).entries
          ≡ lookup text_dec q (assign text_dec key e c.entries))
unfolding update_entry insert_entry emit
lookup-update_entry q key e c = (refl, refl)

-- After a store the key has the new entry.
pub lookup-put_self :
    (now : ℤ) (key value : Text) (ttl : ℤ) (c : LocalCache)
    → lookup text_dec key (put now key value ttl c).entries
      ≡ some (new_entry now value (effective_ttl c ttl))
unfolding put
lookup-put_self now key value ttl c =
    let e = new_entry now value (effective_ttl c ttl) in
    ground (
      arith,
      (lookup-update_entry key key e c).0,
      (lookup-update_entry key key e (make_room c)).1,
      lookup-assign text_dec key key e c.entries,
      lookup-assign text_dec key key e (make_room c).entries,
    )

-- A read of a key after its store returns the stored value, unless the time to live is positive and
-- the clock has gone on by it, or further: then it returns nothing. The time to live is that of the
-- call, in milliseconds, where that is positive, and otherwise the default one of the options; the
-- clock is in nanoseconds.
pub get-put :
    (now later : ℤ) (key value : Text) (ttl : ℤ) (c : LocalCache)
    → let t = if ltb_ℤ (pos 0) ttl then ttl else c.default_ttl in
      let over = not (ltb_ℤ later (now +ℤ t *ℤ pos 1_000_000)) in
      (get later key (put now key value ttl c)).1
      ≡ (if ltb_ℤ (pos 0) t && over then none else some value)
unfolding get new_entry is_expired effective_ttl
get-put now later key value ttl c = ground (arith, lookup-put_self now key value ttl c)

-- With the length of the LRU list as fuel, the eviction loop ends with its condition false: no
-- key is left, or there is room.
pub evict_loop_ends :
    (fuel : ℕ) (c : LocalCache)
    → length c.lru ≤ fuel
    → ((evict_loop fuel c).lru ≡ []) ⊎ (length (evict_loop fuel c).entries < c.capacity)
unfolding evict_loop evict_one emit
evict_loop_ends zero c h = elim (split_last-cases c.lru) [
  | inl (e, empty) ↦ inl empty
  | inr (rest, victim, e, split) ↦
      absurd (omega (arith, ap length split, length-append rest (victim ∷ [])))
]
evict_loop_ends (suc fuel) c h = elim (split_last-cases c.lru) [
  | inl (e, empty) ↦ inl (ground arith)
  | inr (rest, victim, e, split) ↦ ground (
    arith,
    ap length split,
    length-append rest (victim ∷ []),
    evict_loop_ends fuel (evict_one rest victim c),
  )
]

pub record Evicts (c : LocalCache) (key : Text) (c' : LocalCache) : Type 0 where
  pub rest : List Text
  pub victim : Text
  pub was_last : c.lru ≡ rest ++ victim ∷ []
  pub order : c'.lru ≡ key ∷ rest
  pub told :
      c'.monitor
      ≡ Option.map
          (λ log.
            log
            ++ event (text "cache") (text "cache.evict") victim
              ∷ event (text "cache") (text "cache.put") key
              ∷ [])
          c.monitor

told_twice :
    (m : Option (List Event)) (a b : Event)
    → Option.map (λ log. log ++ b ∷ []) (Option.map (λ log. log ++ a ∷ []) m)
      ≡ Option.map (λ log. log ++ a ∷ b ∷ []) m
told_twice none a b = refl
told_twice (some log) a b = ap some (append_assoc log (a ∷ []) (b ∷ []))

evicts :
    (rest : List Text) (victim : Text) (c : LocalCache) (key : Text) (e : Entry)
    → c.lru ≡ rest ++ victim ∷ []
    → Evicts c key (insert_entry key e (evict_one rest victim c))
unfolding insert_entry evict_one emit
evicts rest victim c key e split = record {
  rest = rest;
  victim = victim;
  was_last = split;
  order = refl;
  told = told_twice c.monitor _ _;
}

put-full-Room :
    (now : ℤ) (key value : Text) (ttl : ℤ) (c : LocalCache)
    → lookup text_dec key c.entries ≡ none
    → 0 < c.capacity
    → c.capacity ≤ length c.entries
    → Room c
    → Evicts c key (put now key value ttl c)
unfolding put
put-full-Room now key value ttl c absent positive full (enough same below) =
    absurd (omega (arith, below positive))
put-full-Room now key value ttl c absent positive full (evicted rest victim split done n short v) =
    rw (absent, put, done) (evicts rest victim c key _ split)

-- A store of a new key in a valid cache that is full and has a capacity: exactly the least
-- recently used key leaves the LRU list, the new key comes first, and the monitor is told of the
-- eviction and then of the store.
pub put_full :
    (now : ℤ) (key value : Text) (ttl : ℤ) (c : LocalCache)
    → IsValid c
    → lookup text_dec key c.entries ≡ none
    → 0 < c.capacity
    → c.capacity ≤ length c.entries
    → Evicts c key (put now key value ttl c)
put_full now key value ttl c v absent positive full =
    put-full-Room now key value ttl c absent positive full (room c v)
