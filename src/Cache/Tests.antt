-- ===== src/Cache/Tests.antt =====
-- The caches at concrete inputs: a local cache of two keys, full, and a client of it.
use mathlib.Core.List.{lookup}
use lark.Base.{
  arith, ◌≤◌, ◌<◌, ◌≡◌, ◌⊎◌, refl, some, none, List, [], ◌∷◌, length, Text, text, text_dec,
}
use lark.Base.Dict.{assign}
use lark.Base.Int.{ℤ, pos, negsuc, ltb_ℤ, ◌+ℤ◌, ◌*ℤ◌}
use lark.Base.Result.{done}
use lark.Rpc.InProc.{RpcEndpoint, InProcRegistry, find_service}
use lark.Cache.Local.{
  clear, LocalCache, new_local, get, put, remove_key, is_expired, new_entry, effective_ttl,
  evict_loop, insert_entry, update_entry, make_room, emit,
}
use lark.Cache.Local.Invariant.{IsValid}
use lark.Cache.Local.Preservation.{new_local-IsValid, put-IsValid, ops-IsValid}
use lark.Cache.Local.View.{view}
use lark.Cache.Local.Reads.{get-put, evict_loop_ends, Evicts, put_full}
use lark.Cache.Service.{cache_service}
use lark.Cache.Remote.{RemoteCache, resolve_ttl}
use lark.Cache.Remote.Runs.{Sendable, served_channel, remote_run, remote_run-local}
use lark.Cache.Local.Runs
use lark.Cache.Local.Runs.{Operation, local_run, spec_run, local_run-spec_run}

abbrev key_a : Text
key_a = text "a"

abbrev key_b : Text
key_b = text "b"

abbrev key_c : Text
key_c = text "c"

abbrev one_key : LocalCache
one_key = put (pos 0) key_a (text "1") (pos 5) (new_local 2 (pos 0) (some []))

abbrev full : LocalCache
full = put (pos 1) key_b (text "2") (pos 0) one_key

full-IsValid : IsValid full
full-IsValid = put-IsValid (pos 1) key_b (text "2") (pos 0) one_key (
    put-IsValid (pos 0) key_a (text "1") (pos 5) (new_local 2 (pos 0) (some []))
      (new_local-IsValid 2 (pos 0) (some [])))

full_lru : length full.lru ≤ 2
unfolding put new_local update_entry insert_entry make_room emit lookup text_dec assign
full_lru = omega arith

full_has_not_c : lookup text_dec key_c full.entries ≡ none
unfolding put new_local insert_entry make_room emit lookup text_dec assign
full_has_not_c = refl

full_capacity : 0 < full.capacity
unfolding put new_local insert_entry make_room emit lookup text_dec assign
full_capacity = omega arith

full_size : full.capacity ≤ length full.entries
unfolding put new_local insert_entry make_room emit lookup text_dec assign
full_size = omega arith

-- Key `key_a` expires 5 milliseconds after its store.
get_before : (get (pos 4_999_999) key_a full).1 ≡ some (text "1")
unfolding get put new_local insert_entry make_room emit lookup text_dec assign is_expired
    effective_ttl new_entry ltb_ℤ ◌+ℤ◌ ◌*ℤ◌
get_before = refl

get_after : (get (pos 5_000_000) key_a full).1 ≡ none
unfolding get put new_local insert_entry make_room emit lookup text_dec assign is_expired
    effective_ttl new_entry ltb_ℤ ◌+ℤ◌ ◌*ℤ◌
get_after = refl

ops-IsValid_example :
    IsValid (get (pos 6_000_000) key_a full).0
    × IsValid (put (pos 6_000_000) key_a (text "3") (pos 0) full)
    × IsValid (remove_key key_a full).0
    × IsValid (clear full)
ops-IsValid_example = ops-IsValid (pos 6_000_000) key_a (text "3") (pos 0) full full-IsValid

get-put_example : (get (pos 4_000_003) key_c (put (pos 3) key_c (text "3") (pos 4) full)).1 ≡ none
unfolding ◌+ℤ◌ ◌*ℤ◌
get-put_example = get-put (pos 3) (pos 4_000_003) key_c (text "3") (pos 4) full

evict_loop_ends_example :
    ((evict_loop 2 full).lru ≡ []) ⊎ (length (evict_loop 2 full).entries < full.capacity)
evict_loop_ends_example = evict_loop_ends 2 full full_lru

put_full_example : Evicts full key_c (put (pos 3) key_c (text "3") (pos 0) full)
put_full_example =
    put_full (pos 3) key_c (text "3") (pos 0) full full-IsValid full_has_not_c full_capacity
      full_size

abbrev address : RpcEndpoint
address = record { scheme = text "inproc"; address = text "cache" }

abbrev registry : ℤ → InProcRegistry LocalCache
registry now = (text "cache", cache_service now (text "cache")) ∷ []

abbrev client : RemoteCache
client = record { default_ttl = pos 7; monitor = some []; service = text "cache" }

served :
    (now : ℤ) → find_service client.service (registry now) ≡ some (cache_service now client.service)
unfolding lookup text_dec
served now = refl

abbrev operations : List Operation
operations =
    Runs.put (pos 0) key_a (text "1") (pos 5)
    ∷ Runs.get (pos 1) key_a
    ∷ Runs.put (pos 2) key_b (text "2") (negsuc 0)
    ∷ Runs.get (pos 6_000_000) key_a
    ∷ Runs.remove (pos 6_000_001) key_b
    ∷ Runs.clear (pos 6_000_002)
    ∷ []

operations-Sendable : Sendable (resolve_ttl client) operations
unfolding resolve_ttl
operations-Sendable = (omega arith, omega arith, (omega arith, omega arith, tt))

remote_run-local_example :
    remote_run (served_channel address registry (pos 3)) operations client full
    ≡ done (local_run (resolve_ttl client) operations full)
remote_run-local_example =
    remote_run-local address registry (pos 3) operations client full served operations-Sendable

local_run-spec_run_example :
    ((local_run (λ t. t) operations full).0
      ≡ (spec_run full.capacity full.default_ttl (λ t. t) operations (view full)).0)
    × (view (local_run (λ t. t) operations full).1
        ≡ (spec_run full.capacity full.default_ttl (λ t. t) operations (view full)).1)
local_run-spec_run_example = local_run-spec_run (λ t. t) operations full full-IsValid
