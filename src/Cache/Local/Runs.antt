-- ===== src/Cache/Local/Runs.antt =====
-- Sequences of operations on a LocalCache, beside the same sequence on the abstract cache.
use mathlib.Core.List.{lookup}
use lark.Base.{
  ℕ, zero, suc, ◌≡◌, refl, ap, ◌∙◌, Bool, Option, List, [], ◌∷◌, Text, text_dec, length, arith,
  Option-cases, inl, inr, if◌then◌else◌,
}
use lark.Base.Dict.{erase, is_some, split_last}
use lark.Base.Int.{ℤ, pos, ltb_ℤ}
use lark.Cache.Local
use lark.Cache.Local.{
  Entry, LocalCache, emit, evict_one, evict_loop, make_room, update_entry, insert_entry,
  effective_ttl, new_entry,
}
use lark.Cache.Local.Invariant.{IsValid}
use lark.Cache.Local.Preservation.{ops-IsValid}
use lark.Cache.Local.View.{spec_get, spec_put, items_of, view}
use lark.Cache.Local.Refinement.{view-get, view-put, view-remove_key}

-- A client's operation, at a time that the server's clock shows.
pub data Operation : Type 0 where
  get : ℤ → Text → Operation
  put : ℤ → Text → Text → ℤ → Operation
  remove : ℤ → Text → Operation
  clear : ℤ → Operation

-- What the client sees.
pub data Answer : Type 0 where
  read : Option Text → Answer
  removed : Bool → Answer
  nothing : Answer

-- The same on the local cache, whose expiry times are those that the client resolved.
unfoldable pub local_step : (ℤ → ℤ) → Operation → LocalCache → Answer × LocalCache
local_step resolve (get now key) w = (read (Local.get now key w).1, (Local.get now key w).0)
local_step resolve (put now key value ttl) w = (nothing, Local.put now key value (resolve ttl) w)
local_step resolve (remove now key) w =
    (removed (Local.remove_key key w).1, (Local.remove_key key w).0)
local_step resolve (clear now) w = (nothing, Local.clear w)

unfoldable pub local_run : (ℤ → ℤ) → List Operation → LocalCache → List Answer × LocalCache
unfolding local_step
local_run resolve [] w = ([], w)
local_run resolve (op ∷ ops) w =
    let (a, w') = local_step resolve op w in
    let (rest, end) = local_run resolve ops w' in (a ∷ rest, end)

-- The expiry time that an abstract cache with a default gives an entry.
abbrev pub spec_ttl : ℤ → ℤ → ℤ
spec_ttl default_ttl ttl = if ltb_ℤ (pos 0) ttl then ttl else default_ttl

-- One operation on the abstract cache of a capacity and a default expiry time.
pub spec_step : ℕ → ℤ → (ℤ → ℤ) → Operation → List (Text × Entry) → Answer × List (Text × Entry)
spec_step capacity default_ttl resolve (get now key) items =
    (read (spec_get now key items).1, (spec_get now key items).0)
spec_step capacity default_ttl resolve (put now key value ttl) items = (
  nothing,
  spec_put capacity key (new_entry now value (spec_ttl default_ttl (resolve ttl))) items,
)
spec_step capacity default_ttl resolve (remove now key) items =
    (removed (is_some (lookup text_dec key items)), erase text_dec key items)
spec_step capacity default_ttl resolve (clear now) items = (nothing, [])

pub spec_run :
    ℕ → ℤ → (ℤ → ℤ) → List Operation → List (Text × Entry) → List Answer × List (Text × Entry)
unfolding spec_step
spec_run capacity default_ttl resolve [] items = ([], items)
spec_run capacity default_ttl resolve (op ∷ ops) items =
    let (a, items') = spec_step capacity default_ttl resolve op items in
    let (rest, end) = spec_run capacity default_ttl resolve ops items' in (a ∷ rest, end)

-- The options do not change.
abbrev SameOptions : LocalCache → LocalCache → Type 0
SameOptions c d = (d.capacity ≡ c.capacity) × (d.default_ttl ≡ c.default_ttl)

evict_loop-SameOptions : (fuel : ℕ) (c : LocalCache) → SameOptions c (evict_loop fuel c)
unfolding evict_loop evict_one emit
evict_loop-SameOptions zero c = (refl, refl)
evict_loop-SameOptions (suc fuel) c = elim (Option-cases (split_last c.lru)) [
  | inl e ↦ (ground (arith, e), ground (arith, e))
  | inr ((rest, victim), e) ↦
      let ih = evict_loop-SameOptions fuel (evict_one rest victim c) in
      (ground (arith, e, ih), ground (arith, e, ih))
]

put-SameOptions :
    (now : ℤ) (key value : Text) (ttl : ℤ) (c : LocalCache)
    → SameOptions c (Local.put now key value ttl c)
unfolding Local.put make_room insert_entry update_entry emit
put-SameOptions now key value ttl c = ground (arith, evict_loop-SameOptions (length c.lru) c)

step-SameOptions :
    (resolve : ℤ → ℤ) (op : Operation) (c : LocalCache) → SameOptions c (local_step resolve op c).1
unfolding local_step Local.get Local.remove_key Local.clear emit
step-SameOptions resolve (get now key) c = ground arith
step-SameOptions resolve (put now key value ttl) c = put-SameOptions now key value (resolve ttl) c
step-SameOptions resolve (remove now key) c = ground arith
step-SameOptions resolve (clear now) c = (refl, refl)

view-put-ttl :
    (now : ℤ) (key value : Text) (ttl : ℤ) (c : LocalCache)
    → IsValid c
    → view (Local.put now key value ttl c)
      ≡ spec_put c.capacity key (new_entry now value (spec_ttl c.default_ttl ttl)) (view c)
unfolding effective_ttl
view-put-ttl now key value ttl c v = view-put now key value ttl c v

view-clear : (c : LocalCache) → view (Local.clear c) ≡ []
unfolding Local.clear view items_of emit
view-clear c = refl

step-IsValid :
    (resolve : ℤ → ℤ) (op : Operation) (c : LocalCache)
    → IsValid c
    → IsValid (local_step resolve op c).1
unfolding local_step
step-IsValid resolve (get now key) c v = (ops-IsValid now key [] (pos 0) c v).0
step-IsValid resolve (put now key value ttl) c v = (ops-IsValid now key value (resolve ttl) c v).1
step-IsValid resolve (remove now key) c v = (ops-IsValid now key [] (pos 0) c v).2
step-IsValid resolve (clear now) c v = (ops-IsValid now [] [] (pos 0) c v).3

-- One operation answers and leaves what the abstract one does.
abbrev StepAgrees : (ℤ → ℤ) → Operation → LocalCache → Type 0
StepAgrees resolve op c =
    ((local_step resolve op c).0 ≡ (spec_step c.capacity c.default_ttl resolve op (view c)).0)
    × (view (local_step resolve op c).1
        ≡ (spec_step c.capacity c.default_ttl resolve op (view c)).1)

step_agrees :
    (resolve : ℤ → ℤ) (op : Operation) (c : LocalCache) → IsValid c → StepAgrees resolve op c
unfolding local_step spec_step
step_agrees resolve (get now key) c v =
    let (left, answer) = view-get now key c v in (ap read answer, left)
step_agrees resolve (put now key value ttl) c v =
    (refl, view-put-ttl now key value (resolve ttl) c v)
step_agrees resolve (remove now key) c v =
    let (left, answer) = view-remove_key key c v in (ap removed answer, left)
step_agrees resolve (clear now) c v = (refl, view-clear c)

-- On a valid cache, any sequence of reads, stores, removals and clears, whatever the times and the
-- expiry times, answers what the same sequence on the abstract cache answers, and shows afterwards
-- what that has become.
pub local_run-spec_run :
    (resolve : ℤ → ℤ) (ops : List Operation) (c : LocalCache)
    → IsValid c
    → ((local_run resolve ops c).0 ≡ (spec_run c.capacity c.default_ttl resolve ops (view c)).0)
      × (view (local_run resolve ops c).1
          ≡ (spec_run c.capacity c.default_ttl resolve ops (view c)).1)
unfolding local_run spec_run
local_run-spec_run resolve [] c v = (refl, refl)
local_run-spec_run resolve (op ∷ ops) c v =
    let (answer, left) = step_agrees resolve op c v in
    let (capacity, default_ttl) = step-SameOptions resolve op c in
    let (answers, end) =
      local_run-spec_run resolve ops (local_step resolve op c).1 (step-IsValid resolve op c v) in
    let w = (local_step resolve op c).1 in
    let items = (spec_step c.capacity c.default_ttl resolve op (view c)).1 in
    let moved : spec_run w.capacity w.default_ttl resolve ops (view w)
        ≡ spec_run c.capacity c.default_ttl resolve ops items =
      ap (λ k. spec_run k w.default_ttl resolve ops (view w)) capacity
      ∙ ap (λ t. spec_run c.capacity t resolve ops (view w)) default_ttl
      ∙ ap (spec_run c.capacity c.default_ttl resolve ops) left in
    (
      ap (λ a. a ∷ (local_run resolve ops w).0) answer
          ∙ ap (λ as'. (spec_step c.capacity c.default_ttl resolve op (view c)).0 ∷ as')
              (answers ∙ ap (λ p. p.0) moved),
      end ∙ ap (λ p. p.1) moved,
    )
