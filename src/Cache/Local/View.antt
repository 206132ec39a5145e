-- ===== src/Cache/Local/View.antt =====
-- The abstract cache: a list of entries, most recently used first. And what of it a LocalCache
-- shows: its entries in the order of `lru_`.
use mathlib.Core.List.{lookup}
use lark.Base.{
  ℕ, ◌-◌, ◌≡◌, refl, true, false, Option, none, some, List, [], ◌∷◌, ◌++◌, length, Text, text_dec,
  arith, ltb, if◌then◌else◌, cond, take,
}
use lark.Base.Int.{ℤ}
use lark.Base.Dict.{remove, erase, assign, is_some, contains}
use lark.Base.Dict.Laws.{lookup-erase, lookup-assign}
use lark.Cache.Local.{Entry, LocalCache, is_expired}

-- Reading: an entry that is not expired moves to the front, and an expired one goes.
unfoldable pub spec_get : ℤ → Text → List (Text × Entry) → List (Text × Entry) × Option Text
spec_get now key items = elim (lookup text_dec key items) [
  | none ↦ (items, none)
  | some e ↦
      let others = erase text_dec key items in
      if is_expired e now then (others, none) else ((key, e) ∷ others, some e.value)
]

-- Storing at a capacity (0 is unbounded): the entry comes to the front, and if it is new and the
-- cache is full, the last entry goes.
unfoldable pub spec_put : ℕ → Text → Entry → List (Text × Entry) → List (Text × Entry)
spec_put capacity key e items = elim (lookup text_dec key items) [
  | none ↦ (key, e) ∷ (if ltb 0 capacity then take (capacity - 1) items else items)
  | some _ ↦ (key, e) ∷ erase text_dec key items
]

unfoldable pub items_of : List (Text × Entry) → List Text → List (Text × Entry)
items_of m [] = []
items_of m (k ∷ ks) =
    let rest = items_of m ks in elim (lookup text_dec k m) [ none ↦ rest | some e ↦ (k, e) ∷ rest ]

unfoldable pub view : LocalCache → List (Text × Entry)
view c = items_of c.entries c.lru

pub lookup-items_of :
    (q : Text) (m : List (Text × Entry)) (ks : List Text)
    → lookup text_dec q (items_of m ks) ≡ cond (contains text_dec q ks) (lookup text_dec q m) none
unfolding items_of lookup contains
lookup-items_of q m [] = refl
lookup-items_of q m (k ∷ ks) = ground (arith, lookup-items_of q m ks)

pub items_of-remove :
    (k : Text) (m : List (Text × Entry)) (ks : List Text)
    → items_of m (remove text_dec k ks) ≡ erase text_dec k (items_of m ks)
unfolding items_of remove erase
items_of-remove k m [] = refl
items_of-remove k m (j ∷ ks) = ground (arith, items_of-remove k m ks)

-- An entry whose key is not listed is not shown.
pub items_of-erase :
    (k : Text) (m : List (Text × Entry)) (ks : List Text)
    → contains text_dec k ks ≡ false
    → items_of (erase text_dec k m) ks ≡ items_of m ks
unfolding items_of contains
items_of-erase k m [] h = refl
items_of-erase k m (j ∷ ks) h = ground (arith, items_of-erase k m ks, lookup-erase text_dec k j m)

pub items_of-assign :
    (k : Text) (e : Entry) (m : List (Text × Entry)) (ks : List Text)
    → contains text_dec k ks ≡ false
    → items_of (assign text_dec k e m) ks ≡ items_of m ks
unfolding items_of contains
items_of-assign k e m [] h = refl
items_of-assign k e m (j ∷ ks) h =
    ground (arith, items_of-assign k e m ks, lookup-assign text_dec k j e m)

pub items_of-append :
    (m : List (Text × Entry)) (ks js : List Text)
    → items_of m (ks ++ js) ≡ items_of m ks ++ items_of m js
unfolding items_of
items_of-append m [] js = refl
items_of-append m (k ∷ ks) js = ground (arith, items_of-append m ks js)

-- Where every listed key has an entry, all are shown.
pub length-items_of :
    (m : List (Text × Entry)) (ks : List Text)
    → ((k : Text) → contains text_dec k ks ≡ true → is_some (lookup text_dec k m) ≡ true)
    → length (items_of m ks) ≡ length ks
unfolding items_of contains
length-items_of m [] h = refl
length-items_of m (k ∷ ks) h = ground (arith, h k, length-items_of m ks (λ q i. h q (ground arith)))
