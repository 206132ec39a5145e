-- ===== src/Rpc/Factory.antt =====
-- RpcFactory (rpc/src/rpc/backend.cpp): the backends by name. What a factory function gives is a
-- parameter: a backend of type B, or an exception.
use mathlib.Core.List.{lookup}
use lark.Base.{
  ◌≡◌, ap, Bool, true, false, none, some, Option-cases, inl, inr, List, [], ◌∷◌, ◌++◌, Text, text,
  text_dec, is_empty, if◌then◌else◌, arith,
}
use lark.Base.Dict.{contains, emplace, keys, is_some}
use lark.Base.Dict.Laws.{lookup-append}
use mathlib.Core.List.{map-append}
use lark.Base.Result.{Result, done, throw, invalid_argument, out_of_range}

-- The loop over Available that writes `list`; the names come in the map's order.
unfoldable pub name_list : List Text → Text → Text
name_list [] list = list
name_list (name ∷ names) list =
    name_list names ((if is_empty list then list else list ++ text ", ") ++ name)

-- `factories_`.
abbrev pub RpcFactory : Type 0 → Type 0
RpcFactory B = List (Text × Result B)

module _ {B : Type 0} where
  unfoldable pub register_backend : Text → Result B → RpcFactory B → Result (RpcFactory B)
  unfolding emplace
  register_backend name factory r =
      let (r', inserted) = emplace text_dec name factory r in
      if inserted
      then done r'
      else throw (invalid_argument (text "RpcFactory: duplicate backend name"))

  unfoldable pub available : RpcFactory B → List Text
  available r = keys r

  unfoldable pub create_backend : RpcFactory B → Text → Result B
  unfolding name_list available
  create_backend r name = elim (lookup text_dec name r) [
    | some factory ↦ factory
    | none ↦ throw (
        out_of_range (
          text "RpcFactory: unknown backend '"
          ++ (name ++ (text "' (available: " ++ (name_list (available r) [] ++ text ")")))))
  ]

  unfoldable pub has_backend : RpcFactory B → Text → Bool
  has_backend r name = is_some (lookup text_dec name r)

  -- What Register does.
  pub data Registered (name : Text) (factory : Result B) (r : RpcFactory B)
      : Result (RpcFactory B) → Type 0 where
    refused :
        (e : Text)
        → has_backend r name ≡ true
        → Registered name factory r (throw (invalid_argument e))
    added :
        (r' : RpcFactory B)
        → has_backend r name ≡ false
        → create_backend r' name ≡ factory
        → ((q : Text) → has_backend r q ≡ true → create_backend r' q ≡ create_backend r q)
        → ((q : Text)
            → contains text_dec q (available r') ≡ contains text_dec q (available r ++ name ∷ []))
        → Registered name factory r (done r')

  -- Register refuses a name that Contains finds. It accepts any other name: then Create gives what
  -- the new factory gives for it, still what it gave for each name that Contains found before, and
  -- Available has the one name more, in some order.
  pub register_backend-Registered :
      (name : Text) (factory : Result B) (r : RpcFactory B)
      → Registered name factory r (register_backend name factory r)
  unfolding register_backend emplace has_backend create_backend available lookup
  register_backend-Registered name factory r = elim (Option-cases (lookup text_dec name r)) [
    | inr (old, there) ↦ rw (there, emplace, register_backend) (refused _ (ap is_some there))
    | inl new ↦
        rw (new, emplace, register_backend)
          (added _ (ap is_some new)
            (ground (arith, new, lookup-append text_dec name r ((name, factory) ∷ [])))
            (λ q h. elim (Option-cases (lookup text_dec q r)) [
              | inl gone ↦ ground (arith, gone, h)
              | inr (f, here) ↦
                  ground (arith, here, lookup-append text_dec q r ((name, factory) ∷ []))
            ])
            (λ q.
              ap (contains text_dec q)
                (map-append (λ (e : Text × Result B). e.0) r ((name, factory) ∷ []))))
  ]
