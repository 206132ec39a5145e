-- ===== src/Rpc/InProc/Server/Lifecycle.antt =====
-- Start and Stop: a server that starts and stops leaves the registry as it was, and what a Start
-- that throws leaves behind.
use mathlib.Core.List.{lookup, append_assoc, append-nil}
use mathlib.Core.Path.{subst}
use lark.Base.{
  ◌≡◌, ◌∙◌, sym, ap, true, false, none, some, List, [], ◌∷◌, ◌++◌, map, Text, text_dec, arith, inl,
  inr, Option-cases,
}
use lark.Base.Dict.{keys, Distinct, erase}
use lark.Base.Dict.Laws.{
  erase_absent, erase-append, erase-Distinct, lookup-append, absent_of_Distinct,
}
use lark.Base.Result.{done, throw, Exception}
use lark.Rpc.{RpcService}
use lark.Rpc.InProc.{InProcRegistry, register, unregister, find_service, duplicate_service}
use lark.Rpc.InProc.Server.{InProcServer, register_all, unregister_all, start, stop}

module _ {W : Type 0} where
  -- The entries that a server adds.
  abbrev pub entries_of : List (RpcService W) → InProcRegistry W
  entries_of = map (λ (svc : RpcService W). (svc.name, svc))

  register_free :
      (name : Text) (svc : RpcService W) (r : InProcRegistry W)
      → lookup text_dec name r ≡ none
      → register name svc r ≡ done (r ++ (name, svc) ∷ [])
  unfolding register
  register_free name svc r h = ground arith

  register_taken :
      (name : Text) (svc : RpcService W) (r : InProcRegistry W) (old : RpcService W)
      → lookup text_dec name r ≡ some old
      → register name svc r ≡ throw (duplicate_service name)
  unfolding register
  register_taken name svc r old h = ground arith

  register_all_free :
      (svcs : List (RpcService W)) (r : InProcRegistry W)
      → Distinct text_dec (keys (r ++ entries_of svcs))
      → register_all svcs r ≡ (r ++ entries_of svcs, none)
  unfolding register_all
  register_all_free [] r d = rw append-nil
  register_all_free (svc ∷ svcs) r d =
      let (free, _) = absent_of_Distinct text_dec r (entries_of svcs) svc.name svc d in
      let shift = append_assoc r ((svc.name, svc) ∷ []) (entries_of svcs) in
      rw (register_free svc.name svc r free, register_all)
        (register_all_free svcs (r ++ (svc.name, svc) ∷ [])
            (subst (λ l. Distinct text_dec (keys l)) (sym shift) d)
          ∙ ap (λ l. (l, none)) shift)

  unregister_middle :
      (r es : InProcRegistry W) (svc : RpcService W)
      → Distinct text_dec (keys (r ++ (svc.name, svc) ∷ es))
      → unregister svc.name (r ++ (svc.name, svc) ∷ es) ≡ r ++ es
  unfolding unregister erase
  unregister_middle r es svc d =
      let (before, after) = absent_of_Distinct text_dec r es svc.name svc d in
      rw (erase-append, erase_absent text_dec svc.name r before)
        (ap (λ l. r ++ l) (ground (arith, erase_absent text_dec svc.name es after)))

  unregister_all_free :
      (svcs : List (RpcService W)) (r : InProcRegistry W)
      → Distinct text_dec (keys (r ++ entries_of svcs))
      → unregister_all svcs (r ++ entries_of svcs) ≡ r
  unfolding unregister_all
  unregister_all_free [] r d = append-nil r
  unregister_all_free (svc ∷ svcs) r d =
      let gone = unregister_middle r (entries_of svcs) svc d in
      rw (gone) (
        unregister_all_free svcs r
          (subst (λ l. Distinct text_dec (keys l)) gone (unregister-Distinct svc.name _ d)))
    where
      unregister-Distinct :
          (name : Text) (l : InProcRegistry W)
          → Distinct text_dec (keys l)
          → Distinct text_dec (keys (unregister name l))
      unregister-Distinct name l h = erase-Distinct text_dec name l h

  -- A stopped server whose service names are new and distinct: Start registers every service and
  -- throws nothing, and Stop then leaves the server and the registry as they were.
  pub start-stop :
      (s : InProcServer W) (r : InProcRegistry W)
      → s.started ≡ false
      → Distinct text_dec (keys (r ++ entries_of s.services))
      → (start s r ≡ (record s { started = true }, r ++ entries_of s.services, none))
        × (stop (record s { started = true }) (r ++ entries_of s.services) ≡ (s, r))
  unfolding start stop
  start-stop s r h d = (
    ground (arith, register_all_free s.services r d),
    ground (arith, unregister_all_free s.services r d),
  )

  register_all-keeps :
      (svcs : List (RpcService W)) (r : InProcRegistry W) (name : Text) (svc : RpcService W)
      → lookup text_dec name r ≡ some svc
      → lookup text_dec name (register_all svcs r).0 ≡ some svc
  unfolding register_all
  register_all-keeps [] r name svc h = h
  register_all-keeps (x ∷ xs) r name svc h = elim (Option-cases (lookup text_dec x.name r)) [
    | inl free ↦
        rw (register_free x.name x r free, register_all)
          (register_all-keeps xs (r ++ (x.name, x) ∷ []) name svc
            (ground (arith, lookup-append text_dec name r ((x.name, x) ∷ []))))
    | inr (old, taken) ↦ rw (register_taken x.name x r old taken, register_all) h
  ]

  register_first :
      (svc : RpcService W) (svcs : List (RpcService W)) (r : InProcRegistry W)
      → lookup text_dec svc.name r ≡ none
      → lookup text_dec svc.name (register_all (svc ∷ svcs) r).0 ≡ some svc
  unfolding register_all lookup
  register_first svc svcs r free =
      rw (register_free svc.name svc r free, register_all)
        (register_all-keeps svcs (r ++ (svc.name, svc) ∷ []) svc.name svc
          (ground (arith, lookup-append text_dec svc.name r ((svc.name, svc) ∷ []))))

  -- Start is not undone by an exception: if a stopped server whose first service is new throws in
  -- Start, it is left as stopped with its first service still registered, and Stop, which is also
  -- the destructor, does not unregister it.
  pub failed_start_leaks :
      (s : InProcServer W) (r : InProcRegistry W) (first : RpcService W)
      (others : List (RpcService W)) (e : Exception)
      → s.started ≡ false
      → s.services ≡ first ∷ others
      → lookup text_dec first.name r ≡ none
      → (start s r).2 ≡ some e
      → ((start s r).0 ≡ s)
        × (find_service first.name (stop (start s r).0 (start s r).1).1 ≡ some first)
  unfolding start stop
  failed_start_leaks s r first others e h split free thrown =
      let kept : lookup text_dec first.name (register_all s.services r).0 ≡ some first =
        rw split (register_first first others r free) in
      ground (arith, kept)
