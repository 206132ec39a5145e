-- ===== src/Rpc/InProc/Server.antt =====
-- InProcServer of rpc/src/rpc/inproc_backend.cpp: its services, registered by Start and
-- unregistered by Stop.
pub mod Lifecycle
use lark.Base.{
  Bool, true, false, Option, none, some, List, [], ◌∷◌, ◌++◌, Text, text, if◌then◌else◌,
}
use lark.Base.Result.{Result, done, throw, Exception, invalid_argument}
use lark.Rpc.{RpcService}
use lark.Rpc.InProc.{RpcEndpoint, InProcRegistry, register, unregister}

pub record InProcServer (W : Type 0) : Type 0 where
  pub endpoint : RpcEndpoint
  pub services : List (RpcService W)
  pub started : Bool

module _ {W : Type 0} where
  unfoldable pub new_server : RpcEndpoint → InProcServer W
  new_server endpoint = record { endpoint = endpoint; services = []; started = false }

  -- `none` is the null pointer.
  unfoldable pub register_service : Option (RpcService W) → InProcServer W → Result (InProcServer W)
  register_service none s = throw (invalid_argument (text "InProcServer: null service"))
  register_service (some service) s = done (record s { services = s.services ++ service ∷ [] })

  -- The loop of Start: the registry as it is left, and the exception that ended the loop.
  unfoldable pub register_all :
      List (RpcService W) → InProcRegistry W → InProcRegistry W × Option Exception
  unfolding register
  register_all [] r = (r, none)
  register_all (svc ∷ svcs) r = elim (register svc.name svc r) [
    | throw e ↦ (r, some e)
    | done r' ↦ register_all svcs r'
  ]

  unfoldable pub unregister_all : List (RpcService W) → InProcRegistry W → InProcRegistry W
  unfolding unregister
  unregister_all [] r = r
  unregister_all (svc ∷ svcs) r = unregister_all svcs (unregister svc.name r)

  unfoldable pub start :
      InProcServer W → InProcRegistry W → InProcServer W × InProcRegistry W × Option Exception
  start s r =
      let (r', thrown) = register_all s.services r in
      if s.started
      then (s, r, none)
      else elim thrown [ none ↦ (record s { started = true }, r', none) | some e ↦ (s, r', some e) ]

  -- Stop, and the destructor.
  unfoldable pub stop : InProcServer W → InProcRegistry W → InProcServer W × InProcRegistry W
  stop s r =
      if s.started then (record s { started = false }, unregister_all s.services r) else (s, r)
