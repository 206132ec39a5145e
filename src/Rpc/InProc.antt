-- ===== src/Rpc/InProc.antt =====
-- rpc/src/rpc/inproc_backend.cpp: the registry of services by name, the channel that calls them,
-- and the server that registers them. The registry is the process-wide InProcRegistry.
pub mod Server
use mathlib.Core.List.{lookup}
use mathlib.Core.Option
use lark.Base.{
  Bool, true, false, Option, none, some, List, [], ◌∷◌, ◌++◌, Text, text, text_dec, if◌then◌else◌,
}
use lark.Base.Dict.{erase, emplace, assign}
use lark.Base.Int.{ℤ}
use lark.Base.Result.{Result, done, throw, Exception, invalid_argument, ◌>>=◌}
use lark.Metric.{Event, event}
use lark.Rpc.{RpcStatus, RpcCode, status, is_ok, RpcMessage, RpcService}

-- rpc/include/rpc/endpoint.h.
pub record RpcEndpoint : Type 0 where
  pub scheme : Text
  pub address : Text

unfoldable pub uri : RpcEndpoint → Text
uri e = e.scheme ++ (text "://" ++ e.address)

-- `monitor`: the events that the attached monitor was handed, oldest first; `none` without one.
-- An in-process call reads nothing else of the options.
pub record RpcCallOptions : Type 0 where
  pub monitor : Option (List Event)

-- Pointers to the registered services, by name.
abbrev pub InProcRegistry : Type 0 → Type 0
InProcRegistry W = List (Text × RpcService W)

abbrev pub duplicate_service : Text → Exception
duplicate_service name =
    invalid_argument (text "InProcRegistry: duplicate service '" ++ (name ++ text "'"))

module _ {W : Type 0} where
  unfoldable pub register : Text → RpcService W → InProcRegistry W → Result (InProcRegistry W)
  unfolding emplace
  register name service r =
      let (r', inserted) = emplace text_dec name service r in
      if inserted then done r' else throw (duplicate_service name)

  unfoldable pub unregister : Text → InProcRegistry W → InProcRegistry W
  unregister name r = erase text_dec name r

  abbrev pub find_service : Text → InProcRegistry W → Option (RpcService W)
  find_service name r = lookup text_dec name r

-- `InProcChannel::Finish`, which the clock says ends `elapsed` nanoseconds after the start.
unfoldable pub finish : RpcEndpoint → RpcCallOptions → Text → Text → ℤ → RpcStatus → RpcCallOptions
unfolding uri
finish endpoint options service method elapsed st =
    let e : Event = record (event (text "rpc") (text "rpc.call") method) {
      attrs =
          assign text_dec (text "endpoint") (uri endpoint)
            (assign text_dec (text "service") service []);
      duration = elapsed;
      ok = is_ok st;
    } in
    record { monitor = Option.map (λ log. log ++ e ∷ []) options.monitor }

module _ {W : Type 0} where
  -- `InProcChannel::Call`: the status, the response, the state behind the services and the options
  -- with what the monitor was told.
  unfoldable pub call :
      RpcEndpoint
      → InProcRegistry W
      → Text
      → Text
      → RpcMessage
      → RpcMessage
      → RpcCallOptions
      → ℤ
      → W
      → Result (RpcStatus × RpcMessage × W × RpcCallOptions)
  unfolding uri
  call endpoint r service method request response options elapsed w =
      elim (find_service service r) [
        | none ↦
            let st = status RpcCode.unavailable (
              text "inproc: no service '"
              ++ (service ++ (text "' registered (endpoint " ++ (uri endpoint ++ text ")")))) in
            done (st, response, w, finish endpoint options service method elapsed st)
        | some svc ↦ do
          (st, response', w') ← svc.dispatch method request response w
          done (st, response', w', finish endpoint options service method elapsed st)
      ]
