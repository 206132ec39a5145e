-- ===== src/Rpc/Tests.antt =====
-- The in-process server at concrete inputs: two servers that offer a service of the same name.
use mathlib.Core.List.{lookup}
use lark.Base.{
  ◌≡◌, refl, true, false, none, some, List, [], ◌∷◌, ◌++◌, Text, text, text_dec, ℕ_discrete,
  if◌then◌else◌,
}
use lark.Base.Dict.{keys, Distinct, contains, emplace}
use lark.Base.Result.{done, throw, out_of_range}
use lark.Rpc.Factory.{
  RpcFactory, name_list, available, create_backend, register_backend, Registered,
  register_backend-Registered,
}
use lark.Rpc.{RpcService, Handler, status, RpcCode, as_service, add_method}
use lark.Toolkit.Str.{has_text}
use lark.Rpc.Endpoint.{parse_endpoint, parse_endpoint-uri}
use lark.Rpc.InProc.{RpcEndpoint, uri, InProcRegistry, register, duplicate_service, find_service}
use lark.Rpc.InProc.Server.{InProcServer, start, stop, register_all}
use lark.Rpc.InProc.Server.Lifecycle.{entries_of, start-stop, failed_start_leaks}

abbrev echo : Handler (Unit {0})
echo request response w = done (status RpcCode.ok [], request, w)

abbrev service : Text → RpcService (Unit {0})
service name = as_service (add_method (text "echo") echo (record { name = name; handlers = [] }))

abbrev server : List (RpcService (Unit {0})) → InProcServer (Unit {0})
server services = record {
  endpoint = record { scheme = text "inproc"; address = text "here" };
  services = services;
  started = false;
}

-- Another server's service is registered.
abbrev others : InProcRegistry (Unit {0})
others = entries_of (service (text "log") ∷ [])

abbrev pair : List (RpcService (Unit {0}))
pair = service (text "cache") ∷ service (text "stats") ∷ []

abbrev clash : List (RpcService (Unit {0}))
clash = service (text "cache") ∷ service (text "log") ∷ []

pair-Distinct : Distinct text_dec (keys (others ++ entries_of pair))
unfolding contains text_dec as_service add_method
pair-Distinct = (refl, (refl, (refl, tt)))

start-stop_example :
    (start (server pair) others
      ≡ (record (server pair) { started = true }, others ++ entries_of pair, none))
    × (stop (record (server pair) { started = true }) (others ++ entries_of pair)
        ≡ (server pair, others))
start-stop_example = start-stop (server pair) others refl pair-Distinct

cache_is_new : lookup text_dec (text "cache") others ≡ none
unfolding lookup text_dec as_service add_method
cache_is_new = refl

clash_throws : (start (server clash) others).2 ≡ some (duplicate_service (text "log"))
unfolding start register_all register emplace lookup text_dec as_service add_method
clash_throws = refl

failed_start_leaks_example :
    ((start (server clash) others).0 ≡ server clash)
    × (find_service
          (text "cache")
          (stop (start (server clash) others).0 (start (server clash) others).1).1
        ≡ some (service (text "cache")))
unfolding as_service add_method
failed_start_leaks_example =
    failed_start_leaks (server clash) others (service (text "cache")) (service (text "log") ∷ [])
      (duplicate_service (text "log")) refl refl cache_is_new clash_throws

-- A factory whose backends are names.
abbrev one_backend : RpcFactory Text
one_backend = (text "inproc", done (text "in process")) ∷ []

unknown_backend :
    create_backend one_backend (text "grpc")
    ≡ throw (out_of_range (text "RpcFactory: unknown backend 'grpc' (available: inproc)"))
unfolding create_backend lookup text_dec name_list available
unknown_backend = refl

register_backend-Registered_example :
    Registered
      (text "grpc")
      (done (text "grpc"))
      one_backend
      (register_backend (text "grpc") (done (text "grpc")) one_backend)
register_backend-Registered_example =
    register_backend-Registered (text "grpc") (done (text "grpc")) one_backend

abbrev remote : RpcEndpoint
remote = record { scheme = text "grpc"; address = text "127.0.0.1:8080" }

parse_endpoint-uri_example :
    (parse_endpoint (uri remote) ≡ remote)
    × (uri (parse_endpoint (text "billing")) ≡ (
        if has_text (text "billing") (text "://")
        then text "billing"
        else text "inproc" ++ (text "://" ++ text "billing")))
unfolding contains ℕ_discrete
parse_endpoint-uri_example = parse_endpoint-uri remote (text "billing") refl

bare_is_inproc :
    parse_endpoint (text "billing") ≡ record { scheme = text "inproc"; address = text "billing" }
unfolding parse_endpoint text_dec
bare_is_inproc = refl
