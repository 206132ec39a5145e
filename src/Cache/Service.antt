-- ===== src/Cache/Service.antt =====
-- CacheRpcService of cache/src/cache.cpp: a LocalCache behind the service interface. `now` is what
-- the clock shows when the request is handled.
use mathlib.Core.List.{lookup}
use lark.Base.{Bool, true, false, none, some, List, [], ◌∷◌, ◌++◌, Text, text, text_dec, ite}
use lark.Base.Dict.{is_some}
use lark.Base.Decimal.{stoll, to_string_ℕ}
use lark.Base.Int.{ℤ, pos}
use lark.Base.Result.{Result, done, ◌>>=◌}
use lark.Rpc.{RpcStatus, RpcCode, status, RpcMessage, set_header, Handler, RpcService}
use lark.Cache.Local
use lark.Cache.Local.{LocalCache}

abbrev pub to_header_bool : Bool → Text
to_header_bool true = text "1"
to_header_bool false = text "0"

abbrev pub cache_methods : List Text
cache_methods = text "get" ∷ text "put" ∷ text "remove" ∷ text "clear" ∷ text "size" ∷ []

abbrev missing_key : Text → RpcMessage → LocalCache → Result (RpcStatus × RpcMessage × LocalCache)
missing_key method response c =
    done (status RpcCode.invalid_argument (method ++ text ": missing header 'key'"), response, c)

unfoldable pub serve_get : ℤ → Handler LocalCache
serve_get now request response c = elim (lookup text_dec (text "key") request.headers) [
  | none ↦ missing_key (text "get") response c
  | some key ↦
      let (c', v) = Local.get now key c in
      let flagged = set_header (text "found") (to_header_bool (is_some v)) response in
      let filled : RpcMessage = elim v [
        | none ↦ flagged
        | some value ↦ record flagged { payload = value }
      ] in
      done (status RpcCode.ok [], filled, c')
]

-- The expiry that the request asks for: 0 without the header. A malformed number throws.
unfoldable pub request_ttl : RpcMessage → Result ℤ
request_ttl request = elim (lookup text_dec (text "ttl_ms") request.headers) [
  | none ↦ done (pos 0)
  | some s ↦ stoll s
]

unfoldable pub serve_put : ℤ → Handler LocalCache
unfolding request_ttl
serve_put now request response c = elim (lookup text_dec (text "key") request.headers) [
  | none ↦ missing_key (text "put") response c
  | some key ↦ do
    ttl ← request_ttl request
    done (status RpcCode.ok [], response, Local.put now key request.payload ttl c)
]

unfoldable pub serve_remove : Handler LocalCache
serve_remove request response c = elim (lookup text_dec (text "key") request.headers) [
  | none ↦ missing_key (text "remove") response c
  | some key ↦
      let (c', found) = Local.remove_key key c in
      done (status RpcCode.ok [], set_header (text "found") (to_header_bool found) response, c')
]

unfoldable pub dispatch : ℤ → Text → Handler LocalCache
dispatch now method request response c =
    ite (text_dec method (text "get")) (serve_get now request response c) (
      ite (text_dec method (text "put")) (serve_put now request response c) (
        ite (text_dec method (text "remove")) (serve_remove request response c) (
          ite (text_dec method (text "clear"))
            (done (status RpcCode.ok [], response, Local.clear c))
            (ite (text_dec method (text "size"))
              (done
                (status RpcCode.ok [], record response { payload = to_string_ℕ (Local.size c) }, c))
              (done (
                status RpcCode.not_found (text "cache has no method '" ++ (method ++ text "'")),
                response,
                c,
              ))))))

unfoldable pub cache_service : ℤ → Text → RpcService LocalCache
unfolding dispatch
cache_service now name = record { name = name; methods = cache_methods; dispatch = dispatch now }
