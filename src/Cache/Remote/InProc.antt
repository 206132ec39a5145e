-- ===== src/Cache/Remote/InProc.antt =====
-- The remote cache over the in-process backend, with a CacheRpcService registered under the name
-- that the client calls: each operation is the one of the LocalCache behind the service.
use mathlib.Core.List.{lookup}
use lark.Base.{
  ◌≤◌, ◌+◌, ◌≡◌, refl, true, none, some, [], Text, text, text_dec, if◌then◌else◌, arith,
}
use lark.Base.Decimal.{max_int64, max_uint64}
use lark.Base.Decimal.RoundTrip.{stoll-to_string, stoull-to_string_ℕ}
use lark.Base.Dict.{assign, is_some}
use lark.Base.Int.{ℤ, pos_part, neg_part}
use lark.Base.Result.{done, ◌>>=◌}
use lark.Rpc.{RpcMessage, set_header, header, Handler, RpcService}
use lark.Rpc.InProc.{RpcEndpoint, InProcRegistry, find_service}
use lark.Rpc.InProc
use lark.Cache.Local
use lark.Cache.Local.{LocalCache}
use lark.Cache.Service.{serve_get, serve_put, serve_remove, dispatch, cache_service, request_ttl}
use lark.Cache.Remote.{
  RemoteCache, emit_remote, resolve_ttl, is_found, remote_get, remote_put, remote_remove,
  remote_clear, remote_size,
}

-- The channel of the in-process backend, as RemoteCache uses it: no monitor in the options.
module _ {W : Type 0} (endpoint : RpcEndpoint) (r : InProcRegistry W) (elapsed : ℤ) where
  unfoldable pub inproc_channel : Text → Text → Handler W
  inproc_channel service method request response w = do
    (st, response', w', _) ←
        InProc.call endpoint r service method request response (record { monitor = none }) elapsed w
    done (st, response', w')

  inproc_channel-found :
      (service method : Text) (request response : RpcMessage) (w : W) (svc : RpcService W)
      → find_service service r ≡ some svc
      → inproc_channel service method request response w ≡ svc.dispatch method request response w
  unfolding inproc_channel InProc.call
  inproc_channel-found service method request response w svc h = ground arith

module _ (endpoint : RpcEndpoint) (r : InProcRegistry LocalCache) (elapsed now : ℤ)
    (c : RemoteCache) (served : find_service c.service r ≡ some (cache_service now c.service)) where
  reaches :
      (method : Text) (request response : RpcMessage) (w : LocalCache)
      → inproc_channel endpoint r elapsed c.service method request response w
        ≡ dispatch now method request response w
  unfolding cache_service
  reaches method request response w =
      inproc_channel-found endpoint r elapsed c.service method request response w _ served

  -- A read returns what the local cache returns, never throws, and leaves the local cache as its
  -- own read does; the client's monitor is told of a hit or a miss.
  pub remote_get-local :
      (key : Text) (w : LocalCache)
      → remote_get (inproc_channel endpoint r elapsed) key c w
        ≡ done (
          (Local.get now key w).1,
          emit_remote
              (if is_some (Local.get now key w).1 then text "cache.hit" else text "cache.miss")
              key
              true
              c,
          (Local.get now key w).0,
        )
  unfolding remote_get dispatch serve_get set_header assign is_found header lookup text_dec
  remote_get-local key w = rw reaches (ground arith)

  -- A store is the local store with the expiry that the client resolves.
  pub remote_put-local :
      (key value : Text) (ttl : ℤ) (w : LocalCache)
      → pos_part (resolve_ttl c ttl) ≤ max_int64
      → neg_part (resolve_ttl c ttl) ≤ max_int64 + 1
      → remote_put (inproc_channel endpoint r elapsed) key value ttl c w
        ≡ done (
          emit_remote (text "cache.put") key true c,
          Local.put now key value (resolve_ttl c ttl) w,
        )
  unfolding remote_put dispatch serve_put set_header assign request_ttl lookup text_dec
  remote_put-local key value ttl w h k = rw (reaches, stoll-to_string (resolve_ttl c ttl) h k) refl

  pub remote_remove-local :
      (key : Text) (w : LocalCache)
      → remote_remove (inproc_channel endpoint r elapsed) key c w
        ≡ done (
          (Local.remove_key key w).1,
          emit_remote (text "cache.remove") key true c,
          (Local.remove_key key w).0,
        )
  unfolding remote_remove dispatch serve_remove set_header assign is_found header lookup text_dec
  remote_remove-local key w = rw reaches (ground arith)

  pub remote_clear-local :
      (w : LocalCache)
      → remote_clear (inproc_channel endpoint r elapsed) c w
        ≡ done (emit_remote (text "cache.clear") [] true c, Local.clear w)
  unfolding remote_clear dispatch text_dec
  remote_clear-local w = rw reaches refl

  -- With the cache service registered under the name that the client calls, the client reads the
  -- size of the local cache, if it fits the 64 bits that the client parses.
  remote_size-local :
      (w : LocalCache)
      → Local.size w ≤ max_uint64
      → remote_size (inproc_channel endpoint r elapsed) c w ≡ done (Local.size w, w)
  unfolding remote_size dispatch text_dec
  remote_size-local w h = rw (reaches, stoull-to_string_ℕ (Local.size w) h) refl
