-- ===== src/Cache/Remote/Runs.antt =====
-- Sequences of operations on a RemoteCache over the in-process backend, beside the same sequence
-- on the LocalCache that serves it.
use lark.Base.{◌≤◌, ◌+◌, ◌≡◌, refl, true, some, List, [], ◌∷◌, Text, text, if◌then◌else◌}
use lark.Base.Decimal.{max_int64}
use lark.Base.Dict.{is_some}
use lark.Base.Int.{ℤ, pos_part, neg_part}
use lark.Base.Result.{Result, done, ◌>>=◌}
use lark.Rpc.{Handler}
use lark.Rpc.InProc.{RpcEndpoint, InProcRegistry, find_service}
use lark.Cache.Local
use lark.Cache.Local.{LocalCache}
use lark.Cache.Local.Runs.{
  Operation, get, put, remove, clear, Answer, read, removed, nothing, local_run,
}
use lark.Cache.Service.{cache_service}
use lark.Cache.Remote.{
  RemoteCache, emit_remote, resolve_ttl, remote_get, remote_put, remote_remove, remote_clear,
}
use lark.Cache.Remote.InProc.{
  inproc_channel, remote_get-local, remote_put-local, remote_remove-local, remote_clear-local,
}

-- One operation through a channel that depends on the server's clock.
remote_step :
    (ℤ → Text → Text → Handler LocalCache)
    → Operation
    → RemoteCache
    → LocalCache
    → Result (Answer × RemoteCache × LocalCache)
remote_step channel (get now key) c w = do
  (v, c', w') ← remote_get (channel now) key c w
  done (read v, c', w')
remote_step channel (put now key value ttl) c w = do
  (c', w') ← remote_put (channel now) key value ttl c w
  done (nothing, c', w')
remote_step channel (remove now key) c w = do
  (found, c', w') ← remote_remove (channel now) key c w
  done (removed found, c', w')
remote_step channel (clear now) c w = do
  (c', w') ← remote_clear (channel now) c w
  done (nothing, c', w')

pub remote_run :
    (ℤ → Text → Text → Handler LocalCache)
    → List Operation
    → RemoteCache
    → LocalCache
    → Result (List Answer × LocalCache)
unfolding remote_step
remote_run channel [] c w = done ([], w)
remote_run channel (op ∷ ops) c w = do
  (a, c', w') ← remote_step channel op c w
  (as', end) ← remote_run channel ops c' w'
  done (a ∷ as', end)

-- An expiry time is a count of milliseconds in an int64_t.
abbrev pub Sendable : (ℤ → ℤ) → List Operation → Type 0
Sendable resolve [] = Unit {0}
Sendable resolve (put now key value ttl ∷ ops) =
    (pos_part (resolve ttl) ≤ max_int64)
    × (neg_part (resolve ttl) ≤ max_int64 + 1)
    × Sendable resolve ops
Sendable resolve (op ∷ ops) = Sendable resolve ops

module _ (endpoint : RpcEndpoint) (r : ℤ → InProcRegistry LocalCache) (elapsed : ℤ) where
  abbrev pub served_channel : ℤ → Text → Text → Handler LocalCache
  served_channel now = inproc_channel endpoint (r now) elapsed

  -- Over the in-process backend with the cache service registered at all times, and expiry times
  -- that fit in an int64_t, a sequence of reads, stores, removals and clears on the remote cache
  -- never throws, gives the client the answers of the local cache behind the service, and leaves
  -- that cache in the same state.
  pub remote_run-local :
      (ops : List Operation) (c : RemoteCache) (w : LocalCache)
      → ((now : ℤ) → find_service c.service (r now) ≡ some (cache_service now c.service))
      → Sendable (resolve_ttl c) ops
      → remote_run served_channel ops c w ≡ done (local_run (resolve_ttl c) ops w)
  unfolding remote_run local_run emit_remote resolve_ttl
  remote_run-local [] c w served h = refl
  remote_run-local (get now key ∷ ops) c w served h =
      let c' =
        emit_remote
          (if is_some (Local.get now key w).1 then text "cache.hit" else text "cache.miss") key true
          c in
      rw
        (
          remote_get-local endpoint (r now) elapsed now c (served now) key w,
          remote_run-local ops c' (Local.get now key w).0 served h,
        )
        refl
  remote_run-local (put now key value ttl ∷ ops) c w served (h, k, rest) =
      let c' = emit_remote (text "cache.put") key true c in
      rw
        (
          remote_put-local endpoint (r now) elapsed now c (served now) key value ttl w h k,
          remote_run-local ops c' (Local.put now key value (resolve_ttl c ttl) w) served rest,
        )
        refl
  remote_run-local (remove now key ∷ ops) c w served h =
      let c' = emit_remote (text "cache.remove") key true c in
      rw
        (
          remote_remove-local endpoint (r now) elapsed now c (served now) key w,
          remote_run-local ops c' (Local.remove_key key w).0 served h,
        )
        refl
  remote_run-local (clear now ∷ ops) c w served h =
      let c' = emit_remote (text "cache.clear") [] true c in
      rw
        (
          remote_clear-local endpoint (r now) elapsed now c (served now) w,
          remote_run-local ops c' (Local.clear w) served h,
        )
        refl
