-- ===== src/Cache/Remote.antt =====
-- RemoteCache of cache/src/cache.cpp: every operation is a call through a channel. A channel is a
-- parameter: what it does to the state `W` behind it, the status, and the response.
pub mod InProc
pub mod Runs
use mathlib.Core.Option
use lark.Base.{
  ℕ, Bool, true, false, ◌&&◌, Option, none, some, List, [], ◌∷◌, ◌++◌, Text, text, text_dec, ite,
  if◌then◌else◌,
}
use lark.Base.Decimal.{stoull, to_string}
use lark.Base.Int.{ℤ, pos, ltb_ℤ}
use lark.Base.Result.{Result, done, throw, ◌>>=◌}
use lark.Metric.{Event, event}
use lark.Rpc.{RpcStatus, is_ok, RpcMessage, empty_message, set_header, header, Handler}

-- The options and `service_`; `monitor` as in LocalCache.
pub record RemoteCache : Type 0 where
  pub default_ttl : ℤ
  pub monitor : Option (List Event)
  pub service : Text

unfoldable pub emit_remote : Text → Text → Bool → RemoteCache → RemoteCache
emit_remote action key ok c = record c {
  monitor =
      Option.map (λ log. log ++ (record (event (text "cache") action key) { ok = ok }) ∷ [])
        c.monitor;
}

unfoldable pub resolve_ttl : RemoteCache → ℤ → ℤ
resolve_ttl c ttl = if ltb_ℤ (pos 0) ttl then ttl else c.default_ttl

abbrev key_request : Text → RpcMessage
key_request key = set_header (text "key") key empty_message

-- `res.headers["found"] == "1"`.
unfoldable pub is_found : RpcMessage → Bool
unfolding header
is_found response = ite (text_dec (header (text "found") response) (text "1")) true false

module _ {W : Type 0} (call : Text → Text → Handler W) where
  unfoldable pub remote_get : Text → RemoteCache → W → Result (Option Text × RemoteCache × W)
  unfolding is_found set_header
  remote_get key c w = do
    (st, response, w') ← call c.service (text "get") (key_request key) empty_message w
    let found = is_found response
    if is_ok st
        then done (
          if found then some response.payload else none,
          emit_remote (if found then text "cache.hit" else text "cache.miss") key true c,
          w',
        )
        else done (none, emit_remote (text "cache.error") key false c, w')

  unfoldable pub remote_put : Text → Text → ℤ → RemoteCache → W → Result (RemoteCache × W)
  unfolding set_header resolve_ttl
  remote_put key value ttl c w = do
    let timed = set_header (text "ttl_ms") (to_string (resolve_ttl c ttl)) (key_request key)
    (st, response, w') ←
        call c.service (text "put") (record timed { payload = value }) empty_message w
    done (emit_remote (text "cache.put") key (is_ok st) c, w')

  unfoldable pub remote_remove : Text → RemoteCache → W → Result (Bool × RemoteCache × W)
  unfolding is_found set_header
  remote_remove key c w = do
    (st, response, w') ← call c.service (text "remove") (key_request key) empty_message w
    done (is_ok st && is_found response, emit_remote (text "cache.remove") key (is_ok st) c, w')

  unfoldable pub remote_clear : RemoteCache → W → Result (RemoteCache × W)
  remote_clear c w = do
    (st, response, w') ← call c.service (text "clear") empty_message empty_message w
    done (emit_remote (text "cache.clear") [] (is_ok st) c, w')

  -- Where the number cannot be read, `catch (...)` makes it 0.
  unfoldable pub remote_size : RemoteCache → W → Result (ℕ × W)
  remote_size c w = do
    (st, response, w') ← call c.service (text "size") empty_message empty_message w
    let n : ℕ = elim (stoull response.payload) [ done k ↦ k | throw _ ↦ 0 ]
    done (if is_ok st then n else 0, w')
