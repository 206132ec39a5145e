-- ===== src/Rpc.antt =====
-- rpc/include/rpc and rpc/src/rpc/backend.cpp: statuses, messages, the interfaces of a service and
-- of a channel, and RpcServiceImpl, a table of handlers.
pub mod InProc
pub mod Factory
pub mod Endpoint
mod Tests
use mathlib.Core.List.{lookup}
use lark.Base.{Bool, true, false, Option, none, some, List, [], ◌++◌, Text, text, text_dec}
use lark.Base.Dict.{assign, keys}
use lark.Base.Result.{Result, done}

pub data RpcCode : Type 0 where
  ok deadline not_found unavailable invalid_argument internal : RpcCode

pub record RpcStatus : Type 0 where
  pub code : RpcCode
  pub message : Text

abbrev pub status : RpcCode → Text → RpcStatus
status code message = record { code = code; message = message }

-- `RpcStatus::ok()`.
abbrev pub is_ok : RpcStatus → Bool
is_ok st = elim (st.code) [ ok ↦ true | _ ↦ false ]

pub record RpcMessage : Type 0 where
  pub payload : Text
  pub headers : List (Text × Text)

abbrev pub empty_message : RpcMessage
empty_message = record { payload = []; headers = [] }

unfoldable pub set_header : Text → Text → RpcMessage → RpcMessage
set_header key value m = record m { headers = assign text_dec key value m.headers }

-- `headers[key]`: the value, or an empty text where the key is missing.
unfoldable pub header : Text → RpcMessage → Text
header key m = elim (lookup text_dec key m.headers) [ none ↦ [] | some v ↦ v ]

-- A handler reads a request, may change the response that it is handed, and acts on the state `W`
-- of what stands behind it. A handler that throws leaves both as they were.
abbrev pub Handler : Type 0 → Type 0
Handler W = RpcMessage → RpcMessage → W → Result (RpcStatus × RpcMessage × W)

pub record RpcService (W : Type 0) : Type 0 where
  pub name : Text
  pub methods : List Text
  pub dispatch : Text → Handler W

pub record RpcServiceImpl (W : Type 0) : Type 0 where
  pub name : Text
  pub handlers : List (Text × Handler W)

module _ {W : Type 0} where
  unfoldable pub add_method : Text → Handler W → RpcServiceImpl W → RpcServiceImpl W
  add_method method handler s = record s { handlers = assign text_dec method handler s.handlers }

  unfoldable pub dispatch_impl : RpcServiceImpl W → Text → Handler W
  dispatch_impl s method request response w = elim (lookup text_dec method s.handlers) [
    | none ↦ done (
      status not_found
          (text "service '" ++ (s.name ++ (text "' has no method '" ++ (method ++ text "'")))),
      response,
      w,
    )
    | some handler ↦ handler request response w
  ]

  -- RpcServiceImpl as an RpcService.
  unfoldable pub as_service : RpcServiceImpl W → RpcService W
  unfolding dispatch_impl
  as_service s = record { name = s.name; methods = keys s.handlers; dispatch = dispatch_impl s }
