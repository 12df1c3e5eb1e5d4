-- ===== src/Jsonrpc.antt =====
-- ida_mcp/zeromcp/jsonrpc.py: the JSON-RPC registry and the table of cancellable requests.
-- A registered callable takes its arguments as the call passes them; what json.loads, json.dumps
-- and the traceback printer return is a parameter, `Env`.
pub mod Keeps
pub mod Replies
pub mod Pending
use ida_mcp.Prelude.{
  ℕ, ◌+◌, ◌≡◌, Bool, true, false, not, Option, none, some, ◌⊎◌, inl, inr, List, [], ◌∷◌, ◌++◌,
  if◌then◌else◌, ◌==◌, contains, nat_eq, text_eq,
}
use ida_mcp.Prelude.Int.{ℤ, minus}
use ida_mcp.Prelude.Dict.{Dict, lookup, insert, erase}
use ida_mcp.Text.{Text, lit, strip}
use ida_mcp.Json.{
  Value, null, bool, int, float, str, arr, obj, Items, Fields, get, or_null, Key, key_eq, key_of,
}
use ida_mcp.Exec.{
  Raised, rpc_error, cancelled, tool_error, sync_error, other, interrupt, exit, is_exception,
  Result, ok, err, Exec, ◌>>=◌, ◌>>◌, pure, raise, modify, gets,
}
use ida_mcp.State.{State}

-- What the language's library does for the server.
pub record Env : Type 0 where
  pub loads : Text → Value ⊎ Text  -- json.loads; on malformed text it raises, with this text
  pub dumps : Value → Text  -- json.dumps with compact separators
  pub dumps_spaced : Value → Text  -- json.dumps with its default separators
  pub to_str : Value → Text  -- str(v), as in an f-string
  pub exception_text : Raised → Text  -- str(e)
  pub traceback : Raised → Text  -- traceback.format_exception, joined

-- The ways in which JsonRpcRegistry._call passes `params`.
pub data Args : Type 0 where
  no_args : Args
  keywords : Fields → Args
  positional : Items → Args
  single : Value → Args

abbrev pub Method : Type 0
Method = Args → Exec State Value

-- JsonRpcRegistry, or its subclass McpRpcRegistry.
pub record Registry : Type 0 where
  pub methods : Dict Text Method
  pub redact_exceptions : Bool
  pub is_mcp : Bool

pub data Request : Type 0 where
  raw : Text → Request  -- str or bytes
  parsed : Value → Request

pub data Response : Type 0 where
  result : Value → Value → Response  -- the result and the id
  error : ℤ → Text → Option Value → Value → Response  -- code, message, data, id

abbrev pub type_error : Text → Raised
type_error t = other (lit "TypeError") t

-- ---- the pending requests ----

unfoldable pub register_pending_request : Value → Exec State ℕ
register_pending_request request_id s =
    let event = s.next_event in
    let s' = record s { next_event = event + 1 } in
    elim (key_of request_id) [
      | none ↦ (err (type_error (lit "unhashable type")), s')
      | some k ↦
          (ok event, record s' { pending = insert k event s.pending; cancel_event = some event })
    ]

unfoldable pub unregister_pending_request : Value → Exec State Unit
unregister_pending_request request_id s = elim (key_of request_id) [
  | none ↦ (err (type_error (lit "unhashable type")), s)
  | some k ↦ (ok tt, record s { pending = erase k s.pending; cancel_event = none })
]

unfoldable pub cancel_request : Value → Exec State Bool
cancel_request request_id s = elim (key_of request_id) [
  | none ↦ (err (type_error (lit "unhashable type")), s)
  | some k ↦ elim (lookup k s.pending) [
    | none ↦ (ok false, s)
    | some event ↦ (ok true, record s { fired = event ∷ s.fired })
  ]
]

-- ---- dispatch ----

abbrev pub args_of : Value → Args
args_of null = no_args
args_of (obj fs) = keywords fs
args_of (arr vs) = positional vs
args_of v = single v

abbrev pub has : Text → Fields → Bool
has k fs = elim (get k fs) [ none ↦ false | some _ ↦ true ]

abbrev pub or_else : Text → Text → Text
or_else [] u = u
or_else (c ∷ t) u = c ∷ t

module _ (env : Env) where
  -- JsonRpcRegistry.map_exception
  unfoldable pub base_map_exception : Bool → Raised → ℤ × Text
  base_map_exception true e = (minus 32603, lit "Internal Error: " ++ env.exception_text e)
  base_map_exception false e = (minus 32603, strip (env.traceback e))

  -- McpRpcRegistry.map_exception
  unfoldable pub mcp_map_exception : Bool → Raised → ℤ × Text
  mcp_map_exception redact (tool_error t) = (minus 32000, or_else t (lit "MCP Tool Error"))
  mcp_map_exception redact e = base_map_exception redact e

  unfoldable pub map_exception : Registry → Raised → ℤ × Text
  map_exception r e =
      if r.is_mcp
      then mcp_map_exception r.redact_exceptions e
      else base_map_exception r.redact_exceptions e

  -- The `except` clauses, in their order. What is no Exception passes through.
  unfoldable pub handle : Registry → Value → Raised → Result Response
  handle r id (rpc_error code message detail) = ok (error code message detail id)
  handle r id (cancelled t) = ok (error (minus 32800) (or_else t (lit "Request cancelled")) none id)
  handle r id (interrupt reason t) = err (interrupt reason t)
  handle r id (exit c t) = err (exit c t)
  handle r id e = let (code, message) = map_exception r e in ok (error code message none id)

  -- A notification gets no reply, whether its method returned or raised.
  unfoldable pub respond : Registry → Bool → Value → Result Value → Result (Option Response)
  respond r notification id (ok v) = ok (if notification then none else some (result v id))
  respond r notification id (err e) = elim (handle r id e) [
    | err x ↦ err x
    | ok response ↦ ok (if notification then none else some response)
  ]

  unfoldable pub call : Registry → Text → Value → Exec State Value
  call r method params s = elim (lookup method r.methods) [
    | none ↦ (err (rpc_error (minus 32601) (lit "Method not found: " ++ method) none), s)
    | some func ↦ func (args_of params) s
  ]

  -- The `try` block, with its `finally`.
  unfoldable pub run : Registry → Text → Fields → Exec State (Option Response)
  run r method fs s =
      let request_id = or_null (get (lit "id") fs) in
      let params = or_null (get (lit "params") fs) in
      let (outcome, s') = call r method params (record s { request_id = request_id }) in
      (respond r (not (has (lit "id") fs)) request_id outcome, record s' { request_id = null })

  abbrev invalid : Text → Response
  invalid message = error (minus 32600) message none null

  unfoldable pub is_version : Option Value → Bool
  is_version (some (str v)) = v == lit "2.0"
  is_version _ = false

  unfoldable pub dispatch_method : Registry → Fields → Value → Exec State (Option Response)
  dispatch_method r fs null = pure (some (invalid (lit "Invalid request: 'method' is required")))
  dispatch_method r fs (str method) = run r method fs
  dispatch_method r fs _ = pure (some (invalid (lit "Invalid request: 'method' must be a string")))

  unfoldable pub dispatch_value : Registry → Value → Exec State (Option Response)
  dispatch_value r (obj fs) =
      if is_version (get (lit "jsonrpc") fs)
      then dispatch_method r fs (or_null (get (lit "method") fs))
      else pure (some (invalid (lit "Invalid request: 'jsonrpc' must be '2.0'")))
  dispatch_value r _ = pure (some (invalid (lit "Invalid request: must be a JSON object")))

  unfoldable pub dispatch : Registry → Request → Exec State (Option Response)
  dispatch r (parsed v) = dispatch_value r v
  dispatch r (raw t) = elim (env.loads t) [
    | inl v ↦ dispatch_value r v
    | inr reason ↦
        pure (some (error (minus 32700) (lit "JSON parse error") (some (str reason)) null))
  ]
