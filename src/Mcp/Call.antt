-- ===== src/Mcp/Call.antt =====
-- tools/call (mcp.py: McpServer._mcp_tools_call and what it calls).
pub mod Concurrent
pub mod Gate
pub mod Leak
pub mod Pending
pub mod Refusal
use ida_mcp.Prelude.{
  ℕ, zero, suc, ◌+◌, ◌-◌, ◌≡◌, Bool, true, false, not, ◌&&◌, ◌||◌, Option, none, some, inl, inr,
  List, [], ◌∷◌, ◌++◌, map, ltb, if◌then◌else◌, contains, nat_eq, text_eq, length,
}
use ida_mcp.Prelude.Int.{ℤ, pos}
use ida_mcp.Prelude.Dict.{Dict, lookup}
use ida_mcp.Text.{Text, lit, strip, is_empty}
use ida_mcp.Json.{
  Float, Value, null, bool, int, str, arr, obj, Fields, fields, entries, get, items, is_null, Key,
  text, key_of,
}
use ida_mcp.Exec.{Raised, Result, ok, err, Exec, continue, pure, ◌>>=◌, ◌>>◌}
use ida_mcp.State.{State}
use ida_mcp.Jsonrpc.{
  Env, Registry, Response, result, error, parsed, type_error, register_pending_request,
  unregister_pending_request, dispatch,
}
use ida_mcp.Mcp.Annotation.{Annotation, coerce_scalar}
use ida_mcp.Mcp.Server.{Server, Context, Tool, Parameter}
use ida_mcp.Mcp.Access.{
  member, get_tool_extension, Denial, bad_token, needs_unsafe, not_in_profile, needs_extension,
  denial,
}
use ida_mcp.Mcp.Result.{CallResult, failure, shape_response}
use ida_mcp.Mcp.Stats.{record_busy, record_call}
use ida_mcp.Mcp.Audit.{write_audit}

abbrev pub annotation_in : List Parameter → Text → Option Annotation
annotation_in [] name = none
annotation_in (p ∷ ps) name =
    if contains (p.name ∷ []) name then p.annotation else annotation_in ps name

abbrev pub tools_registry : Server → Registry
tools_registry s = record {
  methods = map (λ (n, t). (n, t.body)) s.tools;
  redact_exceptions = false;
  is_mcp = true;
}

module _ (parse_float : Text → Option Float) where
  unfoldable pub coerce_entries : List Parameter → Dict Text Value → Dict Text Value
  unfolding coerce_scalar
  coerce_entries ps [] = []
  coerce_entries ps ((k, v) ∷ d) =
      let v' : Value = elim (annotation_in ps k) [
        | none ↦ v
        | some a ↦ coerce_scalar parse_float v a
      ] in
      (k, v') ∷ coerce_entries ps d

  unfoldable pub coerce_fields : Option Tool → Fields → Fields
  unfolding coerce_entries
  coerce_fields none fs = fs
  coerce_fields (some t) fs = fields (coerce_entries t.parameters (entries fs))

  abbrev pub tool_at : Server → Key → Option Tool
  tool_at s (text t) = lookup t s.tools
  tool_at s _ = none

  -- Only a dict of arguments is coerced, and only for a registered tool.
  unfoldable pub coerce_tool_arguments : Server → Key → Value → Value
  unfolding coerce_fields
  coerce_tool_arguments s name (obj fs) = obj (coerce_fields (tool_at s name) fs)
  coerce_tool_arguments s name v = v

module _ (env : Env) where
  -- The `try` block, after the coercion of the arguments.
  unfoldable pub attempt : Server → Value → Value → Exec State CallResult
  attempt s name arguments = do
    let request = obj (
        fields (
          (lit "jsonrpc", str (lit "2.0"))
          ∷ (lit "method", name)
          ∷ (lit "params", arguments)
          ∷ (lit "id", null)
          ∷ []))
    response ← dispatch env (tools_registry s) (parsed request)
    pure (shape_response env s.max_output_chars name response)

  unfoldable pub denial_text : Value → Context → Denial → Text
  denial_text name x bad_token =
      lit "Tool '"
      ++ env.to_str name
      ++ lit
          "' requires a valid auth token. Pass it as the X-IDA-MCP-Token header or ?token= (printed to IDA on startup)."
  denial_text name x needs_unsafe =
      lit "Tool '"
      ++ env.to_str name
      ++ lit "' requires unsafe mode. Add ?unsafe=true to the endpoint URL."
  denial_text name x (needs_extension group) =
      lit "Tool '"
      ++ env.to_str name
      ++ lit "' requires extension '"
      ++ group
      ++ lit "'. Add ?ext="
      ++ group
      ++ lit " to the endpoint URL."
  denial_text name x not_in_profile =
      lit "Tool '"
      ++ env.to_str name
      ++ lit "' is not in profile '"
      ++ elim x.profile_name [ none ↦ lit "None" | some p ↦ p ]
      ++ lit "'. Reconnect with ?profile=readonly (or no profile) to unlock more tools."

  unfoldable pub busy_result : Value → CallResult
  busy_result name = record {
    content =
        lit "Server busy: another tool is running on the IDA main thread. Retry '"
        ++ env.to_str name
        ++ lit "' shortly (sequential calls, no parallel fan-out).";
    structured = some (obj (fields ((lit "busy", bool true) ∷ (lit "tool", name) ∷ [])));
    is_error = true;
  }

abbrev pub is_gated : Option ℕ → Bool
is_gated none = false
is_gated (some n) = ltb 0 n

abbrev pub errored : Result CallResult → Bool
errored (ok r) = r.is_error
errored (err e) = false

-- The tools whose calls are audited.
abbrev pub is_mutating : Server → Key → Bool
is_mutating s name =
    member name s.unsafe_tools
    || elim (get_tool_extension s.extensions_registry name) [ none ↦ false | some g ↦ true ]

abbrev pub forget : Value → State → State
forget null s = s
forget request_id s = (unregister_pending_request request_id s).1

-- The gate is released before the metrics are updated.
abbrev pub release : Key → Bool → ℕ → State → State
release key failed started st = record st {
  gate = st.gate + 1;
  stats = record_call key failed (some (st.now - started)) st.stats;
}

-- _tool_gate.acquire(blocking=False), and the count of a call that does not get it
abbrev pub acquire : Key → State → Bool × State
acquire key st =
    if ltb 0 st.gate
    then (true, record st { gate = st.gate - 1 })
    else (false, record st { stats = record_busy key st.stats })

module _ (parse_float : Text → Option Float) (env : Env) where
  -- Only a call that held the gate is audited, and only if its tool is unsafe or an extension's.
  unfoldable pub audit_call : Server → Value → Key → Value → Bool → State → State
  audit_call s name key arguments failed st =
      if is_mutating s key
      then (write_audit env s.audit_path name arguments (not failed) st).1
      else st

  -- The `finally` block.
  unfoldable pub settle : Server → Bool → Value → Key → Value → Value → ℕ → Bool → State → State
  settle s gated name key request_id arguments started failed st =
      if gated
      then audit_call s name key arguments failed
          (release key failed started (forget request_id st))
      else forget request_id st

  -- From the `try` on.
  unfoldable pub guarded : Server → Bool → Value → Key → Value → Value → Exec State CallResult
  guarded s gated name key arguments request_id st =
      let coerced = coerce_tool_arguments parse_float s key arguments in
      let (r, st') = attempt env s name coerced st in
      (r, settle s gated name key request_id coerced st.now (errored r) st')

  unfoldable pub register : Value → Exec State Unit
  unfolding register_pending_request
  register null st = (ok tt, st)
  register request_id st =
      continue (register_pending_request request_id st).0 (λ _. pure tt)
        (register_pending_request request_id st).1

  -- From the gate on: the request is registered before the `try` is entered.
  unfoldable pub entered : Server → Bool → Value → Key → Value → Exec State CallResult
  entered s gated name key arguments st =
      let request_id = st.request_id in
      let (r, st') = register request_id st in
      continue r (λ _. guarded s gated name key arguments request_id) st'

  unfoldable pub admitted : Server → Value → Key → Value → Exec State CallResult
  admitted s name key arguments st =
      if is_gated s.max_concurrent_tools
      then (let (got, st') = acquire key st in
          if got then entered s true name key arguments st' else (ok (busy_result env name), st'))
      else entered s false name key arguments st

  -- _mcp_tools_call. A name that cannot be hashed raises at the first `in`.
  unfoldable pub tools_call : Server → Context → Value → Value → Exec State CallResult
  tools_call s x name arguments st = elim (key_of name) [
    | none ↦ (err (type_error (lit "unhashable type")), st)
    | some key ↦ elim (denial s x key) [
      | some d ↦ (ok (failure (denial_text env name x d)), st)
      | none ↦ admitted s name key arguments st
    ]
  ]
