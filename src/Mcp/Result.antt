-- ===== src/Mcp/Result.antt =====
-- What a tool's return value becomes in the answer (mcp.py: _is_tool_error, _parse_structured, and the
-- end of the `try` block of McpServer._mcp_tools_call).
pub mod Output
use ida_mcp.Prelude.{
  ℕ, zero, suc, ◌+◌, ◌-◌, ◌≡◌, Bool, true, false, not, ◌&&◌, ◌||◌, Option, none, some, inl, inr,
  List, [], ◌∷◌, ◌++◌, map, ltb, if◌then◌else◌, contains, nat_eq, text_eq, length,
}
use ida_mcp.Prelude.Int.{ℤ, pos}
use ida_mcp.Prelude.Dict.{Dict, lookup}
use ida_mcp.Text.{Text, lit, strip, is_empty}
use ida_mcp.Json.{
  Float, Value, null, bool, int, str, arr, obj, Fields, fields, entries, get, items, is_null, Key,
  text, key_of,
}
use ida_mcp.Exec.{Raised, Result, ok, err, Exec, continue, pure, ◌>>=◌, ◌>>◌}
use ida_mcp.State.{State}
use ida_mcp.Jsonrpc.{
  Env, Registry, Response, result, error, parsed, type_error, register_pending_request,
  unregister_pending_request, dispatch,
}
use ida_mcp.Mcp.Annotation.{Annotation, coerce_scalar}
use ida_mcp.Mcp.Server.{Server, Context, Tool, Parameter}
use ida_mcp.Mcp.Access.{
  member, get_tool_extension, Denial, bad_token, needs_unsafe, not_in_profile, needs_extension,
  denial,
}
use ida_mcp.Mcp.Stats.{record_busy, record_call}
use ida_mcp.Mcp.Audit.{write_audit}

-- The `result` object of tools/call: its text, its structuredContent and its isError.
pub record CallResult : Type 0 where
  pub content : Text
  pub structured : Option Value
  pub is_error : Bool

abbrev pub failure : Text → CallResult
failure t = record { content = t; structured = none; is_error = true }

-- _is_tool_error: a dict with a string under "error" that is not blank.
unfoldable pub is_error_text : Option Value → Bool
is_error_text (some (str t)) = not (is_empty (strip t))
is_error_text _ = false

unfoldable pub is_tool_error : Value → Bool
unfolding is_error_text
is_tool_error (obj fs) = is_error_text (get (lit "error") fs)
is_tool_error v = false

module _ (env : Env) where
  -- The tools return JSON text; what is no JSON text stays as it is.
  unfoldable pub parse_structured : Value → Value
  parse_structured (str t) = elim (env.loads t) [ inl v ↦ v | inr reason ↦ str t ]
  parse_structured v = v

  abbrev pub content_of : Value → Text
  content_of (str t) = t
  content_of v = env.dumps v

  abbrev pub structured_of : Value → Value
  structured_of (obj fs) = obj fs
  structured_of v = obj (fields ((lit "result", v) ∷ []))

  unfoldable pub too_large : Value → ℕ → ℕ → CallResult
  too_large name size cap = record {
    content =
        lit "Output too large: "
        ++ env.to_str (int (pos size))
        ++ lit " chars exceed the "
        ++ env.to_str (int (pos cap))
        ++ lit
            "-char cap. Narrow the request (use the tool's limit/offset or a tighter filter), or raise IDA_MCP_MAX_OUTPUT.";
    structured = some (
        obj (
          fields (
            (lit "error", str (lit "output_too_large"))
            ∷ (lit "size", int (pos size))
            ∷ (lit "cap", int (pos cap))
            ∷ (lit "tool", name)
            ∷ [])));
    is_error = true;
  }

  unfoldable pub shape_text : ℕ → Value → Value → Text → CallResult
  shape_text cap name v t =
      if ltb 0 cap && ltb cap (length t)
      then too_large name (length t) cap
      else record { content = t; structured = some (structured_of v); is_error = is_tool_error v }

  -- What a tool's return value becomes; a cap of 0 is no cap.
  unfoldable pub shape : ℕ → Value → Value → CallResult
  shape cap name v = shape_text cap name (parse_structured v) (content_of v)

  unfoldable pub shape_response : ℕ → Value → Option Response → CallResult
  shape_response cap name none = shape cap name null
  shape_response cap name (some (result v id)) = shape cap name v
  shape_response cap name (some (error code message detail id)) = failure message
