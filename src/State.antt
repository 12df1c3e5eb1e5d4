-- ===== src/State.antt =====
-- The state that a request sees while it is served: the thread-locals of its thread, and what the
-- process shares (ida_mcp/zeromcp/jsonrpc.py, and the fields of McpServer that calls write).
use ida_mcp.Prelude.{ℕ, Bool, List, Option}
use ida_mcp.Prelude.Dict.{Dict}
use ida_mcp.Json.{Value, Key}

-- One entry of McpServer._stats.
pub record ToolStats : Type 0 where
  pub calls : ℕ
  pub errors : ℕ
  pub busy : ℕ
  pub durations : List ℕ

-- McpServer._stats and McpServer._stats_totals.
pub record Stats : Type 0 where
  pub tools : Dict Key ToolStats
  pub total_calls : ℕ
  pub total_errors : ℕ
  pub total_busy : ℕ

-- One line of the audit file. The time stamp is left out.
pub record AuditRecord : Type 0 where
  pub tool : Value
  pub succeeded : Bool
  pub args : Value

pub record State : Type 0 where
  pub request_id : Value  -- _current_request.id
  pub cancel_event : Option ℕ  -- _current_request.cancel_event
  pub pending : Dict Key ℕ  -- _pending_requests
  pub fired : List ℕ  -- the events that are set
  pub next_event : ℕ  -- events are numbered as they are made
  pub gate : ℕ  -- the counter of McpServer._tool_gate
  pub stats : Stats
  pub audit : List AuditRecord
  pub now : ℕ  -- the clock
