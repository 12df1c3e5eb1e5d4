-- ===== src/Mcp/Stats.antt =====
-- The metrics of the tools (mcp.py: McpServer._record_call). Durations are whole ticks.
pub mod Totals
pub mod Snapshot
use ida_mcp.Prelude.{
  ℕ, suc, ◌+◌, Bool, true, false, Option, none, some, List, [], ◌∷◌, ◌++◌, ltb, if◌then◌else◌,
  length, drop,
}
use ida_mcp.Prelude.Dict.{lookup, insert}
use ida_mcp.Json.{Key, key_eq}
use ida_mcp.State.{ToolStats, Stats}

abbrev pub max_durations : ℕ
max_durations = 200

-- deque(maxlen=200).append
unfoldable pub append_bounded : List ℕ → ℕ → List ℕ
append_bounded ds d = if ltb (length ds) max_durations then ds ++ d ∷ [] else drop 1 (ds ++ d ∷ [])

abbrev pub fresh_stats : ToolStats
fresh_stats = record { calls = 0; errors = 0; busy = 0; durations = [] }

abbrev pub or_fresh : Option ToolStats → ToolStats
or_fresh none = fresh_stats
or_fresh (some t) = t

abbrev pub bump : Bool → ℕ → ℕ
bump true n = n + 1
bump false n = n

abbrev pub with_duration : Option ℕ → List ℕ → List ℕ
with_duration none ds = ds
with_duration (some d) ds = append_bounded ds d

-- _record_call(name, busy=True)
unfoldable pub record_busy : Key → Stats → Stats
record_busy name s =
    let t = or_fresh (lookup name s.tools) in
    record s {
      tools = insert name (record t { busy = t.busy + 1 }) s.tools;
      total_busy = s.total_busy + 1;
    }

-- _record_call(name, errored=..., duration_ms=...)
unfoldable pub record_call : Key → Bool → Option ℕ → Stats → Stats
unfolding append_bounded
record_call name errored duration s =
    let t = or_fresh (lookup name s.tools) in
    let t' = record t {
      calls = t.calls + 1;
      errors = bump errored t.errors;
      durations = with_duration duration t.durations;
    } in
    record s {
      tools = insert name t' s.tools;
      total_calls = s.total_calls + 1;
      total_errors = bump errored s.total_errors;
    }
