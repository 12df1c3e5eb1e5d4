-- ===== src/Sync/Hook.antt =====
-- The profile hook that ends a tool, and the places where tools ask whether to go on (sync.py: profilefunc
-- in sync_wrapper, ToolInterrupt, check_cancelled, ensure_analysis). IDA's answers are observations,
-- and times are whole milliseconds.
pub mod Limits
use ida_mcp.Prelude.{
  ℕ, ◌+◌, ◌-◌, Bool, true, false, not, ◌&&◌, ◌||◌, Option, none, some, List, [], ◌∷◌, leb, ltb,
  if◌then◌else◌,
}
use ida_mcp.Text.{Text, lit}
use ida_mcp.Exec.{
  Reason, timeout, cancel, Raised, rpc_error, cancelled, tool_error, sync_error, other, interrupt,
  exit, Result, ok, err,
}
use ida_mcp.Sync.Watchdog.{native_cancel_grace}

-- ToolInterrupt.to_error
unfoldable pub to_error : Reason → Text → Raised
to_error cancel message = cancelled message
to_error timeout message = sync_error message

abbrev pub ui_pump_interval : ℕ
ui_pump_interval = 300

-- user_cancelled() of the GUI, where UI pumping is on
pub data Pump : Type 0 where
  absent : Pump
  answers : Bool → Pump
  fails : Pump

-- What one call of the hook sees. The cancel event is none where the request has none.
pub record Glance : Type 0 where
  pub cancel_set : Option Bool
  pub now : ℕ
  pub fired_at : Option ℕ  -- when the native cancel fired
  pub deadline : Option ℕ
  pub pump : Pump

unfoldable pub in_grace : ℕ → Option ℕ → Bool
in_grace now none = false
in_grace now (some f) = ltb now (f + native_cancel_grace)

unfoldable pub is_past : ℕ → Option ℕ → Bool
is_past now none = false
is_past now (some d) = leb d now

unfoldable pub is_set : Option Bool → Bool
is_set none = false
is_set (some b) = b

unfoldable pub user_hit_cancel : Pump → Option ℕ → Bool
user_hit_cancel (answers b) none = b
user_hit_cancel _ _ = false

unfoldable pub pumps : Pump → Bool
pumps absent = false
pumps _ = true

-- The hook: it raises, or returns with the time of the next poll of the GUI.
unfoldable pub profilefunc : Text → Glance → ℕ → Result ℕ
profilefunc timed_out g next_pump =
    if is_set g.cancel_set
    then err (interrupt cancel (lit "Request was cancelled"))
    else if in_grace g.now g.fired_at
    then ok next_pump
    else if is_past g.now g.deadline
    then err (interrupt timeout timed_out)
    else if pumps g.pump && leb next_pump g.now
    then if user_hit_cancel g.pump g.fired_at
      then err (interrupt cancel (lit "Cancelled by user (IDA wait box)"))
      else ok (g.now + ui_pump_interval)
    else ok next_pump

-- The hook over the calls and returns of a tool's body: the first raise ends it.
unfoldable pub watch_body : Text → List Glance → ℕ → Result ℕ
watch_body timed_out [] next_pump = ok next_pump
watch_body timed_out (g ∷ gs) next_pump = elim (profilefunc timed_out g next_pump) [
  | ok t ↦ watch_body timed_out gs t
  | err e ↦ err e
]

abbrev pub Poll : Type 0
Poll = Result Unit

-- check_cancelled, where the event, the deadline and user_cancelled() are as seen
unfoldable pub check_cancelled : Option Bool → Option ℕ → Text → ℕ → Pump → Poll
check_cancelled event deadline timed_out now user =
    if is_set event
    then err (cancelled (lit "Request was cancelled"))
    else if is_past now deadline
    then err (sync_error timed_out)
    else if user_hit_cancel user none
    then err (cancelled (lit "Cancelled by user"))
    else ok tt

-- What auto_is_ok() answers: the API may be missing, and a call may raise.
pub data Answer : Type 0 where
  missing : Answer
  says : Bool → Answer
  raises : Answer

unfoldable pub still_running : Answer → Answer → Bool
still_running (says false) (says b) = not b
still_running _ _ = false

-- ensure_analysis: the answers before and after auto_wait(), which swallows its exceptions; with
-- whether auto_wait() was called.
unfoldable pub ensure_analysis : Answer → Answer → Poll × Bool
unfolding still_running
ensure_analysis (says true) later = (ok tt, false)
ensure_analysis first later = (
  if still_running first later
      then err (tool_error (lit "Auto-analysis still in progress; retry shortly."))
      else ok tt,
  true,
)
