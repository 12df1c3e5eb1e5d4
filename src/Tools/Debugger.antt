-- ===== src/Tools/Debugger.antt =====
-- Batch mode around the start of the debugger (api_debug.py: _DbgStartBatchHook,
-- _arm_dbg_start_batch_hook, dbg_start without the breakpoints that it sets; the batch flag that sync.py sets before a call and, for dbg_start,
-- keeps after it). The hooks are objects, the newest first; the newest is _dbg_start_batch_hook.
pub mod Hooks
pub mod Batch
use ida_mcp.Prelude.{
  ℕ, zero, suc, Bool, true, false, not, ◌&&◌, Option, none, some, List, [], ◌∷◌, length,
  if◌then◌else◌, ◌==◌, nat_eq, ◌||◌, take,
}
use ida_mcp.Prelude.Int.{ℤ, pos, negsuc}
use ida_mcp.Text.{Text, lit}
use ida_mcp.Exec.{Reason, Raised, tool_error, interrupt, exit, Result, ok, err}

pub record BatchHook : Type 0 where
  pub restore_batch : ℕ
  pub done : Bool

pub record Session : Type 0 where
  pub batch : ℕ  -- idc.batch
  pub hooks : List BatchHook

abbrev pub finished : BatchHook → BatchHook
finished h = record h { done = true }

-- _restore, with the flag
unfoldable pub restore : BatchHook → ℕ → ℕ
restore h batch = if h.done then batch else h.restore_batch

-- What the debugger reports of a process that starts, attaches, exits or detaches goes to every hook
-- that is not done, the oldest first.
unfoldable pub restore_all : List BatchHook → ℕ → ℕ
unfolding restore
restore_all [] batch = batch
restore_all (h ∷ hs) batch = restore h (restore_all hs batch)

abbrev pub all_finished : List BatchHook → List BatchHook
all_finished [] = []
all_finished (h ∷ hs) = finished h ∷ all_finished hs

unfoldable pub reported : Session → Session
unfolding restore_all
reported s = record { batch = restore_all s.hooks s.batch; hooks = all_finished s.hooks }

unfoldable pub restore_newest : Session → List BatchHook → Session
unfolding restore
restore_newest s [] = s
restore_newest s (h ∷ hs) = record { batch = restore h s.batch; hooks = finished h ∷ hs }

-- _arm_dbg_start_batch_hook: the hook before is restored, and a new one is hooked.
unfoldable pub arm : ℕ → Session → Session
unfolding restore_newest
arm restore_batch s =
    let s' = restore_newest s s.hooks in
    record s' { hooks = record { restore_batch = restore_batch; done = false } ∷ s'.hooks }

-- The timer of the hook that was the n-th to be made: it restores that hook only as the newest.
unfoldable pub timer : ℕ → Session → Session
unfolding restore_newest
timer n s = if suc n == length s.hooks then restore_newest s s.hooks else s

pub data Event : Type 0 where
  process_reported : Event
  timer_fired : ℕ → Event

unfoldable pub happen : Event → Session → Session
unfolding reported timer
happen process_reported s = reported s
happen (timer_fired n) s = timer n s

unfoldable pub happen_all : List Event → Session → Session
unfolding happen
happen_all [] s = s
happen_all (e ∷ es) s = happen_all es (happen e s)

-- What the debugger does at a start: start_process raises, or the profile hook interrupts the call, or it
-- has a result and each look at the process, from the first on, finds a status or none.
pub data Launch : Type 0 where
  start_raises : Raised → Launch
  is_interrupted : Reason → Text → Launch
  launched : ℤ → List Bool → Launch

abbrev pub Ended : Type 0
Ended = Result Unit

-- int(_DBG_START_WAIT_TIMEOUT_SEC * 1000 / _DBG_START_WAIT_POLL_MS)
abbrev pub start_polls : ℕ
start_polls = 100

abbrev is_zero : ℤ → Bool
is_zero (pos n) = n == 0
is_zero (negsuc n) = false

unfoldable pub any_found : List Bool → Bool
any_found [] = false
any_found (b ∷ bs) = b || any_found bs

-- The tool's end, from start_process on: a status is shown, or IDAError is raised (with the text of what
-- start_process raised left out). An exception beyond
-- Exception passes.
unfoldable pub started : Launch → Ended
unfolding any_found
started (start_raises (interrupt r t)) = err (interrupt r t)
started (start_raises (exit c t)) = err (exit c t)
started (start_raises e) = err (tool_error (lit "start_process raised"))
started (is_interrupted r t) = err (interrupt r t)
started (launched start_result looks) =
    if any_found (take (suc start_polls) looks)
    then ok tt
    else if is_zero start_result
    then err (
        tool_error (
          lit
            "Debugger start was cancelled. Configure the debugger and dismiss IDA dialogs before retrying."))
    else err (
        tool_error (
          lit
            "Failed to start debugger. Verify a debugger is selected and the target is configured."))

-- sync.py after a tool with @keep_batch: after a failure the flag is set back.
unfoldable pub leave : Ended → ℕ → Session → Session
leave (ok u) old_batch s = s
leave (err e) old_batch s = record s { batch = old_batch }

-- A call of dbg_start, on the main thread: sync.py turns batch mode on and remembers what it was; then
-- come the hook, the start, and what the debugger reports up to the end of the call, `during`.
unfoldable pub dbg_start : Launch → List Event → Session → Ended × Session
unfolding arm happen_all started leave
dbg_start launch during s =
    let begun = happen_all during (arm s.batch (record s { batch = 1 })) in
    (started launch, leave (started launch) s.batch begun)
