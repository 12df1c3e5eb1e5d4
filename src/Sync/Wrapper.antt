-- ===== src/Sync/Wrapper.antt =====
-- A call of a tool on IDA's main thread (sync.py: _sync_wrapper, _guarded_body, timed_ff and
-- sync_wrapper). IDA's batch flag, its wait box and its cancel flag are reached through `Ida`; what
-- execute_sync does with an exception of its callable is the parameter `escape`.
pub mod Restores
pub mod Stack
use ida_mcp.Prelude.{
  ℕ, ◌+◌, Bool, true, false, not, ◌&&◌, ◌||◌, Option, none, some, List, [], ◌∷◌, ◌++◌, ltb,
  if◌then◌else◌, ◌==◌, contains, text_eq,
}
use ida_mcp.Text.{Text, lit, strip, lower, is_empty}
use ida_mcp.Json.{Value}
use ida_mcp.Exec.{
  Reason, Raised, rpc_error, cancelled, tool_error, sync_error, other, interrupt, exit, Result, ok,
  err, Exec, is_exception,
}
use ida_mcp.Sync.Hook.{to_error}

-- ida_kernwin and idc, as far as a call uses them
pub record Ida (I : Type 0) : Type 0 where
  pub batch : ℕ → I → ℕ × I  -- idc.batch: the flag that was set before
  pub show_wait_box : Text → I → Bool × I
  pub hide_wait_box : I → I
  pub clr_cancelled : I → I

-- What the main thread's frames and thread-locals hold.
pub record Main (I : Type 0) : Type 0 where
  pub call_stack : List Text
  pub pre_call_batch : Option ℕ
  pub deadline : Option ℕ
  pub hooked : Bool  -- whether a profile hook is set
  pub now : ℕ
  pub ida : I

-- res_container after execute_sync, and what runned raised
pub data Run : Type 0 where
  put : Result Value → Run
  escaped : Raised → Run

-- What the worker thread is given. A get() on an empty container waits for ever.
pub data Outcome : Type 0 where
  gives : Result Value → Outcome
  waits : Outcome

abbrev pop : List Text → List Text
pop [] = []
pop (x ∷ xs) = xs

abbrev is_ok : Result Value → Bool
is_ok (ok v) = true
is_ok (err e) = false

-- What _sync_wrapper does with the result: no BaseException passes it.
unfoldable pub surface : Result Value → Result Value
unfolding to_error
surface (ok v) = ok v
surface (err (interrupt r t)) = err (to_error r t)
surface (err (exit c t)) = err (tool_error (lit "Tool aborted by " ++ c ++ lit ": " ++ t))
surface (err e) = err e

abbrev chosen : ℕ → Option ℕ → ℕ
chosen server none = server
chosen server (some t) = t

module _ {I : Type 0} (api : Ida I) where
  -- The state in which the body starts: batch mode on and the box shown; with what `finish` needs.
  unfoldable pub begin : Text → Main I → Main I
  begin name s = record s {
    call_stack = name ∷ s.call_stack;
    pre_call_batch = some (api.batch 1 s.ida).0;
    ida = (api.show_wait_box name (api.batch 1 s.ida).1).1;
  }

  -- The `finally`: hide the box, restore the batch flag unless it is to be kept, and pop the stack.
  unfoldable pub finish : Bool → Bool → ℕ → Option ℕ → Main I → Main I
  finish shown keep old_batch prev_pre_call s =
      let hidden = if shown then api.hide_wait_box s.ida else s.ida in
      record s {
        call_stack = pop s.call_stack;
        pre_call_batch = prev_pre_call;
        ida = if keep then hidden else (api.batch old_batch hidden).1;
      }

  -- runned, by what the call stack holds
  pub runned_on : List Text → Text → Bool → Exec (Main I) Value → Main I → Run × Main I
  unfolding begin finish
  runned_on (top ∷ rest) name keep_batch ff s = (
    escaped (
        sync_error (
          lit "Call stack is not empty while calling the function "
          ++ name
          ++ lit " from "
          ++ top)),
    record s { call_stack = rest },
  )
  runned_on [] name keep_batch ff s =
      let (r, s') = ff (begin name s) in
      (
        put r,
        finish (api.show_wait_box name (api.batch 1 s.ida).1).0 (is_ok r && keep_batch)
            (api.batch 1 s.ida).0 s.pre_call_batch s',
      )

  unfoldable pub runned : Text → Bool → Exec (Main I) Value → Main I → Run × Main I
  runned name keep_batch ff s = runned_on s.call_stack name keep_batch ff s

  module _ (escape : Raised → Outcome) where
    abbrev received : Run → Outcome
    received (put r) = gives (surface r)
    received (escaped e) = escape e

    -- _sync_wrapper
    unfoldable pub synced : Text → Bool → Exec (Main I) Value → Main I → Outcome × Main I
    synced name keep_batch ff s = let (run, s') = runned name keep_batch ff s in (received run, s')

    -- The `except ToolInterrupt` of timed_ff.
    unfoldable pub convert : Result Value → Result Value
    unfolding to_error
    convert (err (interrupt r t)) = err (to_error r t)
    convert r = r

    abbrev deadline_of : ℕ → ℕ → Option ℕ
    deadline_of limit now = if ltb 0 limit then some (now + limit) else none

    -- timed_ff, for a timeout in ms. The clock is read when the body starts. What the timer of the native
    -- cancel and the watchdog do while the body runs is part of what `ff` does.
    unfoldable pub timed : ℕ → Exec (Main I) Value → Exec (Main I) Value
    unfolding convert
    timed limit ff s =
        let start = record s {
          deadline = deadline_of limit s.now;
          hooked = true;
          ida = api.clr_cancelled s.ida;
        } in
        let (r, s') = ff start in
        (
          convert r,
          record s' { deadline = none; hooked = s.hooked; ida = api.clr_cancelled s'.ida },
        )

    -- sync_wrapper: the timeout of the tool or, where it has none, of the server; 0 stands for a
    -- timeout that is not positive.
    unfoldable pub sync_wrapper :
        ℕ → Option ℕ → Bool → Bool → Text → Exec (Main I) Value → Main I → Outcome × Main I
    sync_wrapper server_timeout timeout_override cancellable keep_batch name ff s =
        let limit = chosen server_timeout timeout_override in
        synced name keep_batch (if ltb 0 limit || cancellable then timed limit ff else ff) s

-- _get_tool_timeout_seconds: the variable's text, where float() is `parse`
unfoldable pub get_tool_timeout : {A : Type 0} → (Text → Option A) → A → Text → A
get_tool_timeout parse fallback text =
    if is_empty (strip text)
    then fallback
    else elim (parse (strip text)) [ none ↦ fallback | some t ↦ t ]

-- _ui_pump and _load_set_async_exc: the words that switch a feature off or on
unfoldable pub pump_disabled : Text → Bool
pump_disabled text =
    contains (lit "0" ∷ lit "false" ∷ lit "no" ∷ lit "off" ∷ []) (lower (strip text))

unfoldable pub hard_interrupt_disabled : Text → Bool
hard_interrupt_disabled text = contains (lit "1" ∷ lit "true" ∷ lit "yes" ∷ []) (lower (strip text))
