-- ===== src/Sync/Watchdog.antt =====
-- The watchdog of script tools (sync.py: _HardInterruptWatchdog._due_at and _run). A round of the
-- loop sees the clock and what other threads have done; times are whole milliseconds.
pub mod Bounds
use ida_mcp.Prelude.{
  ℕ, suc, ◌+◌, Bool, true, false, not, ◌&&◌, ◌||◌, Option, none, some, List, [], ◌∷◌, min, leb, ltb,
  if◌then◌else◌,
}

abbrev pub native_cancel_grace : ℕ
native_cancel_grace = 5000

abbrev pub hard_interrupt_extra : ℕ
hard_interrupt_extra = 5000

abbrev pub hard_interrupt_retry : ℕ
hard_interrupt_retry = 2000

abbrev pub hard_interrupt_max_attempts : ℕ
hard_interrupt_max_attempts = 10

-- What one round sees: the done event when the wait ends and again under the lock, the clock, the
-- cancel event, and whether the guarded frame is on the main thread's stack.
pub record Round : Type 0 where
  pub done : Bool
  pub now : ℕ
  pub cancel_set : Bool
  pub done_locked : Bool
  pub in_tool : Bool

pub record Watch : Type 0 where
  pub cancel_seen : Option ℕ
  pub attempts : ℕ
  pub next_try : Option ℕ

pub data Move : Type 0 where
  wait : Watch → Move  -- go on, nothing was injected
  inject : Watch → Move  -- ToolInterrupt was injected; go on
  inject_last : Move  -- it was injected for the last time; stop
  stop : Move

unfoldable pub due_at : Option ℕ → Option ℕ → Option ℕ
due_at none none = none
due_at none (some c) = some (c + hard_interrupt_extra)
due_at (some d) none = some (d + native_cancel_grace + hard_interrupt_extra)
due_at (some d) (some c) =
    some (min (d + native_cancel_grace + hard_interrupt_extra) (c + hard_interrupt_extra))

unfoldable pub see_cancel : Option ℕ → Round → Option ℕ
see_cancel (some c) r = some c
see_cancel none r = if r.cancel_set then some r.now else none

unfoldable pub is_after : ℕ → Option ℕ → Bool
is_after now none = true
is_after now (some t) = leb t now

unfoldable pub is_due : ℕ → Option ℕ → Bool
is_due now none = false
is_due now (some t) = leb t now

-- One round of _run's loop.
unfoldable pub watch_round : Option ℕ → Round → Watch → Move
watch_round deadline r w =
    let seen = see_cancel w.cancel_seen r in
    let waiting = record w { cancel_seen = seen } in
    if r.done
    then stop
    else if not (is_due r.now (due_at deadline seen))
    then wait waiting
    else if not (is_after r.now w.next_try)
    then wait waiting
    else if r.done_locked || not r.in_tool
    then stop
    else if leb hard_interrupt_max_attempts (suc w.attempts)
    then inject_last
    else inject record {
      cancel_seen = seen;
      attempts = suc w.attempts;
      next_try = some (r.now + hard_interrupt_retry);
    }

-- The loop over the rounds to come: those in which ToolInterrupt was injected.
unfoldable pub watch_from : Option ℕ → List Round → Watch → List Round
watch_from deadline [] w = []
watch_from deadline (r ∷ rs) w = elim (watch_round deadline r w) [
  | wait w' ↦ watch_from deadline rs w'
  | inject w' ↦ r ∷ watch_from deadline rs w'
  | inject_last ↦ r ∷ []
  | stop ↦ []
]

unfoldable pub run_watchdog : Option ℕ → List Round → List Round
run_watchdog deadline rs =
    watch_from deadline rs record { cancel_seen = none; attempts = 0; next_try = none }
