-- ===== src/Tests/MainThread.antt =====
-- The theorems on IDA's main thread, at small inputs. IDA is here a batch flag.
use ida_mcp.Prelude.{ℕ, ◌≤◌, ◌<◌, ◌≡◌, inl, refl, true, false, none, some, [], ◌∷◌, arith, length}
use ida_mcp.Json.{Value}
use ida_mcp.Exec.{Raised, exit, err, Exec}
use ida_mcp.Sync.Watchdog.{Round, run_watchdog}
use ida_mcp.Sync.Watchdog.Bounds.{run_watchdog-fires}
use ida_mcp.Sync.Hook.{Glance, absent, answers, is_past, watch_body, in_grace}
use ida_mcp.Sync.Hook.Limits.{IsOk, watch_body-raises}
use ida_mcp.Sync.Wrapper.{Ida, Main, Outcome, waits, sync_wrapper, runned, begin}
use ida_mcp.Sync.Wrapper.Restores.{IsOrdinary, sync_wrapper-IsOrdinary, runned-batch}
use ida_mcp.Sync.Wrapper.Stack.{calls, ends, sync_wrapper-nested}
use ida_mcp.Tests.Fixtures.{word}

abbrev ida : Ida ℕ
ida = record {
  batch = λ n old. (old, n);
  show_wait_box = λ t i. (true, i);
  hide_wait_box = λ i. i;
  clr_cancelled = λ i. i;
}

abbrev main : Main ℕ
main = record {
  call_stack = [];
  pre_call_batch = none;
  deadline = none;
  hooked = false;
  now = 3;
  ida = 0;
}

abbrev blocks : Raised → Outcome
blocks e = waits

-- A script that turns batch mode on and calls exit().
abbrev exits : Exec (Main ℕ) Value
exits s = (err (exit (word b'S') []), record s { ida = 7 })

sync_wrapper-IsOrdinary_example :
    IsOrdinary (sync_wrapper ida blocks 5 none false false (word b't') exits main).0
sync_wrapper-IsOrdinary_example =
    sync_wrapper-IsOrdinary ida blocks 5 none false false (word b't') exits main refl

runned-batch_example :
    ((runned ida (word b't') true exits main).1.ida ≡ 0)
    × ((begin ida (word b't') main).pre_call_batch ≡ some 0)
    × ((runned ida (word b't') true exits main).1.pre_call_batch ≡ none)
runned-batch_example =
    runned-batch ida blocks (λ i. i) (λ n i. refl) (λ n i. refl) (word b't') true exits main refl
      refl

-- A tool that calls the script as a tool, and then ends.
abbrev aborts : Outcome → Exec (Main ℕ) Value
aborts o s = (err (exit (word b'T') []), s)

abbrev calls_script : Exec (Main ℕ) Value
calls_script s =
    let (o, s') = sync_wrapper ida blocks 5 none false false (word b'i') exits s in aborts o s'

sync_wrapper-nested_example :
    length (sync_wrapper ida blocks 5 none false false (word b't') calls_script main).1.call_stack
    ≤ 0
sync_wrapper-nested_example =
    sync_wrapper-nested ida blocks 5 none false false (word b't') calls_script
      (calls {inner = exits} {onward = aborts} (λ s. s) 5 none false false (word b'i') (λ s. refl)
        (ends (λ s. refl)) (λ o. ends (λ s. refl)))
      main

-- A call after the deadline and the grace period, and one with nothing to stop it.
abbrev overdue : Glance
overdue = record {
  cancel_set = none;
  now = 9000;
  fired_at = some 2000;
  deadline = some 2000;
  pump = absent;
}

abbrev quiet : Glance
quiet = record {
  cancel_set = some false;
  now = 1000;
  fired_at = none;
  deadline = some 2000;
  pump = answers false;
}

watch_body-raises_example : ¬ IsOk (watch_body [] (quiet ∷ overdue ∷ quiet ∷ []) 0)
unfolding is_past in_grace
watch_body-raises_example =
    watch_body-raises [] (quiet ∷ []) overdue (quiet ∷ []) 0 (inl (refl, refl))

abbrev round_at : ℕ → Round
round_at t = record {
  done = false;
  now = t;
  cancel_set = false;
  done_locked = false;
  in_tool = true;
}

run_watchdog-fires_example :
    0 < length (run_watchdog (some 1000) (round_at 500 ∷ round_at 12000 ∷ []))
run_watchdog-fires_example =
    run_watchdog-fires 1000 (round_at 500 ∷ []) (round_at 12000) [] ((refl, refl, refl), tt)
      (refl, refl, refl) (omega arith)
