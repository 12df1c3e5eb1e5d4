-- ===== src/Sync/Wrapper/Restores.antt =====
-- What a call of a tool gives its caller, and what it puts back.
use ida_mcp.Prelude.{ℕ, ◌≡◌, refl, Bool, true, false, ◌&&◌, Option, none, some, []}
use ida_mcp.Text.{Text}
use ida_mcp.Json.{Value}
use ida_mcp.Exec.{
  timeout, cancel, Raised, rpc_error, cancelled, tool_error, sync_error, other, interrupt, exit,
  Result, ok, err, Exec, is_exception,
}
use ida_mcp.Sync.Wrapper.{
  Ida, Main, Outcome, gives, waits, surface, runned_on, runned, finish, begin, synced, timed,
  sync_wrapper, is_ok,
}
use ida_mcp.Sync.Hook.{to_error}

-- An answer that is a value or an Exception; not a wait, and no BaseException.
abbrev pub IsOrdinary : Outcome → Type 0
IsOrdinary waits = ⊥
IsOrdinary (gives (ok v)) = Unit
IsOrdinary (gives (err e)) = is_exception e ≡ true

surface-IsOrdinary : (r : Result Value) → IsOrdinary (gives (surface r))
unfolding surface to_error
surface-IsOrdinary (ok v) = tt
surface-IsOrdinary (err (rpc_error c m d)) = refl
surface-IsOrdinary (err (cancelled m)) = refl
surface-IsOrdinary (err (tool_error m)) = refl
surface-IsOrdinary (err (sync_error m)) = refl
surface-IsOrdinary (err (other c m)) = refl
surface-IsOrdinary (err (interrupt timeout m)) = refl
surface-IsOrdinary (err (interrupt cancel m)) = refl
surface-IsOrdinary (err (exit c m)) = refl

module _ {I : Type 0} (api : Ida I) (escape : Raised → Outcome) where
  -- The call of a tool outside every other gives a value or an Exception: it does not wait for a result
  -- that never comes, and a tool's SystemExit or interrupt does not pass to the caller's thread.
  pub sync_wrapper-IsOrdinary :
      (server : ℕ) (own : Option ℕ) (cancellable keep_batch : Bool) (name : Text)
      (ff : Exec (Main I) Value) (s : Main I)
      → s.call_stack ≡ []
      → IsOrdinary (sync_wrapper api escape server own cancellable keep_batch name ff s).0
  unfolding sync_wrapper synced runned runned_on
  sync_wrapper-IsOrdinary server own cancellable keep_batch name ff s h =
      simp h (surface-IsOrdinary _)

  -- Where batch(n) returns the flag of before and sets it to n, a call outside every other that fails,
  -- or that is not to keep the batch mode, leaves the flag as it was, whatever the tool did to it. The
  -- pre-call flag that the tool can ask for is the one of before the call, and is put back after it.
  pub runned-batch :
      (flag : I → ℕ)
      → ((n : ℕ) (i : I) → (api.batch n i).0 ≡ flag i)
      → ((n : ℕ) (i : I) → flag (api.batch n i).1 ≡ n)
      → (name : Text) (keep_batch : Bool) (ff : Exec (Main I) Value) (s : Main I)
      → s.call_stack ≡ []
      → is_ok (ff (begin api name s)).0 && keep_batch ≡ false
      → (flag (runned api name keep_batch ff s).1.ida ≡ flag s.ida)
        × ((begin api name s).pre_call_batch ≡ some (flag s.ida))
        × ((runned api name keep_batch ff s).1.pre_call_batch ≡ s.pre_call_batch)
  unfolding runned runned_on begin finish
  runned-batch flag old new name keep_batch ff s h failed =
      (simp h (simp (simp h at failed) (simp new (old 1 s.ida))), simp old refl, simp h refl)

  -- After a call with a timeout no deadline and no hook of it is left.
  pub timed-restores :
      (limit : ℕ) (ff : Exec (Main I) Value) (s : Main I)
      → ((timed api escape limit ff s).1.deadline ≡ none)
        × ((timed api escape limit ff s).1.hooked ≡ s.hooked)
  unfolding timed
  timed-restores limit ff s = (refl, refl)
