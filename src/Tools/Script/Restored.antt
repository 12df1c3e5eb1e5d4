-- ===== src/Tools/Script/Restored.antt =====
-- What a script leaves behind, however it ends.
use ida_mcp.Prelude.{ℕ, ◌≡◌, refl, inl, inr, false, Option, ◌==◌, text_eq, Bool-cases}
use ida_mcp.Text.{Text, lit}
use ida_mcp.Exec.{Raised, exit, interrupt, Result, ok, err}
use ida_mcp.Tools.Script.{Code, World, handled, run_code}

-- What _run_code lets through: neither an Exception nor ToolInterrupt nor SystemExit.
pub data IsTold {ℓ} {A : Type ℓ} : Result A → Type ℓ where
  returned : (a : A) → IsTold (ok a)
  passes : (cls code : Text) → cls == lit "SystemExit" ≡ false → IsTold (err (exit cls code))

module _ (traceback error_hint : Raised → Text) where
  handled-IsTold :
      (n : ℕ) (r : Result (Option Text)) (w : World) → IsTold (handled traceback error_hint n r w)
  unfolding handled
  handled-IsTold n (ok value) w = returned _
  handled-IsTold n (err (exit cls code)) w = elim (Bool-cases (cls == lit "SystemExit")) [
    | inl e ↦ rw e (returned _)
    | inr e ↦ rw e (passes cls code e)
  ]
  handled-IsTold n (err (interrupt reason t)) w = returned _
  handled-IsTold n (err e) w = returned _

  -- However a script ends, and whatever it bound sys.stdout and sys.stderr to, they are bound
  -- afterwards as before; and what it raised comes back as an output, unless it is a BaseException
  -- that is neither ToolInterrupt nor SystemExit.
  pub run_code-IsTold :
      (c : Code) (w : World)
      → ((run_code traceback error_hint c w).1.stdout ≡ w.stdout)
        × ((run_code traceback error_hint c w).1.stderr ≡ w.stderr)
        × IsTold (run_code traceback error_hint c w).0
  unfolding run_code
  run_code-IsTold c w = (refl, refl, handled-IsTold _ _ _)
