-- ===== src/Exec.antt =====
-- Python's exceptions, and calls that read and write a state and may raise. What was written before
-- a raise stays written, so the state comes back beside the exception too.
use ida_mcp.Prelude.{Bool, true, false, Option}
use ida_mcp.Prelude.Int.{ℤ}
use ida_mcp.Text.{Text}
use ida_mcp.Json.{Value}

pub data Reason : Type 0 where
  timeout cancel : Reason

pub data Raised : Type 0 where
  rpc_error : ℤ → Text → Option Value → Raised  -- JsonRpcException
  cancelled : Text → Raised  -- RequestCancelledError, sync.CancelledError
  tool_error : Text → Raised  -- McpToolError, sync.IDAError
  sync_error : Text → Raised  -- sync.IDASyncError
  other : Text → Text → Raised  -- another Exception: its class and its text
  interrupt : Reason → Text → Raised  -- sync.ToolInterrupt, a BaseException
  exit : Text → Text → Raised  -- another BaseException (SystemExit, KeyboardInterrupt)

-- isinstance(e, Exception)
abbrev pub is_exception : Raised → Bool
is_exception (interrupt r t) = false
is_exception (exit c t) = false
is_exception _ = true

pub data Result {ℓ} (A : Type ℓ) : Type ℓ where
  ok : A → Result A
  err : Raised → Result A

abbrev pub Exec : Type 0 → Type 0 → Type 0
Exec S A = S → Result A × S

module _ {S A : Type 0} where
  abbrev pub pure : A → Exec S A
  pure a s = (ok a, s)

  abbrev pub raise : Raised → Exec S A
  raise e s = (err e, s)

  abbrev pub lift : Result A → Exec S A
  lift r s = (r, s)

  abbrev pub gets : (S → A) → Exec S A
  gets f s = (ok (f s), s)

abbrev pub modify : {S : Type 0} → (S → S) → Exec S Unit
modify f s = (ok tt, f s)

module _ {S A B : Type 0} where
  abbrev pub continue : Result A → (A → Exec S B) → Exec S B
  continue (ok a) f s = f a s
  continue (err e) f s = (err e, s)

  infixl 10 ◌>>=◌ ◌>>◌
  abbrev pub ◌>>=◌ : Exec S A → (A → Exec S B) → Exec S B
  ◌>>=◌ m f s = let (r, s') = m s in continue r f s'

  abbrev pub ◌>>◌ : Exec S A → Exec S B → Exec S B
  m >> n = m >>= λ _. n
