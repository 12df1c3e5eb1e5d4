-- ===== src/Mcp/Call/Refusal.antt =====
-- A call that the access checks refuse.
use ida_mcp.Prelude.{◌≡◌, refl, inl, inr, true, Option, some, Option-cases}
use ida_mcp.Text.{Text}
use ida_mcp.Json.{Float, Value, Key, key_of}
use ida_mcp.Exec.{ok}
use ida_mcp.State.{State}
use ida_mcp.Jsonrpc.{Env}
use ida_mcp.Mcp.Server.{Server, Context}
use ida_mcp.Mcp.Access.{denial, MayCall}
use ida_mcp.Mcp.Access.Rules.{denial-none_iff}
use ida_mcp.Mcp.Call.{tools_call}
use ida_mcp.Mcp.Result.{CallResult}

-- A call whose name the token, the flags and the profile do not allow is answered with an error
-- and changes nothing: no tool runs, the gate, the metrics and the audit stay as they were.
pub tools_call-refused :
    (parse_float : Text → Option Float) (env : Env) (s : Server) (x : Context)
    (name arguments : Value) (key : Key) (st : State)
    → key_of name ≡ some key
    → ¬ MayCall s x key
    → (r : CallResult) × (tools_call parse_float env s x name arguments st ≡ (ok r, st))
      × (r.is_error ≡ true)
unfolding tools_call
tools_call-refused parse_float env s x name arguments key st e refused =
    rw (e, tools_call)
      (elim (Option-cases (denial s x key)) [
        | inl d ↦ absurd (refused ((denial-none_iff s x key).0 d))
        | inr (d, e') ↦ rw e' (_, refl, refl)
      ])
