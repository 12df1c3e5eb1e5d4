-- ===== src/Mcp/Call/Pending.antt =====
-- The pending table after a tool call.
use ida_mcp.Prelude.{ℕ, ◌-◌, ◌<◌, ◌≡◌, refl, ◌≢◌, Bool, true, false, Option, none, some, arith, not}
use ida_mcp.Prelude.Dict.{lookup, lookup-erase_self}
use ida_mcp.Text.{Text}
use ida_mcp.Json.{Float, Value, null, Key, key_of, key_eq}
use ida_mcp.State.{State}
use ida_mcp.Jsonrpc.{Env, unregister_pending_request}
use ida_mcp.Mcp.Server.{Server, Context}
use ida_mcp.Mcp.Access.{MayCall}
use ida_mcp.Mcp.Access.Rules.{denial-none_iff}
use ida_mcp.Mcp.Audit.{write_audit}
use ida_mcp.Mcp.Call.{settle, audit_call, guarded, entered, admitted, tools_call, forget}
use ida_mcp.Mcp.Call.Gate.{append_record-pending, register-hashable}

-- No entry for the request is left, and its thread watches no event.
pub record IsForgotten (k : Key) (st : State) : Type 0 where
  pub unregistered : lookup k st.pending ≡ none
  pub unwatched : st.cancel_event ≡ none

forget-eq :
    (id : Value) (st : State) → id ≢ null → forget id st ≡ (unregister_pending_request id st).1
forget-eq null st h = absurd (h refl)
forget-eq id st h = refl

module _ (parse_float : Text → Option Float) (env : Env) (s : Server) (id : Value) (k : Key)
    (named : id ≢ null) (hashed : key_of id ≡ some k) where
  forget-IsForgotten : (st : State) → IsForgotten k (forget id st)
  unfolding unregister_pending_request
  forget-IsForgotten st = rw (forget-eq id st named) (
      rw (hashed, unregister_pending_request)
        (record { unregistered = lookup-erase_self k st.pending; unwatched = refl }))

  audit_call-IsForgotten :
      (name : Value) (key : Key) (arguments : Value) (failed : Bool) (st : State)
      → IsForgotten k st
      → IsForgotten k (audit_call parse_float env s name key arguments failed st)
  unfolding audit_call write_audit
  audit_call-IsForgotten name key arguments failed st h =
      ground (arith, append_record-pending env s.audit_path name arguments (not failed) st)

  settle-IsForgotten :
      (gated : Bool) (key : Key) (name arguments : Value) (t : ℕ) (failed : Bool) (st : State)
      → IsForgotten k (settle parse_float env s gated name key id arguments t failed st)
  unfolding settle
  settle-IsForgotten true key name arguments t failed st =
      audit_call-IsForgotten name key arguments failed _ (record {
        unregistered = (forget-IsForgotten st).unregistered;
        unwatched = (forget-IsForgotten st).unwatched;
      })
  settle-IsForgotten false key name arguments t failed st = forget-IsForgotten st

  guarded-IsForgotten :
      (gated : Bool) (name : Value) (key : Key) (arguments : Value) (st : State)
      → IsForgotten k (guarded parse_float env s gated name key arguments id st).1
  unfolding guarded
  guarded-IsForgotten gated name key arguments st = settle-IsForgotten gated key name _ _ _ _

  entered-IsForgotten :
      (gated : Bool) (name : Value) (key : Key) (arguments : Value) (st : State)
      → st.request_id ≡ id
      → IsForgotten k (entered parse_float env s gated name key arguments st).1
  unfolding entered
  entered-IsForgotten gated name key arguments st e =
      rw (register-hashable parse_float env s st.request_id st (λ q. cc (q, e, hashed))).0
        (rw e (guarded-IsForgotten gated name key arguments _))

  -- A call that passes the access checks and finds the gate free leaves no entry for its request id
  -- in the pending table and no event for its thread, whether the tool returned, failed or raised.
  pub tools_call-IsForgotten :
      (x : Context) (name arguments : Value) (key : Key) (st : State)
      → key_of name ≡ some key
      → MayCall s x key
      → st.request_id ≡ id
      → 0 < st.gate
      → IsForgotten k (tools_call parse_float env s x name arguments st).1
  unfolding tools_call admitted
  tools_call-IsForgotten x name arguments key st e may same free =
      rw (e, tools_call)
        (rw ((denial-none_iff s x key).1 may) (
          ground (
            arith,
            entered-IsForgotten true name key arguments (record st { gate = st.gate - 1 }) same,
            entered-IsForgotten false name key arguments st same,
          )))
