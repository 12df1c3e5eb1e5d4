-- ===== src/Mcp/Call/Gate.antt =====
-- The concurrency gate and the pending table around a tool call.
use ida_mcp.Prelude.{
  ℕ, ◌+◌, ◌-◌, ◌≡◌, refl, ap, ◌∙◌, ◌≢◌, inl, inr, Bool, true, false, Option, none, some, [], ◌∷◌,
  not, arith, if◌then◌else◌, Option-cases,
}
use ida_mcp.Text.{Text}
use ida_mcp.Json.{Float, Value, null, Key, key_of, key_eq}
use ida_mcp.Exec.{Result, ok, err, continue, pure}
use ida_mcp.State.{State}
use ida_mcp.Jsonrpc.{Env, register_pending_request, unregister_pending_request}
use ida_mcp.Jsonrpc.Keeps.{MethodsKeep, dispatch-keeps}
use ida_mcp.Mcp.Server.{Server, Context}
use ida_mcp.Mcp.Access.{denial}
use ida_mcp.Mcp.Audit.{write_audit, append_record}
use ida_mcp.Mcp.Call.{
  tools_registry, attempt, audit_call, settle, guarded, register, entered, admitted, tools_call,
  forget,
}
use ida_mcp.Mcp.Result.{shape_response}

-- No tool body changes the gate.
abbrev pub BodiesKeepGate : Server → Type 0
BodiesKeepGate s = (n : ℕ) → MethodsKeep (λ st. st.gate ≡ n) (tools_registry s)

module _ (env : Env) where
  append_record-gate :
      (path : Option Text) (name args : Value) (b : Bool) (st : State)
      → (append_record env path name args b st).gate ≡ st.gate
  unfolding append_record
  append_record-gate none name args b st = refl
  append_record-gate (some []) name args b st = refl
  append_record-gate (some (c ∷ t)) name args b st = refl

  pub append_record-pending :
      (path : Option Text) (name args : Value) (b : Bool) (st : State)
      → ((append_record env path name args b st).pending ≡ st.pending)
        × ((append_record env path name args b st).cancel_event ≡ st.cancel_event)
  unfolding append_record
  append_record-pending none name args b st = (refl, refl)
  append_record-pending (some []) name args b st = (refl, refl)
  append_record-pending (some (c ∷ t)) name args b st = (refl, refl)

module _ (parse_float : Text → Option Float) (env : Env) (s : Server) where
  continue-state :
      {A B : Type 0} (r : Result A) (g : A → B) (st : State)
      → (continue r (λ a. pure (g a)) st).1 ≡ st
  continue-state (ok a) g st = refl
  continue-state (err e) g st = refl

  attempt-gate :
      BodiesKeepGate s
      → (name arguments : Value) (st : State) → (attempt env s name arguments st).1.gate ≡ st.gate
  unfolding attempt
  attempt-gate keep name arguments st =
      rw (continue-state _ (shape_response env s.max_output_chars name) _) (
        dispatch-keeps env (tools_registry s) (λ t. t.gate ≡ st.gate) (λ t id h. h) (keep st.gate) _
          st refl)

  forget-gate : (id : Value) (st : State) → (forget id st).gate ≡ st.gate
  unfolding unregister_pending_request
  forget-gate null st = refl
  forget-gate id st = ground arith

  audit_call-gate :
      (name : Value) (key : Key) (arguments : Value) (failed : Bool) (st : State)
      → (audit_call parse_float env s name key arguments failed st).gate ≡ st.gate
  unfolding audit_call write_audit
  audit_call-gate name key arguments failed st =
      ground (arith, append_record-gate env s.audit_path name arguments (not failed) st)

  pub settle-gate :
      (gated : Bool) (id : Value) (key : Key) (name arguments : Value) (t : ℕ) (failed : Bool)
      (st : State)
      → (settle parse_float env s gated name key id arguments t failed st).gate
        ≡ (if gated then st.gate + 1 else st.gate)
  unfolding settle
  settle-gate true id key name arguments t failed st =
      audit_call-gate name key arguments failed _ ∙ ap (λ n. n + 1) (forget-gate id st)
  settle-gate false id key name arguments t failed st = forget-gate id st

  guarded-gate :
      BodiesKeepGate s
      → (gated : Bool) (name : Value) (key : Key) (arguments id : Value) (st : State)
      → (guarded parse_float env s gated name key arguments id st).1.gate
        ≡ (if gated then st.gate + 1 else st.gate)
  unfolding guarded
  guarded-gate keep gated name key arguments id st =
      settle-gate gated id key name _ _ _ _
      ∙ ap (λ n. if gated then n + 1 else n) (attempt-gate keep name _ st)

  -- A request id that can be a dict key; None is never registered.
  abbrev pub IsHashable : Value → Type 0
  IsHashable id = key_of id ≢ none

  pub register-hashable :
      (id : Value) (st : State)
      → IsHashable id
      → ((register parse_float env id st).0 ≡ ok tt)
        × ((register parse_float env id st).1.gate ≡ st.gate)
  unfolding register register_pending_request
  register-hashable null st h = (refl, refl)
  register-hashable id st h = ground arith

  entered-gate :
      BodiesKeepGate s
      → (gated : Bool) (name : Value) (key : Key) (arguments : Value) (st : State)
      → IsHashable st.request_id
      → (entered parse_float env s gated name key arguments st).1.gate
        ≡ (if gated then st.gate + 1 else st.gate)
  unfolding entered
  entered-gate keep gated name key arguments st h = rw (register-hashable st.request_id st h).0 (
      guarded-gate keep gated name key arguments st.request_id _
      ∙ ap (λ n. if gated then n + 1 else n) (register-hashable st.request_id st h).1)

  admitted-gate :
      BodiesKeepGate s
      → (name : Value) (key : Key) (arguments : Value) (st : State) → IsHashable st.request_id
      → (admitted parse_float env s name key arguments st).1.gate ≡ st.gate
  unfolding admitted
  admitted-gate keep name key arguments st h = ground (
    arith,
    entered-gate keep true name key arguments (record st { gate = st.gate - 1 }) h,
    entered-gate keep false name key arguments st h,
  )

  -- Whatever a tool call is answered with (a refusal, "busy", a result, a tool error, or an exception
  -- that escapes it), the gate is afterwards as free as before, provided that the tool bodies leave
  -- the gate alone and the id of the request can be a dict key.
  pub gate-tools_call :
      BodiesKeepGate s
      → (x : Context) (name arguments : Value) (st : State) → IsHashable st.request_id
      → (tools_call parse_float env s x name arguments st).1.gate ≡ st.gate
  unfolding tools_call
  gate-tools_call keep x name arguments st h = elim (Option-cases (key_of name)) [
    | inl e ↦ rw (e, tools_call)
    | inr (k, e) ↦
        rw (e, tools_call)
          (elim (Option-cases (denial s x k)) [
            | inl d ↦ rw d (admitted-gate keep name k arguments st h)
            | inr (d, e') ↦ rw e'
          ])
  ]
