-- ===== src/Mcp/Call/Leak.antt =====
-- A request id that is a list or an object: the gate is taken and never given back.
use ida_mcp.Prelude.{
  ◌-◌, ◌≡◌, refl, inl, inr, true, Option, none, some, List, [], ◌∷◌, arith, Option-cases,
}
use ida_mcp.Text.{Text, lit}
use ida_mcp.Json.{Float, Value, null, Key, key_of}
use ida_mcp.Exec.{Raised, ok, err}
use ida_mcp.State.{State}
use ida_mcp.Jsonrpc.{Env, type_error, register_pending_request}
use ida_mcp.Mcp.Server.{Server, Context}
use ida_mcp.Mcp.Access.{denial, MayCall}
use ida_mcp.Mcp.Access.Rules.{denial-none_iff}
use ida_mcp.Mcp.Call.{register, entered, admitted, tools_call, is_gated, busy_result}

-- One tools/call as it comes in: its request id, its flags, its name and its arguments.
pub record Incoming : Type 0 where
  pub id : Value
  pub context : Context
  pub name : Value
  pub arguments : Value

-- Calls served one after the other.
unfoldable pub serve : (Text → Option Float) → Env → Server → List Incoming → State → State
serve parse_float env s [] st = st
serve parse_float env s (c ∷ calls) st =
    serve parse_float env s calls
      (tools_call parse_float env s c.context c.name c.arguments
        (record st { request_id = c.id })).1

module _ (parse_float : Text → Option Float) (env : Env) (s : Server)
    (gated : is_gated s.max_concurrent_tools ≡ true) where
  admitted-taken :
      (name : Value) (key : Key) (arguments : Value) (st : State)
      → st.gate ≡ 0
      → ((admitted parse_float env s name key arguments st).0 ≡ ok (busy_result env name))
        × ((admitted parse_float env s name key arguments st).1.gate ≡ 0)
  unfolding admitted
  admitted-taken name key arguments st taken = rw (gated, taken) (refl, refl)

  busy-tools_call :
      (x : Context) (name arguments : Value) (key : Key) (st : State)
      → key_of name ≡ some key
      → MayCall s x key
      → st.gate ≡ 0
      → (tools_call parse_float env s x name arguments st).0 ≡ ok (busy_result env name)
  unfolding tools_call
  busy-tools_call x name arguments key st e may taken =
      rw (e, tools_call)
        (rw ((denial-none_iff s x key).1 may) ((admitted-taken name key arguments st taken).0))

  taken-tools_call :
      (x : Context) (name arguments : Value) (st : State)
      → st.gate ≡ 0
      → (tools_call parse_float env s x name arguments st).1.gate ≡ 0
  unfolding tools_call
  taken-tools_call x name arguments st taken = elim (Option-cases (key_of name)) [
    | inl e ↦ rw (e, tools_call) taken
    | inr (k, e) ↦
        rw (e, tools_call)
          (elim (Option-cases (denial s x k)) [
            | inl d ↦ rw d ((admitted-taken name k arguments st taken).1)
            | inr (d, e') ↦ rw e' taken
          ])
  ]

  taken-serve :
      (calls : List Incoming) (st : State)
      → st.gate ≡ 0
      → (serve parse_float env s calls st).gate ≡ 0
  unfolding serve
  taken-serve [] st taken = taken
  taken-serve (c ∷ calls) st taken =
      taken-serve calls _
        (taken-tools_call c.context c.name c.arguments (record st { request_id = c.id }) taken)

  register-unhashable :
      (id : Value) (st : State)
      → key_of id ≡ none
      → (e : Raised) × ((register parse_float env id st).0 ≡ err e)
        × ((register parse_float env id st).1.gate ≡ st.gate)
  unfolding register register_pending_request key_of
  register-unhashable null st h = absurd (cc h)
  register-unhashable id st h = (type_error (lit "unhashable type"), ground arith, ground arith)

  pub leak-tools_call :
      (x : Context) (name arguments : Value) (key : Key) (st : State)
      → key_of name ≡ some key
      → MayCall s x key
      → key_of st.request_id ≡ none
      → st.gate ≡ 1
      → (tools_call parse_float env s x name arguments st).1.gate ≡ 0
  unfolding tools_call admitted entered
  leak-tools_call x name arguments key st e may unhashed one =
      let (_, raised, same) =
        register-unhashable st.request_id (record st { gate = st.gate - 1 }) unhashed in
      rw (e, tools_call)
        (rw ((denial-none_iff s x key).1 may) (rw (gated, one) (ground (arith, raised, same))))

  -- One allowed call with an unhashable id, when no tool is running, takes the gate for good: after
  -- it, whatever calls are served next, a call that passes the access checks is answered "busy".
  pub unhashable_id-busy :
      (x : Context) (name arguments : Value) (key : Key) (st : State)
      → key_of name ≡ some key
      → MayCall s x key
      → key_of st.request_id ≡ none
      → st.gate ≡ 1
      → (calls : List Incoming) (next : Incoming) (next_key : Key)
      → key_of next.name ≡ some next_key
      → MayCall s next.context next_key
      → let later =
          serve parse_float env s calls (tools_call parse_float env s x name arguments st).1 in
        (tools_call parse_float env s next.context next.name next.arguments
          (record later { request_id = next.id })).0
        ≡ ok (busy_result env next.name)
  unhashable_id-busy x name arguments key st e may unhashed one calls next next_key e' may' =
      busy-tools_call next.context next.name next.arguments next_key _ e' may'
        (taken-serve calls _ (leak-tools_call x name arguments key st e may unhashed one))
