-- ===== src/Jsonrpc/Pending.antt =====
-- The table of cancellable requests.
use ida_mcp.Prelude.{◌≡◌, refl, true, some, ◌∷◌, arith, nat_eq}
use ida_mcp.Prelude.Dict.{lookup-insert}
use ida_mcp.Json.{Value, Key, key_of, key_eq}
use ida_mcp.Exec.{ok}
use ida_mcp.State.{State}
use ida_mcp.Jsonrpc.{register_pending_request, cancel_request}

module _ (id id' : Value) (k : Key) (st : State) (hashed : key_of id ≡ some k) where
  -- While a request is registered, cancelling its id, or one that is equal as a dict key, sets the
  -- event that the thread of the request watches.
  pub cancel-register :
      key_of id' ≡ some k
      → let st' = (register_pending_request id st).1 in
        (cancel_request id' st' ≡ (ok true, record st' { fired = st.next_event ∷ st.fired }))
        × (st'.cancel_event ≡ some st.next_event)
  unfolding cancel_request register_pending_request
  cancel-register e = (
    ground (arith, hashed, e, lookup-insert k k st.next_event st.pending),
    rw (hashed, register_pending_request) refl,
  )
