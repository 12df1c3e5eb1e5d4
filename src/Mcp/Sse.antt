-- ===== src/Mcp/Sse.antt =====
-- The streams of server-sent events (mcp.py: _McpSseConnection, McpHttpRequestHandler._handle_sse_post,
-- _handle_sse_get, do_DELETE). A connection is an object that its GET handler holds and that the table
-- of the server names, so the objects are a store by session. What the socket does is given.
pub mod Closed
use ida_mcp.Prelude.{
  ℕ, Bool, true, false, not, ◌&&◌, Option, none, some, List, [], ◌∷◌, ◌++◌, keep, if◌then◌else◌,
  ◌==◌, contains, text_eq,
}
use ida_mcp.Prelude.Dict.{Dict, lookup, insert}
use ida_mcp.Text.{Text, lit}
use ida_mcp.Exec.{Raised, Result, ok, err}
use ida_mcp.State.{State}
use ida_mcp.Jsonrpc.{Env, Registry, Request, Response, dispatch}
use ida_mcp.Mcp.Body.{Bytes, Body, accepted, refused}

pub data Event : Type 0 where
  endpoint : Text → Event
  message : Response → Event
  ping : Event

pub record Stream : Type 0 where
  pub alive : Bool
  pub written : List Event  -- in order

pub record Hub : Type 0 where
  pub streams : Dict Text Stream  -- the objects
  pub connections : List Text  -- the sessions that McpServer._sse_connections names
  pub state : State

-- send_event, where `writes` is whether the socket takes it
unfoldable pub send_event : Bool → Event → Stream → Bool × Stream
send_event writes e s =
    if not s.alive
    then (false, s)
    else if writes
    then (true, record s { written = s.written ++ e ∷ [] })
    else (false, record s { alive = false })

unfoldable pub send_on : Bool → Text → Event → Hub → Option Stream → Bool × Hub
unfolding send_event
send_on writes session e h none = (false, h)
send_on writes session e h (some s) =
    let (sent, s') = send_event writes e s in
    (sent, record h { streams = insert session s' h.streams })

unfoldable pub send_to : Bool → Text → Event → Hub → Bool × Hub
unfolding send_on
send_to writes session e h = send_on writes session e h (lookup session h.streams)

unfoldable pub is_alive : Option Stream → Bool
is_alive none = false
is_alive (some s) = s.alive

unfoldable pub kill : Text → Hub → Option Stream → Hub
kill session h none = h
kill session h (some s) = record h {
  streams = insert session (record s { alive = false }) h.streams;
}

unfoldable pub pop : Text → Hub → Hub
pop session h = record h { connections = keep (λ c. not (c == session)) h.connections }

-- The `finally` block of _handle_sse_get.
unfoldable pub close_stream : Text → Hub → Hub
unfolding kill pop
close_stream session h = pop session (kill session h (lookup session h.streams))

-- _handle_sse_get up to its loop. `headers`: they could be sent; `writes`: so could the first event.
unfoldable pub open_stream : Bool → Bool → Text → Hub → Hub
unfolding send_to close_stream
open_stream headers writes session h =
    let made = record h {
      streams = insert session (record { alive = true; written = [] }) h.streams;
      connections = session ∷ h.connections;
    } in
    let (sent, h') = send_to writes session (endpoint session) made in
    if not headers then close_stream session made else if sent then h' else close_stream session h'

-- What a round of the loop sees.
pub data Tick : Type 0 where
  gone : Tick  -- the peer closed the connection, or the server stops
  quiet : Tick
  due : Bool → Tick  -- a ping is due, and whether the socket takes it

unfoldable pub round_of : Tick → Text → Hub → Hub
unfolding send_to close_stream
round_of gone session h = close_stream session h
round_of quiet session h = h
round_of (due writes) session h =
    let (sent, h') = send_to writes session ping h in if sent then h' else close_stream session h'

-- One round; the loop is left where the connection is dead.
unfoldable pub stream_round : Tick → Text → Hub → Hub
unfolding round_of is_alive
stream_round tick session h =
    if is_alive (lookup session h.streams) then round_of tick session h else close_stream session h

-- do_DELETE at /sse
unfoldable pub delete_stream : Text → Hub → Hub
unfolding kill pop
delete_stream session h =
    if contains h.connections session
    then pop session (kill session h (lookup session h.streams))
    else h

pub data Ack : Type 0 where
  status : ℕ → Text → Ack
  accepted_202 : Ack
  dropped : Raised → Ack

-- What the threads of a server do to its streams, in any order.
pub data Op : Type 0 where
  opens : Bool → Bool → Text → Op
  rounds : Tick → Text → Op
  deletes : Text → Op
  posts : Bool → Option Text → Body → Op

module _ (env : Env) (read : Bytes → Request) (r : Registry) where
  unfoldable pub forwarded : Bool → Text → Result (Option Response) → Hub → Ack × Hub
  unfolding send_to
  forwarded writes session (err e) h = (dropped e, h)
  forwarded writes session (ok none) h = (accepted_202, h)
  forwarded writes session (ok (some x)) h =
      (accepted_202, (send_to writes session (message x) h).1)

  unfoldable pub posted : Bool → Text → Body → Hub → Ack × Hub
  unfolding forwarded
  posted writes session (refused code text) h = (status code text, h)
  posted writes session (accepted body) h =
      let (result, st) = dispatch env r (read body) h.state in
      forwarded writes session result (record h { state = st })

  -- _handle_sse_post. none: the URL names no session.
  unfoldable pub handle_sse_post : Bool → Option Text → Body → Hub → Ack × Hub
  unfolding posted is_alive
  handle_sse_post writes none body h = (status 400 (lit "Missing ?session for SSE POST"), h)
  handle_sse_post writes (some session) body h =
      if contains h.connections session && is_alive (lookup session h.streams)
      then posted writes session body h
      else (status 400 (lit "No active SSE connection for session " ++ session), h)

  unfoldable pub apply : Op → Hub → Hub
  unfolding open_stream stream_round delete_stream handle_sse_post
  apply (opens headers writes session) h = open_stream headers writes session h
  apply (rounds tick session) h = stream_round tick session h
  apply (deletes session) h = delete_stream session h
  apply (posts writes session body) h = (handle_sse_post writes session body h).1

  unfoldable pub apply_all : List Op → Hub → Hub
  unfolding apply
  apply_all [] h = h
  apply_all (o ∷ os) h = apply_all os (apply o h)
