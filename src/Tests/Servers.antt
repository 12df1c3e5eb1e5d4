-- ===== src/Tests/Servers.antt =====
-- Server processes, streams, chunked bodies and requests at once, in small runs.
use ida_mcp.Prelude.{
  ◌+◌, ℕ, ◌≤◌, ◌≡◌, ◌↔◌, refl, true, false, none, some, List, [], ◌∷◌, arith, text_eq, nat_eq,
}
use ida_mcp.Prelude.Dict.{lookup}
use ida_mcp.Text.{lit}
use ida_mcp.Json.{Key, key_of, none_key}
use ida_mcp.Jsonrpc.{raw}
use ida_mcp.Process.{Env, System, Process, start_server, stop_server}
use ida_mcp.Process.Serving.{
  IsServing, IsDown, started, at_first, after, Reached-IsServing, stop-start,
}
use ida_mcp.Mcp.Sse.{Stream, Hub, deletes, posts, apply_all, endpoint}
use ida_mcp.Mcp.Sse.Closed.{apply_all-closed}
use ida_mcp.Mcp.Body.{Bytes, accepted, complete, read_chunked}
use ida_mcp.Mcp.Body.Chunks.{encode, ending}
use ida_mcp.Mcp.Body.Chunks.Wire.{Hex, framed, line_of, body_of, read_chunked-wire}
use ida_mcp.Mcp.Call.{tools_registry, register, acquire}
use ida_mcp.Mcp.Call.Concurrent
use ida_mcp.Mcp.Call.Concurrent.{enters, Reachable-IsExclusive}
use ida_mcp.Tests.Fixtures
use ida_mcp.Tests.Fixtures.{word, secret, server, idle, no_float}

abbrev variables : Env
variables = record { no_auth = []; token = []; max_output = []; fresh = secret; pid = 7 }

abbrev system : System
system = record { binds = true; registers = true; started_at = [] }

abbrev stopped_process : Process
stopped_process = record {
  running = false;
  http_server = none;
  server_thread = false;
  auth_token = none;
  max_output_chars = 0;
  own_port = none;
  directory = (9, none) ∷ [];
}

Reached-IsServing_example :
    IsServing variables refl (start_server variables system (word b'h') 5 stopped_process).1
Reached-IsServing_example =
    Reached-IsServing variables refl stopped_process _ refl
      (after at_first (started system (word b'h') 5 refl))

stop-start_example :
    IsDown 5 stopped_process
      (stop_server true 5 (start_server variables system (word b'h') 5 stopped_process).1)
stop-start_example = stop-start variables system (word b'h') 5 stopped_process refl refl

abbrev closed_stream : Stream
closed_stream = record { alive = false; written = endpoint secret ∷ [] }

abbrev hub : Hub
hub = record { streams = (secret, closed_stream) ∷ []; connections = secret ∷ []; state = idle }

apply_all-closed_example :
    lookup secret
      (apply_all Fixtures.env raw
        (tools_registry server)
        (posts true (some secret) (accepted (word b'x')) ∷ deletes secret ∷ [])
        hub).streams
    ≡ some closed_stream
unfolding lookup text_eq
apply_all-closed_example =
    apply_all-closed Fixtures.env raw (tools_registry server) secret closed_stream
      (posts true (some secret) (accepted (word b'x')) ∷ deletes secret ∷ []) hub refl refl refl

-- The chunks "3" and "02" with their contents, and a last one.
abbrev wire : List (Hex × Bytes)
wire = ((3, []), lit "abc") ∷ ((0, 2 ∷ []), lit "de") ∷ []

read_chunked-wire_example :
    read_chunked 5 (encode (framed wire) (ending (line_of (0, [])) (word 1)))
    ≡ complete (body_of wire) (word 1)
unfolding lit
read_chunked-wire_example =
    read_chunked-wire wire 5 (0, []) (word 1)
      (
        (((omega arith, tt), omega arith), refl, omega arith),
        ((((omega arith, (omega arith, tt)), omega arith), refl, omega arith), tt),
      )
      ((omega arith, tt), omega arith) refl (omega arith)

-- What stands on the wire.
wire_run :
    encode (framed wire) (ending (line_of (0, [])) []) ≡ lit "3\r\nabc\r\n02\r\nde\r\n0\r\n\r\n"
unfolding lit
wire_run = refl

-- One request is inside: the next one is turned away.
Reachable-IsExclusive_example :
    (1 ≤ 1)
    × ((key : Key)
        → ((acquire key
              (register no_float Fixtures.env idle.request_id (acquire none_key idle).1).1).0
            ≡ false)
          ↔ Path ℕ (1 + 0) 1)
unfolding register key_of
Reachable-IsExclusive_example =
    Reachable-IsExclusive no_float Fixtures.env server idle _
      (Concurrent.after Concurrent.at_first (enters 4 none_key refl refl))
