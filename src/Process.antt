-- ===== src/Process.antt =====
-- How a server comes up and goes down (server.py: _init_auth_token, start_server, stop_server,
-- close_instance, _auto_analysis_ready, _hexrays_ready; mcp.py: McpServer.serve and stop, in the background). The operating
-- system's answers are given.
pub mod Serving
use ida_mcp.Prelude.{
  ℕ, Bool, true, false, not, ◌&&◌, ◌||◌, Option, none, some, [], ◌∷◌, if◌then◌else◌, ◌==◌, contains,
  nat_eq, text_eq,
}
use ida_mcp.Prelude.Int.{ℤ, pos, negsuc}
use ida_mcp.Text.{Text, lit, strip, lower, is_empty}
use ida_mcp.Number.{parse_int}
use ida_mcp.Exec.{
  Raised, other, Result, ok, err, Exec, pure, raise, lift, gets, modify, continue, ◌>>=◌, ◌>>◌,
}
use ida_mcp.Instances.{Directory, Info, register_instance, unregister_instance}

-- The variables that are read, the random token that is drawn, and this process.
pub record Env : Type 0 where
  pub no_auth : Text
  pub token : Text
  pub max_output : Text
  pub fresh : Text
  pub pid : ℕ

-- What the system does at one start: the port can be bound, and the instance file written.
pub record System : Type 0 where
  pub binds : Bool
  pub registers : Bool
  pub started_at : Text

pub record Process : Type 0 where
  pub running : Bool  -- McpServer._running
  pub http_server : Option (Text × ℕ)  -- the socket of McpServer._http_server
  pub server_thread : Bool
  pub auth_token : Option Text
  pub max_output_chars : ℕ
  pub own_port : Option ℕ
  pub directory : Directory

abbrev pub Action : Type 0
Action = Exec Process Unit

-- A function that IDA may lack, and that may raise.
pub data Probe : Type 0 where
  missing failing : Probe
  answers : Bool → Probe

unfoldable pub auto_analysis_ready : Probe → Option Bool
auto_analysis_ready (answers b) = some b
auto_analysis_ready _ = none

unfoldable pub hexrays_ready : Probe → Bool
hexrays_ready (answers b) = b
hexrays_ready _ = false

unfoldable pub auth_disabled : Env → Bool
auth_disabled env = contains (lit "1" ∷ lit "true" ∷ lit "yes" ∷ []) (lower (strip env.no_auth))

unfoldable pub init_auth_token : Env → Option Text
unfolding auth_disabled
init_auth_token env =
    if auth_disabled env
    then none
    else some (if is_empty (strip env.token) then env.fresh else strip env.token)

abbrev pub os_error : Raised
os_error = other (lit "OSError") []

unfoldable pub serve : System → Text → ℕ → Action
serve sys host port s =
    if s.running
    then (ok tt, s)
    else if sys.binds
    then (ok tt, record s { http_server = some (host, port); running = true; server_thread = true })
    else (err os_error, record s { http_server = none })

-- serve_forever ends: the flag falls, and the socket stays.
unfoldable pub died : Process → Process
died s = record s { running = false }

unfoldable pub stop : Process → Process
stop s =
    if s.running then record s { running = false; http_server = none; server_thread = false } else s

-- max(0, int(cap, 0)), where the variable holds a number
unfoldable pub read_cap : Text → ℕ → ℕ
read_cap cap old = elim (parse_int cap) [
  | none ↦ old
  | some i ↦ elim i [ pos n ↦ n | negsuc n ↦ 0 ]
]

unfoldable pub set_cap : Env → Process → Process
unfolding read_cap
set_cap env s = record s {
  max_output_chars =
      if is_empty (strip env.max_output)
      then s.max_output_chars
      else read_cap (strip env.max_output) s.max_output_chars;
}

unfoldable pub set_token : Env → Process → Process
unfolding init_auth_token
set_token env s = record s { auth_token = init_auth_token env }

unfoldable pub info_of : Env → System → Text → ℕ → Info
info_of env sys host port = record {
  host = host;
  port = port;
  pid = env.pid;
  started_at = sys.started_at;
}

-- What follows a server that came up: its port, and its file where it can be written.
unfoldable pub announce : Env → System → Text → ℕ → Process → Process
unfolding register_instance info_of
announce env sys host port s = record s {
  own_port = some port;
  directory =
      if sys.registers
      then register_instance (info_of env sys host port) s.directory
      else s.directory;
}

unfoldable pub start_server : Env → System → Text → ℕ → Action
unfolding serve set_cap set_token announce
start_server env sys host port s =
    (serve sys host port >> modify (announce env sys host port)) (set_token env (set_cap env s))

-- `removes`: the instance file could be removed
unfoldable pub stop_server : Bool → ℕ → Process → Process
unfolding stop unregister_instance
stop_server removes port s =
    let stopped = stop s in
    record stopped {
      own_port = none;
      directory = if removes then unregister_instance port stopped.directory else stopped.directory;
    }

unfoldable pub is_own : ℕ → Option ℕ → Bool
is_own port none = false
is_own port (some own) = port == own

-- The answer is whether the instance was closed.
unfoldable pub close_instance : Bool → ℕ → Process → Bool × Process
unfolding stop_server is_own
close_instance removes port s =
    if is_own port s.own_port then (true, stop_server removes port s) else (false, s)
