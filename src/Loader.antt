-- ===== src/Loader.antt =====
-- The plugin that starts the server inside IDA (ida_mcp_loader.py: _is_loopback, _get_host,
-- unload_package, IdaMcp.run, MCPUIHooks.ready_to_run).
pub mod Binding
use ida_mcp.Prelude.{
  Bool, true, false, not, ◌&&◌, ◌||◌, Option, none, some, ℕ, List, [], ◌∷◌, ◌++◌, map, keep,
  if◌then◌else◌, ◌==◌, contains, nat_eq, text_eq,
}
use ida_mcp.Text.{Text, lit, strip, lower, starts_with, is_empty}

abbrev pub loopback_hosts : List Text
loopback_hosts = lit "127.0.0.1" ∷ lit "localhost" ∷ lit "::1" ∷ []

unfoldable pub is_loopback : Text → Bool
is_loopback host = contains loopback_hosts (lower (strip host))

-- The host stored in the IDB; none without ida_netnode, where the read fails, or where none is stored.
pub stored_host : Text → Option Text → Text
unfolding is_loopback
stored_host default none = default
stored_host default (some val) = if is_empty val || not (is_loopback val) then default else val

-- _get_host: the variable IDA_MCP_HOST, then the IDB, then the default
unfoldable pub get_host : Text → Option Text → Text → Text
unfolding stored_host
get_host env stored default = if is_empty (strip env) then stored_host default stored else strip env

-- What run keeps of the plugin and the IDB.
pub record Plugin : Type 0 where
  pub running : Bool
  pub host : Text
  pub port : ℕ
  pub stored : Option Text
  pub stored_port : Option ℕ

-- IdaMcp.run, where the server's start and stop may fail: a failure is told, and leaves it as it was.
unfoldable pub run : Bool → Plugin → Plugin
unfolding is_loopback
run succeeds p =
    if not succeeds then p else if p.running then record p { running = false } else record p {
      running = true;
      stored = if is_loopback p.host then some p.host else p.stored;
      stored_port = some p.port;
    }

-- unload_package: the modules that are left
unfoldable pub unload_package : Text → List Text → List Text
unload_package name modules = keep (λ m. not (m == name || starts_with (name ++ lit ".") m)) modules
