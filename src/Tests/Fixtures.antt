-- ===== src/Tests/Fixtures.antt =====
-- A small server with two tools, and its requests.
use ida_mcp.Prelude.{
  ℕ, true, false, Option, none, some, ◌⊎◌, inl, inr, [], ◌∷◌, ◌==◌, text_eq, if◌then◌else◌,
}
use ida_mcp.Text.{Text}
use ida_mcp.Json.{Value, str, obj, end, Float}
use ida_mcp.Exec.{pure}
use ida_mcp.State.{State, Stats}
use ida_mcp.Jsonrpc.{Env, Method}
use ida_mcp.Mcp.Server.{Server, Context, Tool}

abbrev pub word : ℕ → Text
word c = c ∷ []

-- The tool "r" reads, the tool "u" is unsafe.
abbrev pub reader : Text
reader = word b'r'

abbrev pub patcher : Text
patcher = word b'u'

abbrev pub secret : Text
secret = word b't'

-- A library whose json.loads knows the text "{}" only.
abbrev pub loads_object : Text → Value ⊎ Text
loads_object [] = inr []
loads_object (c ∷ t) = if c ∷ t == b'{' ∷ b'}' ∷ [] then inl (obj end) else inr (word b'?')

abbrev pub env : Env
env = record {
  loads = loads_object;
  dumps = λ v. word b'v';
  dumps_spaced = λ v. word b'v';
  to_str = λ v. word b's';
  exception_text = λ e. word b'e';
  traceback = λ e. word b'b';
}

abbrev pub no_float : Text → Option Float
no_float t = none

abbrev pub answers_ok : Method
answers_ok args = pure (str (word b'k'))

abbrev pub a_tool : Tool
a_tool = record { body = answers_ok; parameters = []; doc = [] }

abbrev pub server : Server
server = record {
  tools = (reader, a_tool) ∷ (patcher, a_tool) ∷ [];
  unsafe_tools = patcher ∷ [];
  extensions_registry = [];
  auth_token = some secret;
  max_output_chars = 100;
  max_concurrent_tools = some 1;
  audit_path = none;
}

-- A request with the token and the unsafe flag, and one without.
abbrev pub trusted : Context
trusted = record {
  unsafe_requested = true;
  groups = [];
  token = some secret;
  profile_name = none;
  profile_set = none;
}

abbrev pub stranger : Context
stranger = record {
  unsafe_requested = false;
  groups = [];
  token = none;
  profile_name = none;
  profile_set = none;
}

abbrev pub no_stats : Stats
no_stats = record { tools = []; total_calls = 0; total_errors = 0; total_busy = 0 }

abbrev pub state_of : Value → State
state_of id = record {
  request_id = id;
  cancel_event = none;
  pending = [];
  fired = [];
  next_event = 0;
  gate = 1;
  stats = no_stats;
  audit = [];
  now = 0;
}

abbrev pub idle : State
idle = state_of (str (word b'1'))
